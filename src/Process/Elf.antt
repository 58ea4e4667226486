-- ===== src/Process/Elf.antt =====
-- The ELF64 parser, kernel/src/process/image.rs. The bytes are a list of numbers below 256; the
-- array of eight optional segments with its count is the list of the segments.
pub mod Segments
pub mod Laws
use x.Base.{
  ℕ, zero, suc, ◌+◌, ◌*◌, ◌/◌, ◌%◌, Bool, false, not, ◌&&◌, ◌||◌, Option, none, some, List, [], ◌∷◌,
  ◌++◌, nat_eq, ltb, leb, if◌then◌else◌, length, get_elem?, checked_add, checked_mul, Result, ok,
  err, ok_or, refuse_if, ◌>>=◌,
}
use x.Memory.Ranges.{VirtRange, virt_range, virt_len, virt_contains, is_user}

pub data ElfError : Type 0 where
  too_small bad_magic unsupported_class unsupported_endian unsupported_type : ElfError
  unsupported_machine invalid_program_table invalid_segment_range : ElfError
  invalid_segment_permissions invalid_entry : ElfError

pub record LoadSegment : Type 0 where
  pub virtual_range : VirtRange
  pub flags : ℕ
  pub file_offset : ℕ
  pub file_size : ℕ
  pub memory_size : ℕ

-- `flags & (1 << k) != 0`, for the bits `PF_X`, `PF_W` and `PF_R`.
abbrev pub has_x : ℕ → Bool
has_x flags = nat_eq (flags % 2) 1

abbrev pub has_w : ℕ → Bool
has_w flags = nat_eq (flags / 2 % 2) 1

abbrev pub has_r : ℕ → Bool
has_r flags = nat_eq (flags / 4 % 2) 1

unfoldable pub executable : LoadSegment → Bool
executable s = has_x s.flags

unfoldable pub writable : LoadSegment → Bool
writable s = has_w s.flags

unfoldable pub readable : LoadSegment → Bool
readable s = has_r s.flags

pub record ElfImage : Type 0 where
  pub bytes : List ℕ
  pub entry : ℕ
  pub segments : List LoadSegment

unfoldable pub segment_count : ElfImage → ℕ
segment_count i = length i.segments

unfoldable pub segment : ElfImage → ℕ → Option LoadSegment
segment i index = if leb (segment_count i) index then none else get_elem? i.segments index

-- `n` bytes from an offset, least significant first; `none` where the slice is out of range.
unfoldable pub read_bytes : List ℕ → ℕ → ℕ → Option ℕ
read_bytes bytes offset zero = some 0
read_bytes bytes offset (suc n) =
    let rest = read_bytes bytes (offset + 1) n in
    elim (get_elem? bytes offset) [
      | none ↦ none
      | some b ↦ elim rest [ none ↦ none | some high ↦ some (b + 256 * high) ]
    ]

unfoldable pub read_le : ℕ → List ℕ → ℕ → Option ℕ
unfolding read_bytes
read_le n bytes offset = elim (checked_add offset n) [
  | none ↦ none
  | some end ↦ if leb end (length bytes) then read_bytes bytes offset n else none
]

unfoldable pub read_u16 : List ℕ → ℕ → Option ℕ
unfolding read_le
read_u16 bytes offset = read_le 2 bytes offset

unfoldable pub read_u32 : List ℕ → ℕ → Option ℕ
unfolding read_le
read_u32 bytes offset = read_le 4 bytes offset

unfoldable pub read_u64 : List ℕ → ℕ → Option ℕ
unfolding read_le
read_u64 bytes offset = read_le 8 bytes offset

-- The checks on one `PT_LOAD` header.
unfoldable pub check_segment : ℕ → ℕ → ℕ → ℕ → ℕ → ℕ → Result ElfError LoadSegment
unfolding virt_range virt_len is_user
check_segment size flags file_offset virtual_address file_size memory_size = do
  _ ← refuse_if (has_w flags && has_x flags) invalid_segment_permissions
  _ ← refuse_if (ltb memory_size file_size) invalid_segment_range
  file_end ← ok_or (checked_add file_offset file_size) invalid_segment_range
  _ ← refuse_if (ltb size file_end) invalid_segment_range
  virtual_end ← ok_or (checked_add virtual_address memory_size) invalid_segment_range
  range ← ok_or (virt_range virtual_address virtual_end) invalid_segment_range
  _ ← refuse_if (nat_eq (virt_len range) 0 || not (is_user range)) invalid_segment_range
  ok (record {
    virtual_range = range;
    flags = flags;
    file_offset = file_offset;
    file_size = file_size;
    memory_size = memory_size;
  })

-- One round of the loop over the program headers; `none` is a header of another kind.
unfoldable pub read_segment : List ℕ → ℕ → Result ElfError (Option LoadSegment)
unfolding check_segment read_u32 read_u64
read_segment bytes base = do
  kind ← ok_or (read_u32 bytes base) invalid_program_table
  if not (nat_eq kind 1) then ok none else (do
    flags ← ok_or (read_u32 bytes (base + 4)) invalid_program_table
    file_offset ← ok_or (read_u64 bytes (base + 8)) invalid_segment_range
    virtual_address ← ok_or (read_u64 bytes (base + 16)) invalid_segment_range
    file_size ← ok_or (read_u64 bytes (base + 32)) invalid_segment_range
    memory_size ← ok_or (read_u64 bytes (base + 40)) invalid_segment_range
    s ← check_segment (length bytes) flags file_offset virtual_address file_size memory_size
    ok (some s))

abbrev pub keep_segment : List LoadSegment → Option LoadSegment → List LoadSegment
keep_segment segments none = segments
keep_segment segments (some s) = segments ++ s ∷ []

abbrev pub loads : ℕ → Option LoadSegment → Bool
loads entry none = false
loads entry (some s) = virt_contains s.virtual_range entry

-- The loop over `left` headers from `base` on: the segments, and whether one holds the entry.
unfoldable pub read_segments :
    List ℕ → ℕ → ℕ → ℕ → ℕ → List LoadSegment → Bool → Result ElfError (List LoadSegment × Bool)
unfolding read_segment
read_segments bytes entry size zero base segments loaded = ok (segments, loaded)
read_segments bytes entry size (suc left) base segments loaded = elim (read_segment bytes base) [
  | err e ↦ err e
  | ok s ↦
      read_segments bytes entry size left (base + size) (keep_segment segments s)
        (loaded || loads entry s)
]

-- `bytes[0..4] == ELF_MAGIC`, and `bytes[i]` below the length.
abbrev pub byte_is : List ℕ → ℕ → ℕ → Bool
byte_is bytes i b = elim (get_elem? bytes i) [ none ↦ false | some c ↦ nat_eq c b ]

unfoldable pub check_ident : List ℕ → Result ElfError (Unit {0})
check_ident bytes =
    if ltb (length bytes) 64
    then err too_small
    else if not (
        byte_is bytes 0 0x7f
        && byte_is bytes 1 b'E'
        && byte_is bytes 2 b'L'
        && byte_is bytes 3 b'F')
    then err bad_magic
    else if not (byte_is bytes 4 2)
    then err unsupported_class
    else if not (byte_is bytes 5 1)
    then err unsupported_endian
    else ok tt

-- The program header table: its offset, the size of a header and their number.
unfoldable pub check_table : List ℕ → ℕ → ℕ → ℕ → Result ElfError (Unit {0})
check_table bytes phoff phentsize phnum = do
  _ ← refuse_if (ltb phentsize 56 || nat_eq phnum 0 || ltb 8 phnum) invalid_program_table
  table_size ← ok_or (checked_mul phentsize phnum) invalid_program_table
  table_end ← ok_or (checked_add phoff table_size) invalid_program_table
  if ltb (length bytes) table_end then err invalid_program_table else ok tt

unfoldable pub parse : List ℕ → Result ElfError ElfImage
unfolding check_ident check_table read_segments read_u16 read_u64
parse bytes = do
  _ ← check_ident bytes
  kind ← ok_or (read_u16 bytes 16) too_small
  _ ← refuse_if (not (nat_eq kind 2)) unsupported_type
  machine ← ok_or (read_u16 bytes 18) too_small
  _ ← refuse_if (not (nat_eq machine 62)) unsupported_machine
  entry ← ok_or (read_u64 bytes 24) too_small
  phoff ← ok_or (read_u64 bytes 32) too_small
  phentsize ← ok_or (read_u16 bytes 54) too_small
  phnum ← ok_or (read_u16 bytes 56) too_small
  _ ← check_table bytes phoff phentsize phnum
  (segments, loaded) ← read_segments bytes entry phentsize phnum phoff [] false
  if nat_eq (length segments) 0 || not loaded
      then err invalid_entry
      else ok (record { bytes = bytes; entry = entry; segments = segments })
