-- ===== src/Process/Elf/Laws.antt =====
-- What the parser reads of a whole program: the file header and the table of program headers.
use x.Base.{
  ℕ, ◌+◌, ◌*◌, ◌≤◌, ◌<◌, ◌≡◌, ◌≢◌, ◌∙◌, inl, inr, refl, sym, ap, Bool, true, false, ◌||◌, not, some,
  List, [], length, get_elem?, byte_at, nat_eq, ok, Option-cases, Bool-cases, Result-cases, arith,
}
use x.Process.Elf.{
  ElfImage, read_u16, read_u64, read_segments, check_ident, byte_is, check_table, parse,
}
use x.Process.Elf.Segments.{
  word, byte_at-get_elem?, read_u16-word, read_u64-word, Segments, read_segments-Segments,
}

-- An image is what its file says: the file starts with the ELF magic number and is a 64-bit, little-endian
-- executable for x86_64; the entry point stands at offset 24; and the segments are those of the table of
-- program headers, of which the offset, the size of a header and the number of headers stand at the offsets
-- 32, 54 and 56. There are one to eight headers, each of at least 56 bytes, and they lie in the file.
pub record Parsed (bytes : List ℕ) (image : ElfImage) : Type 0 where
  pub bytes_kept : image.bytes ≡ bytes
  pub magic :
      (byte_at bytes 0 ≡ 0x7f)
      × (byte_at bytes 1 ≡ 0x45)
      × (byte_at bytes 2 ≡ 0x4c)
      × (byte_at bytes 3 ≡ 0x46)
  pub class_and_order : (byte_at bytes 4 ≡ 2) × (byte_at bytes 5 ≡ 1)
  pub kind : word bytes 16 2 ≡ 2
  pub machine : word bytes 18 2 ≡ 62
  pub entry : image.entry ≡ word bytes 24 8
  pub headers : (56 ≤ word bytes 54 2) × (0 < word bytes 56 2) × (word bytes 56 2 ≤ 8)
  pub table_in_file : word bytes 32 8 + word bytes 54 2 * word bytes 56 2 ≤ length bytes
  pub segments : Segments bytes (word bytes 54 2) (word bytes 56 2) (word bytes 32 8) image.segments
  pub some_segment : image.segments ≢ []

check_table-parts :
    (bytes : List ℕ) (phoff phentsize phnum : ℕ)
    → check_table bytes phoff phentsize phnum ≡ ok tt
    → (56 ≤ phentsize) × (0 < phnum) × (phnum ≤ 8) × (phoff + phentsize * phnum ≤ length bytes)
unfolding check_table
check_table-parts bytes phoff phentsize phnum h =
    (ground arith, ground arith, ground arith, ground arith)

byte_is-at : (bytes : List ℕ) (i b : ℕ) → byte_is bytes i b ≡ true → byte_at bytes i ≡ b
byte_is-at bytes i b h = elim (Option-cases (get_elem? bytes i)) [
  | inl out ↦ absurd (ground arith)
  | inr (c, at) ↦ let here = byte_at-get_elem? bytes i c at in ground arith
]

check_ident-parts :
    (bytes : List ℕ)
    → check_ident bytes ≡ ok tt
    → (byte_is bytes 0 0x7f ≡ true)
      × (byte_is bytes 1 0x45 ≡ true)
      × (byte_is bytes 2 0x4c ≡ true)
      × (byte_is bytes 3 0x46 ≡ true)
      × (byte_is bytes 4 2 ≡ true)
      × (byte_is bytes 5 1 ≡ true)
unfolding check_ident
check_ident-parts bytes h =
    (ground arith, ground arith, ground arith, ground arith, ground arith, ground arith)

-- What the parser has read on the way to an image.
record Steps (bytes : List ℕ) (image : ElfImage) : Type 0 where
  pub phoff : ℕ
  pub phentsize : ℕ
  pub phnum : ℕ
  pub loaded : Bool
  pub ident : check_ident bytes ≡ ok tt
  pub kind : read_u16 bytes 16 ≡ some 2
  pub machine : read_u16 bytes 18 ≡ some 62
  pub entry : read_u64 bytes 24 ≡ some image.entry
  pub offset : read_u64 bytes 32 ≡ some phoff
  pub entry_size : read_u16 bytes 54 ≡ some phentsize
  pub number : read_u16 bytes 56 ≡ some phnum
  pub table : check_table bytes phoff phentsize phnum ≡ ok tt
  pub read :
      read_segments bytes image.entry phentsize phnum phoff [] false ≡ ok (image.segments, loaded)
  pub some_segment : nat_eq (length image.segments) 0 ≡ false
  pub bytes_kept : image.bytes ≡ bytes

parse_table :
    (bytes : List ℕ) (image : ElfImage) (entry phoff phentsize phnum : ℕ)
    → check_ident bytes ≡ ok tt
    → read_u16 bytes 16 ≡ some 2
    → read_u16 bytes 18 ≡ some 62
    → read_u64 bytes 24 ≡ some entry
    → read_u64 bytes 32 ≡ some phoff
    → read_u16 bytes 54 ≡ some phentsize
    → read_u16 bytes 56 ≡ some phnum
    → parse bytes ≡ ok image
    → Steps bytes image
unfolding parse
parse_table bytes image entry phoff phentsize phnum i k m e o z n h =
    elim (Result-cases (check_table bytes phoff phentsize phnum)) [
      | inr (x, bad) ↦ absurd (ground arith)
      | inl (tt, table) ↦
          elim (Result-cases (read_segments bytes entry phentsize phnum phoff [] false)) [
            | inr (x, bad) ↦ absurd (ground arith)
            | inl ((ss, loaded), read) ↦ elim (Bool-cases (nat_eq (length ss) 0 || not loaded)) [
              | inl bad ↦ absurd (ground arith)
              | inr fine ↦
                  let same : image ≡ record { bytes = bytes; entry = entry; segments = ss } =
                    ground arith in
                  rw same (record {
                    phoff = phoff;
                    phentsize = phentsize;
                    phnum = phnum;
                    loaded = loaded;
                    ident = i;
                    kind = k;
                    machine = m;
                    entry = e;
                    offset = o;
                    entry_size = z;
                    number = n;
                    table = table;
                    read = read;
                    some_segment = ground arith;
                    bytes_kept = refl;
                  })
            ]
          ]
    ]

parse-Steps : (bytes : List ℕ) (image : ElfImage) → parse bytes ≡ ok image → Steps bytes image
unfolding parse
parse-Steps bytes image h = elim (Result-cases (check_ident bytes)) [
  | inr (x, bad) ↦ absurd (ground arith)
  | inl (tt, i) ↦ elim (Option-cases (read_u16 bytes 16)) [
    | inl out ↦ absurd (ground arith)
    | inr (kind, k) ↦ elim (Option-cases (read_u16 bytes 18)) [
      | inl out ↦ absurd (ground arith)
      | inr (machine, m) ↦ elim (Option-cases (read_u64 bytes 24)) [
        | inl out ↦ absurd (ground arith)
        | inr (entry, e) ↦ elim (Option-cases (read_u64 bytes 32)) [
          | inl out ↦ absurd (ground arith)
          | inr (phoff, o) ↦ elim (Option-cases (read_u16 bytes 54)) [
            | inl out ↦ absurd (ground arith)
            | inr (size, z) ↦ elim (Option-cases (read_u16 bytes 56)) [
              | inl out ↦ absurd (ground arith)
              | inr (number, n) ↦
                  let two : kind ≡ 2 = ground arith in
                  let x86_64 : machine ≡ 62 = ground arith in
                  parse_table bytes image entry phoff size number i (k ∙ ap some two)
                    (m ∙ ap some x86_64) e o z n h
            ]
          ]
        ]
      ]
    ]
  ]
]

pub parse-Parsed : (bytes : List ℕ) (image : ElfImage) → parse bytes ≡ ok image → Parsed bytes image
parse-Parsed bytes image h =
    let s = parse-Steps bytes image h in
    let (m0, m1, m2, m3, class, order) = check_ident-parts bytes s.ident in
    let (size, some_headers, few, fits) =
      check_table-parts bytes s.phoff s.phentsize s.phnum s.table in
    let o = read_u64-word bytes 32 s.phoff s.offset in
    let z = read_u16-word bytes 54 s.phentsize s.entry_size in
    let n = read_u16-word bytes 56 s.phnum s.number in
    let (ss, all, found) =
      read_segments-Segments bytes image.entry s.phentsize s.phnum s.phoff [] image.segments false
        s.loaded s.read in
    record {
      bytes_kept = s.bytes_kept;
      magic = (
        byte_is-at bytes 0 0x7f m0,
        byte_is-at bytes 1 0x45 m1,
        byte_is-at bytes 2 0x4c m2,
        byte_is-at bytes 3 0x46 m3,
      );
      class_and_order = (byte_is-at bytes 4 2 class, byte_is-at bytes 5 1 order);
      kind = sym (read_u16-word bytes 16 2 s.kind);
      machine = sym (read_u16-word bytes 18 62 s.machine);
      entry = read_u64-word bytes 24 image.entry s.entry;
      headers = rw (sym z, sym n) (size, some_headers, few);
      table_in_file = rw (sym o, sym z, sym n) fits;
      segments = rw (sym o, sym z, sym n, all) found;
      some_segment = λ e. absurd (ground (arith, s.some_segment, e));
    }
