-- ===== src/Process/Populate.antt =====
-- The population of mapped pages, kernel/src/process/populate.rs and populated_address_space.rs, and the
-- marker of kernel/src/process/loaded_address_space.rs. The writer of pages is a state with its operations.
pub mod Laws
pub mod Bytes
pub mod Round
pub mod Contents
pub mod Whole
use x.Base.{
  ℕ, zero, suc, ◌+◌, ◌-◌, Bool, true, false, not, ◌||◌, Option, none, some, List, [], ◌∷◌, length,
  take, drop, ltb, leb, nat_eq, if◌then◌else◌, checked_add, Result, ok, err, map_err, ok_or,
  refuse_if, ◌>>=◌,
}
use x.Memory.Page.{page_base, page_size_4k}
use x.Process.AddressSpace.{AddressSpaceId, AddressSpaceSpec, id_eq}
use x.Process.Elf.{ElfImage, LoadSegment}
use x.Process.Image.{ProcessImage}
use x.Process.Loader.{LoadResult, MappedPage, page}
use x.Process.Builder.{BuiltAddressSpace, MappedStackPage}
use x.Process.Launch.{PopulatedAddressSpace}

pub data PopulateError : Type 0 where
  missing_mapped_page segment_outside_mapping file_range_invalid address_overflow : PopulateError

-- The operations take the address of a frame and an offset in it.
pub record ImagePageWriter (W E : Type 0) : Type 0 where
  pub copy_into_page : W → ℕ → ℕ → List ℕ → W × Result E (Unit {0})
  pub zero_page_range : W → ℕ → ℕ → ℕ → W × Result E (Unit {0})

-- `(0..mapped_pages).find(..)`, from an index on.
unfoldable pub find_from : ℕ → List MappedPage → ℕ → Option ℕ
find_from index [] virtual_address = none
find_from index (p ∷ ps) virtual_address =
    if nat_eq p.virtual_address virtual_address
    then some index
    else find_from (suc index) ps virtual_address

unfoldable pub find_mapped_page : LoadResult → ℕ → Option ℕ
unfolding find_from
find_mapped_page loaded virtual_address = find_from 0 loaded.pages virtual_address

-- `usize::min` and `u64::min`
abbrev pub least : ℕ → ℕ → ℕ
least a b = if leb a b then a else b

-- One piece of a segment: what lies in one page.
pub record Chunk : Type 0 where
  pub physical : ℕ
  pub page_offset : ℕ
  pub len : ℕ

-- The part of a round of the loop before it writes.
unfoldable pub next_chunk : LoadResult → LoadSegment → ℕ → ℕ → Result PopulateError Chunk
unfolding find_mapped_page page
next_chunk loaded segment memory_end offset = do
  virtual_address ← ok_or (checked_add segment.virtual_range.start offset) address_overflow
  _ ←
      refuse_if (leb segment.virtual_range.end virtual_address || leb memory_end virtual_address)
        segment_outside_mapping
  let base = page_base virtual_address
  let page_offset = virtual_address - base
  let chunk = least (segment.memory_size - offset) (page_size_4k - page_offset)
  mapped_index ← ok_or (find_mapped_page loaded base) missing_mapped_page
  mapped ← ok_or (page loaded mapped_index) missing_mapped_page
  ok (record { physical = mapped.physical_address; page_offset = page_offset; len = chunk })

-- The bytes of a segment in the file, and where it ends in memory.
unfoldable pub file_part : List ℕ → LoadSegment → Result PopulateError (List ℕ × ℕ)
file_part bytes segment = do
  file_end ← ok_or (checked_add segment.file_offset segment.file_size) file_range_invalid
  _ ← refuse_if (ltb (length bytes) file_end) file_range_invalid
  memory_end ← ok_or (checked_add segment.virtual_range.start segment.memory_size) address_overflow
  ok (take (file_end - segment.file_offset) (drop segment.file_offset bytes), memory_end)

module _ {W E : Type 0} (writer : ImagePageWriter W E) where
  -- The copy of a round: `copy_len` bytes of the file from `file_chunk_start` on, if there are any.
  unfoldable pub copy_bytes : List ℕ → Chunk → ℕ → ℕ → W → W × Result PopulateError (Unit {0})
  copy_bytes file_bytes c file_chunk_start copy_len w =
      if nat_eq copy_len 0 then (w, ok tt) else elim (checked_add file_chunk_start copy_len) [
        | none ↦ (w, err file_range_invalid)
        | some source_end ↦
            let (w', r) =
              writer.copy_into_page w c.physical c.page_offset
                (take (source_end - file_chunk_start) (drop file_chunk_start file_bytes)) in
            (w', map_err (λ _. file_range_invalid) r)
      ]

  unfoldable pub copy_chunk : List ℕ → ℕ → Chunk → ℕ → W → W × Result PopulateError (Unit {0})
  unfolding copy_bytes
  copy_chunk file_bytes file_size c offset w =
      let file_chunk_start = least offset file_size in
      copy_bytes file_bytes c file_chunk_start (least (length file_bytes - file_chunk_start) c.len)
        w

  -- A round of the loop: the whole page is cleared, then written.
  unfoldable pub populate_chunk :
      LoadResult → LoadSegment → List ℕ → ℕ → ℕ → W → W × Result PopulateError ℕ
  unfolding next_chunk copy_chunk
  populate_chunk loaded segment file_bytes memory_end offset w =
      elim (next_chunk loaded segment memory_end offset) [
        | err e ↦ (w, err e)
        | ok c ↦
            let (w1, cleared) = writer.zero_page_range w c.physical 0 page_size_4k in
            elim cleared [
              | err _ ↦ (w1, err file_range_invalid)
              | ok _ ↦
                  let (w2, copied) = copy_chunk file_bytes segment.file_size c offset w1 in
                  (w2, copied >>= λ _. ok_or (checked_add offset c.len) address_overflow)
            ]
      ]

  -- The loop over a segment, on fuel. Each round takes at least one byte, so the size is enough.
  unfoldable pub populate_chunks :
      ℕ → LoadResult → LoadSegment → List ℕ → ℕ → ℕ → W → W × Result PopulateError (Unit {0})
  unfolding populate_chunk
  populate_chunks zero loaded segment file_bytes memory_end offset w =
      (w, if ltb offset segment.memory_size then err address_overflow else ok tt)
  populate_chunks (suc fuel) loaded segment file_bytes memory_end offset w =
      elim (ltb offset segment.memory_size) [
        | false ↦ (w, ok tt)
        | true ↦
            let (w', r) = populate_chunk loaded segment file_bytes memory_end offset w in
            elim r [
              | err e ↦ (w', err e)
              | ok next ↦ populate_chunks fuel loaded segment file_bytes memory_end next w'
            ]
      ]

  -- The loop over the segments of the image.
  unfoldable pub populate_segments :
      List ℕ → LoadResult → List LoadSegment → W → W × Result PopulateError (Unit {0})
  unfolding file_part populate_chunks
  populate_segments bytes loaded [] w = (w, ok tt)
  populate_segments bytes loaded (s ∷ ss) w = elim (file_part bytes s) [
    | err e ↦ (w, err e)
    | ok (file_bytes, memory_end) ↦
        let (w', r) = populate_chunks s.memory_size loaded s file_bytes memory_end 0 w in
        elim r [ err e ↦ (w', err e) | ok _ ↦ populate_segments bytes loaded ss w' ]
  ]

  unfoldable pub populate_image : ElfImage → LoadResult → W → W × Result PopulateError (Unit {0})
  unfolding populate_segments
  populate_image image loaded w = populate_segments image.bytes loaded image.segments w

pub data PopulationError : Type 0 where
  image_error : PopulateError → PopulationError
  stack_write_failed : PopulationError

module _ {W E : Type 0} (writer : ImagePageWriter W E) where
  -- The loop over the pages of the stack.
  unfoldable pub zero_stack : List MappedStackPage → W → W × Result PopulationError (Unit {0})
  zero_stack [] w = (w, ok tt)
  zero_stack (mapped ∷ rest) w =
      let (w', r) = writer.zero_page_range w mapped.physical_address 0 page_size_4k in
      elim r [ err _ ↦ (w', err stack_write_failed) | ok _ ↦ zero_stack rest w' ]

  unfoldable pub populate :
      ElfImage → BuiltAddressSpace → W → W × Result PopulationError PopulatedAddressSpace
  unfolding populate_image zero_stack
  populate image_bytes built w =
      let (w1, r) = populate_image writer image_bytes built.load w in
      elim r [
        | err e ↦ (w1, err (image_error e))
        | ok _ ↦
            let (w2, s) = zero_stack built.stack_pages w1 in
            (w2, s >>= λ _. ok (record { built = built }))
      ]

pub data LoadedAddressSpaceError : Type 0 where
  address_space_mismatch image_not_validated : LoadedAddressSpaceError

pub record LoadedAddressSpace : Type 0 where
  pub spec : AddressSpaceSpec
  pub image : ProcessImage

-- `LoadedAddressSpace::build`
unfoldable pub build_loaded :
    AddressSpaceSpec → ProcessImage → Result LoadedAddressSpaceError LoadedAddressSpace
build_loaded spec image =
    if not (id_eq image.address_space.id spec.id)
    then err address_space_mismatch
    else ok (record { spec = spec; image = image })

unfoldable pub loaded_id : LoadedAddressSpace → AddressSpaceId
loaded_id l = l.spec.id
