-- ===== src/Examples/PopulateRuns.antt =====
-- A segment of three bytes of the file and thirteen zeros, in one page, with one page of stack.
use x.Base.{
  byte_at, ℕ, zero, suc, ◌+◌, ◌-◌, ◌≡◌, ◌≢◌, refl, ap, Bool, true, false, ◌&&◌, some, [], ◌∷◌,
  length, get_elem?, nat_eq, leb, ltb, if◌then◌else◌, ok, arith,
}
use mathlib.Core.Path.{fun_ext}
use x.Process.Elf.{ElfImage, LoadSegment}
use x.Process.Loader.{MappedPage}
use x.Process.Builder.{BuiltAddressSpace, MappedStackPage}
use x.Process.Populate.{ImagePageWriter, populate}
use x.Process.Populate.Round.{Stores}
use x.Process.Populate.Contents.{OneFrameEach, Holds}
use x.Process.Populate.Whole.{Apart, populate-Holds}
use x.Examples.ImageRuns.{image}

-- Memory, by frame and offset.
abbrev Frames : Type 0
Frames = ℕ → ℕ → ℕ

abbrev covers : ℕ → ℕ → ℕ → ℕ → ℕ → Bool
covers p offset len q i = nat_eq q p && (leb offset i && ltb i (offset + len))

abbrev writer : ImagePageWriter Frames (Unit {0})
writer = record {
  copy_into_page = λ w p offset bs.
      ((λ q i. if covers p offset (length bs) q i then byte_at bs (i - offset) else w q i), ok tt);
  zero_page_range =
      λ w p offset len. ((λ q i. if covers p offset len q i then 0 else w q i), ok tt);
}

abbrev frame : Frames → ℕ → ℕ → ℕ
frame w = w

writer-Stores : Stores writer frame
writer-Stores = record {
  confined = record {
    copy_keeps = λ w p offset bs q other. fun_ext (λ i. ground arith);
    zero_keeps = λ w p offset len q other. fun_ext (λ i. ground arith);
  };
  zeroed = λ w p offset len i h low high. ground arith;
  copied = λ w p offset bs i h low.
      let e : covers p offset (length bs) p (offset + i) ≡ true = ground arith in
      let d : (offset + i) - offset ≡ i = omega arith in rw e (ap (byte_at bs) d);
  copy_beyond = λ w p offset bs i h high. ground arith;
}

abbrev segment : LoadSegment
segment = record {
  virtual_range = record { start = 0x401000; end = 0x401010 };
  flags = 5;
  file_offset = 0;
  file_size = 3;
  memory_size = 16;
}

abbrev elf : ElfImage
elf = record { bytes = 7 ∷ 8 ∷ 9 ∷ []; entry = 0x401000; segments = segment ∷ [] }

abbrev built : BuiltAddressSpace
built = record {
  image = image;
  load = record {
    entry = 0x401000;
    pages = record { virtual_address = 0x401000; physical_address = 0x9000 } ∷ [];
  };
  stack_pages =
      record {
        virtual_page = record { start_address = 0xffff7fffffffe000 };
        physical_address = 0xa000;
      }
      ∷ [];
  entry_executable = true;
  stack_writable = true;
  stack_executable = false;
}

-- Memory before, with the same stale byte everywhere.
abbrev stale : Frames
stale q i = 255

populated_ok : (populate writer elf built stale).1 ≡ ok (record { built = built })
unfolding populate
populated_ok = refl

built-OneFrameEach : OneFrameEach writer frame writer-Stores built.load
built-OneFrameEach zero zero p q at_i at_j e = ground (arith, at_i, at_j)
built-OneFrameEach zero (suc j) p q at_i at_j e = absurd (ground (arith, at_j))
built-OneFrameEach (suc i) j p q at_i at_j e = absurd (ground (arith, at_i))

stack_elsewhere :
    (i j : ℕ) (p : MappedPage) (q : MappedStackPage)
    → get_elem? built.load.pages i ≡ some p
    → get_elem? built.stack_pages j ≡ some q
    → p.physical_address ≢ q.physical_address
stack_elsewhere zero zero p q at_i at_j e = absurd (ground (arith, at_i, at_j))
stack_elsewhere zero (suc j) p q at_i at_j e = absurd (ground (arith, at_j))
stack_elsewhere (suc i) j p q at_i at_j e = absurd (ground (arith, at_i))

one_segment : Apart elf.segments
one_segment zero zero s t o u at_k at_l ne low high = absurd (ne refl)
one_segment zero (suc l) s t o u at_k at_l ne low high = absurd (ground (arith, at_l))
one_segment (suc k) l s t o u at_k at_l ne low high = absurd (ground (arith, at_k))

populate-Holds_example :
    Holds writer frame writer-Stores built.load segment (populate writer elf built stale).0 1 8
populate-Holds_example =
    populate-Holds writer frame writer-Stores elf built (record { built = built }) stale
      populated_ok built-OneFrameEach stack_elsewhere one_segment 0 segment 1 refl (omega arith)
