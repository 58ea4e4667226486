-- ===== src/Process/LoadPlan/Laws.antt =====
-- What a load plan guarantees to the mapper.
use x.Base.{
  ℕ, ◌%◌, ◌≤◌, ◌<◌, ◌≡◌, ◌≢◌, ◌∙◌, sym, refl, Bool, true, false, ◌&&◌, ◌||◌, List, [], ◌∷◌, ◌++◌,
  ◌/◌, ◌⊎◌, nat_eq, leb, Bool-cases, ltb, ok, err, Result-cases, inl, inr, arith,
}
use mathlib.Core.List.{append-nil, append_assoc}
use x.Memory.Ranges.{VirtRange, virt_contains}
use x.Memory.Layout.{default}
use x.Process.AddressSpace.{AddressSpaceId, new_spec}
use x.Process.Elf.{LoadSegment, ElfImage, executable, has_x}
use x.Process.LoadPlan.{
  SegmentMapping, LoadPlan, ranges_overlap, any_overlap, mapping, plan_segment, plan_segments,
  build,
}

-- A mapping is of whole pages, between the image base and the guard, and not both writable and
-- executable.
pub record IsSafe (m : SegmentMapping) : Type 0 where
  pub aligned_start : m.virtual_range.start % 4096 ≡ 0
  pub aligned_end : m.virtual_range.end % 4096 ≡ 0
  pub above_base : default.image_base ≤ m.virtual_range.start
  pub below_stack : m.virtual_range.start < default.stack.start
  pub clear_of_guard :
      (ltb default.guard.start m.virtual_range.end && ltb m.virtual_range.start default.guard.end)
      ≡ false
  pub not_both : (nat_eq (m.flags / 2 % 2) 1 && nat_eq (m.flags % 2) 1) ≡ false

abbrev pub AllSafe : List SegmentMapping → Type 0
AllSafe [] = Unit {0}
AllSafe (m ∷ ms) = IsSafe m × AllSafe ms

-- A range ends before each mapping of a list begins, or begins after it ends.
abbrev pub Clear : VirtRange → List SegmentMapping → Type 0
Clear r [] = Unit {0}
Clear r (m ∷ ms) = ((r.end ≤ m.virtual_range.start) ⊎ (m.virtual_range.end ≤ r.start)) × Clear r ms

-- No two mappings overlap.
abbrev pub Apart : List SegmentMapping → Type 0
Apart [] = Unit {0}
Apart (m ∷ ms) = Clear m.virtual_range ms × Apart ms

-- Ranges that do not overlap follow one another.
ranges_overlap-false :
    (a b : VirtRange) → ranges_overlap a b ≡ false → (b.end ≤ a.start) ⊎ (a.end ≤ b.start)
unfolding ranges_overlap
ranges_overlap-false a b h = elim (Bool-cases (leb b.end a.start)) [
  | inl after ↦ inl (ground arith)
  | inr not_after ↦ inr (ground arith)
]

Clear-push :
    (r : VirtRange) (ms : List SegmentMapping) (m : SegmentMapping)
    → ranges_overlap m.virtual_range r ≡ false
    → Clear r ms
    → Clear r (ms ++ m ∷ [])
Clear-push r [] m h c = (ranges_overlap-false m.virtual_range r h, tt)
Clear-push r (n ∷ ms) m h c = (c.0, Clear-push r ms m h c.1)

Apart-push :
    (ms : List SegmentMapping) (m : SegmentMapping)
    → any_overlap m.virtual_range ms ≡ false
    → Apart ms
    → Apart (ms ++ m ∷ [])
unfolding any_overlap
Apart-push [] m h a = (tt, tt)
Apart-push (n ∷ ms) m h a =
    (Clear-push n.virtual_range ms m (ground arith) a.0, Apart-push ms m (ground arith) a.1)

AllSafe-push :
    (ms : List SegmentMapping) (m : SegmentMapping) → IsSafe m → AllSafe ms → AllSafe (ms ++ m ∷ [])
AllSafe-push [] m h a = (h, tt)
AllSafe-push (n ∷ ms) m h a = (a.0, AllSafe-push ms m h a.1)

plan_segment_lem :
    (id : AddressSpaceId) (prior : List SegmentMapping) (s : LoadSegment) (r : VirtRange)
    → plan_segment (new_spec id) prior s ≡ ok r
    → IsSafe (mapping r s)
      × (any_overlap r prior ≡ false)
      × (r.start ≤ s.virtual_range.start)
      × (s.virtual_range.end ≤ r.end)
unfolding plan_segment new_spec default
plan_segment_lem id prior s r h = ground arith

-- Whether an executable mapping holds the entry point.
unfoldable pub entry_mapped : ℕ → List SegmentMapping → Bool
entry_mapped entry [] = false
entry_mapped entry (m ∷ ms) =
    (nat_eq (m.flags % 2) 1 && (leb m.virtual_range.start entry && ltb entry m.virtual_range.end))
    || entry_mapped entry ms

entry_mapped-push :
    (entry : ℕ) (ms : List SegmentMapping) (m : SegmentMapping)
    → entry_mapped entry (ms ++ m ∷ [])
      ≡ (entry_mapped entry ms || (has_x m.flags && virt_contains m.virtual_range entry))
unfolding entry_mapped virt_contains
entry_mapped-push entry [] m = ground arith
entry_mapped-push entry (n ∷ ms) m = ground (arith, entry_mapped-push entry ms m)

-- One mapping for each segment, with its flags, that holds the whole segment.
abbrev pub Covers : List LoadSegment → List SegmentMapping → Type 0
Covers [] [] = Unit {0}
Covers [] (m ∷ ms) = ⊥
Covers (s ∷ ss) [] = ⊥
Covers (s ∷ ss) (m ∷ ms) =
    (m.flags ≡ s.flags)
    × (m.virtual_range.start ≤ s.virtual_range.start)
    × (s.virtual_range.end ≤ m.virtual_range.end)
    × Covers ss ms

Covers-push :
    (ss : List LoadSegment) (ms : List SegmentMapping) (s : LoadSegment) (m : SegmentMapping)
    → Covers ss ms
    → m.flags ≡ s.flags
    → m.virtual_range.start ≤ s.virtual_range.start
    → s.virtual_range.end ≤ m.virtual_range.end
    → Covers (ss ++ s ∷ []) (ms ++ m ∷ [])
Covers-push [] [] s m c f a b = (f, a, b, tt)
Covers-push [] (n ∷ ms) s m c f a b = absurd c
Covers-push (t ∷ ss) [] s m c f a b = absurd c
Covers-push (t ∷ ss) (n ∷ ms) s m (g, x, y, c) f a b = (g, x, y, Covers-push ss ms s m c f a b)

-- What a plan promises of the segments of the image.
pub record Plans (entry : ℕ) (ss : List LoadSegment) (ms : List SegmentMapping) : Type 0 where
  pub safe : AllSafe ms
  pub apart : Apart ms
  pub covers : Covers ss ms

loop-step :
    (id : AddressSpaceId) (entry : ℕ) (s : LoadSegment) (ss : List LoadSegment)
    (prior : List SegmentMapping) (x : Bool) (r : VirtRange)
    → plan_segment (new_spec id) prior s ≡ ok r
    → plan_segments (new_spec id) entry (s ∷ ss) prior x
      ≡ plan_segments
          (new_spec id)
          entry
          ss
          (prior ++ mapping r s ∷ [])
          (x || (executable s && virt_contains r entry))
unfolding plan_segments
loop-step id entry s ss prior x r h = rw (h, plan_segments)

loop-stop :
    (id : AddressSpaceId) (entry : ℕ) (s : LoadSegment) (ss : List LoadSegment)
    (prior : List SegmentMapping) (x : Bool) {e : _}
    → plan_segment (new_spec id) prior s ≡ err e
    → plan_segments (new_spec id) entry (s ∷ ss) prior x ≡ err e
unfolding plan_segments
loop-stop id entry s ss prior x h = rw (h, plan_segments)

flag :
    (entry : ℕ) (prior : List SegmentMapping) (x : Bool) (r : VirtRange) (s : LoadSegment)
    → x ≡ entry_mapped entry prior
    → (x || (executable s && virt_contains r entry))
      ≡ entry_mapped entry (prior ++ mapping r s ∷ [])
unfolding executable
flag entry prior x r s e = ground (arith, entry_mapped-push entry prior (mapping r s))

finished :
    (id : AddressSpaceId) (entry : ℕ) (prior ms : List SegmentMapping) (x y : Bool)
    → plan_segments (new_spec id) entry [] prior x ≡ ok (ms, y)
    → (prior ≡ ms) × (x ≡ y)
unfolding plan_segments
finished id entry prior ms x y h = (ground arith, ground arith)

build-bad :
    (id : AddressSpaceId) (image : ElfImage) (plan : LoadPlan) {e : _}
    → plan_segments (new_spec id) image.entry image.segments [] false ≡ err e
    → build (new_spec id) image ≢ ok plan
unfolding build
build-bad id image plan bad h = ground arith

build-good :
    (id : AddressSpaceId) (image : ElfImage) (plan : LoadPlan) (ms : List SegmentMapping) (y : Bool)
    → plan_segments (new_spec id) image.entry image.segments [] false ≡ ok (ms, y)
    → build (new_spec id) image ≡ ok plan
    → (plan.entry ≡ image.entry) × (plan.segments ≡ ms) × (y ≡ true)
unfolding build
build-good id image plan ms y good h = ground arith

plan_segments-Plans :
    (id : AddressSpaceId) (entry : ℕ) (seen ss : List LoadSegment) (prior ms : List SegmentMapping)
    (x y : Bool)
    → Plans entry seen prior
    → x ≡ entry_mapped entry prior
    → plan_segments (new_spec id) entry ss prior x ≡ ok (ms, y)
    → Plans entry (seen ++ ss) ms × (y ≡ entry_mapped entry ms)
plan_segments-Plans id entry seen [] prior ms x y p e h =
    let (ms_eq, y_eq) = finished id entry prior ms x y h in rw (append-nil, ← ms_eq, ← y_eq) (p, e)
plan_segments-Plans id entry seen (s ∷ ss) prior ms x y p e h =
    elim (Result-cases (plan_segment (new_spec id) prior s)) [
      | inr (z, bad) ↦ absurd (cc (h, loop-stop id entry s ss prior x bad))
      | inl (r, good) ↦
          let (safe, apart, low, high) = plan_segment_lem id prior s r good in
          rw (← append_assoc seen (s ∷ []) ss) (
            plan_segments-Plans id entry (seen ++ s ∷ []) ss (prior ++ mapping r s ∷ []) ms _ y
              (record {
                safe = AllSafe-push prior (mapping r s) safe p.safe;
                apart = Apart-push prior (mapping r s) apart p.apart;
                covers = Covers-push seen prior s (mapping r s) p.covers refl low high;
              })
              (flag entry prior x r s e) (sym (loop-step id entry s ss prior x r good) ∙ h))
    ]

-- A plan that is built keeps the image's entry point, maps every segment whole, each with its own
-- flags, on whole pages between the image base and the guard page, none both writable and
-- executable, no two of them overlapping; and an executable mapping holds the entry point.
pub build-Plans :
    (id : AddressSpaceId) (image : ElfImage) (plan : LoadPlan)
    → build (new_spec id) image ≡ ok plan
    → (plan.entry ≡ image.entry)
      × Plans image.entry image.segments plan.segments
      × (entry_mapped plan.entry plan.segments ≡ true)
build-Plans id image plan h =
    elim (Result-cases (plan_segments (new_spec id) image.entry image.segments [] false)) [
      | inr (z, bad) ↦ absurd (build-bad id image plan bad h)
      | inl ((ms, y), good) ↦
          let (p, e) =
            plan_segments-Plans id image.entry [] image.segments [] ms false y
              (record { safe = tt; apart = tt; covers = tt }) (unfold entry_mapped in refl) good in
          let (a, b, c) = build-good id image plan ms y good h in (a, rw b p, rw (a, b) (sym e ∙ c))
    ]
