-- ===== src/Process/Loader/Pages.antt =====
-- What the pages of a load result are, and what a load plan grants them.
use x.Base.{
  ℕ, suc, ◌-◌, ◌%◌, ◌≤◌, ◌<◌, ◌≡◌, inl, inr, refl, true, false, ◌&&◌, ◌/◌, some, List, [], ◌∷◌,
  ◌++◌, ◌||◌, length, length-append, get_elem?, Bool-cases, arith, nat_eq,
}
use mathlib.Core.List.{reverse, reverse-cons}
use x.Memory.Page.{page_base}
use x.Memory.Mapping.{MappingFlags, read_only, read_write, read_execute}
use x.Memory.Mapper.{PageTable}
use x.Process.LoadPlan.{LoadPlan, SegmentMapping}
use x.Process.Loader.{LoadResult, MappedPage, any_page, flags_from_elf, contains_page}
use x.Process.Loader.Rounds.{Laid}

any_page-append :
    (xs ys : List MappedPage) (b : ℕ) → any_page (xs ++ ys) b ≡ (any_page xs b || any_page ys b)
unfolding any_page
any_page-append [] ys b = refl
any_page-append (x ∷ xs) ys b = ground (arith, any_page-append xs ys b)

pub any_page-reverse : (xs : List MappedPage) (b : ℕ) → any_page (reverse xs) b ≡ any_page xs b
unfolding any_page
any_page-reverse [] b = refl
any_page-reverse (x ∷ xs) b =
    rw (reverse-cons x xs)
      (ground (arith, any_page-append (reverse xs) (x ∷ []) b, any_page-reverse xs b))

pub length-reverse : (xs : List MappedPage) → length (reverse xs) ≡ length xs
length-reverse [] = refl
length-reverse (x ∷ xs) =
    rw (reverse-cons x xs) (omega (arith, length-append (reverse xs) (x ∷ []), length-reverse xs))

-- Pages may be read, written just where the flags of the segment have the bit `PF_W`, and executed
-- just where they have the bit `PF_X`.
abbrev pub Permits : ℕ → MappingFlags → Type 0
Permits elf flags =
    (flags.readable ≡ true)
    × (flags.writable ≡ nat_eq (elf / 2 % 2) 1)
    × (flags.executable ≡ nat_eq (elf % 2) 1)

pub flags_from_elf-Permits :
    (elf : ℕ)
    → (nat_eq (elf / 2 % 2) 1 && nat_eq (elf % 2) 1) ≡ false
    → (flags : MappingFlags) × (flags_from_elf elf ≡ some flags) × Permits elf flags
unfolding flags_from_elf
flags_from_elf-Permits elf h = elim (Bool-cases (nat_eq (elf / 2 % 2) 1)) [
  | inl w ↦ (read_write, ground arith, (refl, ground arith, ground arith))
  | inr r ↦ elim (Bool-cases (nat_eq (elf % 2) 1)) [
    | inl x ↦ (read_execute, ground arith, (refl, ground arith, ground arith))
    | inr o ↦ (read_only, ground arith, (refl, ground arith, ground arith))
  ]
]

-- A page of a list holds an address: it is the one at the address with the low twelve bits cleared.
abbrev pub PageOf : List MappedPage → ℕ → Type 0
PageOf ps a =
    (j : ℕ) × (p : MappedPage) × (get_elem? ps j ≡ some p) × (p.virtual_address ≡ a - a % 4096)

pub any_page-PageOf :
    (ps : List MappedPage) (a : ℕ) → any_page ps (page_base a) ≡ true → PageOf ps a
unfolding any_page
any_page-PageOf [] a h = absurd (ground arith)
any_page-PageOf (p ∷ ps) a h = elim (Bool-cases (nat_eq p.virtual_address (page_base a))) [
  | inl here ↦ (0, p, refl, ground arith)
  | inr there ↦ let (j, q, at, same) = any_page-PageOf ps a (ground arith) in (suc j, q, at, same)
]

-- A segment of the plan grants its flags to the addresses of its range.
abbrev pub Granted : LoadPlan → ℕ → MappingFlags → Type 0
Granted plan a flags =
    (i : ℕ) × (s : SegmentMapping) × (get_elem? plan.segments i ≡ some s)
    × (flags_from_elf s.flags ≡ some flags)
    × Permits s.flags flags
    × (s.virtual_range.start ≤ a)
    × (a < s.virtual_range.end)

-- No segment of the plan is writable and executable at once.
abbrev pub Separated : LoadPlan → Type 0
Separated plan =
    (i : ℕ) (s : SegmentMapping)
    → get_elem? plan.segments i ≡ some s
    → (nat_eq (s.flags / 2 % 2) 1 && nat_eq (s.flags % 2) 1) ≡ false

-- The pages of a load plan, and nothing else, were mapped.
abbrev pub Loads : LoadPlan → PageTable → LoadResult → PageTable → Type 0
Loads plan t0 load t =
    (load.entry ≡ plan.entry)
    × (length load.pages ≤ 128)
    × Laid (Granted plan) t0 (reverse load.pages) t
    × ((i : ℕ) (s : SegmentMapping)
        → get_elem? plan.segments i ≡ some s
        → (a : ℕ) → s.virtual_range.start ≤ a
        → a < s.virtual_range.end
        → (contains_page load a ≡ true) × PageOf load.pages a)
