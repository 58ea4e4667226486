-- ===== src/Base/Lists.antt =====
-- Lists measured and indexed by native numbers, and the queue operations of `VecDeque`.
use Prim.Native.Nat.{ℕ, zero, suc, ◌+◌, ◌≤◌, ◌<◌}
use mathlib.Core.Path.{◌≡◌, refl, ap}
use mathlib.Core.Logic.{◌≢◌, inl, inr}
use mathlib.Core.Bool.{Bool, true, false, ◌||◌}
use mathlib.Core.List.{List, [], ◌∷◌, ◌++◌}
use mathlib.Core.Option.{Option, none, some}
use native.Mathlib.Omega.{arith}
use x.Base.Tests.{PartialEq, ◌==◌, if◌then◌else◌, Bool-cases}

module _ {ℓ} {A : Type ℓ} where
  abbrev pub length : List A → ℕ
  length [] = 0
  length (x ∷ xs) = suc (length xs)

  abbrev pub get_elem? : List A → ℕ → Option A
  get_elem? [] i = none
  get_elem? (x ∷ xs) zero = some x
  get_elem? (x ∷ xs) (suc i) = get_elem? xs i

  -- A write out of bounds changes nothing.
  abbrev pub set : List A → ℕ → A → List A
  set [] i v = []
  set (x ∷ xs) zero v = v ∷ xs
  set (x ∷ xs) (suc i) v = x ∷ set xs i v

  abbrev pub take : ℕ → List A → List A
  take zero xs = []
  take (suc n) [] = []
  take (suc n) (x ∷ xs) = x ∷ take n xs

  abbrev pub drop : ℕ → List A → List A
  drop zero xs = xs
  drop (suc n) [] = []
  drop (suc n) (x ∷ xs) = drop n xs

  pub length-append : (xs ys : List A) → length (xs ++ ys) ≡ length xs + length ys
  length-append [] ys = omega arith
  length-append (x ∷ xs) ys = omega (arith, length-append xs ys)

  pub length-set : (xs : List A) (i : ℕ) (v : A) → length (set xs i v) ≡ length xs
  length-set [] i v = refl
  length-set (x ∷ xs) zero v = refl
  length-set (x ∷ xs) (suc i) v = ap suc (length-set xs i v)

module _ {ℓ} {A : Type ℓ} where
  pub get_elem?-lt : (xs : List A) (i : ℕ) {a : A} → get_elem? xs i ≡ some a → i < length xs
  get_elem?-lt [] i h = ground arith
  get_elem?-lt (x ∷ xs) zero h = omega arith
  get_elem?-lt (x ∷ xs) (suc i) h = omega (arith, get_elem?-lt xs i h)

  pub get_elem?-set_self :
      (xs : List A) (i : ℕ) (v : A) → i < length xs → get_elem? (set xs i v) i ≡ some v
  get_elem?-set_self [] i v h = elim h [ ]
  get_elem?-set_self (x ∷ xs) zero v h = refl
  get_elem?-set_self (x ∷ xs) (suc i) v h = get_elem?-set_self xs i v (omega arith)

  pub get_elem?-set_ne :
      (xs : List A) (i j : ℕ) (v : A) → i ≢ j → get_elem? (set xs i v) j ≡ get_elem? xs j
  get_elem?-set_ne [] i j v h = refl
  get_elem?-set_ne (x ∷ xs) zero zero v h = absurd (h refl)
  get_elem?-set_ne (x ∷ xs) zero (suc j) v h = refl
  get_elem?-set_ne (x ∷ xs) (suc i) zero v h = refl
  get_elem?-set_ne (x ∷ xs) (suc i) (suc j) v h = get_elem?-set_ne xs i j v (λ e. h (ap suc e))

  pub get_elem?-append_left :
      (xs ys : List A) (i : ℕ) → i < length xs → get_elem? (xs ++ ys) i ≡ get_elem? xs i
  get_elem?-append_left [] ys i h = elim h [ ]
  get_elem?-append_left (x ∷ xs) ys zero h = refl
  get_elem?-append_left (x ∷ xs) ys (suc i) h = get_elem?-append_left xs ys i (omega arith)

  pub get_elem?-append_last :
      (xs : List A) (a : A) (i : ℕ) → i ≡ length xs → get_elem? (xs ++ a ∷ []) i ≡ some a
  get_elem?-append_last [] a zero h = refl
  get_elem?-append_last [] a (suc i) h = absurd (omega arith)
  get_elem?-append_last (x ∷ xs) a zero h = absurd (omega arith)
  get_elem?-append_last (x ∷ xs) a (suc i) h = get_elem?-append_last xs a i (omega arith)

  pub get_elem?-ge : (xs : List A) (i : ℕ) → length xs ≤ i → get_elem? xs i ≡ none
  get_elem?-ge [] i h = refl
  get_elem?-ge (x ∷ xs) zero h = absurd (omega arith)
  get_elem?-ge (x ∷ xs) (suc i) h = get_elem?-ge xs i (omega arith)

-- What a queue holds, by a Boolean test.
module _ {ℓ} {A : Type ℓ} ⦃e : PartialEq A⦄ where
  -- `VecDeque::contains`
  unfoldable pub contains : List A → A → Bool
  contains [] a = false
  contains (x ∷ xs) a = x == a || contains xs a

  -- `iter().position(|candidate| *candidate == a)`
  unfoldable pub position : List A → A → Option ℕ
  position [] a = none
  position (x ∷ xs) a =
      let rest = position xs a in
      if x == a then some 0 else elim rest [ none ↦ none | some i ↦ some (suc i) ]

  abbrev pub Distinct : List A → Type 0
  Distinct [] = Unit {0}
  Distinct (x ∷ xs) = (contains xs x ≡ false) × Distinct xs

  pub contains-append :
      (xs ys : List A) (a : A) → contains (xs ++ ys) a ≡ (contains xs a || contains ys a)
  unfolding contains
  contains-append [] ys a = refl
  contains-append (x ∷ xs) ys a = ground (arith, contains-append xs ys a)

  pub contains-push :
      (xs : List A) (x a : A) → contains (xs ++ x ∷ []) a ≡ (contains xs a || x == a)
  unfolding contains
  contains-push [] x a = ground arith
  contains-push (y ∷ xs) x a = ground (arith, contains-push xs x a)

  pub Distinct-push :
      (xs : List A) (x : A) → contains xs x ≡ false → Distinct xs → Distinct (xs ++ x ∷ [])
  unfolding contains
  Distinct-push [] x h d = (refl, tt)
  Distinct-push (y ∷ xs) x h d = (
    ground (arith, contains-push xs x y, e.same_iff y x, e.same_iff x y),
    Distinct-push xs x (ground arith) d.1,
  )

  -- `VecDeque::remove`: the element at an index, and the others in their order.
  unfoldable pub remove_at : List A → ℕ → Option (A × List A)
  remove_at [] i = none
  remove_at (x ∷ xs) zero = some (x, xs)
  remove_at (x ∷ xs) (suc i) = elim (remove_at xs i) [ none ↦ none | some (y, r) ↦ some (y, x ∷ r) ]

  -- Without the first occurrence.
  unfoldable pub without : List A → A → List A
  without [] a = []
  without (x ∷ xs) a = if x == a then xs else x ∷ without xs a

  pub position-eq-none : (xs : List A) (a : A) → contains xs a ≡ false → position xs a ≡ none
  unfolding contains position
  position-eq-none [] a h = refl
  position-eq-none (x ∷ xs) a h = ground (arith, position-eq-none xs a)

  pub remove_at-position :
      (xs : List A) (a : A)
      → contains xs a ≡ true
      → (i : ℕ) × (position xs a ≡ some i) × (remove_at xs i ≡ some (a, without xs a))
  unfolding contains position remove_at without
  remove_at-position [] a h = ground arith
  remove_at-position (x ∷ xs) a h = elim (Bool-cases (x == a)) [
    | inl same ↦ (0, rw same, rw same (ap (λ t. some (t, xs)) ((e.same_iff x a).0 same)))
    | inr other ↦
        let (i, found, removed) = remove_at-position xs a (rw other at h) in
        (suc i, rw (other, found), rw (removed, other))
  ]

  pub contains-without :
      (xs : List A) (a b : A)
      → Distinct xs
      → contains (without xs a) b ≡ (if a == b then false else contains xs b)
  unfolding contains without
  contains-without [] a b d = ground arith
  contains-without (x ∷ xs) a b d = ground (
    arith,
    contains-without xs a b,
    e.same_iff x a,
    e.same_iff a b,
    e.same_iff x b,
    e.same_iff x x,
  )

  pub Distinct-without : (xs : List A) (a : A) → Distinct xs → Distinct (without xs a)
  unfolding contains without
  Distinct-without [] a d = d
  Distinct-without (x ∷ xs) a d = elim (Bool-cases (x == a)) [
    | inl same ↦ rw same d.1
    | inr other ↦ rw other (ground (arith, contains-without xs a x d.1), Distinct-without xs a d.1)
  ]

  -- The front of a queue without duplicates occurs nowhere behind it.
  pub contains-pop :
      (x : A) (xs : List A) (b : A)
      → Distinct (x ∷ xs)
      → contains xs b ≡ (if x == b then false else contains (x ∷ xs) b)
  unfolding contains
  contains-pop x xs b d = ground (arith, e.same_iff x b)

-- The byte of a list at an index, and zero beyond its end.
abbrev pub byte_at : List ℕ → ℕ → ℕ
byte_at [] i = 0
byte_at (b ∷ bs) zero = b
byte_at (b ∷ bs) (suc i) = byte_at bs i
