-- ===== src/Memory/UserCopy/Laws.antt =====
-- A range is readable exactly if every page that it touches is.
use x.Base.{
  ℕ, zero, suc, ◌+◌, ◌-◌, ◌*◌, ◌/◌, ◌%◌, ◌≤◌, ◌<◌, ◌≡◌, ◌≢◌, ◌∙◌, ◌↔◌, refl, sym, ap, true, false,
  List, [], ◌∷◌, leb, Result-cases, Bool-cases, inl, inr, arith, if◌then◌else◌, Result, ok, err,
  ◌>>=◌,
}
use Prim.Native.Nat.{max}
use x.Abi.{UserSlice}
use x.Memory.Ranges.{VirtRange, is_empty, user_space_start, kernel_space_start}
use x.Memory.Page.{page_base}
use x.Memory.User.{validate_slice, validate_slice_iff}
use x.Memory.Mapping.{PageAccess}
use x.Memory.UserCopy.{
  UserReadError, check_access, pages_loop, validate_readable_range, invalid_range,
}

-- The pages of a range: `n` page addresses in a row, and how many start or go on below `end`.
unfoldable pub pages_from : ℕ → ℕ → List ℕ
pages_from page zero = []
pages_from page (suc n) = page ∷ pages_from (page + 4096) n

abbrev pub page_count : ℕ → ℕ → ℕ
page_count page end = (end + 4095 - page) / 4096

not_empty : (r : VirtRange) → r.start < r.end → is_empty r ≡ false
unfolding is_empty
not_empty r h = ground arith

check_access-true :
    (a : PageAccess)
    → check_access a ≡ ok tt
    → (a.mapped ≡ true) × (a.user ≡ true) × (a.readable ≡ true)
unfolding check_access
check_access-true a h = (ground arith, ground arith, ground arith)

check_access-ok :
    (a : PageAccess)
    → (a.mapped ≡ true) × (a.user ≡ true) × (a.readable ≡ true)
    → check_access a ≡ ok tt
unfolding check_access
check_access-ok a (m, u, r) = ground arith

module _ (access : ℕ → PageAccess) where
  -- The pages are checked in order, up to the first that may not be read.
  unfoldable pub check_pages : List ℕ → Result UserReadError (Unit {0})
  check_pages [] = ok tt
  check_pages (p ∷ ps) = check_access (access p) >>= λ _. check_pages ps

  loop-step :
      (f page end : ℕ)
      → page % 4096 ≡ 0
      → page < end
      → end ≤ kernel_space_start
      → pages_loop access (suc f) page end ≡ (
          check_access (access page) >>= λ _.
          if leb end (page + 4096) then ok tt else pages_loop access f (page + 4096) end)
  unfolding pages_loop
  loop-step f page end al h k = ground arith

  loop-check_pages :
      (f page end : ℕ)
      → page % 4096 ≡ 0
      → page < end
      → end ≤ kernel_space_start
      → page_count page end ≤ f
      → pages_loop access f page end ≡ check_pages (pages_from page (page_count page end))
  unfolding check_pages pages_from
  loop-check_pages zero page end al h k fuel = absurd (omega arith)
  loop-check_pages (suc f) page end al h k fuel = elim (Bool-cases (leb end (page + 4096))) [
    | inl last ↦
        let one : page_count page end ≡ 1 = ground arith in
        rw (loop-step f page end al h k, last, one)
    | inr more ↦
        let e : page_count page end ≡ suc (page_count (page + 4096) end) = ground arith in
        rw (loop-step f page end al h k, more, e)
          (ap (λ r. check_access (access page) >>= λ _. r)
            (loop-check_pages f (page + 4096) end (omega arith) (ground arith) k (omega arith)))
  ]

  >>=_ok :
      (a b : Result UserReadError (Unit {0}))
      → ((a >>= λ _. b) ≡ ok tt) ↔ ((a ≡ ok tt) × (b ≡ ok tt))
  >>=_ok a b = (λ h. ground arith, λ h. ground arith)

  check_pages-all :
      (n page : ℕ)
      → check_pages (pages_from page n) ≡ ok tt
      → (k : ℕ) → k < n
      → check_access (access (page + k * 4096)) ≡ ok tt
  unfolding check_pages pages_from
  check_pages-all zero page h k lt = elim lt [ ]
  check_pages-all (suc n) page h zero lt =
      let e : page + 0 * 4096 ≡ page = omega arith in rw e ((>>=_ok _ _).0 h).0
  check_pages-all (suc n) page h (suc k) lt =
      let e : page + suc k * 4096 ≡ (page + 4096) + k * 4096 = omega arith in
      rw e (check_pages-all n (page + 4096) ((>>=_ok _ _).0 h).1 k (omega arith))

  check_pages-of_all :
      (n page : ℕ)
      → ((k : ℕ) → k < n → check_access (access (page + k * 4096)) ≡ ok tt)
      → check_pages (pages_from page n) ≡ ok tt
  unfolding check_pages pages_from
  check_pages-of_all zero page h = refl
  check_pages-of_all (suc n) page h =
      let e : page + 0 * 4096 ≡ page = omega arith in
      (>>=_ok _ _).1 (
        rw e at (h 0 (omega arith)),
        check_pages-of_all n (page + 4096) (λ k lt.
            let f : page + suc k * 4096 ≡ (page + 4096) + k * 4096 = omega arith in
            rw f at (h (suc k) (omega arith))),
      )

  started :
      (slice : UserSlice) (r : VirtRange)
      → validate_slice slice ≡ ok r
      → is_empty r ≡ false
      → validate_readable_range access slice
        ≡ pages_loop access (suc (r.end / 4096)) (r.start / 4096 * 4096) r.end
  unfolding validate_readable_range
  started slice r h e = rw (h, e)

  -- A valid range that is not empty is checked page by page, from the page of its first byte to the
  -- page of its last, in order, and the answer is that of the first page that may not be read.
  pub validate_readable_range-check_pages :
      (slice : UserSlice) (r : VirtRange)
      → slice.len ≢ 0
      → validate_slice slice ≡ ok r
      → validate_readable_range access slice
        ≡ check_pages (
            pages_from
              (page_base slice.ptr)
              (page_count (page_base slice.ptr) (slice.ptr + slice.len)))
  validate_readable_range-check_pages slice r ne h =
      let (start, stop, inside) = (validate_slice_iff slice r).0 h in
      let (low, high) = inside ne in
      let some_bytes : is_empty r ≡ false = not_empty r (ground arith) in
      let p : r.start / 4096 * 4096 ≡ page_base slice.ptr = rw start (omega arith) in
      rw (started slice r h some_bytes, p, stop)
        (loop-check_pages (suc ((slice.ptr + slice.len) / 4096)) (page_base slice.ptr)
          (slice.ptr + slice.len) (omega arith) (omega arith) high (omega arith))

  invalid :
      (slice : UserSlice) {e : _}
      → validate_slice slice ≡ err e
      → validate_readable_range access slice ≡ err (invalid_range e)
  unfolding validate_readable_range
  invalid slice h = rw h

  readable_all :
      (slice : UserSlice)
      → slice.len ≢ 0
      → validate_readable_range access slice ≡ ok tt
      → (user_space_start ≤ slice.ptr)
        × (slice.ptr + slice.len ≤ kernel_space_start)
        × ((a : ℕ)
            → slice.ptr ≤ a
            → a < slice.ptr + slice.len
            → check_access (access (page_base a)) ≡ ok tt)
  readable_all slice ne h = elim (Result-cases (validate_slice slice)) [
    | inr (e, bad) ↦ absurd (cc (h, invalid slice bad))
    | inl (r, good) ↦
        let (low, high) = ((validate_slice_iff slice r).0 good).2 ne in
        let all =
          check_pages-all (page_count (page_base slice.ptr) (slice.ptr + slice.len))
            (page_base slice.ptr) (sym (validate_readable_range-check_pages slice r ne good) ∙ h) in
        (
          low,
          high,
          λ a above below.
              let k = (a - page_base slice.ptr) / 4096 in
              let e : page_base slice.ptr + k * 4096 ≡ page_base a = omega arith in
              rw e at (all k (omega arith)),
        )
  ]

  readable_of_all :
      (slice : UserSlice)
      → slice.len ≢ 0
      → (user_space_start ≤ slice.ptr)
        × (slice.ptr + slice.len ≤ kernel_space_start)
        × ((a : ℕ)
            → slice.ptr ≤ a
            → a < slice.ptr + slice.len
            → check_access (access (page_base a)) ≡ ok tt)
      → validate_readable_range access slice ≡ ok tt
  readable_of_all slice ne (low, high, all) =
      let r : VirtRange = record { start = slice.ptr; end = slice.ptr + slice.len } in
      validate_readable_range-check_pages slice r ne
        ((validate_slice_iff slice r).1 (refl, refl, λ _. (low, high)))
      ∙ check_pages-of_all (page_count (page_base slice.ptr) (slice.ptr + slice.len))
          (page_base slice.ptr)
          (λ k lt.
            let p = page_base slice.ptr + k * 4096 in
            let e : page_base (max p slice.ptr) ≡ p = omega arith in
            rw e at (all (max p slice.ptr) (omega arith) (omega arith)))

  -- A slice of at least one byte is readable exactly if its range is valid and each of its bytes
  -- lies in a page that is mapped, accessible to the user and readable.
  pub validate_readable_range_iff :
      (slice : UserSlice)
      → slice.len ≢ 0
      → (validate_readable_range access slice ≡ ok tt) ↔ (
          (user_space_start ≤ slice.ptr)
          × (slice.ptr + slice.len ≤ kernel_space_start)
          × ((a : ℕ)
              → slice.ptr ≤ a
              → a < slice.ptr + slice.len
              → let page = access (a - a % 4096) in
                (page.mapped ≡ true) × (page.user ≡ true) × (page.readable ≡ true)))
  validate_readable_range_iff slice ne = (
    λ h.
        let (low, high, all) = readable_all slice ne h in
        (low, high, λ a above below. check_access-true (access (a - a % 4096)) (all a above below)),
    λ (low, high, all).
        readable_of_all slice ne
          (low, high, λ a above below. check_access-ok (access (a - a % 4096)) (all a above below)),
  )
