-- ===== src/Memory/UserCopy.antt =====
-- Copying from user memory, kernel/src/memory/user_copy.rs. The mapper is the function `access` from
-- an address to what may be done with its page, and the backend a function that reads; both are the
-- architecture's.
pub mod Laws
use x.Base.{
  ℕ, zero, suc, ◌+◌, ◌-◌, ◌*◌, ◌/◌, ◌%◌, Bool, true, false, Option, none, some, List, not, nat_eq,
  leb, length, if◌then◌else◌, checked_add, Result, ok, err, ok_or, map_err, ◌>>=◌,
}
use x.Abi.{UserSlice}
use x.Memory.Ranges.{VirtRange, is_empty}
use x.Memory.Page.{Page4K, page_size_4k, from_start_address}
use x.Memory.User.{UserRangeError, address_overflow, validate_slice}
use x.Memory.Mapping.{PageAccess}

pub data UserReadError : Type 0 where
  invalid_range : UserRangeError → UserReadError
  page_address_overflow invalid_page_address unmapped_page : UserReadError
  not_user_accessible not_readable backend_failure : UserReadError

-- The `match` on the page's access.
unfoldable pub check_access : PageAccess → Result UserReadError (Unit {0})
check_access a =
    if not a.mapped
    then err unmapped_page
    else if not a.user
    then err not_user_accessible
    else if not a.readable
    then err not_readable
    else ok tt

module _ (access : ℕ → PageAccess) where
  -- The loop over the pages, on fuel.
  unfoldable pub pages_loop : ℕ → ℕ → ℕ → Result UserReadError (Unit {0})
  unfolding check_access from_start_address
  pages_loop zero page_start end = err page_address_overflow
  pages_loop (suc fuel) page_start end = do
    page ← ok_or (from_start_address page_start) invalid_page_address
    _ ← check_access (access page.start_address)
    next ← ok_or (checked_add page_start page_size_4k) page_address_overflow
    elim (leb end next) [ true ↦ ok tt | false ↦ pages_loop fuel next end ]

  -- A page for each 4096 bytes up to the end of the range, and one more.
  unfoldable pub validate_readable_range : UserSlice → Result UserReadError (Unit {0})
  unfolding pages_loop validate_slice is_empty
  validate_readable_range slice = do
    range ← map_err invalid_range (validate_slice slice)
    if is_empty range
        then ok tt
        else pages_loop (suc (range.end / 4096)) (range.start / page_size_4k * page_size_4k)
            range.end

  -- `copy_from_user`, for a destination of `dst_len` bytes; the bytes read are the result.
  unfoldable pub copy_from_user :
      (ℕ → ℕ → Result UserReadError (List ℕ)) → UserSlice → ℕ → Result UserReadError (List ℕ)
  unfolding validate_readable_range
  copy_from_user backend slice dst_len =
      let checked = validate_readable_range slice in
      if not (nat_eq slice.len dst_len)
      then err (invalid_range address_overflow)
      else checked >>= λ _. backend slice.ptr dst_len
