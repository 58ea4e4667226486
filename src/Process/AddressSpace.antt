-- ===== src/Process/AddressSpace.antt =====
-- Address-space identity and the validation of ranges, kernel/src/process/address_space.rs.
use x.Base.{
  ℕ, ◌≤◌, ◌<◌, ◌≡◌, Bool, true, false, not, ◌&&◌, ◌||◌, Option, none, some, nat_eq, ltb, leb,
  if◌then◌else◌, Result, ok, err, ◌>>=◌, arith,
}
use x.Memory.Ranges.{VirtRange, is_user, virt_contains}
use x.Memory.Layout.{UserAddressSpaceLayout, default}

-- `AddressSpaceId(u64)`
pub record AddressSpaceId : Type 0 where
  pub raw : ℕ

unfoldable pub new_id : ℕ → Option AddressSpaceId
new_id raw = if nat_eq raw 0 then none else some (record { raw = raw })

unfoldable pub id_eq : AddressSpaceId → AddressSpaceId → Bool
id_eq a b = nat_eq a.raw b.raw

pub record AddressSpaceSpec : Type 0 where
  pub id : AddressSpaceId
  pub layout : UserAddressSpaceLayout

unfoldable pub new_spec : AddressSpaceId → AddressSpaceSpec
new_spec id = record { id = id; layout = default }

pub data AddressSpaceError : Type 0 where
  invalid_user_range image_outside_user_space : AddressSpaceError
  stack_outside_user_space stack_overlaps_guard : AddressSpaceError

unfoldable pub validate_user_range :
    AddressSpaceSpec → VirtRange → Result AddressSpaceError (Unit {0})
unfolding is_user
validate_user_range s range =
    if not (is_user range)
    then err invalid_user_range
    else if ltb range.start s.layout.user.start || ltb s.layout.user.end range.end
    then err invalid_user_range
    else if ltb s.layout.guard.start range.end && ltb range.start s.layout.guard.end
    then err stack_overlaps_guard
    else ok tt

unfoldable pub validate_image_range :
    AddressSpaceSpec → VirtRange → Result AddressSpaceError (Unit {0})
unfolding validate_user_range
validate_image_range s range = validate_user_range s range >>= λ _.
    if ltb range.start s.layout.image_base || leb s.layout.stack.start range.start
    then err image_outside_user_space
    else ok tt

unfoldable pub validate_stack_range :
    AddressSpaceSpec → VirtRange → Result AddressSpaceError (Unit {0})
unfolding is_user
validate_stack_range s range =
    if not (is_user range)
      || ltb range.start s.layout.stack.start
      || ltb s.layout.stack.end range.end
    then err stack_outside_user_space
    else ok tt

-- In the default layout, an image range of at least one byte that is accepted lies above the image
-- base, and wholly below the guard page: it meets neither the guard nor the stack.
pub validate_image_range_lem :
    (id : AddressSpaceId) (range : VirtRange) (a : ℕ)
    → validate_image_range (new_spec id) range ≡ ok tt
    → virt_contains range a ≡ true
    → (default.image_base ≤ a)
      × (a < default.guard.start)
      × (virt_contains default.guard a ≡ false)
      × (virt_contains default.stack a ≡ false)
unfolding validate_image_range new_spec default virt_contains
validate_image_range_lem id range a h c = ground arith
