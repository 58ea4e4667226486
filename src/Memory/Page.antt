-- ===== src/Memory/Page.antt =====
-- 4 KiB pages, kernel/src/memory/page.rs.
use x.Base.{ℕ, ◌-◌, ◌%◌, Option, none, some, nat_eq, if◌then◌else◌, checked_add}
use x.Memory.Ranges.{VirtRange, virt_range}

abbrev pub page_size_4k : ℕ
page_size_4k = 4096

-- `Page4K(u64)`
pub record Page4K : Type 0 where
  pub start_address : ℕ

unfoldable pub from_start_address : ℕ → Option Page4K
from_start_address address =
    if nat_eq (address % page_size_4k) 0 then some (record { start_address = address }) else none

unfoldable pub end_address : Page4K → Option ℕ
end_address p = checked_add p.start_address page_size_4k

unfoldable pub range : Page4K → Option VirtRange
unfolding end_address virt_range
range p = elim (end_address p) [ none ↦ none | some end ↦ virt_range p.start_address end ]

-- `address & !(PAGE_SIZE_4K - 1)`: the low twelve bits cleared.
abbrev pub page_base : ℕ → ℕ
page_base a = a - a % page_size_4k
