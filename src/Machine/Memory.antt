-- ===== src/Machine/Memory.antt =====
-- The size of the guest's memory: `validate_mem_size` of src/memory.rs. The region itself is made by
-- the kernel.
use kitsune.Base.{
  ℕ, ◌+◌, ◌%◌, ◌≤◌, ◌≡◌, ◌≢◌, ◌↔◌, not, ◌||◌, Option, none, some, ltb, ◌==◌, if◌then◌else◌, arith,
  u64_mod,
}

abbrev pub guest_mem_start : ℕ
guest_mem_start = 0

abbrev pub guest_ram_end : ℕ
guest_ram_end = 0xd000_0000

-- How the check ends.
pub data Validity : Type 0 where
  valid : Validity
  invalid_memory_size overlaps_mmio : ℕ → Validity

-- `u64::checked_add`
abbrev pub checked_add : ℕ → ℕ → Option ℕ
checked_add a b = if ltb (a + b) u64_mod then some (a + b) else none

-- `validate_mem_size`
unfoldable pub validate_mem_size : ℕ → Validity
validate_mem_size size =
    if (size == 0) || not (size % 4096 == 0)
    then invalid_memory_size size
    else elim (checked_add guest_mem_start size) [
      | none ↦ invalid_memory_size size
      | some end_ ↦ if ltb guest_ram_end end_ then overlaps_mmio size else valid
    ]

-- The sizes that `validate_mem_size` accepts are exactly the whole numbers of 4 KiB pages, at least
-- one, that end at or below the window of the devices.
pub validate_mem_size-valid :
    (size : ℕ)
    → (validate_mem_size size ≡ valid)
      ↔ ((size ≢ 0) × (size % 4096 ≡ 0) × (guest_mem_start + size ≤ guest_ram_end))
unfolding validate_mem_size
validate_mem_size-valid size = ground arith
