-- ===== src/Machine/Boot.antt =====
-- Where src/boot.rs puts things in the guest's memory: `place_initrd`, `physical_entry`,
-- `linux64_entry` and the memory maps of `build_boot_params` and `write_pvh_info`.
use kitsune.Base.{
  ℕ, ◌+◌, ◌-◌, ◌*◌, ◌/◌, ◌^◌, ◌≤◌, ◌≡◌, Bool, true, false, ◌||◌, Option, none, some, List, [], ◌∷◌,
  ◌++◌, ltb, leb, ◌==◌, length, if◌then◌else◌, arith,
}
use kitsune.Machine.Memory.{checked_add}

abbrev pub himem_start : ℕ
himem_start = 0x0010_0000

abbrev pub ebda_start : ℕ
ebda_start = 0x0009_fc00

abbrev start_kernel_map : ℕ
start_kernel_map = 0xffff_ffff_8000_0000

-- How `place_initrd` ends.
pub data Placed : Type 0 where
  placed : ℕ → Placed
  empty_initrd does_not_fit not_32_bit : Placed

-- `place_initrd` of `len` bytes in a memory whose last address is `last`, up to its copy of the bytes.
unfoldable pub place_initrd : ℕ → ℕ → ℕ → Placed
place_initrd last kernel_end len =
    let end_ = last + 1 in
    let addr = (end_ - len) / 4096 * 4096 in
    if len == 0 then empty_initrd else elim (checked_add addr len) [
      | none ↦ does_not_fit
      | some initrd_end ↦
          if ltb addr kernel_end || ltb end_ initrd_end
          then does_not_fit
          else if ltb (2 ^ 32 - 1) addr
          then not_32_bit
          else placed addr
    ]

-- `physical_entry`
unfoldable pub physical_entry : ℕ → ℕ
physical_entry entry = if leb start_kernel_map entry then entry - start_kernel_map else entry

-- `linux64_entry`, of an image with a setup header or without.
unfoldable pub linux64_entry : Bool → ℕ → Option ℕ
linux64_entry true base = checked_add base 0x200
linux64_entry false base = some (physical_entry base)

-- An entry of a memory map of RAM: its address and its size.
pub record E820Entry : Type 0 where
  pub addr : ℕ
  pub size : ℕ

-- `add_e820_entry` to a table with room for `room` entries, which the crate `linux_loader` fixes.
unfoldable pub add_e820_entry : ℕ → E820Entry → List E820Entry → Option (List E820Entry)
add_e820_entry room e table = if ltb (length table) room then some (table ++ e ∷ []) else none

-- The memory map of `build_boot_params`.
unfoldable pub e820_map : ℕ → ℕ → Option (List E820Entry)
e820_map room last = elim (add_e820_entry room (record { addr = 0; size = ebda_start }) []) [
  | none ↦ none
  | some table ↦
      if ltb last himem_start
      then none
      else add_e820_entry room (record { addr = himem_start; size = last - himem_start + 1 }) table
]

-- The memory map of `write_pvh_info`.
unfoldable pub pvh_memmap : ℕ → Option (List E820Entry)
pvh_memmap last =
    if ltb last himem_start
    then none
    else some (
        record { addr = 0; size = ebda_start }
        ∷ record { addr = himem_start; size = last - himem_start + 1 }
        ∷ [])

-- Both boot protocols give the guest the same memory map, if the table of the one has room for it.
pub e820_map-pvh_memmap : (room last : ℕ) → 2 ≤ room → e820_map room last ≡ pvh_memmap last
unfolding e820_map pvh_memmap add_e820_entry
e820_map-pvh_memmap room last enough =
    let first : ltb 0 room ≡ true = ground arith in
    let then_ : ltb 1 room ≡ true = ground arith in ground arith
