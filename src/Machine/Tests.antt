-- ===== src/Machine/Tests.antt =====
-- A memory of 512 MiB with its page tables and an initrd, and the code segment of the 64-bit boot.
use kitsune.Base.{ℕ, ◌+◌, ◌%◌, ◌≤◌, refl, some, ◌≡◌, ◌≢◌, ◌↔◌, arith}
use kitsune.Machine.Memory.{
  validate_mem_size, valid, guest_mem_start, guest_ram_end, validate_mem_size-valid,
}
use kitsune.Machine.Paging.{num_pd, num_2mib, Words, setup_identity_map}
use kitsune.Machine.Paging.Identity.{translated, setup_identity_map-identity}
use kitsune.Machine.Gdt.{descriptor, to_kvm_segment}
use kitsune.Machine.Gdt.Fields.{segment, to_kvm_segment-descriptor}

abbrev half_gib : ℕ
half_gib = 0x2000_0000

validate_mem_size-valid_example :
    (validate_mem_size half_gib ≡ valid)
    ↔ ((half_gib ≢ 0) × (half_gib % 4096 ≡ 0) × (guest_mem_start + half_gib ≤ guest_ram_end))
validate_mem_size-valid_example = validate_mem_size-valid half_gib

to_kvm_segment-descriptor_example :
    to_kvm_segment (descriptor 0xa09b 0 0xfffff) 1 ≡ segment 0xa09b 0 0xfffff 1
to_kvm_segment-descriptor_example =
    to_kvm_segment-descriptor 0xa09b 0 0xfffff 1 (omega arith) (omega arith) (omega arith)

half_gib_valid : validate_mem_size half_gib ≡ valid
unfolding validate_mem_size
half_gib_valid = refl

abbrev no_tables : Words
no_tables a = 0

setup_identity_map-identity_example :
    translated (setup_identity_map half_gib no_tables) 0x1234_5678 ≡ some 0x1234_5678
unfolding num_pd num_2mib
setup_identity_map-identity_example =
    setup_identity_map-identity half_gib 0x1234_5678 no_tables half_gib_valid (omega arith)
      (omega arith)
