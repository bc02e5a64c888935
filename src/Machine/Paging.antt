-- ===== src/Machine/Paging.antt =====
-- `setup_identity_map` of src/vcpu.rs: the page tables that the first processor starts with. The
-- guest's memory is a function from the addresses of its words of 8 bytes.
pub mod Entries
pub mod Writes
pub mod Identity
use kitsune.Base.{
  ℕ, zero, suc, ◌+◌, ◌-◌, ◌*◌, ◌/◌, ◌%◌, ◌^◌, Bool, true, false, ◌||◌, ◌&&◌, Option, none, some,
  ltb, leb, ◌==◌, if◌then◌else◌, bit_or,
}

abbrev pub pml4_start : ℕ
pml4_start = 0x9000

abbrev pub pdpt_start : ℕ
pdpt_start = 0xa000

abbrev pub pd_tables_start : ℕ
pd_tables_start = 0xb000

abbrev pub page_size : ℕ
page_size = 0x1000

abbrev pub huge_page_2m : ℕ
huge_page_2m = 0x20_0000

abbrev pub pd_entries : ℕ
pd_entries = 512

abbrev pub pte_present_writable : ℕ
pte_present_writable = 0x03

abbrev pub pte_present_writable_ps : ℕ
pte_present_writable_ps = 0x83

abbrev pub cmdline_start : ℕ
cmdline_start = 0x0002_0000

abbrev pub Words : Type 0
Words = ℕ → ℕ

-- The memory after a word was written.
abbrev pub store : ℕ → ℕ → Words → Words
store value addr mem a = if a == addr then value else mem a

-- `mem.write_obj(…)?` of a word, which fails if the word does not lie in the memory, which ends at
-- `ram_end`; after an error nothing more is written.
unfoldable pub write_obj : ℕ → ℕ → ℕ → Option Words → Option Words
write_obj ram_end value addr none = none
write_obj ram_end value addr (some mem) =
    if leb (addr + 8) ram_end then some (store value addr mem) else none

-- `u64::div_ceil`
abbrev pub div_ceil : ℕ → ℕ → ℕ
div_ceil n zero = 0
div_ceil n (suc d) = (n + d) / suc d

-- The pages of 2 MiB that the memory has, and the directories for them.
unfoldable pub num_2mib : ℕ → ℕ
num_2mib ram_end = div_ceil ram_end huge_page_2m * huge_page_2m / huge_page_2m

unfoldable pub num_pd : ℕ → ℕ
num_pd ram_end = div_ceil (num_2mib ram_end) pd_entries

-- The entry of the page `global`.
unfoldable pub pd_entry : ℕ → ℕ → ℕ
pd_entry pages global =
    if ltb global pages then bit_or (global * huge_page_2m) pte_present_writable_ps else 0

-- The first `n` rounds of the loop over the entries of a directory.
unfoldable pub write_pd : ℕ → ℕ → ℕ → ℕ → Option Words → Option Words
write_pd ram_end pages pd_idx zero mem = mem
write_pd ram_end pages pd_idx (suc i) mem =
    write_obj ram_end (pd_entry pages (pd_idx * pd_entries + i))
      (pd_tables_start + pd_idx * page_size + i * 8) (write_pd ram_end pages pd_idx i mem)

-- The first `n` rounds of the loop over the directories.
unfoldable pub write_pds : ℕ → ℕ → ℕ → Option Words → Option Words
write_pds ram_end pages zero mem = mem
write_pds ram_end pages (suc pd_idx) mem = write_pd ram_end pages pd_idx pd_entries (
    write_obj ram_end (bit_or (pd_tables_start + pd_idx * page_size) pte_present_writable)
      (pdpt_start + pd_idx * 8) (write_pds ram_end pages pd_idx mem))

-- The loop over the `n` entries of the PDPT from `first` on that have no directory.
unfoldable pub clear_pdpt : ℕ → ℕ → ℕ → Option Words → Option Words
clear_pdpt ram_end first zero mem = mem
clear_pdpt ram_end first (suc n) mem =
    write_obj ram_end 0 (pdpt_start + (first + n) * 8) (clear_pdpt ram_end first n mem)

-- `setup_identity_map` of a memory that ends at `ram_end`; nothing for an error.
unfoldable pub setup_identity_map : ℕ → Words → Option Words
setup_identity_map ram_end mem =
    let pds = num_pd ram_end in
    if (pds == 0) || ltb pd_entries pds
    then none
    else if ltb cmdline_start (pd_tables_start + pds * page_size)
    then none
    else clear_pdpt ram_end pds (pd_entries - pds) (
        write_pds ram_end (num_2mib ram_end) pds
          (write_obj ram_end (bit_or pdpt_start pte_present_writable) pml4_start (some mem)))

-- The entry of a table that an address selects, if it is present.
abbrev pub present : ℕ → Option ℕ
present entry = if entry % 2 == 0 then none else some entry

-- The entry `index` of the table that an entry points to.
abbrev pub next_level : Words → Option ℕ → ℕ → Option ℕ
next_level mem none index = none
next_level mem (some entry) index = present (mem (entry / 4096 * 4096 + index * 8))

-- The address in the page of 2 MiB of an entry, whose bit 7 says that it has one.
abbrev pub in_page : Option ℕ → ℕ → Option ℕ
in_page none v = none
in_page (some entry) v =
    if entry / 128 % 2 == 0
    then none
    else some (entry / huge_page_2m * huge_page_2m + v % huge_page_2m)

-- The translation of an address by the tables, as the processor does it.
unfoldable pub walk : Words → ℕ → Option ℕ
walk mem v =
    let e4 = present (mem (pml4_start + v / 2 ^ 39 % 512 * 8)) in
    let e3 = next_level mem e4 (v / 2 ^ 30 % 512) in
    in_page (next_level mem e3 (v / 2 ^ 21 % 512)) v
