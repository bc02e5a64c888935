-- ===== src/Machine/Paging/Identity.antt =====
-- The tables that `setup_identity_map` of src/vcpu.rs writes translate the guest's memory to itself.
use kitsune.Base.{
  ℕ, ◌+◌, ◌-◌, ◌*◌, ◌/◌, ◌%◌, ◌^◌, ◌≤◌, ◌<◌, ◌≡◌, refl, ap, ◌∙◌, inl, inr, Bool, true, false, ◌||◌,
  Option, none, some, ltb, ◌==◌, if◌then◌else◌, bit_or, arith,
}
use kitsune.Machine.Memory.{validate_mem_size, valid, guest_ram_end, validate_mem_size-valid}
use kitsune.Machine.Paging.{
  Words, store, write_obj, num_2mib, num_pd, pd_entry, write_pds, clear_pdpt, setup_identity_map,
  present, next_level, in_page, walk, pml4_start, pdpt_start, pd_tables_start, page_size,
  huge_page_2m, pd_entries, pte_present_writable, pte_present_writable_ps, cmdline_start,
}
use kitsune.Machine.Paging.Writes.{write_obj-some, write_pds-some, clear_pdpt-some}
use kitsune.Machine.Paging.Entries.{
  stored_pds, cleared_pdpt, stored_pds-below, stored_pds-pdpt, stored_pds-pd, cleared_pdpt-else,
  directories_plain, pages_plain,
}

-- The translation, entry by entry.
walked :
    (mem : Words) (v e4 e3 e2 : ℕ)
    → mem (pml4_start + v / 2 ^ 39 % 512 * 8) ≡ e4
    → e4 % 2 ≡ 1
    → mem (e4 / 4096 * 4096 + v / 2 ^ 30 % 512 * 8) ≡ e3
    → e3 % 2 ≡ 1
    → mem (e3 / 4096 * 4096 + v / 2 ^ 21 % 512 * 8) ≡ e2
    → e2 % 2 ≡ 1
    → e2 / 128 % 2 ≡ 1
    → walk mem v ≡ some (e2 / huge_page_2m * huge_page_2m + v % huge_page_2m)
unfolding walk
walked mem v e4 e3 e2 m4 p4 m3 p3 m2 p2 big =
    ap (λ o. in_page (next_level mem (next_level mem o (v / 2 ^ 30 % 512)) (v / 2 ^ 21 % 512)) v)
      (ap present m4 ∙ is_present e4 p4)
    ∙ (ap (λ o. in_page (next_level mem o (v / 2 ^ 21 % 512)) v) (ap present m3 ∙ is_present e3 p3)
        ∙ (ap (λ o. in_page o v) (ap present m2 ∙ is_present e2 p2) ∙ ground arith))
  where
    is_present : (e : ℕ) → e % 2 ≡ 1 → present e ≡ some e
    is_present e p = ground arith

-- The size that the tables are made for.
module _ (ram_end : ℕ) where
  pages-covers : (v : ℕ) → v < ram_end → v / huge_page_2m < num_2mib ram_end
  unfolding num_2mib
  pages-covers v h = omega (arith, h)

  directories-cover : (g : ℕ) → g < num_2mib ram_end → g / pd_entries < num_pd ram_end
  unfolding num_pd
  directories-cover g h = omega (arith, h)

module _ (ram_end : ℕ) (mem : Words) (few : num_pd ram_end ≤ 21) where
  base : Words
  base = store (bit_or pdpt_start pte_present_writable) pml4_start mem

  filled : Words
  filled = stored_pds (num_2mib ram_end) (num_pd ram_end) base

  tables : Words
  tables = cleared_pdpt (num_pd ram_end) (pd_entries - num_pd ram_end) filled

  tables-pml4 : tables pml4_start ≡ 0xa003
  unfolding tables filled base
  tables-pml4 =
      cleared_pdpt-else (num_pd ram_end) (pd_entries - num_pd ram_end) filled pml4_start
        (inl (omega arith))
      ∙ stored_pds-below (num_2mib ram_end) (num_pd ram_end) base pml4_start (omega arith)

  tables-pdpt :
      (k : ℕ)
      → k < num_pd ram_end
      → tables (pdpt_start + k * 8) ≡ pd_tables_start + k * page_size + pte_present_writable
  unfolding tables filled
  tables-pdpt k h =
      cleared_pdpt-else (num_pd ram_end) (pd_entries - num_pd ram_end) filled (pdpt_start + k * 8)
        (inl (omega (arith, h)))
      ∙ (stored_pds-pdpt (num_2mib ram_end) (num_pd ram_end) base k few h
          ∙ directories_plain k (omega (arith, h, few)))

  tables-pd :
      (k i : ℕ)
      → k < num_pd ram_end
      → i < 512
      → k * pd_entries + i < num_2mib ram_end
      → tables (pd_tables_start + k * page_size + i * 8)
        ≡ (k * pd_entries + i) * huge_page_2m + pte_present_writable_ps
  unfolding tables filled pd_entry
  tables-pd k i h j in_ =
      cleared_pdpt-else (num_pd ram_end) (pd_entries - num_pd ram_end) filled
        (pd_tables_start + k * page_size + i * 8) (inr (omega (arith, h, few)))
      ∙ (stored_pds-pd (num_2mib ram_end) (num_pd ram_end) base k i few h j
          ∙ ground (arith, pages_plain (k * pd_entries + i) (omega (arith, h, few, j))))

  tables-walk : (v : ℕ) → v < ram_end → walk tables v ≡ some v
  tables-walk v h =
      walked tables v 0xa003 (pd_tables_start + k * page_size + pte_present_writable)
        ((k * pd_entries + i) * huge_page_2m + pte_present_writable_ps)
        (ap tables (omega (arith, small)) ∙ tables-pml4) refl
        (ap tables (omega (arith, small)) ∙ tables-pdpt k in_pds) (omega arith)
        (ap tables (omega (arith, small))
          ∙ tables-pd k i in_pds (omega arith) (omega (arith, in_pages)))
        (omega arith) (omega arith)
      ∙ ap some (omega arith)
    where
      k : ℕ
      k = v / 2 ^ 30

      i : ℕ
      i = v / huge_page_2m % 512

      in_pages : v / huge_page_2m < num_2mib ram_end
      in_pages = pages-covers ram_end v h

      in_pds : k < num_pd ram_end
      in_pds = omega (arith, directories-cover ram_end (v / huge_page_2m) in_pages)

      small : k < 21
      small = omega (arith, in_pds, few)

-- The writes that make the tables succeed in a memory that they lie in.
module _ (ram_end : ℕ) (mem : Words) (few : num_pd ram_end ≤ 21) (some_ : 1 ≤ num_pd ram_end) where
  tables_written :
      pd_tables_start + num_pd ram_end * page_size ≤ ram_end
      → clear_pdpt ram_end (num_pd ram_end) (pd_entries - num_pd ram_end) (
          write_pds ram_end
            (num_2mib ram_end)
            (num_pd ram_end)
            (write_obj ram_end (bit_or pdpt_start pte_present_writable) pml4_start (some mem)))
        ≡ some (tables ram_end mem few)
  unfolding tables filled base
  tables_written h =
      ap
        (λ m.
          clear_pdpt ram_end (num_pd ram_end) (pd_entries - num_pd ram_end)
            (write_pds ram_end (num_2mib ram_end) (num_pd ram_end) m))
        (write_obj-some ram_end (bit_or pdpt_start pte_present_writable) pml4_start mem
          (omega (arith, h)))
      ∙ (ap (clear_pdpt ram_end (num_pd ram_end) (pd_entries - num_pd ram_end)) (
            write_pds-some ram_end (num_2mib ram_end) (num_pd ram_end) (base ram_end mem few)
              (omega (arith, few)) h)
          ∙ clear_pdpt-some ram_end (num_pd ram_end) (pd_entries - num_pd ram_end)
              (filled ram_end mem few) (omega (arith, h, few, some_)))

-- The directories of a memory whose size is accepted.
num_pd-few :
    (ram_end : ℕ)
    → 1 ≤ ram_end
    → ram_end ≤ guest_ram_end
    → (1 ≤ num_pd ram_end) × (num_pd ram_end ≤ 4)
unfolding num_pd num_2mib
num_pd-few ram_end some_ most = (omega (arith, some_), omega (arith, most))

-- The translation by the tables that were made, if any were.
abbrev pub translated : Option Words → ℕ → Option ℕ
translated none v = none
translated (some tables) v = walk tables v

-- For every memory size that `validate_mem_size` accepts and that leaves room for the tables in the
-- memory, `setup_identity_map` succeeds, and the tables that it writes translate every address of the
-- memory to itself.
pub setup_identity_map-identity :
    (ram_end v : ℕ) (mem : Words)
    → validate_mem_size ram_end ≡ valid
    → pd_tables_start + num_pd ram_end * page_size ≤ ram_end
    → v < ram_end
    → translated (setup_identity_map ram_end mem) v ≡ some v
unfolding setup_identity_map
setup_identity_map-identity ram_end v mem fine room h =
    by ((num_pd ram_end == 0) || ltb pd_entries (num_pd ram_end)) refl
      (ltb cmdline_start (pd_tables_start + num_pd ram_end * page_size)) refl
  where
    most : ram_end ≤ guest_ram_end
    most = let m = ((validate_mem_size-valid ram_end).0 fine).2 in omega (arith, m)

    few : (1 ≤ num_pd ram_end) × (num_pd ram_end ≤ 4)
    few = num_pd-few ram_end (omega (arith, h)) most

    written : Option Words
    written = clear_pdpt ram_end (num_pd ram_end) (pd_entries - num_pd ram_end) (
        write_pds ram_end (num_2mib ram_end) (num_pd ram_end)
          (write_obj ram_end (bit_or pdpt_start pte_present_writable) pml4_start (some mem)))

    by :
        (none_ : Bool)
        → none_ ≡ ((num_pd ram_end == 0) || ltb pd_entries (num_pd ram_end))
        → (high : Bool) → high ≡ ltb cmdline_start (pd_tables_start + num_pd ram_end * page_size)
        → translated (if none_ then none else if high then none else written) v ≡ some v
    by true p high q = absurd (ground (arith, few.0, few.1))
    by false p true q = absurd (ground (arith, few.1))
    by false p false q =
        let small : num_pd ram_end ≤ 21 = omega (arith, few.1) in
        ap (λ o. translated o v) (tables_written ram_end mem small few.0 room)
        ∙ tables-walk ram_end mem small v h
