-- ===== src/Machine/Paging/Writes.antt =====
-- The writes of `setup_identity_map` of src/vcpu.rs succeed in a memory that the tables lie in.
use kitsune.Base.{ℕ, zero, suc, ◌+◌, ◌*◌, ◌≤◌, ◌≡◌, refl, ap, ◌∙◌, some, bit_or, arith}
use kitsune.Machine.Paging.{
  Words, store, write_obj, pd_entry, write_pd, write_pds, clear_pdpt, pdpt_start, pd_tables_start,
  page_size, pd_entries, pte_present_writable,
}
use kitsune.Machine.Paging.Entries.{stored_pd, stored_pds, cleared_pdpt}

module _ (ram_end : ℕ) where
  pub write_obj-some :
      (value addr : ℕ) (mem : Words)
      → addr + 8 ≤ ram_end
      → write_obj ram_end value addr (some mem) ≡ some (store value addr mem)
  unfolding write_obj
  write_obj-some value addr mem h = ground (arith, h)

  write_pd-some :
      (pages pd n : ℕ) (mem : Words)
      → pd_tables_start + pd * page_size + n * 8 ≤ ram_end
      → write_pd ram_end pages pd n (some mem) ≡ some (stored_pd pages pd n mem)
  unfolding write_pd stored_pd
  write_pd-some pages pd zero mem h = refl
  write_pd-some pages pd (suc n) mem h =
      ap
        (write_obj ram_end (pd_entry pages (pd * pd_entries + n))
          (pd_tables_start + pd * page_size + n * 8))
        (write_pd-some pages pd n mem (omega (arith, h)))
      ∙ write_obj-some (pd_entry pages (pd * pd_entries + n))
          (pd_tables_start + pd * page_size + n * 8) (stored_pd pages pd n mem) (omega (arith, h))

  pub write_pds-some :
      (pages n : ℕ) (mem : Words)
      → n ≤ 512
      → pd_tables_start + n * page_size ≤ ram_end
      → write_pds ram_end pages n (some mem) ≡ some (stored_pds pages n mem)
  unfolding write_pds stored_pds
  write_pds-some pages zero mem few h = refl
  write_pds-some pages (suc n) mem few h =
      ap
        (λ m. write_pd ram_end pages n pd_entries (
          write_obj ram_end (bit_or (pd_tables_start + n * page_size) pte_present_writable)
            (pdpt_start + n * 8) m))
        (write_pds-some pages n mem (omega (arith, few)) (omega (arith, h)))
      ∙ (ap (write_pd ram_end pages n pd_entries) (
            write_obj-some (bit_or (pd_tables_start + n * page_size) pte_present_writable)
              (pdpt_start + n * 8) (stored_pds pages n mem) (omega (arith, few, h)))
          ∙ write_pd-some pages n pd_entries _ (omega (arith, h)))

  pub clear_pdpt-some :
      (first n : ℕ) (mem : Words)
      → pdpt_start + (first + n) * 8 ≤ ram_end
      → clear_pdpt ram_end first n (some mem) ≡ some (cleared_pdpt first n mem)
  unfolding clear_pdpt cleared_pdpt
  clear_pdpt-some first zero mem h = refl
  clear_pdpt-some first (suc n) mem h =
      ap (write_obj ram_end 0 (pdpt_start + (first + n) * 8))
        (clear_pdpt-some first n mem (omega (arith, h)))
      ∙ write_obj-some 0 (pdpt_start + (first + n) * 8) (cleared_pdpt first n mem)
          (omega (arith, h))
