-- ===== src/Machine/Paging/Entries.antt =====
-- The entries that the loops of `setup_identity_map` of src/vcpu.rs write.
use kitsune.Base.{
  ℕ, zero, suc, ◌+◌, ◌*◌, ◌≤◌, ◌<◌, ◌≡◌, refl, sym, ◌∙◌, subst, inl, inr, ◌⊎◌, Bool-cases, ltb,
  ◌==◌, bit_or, arith,
}
use kitsune.Base.Bits.{scan, scan-holds}
use kitsune.Machine.Paging.{
  Words, pd_entry, store, pdpt_start, pd_tables_start, page_size, huge_page_2m, pd_entries,
  pte_present_writable, pte_present_writable_ps,
}

-- The loops of `setup_identity_map`, when every word lies in the memory.
unfoldable pub stored_pd : ℕ → ℕ → ℕ → Words → Words
stored_pd pages pd_idx zero mem = mem
stored_pd pages pd_idx (suc i) mem =
    store (pd_entry pages (pd_idx * pd_entries + i)) (pd_tables_start + pd_idx * page_size + i * 8)
      (stored_pd pages pd_idx i mem)

unfoldable pub stored_pds : ℕ → ℕ → Words → Words
stored_pds pages zero mem = mem
stored_pds pages (suc pd_idx) mem = stored_pd pages pd_idx pd_entries (
    store (bit_or (pd_tables_start + pd_idx * page_size) pte_present_writable)
      (pdpt_start + pd_idx * 8) (stored_pds pages pd_idx mem))

unfoldable pub cleared_pdpt : ℕ → ℕ → Words → Words
cleared_pdpt first zero mem = mem
cleared_pdpt first (suc n) mem = store 0 (pdpt_start + (first + n) * 8) (cleared_pdpt first n mem)

-- A directory's entries, and what its loop leaves alone.
pub stored_pd-at :
    (pages pd n : ℕ) (mem : Words) (i : ℕ)
    → i < n
    → stored_pd pages pd n mem (pd_tables_start + pd * page_size + i * 8)
      ≡ pd_entry pages (pd * pd_entries + i)
unfolding stored_pd
stored_pd-at pages pd zero mem i h = absurd (omega arith)
stored_pd-at pages pd (suc n) mem i h = ground (arith, stored_pd-at pages pd n mem i)

pub stored_pd-else :
    (pages pd n : ℕ) (mem : Words) (a : ℕ)
    → (a < pd_tables_start + pd * page_size) ⊎ (pd_tables_start + pd * page_size + n * 8 ≤ a)
    → stored_pd pages pd n mem a ≡ mem a
unfolding stored_pd
stored_pd-else pages pd zero mem a h = refl
stored_pd-else pages pd (suc n) mem a h = ground (arith, stored_pd-else pages pd n mem a)

pub stored_pds-below :
    (pages n : ℕ) (mem : Words) (a : ℕ) → a < pdpt_start → stored_pds pages n mem a ≡ mem a
unfolding stored_pds
stored_pds-below pages zero mem a h = refl
stored_pds-below pages (suc n) mem a h =
    stored_pd-else pages n pd_entries _ a (inl (omega (arith, h)))
    ∙ ground (arith, stored_pds-below pages n mem a)

pub stored_pds-pdpt :
    (pages n : ℕ) (mem : Words) (k : ℕ)
    → n ≤ 21
    → k < n
    → stored_pds pages n mem (pdpt_start + k * 8)
      ≡ bit_or (pd_tables_start + k * page_size) pte_present_writable
unfolding stored_pds
stored_pds-pdpt pages zero mem k h lt = absurd (omega arith)
stored_pds-pdpt pages (suc n) mem k h lt =
    stored_pd-else pages n pd_entries _ (pdpt_start + k * 8) (inl (omega (arith, h, lt)))
    ∙ ground (arith, stored_pds-pdpt pages n mem k)

pub stored_pds-pd :
    (pages n : ℕ) (mem : Words) (k i : ℕ)
    → n ≤ 21
    → k < n
    → i < 512
    → stored_pds pages n mem (pd_tables_start + k * page_size + i * 8)
      ≡ pd_entry pages (k * pd_entries + i)
unfolding stored_pds
stored_pds-pd pages zero mem k i h lt j = absurd (omega arith)
stored_pds-pd pages (suc n) mem k i h lt j = elim (Bool-cases (ltb k n)) [
  | inl less ↦
      stored_pd-else pages n pd_entries _ (pd_tables_start + k * page_size + i * 8)
        (inl (ground arith))
      ∙ ground (arith, stored_pds-pd pages n mem k i)
  | inr last ↦
      let same : k ≡ n = ground arith in
      subst
        (λ m.
          stored_pds pages (suc n) mem (pd_tables_start + m * page_size + i * 8)
          ≡ pd_entry pages (m * pd_entries + i))
        (sym same) (stored_pd-at pages n pd_entries _ i (omega (arith, j)))
]

pub cleared_pdpt-else :
    (first n : ℕ) (mem : Words) (a : ℕ)
    → (a < pdpt_start + first * 8) ⊎ (pdpt_start + (first + n) * 8 ≤ a)
    → cleared_pdpt first n mem a ≡ mem a
unfolding cleared_pdpt
cleared_pdpt-else first zero mem a h = refl
cleared_pdpt-else first (suc n) mem a h = ground (arith, cleared_pdpt-else first n mem a)

-- The flags of an entry stand beside its address.
pub directories_plain :
    (k : ℕ)
    → k < 21
    → bit_or (pd_tables_start + k * page_size) pte_present_writable
      ≡ pd_tables_start + k * page_size + pte_present_writable
unfolding scan
directories_plain k h =
    let plain =
      scan-holds
        (λ j.
          bit_or (pd_tables_start + j * page_size) pte_present_writable
          == pd_tables_start + j * page_size + pte_present_writable)
        21 refl k h in
    ground arith

pub pages_plain :
    (g : ℕ)
    → g < 10752
    → bit_or (g * huge_page_2m) pte_present_writable_ps ≡ g * huge_page_2m + pte_present_writable_ps
unfolding scan
pages_plain g h =
    let plain =
      scan-holds
        (λ j.
          bit_or (j * huge_page_2m) pte_present_writable_ps
          == j * huge_page_2m + pte_present_writable_ps)
        10752 refl g h in
    ground arith
