-- ===== src/Machine/Topology.antt =====
-- The processor topology that src/vcpu.rs gives the guest in CPUID: `apply_cpu_topology` and what it
-- calls. A register is a number below 2 ^ 32.
use kitsune.Base.{
  ℕ, zero, suc, ◌-◌, ◌*◌, ◌/◌, ◌^◌, min, ◌≡◌, refl, ap, sym, ◌∙◌, Bool, true, false, not, ◌&&◌,
  ◌||◌, List, [], ◌∷◌, ◌++◌, append-nil, ◌==◌, ltb, leb, if◌then◌else◌, retain, retain-append, any,
  bit_and, bit_or, arith,
}

-- `kvm_cpuid_entry2`
pub record CpuidEntry : Type 0 where
  pub function : ℕ
  pub index : ℕ
  pub flags : ℕ
  pub eax : ℕ
  pub ebx : ℕ
  pub ecx : ℕ
  pub edx : ℕ

-- A mask, all bits of a register but those of `mask`.
abbrev all_but : ℕ → ℕ
all_but mask = 2 ^ 32 - 1 - mask

-- The bits of `next_power_of_two`, of which `k` rounds find a power of two up to `2 ^ k`.
unfoldable pub ceil_log2 : ℕ → ℕ → ℕ → ℕ
ceil_log2 zero bits n = bits
ceil_log2 (suc k) bits n =
    let more = ceil_log2 k (suc bits) n in if leb n (2 ^ bits) then bits else more

-- `max_logical_processors`
unfoldable pub max_logical_processors : ℕ → ℕ
max_logical_processors num_vcpus = 2 ^ ceil_log2 8 0 num_vcpus

abbrev pub max_vcpus : ℕ
max_vcpus = 32

-- `package_id_shift`
unfoldable pub package_id_shift : ℕ
package_id_shift = ceil_log2 8 0 max_vcpus

abbrev pub significant_index : ℕ
significant_index = 1

-- `ensure_subleaf`
unfoldable pub ensure_subleaf : ℕ → ℕ → List CpuidEntry → List CpuidEntry
ensure_subleaf function index entries =
    if any (λ e. (e.function == function) && (e.index == index)) entries
    then entries
    else entries
      ++ record {
        function = function;
        index = index;
        flags = significant_index;
        eax = 0;
        ebx = 0;
        ecx = 0;
        edx = 0;
      }
        ∷ []

-- The highest leaf, of which only the first entry is changed.
unfoldable pub raise_max_leaf : List CpuidEntry → List CpuidEntry
raise_max_leaf [] = []
raise_max_leaf (e ∷ entries) =
    if e.function == 0
    then (if ltb e.eax 0xb then record e { eax = 0xb } else e) ∷ entries
    else e ∷ raise_max_leaf entries

module _ (vcpu_id num_vcpus : ℕ) where
  -- Leaf 1: the APIC id and the number of logical processors.
  unfoldable pub leaf_1 : CpuidEntry → CpuidEntry
  leaf_1 e = record e {
    ebx =
        bit_or
          (bit_or (bit_or (bit_and e.ebx 0xff) (8 * 2 ^ 8))
            (bit_and (max_logical_processors num_vcpus) 0xff * 2 ^ 16))
          (vcpu_id * 2 ^ 24);
    ecx = bit_or e.ecx (2 ^ 31);
    edx = if ltb 1 num_vcpus then bit_or e.edx (2 ^ 28) else bit_and e.edx (all_but (2 ^ 28));
  }

  -- Leaf 0xB: one thread to a core, all cores in one package.
  unfoldable pub leaf_b : CpuidEntry → CpuidEntry
  leaf_b e =
      let e' : CpuidEntry = record e { flags = significant_index; edx = vcpu_id } in
      if e.index == 0
      then record e' { eax = 0; ebx = 1; ecx = 2 ^ 8 }
      else if e.index == 1
      then record e' {
        eax = bit_and package_id_shift 0x1f;
        ebx = bit_and num_vcpus 0xffff;
        ecx = bit_or 1 (2 * 2 ^ 8);
      }
      else record e' { eax = 0; ebx = 0; ecx = e.index }

  -- Leaf 4, for a cache that so many processors share.
  unfoldable pub share_cache : ℕ → CpuidEntry → CpuidEntry
  share_cache share e =
      let eax = bit_or (bit_and e.eax (all_but (0xfff * 2 ^ 14))) (bit_and share 0xfff * 2 ^ 14) in
      record e {
        eax =
            bit_or (bit_and eax (all_but (0x3f * 2 ^ 26))) (bit_and (num_vcpus - 1) 0x3f * 2 ^ 26);
      }

  unfoldable pub leaf_4 : CpuidEntry → CpuidEntry
  leaf_4 e =
      let level = bit_and (e.eax / 2 ^ 5) 0x7 in
      if bit_or (bit_or (bit_or e.eax e.ebx) e.ecx) e.edx == 0
      then e
      else if (level == 1) || (level == 2)
      then share_cache 0 e
      else if level == 3
      then share_cache (num_vcpus - 1) e
      else e

  -- The leaves of AMD.
  unfoldable pub leaf_amd_8 : CpuidEntry → CpuidEntry
  leaf_amd_8 e =
      let ecx = bit_or (bit_and e.ecx (all_but 0xff)) (bit_and (num_vcpus - 1) 0xff) in
      record e {
        ecx = bit_or (bit_and ecx (all_but (0xf * 2 ^ 12))) (min package_id_shift 0xf * 2 ^ 12);
      }

  unfoldable pub leaf_amd_1e : CpuidEntry → CpuidEntry
  leaf_amd_1e e = record e { eax = vcpu_id; ebx = bit_or vcpu_id 0; ecx = 0 }

  -- `match entry.function`
  unfoldable pub set_leaf : CpuidEntry → CpuidEntry
  set_leaf e =
      if e.function == 0x1
      then leaf_1 e
      else if e.function == 0xb
      then leaf_b e
      else if e.function == 0x4
      then leaf_4 e
      else if e.function == 0x8000_0008
      then leaf_amd_8 e
      else if e.function == 0x8000_001e
      then leaf_amd_1e e
      else e

  unfoldable pub set_leaves : List CpuidEntry → List CpuidEntry
  set_leaves [] = []
  set_leaves (e ∷ entries) = set_leaf e ∷ set_leaves entries

abbrev is_leaf : ℕ → CpuidEntry → Bool
is_leaf function e = e.function == function

abbrev not_leaf : ℕ → CpuidEntry → Bool
not_leaf function e = not (e.function == function)

-- The entries as leaf 0x1F.
unfoldable pub as_1f : List CpuidEntry → List CpuidEntry
as_1f [] = []
as_1f (e ∷ entries) = record e { function = 0x1f } ∷ as_1f entries

-- The last step of `apply_cpu_topology`.
unfoldable pub mirror_b : List CpuidEntry → List CpuidEntry
mirror_b entries =
    if any (is_leaf 0x1f) entries
    then retain (not_leaf 0x1f) entries ++ as_1f (retain (is_leaf 0xb) entries)
    else entries

-- `apply_cpu_topology`
unfoldable pub apply_cpu_topology : ℕ → ℕ → List CpuidEntry → List CpuidEntry
apply_cpu_topology vcpu_id num_vcpus entries = mirror_b (
    set_leaves vcpu_id num_vcpus
      (ensure_subleaf 0xb 1 (ensure_subleaf 0xb 0 (raise_max_leaf entries))))

retain_other :
    (entries : List CpuidEntry) (f g : ℕ)
    → (f == g) ≡ false
    → retain (is_leaf f) (retain (not_leaf g) entries) ≡ retain (is_leaf f) entries
retain_other [] f g h = refl
retain_other (e ∷ entries) f g h = ground (arith, retain_other entries f g h)

retain_gone :
    (entries : List CpuidEntry) (f : ℕ) → retain (is_leaf f) (retain (not_leaf f) entries) ≡ []
retain_gone [] f = refl
retain_gone (e ∷ entries) f = ground (arith, retain_gone entries f)

retain-as_1f :
    (entries : List CpuidEntry)
    → (retain (is_leaf 0x1f) (as_1f entries) ≡ as_1f entries)
      × (retain (is_leaf 0xb) (as_1f entries) ≡ [])
unfolding as_1f
retain-as_1f [] = (refl, refl)
retain-as_1f (e ∷ entries) =
    (ap (λ l. record e { function = 0x1f } ∷ l) (retain-as_1f entries).0, (retain-as_1f entries).1)

-- If there is a leaf 0x1F, it has exactly the sub-leaves of leaf 0xB after the mirror, in order.
pub mirror_b-same :
    (entries : List CpuidEntry)
    → any (is_leaf 0x1f) entries ≡ true
    → retain (is_leaf 0x1f) (mirror_b entries) ≡ as_1f (retain (is_leaf 0xb) (mirror_b entries))
unfolding mirror_b
mirror_b-same entries has = by (any (is_leaf 0x1f) entries) has
  where
    others : List CpuidEntry
    others = retain (not_leaf 0x1f) entries

    sub_leaves : List CpuidEntry
    sub_leaves = retain (is_leaf 0xb) entries

    copies :
        (retain (is_leaf 0x1f) (as_1f sub_leaves) ≡ as_1f sub_leaves)
        × (retain (is_leaf 0xb) (as_1f sub_leaves) ≡ [])
    copies = retain-as_1f sub_leaves

    by :
        (b : Bool)
        → b ≡ true
        → retain (is_leaf 0x1f) (if b then others ++ as_1f sub_leaves else entries)
          ≡ as_1f (retain (is_leaf 0xb) (if b then others ++ as_1f sub_leaves else entries))
    by true e =
        retain-append (is_leaf 0x1f) others (as_1f sub_leaves)
        ∙ (ap (λ l. l ++ retain (is_leaf 0x1f) (as_1f sub_leaves)) (retain_gone entries 0x1f)
            ∙ (copies.0
                ∙ sym (
                    ap as_1f (
                      retain-append (is_leaf 0xb) others (as_1f sub_leaves)
                      ∙ (ap (λ l. l ++ retain (is_leaf 0xb) (as_1f sub_leaves))
                            (retain_other entries 0xb 0x1f refl)
                          ∙ (ap (λ l. sub_leaves ++ l) copies.1 ∙ append-nil sub_leaves))))))
    by false e = cc
