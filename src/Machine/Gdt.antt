-- ===== src/Machine/Gdt.antt =====
-- The boot descriptors of src/gdt.rs. `(x & mask) << k` of bits in a row is written as the bits, by
-- remainder and quotient, times a power of two, and `|` of words without common bits is their sum.
-- Writing the table to the guest's memory is left to a crate.
pub mod Fields
use kitsune.Base.{ℕ, ◌+◌, ◌*◌, ◌/◌, ◌%◌, ◌^◌, Bool, List, [], ◌∷◌, ◌==◌, not, if◌then◌else◌, length}

-- `n` bits of `x` from bit `lo` on.
abbrev pub bits : ℕ → ℕ → ℕ → ℕ
bits lo n x = (x / 2 ^ lo) % 2 ^ n

-- `SegmentDescriptor::from`: the flags lose their bits 8 to 11, where the limit's upper bits go.
unfoldable pub descriptor : ℕ → ℕ → ℕ → ℕ
descriptor flags base limit =
    bits 24 8 base * 2 ^ 56
    + (bits 0 8 flags * 2 ^ 40 + bits 12 4 flags * 2 ^ 52)
    + bits 16 4 limit * 2 ^ 48
    + bits 0 24 base * 2 ^ 16
    + bits 0 16 limit

-- `base`
unfoldable pub base_of : ℕ → ℕ
base_of d = bits 56 8 d * 2 ^ 24 + bits 32 8 d * 2 ^ 16 + bits 16 16 d

-- `limit`
unfoldable pub limit_of : ℕ → ℕ
limit_of d = bits 48 4 d * 2 ^ 16 + bits 0 16 d

-- `g`, `db`, `l`, `avl`, `p`, `dpl`, `s` and `segment_type`
abbrev pub granularity : ℕ → ℕ
granularity d = bits 55 1 d

abbrev pub default_big : ℕ → ℕ
default_big d = bits 54 1 d

abbrev pub long_mode : ℕ → ℕ
long_mode d = bits 53 1 d

abbrev pub available : ℕ → ℕ
available d = bits 52 1 d

abbrev pub present : ℕ → ℕ
present d = bits 47 1 d

abbrev pub privilege : ℕ → ℕ
privilege d = bits 45 2 d

abbrev pub system : ℕ → ℕ
system d = bits 44 1 d

abbrev pub segment_type : ℕ → ℕ
segment_type d = bits 40 4 d

-- `kvm_segment`, without its padding
pub record KvmSegment : Type 0 where
  pub base : ℕ
  pub limit : ℕ
  pub selector : ℕ
  pub type_ : ℕ
  pub present : ℕ
  pub dpl : ℕ
  pub db : ℕ
  pub s : ℕ
  pub l : ℕ
  pub g : ℕ
  pub avl : ℕ
  pub unusable : ℕ

-- The limit that KVM takes, in bytes: `(limit << 12) | 0xfff` of a u32.
unfoldable pub scaled_limit : ℕ → ℕ
scaled_limit d = if granularity d == 0 then limit_of d else (limit_of d * 2 ^ 12) % 2 ^ 32 + 0xfff

-- `to_kvm_segment`
unfoldable pub to_kvm_segment : ℕ → ℕ → KvmSegment
to_kvm_segment d table_index = record {
  base = base_of d;
  limit = scaled_limit d;
  selector = (table_index * 8) % 2 ^ 16;
  type_ = segment_type d;
  present = present d;
  dpl = privilege d;
  db = default_big d;
  s = system d;
  l = long_mode d;
  g = granularity d;
  avl = available d;
  unusable = if present d == 0 then 1 else 0;
}

-- `BootGdt::new`
abbrev pub long_mode_gdt : List ℕ
long_mode_gdt =
    descriptor 0 0 0
    ∷ descriptor 0xa09b 0 0xfffff
    ∷ descriptor 0xc093 0 0xfffff
    ∷ descriptor 0x808b 0 0xfffff
    ∷ []

-- `BootGdt::pvh`
abbrev pub pvh_gdt : List ℕ
pvh_gdt =
    descriptor 0 0 0
    ∷ descriptor 0xc09b 0 0xfffff
    ∷ descriptor 0xc093 0 0xfffff
    ∷ descriptor 0x808b 0 0xfffff
    ∷ []
