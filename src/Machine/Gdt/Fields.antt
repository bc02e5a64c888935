-- ===== src/Machine/Gdt/Fields.antt =====
-- What `to_kvm_segment` of src/gdt.rs finds in a descriptor that `SegmentDescriptor::from` packed.
use kitsune.Base.{ℕ, ◌+◌, ◌*◌, ◌%◌, ◌^◌, ◌<◌, ◌≡◌, ap, arith, if◌then◌else◌, ◌==◌}
use kitsune.Machine.Gdt.{
  bits, descriptor, base_of, limit_of, granularity, default_big, long_mode, available, present,
  privilege, system, segment_type, KvmSegment, to_kvm_segment, scaled_limit,
}

-- The segment that KVM gets for these flags, base and limit.
abbrev pub segment : ℕ → ℕ → ℕ → ℕ → KvmSegment
segment flags base limit table_index = record {
  base = base;
  limit = if bits 15 1 flags == 0 then limit else limit * 2 ^ 12 + 0xfff;
  selector = table_index * 8;
  type_ = bits 0 4 flags;
  present = bits 7 1 flags;
  dpl = bits 5 2 flags;
  db = bits 14 1 flags;
  s = bits 4 1 flags;
  l = bits 13 1 flags;
  g = bits 15 1 flags;
  avl = bits 12 1 flags;
  unusable = if bits 7 1 flags == 0 then 1 else 0;
}

base-descriptor : (f b l : ℕ) → b < 2 ^ 32 → base_of (descriptor f b l) ≡ b
unfolding base_of descriptor
base-descriptor f b l h = omega arith

limit-descriptor : (f b l : ℕ) → l < 2 ^ 20 → limit_of (descriptor f b l) ≡ l
unfolding limit_of descriptor
limit-descriptor f b l h = omega arith

granularity-descriptor : (f b l : ℕ) → granularity (descriptor f b l) ≡ bits 15 1 f
unfolding descriptor
granularity-descriptor f b l = omega arith

type-descriptor : (f b l : ℕ) → segment_type (descriptor f b l) ≡ bits 0 4 f
unfolding descriptor
type-descriptor f b l = omega arith

present-descriptor : (f b l : ℕ) → present (descriptor f b l) ≡ bits 7 1 f
unfolding descriptor
present-descriptor f b l = omega arith

privilege-descriptor : (f b l : ℕ) → privilege (descriptor f b l) ≡ bits 5 2 f
unfolding descriptor
privilege-descriptor f b l = omega arith

default_big-descriptor : (f b l : ℕ) → default_big (descriptor f b l) ≡ bits 14 1 f
unfolding descriptor
default_big-descriptor f b l = omega arith

system-descriptor : (f b l : ℕ) → system (descriptor f b l) ≡ bits 4 1 f
unfolding descriptor
system-descriptor f b l = omega arith

long_mode-descriptor : (f b l : ℕ) → long_mode (descriptor f b l) ≡ bits 13 1 f
unfolding descriptor
long_mode-descriptor f b l = omega arith

available-descriptor : (f b l : ℕ) → available (descriptor f b l) ≡ bits 12 1 f
unfolding descriptor
available-descriptor f b l = omega arith

scaled_limit-descriptor :
    (f b l : ℕ)
    → l < 2 ^ 20
    → scaled_limit (descriptor f b l) ≡ (if bits 15 1 f == 0 then l else l * 2 ^ 12 + 0xfff)
unfolding scaled_limit
scaled_limit-descriptor f b l h =
    rw (limit-descriptor f b l h, granularity-descriptor f b l)
      (ap (λ n. if bits 15 1 f == 0 then l else n + 0xfff) (omega arith))

-- A descriptor packed from flags, a 32-bit base and a 20-bit limit gives KVM that base, that limit in
-- bytes, and each flag in its own field; a descriptor that is not present is unusable.
pub to_kvm_segment-descriptor :
    (flags base limit table_index : ℕ)
    → base < 2 ^ 32
    → limit < 2 ^ 20
    → table_index < 2 ^ 13
    → to_kvm_segment (descriptor flags base limit) table_index
      ≡ segment flags base limit table_index
unfolding to_kvm_segment
to_kvm_segment-descriptor f b l k hb hl hk =
    let selector : (k * 8) % 2 ^ 16 ≡ k * 8 = omega arith in
    λ i. record {
      base = base-descriptor f b l hb i;
      limit = scaled_limit-descriptor f b l hl i;
      selector = selector i;
      type_ = type-descriptor f b l i;
      present = present-descriptor f b l i;
      dpl = privilege-descriptor f b l i;
      db = default_big-descriptor f b l i;
      s = system-descriptor f b l i;
      l = long_mode-descriptor f b l i;
      g = granularity-descriptor f b l i;
      avl = available-descriptor f b l i;
      unusable = if present-descriptor f b l i == 0 then 1 else 0;
    }
