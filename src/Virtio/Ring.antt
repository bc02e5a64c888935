-- ===== src/Virtio/Ring.antt =====
-- What src/devices/virtio_mmio.rs calls of the crate `virtio_queue`: the operations of `Queue` that
-- change or read its registers. The queue and the guest's memory are parameters.
use kitsune.Base.{ℕ, Bool, Option, ◌≡◌}

pub record QueueOps (Q Mem : Type 0) : Type 0 where
  pub max_size : Q → ℕ
  pub ready : Q → Bool
  pub is_valid : Mem → Q → Bool
  pub reset : Q → Q
  pub set_size : ℕ → Q → Q
  pub set_ready : Bool → Q → Q
  pub set_desc_table_address : Option ℕ → Option ℕ → Q → Q
  pub set_avail_ring_address : Option ℕ → Option ℕ → Q → Q
  pub set_used_ring_address : Option ℕ → Option ℕ → Q → Q

-- `set_ready` stores what `ready` reads.
pub record QueueLaws {Q Mem : Type 0} (ops : QueueOps Q Mem) : Type 0 where
  pub ready-set_ready : (b : Bool) (q : Q) → ops.ready (ops.set_ready b q) ≡ b
