-- ===== src/Virtio/Mmio.antt =====
-- The transport of src/devices/virtio_mmio.rs: its registers, and the access to them by address.
-- `x & 0xffff_ffff` and `x >> 32` of a u64 are the remainder and the quotient by 2 ^ 32, and `|` of
-- words without common bits is their sum. The two event descriptors are left out, but for the error
-- that a write to one of them may return.
pub mod Negotiation
pub mod Queues
use kitsune.Base.{
  ℕ, zero, suc, ◌+◌, ◌-◌, ◌*◌, ◌/◌, ◌%◌, ◌^◌, min, Bool, true, false, not, ◌&&◌, ◌||◌, Option, none,
  some, List, [], ◌∷◌, ◌++◌, ◌==◌, ltb, leb, if◌then◌else◌, length, take, get_elem?, set, replicate,
  bit_and, bit_or, u32_mod, u64_mod, to_le_bytes, from_le_bytes, copy_from_slice,
}
use kitsune.Virtio.Ring.{QueueOps}

abbrev pub features_ok : ℕ
features_ok = 8

abbrev pub failed : ℕ
failed = 128

abbrev pub int_vring : ℕ
int_vring = 1

-- The offsets of the registers.
abbrev pub reg_driver_features : ℕ
reg_driver_features = 0x20

abbrev pub reg_driver_features_sel : ℕ
reg_driver_features_sel = 0x24

abbrev pub reg_queue_sel : ℕ
reg_queue_sel = 0x30

abbrev pub reg_queue_ready : ℕ
reg_queue_ready = 0x44

abbrev pub reg_queue_notify : ℕ
reg_queue_notify = 0x50

abbrev pub reg_status : ℕ
reg_status = 0x70

abbrev pub reg_config : ℕ
reg_config = 0x100

-- `VirtioMmio`
pub record VirtioMmio (Q : Type 0) : Type 0 where
  pub base : ℕ
  pub device_id : ℕ
  pub device_features : ℕ
  pub status : ℕ
  pub device_features_sel : ℕ
  pub driver_features_sel : ℕ
  pub driver_features : ℕ
  pub queue_sel : ℕ
  pub interrupt_status : ℕ
  pub queues : List Q

-- `!x` of a word of `w` bits.
abbrev pub bit_not : ℕ → ℕ → ℕ
bit_not w x = 2 ^ w - 1 - x

-- `read_le`
unfoldable pub read_le : List ℕ → ℕ
read_le bytes =
    let n = min (length bytes) 4 in from_le_bytes (copy_from_slice (replicate 4 0) 0 (take n bytes))

-- `write_le` into the buffer `out`.
unfoldable pub write_le : List ℕ → ℕ → List ℕ
write_le out value =
    let n = min (length out) 4 in copy_from_slice out 0 (take n (to_le_bytes 4 value))

-- The `n` bytes of `config` from `start` on, and zeros behind its end.
unfoldable pub config_bytes : List ℕ → ℕ → ℕ → List ℕ
config_bytes config start zero = []
config_bytes config start (suc n) =
    let byte : ℕ = elim (get_elem? config start) [ some b ↦ b | none ↦ 0 ] in
    byte ∷ config_bytes config (suc start) n

-- `unknown != 0 || (self.driver_features & VIRTIO_F_VERSION_1) == 0`
unfoldable pub is_refused : ℕ → ℕ → Bool
is_refused driver device =
    not (bit_and driver (bit_not 64 device) == 0) || ((driver / 2 ^ 32) % 2 == 0)

-- The status that a write of a value other than 0 leaves.
unfoldable pub negotiated : Bool → ℕ → ℕ
negotiated refused status =
    if not (bit_and status features_ok == 0) && refused
    then bit_or (bit_and status (bit_not 8 features_ok)) failed
    else status

-- The driver's features after a write of one of their words.
unfoldable pub set_driver_features : ℕ → ℕ → ℕ → ℕ
set_driver_features sel old value =
    if sel == 0
    then (old / u32_mod) * u32_mod + value
    else if sel == 1
    then old % u32_mod + value * u32_mod
    else old

module _ {Q Mem : Type 0} (ops : QueueOps Q Mem) where
  -- `VirtioMmio::new`, with the queues that the crate has made.
  unfoldable pub new : ℕ → ℕ → ℕ → List Q → Option (VirtioMmio Q)
  new base device_id device_features queues = elim queues [
    | [] ↦ none
    | q ∷ qs ↦ some (record {
      base = base;
      device_id = device_id;
      device_features = device_features;
      status = 0;
      device_features_sel = 0;
      driver_features_sel = 0;
      driver_features = 0;
      queue_sel = 0;
      interrupt_status = 0;
      queues = q ∷ qs;
    })
  ]

  -- `signal_used_queue`: the flag is set before the write to the irqfd, which may fail.
  unfoldable pub signal_used_queue : Bool → VirtioMmio Q → Bool × VirtioMmio Q
  signal_used_queue written t =
      (written, record t { interrupt_status = bit_or t.interrupt_status int_vring })

  unfoldable pub reset_all : List Q → List Q
  reset_all [] = []
  reset_all (q ∷ qs) = ops.reset q ∷ reset_all qs

  -- `reset`
  unfoldable pub reset : VirtioMmio Q → VirtioMmio Q
  reset t = record t {
    status = 0;
    device_features_sel = 0;
    driver_features_sel = 0;
    driver_features = 0;
    queue_sel = 0;
    interrupt_status = 0;
    queues = reset_all t.queues;
  }

  -- `selected_queue`
  abbrev pub selected_queue : VirtioMmio Q → Option Q
  selected_queue t = get_elem? t.queues t.queue_sel

  -- A change through `selected_queue_mut`.
  unfoldable pub with_selected : VirtioMmio Q → (Q → Q) → VirtioMmio Q
  with_selected t f = elim (selected_queue t) [
    | none ↦ t
    | some q ↦ record t { queues = set t.queues t.queue_sel (f q) }
  ]

  -- What a write to QueueReady does to the queue.
  unfoldable pub make_ready : Mem → ℕ → Q → Q
  make_ready mem value q =
      let ready = value == 1 in
      let changed = ops.set_ready ready q in
      if ready && not (ops.is_valid mem changed) then ops.set_ready false changed else changed

  -- `read_reg`
  unfoldable pub read_reg : VirtioMmio Q → ℕ → ℕ
  read_reg t offset =
      if offset == 0x00
      then 0x7472_6976
      else if offset == 0x04
      then 2
      else if offset == 0x08
      then t.device_id
      else if offset == 0x0c
      then 0x1000
      else if offset == 0x10
      then (if t.device_features_sel == 0
          then t.device_features % u32_mod
          else if t.device_features_sel == 1
          then t.device_features / u32_mod
          else 0)
      else if offset == 0x34
      then elim (selected_queue t) [ some q ↦ ops.max_size q | none ↦ 0 ]
      else if offset == reg_queue_ready
      then elim (selected_queue t) [ some q ↦ if ops.ready q then 1 else 0 | none ↦ 0 ]
      else if offset == 0x60
      then t.interrupt_status
      else if offset == reg_status
      then t.status
      else 0

  -- What a write to a register of the selected queue does to it.
  unfoldable pub queue_change : Mem → ℕ → ℕ → Option (Q → Q)
  queue_change mem offset value =
      if offset == 0x38
      then some (ops.set_size (value % 2 ^ 16))
      else if offset == reg_queue_ready
      then some (make_ready mem value)
      else if offset == 0x80
      then some (ops.set_desc_table_address (some value) none)
      else if offset == 0x84
      then some (ops.set_desc_table_address none (some value))
      else if offset == 0x90
      then some (ops.set_avail_ring_address (some value) none)
      else if offset == 0x94
      then some (ops.set_avail_ring_address none (some value))
      else if offset == 0xa0
      then some (ops.set_used_ring_address (some value) none)
      else if offset == 0xa4
      then some (ops.set_used_ring_address none (some value))
      else none

  -- The rest of `write_reg`: the registers of the selected queue.
  unfoldable pub write_queue_reg : VirtioMmio Q → Mem → ℕ → ℕ → VirtioMmio Q
  write_queue_reg t mem offset value = elim (queue_change mem offset value) [
    | none ↦ t
    | some f ↦ with_selected t f
  ]

  -- What a write to Status does.
  unfoldable pub write_status : VirtioMmio Q → ℕ → VirtioMmio Q
  write_status t value = if value == 0 then reset t else record t {
    status = negotiated (is_refused t.driver_features t.device_features) (value % 2 ^ 8);
  }

  -- `write_reg`: the queue that the guest notifies, if it does, and the new state.
  unfoldable pub write_reg : VirtioMmio Q → Mem → ℕ → ℕ → Option ℕ × VirtioMmio Q
  write_reg t mem offset value =
      if offset == 0x14
      then (none, record t { device_features_sel = value })
      else if offset == reg_driver_features
      then (
        none,
        record t {
          driver_features = set_driver_features t.driver_features_sel t.driver_features value;
        },
      )
      else if offset == reg_driver_features_sel
      then (none, record t { driver_features_sel = value })
      else if offset == reg_queue_sel
      then (none, record t { queue_sel = value })
      else if offset == reg_queue_notify
      then ((if ltb value (length t.queues) then some value else none), t)
      else if offset == 0x64
      then (none, record t { interrupt_status = bit_and t.interrupt_status (bit_not 32 value) })
      else if offset == reg_status
      then (none, write_status t value)
      else (none, write_queue_reg t mem offset value)

  -- `read`, for an address from the base on, into a buffer.
  unfoldable pub read : VirtioMmio Q → ℕ → List ℕ → List ℕ → List ℕ
  read t addr out config =
      let offset = addr - t.base in
      if leb reg_config offset && ltb offset (reg_config + length config)
      then config_bytes config (offset - reg_config) (length out)
      else write_le out (read_reg t offset)

  -- `write`, for an address from the base on.
  unfoldable pub write : VirtioMmio Q → Mem → ℕ → List ℕ → Option ℕ × VirtioMmio Q
  write t mem addr bytes = write_reg t mem (addr - t.base) (read_le bytes)
