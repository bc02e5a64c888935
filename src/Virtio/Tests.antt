-- ===== src/Virtio/Tests.antt =====
-- A queue that is only a flag, and what the theorems say of it.
use kitsune.Base.{
  ℕ, ◌+◌, ◌*◌, ◌/◌, ◌%◌, ◌^◌, ◌≡◌, refl, Bool, true, false, [], ◌∷◌, bit_and, u32_mod, arith,
  get_elem?,
}
use kitsune.Virtio.Ring.{QueueOps, QueueLaws}
use kitsune.Virtio.Mmio.{
  VirtioMmio, write_reg, write_status, write_queue_reg, queue_change, with_selected, make_ready,
  negotiated, is_refused, bit_not, reg_driver_features, reg_driver_features_sel, reg_queue_ready,
}
use kitsune.Virtio.Mmio.Negotiation.{write_reg-accepted, write_reg-features}
use kitsune.Virtio.Mmio.Queues.{write_reg_other, write_reg-ready_valid}
use kitsune.Virtio.Slot.{
  ThreadsInv, start, next, reserves, commits, fresh, Reach-ThreadsInv, reserve, commit,
}

-- A queue is whether it is ready, and the memory whether a queue is valid in it.
abbrev flags : QueueOps Bool Bool
flags = record {
  max_size = λ q. 256;
  ready = λ q. q;
  is_valid = λ mem q. mem;
  reset = λ q. false;
  set_size = λ n q. q;
  set_ready = λ b q. b;
  set_desc_table_address = λ a b q. q;
  set_avail_ring_address = λ a b q. q;
  set_used_ring_address = λ a b q. q;
}

abbrev flags_laws : QueueLaws flags
flags_laws = record { ready-set_ready = λ b q. refl }

abbrev two_queues : VirtioMmio Bool
two_queues = record {
  base = 0xd000_0000;
  device_id = 2;
  device_features = 2 ^ 32 + 0x21;
  status = 3;
  device_features_sel = 0;
  driver_features_sel = 0;
  driver_features = 2 ^ 32 + 1;
  queue_sel = 1;
  interrupt_status = 0;
  queues = true ∷ false ∷ [];
}

write_reg-accepted_example :
    (bit_and two_queues.driver_features (bit_not 64 two_queues.device_features) ≡ 0)
    × ((two_queues.driver_features / 2 ^ 32) % 2 ≡ 1)
unfolding write_reg write_status negotiated is_refused
write_reg-accepted_example = write_reg-accepted flags two_queues true 11 (omega arith)

write_reg-features_example :
    let s = (write_reg flags two_queues true reg_driver_features_sel 0).1 in
    let s = (write_reg flags s true reg_driver_features 0x21).1 in
    let s = (write_reg flags s true reg_driver_features_sel 1).1 in
    (write_reg flags s true reg_driver_features 1).1.driver_features ≡ 0x21 + 1 * u32_mod
write_reg-features_example =
    write_reg-features flags two_queues true 0x21 1 (omega arith) (omega arith)

write_reg_other_example :
    get_elem? (write_reg flags two_queues true reg_queue_ready 1).1.queues 0
    ≡ get_elem? two_queues.queues 0
write_reg_other_example =
    write_reg_other flags two_queues true reg_queue_ready 1 0 (omega arith) (omega arith)

abbrev one : ℕ
one = 1

write_reg-ready_valid_example : flags.is_valid true true ≡ true
unfolding write_reg write_queue_reg queue_change with_selected make_ready
write_reg-ready_valid_example =
    write_reg-ready_valid flags flags_laws two_queues true 1 true refl refl

Reach-ThreadsInv_example :
    ThreadsInv (record (record fresh { dev = (reserve fresh.dev).1; active = 1 }) {
      dev = commit 9 (reserve fresh.dev).1;
      active = 0;
      committed = 9 ∷ [];
    })
unfolding reserve
Reach-ThreadsInv_example = Reach-ThreadsInv (next (next start reserves) (commits 9 0 refl))
