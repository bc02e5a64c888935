-- ===== src/Virtio/Mmio/Queues.antt =====
-- The queues' registers of src/devices/virtio_mmio.rs.
use kitsune.Base.{
  ℕ, zero, suc, ◌<◌, ◌≡◌, ◌≢◌, ◌↔◌, refl, ap, sym, ◌∙◌, true, false, none, some, List, [], ◌∷◌,
  arith, length, get_elem?, set, ◌==◌, inl, inr, Option-cases,
}
use kitsune.Virtio.Ring.{QueueOps, QueueLaws}
use kitsune.Virtio.Mmio.{
  VirtioMmio, with_selected, make_ready, queue_change, write_queue_reg, write_reg, reg_status,
  reg_queue_ready, reg_queue_notify,
}

get_elem-set_self :
    {Q : Type 0} (xs : List Q) (i : ℕ) (a b : Q)
    → get_elem? xs i ≡ some a
    → get_elem? (set xs i b) i ≡ some b
get_elem-set_self [] i a b e = cc
get_elem-set_self (x ∷ xs) zero a b e = refl
get_elem-set_self (x ∷ xs) (suc i) a b e = get_elem-set_self xs i a b e

get_elem-set_other :
    {Q : Type 0} (xs : List Q) (i j : ℕ) (b : Q) → j ≢ i → get_elem? (set xs i b) j ≡ get_elem? xs j
get_elem-set_other [] i j b n = refl
get_elem-set_other (x ∷ xs) zero zero b n = absurd (n refl)
get_elem-set_other (x ∷ xs) zero (suc j) b n = refl
get_elem-set_other (x ∷ xs) (suc i) zero b n = refl
get_elem-set_other (x ∷ xs) (suc i) (suc j) b n = get_elem-set_other xs i j b (λ e. n (ap suc e))

module _ {Q Mem : Type 0} (ops : QueueOps Q Mem) where
  with_selected_other :
      (t : VirtioMmio Q) (f : Q → Q) (j : ℕ)
      → j ≢ t.queue_sel
      → get_elem? (with_selected ops t f).queues j ≡ get_elem? t.queues j
  unfolding with_selected
  with_selected_other t f j n = elim (Option-cases (get_elem? t.queues t.queue_sel)) [
    | inl e ↦ rw (e, with_selected) refl
    | inr (q, e) ↦ rw (e, with_selected) (get_elem-set_other t.queues t.queue_sel j (f q) n)
  ]

  write_queue_reg_other :
      (t : VirtioMmio Q) (mem : Mem) (offset value j : ℕ)
      → j ≢ t.queue_sel
      → get_elem? (write_queue_reg ops t mem offset value).queues j ≡ get_elem? t.queues j
  unfolding write_queue_reg
  write_queue_reg_other t mem offset value j n =
      elim (Option-cases (queue_change ops mem offset value)) [
        | inl e ↦ rw (e, write_queue_reg) refl
        | inr (f, e) ↦ rw (e, write_queue_reg) (with_selected_other t f j n)
      ]

  -- A write to any register but Status leaves every queue that is not selected as it is.
  pub write_reg_other :
      (t : VirtioMmio Q) (mem : Mem) (offset value j : ℕ)
      → offset ≢ reg_status
      → j ≢ t.queue_sel
      → get_elem? (write_reg ops t mem offset value).1.queues j ≡ get_elem? t.queues j
  unfolding write_reg
  write_reg_other t mem offset value j o n =
      ground (arith, write_queue_reg_other t mem offset value j n)

  -- A write to a register notifies exactly if the register is QueueNotify and the value is the index
  -- of a queue: then of that queue.
  pub write_reg_notifies :
      (t : VirtioMmio Q) (mem : Mem) (offset value v : ℕ)
      → ((write_reg ops t mem offset value).0 ≡ some v)
        ↔ ((offset ≡ reg_queue_notify) × (v ≡ value) × (value < length t.queues))
  unfolding write_reg
  write_reg_notifies t mem offset value v = ground arith

  make_ready-valid :
      (laws : QueueLaws ops) (mem : Mem) (value : ℕ) (q : Q)
      → ops.ready (make_ready ops mem value q) ≡ true
      → ops.is_valid mem (make_ready ops mem value q) ≡ true
  unfolding make_ready
  make_ready-valid laws mem value q r = ground (
    arith,
    laws.ready-set_ready (value == 1) q,
    laws.ready-set_ready false (ops.set_ready (value == 1) q),
  )

  with_selected_self :
      (t : VirtioMmio Q) (f : Q → Q) (q : Q)
      → get_elem? (with_selected ops t f).queues t.queue_sel ≡ some q
      → (old : Q) × (q ≡ f old)
  unfolding with_selected
  with_selected_self t f q e = elim (Option-cases (get_elem? t.queues t.queue_sel)) [
    | inl n ↦ absurd (nothing (sym n ∙ rw (n, with_selected) at e))
    | inr (old, o) ↦
        let new : get_elem? (set t.queues t.queue_sel (f old)) t.queue_sel ≡ some q =
          rw (o, with_selected) at e in
        (old, same q (f old) (sym new ∙ get_elem-set_self t.queues t.queue_sel old (f old) o))
  ]
    where
      nothing : none ≡ some q → ⊥
      nothing h = cc

      same : (a b : Q) → some a ≡ some b → a ≡ b
      same a b h = cc

  -- A queue that is ready after a write to its QueueReady is one that the crate finds valid in the
  -- guest's memory.
  pub write_reg-ready_valid :
      (laws : QueueLaws ops) (t : VirtioMmio Q) (mem : Mem) (value : ℕ) (q : Q)
      → get_elem? (write_reg ops t mem reg_queue_ready value).1.queues t.queue_sel ≡ some q
      → ops.ready q ≡ true
      → ops.is_valid mem q ≡ true
  unfolding write_reg write_queue_reg queue_change
  write_reg-ready_valid laws t mem value q e r =
      let (old, new) = with_selected_self t (make_ready ops mem value) q e in
      rw new (make_ready-valid laws mem value old (rw new at r))
