-- ===== src/Vsock/Invariant/Credit.antt =====
-- The credit packets, the timeouts and the guest's side of the queues keep the invariant.
use kitsune.Base.{
  ℕ, ◌≡◌, refl, true, List, [], ◌∷◌, Option, none, some, arith, if◌then◌else◌, inl, inr, Bool-cases,
  Option-cases, any, ltb, max, wrapping_sub, ◌/◌,
}
use kitsune.Vsock.Flow.{Flow, get}
use kitsune.Vsock.Packet.{ctrl, op_credit_update, op_credit_request}
use kitsune.Vsock.State.{Conn, Mux, put}
use kitsune.Vsock.Queue.{
  enqueue, drop_conn, request_credit, enqueue_update, enqueue_credit, maybe_credit, is_ctrl,
  reset_flow, kill_connections, check_timeouts, drop_expired, expired,
}
use kitsune.Vsock.Invariant.{ConnInv, MuxInv}
use kitsune.Vsock.Invariant.Queue.{conn_of, put-MuxInv, enqueue-MuxInv, drop_conn-MuxInv}

pub request_credit-MuxInv : (m : Mux) (flow : Flow) → MuxInv m → MuxInv (request_credit m flow)
unfolding request_credit
request_credit-MuxInv m flow v =
    elim (Bool-cases (any (is_ctrl flow op_credit_request) m.out_ctrl)) [
      | inl e ↦ rw e v
      | inr e ↦ rw e (enqueue-MuxInv m (ctrl flow op_credit_request 0) (omega arith) v)
    ]

-- Noting what was forwarded changes no field that the invariant is about.
noted-ConnInv : (c : Conn) → ConnInv c → ConnInv (record c { last_fwd_sent = c.fwd_cnt })
noted-ConnInv c i = record {
  alloc = i.alloc;
  held = i.held;
  received = i.received;
  forwarded = i.forwarded;
  early = i.early;
  counts = record { sent = i.counts.sent; forwarded = i.counts.forwarded; alloc = i.counts.alloc };
  staged = i.staged;
}

-- `enqueue_update` without its test.
abbrev pub updated : Mux → Flow → Option Conn → Mux
updated m flow none = enqueue m (ctrl flow op_credit_update 0)
updated m flow (some c) =
    enqueue (put m flow (record c { last_fwd_sent = c.fwd_cnt })) (ctrl flow op_credit_update 0)

pub enqueue_update-eq :
    (m : Mux) (flow : Flow)
    → enqueue_update m flow ≡ (
        if any (is_ctrl flow op_credit_update) m.out_ctrl
        then m
        else updated m flow (get flow m.conns))
unfolding enqueue_update
enqueue_update-eq m flow = elim (Option-cases (get flow m.conns)) [
  | inl e ↦ rw (e, enqueue_update)
  | inr (c, e) ↦ rw (e, enqueue_update)
]

updated-MuxInv :
    (m : Mux) (flow : Flow) (o : Option Conn)
    → get flow m.conns ≡ o
    → MuxInv m
    → MuxInv (updated m flow o)
updated-MuxInv m flow none e v = enqueue-MuxInv m (ctrl flow op_credit_update 0) (omega arith) v
updated-MuxInv m flow (some c) e v =
    enqueue-MuxInv _ (ctrl flow op_credit_update 0) (omega arith)
      (put-MuxInv m flow _ v (noted-ConnInv c (conn_of m flow c v e)))

pub enqueue_update-MuxInv : (m : Mux) (flow : Flow) → MuxInv m → MuxInv (enqueue_update m flow)
enqueue_update-MuxInv m flow v =
    rw (enqueue_update-eq m flow)
      (elim (Bool-cases (any (is_ctrl flow op_credit_update) m.out_ctrl)) [
        | inl e ↦ rw e v
        | inr e ↦ rw e (updated-MuxInv m flow (get flow m.conns) refl v)
      ])

pub enqueue_credit-MuxInv : (m : Mux) (flow : Flow) → MuxInv m → MuxInv (enqueue_credit m flow)
unfolding enqueue_credit
enqueue_credit-MuxInv m flow v = enqueue_update-MuxInv m flow v

pub maybe_credit-MuxInv : (m : Mux) (flow : Flow) → MuxInv m → MuxInv (maybe_credit m flow)
unfolding maybe_credit
maybe_credit-MuxInv m flow v = elim (Option-cases (get flow m.conns)) [
  | inl e ↦ rw (e, maybe_credit) v
  | inr (c, e) ↦
      elim (Bool-cases
        (ltb (wrapping_sub c.fwd_cnt c.last_fwd_sent) (max (c.buf_alloc / 4) 4096))) [
          | inl below ↦ rw (e, maybe_credit) (rw below v)
          | inr due ↦ rw (e, maybe_credit) (rw due (enqueue_update-MuxInv m flow v))
        ]
]

drop_expired-MuxInv : (m : Mux) (flows : List Flow) → MuxInv m → MuxInv (drop_expired m flows)
unfolding drop_expired
drop_expired-MuxInv m [] v = v
drop_expired-MuxInv m (flow ∷ flows) v =
    drop_expired-MuxInv (drop_conn m flow true) flows (drop_conn-MuxInv m flow true v)

pub check_timeouts-MuxInv : (m : Mux) (now : ℕ) → MuxInv m → MuxInv (check_timeouts m now)
unfolding check_timeouts
check_timeouts-MuxInv m now v = drop_expired-MuxInv m (expired now m.conns) v

pub reset_flow-MuxInv : (m : Mux) (g p : ℕ) → MuxInv m → MuxInv (reset_flow m g p)
unfolding reset_flow
reset_flow-MuxInv m g p v = drop_conn-MuxInv m _ true v

pub kill_connections-MuxInv : (m : Mux) → MuxInv m → MuxInv (kill_connections m)
unfolding kill_connections
kill_connections-MuxInv m v = record {
  conns = tt;
  ctrl = tt;
  bytes = tt;
  live = tt;
  lines = tt;
  waiting = omega arith;
  port = v.port;
}
