-- ===== src/Vsock/Invariant/Queue.antt =====
-- The queue operations keep the invariant.
use kitsune.Base.{
  ◌≡◌, ◌≢◌, ◌∙◌, Bool, true, false, List, [], ◌∷◌, ◌++◌, some, All, All-append, All-retain,
  All-mono, retain, arith, inl, inr, Bool-cases,
}
use kitsune.Vsock.Flow.{
  Flow, flow_eq, flow_eq_sym, get, insert, remove, contains_key, contains_key-adjust,
  contains_key-remove, contains_key-insert, remove-Values, insert-Values, adjust-Values, get-Values,
}
use kitsune.Vsock.Packet.{OutPkt, ctrl, op_rw, op_rst}
use kitsune.Vsock.State.{Conn, Mux, put}
use kitsune.Vsock.Queue.{enqueue, enqueue_rst, drop_conn, other_flow}
use kitsune.Vsock.Invariant.{ConnInv, MuxInv}

pub conn_of : (m : Mux) (flow : Flow) (c : Conn) → MuxInv m → get flow m.conns ≡ some c → ConnInv c
conn_of m flow c v e = get-Values ConnInv flow c m.conns e v.conns

pub put-MuxInv : (m : Mux) (flow : Flow) (c : Conn) → MuxInv m → ConnInv c → MuxInv (put m flow c)
put-MuxInv m flow c v i = record {
  conns = adjust-Values ConnInv flow c m.conns i v.conns;
  ctrl = v.ctrl;
  bytes = v.bytes;
  live = All-mono m.out_data (λ p h. contains_key-adjust p.flow flow (λ _. c) m.conns ∙ h) v.live;
  lines = v.lines;
  waiting = v.waiting;
  port = v.port;
}

pub insert-MuxInv :
    (m : Mux) (flow : Flow) (c : Conn)
    → MuxInv m
    → ConnInv c
    → MuxInv (record m { conns = insert flow c m.conns })
insert-MuxInv m flow c v i = record {
  conns = insert-Values ConnInv flow c m.conns i v.conns;
  ctrl = v.ctrl;
  bytes = v.bytes;
  live = All-mono m.out_data (λ p h. contains_key-insert p.flow flow c m.conns h) v.live;
  lines = v.lines;
  waiting = v.waiting;
  port = v.port;
}

-- A change of `out_ctrl` to other control packets.
pub ctrl-MuxInv :
    (m : Mux) (ps : List OutPkt)
    → MuxInv m
    → All (λ p. p.op ≢ op_rw) ps
    → MuxInv (record m { out_ctrl = ps })
ctrl-MuxInv m ps v h = record {
  conns = v.conns;
  ctrl = h;
  bytes = v.bytes;
  live = v.live;
  lines = v.lines;
  waiting = v.waiting;
  port = v.port;
}

enqueue_of_ne :
    (m : Mux) (pkt : OutPkt)
    → pkt.op ≢ op_rw
    → enqueue m pkt ≡ record m { out_ctrl = m.out_ctrl ++ pkt ∷ [] }
unfolding enqueue
enqueue_of_ne m pkt n = ground arith

pub enqueue-MuxInv : (m : Mux) (pkt : OutPkt) → pkt.op ≢ op_rw → MuxInv m → MuxInv (enqueue m pkt)
enqueue-MuxInv m pkt n v =
    rw (enqueue_of_ne m pkt n)
      (ctrl-MuxInv m _ v (All-append (λ p. p.op ≢ op_rw) m.out_ctrl (pkt ∷ []) v.ctrl (n, tt)))

pub enqueue_rst-MuxInv : (m : Mux) (flow : Flow) → MuxInv m → MuxInv (enqueue_rst m flow)
unfolding enqueue_rst
enqueue_rst-MuxInv m flow v =
    enqueue-MuxInv _ (ctrl flow op_rst 0) (omega arith)
      (ctrl-MuxInv m _ v (All-retain (λ p. p.op ≢ op_rw) _ m.out_ctrl v.ctrl))

-- The packets that `drop_conn` keeps belong to connections that it keeps.
live_after_drop :
    (flow : Flow) (conns : List (Flow × Conn)) (ps : List OutPkt)
    → All (λ p. contains_key p.flow conns ≡ true) ps
    → All (λ p. contains_key p.flow (remove flow conns) ≡ true) (retain (other_flow flow) ps)
live_after_drop flow conns [] h = tt
live_after_drop flow conns (p ∷ ps) h = elim (Bool-cases (flow_eq p.flow flow)) [
  | inl same ↦ rw same (live_after_drop flow conns ps h.1)
  | inr other ↦ rw other (
    contains_key-remove p.flow flow conns (flow_eq_sym flow p.flow ∙ other) ∙ h.0,
    live_after_drop flow conns ps h.1,
  )
]

abbrev pub dropped : Mux → Flow → Mux
dropped m flow = record m {
  conns = remove flow m.conns;
  out_ctrl = retain (other_flow flow) m.out_ctrl;
  out_data = retain (other_flow flow) m.out_data;
}

dropped-MuxInv : (m : Mux) (flow : Flow) → MuxInv m → MuxInv (dropped m flow)
dropped-MuxInv m flow v = record {
  conns = remove-Values ConnInv flow m.conns v.conns;
  ctrl = All-retain (λ p. p.op ≢ op_rw) _ m.out_ctrl v.ctrl;
  bytes = All-retain (λ p. p.op ≡ op_rw) _ m.out_data v.bytes;
  live = live_after_drop flow m.conns m.out_data v.live;
  lines = v.lines;
  waiting = v.waiting;
  port = v.port;
}

pub drop_conn-MuxInv :
    (m : Mux) (flow : Flow) (rst : Bool) → MuxInv m → MuxInv (drop_conn m flow rst)
unfolding drop_conn
drop_conn-MuxInv m flow true v = enqueue_rst-MuxInv (dropped m flow) flow (dropped-MuxInv m flow v)
drop_conn-MuxInv m flow false v = dropped-MuxInv m flow v
