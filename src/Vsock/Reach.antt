-- ===== src/Vsock/Reach.antt =====
-- The life of the multiplexer: what the worker of src/devices/virtio_vsock.rs calls on it, in any
-- order and with any answers of the kernel.
use kitsune.Base.{
  ℕ, ◌≡◌, ◌≢◌, refl, subst, List, [], ◌∷◌, Option, none, some, All, arith, ◌==◌, inl, inr, ==_iff,
  true, false, ◌⊎◌,
}
use kitsune.Vsock.Flow.{contains_key}
use kitsune.Vsock.Packet.{Header, OutPkt, op_rw}
use kitsune.Vsock.Host.{Host}
use kitsune.Vsock.State.{Mux, bound}
use kitsune.Vsock.Queue.{pop_out, push_front_out, check_timeouts, reset_flow, kill_connections}
use kitsune.Vsock.Guest.{handle_guest_pkt}
use kitsune.Vsock.Accept.{Events, on_fd}
use kitsune.Vsock.Invariant.{MuxInv, HeaderFits, bound-MuxInv}
use kitsune.Vsock.Invariant.Credit.{
  check_timeouts-MuxInv, reset_flow-MuxInv, kill_connections-MuxInv,
}
use kitsune.Vsock.Invariant.Guest.{handle_guest_pkt-MuxInv}
use kitsune.Vsock.Invariant.Events.{on_fd-MuxInv}

pub data Step (m : Mux) : Mux → Type 0 where
  guest :
      (h : Host) (hdr : Header) (bytes : List ℕ)
      → HeaderFits hdr
      → Step m (handle_guest_pkt m h hdr bytes).0
  event : (h : Host) (fd : ℕ) (ev : Events) → Step m (on_fd m h fd ev).0
  timeouts : (now : ℕ) → Step m (check_timeouts m now)
  reset : (guest_port host_port : ℕ) → Step m (reset_flow m guest_port host_port)
  kill : Step m (kill_connections m)
  -- `push_rx` takes a packet, and puts back what the guest's buffer has no room for.
  deliver : (pkt : OutPkt) (m' : Mux) → pop_out m ≡ (some pkt, m') → Step m m'
  put_back :
      (pkt : OutPkt) (m' : Mux) (rest : List ℕ)
      → pop_out m ≡ (some pkt, m')
      → Step m (push_front_out m' (record pkt { payload = rest }))

pub data Reach : Mux → Type 0 where
  start : (cid : ℕ) (path : List ℕ) (listener : ℕ) → Reach (bound cid path listener)
  next : {m m' : Mux} → Reach m → Step m m' → Reach m'

-- A packet that `pop_out` takes is a control packet, or belongs to a live connection.
abbrev pub Popped : Mux → OutPkt → Mux → Type 0
Popped m pkt m' =
    MuxInv m' × ((pkt.op ≢ op_rw) ⊎ ((pkt.op ≡ op_rw) × (contains_key pkt.flow m'.conns ≡ true)))

pop_lists : (m : Mux) (cs ds : List OutPkt) → Option OutPkt × Mux
pop_lists m [] [] = (none, m)
pop_lists m [] (p ∷ ps) = (some p, record m { out_data = ps })
pop_lists m (p ∷ ps) ds = (some p, record m { out_ctrl = ps })

pop_out-pop_lists : (m : Mux) → pop_out m ≡ pop_lists m m.out_ctrl m.out_data
unfolding pop_out pop_lists
pop_out-pop_lists m = ground arith

take_ctrl-MuxInv :
    (m : Mux) (ps : List OutPkt)
    → All (λ p. p.op ≢ op_rw) ps
    → MuxInv m
    → MuxInv (record m { out_ctrl = ps })
take_ctrl-MuxInv m ps h v = record {
  conns = v.conns;
  ctrl = h;
  bytes = v.bytes;
  live = v.live;
  lines = v.lines;
  waiting = v.waiting;
  port = v.port;
}

take_data-MuxInv :
    (m : Mux) (ps : List OutPkt)
    → All (λ p. p.op ≡ op_rw) ps
    → All (λ p. contains_key p.flow m.conns ≡ true) ps
    → MuxInv m
    → MuxInv (record m { out_data = ps })
take_data-MuxInv m ps h l v = record {
  conns = v.conns;
  ctrl = v.ctrl;
  bytes = h;
  live = l;
  lines = v.lines;
  waiting = v.waiting;
  port = v.port;
}

pop_lists-Popped :
    (m : Mux) (cs ds : List OutPkt) (pkt : OutPkt) (m' : Mux)
    → m.out_ctrl ≡ cs
    → m.out_data ≡ ds
    → pop_lists m cs ds ≡ (some pkt, m')
    → MuxInv m
    → Popped m pkt m'
unfolding pop_lists
pop_lists-Popped m [] [] pkt m' a b e v = cc
pop_lists-Popped m [] (p ∷ ps) pkt m' a b e v =
    let same : p ≡ pkt = cc in
    let state : record m { out_data = ps } ≡ m' = cc in
    let bytes : All (λ p. p.op ≡ op_rw) (p ∷ ps) = rw b at (v.bytes) in
    let live : All (λ q. contains_key q.flow m.conns ≡ true) (p ∷ ps) = rw b at (v.live) in
    subst (λ n. Popped m pkt n) state
      (subst (λ q. Popped m q (record m { out_data = ps })) same
        (take_data-MuxInv m ps bytes.1 live.1 v, inr (bytes.0, live.0)))
pop_lists-Popped m (p ∷ ps) ds pkt m' a b e v =
    let same : p ≡ pkt = cc in
    let state : record m { out_ctrl = ps } ≡ m' = cc in
    let ctrl : All (λ p. p.op ≢ op_rw) (p ∷ ps) = rw a at (v.ctrl) in
    subst (λ n. Popped m pkt n) state
      (subst (λ q. Popped m q (record m { out_ctrl = ps })) same
        (take_ctrl-MuxInv m ps ctrl.1 v, inl ctrl.0))

pub pop_out-Popped :
    (m : Mux) (pkt : OutPkt) (m' : Mux) → pop_out m ≡ (some pkt, m') → MuxInv m → Popped m pkt m'
pop_out-Popped m pkt m' e v =
    pop_lists-Popped m m.out_ctrl m.out_data pkt m' refl refl (rw pop_out-pop_lists at e) v

pub push_front_out-MuxInv :
    (m : Mux) (pkt : OutPkt)
    → (pkt.op ≢ op_rw) ⊎ ((pkt.op ≡ op_rw) × (contains_key pkt.flow m.conns ≡ true))
    → MuxInv m
    → MuxInv (push_front_out m pkt)
unfolding push_front_out
push_front_out-MuxInv m pkt (inl n) v =
    let e : (pkt.op == op_rw) ≡ false = ground arith in rw e (take_ctrl-MuxInv m _ (n, v.ctrl) v)
push_front_out-MuxInv m pkt (inr (o, l)) v =
    rw ((==_iff pkt.op op_rw).1 o) (take_data-MuxInv m _ (o, v.bytes) (l, v.live) v)

-- Each call of the worker keeps the invariant.
pub Step-MuxInv : {m m' : Mux} → Step m m' → MuxInv m → MuxInv m'
Step-MuxInv {m} (guest h hdr bytes f) v = handle_guest_pkt-MuxInv m h hdr bytes f v
Step-MuxInv {m} (event h fd ev) v = on_fd-MuxInv m h fd ev v
Step-MuxInv {m} (timeouts now) v = check_timeouts-MuxInv m now v
Step-MuxInv {m} (reset g p) v = reset_flow-MuxInv m g p v
Step-MuxInv {m} kill v = kill_connections-MuxInv m v
Step-MuxInv {m} (deliver pkt m' e) v = (pop_out-Popped m pkt m' e v).0
Step-MuxInv {m} (put_back pkt m' rest e) v =
    let popped = pop_out-Popped m pkt m' e v in
    push_front_out-MuxInv m' (record pkt { payload = rest }) popped.1 popped.0

-- In every state that the worker's calls reach from a fresh multiplexer, in any order and with any
-- answers of the kernel, the invariant holds.
pub Reach-MuxInv : {m : Mux} → Reach m → MuxInv m
Reach-MuxInv (start cid path listener) = bound-MuxInv cid path listener
Reach-MuxInv (next r s) = Step-MuxInv s (Reach-MuxInv r)
