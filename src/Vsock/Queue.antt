-- ===== src/Vsock/Queue.antt =====
-- The packets that wait for the guest, and what ends a connection: the methods of `Mux` in
-- src/devices/vsock_mux.rs that make no system call.
pub mod Drop
pub mod Ports
use kitsune.Base.{
  ℕ, zero, suc, ◌+◌, ◌-◌, ◌/◌, Bool, true, false, not, ◌&&◌, ◌||◌, Option, none, some, List, [],
  ◌∷◌, ◌++◌, ◌==◌, ltb, leb, if◌then◌else◌, is_empty, retain, any, max, u32_mod, wrapping_sub,
  length,
}
use mathlib.Core.List.{foldl}
use mathlib.Core.Option
use kitsune.Vsock.Flow.{Flow, flow_eq, get, remove}
use kitsune.Vsock.Packet.{OutPkt, ctrl, op_rst, op_rw, op_credit_update, op_credit_request}
use kitsune.Vsock.State.{Conn, Mux, put}

-- `has_out`
unfoldable pub has_out : Mux → Bool
has_out m = not (is_empty m.out_ctrl) || not (is_empty m.out_data)

-- `pop_out`: control packets go first.
unfoldable pub pop_out : Mux → Option OutPkt × Mux
pop_out m = elim m.out_ctrl [
  | p ∷ ps ↦ (some p, record m { out_ctrl = ps })
  | [] ↦ elim m.out_data [ p ∷ ps ↦ (some p, record m { out_data = ps }) | [] ↦ (none, m) ]
]

-- `push_front_out`
unfoldable pub push_front_out : Mux → OutPkt → Mux
push_front_out m pkt =
    if pkt.op == op_rw
    then record m { out_data = pkt ∷ m.out_data }
    else record m { out_ctrl = pkt ∷ m.out_ctrl }

-- `credit_of`
pub credit_of : Mux → Flow → ℕ × ℕ
credit_of m flow = elim (get flow m.conns) [ some c ↦ (c.buf_alloc, c.fwd_cnt) | none ↦ (0, 0) ]

-- `enqueue`
unfoldable pub enqueue : Mux → OutPkt → Mux
enqueue m pkt =
    if pkt.op == op_rw
    then record m { out_data = m.out_data ++ pkt ∷ [] }
    else record m { out_ctrl = m.out_ctrl ++ pkt ∷ [] }

-- `pkt.flow == flow && pkt.op == op`
abbrev pub is_ctrl : Flow → ℕ → OutPkt → Bool
is_ctrl flow op pkt = flow_eq pkt.flow flow && (pkt.op == op)

-- `pkt.flow != flow`
abbrev pub other_flow : Flow → OutPkt → Bool
other_flow flow pkt = not (flow_eq pkt.flow flow)

-- `enqueue_rst`
unfoldable pub enqueue_rst : Mux → Flow → Mux
unfolding enqueue
enqueue_rst m flow =
    enqueue (record m { out_ctrl = retain (λ p. not (is_ctrl flow op_rst p)) m.out_ctrl })
      (ctrl flow op_rst 0)

-- `drop_conn`
unfoldable pub drop_conn : Mux → Flow → Bool → Mux
unfolding enqueue_rst
drop_conn m flow rst =
    let dropped : Mux = record m {
      conns = remove flow m.conns;
      out_ctrl = retain (other_flow flow) m.out_ctrl;
      out_data = retain (other_flow flow) m.out_data;
    } in
    if rst then enqueue_rst dropped flow else dropped

-- `reset_flow`
unfoldable pub reset_flow : Mux → ℕ → ℕ → Mux
unfolding drop_conn
reset_flow m guest_port host_port =
    drop_conn m (record { guest_port = guest_port; host_port = host_port }) true

-- `kill_connections`
unfoldable pub kill_connections : Mux → Mux
kill_connections m = record m { incoming = []; conns = []; out_ctrl = []; out_data = [] }

-- `conn.expiry.is_some_and(|deadline| deadline <= now)`
abbrev pub is_expired : ℕ → Conn → Bool
is_expired now c = elim c.expiry [ some deadline ↦ leb deadline now | none ↦ false ]

-- The flows whose deadline is over.
unfoldable pub expired : ℕ → List (Flow × Conn) → List Flow
expired now [] = []
expired now ((flow, c) ∷ m) = if is_expired now c then flow ∷ expired now m else expired now m

-- `for flow in expired { self.drop_conn(flow, true) }`
unfoldable pub drop_expired : Mux → List Flow → Mux
drop_expired m [] = m
drop_expired m (flow ∷ flows) = drop_expired (drop_conn m flow true) flows

-- `check_timeouts`
unfoldable pub check_timeouts : Mux → ℕ → Mux
unfolding drop_expired expired
check_timeouts m now = drop_expired m (expired now m.conns)

-- `request_credit`
unfoldable pub request_credit : Mux → Flow → Mux
unfolding enqueue
request_credit m flow =
    if any (is_ctrl flow op_credit_request) m.out_ctrl
    then m
    else enqueue m (ctrl flow op_credit_request 0)

-- The rest of `enqueue_credit` and of `maybe_credit`: one update at a time waits for the guest.
unfoldable pub enqueue_update : Mux → Flow → Mux
unfolding enqueue
enqueue_update m flow =
    if any (is_ctrl flow op_credit_update) m.out_ctrl
    then m
    else (let noted : Mux = elim (get flow m.conns) [
      | none ↦ m
      | some c ↦ put m flow (record c { last_fwd_sent = c.fwd_cnt })
    ] in
        enqueue noted (ctrl flow op_credit_update 0))

-- `enqueue_credit`
unfoldable pub enqueue_credit : Mux → Flow → Mux
unfolding enqueue_update
enqueue_credit m flow = enqueue_update m flow

-- `maybe_credit`
unfoldable pub maybe_credit : Mux → Flow → Mux
unfolding enqueue_update
maybe_credit m flow = elim (get flow m.conns) [
  | none ↦ m
  | some c ↦
      if ltb (wrapping_sub c.fwd_cnt c.last_fwd_sent) (max (c.buf_alloc / 4) 4096)
      then m
      else enqueue_update m flow
]

-- `self.conns.keys().any(|flow| flow.host_port == port)`
abbrev pub port_used : ℕ → List (Flow × Conn) → Bool
port_used port conns = any (λ e. e.0.host_port == port) conns

-- The `for` of `alloc_host_port` with the rounds left.
unfoldable pub alloc_rounds : ℕ → Mux → Option ℕ × Mux
alloc_rounds zero m = (none, m)
alloc_rounds (suc rounds) m =
    let port = m.next_host_port in
    let m' : Mux = record m { next_host_port = if port == u32_mod - 1 then 1024 else port + 1 } in
    elim (ltb port 1024 || port_used port m'.conns) [
      | true ↦ alloc_rounds rounds m'
      | false ↦ (some port, m')
    ]

-- `alloc_host_port`
unfoldable pub alloc_host_port : Mux → Option ℕ × Mux
alloc_host_port m = alloc_rounds 60_000 m
