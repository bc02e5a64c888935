-- ===== src/Vsock/State.antt =====
-- The state of src/devices/vsock_mux.rs: `Phase`, `Conn`, `Incoming` and `Mux`.
-- A descriptor is its number; closing one is not modelled.
use kitsune.Base.{ℕ, ◌-◌, Bool, true, false, Option, none, List, [], wrapping_sub}
use kitsune.Vsock.Flow.{Flow, adjust}
use kitsune.Vsock.Packet.{OutPkt, buf_alloc_bytes}

pub data Phase : Type 0 where
  wait_guest established : Phase

abbrev pub is_established : Phase → Bool
is_established established = true
is_established wait_guest = false

abbrev pub is_waiting : Phase → Bool
is_waiting established = false
is_waiting wait_guest = true

pub record Conn : Type 0 where
  pub fd : ℕ
  pub phase : Phase
  pub connecting : Bool
  pub peer_buf_alloc : ℕ
  pub peer_fwd_cnt : ℕ
  pub sent_to_guest : ℕ
  pub received : ℕ
  pub fwd_cnt : ℕ
  pub last_fwd_sent : ℕ
  pub buf_alloc : ℕ
  pub to_host : List ℕ
  pub ok_pending : List ℕ
  pub prefetched : List ℕ
  pub local_shut_send : Bool
  pub local_shut_recv : Bool
  pub peer_shut_send : Bool
  pub peer_shut_recv : Bool
  pub host_write_shut : Bool
  pub expiry : Option ℕ

-- `Conn::new`
abbrev pub new_conn : ℕ → Phase → Conn
new_conn fd phase = record {
  fd = fd;
  phase = phase;
  connecting = false;
  peer_buf_alloc = 0;
  peer_fwd_cnt = 0;
  sent_to_guest = 0;
  received = 0;
  fwd_cnt = 0;
  last_fwd_sent = 0;
  buf_alloc = buf_alloc_bytes;
  to_host = [];
  ok_pending = [];
  prefetched = [];
  local_shut_send = false;
  local_shut_recv = false;
  peer_shut_send = false;
  peer_shut_recv = false;
  host_write_shut = false;
  expiry = none;
}

-- `Conn::peer_avail`: `saturating_sub` of u32 is the subtraction of ℕ.
unfoldable pub peer_avail : Conn → ℕ
peer_avail c =
    let inflight = wrapping_sub c.sent_to_guest c.peer_fwd_cnt in c.peer_buf_alloc - inflight

-- `Conn::local_free`
unfoldable pub local_free : Conn → ℕ
local_free c = let held = wrapping_sub c.received c.fwd_cnt in c.buf_alloc - held

pub record Incoming : Type 0 where
  pub fd : ℕ
  pub buf : List ℕ

pub record Mux : Type 0 where
  pub guest_cid : ℕ
  pub path : List ℕ
  pub listener : ℕ
  pub incoming : List Incoming
  pub conns : List (Flow × Conn)
  pub next_host_port : ℕ
  pub out_ctrl : List OutPkt
  pub out_data : List OutPkt

-- `Mux::bind`: the multiplexer that it returns once the socket at `path` listens.
abbrev pub bound : ℕ → List ℕ → ℕ → Mux
bound guest_cid path listener = record {
  guest_cid = guest_cid;
  path = path;
  listener = listener;
  incoming = [];
  conns = [];
  next_host_port = 1024;
  out_ctrl = [];
  out_data = [];
}

-- A write back through `self.conns.get_mut(&flow)`.
abbrev pub put : Mux → Flow → Conn → Mux
put m flow c = record m { conns = adjust flow (λ _. c) m.conns }
