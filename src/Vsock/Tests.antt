-- ===== src/Vsock/Tests.antt =====
-- Concrete packets, connections and kernels, and what the theorems say of them.
use kitsune.Base.{
  ℕ, ◌≡◌, ◌≤◌, ◌↔◌, refl, inr, true, false, [], ◌∷◌, ◌++◌, some, arith, if◌then◌else◌, ◌==◌,
}
use kitsune.Vsock.Flow.{Flow, flow_eq, get}
use kitsune.Vsock.Packet.{
  Header, OutPkt, parse, header, host_cid, type_stream, op_rst, op_rw, op_request, op_credit_update,
}
use kitsune.Vsock.Packet.RoundTrip.{sent_header, parse-header}
use kitsune.Vsock.Host.{Host, ok, err, would_block}
use kitsune.Vsock.State.{Conn, Mux, bound, new_conn, established, local_free}
use kitsune.Vsock.Queue.{drop_conn, alloc_host_port}
use kitsune.Vsock.Queue.Drop.{Dropped, drop_conn-Dropped}
use kitsune.Vsock.Queue.Ports.{alloc_host_port-some}
use kitsune.Vsock.Stream.{flush_both, ingest, is_closed_to_guest}
use kitsune.Vsock.Stream.Fifo.{Flushed, stream}
use kitsune.Vsock.Stream.Flush.{Drained, waiting_bytes, flush_both-Flushed, flush_both-Drained}
use kitsune.Vsock.Stream.Intake.{Ingested, in_flight, ingest-Ingested, ingest-credit}
use kitsune.Vsock.Guest.{handle_guest_pkt, on_rw}
use kitsune.Vsock.Guest.Data.{Holds, on_rw-Holds}
use kitsune.Vsock.Guest.Replies.{answered, handle_guest_pkt_stray}
use kitsune.Vsock.Device.{VsockState, drive, pull_tx, pull_chains, add_used}
use kitsune.Vsock.Device.Returned.{returned, tx_heads, pull_tx-returned}
use kitsune.Vsock.Device.Safe.{drive-MuxInv}
use kitsune.Vsock.Accept.{Events, on_fd, parse_connect, connect_prefix}
use kitsune.Vsock.Accept.Connect.{Asks, parse_connect_iff}
use kitsune.Vsock.Invariant.{MuxInv, bound-MuxInv}
use kitsune.Vsock.Invariant.Guest.{handle_guest_pkt-MuxInv}
use kitsune.Vsock.Invariant.Events.{on_fd-MuxInv}
use kitsune.Vsock.Reach.{start, next, guest, Reach-MuxInv}

abbrev web : Flow
web = record { guest_port = 80; host_port = 1024 }

abbrev fresh : Mux
fresh = bound 3 (b'v' ∷ []) 5

-- A request of the guest for the host's port 1024.
abbrev request : Header
request = record {
  src_cid = 3;
  dst_cid = host_cid;
  src_port = 80;
  dst_port = 1024;
  len = 0;
  type_ = type_stream;
  op = op_request;
  flags = 0;
  buf_alloc = 100;
  fwd_cnt = 0;
}

abbrev data_packet : Header
data_packet = record request { op = op_rw; len = 2 }

abbrev credit_packet : Header
credit_packet = record request { op = op_credit_update; fwd_cnt = 4 }

-- A kernel that opens the socket 7 and takes one byte at first.
abbrev kernel : Host
kernel = record {
  sends = ok 1 ∷ ok 9 ∷ err would_block ∷ [];
  reads = ok (1 ∷ 2 ∷ []) ∷ [];
  sockets = ok 7 ∷ [];
  connects = ok tt ∷ [];
  accepts = ok 8 ∷ [];
  sock_errors = [];
  ticks = 4 ∷ [];
  clock = 10;
  wire = λ fd. [];
  shutdowns = [];
}

-- An open connection with bytes for the host.
abbrev busy : Conn
busy = record (new_conn 7 established) {
  peer_buf_alloc = 4;
  ok_pending = 79 ∷ [];
  to_host = 1 ∷ 2 ∷ [];
  received = 2;
}

abbrev open_mux : Mux
open_mux = record fresh { conns = (web, busy) ∷ [] }

abbrev two_bytes : OutPkt
two_bytes = record { flow = web; op = op_rw; flags = 0; payload = 1 ∷ 2 ∷ [] }

abbrev readable : Events
readable = record {
  pollin = true;
  pollout = false;
  pollerr = false;
  pollhup = false;
  pollnval = false;
}

Reach-MuxInv_example : MuxInv (handle_guest_pkt fresh kernel request []).0
Reach-MuxInv_example =
    Reach-MuxInv (next (start 3 (b'v' ∷ []) 5) (guest kernel request [] (omega arith)))

handle_guest_pkt-MuxInv_example : MuxInv (handle_guest_pkt fresh kernel request []).0
handle_guest_pkt-MuxInv_example =
    handle_guest_pkt-MuxInv fresh kernel request [] (omega arith) (bound-MuxInv 3 (b'v' ∷ []) 5)

on_fd-MuxInv_example : MuxInv (on_fd fresh kernel 5 readable).0
on_fd-MuxInv_example = on_fd-MuxInv fresh kernel 5 readable (bound-MuxInv 3 (b'v' ∷ []) 5)

flush_both-Flushed_example : Flushed busy kernel (flush_both busy kernel)
flush_both-Flushed_example = flush_both-Flushed busy kernel

flush_both-Drained_example : Drained waiting_bytes (flush_both busy kernel)
flush_both-Drained_example = flush_both-Drained busy kernel

on_rw-Holds_example :
    Holds web (on_rw open_mux kernel web (3 ∷ 4 ∷ [])) (stream busy kernel ++ 3 ∷ 4 ∷ [])
unfolding get flow_eq local_free
on_rw-Holds_example = on_rw-Holds open_mux kernel web busy (3 ∷ 4 ∷ []) refl refl (omega arith)

ingest-Ingested_example : Ingested open_mux (ingest open_mux web (5 ∷ 6 ∷ [])) web busy (5 ∷ 6 ∷ [])
unfolding get flow_eq is_closed_to_guest
ingest-Ingested_example = ingest-Ingested open_mux web busy (5 ∷ 6 ∷ []) refl refl (omega arith)

ingest-credit_example :
    (d : Conn) × (get web (ingest open_mux web (5 ∷ 6 ∷ [])).conns ≡ some d)
    × (in_flight d ≤ d.peer_buf_alloc)
unfolding get flow_eq is_closed_to_guest
ingest-credit_example =
    ingest-credit open_mux web busy (5 ∷ 6 ∷ []) refl refl (omega arith) (omega arith)

drop_conn-Dropped_example : Dropped open_mux (drop_conn open_mux web true) web true
drop_conn-Dropped_example = drop_conn-Dropped open_mux web true

alloc_host_port-some_example : (port : ℕ) × ((alloc_host_port open_mux).0 ≡ some port)
alloc_host_port-some_example = alloc_host_port-some open_mux (omega arith) (omega arith)

parse_connect_iff_example :
    (parse_connect (connect_prefix ++ b'8' ∷ []) ≡ some 8) ↔ Asks (connect_prefix ++ b'8' ∷ []) 8
parse_connect_iff_example = parse_connect_iff (connect_prefix ++ b'8' ∷ []) 8

parse-header_example : parse (header two_bytes 3 100 7) ≡ sent_header two_bytes 3 100 7
parse-header_example = parse-header two_bytes 3 100 7 (omega arith)

handle_guest_pkt_stray_example :
    handle_guest_pkt fresh kernel data_packet (1 ∷ 2 ∷ [])
    ≡ (if op_rw == op_rst then (fresh, kernel) else (answered fresh data_packet, kernel))
unfolding get flow_eq
handle_guest_pkt_stray_example =
    handle_guest_pkt_stray fresh kernel data_packet (1 ∷ 2 ∷ []) refl refl (inr (omega arith, refl))

-- A device whose guest has sent a request and has a chain for an answer.
abbrev device : VsockState
device = record {
  mux = fresh;
  host = kernel;
  queues_ready = true;
  need_reset_event = false;
  rx_ready = true;
  tx_ready = true;
  event_ready = true;
  rx = (record { head_index = 1; available_bytes = some 100; writes = true }) ∷ [];
  tx = (record { head_index = 2; readable = some (header two_bytes 3 100 7) }) ∷ [];
  event = [];
  adds = true ∷ true ∷ [];
  used = [];
  written = [];
}

drive-MuxInv_example : MuxInv (drive device).1.mux
unfolding header
drive-MuxInv_example = drive-MuxInv device (omega arith) (bound-MuxInv 3 (b'v' ∷ []) 5)

pull_tx-returned_example :
    returned (pull_tx device).1.used ≡ returned device.used ++ tx_heads device.tx
unfolding pull_tx pull_chains add_used
pull_tx-returned_example = pull_tx-returned device true refl refl
