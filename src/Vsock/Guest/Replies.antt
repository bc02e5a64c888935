-- ===== src/Vsock/Guest/Replies.antt =====
-- What `handle_guest_pkt` does with packets that fit no connection.
use kitsune.Base.{
  ℕ, ◌≡◌, ◌≢◌, true, not, ◌||◌, ◌&&◌, List, none, some, arith, if◌then◌else◌, inl, inr, ◌⊎◌, ◌==◌,
  retain, [], ◌∷◌, ◌++◌,
}
use kitsune.Vsock.Flow.{Flow, flow_eq, get}
use kitsune.Vsock.Packet.{
  Header, OutPkt, host_cid, type_stream, op_rst, op_request, op_credit_update,
}
use kitsune.Vsock.Host.{Host}
use kitsune.Vsock.State.{Conn, Mux, put}
use kitsune.Vsock.Queue.{enqueue_rst, enqueue}
use kitsune.Vsock.Guest.{handle_guest_pkt, route, dispatch, guest_flow, note_credit}

-- A packet that names another guest, or another host, changes nothing.
pub handle_guest_pkt_spoofed :
    (m : Mux) (h : Host) (hdr : Header) (bytes : List ℕ)
    → (hdr.src_cid ≢ m.guest_cid) ⊎ (hdr.dst_cid ≢ host_cid)
    → handle_guest_pkt m h hdr bytes ≡ (m, h)
unfolding handle_guest_pkt
handle_guest_pkt_spoofed m h hdr bytes other =
    let e : not (hdr.src_cid == m.guest_cid) || not (hdr.dst_cid == host_cid) ≡ true =
      ground arith in
    rw e

-- One RST for the ports of the guest's packet waits, at the end of the control queue.
abbrev pub answered : Mux → Header → Mux
answered m hdr =
    let flow : Flow = record { guest_port = hdr.src_port; host_port = hdr.dst_port } in
    let rst : OutPkt = record { flow = flow; op = op_rst; flags = 0; payload = [] } in
    record m {
      out_ctrl = retain (λ p. not (flow_eq p.flow flow && (p.op == op_rst))) m.out_ctrl ++ rst ∷ [];
    }

-- A packet from this guest to this host that is no stream packet, or that is no request and fits no connection, is
-- answered by exactly one RST of its flow at the end of the control queue, in place of those that wait
-- there already, unless it is an RST itself; nothing else changes.
pub handle_guest_pkt_stray :
    (m : Mux) (h : Host) (hdr : Header) (bytes : List ℕ)
    → hdr.src_cid ≡ m.guest_cid
    → hdr.dst_cid ≡ host_cid
    → (hdr.type_ ≢ type_stream) ⊎ ((hdr.op ≢ op_request) × (get (guest_flow hdr) m.conns ≡ none))
    → handle_guest_pkt m h hdr bytes ≡ (if hdr.op == op_rst then (m, h) else (answered m hdr, h))
unfolding handle_guest_pkt route enqueue_rst enqueue
handle_guest_pkt_stray m h hdr bytes src dst (inl t) = ground arith
handle_guest_pkt_stray m h hdr bytes src dst (inr (op, e)) = ground arith

-- A packet whose operation only carries credit notes the guest's credit and does nothing else: the
-- early bytes that wait for credit go on waiting.
pub handle_guest_pkt_credit_update :
    (m : Mux) (h : Host) (hdr : Header) (bytes : List ℕ) (c : Conn)
    → hdr.src_cid ≡ m.guest_cid
    → hdr.dst_cid ≡ host_cid
    → hdr.type_ ≡ type_stream
    → hdr.op ≡ op_credit_update
    → get (guest_flow hdr) m.conns ≡ some c
    → handle_guest_pkt m h hdr bytes ≡ (put m (guest_flow hdr) (note_credit c hdr), h)
unfolding handle_guest_pkt route dispatch
handle_guest_pkt_credit_update m h hdr bytes c src dst t op e = ground arith
