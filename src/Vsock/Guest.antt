-- ===== src/Vsock/Guest.antt =====
-- What the guest sends: `handle_guest_pkt` of src/devices/vsock_mux.rs and the handler of each
-- operation.
pub mod Replies
pub mod Data
use kitsune.Base.{
  ℕ, zero, suc, ◌+◌, Bool, true, false, not, ◌&&◌, ◌||◌, Option, none, some, List, [], ◌∷◌, ◌++◌,
  ◌==◌, ltb, if◌then◌else◌, is_empty, wrapping_add, length, bit_and, u32_mod, ◌%◌,
}
use kitsune.Base.Decimal.{decimal}
use kitsune.Vsock.Flow.{Flow, get, insert, contains_key}
use kitsune.Vsock.Packet.{
  Header, ctrl, host_cid, type_stream, op_request, op_response, op_rst, op_shutdown, op_rw,
  op_credit_request, shutdown_send, shutdown_rcv, max_payload,
}
use kitsune.Vsock.Host.{
  Host, Io, ok, err, ConnectResult, done, pending, fail, connect_unix, unix_stream, shutdown_fd,
  shut_rd, now,
}
use kitsune.Vsock.State.{
  Conn, Mux, put, local_free, Phase, established, wait_guest, is_established, is_waiting, new_conn,
}
use kitsune.Vsock.Queue.{enqueue, enqueue_rst, drop_conn, enqueue_credit}
use kitsune.Vsock.Stream.{flush_conn, request_timeout}

-- `peer_socket_path`: the path, `_` and the port.
unfoldable pub peer_socket_path : Mux → ℕ → Option (List ℕ)
peer_socket_path m port =
    let name = m.path ++ b'_' ∷ decimal port in if ltb 107 (length name) then none else some name

-- The connection that a guest's request opens.
abbrev pub requested : ℕ → Header → Conn
requested fd hdr = record (new_conn fd established) {
  peer_buf_alloc = hdr.buf_alloc;
  peer_fwd_cnt = hdr.fwd_cnt;
}

-- The rest of `on_guest_request`, once there is a path to connect to.
unfoldable pub open_request : Mux → Host → Flow → Header → List ℕ → Mux × Host
open_request m h flow hdr path =
    let (sock, h') = unix_stream h in
    elim sock [
      | err e ↦ (enqueue_rst m flow, h')
      | ok fd ↦
          let (r, h'') = connect_unix path h' in
          elim r [
            | done ↦ (
              enqueue (record m { conns = insert flow (requested fd hdr) m.conns })
                  (ctrl flow op_response 0),
              h'',
            )
            | pending ↦
                let (t, h''') = now h'' in
                let opened = requested fd hdr in
                let waits : Conn = record opened {
                  connecting = true;
                  expiry = some (t + request_timeout);
                } in
                (record m { conns = insert flow waits m.conns }, h''')
            | fail ↦ (enqueue_rst m flow, h'')
          ]
    ]

-- `on_guest_request`
unfoldable pub on_guest_request : Mux → Host → Flow → Header → Mux × Host
on_guest_request m h flow hdr =
    if contains_key flow m.conns
    then (drop_conn m flow true, h)
    else if not (hdr.len == 0)
    then (enqueue_rst m flow, h)
    else elim (peer_socket_path m flow.host_port) [
      | none ↦ (enqueue_rst m flow, h)
      | some path ↦ open_request m h flow hdr path
    ]

-- `format!("OK {}\n", flow.host_port)`
abbrev pub ok_line : ℕ → List ℕ
ok_line port = b'O' ∷ b'K' ∷ b' ' ∷ (decimal port ++ 10 ∷ [])

-- `on_response`
unfoldable pub on_response : Mux → Host → Flow → Mux × Host
on_response m h flow = elim (get flow m.conns) [
  | none ↦ (m, h)
  | some c ↦
      if not (is_waiting c.phase)
      then (m, h)
      else flush_conn
          (put m flow
            (record c { phase = established; expiry = none; ok_pending = ok_line flow.host_port }))
          h flow
]

-- The change that a SHUTDOWN with these flags makes to the connection.
abbrev pub half_closed : Conn → Bool → Bool → Conn
half_closed c peer_recv peer_send = record c {
  peer_shut_recv = peer_recv || c.peer_shut_recv;
  local_shut_send = peer_recv || c.local_shut_send;
  peer_shut_send = peer_send || c.peer_shut_send;
}

-- `on_shutdown`
unfoldable pub on_shutdown : Mux → Host → Flow → ℕ → Mux × Host
on_shutdown m h flow flags =
    let peer_recv = not (bit_and flags shutdown_rcv == 0) in
    let peer_send = not (bit_and flags shutdown_send == 0) in
    elim (get flow m.conns) [
      | none ↦ flush_conn m h flow
      | some c ↦
          flush_conn (put m flow (half_closed c peer_recv peer_send))
            (if peer_recv then shutdown_fd c.fd shut_rd h else h) flow
    ]

-- The test of `on_rw`.
abbrev pub accepts_data : Conn → Bool
accepts_data c = is_established c.phase && not c.local_shut_recv && not c.peer_shut_send

-- The guest's bytes, taken over.
abbrev pub receive : Conn → List ℕ → Conn
receive c bytes = record c {
  received = wrapping_add c.received (length bytes % u32_mod);
  to_host = c.to_host ++ bytes;
}

-- `on_rw`
unfoldable pub on_rw : Mux → Host → Flow → List ℕ → Mux × Host
on_rw m h flow bytes = if is_empty bytes then (m, h) else elim (get flow m.conns) [
  | none ↦ (m, h)
  | some c ↦
      if not (accepts_data c)
      then (m, h)
      else if ltb (local_free c) (length bytes % u32_mod)
      then (drop_conn m flow true, h)
      else flush_conn (put m flow (receive c bytes)) h flow
]

-- The flow of a packet from the guest.
abbrev pub guest_flow : Header → Flow
guest_flow hdr = record { guest_port = hdr.src_port; host_port = hdr.dst_port }

-- The `match` on the operation in `handle_guest_pkt`, for a live flow.
unfoldable pub dispatch : Mux → Host → Flow → Header → List ℕ → Mux × Host
dispatch m h flow hdr bytes =
    if hdr.op == op_response
    then on_response m h flow
    else if hdr.op == op_rst
    then (drop_conn m flow false, h)
    else if hdr.op == op_shutdown
    then on_shutdown m h flow hdr.flags
    else if hdr.op == op_rw
    then (if ltb max_payload (length bytes)
        then (drop_conn m flow true, h)
        else on_rw m h flow bytes)
    else if hdr.op == op_credit_request
    then (enqueue_credit m flow, h)
    else (m, h)

-- The peer's credit, which every packet carries.
abbrev pub note_credit : Conn → Header → Conn
note_credit c hdr = record c { peer_buf_alloc = hdr.buf_alloc; peer_fwd_cnt = hdr.fwd_cnt }

-- The answer to a packet that fits no connection: RST, but never to an RST.
abbrev pub refuse : Mux → Flow → Header → Mux
refuse m flow hdr = if hdr.op == op_rst then m else enqueue_rst m flow

-- `handle_guest_pkt` from the test for a request on.
unfoldable pub route : Mux → Host → Flow → Header → List ℕ → Mux × Host
route m h flow hdr bytes =
    if hdr.op == op_request then on_guest_request m h flow hdr else elim (get flow m.conns) [
      | none ↦ (refuse m flow hdr, h)
      | some c ↦ dispatch (put m flow (note_credit c hdr)) h flow hdr bytes
    ]

-- `handle_guest_pkt`
unfoldable pub handle_guest_pkt : Mux → Host → Header → List ℕ → Mux × Host
handle_guest_pkt m h hdr bytes =
    if not (hdr.src_cid == m.guest_cid) || not (hdr.dst_cid == host_cid)
    then (m, h)
    else if not (hdr.type_ == type_stream)
    then (refuse m (guest_flow hdr) hdr, h)
    else route m h (guest_flow hdr) hdr bytes
