-- ===== src/Vsock/Stream.antt =====
-- The bytes of a connection, in both directions: the methods of `Mux` in src/devices/vsock_mux.rs
-- that write to the host's socket or read from it, and `flush_ok` and `flush_to_host`.
pub mod Fifo
pub mod Flush
pub mod Ingest
pub mod Intake
pub mod Side
use kitsune.Base.{
  ℕ, zero, suc, ◌+◌, ◌-◌, ◌/◌, Bool, true, false, not, ◌&&◌, ◌||◌, Option, none, some, List, [],
  ◌∷◌, ◌++◌, ◌==◌, ltb, leb, if◌then◌else◌, is_empty, min, wrapping_add, wrapping_sub, length, take,
  drop, bit_or,
}
use kitsune.Vsock.Flow.{Flow, get}
use kitsune.Vsock.Packet.{
  OutPkt, ctrl, op_rw, op_response, op_shutdown, shutdown_send, shutdown_rcv, max_chunk,
  max_prefetch,
}
use kitsune.Vsock.Host.{
  Host, Io, ok, err, Errno, write_zero, transient, send_nosig, read_fd, shutdown_fd, shut_wr, now,
  socket_error,
}
use kitsune.Vsock.State.{Conn, Mux, put, peer_avail, Phase, is_established, is_waiting}
use kitsune.Vsock.Queue.{enqueue, drop_conn, request_credit, maybe_credit}

-- What follows a send of `ok_pending`: an error ends the loop, and so does a send of no bytes.
flush_ok_sent :
    (Conn → Host → Io (Unit {0}) × Conn × Host) → Conn → Io ℕ × Host → Io (Unit {0}) × Conn × Host
flush_ok_sent next c (err e, h) = (err e, c, h)
flush_ok_sent next c (ok zero, h) = (err write_zero, c, h)
flush_ok_sent next c (ok (suc n), h) = next (record c { ok_pending = drop (suc n) c.ok_pending }) h

-- One test of the loop of `flush_ok`, and its round.
flush_ok_round :
    (Conn → Host → Io (Unit {0}) × Conn × Host) → Conn → Host → List ℕ → Io (Unit {0}) × Conn × Host
unfolding flush_ok_sent
flush_ok_round next c h [] = (ok tt, c, h)
flush_ok_round next c h (b ∷ bs) = flush_ok_sent next c (send_nosig c.fd c.ok_pending h)

-- The loop of `flush_ok` with fuel: each round sends at least a byte.
pub flush_ok_rounds : ℕ → Conn → Host → Io (Unit {0}) × Conn × Host
unfolding flush_ok_round
flush_ok_rounds zero c h = (ok tt, c, h)
flush_ok_rounds (suc fuel) c h = flush_ok_round (flush_ok_rounds fuel) c h c.ok_pending

-- `flush_ok`
unfoldable pub flush_ok : Conn → Host → Io (Unit {0}) × Conn × Host
unfolding flush_ok_rounds
flush_ok c h = flush_ok_rounds (length c.ok_pending) c h

-- What follows a send of `to_host`: the bytes sent are counted in `fwd_cnt`.
flush_to_host_sent :
    (Conn → Host → Io (Unit {0}) × Conn × Host) → Conn → Io ℕ × Host → Io (Unit {0}) × Conn × Host
flush_to_host_sent next c (err e, h) = (err e, c, h)
flush_to_host_sent next c (ok zero, h) = (err write_zero, c, h)
flush_to_host_sent next c (ok (suc n), h) =
    next (record c { to_host = drop (suc n) c.to_host; fwd_cnt = wrapping_add c.fwd_cnt (suc n) }) h

-- One test of the loop of `flush_to_host`, and its round.
flush_to_host_round :
    (Conn → Host → Io (Unit {0}) × Conn × Host) → Conn → Host → List ℕ → Io (Unit {0}) × Conn × Host
unfolding flush_to_host_sent
flush_to_host_round next c h [] = (ok tt, c, h)
flush_to_host_round next c h (b ∷ bs) = flush_to_host_sent next c (send_nosig c.fd c.to_host h)

-- The loop of `flush_to_host` with fuel.
pub flush_to_host_rounds : ℕ → Conn → Host → Io (Unit {0}) × Conn × Host
unfolding flush_to_host_round
flush_to_host_rounds zero c h = (ok tt, c, h)
flush_to_host_rounds (suc fuel) c h = flush_to_host_round (flush_to_host_rounds fuel) c h c.to_host

-- `flush_to_host`
unfoldable pub flush_to_host : Conn → Host → Io (Unit {0}) × Conn × Host
unfolding flush_to_host_rounds
flush_to_host c h = flush_to_host_rounds (length c.to_host) c h

-- `flush_ok(conn).and_then(|()| flush_to_host(conn))`
unfoldable pub flush_both : Conn → Host → Io (Unit {0}) × Conn × Host
flush_both c h =
    let (r, c', h') = flush_ok c h in
    elim r [ ok _ ↦ flush_to_host c' h' | err e ↦ (err e, c', h') ]

-- What `stash_prefetch` and the first branch of `ingest` do: keep what there is room for.
abbrev pub keep : Conn → List ℕ → Conn
keep c bytes =
    let room = max_prefetch - length c.prefetched in
    record c { prefetched = c.prefetched ++ take (min (length bytes) room) bytes }

-- `stash_prefetch`
unfoldable pub stash_prefetch : Mux → Flow → List ℕ → Mux
stash_prefetch m flow bytes = elim (get flow m.conns) [
  | none ↦ m
  | some c ↦ put m flow (keep c bytes)
]

-- The test of `ingest` under which the guest takes no more bytes.
unfoldable pub is_closed_to_guest : Conn → Bool
is_closed_to_guest c = not (is_established c.phase) || c.local_shut_send || c.peer_shut_recv

-- One packet of `n` bytes for the guest.
abbrev pub queue_chunk : Mux → Flow → Conn → ℕ → List ℕ → Mux
queue_chunk m flow c n rest =
    let counted : Mux = put m flow (record c { sent_to_guest = wrapping_add c.sent_to_guest n }) in
    record counted {
      out_data =
          m.out_data ++ (record { flow = flow; op = op_rw; flags = 0; payload = take n rest }) ∷ [];
    }

-- `ingest` with fuel: each round takes at least a byte of `rest`.
unfoldable pub ingest_rounds : ℕ → Mux → Flow → List ℕ → Mux
ingest_rounds zero m flow rest = m
ingest_rounds (suc fuel) m flow rest = if is_empty rest then m else elim (get flow m.conns) [
  | none ↦ m
  | some c ↦ elim (is_closed_to_guest c) [
    | true ↦ if ltb (length c.prefetched) max_prefetch then put m flow (keep c rest) else m
    | false ↦
        let credit = peer_avail c in
        let n = min (min (length rest) credit) max_chunk in
        elim (credit == 0) [
          | true ↦ request_credit (stash_prefetch m flow rest) flow
          | false ↦ ingest_rounds fuel (queue_chunk m flow c n rest) flow (drop n rest)
        ]
  ]
]

-- `ingest`
unfoldable pub ingest : Mux → Flow → List ℕ → Mux
ingest m flow bytes = ingest_rounds (length bytes) m flow bytes

-- The flags of the SHUTDOWN that `mark_local_shut` sends.
abbrev pub shut_flags : Conn → Bool → Bool → ℕ
shut_flags c recv send =
    bit_or (if send && not c.local_shut_send then shutdown_send else 0)
      (if recv && not c.local_shut_recv then shutdown_rcv else 0)

-- SHUTDOWN_TIMEOUT and REQUEST_TIMEOUT, in seconds.
abbrev pub shutdown_timeout : ℕ
shutdown_timeout = 2

abbrev pub request_timeout : ℕ
request_timeout = 2

-- The rest of `mark_local_shut`, for a connection that the guest has accepted.
unfoldable pub shut_established : Mux → Host → Flow → Conn → Bool → Bool → Mux × Host
shut_established m h flow c recv send =
    if shut_flags c recv send == 0
    then (m, h)
    else (let (t, h') = now h in
        let shut : Conn = record c {
          local_shut_send = c.local_shut_send || send;
          local_shut_recv = c.local_shut_recv || recv;
          expiry = some (t + shutdown_timeout);
        } in
        (enqueue (put m flow shut) (ctrl flow op_shutdown (shut_flags c recv send)), h'))

-- `mark_local_shut`
unfoldable pub mark_local_shut : Mux → Host → Flow → Bool → Bool → Mux × Host
mark_local_shut m h flow recv send = elim (get flow m.conns) [
  | none ↦ (m, h)
  | some c ↦
      if is_waiting c.phase
      then (drop_conn m flow true, h)
      else shut_established m h flow c recv send
]

-- `conn.peer_shut_send && conn.to_host.is_empty() && !conn.host_write_shut`
abbrev pub may_shut_write : Conn → Bool
may_shut_write c = c.peer_shut_send && is_empty c.to_host && not c.host_write_shut

-- The half-close that `flush_conn` passes on once all is written.
abbrev pub shut_write : Conn → Host → Conn × Host
shut_write c h =
    if may_shut_write c
    then (record c { host_write_shut = true }, shutdown_fd c.fd shut_wr h)
    else (c, h)

-- The bytes read early, which go to the guest now.
unfoldable pub release_prefetched : Mux → Flow → Conn → Mux
release_prefetched m flow c =
    if not (is_empty c.ok_pending)
    then put m flow c
    else (let taken : Mux = put m flow (record c { prefetched = [] }) in
        let fed : Mux = if is_empty c.prefetched then taken else ingest taken flow c.prefetched in
        maybe_credit fed flow)

-- `flush_conn`
unfoldable pub flush_conn : Mux → Host → Flow → Mux × Host
unfolding release_prefetched
flush_conn m h flow = elim (get flow m.conns) [
  | none ↦ (m, h)
  | some c ↦
      let (r, c', h') = flush_both c h in
      elim r [
        | err e ↦ mark_local_shut (put m flow c') h' flow true true
        | ok _ ↦ let (c'', h'') = shut_write c' h' in (release_prefetched m flow c'', h'')
      ]
]

-- `on_host_eof`
unfoldable pub on_host_eof : Mux → Host → Flow → Mux × Host
on_host_eof m h flow = elim (get flow m.conns) [
  | none ↦ (m, h)
  | some c ↦
      if is_waiting c.phase then (drop_conn m flow true, h) else mark_local_shut m h flow false true
]

-- `read_conn`
unfoldable pub read_conn : Mux → Host → Flow → Mux × Host
read_conn m h flow = elim (get flow m.conns) [
  | none ↦ (m, h)
  | some c ↦
      let (r, h') = read_fd max_chunk h in
      elim r [
        | ok [] ↦ on_host_eof m h' flow
        | ok (b ∷ bs) ↦ (ingest m flow (b ∷ bs), h')
        | err e ↦ if transient e then (m, h') else mark_local_shut m h' flow true true
      ]
]

-- `finish_connect`
unfoldable pub finish_connect : Mux → Host → Flow → Mux × Host
finish_connect m h flow = elim (get flow m.conns) [
  | none ↦ (m, h)
  | some c ↦
      let (r, h') = socket_error h in
      elim r [
        | ok zero ↦ (
          enqueue (put m flow (record c { connecting = false; expiry = none }))
              (ctrl flow op_response 0),
          h',
        )
        | ok (suc e) ↦ (drop_conn m flow true, h')
        | err e ↦ (drop_conn m flow true, h')
      ]
]
