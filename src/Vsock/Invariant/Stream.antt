-- ===== src/Vsock/Invariant/Stream.antt =====
-- The flushes, reads and shutdowns of a connection keep the invariant.
use kitsune.Base.{
  ℕ, zero, suc, ◌≡◌, refl, ap, sym, ◌∙◌, Bool, true, false, List, [], ◌∷◌, none, some, arith, ◌==◌,
  if◌then◌else◌, inl, inr, Bool-cases, Option-cases, is_empty,
}
use kitsune.Vsock.Flow.{Flow, get}
use kitsune.Vsock.Packet.{ctrl, op_response, op_shutdown, max_chunk}
use kitsune.Vsock.Host.{Host, Io, ok, err, read_fd, socket_error, transient}
use kitsune.Vsock.State.{Conn, Mux, put, is_established, is_waiting}
use kitsune.Vsock.Queue.{enqueue, drop_conn}
use kitsune.Vsock.Stream.{
  ingest, flush_both, flush_conn, release_prefetched, shut_write, may_shut_write, mark_local_shut,
  shut_established, shut_flags, on_host_eof, read_conn, finish_connect,
}
use kitsune.Vsock.Stream.Fifo.{Flushed}
use kitsune.Vsock.Stream.Flush.{flush_both-Flushed}
use kitsune.Vsock.Invariant.{ConnInv, MuxInv, same_counters, counters, Staged}
use kitsune.Vsock.Invariant.Queue.{conn_of, put-MuxInv, enqueue-MuxInv, drop_conn-MuxInv}
use kitsune.Vsock.Invariant.Credit.{maybe_credit-MuxInv}
use kitsune.Vsock.Invariant.Intake.{ingest-MuxInv}

-- A connection whose bytes and counters stay as they are.
pub quiet-ConnInv :
    (c d : Conn)
    → counters d ≡ counters c
    → d.prefetched ≡ c.prefetched
    → Staged d
    → ConnInv c
    → ConnInv d
quiet-ConnInv c d e p s i = same_counters c d e (rw p i.early) s i

shut_established-MuxInv :
    (m : Mux) (h : Host) (flow : Flow) (c : Conn) (recv send : Bool)
    → get flow m.conns ≡ some c
    → MuxInv m
    → MuxInv (shut_established m h flow c recv send).0
unfolding shut_established
shut_established-MuxInv m h flow c recv send e v = elim (Bool-cases (shut_flags c recv send == 0)) [
  | inl none_new ↦ rw none_new v
  | inr new ↦ rw new (
      enqueue-MuxInv _ (ctrl flow op_shutdown (shut_flags c recv send)) (omega arith) (
        let i = conn_of m flow c v e in
        put-MuxInv m flow _ v (quiet-ConnInv c _ refl refl i.staged i)))
]

pub mark_local_shut-MuxInv :
    (m : Mux) (h : Host) (flow : Flow) (recv send : Bool)
    → MuxInv m
    → MuxInv (mark_local_shut m h flow recv send).0
unfolding mark_local_shut
mark_local_shut-MuxInv m h flow recv send v = elim (Option-cases (get flow m.conns)) [
  | inl e ↦ rw (e, mark_local_shut) v
  | inr (c, e) ↦ elim (Bool-cases (is_waiting c.phase)) [
    | inl waits ↦ rw (e, mark_local_shut) (rw waits (drop_conn-MuxInv m flow true v))
    | inr past ↦
        rw (e, mark_local_shut) (rw past (shut_established-MuxInv m h flow c recv send e v))
  ]
]

-- A flush moves bytes from `to_host` to the socket and counts them.
Flushed-ConnInv :
    (c : Conn) (h : Host) (s : Io (Unit {0}) × Conn × Host)
    → Flushed c h s
    → ConnInv c
    → ConnInv s.1
Flushed-ConnInv c h s f i =
    let alloc : s.1.buf_alloc ≡ c.buf_alloc = ap (λ d. d.buf_alloc) f.same_rest in
    let received : s.1.received ≡ c.received = ap (λ d. d.received) f.same_rest in
    let early : s.1.prefetched ≡ c.prefetched = ap (λ d. d.prefetched) f.same_rest in
    let sent : s.1.sent_to_guest ≡ c.sent_to_guest = ap (λ d. d.sent_to_guest) f.same_rest in
    let fwd : s.1.peer_fwd_cnt ≡ c.peer_fwd_cnt = ap (λ d. d.peer_fwd_cnt) f.same_rest in
    let peer : s.1.peer_buf_alloc ≡ c.peer_buf_alloc = ap (λ d. d.peer_buf_alloc) f.same_rest in
    let phase : s.1.phase ≡ c.phase = ap (λ d. d.phase) f.same_rest in
    record {
      alloc = alloc ∙ i.alloc;
      held = omega (arith, f.shorter, i.held, alloc);
      received = received ∙ i.received ∙ sym f.forwarded;
      forwarded = f.counter i.forwarded;
      early = rw early i.early;
      counts = record {
        sent = rw sent i.counts.sent;
        forwarded = rw fwd i.counts.forwarded;
        alloc = rw peer i.counts.alloc;
      };
      staged = flushed_stage i.staged;
    }
  where
    flushed_stage : Staged c → Staged s.1
    flushed_stage (inl e) = inl (ap (λ d. is_established d.phase) f.same_rest ∙ e)
    flushed_stage (inr (a, b)) = inr (omega (arith, f.shorter), omega (arith, f.shorter_ok))

shut_write-ConnInv : (c : Conn) (h : Host) → ConnInv c → ConnInv (shut_write c h).0
shut_write-ConnInv c h i = elim (Bool-cases (may_shut_write c)) [
  | inl e ↦ rw e (quiet-ConnInv c _ refl refl i.staged i)
  | inr e ↦ rw e i
]

release_prefetched-MuxInv :
    (m : Mux) (flow : Flow) (c : Conn) → ConnInv c → MuxInv m → MuxInv (release_prefetched m flow c)
unfolding release_prefetched
release_prefetched-MuxInv m flow c i v =
    let taken =
      put-MuxInv m flow (record c { prefetched = [] }) v
        (same_counters c _ refl (omega arith) i.staged i) in
    elim (Bool-cases (is_empty c.ok_pending)) [
      | inr waits ↦ rw waits (put-MuxInv m flow c v i)
      | inl sent ↦ elim (Bool-cases (is_empty c.prefetched)) [
        | inl none_early ↦ rw (sent, none_early) (maybe_credit-MuxInv _ flow taken)
        | inr early ↦
            rw (sent, early) (maybe_credit-MuxInv _ flow (ingest-MuxInv _ flow c.prefetched taken))
      ]
    ]

-- `flush_conn` after its flush.
abbrev pub after_flush : Mux → Flow → Io (Unit {0}) × Conn × Host → Mux × Host
after_flush m flow (ok _, c, h) = (release_prefetched m flow (shut_write c h).0, (shut_write c h).1)
after_flush m flow (err e, c, h) = mark_local_shut (put m flow c) h flow true true

pub flush_conn_of_get :
    (m : Mux) (h : Host) (flow : Flow) (c : Conn)
    → get flow m.conns ≡ some c
    → flush_conn m h flow ≡ after_flush m flow (flush_both c h)
unfolding flush_conn
flush_conn_of_get m h flow c e = rw (e, flush_conn) (ground arith)

after_flush-MuxInv :
    (m : Mux) (flow : Flow) (s : Io (Unit {0}) × Conn × Host)
    → MuxInv m
    → ConnInv s.1
    → MuxInv (after_flush m flow s).0
after_flush-MuxInv m flow (ok _, c, h) v i =
    release_prefetched-MuxInv m flow _ (shut_write-ConnInv c h i) v
after_flush-MuxInv m flow (err e, c, h) v i =
    mark_local_shut-MuxInv _ h flow true true (put-MuxInv m flow c v i)

pub flush_conn-MuxInv :
    (m : Mux) (h : Host) (flow : Flow) → MuxInv m → MuxInv (flush_conn m h flow).0
unfolding flush_conn
flush_conn-MuxInv m h flow v = elim (Option-cases (get flow m.conns)) [
  | inl e ↦ rw (e, flush_conn) v
  | inr (c, e) ↦ rw (flush_conn_of_get m h flow c e) (
      after_flush-MuxInv m flow (flush_both c h) v
        (Flushed-ConnInv c h _ (flush_both-Flushed c h) (conn_of m flow c v e)))
]

pub on_host_eof-MuxInv :
    (m : Mux) (h : Host) (flow : Flow) → MuxInv m → MuxInv (on_host_eof m h flow).0
unfolding on_host_eof
on_host_eof-MuxInv m h flow v = elim (Option-cases (get flow m.conns)) [
  | inl e ↦ rw (e, on_host_eof) v
  | inr (c, e) ↦ elim (Bool-cases (is_waiting c.phase)) [
    | inl waits ↦ rw (e, on_host_eof) (rw waits (drop_conn-MuxInv m flow true v))
    | inr past ↦ rw (e, on_host_eof) (rw past (mark_local_shut-MuxInv m h flow false true v))
  ]
]

-- `read_conn` after its read.
abbrev pub after_read : Mux → Flow → Io (List ℕ) × Host → Mux × Host
after_read m flow (ok [], h) = on_host_eof m h flow
after_read m flow (ok (b ∷ bs), h) = (ingest m flow (b ∷ bs), h)
after_read m flow (err e, h) = if transient e then (m, h) else mark_local_shut m h flow true true

pub read_conn_of_get :
    (m : Mux) (h : Host) (flow : Flow) (c : Conn)
    → get flow m.conns ≡ some c
    → read_conn m h flow ≡ after_read m flow (read_fd max_chunk h)
unfolding read_conn
read_conn_of_get m h flow c e = rw (e, read_conn) (ground arith)

after_read-MuxInv :
    (m : Mux) (flow : Flow) (s : Io (List ℕ) × Host) → MuxInv m → MuxInv (after_read m flow s).0
after_read-MuxInv m flow (ok [], h) v = on_host_eof-MuxInv m h flow v
after_read-MuxInv m flow (ok (b ∷ bs), h) v = ingest-MuxInv m flow (b ∷ bs) v
after_read-MuxInv m flow (err e, h) v = elim (Bool-cases (transient e)) [
  | inl again ↦ rw again v
  | inr broken ↦ rw broken (mark_local_shut-MuxInv m h flow true true v)
]

pub read_conn-MuxInv : (m : Mux) (h : Host) (flow : Flow) → MuxInv m → MuxInv (read_conn m h flow).0
unfolding read_conn
read_conn-MuxInv m h flow v = elim (Option-cases (get flow m.conns)) [
  | inl e ↦ rw (e, read_conn) v
  | inr (c, e) ↦
      rw (read_conn_of_get m h flow c e) (after_read-MuxInv m flow (read_fd max_chunk h) v)
]

-- `finish_connect` after it has asked for the socket's error.
abbrev after_connect : Mux → Flow → Conn → Io ℕ × Host → Mux × Host
after_connect m flow c (ok zero, h) = (
  enqueue (put m flow (record c { connecting = false; expiry = none })) (ctrl flow op_response 0),
  h,
)
after_connect m flow c (ok (suc n), h) = (drop_conn m flow true, h)
after_connect m flow c (err e, h) = (drop_conn m flow true, h)

finish_connect_of_get :
    (m : Mux) (h : Host) (flow : Flow) (c : Conn)
    → get flow m.conns ≡ some c
    → finish_connect m h flow ≡ after_connect m flow c (socket_error h)
unfolding finish_connect
finish_connect_of_get m h flow c e = rw (e, finish_connect) (ground arith)

after_connect-MuxInv :
    (m : Mux) (flow : Flow) (c : Conn) (s : Io ℕ × Host)
    → ConnInv c
    → MuxInv m
    → MuxInv (after_connect m flow c s).0
after_connect-MuxInv m flow c (ok zero, h) i v =
    enqueue-MuxInv _ (ctrl flow op_response 0) (omega arith)
      (put-MuxInv m flow _ v (quiet-ConnInv c _ refl refl i.staged i))
after_connect-MuxInv m flow c (ok (suc n), h) i v = drop_conn-MuxInv m flow true v
after_connect-MuxInv m flow c (err e, h) i v = drop_conn-MuxInv m flow true v

pub finish_connect-MuxInv :
    (m : Mux) (h : Host) (flow : Flow) → MuxInv m → MuxInv (finish_connect m h flow).0
unfolding finish_connect
finish_connect-MuxInv m h flow v = elim (Option-cases (get flow m.conns)) [
  | inl e ↦ rw (e, finish_connect) v
  | inr (c, e) ↦
      rw (finish_connect_of_get m h flow c e)
        (after_connect-MuxInv m flow c (socket_error h) (conn_of m flow c v e) v)
]
