-- ===== src/Vsock/Invariant/Events.antt =====
-- Every event that `poll` reports keeps the invariant.
use kitsune.Base.{
  ℕ, zero, suc, ◌≤◌, ◌≡◌, Bool, true, false, not, List, [], ◌∷◌, ◌++◌, some, length, length-append,
  arith, ◌==◌, if◌then◌else◌, All, All-get_elem, All-set, length-set, inl, inr, Bool-cases,
  Option-cases, any, get_elem?, set, ltb, ◌&&◌, ◌||◌,
}
use kitsune.Vsock.Flow.{Flow, get, contains_key}
use kitsune.Vsock.Host.{Host, Io, ok, err, transient, read_fd}
use kitsune.Vsock.Host.Laws.{ReadsAtMost, read_fd-ReadsAtMost}
use kitsune.Vsock.State.{Mux, Incoming}
use kitsune.Vsock.Stream.{read_conn}
use kitsune.Vsock.Accept.{
  remove_at, finish_incoming, read_incoming, newline, Events, on_writable, on_conn_fd, on_fd,
  position, find_flow,
}
use kitsune.Vsock.Invariant.{MuxInv}
use kitsune.Vsock.Invariant.Accept.{finish_incoming-MuxInv, incoming-MuxInv, accept_loop-MuxInv}
use kitsune.Vsock.Invariant.Stream.{read_conn-MuxInv, flush_conn-MuxInv, finish_connect-MuxInv}

remove_at-All :
    (i : ℕ) (incs : List Incoming)
    → All (λ i. length i.buf ≤ 64) incs
    → All (λ i. length i.buf ≤ 64) (remove_at i incs)
unfolding remove_at
remove_at-All i [] h = tt
remove_at-All zero (x ∷ xs) h = h.1
remove_at-All (suc i) (x ∷ xs) h = (h.0, remove_at-All i xs h.1)

length-remove_at-le : (i : ℕ) (incs : List Incoming) → length (remove_at i incs) ≤ length incs
unfolding remove_at
length-remove_at-le i [] = omega arith
length-remove_at-le zero (x ∷ xs) = omega arith
length-remove_at-le (suc i) (x ∷ xs) = omega (arith, length-remove_at-le i xs)

abbrev removed : Mux → ℕ → Mux
removed m idx = record m { incoming = remove_at idx m.incoming }

removed-MuxInv : (m : Mux) (idx : ℕ) → MuxInv m → MuxInv (removed m idx)
removed-MuxInv m idx v =
    incoming-MuxInv m _ (remove_at-All idx m.incoming v.lines)
      (omega (arith, length-remove_at-le idx m.incoming, v.waiting)) v

-- `read_incoming` after its read.
after_line : Mux → ℕ → Incoming → Io (List ℕ) × Host → Mux × Host
after_line m idx inc (ok [], h) = (removed m idx, h)
after_line m idx inc (ok (b ∷ bs), h) =
    let line : Incoming = record inc { buf = inc.buf ++ (b ∷ bs) } in
    let ready = any (λ c. c == newline) line.buf in
    if ltb 64 (length line.buf) && not ready
    then (removed m idx, h)
    else if ready
    then finish_incoming (removed m idx) h line
    else (record m { incoming = set m.incoming idx line }, h)
after_line m idx inc (err e, h) = if transient e then (m, h) else (removed m idx, h)

read_incoming-after_line :
    (m : Mux) (h : Host) (idx : ℕ) (inc : Incoming)
    → get_elem? m.incoming idx ≡ some inc
    → read_incoming m h idx ≡ after_line m idx inc (read_fd 64 h)
unfolding read_incoming after_line
read_incoming-after_line m h idx inc e = rw (e, read_incoming) (ground arith)

after_line-MuxInv :
    (m : Mux) (idx : ℕ) (inc : Incoming) (s : Io (List ℕ) × Host)
    → ReadsAtMost 64 s.0
    → length inc.buf ≤ 64
    → MuxInv m
    → MuxInv (after_line m idx inc s).0
unfolding after_line
after_line-MuxInv m idx inc (ok [], h) r b v = removed-MuxInv m idx v
after_line-MuxInv m idx inc (ok (x ∷ xs), h) r b v =
    let text = inc.buf ++ (x ∷ xs) in
    let len = length-append inc.buf (x ∷ xs) in
    elim (Bool-cases (any (λ c. c == newline) text)) [
      | inl ready ↦ elim (Bool-cases (ltb 64 (length text))) [
        | inl long ↦
            rw (long, ready)
              (finish_incoming-MuxInv _ h _ (omega (arith, len)) (removed-MuxInv m idx v))
        | inr short ↦
            rw (short, ready)
              (finish_incoming-MuxInv _ h _ (omega (arith, len)) (removed-MuxInv m idx v))
      ]
      | inr more ↦ elim (Bool-cases (ltb 64 (length text))) [
        | inl long ↦ rw (long, more) (removed-MuxInv m idx v)
        | inr short ↦
            rw (short, more)
              (incoming-MuxInv m _
                (All-set (λ i. length i.buf ≤ 64) m.incoming idx _ (ground arith) v.lines)
                (omega (arith, v.waiting, length-set m.incoming idx (record inc { buf = text }))) v)
      ]
    ]
after_line-MuxInv m idx inc (err e, h) r b v = elim (Bool-cases (transient e)) [
  | inl again ↦ rw again v
  | inr broken ↦ rw broken (removed-MuxInv m idx v)
]

read_incoming-MuxInv : (m : Mux) (h : Host) (idx : ℕ) → MuxInv m → MuxInv (read_incoming m h idx).0
unfolding read_incoming
read_incoming-MuxInv m h idx v = elim (Option-cases (get_elem? m.incoming idx)) [
  | inl e ↦ rw (e, read_incoming) v
  | inr (inc, e) ↦ rw (read_incoming-after_line m h idx inc e) (
      after_line-MuxInv m idx inc (read_fd 64 h) (read_fd-ReadsAtMost 64 h)
        (All-get_elem (λ i. length i.buf ≤ 64) m.incoming idx inc e v.lines) v)
]

on_writable-MuxInv : (m : Mux) (h : Host) (flow : Flow) → MuxInv m → MuxInv (on_writable m h flow).0
unfolding on_writable
on_writable-MuxInv m h flow v = elim (Option-cases (get flow m.conns)) [
  | inl e ↦ rw (e, on_writable) v
  | inr (c, e) ↦ elim (Bool-cases c.connecting) [
    | inl waits ↦ rw (e, on_writable) (rw waits (finish_connect-MuxInv m h flow v))
    | inr open_ ↦ rw (e, on_writable) (rw open_ (flush_conn-MuxInv m h flow v))
  ]
]

-- The first half of the event of a connection.
abbrev reads : Events → Bool
reads ev = ev.pollin || ev.pollhup || ev.pollerr || ev.pollnval

read_half-MuxInv :
    (m : Mux) (h : Host) (flow : Flow) (b : Bool)
    → MuxInv m
    → MuxInv (if b then read_conn m h flow else (m, h)).0
read_half-MuxInv m h flow true v = read_conn-MuxInv m h flow v
read_half-MuxInv m h flow false v = v

write_half-MuxInv :
    (s : Mux × Host) (flow : Flow) (b : Bool)
    → MuxInv s.0
    → MuxInv (if contains_key flow s.0.conns && b then on_writable s.0 s.1 flow else s).0
write_half-MuxInv s flow b v = elim (Bool-cases (contains_key flow s.0.conns && b)) [
  | inl e ↦ rw e (on_writable-MuxInv s.0 s.1 flow v)
  | inr e ↦ rw e v
]

on_conn_fd-MuxInv :
    (m : Mux) (h : Host) (flow : Flow) (ev : Events) → MuxInv m → MuxInv (on_conn_fd m h flow ev).0
unfolding on_conn_fd
on_conn_fd-MuxInv m h flow ev v =
    write_half-MuxInv (if reads ev then read_conn m h flow else (m, h)) flow
      (ev.pollout || ev.pollerr || ev.pollnval) (read_half-MuxInv m h flow (reads ev) v)

-- Whatever descriptor and events `poll` reports, and whatever the kernel answers then, the
-- invariant holds after `on_fd`: among others, at most 128 clients are before their first line, each
-- with at most 64 bytes of it, and no connection keeps more than 64 KiB of early bytes.
pub on_fd-MuxInv :
    (m : Mux) (h : Host) (fd : ℕ) (ev : Events) → MuxInv m → MuxInv (on_fd m h fd ev).0
unfolding on_fd
on_fd-MuxInv m h fd ev v = elim (Bool-cases (fd == m.listener)) [
  | inl own ↦ rw own (accept_loop-MuxInv m h v)
  | inr other ↦ elim (Option-cases (position fd m.incoming)) [
    | inr (idx, p) ↦ rw (p, on_fd) (rw other (read_incoming-MuxInv m h idx v))
    | inl new ↦ elim (Option-cases (find_flow fd m.conns)) [
      | inl lost ↦ rw (new, on_fd) (rw (lost, other) v)
      | inr (flow, f) ↦ rw (new, on_fd) (rw (f, other) (on_conn_fd-MuxInv m h flow ev v))
    ]
  ]
]
