-- ===== src/Vsock/Guest/Data.antt =====
-- Where the guest's data goes: `on_rw` and `flush_conn` of src/devices/vsock_mux.rs.
use kitsune.Base.{
  ℕ, ◌≤◌, ◌%◌, ◌≡◌, refl, ap, sym, Bool, true, false, List, [], ◌∷◌, ◌++◌, some, arith, length, inl,
  inr, Bool-cases, ◌==◌, ltb, u32_mod, append-nil, append_assoc,
}
use kitsune.Vsock.Flow.{Flow, get}
use kitsune.Vsock.Host.{Host, Io, ok, err}
use kitsune.Vsock.State.{
  Conn, Mux, put, local_free, is_waiting, is_established, Phase, established, wait_guest,
}
use kitsune.Vsock.Stream.{
  mark_local_shut, shut_established, shut_flags, shut_write, flush_conn, flush_both,
}
use kitsune.Vsock.Stream.Fifo.{stream}
use kitsune.Vsock.Stream.Flush.{flush_both-Flushed}
use kitsune.Vsock.Stream.Intake.{get-put_self}
use kitsune.Vsock.Stream.Side.{
  side, Keeps, put-Keeps, conns-Keeps, conns-enqueue, release_prefetched-Keeps,
}
use kitsune.Vsock.Invariant.Stream.{after_flush, flush_conn_of_get}
use kitsune.Vsock.Guest.{on_rw, receive, accepts_data}

-- After a call, the flow still has its connection, and what its socket was and will be sent is `bytes`.
pub record Holds (flow : Flow) (s : Mux × Host) (bytes : List ℕ) : Type 0 where
  pub conn : Conn
  pub there : get flow s.0.conns ≡ some conn
  pub content : stream conn s.1 ≡ bytes

side-stream :
    (c d : Conn) (h h' : Host) → side d ≡ side c → h'.wire ≡ h.wire → stream d h' ≡ stream c h
side-stream c d h h' s w = rw (w, ap (λ t. t.0) s, ap (λ t. t.1) s, ap (λ t. t.2) s)

Keeps-Holds :
    (m : Mux) (flow : Flow) (c : Conn) (h h' : Host)
    → h'.wire ≡ h.wire
    → Keeps m flow c
    → Holds flow (m, h') (stream c h)
Keeps-Holds m flow c h h' w k = record {
  conn = k.conn;
  there = k.there;
  content = side-stream c k.conn h h' k.same w;
}

wire-shut_established :
    (m : Mux) (h : Host) (flow : Flow) (c : Conn) (a b : Bool)
    → (shut_established m h flow c a b).1.wire ≡ h.wire
unfolding shut_established
wire-shut_established m h flow c a b = ground arith

shut_established-Keeps :
    (m : Mux) (h : Host) (flow : Flow) (c : Conn) (a b : Bool)
    → get flow m.conns ≡ some c
    → Keeps (shut_established m h flow c a b).0 flow c
unfolding shut_established
shut_established-Keeps m h flow c a b e =
    let now : Keeps m flow c = record { conn = c; there = e; same = refl } in
    elim (Bool-cases (shut_flags c a b == 0)) [
      | inl already ↦ rw already now
      | inr new ↦
          rw new (conns-Keeps _ _ flow c (conns-enqueue _ _) (put-Keeps m flow c _ refl now))
    ]

mark_local_shut-Holds :
    (m : Mux) (h : Host) (flow : Flow) (c : Conn) (a b : Bool)
    → get flow m.conns ≡ some c
    → is_waiting c.phase ≡ false
    → Holds flow (mark_local_shut m h flow a b) (stream c h)
unfolding mark_local_shut
mark_local_shut-Holds m h flow c a b e p =
    rw (e, mark_local_shut)
      (rw p (
        Keeps-Holds _ flow c h _ (wire-shut_established m h flow c a b)
          (shut_established-Keeps m h flow c a b e)))

wire-shut_write : (c : Conn) (h : Host) → (shut_write c h).1.wire ≡ h.wire
wire-shut_write c h = ground arith

side-shut_write : (c : Conn) (h : Host) → side (shut_write c h).0 ≡ side c
side-shut_write c h = ground arith

after_flush-Holds :
    (m : Mux) (flow : Flow) (c : Conn) (s : Io (Unit {0}) × Conn × Host)
    → get flow m.conns ≡ some c
    → is_waiting s.1.phase ≡ false
    → Holds flow (after_flush m flow s) (stream s.1 s.2)
after_flush-Holds m flow c (ok _, d, h) e p =
    Keeps-Holds _ flow d h _ (wire-shut_write d h)
      (release_prefetched-Keeps m flow c d (shut_write d h).0 e (side-shut_write d h))
after_flush-Holds m flow c (err x, d, h) e p =
    mark_local_shut-Holds (put m flow d) h flow d true true (get-put_self m flow c d e) p

-- `flush_conn` moves bytes from the connection to its socket and loses none, on success or failure.
flush_conn-Holds :
    (m : Mux) (h : Host) (flow : Flow) (c : Conn)
    → get flow m.conns ≡ some c
    → is_established c.phase ≡ true
    → Holds flow (flush_conn m h flow) (stream c h)
flush_conn-Holds m h flow c e p =
    let f = flush_both-Flushed c h in
    let phase : is_waiting (flush_both c h).1.phase ≡ false =
      rw (ap (λ d. d.phase) f.same_rest) (not_waiting c.phase p) in
    rw (flush_conn_of_get m h flow c e, ← f.same_stream)
      (after_flush-Holds m flow c (flush_both c h) e phase)
  where
    not_waiting : (p : Phase) → is_established p ≡ true → is_waiting p ≡ false
    not_waiting established q = refl
    not_waiting wait_guest q = cc

accepts_established : (c : Conn) → accepts_data c ≡ true → is_established c.phase ≡ true
accepts_established c e = ground arith

-- Data of the guest that the connection accepts, and that fits the free space, goes to the host's
-- socket behind all that was written to it or waits for it: nothing is lost, doubled or overtaken,
-- however much the kernel takes, and even if the flush fails.
pub on_rw-Holds :
    (m : Mux) (h : Host) (flow : Flow) (c : Conn) (bytes : List ℕ)
    → get flow m.conns ≡ some c
    → accepts_data c ≡ true
    → length bytes % u32_mod ≤ local_free c
    → Holds flow (on_rw m h flow bytes) (stream c h ++ bytes)
unfolding on_rw
on_rw-Holds m h flow c [] e a fits = record {
  conn = c;
  there = e;
  content = sym (append-nil (stream c h));
}
on_rw-Holds m h flow c (b ∷ bs) e a fits =
    let bytes = b ∷ bs in
    let small : ltb (local_free c) (length bytes % u32_mod) ≡ false = ground arith in
    let received = receive c bytes in
    let kept =
      flush_conn-Holds (put m flow received) h flow received (get-put_self m flow c received e)
        (accepts_established c a) in
    let same : stream received h ≡ stream c h ++ bytes = rw (append_assoc, append_assoc) in
    rw (e, on_rw) (rw (a, small) (rw same at kept))
