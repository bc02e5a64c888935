-- ===== src/Vsock/Stream/Fifo.antt =====
-- The bytes for the host's socket: in order, none lost, none twice.
use kitsune.Base.{
  ℕ, zero, suc, ◌+◌, ◌%◌, ◌≤◌, ◌<◌, ◌≡◌, refl, ap, sym, ◌∙◌, inl, inr, false, List, [], ◌∷◌, ◌++◌,
  length, take, drop, arith, ◌==◌, ==_refl, if◌then◌else◌, append_assoc, take-append-drop,
  length-drop, wrapping_add, u32_mod, append-nil,
}
use kitsune.Vsock.Host.{Host, Io, ok, err, write_zero}
use kitsune.Vsock.Host.Laws.{Sends, send_nosig-Sends}
use kitsune.Vsock.State.{Conn}
use kitsune.Vsock.Stream.{
  flush_ok_sent, flush_ok_round, flush_ok_rounds, flush_to_host_sent, flush_to_host_round,
  flush_to_host_rounds,
}

-- All that the host's socket was and will be sent: the bytes on the wire, then those that wait.
abbrev pub stream : Conn → Host → List ℕ
stream c h = h.wire c.fd ++ (c.ok_pending ++ c.to_host)

-- The fields of a connection that a flush leaves alone.
abbrev pub rest_of : Conn → Conn
rest_of c = record c { ok_pending = []; to_host = []; fwd_cnt = 0 }

-- What a flush of `c` may do.
pub record Flushed (c : Conn) (h : Host) (s : Io (Unit {0}) × Conn × Host) : Type 0 where
  pub same_stream : stream s.1 s.2 ≡ stream c h
  pub same_rest : rest_of s.1 ≡ rest_of c
  pub other_wires : (fd : ℕ) → (fd == c.fd) ≡ false → s.2.wire fd ≡ h.wire fd
  pub forwarded :
      (s.1.fwd_cnt + length s.1.to_host) % u32_mod ≡ (c.fwd_cnt + length c.to_host) % u32_mod
  pub shorter : length s.1.to_host ≤ length c.to_host
  pub shorter_ok : length s.1.ok_pending ≤ length c.ok_pending
  pub counter : c.fwd_cnt < u32_mod → s.1.fwd_cnt < u32_mod

stay :
    (c : Conn) (h : Host) (r : Io (Unit {0})) (h' : Host)
    → h'.wire ≡ h.wire
    → Flushed c h (r, c, h')
stay c h r h' e = record {
  same_stream = ap (λ w. w c.fd ++ (c.ok_pending ++ c.to_host)) e;
  same_rest = refl;
  other_wires = λ fd n. ap (λ w. w fd) e;
  forwarded = refl;
  shorter = omega arith;
  shorter_ok = omega arith;
  counter = λ b. b;
}

pub Flushed-trans :
    (c c' : Conn) (h h' : Host) (s : Io (Unit {0}) × Conn × Host) (r : Io (Unit {0}))
    → Flushed c h (r, c', h')
    → Flushed c' h' s
    → Flushed c h s
Flushed-trans c c' h h' s r f g = record {
  same_stream = g.same_stream ∙ f.same_stream;
  same_rest = g.same_rest ∙ f.same_rest;
  other_wires = λ fd n. g.other_wires fd (rw (ap (λ d. d.fd) f.same_rest) n) ∙ f.other_wires fd n;
  forwarded = g.forwarded ∙ f.forwarded;
  shorter = omega (arith, f.shorter, g.shorter);
  shorter_ok = omega (arith, f.shorter_ok, g.shorter_ok);
  counter = λ b. g.counter (f.counter b);
}

-- The wire of the connection's own descriptor after a send of `k` bytes.
wire_self :
    (c : Conn) (h h' : Host) (bytes : List ℕ)
    → h'.wire ≡ (λ f. if c.fd == f then h.wire f ++ bytes else h.wire f)
    → h'.wire c.fd ≡ h.wire c.fd ++ bytes
wire_self c h h' bytes e = ap (λ w. w c.fd) e ∙ rw (==_refl c.fd)

wire_other :
    (c : Conn) (h h' : Host) (bytes : List ℕ)
    → h'.wire ≡ (λ f. if c.fd == f then h.wire f ++ bytes else h.wire f)
    → (fd : ℕ) → (fd == c.fd) ≡ false
    → h'.wire fd ≡ h.wire fd
wire_other c h h' bytes e fd n = ap (λ w. w fd) e ∙ ground arith

sent_to_host :
    (c : Conn) (h h' : Host) (k : ℕ) (r : Io (Unit {0}))
    → c.ok_pending ≡ []
    → k ≤ length c.to_host
    → h'.wire ≡ (λ f. if c.fd == f then h.wire f ++ take k c.to_host else h.wire f)
    → Flushed c h
        (r, record c { to_host = drop k c.to_host; fwd_cnt = wrapping_add c.fwd_cnt k }, h')
sent_to_host c h h' k r q b e = record {
  same_stream =
      rw (q, wire_self c h h' (take k c.to_host) e, append_assoc)
        (ap (λ t. h.wire c.fd ++ t) (take-append-drop k c.to_host));
  same_rest = refl;
  other_wires = wire_other c h h' (take k c.to_host) e;
  forwarded = omega (arith, length-drop k c.to_host);
  shorter = omega (arith, length-drop k c.to_host);
  shorter_ok = omega arith;
  counter = λ b. omega arith;
}

sent_ok :
    (c : Conn) (h h' : Host) (k : ℕ) (r : Io (Unit {0}))
    → h'.wire ≡ (λ f. if c.fd == f then h.wire f ++ take k c.ok_pending else h.wire f)
    → Flushed c h (r, record c { ok_pending = drop k c.ok_pending }, h')
sent_ok c h h' k r e = record {
  same_stream =
      rw (wire_self c h h' (take k c.ok_pending) e, append_assoc)
        (ap (λ t. h.wire c.fd ++ t)
          (sym (append_assoc (take k c.ok_pending) (drop k c.ok_pending) c.to_host)
            ∙ ap (λ t. t ++ c.to_host) (take-append-drop k c.ok_pending)));
  same_rest = refl;
  other_wires = wire_other c h h' (take k c.ok_pending) e;
  forwarded = refl;
  shorter = omega arith;
  shorter_ok = omega (arith, length-drop k c.ok_pending);
  counter = λ b. b;
}

-- A send of no bytes leaves all as it was.
sent_nothing :
    (c : Conn) (h h' : Host) (k : ℕ) (xs : List ℕ) (r : Io (Unit {0}))
    → 0 ≡ k
    → h'.wire ≡ (λ f. if c.fd == f then h.wire f ++ take k xs else h.wire f)
    → Flushed c h (r, c, h')
sent_nothing c h h' k xs r z e =
    let bytes : take k xs ≡ [] = ap (λ n. take n xs) (sym z) in
    record {
      same_stream = rw (wire_self c h h' (take k xs) e, bytes, append-nil);
      same_rest = refl;
      other_wires = wire_other c h h' (take k xs) e;
      forwarded = refl;
      shorter = omega arith;
      shorter_ok = omega arith;
      counter = λ b. b;
    }

-- A loop that keeps the stream wherever it is entered keeps it through a send.
module _ (next : Conn → Host → Io (Unit {0}) × Conn × Host) where
  flush_ok_sent-Flushed :
      ((c : Conn) (h : Host) → Flushed c h (next c h))
      → (c : Conn) (h : Host) (s : Io ℕ × Host) → Sends c.fd c.ok_pending h s
      → Flushed c h (flush_ok_sent next c s)
  unfolding flush_ok_sent
  flush_ok_sent-Flushed ih c h (err e, h') (inl (_, _, w)) = stay c h (err e) h' w
  flush_ok_sent-Flushed ih c h (err e, h') (inr (_, r, _, _)) = cc
  flush_ok_sent-Flushed ih c h (ok zero, h') (inl (_, r, _)) = cc
  flush_ok_sent-Flushed ih c h (ok zero, h') (inr (k, r, b, w)) =
      sent_nothing c h h' k c.ok_pending (err write_zero) (cc) w
  flush_ok_sent-Flushed ih c h (ok (suc n), h') (inl (_, r, _)) = cc
  flush_ok_sent-Flushed ih c h (ok (suc n), h') (inr (k, r, b, w)) =
      let e : k ≡ suc n = cc in
      Flushed-trans c (record c { ok_pending = drop (suc n) c.ok_pending }) h h' _ (ok tt)
        (sent_ok c h h' (suc n) (ok tt) (rw e at w)) (ih _ h')

  flush_to_host_sent-Flushed :
      ((c : Conn) (h : Host) → c.ok_pending ≡ [] → Flushed c h (next c h))
      → (c : Conn) (h : Host) (s : Io ℕ × Host) → c.ok_pending ≡ []
      → Sends c.fd c.to_host h s
      → Flushed c h (flush_to_host_sent next c s)
  unfolding flush_to_host_sent
  flush_to_host_sent-Flushed ih c h (err e, h') q (inl (_, _, w)) = stay c h (err e) h' w
  flush_to_host_sent-Flushed ih c h (err e, h') q (inr (_, r, _, _)) = cc
  flush_to_host_sent-Flushed ih c h (ok zero, h') q (inl (_, r, _)) = cc
  flush_to_host_sent-Flushed ih c h (ok zero, h') q (inr (k, r, b, w)) =
      sent_nothing c h h' k c.to_host (err write_zero) (cc) w
  flush_to_host_sent-Flushed ih c h (ok (suc n), h') q (inl (_, r, _)) = cc
  flush_to_host_sent-Flushed ih c h (ok (suc n), h') q (inr (k, r, b, w)) =
      let e : k ≡ suc n = cc in
      Flushed-trans c
        (record c { to_host = drop (suc n) c.to_host; fwd_cnt = wrapping_add c.fwd_cnt (suc n) }) h
        h' _ (ok tt) (sent_to_host c h h' (suc n) (ok tt) q (rw e at b) (rw e at w)) (ih _ h' q)

  flush_ok_round-Flushed :
      ((c : Conn) (h : Host) → Flushed c h (next c h))
      → (c : Conn) (h : Host) (xs : List ℕ) → Flushed c h (flush_ok_round next c h xs)
  unfolding flush_ok_round
  flush_ok_round-Flushed ih c h [] = stay c h (ok tt) h refl
  flush_ok_round-Flushed ih c h (b ∷ bs) =
      flush_ok_sent-Flushed ih c h _ (send_nosig-Sends c.fd c.ok_pending h)

  flush_to_host_round-Flushed :
      ((c : Conn) (h : Host) → c.ok_pending ≡ [] → Flushed c h (next c h))
      → (c : Conn) (h : Host) (xs : List ℕ) → c.ok_pending ≡ []
      → Flushed c h (flush_to_host_round next c h xs)
  unfolding flush_to_host_round
  flush_to_host_round-Flushed ih c h [] q = stay c h (ok tt) h refl
  flush_to_host_round-Flushed ih c h (b ∷ bs) q =
      flush_to_host_sent-Flushed ih c h _ q (send_nosig-Sends c.fd c.to_host h)

pub flush_ok_rounds-Flushed : (n : ℕ) (c : Conn) (h : Host) → Flushed c h (flush_ok_rounds n c h)
unfolding flush_ok_rounds
flush_ok_rounds-Flushed zero c h = stay c h (ok tt) h refl
flush_ok_rounds-Flushed (suc n) c h =
    flush_ok_round-Flushed (flush_ok_rounds n) (flush_ok_rounds-Flushed n) c h c.ok_pending

pub flush_to_host_rounds-Flushed :
    (n : ℕ) (c : Conn) (h : Host) → c.ok_pending ≡ [] → Flushed c h (flush_to_host_rounds n c h)
unfolding flush_to_host_rounds
flush_to_host_rounds-Flushed zero c h q = stay c h (ok tt) h refl
flush_to_host_rounds-Flushed (suc n) c h q =
    flush_to_host_round-Flushed (flush_to_host_rounds n) (flush_to_host_rounds-Flushed n) c h
      c.to_host q
