-- ===== src/Vsock/Stream/Flush.antt =====
-- `flush_ok` and `flush_to_host` end by their tests: the fuel is enough.
use kitsune.Base.{ℕ, zero, suc, ◌≤◌, ◌≡◌, refl, List, [], ◌∷◌, ◌++◌, length, arith, length-drop}
use kitsune.Vsock.Host.{Host, Io, ok, err}
use kitsune.Vsock.State.{Conn}
use kitsune.Vsock.Stream.{
  flush_ok, flush_ok_sent, flush_ok_round, flush_ok_rounds, flush_to_host, flush_to_host_sent,
  flush_to_host_round, flush_to_host_rounds, flush_both,
}
use kitsune.Vsock.Stream.Fifo.{
  Flushed, Flushed-trans, flush_ok_rounds-Flushed, flush_to_host_rounds-Flushed,
}

-- Where a flush succeeds, nothing of this field is left.
abbrev pub Drained : (Conn → List ℕ) → Io (Unit {0}) × Conn × Host → Type 0
Drained field (ok _, c, h) = field c ≡ []
Drained field (err e, c, h) = Unit

-- What a connection still has for its socket.
abbrev pub waiting_bytes : Conn → List ℕ
waiting_bytes c = c.ok_pending ++ c.to_host

nil_of_length : (xs : List ℕ) → length xs ≤ 0 → xs ≡ []
nil_of_length [] h = refl
nil_of_length (x ∷ xs) h = absurd (omega arith)

module _ (next : Conn → Host → Io (Unit {0}) × Conn × Host) (fuel : ℕ) where
  flush_ok_sent-Drained :
      ((c : Conn) (h : Host) → length c.ok_pending ≤ fuel → Drained (λ d. d.ok_pending) (next c h))
      → (c : Conn) (s : Io ℕ × Host) → length c.ok_pending ≤ suc fuel
      → Drained (λ d. d.ok_pending) (flush_ok_sent next c s)
  unfolding flush_ok_sent
  flush_ok_sent-Drained ih c (err e, h) b = tt
  flush_ok_sent-Drained ih c (ok zero, h) b = tt
  flush_ok_sent-Drained ih c (ok (suc n), h) b =
      ih _ h (omega (arith, length-drop (suc n) c.ok_pending))

  flush_to_host_sent-Drained :
      ((c : Conn) (h : Host)
        → c.ok_pending ≡ []
        → length c.to_host ≤ fuel
        → Drained waiting_bytes (next c h))
      → (c : Conn) (s : Io ℕ × Host) → c.ok_pending ≡ []
      → length c.to_host ≤ suc fuel
      → Drained waiting_bytes (flush_to_host_sent next c s)
  unfolding flush_to_host_sent
  flush_to_host_sent-Drained ih c (err e, h) q b = tt
  flush_to_host_sent-Drained ih c (ok zero, h) q b = tt
  flush_to_host_sent-Drained ih c (ok (suc n), h) q b =
      ih _ h q (omega (arith, length-drop (suc n) c.to_host))

  flush_ok_round-Drained :
      ((c : Conn) (h : Host) → length c.ok_pending ≤ fuel → Drained (λ d. d.ok_pending) (next c h))
      → (c : Conn) (h : Host) (xs : List ℕ) → c.ok_pending ≡ xs
      → length c.ok_pending ≤ suc fuel
      → Drained (λ d. d.ok_pending) (flush_ok_round next c h xs)
  unfolding flush_ok_round
  flush_ok_round-Drained ih c h [] e b = e
  flush_ok_round-Drained ih c h (x ∷ xs) e b = flush_ok_sent-Drained ih c _ b

  flush_to_host_round-Drained :
      ((c : Conn) (h : Host)
        → c.ok_pending ≡ []
        → length c.to_host ≤ fuel
        → Drained waiting_bytes (next c h))
      → (c : Conn) (h : Host) (xs : List ℕ) → c.ok_pending ≡ []
      → c.to_host ≡ xs
      → length c.to_host ≤ suc fuel
      → Drained waiting_bytes (flush_to_host_round next c h xs)
  unfolding flush_to_host_round
  flush_to_host_round-Drained ih c h [] q e b = rw (q, e)
  flush_to_host_round-Drained ih c h (x ∷ xs) q e b = flush_to_host_sent-Drained ih c _ q b

flush_ok_rounds-Drained :
    (n : ℕ) (c : Conn) (h : Host)
    → length c.ok_pending ≤ n
    → Drained (λ d. d.ok_pending) (flush_ok_rounds n c h)
unfolding flush_ok_rounds
flush_ok_rounds-Drained zero c h b = nil_of_length c.ok_pending b
flush_ok_rounds-Drained (suc n) c h b =
    flush_ok_round-Drained (flush_ok_rounds n) n (flush_ok_rounds-Drained n) c h c.ok_pending refl b

flush_to_host_rounds-Drained :
    (n : ℕ) (c : Conn) (h : Host)
    → c.ok_pending ≡ []
    → length c.to_host ≤ n
    → Drained waiting_bytes (flush_to_host_rounds n c h)
unfolding flush_to_host_rounds
flush_to_host_rounds-Drained zero c h q b = rw (q, nil_of_length c.to_host b)
flush_to_host_rounds-Drained (suc n) c h q b =
    flush_to_host_round-Drained (flush_to_host_rounds n) n (flush_to_host_rounds-Drained n) c h
      c.to_host q refl b

-- `flush_both` after its first half.
and_then : Io (Unit {0}) × Conn × Host → Io (Unit {0}) × Conn × Host
and_then (ok _, c, h) = flush_to_host c h
and_then (err e, c, h) = (err e, c, h)

and_then-Flushed :
    (c : Conn) (h : Host) (s : Io (Unit {0}) × Conn × Host)
    → Flushed c h s
    → Drained (λ d. d.ok_pending) s
    → Flushed c h (and_then s)
unfolding and_then flush_to_host
and_then-Flushed c h (ok _, c', h') f d =
    Flushed-trans c c' h h' _ (ok tt) f (flush_to_host_rounds-Flushed (length c'.to_host) c' h' d)
and_then-Flushed c h (err e, c', h') f d = f

and_then-Drained :
    (s : Io (Unit {0}) × Conn × Host)
    → Drained (λ d. d.ok_pending) s
    → Drained waiting_bytes (and_then s)
unfolding and_then flush_to_host
and_then-Drained (ok _, c, h) q =
    flush_to_host_rounds-Drained (length c.to_host) c h q (omega arith)
and_then-Drained (err e, c, h) q = tt

flush_both-and_then : (c : Conn) (h : Host) → flush_both c h ≡ and_then (flush_ok c h)
unfolding flush_both and_then
flush_both-and_then c h = ground arith

-- A flush sends `ok_pending` and then `to_host`, in order: what has been written to the socket
-- followed by what still waits is the same as before, whether or not the flush succeeds. It writes
-- to no other socket, counts in `fwd_cnt` the bytes that left `to_host`, and changes nothing else.
pub flush_both-Flushed : (c : Conn) (h : Host) → Flushed c h (flush_both c h)
unfolding flush_ok
flush_both-Flushed c h = rw (flush_both-and_then c h) (
    and_then-Flushed c h (flush_ok c h) (flush_ok_rounds-Flushed (length c.ok_pending) c h)
      (flush_ok_rounds-Drained (length c.ok_pending) c h (omega arith)))

-- A flush that succeeds leaves no byte waiting, so all has been written to the socket.
pub flush_both-Drained : (c : Conn) (h : Host) → Drained waiting_bytes (flush_both c h)
unfolding flush_ok
flush_both-Drained c h = rw (flush_both-and_then c h) (
    and_then-Drained (flush_ok c h)
      (flush_ok_rounds-Drained (length c.ok_pending) c h (omega arith)))
