-- ===== src/Net/Received/Flushing.antt =====
-- What `flush_pending_rx` of src/devices/virtio_net.rs does with the frame that it holds.
use kitsune.Base.{
  ℕ, ◌≡◌, refl, ap, sym, ◌∙◌, Bool, true, false, not, Option, none, some, List, [], ◌∷◌, ◌++◌,
  append-nil, ltb, length, if◌then◌else◌, arith, ◌%◌, u32_mod,
}
use kitsune.Net.State.{NetState, RxChain, Fate, given, dropped, add_used, queue_rx}
use kitsune.Net.Rx.{Flush, after_add, give, offer, flush_chains, flush_held, flush_pending_rx}

abbrev pub bytes_of : List Fate → List (List ℕ)
bytes_of [] = []
bytes_of (given bytes ∷ fates) = bytes ∷ bytes_of fates
bytes_of (dropped bytes ∷ fates) = bytes ∷ bytes_of fates

abbrev pub held_rx : Option (List ℕ) → List (List ℕ)
held_rx none = []
held_rx (some bytes) = bytes ∷ []

-- The frames that came from the TAP: those whose fate is known, and the one that is held.
abbrev pub arrived : NetState → List (List ℕ)
arrived s = bytes_of s.fates ++ held_rx s.pending_rx

bytes_of-append :
    (fates : List Fate) (f : Fate)
    → bytes_of (fates ++ f ∷ []) ≡ bytes_of fates ++ bytes_of (f ∷ [])
bytes_of-append [] f = refl
bytes_of-append (given bytes ∷ fates) f = ap (λ l. bytes ∷ l) (bytes_of-append fates f)
bytes_of-append (dropped bytes ∷ fates) f = ap (λ l. bytes ∷ l) (bytes_of-append fates f)

-- The frames are as they were, and the frame that is held still is.
pub record Holds (bytes : List ℕ) (s t : NetState) : Type 0 where
  pub held : t.pending_rx ≡ some bytes
  pub same_fates : t.fates ≡ s.fates
  pub same_reads : t.tap_reads ≡ s.tap_reads

-- A flush of the held frame, begun in `s`, that has come to the state `t`: it reads nothing.
abbrev pub Flushes : NetState → NetState → Type 0
Flushes s t = (t.tap_reads ≡ s.tap_reads) × (arrived t ≡ arrived s)

module _ (bytes : List ℕ) (s : NetState) (start : s.pending_rx ≡ some bytes) where
  unfated-Flushes : (t : NetState) → Holds bytes s t → Flushes s t
  unfated-Flushes t h = (
    h.same_reads,
    ap (λ f. bytes_of f ++ held_rx t.pending_rx) h.same_fates
        ∙ ap (λ p. bytes_of s.fates ++ held_rx p) (h.held ∙ sym start),
  )

  -- A frame with a fate.
  fate-Flushes :
      (t : NetState) (f : Fate)
      → bytes_of (f ∷ []) ≡ bytes ∷ []
      → Holds bytes s t
      → Flushes s (record t { pending_rx = none; fates = t.fates ++ f ∷ [] })
  fate-Flushes t f e h = (
    h.same_reads,
    append-nil (bytes_of (t.fates ++ f ∷ []))
        ∙ (bytes_of-append t.fates f
            ∙ (ap (λ l. bytes_of l ++ bytes_of (f ∷ [])) h.same_fates
                ∙ (ap (λ l. bytes_of s.fates ++ l) e
                    ∙ ap (λ p. bytes_of s.fates ++ held_rx p) (sym start)))),
  )

  add_used-Holds :
      (queue head len : ℕ) (t : NetState)
      → Holds bytes s t
      → Holds bytes s (add_used queue head len t).1
  unfolding add_used
  add_used-Holds queue head len t h = record {
    held = ground (arith, h.held);
    same_fates = ground (arith, h.same_fates);
    same_reads = ground (arith, h.same_reads);
  }

  after_add-Flushes :
      (next : NetState → Flush) (r : Bool × NetState)
      → Holds bytes s r.1
      → ((t : NetState) → Holds bytes s t → Flushes s (next t).1)
      → Flushes s (after_add next r).1
  after_add-Flushes next (true, t) h goes = goes t h
  after_add-Flushes next (false, t) h goes = unfated-Flushes t h

  offer-Flushes :
      (c : RxChain) (avail : ℕ) (next : NetState → Flush) (t : NetState)
      → Holds bytes s t
      → ((u : NetState) → Holds bytes s u → Flushes s (next u).1)
      → Flushes s (offer bytes c avail next t).1
  unfolding offer
  offer-Flushes c avail next t h goes = by (ltb avail (length bytes)) c.writes
    where
      by :
          (small writes : Bool)
          → Flushes s
              (if small
                then after_add next (add_used queue_rx c.head_index 0 t)
                else if not writes
                then (none, t)
                else after_add
                    (give bytes)
                    (add_used queue_rx c.head_index (length bytes % u32_mod) t)).1
      by true writes =
          after_add-Flushes next (add_used queue_rx c.head_index 0 t)
            (add_used-Holds queue_rx c.head_index 0 t h) goes
      by false false = unfated-Flushes t h
      by false true =
          after_add-Flushes (give bytes) (add_used queue_rx c.head_index (length bytes % u32_mod) t)
            (add_used-Holds queue_rx c.head_index (length bytes % u32_mod) t h)
            (λ u k. fate-Flushes u (given bytes) refl k)

  flush_chains-Flushes :
      (cs : List RxChain) (saw : Bool) (t : NetState)
      → Holds bytes s t
      → Flushes s (flush_chains bytes cs saw t).1
  unfolding flush_chains
  flush_chains-Flushes [] true t h = fate-Flushes t (dropped bytes) refl h
  flush_chains-Flushes [] false t h = unfated-Flushes t h
  flush_chains-Flushes (c ∷ cs) saw t h =
      by c.available_bytes (λ u k. flush_chains-Flushes cs true u k)
    where
      next : NetState
      next = record t { rx = cs }

      still : Holds bytes s next
      still = record { held = h.held; same_fates = h.same_fates; same_reads = h.same_reads }

      by :
          (o : Option ℕ)
          → ((u : NetState) → Holds bytes s u → Flushes s (flush_chains bytes cs true u).1)
          → Flushes s
              (elim o as (λ _. Flush) [
                | none ↦ (none, next)
                | some avail ↦ offer bytes c avail (flush_chains bytes cs true) next
              ]).1
      by none goes = unfated-Flushes next still
      by (some avail) goes = offer-Flushes c avail (flush_chains bytes cs true) next still goes

pub flush_pending_rx-Flushes : (s : NetState) → Flushes s (flush_pending_rx s).1
unfolding flush_pending_rx
flush_pending_rx-Flushes s = by s.pending_rx refl
  where
    by : (o : Option (List ℕ)) → s.pending_rx ≡ o → Flushes s (flush_held o s).1
    by none e = (refl, refl)
    by (some bytes) e =
        flush_chains-Flushes bytes s e s.rx false s
          (record { held = e; same_fates = refl; same_reads = refl })
