-- ===== src/Net/Flagged.antt =====
-- When `process_net_once` of src/devices/virtio_net.rs signals the guest.
mod Sending
use kitsune.Base.{
  ℕ, ◌≡◌, refl, ap, ◌∙◌, Bool, true, false, not, ◌||◌, Option, none, some, is_some, List, [], ◌∷◌,
  ◌++◌, ltb, length, if◌then◌else◌, arith, ◌%◌, u32_mod,
}
use kitsune.Net.State.{
  NetState, TxChain, RxChain, TapRead, Stepped, frame, read_blocks, read_eintr, read_fails, fine,
  fails, flag, add_used, queue_rx, queue_tx, net_hdr_len,
}
use kitsune.Net.Tx.{
  TapSend, sent, would_block, send_fails, send_rounds, tap_try_send, complete_tx, completed,
  give_up, after_send, send_chain, tx_rounds, send_held, process_tx,
}
use kitsune.Net.Rx.{
  Flush, after_add, give, offer, flush_chains, flush_held, flush_pending_rx, after_flush, rx_rounds,
  read_more, process_rx, is_error, process_net_once,
}
use kitsune.Net.Effects.{Attempt, send_rounds-Attempt}
use kitsune.Net.Flagged.Sending.{Flagged, failed_add-used, process_tx-Flagged}

-- A flush that ends well and returned nothing.
abbrev FlushFlagged : NetState → Flush → Type 0
FlushFlagged s r = r.0 ≡ some false → r.1.used ≡ s.used

-- A flush that has seen a chain raises its flag, if it ends well.
Raised : Flush → Type 0
Raised r = r.0 ≡ some false → ⊥

after_add-Raised :
    (next : NetState → Flush) (r : Bool × NetState)
    → ((t : NetState) → Raised (next t))
    → Raised (after_add next r)
unfolding Raised
after_add-Raised next (true, t) goes = goes t
after_add-Raised next (false, t) goes = λ e. cc

flush_chains-Raised :
    (bytes : List ℕ) (cs : List RxChain) (s : NetState) → Raised (flush_chains bytes cs true s)
unfolding Raised flush_chains offer
flush_chains-Raised bytes [] s = λ e. cc
flush_chains-Raised bytes (c ∷ cs) s = by c.available_bytes (λ t. flush_chains-Raised bytes cs t)
  where
    next : NetState
    next = record s { rx = cs }

    by :
        (o : Option ℕ)
        → ((t : NetState) → Raised (flush_chains bytes cs true t))
        → Raised (elim o as (λ _. Flush) [
          | none ↦ (none, next)
          | some avail ↦ offer bytes c avail (flush_chains bytes cs true) next
        ])
    by none goes = λ e. cc
    by (some avail) goes = fits (ltb avail (length bytes)) c.writes
      where
        fits :
            (small writes : Bool)
            → Raised (
                if small
                then after_add (flush_chains bytes cs true) (add_used queue_rx c.head_index 0 next)
                else if not writes
                then (none, next)
                else after_add
                    (give bytes)
                    (add_used queue_rx c.head_index (length bytes % u32_mod) next))
        fits true writes =
            after_add-Raised (flush_chains bytes cs true) (add_used queue_rx c.head_index 0 next)
              goes
        fits false false = λ e. cc
        fits false true =
            after_add-Raised (give bytes)
              (add_used queue_rx c.head_index (length bytes % u32_mod) next) (λ t e. cc)

flush_held-Flagged : (o : Option (List ℕ)) (s : NetState) → FlushFlagged s (flush_held o s)
unfolding Raised flush_chains
flush_held-Flagged none s = λ e. refl
flush_held-Flagged (some bytes) s = by s.rx
  where
    by : (cs : List RxChain) → FlushFlagged s (flush_chains bytes cs false s)
    by [] = λ e. refl
    by (c ∷ cs) = λ e. absurd (flush_chains-Raised bytes (c ∷ cs) s e)

-- A step of `process_rx` that ends well without a flag has returned no chain.
abbrev RxFlagged : Bool → NetState → Stepped → Type 0
RxFlagged used s r = r.0 ≡ fine false → (used ≡ false) × (r.1.used ≡ s.used)

fine_inj : (a b : Bool) → fine a ≡ fine b → a ≡ b
fine_inj a b e = ground arith

or_false : (a b : Bool) → (a || b) ≡ false → (a ≡ false) × (b ≡ false)
or_false a b e = ground arith

none_used : (b : Bool) → b ≡ false → some b ≡ some false
none_used b e = ap some e

after_flush-Flagged :
    (used : Bool) (next : Bool → NetState → Stepped) (s t : NetState)
    → t.used ≡ s.used
    → ((b : Bool) (u : NetState) → RxFlagged b u (next b u))
    → (r : Flush) → FlushFlagged t r
    → RxFlagged used s (after_flush used next r)
after_flush-Flagged used next s t same goes (none, u) f = λ e. cc
after_flush-Flagged used next s t same goes (some b, u) f = by (is_some u.pending_rx)
  where
    by :
        (held : Bool)
        → RxFlagged used s (if held then (fine (used || b), u) else next (used || b) u)
    by true e =
        let (p, q) = or_false used b (fine_inj (used || b) false e) in (p, f (none_used b q) ∙ same)
    by false e =
        let (d, k) = goes (used || b) u e in
        let (p, q) = or_false used b d in (p, k ∙ (f (none_used b q) ∙ same))

rx_rounds-Flagged :
    (answers : List TapRead) (used : Bool) (s : NetState)
    → RxFlagged used s (rx_rounds answers used s)
unfolding rx_rounds flush_pending_rx
rx_rounds-Flagged [] used s = λ e. cc
rx_rounds-Flagged (frame [] ∷ rest) used s = λ e. (fine_inj used false e, refl)
rx_rounds-Flagged (frame (b ∷ bs) ∷ rest) used s =
    by (ltb (length (b ∷ bs)) net_hdr_len) (λ f u. rx_rounds-Flagged rest f u)
  where
    next : NetState
    next = record s { tap_reads = rest }

    took : NetState
    took = record next { pending_rx = some (b ∷ bs) }

    by :
        (short : Bool)
        → ((f : Bool) (u : NetState) → RxFlagged f u (rx_rounds rest f u))
        → RxFlagged used s (
            if short
            then rx_rounds rest used next
            else after_flush used (rx_rounds rest) (flush_pending_rx took))
    by true goes = goes used next
    by false goes =
        after_flush-Flagged used (rx_rounds rest) s took refl goes (flush_held (some (b ∷ bs)) took)
          (flush_held-Flagged (some (b ∷ bs)) took)
rx_rounds-Flagged (read_blocks ∷ rest) used s = λ e. (fine_inj used false e, refl)
rx_rounds-Flagged (read_eintr ∷ rest) used s =
    rx_rounds-Flagged rest used (record s { tap_reads = rest })
rx_rounds-Flagged (read_fails ∷ rest) used s = λ e. cc

process_rx-Flagged : (s : NetState) → RxFlagged false s (process_rx s)
unfolding process_rx flush_pending_rx
process_rx-Flagged s = by s.rx_ready (is_some s.pending_rx)
  where
    by :
        (ready held : Bool)
        → RxFlagged false s (
            if not ready
            then (fine false, record s { pending_rx = none })
            else if held
            then after_flush false read_more (flush_pending_rx s)
            else read_more false s)
    by false held = λ e. (refl, refl)
    by true true =
        after_flush-Flagged false read_more s s refl (λ b u. rx_rounds-Flagged u.tap_reads b u)
          (flush_held s.pending_rx s) (flush_held-Flagged s.pending_rx s)
    by true false = rx_rounds-Flagged s.tap_reads false s

-- A round of the worker that ends without an error and does not signal the guest has returned no
-- chain to it.
pub process_net_once-signals :
    (s : NetState)
    → (process_net_once s).0 ≡ false
    → (process_net_once s).1 ≡ false
    → (process_net_once s).2.used ≡ s.used
unfolding process_net_once
process_net_once-signals s quiet clean =
    received (process_tx s) (process_rx (process_tx s).1) (process_tx-Flagged s)
      (process_rx-Flagged (process_tx s).1) quiet clean
  where
    received :
        (r q : Stepped)
        → Flagged false s r
        → RxFlagged false r.1 q
        → (flag r.0 || flag q.0) ≡ false
        → (is_error r.0 || is_error q.0) ≡ false
        → q.1.used ≡ s.used
    received (x, t) (fine b, u) f g quiet clean =
        let (p, q) = or_false (flag x) b quiet in (g (ap fine q)).1 ∙ (f p).1
    received (x, t) (fails b, u) f g quiet clean =
        let (p, q) = or_false (is_error x) true clean in absurd (ground arith)
