-- ===== src/Net/Flagged/Sending.antt =====
-- When `process_tx` of src/devices/virtio_net.rs says that it has returned a chain.
use kitsune.Base.{
  ℕ, ◌≡◌, refl, ◌∙◌, Bool, true, false, not, Option, none, some, List, [], ◌∷◌, ltb, length,
  if◌then◌else◌, arith,
}
use kitsune.Net.State.{NetState, TxChain, Stepped, fine, flag, add_used, queue_tx, net_hdr_len}
use kitsune.Net.Tx.{
  TapSend, sent, would_block, send_fails, send_rounds, tap_try_send, complete_tx, completed,
  give_up, after_send, send_chain, tx_rounds, send_held, process_tx,
}
use kitsune.Net.Effects.{send_rounds-Attempt}

pub failed_add-used :
    (queue head len : ℕ) (s : NetState)
    → (add_used queue head len s).0 ≡ false
    → (add_used queue head len s).1.used ≡ s.used
unfolding add_used
failed_add-used queue head len s e = ground arith

-- A step that does not raise the flag has returned no chain, and the flag was down before.
abbrev pub Flagged : Bool → NetState → Stepped → Type 0
Flagged used s r = flag r.0 ≡ false → (used ≡ false) × (r.1.used ≡ s.used)

completed-Flagged :
    (used : Bool) (head : ℕ) (next : NetState → Stepped) (s t : NetState)
    → t.used ≡ s.used
    → ((u : NetState) → Flagged true u (next u))
    → (r : Bool × NetState) → (r.0 ≡ false → r.1.used ≡ t.used)
    → Flagged used s (completed used next r)
completed-Flagged used head next s t same goes (true, u) kept e = cc (goes u e).0
completed-Flagged used head next s t same goes (false, u) kept e = (e, kept refl ∙ same)

after_send-Flagged :
    (used : Bool) (head : ℕ) (packet : List ℕ) (next : NetState → Stepped) (s : NetState)
    → ((u : NetState) → Flagged true u (next u))
    → (r : TapSend × NetState) → r.1.used ≡ s.used
    → Flagged used s (after_send used head packet next r)
unfolding complete_tx
after_send-Flagged used head packet next s goes (sent, u) same =
    completed-Flagged used head next s u same goes (add_used queue_tx head 0 u)
      (failed_add-used queue_tx head 0 u)
after_send-Flagged used head packet next s goes (would_block, u) same = λ e. (e, same)
after_send-Flagged used head packet next s goes (send_fails, u) same = λ e. cc

send_chain-Flagged :
    (used : Bool) (c : TxChain) (bytes : List ℕ) (next : NetState → Stepped) (s : NetState)
    → ((u : NetState) → Flagged true u (next u))
    → Flagged used s (send_chain used c bytes next s)
unfolding send_chain complete_tx tap_try_send
send_chain-Flagged used c bytes next s goes = by (ltb (length bytes) net_hdr_len) c.read_ok
  where
    by :
        (short ok : Bool)
        → Flagged used s (
            if short
            then completed used next (complete_tx c.head_index s)
            else if not ok
            then give_up c.head_index s
            else after_send used c.head_index bytes next (send_rounds bytes s.tap_writes s))
    by true ok =
        completed-Flagged used c.head_index next s s refl goes (add_used queue_tx c.head_index 0 s)
          (failed_add-used queue_tx c.head_index 0 s)
    by false false = λ e. cc
    by false true =
        after_send-Flagged used c.head_index bytes next s goes (send_rounds bytes s.tap_writes s)
          (send_rounds-Attempt bytes s.tap_writes s).same_used

tx_rounds-Flagged :
    (cs : List TxChain) (used : Bool) (s : NetState) → Flagged used s (tx_rounds cs used s)
unfolding tx_rounds
tx_rounds-Flagged [] used s = λ e. (e, refl)
tx_rounds-Flagged (c ∷ cs) used s = by c.readable (λ u. tx_rounds-Flagged cs true u)
  where
    next : NetState
    next = record s { tx = cs }

    by :
        (o : Option (List ℕ))
        → ((u : NetState) → Flagged true u (tx_rounds cs true u))
        → Flagged used s (elim o as (λ _. Stepped) [
          | none ↦ give_up c.head_index next
          | some bytes ↦ send_chain used c bytes (tx_rounds cs true) next
        ])
    by none goes = λ e. cc
    by (some bytes) goes = send_chain-Flagged used c bytes (tx_rounds cs true) next goes

pub process_tx-Flagged : (s : NetState) → Flagged false s (process_tx s)
unfolding process_tx tap_try_send
process_tx-Flagged s = by s.tx_ready s.pending_tx
  where
    by :
        (r : Bool) (o : Option (ℕ × List ℕ))
        → Flagged false s
            (if r then send_held o s else (fine false, record s { pending_tx = none }))
    by false o = λ e. (refl, refl)
    by true none = tx_rounds-Flagged s.tx false s
    by true (some (head, packet)) =
        let free : NetState = record s { pending_tx = none } in
        after_send-Flagged false head packet (λ t. tx_rounds t.tx true t) s
          (λ u. tx_rounds-Flagged u.tx true u) (send_rounds packet free.tap_writes free)
          (send_rounds-Attempt packet free.tap_writes free).same_used
