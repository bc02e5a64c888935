-- ===== src/Net/Sent.antt =====
-- What `process_tx` of src/devices/virtio_net.rs passes on to the TAP and returns to the guest.
use kitsune.Base.{
  ℕ, ◌≡◌, refl, ap, sym, ◌∙◌, Bool, true, false, not, Option, none, some, List, [], ◌∷◌, ◌++◌,
  append-nil, append_assoc, ltb, length, if◌then◌else◌,
}
use kitsune.Net.State.{NetState, TxChain, Stepped, fine, net_hdr_len}
use kitsune.Net.Tx.{
  TapSend, sent, would_block, send_fails, send_rounds, tap_try_send, complete_tx, completed,
  give_up, after_send, send_chain, tx_rounds, send_held, process_tx,
}
use kitsune.Net.Effects.{
  frame_of, frames, heads, returned, held_frame, held_head, all_frames, all_heads, Attempt,
  send_rounds-Attempt, Completion, complete_tx-Completion,
}

module _ (F : List (List ℕ)) (H : List ℕ) (b : Bool) where
  -- A step that ends well with the flag `b` has kept all frames `F` and all heads `H`.
  abbrev EndsWith : Stepped → Type 0
  EndsWith r = r.0 ≡ fine b → (all_frames r.1 ≡ F) × (all_heads r.1 ≡ H)

  -- A state between two chains, with what is in the queue behind what is done with.
  record Between (packets : List (List ℕ)) (hs : List ℕ) (cs : List TxChain) (t : NetState)
      : Type 0 where
    no_held : t.pending_tx ≡ none
    left : t.tx ≡ cs
    frames_kept : t.sent ++ (packets ++ frames cs) ≡ F
    heads_kept : returned t.used ++ (hs ++ heads cs) ≡ H

  abbrev Continues : List TxChain → (NetState → Stepped) → Type 0
  Continues cs next = (u : NetState) → Between [] [] cs u → EndsWith (next u)

  completed-EndsWith :
      (used : Bool) (head : ℕ) (next : NetState → Stepped) (cs : List TxChain) (t : NetState)
      → Between [] (head ∷ []) cs t
      → Continues cs next
      → (r : Bool × NetState) → Completion head t r
      → EndsWith (completed used next r)
  completed-EndsWith used head next cs t k goes (true, u) c = goes u (record {
    no_held = c.same_pending ∙ k.no_held;
    left = c.same_tx ∙ k.left;
    frames_kept = ap (λ l. l ++ frames cs) c.same_sent ∙ k.frames_kept;
    heads_kept =
        ap (λ l. l ++ heads cs) (c.returns refl)
        ∙ (append_assoc (returned t.used) (head ∷ []) (heads cs) ∙ k.heads_kept);
  })
  completed-EndsWith used head next cs t k goes (false, u) c = λ x. cc

  after_send-EndsWith :
      (used : Bool) (head : ℕ) (packet : List ℕ) (next : NetState → Stepped) (cs : List TxChain)
      (t : NetState)
      → Between (packet ∷ []) (head ∷ []) cs t
      → Continues cs next
      → (r : TapSend × NetState) → Attempt packet t r
      → EndsWith (after_send used head packet next r)
  after_send-EndsWith used head packet next cs t k goes (sent, u) a =
      completed-EndsWith used head next cs u
        (record {
          no_held = a.same_pending ∙ k.no_held;
          left = a.same_tx ∙ k.left;
          frames_kept =
              ap (λ l. l ++ frames cs) a.sends
              ∙ (append_assoc t.sent (packet ∷ []) (frames cs) ∙ k.frames_kept);
          heads_kept = ap (λ l. returned l ++ head ∷ heads cs) a.same_used ∙ k.heads_kept;
        })
        goes (complete_tx head u) (complete_tx-Completion head u)
  after_send-EndsWith used head packet next cs t k goes (would_block, u) a = λ x. (
    ap (λ l. l ++ packet ∷ frames u.tx) (a.sends ∙ append-nil t.sent)
        ∙ (ap (λ l. t.sent ++ packet ∷ frames l) (a.same_tx ∙ k.left) ∙ k.frames_kept),
    ap (λ l. returned l ++ head ∷ heads u.tx) a.same_used
        ∙ (ap (λ l. returned t.used ++ head ∷ heads l) (a.same_tx ∙ k.left) ∙ k.heads_kept),
  )
  after_send-EndsWith used head packet next cs t k goes (send_fails, u) a = λ x. cc

  send_chain-EndsWith :
      (used : Bool) (c : TxChain) (bytes : List ℕ) (next : NetState → Stepped) (cs : List TxChain)
      (t : NetState)
      → Between (frame_of (some bytes)) (c.head_index ∷ []) cs t
      → Continues cs next
      → EndsWith (send_chain used c bytes next t)
  unfolding send_chain tap_try_send
  send_chain-EndsWith used c bytes next cs t k goes = by (ltb (length bytes) net_hdr_len) k
    where
      head : ℕ
      head = c.head_index

      read_in :
          (ok : Bool)
          → Between (bytes ∷ []) (head ∷ []) cs t
          → EndsWith (
              if not ok
              then give_up head t
              else after_send used head bytes next (send_rounds bytes t.tap_writes t))
      read_in true j =
          after_send-EndsWith used head bytes next cs t j goes (send_rounds bytes t.tap_writes t)
            (send_rounds-Attempt bytes t.tap_writes t)
      read_in false j = λ x. cc

      by :
          (short : Bool)
          → Between (if short then [] else bytes ∷ []) (head ∷ []) cs t
          → EndsWith (
              if short
              then completed used next (complete_tx head t)
              else if not c.read_ok
              then give_up head t
              else after_send used head bytes next (send_rounds bytes t.tap_writes t))
      by true j =
          completed-EndsWith used head next cs t j goes (complete_tx head t)
            (complete_tx-Completion head t)
      by false j = read_in c.read_ok j

  tx_rounds-EndsWith :
      (cs : List TxChain) (used : Bool) (t : NetState)
      → Between [] [] cs t
      → EndsWith (tx_rounds cs used t)
  unfolding tx_rounds
  tx_rounds-EndsWith [] used t k = λ x. (
    ap (λ p. t.sent ++ (held_frame p ++ frames t.tx)) k.no_held
        ∙ (ap (λ l. t.sent ++ frames l) k.left ∙ k.frames_kept),
    ap (λ p. returned t.used ++ (held_head p ++ heads t.tx)) k.no_held
        ∙ (ap (λ l. returned t.used ++ heads l) k.left ∙ k.heads_kept),
  )
  tx_rounds-EndsWith (c ∷ cs) used t k =
      by c.readable k.frames_kept (λ u j. tx_rounds-EndsWith cs true u j)
    where
      next : NetState
      next = record t { tx = cs }

      by :
          (o : Option (List ℕ))
          → t.sent ++ (frame_of o ++ frames cs) ≡ F
          → Continues cs (tx_rounds cs true)
          → EndsWith (elim o as (λ _. Stepped) [
            | none ↦ give_up c.head_index next
            | some bytes ↦ send_chain used c bytes (tx_rounds cs true) next
          ])
      by none f ih = λ x. cc
      by (some bytes) f ih =
          send_chain-EndsWith used c bytes (tx_rounds cs true) cs next
            (record {
              no_held = k.no_held;
              left = refl;
              frames_kept = f;
              heads_kept = k.heads_kept;
            })
            ih

  send_held-EndsWith :
      (o : Option (ℕ × List ℕ)) (t : NetState)
      → t.sent ++ (held_frame o ++ frames t.tx) ≡ F
      → returned t.used ++ (held_head o ++ heads t.tx) ≡ H
      → o ≡ t.pending_tx
      → EndsWith (send_held o t)
  unfolding tap_try_send
  send_held-EndsWith none t f h e =
      tx_rounds-EndsWith t.tx false t
        (record { no_held = sym e; left = refl; frames_kept = f; heads_kept = h })
  send_held-EndsWith (some (head, packet)) t f h e =
      let free : NetState = record t { pending_tx = none } in
      after_send-EndsWith false head packet (λ u. tx_rounds u.tx true u) t.tx free
        (record { no_held = refl; left = refl; frames_kept = f; heads_kept = h })
        (λ u j. tx_rounds-EndsWith u.tx true u (record {
          no_held = j.no_held;
          left = refl;
          frames_kept = ap (λ l. u.sent ++ frames l) j.left ∙ j.frames_kept;
          heads_kept = ap (λ l. returned u.used ++ heads l) j.left ∙ j.heads_kept;
        }))
        (send_rounds packet free.tap_writes free) (send_rounds-Attempt packet free.tap_writes free)

-- If `process_tx` of a queue that is ready ends without an error, it has kept the frames of the guest
-- that have at least a header in their order, those that the TAP took, the one that is held and those
-- in the queue, and likewise the heads of all chains, those returned, the one that is held and those
-- in the queue: no frame is lost, sent twice or overtaken.
pub process_tx-conserved :
    (s : NetState) (b : Bool)
    → s.tx_ready ≡ true
    → (process_tx s).0 ≡ fine b
    → (all_frames (process_tx s).1 ≡ all_frames s) × (all_heads (process_tx s).1 ≡ all_heads s)
unfolding process_tx
process_tx-conserved s b ready = by s.tx_ready ready
  where
    by :
        (r : Bool)
        → r ≡ true
        → EndsWith
            (all_frames s)
            (all_heads s)
            b
            (if r then send_held s.pending_tx s else (fine false, record s { pending_tx = none }))
    by true e = send_held-EndsWith (all_frames s) (all_heads s) b s.pending_tx s refl refl refl
    by false e = cc
