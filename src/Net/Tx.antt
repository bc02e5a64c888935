-- ===== src/Net/Tx.antt =====
-- From the guest to the TAP: `tap_try_send`, `complete_tx` and `process_tx` of
-- src/devices/virtio_net.rs.
use kitsune.Base.{
  ℕ, Bool, true, false, not, Option, none, some, List, [], ◌∷◌, ◌++◌, ◌==◌, ltb, length,
  if◌then◌else◌,
}
use kitsune.Net.State.{
  NetState, TxChain, TapWrite, Stepped, wrote, write_blocks, write_eintr, write_fails, fine, fails,
  add_used, queue_tx, net_hdr_len,
}

-- `TapSend`, with its errors.
pub data TapSend : Type 0 where
  sent would_block send_fails : TapSend

-- The loop of `tap_try_send`.
unfoldable pub send_rounds : List ℕ → List TapWrite → NetState → TapSend × NetState
send_rounds packet [] s = (send_fails, record s { tap_writes = [] })
send_rounds packet (wrote n ∷ rest) s =
    if n == length packet
    then (sent, record s { tap_writes = rest; sent = s.sent ++ packet ∷ [] })
    else (send_fails, record s { tap_writes = rest })
send_rounds packet (write_blocks ∷ rest) s = (would_block, record s { tap_writes = rest })
send_rounds packet (write_eintr ∷ rest) s = send_rounds packet rest s
send_rounds packet (write_fails ∷ rest) s = (send_fails, record s { tap_writes = rest })

-- `tap_try_send`
unfoldable pub tap_try_send : List ℕ → NetState → TapSend × NetState
tap_try_send packet s = send_rounds packet s.tap_writes s

-- `complete_tx`
unfoldable pub complete_tx : ℕ → NetState → Bool × NetState
complete_tx head s = add_used queue_tx head 0 s

-- `complete_tx(…).map_err(|e| (used_any, e))?`, and the rest of the function.
abbrev pub completed : Bool → (NetState → Stepped) → Bool × NetState → Stepped
completed used next (true, s) = next s
completed used next (false, s) = (fails used, s)

-- `let _ = complete_tx(…); return Err((true, e))`
abbrev pub give_up : ℕ → NetState → Stepped
give_up head s = (fails true, (complete_tx head s).1)

-- What `process_tx` does with the result of `tap_try_send`: `next` is the rest of the loop.
abbrev pub after_send : Bool → ℕ → List ℕ → (NetState → Stepped) → TapSend × NetState → Stepped
after_send used head packet next (sent, s) = completed used next (complete_tx head s)
after_send used head packet next (would_block, s) =
    (fine used, record s { pending_tx = some (head, packet) })
after_send used head packet next (send_fails, s) = give_up head s

-- What `process_tx` does with the bytes of a chain.
unfoldable pub send_chain : Bool → TxChain → List ℕ → (NetState → Stepped) → NetState → Stepped
send_chain used c bytes next s =
    if ltb (length bytes) net_hdr_len
    then completed used next (complete_tx c.head_index s)
    else if not c.read_ok
    then give_up c.head_index s
    else after_send used c.head_index bytes next (tap_try_send bytes s)

-- The loop of `process_tx` over the chains of the queue.
unfoldable pub tx_rounds : List TxChain → Bool → NetState → Stepped
tx_rounds [] used s = (fine used, s)
tx_rounds (c ∷ cs) used s = elim c.readable [
  | none ↦ give_up c.head_index (record s { tx = cs })
  | some bytes ↦ send_chain used c bytes (tx_rounds cs true) (record s { tx = cs })
]

-- `process_tx` of a queue that is ready, with what is held.
abbrev pub send_held : Option (ℕ × List ℕ) → NetState → Stepped
send_held none s = tx_rounds s.tx false s
send_held (some (head, packet)) s =
    after_send false head packet (λ t. tx_rounds t.tx true t)
      (tap_try_send packet (record s { pending_tx = none }))

-- `process_tx`
unfoldable pub process_tx : NetState → Stepped
process_tx s =
    if s.tx_ready then send_held s.pending_tx s else (fine false, record s { pending_tx = none })
