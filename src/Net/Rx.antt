-- ===== src/Net/Rx.antt =====
-- From the TAP to the guest: `flush_pending_rx`, `process_rx` and `process_net_once` of
-- src/devices/virtio_net.rs.
use kitsune.Base.{
  ℕ, ◌%◌, Bool, true, false, not, ◌||◌, Option, none, some, is_some, List, [], ◌∷◌, ◌++◌, ltb,
  length, if◌then◌else◌, u32_mod,
}
use kitsune.Net.State.{
  NetState, RxChain, TapRead, StepResult, Stepped, frame, read_blocks, read_eintr, read_fails,
  given, dropped, fine, fails, flag, add_used, queue_rx, net_hdr_len,
}
use kitsune.Net.Tx.{process_tx}

-- The result of `flush_pending_rx`: whether a chain was returned, and nothing for an error.
abbrev pub Flush : Type 0
Flush = Option Bool × NetState

-- `.add_used(…)?`, and the rest of the function.
abbrev pub after_add : (NetState → Flush) → Bool × NetState → Flush
after_add next (true, s) = next s
after_add next (false, s) = (none, s)

-- The frame goes out of the device, in one way or the other.
abbrev pub give : List ℕ → NetState → Flush
give bytes s = (some true, record s { pending_rx = none; fates = s.fates ++ given bytes ∷ [] })

abbrev pub drop_frame : List ℕ → NetState → NetState
drop_frame bytes s = record s { pending_rx = none; fates = s.fates ++ dropped bytes ∷ [] }

-- What a round of the loop of `flush_pending_rx` does with a chain of so much room.
unfoldable pub offer : List ℕ → RxChain → ℕ → (NetState → Flush) → NetState → Flush
offer bytes c avail next s =
    if ltb avail (length bytes)
    then after_add next (add_used queue_rx c.head_index 0 s)
    else if not c.writes
    then (none, s)
    else after_add (give bytes) (add_used queue_rx c.head_index (length bytes % u32_mod) s)

-- The loop of `flush_pending_rx`, with whether it has seen a chain, and what follows the loop.
unfoldable pub flush_chains : List ℕ → List RxChain → Bool → NetState → Flush
flush_chains bytes [] saw s = (some saw, if saw then drop_frame bytes s else s)
flush_chains bytes (c ∷ cs) saw s = elim c.available_bytes [
  | none ↦ (none, record s { rx = cs })
  | some avail ↦ offer bytes c avail (flush_chains bytes cs true) (record s { rx = cs })
]

-- `flush_pending_rx` with what is held.
abbrev pub flush_held : Option (List ℕ) → NetState → Flush
flush_held none s = (some false, s)
flush_held (some bytes) s = flush_chains bytes s.rx false s

-- `flush_pending_rx`
unfoldable pub flush_pending_rx : NetState → Flush
flush_pending_rx s = flush_held s.pending_rx s

-- What `process_rx` does after a flush: it goes on with `next` unless the frame is held still.
abbrev pub after_flush : Bool → (Bool → NetState → Stepped) → Flush → Stepped
after_flush used next (none, s) = (fails used, s)
after_flush used next (some u, s) =
    if is_some s.pending_rx then (fine (used || u), s) else next (used || u) s

-- What the loop of `process_rx` does with an answer of the TAP.
abbrev pub on_read : Bool → (Bool → NetState → Stepped) → TapRead → NetState → Stepped
on_read used next (frame []) s = (fine used, s)
on_read used next (frame (b ∷ bs)) s =
    if ltb (length (b ∷ bs)) net_hdr_len
    then next used s
    else after_flush used next (flush_pending_rx (record s { pending_rx = some (b ∷ bs) }))
on_read used next read_blocks s = (fine used, s)
on_read used next read_eintr s = next used s
on_read used next read_fails s = (fails used, s)

-- The loop of `process_rx`.
unfoldable pub rx_rounds : List TapRead → Bool → NetState → Stepped
rx_rounds [] used s = (fails used, s)
rx_rounds (a ∷ rest) used s = on_read used (rx_rounds rest) a (record s { tap_reads = rest })

-- The loop of `process_rx` from where the answers of the TAP are.
abbrev pub read_more : Bool → NetState → Stepped
read_more used s = rx_rounds s.tap_reads used s

-- `process_rx`
unfoldable pub process_rx : NetState → Stepped
process_rx s =
    if not s.rx_ready
    then (fine false, record s { pending_rx = none })
    else if is_some s.pending_rx
    then after_flush false read_more (flush_pending_rx s)
    else read_more false s

abbrev pub is_error : StepResult → Bool
is_error (fine used) = false
is_error (fails used) = true

-- `process_net_once` up to its signal: whether it signals the guest, and whether it ends in an error.
unfoldable pub process_net_once : NetState → Bool × Bool × NetState
process_net_once s =
    let (r, t) = process_tx s in
    let (q, u) = process_rx t in (flag r || flag q, is_error r || is_error q, u)
