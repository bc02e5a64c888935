-- ===== src/Net/Tests.antt =====
-- Runs of the network device, and its theorems at concrete data.
use kitsune.Base.{ℕ, ◌≡◌, refl, true, false, none, some, List, [], ◌∷◌, replicate, arith}
use kitsune.Net.State.{
  NetState, TxChain, wrote, write_blocks, write_eintr, frame, read_blocks, given, fine, add_used,
}
use kitsune.Net.Tx.{send_rounds, tap_try_send, complete_tx, send_chain, tx_rounds, process_tx}
use kitsune.Net.Rx.{offer, flush_chains, flush_pending_rx, rx_rounds, process_rx, process_net_once}
use kitsune.Net.Effects.{all_frames, all_heads}
use kitsune.Net.Sent.{process_tx-conserved}
use kitsune.Net.Received.{Received, process_rx-Received}
use kitsune.Net.Given.{chain_of, flush_pending_rx-given}
use kitsune.Net.Flagged.{process_net_once-signals}

abbrev frame_a : List ℕ
frame_a = replicate 12 1

abbrev frame_b : List ℕ
frame_b = replicate 14 2

abbrev tx_chain : ℕ → List ℕ → TxChain
tx_chain head bytes = record { head_index = head; readable = some bytes; read_ok = true }

-- A frame is held, two wait, and the TAP blocks at the last of them.
abbrev state : NetState
state = record {
  pending_tx = some (3, frame_b);
  pending_rx = none;
  tx_ready = true;
  rx_ready = true;
  tx = tx_chain 5 frame_a ∷ tx_chain 6 (9 ∷ []) ∷ tx_chain 7 frame_b ∷ [];
  rx = chain_of 1 12 ∷ chain_of 2 20 ∷ [];
  adds = replicate 6 true;
  tap_writes = wrote 14 ∷ write_eintr ∷ wrote 12 ∷ write_blocks ∷ [];
  tap_reads = frame (9 ∷ []) ∷ frame frame_b ∷ read_blocks ∷ [];
  used = [];
  sent = [];
  fates = [];
}

holds_last : (process_tx state).0 ≡ fine true
unfolding process_tx tx_rounds send_chain tap_try_send send_rounds complete_tx add_used
holds_last = refl

process_tx-conserved_example :
    (all_frames (process_tx state).1 ≡ frame_b ∷ frame_a ∷ frame_b ∷ [])
    × (all_heads (process_tx state).1 ≡ 3 ∷ 5 ∷ 6 ∷ 7 ∷ [])
process_tx-conserved_example = process_tx-conserved state true refl holds_last

process_rx-Received_example : Received state (process_rx state).1
process_rx-Received_example = process_rx-Received state refl

-- A frame is held, and the second chain has room for it.
abbrev holding : NetState
holding = record state { pending_rx = some frame_b }

flush_pending_rx-given_example :
    ((flush_pending_rx holding).1.fates ≡ given frame_b ∷ [])
    × ((flush_pending_rx holding).1.used ≡ (0, 1, 0) ∷ (0, 2, 14) ∷ [])
flush_pending_rx-given_example =
    flush_pending_rx-given frame_b ((1, 12) ∷ []) 2 20 [] (replicate 4 true) holding refl refl
      (omega arith, tt) (omega arith) refl

-- Nothing to do.
abbrev at_rest : NetState
at_rest = record state { pending_tx = none; tx = []; tap_reads = read_blocks ∷ [] }

idle_round : ((process_net_once at_rest).0 ≡ false) × ((process_net_once at_rest).1 ≡ false)
unfolding process_net_once process_tx process_rx tx_rounds rx_rounds
idle_round = (refl, refl)

process_net_once-signals_example : (process_net_once at_rest).2.used ≡ []
process_net_once-signals_example = process_net_once-signals at_rest idle_round.0 idle_round.1

-- A chain that is too small is returned, the next one cannot be written to: the guest is not signalled.
abbrev broken : NetState
broken = record at_rest {
  rx = chain_of 1 4 ∷ record { head_index = 2; available_bytes = none; writes = true } ∷ [];
  tap_reads = frame frame_a ∷ read_blocks ∷ [];
}

missed_signal :
    ((process_net_once broken).0 ≡ false)
    × ((process_net_once broken).1 ≡ true)
    × ((process_net_once broken).2.used ≡ (0, 1, 0) ∷ [])
unfolding process_net_once process_tx process_rx tx_rounds rx_rounds flush_pending_rx flush_chains
    offer add_used
missed_signal = (refl, refl, refl)
