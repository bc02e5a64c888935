-- ===== src/Net/Effects.antt =====
-- The frames and chains of the guest's that src/devices/virtio_net.rs has to account for, and what a
-- write to the TAP and the return of a chain do to them.
use kitsune.Base.{
  ℕ, ◌≡◌, refl, ap, sym, Bool, true, false, Option, none, some, List, [], ◌∷◌, ◌++◌, append-nil,
  ◌==◌, ltb, length, if◌then◌else◌, arith,
}
use kitsune.Net.State.{
  NetState, TxChain, TapWrite, wrote, write_blocks, write_eintr, write_fails, add_used, queue_tx,
  net_hdr_len,
}
use kitsune.Net.Tx.{TapSend, sent, would_block, send_fails, send_rounds, complete_tx}

-- The frames that chains hold: those with room for the header at least.
abbrev pub frame_of : Option (List ℕ) → List (List ℕ)
frame_of none = []
frame_of (some bytes) = if ltb (length bytes) net_hdr_len then [] else bytes ∷ []

abbrev pub frames : List TxChain → List (List ℕ)
frames [] = []
frames (c ∷ cs) = frame_of c.readable ++ frames cs

abbrev pub heads : List TxChain → List ℕ
heads [] = []
heads (c ∷ cs) = c.head_index ∷ heads cs

abbrev pub returned : List (ℕ × ℕ × ℕ) → List ℕ
returned [] = []
returned ((queue, head, len) ∷ used) = head ∷ returned used

abbrev pub held_frame : Option (ℕ × List ℕ) → List (List ℕ)
held_frame none = []
held_frame (some (head, packet)) = packet ∷ []

abbrev pub held_head : Option (ℕ × List ℕ) → List ℕ
held_head none = []
held_head (some (head, packet)) = head ∷ []

-- All frames of the guest's, those that the TAP took, the one that is held and those in the queue;
-- and all heads, those returned, the one that is held and those in the queue.
abbrev pub all_frames : NetState → List (List ℕ)
all_frames s = s.sent ++ (held_frame s.pending_tx ++ frames s.tx)

abbrev pub all_heads : NetState → List ℕ
all_heads s = returned s.used ++ (held_head s.pending_tx ++ heads s.tx)

pub returned-append :
    (used : List (ℕ × ℕ × ℕ)) (queue head len : ℕ)
    → returned (used ++ (queue, head, len) ∷ []) ≡ returned used ++ head ∷ []
returned-append [] queue head len = refl
returned-append (u ∷ used) queue head len = ap (λ l. u.1 ∷ l) (returned-append used queue head len)

-- What an attempt to send leaves as it was, and the frames that the TAP took with it.
abbrev pub taken : TapSend → List ℕ → List (List ℕ)
taken sent packet = packet ∷ []
taken would_block packet = []
taken send_fails packet = []

pub record Attempt (packet : List ℕ) (s : NetState) (r : TapSend × NetState) : Type 0 where
  pub sends : r.1.sent ≡ s.sent ++ taken r.0 packet
  pub same_used : r.1.used ≡ s.used
  pub same_tx : r.1.tx ≡ s.tx
  pub same_pending : r.1.pending_tx ≡ s.pending_tx

pub send_rounds-Attempt :
    (packet : List ℕ) (answers : List TapWrite) (s : NetState)
    → Attempt packet s (send_rounds packet answers s)
unfolding send_rounds
send_rounds-Attempt packet [] s = record {
  sends = sym (append-nil s.sent);
  same_used = refl;
  same_tx = refl;
  same_pending = refl;
}
send_rounds-Attempt packet (wrote n ∷ rest) s = by (n == length packet)
  where
    by :
        (b : Bool)
        → Attempt packet s (
            if b
            then (sent, record s { tap_writes = rest; sent = s.sent ++ packet ∷ [] })
            else (send_fails, record s { tap_writes = rest }))
    by true = record { sends = refl; same_used = refl; same_tx = refl; same_pending = refl }
    by false = record {
      sends = sym (append-nil s.sent);
      same_used = refl;
      same_tx = refl;
      same_pending = refl;
    }
send_rounds-Attempt packet (write_blocks ∷ rest) s = record {
  sends = sym (append-nil s.sent);
  same_used = refl;
  same_tx = refl;
  same_pending = refl;
}
send_rounds-Attempt packet (write_eintr ∷ rest) s = send_rounds-Attempt packet rest s
send_rounds-Attempt packet (write_fails ∷ rest) s = record {
  sends = sym (append-nil s.sent);
  same_used = refl;
  same_tx = refl;
  same_pending = refl;
}

-- What `complete_tx` leaves as it was, and the head that it returns if it succeeds.
pub record Completion (head : ℕ) (s : NetState) (r : Bool × NetState) : Type 0 where
  pub same_sent : r.1.sent ≡ s.sent
  pub same_tx : r.1.tx ≡ s.tx
  pub same_pending : r.1.pending_tx ≡ s.pending_tx
  pub returns : r.0 ≡ true → returned r.1.used ≡ returned s.used ++ head ∷ []

pub complete_tx-Completion : (head : ℕ) (s : NetState) → Completion head s (complete_tx head s)
unfolding complete_tx add_used
complete_tx-Completion head s = record {
  same_sent = ground arith;
  same_tx = ground arith;
  same_pending = ground arith;
  returns = λ e. ground (arith, returned-append s.used queue_tx head 0);
}
