-- ===== src/Blk/Queue.antt =====
-- `process_queue` of src/devices/virtio_blk.rs, under the lock of the transport at each end of a round.
-- The queue is the list of the chains that `pop_descriptor_chain` gives until it gives none, or the
-- queue is not ready; `adds` is how the calls of `add_used` end.
pub mod Returned
use kitsune.Base.{ℕ, Bool, true, false, Option, none, some, List, [], ◌∷◌, ◌++◌}
use kitsune.Blk.Disk.{BlockDisk}
use kitsune.Blk.Request.{Chain, Answer, Handled, Served, written, failed, handle_request}

-- The worker's disk and the request queue: `used` is the heads and lengths returned to the guest,
-- `log` how each request ended and what was written to its chain.
pub record Worker : Type 0 where
  pub disk : BlockDisk
  pub chains : List Chain
  pub adds : List Bool
  pub used : List (ℕ × ℕ)
  pub log : List (Answer × List ℕ)

-- `.unwrap_or(1)`
abbrev pub unwrap_or_one : Answer → ℕ
unwrap_or_one (written n) = n
unwrap_or_one (failed e) = 1

-- `add_used`: whether it succeeds.
unfoldable pub add_used : ℕ → ℕ → Worker → Bool × Worker
add_used head len w = elim w.adds [
  | [] ↦ (false, w)
  | true ∷ rest ↦ (true, record w { adds = rest; used = w.used ++ (head, len) ∷ [] })
  | false ∷ rest ↦ (false, record w { adds = rest })
]

-- The end of a round: an error of `add_used` ends the loop.
abbrev pub after_add : (Worker → Option Bool × Worker) → Bool × Worker → Option Bool × Worker
after_add next (true, w) = next w
after_add next (false, w) = (none, w)

-- The worker after a request.
abbrev pub after_request : List Chain → Handled → Worker → Worker
after_request cs h w = record w { disk = h.1.disk; chains = cs; log = w.log ++ (h.0, h.1.out) ∷ [] }

-- The loop over the chains; no result stands for an error.
unfoldable pub process_chains : ℕ → Bool → List Chain → Bool → Worker → Option Bool × Worker
process_chains capacity readonly [] used w = (some used, w)
process_chains capacity readonly (c ∷ cs) used w =
    let h = handle_request capacity readonly c w.disk in
    after_add (process_chains capacity readonly cs true)
      (add_used c.head_index (unwrap_or_one h.0) (after_request cs h w))

-- `process_queue` up to its signal: the result says whether it signals the guest.
unfoldable pub process_queue : ℕ → Bool → Worker → Option Bool × Worker
process_queue capacity readonly w = process_chains capacity readonly w.chains false w
