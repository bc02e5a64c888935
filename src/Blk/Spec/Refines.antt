-- ===== src/Blk/Spec/Refines.antt =====
-- The queue of src/devices/virtio_blk.rs keeps the promise of a block device.
use kitsune.Base.{
  ℕ, ◌≡◌, ap, sym, subst, ◌∙◌, Bool, true, false, Option, List, [], ◌∷◌, ◌++◌, append-nil,
  append_assoc, arith,
}
use kitsune.Blk.Request.{Chain, Answer, Handled, handle_request}
use kitsune.Blk.Queue.{
  Worker, add_used, after_add, after_request, process_chains, process_queue, unwrap_or_one,
}
use kitsune.Blk.Spec.{Promise, Replays, request_of, driver_ro, over, serves}
use kitsune.Blk.Spec.Promised.{handle_request-Promise}
use kitsune.Blk.Spec.Timely.{handle_request-Excused}

-- The disk before and after, and the chains that were served as the log tells.
pub record Refines (capacity : ℕ) (readonly : Bool) (cs : List Chain) (w : Worker)
    (r : Option Bool × Worker) : Type 0 where
  pub entries : List (Answer × List ℕ)
  pub logged : r.1.log ≡ w.log ++ entries
  pub replays : Replays capacity readonly cs entries w.disk r.1.disk

-- A round of the loop leaves the log and the disk as the request did, whether `add_used` succeeds or
-- not.
add_used-disk :
    (head len : ℕ) (w : Worker)
    → ((add_used head len w).1.disk ≡ w.disk) × ((add_used head len w).1.log ≡ w.log)
unfolding add_used
add_used-disk head len w = (ground arith, ground arith)

process_chains-Refines :
    (capacity : ℕ) (readonly : Bool) (cs : List Chain) (used : Bool) (w : Worker)
    → Refines capacity readonly cs w (process_chains capacity readonly cs used w)
unfolding process_chains
process_chains-Refines capacity readonly [] used w = record {
  entries = [];
  logged = sym (append-nil w.log);
  replays = over [] w.disk;
}
process_chains-Refines capacity readonly (c ∷ cs) used w =
    by (add_used c.head_index (unwrap_or_one h.0) (after_request cs h w))
      (add_used-disk c.head_index (unwrap_or_one h.0) (after_request cs h w))
      (process_chains-Refines capacity readonly cs true)
  where
    h : Handled
    h = handle_request capacity readonly c w.disk

    by :
        (r : Bool × Worker)
        → (r.1.disk ≡ h.1.disk) × (r.1.log ≡ w.log ++ (h.0, h.1.out) ∷ [])
        → ((t : Worker)
            → Refines capacity readonly cs t (process_chains capacity readonly cs true t))
        → Refines capacity readonly
            (c ∷ cs)
            w
            (after_add (process_chains capacity readonly cs true) r)
    by (true, t) (same, log) ih =
        let rest = ih t in
        record {
          entries = (h.0, h.1.out) ∷ rest.entries;
          logged =
              rest.logged
              ∙ (ap (λ l. l ++ rest.entries) log
                  ∙ append_assoc w.log ((h.0, h.1.out) ∷ []) rest.entries);
          replays =
              serves c cs h.0 h.1.out rest.entries w.disk t.disk
                (process_chains capacity readonly cs true t).1.disk
                (subst
                  (λ x.
                    Promise capacity (driver_ro readonly c) (request_of c) h.0 h.1.out
                      w.disk.kernel.file x.kernel.file)
                  (sym same) (handle_request-Promise capacity readonly c w.disk))
                (handle_request-Excused capacity readonly c w.disk) rest.replays;
        }
    by (false, t) (same, log) ih = record {
      entries = (h.0, h.1.out) ∷ [];
      logged = log;
      replays =
          serves c cs h.0 h.1.out [] w.disk t.disk t.disk
            (subst
              (λ x.
                Promise capacity (driver_ro readonly c) (request_of c) h.0 h.1.out
                  w.disk.kernel.file x.kernel.file)
              (sym same) (handle_request-Promise capacity readonly c w.disk))
            (handle_request-Excused capacity readonly c w.disk) (over cs t.disk);
    }

-- A run of `process_queue`, whether it ends well or not, is a run of a block device's promise
-- over the chains of the queue in their order, from the disk before it to the disk after it.
-- Reads leave the image alone and are answered with its bytes or with zeros and an error; writes
-- change only the bytes that they name and that may be written, and a success means that the
-- image holds them. No error answers a read of a range in the disk, or a write of one where
-- neither the disk nor the negotiated features are read-only, if the range fits an off_t, the
-- buffer is large enough or can grow, and the kernel answers each such call with some bytes or
-- with `EINTR`, with bytes as often as the range has bytes. A read or a write ends without an
-- answer only if what the guest sends cannot be read, its room cannot be written to or has no
-- byte for the status, the range does not fit 64 bits, or the buffer cannot grow.
pub process_queue-Refines :
    (capacity : ℕ) (readonly : Bool) (w : Worker)
    → Refines capacity readonly w.chains w (process_queue capacity readonly w)
unfolding process_queue
process_queue-Refines capacity readonly w =
    process_chains-Refines capacity readonly w.chains false w
