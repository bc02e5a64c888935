-- ===== src/Blk/Request/Kept.antt =====
-- The requests of src/devices/virtio_blk.rs that leave the image alone, and what a flush makes durable.
use kitsune.Base.{
  ℕ, zero, suc, ◌≡◌, refl, ap, sym, ◌∙◌, Bool, true, false, none, some, [], ◌∷◌, ◌++◌, ltb, ◌==◌,
  if◌then◌else◌, arith, bit_and,
}
use kitsune.Blk.Transfer.{ok, err, done_ok}
use kitsune.Blk.Disk.{BlockDisk, Did, bytes_of, zero_scratch, flush_data}
use kitsune.Blk.Disk.Flush.{flush_data-synced, to_sync}
use kitsune.Blk.Request.{
  Served, Handled, written, failed, io, chain, write_all, or_io, as_slice, status_of, reply_status,
  reply, handle_flush, handle_get_id, handle_unknown, pad, after_pad, status_ok, status_ioerr,
  status_unsupp, device_id, f_flush,
}
use kitsune.Blk.Request.Reads.{write_all-disk, reply-Replied, zero_scratch-file}
use kitsune.Blk.Request.Writes.{reply_status-Replied}

-- The image is as it was in `s`.
abbrev pub Same : Served → Handled → Type 0
Same s h = h.1.disk.kernel.file ≡ s.disk.kernel.file

reply_status-Same : (status : ℕ) (s : Served) → Same s (reply_status status s)
reply_status-Same status s = ap (λ d. d.kernel.file) (reply_status-Replied status s).same_disk

pub handle_flush-Same :
    (readonly : Bool) (features : ℕ) (s : Served) → Same s (handle_flush readonly features s)
unfolding handle_flush
handle_flush-Same readonly features s = by (bit_and features f_flush == 0) readonly
  where
    by :
        (unasked ro : Bool)
        → Same s (
            if unasked
            then reply_status status_unsupp s
            else if ro
            then reply_status status_ok s
            else reply_status
                (status_of (flush_data s.disk).0)
                (record s { disk = (flush_data s.disk).1 }))
    by true ro = reply_status-Same status_unsupp s
    by false true = reply_status-Same status_ok s
    by false false =
        reply_status-Same (status_of (flush_data s.disk).0)
          (record s { disk = (flush_data s.disk).1 })
        ∙ (flush_data-synced s.disk).0

pub handle_get_id-Same : (total : ℕ) (s : Served) → Same s (handle_get_id total s)
unfolding handle_get_id
handle_get_id-Same total s = by (ltb total 21)
  where
    by : (b : Bool) → Same s (if b then (failed chain, s) else reply device_id status_ok 21 s)
    by true = refl
    by false = ap (λ d. d.kernel.file) (reply-Replied device_id status_ok 21 s).same_disk

pad-Same : (len : ℕ) (s : Served) → Same s (pad len s)
unfolding pad as_slice
pad-Same len s = by (zero_scratch len s.disk) (zero_scratch-file len s.disk)
  where
    sliced :
        (d : BlockDisk)
        → d.kernel.file ≡ s.disk.kernel.file
        → (b : Bool)
        → Same s (elim (if b then none else some (bytes_of len d.scratch.ptr)) as (λ _. Handled) [
          | none ↦ (failed io, record s { disk = d })
          | some bytes ↦ (written 0, (write_all bytes (record s { disk = d })).1)
        ])
    sliced d same true = same
    sliced d same false =
        ap (λ x. x.kernel.file)
          (write_all-disk (bytes_of len d.scratch.ptr) (record s { disk = d }))
        ∙ same

    by :
        (r : Bool × BlockDisk)
        → r.1.kernel.file ≡ s.disk.kernel.file
        → Same s (
            or_io
              (r.0, record s { disk = r.1 })
              (λ t. (elim (as_slice len t.disk) as (λ _. Handled) [
                | none ↦ (failed io, t)
                | some bytes ↦ (written 0, (write_all bytes t).1)
              ])))
    by (true, d) same = sliced d same (ltb d.scratch.cap len)
    by (false, d) same = same

after_pad-Same : (total : ℕ) (s : Served) (h : Handled) → Same s h → Same s (after_pad total h)
after_pad-Same total s (failed e, t) same = same
after_pad-Same total s (written n, t) same =
    ap (λ x. x.kernel.file) (write_all-disk (status_unsupp ∷ []) t) ∙ same

pub handle_unknown-Same : (total : ℕ) (s : Served) → Same s (handle_unknown total s)
unfolding handle_unknown
handle_unknown-Same zero s = refl
handle_unknown-Same (suc zero) s = after_pad-Same 1 s (written 0, s) refl
handle_unknown-Same (suc (suc n)) s =
    after_pad-Same (suc (suc n)) s (pad (suc n) s) (pad-Same (suc n) s)

-- A flush that was negotiated, of a disk that is not read-only: if the guest gets the status of
-- success, the data of every descriptor in use has been made durable.
pub handle_flush-durable :
    (features k : ℕ) (s : Served)
    → s.out ≡ []
    → (bit_and features f_flush == 0) ≡ false
    → (handle_flush false features s).0 ≡ written k
    → (handle_flush false features s).1.out ≡ status_ok ∷ []
    → (handle_flush false features s).1.disk.kernel.synced ≡ s.disk.kernel.synced ++ to_sync s.disk
unfolding handle_flush
handle_flush-durable features k s fresh asked = by (bit_and features f_flush == 0) asked
  where
    t : Served
    t = record s { disk = (flush_data s.disk).1 }

    flushed :
        (r : Did)
        → (r.0 ≡ done_ok → r.1.kernel.synced ≡ s.disk.kernel.synced ++ to_sync s.disk)
        → (reply_status (status_of r.0) (record s { disk = r.1 })).0 ≡ written k
        → (reply_status (status_of r.0) (record s { disk = r.1 })).1.out ≡ status_ok ∷ []
        → (reply_status (status_of r.0) (record s { disk = r.1 })).1.disk.kernel.synced
          ≡ s.disk.kernel.synced ++ to_sync s.disk
    flushed (ok u, d) synced e o =
        ap (λ x. x.kernel.synced) (reply_status-Replied status_ok (record s { disk = d })).same_disk
        ∙ synced refl
    flushed (err x, d) synced e o =
        let p = reply_status-Replied (status_of (err x)) (record s { disk = d }) in
        let bad : status_ioerr ∷ [] ≡ status_ok ∷ [] =
          sym ((p.out k e).1 ∙ ap (λ l. l ++ status_ioerr ∷ []) fresh) ∙ o in
        absurd (ground arith)

    by :
        (b : Bool)
        → b ≡ false
        → (if b
            then reply_status status_unsupp s
            else reply_status (status_of (flush_data s.disk).0) t).0
          ≡ written k
        → (if b
            then reply_status status_unsupp s
            else reply_status (status_of (flush_data s.disk).0) t).1.out
          ≡ status_ok ∷ []
        → (if b
            then reply_status status_unsupp s
            else reply_status (status_of (flush_data s.disk).0) t).1.disk.kernel.synced
          ≡ s.disk.kernel.synced ++ to_sync s.disk
    by true no_ e o = cc
    by false no_ e o = flushed (flush_data s.disk) (flush_data-synced s.disk).1 e o
