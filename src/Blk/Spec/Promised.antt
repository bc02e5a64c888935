-- ===== src/Blk/Spec/Promised.antt =====
-- The requests of src/devices/virtio_blk.rs keep the promise of a block device.
use kitsune.Base.{
  ℕ, ◌*◌, ◌%◌, ◌-◌, ◌≤◌, u32_mod, ◌≡◌, refl, Bool, true, false, not, ◌||◌, Option, none, some, List,
  [], ltb, ◌==◌, length, drop, if◌then◌else◌, bit_and,
}
use kitsune.Blk.Disk.{BlockDisk, sector_size}
use kitsune.Blk.Request.{
  Chain, Served, Handled, VirtioBlkReqHdr, written, failed, io, chain, dispatch, handle_in,
  handle_out, handle_flush, handle_get_id, handle_unknown, handle_request, parse_hdr, hdr_len,
  type_in, type_out, type_flush, type_get_id, f_ro,
}
use kitsune.Blk.Request.Reads.{ReadReply, handle_in-answered}
use kitsune.Blk.Request.Writes.{WriteAnswer, handle_out-answered}
use kitsune.Blk.Request.Kept.{handle_flush-Same, handle_get_id-Same, handle_unknown-Same}
use kitsune.Blk.Spec.{
  Request, Promise, read_request, write_request, other_request, malformed, asked_by, request_of,
  driver_ro,
}

-- A request keeps the promise `ask` from the state `s`.
abbrev Keeps : ℕ → Bool → Request → Served → Handled → Type 0
Keeps capacity ro ask s h =
    Promise capacity ro ask h.0 h.1.out s.disk.kernel.file h.1.disk.kernel.file

read-Keeps :
    (capacity sector total : ℕ) (ro : Bool) (s : Served) (h : Handled)
    → (h.1.disk.kernel.file ≡ s.disk.kernel.file)
      × ((k : ℕ)
          → h.0 ≡ written k
          → (1 ≤ total)
            × (k ≡ total % u32_mod)
            × ReadReply capacity (sector * sector_size) (total - 1) s.disk.kernel.file h.1.out)
    → Keeps capacity ro (read_request sector total) s h
read-Keeps capacity sector total ro s (written k, t) (same, a) =
    (same, (a k refl).0, (a k refl).1, (a k refl).2)
read-Keeps capacity sector total ro s (failed e, t) (same, a) = same

write-Keeps :
    (capacity sector : ℕ) (ro : Bool) (bytes : List ℕ) (s : Served) (h : Handled)
    → WriteAnswer capacity ro (sector * sector_size) bytes s h
    → Keeps capacity ro (write_request sector bytes) s h
write-Keeps capacity sector ro bytes s (written k, t) a =
    (a.kept, (a.answer k refl).0, (a.answer k refl).1)
write-Keeps capacity sector ro bytes s (failed e, t) a = a.kept

dispatch-Keeps :
    (capacity : ℕ) (readonly : Bool) (features : ℕ) (hdr : VirtioBlkReqHdr) (total : ℕ)
    (read_ok : Bool) (bytes : List ℕ) (s : Served)
    → s.out ≡ []
    → Keeps capacity
        (readonly || not (bit_and features f_ro == 0))
        (asked_by hdr total bytes)
        s
        (dispatch capacity readonly features hdr total read_ok bytes s)
unfolding dispatch
dispatch-Keeps capacity readonly features hdr total read_ok bytes s fresh =
    by (hdr.type_ == type_in) (hdr.type_ == type_out) (hdr.type_ == type_flush)
      (hdr.type_ == type_get_id)
  where
    ro : Bool
    ro = readonly || not (bit_and features f_ro == 0)

    by :
        (b c e f : Bool)
        → Keeps capacity ro
            (if b
              then read_request hdr.sector total
              else if c
              then write_request hdr.sector bytes
              else other_request)
            s
            (if b
              then handle_in capacity hdr.sector total s
              else if c
              then handle_out capacity readonly features hdr.sector read_ok bytes s
              else if e
              then handle_flush readonly features s
              else if f
              then handle_get_id total s
              else handle_unknown total s)
    by true c e f =
        read-Keeps capacity hdr.sector total ro s (handle_in capacity hdr.sector total s)
          (handle_in-answered capacity hdr.sector total s fresh)
    by false true e f =
        write-Keeps capacity hdr.sector ro bytes s
          (handle_out capacity readonly features hdr.sector read_ok bytes s)
          (handle_out-answered capacity readonly features hdr.sector read_ok bytes s fresh)
    by false false true f = handle_flush-Same readonly features s
    by false false false true = handle_get_id-Same total s
    by false false false false = handle_unknown-Same total s

-- Whatever the chain holds and the kernel answers, a request ends with the image, the answer and the
-- bytes to the guest that the block device promises: reads leave the image alone and are answered
-- with its bytes or with zeros and an error, writes change only the bytes that they name and that
-- may be written, and all else leaves the image alone.
pub handle_request-Promise :
    (capacity : ℕ) (readonly : Bool) (c : Chain) (d : BlockDisk)
    → Promise capacity
        (driver_ro readonly c)
        (request_of c)
        (handle_request capacity readonly c d).0
        (handle_request capacity readonly c d).1.out
        d.kernel.file
        (handle_request capacity readonly c d).1.disk.kernel.file
unfolding handle_request
handle_request-Promise capacity readonly c d = by c.readable
  where
    s : Served
    s = record { disk = d; writes = c.writes; out = [] }

    long :
        (raw : List ℕ) (total : ℕ) (b : Bool)
        → Keeps capacity
            (driver_ro readonly c)
            (if b then malformed else asked_by (parse_hdr raw) total (drop hdr_len raw))
            s
            (if b
              then (failed io, s)
              else dispatch capacity readonly c.driver_features
                  (parse_hdr raw)
                  total
                  c.read_ok
                  (drop hdr_len raw)
                  s)
    long raw total true = (refl, refl)
    long raw total false =
        dispatch-Keeps capacity readonly c.driver_features (parse_hdr raw) total c.read_ok
          (drop hdr_len raw) s refl

    avail :
        (raw : List ℕ) (o : Option ℕ)
        → Keeps capacity
            (driver_ro readonly c)
            (elim o as (λ _. Request) [
              | none ↦ malformed
              | some total ↦
                  if ltb (length raw) hdr_len
                  then malformed
                  else asked_by (parse_hdr raw) total (drop hdr_len raw)
            ])
            s
            (elim o as (λ _. Handled) [
              | none ↦ (failed chain, s)
              | some total ↦
                  if ltb (length raw) hdr_len
                  then (failed io, s)
                  else dispatch capacity readonly c.driver_features
                      (parse_hdr raw)
                      total
                      c.read_ok
                      (drop hdr_len raw)
                      s
            ])
    avail raw none = (refl, refl)
    avail raw (some total) = long raw total (ltb (length raw) hdr_len)

    by :
        (o : Option (List ℕ))
        → Keeps capacity
            (driver_ro readonly c)
            (elim o as (λ _. Request) [
              | none ↦ malformed
              | some raw ↦ (elim c.available as (λ _. Request) [
                | none ↦ malformed
                | some total ↦
                    if ltb (length raw) hdr_len
                    then malformed
                    else asked_by (parse_hdr raw) total (drop hdr_len raw)
              ])
            ])
            s
            (elim o as (λ _. Handled) [
              | none ↦ (failed chain, s)
              | some raw ↦ (elim c.available as (λ _. Handled) [
                | none ↦ (failed chain, s)
                | some total ↦
                    if ltb (length raw) hdr_len
                    then (failed io, s)
                    else dispatch capacity readonly c.driver_features
                        (parse_hdr raw)
                        total
                        c.read_ok
                        (drop hdr_len raw)
                        s
              ])
            ])
    by none = (refl, refl)
    by (some raw) = avail raw c.available
