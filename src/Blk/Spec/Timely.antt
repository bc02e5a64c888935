-- ===== src/Blk/Spec/Timely.antt =====
-- The requests of src/devices/virtio_blk.rs fail, or report an error, only where a block device may.
pub mod ReadWrite
use kitsune.Base.{
  ℕ, ◌≡◌, refl, Bool, true, false, Option, none, some, List, [], ltb, ◌==◌, length, drop,
  if◌then◌else◌,
}
use kitsune.Blk.Disk.{BlockDisk}
use kitsune.Blk.Request.{
  Chain, Served, Handled, VirtioBlkReqHdr, failed, io, chain, dispatch, handle_in, handle_out,
  handle_flush, handle_get_id, handle_unknown, handle_request, parse_hdr, hdr_len, type_in,
  type_out, type_flush, type_get_id,
}
use kitsune.Blk.Spec.{
  Request, Excused, read_request, write_request, other_request, malformed, asked_by, request_of,
  driver_ro,
}
use kitsune.Blk.Spec.Timely.ReadWrite.{Excuses, handle_in-Excuses, handle_out-Excuses}

dispatch-Excuses :
    (capacity : ℕ) (readonly : Bool) (c : Chain) (s : Served) (start : s.writes ≡ c.writes)
    (fresh : s.out ≡ []) (hdr : VirtioBlkReqHdr) (total : ℕ) (bytes : List ℕ)
    → Excuses capacity
        (driver_ro readonly c)
        c
        s
        start
        fresh
        (asked_by hdr total bytes)
        (dispatch capacity readonly c.driver_features hdr total c.read_ok bytes s)
unfolding dispatch
dispatch-Excuses capacity readonly c s start fresh hdr total bytes =
    by (hdr.type_ == type_in) (hdr.type_ == type_out) (
      if hdr.type_ == type_flush
      then handle_flush readonly c.driver_features s
      else if hdr.type_ == type_get_id
      then handle_get_id total s
      else handle_unknown total s)
  where
    by :
        (b e : Bool) (other : Handled)
        → Excuses capacity
            (driver_ro readonly c)
            c
            s
            start
            fresh
            (if b
              then read_request hdr.sector total
              else if e
              then write_request hdr.sector bytes
              else other_request)
            (if b
              then handle_in capacity hdr.sector total s
              else if e
              then handle_out capacity readonly c.driver_features hdr.sector c.read_ok bytes s
              else other)
    by true e other =
        handle_in-Excuses capacity (driver_ro readonly c) c s start fresh hdr.sector total
    by false true other = handle_out-Excuses capacity readonly c s start fresh hdr.sector bytes
    by false false other = tt

-- Every read and write is answered, and without an error, unless there is a reason for it.
pub handle_request-Excused :
    (capacity : ℕ) (readonly : Bool) (c : Chain) (d : BlockDisk)
    → Excused capacity
        (driver_ro readonly c)
        c
        d
        (request_of c)
        (handle_request capacity readonly c d).0
        (handle_request capacity readonly c d).1.out
unfolding handle_request
handle_request-Excused capacity readonly c d = by c.readable
  where
    s : Served
    s = record { disk = d; writes = c.writes; out = [] }

    Keeps : Request → Handled → Type 0
    Keeps ask h = Excused capacity (driver_ro readonly c) c d ask h.0 h.1.out

    long :
        (raw : List ℕ) (total : ℕ) (b : Bool)
        → Keeps (if b then malformed else asked_by (parse_hdr raw) total (drop hdr_len raw)) (
            if b
            then (failed io, s)
            else dispatch capacity readonly c.driver_features
                (parse_hdr raw)
                total
                c.read_ok
                (drop hdr_len raw)
                s)
    long raw total true = tt
    long raw total false =
        dispatch-Excuses capacity readonly c s refl refl (parse_hdr raw) total (drop hdr_len raw)

    avail :
        (raw : List ℕ) (o : Option ℕ)
        → Keeps
            (elim o as (λ _. Request) [
              | none ↦ malformed
              | some total ↦
                  if ltb (length raw) hdr_len
                  then malformed
                  else asked_by (parse_hdr raw) total (drop hdr_len raw)
            ])
            (elim o as (λ _. Handled) [
              | none ↦ (failed chain, s)
              | some total ↦
                  if ltb (length raw) hdr_len
                  then (failed io, s)
                  else dispatch capacity readonly c.driver_features
                      (parse_hdr raw)
                      total
                      c.read_ok
                      (drop hdr_len raw)
                      s
            ])
    avail raw none = tt
    avail raw (some total) = long raw total (ltb (length raw) hdr_len)

    by :
        (o : Option (List ℕ))
        → Keeps
            (elim o as (λ _. Request) [
              | none ↦ malformed
              | some raw ↦ (elim c.available as (λ _. Request) [
                | none ↦ malformed
                | some total ↦
                    if ltb (length raw) hdr_len
                    then malformed
                    else asked_by (parse_hdr raw) total (drop hdr_len raw)
              ])
            ])
            (elim o as (λ _. Handled) [
              | none ↦ (failed chain, s)
              | some raw ↦ (elim c.available as (λ _. Handled) [
                | none ↦ (failed chain, s)
                | some total ↦
                    if ltb (length raw) hdr_len
                    then (failed io, s)
                    else dispatch capacity readonly c.driver_features
                        (parse_hdr raw)
                        total
                        c.read_ok
                        (drop hdr_len raw)
                        s
              ])
            ])
    by none = tt
    by (some raw) = avail raw c.available
