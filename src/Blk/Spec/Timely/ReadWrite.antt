-- ===== src/Blk/Spec/Timely/ReadWrite.antt =====
-- A read and a write of src/devices/virtio_blk.rs fail, or report an error, only where they may.
use kitsune.Base.{
  ℕ, zero, suc, ◌+◌, ◌*◌, ◌-◌, ◌^◌, ◌≤◌, u64_mod, ◌≡◌, refl, ap, sym, ◌∙◌, Bool, true, false, not,
  ◌&&◌, none, some, List, [], ◌∷◌, ◌++◌, ltb, length, drop, replicate, if◌then◌else◌, arith, subst,
}
use kitsune.Blk.Transfer.{Bytes}
use kitsune.Blk.Transfer.Progress.{AllHelp, helping}
use kitsune.Blk.Disk.{BlockDisk, ensure, sector_size, bytes_of}
use kitsune.Blk.Disk.Able.{Room, ensure-fits, ensure-cap, ensure-pwrites}
use kitsune.Blk.Request.{
  Chain, Served, Handled, written, failed, io, offset_of, or_io, fill_scratch, read_range,
  write_range, handle_in, handle_out, status_ok, status_ioerr,
}
use kitsune.Blk.Request.Ready.{
  Takes, Answered, read_range-Answered, read_range-whole, write_range-Answered, write_range-stored,
}
use kitsune.Blk.Spec.{
  Request, Excused, CanRead, CanWrite, ReadRefused, WriteRefused, read_request, write_request,
  driver_ro,
}

-- A success is no error, behind as many bytes.
ok_bytes-not_zeros :
    (n : ℕ) (f : Bytes) → ¬ (bytes_of n f ++ status_ok ∷ [] ≡ replicate n 0 ++ status_ioerr ∷ [])
ok_bytes-not_zeros zero f = λ e. cc
ok_bytes-not_zeros (suc n) f = λ e. ok_bytes-not_zeros n (λ i. f (suc i)) (ap (drop 1) e)

-- A request in the state `s` of the chain `c`, at its start.
module _ (capacity : ℕ) (ro : Bool) (c : Chain) (s : Served) (start : s.writes ≡ c.writes)
    (fresh : s.out ≡ []) where
  abbrev pub Excuses : Request → Handled → Type 0
  Excuses ask h = Excused capacity ro c s.disk ask h.0 h.1.out

  read-Excuses :
      (sector total : ℕ) (h : Handled)
      → (CanRead c s.disk sector total → Answered h)
      → ((k : ℕ)
          → h.0 ≡ written k
          → ¬ ReadRefused capacity s.disk (sector * sector_size) (total - 1) h.1.out)
      → Excuses (read_request sector total) h
  read-Excuses sector total (written k, t) answers fine = fine k refl
  read-Excuses sector total (failed e, t) answers fine = λ can. answers can e refl

  write-Excuses :
      (sector : ℕ) (bytes : List ℕ) (h : Handled)
      → (CanWrite c s.disk sector bytes → Answered h)
      → ((k : ℕ)
          → h.0 ≡ written k
          → ¬ WriteRefused capacity ro s.disk (sector * sector_size) (length bytes) h.1.out)
      → Excuses (write_request sector bytes) h
  write-Excuses sector bytes (written k, t) answers fine = fine k refl
  write-Excuses sector bytes (failed e, t) answers fine = λ can. answers can e refl

  pub handle_in-Excuses :
      (sector total : ℕ) → Excuses (read_request sector total) (handle_in capacity sector total s)
  unfolding handle_in offset_of
  handle_in-Excuses sector zero = λ can. absurd (empty can.0)
    where
      empty : 1 ≤ 0 → ⊥
      empty h = omega (arith, h)
  handle_in-Excuses sector (suc len) =
      by (ltb (sector * sector_size) u64_mod && ltb (sector * sector_size + len) u64_mod) refl
    where
      size : suc len - 1 ≡ len
      size = omega arith

      by :
          (b : Bool)
          → b ≡ (ltb (sector * sector_size) u64_mod && ltb (sector * sector_size + len) u64_mod)
          → Excuses
              (read_request sector (suc len))
              (elim (if b then some (sector * sector_size) else none) as (λ _. Handled) [
                | none ↦ (failed io, s)
                | some offset ↦ read_range capacity offset len s
              ])
      by false e = λ can. absurd (ground (arith, e, can.1))
      by true e =
          read-Excuses sector (suc len) (read_range capacity (sector * sector_size) len s)
            (λ can.
              let (_, fits, room, takes) = can in
              read_range-Answered capacity (sector * sector_size) len s
                (subst (λ n. Room n s.disk) size room) (subst (Takes 2) (sym start) takes))
            (λ k w refused.
              let (error, inside, room, able) =
                subst
                  (λ n.
                    ReadRefused capacity s.disk (sector * sector_size) n
                      (read_range capacity (sector * sector_size) len s).1.out)
                  size refused in
              ok_bytes-not_zeros len (λ i. s.disk.kernel.file (sector * sector_size + i))
                (sym (
                    read_range-whole capacity (sector * sector_size) len s inside room able fresh k
                      w)
                  ∙ error))

  -- A write request, when the buffer is as `d` has it.
  module _ (sector : ℕ) (bytes : List ℕ) (d : BlockDisk) (fits : length bytes ≤ d.scratch.cap)
      (same : d.kernel.pwrites ≡ s.disk.kernel.pwrites) where
    filled : Served
    filled = record s { disk = fill_scratch bytes d }

    write_range-Excuses :
        Excuses
          (write_request sector bytes)
          (write_range capacity ro (sector * sector_size) (length bytes) filled)
    unfolding filled fill_scratch
    write_range-Excuses =
        write-Excuses sector bytes
          (write_range capacity ro (sector * sector_size) (length bytes) filled)
          (λ can.
            let (_, _, _, takes) = can in
            write_range-Answered capacity (sector * sector_size) (length bytes) ro filled
              (subst (Takes 1) (sym start) takes))
          (λ k w refused.
            let (error, rw_, inside, able) = refused in
            ok_bytes-not_zeros 0 (λ i. 0)
              (sym (
                  write_range-stored capacity (sector * sector_size) (length bytes) ro filled rw_
                    inside fits
                    (subst
                      (λ l.
                        (sector * sector_size + length bytes ≤ 2 ^ 63)
                        × AllHelp l
                        × (length bytes ≤ helping l))
                      (sym same) able)
                    fresh k w)
                ∙ error))

    ranged-Excuses :
        (b : Bool)
        → b ≡ (
            ltb (sector * sector_size) u64_mod && ltb (sector * sector_size + length bytes) u64_mod)
        → Excuses
            (write_request sector bytes)
            (elim (if b then some (sector * sector_size) else none) as (λ _. Handled) [
              | none ↦ (failed io, filled)
              | some offset ↦ write_range capacity ro offset (length bytes) filled
            ])
    ranged-Excuses true e = write_range-Excuses
    ranged-Excuses false e = λ can. absurd (ground (arith, e, can.1))

pub handle_out-Excuses :
    (capacity : ℕ) (readonly : Bool) (c : Chain) (s : Served) (start : s.writes ≡ c.writes)
    (fresh : s.out ≡ []) (sector : ℕ) (bytes : List ℕ)
    → Excuses capacity
        (driver_ro readonly c)
        c
        s
        start
        fresh
        (write_request sector bytes)
        (handle_out capacity readonly c.driver_features sector c.read_ok bytes s)
unfolding handle_out offset_of filled
handle_out-Excuses capacity readonly c s start fresh sector bytes =
    fitted (ensure n s.disk) (ensure-fits n s.disk) (ensure-cap n s.disk) (ensure-pwrites n s.disk)
  where
    n : ℕ
    n = length bytes

    ro : Bool
    ro = driver_ro readonly c

    Keeps : Handled → Type 0
    Keeps h = Excuses capacity ro c s start fresh (write_request sector bytes) h

    read_in :
        (d : BlockDisk)
        → n ≤ d.scratch.cap
        → d.kernel.pwrites ≡ s.disk.kernel.pwrites
        → (b : Bool) → b ≡ c.read_ok
        → Keeps (
            if not b
            then (failed io, record s { disk = d })
            else (elim (offset_of sector n) as (λ _. Handled) [
              | none ↦ (failed io, record s { disk = fill_scratch bytes d })
              | some offset ↦
                  write_range capacity ro offset n (record s { disk = fill_scratch bytes d })
            ]))
    read_in d fits same false e = λ can. absurd (ground (arith, e, can.0))
    read_in d fits same true e =
        ranged-Excuses capacity ro c s start fresh sector bytes d fits same
          (ltb (sector * sector_size) u64_mod && ltb (sector * sector_size + n) u64_mod) refl

    fitted :
        (r : Bool × BlockDisk)
        → (Room n s.disk → r.0 ≡ true)
        → (r.0 ≡ true → n ≤ r.1.scratch.cap)
        → r.1.kernel.pwrites ≡ s.disk.kernel.pwrites
        → Keeps (
            or_io
              (r.0, record s { disk = r.1 })
              (λ t.
                if not c.read_ok
                then (failed io, t)
                else (elim (offset_of sector n) as (λ _. Handled) [
                  | none ↦ (failed io, record t { disk = fill_scratch bytes t.disk })
                  | some offset ↦
                      write_range capacity ro offset n
                        (record t { disk = fill_scratch bytes t.disk })
                ])))
    fitted (true, d) room cap same = read_in d (cap refl) same c.read_ok refl
    fitted (false, d) room cap same = λ can. let (_, _, r, _) = can in absurd (nothing (room r))
      where
        nothing : false ≡ true → ⊥
        nothing e = cc
