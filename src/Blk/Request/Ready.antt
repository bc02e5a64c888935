-- ===== src/Blk/Request/Ready.antt =====
-- When a read and a write of src/devices/virtio_blk.rs are answered, and when without an error.
use kitsune.Base.{
  ℕ, zero, suc, ◌+◌, ◌*◌, ◌%◌, ◌≤◌, ◌≡◌, ◌≢◌, refl, ap, ◌∙◌, inl, Bool, true, false, ◌||◌, none,
  some, List, [], ◌∷◌, ◌++◌, ltb, if◌then◌else◌, arith, u32_mod,
}
use kitsune.Blk.Transfer.{ok, err, done_ok}
use kitsune.Blk.Disk.{BlockDisk, Did, zero_scratch, bytes_of, sector_size, read_at, write_at}
use kitsune.Blk.Disk.Able.{
  Room, Readable, Writable, zero_scratch-fits, zero_scratch-cap, read_at-cap, read_at-ok,
  write_at-ok,
}
use kitsune.Blk.Disk.Rw.{Reads, read_at-Reads}
use kitsune.Blk.Request.{
  Served, Handled, BlockReqError, written, failed, io, write_all, or_io, with_disk, as_slice, reply,
  reply_data, reply_status, status_of, after_read, read_range, write_range, status_ok, status_ioerr,
}
use kitsune.Blk.Request.Reads.{reply_data-Replied}
use kitsune.Blk.Request.Writes.{reply_status-Replied}

-- The next `n` calls of `write_all` succeed.
abbrev pub Takes : ℕ → List Bool → Type 0
Takes zero writes = Unit
Takes (suc n) [] = ⊥
Takes (suc n) (b ∷ writes) = (b ≡ true) × Takes n writes

-- A request has been answered.
abbrev pub Answered : Handled → Type 0
Answered h = (e : BlockReqError) → h.0 ≢ failed e

write_all-Takes :
    (n : ℕ) (bytes : List ℕ) (s : Served)
    → Takes (suc n) s.writes
    → ((write_all bytes s).0 ≡ true) × Takes n (write_all bytes s).1.writes
unfolding write_all
write_all-Takes n bytes s t = by s.writes refl t
  where
    by :
        (l : List Bool)
        → s.writes ≡ l
        → Takes (suc n) l
        → ((write_all bytes s).0 ≡ true) × Takes n (write_all bytes s).1.writes
    by [] e t = absurd t
    by (true ∷ rest) e t = rw e (refl, t.1)
    by (false ∷ rest) e t = absurd (nothing t.0)
      where
        nothing : false ≡ true → ⊥
        nothing x = cc

reply-Answered :
    (bytes : List ℕ) (status n : ℕ) (s : Served)
    → Takes 2 s.writes
    → Answered (reply bytes status n s)
unfolding reply
reply-Answered bytes status n s t =
    let first = write_all-Takes 1 bytes s t in
    by (write_all bytes s) first.0 (write_all-Takes 0 (status ∷ []) (write_all bytes s).1 first.1).0
  where
    second : (r : Bool × Served) → r.0 ≡ true → Answered (or_io r (λ u. (written n, u)))
    second (true, u) e = λ x. cc
    second (false, u) e = cc

    by :
        (r : Bool × Served)
        → r.0 ≡ true
        → (write_all (status ∷ []) r.1).0 ≡ true
        → Answered (or_io r (λ t. or_io (write_all (status ∷ []) t) (λ u. (written n, u))))
    by (true, t) e f = second (write_all (status ∷ []) t) f
    by (false, t) e f = cc

pub reply_status-Answered :
    (status : ℕ) (s : Served) → Takes 1 s.writes → Answered (reply_status status s)
unfolding reply_status
reply_status-Answered status s t =
    by (write_all (status ∷ []) s) (write_all-Takes 0 (status ∷ []) s t).0
  where
    by : (r : Bool × Served) → r.0 ≡ true → Answered (or_io r (λ t. (written 1, t)))
    by (true, u) e = λ x. cc
    by (false, u) e = cc

reply_data-Answered :
    (len status : ℕ) (s : Served)
    → len ≤ s.disk.scratch.cap
    → Takes 2 s.writes
    → Answered (reply_data len status s)
unfolding reply_data as_slice
reply_data-Answered len status s fits t = by (ltb s.disk.scratch.cap len) (ground (arith, fits))
  where
    n : ℕ
    n = (len + 1) % u32_mod

    by :
        (b : Bool)
        → b ≡ false
        → Answered
            (elim (if b then none else some (bytes_of len s.disk.scratch.ptr)) as (λ _. Handled) [
              | none ↦ (failed io, s)
              | some bytes ↦ reply bytes status n s
            ])
    by true e = cc
    by false e = reply-Answered (bytes_of len s.disk.scratch.ptr) status n s t

module _ (capacity offset len : ℕ) (s : Served) where
  pub read_range-Answered :
      Room len s.disk → Takes 2 s.writes → Answered (read_range capacity offset len s)
  unfolding read_range after_read
  read_range-Answered room t =
      by (ltb (capacity * sector_size) (offset + len)) (zero_scratch len s.disk)
        (zero_scratch-fits len s.disk room) (zero_scratch-cap len s.disk room)
        (read_at offset len s.disk) (read_at-cap offset len s.disk room)
    where
      by :
          (b : Bool) (z : Bool × BlockDisk)
          → z.0 ≡ true
          → len ≤ z.1.scratch.cap
          → (r : Did) → len ≤ r.1.scratch.cap
          → Answered (
              if b
              then or_io (z.0, record s { disk = z.1 }) (reply_data len status_ioerr)
              else after_read len (r.0, record s { disk = r.1 }))
      by true (true, z) e h r k = reply_data-Answered len status_ioerr (record s { disk = z }) h t
      by true (false, z) e h r k = cc
      by false z e h (ok u, d) k = reply_data-Answered len status_ok (record s { disk = d }) k t
      by false z e h (err x, d) k =
          reply_data-Answered len status_ioerr (record s { disk = (zero_scratch len d).1 })
            (zero_scratch-cap len d (inl k)) t

  -- The answer, if the range lies in the disk and the kernel reads it.
  pub read_range-whole :
      offset + len ≤ capacity * sector_size
      → Room len s.disk
      → Readable offset len s.disk
      → s.out ≡ []
      → (k : ℕ) → (read_range capacity offset len s).0 ≡ written k
      → (read_range capacity offset len s).1.out
        ≡ bytes_of len (λ i. s.disk.kernel.file (offset + i)) ++ status_ok ∷ []
  unfolding read_range after_read
  read_range-whole inside room able fresh =
      by (ltb (capacity * sector_size) (offset + len)) (ground (arith, inside))
        (read_at offset len s.disk) (read_at-ok offset len s.disk room able)
        (read_at-Reads offset len s.disk)
    where
      whole : Handled → Type 0
      whole h =
          (k : ℕ)
          → h.0 ≡ written k
          → h.1.out ≡ bytes_of len (λ i. s.disk.kernel.file (offset + i)) ++ status_ok ∷ []

      by :
          (b : Bool)
          → b ≡ false
          → (r : Did) → r.0 ≡ done_ok
          → Reads offset len s.disk.kernel.file r
          → whole (
              if b
              then or_io (with_disk (zero_scratch len) s) (reply_data len status_ioerr)
              else after_read len (r.0, record s { disk = r.1 }))
      by true e r f reads = cc
      by false e (ok u, d) f reads =
          let p =
            reply_data-Replied len (λ i. s.disk.kernel.file (offset + i)) status_ok
              (record s { disk = d }) (λ fits. reads.got refl) in
          λ k w.
            (p.out k w).1
            ∙ ap (λ l. l ++ (bytes_of len (λ i. s.disk.kernel.file (offset + i)) ++ status_ok ∷ []))
                fresh
      by false e (err x, d) f reads = cc

module _ (capacity offset len : ℕ) (ro : Bool) (s : Served) where
  pub write_range-Answered : Takes 1 s.writes → Answered (write_range capacity ro offset len s)
  unfolding write_range
  write_range-Answered t = by (ro || ltb (capacity * sector_size) (offset + len))
    where
      by :
          (b : Bool)
          → Answered (
              if b
              then reply_status status_ioerr s
              else reply_status
                  (status_of (write_at offset len s.disk).0)
                  (record s { disk = (write_at offset len s.disk).1 }))
      by true = reply_status-Answered status_ioerr s t
      by false =
          reply_status-Answered (status_of (write_at offset len s.disk).0)
            (record s { disk = (write_at offset len s.disk).1 }) t

  -- The answer, if the range may be written and the kernel writes it.
  pub write_range-stored :
      ro ≡ false
      → offset + len ≤ capacity * sector_size
      → len ≤ s.disk.scratch.cap
      → Writable offset len s.disk
      → s.out ≡ []
      → (k : ℕ) → (write_range capacity ro offset len s).0 ≡ written k
      → (write_range capacity ro offset len s).1.out ≡ status_ok ∷ []
  unfolding write_range
  write_range-stored rw_ inside fits able fresh =
      by (ro || ltb (capacity * sector_size) (offset + len)) (ground (arith, rw_, inside))
        (write_at offset len s.disk) (write_at-ok offset len s.disk fits able)
    where
      by :
          (b : Bool)
          → b ≡ false
          → (r : Did) → r.0 ≡ done_ok
          → (k : ℕ)
          → (if b
              then reply_status status_ioerr s
              else reply_status (status_of r.0) (record s { disk = r.1 })).0
            ≡ written k
          → (if b
              then reply_status status_ioerr s
              else reply_status (status_of r.0) (record s { disk = r.1 })).1.out
            ≡ status_ok ∷ []
      by true e r f = cc
      by false e (ok u, d) f = λ k w.
          ((reply_status-Replied status_ok (record s { disk = d })).out k w).1
          ∙ ap (λ l. l ++ status_ok ∷ []) fresh
      by false e (err x, d) f = cc
