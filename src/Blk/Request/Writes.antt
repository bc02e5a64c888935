-- ===== src/Blk/Request/Writes.antt =====
-- What a write request of src/devices/virtio_blk.rs does to the image, and what the guest gets.
use kitsune.Base.{
  ℕ, suc, ◌+◌, ◌*◌, ◌≤◌, ◌<◌, ◌≡◌, refl, ap, sym, ◌∙◌, inl, inr, ◌⊎◌, Bool, true, false, not, ◌&&◌,
  ◌||◌, none, some, List, [], ◌∷◌, ◌++◌, ltb, leb, ◌==◌, length, get_elem?, if◌then◌else◌,
  Bool-cases, arith, u64_mod, bit_and,
}
use kitsune.Blk.Transfer.{ok, err, Bytes}
use kitsune.Blk.Disk.{BlockDisk, Did, ensure, bytes_of, sector_size, write_at}
use kitsune.Blk.Disk.Rw.{Writes, write_at-Writes, ensure-file}
use kitsune.Blk.Request.{
  Served, Handled, BlockReqError, written, failed, io, write_all, or_io, offset_of, status_of,
  reply_status, write_range, fill_scratch, handle_out, status_ok, status_ioerr, f_ro,
}
use kitsune.Blk.Request.Reads.{bytes_of-ext, Replied, write_all-disk, write_all-out, written_inj}

pub reply_status-Replied : (status : ℕ) (s : Served) → Replied [] status 1 s (reply_status status s)
unfolding reply_status
reply_status-Replied status s =
    by (write_all (status ∷ []) s) (write_all-disk (status ∷ []) s) (write_all-out (status ∷ []) s)
  where
    by :
        (r : Bool × Served)
        → r.1.disk ≡ s.disk
        → (r.0 ≡ true → r.1.out ≡ s.out ++ status ∷ [])
        → Replied [] status 1 s (or_io r (λ t. (written 1, t)))
    by (true, t) d o = record { same_disk = d; out = λ k e. (sym (written_inj 1 k e), o refl) }
    by (false, t) d o = record { same_disk = d; out = λ k no. cc }

-- A list over a buffer, read back.
bytes_of-get_elem :
    (bytes : List ℕ) (f : Bytes)
    → bytes_of (length bytes) (λ i. elim (get_elem? bytes i) [ none ↦ f i | some b ↦ b ]) ≡ bytes
bytes_of-get_elem [] f = refl
bytes_of-get_elem (b ∷ bytes) f = ap (λ l. b ∷ l) (bytes_of-get_elem bytes (λ i. f (suc i)))

-- The byte `p` of an image is one that a write of `len` bytes at `offset` may change.
pub record MayWrite (capacity : ℕ) (ro : Bool) (offset len p : ℕ) : Type 0 where
  pub writable : ro ≡ false
  pub inside : offset + len ≤ capacity * sector_size
  pub from : offset ≤ p
  pub to : p < offset + len

-- What the guest gets for a write of `bytes`: that the image `file` holds them, or an error.
pub data WriteReply (capacity : ℕ) (ro : Bool) (offset : ℕ) (bytes : List ℕ) (file : Bytes)
    (out : List ℕ) : Type 0 where
  stored :
      ro ≡ false
      → offset + length bytes ≤ capacity * sector_size
      → bytes_of (length bytes) (λ i. file (offset + i)) ≡ bytes
      → out ≡ status_ok ∷ []
      → WriteReply capacity ro offset bytes file out
  refused : out ≡ status_ioerr ∷ [] → WriteReply capacity ro offset bytes file out

pub record WriteAnswer (capacity : ℕ) (ro : Bool) (offset : ℕ) (bytes : List ℕ) (s : Served)
    (h : Handled) : Type 0 where
  pub kept :
      (p : ℕ)
      → (h.1.disk.kernel.file p ≡ s.disk.kernel.file p)
        ⊎ MayWrite capacity ro offset (length bytes) p
  pub answer :
      (k : ℕ)
      → h.0 ≡ written k
      → (k ≡ 1) × WriteReply capacity ro offset bytes h.1.disk.kernel.file h.1.out

-- An answer that leaves the image alone and reports an error.
module _ (capacity : ℕ) (ro : Bool) (offset : ℕ) (bytes : List ℕ) (s : Served)
    (fresh : s.out ≡ []) where
  refused_answer :
      (t : Served)
      → t.disk.kernel.file ≡ s.disk.kernel.file
      → t.out ≡ []
      → WriteAnswer capacity ro offset bytes s (reply_status status_ioerr t)
  refused_answer t same empty =
      let r = reply_status-Replied status_ioerr t in
      record {
        kept = λ p. inl (ap (λ d. d.kernel.file p) r.same_disk ∙ ap (λ f. f p) same);
        answer = λ k e.
            ((r.out k e).0, refused ((r.out k e).1 ∙ ap (λ l. l ++ status_ioerr ∷ []) empty));
      }

  failed_answer :
      (e : BlockReqError) (t : Served)
      → t.disk.kernel.file ≡ s.disk.kernel.file
      → WriteAnswer capacity ro offset bytes s (failed e, t)
  failed_answer e t same = record { kept = λ p. inl (ap (λ f. f p) same); answer = λ k no. cc }

  module _ (d : BlockDisk) (same : d.kernel.file ≡ s.disk.kernel.file)
      (filled : bytes_of (length bytes) d.scratch.ptr ≡ bytes) where
    -- The end of `write_at`, from the state `d`.
    after_write :
        (r : Did)
        → ro ≡ false
        → offset + length bytes ≤ capacity * sector_size
        → Writes offset (length bytes) d.scratch.ptr d.kernel.file r
        → WriteAnswer capacity ro offset bytes s
            (reply_status (status_of r.0) (record s { disk = r.1 }))
    after_write r rw_ inside w =
        let replied = reply_status-Replied (status_of r.0) (record s { disk = r.1 }) in
        record {
          kept = λ p. moved p replied (Bool-cases (leb offset p && ltb p (offset + length bytes)));
          answer = λ k e. (
            (replied.out k e).0,
            outcome r w (reply_status (status_of r.0) (record s { disk = r.1 })) replied.same_disk
                ((replied.out k e).1 ∙ ap (λ l. l ++ status_of r.0 ∷ []) fresh),
          );
        }
      where
        moved :
            (p : ℕ)
            → Replied []
                (status_of r.0)
                1
                (record s { disk = r.1 })
                (reply_status (status_of r.0) (record s { disk = r.1 }))
            → ((leb offset p && ltb p (offset + length bytes)) ≡ true)
              ⊎ ((leb offset p && ltb p (offset + length bytes)) ≡ false)
            → ((reply_status (status_of r.0) (record s { disk = r.1 })).1.disk.kernel.file p
                ≡ s.disk.kernel.file p)
              ⊎ MayWrite capacity ro offset (length bytes) p
        moved p replied (inl in_) =
            inr (record { writable = rw_; inside = inside; from = ground arith; to = ground arith })
        moved p replied (inr out) = inl (
            ap (λ x. x.kernel.file p) replied.same_disk
            ∙ (w.kept p (ground arith) ∙ ap (λ f. f p) same))

        outcome :
            (q : Did)
            → Writes offset (length bytes) d.scratch.ptr d.kernel.file q
            → (h : Handled) → h.1.disk ≡ q.1
            → h.1.out ≡ status_of q.0 ∷ []
            → WriteReply capacity ro offset bytes h.1.disk.kernel.file h.1.out
        outcome (ok u, e) v h eq o =
            stored rw_ inside
              (bytes_of-ext (length bytes) (λ i. h.1.disk.kernel.file (offset + i)) d.scratch.ptr
                  (λ i lt.
                    ap (λ x. x.kernel.file (offset + i)) eq
                    ∙ (v.put refl (offset + i) (omega arith) (omega (arith, lt))
                        ∙ ap d.scratch.ptr (omega arith)))
                ∙ filled)
              o
        outcome (err x, e) v h eq o = refused o

    pub write_range-Answer :
        WriteAnswer capacity ro offset bytes s
          (write_range capacity ro offset (length bytes) (record s { disk = d }))
    unfolding write_range
    write_range-Answer = by (ro || ltb (capacity * sector_size) (offset + length bytes)) refl
      where
        by :
            (b : Bool)
            → b ≡ (ro || ltb (capacity * sector_size) (offset + length bytes))
            → WriteAnswer capacity ro offset bytes s (
                if b
                then reply_status status_ioerr (record s { disk = d })
                else reply_status
                    (status_of (write_at offset (length bytes) d).0)
                    (record s { disk = (write_at offset (length bytes) d).1 }))
        by true e = refused_answer (record s { disk = d }) same fresh
        by false e =
            after_write (write_at offset (length bytes) d) (ground arith) (ground arith)
              (write_at-Writes offset (length bytes) d)

filled_file : (bytes : List ℕ) (d : BlockDisk) → (fill_scratch bytes d).kernel.file ≡ d.kernel.file
unfolding fill_scratch
filled_file bytes d = refl

filled_bytes :
    (bytes : List ℕ) (d : BlockDisk)
    → bytes_of (length bytes) (fill_scratch bytes d).scratch.ptr ≡ bytes
unfolding fill_scratch
filled_bytes bytes d = bytes_of-get_elem bytes d.scratch.ptr

-- A write request changes no byte of the image but those that it names, and these only where neither
-- the disk nor the negotiated features are read-only and the whole range lies within the disk. If it
-- is answered, then with one byte, the status: it says either that the image holds the bytes of the
-- request at the sector, or that there was an error.
pub handle_out-answered :
    (capacity : ℕ) (readonly : Bool) (features sector : ℕ) (read_ok : Bool) (bytes : List ℕ)
    (s : Served)
    → s.out ≡ []
    → WriteAnswer capacity
        (readonly || not (bit_and features f_ro == 0))
        (sector * sector_size)
        bytes
        s
        (handle_out capacity readonly features sector read_ok bytes s)
unfolding handle_out offset_of
handle_out-answered capacity readonly features sector read_ok bytes s fresh =
    fitted (ensure (length bytes) s.disk) (ensure-file (length bytes) s.disk)
  where
    ro : Bool
    ro = readonly || not (bit_and features f_ro == 0)

    start : ℕ
    start = sector * sector_size

    ranged :
        (d : BlockDisk)
        → d.kernel.file ≡ s.disk.kernel.file
        → bytes_of (length bytes) d.scratch.ptr ≡ bytes
        → (b : Bool)
        → WriteAnswer capacity ro start bytes s
            (elim (if b then some start else none) as (λ _. Handled) [
              | none ↦ (failed io, record s { disk = d })
              | some offset ↦ write_range capacity ro offset (length bytes) (record s { disk = d })
            ])
    ranged d same filled true = write_range-Answer capacity ro start bytes s fresh d same filled
    ranged d same filled false =
        failed_answer capacity ro start bytes s fresh io (record s { disk = d }) same

    read_in :
        (d : BlockDisk)
        → d.kernel.file ≡ s.disk.kernel.file
        → (b : Bool)
        → WriteAnswer capacity ro start bytes s (
            if not b
            then (failed io, record s { disk = d })
            else (elim (offset_of sector (length bytes)) as (λ _. Handled) [
              | none ↦ (failed io, record s { disk = fill_scratch bytes d })
              | some offset ↦
                  write_range capacity ro offset
                    (length bytes)
                    (record s { disk = fill_scratch bytes d })
            ]))
    read_in d same false =
        failed_answer capacity ro start bytes s fresh io (record s { disk = d }) same
    read_in d same true =
        ranged (fill_scratch bytes d) (filled_file bytes d ∙ same) (filled_bytes bytes d)
          (ltb (sector * sector_size) u64_mod && ltb (sector * sector_size + length bytes) u64_mod)

    fitted :
        (r : Bool × BlockDisk)
        → r.1.kernel.file ≡ s.disk.kernel.file
        → WriteAnswer capacity ro start bytes s (
            or_io
              (r.0, record s { disk = r.1 })
              (λ t.
                if not read_ok
                then (failed io, t)
                else (elim (offset_of sector (length bytes)) as (λ _. Handled) [
                  | none ↦ (failed io, record t { disk = fill_scratch bytes t.disk })
                  | some offset ↦
                      write_range capacity ro offset
                        (length bytes)
                        (record t { disk = fill_scratch bytes t.disk })
                ])))
    fitted (true, d) same = read_in d same read_ok
    fitted (false, d) same =
        failed_answer capacity ro start bytes s fresh io (record s { disk = d }) same
