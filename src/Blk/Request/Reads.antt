-- ===== src/Blk/Request/Reads.antt =====
-- What the guest gets for a read request of src/devices/virtio_blk.rs.
use kitsune.Base.{
  ℕ, zero, suc, ◌+◌, ◌-◌, ◌*◌, ◌%◌, ◌≤◌, ◌<◌, ◌≡◌, refl, ap, sym, ◌∙◌, Bool, true, false, ◌&&◌,
  none, some, List, [], ◌∷◌, ◌++◌, append_assoc, ltb, if◌then◌else◌, arith, replicate, u32_mod,
  u64_mod, subst,
}
use kitsune.Blk.Transfer.{ok, err, done_ok, Bytes}
use kitsune.Blk.Disk.{BlockDisk, Did, ensure, zero_scratch, bytes_of, sector_size, read_at}
use kitsune.Blk.Disk.Rw.{Reads, read_at-Reads}
use kitsune.Blk.Request.{
  Served, Handled, written, failed, io, write_all, or_io, with_disk, offset_of, as_slice, reply,
  reply_data, after_read, read_range, handle_in, status_ok, status_ioerr,
}

pub bytes_of-ext :
    (n : ℕ) (f g : Bytes) → ((i : ℕ) → i < n → f i ≡ g i) → bytes_of n f ≡ bytes_of n g
bytes_of-ext zero f g h = refl
bytes_of-ext (suc n) f g h =
    ap (λ b. b ∷ bytes_of n (λ i. f (suc i))) (h 0 (omega arith))
    ∙ ap (λ l. g 0 ∷ l)
        (bytes_of-ext n (λ i. f (suc i)) (λ i. g (suc i)) (λ i lt. h (suc i) (omega (arith, lt))))

pub bytes_of-zeros : (n : ℕ) → bytes_of n (λ i. 0) ≡ replicate n 0
bytes_of-zeros zero = refl
bytes_of-zeros (suc n) = ap (λ l. 0 ∷ l) (bytes_of-zeros n)

-- The buffer holds `src` wherever it is large enough to be read.
abbrev pub Holds : ℕ → Bytes → BlockDisk → Type 0
Holds len src d = len ≤ d.scratch.cap → (i : ℕ) → i < len → d.scratch.ptr i ≡ src i

-- A reply of `bytes` and a status, returned with the length `n`.
pub record Replied (bytes : List ℕ) (status n : ℕ) (s : Served) (h : Handled) : Type 0 where
  pub same_disk : h.1.disk ≡ s.disk
  pub out : (k : ℕ) → h.0 ≡ written k → (k ≡ n) × (h.1.out ≡ s.out ++ (bytes ++ status ∷ []))

pub write_all-disk : (bytes : List ℕ) (s : Served) → (write_all bytes s).1.disk ≡ s.disk
unfolding write_all
write_all-disk bytes s = ground arith

pub write_all-out :
    (bytes : List ℕ) (s : Served)
    → (write_all bytes s).0 ≡ true
    → (write_all bytes s).1.out ≡ s.out ++ bytes
unfolding write_all
write_all-out bytes s e = ground arith

pub written_inj : (j k : ℕ) → written j ≡ written k → j ≡ k
written_inj j k e = ground arith

pub reply-Replied :
    (bytes : List ℕ) (status n : ℕ) (s : Served) → Replied bytes status n s (reply bytes status n s)
unfolding reply
reply-Replied bytes status n s =
    first (write_all bytes s) (write_all-disk bytes s) (write_all-out bytes s)
  where
    second :
        (t : Served) (r : Bool × Served)
        → t.disk ≡ s.disk
        → t.out ≡ s.out ++ bytes
        → r.1.disk ≡ t.disk
        → (r.0 ≡ true → r.1.out ≡ t.out ++ status ∷ [])
        → Replied bytes status n s (or_io r (λ u. (written n, u)))
    second t (true, u) d o d' o' = record {
      same_disk = d' ∙ d;
      out = λ k e. (
        sym (written_inj n k e),
        o' refl ∙ (ap (λ l. l ++ status ∷ []) o ∙ append_assoc s.out bytes (status ∷ [])),
      );
    }
    second t (false, u) d o d' o' = record { same_disk = d' ∙ d; out = λ k no. cc }

    first :
        (r : Bool × Served)
        → r.1.disk ≡ s.disk
        → (r.0 ≡ true → r.1.out ≡ s.out ++ bytes)
        → Replied bytes status n s
            (or_io r (λ t. or_io (write_all (status ∷ []) t) (λ u. (written n, u))))
    first (true, t) d o =
        second t (write_all (status ∷ []) t) d (o refl) (write_all-disk (status ∷ []) t)
          (write_all-out (status ∷ []) t)
    first (false, t) d o = record { same_disk = d; out = λ k no. cc }

pub zero_scratch-Holds : (len : ℕ) (d : BlockDisk) → Holds len (λ i. 0) (zero_scratch len d).1
unfolding zero_scratch ensure
zero_scratch-Holds len d fits i lt = ground arith

pub zero_scratch-file :
    (len : ℕ) (d : BlockDisk) → (zero_scratch len d).1.kernel.file ≡ d.kernel.file
unfolding zero_scratch ensure
zero_scratch-file len d = ground arith

pub reply_data-Replied :
    (len : ℕ) (src : Bytes) (status : ℕ) (s : Served)
    → Holds len src s.disk
    → Replied (bytes_of len src) status ((len + 1) % u32_mod) s (reply_data len status s)
unfolding reply_data as_slice
reply_data-Replied len src status s holds = by (ltb s.disk.scratch.cap len) refl
  where
    n : ℕ
    n = (len + 1) % u32_mod

    by :
        (b : Bool)
        → b ≡ ltb s.disk.scratch.cap len
        → Replied
            (bytes_of len src)
            status
            n
            s
            (elim (if b then none else some (bytes_of len s.disk.scratch.ptr)) as (λ _. Handled) [
              | none ↦ (failed io, s)
              | some bytes ↦ reply bytes status n s
            ])
    by true e = record { same_disk = refl; out = λ k no. cc }
    by false e =
        subst (λ l. Replied (bytes_of len src) status n s (reply l status n s))
          (bytes_of-ext len src s.disk.scratch.ptr (λ i lt. sym (holds (ground arith) i lt)))
          (reply-Replied (bytes_of len src) status n s)

-- What the guest gets for a read of `len` bytes at `offset`: the bytes of the image and a status
-- that says so, or zeros and an error.
pub data ReadReply (capacity offset len : ℕ) (file : Bytes) (out : List ℕ) : Type 0 where
  whole :
      offset + len ≤ capacity * sector_size
      → out ≡ bytes_of len (λ i. file (offset + i)) ++ status_ok ∷ []
      → ReadReply capacity offset len file out
  zeros : out ≡ replicate len 0 ++ status_ioerr ∷ [] → ReadReply capacity offset len file out

-- A read leaves the image alone, and what it answers.
pub record ReadAnswer (capacity offset len : ℕ) (s : Served) (h : Handled) : Type 0 where
  pub same_file : h.1.disk.kernel.file ≡ s.disk.kernel.file
  pub answer :
      (k : ℕ)
      → h.0 ≡ written k
      → (k ≡ (len + 1) % u32_mod) × ReadReply capacity offset len s.disk.kernel.file h.1.out

module _ (capacity offset len : ℕ) (s : Served) (fresh : s.out ≡ []) where
  -- The reply from a state `t` that holds what was read, or holds zeros.
  whole_reply :
      (d : BlockDisk)
      → offset + len ≤ capacity * sector_size
      → Reads offset len s.disk.kernel.file (done_ok, d)
      → ReadAnswer capacity offset len s (reply_data len status_ok (record s { disk = d }))
  whole_reply d inside r =
      let src : Bytes = λ i. s.disk.kernel.file (offset + i) in
      let p = reply_data-Replied len src status_ok (record s { disk = d }) (λ fits. r.got refl) in
      record {
        same_file = ap (λ x. x.kernel.file) p.same_disk ∙ r.same_file;
        answer = λ k e. (
          (p.out k e).0,
          whole inside ((p.out k e).1 ∙ ap (λ l. l ++ (bytes_of len src ++ status_ok ∷ [])) fresh),
        );
      }

  zeros_reply :
      (d : BlockDisk)
      → d.kernel.file ≡ s.disk.kernel.file
      → Holds len (λ i. 0) d
      → ReadAnswer capacity offset len s (reply_data len status_ioerr (record s { disk = d }))
  zeros_reply d same holds =
      let p = reply_data-Replied len (λ i. 0) status_ioerr (record s { disk = d }) holds in
      record {
        same_file = ap (λ x. x.kernel.file) p.same_disk ∙ same;
        answer = λ k e. (
          (p.out k e).0,
          zeros (
              (p.out k e).1
              ∙ (ap (λ l. l ++ (bytes_of len (λ i. 0) ++ status_ioerr ∷ [])) fresh
                  ∙ ap (λ l. l ++ status_ioerr ∷ []) (bytes_of-zeros len))),
        );
      }

  zeroed_reply :
      (d : BlockDisk)
      → d.kernel.file ≡ s.disk.kernel.file
      → ReadAnswer capacity offset len s
          (reply_data len status_ioerr (with_disk (zero_scratch len) (record s { disk = d })).1)
  zeroed_reply d same =
      zeros_reply (zero_scratch len d).1 (zero_scratch-file len d ∙ same) (zero_scratch-Holds len d)

  after_read-Answer :
      (r : Did)
      → offset + len ≤ capacity * sector_size
      → Reads offset len s.disk.kernel.file r
      → ReadAnswer capacity offset len s (after_read len (r.0, record s { disk = r.1 }))
  unfolding after_read
  after_read-Answer (ok u, d) inside r = whole_reply d inside r
  after_read-Answer (err e, d) inside r = zeroed_reply d r.same_file

  pub read_range-Answer : ReadAnswer capacity offset len s (read_range capacity offset len s)
  unfolding read_range
  read_range-Answer = by (ltb (capacity * sector_size) (offset + len)) refl
    where
      out_of_range :
          (r : Bool × BlockDisk)
          → r.1.kernel.file ≡ s.disk.kernel.file
          → Holds len (λ i. 0) r.1
          → ReadAnswer capacity offset len s
              (or_io (r.0, record s { disk = r.1 }) (reply_data len status_ioerr))
      out_of_range (true, d) same holds = zeros_reply d same holds
      out_of_range (false, d) same holds = record { same_file = same; answer = λ k no. cc }

      by :
          (b : Bool)
          → b ≡ ltb (capacity * sector_size) (offset + len)
          → ReadAnswer capacity offset len s (
              if b
              then or_io (with_disk (zero_scratch len) s) (reply_data len status_ioerr)
              else after_read len (with_disk (read_at offset len) s))
      by true e =
          out_of_range (zero_scratch len s.disk) (zero_scratch-file len s.disk)
            (zero_scratch-Holds len s.disk)
      by false e =
          after_read-Answer (read_at offset len s.disk) (ground arith)
            (read_at-Reads offset len s.disk)

-- A read request that is answered has room for a status byte; it is answered with the whole of its
-- room, in which the guest finds the bytes of the image at the sector and a status that says so,
-- if they lie within the disk, or else zeros and an error. No read request changes the image.
pub handle_in-answered :
    (capacity sector total : ℕ) (s : Served)
    → s.out ≡ []
    → ((handle_in capacity sector total s).1.disk.kernel.file ≡ s.disk.kernel.file)
      × ((k : ℕ)
          → (handle_in capacity sector total s).0 ≡ written k
          → (1 ≤ total)
            × (k ≡ total % u32_mod)
            × ReadReply capacity
                (sector * sector_size)
                (total - 1)
                s.disk.kernel.file
                (handle_in capacity sector total s).1.out)
unfolding handle_in offset_of
handle_in-answered capacity sector zero s fresh = (refl, λ k no. cc)
handle_in-answered capacity sector (suc len) s fresh =
    by (ltb (sector * sector_size) u64_mod && ltb (sector * sector_size + len) u64_mod)
  where
    h : Handled → Type 0
    h r =
        (r.1.disk.kernel.file ≡ s.disk.kernel.file)
        × ((k : ℕ)
            → r.0 ≡ written k
            → (1 ≤ suc len)
              × (k ≡ suc len % u32_mod)
              × ReadReply capacity (sector * sector_size) (suc len - 1) s.disk.kernel.file r.1.out)

    size : suc len - 1 ≡ len
    size = omega arith

    by :
        (b : Bool)
        → h (elim (if b then some (sector * sector_size) else none) as (λ _. Handled) [
          | none ↦ (failed io, s)
          | some offset ↦ read_range capacity offset len s
        ])
    by true =
        let a = read_range-Answer capacity (sector * sector_size) len s fresh in
        (
          a.same_file,
          λ k e. (
            omega arith,
            (a.answer k e).0 ∙ ap (λ n. n % u32_mod) (omega arith),
            subst
                (λ l.
                  ReadReply capacity (sector * sector_size) l s.disk.kernel.file
                    (read_range capacity (sector * sector_size) len s).1.out)
                (sym size) (a.answer k e).1,
          ),
        )
    by false = (refl, λ k no. cc)
