-- ===== src/Blk/Disk/Rw.antt =====
-- What `read_at` and `write_at` of src/devices/virtio_blk.rs do to the buffer and to the image,
-- whatever the kernel answers, with the fallbacks from the ring and from the direct descriptor.
use kitsune.Base.{
  ℕ, ◌+◌, ◌-◌, ◌≤◌, ◌<◌, ◌≡◌, refl, ap, subst, ◌∙◌, Bool, true, false, ltb, ◌==◌, if◌then◌else◌,
  arith,
}
use kitsune.Blk.Transfer.{
  IoError, err, done_ok, write_zero, other, Bytes, pread_all, pwrite_all, ring_read, ring_write,
}
use kitsune.Blk.Transfer.Moved.{
  Outside, sys_round-Fits, ring_round-Fits, transfer-Outside, transfer-Moved,
}
use kitsune.Blk.Disk.{
  BlockDisk, Did, ensure, pread_scratch, ring_read_scratch, pwrite_scratch, ring_write_scratch,
  or_else, again, read_at_fd, write_at_fd, read_at, write_at, prefer_direct, disable_ring,
  disable_direct,
}
use kitsune.Blk.Disk.Fallback.{or_else-Post, again-Post}

-- A call leaves the image as `file`, and if it ends well the buffer holds the range of it.
pub record Reads (offset len : ℕ) (file : Bytes) (t : Did) : Type 0 where
  pub same_file : t.1.kernel.file ≡ file
  pub got : t.0 ≡ done_ok → (i : ℕ) → i < len → t.1.scratch.ptr i ≡ file (offset + i)

pread_scratch-Reads :
    (offset len : ℕ) (d : BlockDisk) → Reads offset len d.kernel.file (pread_scratch offset len d)
unfolding pread_scratch pread_all
pread_scratch-Reads offset len d = record {
  same_file = refl;
  got = λ e i h.
      transfer-Moved _ (λ k. d.kernel.file (offset + k)) 0 len 0 d.kernel.preads d.scratch.ptr e i
        (omega arith) (omega (arith, h));
}

ring_read_scratch-Reads :
    (offset len : ℕ) (d : BlockDisk)
    → Reads offset len d.kernel.file (ring_read_scratch offset len d)
unfolding ring_read_scratch ring_read
ring_read_scratch-Reads offset len d = record {
  same_file = refl;
  got = λ e i h.
      transfer-Moved _ (λ k. d.kernel.file (offset + k)) 0 len 0 d.kernel.completions d.scratch.ptr
        e i (omega arith) (omega (arith, h));
}

read_at_fd-Reads :
    (offset len : ℕ) (file : Bytes) (d : BlockDisk)
    → d.kernel.file ≡ file
    → Reads offset len file (read_at_fd offset len d)
unfolding read_at_fd disable_ring
read_at_fd-Reads offset len file d e = by_ring d.ring
  where
    without :
        (d : BlockDisk) → d.kernel.file ≡ file → Reads offset len file (pread_scratch offset len d)
    without d e =
        subst (λ g. Reads offset len g (pread_scratch offset len d)) e
          (pread_scratch-Reads offset len d)

    by_ring :
        (b : Bool)
        → Reads offset len file (
            if b
            then or_else (pread_scratch offset len) (ring_read_scratch offset len d)
            else pread_scratch offset len d)
    by_ring true =
        or_else-Post (λ d. d.kernel.file ≡ file) (Reads offset len file) (pread_scratch offset len)
          without (λ x d r. r.same_file) (ring_read_scratch offset len d)
          (subst (λ g. Reads offset len g (ring_read_scratch offset len d)) e
            (ring_read_scratch-Reads offset len d))
    by_ring false = without d e

pub ensure-file : (need : ℕ) (d : BlockDisk) → (ensure need d).1.kernel.file ≡ d.kernel.file
unfolding ensure
ensure-file need d = ground arith

pub read_at-Reads :
    (offset len : ℕ) (d : BlockDisk) → Reads offset len d.kernel.file (read_at offset len d)
unfolding read_at disable_direct
read_at-Reads offset len d = empty (len == 0) refl
  where
    refused : (e : IoError) → Reads offset len d.kernel.file (err e, (ensure len d).1)
    refused e = record { same_file = ensure-file len d; got = λ no. cc }

    full :
        (b : Bool)
        → Reads offset len d.kernel.file (
            if b
            then again
                (read_at_fd offset len)
                (prefer_direct offset len (ensure len d).1)
                (read_at_fd offset len (ensure len d).1)
            else (err other, (ensure len d).1))
    full false = refused other
    full true =
        again-Post (λ t. t.kernel.file ≡ d.kernel.file) (Reads offset len d.kernel.file)
          (read_at_fd offset len) (λ t e. read_at_fd-Reads offset len d.kernel.file t e)
          (λ x t r. r.same_file) (prefer_direct offset len (ensure len d).1)
          (read_at_fd offset len (ensure len d).1)
          (read_at_fd-Reads offset len d.kernel.file (ensure len d).1 (ensure-file len d))

    empty :
        (b : Bool)
        → b ≡ (len == 0)
        → Reads offset len d.kernel.file (
            if b
            then (done_ok, d)
            else (if (ensure len d).0
                then again
                    (read_at_fd offset len)
                    (prefer_direct offset len (ensure len d).1)
                    (read_at_fd offset len (ensure len d).1)
                else (err other, (ensure len d).1)))
    empty true e = record { same_file = refl; got = λ _ i h. absurd (ground arith) }
    empty false e = full (ensure len d).0

-- A call leaves the buffer as `buf` and changes the image in the range only, and if it ends well the
-- range holds the bytes of the buffer.
pub record Writes (offset len : ℕ) (buf file : Bytes) (t : Did) : Type 0 where
  pub same_buf : t.1.scratch.ptr ≡ buf
  pub put :
      t.0 ≡ done_ok → (p : ℕ) → offset ≤ p → p < offset + len → t.1.kernel.file p ≡ buf (p - offset)
  pub kept : (p : ℕ) → Outside offset len p → t.1.kernel.file p ≡ file p

-- The state in which a fallback writes.
pub record Before (offset len : ℕ) (buf file : Bytes) (d : BlockDisk) : Type 0 where
  pub same_buf : d.scratch.ptr ≡ buf
  pub kept : (p : ℕ) → Outside offset len p → d.kernel.file p ≡ file p

module _ (offset len : ℕ) (buf file : Bytes) where
  pwrite_scratch-Writes :
      (d : BlockDisk)
      → Before offset len buf file d
      → Writes offset len buf file (pwrite_scratch offset len d)
  unfolding pwrite_scratch pwrite_all
  pwrite_scratch-Writes d b = record {
    same_buf = b.same_buf;
    put = λ e p lo hi.
        transfer-Moved _ (λ q. d.scratch.ptr (q - offset)) offset len 0 d.kernel.pwrites
          d.kernel.file e p (omega (arith, lo)) hi
        ∙ ap (λ g. g (p - offset)) b.same_buf;
    kept = λ p out.
        transfer-Outside _ (λ q. d.scratch.ptr (q - offset)) offset len 0 d.kernel.pwrites
          d.kernel.file (sys_round-Fits write_zero offset len) p out
        ∙ b.kept p out;
  }

  ring_write_scratch-Writes :
      (d : BlockDisk)
      → Before offset len buf file d
      → Writes offset len buf file (ring_write_scratch offset len d)
  unfolding ring_write_scratch ring_write
  ring_write_scratch-Writes d b = record {
    same_buf = b.same_buf;
    put = λ e p lo hi.
        transfer-Moved _ (λ q. d.scratch.ptr (q - offset)) offset len 0 d.kernel.completions
          d.kernel.file e p (omega (arith, lo)) hi
        ∙ ap (λ g. g (p - offset)) b.same_buf;
    kept = λ p out.
        transfer-Outside _ (λ q. d.scratch.ptr (q - offset)) offset len 0 d.kernel.completions
          d.kernel.file (ring_round-Fits write_zero len) p out
        ∙ b.kept p out;
  }

  write_at_fd-Writes :
      (d : BlockDisk)
      → Before offset len buf file d
      → Writes offset len buf file (write_at_fd offset len d)
  unfolding write_at_fd disable_ring
  write_at_fd-Writes d b = by_ring d.ring
    where
      by_ring :
          (r : Bool)
          → Writes offset len buf file (
              if r
              then or_else (pwrite_scratch offset len) (ring_write_scratch offset len d)
              else pwrite_scratch offset len d)
      by_ring true =
          or_else-Post (Before offset len buf file) (Writes offset len buf file)
            (pwrite_scratch offset len) pwrite_scratch-Writes
            (λ x t w. record { same_buf = w.same_buf; kept = w.kept })
            (ring_write_scratch offset len d) (ring_write_scratch-Writes d b)
      by_ring false = pwrite_scratch-Writes d b

pub write_at-Writes :
    (offset len : ℕ) (d : BlockDisk)
    → Writes offset len d.scratch.ptr d.kernel.file (write_at offset len d)
unfolding write_at disable_direct
write_at-Writes offset len d = empty (len == 0) refl
  where
    here : Before offset len d.scratch.ptr d.kernel.file d
    here = record { same_buf = refl; kept = λ p out. refl }

    small :
        (b : Bool)
        → Writes offset len d.scratch.ptr d.kernel.file (
            if b
            then (err other, d)
            else again
                (write_at_fd offset len)
                (prefer_direct offset len d)
                (write_at_fd offset len d))
    small true = record { same_buf = refl; put = λ no. cc; kept = λ p out. refl }
    small false =
        again-Post (Before offset len d.scratch.ptr d.kernel.file)
          (Writes offset len d.scratch.ptr d.kernel.file) (write_at_fd offset len)
          (write_at_fd-Writes offset len d.scratch.ptr d.kernel.file)
          (λ x t w. record { same_buf = w.same_buf; kept = w.kept }) (prefer_direct offset len d)
          (write_at_fd offset len d)
          (write_at_fd-Writes offset len d.scratch.ptr d.kernel.file d here)

    empty :
        (b : Bool)
        → b ≡ (len == 0)
        → Writes offset len d.scratch.ptr d.kernel.file (
            if b
            then (done_ok, d)
            else (if ltb d.scratch.cap len
                then (err other, d)
                else again
                    (write_at_fd offset len)
                    (prefer_direct offset len d)
                    (write_at_fd offset len d)))
    empty true e = record {
      same_buf = refl;
      put = λ _ p lo hi. absurd (ground arith);
      kept = λ p out. refl;
    }
    empty false e = small (ltb d.scratch.cap len)
