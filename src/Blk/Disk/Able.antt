-- ===== src/Blk/Disk/Able.antt =====
-- When `read_at` and `write_at` of src/devices/virtio_blk.rs end well, with the fallbacks from the ring
-- and from the direct descriptor.
use kitsune.Base.{
  ℕ, ◌+◌, ◌-◌, ◌^◌, sym, ◌≤◌, ◌≡◌, refl, subst, inl, inr, ◌⊎◌, Bool, true, false, List, [], ◌∷◌,
  ltb, leb, ◌==◌, if◌then◌else◌, Bool-cases, arith,
}
use kitsune.Blk.Transfer.{
  ok, err, done_ok, unexpected_eof, write_zero, other, pread_all, pwrite_all,
}
use kitsune.Blk.Transfer.Progress.{AllHelp, helping, transfer-done}
use kitsune.Blk.Disk.{
  BlockDisk, Did, ensure, zero_scratch, pread_scratch, ring_read_scratch, pwrite_scratch,
  ring_write_scratch, or_else, again, read_at_fd, write_at_fd, read_at, write_at, prefer_direct,
  disable_ring, disable_direct,
}
use kitsune.Blk.Disk.Fallback.{or_else-Post, again-Post}

-- The next allocation succeeds.
abbrev pub Allocates : List Bool → Type 0
Allocates [] = ⊥
Allocates (b ∷ rest) = b ≡ true

-- The buffer has room for `len` bytes, or can be made larger.
abbrev pub Room : ℕ → BlockDisk → Type 0
Room len d = (len ≤ d.scratch.cap) ⊎ Allocates d.kernel.reallocs

-- The kernel answers every `pread` with some bytes or with `EINTR`, and often enough for `len` bytes
-- at `offset`, which fit in an `off_t`; and likewise every `pwrite`.
abbrev pub Readable : ℕ → ℕ → BlockDisk → Type 0
Readable offset len d =
    (offset + len ≤ 2 ^ 63) × AllHelp d.kernel.preads × (len ≤ helping d.kernel.preads)

abbrev pub Writable : ℕ → ℕ → BlockDisk → Type 0
Writable offset len d =
    (offset + len ≤ 2 ^ 63) × AllHelp d.kernel.pwrites × (len ≤ helping d.kernel.pwrites)

module _ (len : ℕ) where
  -- Whether `ensure` succeeds, and the capacity after that.
  pub ensure-fits : (d : BlockDisk) → Room len d → (ensure len d).0 ≡ true
  unfolding ensure
  ensure-fits d (inl fits) = ground (arith, fits)
  ensure-fits d (inr grows) = by d.kernel.reallocs refl grows
    where
      by : (l : List Bool) → d.kernel.reallocs ≡ l → Allocates l → (ensure len d).0 ≡ true
      by [] e g = absurd g
      by (true ∷ rest) e g = elim (Bool-cases (leb len d.scratch.cap)) [
        | inl large ↦ rw large refl
        | inr small ↦ rw (small, e) refl
      ]
      by (false ∷ rest) e g = cc

  pub ensure-cap : (d : BlockDisk) → (ensure len d).0 ≡ true → len ≤ (ensure len d).1.scratch.cap
  unfolding ensure
  ensure-cap d e = ground (arith, e)

  pub ensure-preads : (d : BlockDisk) → (ensure len d).1.kernel.preads ≡ d.kernel.preads
  unfolding ensure
  ensure-preads d = ground arith

  pub ensure-pwrites : (d : BlockDisk) → (ensure len d).1.kernel.pwrites ≡ d.kernel.pwrites
  unfolding ensure
  ensure-pwrites d = ground arith

  pub zero_scratch-fits : (d : BlockDisk) → Room len d → (zero_scratch len d).0 ≡ true
  unfolding zero_scratch
  zero_scratch-fits d room = rw (ensure-fits d room) refl

  pub zero_scratch-cap : (d : BlockDisk) → Room len d → len ≤ (zero_scratch len d).1.scratch.cap
  unfolding zero_scratch
  zero_scratch-cap d room = rw (ensure-fits d room) (ensure-cap d (ensure-fits d room))

-- The calls on the descriptors keep the buffer's capacity.
module _ (offset len : ℕ) where
  abbrev Capable : Did → Type 0
  Capable t = len ≤ t.1.scratch.cap

  read_at_fd-Capable : (d : BlockDisk) → len ≤ d.scratch.cap → Capable (read_at_fd offset len d)
  unfolding read_at_fd pread_scratch ring_read_scratch disable_ring
  read_at_fd-Capable d h = by d.ring
    where
      by :
          (b : Bool)
          → Capable (
              if b
              then or_else (pread_scratch offset len) (ring_read_scratch offset len d)
              else pread_scratch offset len d)
      by true =
          or_else-Post (λ t. len ≤ t.scratch.cap) Capable (pread_scratch offset len) (λ t k. k)
            (λ e t k. k) (ring_read_scratch offset len d) h
      by false = h

  pub read_at-cap : (d : BlockDisk) → Room len d → len ≤ (read_at offset len d).1.scratch.cap
  unfolding read_at disable_direct
  read_at-cap d room = by (len == 0) refl (ensure len d).0 (ensure-fits len d room)
    where
      e : BlockDisk
      e = (ensure len d).1

      h : len ≤ e.scratch.cap
      h = ensure-cap len d (ensure-fits len d room)

      by :
          (z : Bool)
          → z ≡ (len == 0)
          → (b : Bool) → b ≡ true
          → Capable (
              if z
              then (done_ok, d)
              else (if b
                  then again
                      (read_at_fd offset len)
                      (prefer_direct offset len e)
                      (read_at_fd offset len e)
                  else (err other, e)))
      by true z b f = ground arith
      by false z true f =
          again-Post (λ t. len ≤ t.scratch.cap) Capable (read_at_fd offset len) read_at_fd-Capable
            (λ x t k. k) (prefer_direct offset len e) (read_at_fd offset len e)
            (read_at_fd-Capable e h)
      by false z false f = cc

-- A call that ends well makes no second round.
again-ok :
    (f : BlockDisk → Did) (prefer : Bool) (t : Did) → t.0 ≡ done_ok → (again f prefer t).0 ≡ done_ok
unfolding again
again-ok f prefer (ok u, d) e = e
again-ok f prefer (err x, d) e = cc

or_else-ok :
    (f : BlockDisk → Did) (t : Did)
    → ((f (disable_ring t.1)).0 ≡ done_ok)
    → (or_else f t).0 ≡ done_ok
or_else-ok f (ok tt, d) e = refl
or_else-ok f (err x, d) e = e

module _ (offset len : ℕ) where
  pread_scratch-ok :
      (d : BlockDisk) → Readable offset len d → (pread_scratch offset len d).0 ≡ done_ok
  unfolding pread_scratch pread_all
  pread_scratch-ok d (fits, help, enough) =
      transfer-done unexpected_eof offset len (λ k. d.kernel.file (offset + k)) 0 0 d.kernel.preads
        d.scratch.ptr fits help (omega (arith, enough))

  pwrite_scratch-ok :
      (d : BlockDisk) → Writable offset len d → (pwrite_scratch offset len d).0 ≡ done_ok
  unfolding pwrite_scratch pwrite_all
  pwrite_scratch-ok d (fits, help, enough) =
      transfer-done write_zero offset len (λ p. d.scratch.ptr (p - offset)) offset 0
        d.kernel.pwrites d.kernel.file fits help (omega (arith, enough))

  read_at_fd-ok : (d : BlockDisk) → Readable offset len d → (read_at_fd offset len d).0 ≡ done_ok
  unfolding read_at_fd ring_read_scratch disable_ring
  read_at_fd-ok d able = by d.ring
    where
      by :
          (b : Bool)
          → (if b
              then or_else (pread_scratch offset len) (ring_read_scratch offset len d)
              else pread_scratch offset len d).0
            ≡ done_ok
      by true =
          or_else-ok (pread_scratch offset len) (ring_read_scratch offset len d)
            (pread_scratch-ok (disable_ring (ring_read_scratch offset len d).1) able)
      by false = pread_scratch-ok d able

  write_at_fd-ok : (d : BlockDisk) → Writable offset len d → (write_at_fd offset len d).0 ≡ done_ok
  unfolding write_at_fd ring_write_scratch disable_ring
  write_at_fd-ok d able = by d.ring
    where
      by :
          (b : Bool)
          → (if b
              then or_else (pwrite_scratch offset len) (ring_write_scratch offset len d)
              else pwrite_scratch offset len d).0
            ≡ done_ok
      by true =
          or_else-ok (pwrite_scratch offset len) (ring_write_scratch offset len d)
            (pwrite_scratch-ok (disable_ring (ring_write_scratch offset len d).1) able)
      by false = pwrite_scratch-ok d able

  pub read_at-ok :
      (d : BlockDisk) → Room len d → Readable offset len d → (read_at offset len d).0 ≡ done_ok
  unfolding read_at
  read_at-ok d room able = by (len == 0) (ensure len d).0 (ensure-fits len d room)
    where
      e : BlockDisk
      e = (ensure len d).1

      able_then : Readable offset len e
      able_then =
          subst (λ l. (offset + len ≤ 2 ^ 63) × AllHelp l × (len ≤ helping l))
            (sym (ensure-preads len d)) able

      by :
          (z b : Bool)
          → b ≡ true
          → (if z
              then (done_ok, d)
              else (if b
                  then again
                      (read_at_fd offset len)
                      (prefer_direct offset len e)
                      (read_at_fd offset len e)
                  else (err other, e))).0
            ≡ done_ok
      by true b f = refl
      by false true f =
          again-ok (read_at_fd offset len) (prefer_direct offset len e) (read_at_fd offset len e)
            (read_at_fd-ok e able_then)
      by false false f = cc

  pub write_at-ok :
      (d : BlockDisk)
      → len ≤ d.scratch.cap
      → Writable offset len d
      → (write_at offset len d).0 ≡ done_ok
  unfolding write_at
  write_at-ok d fits able = by (len == 0) (ltb d.scratch.cap len) (ground arith)
    where
      by :
          (z b : Bool)
          → b ≡ false
          → (if z
              then (done_ok, d)
              else (if b
                  then (err other, d)
                  else again
                      (write_at_fd offset len)
                      (prefer_direct offset len d)
                      (write_at_fd offset len d))).0
            ≡ done_ok
      by true b f = refl
      by false false f =
          again-ok (write_at_fd offset len) (prefer_direct offset len d) (write_at_fd offset len d)
            (write_at_fd-ok d able)
      by false true f = cc
