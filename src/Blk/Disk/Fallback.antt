-- ===== src/Blk/Disk/Fallback.antt =====
-- The fallbacks of src/devices/virtio_blk.rs from the ring and from the direct descriptor.
use kitsune.Base.{Bool, true, false, ◌&&◌, if◌then◌else◌}
use kitsune.Blk.Transfer.{
  IoError, ok, err, eintr, einval, unexpected_eof, write_zero, invalid_input, other,
}
use kitsune.Blk.Disk.{BlockDisk, Did, or_else, again, disable_ring, disable_direct}

-- What holds of a call and of its fallback `f`, which is made in a state where `Pre` holds.
module _ (Pre : BlockDisk → Type 0) (Post : Did → Type 0) (f : BlockDisk → Did)
    (fallback : (d : BlockDisk) → Pre d → Post (f d)) where
  pub or_else-Post :
      ((e : IoError) (d : BlockDisk) → Post (err e, d) → Pre (disable_ring d))
      → (t : Did) → Post t
      → Post (or_else f t)
  or_else-Post failed (ok u, d) p = p
  or_else-Post failed (err e, d) p = fallback (disable_ring d) (failed e d p)

  pub again-Post :
      ((e : IoError) (d : BlockDisk) → Post (err e, d) → Pre (disable_direct d))
      → (prefer : Bool) (t : Did) → Post t
      → Post (again f prefer t)
  unfolding again
  again-Post failed prefer (ok u, d) p = p
  again-Post failed prefer (err einval, d) p =
      retried (prefer && d.use_direct) (fallback (disable_direct d) (failed einval d p))
    where
      retried :
          (b : Bool)
          → Post (f (disable_direct d))
          → Post (if b then f (disable_direct d) else (err einval, d))
      retried true q = q
      retried false q = p
  again-Post failed prefer (err eintr, d) p = p
  again-Post failed prefer (err unexpected_eof, d) p = p
  again-Post failed prefer (err write_zero, d) p = p
  again-Post failed prefer (err invalid_input, d) p = p
  again-Post failed prefer (err other, d) p = p
