-- ===== src/Blk/Disk/Flush.antt =====
-- What `flush_data` of src/devices/virtio_blk.rs makes durable.
use kitsune.Base.{
  ◌≡◌, refl, ◌∙◌, Bool, true, false, ◌&&◌, List, [], ◌∷◌, ◌++◌, append_assoc, if◌then◌else◌, arith,
}
use kitsune.Blk.Transfer.{IoError, ok, err, done_ok, Bytes}
use kitsune.Blk.Disk.{
  BlockDisk, Did, Fd, direct, buffered, fdatasync, ring_sync, or_else, and_then, fsync_fd,
  flush_data, disable_ring,
}
use kitsune.Blk.Disk.Fallback.{or_else-Post}

-- A call that ends well has made the descriptors durable, after those of before, and one that fails
-- none; no call changes the image.
pub record Syncs (fds before : List Fd) (file : Bytes) (t : Did) : Type 0 where
  pub same_file : t.1.kernel.file ≡ file
  pub synced : t.0 ≡ done_ok → t.1.kernel.synced ≡ before ++ fds
  pub unsynced : (e : IoError) → t.0 ≡ err e → t.1.kernel.synced ≡ before

abbrev At : List Fd → Bytes → BlockDisk → Type 0
At before file d = (d.kernel.file ≡ file) × (d.kernel.synced ≡ before)

module _ (fd : Fd) (before : List Fd) (file : Bytes) where
  fdatasync-Syncs :
      (d : BlockDisk) → At before file d → Syncs (fd ∷ []) before file (fdatasync fd d)
  unfolding fdatasync
  fdatasync-Syncs d (f, b) = record {
    same_file = ground arith;
    synced = λ e. ground arith;
    unsynced = λ x e. ground arith;
  }

  ring_sync-Syncs :
      (d : BlockDisk) → At before file d → Syncs (fd ∷ []) before file (ring_sync fd d)
  unfolding ring_sync
  ring_sync-Syncs d (f, b) = record {
    same_file = ground arith;
    synced = λ e. ground arith;
    unsynced = λ x e. ground arith;
  }

  fsync_fd-Syncs : (d : BlockDisk) → At before file d → Syncs (fd ∷ []) before file (fsync_fd fd d)
  unfolding fsync_fd disable_ring
  fsync_fd-Syncs d a = by_ring d.ring
    where
      by_ring :
          (r : Bool)
          → Syncs
              (fd ∷ [])
              before
              file
              (if r then or_else (fdatasync fd) (ring_sync fd d) else fdatasync fd d)
      by_ring true =
          or_else-Post (At before file) (Syncs (fd ∷ []) before file) (fdatasync fd) fdatasync-Syncs
            (λ x t s. (s.same_file, s.unsynced x refl)) (ring_sync fd d) (ring_sync-Syncs d a)
      by_ring false = fdatasync-Syncs d a

-- The descriptors that a flush has to make durable.
abbrev pub to_sync : BlockDisk → List Fd
to_sync d = if d.use_direct && d.direct_file then direct ∷ buffered ∷ [] else buffered ∷ []

-- A flush does not change the image, and one that ends well has made the data of the buffered
-- descriptor durable, and before it that of the direct one, if that is in use.
pub flush_data-synced :
    (d : BlockDisk)
    → ((flush_data d).1.kernel.file ≡ d.kernel.file)
      × ((flush_data d).0 ≡ done_ok → (flush_data d).1.kernel.synced ≡ d.kernel.synced ++ to_sync d)
unfolding flush_data
flush_data-synced d = by (d.use_direct && d.direct_file)
  where
    then_buffered :
        (t : Did)
        → Syncs (direct ∷ []) d.kernel.synced d.kernel.file t
        → ((and_then t (fsync_fd buffered)).1.kernel.file ≡ d.kernel.file)
          × ((and_then t (fsync_fd buffered)).0 ≡ done_ok
              → (and_then t (fsync_fd buffered)).1.kernel.synced
                ≡ d.kernel.synced ++ direct ∷ buffered ∷ [])
    then_buffered (ok u, t) s =
        let r =
          fsync_fd-Syncs buffered (d.kernel.synced ++ direct ∷ []) d.kernel.file t
            (s.same_file, s.synced refl) in
        (r.same_file, λ e. r.synced e ∙ append_assoc d.kernel.synced (direct ∷ []) (buffered ∷ []))
    then_buffered (err e, t) s = (s.same_file, λ no. cc)

    by :
        (b : Bool)
        → ((if b
              then and_then (fsync_fd direct d) (fsync_fd buffered)
              else fsync_fd buffered d).1.kernel.file
            ≡ d.kernel.file)
          × ((if b then and_then (fsync_fd direct d) (fsync_fd buffered) else fsync_fd buffered d).0
                ≡ done_ok
              → (if b
                  then and_then (fsync_fd direct d) (fsync_fd buffered)
                  else fsync_fd buffered d).1.kernel.synced
                ≡ d.kernel.synced ++ (if b then direct ∷ buffered ∷ [] else buffered ∷ []))
    by true =
        then_buffered (fsync_fd direct d)
          (fsync_fd-Syncs direct d.kernel.synced d.kernel.file d (refl, refl))
    by false =
        let r = fsync_fd-Syncs buffered d.kernel.synced d.kernel.file d (refl, refl) in
        (r.same_file, r.synced)
