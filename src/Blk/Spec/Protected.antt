-- ===== src/Blk/Spec/Protected.antt =====
-- The bytes of the image that no request of src/devices/virtio_blk.rs can change.
use kitsune.Base.{ℕ, ◌*◌, ◌≤◌, ◌≡◌, refl, ap, ◌∙◌, inl, inr, ◌⊎◌, Bool, true, List, arith, length}
use kitsune.Blk.Transfer.{Bytes}
use kitsune.Blk.Disk.{BlockDisk, sector_size}
use kitsune.Blk.Request.{Chain, Answer, written, failed}
use kitsune.Blk.Request.Writes.{MayWrite}
use kitsune.Blk.Queue.{Worker, process_queue}
use kitsune.Blk.Spec.{
  Request, Promise, Replays, read_request, write_request, other_request, malformed, driver_ro, Kept,
  over, serves, request_of,
}
use kitsune.Blk.Spec.Refines.{process_queue-Refines}

module _ (capacity : ℕ) (readonly : Bool) (p : ℕ) where
  -- The device is read-only, or the byte is behind the end of the disk.
  abbrev pub Protected : Type 0
  Protected = (readonly ≡ true) ⊎ (capacity * sector_size ≤ p)

  unwritable :
      (ro : Bool) (offset len : ℕ)
      → Protected
      → (readonly ≡ true → ro ≡ true)
      → MayWrite capacity ro offset len p
      → ⊥
  unwritable ro offset len (inl r) t m = let a = t r in let b = m.writable in ground arith
  unwritable ro offset len (inr behind) t m =
      let a = m.inside in let b = m.to in omega (arith, a, b, behind)

  same_byte :
      (ro : Bool) (offset len : ℕ) (file file' : Bytes)
      → Protected
      → (readonly ≡ true → ro ≡ true)
      → Kept capacity ro offset len file file'
      → file' p ≡ file p
  same_byte ro offset len file file' safe t k = by (k p)
    where
      by : (file' p ≡ file p) ⊎ MayWrite capacity ro offset len p → file' p ≡ file p
      by (inl e) = e
      by (inr m) = absurd (unwritable ro offset len safe t m)

  Promise-kept :
      (ro : Bool) (r : Request) (a : Answer) (out : List ℕ) (file file' : Bytes)
      → Protected
      → (readonly ≡ true → ro ≡ true)
      → Promise capacity ro r a out file file'
      → file' p ≡ file p
  Promise-kept ro (read_request sector total) (written k) out file file' safe t m =
      ap (λ f. f p) m.0
  Promise-kept ro (read_request sector total) (failed e) out file file' safe t m = ap (λ f. f p) m
  Promise-kept ro (write_request sector bytes) (written k) out file file' safe t m =
      same_byte ro (sector * sector_size) (length bytes) file file' safe t m.0
  Promise-kept ro (write_request sector bytes) (failed e) out file file' safe t m =
      same_byte ro (sector * sector_size) (length bytes) file file' safe t m
  Promise-kept ro other_request a out file file' safe t m = ap (λ f. f p) m
  Promise-kept ro malformed a out file file' safe t m = ap (λ f. f p) m.0

  driver_ro-readonly : (c : Chain) → readonly ≡ true → driver_ro readonly c ≡ true
  driver_ro-readonly c r = ground arith

  Replays-kept :
      {cs : List Chain} {log : List (Answer × List ℕ)} {d d' : BlockDisk}
      → Protected
      → Replays capacity readonly cs log d d'
      → d'.kernel.file p ≡ d.kernel.file p
  Replays-kept safe (over cs d) = refl
  Replays-kept safe (serves c cs a out log d between d' m x r) =
      Replays-kept safe r
      ∙ Promise-kept (driver_ro readonly c) (request_of c) a out d.kernel.file between.kernel.file
          safe (driver_ro-readonly c) m

-- If the device is read-only, or a byte lies behind the end of the disk, a run of `process_queue`
-- leaves that byte of the image as it was, whatever the guest asks for and the kernel answers.
pub process_queue-protected :
    (capacity : ℕ) (readonly : Bool) (p : ℕ) (w : Worker)
    → Protected capacity readonly p
    → (process_queue capacity readonly w).1.disk.kernel.file p ≡ w.disk.kernel.file p
process_queue-protected capacity readonly p w safe =
    Replays-kept capacity readonly p safe (process_queue-Refines capacity readonly w).replays
