-- ===== src/Blk/Disk.antt =====
-- `BlockDisk` and `AlignedBuf` of src/devices/virtio_blk.rs, with the kernel's side of the disk.
pub mod Fallback
pub mod Rw
pub mod Flush
pub mod Able
use kitsune.Base.{
  ℕ, zero, suc, ◌+◌, ◌-◌, ◌*◌, ◌/◌, ◌%◌, max, Bool, true, false, not, ◌&&◌, ◌||◌, List, [], ◌∷◌,
  ◌++◌, ◌==◌, ltb, leb, if◌then◌else◌,
}
use kitsune.Blk.Transfer.{
  IoError, IoResult, done_ok, Bytes, RingAnswer, pread_all, pwrite_all, ring_read, ring_write,
  ring_fsync, eintr, einval, other, ok, err,
}

abbrev pub sector_size : ℕ
sector_size = 512

abbrev pub io_align : ℕ
io_align = 4096

-- `usize::next_multiple_of`
abbrev pub next_multiple_of : ℕ → ℕ → ℕ
next_multiple_of n zero = n
next_multiple_of n (suc m) = (n + m) / suc m * suc m

-- `AlignedBuf`: what memory that was never written holds is any bytes.
pub record AlignedBuf : Type 0 where
  pub cap : ℕ
  pub ptr : Bytes

pub data Fd : Type 0 where
  direct buffered : Fd

-- The image and the answers of the kernel to each kind of call; `synced` is the descriptors that were
-- made durable.
pub record Kernel : Type 0 where
  pub file : Bytes
  pub preads : List (IoResult ℕ)
  pub pwrites : List (IoResult ℕ)
  pub completions : List RingAnswer
  pub fdatasyncs : List (IoResult (Unit {0}))
  pub reallocs : List Bool
  pub synced : List Fd

-- `BlockDisk`: `direct_file` and `ring` say whether there is one.
pub record BlockDisk : Type 0 where
  pub direct_file : Bool
  pub use_direct : Bool
  pub direct_align : ℕ
  pub scratch : AlignedBuf
  pub ring : Bool
  pub kernel : Kernel

abbrev pub Did : Type 0
Did = IoResult (Unit {0}) × BlockDisk

-- `AlignedBuf::ensure`: whether it succeeds.
unfoldable pub ensure : ℕ → BlockDisk → Bool × BlockDisk
ensure need d = if leb need d.scratch.cap then (true, d) else elim d.kernel.reallocs [
  | [] ↦ (false, d)
  | false ∷ rest ↦ (false, record d { kernel = record (d.kernel) { reallocs = rest } })
  | true ∷ rest ↦ (
    true,
    record d {
      kernel = record (d.kernel) { reallocs = rest };
      scratch = record (d.scratch) { cap = next_multiple_of need io_align };
    },
  )
]

-- The bytes of a slice, as a list.
abbrev pub bytes_of : ℕ → Bytes → List ℕ
bytes_of zero f = []
bytes_of (suc n) f = f 0 ∷ bytes_of n (λ i. f (suc i))

-- `zero_scratch`
unfoldable pub zero_scratch : ℕ → BlockDisk → Bool × BlockDisk
zero_scratch len d =
    let (fits, d') = ensure len d in
    if fits
    then (
      true,
      record d' {
        scratch = record (d'.scratch) { ptr = λ i. if ltb i len then 0 else d'.scratch.ptr i };
      },
    )
    else (false, d')

-- `is_direct_aligned`
unfoldable pub is_direct_aligned : ℕ → ℕ → ℕ → Bool
is_direct_aligned offset len zero = false
is_direct_aligned offset len (suc a) = (offset % suc a == 0) && (len % suc a == 0)

-- `prefer_direct`
unfoldable pub prefer_direct : ℕ → ℕ → BlockDisk → Bool
prefer_direct offset len d =
    d.use_direct && (d.direct_file && is_direct_aligned offset len d.direct_align)

-- `disable_direct`
unfoldable pub disable_direct : BlockDisk → BlockDisk
disable_direct d = record d { use_direct = false }

-- `disable_ring`, after which the completions that are left are not the disk's any more.
unfoldable pub disable_ring : BlockDisk → BlockDisk
disable_ring d = record d { ring = false; kernel = record (d.kernel) { completions = [] } }

-- The end of a call on the ring, after which `f` is the call without it.
abbrev pub or_else : (BlockDisk → Did) → Did → Did
or_else f (ok u, d) = (ok u, d)
or_else f (err e, d) = f (disable_ring d)

-- `pread_all` into the scratch buffer.
unfoldable pub pread_scratch : ℕ → ℕ → BlockDisk → Did
pread_scratch offset len d =
    let (r, rest, buf) = pread_all d.kernel.file offset len d.kernel.preads d.scratch.ptr in
    (
      r,
      record d {
        scratch = record (d.scratch) { ptr = buf };
        kernel = record (d.kernel) { preads = rest };
      },
    )

unfoldable pub ring_read_scratch : ℕ → ℕ → BlockDisk → Did
ring_read_scratch offset len d =
    let (r, rest, buf) = ring_read d.kernel.file offset len d.kernel.completions d.scratch.ptr in
    (
      r,
      record d {
        scratch = record (d.scratch) { ptr = buf };
        kernel = record (d.kernel) { completions = rest };
      },
    )

-- `read_at_fd`
unfoldable pub read_at_fd : ℕ → ℕ → BlockDisk → Did
read_at_fd offset len d =
    if d.ring
    then or_else (pread_scratch offset len) (ring_read_scratch offset len d)
    else pread_scratch offset len d

-- `pwrite_all` from the scratch buffer.
unfoldable pub pwrite_scratch : ℕ → ℕ → BlockDisk → Did
pwrite_scratch offset len d =
    let (r, rest, file) = pwrite_all d.scratch.ptr offset len d.kernel.pwrites d.kernel.file in
    (r, record d { kernel = record (d.kernel) { pwrites = rest; file = file } })

unfoldable pub ring_write_scratch : ℕ → ℕ → BlockDisk → Did
ring_write_scratch offset len d =
    let (r, rest, file) = ring_write d.scratch.ptr offset len d.kernel.completions d.kernel.file in
    (r, record d { kernel = record (d.kernel) { completions = rest; file = file } })

-- `write_at_fd`
unfoldable pub write_at_fd : ℕ → ℕ → BlockDisk → Did
write_at_fd offset len d =
    if d.ring
    then or_else (pwrite_scratch offset len) (ring_write_scratch offset len d)
    else pwrite_scratch offset len d

-- The end of a round of the loops of `read_at` and `write_at`: only an `EINVAL` of the direct
-- descriptor, which is the preferred one, makes a second round.
unfoldable pub again : (BlockDisk → Did) → Bool → Did → Did
again f prefer (ok u, d) = (ok u, d)
again f prefer (err einval, d) =
    if prefer && d.use_direct then f (disable_direct d) else (err einval, d)
again f prefer (err e, d) = (err e, d)

-- `read_at`
unfoldable pub read_at : ℕ → ℕ → BlockDisk → Did
read_at offset len d =
    if len == 0
    then (done_ok, d)
    else (let (fits, d') = ensure len d in
        if fits
        then again (read_at_fd offset len) (prefer_direct offset len d') (read_at_fd offset len d')
        else (err other, d'))

-- `write_at`
unfoldable pub write_at : ℕ → ℕ → BlockDisk → Did
write_at offset len d =
    if len == 0
    then (done_ok, d)
    else if ltb d.scratch.cap len
    then (err other, d)
    else again (write_at_fd offset len) (prefer_direct offset len d) (write_at_fd offset len d)

-- What `fdatasync` does, and what makes the descriptor's data durable in either way.
unfoldable pub fdatasync : Fd → BlockDisk → Did
fdatasync fd d = elim d.kernel.fdatasyncs [
  | [] ↦ (err other, d)
  | ok u ∷ rest ↦ (
    ok u,
    record d {
      kernel = record (d.kernel) { fdatasyncs = rest; synced = d.kernel.synced ++ fd ∷ [] };
    },
  )
  | err e ∷ rest ↦ (err e, record d { kernel = record (d.kernel) { fdatasyncs = rest } })
]

unfoldable pub ring_sync : Fd → BlockDisk → Did
ring_sync fd d =
    let (r, rest) = ring_fsync d.kernel.completions in
    elim r [
      | ok u ↦ (
        ok u,
        record d {
          kernel = record (d.kernel) { completions = rest; synced = d.kernel.synced ++ fd ∷ [] };
        },
      )
      | err e ↦ (err e, record d { kernel = record (d.kernel) { completions = rest } })
    ]

-- `fsync_fd`
unfoldable pub fsync_fd : Fd → BlockDisk → Did
fsync_fd fd d = if d.ring then or_else (fdatasync fd) (ring_sync fd d) else fdatasync fd d

-- `?` on a result, and the rest of the function.
abbrev pub and_then : Did → (BlockDisk → Did) → Did
and_then (ok u, d) f = f d
and_then (err e, d) f = (err e, d)

-- `flush_data`
unfoldable pub flush_data : BlockDisk → Did
flush_data d =
    if d.use_direct && d.direct_file
    then and_then (fsync_fd direct d) (fsync_fd buffered)
    else fsync_fd buffered d
