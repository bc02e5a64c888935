-- ===== src/Blk/Spec.antt =====
-- What a virtio block device promises, without the ways that src/devices/virtio_blk.rs takes to keep
-- it: requests on an image of bytes, one after the other, and when a request may fail.
pub mod Promised
pub mod Timely
pub mod Refines
pub mod Protected
use kitsune.Base.{
  ℕ, zero, suc, ◌+◌, ◌-◌, ◌*◌, ◌%◌, ◌≤◌, ◌<◌, ◌≡◌, ◌⊎◌, ◌++◌, replicate, true, false, u64_mod, Bool,
  not, ◌||◌, Option, none, some, List, [], ◌∷◌, ltb, ◌==◌, length, drop, if◌then◌else◌, bit_and,
  u32_mod,
}
use kitsune.Blk.Transfer.{Bytes}
use kitsune.Blk.Disk.{BlockDisk, sector_size}
use kitsune.Blk.Disk.Able.{Room, Readable, Writable}
use kitsune.Blk.Request.{
  Chain, Answer, VirtioBlkReqHdr, written, failed, parse_hdr, hdr_len, type_in, type_out, f_ro,
  status_ioerr,
}
use kitsune.Blk.Request.Ready.{Takes}
use kitsune.Blk.Request.Reads.{ReadReply}
use kitsune.Blk.Request.Writes.{MayWrite, WriteReply}

-- What a chain asks for; a read has room for the status besides `total - 1` bytes.
pub data Request : Type 0 where
  read_request : ℕ → ℕ → Request
  write_request : ℕ → List ℕ → Request
  other_request malformed : Request

abbrev pub asked_by : VirtioBlkReqHdr → ℕ → List ℕ → Request
asked_by hdr total bytes =
    if hdr.type_ == type_in
    then read_request hdr.sector total
    else if hdr.type_ == type_out
    then write_request hdr.sector bytes
    else other_request

abbrev pub request_of : Chain → Request
request_of c = elim c.readable [
  | none ↦ malformed
  | some raw ↦ elim c.available [
    | none ↦ malformed
    | some total ↦
        if ltb (length raw) hdr_len
        then malformed
        else asked_by (parse_hdr raw) total (drop hdr_len raw)
  ]
]

abbrev pub driver_ro : Bool → Chain → Bool
driver_ro readonly c = readonly || not (bit_and c.driver_features f_ro == 0)

-- Every byte of the image is kept but those that a write names, where it may write.
abbrev pub Kept : ℕ → Bool → ℕ → ℕ → Bytes → Bytes → Type 0
Kept capacity ro offset len file file' =
    (p : ℕ) → (file' p ≡ file p) ⊎ MayWrite capacity ro offset len p

-- What the answer of a request, the bytes that the guest finds and the image after it have to be.
abbrev pub Promise : ℕ → Bool → Request → Answer → List ℕ → Bytes → Bytes → Type 0
Promise capacity ro (read_request sector total) (written k) out file file' =
    (file' ≡ file)
    × (1 ≤ total)
    × (k ≡ total % u32_mod)
    × ReadReply capacity (sector * sector_size) (total - 1) file out
Promise capacity ro (read_request sector total) (failed e) out file file' = file' ≡ file
Promise capacity ro (write_request sector bytes) (written k) out file file' =
    Kept capacity ro (sector * sector_size) (length bytes) file file'
    × (k ≡ 1)
    × WriteReply capacity ro (sector * sector_size) bytes file' out
Promise capacity ro (write_request sector bytes) (failed e) out file file' =
    Kept capacity ro (sector * sector_size) (length bytes) file file'
Promise capacity ro other_request a out file file' = file' ≡ file
Promise capacity ro malformed a out file file' = (file' ≡ file) × (out ≡ [])

-- A read has to be answered: the room of the chain has a byte for the status and can be written to,
-- the range fits 64 bits, and the buffer is large enough or can grow. And a write.
abbrev pub CanRead : Chain → BlockDisk → ℕ → ℕ → Type 0
CanRead c d sector total =
    (1 ≤ total)
    × (sector * sector_size + (total - 1) < u64_mod)
    × Room (total - 1) d
    × Takes 2 c.writes

abbrev pub CanWrite : Chain → BlockDisk → ℕ → List ℕ → Type 0
CanWrite c d sector bytes =
    (c.read_ok ≡ true)
    × (sector * sector_size + length bytes < u64_mod)
    × Room (length bytes) d
    × Takes 1 c.writes

-- A read that can be served, of a range in the disk that the kernel reads, is answered with an error,
-- where the guest finds `out`. And a write.
abbrev pub ReadRefused : ℕ → BlockDisk → ℕ → ℕ → List ℕ → Type 0
ReadRefused capacity d offset len out =
    (out ≡ replicate len 0 ++ status_ioerr ∷ [])
    × (offset + len ≤ capacity * sector_size)
    × Room len d
    × Readable offset len d

abbrev pub WriteRefused : ℕ → Bool → BlockDisk → ℕ → ℕ → List ℕ → Type 0
WriteRefused capacity ro d offset len out =
    (out ≡ status_ioerr ∷ [])
    × (ro ≡ false)
    × (offset + len ≤ capacity * sector_size)
    × Writable offset len d

-- No read or write that has to be answered fails, and none that can be served is answered with an
-- error.
abbrev pub Excused : ℕ → Bool → Chain → BlockDisk → Request → Answer → List ℕ → Type 0
Excused capacity ro c d (read_request sector total) (written k) out =
    ¬ ReadRefused capacity d (sector * sector_size) (total - 1) out
Excused capacity ro c d (read_request sector total) (failed e) out = ¬ CanRead c d sector total
Excused capacity ro c d (write_request sector bytes) (written k) out =
    ¬ WriteRefused capacity ro d (sector * sector_size) (length bytes) out
Excused capacity ro c d (write_request sector bytes) (failed e) out = ¬ CanWrite c d sector bytes
Excused capacity ro c d other_request a out = Unit
Excused capacity ro c d malformed a out = Unit

-- The chains are served in order, each on the disk that the one before has left, up to where the log
-- of answers ends.
pub data Replays (capacity : ℕ) (readonly : Bool)
    : List Chain → List (Answer × List ℕ) → BlockDisk → BlockDisk → Type 0 where
  over : (cs : List Chain) (d : BlockDisk) → Replays capacity readonly cs [] d d
  serves :
      (c : Chain) (cs : List Chain) (a : Answer) (out : List ℕ) (log : List (Answer × List ℕ))
      (d between d' : BlockDisk)
      → Promise capacity
          (driver_ro readonly c)
          (request_of c)
          a
          out
          d.kernel.file
          between.kernel.file
      → Excused capacity (driver_ro readonly c) c d (request_of c) a out
      → Replays capacity readonly cs log between d'
      → Replays capacity readonly (c ∷ cs) ((a, out) ∷ log) d d'
