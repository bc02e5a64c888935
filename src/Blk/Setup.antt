-- ===== src/Blk/Setup.antt =====
-- How src/devices/virtio_blk.rs sets the device up and hands the disk to its worker: `new`,
-- `open_buffered`, `logical_block_size`, `advertised_features`, `config_space`, `start_worker` and
-- `stop_worker`.
pub mod Custody
pub mod Geometry
use kitsune.Base.{
  ℕ, zero, suc, ◌+◌, ◌*◌, ◌/◌, ◌%◌, ◌^◌, min, max, Bool, true, false, not, ◌||◌, Option, none, some,
  List, [], ◌∷◌, ◌++◌, length, take, drop, ltb, ◌==◌, if◌then◌else◌, to_le_bytes, bit_or,
  copy_from_slice, replicate,
}
use kitsune.Virtio.Slot.{
  VirtioDev, WorkerSlot, idle, starting, running, reserve, commit, drop_reservation, clear_stop,
  request_stop, take_round, nobody, again, worker,
}
use kitsune.Blk.Disk.{BlockDisk, sector_size, io_align}
use kitsune.Blk.Request.{f_ro, f_flush}

abbrev pub f_version_1 : ℕ
f_version_1 = 2 ^ 32

abbrev pub f_size_max : ℕ
f_size_max = 2 ^ 1

abbrev pub f_seg_max : ℕ
f_seg_max = 2 ^ 2

abbrev pub f_blk_size : ℕ
f_blk_size = 2 ^ 6

-- `advertised_features`
unfoldable pub advertised_features : Bool → ℕ
advertised_features readonly =
    let feats =
      bit_or (bit_or (bit_or (bit_or f_version_1 f_size_max) f_seg_max) f_blk_size) f_flush in
    if readonly then bit_or feats f_ro else feats

abbrev pub config_size_max : ℕ
config_size_max = 65536

abbrev pub config_seg_max : ℕ
config_seg_max = 32

abbrev pub config_blk_size : ℕ
config_blk_size = 512

abbrev pub config_len : ℕ
config_len = 24

-- `config_space`
unfoldable pub config_space : ℕ → List ℕ
config_space capacity_sectors =
    let cfg = replicate config_len 0 in
    let cfg = copy_from_slice cfg 0 (to_le_bytes 8 capacity_sectors) in
    let cfg = copy_from_slice cfg 8 (to_le_bytes 4 config_size_max) in
    let cfg = copy_from_slice cfg 12 (to_le_bytes 4 config_seg_max) in
    copy_from_slice cfg 20 (to_le_bytes 4 config_blk_size)

-- `copy_config` into a buffer: the buffer after it, and the length that it reports.
unfoldable pub copy_config : ℕ → List ℕ → List ℕ × ℕ
copy_config capacity_sectors dest =
    let cfg = config_space capacity_sectors in
    let n = min (length cfg) (length dest) in (take n cfg ++ drop n dest, length cfg)

-- `logical_block_size`, of the `st_blksize` that `fstat` gives, if it does.
unfoldable pub logical_block_size : Option ℕ → ℕ
logical_block_size none = max sector_size io_align
logical_block_size (some bs) = if bs == 0 then max sector_size io_align else max bs sector_size

-- What `open_buffered` tells apart of the errors of `open`.
pub data OpenError : Type 0 where
  access_denied not_opened : OpenError

-- `open` for reading and writing, and for reading only.
pub data OpenResult : Type 0 where
  opened : OpenResult
  open_failed : OpenError → OpenResult

-- `open_buffered`: whether the image is read-only, if it is opened.
unfoldable pub open_buffered : OpenResult → OpenResult → Option Bool
open_buffered opened read_only = some false
open_buffered (open_failed not_opened) read_only = none
open_buffered (open_failed access_denied) opened = some true
open_buffered (open_failed access_denied) (open_failed e) = none

-- The size check of `VirtioBlock::new`: the capacity in sectors.
unfoldable pub capacity_of : ℕ → Option ℕ
capacity_of len =
    if ltb len sector_size || not (len % sector_size == 0) then none else some (len / sector_size)

-- `VirtioBlock`: `disk` is the device's own, `worker_disk` the one that its worker has.
pub record VirtioBlock : Type 0 where
  pub dev : VirtioDev
  pub disk : Option BlockDisk
  pub worker_disk : Option BlockDisk

-- How a call ends: with `Ok` or with `Err`.
pub data Ended : Type 0 where
  fine erred : Ended

-- The drop of a reservation that was not committed.
abbrev pub give_up : VirtioBlock → Ended × VirtioBlock
give_up b = (erred, record b { dev = drop_reservation true b.dev })

-- `start_worker` once it has the reservation, with whether the event descriptor can be cloned and
-- the handle of the thread, if it can be spawned.
unfoldable pub start_reserved : Bool → Option ℕ → VirtioBlock → Ended × VirtioBlock
start_reserved cloned spawned b = elim b.disk [
  | none ↦ give_up b
  | some d ↦ if not cloned then give_up (record b { disk = some d }) else elim spawned [
    | none ↦ give_up (record b { dev = clear_stop b.dev; disk = some d })
    | some handle ↦ (
      fine,
      record b { dev = commit handle (clear_stop b.dev); disk = none; worker_disk = some d },
    )
  ]
]

-- `start_worker`
unfoldable pub start_worker : Bool → Option ℕ → VirtioBlock → Ended × VirtioBlock
start_worker cloned spawned b =
    let (reserved, dev) = reserve b.dev in
    if reserved then start_reserved cloned spawned (record b { dev = dev }) else (fine, b)

-- How the join of a worker ends: with the disk and its result, or with a panic.
pub data Joined : Type 0 where
  outcome : Ended → BlockDisk → Joined
  panicked : Joined

-- `stop_worker` of a device whose slot is not reserved at the time, so that the loop of `take_worker`
-- ends in its first round.
unfoldable pub stop_worker : Joined → VirtioBlock → Ended × VirtioBlock
stop_worker joined b =
    let (taken, dev) = take_round (request_stop b.dev) in
    elim taken [
      | nobody ↦ (fine, record b { dev = dev })
      | again ↦ (fine, record b { dev = dev })
      | worker handle ↦ elim joined [
        | outcome result d ↦ (result, record b { dev = dev; disk = some d; worker_disk = none })
        | panicked ↦ (erred, record b { dev = dev; worker_disk = none })
      ]
    ]
