-- ===== src/Blk/Request.antt =====
-- `handle_request` of src/devices/virtio_blk.rs. A chain of the guest's is seen through the answers of
-- the crate `virtio_queue`: the bytes to read, the room to write to and how the calls of its `Reader`
-- and `Writer` end.
pub mod Reads
pub mod Writes
pub mod Kept
pub mod Ready
use kitsune.Base.{
  ℕ, zero, suc, ◌+◌, ◌-◌, ◌*◌, ◌%◌, ◌^◌, Bool, true, false, not, ◌&&◌, ◌||◌, Option, none, some,
  List, [], ◌∷◌, ◌++◌, ◌==◌, ltb, if◌then◌else◌, length, slice, drop, replicate, from_le_bytes,
  to_le_bytes, bit_and, u32_mod, u64_mod, get_elem?,
}
use kitsune.Blk.Transfer.{IoError, IoResult, ok, err, Bytes}
use kitsune.Blk.Disk.{
  BlockDisk, Did, ensure, zero_scratch, read_at, write_at, flush_data, sector_size, bytes_of,
}

abbrev pub status_ok : ℕ
status_ok = 0

abbrev pub status_ioerr : ℕ
status_ioerr = 1

abbrev pub status_unsupp : ℕ
status_unsupp = 2

abbrev pub type_in : ℕ
type_in = 0

abbrev pub type_out : ℕ
type_out = 1

abbrev pub type_flush : ℕ
type_flush = 4

abbrev pub type_get_id : ℕ
type_get_id = 8

abbrev pub f_ro : ℕ
f_ro = 2 ^ 5

abbrev pub f_flush : ℕ
f_flush = 2 ^ 9

-- Bytes of `VirtioBlkReqHdr`.
abbrev pub hdr_len : ℕ
hdr_len = 16

-- `VirtioBlkReqHdr`
pub record VirtioBlkReqHdr : Type 0 where
  pub type_ : ℕ
  pub ioprio : ℕ
  pub sector : ℕ

unfoldable pub parse_hdr : List ℕ → VirtioBlkReqHdr
parse_hdr raw = record {
  type_ = from_le_bytes (slice 0 4 raw);
  ioprio = from_le_bytes (slice 4 4 raw);
  sector = from_le_bytes (slice 8 8 raw);
}

-- A chain: `readable` and `available` are missing where `Reader::new` and `Writer::new` fail,
-- `read_ok` and `writes` are how `read_exact` and the calls of `write_all` end, and
-- `driver_features` is what the driver had negotiated when the chain was popped.
pub record Chain : Type 0 where
  pub head_index : ℕ
  pub readable : Option (List ℕ)
  pub available : Option ℕ
  pub read_ok : Bool
  pub writes : List Bool
  pub driver_features : ℕ

-- `BlockReqError`
pub data BlockReqError : Type 0 where
  io chain unsupported : BlockReqError

-- The device's side of a request: the disk, how the next calls of `write_all` end, and what the
-- calls that succeeded have written to the guest.
pub record Served : Type 0 where
  pub disk : BlockDisk
  pub writes : List Bool
  pub out : List ℕ

-- How a request ends: the length that it is returned with, or an error.
pub data Answer : Type 0 where
  written : ℕ → Answer
  failed : BlockReqError → Answer

abbrev pub Handled : Type 0
Handled = Answer × Served

-- `write_all`: whether it succeeds.
unfoldable pub write_all : List ℕ → Served → Bool × Served
write_all bytes s = elim s.writes [
  | [] ↦ (false, s)
  | true ∷ rest ↦ (true, record s { writes = rest; out = s.out ++ bytes })
  | false ∷ rest ↦ (false, record s { writes = rest })
]

-- `.map_err(|_| BlockReqError::Io)?`, and the rest of the function.
abbrev pub or_io : Bool × Served → (Served → Handled) → Handled
or_io (true, s) f = f s
or_io (false, s) f = (failed io, s)

-- A call on the disk.
abbrev pub with_disk : {A : Type 0} → (BlockDisk → A × BlockDisk) → Served → A × Served
with_disk f s = let (a, d) = f s.disk in (a, record s { disk = d })

-- `checked_mul` and `checked_add` of the offset and the end of a request of `data_len` bytes.
unfoldable pub offset_of : ℕ → ℕ → Option ℕ
offset_of sector data_len =
    if ltb (sector * sector_size) u64_mod && ltb (sector * sector_size + data_len) u64_mod
    then some (sector * sector_size)
    else none

-- The bytes of the scratch buffer, unless it is too small.
unfoldable pub as_slice : ℕ → BlockDisk → Option (List ℕ)
as_slice len d = if ltb d.scratch.cap len then none else some (bytes_of len d.scratch.ptr)

-- Two calls of `write_all`, for some bytes and for the status, and the length of the answer.
unfoldable pub reply : List ℕ → ℕ → ℕ → Served → Handled
reply bytes status n s =
    or_io (write_all bytes s) (λ t. or_io (write_all (status ∷ []) t) (λ u. (written n, u)))

-- The end of a read: the bytes of the buffer and the status go to the guest.
unfoldable pub reply_data : ℕ → ℕ → Served → Handled
reply_data data_len status s = elim (as_slice data_len s.disk) [
  | none ↦ (failed io, s)
  | some bytes ↦ reply bytes status ((data_len + 1) % u32_mod) s
]

-- What a read does when `read_at` has ended.
unfoldable pub after_read : ℕ → IoResult (Unit {0}) × Served → Handled
after_read data_len (ok u, s) = reply_data data_len status_ok s
after_read data_len (err e, s) =
    reply_data data_len status_ioerr (with_disk (zero_scratch data_len) s).1

-- A read of `data_len` bytes at `offset`.
unfoldable pub read_range : ℕ → ℕ → ℕ → Served → Handled
read_range capacity offset data_len s =
    if ltb (capacity * sector_size) (offset + data_len)
    then or_io (with_disk (zero_scratch data_len) s) (reply_data data_len status_ioerr)
    else after_read data_len (with_disk (read_at offset data_len) s)

-- `VIRTIO_BLK_T_IN`
unfoldable pub handle_in : ℕ → ℕ → ℕ → Served → Handled
handle_in capacity sector zero s = (failed chain, s)
handle_in capacity sector (suc data_len) s = elim (offset_of sector data_len) [
  | none ↦ (failed io, s)
  | some offset ↦ read_range capacity offset data_len s
]

-- `read_exact` into the scratch buffer.
unfoldable pub fill_scratch : List ℕ → BlockDisk → BlockDisk
fill_scratch bytes d = record d {
  scratch = record (d.scratch) {
    ptr = λ i. elim (get_elem? bytes i) [ none ↦ d.scratch.ptr i | some b ↦ b ];
  };
}

-- The status of a write, and what the calls of a write end with.
unfoldable pub reply_status : ℕ → Served → Handled
reply_status status s = or_io (write_all (status ∷ []) s) (λ t. (written 1, t))

abbrev pub status_of : IoResult (Unit {0}) → ℕ
status_of (ok u) = status_ok
status_of (err e) = status_ioerr

-- A write of `data_len` bytes of the scratch buffer at `offset`.
unfoldable pub write_range : ℕ → Bool → ℕ → ℕ → Served → Handled
write_range capacity ro offset data_len s =
    if ro || ltb (capacity * sector_size) (offset + data_len)
    then reply_status status_ioerr s
    else (let (r, t) = with_disk (write_at offset data_len) s in reply_status (status_of r) t)

-- `VIRTIO_BLK_T_OUT`
unfoldable pub handle_out : ℕ → Bool → ℕ → ℕ → Bool → List ℕ → Served → Handled
handle_out capacity readonly features sector read_ok bytes s =
    or_io (with_disk (ensure (length bytes)) s) (λ t.
      if not read_ok
      then (failed io, t)
      else (let t' : Served = record t { disk = fill_scratch bytes t.disk } in
          elim (offset_of sector (length bytes)) [
            | none ↦ (failed io, t')
            | some offset ↦
                write_range capacity (readonly || not (bit_and features f_ro == 0)) offset
                  (length bytes) t'
          ]))

-- `VIRTIO_BLK_T_FLUSH`
unfoldable pub handle_flush : Bool → ℕ → Served → Handled
handle_flush readonly features s =
    if bit_and features f_flush == 0
    then reply_status status_unsupp s
    else if readonly
    then reply_status status_ok s
    else (let (r, t) = with_disk flush_data s in reply_status (status_of r) t)

-- "kitsune-blk" in 20 bytes.
abbrev pub device_id : List ℕ
device_id = 107 ∷ 105 ∷ 116 ∷ 115 ∷ 117 ∷ 110 ∷ 101 ∷ 45 ∷ 98 ∷ 108 ∷ 107 ∷ replicate 9 0

-- `VIRTIO_BLK_T_GET_ID`
unfoldable pub handle_get_id : ℕ → Served → Handled
handle_get_id total s = if ltb total 21 then (failed chain, s) else reply device_id status_ok 21 s

-- The padding of a request of an unknown type.
unfoldable pub pad : ℕ → Served → Handled
pad len s = or_io (with_disk (zero_scratch len) s) (λ t. elim (as_slice len t.disk) [
  | none ↦ (failed io, t)
  | some bytes ↦ (written 0, (write_all bytes t).1)
])

abbrev pub after_pad : ℕ → Handled → Handled
after_pad total (failed e, s) = (failed e, s)
after_pad total (written n, s) = (written (total % u32_mod), (write_all (status_unsupp ∷ []) s).1)

-- A request of an unknown type.
unfoldable pub handle_unknown : ℕ → Served → Handled
handle_unknown zero s = (failed unsupported, s)
handle_unknown (suc zero) s = after_pad 1 (written 0, s)
handle_unknown (suc (suc n)) s = after_pad (suc (suc n)) (pad (suc n) s)

-- `match hdr.type_`
unfoldable pub dispatch : ℕ → Bool → ℕ → VirtioBlkReqHdr → ℕ → Bool → List ℕ → Served → Handled
dispatch capacity readonly features hdr total read_ok bytes s =
    if hdr.type_ == type_in
    then handle_in capacity hdr.sector total s
    else if hdr.type_ == type_out
    then handle_out capacity readonly features hdr.sector read_ok bytes s
    else if hdr.type_ == type_flush
    then handle_flush readonly features s
    else if hdr.type_ == type_get_id
    then handle_get_id total s
    else handle_unknown total s

-- `handle_request`
unfoldable pub handle_request : ℕ → Bool → Chain → BlockDisk → Handled
handle_request capacity readonly c d =
    let s : Served = record { disk = d; writes = c.writes; out = [] } in
    elim c.readable [
      | none ↦ (failed chain, s)
      | some bytes ↦ elim c.available [
        | none ↦ (failed chain, s)
        | some total ↦
            if ltb (length bytes) hdr_len
            then (failed io, s)
            else dispatch capacity readonly c.driver_features (parse_hdr bytes) total c.read_ok
                (drop hdr_len bytes) s
      ]
    ]
