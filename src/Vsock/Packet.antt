-- ===== src/Vsock/Packet.antt =====
-- The packet header and the queued packets of src/devices/vsock_mux.rs: `Header`, `OutPkt`,
-- `validate_guest_cid` and the constants. A byte is a number below 256.
pub mod RoundTrip
use kitsune.Base.{
  ℕ, ◌*◌, ◌%◌, ◌≡◌, Bool, ◌&&◌, Option, none, some, List, [], length, ltb, leb, if◌then◌else◌,
  to_le_bytes, from_le_bytes, slice, copy_from_slice, replicate, u32_mod,
}
use kitsune.Vsock.Flow.{Flow}

abbrev pub host_cid : ℕ
host_cid = 2

abbrev pub type_stream : ℕ
type_stream = 1

abbrev pub op_request : ℕ
op_request = 1

abbrev pub op_response : ℕ
op_response = 2

abbrev pub op_rst : ℕ
op_rst = 3

abbrev pub op_shutdown : ℕ
op_shutdown = 4

abbrev pub op_rw : ℕ
op_rw = 5

abbrev pub op_credit_update : ℕ
op_credit_update = 6

abbrev pub op_credit_request : ℕ
op_credit_request = 7

abbrev pub shutdown_rcv : ℕ
shutdown_rcv = 1

abbrev pub shutdown_send : ℕ
shutdown_send = 2

abbrev pub hdr_len : ℕ
hdr_len = 44

abbrev pub buf_alloc_bytes : ℕ
buf_alloc_bytes = 256 * 1024

abbrev pub max_chunk : ℕ
max_chunk = 16 * 1024

abbrev pub max_payload : ℕ
max_payload = 64 * 1024

abbrev pub max_conns : ℕ
max_conns = 128

abbrev pub max_prefetch : ℕ
max_prefetch = 64 * 1024

-- `validate_guest_cid`: whether the CID is accepted.
pub validate_guest_cid : ℕ → Bool
validate_guest_cid cid = leb 3 cid && ltb cid 0xffff_ffff

pub record Header : Type 0 where
  pub src_cid : ℕ
  pub dst_cid : ℕ
  pub src_port : ℕ
  pub dst_port : ℕ
  pub len : ℕ
  pub type_ : ℕ
  pub op : ℕ
  pub flags : ℕ
  pub buf_alloc : ℕ
  pub fwd_cnt : ℕ

-- `Header::parse`
unfoldable pub parse : List ℕ → Header
parse raw = record {
  src_cid = at 0 8;
  dst_cid = at 8 8;
  src_port = at 16 4;
  dst_port = at 20 4;
  len = at 24 4;
  type_ = at 28 2;
  op = at 30 2;
  flags = at 32 4;
  buf_alloc = at 36 4;
  fwd_cnt = at 40 4;
}
  where
    at : ℕ → ℕ → ℕ
    at off w = from_le_bytes (slice off w raw)

pub record OutPkt : Type 0 where
  pub flow : Flow
  pub op : ℕ
  pub flags : ℕ
  pub payload : List ℕ

-- `OutPkt::ctrl`
abbrev pub ctrl : Flow → ℕ → ℕ → OutPkt
ctrl flow op flags = record { flow = flow; op = op; flags = flags; payload = [] }

-- `OutPkt::header`: the fields are copied into 44 zero bytes, each at its offset.
unfoldable pub header : OutPkt → ℕ → ℕ → ℕ → List ℕ
header pkt guest_cid buf_alloc fwd_cnt =
    let raw = replicate hdr_len 0 in
    let raw = copy_from_slice raw 0 (to_le_bytes 8 host_cid) in
    let raw = copy_from_slice raw 8 (to_le_bytes 8 guest_cid) in
    let raw = copy_from_slice raw 16 (to_le_bytes 4 pkt.flow.host_port) in
    let raw = copy_from_slice raw 20 (to_le_bytes 4 pkt.flow.guest_port) in
    let raw = copy_from_slice raw 24 (to_le_bytes 4 (length pkt.payload % u32_mod)) in
    let raw = copy_from_slice raw 28 (to_le_bytes 2 type_stream) in
    let raw = copy_from_slice raw 30 (to_le_bytes 2 pkt.op) in
    let raw = copy_from_slice raw 32 (to_le_bytes 4 pkt.flags) in
    let raw = copy_from_slice raw 36 (to_le_bytes 4 buf_alloc) in
    copy_from_slice raw 40 (to_le_bytes 4 fwd_cnt)
