-- ===== src/Vsock/Packet/RoundTrip.antt =====
-- Reading back a header that the host wrote.
use kitsune.Base.{
  ℕ, ◌%◌, ◌^◌, ◌<◌, ◌≡◌, refl, length, from_le_bytes-to_le_bytes, arith, u32_mod, u64_mod,
}
use kitsune.Vsock.Packet.{Header, OutPkt, parse, header, host_cid, type_stream, hdr_len}

-- The fields of a packet fit the widths that the header has for them.
pub record Fits (pkt : OutPkt) (guest_cid buf_alloc fwd_cnt : ℕ) : Type 0 where
  pub guest_port : pkt.flow.guest_port < u32_mod
  pub host_port : pkt.flow.host_port < u32_mod
  pub op : pkt.op < 2 ^ 16
  pub flags : pkt.flags < u32_mod
  pub cid : guest_cid < u64_mod
  pub alloc : buf_alloc < u32_mod
  pub fwd : fwd_cnt < u32_mod

abbrev pub sent_header : OutPkt → ℕ → ℕ → ℕ → Header
sent_header pkt guest_cid buf_alloc fwd_cnt = record {
  src_cid = host_cid;
  dst_cid = guest_cid;
  src_port = pkt.flow.host_port;
  dst_port = pkt.flow.guest_port;
  len = length pkt.payload % u32_mod;
  type_ = type_stream;
  op = pkt.op;
  flags = pkt.flags;
  buf_alloc = buf_alloc;
  fwd_cnt = fwd_cnt;
}

pub length-header : (pkt : OutPkt) (cid alloc fwd : ℕ) → length (header pkt cid alloc fwd) ≡ hdr_len
unfolding header
length-header pkt cid alloc fwd = refl

-- `Header::parse` reads back every field that `OutPkt::header` wrote, if each fits its width; the
-- length is that of the payload, as a u32, and the packet goes from the host to the guest.
pub parse-header :
    (pkt : OutPkt) (cid alloc fwd : ℕ)
    → Fits pkt cid alloc fwd
    → parse (header pkt cid alloc fwd) ≡ sent_header pkt cid alloc fwd
unfolding parse header
parse-header pkt cid alloc fwd f = λ i. record {
  src_cid = host_cid;
  dst_cid = from_le_bytes-to_le_bytes 8 cid f.cid i;
  src_port = from_le_bytes-to_le_bytes 4 pkt.flow.host_port f.host_port i;
  dst_port = from_le_bytes-to_le_bytes 4 pkt.flow.guest_port f.guest_port i;
  len = from_le_bytes-to_le_bytes 4 (length pkt.payload % u32_mod) (omega arith) i;
  type_ = type_stream;
  op = from_le_bytes-to_le_bytes 2 pkt.op f.op i;
  flags = from_le_bytes-to_le_bytes 4 pkt.flags f.flags i;
  buf_alloc = from_le_bytes-to_le_bytes 4 alloc f.alloc i;
  fwd_cnt = from_le_bytes-to_le_bytes 4 fwd f.fwd i;
}
