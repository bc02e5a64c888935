-- ===== src/Vsock/Device/Delivery.antt =====
-- How `push_rx` of src/devices/virtio_vsock.rs fits a data packet into a chain of the guest's.
use kitsune.Base.{ℕ, ◌+◌, ◌-◌, ◌≤◌, ◌≡◌, true, [], ◌∷◌, ◌++◌, length, take, drop, min}
use kitsune.Vsock.Packet.{OutPkt, header, hdr_len}
use kitsune.Vsock.State.{Mux}
use kitsune.Vsock.Queue.{credit_of}
use kitsune.Vsock.Stream.Ingest.{payloads}
use kitsune.Vsock.Device.{deliver}

-- The bytes of the packet that there is room for behind the header.
abbrev pub sent_of : OutPkt → ℕ → ℕ
sent_of pkt avail = min (length pkt.payload) (avail - hdr_len)

-- The guest gets the first bytes of the packet, all that there is room for, behind a header for them.
pub record Delivered (m : Mux) (pkt : OutPkt) (avail : ℕ) : Type 0 where
  pub bytes :
      let (buf_alloc, fwd_cnt) = credit_of m pkt.flow in
      (deliver m pkt avail true).3
      ≡ (header
            (record pkt { payload = take (sent_of pkt avail) pkt.payload })
            m.guest_cid
            buf_alloc
            fwd_cnt
          ++ take (sent_of pkt avail) pkt.payload)
        ∷ []
  pub returned : (deliver m pkt avail true).1 ≡ hdr_len + sent_of pkt avail
  pub fits : (deliver m pkt avail true).1 ≤ avail
  pub waiting :
      payloads pkt.flow (deliver m pkt avail true).2.out_data
      ≡ drop (sent_of pkt avail) pkt.payload ++ payloads pkt.flow m.out_data
