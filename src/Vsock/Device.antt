-- ===== src/Vsock/Device.antt =====
-- The device's side of the multiplexer: `drive` of src/devices/virtio_vsock.rs and what it calls, under
-- the lock of the device's state. The crate `virtio_queue` is seen through its answers: a queue is the
-- list of the chains that `pop_descriptor_chain` returns, and `adds` is how the calls of its `add_used`
-- end. The worker's loop of poll and the threads are left out.
pub mod Bytes
pub mod Safe
pub mod Delivery
pub mod Returned
use kitsune.Base.{
  ℕ, zero, suc, ◌+◌, ◌-◌, ◌*◌, min, Bool, true, false, not, ◌&&◌, ◌||◌, Option, none, some, List,
  [], ◌∷◌, ◌++◌, ◌==◌, ltb, if◌then◌else◌, length, take, drop, to_le_bytes,
}
use kitsune.Vsock.Packet.{Header, OutPkt, parse, header, hdr_len, op_rw, max_payload}
use kitsune.Vsock.Host.{Host}
use kitsune.Vsock.State.{Mux}
use kitsune.Vsock.Queue.{has_out, pop_out, push_front_out, credit_of, reset_flow, kill_connections}
use kitsune.Vsock.Guest.{handle_guest_pkt}

abbrev pub queue_rx : ℕ
queue_rx = 0

abbrev pub queue_tx : ℕ
queue_tx = 1

abbrev pub queue_event : ℕ
queue_event = 2

-- A chain of the guest's to read from: its bytes, unless `Reader::new` fails.
pub record TxChain : Type 0 where
  pub head_index : ℕ
  pub readable : Option (List ℕ)

-- A chain to write to: its room, unless `Writer::new` fails, and whether `write_all` succeeds.
pub record RxChain : Type 0 where
  pub head_index : ℕ
  pub available_bytes : Option ℕ
  pub writes : Bool

-- `VsockState` with what the crate answers: `used` is what was returned to the guest, by queue, head
-- and length, and `written` the bytes of each packet that the guest got.
pub record VsockState : Type 0 where
  pub mux : Mux
  pub host : Host
  pub queues_ready : Bool
  pub need_reset_event : Bool
  pub rx_ready : Bool
  pub tx_ready : Bool
  pub event_ready : Bool
  pub rx : List RxChain
  pub tx : List TxChain
  pub event : List RxChain
  pub adds : List Bool
  pub used : List (ℕ × ℕ × ℕ)
  pub written : List (List ℕ)

-- `add_used`: whether it succeeds.
unfoldable pub add_used : VsockState → ℕ → ℕ → ℕ → Bool × VsockState
add_used s queue head len = elim s.adds [
  | [] ↦ (false, s)
  | true ∷ rest ↦ (true, record s { adds = rest; used = s.used ++ (queue, head, len) ∷ [] })
  | false ∷ rest ↦ (false, record s { adds = rest })
]

-- `transport_up`
unfoldable pub transport_up : VsockState → Bool
transport_up s = s.rx_ready && s.tx_ready

-- What `pull_tx` does with the bytes of a chain, and the length that it returns the chain with.
unfoldable pub serve : Mux → Host → List ℕ → ℕ × Mux × Host
serve m h bytes =
    if ltb (length bytes) hdr_len
    then (0, m, h)
    else (let hdr = parse (take hdr_len bytes) in
        let rest = drop hdr_len bytes in
        if ltb max_payload hdr.len
        then (0, reset_flow m hdr.src_port hdr.dst_port, h)
        else if ltb (length rest) hdr.len
        then (0, reset_flow m hdr.src_port hdr.dst_port, h)
        else (let (m', h') = handle_guest_pkt m h hdr (take hdr.len rest) in
            (hdr_len + hdr.len, m', h')))

-- The end of a round of a loop: an error of `add_used` ends it, and so does a `break`.
abbrev pub after_add :
    (VsockState → Option Bool × VsockState) → Bool × VsockState → Option Bool × VsockState
after_add next (true, s) = next s
after_add next (false, s) = (none, s)

-- The loop of `pull_tx` over the chains of the queue; no result stands for an error.
unfoldable pub pull_chains : List TxChain → Bool → VsockState → Option Bool × VsockState
pull_chains [] used s = (some used, s)
pull_chains (c ∷ cs) used s = elim c.readable [
  | none ↦ (none, record s { tx = cs })
  | some bytes ↦
      let (len, m, h) = serve s.mux s.host bytes in
      after_add (pull_chains cs true)
        (add_used (record s { mux = m; host = h; tx = cs }) queue_tx c.head_index len)
]

-- `pull_tx`
unfoldable pub pull_tx : VsockState → Option Bool × VsockState
pull_tx s = if s.tx_ready then pull_chains s.tx false s else (some false, s)

-- How a packet fares with a chain of `avail` bytes: whether the loop of `push_rx` goes on, the length
-- that the chain is returned with, the multiplexer and what the guest got.
unfoldable pub deliver : Mux → OutPkt → ℕ → Bool → Bool × ℕ × Mux × List (List ℕ)
deliver m pkt avail writes =
    let space = avail - hdr_len in
    let n = min (length pkt.payload) space in
    let first : OutPkt = record pkt { payload = take n pkt.payload } in
    let rest : OutPkt = record pkt { payload = drop n pkt.payload } in
    let (buf_alloc, fwd_cnt) = credit_of m pkt.flow in
    if ltb avail hdr_len || (not (pkt.op == op_rw) && ltb space (length pkt.payload))
    then (false, 0, push_front_out m pkt, [])
    else if not writes
    then (false, 0, push_front_out m first, [])
    else (
      true,
      hdr_len + n,
      (if ltb n (length pkt.payload) then push_front_out m rest else m),
      (header first m.guest_cid buf_alloc fwd_cnt ++ first.payload) ∷ [],
    )

-- What `push_rx` does with a chain and the packet that `pop_out` gives.
unfoldable pub push_packet :
    (VsockState → Option Bool × VsockState)
    → VsockState
    → ℕ
    → ℕ
    → Bool
    → Option OutPkt × Mux
    → Option Bool × VsockState
push_packet next s head avail writes (none, m) =
    after_add (λ t. (some true, t)) (add_used (record s { mux = m }) queue_rx head 0)
push_packet next s head avail writes (some pkt, m) =
    let (goes_on, len, m', bytes) = deliver m pkt avail writes in
    after_add (if goes_on then next else (λ t. (some true, t)))
      (add_used (record s { mux = m'; written = s.written ++ bytes }) queue_rx head len)

-- The loop of `push_rx` over the chains of the queue.
unfoldable pub push_chains : List RxChain → Bool → VsockState → Option Bool × VsockState
push_chains [] used s = (some used, s)
push_chains (c ∷ cs) used s =
    if not (has_out s.mux) then (some used, s) else elim c.available_bytes [
      | none ↦ (none, record s { rx = cs })
      | some avail ↦
          push_packet (push_chains cs true) (record s { rx = cs }) c.head_index avail c.writes
            (pop_out s.mux)
    ]

-- `push_rx`
unfoldable pub push_rx : VsockState → Option Bool × VsockState
push_rx s = if s.rx_ready then push_chains s.rx false s else (some false, s)

-- What `push_reset_event` does with a chain.
unfoldable pub push_event : VsockState → RxChain → Option Bool × VsockState
push_event s c = elim c.available_bytes [
  | none ↦ (none, s)
  | some avail ↦
      if ltb avail 4
      then after_add (λ t. (some true, t)) (add_used s queue_event c.head_index 0)
      else if not c.writes
      then (none, s)
      else after_add (λ t. (some true, t))
          (add_used (record s { written = s.written ++ to_le_bytes 4 0 ∷ [] }) queue_event
            c.head_index 4)
]

-- `push_reset_event`
unfoldable pub push_reset_event : VsockState → Option Bool × VsockState
push_reset_event s =
    if not s.event_ready
    then (some false, s)
    else elim s.event [ [] ↦ (some false, s) | c ∷ cs ↦ push_event (record s { event = cs }) c ]

-- The first lines of `drive`: what a change of the transport does.
unfoldable pub follow_transport : VsockState → VsockState
follow_transport s =
    let up = transport_up s in
    if s.queues_ready && not up
    then record s { queues_ready = false; need_reset_event = true; mux = kill_connections s.mux }
    else if up && not s.queues_ready
    then record s { queues_ready = true }
    else s

-- `?` on a result, and the rest of the function.
abbrev pub and_then :
    Option Bool × VsockState
    → (Bool → VsockState → Option Bool × VsockState)
    → Option Bool × VsockState
and_then (none, s) f = (none, s)
and_then (some used, s) f = f used s

-- The reset event of `drive`, and whether the guest has to be signalled.
unfoldable pub drive_event : Bool → VsockState → Option Bool × VsockState
drive_event used s =
    if s.need_reset_event
    then and_then (push_reset_event s) (λ sent t.
      if sent then (some true, record t { need_reset_event = false }) else (some used, t))
    else (some used, s)

-- `drive` up to its signal: the result says whether it signals the guest.
unfoldable pub drive : VsockState → Option Bool × VsockState
drive s =
    let s' = follow_transport s in
    if not (transport_up s')
    then (some false, s')
    else and_then (pull_tx s')
        (λ pulled t. and_then (push_rx t) (λ pushed u. drive_event (pulled || pushed) u))
