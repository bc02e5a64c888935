-- ===== src/Vsock/Device/Safe.antt =====
-- `drive` of src/devices/virtio_vsock.rs and the invariant of the multiplexer.
use kitsune.Base.{
  ℕ, ◌≡◌, inl, inr, refl, sym, subst, Bool, true, false, not, ◌&&◌, ◌||◌, Option, none, some, List,
  [], ◌∷◌, All, length, take, drop, arith, ltb, min, ◌-◌, ◌==◌, if◌then◌else◌, Bool-cases,
}
use kitsune.Vsock.Packet.{OutPkt, parse, hdr_len, max_payload, op_rw}
use kitsune.Vsock.Host.{Host}
use kitsune.Vsock.State.{Mux}
use kitsune.Vsock.Queue.{pop_out, push_front_out, has_out}
use kitsune.Vsock.Invariant.{MuxInv}
use kitsune.Vsock.Invariant.Credit.{reset_flow-MuxInv, kill_connections-MuxInv}
use kitsune.Vsock.Invariant.Guest.{handle_guest_pkt-MuxInv}
use kitsune.Vsock.Reach.{Popped, pop_out-Popped, push_front_out-MuxInv}
use kitsune.Vsock.Device.Bytes.{IsBytes, IsBytes-take, parse-HeaderFits}
use kitsune.Vsock.Device.{
  VsockState, TxChain, RxChain, add_used, serve, after_add, pull_chains, pull_tx, deliver,
  push_packet, push_chains, push_rx, push_event, push_reset_event, follow_transport, and_then,
  drive_event, drive, queue_tx, queue_rx, queue_event, transport_up,
}

serve-MuxInv :
    (m : Mux) (h : Host) (bytes : List ℕ) → IsBytes bytes → MuxInv m → MuxInv (serve m h bytes).1
unfolding serve
serve-MuxInv m h bytes small v =
    let hdr = parse (take hdr_len bytes) in
    let rest = drop hdr_len bytes in
    let fits = parse-HeaderFits (take hdr_len bytes) (IsBytes-take hdr_len bytes small) in
    let reset = reset_flow-MuxInv m hdr.src_port hdr.dst_port v in
    elim (Bool-cases (ltb (length bytes) hdr_len)) [
      | inl short ↦ rw short v
      | inr long ↦ elim (Bool-cases (ltb max_payload hdr.len)) [
        | inl over ↦ rw (long, over) reset
        | inr fine ↦ elim (Bool-cases (ltb (length rest) hdr.len)) [
          | inl cut ↦ rw (long, fine, cut) reset
          | inr whole ↦
              rw (long, fine, whole) (handle_guest_pkt-MuxInv m h hdr (take hdr.len rest) fits v)
        ]
      ]
    ]

mux-add_used : (s : VsockState) (q h l : ℕ) → (add_used s q h l).1.mux ≡ s.mux
unfolding add_used
mux-add_used s q h l = ground arith

-- A continuation that keeps the invariant.
abbrev Keeps : (VsockState → Option Bool × VsockState) → Type 0
Keeps next = (s : VsockState) → MuxInv s.mux → MuxInv (next s).1.mux

after_add-MuxInv :
    (next : VsockState → Option Bool × VsockState) (r : Bool × VsockState)
    → Keeps next
    → MuxInv r.1.mux
    → MuxInv (after_add next r).1.mux
after_add-MuxInv next (true, s) k v = k s v
after_add-MuxInv next (false, s) k v = v

added-MuxInv :
    (next : VsockState → Option Bool × VsockState) (s : VsockState) (q h l : ℕ)
    → Keeps next
    → MuxInv s.mux
    → MuxInv (after_add next (add_used s q h l)).1.mux
added-MuxInv next s q h l k v =
    after_add-MuxInv next (add_used s q h l) k (rw (mux-add_used s q h l) v)

-- The chain's bytes, if it can be read.
abbrev pub ChainIsBytes : TxChain → Type 0
ChainIsBytes c = elim c.readable [ none ↦ Unit | some bytes ↦ IsBytes bytes ]

either :
    (b : Bool) (x y : Option Bool × VsockState)
    → MuxInv x.1.mux
    → MuxInv y.1.mux
    → MuxInv (if b then x else y).1.mux
either true x y v w = v
either false x y v w = w

read_chain :
    (o : Option (List ℕ)) (head : ℕ) (cs : List TxChain) (used : Bool) (s : VsockState)
    → ChainIsBytes (record { head_index = head; readable = o })
    → Keeps (pull_chains cs true)
    → MuxInv s.mux
    → MuxInv (pull_chains ((record { head_index = head; readable = o }) ∷ cs) used s).1.mux
unfolding pull_chains
read_chain none head cs used s b k v = v
read_chain (some bytes) head cs used s b k v =
    added-MuxInv (pull_chains cs true) _ queue_tx head (serve s.mux s.host bytes).0 k
      (serve-MuxInv s.mux s.host bytes b v)

pull_chains-MuxInv :
    (cs : List TxChain) (used : Bool) → All ChainIsBytes cs → Keeps (pull_chains cs used)
unfolding pull_chains
pull_chains-MuxInv [] used h s v = v
pull_chains-MuxInv (c ∷ cs) used (hc, h) s v =
    read_chain c.readable c.head_index cs used s hc (pull_chains-MuxInv cs true h) v

pull_tx-MuxInv : (s : VsockState) → All ChainIsBytes s.tx → MuxInv s.mux → MuxInv (pull_tx s).1.mux
unfolding pull_tx
pull_tx-MuxInv s h v = either s.tx_ready _ _ (pull_chains-MuxInv s.tx false h s v) v

-- A packet that `pop_out` gave and that goes back, whole or in part.
put_back-MuxInv :
    (m m' : Mux) (pkt : OutPkt) (payload : List ℕ)
    → Popped m pkt m'
    → MuxInv (push_front_out m' (record pkt { payload = payload }))
put_back-MuxInv m m' pkt payload p =
    push_front_out-MuxInv m' (record pkt { payload = payload }) p.1 p.0

deliver-MuxInv :
    (m m' : Mux) (pkt : OutPkt) (avail : ℕ) (writes : Bool)
    → Popped m pkt m'
    → MuxInv (deliver m' pkt avail writes).2
unfolding deliver
deliver-MuxInv m m' pkt avail writes p =
    let space = avail - hdr_len in
    let n = min (length pkt.payload) space in
    elim (Bool-cases
      (ltb avail hdr_len || (not (pkt.op == op_rw) && ltb space (length pkt.payload)))) [
        | inl small ↦ rw small (put_back-MuxInv m m' pkt pkt.payload p)
        | inr fits ↦ elim (Bool-cases writes) [
          | inr fails ↦ rw (fits, fails) (put_back-MuxInv m m' pkt (take n pkt.payload) p)
          | inl done ↦ elim (Bool-cases (ltb n (length pkt.payload))) [
            | inl more ↦ rw (fits, done, more) (put_back-MuxInv m m' pkt (drop n pkt.payload) p)
            | inr all ↦ rw (fits, done, all) p.0
          ]
        ]
      ]

stop-Keeps : Keeps (λ t. (some true, t))
stop-Keeps s v = v

-- The state with what the packet left behind.
go_on-Keeps :
    (b : Bool) (next : VsockState → Option Bool × VsockState)
    → Keeps next
    → Keeps (if b then next else (λ t. (some true, t)))
go_on-Keeps true next k = k
go_on-Keeps false next k = stop-Keeps

pop_out-none : (m m' : Mux) → pop_out m ≡ (none, m') → m' ≡ m
unfolding pop_out
pop_out-none m m' e = ground arith

push_packet-MuxInv :
    (next : VsockState → Option Bool × VsockState) (s : VsockState) (head avail : ℕ) (writes : Bool)
    (o : Option OutPkt) (m' : Mux)
    → Keeps next
    → pop_out s.mux ≡ (o, m')
    → MuxInv s.mux
    → MuxInv (push_packet next s head avail writes (o, m')).1.mux
unfolding push_packet
push_packet-MuxInv next s head avail writes none m' k e v =
    added-MuxInv (λ t. (some true, t)) (record s { mux = m' }) queue_rx head 0 stop-Keeps
      (subst MuxInv (sym (pop_out-none s.mux m' e)) v)
push_packet-MuxInv next s head avail writes (some pkt) m' k e v =
    let d = deliver m' pkt avail writes in
    added-MuxInv (if d.0 then next else (λ t. (some true, t))) _ queue_rx head d.1
      (go_on-Keeps d.0 next k)
      (deliver-MuxInv s.mux m' pkt avail writes (pop_out-Popped s.mux pkt m' e v))

room :
    (o : Option ℕ) (head : ℕ) (writes : Bool) (cs : List RxChain) (used : Bool) (s : VsockState)
    → Keeps (push_chains cs true)
    → MuxInv s.mux
    → MuxInv
        (push_chains
          ((record { head_index = head; available_bytes = o; writes = writes }) ∷ cs)
          used
          s).1.mux
unfolding push_chains
room none head writes cs used s k v = either (not (has_out s.mux)) _ _ v v
room (some avail) head writes cs used s k v = either (not (has_out s.mux)) _ _ v (
    push_packet-MuxInv (push_chains cs true) (record s { rx = cs }) head avail writes
      (pop_out s.mux).0 (pop_out s.mux).1 k refl v)

push_chains-MuxInv : (cs : List RxChain) (used : Bool) → Keeps (push_chains cs used)
unfolding push_chains
push_chains-MuxInv [] used s v = v
push_chains-MuxInv (c ∷ cs) used s v =
    room c.available_bytes c.head_index c.writes cs used s (push_chains-MuxInv cs true) v

push_rx-MuxInv : Keeps push_rx
unfolding push_rx
push_rx-MuxInv s v = either s.rx_ready _ _ (push_chains-MuxInv s.rx false s v) v

push_event-MuxInv :
    (o : Option ℕ) (head : ℕ) (writes : Bool) (s : VsockState)
    → MuxInv s.mux
    → MuxInv
        (push_event s (record { head_index = head; available_bytes = o; writes = writes })).1.mux
unfolding push_event
push_event-MuxInv none head writes s v = v
push_event-MuxInv (some avail) head writes s v =
    either (ltb avail 4) _ _ (added-MuxInv _ s queue_event head 0 stop-Keeps v)
      (either (not writes) _ _ v (added-MuxInv _ _ queue_event head 4 stop-Keeps v))

event_list :
    (cs : List RxChain) (s : VsockState)
    → MuxInv s.mux
    → MuxInv (push_reset_event (record s { event = cs })).1.mux
unfolding push_reset_event
event_list [] s v = either (not s.event_ready) _ _ v v
event_list (c ∷ cs) s v =
    either (not s.event_ready) _ _ v (push_event-MuxInv c.available_bytes c.head_index c.writes _ v)

follow_transport-MuxInv : (s : VsockState) → MuxInv s.mux → MuxInv (follow_transport s).mux
unfolding follow_transport
follow_transport-MuxInv s v = elim (Bool-cases (s.queues_ready && not (transport_up s))) [
  | inl down ↦ simp (down) (kill_connections-MuxInv s.mux v)
  | inr other ↦ elim (Bool-cases (transport_up s && not s.queues_ready)) [
    | inl up ↦ simp (other, up) v
    | inr same ↦ simp (other, same) v
  ]
]

and_then-MuxInv :
    (r : Option Bool × VsockState) (f : Bool → VsockState → Option Bool × VsockState)
    → ((used : Bool) → Keeps (f used))
    → MuxInv r.1.mux
    → MuxInv (and_then r f).1.mux
and_then-MuxInv (none, s) f k v = v
and_then-MuxInv (some used, s) f k v = k used s v

drive_event-MuxInv : (used : Bool) → Keeps (drive_event used)
unfolding drive_event
drive_event-MuxInv used s v =
    either s.need_reset_event _ _
      (and_then-MuxInv (push_reset_event s) _ (λ sent t w. either sent _ _ w w)
        (event_list s.event s v))
      v

tx-follow_transport : (s : VsockState) → (follow_transport s).tx ≡ s.tx
unfolding follow_transport
tx-follow_transport s = ground arith

-- Whatever chains the guest has made available on the three queues, whether or not it has taken the
-- queues down, and however the crate's calls end, `drive` keeps the invariant of the multiplexer, if
-- the guest's bytes are bytes.
pub drive-MuxInv : (s : VsockState) → All ChainIsBytes s.tx → MuxInv s.mux → MuxInv (drive s).1.mux
unfolding drive
drive-MuxInv s h v =
    let s' = follow_transport s in
    let v' = follow_transport-MuxInv s v in
    either (not (transport_up s')) _ _ v' (
      and_then-MuxInv (pull_tx s') _
        (λ pulled t w.
          and_then-MuxInv (push_rx t) _ (λ pushed. drive_event-MuxInv (pulled || pushed))
            (push_rx-MuxInv t w))
        (pull_tx-MuxInv s' (subst (λ cs. All ChainIsBytes cs) (sym (tx-follow_transport s)) h) v'))
