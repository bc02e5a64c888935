-- ===== src/Vsock/Stream/Side.antt =====
-- The host's side of a connection is left alone by all that goes to the guest.
use kitsune.Base.{
  ℕ, zero, suc, ◌≡◌, refl, ap, sym, ◌∙◌, Bool, List, [], ◌∷◌, Option, none, some, arith, inl, inr,
  Bool-cases, Option-cases, any, is_empty, length, ltb, wrapping_sub, ◌/◌, max,
}
use kitsune.Vsock.Flow.{Flow, get}
use kitsune.Vsock.Packet.{OutPkt, op_credit_update}
use kitsune.Vsock.State.{Conn, Mux, put, is_waiting}
use kitsune.Vsock.Queue.{enqueue, enqueue_update, maybe_credit, is_ctrl}
use kitsune.Vsock.Stream.{ingest, ingest_rounds, keep, release_prefetched}
use kitsune.Vsock.Stream.Ingest.{chunk, count}
use kitsune.Vsock.Stream.Intake.{get-put_self, conns-request_credit}
use kitsune.Vsock.Invariant.Credit.{updated, enqueue_update-eq}
use kitsune.Vsock.Invariant.Intake.{Round, stop, held, dry, more, ingest_rounds-Round}

-- The socket, what still goes to it, and the phase.
abbrev pub side : Conn → ℕ × List ℕ × List ℕ × Bool
side c = (c.fd, c.ok_pending, c.to_host, is_waiting c.phase)

-- The flow still has a connection, with the same side.
pub record Keeps (m : Mux) (flow : Flow) (c : Conn) : Type 0 where
  pub conn : Conn
  pub there : get flow m.conns ≡ some conn
  pub same : side conn ≡ side c

put_over-Keeps :
    (m : Mux) (flow : Flow) (b c d : Conn)
    → get flow m.conns ≡ some b
    → side d ≡ side c
    → Keeps (put m flow d) flow c
put_over-Keeps m flow b c d there s = record {
  conn = d;
  there = get-put_self m flow b d there;
  same = s;
}

pub put-Keeps :
    (m : Mux) (flow : Flow) (c d : Conn)
    → side d ≡ side c
    → Keeps m flow c
    → Keeps (put m flow d) flow c
put-Keeps m flow c d s k = put_over-Keeps m flow k.conn c d k.there s

pub conns-Keeps :
    (m m' : Mux) (flow : Flow) (c : Conn) → m'.conns ≡ m.conns → Keeps m flow c → Keeps m' flow c
conns-Keeps m m' flow c e k = record { conn = k.conn; there = rw e k.there; same = k.same }

pub conns-enqueue : (m : Mux) (pkt : OutPkt) → (enqueue m pkt).conns ≡ m.conns
unfolding enqueue
conns-enqueue m pkt = ground arith

-- Which connection a flow has is decided by the map.
found :
    (m : Mux) (flow : Flow) (c d : Conn)
    → get flow m.conns ≡ some d
    → Keeps m flow c
    → side d ≡ side c
found m flow c d e k =
    let same : d ≡ k.conn = some_inj d k.conn (sym e ∙ k.there) in ap side same ∙ k.same
  where
    some_inj : (a b : Conn) → some a ≡ some b → a ≡ b
    some_inj a b h = ground arith

Round-Keeps :
    (fuel : ℕ) (m : Mux) (flow : Flow) (c : Conn) (rest : List ℕ) {m' : Mux}
    → ((n : Mux) (left : List ℕ) → Keeps n flow c → Keeps (ingest_rounds fuel n flow left) flow c)
    → Round fuel m flow rest m'
    → Keeps m flow c
    → Keeps m' flow c
Round-Keeps fuel m flow c rest ih stop k = k
Round-Keeps fuel m flow c rest ih (held d e) k =
    put-Keeps m flow c (keep d rest) (found m flow c d e k) k
Round-Keeps fuel m flow c rest ih (dry d e) k =
    conns-Keeps (put m flow (keep d rest)) _ flow c (conns-request_credit _ flow)
      (put-Keeps m flow c (keep d rest) (found m flow c d e k) k)
Round-Keeps fuel m flow c rest ih (more d e) k = ih _ _ (
    conns-Keeps (put m flow (count d (chunk d rest))) _ flow c refl
      (put-Keeps m flow c (count d (chunk d rest)) (found m flow c d e k) k))

ingest_rounds-Keeps :
    (fuel : ℕ) (flow : Flow) (c : Conn) (m : Mux) (rest : List ℕ)
    → Keeps m flow c
    → Keeps (ingest_rounds fuel m flow rest) flow c
unfolding ingest_rounds
ingest_rounds-Keeps zero flow c m rest k = k
ingest_rounds-Keeps (suc fuel) flow c m [] k = k
ingest_rounds-Keeps (suc fuel) flow c m (x ∷ xs) k =
    Round-Keeps fuel m flow c (x ∷ xs) (ingest_rounds-Keeps fuel flow c)
      (ingest_rounds-Round fuel m flow x xs) k

ingest-Keeps :
    (m : Mux) (flow : Flow) (c : Conn) (bytes : List ℕ)
    → Keeps m flow c
    → Keeps (ingest m flow bytes) flow c
unfolding ingest
ingest-Keeps m flow c bytes k = ingest_rounds-Keeps (length bytes) flow c m bytes k

updated-Keeps :
    (m : Mux) (flow : Flow) (c : Conn) (o : Option Conn)
    → get flow m.conns ≡ o
    → Keeps m flow c
    → Keeps (updated m flow o) flow c
updated-Keeps m flow c none e k = conns-Keeps m _ flow c (conns-enqueue m _) k
updated-Keeps m flow c (some d) e k =
    conns-Keeps (put m flow (record d { last_fwd_sent = d.fwd_cnt })) _ flow c (conns-enqueue _ _)
      (put-Keeps m flow c (record d { last_fwd_sent = d.fwd_cnt }) (found m flow c d e k) k)

enqueue_update-Keeps :
    (m : Mux) (flow : Flow) (c : Conn) → Keeps m flow c → Keeps (enqueue_update m flow) flow c
enqueue_update-Keeps m flow c k =
    rw (enqueue_update-eq m flow)
      (elim (Bool-cases (any (is_ctrl flow op_credit_update) m.out_ctrl)) [
        | inl e ↦ rw e k
        | inr e ↦ rw e (updated-Keeps m flow c (get flow m.conns) refl k)
      ])

maybe_credit-Keeps :
    (m : Mux) (flow : Flow) (c : Conn) → Keeps m flow c → Keeps (maybe_credit m flow) flow c
unfolding maybe_credit
maybe_credit-Keeps m flow c k = elim (Option-cases (get flow m.conns)) [
  | inl e ↦ rw (e, maybe_credit) k
  | inr (d, e) ↦
      elim (Bool-cases
        (ltb (wrapping_sub d.fwd_cnt d.last_fwd_sent) (max (d.buf_alloc / 4) 4096))) [
          | inl below ↦ rw (e, maybe_credit) (rw below k)
          | inr due ↦ rw (e, maybe_credit) (rw due (enqueue_update-Keeps m flow c k))
        ]
]

pub release_prefetched-Keeps :
    (m : Mux) (flow : Flow) (b c d : Conn)
    → get flow m.conns ≡ some b
    → side d ≡ side c
    → Keeps (release_prefetched m flow d) flow c
unfolding release_prefetched
release_prefetched-Keeps m flow b c d e s =
    let taken = put_over-Keeps m flow b c (record d { prefetched = [] }) e s in
    elim (Bool-cases (is_empty d.ok_pending)) [
      | inr waits ↦ rw waits (put_over-Keeps m flow b c d e s)
      | inl sent ↦ elim (Bool-cases (is_empty d.prefetched)) [
        | inl none_early ↦ rw (sent, none_early) (maybe_credit-Keeps _ flow c taken)
        | inr early ↦
            rw (sent, early)
              (maybe_credit-Keeps _ flow c (ingest-Keeps _ flow c d.prefetched taken))
      ]
    ]
