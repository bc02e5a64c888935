-- ===== src/Vsock/Invariant/Intake.antt =====
-- `ingest` keeps the invariant.
use kitsune.Base.{
  ℕ, zero, suc, ◌-◌, ◌≡◌, refl, ◌∙◌, true, List, [], ◌∷◌, some, length, length-append, length-take,
  All-append, arith, take, drop, min, inl, inr, Bool-cases, Option-cases, ltb,
}
use native.Mathlib.Decide.{ℕ_discrete}
use kitsune.Vsock.Flow.{Flow, get, contains_key, contains_key_of_get, contains_key-adjust}
use kitsune.Vsock.Packet.{op_rw, max_prefetch}
use kitsune.Vsock.State.{Conn, Mux, put, peer_avail}
use kitsune.Vsock.Queue.{request_credit}
use kitsune.Vsock.Stream.{keep, queue_chunk, ingest, ingest_rounds, is_closed_to_guest}
use kitsune.Vsock.Stream.Ingest.{chunk, count, ingest_dry, ingest_more}
use kitsune.Vsock.Stream.Intake.{stash_prefetch-eq-put}
use kitsune.Vsock.Invariant.{ConnInv, MuxInv, same_counters}
use kitsune.Vsock.Invariant.Queue.{conn_of, put-MuxInv}
use kitsune.Vsock.Invariant.Credit.{request_credit-MuxInv}

pub keep-ConnInv : (c : Conn) (bytes : List ℕ) → ConnInv c → ConnInv (keep c bytes)
keep-ConnInv c bytes i =
    let room = max_prefetch - length c.prefetched in
    same_counters c (keep c bytes) refl
      (omega (
        arith,
        i.early,
        length-append c.prefetched (take (min (length bytes) room) bytes),
        length-take (min (length bytes) room) bytes,
      ))
      i.staged i

pub count-ConnInv : (c : Conn) (n : ℕ) → ConnInv c → ConnInv (count c n)
count-ConnInv c n i = record {
  alloc = i.alloc;
  held = i.held;
  received = i.received;
  forwarded = i.forwarded;
  early = i.early;
  counts = record { sent = omega arith; forwarded = i.counts.forwarded; alloc = i.counts.alloc };
  staged = i.staged;
}

-- A packet of the guest's bytes goes out for a connection that is there.
queue_chunk-MuxInv :
    (m : Mux) (flow : Flow) (c : Conn) (n : ℕ) (rest : List ℕ)
    → get flow m.conns ≡ some c
    → MuxInv m
    → MuxInv (queue_chunk m flow c n rest)
queue_chunk-MuxInv m flow c n rest e v =
    let v' = put-MuxInv m flow (count c n) v (count-ConnInv c n (conn_of m flow c v e)) in
    record {
      conns = v'.conns;
      ctrl = v'.ctrl;
      bytes = All-append (λ p. p.op ≡ op_rw) m.out_data _ v'.bytes (refl, tt);
      live =
          All-append (λ p. contains_key p.flow (put m flow (count c n)).conns ≡ true) m.out_data _
            v'.live
            (
              contains_key-adjust flow flow (λ _. count c n) m.conns
                  ∙ contains_key_of_get flow c m.conns e,
              tt,
            );
      lines = v'.lines;
      waiting = v'.waiting;
      port = v'.port;
    }

-- The branches of a round of `ingest`.
pub data Round (fuel : ℕ) (m : Mux) (flow : Flow) (rest : List ℕ) : Mux → Type 0 where
  stop : Round fuel m flow rest m
  held : (c : Conn) → get flow m.conns ≡ some c → Round fuel m flow rest (put m flow (keep c rest))
  dry :
      (c : Conn)
      → get flow m.conns ≡ some c
      → Round fuel m flow rest (request_credit (put m flow (keep c rest)) flow)
  more :
      (c : Conn)
      → get flow m.conns ≡ some c
      → Round fuel m flow rest (
          ingest_rounds fuel
            (queue_chunk m flow c (chunk c rest) rest)
            flow
            (drop (chunk c rest) rest))

pub ingest_rounds-Round :
    (fuel : ℕ) (m : Mux) (flow : Flow) (x : ℕ) (xs : List ℕ)
    → Round fuel m flow (x ∷ xs) (ingest_rounds (suc fuel) m flow (x ∷ xs))
unfolding ingest_rounds
ingest_rounds-Round fuel m flow x xs = elim (Option-cases (get flow m.conns)) [
  | inl e ↦ rw (e, ingest_rounds) stop
  | inr (c, e) ↦ elim (Bool-cases (is_closed_to_guest c)) [
    | inl closed ↦ elim (Bool-cases (ltb (length c.prefetched) max_prefetch)) [
      | inl room ↦ rw (e, ingest_rounds, closed) (rw room (held c e))
      | inr full ↦ rw (e, ingest_rounds, closed) (rw full stop)
    ]
    | inr o ↦ elim (ℕ_discrete (peer_avail c) 0) [
      | yes none_left ↦
          rw
            (
              ingest_dry fuel m flow (x ∷ xs) c e o none_left refl,
              stash_prefetch-eq-put m flow c (x ∷ xs) e,
            )
            (dry c e)
      | no credit ↦ rw (ingest_more fuel m flow (x ∷ xs) c e o credit refl) (more c e)
    ]
  ]
]

-- A round keeps the invariant if the rounds after it do.
Round-MuxInv :
    (fuel : ℕ) (m : Mux) (flow : Flow) (rest : List ℕ) {m' : Mux}
    → ((n : Mux) (left : List ℕ) → MuxInv n → MuxInv (ingest_rounds fuel n flow left))
    → Round fuel m flow rest m'
    → MuxInv m
    → MuxInv m'
Round-MuxInv fuel m flow rest ih stop v = v
Round-MuxInv fuel m flow rest ih (held c e) v =
    put-MuxInv m flow (keep c rest) v (keep-ConnInv c rest (conn_of m flow c v e))
Round-MuxInv fuel m flow rest ih (dry c e) v =
    request_credit-MuxInv _ flow
      (put-MuxInv m flow (keep c rest) v (keep-ConnInv c rest (conn_of m flow c v e)))
Round-MuxInv fuel m flow rest ih (more c e) v =
    ih _ _ (queue_chunk-MuxInv m flow c (chunk c rest) rest e v)

ingest_rounds-nil : (fuel : ℕ) (m : Mux) (flow : Flow) → ingest_rounds fuel m flow [] ≡ m
unfolding ingest_rounds
ingest_rounds-nil zero m flow = refl
ingest_rounds-nil (suc fuel) m flow = refl

ingest_rounds-MuxInv :
    (fuel : ℕ) (flow : Flow) (m : Mux) (rest : List ℕ)
    → MuxInv m
    → MuxInv (ingest_rounds fuel m flow rest)
unfolding ingest_rounds
ingest_rounds-MuxInv zero flow m rest v = v
ingest_rounds-MuxInv (suc fuel) flow m [] v = v
ingest_rounds-MuxInv (suc fuel) flow m (x ∷ xs) v =
    Round-MuxInv fuel m flow (x ∷ xs) (ingest_rounds-MuxInv fuel flow)
      (ingest_rounds-Round fuel m flow x xs) v

pub ingest-MuxInv :
    (m : Mux) (flow : Flow) (bytes : List ℕ) → MuxInv m → MuxInv (ingest m flow bytes)
unfolding ingest
ingest-MuxInv m flow bytes v = ingest_rounds-MuxInv (length bytes) flow m bytes v
