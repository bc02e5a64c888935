-- ===== src/Vsock/Stream/Intake.antt =====
-- The whole loop of `ingest`, by induction on its rounds.
use kitsune.Base.{
  ℕ, zero, suc, ◌-◌, ◌≤◌, ◌≡◌, refl, ap, ◌∙◌, false, List, [], ◌∷◌, ◌++◌, length, take, drop, arith,
  append_assoc, append-nil, min, length-drop, wrapping_add, wrapping_sub, some, take-nil, drop-nil,
  take-add,
}
use native.Mathlib.Decide.{ℕ_discrete}
use kitsune.Vsock.Flow.{Flow, flow_eq, flow_eq_refl, get, get-adjust}
use kitsune.Vsock.Packet.{max_prefetch}
use kitsune.Vsock.State.{Conn, Mux, put, peer_avail}
use kitsune.Vsock.Queue.{request_credit, enqueue}
use kitsune.Vsock.Stream.{
  ingest, ingest_rounds, is_closed_to_guest, queue_chunk, keep, stash_prefetch,
}
use kitsune.Vsock.Stream.Ingest.{
  passed, chunk, count, ingested, Counts, payloads, payloads-append, ingest_dry, ingest_more,
  passed-count, ingested-count,
}

pub get-put_self :
    (m : Mux) (flow : Flow) (c d : Conn)
    → get flow m.conns ≡ some c
    → get flow (put m flow d).conns ≡ some d
get-put_self m flow c d e = ground (arith, get-adjust flow flow (λ _. d) m.conns, flow_eq_refl flow)

pub get-put_other :
    (m : Mux) (flow j : Flow) (d : Conn)
    → flow_eq flow j ≡ false
    → get j (put m flow d).conns ≡ get j m.conns
get-put_other m flow j d n = ground (arith, get-adjust j flow (λ _. d) m.conns)

pub conns-request_credit : (m : Mux) (flow : Flow) → (request_credit m flow).conns ≡ m.conns
unfolding request_credit enqueue
conns-request_credit m flow = ground arith

pub out_data-request_credit :
    (m : Mux) (flow : Flow) → (request_credit m flow).out_data ≡ m.out_data
unfolding request_credit enqueue
out_data-request_credit m flow = ground arith

-- The bytes that the guest has not yet acknowledged.
abbrev pub in_flight : Conn → ℕ
in_flight c = wrapping_sub c.sent_to_guest c.peer_fwd_cnt

-- What `ingest` may do to the multiplexer when the host's bytes `rest` come in on a flow.
pub record Ingested (m m' : Mux) (flow : Flow) (c : Conn) (rest : List ℕ) : Type 0 where
  pub conn : get flow m'.conns ≡ some (ingested c rest)
  pub bytes : payloads flow m'.out_data ≡ payloads flow m.out_data ++ take (passed c rest) rest
  pub other_conns : (j : Flow) → flow_eq flow j ≡ false → get j m'.conns ≡ get j m.conns
  pub other_bytes :
      (j : Flow) → flow_eq flow j ≡ false → payloads j m'.out_data ≡ payloads j m.out_data

ingested-nil : (c : Conn) → Counts c → ingested c [] ≡ c
ingested-nil c v =
    let sent : wrapping_add c.sent_to_guest (passed c []) ≡ c.sent_to_guest =
      (let k : passed c [] ≡ 0 = omega arith in omega (arith, v.sent)) in
    let kept : c.prefetched
          ++ take (min (0 - passed c []) (max_prefetch - length c.prefetched))
              (drop (passed c []) [])
        ≡ c.prefetched =
      rw (drop-nil, take-nil, append-nil) in
    λ i. record c { sent_to_guest = sent i; prefetched = kept i }

-- Nothing to take in.
intake_nil :
    (m : Mux) (flow : Flow) (c : Conn)
    → get flow m.conns ≡ some c
    → Counts c
    → Ingested m m flow c []
intake_nil m flow c e v = record {
  conn = rw (ingested-nil c v) e;
  bytes = rw (take-nil (passed c []), append-nil);
  other_conns = λ j n. refl;
  other_bytes = λ j n. refl;
}

-- With no credit the bytes are kept, and the guest is asked for credit.
keep_all : (c : Conn) (rest : List ℕ) → Counts c → peer_avail c ≡ 0 → keep c rest ≡ ingested c rest
keep_all c rest v dry =
    let none_passed : passed c rest ≡ 0 = omega (arith, dry) in
    let sent : c.sent_to_guest ≡ wrapping_add c.sent_to_guest (passed c rest) =
      omega (arith, none_passed, v.sent) in
    let kept : take (min (length rest) (max_prefetch - length c.prefetched)) rest
        ≡ take (min (length rest - passed c rest) (max_prefetch - length c.prefetched))
            (drop (passed c rest) rest) =
      rw none_passed
        (ap (λ n. take (min n (max_prefetch - length c.prefetched)) rest) (omega arith)) in
    λ i. record c { sent_to_guest = sent i; prefetched = c.prefetched ++ kept i }

pub stash_prefetch-eq-put :
    (m : Mux) (flow : Flow) (c : Conn) (rest : List ℕ)
    → get flow m.conns ≡ some c
    → stash_prefetch m flow rest ≡ put m flow (keep c rest)
unfolding stash_prefetch
stash_prefetch-eq-put m flow c rest e = rw (e, stash_prefetch)

intake_dry :
    (m : Mux) (flow : Flow) (c : Conn) (rest : List ℕ)
    → get flow m.conns ≡ some c
    → Counts c
    → peer_avail c ≡ 0
    → Ingested m (request_credit (stash_prefetch m flow rest) flow) flow c rest
intake_dry m flow c rest e v dry = rw (stash_prefetch-eq-put m flow c rest e) (record {
  conn =
      rw (conns-request_credit (put m flow (keep c rest)) flow, ← keep_all c rest v dry)
        (get-put_self m flow c (keep c rest) e);
  bytes =
      rw (out_data-request_credit (put m flow (keep c rest)) flow)
        (let none_passed : passed c rest ≡ 0 = omega (arith, dry) in rw (none_passed, append-nil));
  other_conns = λ j n.
      rw (conns-request_credit (put m flow (keep c rest)) flow)
        (get-put_other m flow j (keep c rest) n);
  other_bytes = λ j n. rw (out_data-request_credit (put m flow (keep c rest)) flow);
})

abbrev next_mux : Mux → Flow → Conn → List ℕ → Mux
next_mux m flow c rest = queue_chunk m flow c (chunk c rest) rest

-- The packet of one round carries the next bytes of the flow.
payloads-queue_chunk :
    (m : Mux) (flow : Flow) (c : Conn) (rest : List ℕ)
    → payloads flow (next_mux m flow c rest).out_data
      ≡ payloads flow m.out_data ++ take (chunk c rest) rest
payloads-queue_chunk m flow c rest = rw (payloads-append, flow_eq_refl flow, append-nil)

payloads-queue_chunk_other :
    (m : Mux) (flow j : Flow) (c : Conn) (rest : List ℕ)
    → flow_eq flow j ≡ false
    → payloads j (next_mux m flow c rest).out_data ≡ payloads j m.out_data
payloads-queue_chunk_other m flow j c rest n = rw (payloads-append, n, append-nil)

-- One round, and then the rest of the loop.
intake_more :
    (m m' : Mux) (flow : Flow) (c : Conn) (rest : List ℕ)
    → Counts c
    → Ingested (next_mux m flow c rest) m' flow (count c (chunk c rest)) (drop (chunk c rest) rest)
    → Ingested m m' flow c rest
intake_more m m' flow c rest v ih =
    let n = chunk c rest in
    let more = passed (count c n) (drop n rest) in
    record {
      conn = rw (ingested-count c rest v) at (ih.conn);
      bytes =
          ih.bytes
          ∙ rw (payloads-queue_chunk m flow c rest, append_assoc, take-add n more rest)
              (ap (λ k. payloads flow m.out_data ++ take k rest) (passed-count c rest v));
      other_conns = λ j d. ih.other_conns j d ∙ get-put_other m flow j (count c n) d;
      other_bytes = λ j d. ih.other_bytes j d ∙ payloads-queue_chunk_other m flow j c rest d;
    }

Counts-count : (c : Conn) (n : ℕ) → Counts c → Counts (count c n)
Counts-count c n v = record { sent = omega arith; forwarded = v.forwarded; alloc = v.alloc }

open_count :
    (c : Conn) (n : ℕ) → is_closed_to_guest c ≡ false → is_closed_to_guest (count c n) ≡ false
unfolding is_closed_to_guest
open_count c n e = e

ingest_rounds-Ingested :
    (fuel : ℕ) (m : Mux) (flow : Flow) (c : Conn) (rest : List ℕ)
    → length rest ≤ fuel
    → get flow m.conns ≡ some c
    → is_closed_to_guest c ≡ false
    → Counts c
    → Ingested m (ingest_rounds fuel m flow rest) flow c rest
unfolding ingest_rounds
ingest_rounds-Ingested zero m flow c [] b e o v = intake_nil m flow c e v
ingest_rounds-Ingested zero m flow c (x ∷ xs) b e o v = absurd (omega arith)
ingest_rounds-Ingested (suc fuel) m flow c [] b e o v = intake_nil m flow c e v
ingest_rounds-Ingested (suc fuel) m flow c (x ∷ xs) b e o v = elim (ℕ_discrete (peer_avail c) 0) [
  | yes dry ↦
      rw (ingest_dry fuel m flow (x ∷ xs) c e o dry refl) (intake_dry m flow c (x ∷ xs) e v dry)
  | no credit ↦
      let n = chunk c (x ∷ xs) in
      rw (ingest_more fuel m flow (x ∷ xs) c e o credit refl) (
        intake_more m _ flow c (x ∷ xs) v (
          ingest_rounds-Ingested fuel (next_mux m flow c (x ∷ xs)) flow (count c n)
            (drop n (x ∷ xs)) (omega (arith, length-drop n (x ∷ xs), credit))
            (get-put_self m flow c (count c n) e) (open_count c n o) (Counts-count c n v)))
]

-- What `ingest` does with bytes that come from the host for an open connection: as many as the
-- guest has credit for are queued behind what the flow has waiting, in order; the rest is kept, in
-- order, as far as the room for early bytes goes; the counter of the credit grows by what was
-- queued; no other flow or connection changes.
pub ingest-Ingested :
    (m : Mux) (flow : Flow) (c : Conn) (rest : List ℕ)
    → get flow m.conns ≡ some c
    → is_closed_to_guest c ≡ false
    → Counts c
    → Ingested m (ingest m flow rest) flow c rest
unfolding ingest
ingest-Ingested m flow c rest = ingest_rounds-Ingested (length rest) m flow c rest (omega arith)

in_flight-ingested :
    (c : Conn) (rest : List ℕ)
    → Counts c
    → in_flight c ≤ c.peer_buf_alloc
    → in_flight (ingested c rest) ≤ c.peer_buf_alloc
unfolding peer_avail
in_flight-ingested c rest v h = omega arith

-- `ingest` never puts more bytes in flight to the guest than the buffer that the guest has announced
-- takes, however much comes from the host, if there were not more before.
pub ingest-credit :
    (m : Mux) (flow : Flow) (c : Conn) (rest : List ℕ)
    → get flow m.conns ≡ some c
    → is_closed_to_guest c ≡ false
    → Counts c
    → in_flight c ≤ c.peer_buf_alloc
    → (d : Conn) × (get flow (ingest m flow rest).conns ≡ some d) × (in_flight d ≤ d.peer_buf_alloc)
ingest-credit m flow c rest e o v h =
    (ingested c rest, (ingest-Ingested m flow c rest e o v).conn, in_flight-ingested c rest v h)
