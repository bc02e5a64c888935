-- ===== src/Vsock/Stream/Ingest.antt =====
-- The bytes for the guest: `ingest` keeps their order and the guest's credit.
use kitsune.Base.{
  ℕ, suc, ◌+◌, ◌-◌, ◌≤◌, ◌<◌, ◌≡◌, ◌≢◌, refl, ap, ◌∙◌, false, List, [], ◌∷◌, ◌++◌, length, take,
  drop, arith, if◌then◌else◌, append_assoc, is_empty, min, length-drop, wrapping_add, u32_mod, some,
  drop-drop,
}
use kitsune.Vsock.Flow.{Flow, flow_eq, get}
use kitsune.Vsock.Packet.{OutPkt, max_chunk, max_prefetch}
use kitsune.Vsock.State.{Conn, Mux, peer_avail}
use kitsune.Vsock.Queue.{request_credit}
use kitsune.Vsock.Stream.{ingest_rounds, is_closed_to_guest, queue_chunk, stash_prefetch}

-- How many of the bytes go out at once: as many as the guest has credit for.
abbrev pub passed : Conn → List ℕ → ℕ
passed c bytes = min (length bytes) (peer_avail c)

-- The size of the next packet.
abbrev pub chunk : Conn → List ℕ → ℕ
chunk c rest = min (min (length rest) (peer_avail c)) max_chunk

pub ingest_dry :
    (fuel : ℕ) (m : Mux) (flow : Flow) (rest : List ℕ) (c : Conn)
    → get flow m.conns ≡ some c
    → is_closed_to_guest c ≡ false
    → peer_avail c ≡ 0
    → is_empty rest ≡ false
    → ingest_rounds (suc fuel) m flow rest ≡ request_credit (stash_prefetch m flow rest) flow
unfolding ingest_rounds
ingest_dry fuel m flow rest c e closed dry some_left = ground arith

pub ingest_more :
    (fuel : ℕ) (m : Mux) (flow : Flow) (rest : List ℕ) (c : Conn)
    → get flow m.conns ≡ some c
    → is_closed_to_guest c ≡ false
    → peer_avail c ≢ 0
    → is_empty rest ≡ false
    → ingest_rounds (suc fuel) m flow rest
      ≡ ingest_rounds fuel
          (queue_chunk m flow c (chunk c rest) rest)
          flow
          (drop (chunk c rest) rest)
unfolding ingest_rounds
ingest_more fuel m flow rest c e closed credit some_left = rw (e, some_left, closed) (ground arith)

-- The bytes that wait for the guest on a flow, in the order in which they will go out.
abbrev pub payloads : Flow → List OutPkt → List ℕ
payloads flow [] = []
payloads flow (p ∷ ps) =
    if flow_eq p.flow flow then p.payload ++ payloads flow ps else payloads flow ps

pub payloads-append :
    (flow : Flow) (ps qs : List OutPkt)
    → payloads flow (ps ++ qs) ≡ payloads flow ps ++ payloads flow qs
payloads-append flow [] qs = refl
payloads-append flow (p ∷ ps) qs = ground (
  arith,
  payloads-append flow ps qs,
  append_assoc p.payload (payloads flow ps) (payloads flow qs),
)

-- The connection after `rest` has been taken in: what goes out is counted, the rest is kept early.
abbrev pub ingested : Conn → List ℕ → Conn
ingested c rest = record c {
  sent_to_guest = wrapping_add c.sent_to_guest (passed c rest);
  prefetched =
      c.prefetched
      ++ take (min (length rest - passed c rest) (max_prefetch - length c.prefetched))
          (drop (passed c rest) rest);
}

-- The counters of the credit are 32-bit words.
pub record Counts (c : Conn) : Type 0 where
  pub sent : c.sent_to_guest < u32_mod
  pub forwarded : c.peer_fwd_cnt < u32_mod
  pub alloc : c.peer_buf_alloc < u32_mod

abbrev pub count : Conn → ℕ → Conn
count c n = record c { sent_to_guest = wrapping_add c.sent_to_guest n }

-- A packet of `n` bytes uses up credit for `n` bytes: the difference of the counters does not wrap.
pub peer_avail-count :
    (c : Conn) (n : ℕ)
    → Counts c
    → n ≤ peer_avail c
    → peer_avail (record c { sent_to_guest = wrapping_add c.sent_to_guest n }) ≡ peer_avail c - n
unfolding peer_avail
peer_avail-count c n v h = omega arith

pub passed-count :
    (c : Conn) (rest : List ℕ)
    → Counts c
    → let n = chunk c rest in n + passed (count c n) (drop n rest) ≡ passed c rest
passed-count c rest v =
    let n = chunk c rest in omega (arith, peer_avail-count c n v (omega arith), length-drop n rest)

pub ingested-count :
    (c : Conn) (rest : List ℕ)
    → Counts c
    → let n = chunk c rest in ingested (count c n) (drop n rest) ≡ ingested c rest
ingested-count c rest v =
    let n = chunk c rest in
    let c' : Conn = count c n in
    let rest' = drop n rest in
    let total = passed-count c rest v in
    let counted : wrapping_add (wrapping_add c.sent_to_guest n) (passed c' rest')
        ≡ wrapping_add c.sent_to_guest (passed c rest) =
      omega (arith, total) in
    let left : length rest' - passed c' rest' ≡ length rest - passed c rest =
      omega (arith, total, length-drop n rest) in
    let bytes : drop (passed c' rest') rest' ≡ drop (passed c rest) rest =
      drop-drop n (passed c' rest') rest ∙ ap (λ k. drop k rest) total in
    λ i. record c {
      sent_to_guest = counted i;
      prefetched =
          c.prefetched ++ take (min (left i) (max_prefetch - length c.prefetched)) (bytes i);
    }
