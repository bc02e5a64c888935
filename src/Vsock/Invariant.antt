-- ===== src/Vsock/Invariant.antt =====
-- What holds of the multiplexer of src/devices/vsock_mux.rs between two calls.
pub mod Queue
pub mod Credit
pub mod Intake
pub mod Stream
pub mod Request
pub mod Guest
pub mod Accept
pub mod Events
use kitsune.Base.{
  ℕ, ◌+◌, ◌%◌, ◌≤◌, ◌<◌, ◌≡◌, ◌≢◌, ◌⊎◌, inl, inr, refl, ap, ◌∙◌, true, false, length, All, u32_mod,
  arith, List, [],
}
use kitsune.Vsock.Flow.{Values, contains_key}
use kitsune.Vsock.Packet.{op_rw, buf_alloc_bytes, max_conns, max_prefetch, Header}
use kitsune.Vsock.State.{Conn, Mux, is_established, bound, new_conn, Phase, wait_guest, established}
use kitsune.Vsock.Stream.Ingest.{Counts}

pub record ConnInv (c : Conn) : Type 0 where
  pub alloc : c.buf_alloc ≡ buf_alloc_bytes
  pub held : length c.to_host ≤ c.buf_alloc
  pub received : c.received ≡ (c.fwd_cnt + length c.to_host) % u32_mod
  pub forwarded : c.fwd_cnt < u32_mod
  pub early : length c.prefetched ≤ max_prefetch
  pub counts : Counts c
  pub staged :
      (is_established c.phase ≡ true) ⊎ ((length c.to_host ≡ 0) × (length c.ok_pending ≡ 0))

pub record MuxInv (m : Mux) : Type 0 where
  pub conns : Values ConnInv m.conns
  pub ctrl : All (λ p. p.op ≢ op_rw) m.out_ctrl
  pub bytes : All (λ p. p.op ≡ op_rw) m.out_data
  pub live : All (λ p. contains_key p.flow m.conns ≡ true) m.out_data
  pub lines : All (λ i. length i.buf ≤ 64) m.incoming
  pub waiting : length m.incoming ≤ max_conns
  pub port : (1024 ≤ m.next_host_port) × (m.next_host_port < u32_mod)

-- The words of a header that the guest's bytes give are 32 bits wide.
pub record HeaderFits (hdr : Header) : Type 0 where
  pub alloc : hdr.buf_alloc < u32_mod
  pub fwd : hdr.fwd_cnt < u32_mod

pub new_conn-ConnInv : (fd : ℕ) (p : Phase) → ConnInv (new_conn fd p)
new_conn-ConnInv fd p = record {
  alloc = refl;
  held = omega arith;
  received = refl;
  forwarded = omega arith;
  early = omega arith;
  counts = omega arith;
  staged = inr (refl, refl);
}

-- The multiplexer starts in the invariant.
pub bound-MuxInv : (cid : ℕ) (path : List ℕ) (listener : ℕ) → MuxInv (bound cid path listener)
bound-MuxInv cid path listener = record {
  conns = tt;
  ctrl = tt;
  bytes = tt;
  live = tt;
  lines = tt;
  waiting = omega arith;
  port = omega arith;
}

-- The fields that `ConnInv` speaks of, but for the early bytes and the phase.
abbrev pub counters : Conn → ℕ × List ℕ × ℕ × ℕ × ℕ × ℕ × ℕ
counters c = (
  c.buf_alloc, c.to_host, c.received, c.fwd_cnt, c.sent_to_guest, c.peer_fwd_cnt, c.peer_buf_alloc,
)

abbrev pub Staged : Conn → Type 0
Staged c = (is_established c.phase ≡ true) ⊎ ((length c.to_host ≡ 0) × (length c.ok_pending ≡ 0))

pub same_counters :
    (c d : Conn)
    → counters d ≡ counters c
    → length d.prefetched ≤ max_prefetch
    → Staged d
    → ConnInv c
    → ConnInv d
same_counters c d e early staged i = record {
  alloc = ap (λ t. t.0) e ∙ i.alloc;
  held = rw (ap (λ t. t.1) e, ap (λ t. t.0) e) i.held;
  received = rw (ap (λ t. t.2) e, ap (λ t. t.3) e, ap (λ t. t.1) e) i.received;
  forwarded = rw (ap (λ t. t.3) e) i.forwarded;
  early = early;
  counts = record {
    sent = rw (ap (λ t. t.4) e) i.counts.sent;
    forwarded = rw (ap (λ t. t.5) e) i.counts.forwarded;
    alloc = rw (ap (λ t. t.6) e) i.counts.alloc;
  };
  staged = staged;
}
