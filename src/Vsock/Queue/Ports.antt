-- ===== src/Vsock/Queue/Ports.antt =====
-- The ports that `alloc_host_port` gives out.
use kitsune.Base.{
  ℕ, zero, suc, ◌+◌, ◌-◌, ◌%◌, ◌≤◌, ◌<◌, ◌≡◌, ◌≢◌, ap, subst, ◌∙◌, true, false, ◌||◌, List, [], ◌∷◌,
  Option, none, some, arith, if◌then◌else◌, inl, inr, Bool-cases, Option-cases, ◌==◌, ltb, length,
  u32_mod,
}
use kitsune.Vsock.Flow.{Flow}
use kitsune.Vsock.State.{Conn, Mux}
use kitsune.Vsock.Queue.{alloc_rounds, alloc_host_port, port_used}

-- A port that is given out is no reserved one, and no connection uses it.
pub record IsFree (conns : List (Flow × Conn)) (port : ℕ) : Type 0 where
  pub unreserved : 1024 ≤ port
  pub unused : port_used port conns ≡ false

abbrev FreeIfSome : List (Flow × Conn) → Option ℕ → Type 0
FreeIfSome conns none = Unit
FreeIfSome conns (some port) = IsFree conns port

alloc_rounds-FreeIfSome : (n : ℕ) (m : Mux) → FreeIfSome m.conns (alloc_rounds n m).0
unfolding alloc_rounds
alloc_rounds-FreeIfSome zero m = tt
alloc_rounds-FreeIfSome (suc n) m =
    let port = m.next_host_port in
    elim (Bool-cases (ltb port 1024 || port_used port m.conns)) [
      | inl taken ↦ rw (taken, alloc_rounds) (alloc_rounds-FreeIfSome n _)
      | inr free ↦
          rw (free, alloc_rounds) (record { unreserved = ground arith; unused = ground arith })
    ]

abbrev following : ℕ → ℕ
following port = if port == u32_mod - 1 then 1024 else port + 1

abbrev moved : Mux → Mux
moved m = record m { next_host_port = following m.next_host_port }

-- The ports go round: the one after 2^32 - 1 is 1024. This is the `k`-th of the round.
abbrev ports : ℕ
ports = u32_mod - 1024

port_at : ℕ → ℕ
port_at k = 1024 + k % ports

following-port_at :
    (k : ℕ) → (if port_at k == u32_mod - 1 then 1024 else port_at k + 1) ≡ port_at (suc k)
unfolding port_at
following-port_at k = ground arith

1024-le-port_at : (s : ℕ) → 1024 ≤ port_at s
unfolding port_at
1024-le-port_at s = omega arith

-- A round that finds nothing has met a port in use.
first_used :
    (n s : ℕ) (m : Mux)
    → m.next_host_port ≡ port_at s
    → (alloc_rounds (suc n) m).0 ≡ none
    → (port_used m.next_host_port m.conns ≡ true) × ((alloc_rounds n (moved m)).0 ≡ none)
unfolding alloc_rounds
first_used n s m e r =
    elim (Bool-cases (ltb m.next_host_port 1024 || port_used m.next_host_port m.conns)) [
      | inr free ↦ absurd (found (rw (free, alloc_rounds) at r))
      | inl taken ↦ (ground (arith, 1024-le-port_at s), rw (taken, alloc_rounds) at r)
    ]
  where
    found : some m.next_host_port ≡ none → ⊥
    found h = cc

-- Where no port is found, every port that was tried is in use.
alloc_rounds-used :
    (n s : ℕ) (m : Mux) (k : ℕ)
    → m.next_host_port ≡ port_at s
    → (alloc_rounds n m).0 ≡ none
    → k < n
    → port_used (port_at (s + k)) m.conns ≡ true
alloc_rounds-used zero s m k e r b = absurd (omega arith)
alloc_rounds-used (suc n) s m zero e r b =
    let same : m.next_host_port ≡ port_at (s + 0) = e ∙ ap port_at (omega arith) in
    subst (λ p. port_used p m.conns ≡ true) same (first_used n s m e r).0
alloc_rounds-used (suc n) s m (suc k) e r b =
    let next : following m.next_host_port ≡ port_at (suc s) =
      ap following e ∙ following-port_at s in
    let same : port_at (suc s + k) ≡ port_at (s + suc k) = ap port_at (omega arith) in
    subst (λ p. port_used p m.conns ≡ true) same
      (alloc_rounds-used n (suc s) (moved m) k next (first_used n s m e r).1 (omega arith))

-- The connections without the first that uses the port.
without : ℕ → List (Flow × Conn) → List (Flow × Conn)
without port [] = []
without port (e ∷ conns) = if e.0.host_port == port then conns else e ∷ without port conns

length-without :
    (port : ℕ) (conns : List (Flow × Conn))
    → port_used port conns ≡ true
    → length conns ≡ suc (length (without port conns))
unfolding without
length-without port [] u = cc
length-without port (e ∷ conns) u = ground (arith, length-without port conns)

port_used-without :
    (port p : ℕ) (conns : List (Flow × Conn))
    → p ≢ port
    → port_used p conns ≡ true
    → port_used p (without port conns) ≡ true
unfolding without
port_used-without port p [] n u = cc
port_used-without port p (e ∷ conns) n u = ground (arith, port_used-without port p conns)

port_at-ne : (s k : ℕ) → suc k < ports → port_at (s + suc k) ≢ port_at s
unfolding port_at
port_at-ne s k b = omega arith

-- As many ports in use in a row need as many connections.
used_in_a_row :
    (n s : ℕ) (conns : List (Flow × Conn))
    → n ≤ ports
    → ((k : ℕ) → k < n → port_used (port_at (s + k)) conns ≡ true)
    → n ≤ length conns
used_in_a_row zero s conns b h = omega arith
used_in_a_row (suc n) s conns b h =
    let first : port_used (port_at s) conns ≡ true =
      subst (λ p. port_used p conns ≡ true) (ap port_at (omega arith)) (h 0 (omega arith)) in
    omega (
      arith,
      length-without (port_at s) conns first,
      used_in_a_row n (suc s) (without (port_at s) conns) (omega arith) (λ k bk.
          subst (λ p. port_used p (without (port_at s) conns) ≡ true) (ap port_at (omega arith))
            (port_used-without (port_at s) (port_at (s + suc k)) conns
              (port_at-ne s k (omega arith)) (h (suc k) (omega arith)))),
    )

starts : (port : ℕ) → (1024 ≤ port) × (port < u32_mod) → port ≡ port_at (port - 1024)
unfolding port_at
starts port q = omega arith

alloc_rounds-some :
    (n : ℕ) (m : Mux)
    → n ≤ ports
    → (1024 ≤ m.next_host_port) × (m.next_host_port < u32_mod)
    → length m.conns < n
    → (alloc_rounds n m).0 ≢ none
alloc_rounds-some n m b p few r =
    let s : ℕ = m.next_host_port - 1024 in
    let start : m.next_host_port ≡ port_at s = starts m.next_host_port p in
    omega (arith, used_in_a_row n s m.conns b (λ k bk. alloc_rounds-used n s m k start r bk))

-- `alloc_host_port` only gives out a port from 1024 on that no connection uses.
pub alloc_host_port-IsFree :
    (m m' : Mux) (port : ℕ) → alloc_host_port m ≡ (some port, m') → IsFree m.conns port
unfolding alloc_host_port
alloc_host_port-IsFree m m' port e =
    let found : (alloc_rounds 60_000 m).0 ≡ some port = ap (λ t. t.0) e in
    rw found at (alloc_rounds-FreeIfSome 60_000 m)

-- With fewer than 60,000 connections, and the next port in its range, a port is found.
pub alloc_host_port-some :
    (m : Mux)
    → (1024 ≤ m.next_host_port) × (m.next_host_port < u32_mod)
    → length m.conns < 60_000
    → (port : ℕ) × ((alloc_host_port m).0 ≡ some port)
unfolding alloc_host_port
alloc_host_port-some m p few = elim (Option-cases (alloc_rounds 60_000 m).0) [
  | inl n ↦ absurd (alloc_rounds-some 60_000 m (omega arith) p few n)
  | inr (port, e) ↦ (port, e)
]
