-- ===== src/Vsock/Invariant/Accept.antt =====
-- Host clients that connect and send their first line keep the invariant.
use kitsune.Base.{
  ℕ, zero, suc, ◌+◌, ◌-◌, ◌≤◌, ◌<◌, ◌≡◌, refl, ap, List, [], ◌∷◌, ◌++◌, Option, none, some, length,
  length-append, arith, ◌==◌, if◌then◌else◌, All, All-append, inl, inr, Bool-cases, Option-cases,
  u32_mod, ltb, leb, ◌||◌,
}
use kitsune.Vsock.Flow.{Flow, insert, contains_key}
use kitsune.Vsock.Packet.{ctrl, op_request, max_conns, max_prefetch}
use kitsune.Vsock.Host.{Host, Io, ok, err, is_eintr, now}
use kitsune.Vsock.State.{Conn, Mux, Incoming, new_conn, wait_guest}
use kitsune.Vsock.Queue.{enqueue, enqueue_rst, alloc_rounds, alloc_host_port, port_used}
use kitsune.Vsock.Stream.{request_timeout}
use kitsune.Vsock.Accept.{
  accept_from, accept_loop, split_line, trim_cr, parse_connect, open_incoming, finish_incoming,
  newline,
}
use kitsune.Vsock.Invariant.{MuxInv, same_counters, new_conn-ConnInv}
use kitsune.Vsock.Invariant.Queue.{insert-MuxInv, enqueue-MuxInv, enqueue_rst-MuxInv}

pub incoming-MuxInv :
    (m : Mux) (incs : List Incoming)
    → All (λ i. length i.buf ≤ 64) incs
    → length incs ≤ max_conns
    → MuxInv m
    → MuxInv (record m { incoming = incs })
incoming-MuxInv m incs lines few v = record {
  conns = v.conns;
  ctrl = v.ctrl;
  bytes = v.bytes;
  live = v.live;
  lines = lines;
  waiting = few;
  port = v.port;
}

port-MuxInv :
    (m : Mux) (port : ℕ)
    → (1024 ≤ port) × (port < u32_mod)
    → MuxInv m
    → MuxInv (record m { next_host_port = port })
port-MuxInv m port b v = record {
  conns = v.conns;
  ctrl = v.ctrl;
  bytes = v.bytes;
  live = v.live;
  lines = v.lines;
  waiting = v.waiting;
  port = b;
}

accepted-MuxInv :
    (m : Mux) (fd : ℕ)
    → MuxInv m
    → MuxInv (
        if leb max_conns (length m.incoming + length m.conns)
        then m
        else record m { incoming = m.incoming ++ (record { fd = fd; buf = [] }) ∷ [] })
accepted-MuxInv m fd v = elim (Bool-cases (leb max_conns (length m.incoming + length m.conns))) [
  | inl full ↦ rw full v
  | inr room ↦ rw room (
      incoming-MuxInv m _
        (All-append (λ i. length i.buf ≤ 64) m.incoming _ v.lines (omega arith, tt))
        (ground (arith, length-append m.incoming ((record { fd = fd; buf = [] }) ∷ []))) v)
]

accept_from-MuxInv : (answers : List (Io ℕ)) (m : Mux) → MuxInv m → MuxInv (accept_from answers m).0
unfolding accept_from
accept_from-MuxInv [] m v = v
accept_from-MuxInv (err e ∷ rest) m v = elim (Bool-cases (is_eintr e)) [
  | inl again ↦ rw again (accept_from-MuxInv rest m v)
  | inr last ↦ rw last v
]
accept_from-MuxInv (ok fd ∷ rest) m v = accept_from-MuxInv rest _ (accepted-MuxInv m fd v)

pub accept_loop-MuxInv : (m : Mux) (h : Host) → MuxInv m → MuxInv (accept_loop m h).0
unfolding accept_loop
accept_loop-MuxInv m h v = accept_from-MuxInv h.accepts m v

abbrev following : ℕ → ℕ
following port = if port == u32_mod - 1 then 1024 else port + 1

pub alloc_rounds-MuxInv : (rounds : ℕ) (m : Mux) → MuxInv m → MuxInv (alloc_rounds rounds m).1
unfolding alloc_rounds
alloc_rounds-MuxInv zero m v = v
alloc_rounds-MuxInv (suc rounds) m v =
    let port = m.next_host_port in
    let v' = port-MuxInv m (following port) (ground (arith, v.port)) v in
    elim (Bool-cases (ltb port 1024 || port_used port m.conns)) [
      | inl taken ↦ rw (taken, alloc_rounds) (alloc_rounds-MuxInv rounds _ v')
      | inr free ↦ rw (free, alloc_rounds) v'
    ]

alloc_host_port-MuxInv : (m : Mux) → MuxInv m → MuxInv (alloc_host_port m).1
unfolding alloc_host_port
alloc_host_port-MuxInv m v = alloc_rounds-MuxInv 60_000 m v

-- What follows the line is shorter than the text.
length-split_line :
    (buf line rest : List ℕ) → split_line buf ≡ some (line, rest) → length rest ≤ length buf
unfolding split_line
length-split_line [] line rest e = cc
length-split_line (c ∷ cs) line rest e = elim (Bool-cases (c == newline)) [
  | inl hit ↦ let same : cs ≡ rest = ground arith in omega (arith, ap length same)
  | inr miss ↦ elim (Option-cases (split_line cs)) [
    | inl n ↦ ground arith
    | inr ((front, back), s) ↦
        let same : back ≡ rest = ground arith in
        omega (arith, length-split_line cs front back s, ap length same)
  ]
]

after_port : Mux → Host → ℕ → ℕ → List ℕ → Option ℕ → Mux × Host
after_port m h fd guest_port rest none = (m, h)
after_port m h fd guest_port rest (some host_port) =
    let flow : Flow = record { guest_port = guest_port; host_port = host_port } in
    if contains_key flow m.conns
    then (enqueue_rst m flow, h)
    else (let (t, h') = now h in
        let fresh = new_conn fd wait_guest in
        let waits : Conn = record fresh {
          prefetched = rest;
          expiry = some (t + request_timeout);
        } in
        (enqueue (record m { conns = insert flow waits m.conns }) (ctrl flow op_request 0), h'))

open_incoming-after_port :
    (m : Mux) (h : Host) (fd guest_port : ℕ) (rest : List ℕ)
    → open_incoming m h fd guest_port rest
      ≡ after_port (alloc_host_port m).1 h fd guest_port rest (alloc_host_port m).0
unfolding open_incoming after_port
open_incoming-after_port m h fd guest_port rest = ground arith

after_port-MuxInv :
    (m : Mux) (h : Host) (fd guest_port : ℕ) (rest : List ℕ) (o : Option ℕ)
    → length rest ≤ max_prefetch
    → MuxInv m
    → MuxInv (after_port m h fd guest_port rest o).0
unfolding after_port
after_port-MuxInv m h fd guest_port rest none b v = v
after_port-MuxInv m h fd guest_port rest (some host_port) b v =
    let flow : Flow = record { guest_port = guest_port; host_port = host_port } in
    elim (Bool-cases (contains_key flow m.conns)) [
      | inl old ↦ rw old (enqueue_rst-MuxInv m flow v)
      | inr new ↦ rw new (
          enqueue-MuxInv _ (ctrl flow op_request 0) (omega arith) (
            insert-MuxInv m flow _ v (
              same_counters (new_conn fd wait_guest) _ refl b (inr (refl, refl))
                (new_conn-ConnInv fd wait_guest))))
    ]

pub finish_incoming-MuxInv :
    (m : Mux) (h : Host) (inc : Incoming)
    → length inc.buf ≤ max_prefetch
    → MuxInv m
    → MuxInv (finish_incoming m h inc).0
unfolding finish_incoming
finish_incoming-MuxInv m h inc b v = elim (Option-cases (split_line inc.buf)) [
  | inl e ↦ rw (e, finish_incoming) v
  | inr ((line, rest), e) ↦ elim (Option-cases (parse_connect (trim_cr line))) [
    | inl n ↦ rw (e, finish_incoming) (rw n v)
    | inr (port, p) ↦
        rw (e, finish_incoming)
          (rw (p, open_incoming-after_port m h inc.fd port rest)
            (after_port-MuxInv _ h inc.fd port rest _
              (omega (arith, length-split_line inc.buf line rest e)) (alloc_host_port-MuxInv m v)))
  ]
]
