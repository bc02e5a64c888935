-- ===== src/Vsock/Accept.antt =====
-- Host clients and the poll loop's events: `interests`, `on_fd`, `accept_loop`, `read_incoming`,
-- `finish_incoming` and `parse_connect` of src/devices/vsock_mux.rs.
pub mod Connect
use kitsune.Base.{
  ℕ, zero, suc, ◌+◌, ◌-◌, Bool, true, false, not, ◌&&◌, ◌||◌, Option, none, some, List, [], ◌∷◌,
  ◌++◌, ◌==◌, ltb, leb, if◌then◌else◌, is_empty, length, any, all, take, drop, get_elem?, set,
}
use kitsune.Base.Decimal.{parse_u32, is_ascii_digit}
use kitsune.Vsock.Flow.{Flow, get, insert, contains_key}
use kitsune.Vsock.Packet.{ctrl, op_request, max_conns, max_prefetch}
use kitsune.Vsock.Host.{Host, Io, ok, err, transient, is_eintr, read_fd, now}
use kitsune.Vsock.State.{Conn, Mux, put, Incoming, wait_guest, new_conn}
use kitsune.Vsock.Queue.{enqueue, enqueue_rst, alloc_host_port}
use kitsune.Vsock.Stream.{flush_conn, read_conn, finish_connect, request_timeout}

-- The `accept4` calls of `accept_loop`, over their answers; the loop ends at the first error but EINTR.
unfoldable pub accept_from : List (Io ℕ) → Mux → Mux × List (Io ℕ)
accept_from [] m = (m, [])
accept_from (err e ∷ rest) m =
    let again = accept_from rest m in if is_eintr e then again else (m, rest)
accept_from (ok fd ∷ rest) m = accept_from rest (
    if leb max_conns (length m.incoming + length m.conns)
    then m
    else record m { incoming = m.incoming ++ (record { fd = fd; buf = [] }) ∷ [] })

-- `accept_loop`
unfoldable pub accept_loop : Mux → Host → Mux × Host
accept_loop m h = let (m', rest) = accept_from h.accepts m in (m', record h { accepts = rest })

-- `incoming.remove(idx)`
unfoldable pub remove_at {ℓ} : {A : Type ℓ} → ℕ → List A → List A
remove_at i [] = []
remove_at zero (x ∷ xs) = xs
remove_at (suc i) (x ∷ xs) = x ∷ remove_at i xs

-- The bytes of `CONNECT ` with the blank.
abbrev pub connect_prefix : List ℕ
connect_prefix = b'C' ∷ b'O' ∷ b'N' ∷ b'N' ∷ b'E' ∷ b'C' ∷ b'T' ∷ b' ' ∷ []

-- `strip_prefix`
unfoldable pub strip_prefix : List ℕ → List ℕ → Option (List ℕ)
strip_prefix [] line = some line
strip_prefix (p ∷ ps) [] = none
strip_prefix (p ∷ ps) (c ∷ cs) = if p == c then strip_prefix ps cs else none

-- `parse_connect`
unfoldable pub parse_connect : List ℕ → Option ℕ
parse_connect line = elim (strip_prefix connect_prefix line) [
  | none ↦ none
  | some rest ↦
      if is_empty rest || not (all is_ascii_digit rest) then none else elim (parse_u32 0 rest) [
        | none ↦ none
        | some port ↦ if port == 0 then none else some port
      ]
]

abbrev pub newline : ℕ
newline = 10

-- The line before the first newline, and what follows it.
unfoldable pub split_line : List ℕ → Option (List ℕ × List ℕ)
split_line [] = none
split_line (c ∷ cs) =
    if c == newline
    then some ([], cs)
    else elim (split_line cs) [ none ↦ none | some (line, rest) ↦ some (c ∷ line, rest) ]

-- A carriage return at the end of the line is dropped.
unfoldable pub trim_cr : List ℕ → List ℕ
trim_cr [] = []
trim_cr (c ∷ []) = if c == 13 then [] else c ∷ []
trim_cr (c ∷ d ∷ cs) = c ∷ trim_cr (d ∷ cs)

-- The rest of `finish_incoming`, once the line names a port.
unfoldable pub open_incoming : Mux → Host → ℕ → ℕ → List ℕ → Mux × Host
open_incoming m h fd guest_port rest =
    let (port, m') = alloc_host_port m in
    elim port [
      | none ↦ (m', h)
      | some host_port ↦
          let flow : Flow = record { guest_port = guest_port; host_port = host_port } in
          if contains_key flow m'.conns
          then (enqueue_rst m' flow, h)
          else (let (t, h') = now h in
              let fresh = new_conn fd wait_guest in
              let waits : Conn = record fresh {
                prefetched = rest;
                expiry = some (t + request_timeout);
              } in
              (
                enqueue (record m' { conns = insert flow waits m'.conns }) (ctrl flow op_request 0),
                h',
              ))
    ]

-- `finish_incoming`, for the entry that has been taken out of `incoming`.
unfoldable pub finish_incoming : Mux → Host → Incoming → Mux × Host
finish_incoming m h inc = elim (split_line inc.buf) [
  | none ↦ (m, h)
  | some (line, rest) ↦ elim (parse_connect (trim_cr line)) [
    | none ↦ (m, h)
    | some guest_port ↦ open_incoming m h inc.fd guest_port rest
  ]
]

-- `read_incoming`
unfoldable pub read_incoming : Mux → Host → ℕ → Mux × Host
read_incoming m h idx = elim (get_elem? m.incoming idx) [
  | none ↦ (m, h)
  | some inc ↦
      let (r, h') = read_fd 64 h in
      let removed : Mux = record m { incoming = remove_at idx m.incoming } in
      elim r [
        | ok [] ↦ (removed, h')
        | ok (b ∷ bs) ↦
            let read : Incoming = record inc { buf = inc.buf ++ (b ∷ bs) } in
            let ready = any (λ c. c == newline) read.buf in
            if ltb 64 (length read.buf) && not ready
            then (removed, h')
            else if ready
            then finish_incoming removed h' read
            else (record m { incoming = set m.incoming idx read }, h')
        | err e ↦ if transient e then (m, h') else (removed, h')
      ]
]

-- The events that the code asks `poll` for, and those that it reports.
pub record Events : Type 0 where
  pub pollin : Bool
  pub pollout : Bool
  pub pollerr : Bool
  pub pollhup : Bool
  pub pollnval : Bool

-- What `interests` asks for a connection.
pub conn_wants_write : Conn → Bool
conn_wants_write c = c.connecting || not (is_empty c.ok_pending) || not (is_empty c.to_host)

pub conn_wants_read : Conn → Bool
conn_wants_read c =
    not c.connecting
    && is_empty c.ok_pending
    && not c.local_shut_send
    && ltb (length c.prefetched) max_prefetch

-- `(fd, POLLIN, POLLOUT)` of the connections for which there is an interest.
pub conn_interests : List (Flow × Conn) → List (ℕ × Bool × Bool)
unfolding conn_wants_write conn_wants_read
conn_interests [] = []
conn_interests ((flow, c) ∷ conns) =
    if conn_wants_read c || conn_wants_write c
    then (c.fd, conn_wants_read c, conn_wants_write c) ∷ conn_interests conns
    else conn_interests conns

incoming_interests : List Incoming → List (ℕ × Bool × Bool)
incoming_interests [] = []
incoming_interests (inc ∷ incs) = (inc.fd, true, false) ∷ incoming_interests incs

-- `interests`
pub interests : Mux → List (ℕ × Bool × Bool)
unfolding incoming_interests conn_interests
interests m = (m.listener, true, false) ∷ (incoming_interests m.incoming ++ conn_interests m.conns)

-- `incoming.iter().position(|inc| inc.fd == fd)`
unfoldable pub position : ℕ → List Incoming → Option ℕ
position fd [] = none
position fd (inc ∷ incs) =
    if inc.fd == fd then some 0 else elim (position fd incs) [ none ↦ none | some i ↦ some (suc i) ]

-- `conns.iter().find(|(_, conn)| conn.fd == fd)`
unfoldable pub find_flow : ℕ → List (Flow × Conn) → Option Flow
find_flow fd [] = none
find_flow fd ((flow, c) ∷ conns) = if c.fd == fd then some flow else find_flow fd conns

-- The second half of the event of a connection in `on_fd`.
unfoldable pub on_writable : Mux → Host → Flow → Mux × Host
on_writable m h flow = elim (get flow m.conns) [
  | none ↦ (m, h)
  | some c ↦ if c.connecting then finish_connect m h flow else flush_conn m h flow
]

-- The event of a connection in `on_fd`.
unfoldable pub on_conn_fd : Mux → Host → Flow → Events → Mux × Host
unfolding on_writable
on_conn_fd m h flow ev =
    let (m', h') =
      if ev.pollin || ev.pollhup || ev.pollerr || ev.pollnval then read_conn m h flow else (m, h) in
    if contains_key flow m'.conns && (ev.pollout || ev.pollerr || ev.pollnval)
    then on_writable m' h' flow
    else (m', h')

-- `on_fd`
unfoldable pub on_fd : Mux → Host → ℕ → Events → Mux × Host
unfolding position find_flow
on_fd m h fd ev = if fd == m.listener then accept_loop m h else elim (position fd m.incoming) [
  | some idx ↦ read_incoming m h idx
  | none ↦ elim (find_flow fd m.conns) [ none ↦ (m, h) | some flow ↦ on_conn_fd m h flow ev ]
]
