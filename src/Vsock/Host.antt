-- ===== src/Vsock/Host.antt =====
-- The kernel as src/devices/vsock_mux.rs calls it. The answers of the system calls are lists that
-- the calls use up in order, so a theorem for every `Host` holds for every behaviour of the kernel.
-- A list that has run out answers with an error. `wire` is what `send` has passed on, by descriptor.
pub mod Laws
use kitsune.Base.{
  ℕ, zero, suc, ◌+◌, Bool, true, false, ◌||◌, List, [], ◌∷◌, ◌++◌, length, take, min, ◌==◌,
  if◌then◌else◌, ltb,
}

-- What the code tells apart of an `io::Error`. `write_zero` is its own, not the kernel's.
pub data Errno : Type 0 where
  would_block eintr in_progress write_zero other : Errno

pub data Io (A : Type 0) : Type 0 where
  ok : A → Io A
  err : Errno → Io A

abbrev pub is_eintr : Errno → Bool
is_eintr eintr = true
is_eintr _ = false

-- `transient`
abbrev pub transient : Errno → Bool
transient would_block = true
transient eintr = true
transient _ = false

pub data How : Type 0 where
  shut_rd shut_wr : How

pub record Host : Type 0 where
  pub sends : List (Io ℕ)
  pub reads : List (Io (List ℕ))
  pub sockets : List (Io ℕ)
  pub connects : List (Io (Unit {0}))
  pub accepts : List (Io ℕ)
  pub sock_errors : List (Io ℕ)
  pub ticks : List ℕ
  pub clock : ℕ
  pub wire : ℕ → List ℕ
  pub shutdowns : List (ℕ × How)

-- The next answer.
abbrev pub answer : {A : Type 0} → List (Io A) → Io A × List (Io A)
answer [] = (err other, [])
answer (a ∷ rest) = (a, rest)

-- `loop { … if EINTR { continue } … }` round a call.
pub retry : {A : Type 0} → List (Io A) → Io A × List (Io A)
retry [] = (err other, [])
retry (ok a ∷ rest) = (ok a, rest)
retry (err e ∷ rest) = let again = retry rest in if is_eintr e then again else (err e, rest)

-- The kernel takes at most the bytes that it is given.
sent : ℕ → List ℕ → Io ℕ → Host → Io ℕ × Host
sent fd buf (err e) h = (err e, h)
sent fd buf (ok n) h =
    let k = min n (length buf) in
    (ok k, record h { wire = λ f. if fd == f then h.wire f ++ take k buf else h.wire f })

-- `send_nosig`
unfoldable pub send_nosig : ℕ → List ℕ → Host → Io ℕ × Host
unfolding sent
send_nosig fd buf h = let (a, rest) = retry h.sends in sent fd buf a (record h { sends = rest })

-- `read_fd` into a buffer of `cap` bytes; no bytes mean the end of the stream.
unfoldable pub read_fd : ℕ → Host → Io (List ℕ) × Host
read_fd cap h =
    let (a, rest) = retry h.reads in
    (elim a [ ok bytes ↦ ok (take cap bytes) | err e ↦ err e ], record h { reads = rest })

-- `shutdown_fd`
abbrev pub shutdown_fd : ℕ → How → Host → Host
shutdown_fd fd how h = record h { shutdowns = h.shutdowns ++ (fd, how) ∷ [] }

-- `Instant::now`: the clock never goes back.
abbrev pub now : Host → ℕ × Host
now h = elim h.ticks [
  | [] ↦ (h.clock, h)
  | t ∷ ts ↦ (h.clock + t, record h { clock = h.clock + t; ticks = ts })
]

-- `unix_stream`
abbrev pub unix_stream : Host → Io ℕ × Host
unix_stream h = let (a, rest) = answer h.sockets in (a, record h { sockets = rest })

-- `socket_error`
abbrev pub socket_error : Host → Io ℕ × Host
socket_error h = let (a, rest) = answer h.sock_errors in (a, record h { sock_errors = rest })

pub data ConnectResult : Type 0 where
  done pending fail : ConnectResult

abbrev pub connect_result : Io (Unit {0}) → ConnectResult
connect_result (ok _) = done
connect_result (err in_progress) = pending
connect_result (err _) = fail

-- `connect_unix`
pub connect_unix : List ℕ → Host → ConnectResult × Host
connect_unix path h =
    if ltb 107 (length path)
    then (fail, h)
    else (let (a, rest) = answer h.connects in (connect_result a, record h { connects = rest }))
