-- ===== src/Vsock/Invariant/Guest.antt =====
-- Every packet from the guest keeps the invariant.
use kitsune.Base.{
  ℕ, ◌-◌, ◌%◌, ◌≤◌, ◌≡◌, refl, true, false, not, List, length, length-append, arith, ◌==◌,
  if◌then◌else◌, inl, inr, Bool-cases, Option-cases, is_empty, u32_mod, ltb, ◌||◌,
}
use kitsune.Vsock.Flow.{Flow, get}
use kitsune.Vsock.Packet.{
  Header, op_request, op_response, op_rst, op_rw, op_shutdown, op_credit_request, max_payload,
  host_cid, type_stream,
}
use kitsune.Vsock.Host.{Host}
use kitsune.Vsock.State.{Conn, Mux, local_free, is_established, is_waiting}
use kitsune.Vsock.Queue.{drop_conn}
use kitsune.Vsock.Guest.{
  on_response, on_shutdown, accepts_data, receive, on_rw, dispatch, refuse, route, handle_guest_pkt,
  guest_flow,
}
use kitsune.Vsock.Invariant.{ConnInv, MuxInv, HeaderFits}
use kitsune.Vsock.Invariant.Queue.{conn_of, put-MuxInv, enqueue_rst-MuxInv, drop_conn-MuxInv}
use kitsune.Vsock.Invariant.Credit.{enqueue_credit-MuxInv}
use kitsune.Vsock.Invariant.Stream.{quiet-ConnInv, flush_conn-MuxInv}
use kitsune.Vsock.Invariant.Request.{note_credit-ConnInv, on_guest_request-MuxInv}

-- What waits for the socket is what was received and not yet forwarded.
pub local_free-ConnInv : (c : Conn) → ConnInv c → local_free c ≡ c.buf_alloc - length c.to_host
unfolding local_free
local_free-ConnInv c i = omega (arith, i.alloc, i.held, i.received, i.forwarded)

-- Data that fits the free space keeps what waits within the announced buffer.
receive-ConnInv :
    (c : Conn) (bytes : List ℕ)
    → length bytes ≤ max_payload
    → is_established c.phase ≡ true
    → ltb (local_free c) (length bytes % u32_mod) ≡ false
    → ConnInv c
    → ConnInv (receive c bytes)
receive-ConnInv c bytes small est fits i =
    let fits' : length bytes ≤ local_free c = ground arith in
    let free = local_free-ConnInv c i in
    let len = length-append c.to_host bytes in
    record {
      alloc = i.alloc;
      held = omega (arith, i.alloc, i.held, fits', free, len);
      received = omega (arith, i.received, i.forwarded, len, small);
      forwarded = i.forwarded;
      early = i.early;
      counts = record {
        sent = i.counts.sent;
        forwarded = i.counts.forwarded;
        alloc = i.counts.alloc;
      };
      staged = inl est;
    }

on_response-MuxInv : (m : Mux) (h : Host) (flow : Flow) → MuxInv m → MuxInv (on_response m h flow).0
unfolding on_response
on_response-MuxInv m h flow v = elim (Option-cases (get flow m.conns)) [
  | inl e ↦ rw (e, on_response) v
  | inr (c, e) ↦ elim (Bool-cases (is_waiting c.phase)) [
    | inr past ↦ rw (e, on_response) (rw past v)
    | inl waits ↦
        rw (e, on_response)
          (rw waits (
            flush_conn-MuxInv _ h flow (
              put-MuxInv m flow _ v
                (quiet-ConnInv c _ refl refl (inl refl) (conn_of m flow c v e)))))
  ]
]

on_shutdown-MuxInv :
    (m : Mux) (h : Host) (flow : Flow) (flags : ℕ)
    → MuxInv m
    → MuxInv (on_shutdown m h flow flags).0
unfolding on_shutdown
on_shutdown-MuxInv m h flow flags v = elim (Option-cases (get flow m.conns)) [
  | inl e ↦ rw (e, on_shutdown) (flush_conn-MuxInv m h flow v)
  | inr (c, e) ↦
      rw (e, on_shutdown)
        (let i = conn_of m flow c v e in
          flush_conn-MuxInv _ _ flow
            (put-MuxInv m flow _ v (quiet-ConnInv c _ refl refl i.staged i)))
]

-- What the test of `on_rw` says of the connection.
established_of_accepts : (c : Conn) → accepts_data c ≡ true → is_established c.phase ≡ true
established_of_accepts c e = ground arith

on_rw-MuxInv :
    (m : Mux) (h : Host) (flow : Flow) (bytes : List ℕ)
    → length bytes ≤ max_payload
    → MuxInv m
    → MuxInv (on_rw m h flow bytes).0
unfolding on_rw
on_rw-MuxInv m h flow bytes small v = elim (Bool-cases (is_empty bytes)) [
  | inl no_bytes ↦ rw no_bytes v
  | inr more ↦ elim (Option-cases (get flow m.conns)) [
    | inl e ↦ rw (e, on_rw) (rw more v)
    | inr (c, e) ↦ elim (Bool-cases (accepts_data c)) [
      | inr shut ↦ rw (e, on_rw) (rw (more, shut) v)
      | inl takes ↦ elim (Bool-cases (ltb (local_free c) (length bytes % u32_mod))) [
        | inl over ↦ rw (e, on_rw) (rw (more, takes, over) (drop_conn-MuxInv m flow true v))
        | inr fits ↦
            rw (e, on_rw)
              (rw (more, takes, fits)
                (flush_conn-MuxInv _ h flow (
                  put-MuxInv m flow _ v (
                    receive-ConnInv c bytes small (established_of_accepts c takes) fits
                      (conn_of m flow c v e)))))
      ]
    ]
  ]
]

on_large-MuxInv :
    (m : Mux) (h : Host) (flow : Flow) (bytes : List ℕ)
    → MuxInv m
    → MuxInv
        (if ltb max_payload (length bytes)
          then (drop_conn m flow true, h)
          else on_rw m h flow bytes).0
on_large-MuxInv m h flow bytes v = elim (Bool-cases (ltb max_payload (length bytes))) [
  | inl large ↦ rw large (drop_conn-MuxInv m flow true v)
  | inr small ↦ rw small (on_rw-MuxInv m h flow bytes (ground arith) v)
]

dispatch-MuxInv :
    (m : Mux) (h : Host) (flow : Flow) (hdr : Header) (bytes : List ℕ)
    → MuxInv m
    → MuxInv (dispatch m h flow hdr bytes).0
unfolding dispatch
dispatch-MuxInv m h flow hdr bytes v = elim (Bool-cases (hdr.op == op_response)) [
  | inl a ↦ rw a (on_response-MuxInv m h flow v)
  | inr a ↦ elim (Bool-cases (hdr.op == op_rst)) [
    | inl b ↦ rw (a, b) (drop_conn-MuxInv m flow false v)
    | inr b ↦ elim (Bool-cases (hdr.op == op_shutdown)) [
      | inl c ↦ rw (a, b, c) (on_shutdown-MuxInv m h flow hdr.flags v)
      | inr c ↦ elim (Bool-cases (hdr.op == op_rw)) [
        | inl d ↦ rw (a, b, c, d) (on_large-MuxInv m h flow bytes v)
        | inr d ↦ elim (Bool-cases (hdr.op == op_credit_request)) [
          | inl e ↦ rw (a, b, c, d, e) (enqueue_credit-MuxInv m flow v)
          | inr e ↦ rw (a, b, c, d, e) v
        ]
      ]
    ]
  ]
]

refuse-MuxInv : (m : Mux) (flow : Flow) (hdr : Header) → MuxInv m → MuxInv (refuse m flow hdr)
refuse-MuxInv m flow hdr v = elim (Bool-cases (hdr.op == op_rst)) [
  | inl a ↦ rw a v
  | inr a ↦ rw a (enqueue_rst-MuxInv m flow v)
]

route-MuxInv :
    (m : Mux) (h : Host) (flow : Flow) (hdr : Header) (bytes : List ℕ)
    → HeaderFits hdr
    → MuxInv m
    → MuxInv (route m h flow hdr bytes).0
unfolding route
route-MuxInv m h flow hdr bytes f v = elim (Bool-cases (hdr.op == op_request)) [
  | inl a ↦ rw a (on_guest_request-MuxInv m h flow hdr f v)
  | inr a ↦ elim (Option-cases (get flow m.conns)) [
    | inl e ↦ rw (e, route) (rw a (refuse-MuxInv m flow hdr v))
    | inr (c, e) ↦
        rw (e, route)
          (rw a (
            dispatch-MuxInv _ h flow hdr bytes
              (put-MuxInv m flow _ v (note_credit-ConnInv c hdr f (conn_of m flow c v e)))))
  ]
]

-- Whatever packet the guest sends, and whatever the kernel answers, the invariant holds after it:
-- among others, no connection holds more for the host's socket than the 256 KiB that it announced,
-- the counters agree with the bytes held, and every data packet belongs to a live connection.
pub handle_guest_pkt-MuxInv :
    (m : Mux) (h : Host) (hdr : Header) (bytes : List ℕ)
    → HeaderFits hdr
    → MuxInv m
    → MuxInv (handle_guest_pkt m h hdr bytes).0
unfolding handle_guest_pkt
handle_guest_pkt-MuxInv m h hdr bytes f v =
    elim (Bool-cases (not (hdr.src_cid == m.guest_cid) || not (hdr.dst_cid == host_cid))) [
      | inl a ↦ rw a v
      | inr a ↦ elim (Bool-cases (hdr.type_ == type_stream)) [
        | inl b ↦ rw (a, b) (route-MuxInv m h (guest_flow hdr) hdr bytes f v)
        | inr b ↦ rw (a, b) (refuse-MuxInv m (guest_flow hdr) hdr v)
      ]
    ]
