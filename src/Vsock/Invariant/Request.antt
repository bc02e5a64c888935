-- ===== src/Vsock/Invariant/Request.antt =====
-- A request of the guest for a connection keeps the invariant.
use kitsune.Base.{
  ℕ, ◌+◌, ◌≡◌, refl, true, List, some, arith, ◌==◌, inl, inr, Bool-cases, Option-cases,
}
use kitsune.Vsock.Flow.{Flow, get, insert}
use kitsune.Vsock.Packet.{Header, ctrl, op_response}
use kitsune.Vsock.Host.{
  Host, Io, ok, err, ConnectResult, done, pending, fail, connect_unix, unix_stream, now,
}
use kitsune.Vsock.State.{Conn, Mux, established}
use kitsune.Vsock.Queue.{enqueue, enqueue_rst}
use kitsune.Vsock.Guest.{requested, open_request, on_guest_request, peer_socket_path, note_credit}
use kitsune.Vsock.Invariant.{ConnInv, MuxInv, HeaderFits, new_conn-ConnInv}
use kitsune.Vsock.Invariant.Queue.{
  insert-MuxInv, enqueue-MuxInv, enqueue_rst-MuxInv, drop_conn-MuxInv,
}
use kitsune.Vsock.Invariant.Stream.{quiet-ConnInv}

pub note_credit-ConnInv :
    (c : Conn) (hdr : Header) → HeaderFits hdr → ConnInv c → ConnInv (note_credit c hdr)
note_credit-ConnInv c hdr f i = record {
  alloc = i.alloc;
  held = i.held;
  received = i.received;
  forwarded = i.forwarded;
  early = i.early;
  counts = record { sent = i.counts.sent; forwarded = f.fwd; alloc = f.alloc };
  staged = i.staged;
}

-- `open_request` after its connect.
after_open : Mux → Flow → Header → ℕ → ConnectResult × Host → Mux × Host
after_open m flow hdr fd (done, h) = (
  enqueue (record m { conns = insert flow (requested fd hdr) m.conns }) (ctrl flow op_response 0),
  h,
)
after_open m flow hdr fd (pending, h) =
    let (t, h') = now h in
    let opened = requested fd hdr in
    (
      record m {
        conns = insert flow (record opened { connecting = true; expiry = some (t + 2) }) m.conns;
      },
      h',
    )
after_open m flow hdr fd (fail, h) = (enqueue_rst m flow, h)

after_open-MuxInv :
    (m : Mux) (flow : Flow) (hdr : Header) (fd : ℕ) (s : ConnectResult × Host)
    → HeaderFits hdr
    → MuxInv m
    → MuxInv (after_open m flow hdr fd s).0
unfolding after_open
after_open-MuxInv m flow hdr fd (done, h) f v =
    enqueue-MuxInv _ (ctrl flow op_response 0) (omega arith)
      (insert-MuxInv m flow _ v (note_credit-ConnInv _ hdr f (new_conn-ConnInv fd established)))
after_open-MuxInv m flow hdr fd (pending, h) f v =
    let i = note_credit-ConnInv _ hdr f (new_conn-ConnInv fd established) in
    insert-MuxInv m flow _ v (quiet-ConnInv (requested fd hdr) _ refl refl i.staged i)
after_open-MuxInv m flow hdr fd (fail, h) f v = enqueue_rst-MuxInv m flow v

after_socket : Mux → Flow → Header → List ℕ → Io ℕ × Host → Mux × Host
after_socket m flow hdr path (ok fd, h) = after_open m flow hdr fd (connect_unix path h)
after_socket m flow hdr path (err e, h) = (enqueue_rst m flow, h)

open_request-after_socket :
    (m : Mux) (h : Host) (flow : Flow) (hdr : Header) (path : List ℕ)
    → open_request m h flow hdr path ≡ after_socket m flow hdr path (unix_stream h)
unfolding open_request after_socket after_open
open_request-after_socket m h flow hdr path = ground arith

after_socket-MuxInv :
    (m : Mux) (flow : Flow) (hdr : Header) (path : List ℕ) (s : Io ℕ × Host)
    → HeaderFits hdr
    → MuxInv m
    → MuxInv (after_socket m flow hdr path s).0
unfolding after_socket
after_socket-MuxInv m flow hdr path (ok fd, h) f v = after_open-MuxInv m flow hdr fd _ f v
after_socket-MuxInv m flow hdr path (err e, h) f v = enqueue_rst-MuxInv m flow v

pub on_guest_request-MuxInv :
    (m : Mux) (h : Host) (flow : Flow) (hdr : Header)
    → HeaderFits hdr
    → MuxInv m
    → MuxInv (on_guest_request m h flow hdr).0
unfolding on_guest_request
on_guest_request-MuxInv m h flow hdr f v = elim (Option-cases (get flow m.conns)) [
  | inr (c, e) ↦ rw (e, on_guest_request) (drop_conn-MuxInv m flow true v)
  | inl e ↦ elim (Bool-cases (hdr.len == 0)) [
    | inr bytes ↦ rw (e, on_guest_request) (rw bytes (enqueue_rst-MuxInv m flow v))
    | inl no_bytes ↦ elim (Option-cases (peer_socket_path m flow.host_port)) [
      | inl long ↦ rw (e, on_guest_request) (rw (no_bytes, long) (enqueue_rst-MuxInv m flow v))
      | inr (path, fits) ↦
          rw (e, on_guest_request)
            (rw (no_bytes, fits, open_request-after_socket m h flow hdr path)
              (after_socket-MuxInv m flow hdr path _ f v))
    ]
  ]
]
