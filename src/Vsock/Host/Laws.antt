-- ===== src/Vsock/Host/Laws.antt =====
-- What one call of the kernel does: `send_nosig` and `read_fd`.
use kitsune.Base.{
  ℕ, ◌≤◌, ◌≡◌, refl, ◌⊎◌, inl, inr, List, ◌++◌, length, take, min, arith, ◌==◌, if◌then◌else◌,
  length-take,
}
use kitsune.Vsock.Host.{Host, Io, ok, err, Errno, retry, sent, send_nosig, read_fd}

-- A call either fails and sends nothing, or sends the first `k` bytes of what it was given.
abbrev pub Sends : ℕ → List ℕ → Host → Io ℕ × Host → Type 0
Sends fd buf h s =
    ((e : Errno) × (s.0 ≡ err e) × (s.1.wire ≡ h.wire))
    ⊎ ((k : ℕ) × (s.0 ≡ ok k)
        × (k ≤ length buf)
        × (s.1.wire ≡ (λ f. if fd == f then h.wire f ++ take k buf else h.wire f)))

sent-Sends : (fd : ℕ) (buf : List ℕ) (a : Io ℕ) (h : Host) → Sends fd buf h (sent fd buf a h)
unfolding sent
sent-Sends fd buf (err e) h = inl (e, refl, refl)
sent-Sends fd buf (ok n) h = inr (min n (length buf), refl, omega arith, refl)

pub send_nosig-Sends : (fd : ℕ) (buf : List ℕ) (h : Host) → Sends fd buf h (send_nosig fd buf h)
unfolding send_nosig
send_nosig-Sends fd buf h =
    sent-Sends fd buf (retry h.sends).0 (record h { sends = (retry h.sends).1 })

-- `read_fd` leaves what was written alone.
pub wire-read_fd : (cap : ℕ) (h : Host) → (read_fd cap h).1.wire ≡ h.wire
unfolding read_fd
wire-read_fd cap h = refl

-- A read brings at most the bytes that it asked for.
abbrev pub ReadsAtMost : ℕ → Io (List ℕ) → Type 0
ReadsAtMost cap (ok bytes) = length bytes ≤ cap
ReadsAtMost cap (err e) = Unit

reads_at_most :
    (cap : ℕ) (a : Io (List ℕ))
    → ReadsAtMost cap (elim a [ ok bytes ↦ ok (take cap bytes) | err e ↦ err e ])
reads_at_most cap (ok bytes) = omega (arith, length-take cap bytes)
reads_at_most cap (err e) = tt

pub read_fd-ReadsAtMost : (cap : ℕ) (h : Host) → ReadsAtMost cap (read_fd cap h).0
unfolding read_fd
read_fd-ReadsAtMost cap h = reads_at_most cap (retry h.reads).0
