-- ===== src/Blk/Transfer.antt =====
-- The loops of src/devices/virtio_blk.rs that move bytes between the disk image and the scratch
-- buffer: `pread_all`, `pwrite_all`, `ring_read` and `ring_write`. The image and the buffer are
-- functions from a position to a byte, both descriptors are of the one image, and the answers of the
-- kernel are lists that the calls use up in order. A list that has run out answers with an error.
pub mod Moved
pub mod Progress
use kitsune.Base.{
  ℕ, zero, suc, ◌+◌, ◌-◌, ◌*◌, ◌^◌, min, Bool, true, false, ◌&&◌, Option, none, some, List, [], ◌∷◌,
  ◌==◌, ltb, leb, if◌then◌else◌, u32_mod,
}

-- What the code tells apart of an `io::Error`.
pub data IoError : Type 0 where
  eintr einval unexpected_eof write_zero invalid_input other : IoError

-- `std::io::Result`
pub data IoResult (A : Type 0) : Type 0 where
  ok : A → IoResult A
  err : IoError → IoResult A

abbrev pub done_ok : IoResult (Unit {0})
done_ok = ok tt

abbrev pub Bytes : Type 0
Bytes = ℕ → ℕ

-- `n` bytes of `src` from position `pos` on, put in their places in `dst`.
unfoldable pub paint : Bytes → ℕ → ℕ → Bytes → Bytes
paint src pos n dst i = if leb pos i && ltb i (pos + n) then src i else dst i

-- How one round of a loop ends: it goes on after it has moved some bytes, or it returns an error,
-- when the kernel may have moved bytes as well.
pub data Round : Type 0 where
  moves : ℕ → Round
  stops : ℕ → IoError → Round

abbrev pub after_round : {R : Type 0} → (ℕ → R) → (ℕ → IoError → R) → Round → R
after_round next stop (moves n) = next n
after_round next stop (stops n e) = stop n e

-- `while done < buf.len()`, with what a round does for an answer of the kernel. The bytes of `src`
-- from `base` on go to their places in `dst`.
unfoldable pub transfer :
    {A : Type 0}
    → (ℕ → A → Round)
    → Bytes
    → ℕ
    → ℕ
    → ℕ
    → List A
    → Bytes
    → IoResult (Unit {0}) × List A × Bytes
transfer round src base len done [] dst = (if ltb done len then err other else done_ok, [], dst)
transfer round src base len done (a ∷ rest) dst =
    if ltb done len
    then after_round
        (λ n. transfer round src base len (done + n) rest (paint src (base + done) n dst))
        (λ n e. (err e, rest, paint src (base + done) n dst)) (round done a)
    else (done_ok, a ∷ rest, dst)

-- `to_off_t`
unfoldable pub to_off_t : ℕ → Option ℕ
to_off_t offset = if ltb offset (2 ^ 63) then some offset else none

-- What the loops do with `res` bytes moved, of which there are at most as many as were asked for.
abbrev pub advance : IoError → ℕ → ℕ → Round
advance end_ n left = if min n left == 0 then stops 0 end_ else moves (min n left)

-- A round of `pread_all` and of `pwrite_all`; `end_` is the error when no byte is moved.
unfoldable pub sys_round : IoError → ℕ → ℕ → ℕ → IoResult ℕ → Round
sys_round end_ offset len done a = elim (to_off_t (offset + done)) [
  | none ↦ stops 0 invalid_input
  | some off ↦ elim a [
    | ok n ↦ advance end_ n (len - done)
    | err eintr ↦ moves 0
    | err e ↦ stops 0 e
  ]
]

-- How an entry of the ring fares: `push` or `submit_and_wait` fails, or no completion or another's
-- completion is found, when the kernel may have moved some bytes all the same; or its own
-- completion is found.
pub data RingAnswer : Type 0 where
  fails : ℕ → IoError → RingAnswer
  completes : IoResult ℕ → RingAnswer

-- A round of `ring_read` and of `ring_write`.
unfoldable pub ring_round : IoError → ℕ → ℕ → RingAnswer → Round
ring_round end_ len done a = elim (ltb (len - done) u32_mod) [
  | false ↦ stops 0 invalid_input
  | true ↦ elim a [
    | fails n e ↦ stops (min n (len - done)) e
    | completes (err e) ↦ stops 0 e
    | completes (ok n) ↦ advance end_ n (len - done)
  ]
]

-- `pread_all` of `len` bytes at `offset`
unfoldable pub pread_all :
    Bytes → ℕ → ℕ → List (IoResult ℕ) → Bytes → IoResult (Unit {0}) × List (IoResult ℕ) × Bytes
pread_all file offset len answers buf =
    transfer (sys_round unexpected_eof offset len) (λ i. file (offset + i)) 0 len 0 answers buf

-- `pwrite_all`
unfoldable pub pwrite_all :
    Bytes → ℕ → ℕ → List (IoResult ℕ) → Bytes → IoResult (Unit {0}) × List (IoResult ℕ) × Bytes
pwrite_all buf offset len answers file =
    transfer (sys_round write_zero offset len) (λ p. buf (p - offset)) offset len 0 answers file

-- `ring_read`
unfoldable pub ring_read :
    Bytes → ℕ → ℕ → List RingAnswer → Bytes → IoResult (Unit {0}) × List RingAnswer × Bytes
ring_read file offset len answers buf =
    transfer (ring_round unexpected_eof len) (λ i. file (offset + i)) 0 len 0 answers buf

-- `ring_write`
unfoldable pub ring_write :
    Bytes → ℕ → ℕ → List RingAnswer → Bytes → IoResult (Unit {0}) × List RingAnswer × Bytes
ring_write buf offset len answers file =
    transfer (ring_round write_zero len) (λ p. buf (p - offset)) offset len 0 answers file

-- `ring_fsync`
unfoldable pub ring_fsync : List RingAnswer → IoResult (Unit {0}) × List RingAnswer
ring_fsync [] = (err other, [])
ring_fsync (fails n e ∷ rest) = (err e, rest)
ring_fsync (completes (err e) ∷ rest) = (err e, rest)
ring_fsync (completes (ok n) ∷ rest) = (done_ok, rest)
