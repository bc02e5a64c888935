-- ===== src/Blk/Transfer/Progress.antt =====
-- When `pread_all` and `pwrite_all` of src/devices/virtio_blk.rs end well, and what they do together.
use kitsune.Base.{ℕ, suc, ◌+◌, ◌-◌, ◌^◌, ◌≤◌, ◌<◌, min, ◌≡◌, ap, ◌∙◌, List, [], ◌∷◌, arith}
use kitsune.Blk.Transfer.{
  IoError, IoResult, Bytes, ok, err, done_ok, eintr, einval, unexpected_eof, write_zero,
  invalid_input, other, paint, transfer, to_off_t, sys_round, pread_all, pwrite_all,
}
use kitsune.Blk.Transfer.Moved.{transfer-Moved}

-- Answers that move something or tell the caller to try again, and how many of them move something.
abbrev pub Helps : IoResult ℕ → Type 0
Helps (ok n) = 1 ≤ n
Helps (err eintr) = Unit
Helps (err einval) = ⊥
Helps (err unexpected_eof) = ⊥
Helps (err write_zero) = ⊥
Helps (err invalid_input) = ⊥
Helps (err other) = ⊥

abbrev pub helping : List (IoResult ℕ) → ℕ
helping [] = 0
helping (ok n ∷ rest) = suc (helping rest)
helping (err e ∷ rest) = helping rest

abbrev pub AllHelp : List (IoResult ℕ) → Type 0
AllHelp [] = Unit
AllHelp (a ∷ rest) = Helps a × AllHelp rest

module _ (end_ : IoError) (offset len : ℕ) (src : Bytes) (base : ℕ) where
  pub transfer-done :
      (done : ℕ) (answers : List (IoResult ℕ)) (dst : Bytes)
      → offset + len ≤ 2 ^ 63
      → AllHelp answers
      → len ≤ done + helping answers
      → (transfer (sys_round end_ offset len) src base len done answers dst).0 ≡ done_ok
  unfolding transfer sys_round to_off_t
  transfer-done done [] dst fits h enough = ground arith
  transfer-done done (ok n ∷ rest) dst fits h enough = ground (
    arith,
    transfer-done (done + min n (len - done)) rest
        (paint src (base + done) (min n (len - done)) dst) fits h.1,
  )
  transfer-done done (err eintr ∷ rest) dst fits h enough =
      ground (arith, transfer-done (done + 0) rest (paint src (base + done) 0 dst) fits h.1)
  transfer-done done (err einval ∷ rest) dst fits h enough = absurd h.0
  transfer-done done (err unexpected_eof ∷ rest) dst fits h enough = absurd h.0
  transfer-done done (err write_zero ∷ rest) dst fits h enough = absurd h.0
  transfer-done done (err invalid_input ∷ rest) dst fits h enough = absurd h.0
  transfer-done done (err other ∷ rest) dst fits h enough = absurd h.0

-- If the kernel answers every `pread` with some bytes or with `EINTR`, and often enough, `pread_all`
-- of a range that fits in an `off_t` ends well, and the buffer holds the range.
pub pread_all_complete :
    (file : Bytes) (offset len : ℕ) (answers : List (IoResult ℕ)) (buf : Bytes) (i : ℕ)
    → offset + len ≤ 2 ^ 63
    → AllHelp answers
    → len ≤ helping answers
    → i < len
    → ((pread_all file offset len answers buf).0 ≡ done_ok)
      × ((pread_all file offset len answers buf).2 i ≡ file (offset + i))
unfolding pread_all
pread_all_complete file offset len answers buf i fits help enough h =
    let fine =
      transfer-done unexpected_eof offset len (λ k. file (offset + k)) 0 0 answers buf fits help
        (omega (arith, enough)) in
    (
      fine,
      transfer-Moved (sys_round unexpected_eof offset len) (λ k. file (offset + k)) 0 len 0 answers
          buf fine i (omega arith) (omega (arith, h)),
    )

-- What `pwrite_all` has written, `pread_all` reads back, if both end well.
pub pwrite_all-pread_all :
    (buf : Bytes) (offset len : ℕ) (writes : List (IoResult ℕ)) (file : Bytes)
    (reads : List (IoResult ℕ)) (into : Bytes) (i : ℕ)
    → (pwrite_all buf offset len writes file).0 ≡ done_ok
    → (pread_all (pwrite_all buf offset len writes file).2 offset len reads into).0 ≡ done_ok
    → i < len
    → (pread_all (pwrite_all buf offset len writes file).2 offset len reads into).2 i ≡ buf i
unfolding pread_all pwrite_all
pwrite_all-pread_all buf offset len writes file reads into i wrote read_ h =
    transfer-Moved (sys_round unexpected_eof offset len)
      (λ k. (pwrite_all buf offset len writes file).2 (offset + k)) 0 len 0 reads into read_ i
      (omega arith) (omega (arith, h))
    ∙ (transfer-Moved (sys_round write_zero offset len) (λ p. buf (p - offset)) offset len 0 writes
          file wrote (offset + i) (omega arith) (omega (arith, h))
        ∙ ap buf (omega arith))
