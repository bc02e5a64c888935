-- ===== src/Blk/Transfer/Moved.antt =====
-- What the loops of src/devices/virtio_blk.rs that move bytes have moved when they end.
use kitsune.Base.{
  ℕ, ◌+◌, ◌-◌, ◌≤◌, ◌<◌, ◌≡◌, refl, ◌∙◌, inl, inr, ◌⊎◌, List, [], ◌∷◌, ltb, Bool-cases, arith,
}
use kitsune.Blk.Transfer.{
  IoError, IoResult, Round, Bytes, err, done_ok, moves, stops, after_round, paint, transfer,
  advance, sys_round, ring_round,
}

-- A round moves no more bytes than there are left.
abbrev pub RoundFits : ℕ → ℕ → Round → Type 0
RoundFits len done (moves n) = done + n ≤ len
RoundFits len done (stops n e) = done + n ≤ len

abbrev pub Fits : {A : Type 0} → ℕ → (ℕ → A → Round) → Type 0
Fits {A} len round = (done : ℕ) (a : A) → done < len → RoundFits len done (round done a)

-- A position that is none of the `len` from `base` on.
abbrev pub Outside : ℕ → ℕ → ℕ → Type 0
Outside base len i = (i < base) ⊎ (base + len ≤ i)

advance-Fits :
    (end_ : IoError) (n len done : ℕ)
    → done < len
    → RoundFits len done (advance end_ n (len - done))
advance-Fits end_ n len done h = ground arith

pub sys_round-Fits : (end_ : IoError) (offset len : ℕ) → Fits len (sys_round end_ offset len)
unfolding sys_round
sys_round-Fits end_ offset len done a h = ground (arith, advance-Fits end_)

pub ring_round-Fits : (end_ : IoError) (len : ℕ) → Fits len (ring_round end_ len)
unfolding ring_round
ring_round-Fits end_ len done a h = ground (arith, advance-Fits end_)

module _ {A : Type 0} (round : ℕ → A → Round) (src : Bytes) (base len : ℕ) where
  -- What is so after a round, if it is so of the rest of the loop.
  abbrev Next {ℓ} :
      (IoResult (Unit {0}) × List A × Bytes → Type ℓ) → ℕ → List A → Bytes → Round → Type ℓ
  Next P done rest dst r = P (
      after_round (λ n. transfer round src base len (done + n) rest (paint src (base + done) n dst))
        (λ n e. (err e, rest, paint src (base + done) n dst)) r)

  paint-Outside :
      (pos n : ℕ) (dst : Bytes) (i : ℕ) → Outside pos n i → paint src pos n dst i ≡ dst i
  unfolding paint
  paint-Outside pos n dst i out = ground arith

  round-Outside :
      (done : ℕ) (rest : List A) (dst : Bytes) (i : ℕ)
      → Outside base len i
      → ((k : ℕ) (d : Bytes) → (transfer round src base len k rest d).2 i ≡ d i)
      → (r : Round) → RoundFits len done r
      → Next (λ t. t.2 i ≡ dst i) done rest dst r
  round-Outside done rest dst i out ih (moves n) fits =
      ih (done + n) (paint src (base + done) n dst)
      ∙ paint-Outside (base + done) n dst i (ground arith)
  round-Outside done rest dst i out ih (stops n e) fits =
      paint-Outside (base + done) n dst i (ground arith)

  -- A loop changes no byte outside the range that it was called for.
  pub transfer-Outside :
      (done : ℕ) (answers : List A) (dst : Bytes)
      → Fits len round
      → (i : ℕ) → Outside base len i
      → (transfer round src base len done answers dst).2 i ≡ dst i
  unfolding transfer
  transfer-Outside done [] dst fits i out = refl
  transfer-Outside done (a ∷ rest) dst fits i out = elim (Bool-cases (ltb done len)) [
    | inl goes ↦
        let this : Next (λ t. t.2 i ≡ dst i) done rest dst (round done a) =
          round-Outside done rest dst i out (λ k d. transfer-Outside k rest d fits i out)
            (round done a) (fits done a (ground arith)) in
        rw goes this
    | inr ends ↦ rw ends refl
  ]

  -- What has been moved by the time a loop ends well.
  abbrev pub Moved : ℕ → Bytes → IoResult (Unit {0}) × List A × Bytes → Type 0
  Moved done dst t = t.0 ≡ done_ok → (i : ℕ) → base + done ≤ i → i < base + len → t.2 i ≡ src i

  -- Bytes that were moved stay: the rest of the loop changes later ones only.
  transfer-before :
      (done : ℕ) (answers : List A) (dst : Bytes) (i : ℕ)
      → i < base + done
      → (transfer round src base len done answers dst).2 i ≡ dst i
  unfolding transfer
  transfer-before done [] dst i h = refl
  transfer-before done (a ∷ rest) dst i h = ground (
    arith,
    before_round done rest dst i h (λ k d lt. transfer-before k rest d i lt) (round done a),
  )
    where
      before_round :
          (done : ℕ) (rest : List A) (dst : Bytes) (i : ℕ)
          → i < base + done
          → ((k : ℕ) (d : Bytes) → i < base + k → (transfer round src base len k rest d).2 i ≡ d i)
          → (r : Round) → Next (λ t. t.2 i ≡ dst i) done rest dst r
      before_round done rest dst i h ih (moves n) =
          ih (done + n) (paint src (base + done) n dst) (omega arith)
          ∙ paint-Outside (base + done) n dst i (ground arith)
      before_round done rest dst i h ih (stops n e) =
          paint-Outside (base + done) n dst i (ground arith)

  round-Moved :
      (done : ℕ) (rest : List A) (dst : Bytes)
      → ((k : ℕ) (d : Bytes) → Moved k d (transfer round src base len k rest d))
      → (r : Round) → Next (Moved done dst) done rest dst r
  unfolding paint
  round-Moved done rest dst ih (moves n) e i lo hi = elim (Bool-cases (ltb i (base + (done + n)))) [
    | inl lt ↦
        transfer-before (done + n) rest (paint src (base + done) n dst) i (ground arith)
        ∙ ground arith
    | inr ge ↦ ih (done + n) (paint src (base + done) n dst) e i (ground arith) hi
  ]
  round-Moved done rest dst ih (stops n x) e i lo hi = cc

  -- A loop that ends well has put every byte that it was called for in its place.
  pub transfer-Moved :
      (done : ℕ) (answers : List A) (dst : Bytes)
      → Moved done dst (transfer round src base len done answers dst)
  unfolding transfer
  transfer-Moved done [] dst = λ e i lo hi. ground arith
  transfer-Moved done (a ∷ rest) dst = elim (Bool-cases (ltb done len)) [
    | inl goes ↦
        let this : Next (Moved done dst) done rest dst (round done a) =
          round-Moved done rest dst (λ k d. transfer-Moved k rest d) (round done a) in
        rw goes this
    | inr ends ↦ λ e i lo hi. ground arith
  ]
