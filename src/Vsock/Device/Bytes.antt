-- ===== src/Vsock/Device/Bytes.antt =====
-- The bytes of a chain, and the header that `pull_tx` of src/devices/virtio_vsock.rs reads in them.
use kitsune.Base.{
  ℕ, zero, suc, ◌≤◌, ◌<◌, List, [], ◌∷◌, All, length, take, drop, length-take, arith, u32_mod,
  from_le_bytes,
}
use kitsune.Vsock.Packet.{parse}
use kitsune.Vsock.Invariant.{HeaderFits}

abbrev pub IsBytes : List ℕ → Type 0
IsBytes bytes = All (λ b. b < 256) bytes

pub IsBytes-take : (n : ℕ) (bs : List ℕ) → IsBytes bs → IsBytes (take n bs)
IsBytes-take zero bs h = tt
IsBytes-take (suc n) [] h = tt
IsBytes-take (suc n) (b ∷ bs) h = (h.0, IsBytes-take n bs h.1)

IsBytes-drop : (n : ℕ) (bs : List ℕ) → IsBytes bs → IsBytes (drop n bs)
IsBytes-drop zero bs h = h
IsBytes-drop (suc n) [] h = tt
IsBytes-drop (suc n) (b ∷ bs) h = IsBytes-drop n bs h.1

four_bytes : (bs : List ℕ) → length bs ≤ 4 → IsBytes bs → from_le_bytes bs < u32_mod
four_bytes [] n h = omega arith
four_bytes (a ∷ []) n (ha, h) = omega arith
four_bytes (a ∷ b ∷ []) n (ha, (hb, h)) = omega arith
four_bytes (a ∷ b ∷ c ∷ []) n (ha, (hb, (hc, h))) = omega arith
four_bytes (a ∷ b ∷ c ∷ d ∷ []) n (ha, (hb, (hc, (hd, h)))) = omega arith
four_bytes (a ∷ b ∷ c ∷ d ∷ e ∷ bs) n h = absurd (omega arith)

pub parse-HeaderFits : (raw : List ℕ) → IsBytes raw → HeaderFits (parse raw)
unfolding parse
parse-HeaderFits raw h = record { alloc = word 36; fwd = word 40 }
  where
    word : (off : ℕ) → from_le_bytes (take 4 (drop off raw)) < u32_mod
    word off =
        four_bytes (take 4 (drop off raw)) (omega (arith, length-take 4 (drop off raw)))
          (IsBytes-take 4 (drop off raw) (IsBytes-drop off raw h))
