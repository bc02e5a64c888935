-- ===== src/Console/Probe.antt =====
-- `DsrProbe` of src/devices/serial.rs: the recogniser of the query `ESC [ 6 n` in what the guest sends.
use kitsune.Base.{ℕ, ◌≡◌, refl, Bool, true, false, ◌&&◌, List, [], ◌∷◌, ◌==◌, if◌then◌else◌, arith}

pub data DsrProbe : Type 0 where
  idle esc bracket six : DsrProbe

-- What the guest has sent is a query when a byte `n` follows the state `six`.
abbrev pub matched : DsrProbe → ℕ → DsrProbe × Bool
matched idle byte = (idle, false)
matched esc byte = (if byte == 91 then bracket else idle, false)
matched bracket byte = (if byte == 54 then six else idle, false)
matched six byte = (idle, byte == 110)

-- `match (self.dsr_probe, byte)`: the next state, and whether the byte ends a query.
unfoldable pub next_probe : DsrProbe → ℕ → DsrProbe × Bool
next_probe probe byte = if byte == 27 then (esc, false) else matched probe byte

-- The state after all that was sent, the last byte first.
unfoldable pub probe_after : List ℕ → DsrProbe
probe_after [] = idle
probe_after (byte ∷ sent) = (next_probe (probe_after sent) byte).0

-- Whether the last bytes, the very last first, are the bytes of a string read backwards.
abbrev pub ends_in : List ℕ → List ℕ → Bool
ends_in [] sent = true
ends_in (b ∷ bs) [] = false
ends_in (b ∷ bs) (s ∷ sent) = (s == b) && ends_in bs sent

-- "ESC [ 6 n", backwards.
abbrev pub query : List ℕ
query = 110 ∷ 54 ∷ 91 ∷ 27 ∷ []

-- What the state says of the bytes that were sent.
abbrev Says : DsrProbe → List ℕ → Type 0
Says idle sent =
    (ends_in (27 ∷ []) sent ≡ false)
    × (ends_in (91 ∷ 27 ∷ []) sent ≡ false)
    × (ends_in (54 ∷ 91 ∷ 27 ∷ []) sent ≡ false)
Says esc sent =
    (ends_in (27 ∷ []) sent ≡ true)
    × (ends_in (91 ∷ 27 ∷ []) sent ≡ false)
    × (ends_in (54 ∷ 91 ∷ 27 ∷ []) sent ≡ false)
Says bracket sent =
    (ends_in (27 ∷ []) sent ≡ false)
    × (ends_in (91 ∷ 27 ∷ []) sent ≡ true)
    × (ends_in (54 ∷ 91 ∷ 27 ∷ []) sent ≡ false)
Says six sent =
    (ends_in (27 ∷ []) sent ≡ false)
    × (ends_in (91 ∷ 27 ∷ []) sent ≡ false)
    × (ends_in (54 ∷ 91 ∷ 27 ∷ []) sent ≡ true)

next-Says :
    (probe : DsrProbe) (byte : ℕ) (sent : List ℕ)
    → Says probe sent
    → Says (next_probe probe byte).0 (byte ∷ sent)
unfolding next_probe
next-Says idle byte sent (a, b, c) = ground arith
next-Says esc byte sent (a, b, c) = ground arith
next-Says bracket byte sent (a, b, c) = ground arith
next-Says six byte sent (a, b, c) = ground arith

probe_after-Says : (sent : List ℕ) → Says (probe_after sent) sent
unfolding probe_after
probe_after-Says [] = (refl, refl, refl)
probe_after-Says (byte ∷ sent) = next-Says (probe_after sent) byte sent (probe_after-Says sent)

next-query :
    (probe : DsrProbe) (byte : ℕ) (sent : List ℕ)
    → Says probe sent
    → (next_probe probe byte).1 ≡ ends_in query (byte ∷ sent)
unfolding next_probe
next-query idle byte sent (a, b, c) = ground arith
next-query esc byte sent (a, b, c) = ground arith
next-query bracket byte sent (a, b, c) = ground arith
next-query six byte sent (a, b, c) = ground arith

-- Whatever the guest has sent, a byte is taken as the end of a query exactly if it and the three bytes
-- before it are `ESC [ 6 n`.
pub next_probe-query :
    (sent : List ℕ) (byte : ℕ)
    → (next_probe (probe_after sent) byte).1 ≡ ends_in query (byte ∷ sent)
next_probe-query sent byte = next-query (probe_after sent) byte sent (probe_after-Says sent)
