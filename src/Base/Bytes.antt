-- ===== src/Base/Bytes.antt =====
-- Little-endian bytes and the arithmetic of Rust's unsigned words.
use Prim.Native.Nat.{ℕ, zero, suc, ◌+◌, ◌-◌, ◌*◌, ◌/◌, ◌%◌, ◌^◌, ◌<◌}
use mathlib.Core.Path.{◌≡◌, refl}
use mathlib.Core.List.{List, [], ◌∷◌, ◌++◌}
use native.Mathlib.Nat.{pow-suc}
use native.Mathlib.Omega.{arith}
use kitsune.Base.Lists.{length, take, drop}

abbrev pub u32_mod : ℕ
u32_mod = 2 ^ 32

abbrev pub u64_mod : ℕ
u64_mod = 2 ^ 64

-- `u32::wrapping_add` and `u32::wrapping_sub`.
abbrev pub wrapping_add : ℕ → ℕ → ℕ
wrapping_add a b = (a + b) % u32_mod

abbrev pub wrapping_sub : ℕ → ℕ → ℕ
wrapping_sub a b = (a + u32_mod - b) % u32_mod

-- `to_le_bytes` and `from_le_bytes` of a word of `w` bytes.
abbrev pub to_le_bytes : ℕ → ℕ → List ℕ
to_le_bytes zero x = []
to_le_bytes (suc w) x = x % 256 ∷ to_le_bytes w (x / 256)

abbrev pub from_le_bytes : List ℕ → ℕ
from_le_bytes [] = 0
from_le_bytes (b ∷ bs) = b + 256 * from_le_bytes bs

-- `buf[off..off + len]`
abbrev pub slice : ℕ → ℕ → List ℕ → List ℕ
slice off len raw = take len (drop off raw)

-- `buf[off..off + bytes.len()].copy_from_slice(bytes)`
abbrev pub copy_from_slice : List ℕ → ℕ → List ℕ → List ℕ
copy_from_slice raw off bytes = take off raw ++ (bytes ++ drop (off + length bytes) raw)

pub from_le_bytes-to_le_bytes : (w x : ℕ) → x < 256 ^ w → from_le_bytes (to_le_bytes w x) ≡ x
from_le_bytes-to_le_bytes zero x h = omega arith
from_le_bytes-to_le_bytes (suc w) x h =
    let bound = pow-suc 256 w in
    omega (arith, bound, from_le_bytes-to_le_bytes w (x / 256) (omega (arith, bound)))

pub length-to_le_bytes : (w x : ℕ) → length (to_le_bytes w x) ≡ w
length-to_le_bytes zero x = refl
length-to_le_bytes (suc w) x = omega (arith, length-to_le_bytes w (x / 256))
