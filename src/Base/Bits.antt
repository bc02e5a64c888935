-- ===== src/Base/Bits.antt =====
-- Facts about all bytes, by evaluation on each of them.
use kitsune.Base.Tests.{if◌then◌else◌}
use native.Mathlib.Decide.{ℕ_discrete}
use Prim.Native.Nat.{ℕ, zero, suc, ◌<◌}
use mathlib.Core.Path.{◌≡◌}
use mathlib.Core.Bool.{Bool, true, false}
use native.Mathlib.Omega.{arith}

-- Whether a test holds of every number below a bound.
unfoldable pub scan : (ℕ → Bool) → ℕ → Bool
scan test zero = true
scan test (suc bound) = let below = scan test bound in if test bound then below else false

pub scan-holds :
    (test : ℕ → Bool) (bound : ℕ) → scan test bound ≡ true → (b : ℕ) → b < bound → test b ≡ true
unfolding scan
scan-holds test zero all_hold b small = absurd (omega arith)
scan-holds test (suc bound) all_hold b small =
    let below : scan test bound ≡ true = ground arith in
    let here : test bound ≡ true = ground arith in
    elim (ℕ_discrete b bound) [
      | yes same ↦ rw same here
      | no other ↦ scan-holds test bound below b (omega arith)
    ]
