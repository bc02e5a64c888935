-- ===== src/Base/Decimal.antt =====
-- Decimal text, as `format!("{port}")` writes it and `str::parse::<u32>` reads it.
use Prim.Native.Nat.{ℕ, zero, suc, ◌+◌, ◌-◌, ◌*◌, ◌/◌, ◌%◌, ◌≤◌, ◌<◌}
use mathlib.Core.Path.{◌≡◌, refl}
use mathlib.Core.Bool.{Bool, true, false, ◌&&◌}
use mathlib.Core.Logic.{inl, inr}
use mathlib.Core.Option.{Option, none, some}
use mathlib.Core.List.{List, [], ◌∷◌, ◌++◌}
use native.Mathlib.Omega.{arith}
use kitsune.Base.Tests.{ltb, leb, if◌then◌else◌, Bool-cases}
use kitsune.Base.Lists.{all, is_empty}
use kitsune.Base.Bytes.{u32_mod}

-- The digits of a number, most significant first.
pub digits : ℕ → ℕ → List ℕ
digits zero n = []
digits (suc fuel) n =
    let front = digits fuel (n / 10) in
    if ltb n 10 then (b'0' + n) ∷ [] else front ++ (b'0' + n % 10) ∷ []

-- A number below `n + 1` has at most `n + 1` digits.
pub decimal : ℕ → List ℕ
decimal n = digits (suc n) n

-- `u8::is_ascii_digit`
abbrev pub is_ascii_digit : ℕ → Bool
is_ascii_digit c = leb b'0' c && leb c b'9'

-- The number that a text of digits stands for, of any size.
pub value : ℕ → List ℕ → ℕ
value acc [] = acc
value acc (c ∷ cs) = value (acc * 10 + (c - b'0')) cs

-- `str::parse::<u32>` on a text of ASCII digits: it fails where the number leaves 32 bits.
pub parse_u32 : ℕ → List ℕ → Option ℕ
parse_u32 acc [] = some acc
parse_u32 acc (c ∷ cs) =
    let next = acc * 10 + (c - b'0') in if ltb next u32_mod then parse_u32 next cs else none

value-le : (acc : ℕ) (cs : List ℕ) → acc ≤ value acc cs
unfolding value
value-le acc [] = omega arith
value-le acc (c ∷ cs) = omega (arith, value-le (acc * 10 + (c - b'0')) cs)

-- The check at each digit amounts to one check at the end.
pub parse_u32-value :
    (acc : ℕ) (cs : List ℕ)
    → acc < u32_mod
    → parse_u32 acc cs ≡ (if ltb (value acc cs) u32_mod then some (value acc cs) else none)
unfolding parse_u32 value
parse_u32-value acc [] h = ground arith
parse_u32-value acc (c ∷ cs) h =
    let next = acc * 10 + (c - b'0') in ground (arith, parse_u32-value next cs, value-le next cs)

pub value-append : (acc : ℕ) (xs ys : List ℕ) → value acc (xs ++ ys) ≡ value (value acc xs) ys
unfolding value
value-append acc [] ys = refl
value-append acc (x ∷ xs) ys = value-append (acc * 10 + (x - b'0')) xs ys

value-digits : (fuel n : ℕ) → n < fuel → value 0 (digits fuel n) ≡ n
unfolding value digits
value-digits zero n h = absurd (omega arith)
value-digits (suc fuel) n h = elim (Bool-cases (ltb n 10)) [
  | inl small ↦ rw small (omega arith)
  | inr big ↦
      rw (big, value-append 0 (digits fuel (n / 10)) ((b'0' + n % 10) ∷ []))
        (ground (arith, value-digits fuel (n / 10)))
]

pub value-decimal : (n : ℕ) → value 0 (decimal n) ≡ n
unfolding decimal
value-decimal n = value-digits (suc n) n (omega arith)

all-append :
    (xs : List ℕ) (c : ℕ)
    → all is_ascii_digit xs ≡ true
    → is_ascii_digit c ≡ true
    → all is_ascii_digit (xs ++ c ∷ []) ≡ true
all-append [] c h d = ground arith
all-append (x ∷ xs) c h d = ground (arith, all-append xs c)

all-digits : (fuel n : ℕ) → all is_ascii_digit (digits fuel n) ≡ true
unfolding digits
all-digits zero n = refl
all-digits (suc fuel) n =
    ground (arith, all-digits fuel (n / 10), all-append (digits fuel (n / 10)) (b'0' + n % 10))

pub all-decimal : (n : ℕ) → all is_ascii_digit (decimal n) ≡ true
unfolding decimal
all-decimal n = all-digits (suc n) n

is_empty-append : (xs : List ℕ) (c : ℕ) → is_empty (xs ++ c ∷ []) ≡ false
is_empty-append [] c = refl
is_empty-append (x ∷ xs) c = refl

pub is_empty-decimal : (n : ℕ) → is_empty (decimal n) ≡ false
unfolding decimal digits
is_empty-decimal n = ground (arith, is_empty-append (digits n (n / 10)) (b'0' + n % 10))
