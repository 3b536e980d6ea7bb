-- ===== src/Base/Decimal.antt =====
-- strconv.Itoa: an integer in decimal digits.
use Prim.Native.Nat.{ℕ, zero, suc, ◌+◌, ◌-◌, ◌*◌, ◌/◌, ◌%◌, ◌<◌}
use mathlib.Core.Path.{◌≡◌, refl, ap, sym, ◌∙◌}
use mathlib.Core.Bool.{false}
use mathlib.Core.Logic.{inl, inr}
use mathlib.Core.List.{[], ◌∷◌, ◌++◌}
use native.Mathlib.Omega.{arith}
use mockingo_agent.Base.Tests.{if◌then◌else◌, ltb, Bool-cases}
use mockingo_agent.Base.Int.{ℤ, pos, negsuc}
use mockingo_agent.Base.Strings.{Bytes, has, has-append}

-- The digits of a number below 10 ^ fuel.
unfoldable pub digits : ℕ → ℕ → Bytes
digits zero n = []
digits (suc f) n =
    let front = digits f (n / 10) in
    if ltb n 10 then (b'0' + n) ∷ [] else front ++ ((b'0' + n % 10) ∷ [])

-- A number has no more digits than its value and one.
unfoldable pub itoa : ℤ → Bytes
itoa (pos n) = digits (n + 1) n
itoa (negsuc n) = b'-' ∷ digits (n + 2) (n + 1)

-- The number that a text of digits stands for.
value : ℕ → Bytes → ℕ
value acc [] = acc
value acc (c ∷ s) = value (acc * 10 + (c - b'0')) s

value-append :
    (acc : ℕ) (s : Bytes) (c : ℕ) → value acc (s ++ c ∷ []) ≡ value acc s * 10 + (c - b'0')
unfolding value
value-append acc [] c = refl
value-append acc (x ∷ s) c = value-append (acc * 10 + (x - b'0')) s c

value-digits : (f n : ℕ) → n < f → value 0 (digits f n) ≡ n
unfolding value digits
value-digits zero n h = absurd (omega arith)
value-digits (suc f) n h = elim (Bool-cases (ltb n 10)) [
  | inl small ↦ rw small (ground arith)
  | inr large ↦
      rw
        (
          large,
          value-append 0 (digits f (n / 10)) (b'0' + n % 10),
          value-digits f (n / 10) (ground arith),
        )
        (omega arith)
]

-- Different numbers have different texts.
pub itoa-pos-injective : (m n : ℕ) → itoa (pos m) ≡ itoa (pos n) → m ≡ n
unfolding itoa
itoa-pos-injective m n e =
    sym (value-digits (m + 1) m (omega arith))
    ∙ ap (value 0) e
    ∙ value-digits (n + 1) n (omega arith)

-- A decimal text has digits only, so no zero byte.
has-digits : (c f n : ℕ) → c < b'0' → has c (digits f n) ≡ false
unfolding has digits
has-digits c zero n h = refl
has-digits c (suc f) n h = elim (Bool-cases (ltb n 10)) [
  | inl small ↦ rw small (ground arith)
  | inr large ↦
      rw (large, has-append c (digits f (n / 10)) ((b'0' + n % 10) ∷ []), has-digits c f (n / 10) h)
        (ground arith)
]

pub itoa-Without-zero : (n : ℤ) → has 0 (itoa n) ≡ false
unfolding itoa has
itoa-Without-zero (pos n) = has-digits 0 (n + 1) n (omega arith)
itoa-Without-zero (negsuc n) = has-digits 0 (n + 2) (n + 1) (omega arith)
