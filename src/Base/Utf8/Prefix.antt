-- ===== src/Base/Utf8/Prefix.antt =====
-- A prefix of a valid text is a valid text and at most three bytes more.
use Prim.Native.Nat.{ℕ, zero, suc, ◌≤◌, ◌<◌}
use mathlib.Core.Path.{◌≡◌, refl, ap, sym, ◌∙◌}
use mathlib.Core.Logic.{◌⊎◌, inl, inr}
use mathlib.Core.Bool.{true, ◌&&◌}
use mathlib.Core.Option.{some}
use mathlib.Core.List.{[], ◌∷◌, ◌++◌}
use native.Mathlib.Omega.{arith}
use mockingo_agent.Base.Tests.{Option-cases, Bool-cases, leb}
use mockingo_agent.Base.Lists.{length, take}
use mockingo_agent.Base.Strings.{Bytes}
use mockingo_agent.Base.Utf8.{lead_byte, valid_utf8, valid_utf8_from}

-- A valid text and at most three bytes more.
pub record Cut (k lo hi : ℕ) (s : Bytes) : Type 0 where
  pub front : Bytes
  pub back : Bytes
  pub joined : s ≡ front ++ back
  pub short : length back ≤ 3
  pub front_valid : valid_utf8_from k lo hi front ≡ true

lead_byte-le : (b k l h : ℕ) → lead_byte b ≡ some (k, l, h) → k ≤ 3
unfolding lead_byte
lead_byte-le b k l h e = ground arith

valid-lead :
    (b k l h lo hi : ℕ) (s : Bytes)
    → lead_byte b ≡ some (k, l, h)
    → valid_utf8_from 0 lo hi (b ∷ s) ≡ valid_utf8_from k l h s
unfolding valid_utf8_from
valid-lead b k l h lo hi s e = rw (valid_utf8_from, e)

valid-next :
    (b k lo hi : ℕ) (s : Bytes)
    → (leb lo b && leb b hi) ≡ true
    → valid_utf8_from (suc k) lo hi (b ∷ s) ≡ valid_utf8_from k 0x80 0xbf s
unfolding valid_utf8_from
valid-next b k lo hi s e = rw (valid_utf8_from, e)

-- One more byte before a prefix.
abbrev longer :
    (b k lo hi k' lo' hi' : ℕ) (s : Bytes)
    → ((t : Bytes) → valid_utf8_from k' lo' hi' t ≡ true → valid_utf8_from k lo hi (b ∷ t) ≡ true)
    → Cut k' lo' hi' s
    → Cut k lo hi (b ∷ s)
longer b k lo hi k' lo' hi' s more c = record {
  front = b ∷ c.front;
  back = c.back;
  joined = ap (λ (t : Bytes). b ∷ t) c.joined;
  short = c.short;
  front_valid = more c.front c.front_valid;
}

take-Cut :
    (k lo hi n : ℕ) (s : Bytes)
    → valid_utf8_from k lo hi s ≡ true
    → Cut k lo hi (take n s) ⊎ (length (take n s) < k)
unfolding valid_utf8_from
take-Cut zero lo hi zero s v =
    inl (record { front = []; back = []; joined = refl; short = omega arith; front_valid = refl })
take-Cut (suc k) lo hi zero s v = inr (omega arith)
take-Cut zero lo hi (suc n) [] v =
    inl (record { front = []; back = []; joined = refl; short = omega arith; front_valid = refl })
take-Cut (suc k) lo hi (suc n) [] v = ground arith
take-Cut zero lo hi (suc n) (b ∷ s) v = elim (Option-cases (lead_byte b)) [
  | inl e ↦ absurd (ground (arith, e))
  | inr ((k, l, h), e) ↦ elim (take-Cut k l h n s (sym (valid-lead b k l h lo hi s e) ∙ v)) [
    | inl c ↦ inl (longer b 0 lo hi k l h (take n s) (λ t g. valid-lead b k l h lo hi t e ∙ g) c)
    | inr less ↦ inl (record {
      front = [];
      back = b ∷ take n s;
      joined = refl;
      short = omega (arith, lead_byte-le b k l h e);
      front_valid = refl;
    })
  ]
]
take-Cut (suc k) lo hi (suc n) (b ∷ s) v = elim (Bool-cases (leb lo b && leb b hi)) [
  | inl e ↦ elim (take-Cut k 0x80 0xbf n s (sym (valid-next b k lo hi s e) ∙ v)) [
    | inl c ↦
        inl (longer b (suc k) lo hi k 0x80 0xbf (take n s) (λ t g. valid-next b k lo hi t e ∙ g) c)
    | inr less ↦ inr (omega arith)
  ]
  | inr e ↦ ground arith
]

-- A prefix of a valid text is a valid text and at most three bytes more.
pub valid_utf8-take : (n : ℕ) (s : Bytes) → valid_utf8 s ≡ true → Cut 0 0x80 0xbf (take n s)
valid_utf8-take n s v = elim (take-Cut 0 0x80 0xbf n s v) [ inl c ↦ c | inr h ↦ elim h [ ] ]
