-- ===== src/Base/Strings.antt =====
-- Go strings and byte slices, as their bytes, and the functions of package `strings` that the
-- program calls. Case is mapped on ASCII letters, which is what `strings.ToLower` does to ASCII text.
use Prim.Native.Nat.{ℕ, ◌+◌, ◌-◌}
use Prim.Native.Char.{code}
use Prim.Native.String.{String}
use mathlib.Core.Path.{◌≡◌, refl, ap, ap₂}
use mathlib.Core.Logic.{◌↔◌, inl, inr}
use mathlib.Core.Bool.{Bool, true, false, ◌&&◌, ◌||◌}
use mathlib.Core.List.{List, [], ◌∷◌, ◌++◌, reverse, reverse-cons, reverse-reverse}
use native.Mathlib.Omega.{arith}
use mockingo_agent.Base.Tests.{◌==◌, ==_iff, if◌then◌else◌, leb, Bool-cases, and_true, or_false}
use mockingo_agent.Base.Lists.{length, take, some_of, all_of}

abbrev pub Bytes : Type 0
Bytes = List ℕ

-- A literal.
abbrev pub codes : String → Bytes
codes String.[] = []
codes (String.◌∷◌ c s) = code c ∷ codes s

-- a == b
unfoldable pub bytes_eq : Bytes → Bytes → Bool
bytes_eq [] [] = true
bytes_eq [] (y ∷ ys) = false
bytes_eq (x ∷ xs) [] = false
bytes_eq (x ∷ xs) (y ∷ ys) = (x == y) && bytes_eq xs ys

pub bytes_eq→eq : (a b : Bytes) → bytes_eq a b ≡ true → a ≡ b
unfolding bytes_eq
bytes_eq→eq [] [] h = refl
bytes_eq→eq [] (y ∷ ys) h = ground arith
bytes_eq→eq (x ∷ xs) [] h = ground arith
bytes_eq→eq (x ∷ xs) (y ∷ ys) h =
    let (p, q) = and_true (x == y) (bytes_eq xs ys) h in
    ap₂ (λ (a : ℕ) (b : Bytes). a ∷ b) ((==_iff x y).0 p) (bytes_eq→eq xs ys q)

pub bytes_eq_refl : (a : Bytes) → bytes_eq a a ≡ true
unfolding bytes_eq
bytes_eq_refl [] = refl
bytes_eq_refl (x ∷ xs) = ground (arith, bytes_eq_refl xs)

pub bytes_eq_iff : (a b : Bytes) → (bytes_eq a b ≡ true) ↔ (a ≡ b)
bytes_eq_iff a b = (bytes_eq→eq a b, λ e. rw e (bytes_eq_refl b))

-- s == ""
abbrev pub is_empty : Bytes → Bool
is_empty [] = true
is_empty (x ∷ xs) = false

-- Whether the byte stands in the text, and whether one of the bytes does (strings.ContainsAny).
unfoldable pub has : ℕ → Bytes → Bool
has c [] = false
has c (x ∷ s) = (x == c) || has c s

abbrev pub contains_any : Bytes → Bytes → Bool
contains_any s chars = some_of (λ x. has x chars) s

-- No byte of the text is `c`.
abbrev pub Without : ℕ → Bytes → Type 0
Without c s = has c s ≡ false

pub has-append : (c : ℕ) (s t : Bytes) → has c (s ++ t) ≡ (has c s || has c t)
unfolding has
has-append c [] t = refl
has-append c (x ∷ s) t = ground (arith, has-append c s t)

-- A byte of the text passes no test that all bytes fail.
pub has-all_of :
    (c : ℕ) (p : ℕ → Bool) (s : Bytes) → p c ≡ false → all_of p s ≡ true → has c s ≡ false
unfolding has all_of
has-all_of c p [] e h = refl
has-all_of c p (x ∷ s) e h =
    let (px, rest) = and_true (p x) (all_of p s) h in
    elim (Bool-cases (x == c)) [
      | inl same ↦ ground (arith, ap p ((==_iff x c).0 same))
      | inr other ↦ rw other (has-all_of c p s e rest)
    ]

abbrev pub is_lower : ℕ → Bool
is_lower c = leb b'a' c && leb c b'z'

abbrev pub is_upper : ℕ → Bool
is_upper c = leb b'A' c && leb c b'Z'

abbrev pub is_digit : ℕ → Bool
is_digit c = leb b'0' c && leb c b'9'

abbrev pub is_space : ℕ → Bool
is_space c = (c == 32) || (leb 9 c && leb c 13)

-- strings.ToLower and strings.ToUpper
unfoldable pub to_lower : Bytes → Bytes
to_lower [] = []
to_lower (c ∷ s) = (if is_upper c then c + 32 else c) ∷ to_lower s

unfoldable pub to_upper : Bytes → Bytes
to_upper [] = []
to_upper (c ∷ s) = (if is_lower c then c - 32 else c) ∷ to_upper s

pub to_lower_idem : (s : Bytes) → to_lower (to_lower s) ≡ to_lower s
unfolding to_lower
to_lower_idem [] = refl
to_lower_idem (c ∷ s) = ap₂ (λ (a : ℕ) (b : Bytes). a ∷ b) (ground arith) (to_lower_idem s)

-- strings.HasPrefix, strings.HasSuffix
abbrev pub has_prefix : Bytes → Bytes → Bool
has_prefix s p = bytes_eq (take (length p) s) p

abbrev pub has_suffix : Bytes → Bytes → Bool
has_suffix s p = has_prefix (reverse s) (reverse p)

-- s[0] == c, where s is not empty
abbrev pub starts_with : ℕ → Bytes → Bool
starts_with c [] = false
starts_with c (x ∷ s) = x == c

-- s[len(s)-1] == c, where s is not empty
unfoldable pub ends_with : ℕ → Bytes → Bool
ends_with c [] = false
ends_with c (x ∷ []) = x == c
ends_with c (x ∷ y ∷ s) = ends_with c (y ∷ s)

-- strings.TrimSuffix by a suffix of one byte
unfoldable pub trim_suffix : ℕ → Bytes → Bytes
trim_suffix c [] = []
trim_suffix c (x ∷ []) = if x == c then [] else x ∷ []
trim_suffix c (x ∷ y ∷ s) = x ∷ trim_suffix c (y ∷ s)

pub trim_suffix-none : (c : ℕ) (s : Bytes) → ends_with c s ≡ false → trim_suffix c s ≡ s
unfolding trim_suffix ends_with
trim_suffix-none c [] h = refl
trim_suffix-none c (x ∷ []) h = rw h
trim_suffix-none c (x ∷ y ∷ s) h = ap (λ (t : Bytes). x ∷ t) (trim_suffix-none c (y ∷ s) h)

-- strings.TrimLeft, TrimRight and Trim by a test on bytes
unfoldable pub trim_left : (ℕ → Bool) → Bytes → Bytes
trim_left p [] = []
trim_left p (c ∷ s) = let rest = trim_left p s in if p c then rest else c ∷ s

abbrev pub trim_right : (ℕ → Bool) → Bytes → Bytes
trim_right p s = reverse (trim_left p (reverse s))

abbrev pub trim : (ℕ → Bool) → Bytes → Bytes
trim p s = trim_right p (trim_left p s)

-- strings.TrimSpace
abbrev pub trim_space : Bytes → Bytes
trim_space = trim is_space

-- strings.Split by a separator of one byte
abbrev pub into_first : ℕ → List Bytes → List Bytes
into_first c [] = (c ∷ []) ∷ []
into_first c (w ∷ ws) = (c ∷ w) ∷ ws

unfoldable pub split : ℕ → Bytes → List Bytes
split sep [] = [] ∷ []
split sep (c ∷ s) = let rest = split sep s in if c == sep then [] ∷ rest else into_first c rest

-- strings.Join by a separator of one byte
abbrev pub join_rest : ℕ → List Bytes → Bytes
join_rest sep [] = []
join_rest sep (w ∷ ws) = sep ∷ (w ++ join_rest sep ws)

unfoldable pub join : ℕ → List Bytes → Bytes
join sep [] = []
join sep (w ∷ ws) = w ++ join_rest sep ws

-- strings.Cut: the text before the first separator, and the text after it if there is one
unfoldable pub cut : ℕ → Bytes → Bytes × Bytes × Bool
cut sep [] = ([], [], false)
cut sep (c ∷ s) =
    let (before, after, found) = cut sep s in
    if c == sep then ([], s, true) else (c ∷ before, after, found)

-- A text no byte of which passes the test is not trimmed.
pub trim_left-none : (p : ℕ → Bool) (s : Bytes) → some_of p s ≡ false → trim_left p s ≡ s
unfolding trim_left some_of
trim_left-none p [] h = refl
trim_left-none p (c ∷ s) h = rw ((or_false (p c) (some_of p s) h).0)

some_of-append : (p : ℕ → Bool) (s t : Bytes) → some_of p (s ++ t) ≡ (some_of p s || some_of p t)
unfolding some_of
some_of-append p [] t = refl
some_of-append p (c ∷ s) t = ground (arith, some_of-append p s t)

some_of-reverse : (p : ℕ → Bool) (s : Bytes) → some_of p s ≡ false → some_of p (reverse s) ≡ false
unfolding some_of
some_of-reverse p [] h = refl
some_of-reverse p (c ∷ s) h =
    let (a, b) = or_false (p c) (some_of p s) h in
    rw (reverse-cons c s, some_of-append p (reverse s) (c ∷ []), some_of-reverse p s b, a)

pub trim-none : (p : ℕ → Bool) (s : Bytes) → some_of p s ≡ false → trim p s ≡ s
trim-none p s h =
    rw (trim_left-none p s h, trim_left-none p (reverse s) (some_of-reverse p s h))
      (reverse-reverse s)

-- Bytes that pass one test pass no test that excludes it.
pub some_of-all_of :
    (p q : ℕ → Bool)
    → ((c : ℕ) → p c ≡ true → q c ≡ false)
    → (s : Bytes) → all_of p s ≡ true
    → some_of q s ≡ false
unfolding all_of some_of
some_of-all_of p q excl [] h = refl
some_of-all_of p q excl (c ∷ s) h =
    let (a, b) = and_true (p c) (all_of p s) h in rw (excl c a) (some_of-all_of p q excl s b)

pub some_of-weaken :
    (p q : ℕ → Bool)
    → ((c : ℕ) → p c ≡ true → q c ≡ true)
    → (s : Bytes) → some_of q s ≡ false
    → some_of p s ≡ false
unfolding some_of
some_of-weaken p q sub [] h = refl
some_of-weaken p q sub (c ∷ s) h =
    let (a, b) = or_false (q c) (some_of q s) h in
    ground (arith, sub c, a, some_of-weaken p q sub s b)

pub has-some_of : (c : ℕ) (s : Bytes) → has c s ≡ some_of (λ x. x == c) s
unfolding has some_of
has-some_of c [] = refl
has-some_of c (x ∷ s) = ap (λ (b : Bool). (x == c) || b) (has-some_of c s)
