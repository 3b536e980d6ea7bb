-- ===== src/Capture/Redact/Query.antt =====
-- What is left of a query that internal/dependencycapture has redacted.
use mockingo_agent.Base.{
  ℕ, Bool, true, false, List, [], ◌∷◌, ◌++◌, map, Bytes, bytes_eq, to_lower, some_of, has,
  has-append, Without, split, cut, split-Without, split-join, split-cons, All, ◌≡◌, refl, arith,
  or_false, Bool-cases, inl, inr, ap, subst, ◌==◌,
}
use mockingo_agent.Base.Unescape.{unescape_from}
use mockingo_agent.Capture.Redact.{redacted_value, is_sensitive_part, redact_part, redact_raw_query}

-- The text before a separator has none, and is part of the text.
cut-Without : (sep : ℕ) (s : Bytes) → Without sep (cut sep s).0
unfolding cut has
cut-Without sep [] = refl
cut-Without sep (c ∷ s) = elim (Bool-cases (c == sep)) [
  | inl hit ↦ rw hit
  | inr miss ↦ rw (miss, miss) (cut-Without sep s)
]

cut-has : (c sep : ℕ) (s : Bytes) → Without c s → Without c (cut sep s).0
unfolding cut has
cut-has c sep [] h = refl
cut-has c sep (x ∷ s) h =
    let (a, b) = or_false (x == c) (has c s) h in
    elim (Bool-cases (x == sep)) [ inl hit ↦ rw hit | inr miss ↦ rw (miss, a) (cut-has c sep s b) ]

-- Cutting at the separator gives back what stands before it.
cut-append : (sep : ℕ) (w s : Bytes) → Without sep w → cut sep (w ++ (sep ∷ s)) ≡ (w, s, true)
unfolding cut has
cut-append sep [] s h = rw (same sep)
  where
    same : (n : ℕ) → (n == n) ≡ true
    same n = ground arith
cut-append sep (c ∷ w) s h =
    let (a, b) = or_false (c == sep) (has sep w) h in rw (a, cut-append sep w s b)

redact_part-Without : (part : Bytes) → Without b'&' part → Without b'&' (redact_part part)
unfolding redact_part
redact_part-Without part h = elim (Bool-cases (is_sensitive_part part)) [
  | inl hit ↦
      rw (hit, has-append b'&' (cut b'=' part).0 (b'=' ∷ redacted_value), cut-has b'&' b'=' part h)
        (unfold has in refl)
  | inr miss ↦ rw miss h
]

map-Without :
    (parts : List Bytes) → All (Without b'&') parts → All (Without b'&') (map redact_part parts)
map-Without [] h = tt
map-Without (p ∷ ps) h = (redact_part-Without p h.0, map-Without ps h.1)

-- Taken apart at `&` again, a redacted query has the parts of the query in their order, each of
-- them redacted by itself.
pub split-redact_raw_query :
    (raw : Bytes) → split b'&' (redact_raw_query raw) ≡ map redact_part (split b'&' raw)
unfolding redact_raw_query
split-redact_raw_query [] =
    unfold split redact_part cut unescape_from to_lower bytes_eq some_of in refl
split-redact_raw_query (c ∷ s) =
    let (w, ws, e) = split-cons b'&' (c ∷ s) in
    let free = subst (λ l. All (Without b'&') l) e (split-Without b'&' (c ∷ s)) in
    let all_free = map-Without (w ∷ ws) free in
    rw e (split-join b'&' (redact_part w) (map redact_part ws) all_free.0 all_free.1)

-- What a part says after its first `=`.
abbrev pub value_of : Bytes → Bytes
value_of part = (cut b'=' part).1

redact_part-safe :
    (part : Bytes)
    → is_sensitive_part (redact_part part) ≡ true
    → value_of (redact_part part) ≡ redacted_value
unfolding redact_part
redact_part-safe part h = elim (Bool-cases (is_sensitive_part part)) [
  | inl hit ↦ rw hit (
      ap (λ (t : Bytes × Bytes × Bool). t.1)
        (cut-append b'=' (cut b'=' part).0 redacted_value (cut-Without b'=' part)))
  | inr miss ↦ cc (miss, subst (λ p. is_sensitive_part p ≡ true) (as_is part miss) h)
]
  where
    as_is : (part : Bytes) → is_sensitive_part part ≡ false → redact_part part ≡ part
    as_is part miss = rw miss

map-safe :
    (parts : List Bytes)
    → All (λ p. is_sensitive_part p ≡ true → value_of p ≡ redacted_value) (map redact_part parts)
map-safe [] = tt
map-safe (p ∷ ps) = (redact_part-safe p, map-safe ps)

-- In a redacted query, every part whose unescaped name is a sensitive key has the placeholder for
-- its value.
pub redact_raw_query-safe :
    (raw : Bytes)
    → All
        (λ p. is_sensitive_part p ≡ true → value_of p ≡ redacted_value)
        (split b'&' (redact_raw_query raw))
redact_raw_query-safe raw = rw (split-redact_raw_query raw) (map-safe (split b'&' raw))
