-- ===== src/Capture/Redact/Fields.antt =====
-- What is left of the headers that internal/dependencycapture has redacted.
use mockingo_agent.Base.{
  ℕ, suc, ◌+◌, Option-cases, true, false, Option, none, some, List, [], ◌∷◌, map, Bytes, length,
  All, In, here, there, ◌≡◌, ◌≢◌, refl, arith, Bool-cases, inl, inr, ap,
}
use mockingo_agent.Protocol.Message.{HeaderMap}
use mockingo_agent.Protocol.Text.{validate_headers, validate_header_entries, add_values}
use mockingo_agent.Capture.Redact.{redacted_value, is_sensitive_header, redact_headers}

-- The values of a header, none if it is nil.
abbrev pub values_of : Option (List Bytes) → List Bytes
values_of none = []
values_of (some values) = values

-- Entry by entry: the same name; as many values, each the placeholder, if the name is sensitive;
-- and the same values if it is not.
abbrev pub Redacts : HeaderMap → HeaderMap → Type 0
Redacts [] [] = Unit
Redacts [] (e ∷ t) = ⊥
Redacts (e ∷ s) [] = ⊥
Redacts ((name, values) ∷ s) ((name', values') ∷ t) =
    (name' ≡ name)
    × (is_sensitive_header name ≡ true
        → All (λ v. v ≡ redacted_value) (values_of values')
          × (length (values_of values') ≡ length (values_of values)))
    × (is_sensitive_header name ≡ false → values_of values' ≡ values_of values)
    × Redacts s t

map-redacted :
    (vs : List Bytes)
    → All (λ v. v ≡ redacted_value) (map (λ (v : Bytes). redacted_value) vs)
      × (length (map (λ (v : Bytes). redacted_value) vs) ≡ length vs)
map-redacted [] = (tt, refl)
map-redacted (v ∷ vs) = let (a, b) = map-redacted vs in ((refl, a), ap suc b)

-- A redacted set of headers has the headers' names in their order; a sensitive header has the
-- placeholder in place of each of its values, and any other header its own values.
pub redact_headers-Redacts : (source : HeaderMap) → Redacts source (redact_headers source)
unfolding redact_headers
redact_headers-Redacts [] = tt
redact_headers-Redacts ((name, none) ∷ s) = elim (Bool-cases (is_sensitive_header name)) [
  | inl hit ↦ rw hit (refl, λ _. (tt, refl), λ _. refl, redact_headers-Redacts s)
  | inr miss ↦ rw miss (refl, λ _. (tt, refl), λ _. refl, redact_headers-Redacts s)
]
redact_headers-Redacts ((name, some []) ∷ s) = elim (Bool-cases (is_sensitive_header name)) [
  | inl hit ↦ rw hit (refl, λ _. (tt, refl), λ _. refl, redact_headers-Redacts s)
  | inr miss ↦ rw miss (refl, λ _. (tt, refl), λ _. refl, redact_headers-Redacts s)
]
redact_headers-Redacts ((name, some (v ∷ vs)) ∷ s) = elim (Bool-cases (is_sensitive_header name)) [
  | inl hit ↦ rw hit (refl, λ _. map-redacted (v ∷ vs), λ e. cc, redact_headers-Redacts s)
  | inr miss ↦ rw miss (refl, λ e. absurd (cc), λ _. refl, redact_headers-Redacts s)
]

nil_entry-invalid :
    (name : Bytes) (size : ℕ) {h : HeaderMap}
    → In (name, none) h
    → validate_header_entries size h ≢ none
unfolding validate_header_entries
nil_entry-invalid name size (here t) e = cc
nil_entry-invalid name size (there (other, none) i) e = cc
nil_entry-invalid name size (there (other, some values) i) e =
    elim (Option-cases (add_values (size + length other) values)) [
      | inl broken ↦ ground (arith, broken)
      | inr (total, sum) ↦ ground (arith, sum, nil_entry-invalid name total i)
    ]

redact_headers-nil :
    (name : Bytes) {source : HeaderMap}
    → In (name, some []) source
    → In (name, none) (redact_headers source)
unfolding redact_headers
redact_headers-nil name (here t) = elim (Bool-cases (is_sensitive_header name)) [
  | inl hit ↦ rw hit (here (redact_headers t))
  | inr miss ↦ rw miss (here (redact_headers t))
]
redact_headers-nil name (there (other, values) i) = there _ (redact_headers-nil name i)

-- Headers in which some header has an empty list of values, which the validator of headers takes,
-- are redacted to headers that it refuses.
pub redact_headers-refused :
    (name : Bytes) {source : HeaderMap}
    → In (name, some []) source
    → validate_headers (some (redact_headers source)) ≢ none
unfolding validate_headers
redact_headers-refused name i = nil_entry-invalid name 0 (redact_headers-nil name i)
