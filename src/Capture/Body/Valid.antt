-- ===== src/Capture/Body/Valid.antt =====
-- The inspection copies that internal/dependencycapture makes pass the validation of
-- tunnelprotocol.
use mockingo_agent.Base.{
  ℕ, zero, suc, ◌+◌, ◌-◌, ◌≤◌, ◌<◌, Bool, true, false, Option, none, some, Bytes, codes, length,
  take, length-take, ℤ, pos, negsuc, lt_int, ◌≡◌, arith, inl, inr, Bool-cases, Option-cases,
}
use mockingo_agent.Base.Utf8.{valid_utf8}
use mockingo_agent.Protocol.Message.{HeaderMap}
use mockingo_agent.Protocol.Validation.{validate_captured_body}
use mockingo_agent.Capture.Headers.{header_get}
use mockingo_agent.Capture.Body.{
  Decoders, normalized_content_type, decode_body_preview, is_textual_content_type,
  has_content_encoding, trim_partial, finish_body, captured_body, text_body, bounded_body,
  uncaptured, decoded_body,
}

-- What `trim_partial` gives is a valid text that is shorter than the preview.
pub trim_partial-valid :
    (rounds removed : ℕ) (p q : Bytes)
    → 0 < removed
    → trim_partial rounds removed p ≡ some q
    → (valid_utf8 q ≡ true) × (length q < length p)
unfolding trim_partial
trim_partial-valid zero removed p q h e = cc
trim_partial-valid (suc rounds) removed p q h e =
    ground (arith, length-take (length p - removed) p, trim_partial-valid rounds (removed + 1) p q)

text_body-valid :
    (content_type p : Bytes) (size : ℤ) (limit : ℕ)
    → length content_type ≤ 255
    → length p ≤ limit
    → lt_int size (pos (length p)) ≡ false
    → valid_utf8 p ≡ true
    → validate_captured_body (text_body content_type size p) limit ≡ none
unfolding validate_captured_body
text_body-valid content_type p (pos size) limit c l s v = ground arith
text_body-valid content_type p (negsuc size) limit c l s v = ground arith

uncaptured-valid :
    (content_type reason : Bytes) (size : ℤ) (limit : ℕ)
    → length content_type ≤ 255
    → length reason ≤ 64
    → lt_int size (pos 0) ≡ false
    → validate_captured_body (uncaptured content_type size reason) limit ≡ none
unfolding validate_captured_body
uncaptured-valid content_type reason (pos size) limit c r s = ground arith
uncaptured-valid content_type reason (negsuc size) limit c r s = ground arith

not_below : (size : ℤ) (n : ℕ) → lt_int size (pos n) ≡ false → lt_int size (pos 0) ≡ false
not_below (pos m) n h = ground arith
not_below (negsuc m) n h = ground arith

lower : (size : ℤ) (m n : ℕ) → m ≤ n → lt_int size (pos n) ≡ false → lt_int size (pos m) ≡ false
lower (pos k) m n l h = ground arith
lower (negsuc k) m n l h = ground arith

finish_body-valid :
    (content_type p : Bytes) (size : ℤ) (limit : ℕ)
    → length content_type ≤ 255
    → length p ≤ limit
    → lt_int size (pos (length p)) ≡ false
    → validate_captured_body (finish_body content_type size p) limit ≡ none
unfolding finish_body
finish_body-valid content_type p size limit c l s =
    let none_kept =
      uncaptured-valid content_type (codes "invalid_text") size limit c (omega arith)
        (not_below size (length p) s) in
    elim (Bool-cases (valid_utf8 p)) [
      | inl v ↦ rw v (text_body-valid content_type p size limit c l s v)
      | inr bad ↦ elim (Bool-cases (lt_int (pos (length p)) size)) [
        | inr whole ↦ rw (bad, whole) none_kept
        | inl part ↦ elim (Option-cases (trim_partial 3 1 p)) [
          | inl e ↦ rw (bad, part, e) none_kept
          | inr (q, e) ↦
              let (v, less) = trim_partial-valid 3 1 p q (omega arith) e in
              rw (bad, part, e)
                (text_body-valid content_type q size limit c (omega arith)
                  (lower size (length q) (length p) (omega arith) s) v)
        ]
      ]
    ]

bounded_body-valid :
    (content_type p : Bytes) (size : ℤ) (limit : ℕ)
    → length content_type ≤ 255
    → lt_int size (pos (length p)) ≡ false
    → validate_captured_body (bounded_body content_type size p limit) limit ≡ none
bounded_body-valid content_type p size limit c s =
    finish_body-valid content_type (take limit p) size limit c (omega (arith, length-take limit p))
      (lower size (length (take limit p)) (length p) (omega (arith, length-take limit p)) s)

decoded_body-valid :
    (content_type : Bytes) (size : ℤ) (limit : ℕ) (o : Option (Bytes × Bool))
    → length content_type ≤ 255
    → lt_int size (pos 0) ≡ false
    → validate_captured_body (decoded_body content_type size limit o) limit ≡ none
decoded_body-valid content_type size limit none c s =
    uncaptured-valid content_type (codes "encoded_content") size limit c (omega arith) s
decoded_body-valid content_type size limit (some (decoded, truncated)) c s =
    bounded_body-valid content_type decoded _ limit c (ground arith)

-- The copy that is made of any body, whatever its headers and its bytes, passes the validator of
-- captured bodies at the same limit, if the size given is not below the length of the preview and
-- the media type has at most 255 bytes.
pub captured_body-valid :
    (dec : Decoders) (headers : HeaderMap) (preview : Bytes) (size : ℤ) (limit : ℕ)
    → lt_int size (pos (length preview)) ≡ false
    → length (normalized_content_type dec (header_get (codes "Content-Type") headers)) ≤ 255
    → validate_captured_body (captured_body dec headers preview size limit) limit ≡ none
unfolding captured_body
captured_body-valid dec headers preview size limit s c =
    let content_type = normalized_content_type dec (header_get (codes "Content-Type") headers) in
    let encoding = header_get (codes "Content-Encoding") headers in
    let zero_up = not_below size (length preview) s in
    elim (Bool-cases (is_textual_content_type content_type)) [
      | inr binary ↦ rw binary (
          uncaptured-valid content_type (codes "binary_content") size limit c (omega arith) zero_up)
      | inl text ↦ elim (Bool-cases (has_content_encoding encoding)) [
        | inr plain ↦ rw (text, plain) (bounded_body-valid content_type preview size limit c s)
        | inl encoded ↦ elim (Bool-cases (lt_int (pos (length preview)) size)) [
          | inl part ↦
              rw (text, encoded, part)
                (uncaptured-valid content_type (codes "encoded_content") size limit c (omega arith)
                  zero_up)
          | inr whole ↦
              rw (text, encoded, whole)
                (decoded_body-valid content_type size limit
                  (decode_body_preview dec preview encoding limit) c zero_up)
        ]
      ]
    ]
