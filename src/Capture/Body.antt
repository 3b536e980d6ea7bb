-- ===== src/Capture/Body.antt =====
-- internal/dependencycapture/capture.go: the inspection copy of a body.
pub mod Valid
pub mod Cut
use mockingo_agent.Base.{
  ℕ, zero, suc, ◌+◌, ◌-◌, Bool, true, false, ◌||◌, ◌&&◌, not, Option, none, some, List, [], ◌∷◌,
  Bytes, codes, length, take, is_empty, bytes_eq, has_prefix, has_suffix, split, trim_space,
  to_lower, some_of, ltb, leb, ℤ, pos, lt_int, if◌then◌else◌, ◌≡◌, ◌≤◌,
}
use mathlib.Core.List.{reverse}
use mockingo_agent.Base.Utf8.{valid_utf8}
use mockingo_agent.Protocol.Message.{HeaderMap, CapturedBody}
use mockingo_agent.Capture.Headers.{header_get, one_of}

-- What the code calls and the repository does not hold: the media type parser and the readers of
-- compressed streams. `read_up_to n` is io.ReadAll of a reader limited to `n` bytes; a reader that
-- cannot be opened or read gives `none`.
pub record Decoders : Type 1 where
  pub parse_media_type : Bytes → Option Bytes
  pub Reader : Type 0
  pub from_bytes : Bytes → Reader
  pub gzip : Reader → Option Reader
  pub zlib : Reader → Option Reader
  pub brotli : Reader → Reader
  pub read_up_to : ℕ → Reader → Option Bytes

abbrev first_part : List Bytes → Bytes
first_part [] = []
first_part (w ∷ ws) = w

module _ (dec : Decoders) where
  open dec use {parse_media_type, Reader, from_bytes, gzip, zlib, brotli, read_up_to}

  unfoldable pub normalized_content_type : Bytes → Bytes
  normalized_content_type value = elim (parse_media_type value) [
    | none ↦ to_lower (trim_space (first_part (split b';' value)))
    | some media_type ↦ to_lower media_type
  ]

  -- One round of the loop over the encodings, on the name of the encoding.
  abbrev open_encoding : Bytes → Reader → Option Reader
  open_encoding encoding reader =
      if is_empty encoding || bytes_eq encoding (codes "identity")
      then some reader
      else if bytes_eq encoding (codes "gzip") || bytes_eq encoding (codes "x-gzip")
      then gzip reader
      else if bytes_eq encoding (codes "deflate")
      then zlib reader
      else if bytes_eq encoding (codes "br")
      then some (brotli reader)
      else none

  abbrev open_all : List Bytes → Option Reader → Option Reader
  open_all [] reader = reader
  open_all (encoding ∷ rest) none = none
  open_all (encoding ∷ rest) (some reader) =
      open_all rest (open_encoding (to_lower (trim_space encoding)) reader)

  abbrev cut_decoded : ℕ → Option Bytes → Option (Bytes × Bool)
  cut_decoded limit none = none
  cut_decoded limit (some decoded) =
      some (if ltb limit (length decoded) then (take limit decoded, true) else (decoded, false))

  abbrev read_all : ℕ → Option Reader → Option Bytes
  read_all limit none = none
  read_all limit (some reader) = read_up_to (limit + 1) reader

  -- `none` is the error result.
  unfoldable pub decode_body_preview : Bytes → Bytes → ℕ → Option (Bytes × Bool)
  decode_body_preview source encoding limit =
      cut_decoded limit
        (read_all limit (open_all (reverse (split b',' encoding)) (some (from_bytes source))))

unfoldable pub is_textual_content_type : Bytes → Bool
is_textual_content_type t =
    if has_prefix t (codes "text/")
    then true
    else if bytes_eq t (codes "application/json")
        || (has_prefix t (codes "application/") && has_suffix t (codes "+json"))
    then true
    else if bytes_eq t (codes "application/xml")
        || bytes_eq t (codes "text/xml")
        || bytes_eq t (codes "application/soap+xml")
        || (has_prefix t (codes "application/") && has_suffix t (codes "+xml"))
    then true
    else bytes_eq t (codes "application/x-www-form-urlencoded")

abbrev is_encoding : Bytes → Bool
is_encoding encoding =
    let normalized = to_lower (trim_space encoding) in
    not (is_empty normalized) && not (bytes_eq normalized (codes "identity"))

unfoldable pub has_content_encoding : Bytes → Bool
has_content_encoding value = some_of is_encoding (split b',' value)

-- The loop that drops up to three bytes of a text that was cut inside a character: `rounds` rounds
-- are left, and this one drops `removed` bytes.
unfoldable pub trim_partial : ℕ → ℕ → Bytes → Option Bytes
trim_partial zero removed preview = none
trim_partial (suc rounds) removed preview = elim (leb removed (length preview)) [
  | false ↦ none
  | true ↦ elim (valid_utf8 (take (length preview - removed) preview)) [
    | true ↦ some (take (length preview - removed) preview)
    | false ↦ trim_partial rounds (removed + 1) preview
  ]
]

abbrev pub uncaptured : Bytes → ℤ → Bytes → CapturedBody
uncaptured content_type size reason = record {
  captured = false;
  content_type = content_type;
  content = [];
  size_bytes = size;
  captured_bytes = pos 0;
  truncated = false;
  reason = reason;
}

abbrev pub text_body : Bytes → ℤ → Bytes → CapturedBody
text_body content_type size preview = record {
  captured = true;
  content_type = content_type;
  content = preview;
  size_bytes = size;
  captured_bytes = pos (length preview);
  truncated = lt_int (pos (length preview)) size;
  reason = [];
}

abbrev pub or_invalid : Bytes → ℤ → Option Bytes → CapturedBody
or_invalid content_type size none = uncaptured content_type size (codes "invalid_text")
or_invalid content_type size (some preview) = text_body content_type size preview

-- From the test on UTF-8 to the end.
unfoldable pub finish_body : Bytes → ℤ → Bytes → CapturedBody
finish_body content_type size preview =
    if valid_utf8 preview
    then text_body content_type size preview
    else if lt_int (pos (length preview)) size
    then or_invalid content_type size (trim_partial 3 1 preview)
    else uncaptured content_type size (codes "invalid_text")

-- `preview = preview[:limit]` where it is longer: taking `limit` bytes.
abbrev pub bounded_body : Bytes → ℤ → Bytes → ℕ → CapturedBody
bounded_body content_type size preview limit = finish_body content_type size (take limit preview)

-- The size after decoding is one more than what was kept if bytes were left out.
abbrev pub decoded_body : Bytes → ℤ → ℕ → Option (Bytes × Bool) → CapturedBody
decoded_body content_type size limit none = uncaptured content_type size (codes "encoded_content")
decoded_body content_type size limit (some (decoded, truncated)) =
    bounded_body content_type (pos (if truncated then length decoded + 1 else length decoded))
      decoded limit

unfoldable pub captured_body : Decoders → HeaderMap → Bytes → ℤ → ℕ → CapturedBody
captured_body dec headers preview size limit =
    let content_type = normalized_content_type dec (header_get (codes "Content-Type") headers) in
    let encoding = header_get (codes "Content-Encoding") headers in
    if not (is_textual_content_type content_type)
    then uncaptured content_type size (codes "binary_content")
    else if has_content_encoding encoding
    then (if lt_int (pos (length preview)) size
        then uncaptured content_type size (codes "encoded_content")
        else decoded_body content_type size limit (decode_body_preview dec preview encoding limit))
    else bounded_body content_type size preview limit

unfoldable pub body_capture_allowed : Decoders → HeaderMap → Bool
body_capture_allowed dec headers =
    is_textual_content_type
      (normalized_content_type dec (header_get (codes "Content-Type") headers))
