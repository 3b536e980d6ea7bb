-- ===== src/Protocol/Codec/Laws.antt =====
-- What the codec of tunnelprotocol/codec.go accepts, and what it refuses.
use mockingo_agent.Base.{
  ℕ, ◌+◌, ◌≤◌, true, none, some, Bytes, length, length-take, if◌then◌else◌, ◌≡◌, arith,
  Option-cases, inl, inr, take-le,
}
use mockingo_agent.Protocol.Message.{Message, ProtocolError, body_too_large, failed, max_body_size}
use mockingo_agent.Protocol.Text.{Externals}
use mockingo_agent.Protocol.Validation.{validate}
use mockingo_agent.Protocol.Codec.{
  ok, err, Json, Stream, decode, read_body, read_limited, is_validation_error,
}

validate-error :
    (ext : Externals) (m : Message) (e : ProtocolError)
    → validate ext m ≡ some e
    → is_validation_error e ≡ true
unfolding validate is_validation_error
validate-error ext m e h = ground arith

-- Whatever the text, decoding gives a message that validates, or an error of the kinds that
-- `IsValidationError` recognizes.
pub decode_sound :
    (ext : Externals) (json : Json) (text : Bytes)
    → ((m : Message) → decode ext json text ≡ ok m → validate ext m ≡ none)
      × ((e : ProtocolError) → decode ext json text ≡ err e → is_validation_error e ≡ true)
unfolding decode is_validation_error
decode_sound ext json text = (
  λ m h. ground arith,
  λ e h. elim (Option-cases (json.decode_first text)) [
    | inl x ↦ ground (arith, x)
    | inr ((m, rest), x) ↦ ground (arith, x, validate-error ext m e)
  ],
)

module _ (limit : ℕ) (reader : Stream) where
  read_limited-within :
      length reader.bytes ≤ limit
      → read_limited limit reader ≡ (if reader.broken then err failed else ok reader.bytes)
  unfolding read_limited
  read_limited-within small =
      rw (take-le (limit + 1) reader.bytes (omega (arith, small))) (ground (arith, small))

  read_limited-over :
      limit + 1 ≤ length reader.bytes → read_limited limit reader ≡ err body_too_large
  unfolding read_limited
  read_limited-over large = ground (arith, large, length-take (limit + 1) reader.bytes)

-- A body within the limit is read whole, unless its reader fails, which is reported; a body over
-- the limit is refused as too large, whether or not its reader would fail later.
pub read_body-cases :
    (reader : Stream)
    → (length reader.bytes ≤ max_body_size
        → read_body reader ≡ (if reader.broken then err failed else ok reader.bytes))
      × (max_body_size + 1 ≤ length reader.bytes → read_body reader ≡ err body_too_large)
unfolding read_body
read_body-cases reader =
    (read_limited-within max_body_size reader, read_limited-over max_body_size reader)
