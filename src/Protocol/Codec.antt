-- ===== src/Protocol/Codec.antt =====
-- tunnelprotocol/codec.go, and ReadBody and IsValidationError of tunnelprotocol/validation.go.
pub mod Laws
use mockingo_agent.Base.{
  ℕ, ◌+◌, Bool, true, false, ◌&&◌, ◌||◌, not, Option, none, some, Bytes, length, take, ltb, leb,
  bytes_eq, if◌then◌else◌,
}
use mockingo_agent.Protocol.Message.{
  Message, ProtocolError, body_too_large, message_too_large, invalid_message, unknown_message_type,
  unsupported_version, malformed, failed, max_body_size, max_message_size,
  max_dependency_message_size, type_dependency_interaction,
}
use mockingo_agent.Protocol.Text.{Externals}
use mockingo_agent.Protocol.Validation.{validate}

-- A Go pair of a value and an error, of which one is set.
pub data Result {ℓ} (A : Type ℓ) : Type ℓ where
  ok : A → Result A
  err : ProtocolError → Result A

-- encoding/json: a message as text, or an error; the first value of a text as a message with the
-- rest of the text, or an error; and whether a rest holds no further value.
pub record Json : Type 0 where
  pub marshal : Message → Option Bytes
  pub decode_first : Bytes → Option (Message × Bytes)
  pub at_end : Bytes → Bool

unfoldable pub encode : Externals → Json → Message → Result Bytes
encode ext json message = elim (validate ext message) [
  | some e ↦ err e
  | none ↦ elim (json.marshal message) [
    | none ↦ err failed
    | some text ↦
        if bytes_eq message.type type_dependency_interaction
          && ltb max_dependency_message_size (length text)
        then err message_too_large
        else ok text
  ]
]

unfoldable pub decode : Externals → Json → Bytes → Result Message
decode ext json text =
    if ltb max_message_size (length text)
    then err message_too_large
    else elim (json.decode_first text) [
      | none ↦ err malformed
      | some (message, rest) ↦
          if not (json.at_end rest)
          then err invalid_message
          else elim (validate ext message) [ some e ↦ err e | none ↦ ok message ]
    ]

-- A reader: the bytes that it delivers, and whether it then fails.
pub record Stream : Type 0 where
  pub bytes : Bytes
  pub broken : Bool

-- The limited reader ends by itself one byte past the limit, before a failure that comes later.
unfoldable pub read_limited : ℕ → Stream → Result Bytes
read_limited limit reader =
    let body = take (limit + 1) reader.bytes in
    if reader.broken && leb (length reader.bytes) limit
    then err failed
    else if ltb limit (length body)
    then err body_too_large
    else ok body

unfoldable pub read_body : Stream → Result Bytes
read_body reader = read_limited max_body_size reader

unfoldable pub is_validation_error : ProtocolError → Bool
is_validation_error body_too_large = false
is_validation_error message_too_large = true
is_validation_error invalid_message = true
is_validation_error unknown_message_type = true
is_validation_error unsupported_version = true
is_validation_error malformed = true
is_validation_error failed = false
