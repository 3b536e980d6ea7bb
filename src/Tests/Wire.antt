-- ===== src/Tests/Wire.antt =====
-- Tests of tunnelprotocol and internal/tunnelhttp.
use mockingo_agent.Base.{
  ◌+◌, ◌≤◌, true, none, some, [], ◌∷◌, codes, length, bytes_eq, ◌≡◌, if◌then◌else◌,
}
use mockingo_agent.Base.Maps.{lookup}
use mockingo_agent.Protocol.Message.{
  Message, ProtocolError, failed, body_too_large, max_body_size, HeaderMap,
}
use mockingo_agent.Protocol.Validation.{validate}
use mockingo_agent.Protocol.Codec.{Json, Stream, ok, err, decode, read_body, is_validation_error}
use mockingo_agent.Protocol.Codec.Laws.{decode_sound, read_body-cases}
use mockingo_agent.ForwardHeaders.{filter_headers}
use mockingo_agent.ForwardHeaders.Nominated.{Filtered}
use mockingo_agent.ForwardHeaders.Laws.{IsBlocked, lookup-filter_headers}
use mockingo_agent.Tests.Data.{no_addresses, ping}

-- A codec that knows one message.
abbrev ping_json : Json
ping_json = record {
  marshal = λ m. some (codes "ping");
  decode_first = λ text. some (ping, []);
  at_end = λ rest. true;
}

decode_sound_example :
    ((m : Message)
      → decode no_addresses ping_json (codes "x") ≡ ok m
      → validate no_addresses m ≡ none)
    × ((e : ProtocolError)
        → decode no_addresses ping_json (codes "x") ≡ err e
        → is_validation_error e ≡ true)
decode_sound_example = decode_sound no_addresses ping_json (codes "x")

abbrev broken_reader : Stream
broken_reader = record { bytes = codes "ab"; broken = true }

read_body-cases_example :
    (length broken_reader.bytes ≤ max_body_size
      → read_body broken_reader ≡ (if true then err failed else ok broken_reader.bytes))
    × (max_body_size + 1 ≤ length broken_reader.bytes
        → read_body broken_reader ≡ err body_too_large)
read_body-cases_example = read_body-cases broken_reader

abbrev headers : HeaderMap
headers =
    (codes "Connection", some (codes "x-one, X-Two" ∷ []))
    ∷ (codes "X-Two", some (codes "2" ∷ []))
    ∷ (codes "Accept", some (codes "*/*" ∷ []))
    ∷ []

lookup-filter_headers_example :
    Filtered
      (IsBlocked headers (codes "X-Two"))
      none
      (some (some (codes "2" ∷ [])))
      (lookup (codes "X-Two") (filter_headers headers))
unfolding lookup bytes_eq
lookup-filter_headers_example = lookup-filter_headers headers (codes "X-Two")
