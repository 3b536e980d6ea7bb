-- ===== src/Tests/Capturing.antt =====
-- Tests of internal/dependencycapture and internal/naming.
use mockingo_agent.Base.{
  ◌≤◌, true, false, ◌&&◌, not, leb, none, some, List, [], ◌∷◌, map, Bytes, codes, length, all_of,
  some_of, has, bytes_eq, split, to_lower, to_upper, trim_suffix, trim_left, pos, ◌≡◌, ◌≢◌, refl,
  arith, All, here,
}
use mockingo_agent.Base.Maps.{lookup}
use mockingo_agent.Protocol.Message.{DependencyBehaviorSnapshot}
use mockingo_agent.Protocol.Text.{validate_headers}
use mockingo_agent.Protocol.Validation.{validate_captured_body}
use mockingo_agent.Capture.Behaviors.{new_behavior_store, match_behavior}
use mockingo_agent.Capture.Behaviors.Keys.{IsZeroFree}
use mockingo_agent.Capture.Behaviors.History.{
  match-replace_all, replace_all, last_accepted, request_target, served,
}
use mockingo_agent.Capture.Target.{normalize_hostname}
use mockingo_agent.Capture.Headers.{header_get, one_of}
use mockingo_agent.Capture.Body.{
  body_capture_allowed, captured_body, is_textual_content_type, has_content_encoding,
  normalized_content_type,
}
use mockingo_agent.Capture.Body.Valid.{captured_body-valid}
use mockingo_agent.Capture.Body.Cut.{captured_body-cut, Kept}
use mockingo_agent.Base.Utf8.{valid_utf8, valid_utf8_from, lead_byte}
use mockingo_agent.Capture.Redact.{
  redact_headers, redact_raw_query, redact_part, redacted_value, is_sensitive_part,
}
use mockingo_agent.Capture.Redact.Query.{split-redact_raw_query, redact_raw_query-safe, value_of}
use mockingo_agent.Capture.Redact.Fields.{redact_headers-Redacts, redact_headers-refused, Redacts}
use mockingo_agent.Capture.Preview.{new_preview, observe, read, after_chunks}
use mockingo_agent.Capture.Preview.Stream.{preview-stream}
use mockingo_agent.Naming
use mockingo_agent.Naming.{reserved_names}
use mockingo_agent.Naming.Grammar.{accepts, is_word, validate-words}
use mockingo_agent.Tests.Data.{
  no_addresses, no_addresses-laws, one_behavior, nil_behaviors, plain_decoders, text_headers,
}

-- Of four snapshots, the second and the last are not valid.
abbrev history : List DependencyBehaviorSnapshot
history = one_behavior ∷ nil_behaviors ∷ one_behavior ∷ nil_behaviors ∷ []

abbrev upper : Bytes
upper = codes "HTTPS"

orders-IsZeroFree :
    IsZeroFree (request_target upper (codes "API.test.") 443 (codes "get") (codes "/orders"))
unfolding to_lower to_upper has trim_left trim_suffix normalize_hostname
orders-IsZeroFree = record { scheme = refl; host = refl; method = refl }

match-replace_all_example :
    match_behavior
      (some (replace_all no_addresses new_behavior_store history))
      upper
      (codes "API.test.")
      (pos 443)
      (codes "get")
      (codes "/orders")
    ≡ served
        (request_target upper (codes "API.test.") 443 (codes "get") (codes "/orders"))
        none
        (last_accepted no_addresses history)
match-replace_all_example =
    match-replace_all no_addresses no_addresses-laws history upper (codes "API.test.") (codes "get")
      (codes "/orders") 443 orders-IsZeroFree

captured_body-valid_example :
    validate_captured_body (captured_body plain_decoders text_headers (codes "hello") (pos 7) 10) 10
    ≡ none
captured_body-valid_example =
    captured_body-valid plain_decoders text_headers (codes "hello") (pos 7) 10 refl short
  where
    short :
        length
          (normalized_content_type plain_decoders (header_get (codes "Content-Type") text_headers))
        ≤ 255
    short =
        unfold normalized_content_type header_get lookup bytes_eq to_lower trim_left in omega arith

-- Two characters of two bytes each, cut inside the second.
abbrev umlauts : Bytes
umlauts = 0xc3 ∷ 0xa4 ∷ 0xc3 ∷ 0xb6 ∷ []

captured_body-cut_example :
    Kept umlauts 3 (captured_body plain_decoders text_headers (0xc3 ∷ 0xa4 ∷ 0xc3 ∷ []) (pos 4) 3)
captured_body-cut_example = captured_body-cut plain_decoders text_headers umlauts 3 text plain valid
  where
    text :
        is_textual_content_type
          (normalized_content_type plain_decoders (header_get (codes "Content-Type") text_headers))
        ≡ true
    text =
        unfold is_textual_content_type normalized_content_type header_get lookup bytes_eq
          to_lower in
        refl

    plain : has_content_encoding (header_get (codes "Content-Encoding") text_headers) ≡ false
    plain =
        unfold has_content_encoding header_get lookup bytes_eq split some_of trim_left to_lower in
        refl

    valid : valid_utf8 umlauts ≡ true
    valid = unfold valid_utf8_from lead_byte in refl

split-redact_raw_query_example :
    split b'&' (redact_raw_query (codes "a=1&token=x"))
    ≡ map redact_part (split b'&' (codes "a=1&token=x"))
split-redact_raw_query_example = split-redact_raw_query (codes "a=1&token=x")

redact_raw_query-safe_example :
    All
      (λ p. is_sensitive_part p ≡ true → value_of p ≡ redacted_value)
      (split b'&' (redact_raw_query (codes "a=1&%74oken=x=y")))
redact_raw_query-safe_example = redact_raw_query-safe (codes "a=1&%74oken=x=y")

redact_headers-Redacts_example : Redacts text_headers (redact_headers text_headers)
redact_headers-Redacts_example = redact_headers-Redacts text_headers

redact_headers-refused_example :
    validate_headers (some (redact_headers ((codes "X-Empty", some []) ∷ []))) ≢ none
redact_headers-refused_example = redact_headers-refused (codes "X-Empty") (here [])

preview-stream_example :
    let chunks : List Bytes = codes "hel" ∷ codes "lo" ∷ [] in
    let w = after_chunks observe (new_preview plain_decoders text_headers 4) chunks in
    let r = after_chunks read (new_preview plain_decoders text_headers 4) chunks in
    (w.preview ≡ codes "hell") × (w.total ≡ 5) × (r.preview ≡ codes "hell") × (r.total ≡ 5)
unfolding body_capture_allowed is_textual_content_type bytes_eq normalized_content_type to_lower
    header_get lookup
preview-stream_example =
    preview-stream plain_decoders text_headers 4 (codes "hel" ∷ codes "lo" ∷ [])

validate-words_example : accepts (Naming.validate (codes "my-app-2")) ≡ (
    leb 3 8
    && leb 8 40
    && all_of is_word (split b'-' (codes "my-app-2"))
    && not (one_of reserved_names (codes "my-app-2")))
validate-words_example = validate-words (codes "my-app-2")
