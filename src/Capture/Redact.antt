-- ===== src/Capture/Redact.antt =====
-- internal/dependencycapture/capture.go: redactHeaders and redactRawQuery.
pub mod Query
pub mod Fields
use mockingo_agent.Base.{
  Bool, true, false, Option, none, some, List, [], ◌∷◌, ◌++◌, map, Bytes, codes, is_empty, split,
  join, cut, to_lower, if◌then◌else◌,
}
use mockingo_agent.Base.Unescape.{query_unescape}
use mockingo_agent.Protocol.Message.{HeaderMap}
use mockingo_agent.Capture.Headers.{one_of}

abbrev pub redacted_value : Bytes
redacted_value = codes "[REDACTED]"

abbrev pub sensitive_headers : List Bytes
sensitive_headers =
    codes "authorization" ∷ codes "proxy-authorization" ∷ codes "cookie" ∷ codes "set-cookie" ∷ []

abbrev pub sensitive_query_keys : List Bytes
sensitive_query_keys =
    codes "access_token"
    ∷ codes "token"
    ∷ codes "api_key"
    ∷ codes "apikey"
    ∷ codes "key"
    ∷ codes "secret"
    ∷ codes "password"
    ∷ codes "passwd"
    ∷ []

-- append([]string(nil), values...): a copy, which is nil if there is no value.
abbrev pub copied : Option (List Bytes) → Option (List Bytes)
copied none = none
copied (some []) = none
copied (some (v ∷ vs)) = some (v ∷ vs)

abbrev redact_all : Option (List Bytes) → Option (List Bytes)
redact_all none = none
redact_all (some values) = some (map (λ v. redacted_value) values)

abbrev pub is_sensitive_header : Bytes → Bool
is_sensitive_header name = one_of sensitive_headers (to_lower name)

unfoldable pub redact_headers : HeaderMap → HeaderMap
redact_headers [] = []
redact_headers ((name, values) ∷ source) =
    (name, if is_sensitive_header name then redact_all (copied values) else copied values)
    ∷ redact_headers source

-- Whether a name, once unescaped, is one of the sensitive keys.
abbrev is_sensitive_decoded : Option Bytes → Bool
is_sensitive_decoded none = false
is_sensitive_decoded (some decoded) = one_of sensitive_query_keys (to_lower decoded)

abbrev pub is_sensitive_part : Bytes → Bool
is_sensitive_part part = is_sensitive_decoded (query_unescape (cut b'=' part).0)

unfoldable pub redact_part : Bytes → Bytes
redact_part part =
    if is_sensitive_part part then (cut b'=' part).0 ++ (b'=' ∷ redacted_value) else part

unfoldable pub redact_raw_query : Bytes → Bytes
redact_raw_query raw = if is_empty raw then [] else join b'&' (map redact_part (split b'&' raw))
