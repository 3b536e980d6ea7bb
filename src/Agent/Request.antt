-- ===== src/Agent/Request.antt =====
-- internal/agent/agent.go: handleRequest, one request that came through the tunnel.
pub mod Reply
use mockingo_agent.Base.{
  ℕ, Bool, true, false, ◌||◌, not, Option, none, some, [], ◌∷◌, ◌++◌, Bytes, codes, length, ltb,
  is_empty, starts_with, ℤ, pos, if◌then◌else◌,
}
use mockingo_agent.Base.Decimal.{itoa}
use mockingo_agent.Protocol.Message.{
  Message, HeaderMap, Headers, version, type_error, type_response, max_body_size, ProtocolError,
  body_too_large,
}
use mockingo_agent.Protocol.Codec.{Result, ok, err, Stream, read_body}
use mockingo_agent.ForwardHeaders.{filter_headers}

-- A parsed request URI.
pub record Uri : Type 0 where
  pub scheme : Bytes
  pub host : Bytes
  pub path : Bytes
  pub request_uri : Bytes

pub record LocalRequest : Type 0 where
  pub method : Bytes
  pub url : Bytes
  pub headers : HeaderMap
  pub body : Bytes

-- How the local server answers: not at all, because of the deadline or otherwise, or with a
-- response, whose body is a stream.
pub data Exchange : Type 0 where
  timed_out unreachable : Exchange
  answered : ℤ → HeaderMap → Stream → Exchange

-- The calls that handleRequest makes: base64, url.ParseRequestURI, the test of the method and the URL
-- in http.NewRequestWithContext, and the HTTP client.
pub record Local : Type 0 where
  pub decode_base64 : Bytes → Option Bytes
  pub encode_base64 : Bytes → Bytes
  pub parse_request_uri : Bytes → Option Uri
  pub valid_request : Bytes → Bytes → Bool
  pub exchange : LocalRequest → Exchange

abbrev header_map : Headers → HeaderMap
header_map none = []
header_map (some h) = h

abbrev pub error_reply : Message → Bytes → Message
error_reply message code = record {
  version = version;
  type = type_error;
  request_id = message.request_id;
  method = [];
  path = [];
  headers = none;
  body_base64 = [];
  status = pos 0;
  error_code = code;
  error = codes "local forwarding failed";
  dependency = none;
  dependency_config = none;
}

abbrev pub local_url : ℤ → Uri → Bytes
local_url port path = codes "http://127.0.0.1:" ++ (itoa port ++ path.request_uri)

-- What is sent to the local server, if anything, and the message that is written to the tunnel.
abbrev pub Handled : Type 0
Handled = Option LocalRequest × Message

abbrev body_reply : Local → Message → ℤ → HeaderMap → Result Bytes → Message
body_reply lib message status headers (ok body) = record {
  version = version;
  type = type_response;
  request_id = message.request_id;
  method = [];
  path = [];
  headers = some (filter_headers headers);
  body_base64 = lib.encode_base64 body;
  status = status;
  error_code = [];
  error = [];
  dependency = none;
  dependency_config = none;
}
body_reply lib message status headers (err body_too_large) =
    error_reply message (codes "response_too_large")
body_reply lib message status headers (err e) = error_reply message (codes "local_response_error")

abbrev exchange_reply : Local → Message → Exchange → Message
exchange_reply lib message timed_out = error_reply message (codes "timeout")
exchange_reply lib message unreachable = error_reply message (codes "local_unreachable")
exchange_reply lib message (answered status headers body) =
    body_reply lib message status headers (read_body body)

abbrev pub bad_uri : Uri → Bool
bad_uri path =
    not (is_empty path.scheme)
    || not (is_empty path.host)
    || (ltb (length path.path) 1)
    || not (starts_with b'/' path.path)

abbrev pub local_request : ℤ → Message → Bytes → Uri → LocalRequest
local_request port message body path = record {
  method = message.method;
  url = local_url port path;
  headers = filter_headers (header_map message.headers);
  body = body;
}

abbrev with_uri : Local → ℤ → Message → Bytes → Option Uri → Handled
with_uri lib port message body none = (none, error_reply message (codes "invalid_request"))
with_uri lib port message body (some path) =
    if bad_uri path
    then (none, error_reply message (codes "invalid_request"))
    else if not (lib.valid_request message.method (local_url port path))
    then (none, error_reply message (codes "invalid_request"))
    else (
      some (local_request port message body path),
      exchange_reply lib message (lib.exchange (local_request port message body path)),
    )

abbrev with_body : Local → ℤ → Message → Option Bytes → Handled
with_body lib port message none = (none, error_reply message (codes "invalid_request"))
with_body lib port message (some body) =
    if ltb max_body_size (length body)
    then (none, error_reply message (codes "invalid_request"))
    else with_uri lib port message body (lib.parse_request_uri message.path)

unfoldable pub handle_request : Local → ℤ → Message → Handled
handle_request lib port message = with_body lib port message (lib.decode_base64 message.body_base64)
