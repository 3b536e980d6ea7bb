-- ===== src/Protocol/Message.antt =====
-- tunnelprotocol/protocol.go, errors.go and message.go: limits, error values and the envelope.
use mockingo_agent.Base.{ℕ, ◌+◌, ◌*◌, ◌/◌, ◌^◌, Bool, Option, List, Bytes, codes, ℤ, pos}

abbrev pub version : ℤ
version = pos 1

abbrev pub max_body_size : ℕ
max_body_size = 10 * 2 ^ 20

abbrev pub max_message_size : ℕ
max_message_size = max_body_size * 4 / 3 + 2 ^ 20

abbrev pub max_dependency_message_size : ℕ
max_dependency_message_size = 2 * 2 ^ 20

abbrev pub max_dependency_request_preview : ℕ
max_dependency_request_preview = 256 * 2 ^ 10

abbrev pub max_dependency_response_preview : ℕ
max_dependency_response_preview = 512 * 2 ^ 10

abbrev pub max_dependency_header_bytes : ℕ
max_dependency_header_bytes = 256 * 2 ^ 10

abbrev pub max_dependency_behaviors : ℕ
max_dependency_behaviors = 1000

abbrev pub max_dependency_replay_body : ℕ
max_dependency_replay_body = 2 ^ 20

-- The error values of the package. `malformed` is ErrInvalidMessage joined with the decoder's
-- error; `failed` is an error of the reader or of the encoder, passed on.
pub data ProtocolError : Type 0 where
  body_too_large message_too_large invalid_message unknown_message_type : ProtocolError
  unsupported_version malformed failed : ProtocolError

abbrev pub type_request : Bytes
type_request = codes "request"

abbrev pub type_response : Bytes
type_response = codes "response"

abbrev pub type_ping : Bytes
type_ping = codes "ping"

abbrev pub type_pong : Bytes
type_pong = codes "pong"

abbrev pub type_error : Bytes
type_error = codes "error"

abbrev pub type_dependency_interaction : Bytes
type_dependency_interaction = codes "dependency_interaction_completed"

abbrev pub type_dependency_config : Bytes
type_dependency_config = codes "dependency_behavior_snapshot"

-- A map of header values. A slice or a map may be nil: `none`. The order of the list is the order
-- in which one `range` statement meets the entries.
abbrev pub HeaderMap : Type 0
HeaderMap = List (Bytes × Option (List Bytes))

abbrev pub Headers : Type 0
Headers = Option HeaderMap

-- Nanoseconds since Go's zero time.
abbrev pub Time : Type 0
Time = ℤ

pub record DependencyBehavior : Type 0 where
  pub id : Bytes
  pub scheme : Bytes
  pub host : Bytes
  pub port : ℤ
  pub method : Bytes
  pub path : Bytes
  pub status : ℤ
  pub headers : Headers
  pub body : Bytes

pub record DependencyBehaviorSnapshot : Type 0 where
  pub endpoint_id : Bytes
  pub behaviors : Option (List DependencyBehavior)

pub record CapturedBody : Type 0 where
  pub captured : Bool
  pub content_type : Bytes
  pub content : Bytes
  pub size_bytes : ℤ
  pub captured_bytes : ℤ
  pub truncated : Bool
  pub reason : Bytes

pub record CapturedRequest : Type 0 where
  pub method : Bytes
  pub path : Bytes
  pub raw_query : Bytes
  pub headers : Headers
  pub body : CapturedBody
  pub size_bytes : ℤ

pub record CapturedResponse : Type 0 where
  pub status : ℤ
  pub headers : Headers
  pub body : CapturedBody
  pub size_bytes : ℤ

pub record DependencyInteraction : Type 0 where
  pub id : Bytes
  pub scheme : Bytes
  pub host : Bytes
  pub port : ℤ
  pub handled_by : Bytes
  pub started_at : Time
  pub completed_at : Time
  pub duration_ms : ℤ
  pub request : CapturedRequest
  pub response : CapturedResponse

pub record Message : Type 0 where
  pub version : ℤ
  pub type : Bytes
  pub request_id : Bytes
  pub method : Bytes
  pub path : Bytes
  pub headers : Headers
  pub body_base64 : Bytes
  pub status : ℤ
  pub error_code : Bytes
  pub error : Bytes
  pub dependency : Option DependencyInteraction
  pub dependency_config : Option DependencyBehaviorSnapshot
