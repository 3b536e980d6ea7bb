-- ===== src/Protocol/Validation.antt =====
-- tunnelprotocol/validation.go: Validate and the validators of dependency messages.
pub mod Config
use mockingo_agent.Base.{
  ℕ, Bool, true, false, ◌&&◌, ◌||◌, not, iff, Option, none, some, List, [], ◌∷◌, ◌++◌, Bytes, codes,
  length, is_empty, starts_with, some_of, ltb, if◌then◌else◌, bytes_eq, to_lower, to_upper, ℤ, pos,
  lt_int, eq_int,
}
use mockingo_agent.Base.Decimal.{itoa}
use mockingo_agent.Base.Utf8.{valid_utf8}
use mockingo_agent.Protocol.Message.{
  Message, DependencyBehavior, DependencyBehaviorSnapshot, CapturedBody, DependencyInteraction,
  ProtocolError, invalid_message, unsupported_version, unknown_message_type, version, type_request,
  type_response, type_error, type_ping, type_pong, type_dependency_interaction,
  type_dependency_config, max_dependency_request_preview, max_dependency_response_preview,
  max_dependency_behaviors, max_dependency_replay_body,
}
use mockingo_agent.Protocol.Text.{
  Externals, valid_http_token, valid_exact_dependency_path, valid_dependency_host, validate_headers,
}

-- err != nil
abbrev pub fails : Option ProtocolError → Bool
fails none = false
fails (some e) = true

abbrev invalid_if : Bool → Option ProtocolError
invalid_if true = some invalid_message
invalid_if false = none

unfoldable pub validate_captured_body : CapturedBody → ℕ → Option ProtocolError
validate_captured_body body limit =
    if lt_int body.size_bytes (pos 0)
      || lt_int body.captured_bytes (pos 0)
      || lt_int (pos limit) body.captured_bytes
      || ltb 255 (length body.content_type)
      || ltb 64 (length body.reason)
    then some invalid_message
    else if not body.captured
    then invalid_if
        (not (is_empty body.content) || not (eq_int body.captured_bytes (pos 0)) || body.truncated)
    else invalid_if (
        not (valid_utf8 body.content)
        || not (eq_int (pos (length body.content)) body.captured_bytes)
        || lt_int body.size_bytes body.captured_bytes
        || not (iff body.truncated (lt_int body.captured_bytes body.size_bytes)))

abbrev pub bad_scheme : Bytes → Bool
bad_scheme scheme = not (bytes_eq scheme (codes "http")) && not (bytes_eq scheme (codes "https"))

abbrev pub out_of_range : ℕ → ℕ → ℤ → Bool
out_of_range lo hi n = lt_int n (pos lo) || lt_int (pos hi) n

-- The operands of the condition in `validateDependency`, in its order: those on the interaction
-- itself, those on its request and its response, and the calls of the other validators.
abbrev pub bad_interaction : Externals → DependencyInteraction → Bool
bad_interaction ext value =
    is_empty value.id
    || bad_scheme value.scheme
    || not (valid_dependency_host ext value.host)
    || out_of_range 1 65535 value.port
    || eq_int value.started_at (pos 0)
    || eq_int value.completed_at (pos 0)
    || (not (is_empty value.handled_by)
        && not (bytes_eq value.handled_by (codes "ORIGIN"))
        && not (bytes_eq value.handled_by (codes "REPLAY")))
    || lt_int value.completed_at value.started_at
    || lt_int value.duration_ms (pos 0)

abbrev pub bad_exchange : DependencyInteraction → Bool
bad_exchange value =
    is_empty value.request.method
    || ltb 32 (length value.request.method)
    || is_empty value.request.path
    || ltb 8192 (length value.request.path)
    || not (starts_with b'/' value.request.path)
    || ltb 65536 (length value.request.raw_query)
    || lt_int value.request.size_bytes (pos 0)
    || out_of_range 100 599 value.response.status
    || lt_int value.response.size_bytes (pos 0)

abbrev pub bad_contents : DependencyInteraction → Bool
bad_contents value =
    fails (validate_headers value.request.headers)
    || fails (validate_headers value.response.headers)
    || fails (validate_captured_body value.request.body max_dependency_request_preview)
    || fails (validate_captured_body value.response.body max_dependency_response_preview)

unfoldable pub validate_dependency : Externals → DependencyInteraction → Option ProtocolError
validate_dependency ext value =
    invalid_if (bad_interaction ext value || bad_exchange value || bad_contents value)

abbrev pub bad_behavior : Externals → DependencyBehavior → Bool
bad_behavior ext behavior =
    not (ext.valid_uuid behavior.id)
    || bad_scheme behavior.scheme
    || not (valid_dependency_host ext behavior.host)
    || not (bytes_eq behavior.host (to_lower behavior.host))
    || out_of_range 1 65535 behavior.port
    || ltb 32 (length behavior.method)
    || not (valid_http_token behavior.method)
    || not (bytes_eq behavior.method (to_upper behavior.method))
    || not (valid_exact_dependency_path behavior.path)
    || out_of_range 100 599 behavior.status
    || ltb max_dependency_replay_body (length behavior.body)
    || fails (validate_headers behavior.headers)

-- scheme + "\x00" + host + "\x00" + strconv.Itoa(port) + "\x00" + method + "\x00" + path
unfoldable pub matcher_key : Bytes → Bytes → ℤ → Bytes → Bytes → Bytes
matcher_key scheme host port method path =
    scheme ++ (0 ∷ (host ++ (0 ∷ (itoa port ++ (0 ∷ (method ++ (0 ∷ path)))))))

abbrev pub behavior_key : DependencyBehavior → Bytes
behavior_key b = matcher_key b.scheme b.host b.port b.method b.path

-- The loop over the behaviors; `seen` holds the keys that were met.
unfoldable pub validate_behaviors :
    Externals → List Bytes → List DependencyBehavior → Option ProtocolError
validate_behaviors ext seen [] = none
validate_behaviors ext seen (behavior ∷ behaviors) =
    elim (bad_behavior ext behavior || some_of (bytes_eq (behavior_key behavior)) seen) [
      | true ↦ some invalid_message
      | false ↦ validate_behaviors ext (behavior_key behavior ∷ seen) behaviors
    ]

abbrev pub check_behaviors :
    Externals → Bytes → Option (List DependencyBehavior) → Option ProtocolError
check_behaviors ext endpoint_id none = some invalid_message
check_behaviors ext endpoint_id (some behaviors) =
    if not (ext.valid_uuid endpoint_id) || ltb max_dependency_behaviors (length behaviors)
    then some invalid_message
    else validate_behaviors ext [] behaviors

unfoldable pub validate_dependency_config :
    Externals → DependencyBehaviorSnapshot → Option ProtocolError
validate_dependency_config ext value = check_behaviors ext value.endpoint_id value.behaviors

-- The branches of the switch in `Validate` for the two dependency messages.
abbrev check_dependency : Externals → Option DependencyInteraction → Option ProtocolError
check_dependency ext none = some invalid_message
check_dependency ext (some d) = invalid_if (fails (validate_dependency ext d))

abbrev check_config : Externals → Option DependencyBehaviorSnapshot → Option ProtocolError
check_config ext none = some invalid_message
check_config ext (some c) = invalid_if (fails (validate_dependency_config ext c))

unfoldable pub validate : Externals → Message → Option ProtocolError
validate ext message =
    if not (eq_int message.version version)
    then some unsupported_version
    else if bytes_eq message.type type_request
    then invalid_if
        (is_empty message.request_id || is_empty message.method || is_empty message.path)
    else if bytes_eq message.type type_response
    then invalid_if (is_empty message.request_id || eq_int message.status (pos 0))
    else if bytes_eq message.type type_error
    then invalid_if (is_empty message.request_id || is_empty message.error_code)
    else if bytes_eq message.type type_ping || bytes_eq message.type type_pong
    then none
    else if bytes_eq message.type type_dependency_interaction
    then check_dependency ext message.dependency
    else if bytes_eq message.type type_dependency_config
    then check_config ext message.dependency_config
    else some unknown_message_type
