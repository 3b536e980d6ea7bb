-- ===== src/Client/Sessions.antt =====
-- internal/apiclient/tunnel_session.go and dependency_capture_session.go: what is checked of a
-- session that the backend issued.
pub mod Trusted
use mockingo_agent.Base.{
  ℕ, Bool, true, false, ◌||◌, ◌&&◌, not, Option, none, some, List, [], ◌∷◌, ◌++◌, Bytes, codes,
  length, is_empty, bytes_eq, starts_with, ends_with, is_lower, is_upper, is_digit, all_of, some_of,
  split, to_lower, trim_space, ltb, ◌==◌, ℤ, pos, lt_int, eq_int, if◌then◌else◌,
}
use mockingo_agent.Protocol.Text.{Externals, valid_host_label}

pub record TunnelSessionRequest : Type 0 where
  pub endpoint_name : Bytes
  pub protocol : Bytes
  pub local_port : ℤ
  pub protocol_version : ℤ

pub record EndpointResponse : Type 0 where
  pub id : Bytes
  pub name : Bytes
  pub hostname : Bytes
  pub public_url : Bytes

-- `expires_at` is in nanoseconds, as is the time of the check.
pub record TunnelResponse : Type 0 where
  pub session_id : Bytes
  pub connect_url : Bytes
  pub ticket : Bytes
  pub expires_at : ℤ
  pub protocol_version : ℤ

pub record TunnelSessionResponse : Type 0 where
  pub endpoint : EndpointResponse
  pub tunnel : TunnelResponse

pub record CaptureEndpoint : Type 0 where
  pub id : Bytes
  pub name : Bytes

pub record DependencyCaptureSessionResponse : Type 0 where
  pub endpoint : CaptureEndpoint
  pub capture : TunnelResponse

pub record TunnelSessionValidation : Type 0 where
  pub expected_gateway_hosts : List Bytes
  pub allow_insecure_local : Bool
  pub now : ℤ

-- What url.ParseRequestURI and the methods of its result give.
pub record Url : Type 0 where
  pub scheme : Bytes
  pub host : Bytes
  pub hostname : Bytes
  pub port : Bytes
  pub has_user : Bool
  pub path : Bytes
  pub raw_query : Bytes
  pub fragment : Bytes

pub data SessionError : Type 0 where
  unsupported_target missing_endpoint_id name_mismatch bad_hostname bad_public_url : SessionError
  missing_session_id missing_ticket expired_ticket unsupported_protocol_version : SessionError
  bad_connect_url untrusted_host insecure_scheme ip_address bad_identity : SessionError

-- strings.EqualFold
abbrev pub equal_fold : Bytes → Bytes → Bool
equal_fold a b = bytes_eq (to_lower a) (to_lower b)

-- The prefix and the suffix ".", then the labels.
unfoldable pub valid_hostname : Externals → Bytes → Bool
valid_hostname ext value =
    if (length value == 0)
      || ltb 253 (length value)
      || starts_with b'.' value
      || ends_with b'.' value
      || ext.parse_ip value
    then false
    else all_of valid_host_label (split b'.' value)

abbrev pub bad_public : Bytes → Option Url → Bool
bad_public hostname none = true
bad_public hostname (some url) =
    not (bytes_eq url.scheme (codes "https"))
    || url.has_user
    || not (is_empty url.port)
    || not (is_empty url.raw_query)
    || not (is_empty url.fragment)
    || not (equal_fold url.hostname hostname)

abbrev pub is_local : Bytes → Bool
is_local host =
    bytes_eq host (codes "localhost")
    || bytes_eq host (codes "127.0.0.1")
    || bytes_eq host (codes "::1")

-- The loop over the expected hosts.
unfoldable pub is_trusted : List Bytes → Bytes → Bool
is_trusted hosts host = some_of (λ allowed. equal_fold (trim_space allowed) host) hosts

abbrev pub is_secure : Bool → Bytes → Bytes → Bool
is_secure allow_insecure_local scheme host =
    bytes_eq scheme (codes "wss")
    || (allow_insecure_local && is_local host && bytes_eq scheme (codes "ws"))

-- From the test of the host to the end.
abbrev pub check_gateway_host :
    Externals → TunnelSessionValidation → Bytes → Bytes → Option SessionError
check_gateway_host ext validation scheme host =
    if not (is_trusted validation.expected_gateway_hosts host)
    then some untrusted_host
    else if not (is_secure validation.allow_insecure_local scheme host)
    then some insecure_scheme
    else if ext.parse_ip host && not validation.allow_insecure_local
    then some ip_address
    else none

-- From the parse of the connect URL to the end, for the path that the URL has to have.
abbrev pub check_connect_url :
    Externals → TunnelSessionValidation → Bytes → Option Url → Option SessionError
check_connect_url ext validation path none = some bad_connect_url
check_connect_url ext validation path (some url) =
    if is_empty url.host
      || url.has_user
      || not (is_empty url.fragment)
      || not (is_empty url.raw_query)
      || not (bytes_eq url.path path)
    then some bad_connect_url
    else check_gateway_host ext validation url.scheme (to_lower url.hostname)

module _ (ext : Externals) (parse_url : Bytes → Option Url) where
  unfoldable pub validate_tunnel_session :
      TunnelSessionRequest → TunnelSessionResponse → TunnelSessionValidation → Option SessionError
  validate_tunnel_session request response validation =
      if not (bytes_eq request.protocol (codes "http"))
        || lt_int request.local_port (pos 1)
        || lt_int (pos 65535) request.local_port
      then some unsupported_target
      else if is_empty response.endpoint.id
      then some missing_endpoint_id
      else if not (bytes_eq response.endpoint.name request.endpoint_name)
      then some name_mismatch
      else if not (valid_hostname ext response.endpoint.hostname)
          || not (
              equal_fold response.endpoint.hostname
                (request.endpoint_name ++ codes ".mockingo.click"))
      then some bad_hostname
      else if bad_public response.endpoint.hostname (parse_url response.endpoint.public_url)
      then some bad_public_url
      else if is_empty response.tunnel.session_id
      then some missing_session_id
      else if is_empty response.tunnel.ticket
      then some missing_ticket
      else if not (lt_int validation.now response.tunnel.expires_at)
      then some expired_ticket
      else if not (eq_int request.protocol_version (pos 1))
          || not (eq_int response.tunnel.protocol_version (pos 1))
          || not (eq_int response.tunnel.protocol_version request.protocol_version)
      then some unsupported_protocol_version
      else check_connect_url ext validation (codes "/v1/connect")
          (parse_url response.tunnel.connect_url)

  unfoldable pub validate_dependency_capture_session :
      Bytes → DependencyCaptureSessionResponse → TunnelSessionValidation → Option SessionError
  validate_dependency_capture_session endpoint_name response validation =
      if not (ext.valid_uuid response.endpoint.id)
        || not (bytes_eq response.endpoint.name endpoint_name)
        || not (ext.valid_uuid response.capture.session_id)
        || is_empty response.capture.ticket
        || not (lt_int validation.now response.capture.expires_at)
        || not (eq_int response.capture.protocol_version (pos 1))
      then some bad_identity
      else check_connect_url ext validation (codes "/v1/dependency-capture/connect")
          (parse_url response.capture.connect_url)
