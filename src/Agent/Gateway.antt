-- ===== src/Agent/Gateway.antt =====
-- internal/agent/agent.go: what the gateway answers to a connection attempt, and how it closes one.
use mockingo_agent.Base.{
  ℕ, Bool, true, false, ◌||◌, not, Option, none, some, [], Bytes, codes, bytes_eq, is_lower,
  is_digit, all_of, ◌==◌, ℤ, pos, lt_int, eq_int, if◌then◌else◌,
}

pub record GatewayError : Type 0 where
  pub status : ℤ
  pub code : Bytes

-- The HTTP response to the handshake: its status, and the code that its body decodes to, empty if
-- the body has none.
pub record Response : Type 0 where
  pub status_code : ℤ
  pub body_code : Bytes

abbrev is_code_byte : ℕ → Bool
is_code_byte r = is_lower r || is_digit r || (r == b'_')

unfoldable pub decode_gateway_error : Option Response → Option GatewayError
decode_gateway_error none = none
decode_gateway_error (some response) = some (record {
  status = response.status_code;
  code = if all_of is_code_byte response.body_code then response.body_code else [];
})

-- The dial error is not nil where this is called.
unfoldable pub retryable_gateway_error : Option GatewayError → Bool
retryable_gateway_error none = true
retryable_gateway_error (some e) =
    if not (lt_int e.status (pos 500)) || eq_int e.status (pos 401)
    then true
    else if eq_int e.status (pos 409)
    then bytes_eq e.code (codes "endpoint_already_connected")
      || bytes_eq e.code (codes "tunnel_session_replayed")
    else false

abbrev pub disconnect_endpoint_virtualized : Bytes
disconnect_endpoint_virtualized = codes "endpoint_virtualized"

-- The error that ended a connection: the text of a close frame, or another error.
pub data ConnectionError : Type 0 where
  closed : Bytes → ConnectionError
  broken : ConnectionError

unfoldable pub endpoint_virtualized_disconnect : ConnectionError → Bool
endpoint_virtualized_disconnect (closed text) = bytes_eq text disconnect_endpoint_virtualized
endpoint_virtualized_disconnect broken = false
