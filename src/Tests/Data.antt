-- ===== src/Tests/Data.antt =====
-- Inputs for the tests: a snapshot of one behavior, and stand-ins for the code that the program
-- calls and the repository does not hold.
use mockingo_agent.Base.{
  true, false, none, some, [], ◌∷◌, Bytes, codes, pos, ◌≡◌, refl, bytes_eq, to_lower, to_upper,
  split, has, all_of, some_of, ends_with,
}
use mockingo_agent.Protocol.Message.{
  Message, DependencyBehavior, DependencyBehaviorSnapshot, HeaderMap, version, type_ping,
}
use mockingo_agent.Protocol.Text.{
  Externals, valid_http_token, valid_exact_dependency_path, valid_dependency_host, valid_host_label,
  validate_headers, validate_header_entries,
}
use mockingo_agent.Protocol.Validation.{
  validate, validate_dependency_config, validate_behaviors, matcher_key,
}
use mockingo_agent.Capture.Behaviors.{config_message}
use mockingo_agent.Capture.Target.{Authorities}
use mockingo_agent.Protocol.Text.Accepted.{IpLaws}
use mockingo_agent.Capture.Body.{Decoders}

-- Every text is a UUID, none is an address.
abbrev pub no_addresses : Externals
no_addresses = record { valid_uuid = λ s. true; parse_ip = λ s. false }

pub no_addresses-laws : IpLaws no_addresses
no_addresses-laws = record { ip_bytes = λ s h. cc; ip_end = λ s h. cc }

abbrev pub orders : DependencyBehavior
orders = record {
  id = codes "b1";
  scheme = codes "https";
  host = codes "api.test";
  port = pos 443;
  method = codes "GET";
  path = codes "/orders";
  status = pos 200;
  headers = some [];
  body = codes "[]";
}

abbrev pub one_behavior : DependencyBehaviorSnapshot
one_behavior = record { endpoint_id = codes "e1"; behaviors = some (orders ∷ []) }

-- A snapshot that is not valid: its list is nil.
abbrev pub nil_behaviors : DependencyBehaviorSnapshot
nil_behaviors = record { endpoint_id = codes "e1"; behaviors = none }

-- Nothing is compressed, and every media type is given as it stands.
abbrev pub plain_decoders : Decoders
plain_decoders = record {
  parse_media_type = λ s. some s;
  Reader = Bytes;
  from_bytes = λ s. s;
  gzip = λ s. none;
  zlib = λ s. none;
  brotli = λ s. s;
  read_up_to = λ n s. some s;
}

abbrev pub text_headers : HeaderMap
text_headers = (codes "Content-Type", some (codes "text/plain" ∷ [])) ∷ []

abbrev pub ping : Message
ping = record {
  version = version;
  type = type_ping;
  request_id = [];
  method = [];
  path = [];
  headers = none;
  body_base64 = [];
  status = pos 0;
  error_code = [];
  error = [];
  dependency = none;
  dependency_config = none;
}

pub one_behavior-valid : validate no_addresses (config_message one_behavior) ≡ none
unfolding validate validate_dependency_config validate_behaviors valid_http_token
    valid_exact_dependency_path valid_dependency_host valid_host_label validate_headers
    validate_header_entries bytes_eq to_lower to_upper split has all_of some_of matcher_key
    ends_with
one_behavior-valid = refl

-- A splitter that finds no port, and a parser that reads no number.
abbrev pub no_ports : Authorities
no_ports = record { split_host_port = λ s. none; atoi = λ s. none }
