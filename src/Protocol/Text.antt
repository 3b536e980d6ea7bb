-- ===== src/Protocol/Text.antt =====
-- tunnelprotocol/validation.go: the tests on tokens, paths, host names and headers.
-- The loops over the characters of a string are loops over its bytes: each byte of a character
-- above 127 is itself above 127, and the tests treat all such characters alike.
pub mod Accepted
use mockingo_agent.Base.{
  ℕ, ◌+◌, Bool, true, false, ◌&&◌, ◌||◌, not, Option, none, some, List, [], ◌∷◌, Bytes, codes,
  length, is_empty, starts_with, ends_with, is_lower, is_upper, is_digit, has, contains_any,
  some_of, all_of, split, ltb, leb, ◌==◌, if◌then◌else◌, bytes_eq, ◌≡◌, refl, arith,
}
use mockingo_agent.Protocol.Message.{
  Headers, HeaderMap, ProtocolError, invalid_message, message_too_large,
  max_dependency_header_bytes,
}

-- What the program calls and the repository does not hold: uuid.Validate, which tells whether a
-- text is a UUID, and net.ParseIP, which tells whether a text is an IP address.
pub record Externals : Type 0 where
  pub valid_uuid : Bytes → Bool
  pub parse_ip : Bytes → Bool

abbrev pub is_token_byte : ℕ → Bool
is_token_byte c = is_lower c || is_upper c || is_digit c || has c (codes "!#$%&'*+-.^_`|~")

unfoldable pub valid_http_token : Bytes → Bool
unfolding all_of has
valid_http_token value = if is_empty value then false else all_of is_token_byte value

abbrev pub is_path_byte : ℕ → Bool
is_path_byte c = not (leb c 31 || (c == 127))

unfoldable pub valid_exact_dependency_path : Bytes → Bool
valid_exact_dependency_path path =
    if is_empty path
      || ltb 8192 (length path)
      || not (starts_with b'/' path)
      || contains_any path (codes "?#")
    then false
    else all_of is_path_byte path

abbrev pub is_host_byte : ℕ → Bool
is_host_byte c = is_lower c || is_upper c || is_digit c || (c == b'-')

unfoldable pub valid_host_label : Bytes → Bool
valid_host_label label =
    if (length label == 0)
      || ltb 63 (length label)
      || starts_with b'-' label
      || ends_with b'-' label
    then false
    else all_of is_host_byte label

unfoldable pub valid_dependency_host : Externals → Bytes → Bool
valid_dependency_host ext host =
    if is_empty host || ltb 253 (length host) || contains_any host (codes "/\\@ \t\r\n")
    then false
    else if ext.parse_ip host
    then true
    else all_of valid_host_label (split b'.' host)

-- The loop over the values of one header: the running size, or `none` at a line break.
unfoldable pub add_values : ℕ → List Bytes → Option ℕ
add_values size [] = some size
add_values size (value ∷ values) =
    let rest = add_values (size + length value) values in
    if contains_any value (codes "\r\n") then none else rest

unfoldable pub validate_header_entries : ℕ → HeaderMap → Option ProtocolError
validate_header_entries size [] = none
validate_header_entries size ((name, none) ∷ headers) = some invalid_message
validate_header_entries size ((name, some values) ∷ headers) = elim (valid_http_token name) [
  | false ↦ some invalid_message
  | true ↦ elim (add_values (size + length name) values) [
    | none ↦ some invalid_message
    | some total ↦ elim (ltb max_dependency_header_bytes total) [
      | true ↦ some message_too_large
      | false ↦ validate_header_entries total headers
    ]
  ]
]

unfoldable pub validate_headers : Headers → Option ProtocolError
validate_headers none = some invalid_message
validate_headers (some headers) = validate_header_entries 0 headers
