-- ===== src/Cli/Args.antt =====
-- internal/cli/args.go: what ParseRun checks and normalizes once the flags are parsed.
pub mod Checked
use mockingo_agent.Base.{
  ◌++◌, ℕ, Bool, true, false, ◌||◌, ◌&&◌, not, Option, none, some, List, [], ◌∷◌, Bytes, codes,
  length, is_empty, bytes_eq, has, contains_any, starts_with, ends_with, is_lower, is_digit, all_of,
  split, cut, to_lower, trim_suffix, trim_space, ltb, ◌==◌, ℤ, pos, lt_int, eq_int, if◌then◌else◌,
}
use mockingo_agent.Base.Maps.{insert}
use mockingo_agent.Protocol.Text.{Externals}

-- The options that the checks read or set; `env` and `passthrough` are what the flags of these names
-- collected, and the last two fields what ParseRun makes of them.
pub record RunOptions : Type 0 where
  pub name : Bytes
  pub http_port : ℤ
  pub dependency_proxy : Bool
  pub proxy_bind : Bytes
  pub proxy_port : ℤ
  pub startup_timeout : ℤ
  pub request_timeout : ℤ
  pub expected_gateway_host : Bytes
  pub protocol_version : ℤ
  pub reconnect_initial_delay : ℤ
  pub reconnect_max_delay : ℤ
  pub env : List Bytes
  pub passthrough : List Bytes
  pub environment : List (Bytes × Bytes)
  pub passthrough_hosts : List Bytes

pub data RunError : Type 0 where
  missing_name bad_http_port bad_proxy_port bad_proxy_bind same_port bad_timeout : RunError
  bad_protocol_version bad_delays missing_gateway_host bad_environment bad_passthrough_host :
      RunError

abbrev is_proxy_byte : ℕ → Bool
is_proxy_byte c = is_lower c || is_digit c || (c == b'-')

unfoldable pub valid_proxy_label : Bytes → Bool
valid_proxy_label label =
    if is_empty label || ltb 63 (length label) || starts_with b'-' label || ends_with b'-' label
    then false
    else all_of is_proxy_byte label

unfoldable pub valid_proxy_host : Bytes → Bool
valid_proxy_host host =
    if is_empty host || ltb 253 (length host) || contains_any host (codes "/\\:@ \t\r\n")
    then false
    else all_of valid_proxy_label (split b'.' host)

-- a < b, by bytes
unfoldable pub bytes_lt : Bytes → Bytes → Bool
bytes_lt [] [] = false
bytes_lt [] (y ∷ ys) = true
bytes_lt (x ∷ xs) [] = false
bytes_lt (x ∷ xs) (y ∷ ys) = ltb x y || ((x == y) && bytes_lt xs ys)

-- The set of hosts, kept in the order of sort.Strings.
unfoldable pub insert_host : Bytes → List Bytes → List Bytes
insert_host host [] = host ∷ []
insert_host host (h ∷ hosts) =
    let rest = insert_host host hosts in
    if bytes_eq host h then h ∷ hosts else if bytes_lt host h then host ∷ h ∷ hosts else h ∷ rest

unfoldable pub add_hosts : Externals → List Bytes → List Bytes → Option (List Bytes)
add_hosts ext hosts [] = some hosts
add_hosts ext hosts (value ∷ values) =
    let host = to_lower (trim_suffix b'.' value) in
    let rest = add_hosts ext (insert_host host hosts) values in
    if not (ext.parse_ip host) && not (valid_proxy_host host) then none else rest

unfoldable pub normalize_passthrough_hosts : Externals → List Bytes → Option (List Bytes)
normalize_passthrough_hosts ext values = add_hosts ext [] values

-- The key of a value up to its first "=", which itself has none.
unfoldable pub add_environment : List (Bytes × Bytes) → List Bytes → Option (List (Bytes × Bytes))
add_environment result [] = some result
add_environment result (value ∷ values) =
    let (key, val, is_found) = cut b'=' value in
    let rest = add_environment (insert key val result) values in
    if not is_found || is_empty key || has 0 key || has b'=' key then none else rest

unfoldable pub parse_environment : List Bytes → Option (List (Bytes × Bytes))
parse_environment values = add_environment [] values

-- net.ParseIP and the text of its result.
unfoldable pub normalize_proxy_bind : (Bytes → Option Bytes) → Bytes → Option Bytes
normalize_proxy_bind ip_text value = ip_text (trim_space value)

pub data Parsed : Type 0 where
  run_with : RunOptions → Parsed
  rejected_run : RunError → Parsed

abbrev bad_port : ℤ → Bool
bad_port port = lt_int port (pos 1) || lt_int (pos 65535) port

abbrev pub with_hosts : RunOptions → List (Bytes × Bytes) → Option (List Bytes) → Parsed
with_hosts options environment none = rejected_run bad_passthrough_host
with_hosts options environment (some hosts) =
    run_with (record options { environment = environment; passthrough_hosts = hosts })

abbrev pub with_environment : Externals → RunOptions → Option (List (Bytes × Bytes)) → Parsed
with_environment ext options none = rejected_run bad_environment
with_environment ext options (some environment) =
    with_hosts options environment (normalize_passthrough_hosts ext options.passthrough)

abbrev pub with_bind : Externals → RunOptions → Option Bytes → Parsed
with_bind ext options none = rejected_run bad_proxy_bind
with_bind ext options (some bind) =
    if options.dependency_proxy && eq_int options.proxy_port options.http_port
    then rejected_run same_port
    else if not (lt_int (pos 0) options.startup_timeout)
        || not (lt_int (pos 0) options.request_timeout)
    then rejected_run bad_timeout
    else if not (eq_int options.protocol_version (pos 1))
    then rejected_run bad_protocol_version
    else if not (lt_int (pos 0) options.reconnect_initial_delay)
        || lt_int options.reconnect_max_delay options.reconnect_initial_delay
    then rejected_run bad_delays
    else if is_empty (trim_space options.expected_gateway_host)
    then rejected_run missing_gateway_host
    else with_environment ext (record options { proxy_bind = bind }) (parse_environment options.env)

-- ParseRun from the point where the flags are parsed.
unfoldable pub check_run : Externals → (Bytes → Option Bytes) → RunOptions → Parsed
check_run ext ip_text options =
    if is_empty options.name
    then rejected_run missing_name
    else if bad_port options.http_port
    then rejected_run bad_http_port
    else if bad_port options.proxy_port
    then rejected_run bad_proxy_port
    else with_bind ext options (normalize_proxy_bind ip_text options.proxy_bind)

-- stringFlags.Set
unfoldable pub add_flag : List Bytes → Bytes → Option (List Bytes)
add_flag flags value =
    if is_empty (trim_space value) then none else some (flags ++ (trim_space value ∷ []))

-- envBool, from the value of the variable, with strconv.ParseBool. envString has trimmed the value
-- and gives the empty text where nothing is left.
unfoldable pub env_bool : (Bytes → Option Bool) → Bytes → Bool → Option Bool
env_bool parse_bool value fallback =
    if is_empty (trim_space value) then some fallback else parse_bool (trim_space value)
