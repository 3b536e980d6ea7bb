-- ===== src/Oauth/Metadata.antt =====
-- internal/oauth/oauth.go: the checks on URLs and on the metadata of an authorization server, and
-- Discover with its cache.
pub mod Trusted
pub mod Discovery
use mockingo_agent.Base.{
  ℕ, Bool, true, false, ◌||◌, ◌&&◌, not, ◌==◌, Option, none, some, List, [], ◌∷◌, ◌++◌, Bytes,
  codes, is_empty, bytes_eq, some_of, trim_right, trim_space, ℤ, pos, eq_int, if◌then◌else◌,
}
use mockingo_agent.Base.Maps.{lookup, insert}

-- What url.Parse tells of a text: the parts that the code reads, and its String.
pub record ParsedUrl : Type 0 where
  pub scheme : Bytes
  pub host : Bytes
  pub hostname : Bytes
  pub has_user : Bool
  pub fragment : Bytes
  pub text : Bytes

-- url.Parse, and whether net.ParseIP gives a loopback address.
pub record Urls : Type 0 where
  pub parse : Bytes → Option ParsedUrl
  pub is_loopback : Bytes → Bool

pub record Metadata : Type 0 where
  pub issuer : Bytes
  pub authorization_endpoint : Bytes
  pub token_endpoint : Bytes
  pub userinfo_endpoint : Bytes
  pub revocation_endpoint : Bytes
  pub grant_types_supported : List Bytes
  pub code_challenge_methods : List Bytes
  pub token_auth_methods : List Bytes
  pub scopes_supported : List Bytes

pub data MetadataError : Type 0 where
  invalid_issuer issuer_mismatch invalid_endpoint no_code_grant no_refresh_grant no_pkce :
      MetadataError
  no_public_clients : MetadataError

-- slices.Contains
abbrev pub contains : List Bytes → Bytes → Bool
contains values v = some_of (λ w. bytes_eq w v) values

abbrev pub without_slash : Bytes → Bytes
without_slash = trim_right (λ c. c == b'/')

module _ (lib : Urls) where
  abbrev pub is_plain : ParsedUrl → Bool
  is_plain url =
      not (is_empty url.scheme)
      && not (is_empty url.host)
      && not url.has_user
      && is_empty url.fragment

  abbrev pub has_safe_scheme : Bool → ParsedUrl → Bool
  has_safe_scheme allow_local_http url =
      bytes_eq url.scheme (codes "https")
      || (bytes_eq url.scheme (codes "http") && allow_local_http && lib.is_loopback url.hostname)

  abbrev check_url : Bool → Option ParsedUrl → Option ParsedUrl
  check_url allow_local_http none = none
  check_url allow_local_http (some url) =
      if not (is_plain url)
      then none
      else if not (has_safe_scheme allow_local_http url)
      then none
      else some url

  -- `none` is an error.
  unfoldable pub validate_secure_url : Bytes → Bool → Option ParsedUrl
  validate_secure_url raw allow_local_http = check_url allow_local_http (lib.parse raw)

  abbrev is_refused : Option ParsedUrl → Bool
  is_refused none = true
  is_refused (some url) = false

  abbrev pub bad_endpoint : Bool → Bytes → Bool
  bad_endpoint local raw = is_refused (validate_secure_url raw local)

  -- An endpoint that may be left out.
  abbrev pub bad_optional : Bool → Bytes → Bool
  bad_optional local raw = not (is_empty raw) && bad_endpoint local raw

  abbrev pub check_features : Metadata → Option MetadataError
  check_features m =
      if not (contains m.grant_types_supported (codes "authorization_code"))
      then some no_code_grant
      else if not (contains m.grant_types_supported (codes "refresh_token"))
      then some no_refresh_grant
      else if not (contains m.code_challenge_methods (codes "S256"))
      then some no_pkce
      else if not (contains m.token_auth_methods (codes "none"))
      then some no_public_clients
      else none

  abbrev pub check_endpoints : Metadata → Bool → Option MetadataError
  check_endpoints m local =
      if bad_endpoint local m.authorization_endpoint || bad_endpoint local m.token_endpoint
      then some invalid_endpoint
      else if bad_optional local m.userinfo_endpoint || bad_optional local m.revocation_endpoint
      then some invalid_endpoint
      else check_features m

  abbrev pub check_issuers : Metadata → Option ParsedUrl → Option ParsedUrl → Option MetadataError
  check_issuers m none actual = some invalid_issuer
  check_issuers m (some issuer) none = some issuer_mismatch
  check_issuers m (some issuer) (some actual) =
      if not (bytes_eq actual.text issuer.text)
      then some issuer_mismatch
      else check_endpoints m (lib.is_loopback issuer.hostname)

  unfoldable pub validate_metadata : Metadata → Bytes → Option MetadataError
  validate_metadata m requested =
      check_issuers m (validate_secure_url (without_slash requested) true)
        (validate_secure_url (without_slash m.issuer) true)

  -- The answer to the request for the metadata: none, one with a status other than 200, a body that
  -- does not decode, or a body that decodes.
  pub data Fetched : Type 0 where
    unsent undecodable : Fetched
    refused : ℤ → Fetched
    decoded : Metadata → Fetched

  pub data Discovered : Type 0 where
    discovered : Metadata → Discovered
    not_discovered : Discovered

  -- metadataCache
  abbrev pub Cache : Type 0
  Cache = List (Bytes × Metadata)

  abbrev pub keep_valid : Cache → Bytes → Metadata → Option MetadataError → Cache × Discovered
  keep_valid cache issuer m none = (insert issuer m cache, discovered m)
  keep_valid cache issuer m (some e) = (cache, not_discovered)

  abbrev pub take_fetched : Cache → Bytes → Fetched → Cache × Discovered
  take_fetched cache issuer unsent = (cache, not_discovered)
  take_fetched cache issuer undecodable = (cache, not_discovered)
  take_fetched cache issuer (refused status) = (cache, not_discovered)
  take_fetched cache issuer (decoded m) = keep_valid cache issuer m (validate_metadata m issuer)

  abbrev pub fetch_valid : Cache → Bytes → (Bytes → Fetched) → Option ParsedUrl → Cache × Discovered
  fetch_valid cache issuer fetch none = (cache, not_discovered)
  fetch_valid cache issuer fetch (some url) =
      take_fetched cache issuer (fetch (issuer ++ codes "/.well-known/oauth-authorization-server"))

  abbrev pub use_cached : Cache → Bytes → (Bytes → Fetched) → Option Metadata → Cache × Discovered
  use_cached cache issuer fetch (some m) = (cache, discovered m)
  use_cached cache issuer fetch none =
      fetch_valid cache issuer fetch (validate_secure_url issuer true)

  abbrev pub issuer_of : Bytes → Bytes
  issuer_of issuer = without_slash (trim_space issuer)

  unfoldable pub discover : Cache → Bytes → (Bytes → Fetched) → Cache × Discovered
  discover cache issuer fetch =
      use_cached cache (issuer_of issuer) fetch (lookup (issuer_of issuer) cache)
