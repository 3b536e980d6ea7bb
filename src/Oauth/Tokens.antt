-- ===== src/Oauth/Tokens.antt =====
-- internal/oauth/oauth.go: parseScope, ParseTokenResponse and the requests for tokens. What
-- encoding/json makes of a body is an argument.
pub mod Granted
use mockingo_agent.Base.{
  ℕ, ◌+◌, ◌-◌, ◌*◌, ◌%◌, ◌^◌, Bool, true, false, ◌||◌, ◌&&◌, not, Option, none, some, List, [], ◌∷◌,
  ◌++◌, Bytes, codes, is_empty, bytes_eq, is_space, all_of, ltb, ℤ, pos, negsuc, lt_int,
  if◌then◌else◌, ◌⊎◌, inl, inr,
}
use mockingo_agent.Oauth.Credentials.{OauthCredentials, is_bearer}
use mockingo_agent.Oauth.Metadata.{contains}
use mockingo_agent.Protocol.Message.{Time}

-- The scope of a response: none or null, a string, an array of strings, or something else.
pub data RawScope : Type 0 where
  absent malformed : RawScope
  text : Bytes → RawScope
  listed : List Bytes → RawScope

-- `expires_in` is what Int64 makes of the number.
pub record RawTokenResponse : Type 0 where
  pub access_token : Bytes
  pub refresh_token : Bytes
  pub token_type : Bytes
  pub scope : RawScope
  pub expires_in : Option ℤ
  pub id_token : Bytes
  pub error : Bytes
  pub description : Bytes

pub record TokenResponse : Type 0 where
  pub access_token : Bytes
  pub refresh_token : Bytes
  pub token_type : Bytes
  pub scope : List Bytes
  pub expires_at : Time
  pub id_token : Bytes

-- `request_error` is a TokenRequestError with its code.
pub data TokenError : Type 0 where
  undecodable rejected missing_access_token unsupported_token_type invalid_expires_in : TokenError
  missing_refresh_token invalid_scope scope_not_granted not_sent : TokenError
  request_error : Bytes → TokenError

-- strings.Fields: `word` is what has been read of the current word.
unfoldable pub words_from : Bytes → Bytes → List Bytes
words_from word [] = if is_empty word then [] else word ∷ []
words_from word (c ∷ s) =
    let rest = words_from (if is_space c then [] else word ++ (c ∷ [])) s in
    if is_space c && not (is_empty word) then word ∷ rest else rest

-- `none` is an error.
unfoldable pub parse_scope : RawScope → Option (List Bytes)
parse_scope absent = some []
parse_scope (text s) = some (words_from [] s)
parse_scope (listed scopes) = some scopes
parse_scope malformed = none

-- now.Add(time.Duration(seconds) * time.Second): a product of `int64`, which wraps, on a time in
-- nanoseconds since Go's zero time. It is used for times after the year 293, so the difference does
-- not stop at 0.
unfoldable pub expires_at : ℕ → ℕ → Time
expires_at now seconds =
    let product = (seconds * 1000000000) % (2 ^ 64) in
    if ltb product (2 ^ 63) then pos (now + product) else pos (now + product - 2 ^ 64)

abbrev pub token_response : RawTokenResponse → List Bytes → ℕ → ℕ → TokenResponse
token_response raw scopes now seconds = record {
  access_token = raw.access_token;
  refresh_token = raw.refresh_token;
  token_type = codes "Bearer";
  scope = scopes;
  expires_at = expires_at now seconds;
  id_token = raw.id_token;
}

abbrev no_scopes : List Bytes → Bool
no_scopes [] = true
no_scopes (s ∷ ss) = false

abbrev pub with_scopes :
    RawTokenResponse → ℕ → List Bytes → ℕ → Option (List Bytes) → TokenError ⊎ TokenResponse
with_scopes raw now requested seconds none = inl invalid_scope
with_scopes raw now requested seconds (some scopes) =
    if no_scopes scopes
    then inr (token_response raw requested now seconds)
    else if not (all_of (contains scopes) requested)
    then inl scope_not_granted
    else inr (token_response raw scopes now seconds)

-- From the test of expires_in on.
abbrev pub with_expiry :
    RawTokenResponse → ℕ → List Bytes → Bool → Option ℤ → TokenError ⊎ TokenResponse
with_expiry raw now requested require_refresh none = inl invalid_expires_in
with_expiry raw now requested require_refresh (some (negsuc n)) = inl invalid_expires_in
with_expiry raw now requested require_refresh (some (pos n)) =
    if not (ltb 0 n)
    then inl invalid_expires_in
    else if require_refresh && is_empty raw.refresh_token
    then inl missing_refresh_token
    else with_scopes raw now requested n (parse_scope raw.scope)

unfoldable pub parse_token_response :
    Option RawTokenResponse → ℕ → List Bytes → Bool → TokenError ⊎ TokenResponse
parse_token_response none now requested require_refresh = inl undecodable
parse_token_response (some raw) now requested require_refresh =
    if not (is_empty raw.error)
    then inl rejected
    else if is_empty raw.access_token
    then inl missing_access_token
    else if not (is_bearer raw.token_type)
    then inl unsupported_token_type
    else with_expiry raw now requested require_refresh raw.expires_in

-- The answer of the token endpoint: none, or a status and what the decoder has made of the body, which
-- is `none` if there is nothing; for a status that tells of success that is an error.
pub data Posted : Type 0 where
  unsent : Posted
  answered : ℤ → Option RawTokenResponse → Posted

abbrev error_code : Option RawTokenResponse → Bytes
error_code none = []
error_code (some raw) = raw.error

unfoldable pub token_request : Posted → ℕ → List Bytes → Bool → TokenError ⊎ TokenResponse
token_request unsent now requested require_refresh = inl not_sent
token_request (answered status body) now requested require_refresh =
    if lt_int status (pos 200) || not (lt_int status (pos 300))
    then inl (request_error (error_code body))
    else parse_token_response body now requested require_refresh

abbrev pub is_invalid_grant : TokenError → Bool
is_invalid_grant undecodable = false
is_invalid_grant rejected = false
is_invalid_grant missing_access_token = false
is_invalid_grant unsupported_token_type = false
is_invalid_grant invalid_expires_in = false
is_invalid_grant missing_refresh_token = false
is_invalid_grant invalid_scope = false
is_invalid_grant scope_not_granted = false
is_invalid_grant not_sent = false
is_invalid_grant (request_error code) = bytes_eq code (codes "invalid_grant")

abbrev pub offline_access : Bytes
offline_access = codes "offline_access"

abbrev pub exchange_code : Posted → ℕ → List Bytes → TokenError ⊎ TokenResponse
exchange_code posted now scopes = token_request posted now scopes (contains scopes offline_access)

abbrev pub refresh : Posted → ℕ → List Bytes → TokenError ⊎ TokenResponse
refresh posted now scopes = token_request posted now scopes false

-- internal/cli/auth_commands.go: the credentials that a login stores.
abbrev pub login_credentials : TokenResponse → Bytes → OauthCredentials
login_credentials tokens user_id = record {
  access_token = tokens.access_token;
  refresh_token = tokens.refresh_token;
  token_type = tokens.token_type;
  scope = tokens.scope;
  expires_at = tokens.expires_at;
  user_id = user_id;
}
