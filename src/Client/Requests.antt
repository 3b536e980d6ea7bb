-- ===== src/Client/Requests.antt =====
-- internal/apiclient/client.go and tunnel_session.go: the credentials of a request, its second
-- attempt, and the errors after which a session is asked for again.
pub mod Fresh
use mockingo_agent.Base.{
  ℕ, Bool, true, false, ◌||◌, ◌&&◌, not, Option, none, some, List, [], ◌∷◌, Bytes, codes, length,
  is_empty, bytes_eq, is_lower, is_upper, is_digit, has, all_of, ltb, ◌==◌, ℤ, pos, lt_int, eq_int,
  if◌then◌else◌,
}
use mockingo_agent.Oauth.Credentials.{OauthCredentials}
use mockingo_agent.Oauth.Tokens.{TokenResponse}

-- Store.Get: missing credentials, another error, or the credentials.
pub data Stored : Type 0 where
  missing unreadable : Stored
  found : OauthCredentials → Stored

-- oauth.Refresh: a grant that is not valid any more, another error, or new tokens.
pub data Refreshed : Type 0 where
  invalid_grant refresh_failed : Refreshed
  refreshed : TokenResponse → Refreshed

pub data ClientError : Type 0 where
  not_signed_in signed_out store_failed refresh_error save_failed : ClientError

pub data Credentialed : Type 0 where
  ready : OauthCredentials → Credentialed
  denied : ClientError → Credentialed

-- What a call does to the credential store. A Set that fails is reported by `save_failed`.
pub data Change : Type 0 where
  unchanged deleted : Change
  saved : OauthCredentials → Change

-- c.Now().Add(c.ExpirySkew).Before(expires), for the time `soon`, which is now and the skew.
abbrev pub is_fresh : ℤ → OauthCredentials → Bool
is_fresh soon c = lt_int soon c.expires_at

-- The tokens of the refresh over those that are stored.
abbrev pub with_tokens : OauthCredentials → TokenResponse → OauthCredentials
with_tokens latest new = record {
  access_token = new.access_token;
  refresh_token = if is_empty new.refresh_token then latest.refresh_token else new.refresh_token;
  token_type = new.token_type;
  scope = (if length new.scope == 0 then latest.scope else new.scope);
  expires_at = new.expires_at;
  user_id = latest.user_id;
}

-- What the surroundings answer in one call of `credentials`: the first read, the times of the two
-- checks, the read under the lock, the refresh of what was read, and whether Set succeeds.
pub record Account : Type 0 where
  pub first : Stored
  pub soon : ℤ
  pub latest : Stored
  pub later : ℤ
  pub refresh : OauthCredentials → Refreshed
  pub set_succeeds : Bool

abbrev pub save : Bool → OauthCredentials → Credentialed × Change
save true c = (ready c, saved c)
save false c = (denied save_failed, unchanged)

abbrev pub after_refresh : Account → OauthCredentials → Refreshed → Credentialed × Change
after_refresh account latest invalid_grant = (denied signed_out, deleted)
after_refresh account latest refresh_failed = (denied refresh_error, unchanged)
after_refresh account latest (refreshed new) = save account.set_succeeds (with_tokens latest new)

abbrev pub under_lock : Account → Bool → OauthCredentials → Stored → Credentialed × Change
under_lock account force_refresh first missing = (denied not_signed_in, unchanged)
under_lock account force_refresh first unreadable = (denied store_failed, unchanged)
under_lock account force_refresh first (found latest) =
    if not force_refresh && is_fresh account.later latest
    then (ready latest, unchanged)
    else if force_refresh
        && not (bytes_eq latest.access_token first.access_token)
        && is_fresh account.later latest
    then (ready latest, unchanged)
    else after_refresh account latest (account.refresh latest)

abbrev pub with_first : Account → Bool → Stored → Credentialed × Change
with_first account force_refresh missing = (denied not_signed_in, unchanged)
with_first account force_refresh unreadable = (denied store_failed, unchanged)
with_first account force_refresh (found first) =
    if not force_refresh && is_fresh account.soon first
    then (ready first, unchanged)
    else under_lock account force_refresh first account.latest

unfoldable pub credentials : Account → Bool → Credentialed × Change
credentials account force_refresh = with_first account force_refresh account.first

-- One round trip: no response, or one with a status.
pub data Sent : Type 0 where
  unsent : Sent
  responded : ℤ → Sent

pub data Requested : Type 0 where
  response : ℤ → Requested
  not_sent : Requested
  no_credentials : ClientError → Requested

-- The result of `do` and the access tokens that it sent.
abbrev pub second_answer : Bytes → Bytes → Sent → Requested × List Bytes
second_answer first second unsent = (not_sent, first ∷ second ∷ [])
second_answer first second (responded status) = (response status, first ∷ second ∷ [])

abbrev pub second_attempt : (Bytes → Sent) → Bytes → Credentialed → Requested × List Bytes
second_attempt send token (denied e) = (no_credentials e, token ∷ [])
second_attempt send token (ready c) = second_answer token c.access_token (send c.access_token)

abbrev pub first_response : (Bytes → Sent) → Bytes → Credentialed → Sent → Requested × List Bytes
first_response send token again unsent = (not_sent, token ∷ [])
first_response send token again (responded status) =
    if eq_int status (pos 401)
    then second_attempt send token again
    else (response status, token ∷ [])

abbrev pub first_attempt : (Bytes → Sent) → Credentialed → Credentialed → Requested × List Bytes
first_attempt send (denied e) again = (no_credentials e, [])
first_attempt send (ready c) again = first_response send c.access_token again (send c.access_token)

-- `do` and `doWithHeaders`: the account is asked again, with a refresh, after an answer 401.
unfoldable pub do_request : (Bytes → Sent) → Account → Account → Requested × List Bytes
do_request send account later =
    first_attempt send (credentials account false).0 (credentials later true).0

-- An error of the session request: the API's, a network error, or another.
pub data SessionFailure : Type 0 where
  api_error : ℤ → Bytes → SessionFailure
  network_error other_error : SessionFailure

unfoldable pub is_temporary_session_conflict : SessionFailure → Bool
is_temporary_session_conflict (api_error status code) =
    eq_int status (pos 409)
    && (bytes_eq code (codes "endpoint_already_connected")
        || bytes_eq code (codes "tunnel_session_pending"))
is_temporary_session_conflict network_error = false
is_temporary_session_conflict other_error = false

abbrev retryable_status : SessionFailure → Bool
retryable_status (api_error status code) =
    eq_int status (pos 429)
    || eq_int status (pos 502)
    || eq_int status (pos 503)
    || eq_int status (pos 504)
retryable_status network_error = true
retryable_status other_error = false

unfoldable pub is_retryable : SessionFailure → Bool
is_retryable e = is_temporary_session_conflict e || retryable_status e
