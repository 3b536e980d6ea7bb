-- ===== src/Tests/Backend.antt =====
-- Tests of internal/apiclient.
use mockingo_agent.Base.{
  true, false, Option, none, some, [], ◌∷◌, Bytes, codes, bytes_eq, ends_with, to_lower, split,
  some_of, all_of, trim_left, ℤ, pos, ◌≡◌, refl,
}
use mockingo_agent.Protocol.Text.{valid_host_label}
use mockingo_agent.Client.Sessions.{
  TunnelSessionRequest, TunnelSessionResponse, TunnelResponse, DependencyCaptureSessionResponse,
  TunnelSessionValidation, Url, validate_tunnel_session, valid_hostname, is_trusted,
}
use mockingo_agent.Client.Sessions.Trusted.{Trusted, validate_tunnel_session-Trusted}
use mockingo_agent.Oauth.Credentials.{OauthCredentials}
use mockingo_agent.Oauth.Tokens.{TokenResponse}
use mockingo_agent.Client.Requests.{
  Account, found, refreshed, credentials, Sent, responded, do_request,
}
use mockingo_agent.Client.Requests.Fresh.{Usable, Attempts, credentials-Usable, do_request-Attempts}
use mockingo_agent.Tests.Data.{no_addresses}

abbrev public : Url
public = record {
  scheme = codes "https";
  host = codes "shop.mockingo.click";
  hostname = codes "shop.mockingo.click";
  port = [];
  has_user = false;
  path = codes "/";
  raw_query = [];
  fragment = [];
}

abbrev gateway : Bytes → Url
gateway path = record {
  scheme = codes "wss";
  host = codes "gateway.test:443";
  hostname = codes "gateway.test";
  port = codes "443";
  has_user = false;
  path = path;
  raw_query = [];
  fragment = [];
}

-- A parser that knows three texts.
abbrev parse_url : Bytes → Option Url
parse_url [] = none
parse_url (c ∷ []) = some (gateway (codes "/v1/connect"))
parse_url (c ∷ d ∷ []) = some (gateway (codes "/v1/dependency-capture/connect"))
parse_url (c ∷ d ∷ e ∷ s) = some public

abbrev request : TunnelSessionRequest
request = record {
  endpoint_name = codes "shop";
  protocol = codes "http";
  local_port = pos 8080;
  protocol_version = pos 1;
}

abbrev tunnel : Bytes → TunnelResponse
tunnel connect_url = record {
  session_id = codes "s1";
  connect_url = connect_url;
  ticket = codes "t1";
  expires_at = pos 9;
  protocol_version = pos 1;
}

abbrev response : TunnelSessionResponse
response = record {
  endpoint = record {
    id = codes "e1";
    name = codes "shop";
    hostname = codes "shop.mockingo.click";
    public_url = codes "https://shop.mockingo.click";
  };
  tunnel = tunnel (codes "w");
}

abbrev validation : TunnelSessionValidation
validation = record {
  expected_gateway_hosts = codes "other.test" ∷ codes " Gateway.test" ∷ [];
  allow_insecure_local = false;
  now = pos 5;
}

validate_tunnel_session-Trusted_example :
    (bytes_eq (codes "shop") (codes "shop") ≡ true)
    × Trusted no_addresses parse_url validation (codes "/v1/connect") (tunnel (codes "w"))
validate_tunnel_session-Trusted_example =
    validate_tunnel_session-Trusted no_addresses parse_url request response validation (
      unfold validate_tunnel_session valid_hostname valid_host_label is_trusted bytes_eq ends_with
        to_lower split some_of all_of trim_left in
      refl)

abbrev capture_response : DependencyCaptureSessionResponse
capture_response = record {
  endpoint = record { id = codes "e1"; name = codes "shop" };
  capture = tunnel (codes "ww");
}

abbrev tokens : Bytes → ℤ → OauthCredentials
tokens access_token expires_at = record {
  access_token = access_token;
  refresh_token = codes "r1";
  token_type = codes "Bearer";
  scope = codes "openid" ∷ [];
  expires_at = expires_at;
  user_id = codes "u1";
}

abbrev new_tokens : TokenResponse
new_tokens = record {
  access_token = codes "a2";
  refresh_token = codes "r1";
  token_type = codes "Bearer";
  scope = codes "openid" ∷ [];
  expires_at = pos 99;
  id_token = [];
}

-- The stored token is about to expire.
abbrev account : Account
account = record {
  first = found (tokens (codes "a1") (pos 3));
  soon = pos 5;
  latest = found (tokens (codes "a1") (pos 3));
  later = pos 6;
  refresh = λ c. refreshed new_tokens;
  set_succeeds = true;
}

credentials-Usable_example :
    Usable account (tokens (codes "a2") (pos 99)) (credentials account false).1
credentials-Usable_example =
    credentials-Usable account false (tokens (codes "a2") (pos 99)) (unfold credentials in refl)

-- A server that takes no token.
abbrev unauthorized : Bytes → Sent
unauthorized token = responded (pos 401)

do_request-Attempts_example :
    Attempts unauthorized account account (do_request unauthorized account account).1
do_request-Attempts_example = do_request-Attempts unauthorized account account
