-- ===== src/Tests/Login.antt =====
-- Tests of internal/oauth.
use mockingo_agent.Base.{
  ℕ, ◌*◌, ◌+◌, ◌^◌, true, false, Option, none, some, List, [], ◌∷◌, Bytes, codes, bytes_eq,
  to_lower, some_of, all_of, pos, inl, inr, ◌≡◌, refl, arith, All, if◌then◌else◌, leb, ◌-◌,
}
use mockingo_agent.Base.Maps.{lookup, insert, erase, lookup-insert, lookup-erase}
use mockingo_agent.Oauth.Credentials.{
  OauthCredentials, Json, is_incomplete, CredentialStore, IsWorking, found, fallback_store,
}
use mockingo_agent.Oauth.Credentials.Refined.{
  Operation, get, set, delete, replies, map_replies, view, fallback-refines,
}
use mockingo_agent.Oauth.Credentials.Files.{FileSystem, removed, file_store}
use mockingo_agent.Oauth.Credentials.Files.Stored.{IsWriting, read_of, file_store-set}
use mockingo_agent.Oauth.Metadata.{Urls, Metadata, decoded, unsent}
use mockingo_agent.Oauth.Metadata.Discovery.{Call, discover_all, GivesTrusted, discover_all-Trusted}
use mockingo_agent.Oauth.Tokens.{
  RawTokenResponse, TokenResponse, text, words_from, parse_scope, parse_token_response,
  token_request, token_response, answered, exchange_code, login_credentials, expires_at,
}
use mockingo_agent.Oauth.Tokens.Granted.{IsGranted, exchange_code-Complete, expires_at-wraps}

-- A store in memory.
abbrev memory : CredentialStore
memory = record {
  State = List (Bytes × OauthCredentials);
  get = λ s account. found (lookup account s);
  set = λ s account c. (insert account c s, none);
  delete = λ s account. (erase account s, none);
}

memory-IsWorking : IsWorking memory (λ s account. lookup account s)
memory-IsWorking = record {
  get-holds = λ s account. refl;
  set-holds = λ s account other c full. (refl, lookup-insert account other c s);
  delete-holds = λ s account other. (refl, lookup-erase account other s);
}

abbrev signed_in : OauthCredentials
signed_in = record {
  access_token = codes "a1";
  refresh_token = codes "r1";
  token_type = codes "Bearer";
  scope = [];
  expires_at = pos 9;
  user_id = codes "u1";
}

abbrev operations : List Operation
operations =
    get (codes "x")
    ∷ set (codes "x") signed_in
    ∷ get (codes "x")
    ∷ delete (codes "x")
    ∷ get (codes "x")
    ∷ []

-- The file has credentials from a time when the keyring did not work.
abbrev old_file : List (Bytes × OauthCredentials)
old_file = (codes "x", record signed_in { access_token = codes "a0" }) ∷ []

fallback-refines_example :
    replies (fallback_store memory memory true) ([], old_file) operations
    ≡ map_replies (λ account. view true (lookup account []) (lookup account old_file)) operations
fallback-refines_example =
    fallback-refines memory memory true (λ s account. lookup account s)
      (λ s account. lookup account s) (inl memory-IsWorking) ([], old_file) operations
      memory-IsWorking (unfold bytes_eq to_lower in (refl, tt))

-- Files in memory: the text at each name. The name of a temporary file is empty.
abbrev disk : FileSystem
disk = record {
  State = Bytes → Option Bytes;
  path = λ directory account. 1 ∷ account;
  read_file = λ s p. read_of (s p);
  mkdir_all = λ s directory. (s, true);
  create_temp = λ s directory. ((λ q. if bytes_eq [] q then some [] else s q), some []);
  chmod = λ s p. (s, true);
  write_string = λ s p text. ((λ q. if bytes_eq p q then some text else s q), true);
  sync = λ s p. (s, true);
  close = λ s p. (s, true);
  replace = λ s from to.
      ((λ q. if bytes_eq to q then s from else if bytes_eq from q then none else s q), true);
  remove = λ s p. ((λ q. if bytes_eq p q then none else s q), removed);
}

same_tail : {a b : Bytes} → ◌≡◌ {A = Bytes} (1 ∷ a) (1 ∷ b) → a ≡ b
same_tail h = cc

empty_name : {a : Bytes} → ◌≡◌ {A = Bytes} [] (1 ∷ a) → ⊥
empty_name h = cc

disk-IsWriting : IsWriting disk (codes "d") (λ s p. s p)
disk-IsWriting = record {
  path-injective = λ a b h. same_tail h;
  read-text = λ s p. refl;
  mkdir-text = λ s. (refl, λ q. refl);
  create-text = λ s. ([], refl, (λ account h. empty_name h), λ q. refl);
  chmod-text = λ s p. (refl, λ q. refl);
  write-text = λ s p text h. (refl, λ q. refl);
  sync-text = λ s p. (refl, λ q. refl);
  close-text = λ s p. (refl, λ q. refl);
  replace-text = λ s from to. (refl, λ q. refl);
  remove-text = λ s p q. refl;
}

-- A codec that knows one record.
abbrev one_json : Json
one_json = record { marshal = λ c. some (codes "c"); unmarshal = λ text. some signed_in }

abbrev no_files : Bytes → Option Bytes
no_files p = none

file_store-set_example :
    let store = file_store one_json disk (codes "d") in
    ((store.set no_files (codes "x") signed_in).1 ≡ none)
    × (store.get (store.set no_files (codes "x") signed_in).0 (codes "x") ≡ (
        if bytes_eq (codes "x") (codes "x") then inr signed_in else store.get no_files (codes "x")))
file_store-set_example =
    file_store-set one_json disk (codes "d") (λ s p. s p) disk-IsWriting (codes "x") (codes "x")
      signed_in no_files (codes "c", refl, refl) (unfold bytes_eq to_lower in refl)

-- A parser for which every text is a URL over HTTPS.
abbrev https_urls : Urls
https_urls = record {
  parse = λ s. some (record {
    scheme = codes "https";
    host = codes "as.test";
    hostname = codes "as.test";
    has_user = false;
    fragment = [];
    text = s;
  });
  is_loopback = λ s. false;
}

abbrev metadata : Metadata
metadata = record {
  issuer = codes "https://as.test";
  authorization_endpoint = codes "https://as.test/authorize";
  token_endpoint = codes "https://as.test/token";
  userinfo_endpoint = [];
  revocation_endpoint = [];
  grant_types_supported = codes "authorization_code" ∷ codes "refresh_token" ∷ [];
  code_challenge_methods = codes "S256" ∷ [];
  token_auth_methods = codes "none" ∷ [];
  scopes_supported = [];
}

abbrev calls : List (Call https_urls)
calls =
    (codes "https://as.test/", λ url. decoded metadata)
    ∷ (codes "https://as.test", λ url. unsent)
    ∷ []

discover_all-Trusted_example :
    All (λ (issuer, d). GivesTrusted https_urls issuer d) (discover_all https_urls [] calls)
discover_all-Trusted_example = discover_all-Trusted https_urls calls

abbrev raw_tokens : RawTokenResponse
raw_tokens = record {
  access_token = codes "a1";
  refresh_token = codes "r1";
  token_type = codes "bearer";
  scope = text (codes "offline_access openid");
  expires_in = some (pos 3600);
  id_token = [];
  error = [];
  description = [];
}

abbrev asked_scopes : List Bytes
asked_scopes = codes "openid" ∷ codes "offline_access" ∷ []

abbrev login_time : ℕ
login_time = 2 ^ 63 + 5

abbrev login_tokens : TokenResponse
login_tokens =
    token_response raw_tokens (codes "offline_access" ∷ codes "openid" ∷ []) login_time 3600

login_accepted :
    exchange_code (answered (pos 200) (some raw_tokens)) login_time asked_scopes ≡ inr login_tokens
unfolding token_request parse_token_response parse_scope words_from bytes_eq to_lower some_of all_of
login_accepted = refl

exchange_code-Complete_example :
    (raw : RawTokenResponse) × (some raw_tokens ≡ some raw)
    × IsGranted raw login_time asked_scopes true login_tokens
    × (is_incomplete (login_credentials login_tokens (codes "u1")) ≡ false)
exchange_code-Complete_example =
    exchange_code-Complete (pos 200) (some raw_tokens) login_time asked_scopes login_tokens
      (codes "u1") (omega arith) (unfold bytes_eq some_of in refl) login_accepted

-- Ten thousand million seconds: the tokens expire before they were asked for.
expires_at-wraps_example : expires_at login_time 10000000000 ≡ (
    if leb 10000000000 9223372036
    then pos (login_time + 10000000000 * 1000000000)
    else pos (login_time + 10000000000 * 1000000000 - 2 ^ 64))
expires_at-wraps_example = expires_at-wraps login_time 10000000000 (omega arith) (omega arith)
