-- ===== src/Oauth/Credentials.antt =====
-- internal/oauth/credentials.go: the interface CredentialStore, the credentials that a store accepts
-- and FallbackStore. The texts that FallbackStore gives to Warn are left out.
pub mod Refined
pub mod Keyring
pub mod Files
use mockingo_agent.Base.{
  ℕ, Bool, true, false, ◌||◌, not, ◌==◌, Option, none, some, List, Bytes, codes, is_empty, bytes_eq,
  to_lower, trim_right, ◌++◌, ◌∷◌, ℤ, pos, eq_int, if◌then◌else◌, ◌⊎◌, inl, inr, ◌≡◌,
}
use mockingo_agent.Protocol.Message.{Time}

pub record OauthCredentials : Type 0 where
  pub access_token : Bytes
  pub refresh_token : Bytes
  pub token_type : Bytes
  pub scope : List Bytes
  pub expires_at : Time
  pub user_id : Bytes

-- Account
abbrev pub account_name : Bytes → Bytes → Bytes
account_name issuer client_id =
    codes "oauth:" ++ (trim_right (λ c. c == b'/') issuer ++ (b':' ∷ client_id))

-- ErrCredentialsNotFound, an error of the store below, and a value that decodeCredentials refuses.
pub data Fault : Type 0 where
  not_found unavailable incomplete : Fault

-- strings.EqualFold(t, "Bearer"): no letter outside ASCII folds to one of these.
abbrev pub is_bearer : Bytes → Bool
is_bearer t = bytes_eq (to_lower t) (codes "bearer")

abbrev pub is_incomplete : OauthCredentials → Bool
is_incomplete c =
    is_empty c.access_token
    || is_empty c.refresh_token
    || not (is_bearer c.token_type)
    || eq_int c.expires_at (pos 0)

-- encoding/json on the record: json.Marshal and json.Unmarshal.
pub record Json : Type 0 where
  pub marshal : OauthCredentials → Option Bytes
  pub unmarshal : Bytes → Option OauthCredentials

abbrev check_complete : Option OauthCredentials → Fault ⊎ OauthCredentials
check_complete none = inl incomplete
check_complete (some c) = if is_incomplete c then inl incomplete else inr c

unfoldable pub decode_credentials : Json → Bytes → Fault ⊎ OauthCredentials
decode_credentials json value = check_complete (json.unmarshal value)

-- The interface CredentialStore, over the state of what is below it.
pub record CredentialStore : Type 1 where
  pub State : Type 0
  pub get : State → Bytes → Fault ⊎ OauthCredentials
  pub set : State → Bytes → OauthCredentials → State × Option Fault
  pub delete : State → Bytes → State × Option Fault

abbrev pub found : Option OauthCredentials → Fault ⊎ OauthCredentials
found none = inl not_found
found (some c) = inr c

-- A store whose operations do not fail, and that holds the credentials that `holds` tells.
pub record IsWorking (store : CredentialStore)
    (holds : store.State → Bytes → Option OauthCredentials) : Type 0 where
  pub get-holds :
      (s : store.State) (account : Bytes) → store.get s account ≡ found (holds s account)
  pub set-holds :
      (s : store.State) (account other : Bytes) (c : OauthCredentials)
      → is_incomplete c ≡ false
      → ((store.set s account c).1 ≡ none)
        × (holds (store.set s account c).0 other
            ≡ (if bytes_eq account other then some c else holds s other))
  pub delete-holds :
      (s : store.State) (account other : Bytes)
      → ((store.delete s account).1 ≡ none)
        × (holds (store.delete s account).0 other
            ≡ (if bytes_eq account other then none else holds s other))

-- A store that cannot be reached: every operation fails and changes nothing.
pub record IsDown (store : CredentialStore) : Type 0 where
  pub get-fails : (s : store.State) (account : Bytes) → store.get s account ≡ inl unavailable
  pub set-fails :
      (s : store.State) (account : Bytes) (c : OauthCredentials)
      → store.set s account c ≡ (s, some unavailable)
  pub delete-fails :
      (s : store.State) (account : Bytes) → store.delete s account ≡ (s, some unavailable)

module _ (primary file : CredentialStore) (allow_file : Bool) where
  abbrev pub fallback_get : file.State → Bytes → Fault ⊎ OauthCredentials → Fault ⊎ OauthCredentials
  fallback_get f account (inr c) = inr c
  fallback_get f account (inl e) = if allow_file then file.get f account else inl e

  abbrev pub fallback_set :
      file.State
      → Bytes
      → OauthCredentials
      → primary.State × Option Fault
      → (primary.State × file.State) × Option Fault
  fallback_set f account c (p, none) = ((p, (file.delete f account).0), none)
  fallback_set f account c (p, some e) =
      if not allow_file
      then ((p, f), some e)
      else ((p, (file.set f account c).0), (file.set f account c).1)

  abbrev pub fallback_delete :
      primary.State × Option Fault
      → file.State × Option Fault
      → (primary.State × file.State) × Option Fault
  fallback_delete (p, none) (f, file_error) = ((p, f), file_error)
  fallback_delete (p, some e) (f, file_error) =
      ((p, f), if not allow_file then some e else file_error)

  abbrev pub fallback_store : CredentialStore
  fallback_store = record {
    State = primary.State × file.State;
    get = λ (p, f) account. fallback_get f account (primary.get p account);
    set = λ (p, f) account c. fallback_set f account c (primary.set p account c);
    delete = λ (p, f) account. fallback_delete (primary.delete p account) (file.delete f account);
  }
