-- ===== src/Oauth/Credentials/Keyring.antt =====
-- internal/oauth/credentials.go: KeyringStore, over the keyring of the operating system.
use mockingo_agent.Base.{
  Bool, true, false, Option, none, some, Bytes, codes, bytes_eq, if◌then◌else◌, ◌⊎◌, inl, inr, ◌≡◌,
  ◌≢◌, refl, ap, ◌∙◌,
}
use mockingo_agent.Oauth.Credentials.{
  OauthCredentials, Fault, not_found, unavailable, incomplete, is_incomplete, Json,
  decode_credentials, CredentialStore, IsWorking, found,
}

-- An answer of the package go-keyring: a value, keyring.ErrNotFound or another error.
pub data Lookup : Type 0 where
  value : Bytes → Lookup
  missing failed : Lookup

pub data Deletion : Type 0 where
  deleted missing failed : Deletion

-- keyring.Get, Set and Delete, with the service and the account.
pub record Keyring : Type 1 where
  pub State : Type 0
  pub get : State → Bytes → Bytes → Lookup
  pub set : State → Bytes → Bytes → Bytes → State × Bool
  pub delete : State → Bytes → Bytes → State × Deletion

abbrev pub credential_service : Bytes
credential_service = codes "mockingo"

module _ (json : Json) where
  abbrev pub keyring_get : Lookup → Fault ⊎ OauthCredentials
  keyring_get missing = inl not_found
  keyring_get failed = inl unavailable
  keyring_get (value v) = decode_credentials json v

  module _ (keyring : Keyring) where
    abbrev written : keyring.State × Bool → keyring.State × Option Fault
    written (s, true) = (s, none)
    written (s, false) = (s, some unavailable)

    abbrev keyring_set : keyring.State → Bytes → Option Bytes → keyring.State × Option Fault
    keyring_set s account none = (s, some incomplete)
    keyring_set s account (some text) = written (keyring.set s credential_service account text)

    abbrev keyring_delete : keyring.State × Deletion → keyring.State × Option Fault
    keyring_delete (s, deleted) = (s, none)
    keyring_delete (s, missing) = (s, none)
    keyring_delete (s, failed) = (s, some unavailable)

    abbrev pub keyring_store : CredentialStore
    keyring_store = record {
      State = keyring.State;
      get = λ s account. keyring_get (keyring.get s credential_service account);
      set = λ s account c. keyring_set s account (json.marshal c);
      delete = λ s account. keyring_delete (keyring.delete s credential_service account);
    }

-- Encoding a record and decoding it gives the record, as for one whose texts are all UTF-8.
abbrev pub ReadsBack : Json → OauthCredentials → Type 0
ReadsBack json c = (text : Bytes) × (json.marshal c ≡ some text) × (json.unmarshal text ≡ some c)

abbrev pub RoundTrips : Json → Type 0
RoundTrips json = (c : OauthCredentials) → ReadsBack json c

pub decode-marshal :
    (json : Json) (c : OauthCredentials)
    → ReadsBack json c
    → is_incomplete c ≡ false
    → (text : Bytes) × (json.marshal c ≡ some text) × (decode_credentials json text ≡ inr c)
unfolding decode_credentials
decode-marshal json c (text, m, u) full = (text, m, rw (u, full) refl)

-- A keyring whose calls do not fail, with what it holds for the accounts of the service: each value
-- is one that the store can read. Values of any other kind are not written by the store.
pub record IsUp (json : Json) (keyring : Keyring)
    (holds : keyring.State → Bytes → Option OauthCredentials) : Type 0 where
  pub get-holds :
      (s : keyring.State) (account : Bytes)
      → keyring_get json (keyring.get s credential_service account) ≡ found (holds s account)
  pub set-holds :
      (s : keyring.State) (account other text : Bytes) (c : OauthCredentials)
      → decode_credentials json text ≡ inr c
      → ((keyring.set s credential_service account text).1 ≡ true)
        × (holds (keyring.set s credential_service account text).0 other
            ≡ (if bytes_eq account other then some c else holds s other))
  pub delete-holds :
      (s : keyring.State) (account other : Bytes)
      → ((keyring.delete s credential_service account).1 ≢ failed)
        × (holds (keyring.delete s credential_service account).0 other
            ≡ (if bytes_eq account other then none else holds s other))

module _ (json : Json) (keyring : Keyring) where
  written-ok : (r : keyring.State × Bool) → r.1 ≡ true → written json keyring r ≡ (r.0, none)
  written-ok (s, true) e = refl
  written-ok (s, false) e = cc

  deleted-ok :
      (r : keyring.State × Deletion) → r.1 ≢ failed → keyring_delete json keyring r ≡ (r.0, none)
  deleted-ok (s, deleted) e = refl
  deleted-ok (s, missing) e = refl
  deleted-ok (s, failed) e = absurd (e refl)

  pub keyring_store-IsWorking :
      (holds : keyring.State → Bytes → Option OauthCredentials)
      → RoundTrips json
      → IsUp json keyring holds
      → IsWorking (keyring_store json keyring) holds
  keyring_store-IsWorking holds trips up = record {
    get-holds = up.get-holds;
    set-holds = λ s account other c full.
        let (text, m, d) = decode-marshal json c (trips c) full in
        let (ok, kept) = up.set-holds s account other text c d in
        let e =
          ap (keyring_set json keyring s account) m
          ∙ written-ok (keyring.set s credential_service account text) ok in
        (
          ap (λ (r : keyring.State × Option Fault). r.1) e,
          ap (λ (r : keyring.State × Option Fault). holds r.0 other) e ∙ kept,
        );
    delete-holds = λ s account other.
        let (ok, kept) = up.delete-holds s account other in
        let e = deleted-ok (keyring.delete s credential_service account) ok in
        (
          ap (λ (r : keyring.State × Option Fault). r.1) e,
          ap (λ (r : keyring.State × Option Fault). holds r.0 other) e ∙ kept,
        );
  }
