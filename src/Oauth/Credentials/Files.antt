-- ===== src/Oauth/Credentials/Files.antt =====
-- internal/oauth/credentials.go: FileStore, over the calls of the file system, and
-- internal/atomicfile: Replace, which is a call of it.
pub mod Stored
use mockingo_agent.Base.{
  Bool, true, false, Option, none, some, Bytes, codes, bytes_eq, bytes_eq_iff, ◌++◌, ◌∷◌,
  if◌then◌else◌, ◌⊎◌, inl, inr, ◌≡◌, ◌≢◌, refl, ap, ◌∙◌, sym, arith,
}
use mockingo_agent.Oauth.Credentials.{
  OauthCredentials, Fault, not_found, unavailable, incomplete, is_incomplete, Json,
  decode_credentials, CredentialStore, IsWorking, found,
}
use mockingo_agent.Oauth.Credentials.Keyring.{RoundTrips, decode-marshal}

pub data ReadFile : Type 0 where
  contents : Bytes → ReadFile
  not_exist failed : ReadFile

pub data Removal : Type 0 where
  removed not_exist failed : Removal

-- The calls of os that FileStore makes, os.Rename under the name of atomicfile.Replace, and the name
-- of an account's file in a directory: filepath.Join of it, "oauth-", the hexadecimal SHA-256 of the
-- account and ".json". A call that can only fail or not says whether it succeeded.
pub record FileSystem : Type 1 where
  pub State : Type 0
  pub path : Bytes → Bytes → Bytes
  pub read_file : State → Bytes → ReadFile
  pub mkdir_all : State → Bytes → State × Bool
  pub create_temp : State → Bytes → State × Option Bytes
  pub chmod : State → Bytes → State × Bool
  pub write_string : State → Bytes → Bytes → State × Bool
  pub sync : State → Bytes → State × Bool
  pub close : State → Bytes → State × Bool
  pub replace : State → Bytes → Bytes → State × Bool
  pub remove : State → Bytes → State × Removal

module _ (json : Json) (fs : FileSystem) (directory : Bytes) where
  abbrev file_get : ReadFile → Fault ⊎ OauthCredentials
  file_get not_exist = inl not_found
  file_get failed = inl unavailable
  file_get (contents value) = decode_credentials json value

  -- `rest` unless the call failed; `undo` on the way out.
  abbrev after_call :
      (fs.State → fs.State)
      → fs.State × Bool
      → (fs.State → fs.State × Option Fault)
      → fs.State × Option Fault
  after_call undo (s, true) rest = rest s
  after_call undo (s, false) rest = (undo s, some unavailable)

  abbrev close_file : Bytes → fs.State → fs.State
  close_file temporary s = (fs.close s temporary).0

  -- The deferred os.Remove.
  abbrev remove_temporary : Bytes → fs.State × Option Fault → fs.State × Option Fault
  remove_temporary temporary (s, e) = ((fs.remove s temporary).0, e)

  abbrev keep : fs.State → fs.State
  keep s = s

  abbrev last_result : fs.State × Bool → fs.State × Option Fault
  last_result (s, true) = (s, none)
  last_result (s, false) = (s, some unavailable)

  abbrev fill_temporary : Bytes → Bytes → Bytes → fs.State → fs.State × Option Fault
  fill_temporary account text temporary s =
      after_call (close_file temporary) (fs.chmod s temporary) (λ s.
        after_call (close_file temporary) (fs.write_string s temporary text) (λ s.
          after_call (close_file temporary) (fs.sync s temporary) (λ s.
            after_call keep (fs.close s temporary) (λ s.
              after_call keep (fs.replace s temporary (fs.path directory account))
                (λ s. last_result (fs.chmod s (fs.path directory account)))))))

  abbrev with_temporary : Bytes → Bytes → fs.State × Option Bytes → fs.State × Option Fault
  with_temporary account text (s, none) = (s, some unavailable)
  with_temporary account text (s, some temporary) =
      remove_temporary temporary (fill_temporary account text temporary s)

  abbrev encode_and_write : Bytes → Option Bytes → fs.State → fs.State × Option Fault
  encode_and_write account none s = (s, some incomplete)
  encode_and_write account (some text) s = with_temporary account text (fs.create_temp s directory)

  abbrev file_delete : fs.State × Removal → fs.State × Option Fault
  file_delete (s, removed) = (s, none)
  file_delete (s, not_exist) = (s, none)
  file_delete (s, failed) = (s, some unavailable)

  abbrev pub file_store : CredentialStore
  file_store = record {
    State = fs.State;
    get = λ s account. file_get (fs.read_file s (fs.path directory account));
    set = λ s account c.
        after_call keep (fs.mkdir_all s directory) (encode_and_write account (json.marshal c));
    delete = λ s account. file_delete (fs.remove s (fs.path directory account));
  }
