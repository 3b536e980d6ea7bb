-- ===== src/Oauth/Credentials/Files/Stored.antt =====
-- FileStore of internal/oauth/credentials.go over a file system that works.
use mockingo_agent.Base.{
  Bool, true, false, Option, none, some, [], Bytes, bytes_eq, bytes_eq_iff, bytes_eq_refl,
  if◌then◌else◌, ◌⊎◌, inl, inr, ◌≡◌, ◌≢◌, refl, ap, ap₂, ◌∙◌, sym, arith, Bool-cases,
}
use mockingo_agent.Oauth.Credentials.{
  OauthCredentials, Fault, is_incomplete, Json, decode_credentials,
}
use mockingo_agent.Oauth.Credentials.Keyring.{ReadsBack, decode-marshal}
use mockingo_agent.Oauth.Credentials.Files.{
  ReadFile, contents, not_exist, FileSystem, file_get, after_call, close_file, remove_temporary,
  keep, last_result, fill_temporary, with_temporary, encode_and_write, file_store,
}

abbrev pub read_of : Option Bytes → ReadFile
read_of none = not_exist
read_of (some text) = contents text

module _ {A : Type 0} where
  taken : {b : Bool} {x : A} (y : A) → b ≡ true → (if b then x else y) ≡ x
  taken y e = rw e refl

  passed : {b : Bool} (x : A) {y : A} → b ≡ false → (if b then x else y) ≡ y
  passed x e = rw e refl

unlike : (a b : Bytes) → a ≢ b → bytes_eq a b ≡ false
unlike a b ne = ground (arith, bytes_eq_iff a b)

settle :
    (t m : Bool) {x y u v : Option Bytes}
    → x ≡ u
    → (m ≡ false → y ≡ v)
    → (if t then x else if m then none else y) ≡ (if t then u else if m then none else v)
settle true m p q = p
settle false true p q = refl
settle false false p q = q refl

-- Calls that succeed, and what they do to the texts of the files, which `text_of` tells.
pub record IsWriting (fs : FileSystem) (directory : Bytes)
    (text_of : fs.State → Bytes → Option Bytes) : Type 0 where
  pub path-injective : (a b : Bytes) → fs.path directory a ≡ fs.path directory b → a ≡ b
  pub read-text : (s : fs.State) (p : Bytes) → fs.read_file s p ≡ read_of (text_of s p)
  pub mkdir-text :
      (s : fs.State)
      → ((fs.mkdir_all s directory).1 ≡ true)
        × ((q : Bytes) → text_of (fs.mkdir_all s directory).0 q ≡ text_of s q)
  pub create-text :
      (s : fs.State)
      → (temporary : Bytes) × ((fs.create_temp s directory).1 ≡ some temporary)
        × ((account : Bytes) → temporary ≢ fs.path directory account)
        × ((q : Bytes)
            → text_of (fs.create_temp s directory).0 q
              ≡ (if bytes_eq temporary q then some [] else text_of s q))
  pub chmod-text :
      (s : fs.State) (p : Bytes)
      → ((fs.chmod s p).1 ≡ true) × ((q : Bytes) → text_of (fs.chmod s p).0 q ≡ text_of s q)
  pub write-text :
      (s : fs.State) (p text : Bytes)
      → text_of s p ≡ some []
      → ((fs.write_string s p text).1 ≡ true)
        × ((q : Bytes)
            → text_of (fs.write_string s p text).0 q
              ≡ (if bytes_eq p q then some text else text_of s q))
  pub sync-text :
      (s : fs.State) (p : Bytes)
      → ((fs.sync s p).1 ≡ true) × ((q : Bytes) → text_of (fs.sync s p).0 q ≡ text_of s q)
  pub close-text :
      (s : fs.State) (p : Bytes)
      → ((fs.close s p).1 ≡ true) × ((q : Bytes) → text_of (fs.close s p).0 q ≡ text_of s q)
  pub replace-text :
      (s : fs.State) (from to : Bytes)
      → ((fs.replace s from to).1 ≡ true)
        × ((q : Bytes)
            → text_of (fs.replace s from to).0 q ≡ (
                if bytes_eq to q
                then text_of s from
                else if bytes_eq from q
                then none
                else text_of s q))
  pub remove-text :
      (s : fs.State) (p q : Bytes)
      → text_of (fs.remove s p).0 q ≡ (if bytes_eq p q then none else text_of s q)

module _ (json : Json) (fs : FileSystem) (directory : Bytes)
    (text_of : fs.State → Bytes → Option Bytes) (w : IsWriting fs directory text_of) where
  after_call-ok :
      (undo : fs.State → fs.State) (r : fs.State × Bool) (rest : fs.State → fs.State × Option Fault)
      → r.1 ≡ true
      → after_call json fs directory undo r rest ≡ rest r.0
  after_call-ok undo (s, true) rest e = refl
  after_call-ok undo (s, false) rest e = cc

  last_result-ok :
      (r : fs.State × Bool) → r.1 ≡ true → last_result json fs directory r ≡ (r.0, none)
  last_result-ok (s, true) e = refl
  last_result-ok (s, false) e = cc

  -- The state after the seven calls on the temporary file.
  abbrev filled : Bytes → Bytes → Bytes → fs.State → fs.State
  filled account text temporary s =
      let s = (fs.chmod s temporary).0 in
      let s = (fs.write_string s temporary text).0 in
      let s = (fs.sync s temporary).0 in
      let s = (fs.close s temporary).0 in
      let s = (fs.replace s temporary (fs.path directory account)).0 in
      (fs.chmod s (fs.path directory account)).0

  fill_temporary-filled :
      (account text temporary : Bytes) (s : fs.State)
      → text_of s temporary ≡ some []
      → (fill_temporary json fs directory account text temporary s
          ≡ (filled account text temporary s, none))
        × ((q : Bytes)
            → text_of (filled account text temporary s) q ≡ (
                if bytes_eq (fs.path directory account) q
                then some text
                else if bytes_eq temporary q
                then none
                else text_of s q))
  fill_temporary-filled account text temporary s empty =
      let target = fs.path directory account in
      let (a1, b1) = w.chmod-text s temporary in
      let s1 = (fs.chmod s temporary).0 in
      let (a2, b2) = w.write-text s1 temporary text (b1 temporary ∙ empty) in
      let s2 = (fs.write_string s1 temporary text).0 in
      let (a3, b3) = w.sync-text s2 temporary in
      let s3 = (fs.sync s2 temporary).0 in
      let (a4, b4) = w.close-text s3 temporary in
      let s4 = (fs.close s3 temporary).0 in
      let (a5, b5) = w.replace-text s4 temporary target in
      let s5 = (fs.replace s4 temporary target).0 in
      let (a6, b6) = w.chmod-text s5 target in
      (
        after_call-ok (close_file json fs directory temporary) (fs.chmod s temporary) _ a1
            ∙ after_call-ok (close_file json fs directory temporary)
                (fs.write_string s1 temporary text) _ a2
            ∙ after_call-ok (close_file json fs directory temporary) (fs.sync s2 temporary) _ a3
            ∙ after_call-ok (keep json fs directory) (fs.close s3 temporary) _ a4
            ∙ after_call-ok (keep json fs directory) (fs.replace s4 temporary target) _ a5
            ∙ last_result-ok (fs.chmod s5 target) a6,
        λ q.
            b6 q
            ∙ b5 q
            ∙ settle (bytes_eq target q) (bytes_eq temporary q)
                (b4 temporary ∙ b3 temporary ∙ b2 temporary ∙ taken _ (bytes_eq_refl temporary))
                (λ miss. b4 q ∙ b3 q ∙ b2 q ∙ passed _ miss ∙ b1 q),
      )

  same_file :
      (account other : Bytes)
      → bytes_eq (fs.path directory account) (fs.path directory other) ≡ bytes_eq account other
  same_file account other = elim (Bool-cases (bytes_eq account other)) [
    | inl hit ↦ rw (hit, (bytes_eq_iff _ _).0 hit) (bytes_eq_refl (fs.path directory other))
    | inr miss ↦ rw miss (differ (λ e. w.path-injective account other e) miss)
  ]
    where
      differ :
          (fs.path directory account ≡ fs.path directory other → account ≡ other)
          → bytes_eq account other ≡ false
          → bytes_eq (fs.path directory account) (fs.path directory other) ≡ false
      differ inj miss = ground (
        arith,
        inj,
        bytes_eq_iff account other,
        bytes_eq_iff (fs.path directory account) (fs.path directory other),
      )

  -- What a read gives after a write.
  read-written :
      (b : Bool) (text : Bytes) (o : Option Bytes) (c : OauthCredentials)
      → decode_credentials json text ≡ inr c
      → file_get json fs directory (read_of (if b then some text else o))
        ≡ (if b then inr c else file_get json fs directory (read_of o))
  read-written true text o c d = d
  read-written false text o c d = refl

  -- Over a file system whose calls succeed, with a file name of its own for each account: Set of
  -- complete credentials that encoding/json reads back succeeds, and Get after it gives them for their
  -- account, and for any other account what it gave before, an error included.
  pub file_store-set :
      (account other : Bytes) (c : OauthCredentials) (s : fs.State)
      → ReadsBack json c
      → is_incomplete c ≡ false
      → let store = file_store json fs directory in
        ((store.set s account c).1 ≡ none)
        × (store.get (store.set s account c).0 other
            ≡ (if bytes_eq account other then inr c else store.get s other))
  file_store-set account other c s trips full =
      let (text, m, d) = decode-marshal json c trips full in
      let (a1, b1) = w.mkdir-text s in
      let s1 = (fs.mkdir_all s directory).0 in
      let (temporary, a2, apart, b2) = w.create-text s1 in
      let s2 = (fs.create_temp s1 directory).0 in
      let (a3, b3) =
        fill_temporary-filled account text temporary s2
          (b2 temporary ∙ taken _ (bytes_eq_refl temporary)) in
      let s3 = filled account text temporary s2 in
      let target = fs.path directory in
      let e =
        after_call-ok (keep json fs directory) (fs.mkdir_all s directory) _ a1
        ∙ ap (λ o. encode_and_write json fs directory account o s1) m
        ∙ ap (λ o. with_temporary json fs directory account text (s2, o)) a2
        ∙ ap (remove_temporary json fs directory temporary) a3 in
      (
        ap (λ (r : fs.State × Option Fault). r.1) e,
        ap
              (λ (r : fs.State × Option Fault).
                file_get json fs directory (fs.read_file r.0 (target other)))
              e
            ∙ ap (file_get json fs directory)
                (w.read-text (fs.remove s3 temporary).0 (target other))
            ∙ ap (λ o. file_get json fs directory (read_of o))
                (w.remove-text s3 temporary (target other)
                  ∙ passed none (unlike temporary (target other) (apart other))
                  ∙ b3 (target other)
                  ∙ ap (λ o. if bytes_eq (target account) (target other) then some text else o)
                      (passed none (unlike temporary (target other) (apart other))
                        ∙ b2 (target other)
                        ∙ passed (some []) (unlike temporary (target other) (apart other))
                        ∙ b1 (target other)))
            ∙ read-written (bytes_eq (target account) (target other)) text
                (text_of s (target other)) c d
            ∙ ap₂ (λ (b : Bool) (r : Fault ⊎ OauthCredentials). if b then inr c else r)
                (same_file account other)
                (ap (file_get json fs directory) (sym (w.read-text s (target other)))),
      )
