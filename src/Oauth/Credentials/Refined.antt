-- ===== src/Oauth/Credentials/Refined.antt =====
-- FallbackStore of internal/oauth/credentials.go as one map from accounts to credentials.
use mockingo_agent.Base.{
  Bool, true, false, Option, none, some, List, [], ◌∷◌, Bytes, bytes_eq, if◌then◌else◌, ◌⊎◌, inl,
  inr, ◌≡◌, refl, ap, ap₂, ◌∙◌,
}
use mockingo_agent.Oauth.Credentials.{
  OauthCredentials, Fault, is_incomplete, CredentialStore, IsWorking, IsDown, found, fallback_get,
  fallback_set, fallback_delete, fallback_store,
}

-- What the callers do with a store, and what they get.
pub data Operation : Type 0 where
  get : Bytes → Operation
  set : Bytes → OauthCredentials → Operation
  delete : Bytes → Operation

pub data Reply : Type 0 where
  got : Fault ⊎ OauthCredentials → Reply
  done : Option Fault → Reply

abbrev pub replies : (store : CredentialStore) → store.State → List Operation → List Reply
replies store s [] = []
replies store s (get account ∷ ops) = got (store.get s account) ∷ replies store s ops
replies store s (set account c ∷ ops) =
    done (store.set s account c).1 ∷ replies store (store.set s account c).0 ops
replies store s (delete account ∷ ops) =
    done (store.delete s account).1 ∷ replies store (store.delete s account).0 ops

-- The same of a map that does not fail.
abbrev pub Vault : Type 0
Vault = Bytes → Option OauthCredentials

abbrev pub map_replies : Vault → List Operation → List Reply
map_replies m [] = []
map_replies m (get account ∷ ops) = got (found (m account)) ∷ map_replies m ops
map_replies m (set account c ∷ ops) =
    done none ∷ map_replies (λ other. if bytes_eq account other then some c else m other) ops
map_replies m (delete account ∷ ops) =
    done none ∷ map_replies (λ other. if bytes_eq account other then none else m other) ops

-- Only complete credentials are written.
abbrev pub WritesComplete : List Operation → Type 0
WritesComplete [] = Unit
WritesComplete (get account ∷ ops) = WritesComplete ops
WritesComplete (set account c ∷ ops) = (is_incomplete c ≡ false) × WritesComplete ops
WritesComplete (delete account ∷ ops) = WritesComplete ops

working-replies :
    (store : CredentialStore) (holds : store.State → Vault) (w : IsWorking store holds)
    (s : store.State) (m : Vault) (ops : List Operation)
    → ((account : Bytes) → holds s account ≡ m account)
    → WritesComplete ops
    → replies store s ops ≡ map_replies m ops
working-replies store holds w s m [] e c = refl
working-replies store holds w s m (get account ∷ ops) e c =
    ap₂ (λ (r : Reply) (rs : List Reply). r ∷ rs)
      (ap got (w.get-holds s account ∙ ap found (e account)))
      (working-replies store holds w s m ops e c)
working-replies store holds w s m (set account v ∷ ops) e (full, c) =
    ap₂ (λ (r : Reply) (rs : List Reply). r ∷ rs) (ap done (w.set-holds s account account v full).0)
      (working-replies store holds w (store.set s account v).0 _ ops
        (λ other.
          (w.set-holds s account other v full).1
          ∙ ap (λ o. if bytes_eq account other then some v else o) (e other))
        c)
working-replies store holds w s m (delete account ∷ ops) e c =
    ap₂ (λ (r : Reply) (rs : List Reply). r ∷ rs) (ap done (w.delete-holds s account account).0)
      (working-replies store holds w (store.delete s account).0 _ ops
        (λ other.
          (w.delete-holds s account other).1
          ∙ ap (λ o. if bytes_eq account other then none else o) (e other))
        c)

-- What the two stores hold together: the file counts where it is allowed.
abbrev pub view : Bool → Option OauthCredentials → Option OauthCredentials → Option OauthCredentials
view allow_file (some c) in_file = some c
view false none in_file = none
view true none in_file = in_file

get-view :
    (file : CredentialStore) (allow_file : Bool) (f : file.State) (account : Bytes)
    (o q : Option OauthCredentials) (primary : CredentialStore)
    → file.get f account ≡ found q
    → fallback_get primary file allow_file f account (found o) ≡ found (view allow_file o q)
get-view file allow_file f account (some c) q primary e = refl
get-view file false f account none q primary e = refl
get-view file true f account none q primary e = e

view-set :
    (allow_file b : Bool) (c : OauthCredentials) (o q : Option OauthCredentials)
    → view allow_file (if b then some c else o) (if b then none else q)
      ≡ (if b then some c else view allow_file o q)
view-set allow_file true c o q = refl
view-set allow_file false c o q = refl

view-delete :
    (allow_file b : Bool) (o q : Option OauthCredentials)
    → view allow_file (if b then none else o) (if b then none else q)
      ≡ (if b then none else view allow_file o q)
view-delete true true o q = refl
view-delete false true o q = refl
view-delete allow_file false o q = refl

module _ (primary file : CredentialStore) (allow_file : Bool) (hp : primary.State → Vault)
    (hf : file.State → Vault) where
  set-both :
      (f : file.State) (account : Bytes) (c : OauthCredentials) (r : primary.State × Option Fault)
      → r.1 ≡ none
      → fallback_set primary file allow_file f account c r
        ≡ ((r.0, (file.delete f account).0), none)
  set-both f account c (p, none) e = refl
  set-both f account c (p, some x) e = cc

  delete-both :
      (r : primary.State × Option Fault) (q : file.State × Option Fault)
      → r.1 ≡ none
      → q.1 ≡ none
      → fallback_delete primary file allow_file r q ≡ ((r.0, q.0), none)
  delete-both (p, none) (f, none) e h = refl
  delete-both (p, none) (f, some y) e h = cc
  delete-both (p, some x) (f, y) e h = cc

  fallback-IsWorking :
      IsWorking primary hp
      → IsWorking file hf
      → IsWorking
          (fallback_store primary file allow_file)
          (λ (p, f) account. view allow_file (hp p account) (hf f account))
  fallback-IsWorking w v = record {
    get-holds = λ (p, f) account.
        ap (fallback_get primary file allow_file f account) (w.get-holds p account)
        ∙ get-view file allow_file f account (hp p account) (hf f account) primary
            (v.get-holds f account);
    set-holds = λ (p, f) account other c full.
        let (e1, kept) = w.set-holds p account other c full in
        let (gone, left) = v.delete-holds f account other in
        let e = set-both f account c (primary.set p account c) e1 in
        (
          ap (λ (r : (primary.State × file.State) × Option Fault). r.1) e,
          ap
                (λ (r : (primary.State × file.State) × Option Fault).
                  view allow_file (hp r.0.0 other) (hf r.0.1 other))
                e
              ∙ ap₂ (λ (a b : Option OauthCredentials). view allow_file a b) kept left
              ∙ view-set allow_file (bytes_eq account other) c (hp p other) (hf f other),
        );
    delete-holds = λ (p, f) account other.
        let (e1, kept) = w.delete-holds p account other in
        let (gone, left) = v.delete-holds f account other in
        let e = delete-both (primary.delete p account) (file.delete f account) e1 gone in
        (
          ap (λ (r : (primary.State × file.State) × Option Fault). r.1) e,
          ap
                (λ (r : (primary.State × file.State) × Option Fault).
                  view allow_file (hp r.0.0 other) (hf r.0.1 other))
                e
              ∙ ap₂ (λ (a b : Option OauthCredentials). view allow_file a b) kept left
              ∙ view-delete allow_file (bytes_eq account other) (hp p other) (hf f other),
        );
  }

  fallback-down :
      allow_file ≡ true
      → IsDown primary
      → IsWorking file hf
      → IsWorking (fallback_store primary file allow_file) (λ (p, f) account. hf f account)
  fallback-down allowed d v = record {
    get-holds = λ (p, f) account. rw (d.get-fails p account, allowed) (v.get-holds f account);
    set-holds = λ (p, f) account other c full.
        rw (d.set-fails p account c, allowed) (v.set-holds f account other c full);
    delete-holds = λ (p, f) account other.
        rw (d.delete-fails p account, allowed) (v.delete-holds f account other);
  }

  -- The keyring works, or it does not and the file is allowed.
  abbrev pub Mode : Type 0
  Mode = IsWorking primary hp ⊎ ((allow_file ≡ true) × IsDown primary)

  abbrev pub held : Mode → primary.State × file.State → Vault
  held (inl w) (p, f) = λ account. view allow_file (hp p account) (hf f account)
  held (inr d) (p, f) = hf f

-- As long as the first store of FallbackStore works, or it cannot be reached and the file store is
-- allowed, every sequence of reads, writes of complete credentials and deletions gets the answers of
-- one map from accounts to credentials that never fails, if the file store works: the map that has
-- what the first store holds and, for other accounts, what an allowed file store holds; or, with the
-- first store out of reach, what the file store holds.
pub fallback-refines :
    (primary file : CredentialStore) (allow_file : Bool) (hp : primary.State → Vault)
    (hf : file.State → Vault) (mode : Mode primary file allow_file hp hf)
    (s : primary.State × file.State) (ops : List Operation)
    → IsWorking file hf
    → WritesComplete ops
    → replies (fallback_store primary file allow_file) s ops
      ≡ map_replies (held primary file allow_file hp hf mode s) ops
fallback-refines primary file allow_file hp hf (inl w) (p, f) ops v c =
    working-replies (fallback_store primary file allow_file) _
      (fallback-IsWorking primary file allow_file hp hf w v) (p, f) _ ops (λ account. refl) c
fallback-refines primary file allow_file hp hf (inr (allowed, d)) (p, f) ops v c =
    working-replies (fallback_store primary file allow_file) _
      (fallback-down primary file allow_file hp hf allowed d v) (p, f) _ ops (λ account. refl) c
