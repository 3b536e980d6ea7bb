-- ===== src/Oauth/Metadata/Discovery.antt =====
-- Any sequence of calls of Discover of internal/oauth/oauth.go, with the cache that they share.
use mockingo_agent.Base.{
  true, Option, none, some, List, [], ◌∷◌, Bytes, bytes_eq, bytes_eq_iff, ◌≡◌, refl, ◌∙◌, sym,
  subst, Bool-cases, inl, inr, All,
}
use mockingo_agent.Base.Maps.{lookup, insert, lookup-insert}
use mockingo_agent.Oauth.Metadata.{
  ParsedUrl, Urls, Metadata, MetadataError, validate_secure_url, validate_metadata, Fetched, unsent,
  undecodable, refused, decoded, Discovered, discovered, not_discovered, Cache, keep_valid,
  take_fetched, fetch_valid, use_cached, issuer_of, discover,
}
use mockingo_agent.Oauth.Metadata.Trusted.{IsTrusted, check_issuers-IsTrusted}

module _ (lib : Urls) where
  -- A call: the issuer that is asked for, and what the servers answer during it.
  abbrev pub Call : Type 0
  Call = Bytes × (Bytes → Fetched lib)

  abbrev pub discover_all : Cache lib → List Call → List (Bytes × Discovered lib)
  discover_all cache [] = []
  discover_all cache ((issuer, fetch) ∷ calls) =
      (issuer_of lib issuer, (discover lib cache issuer fetch).1)
      ∷ discover_all (discover lib cache issuer fetch).0 calls

  abbrev pub GivesTrusted : Bytes → Discovered lib → Type 0
  GivesTrusted issuer not_discovered = Unit
  GivesTrusted issuer (discovered m) = IsTrusted lib issuer m

  abbrev CacheTrusted : Cache lib → Type 0
  CacheTrusted cache =
      (issuer : Bytes) (m : Metadata) → lookup issuer cache ≡ some m → IsTrusted lib issuer m

  abbrev Kept : Bytes → Cache lib × Discovered lib → Type 0
  Kept issuer (cache, d) = CacheTrusted cache × GivesTrusted issuer d

  insert-CacheTrusted :
      (cache : Cache lib) (issuer : Bytes) (m : Metadata)
      → CacheTrusted cache
      → IsTrusted lib issuer m
      → CacheTrusted (insert issuer m cache)
  insert-CacheTrusted cache issuer m t new j n h = elim (Bool-cases (bytes_eq issuer j)) [
    | inl hit ↦
        let e : some m ≡ some n = sym (lookup-insert issuer j m cache ∙ rw hit refl) ∙ h in
        let same : m ≡ n = cc in
        subst (IsTrusted lib j) same (subst (λ i. IsTrusted lib i m) ((bytes_eq_iff _ _).0 hit) new)
    | inr miss ↦ t j n (sym (lookup-insert issuer j m cache ∙ rw miss refl) ∙ h)
  ]

  keep_valid-Kept :
      (cache : Cache lib) (issuer : Bytes) (m : Metadata) (o : Option MetadataError)
      → CacheTrusted cache
      → validate_metadata lib m issuer ≡ o
      → Kept issuer (keep_valid lib cache issuer m o)
  unfolding validate_metadata
  keep_valid-Kept cache issuer m (some e) t v = (t, tt)
  keep_valid-Kept cache issuer m none t v =
      let trusted = check_issuers-IsTrusted lib m issuer _ _ refl refl v in
      (insert-CacheTrusted cache issuer m t trusted, trusted)

  take_fetched-Kept :
      (cache : Cache lib) (issuer : Bytes) (f : Fetched lib)
      → CacheTrusted cache
      → Kept issuer (take_fetched lib cache issuer f)
  take_fetched-Kept cache issuer unsent t = (t, tt)
  take_fetched-Kept cache issuer undecodable t = (t, tt)
  take_fetched-Kept cache issuer (refused status) t = (t, tt)
  take_fetched-Kept cache issuer (decoded m) t =
      keep_valid-Kept cache issuer m (validate_metadata lib m issuer) t refl

  fetch_valid-Kept :
      (cache : Cache lib) (issuer : Bytes) (fetch : Bytes → Fetched lib) (o : Option ParsedUrl)
      → CacheTrusted cache
      → Kept issuer (fetch_valid lib cache issuer fetch o)
  fetch_valid-Kept cache issuer fetch none t = (t, tt)
  fetch_valid-Kept cache issuer fetch (some url) t = take_fetched-Kept cache issuer (fetch _) t

  use_cached-Kept :
      (cache : Cache lib) (issuer : Bytes) (fetch : Bytes → Fetched lib) (o : Option Metadata)
      → lookup issuer cache ≡ o
      → CacheTrusted cache
      → Kept issuer (use_cached lib cache issuer fetch o)
  use_cached-Kept cache issuer fetch (some m) e t = (t, t issuer m e)
  use_cached-Kept cache issuer fetch none e t =
      fetch_valid-Kept cache issuer fetch (validate_secure_url lib issuer true) t

  discover-Kept :
      (cache : Cache lib) (issuer : Bytes) (fetch : Bytes → Fetched lib)
      → CacheTrusted cache
      → Kept (issuer_of lib issuer) (discover lib cache issuer fetch)
  unfolding discover
  discover-Kept cache issuer fetch t =
      use_cached-Kept cache (issuer_of lib issuer) fetch (lookup (issuer_of lib issuer) cache) refl
        t

  discover_all-from :
      (cache : Cache lib) (calls : List Call)
      → CacheTrusted cache
      → All (λ (issuer, d). GivesTrusted issuer d) (discover_all cache calls)
  discover_all-from cache [] t = tt
  discover_all-from cache ((issuer, fetch) ∷ calls) t =
      let (kept, given) = discover-Kept cache issuer fetch t in
      (given, discover_all-from (discover lib cache issuer fetch).0 calls kept)

-- Whatever the servers answer to any sequence of calls of Discover, which share a cache that is empty
-- at the start, metadata is given out only for an issuer that it names itself, with endpoints that
-- are URLs without credentials and fragment over HTTPS, or over HTTP on a loopback address if the
-- issuer is on one too, and with support for PKCE and public clients.
pub discover_all-Trusted :
    (lib : Urls) (calls : List (Call lib))
    → All (λ (issuer, d). GivesTrusted lib issuer d) (discover_all lib [] calls)
unfolding lookup
discover_all-Trusted lib calls = discover_all-from lib [] calls (λ issuer m h. absurd (missing h))
  where
    missing : {m : Metadata} → none ≡ some m → ⊥
    missing h = cc
