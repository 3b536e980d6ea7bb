-- ===== src/Oauth/Metadata/Trusted.antt =====
-- What the metadata has that Discover of internal/oauth/oauth.go gives out.
use mockingo_agent.Base.{
  Bool, true, false, Option, none, some, Bytes, codes, is_empty, bytes_eq, bytes_eq_iff, ◌⊎◌, inl,
  inr, ◌≡◌, refl, arith, subst, Bool-cases, Option-cases,
}
use mockingo_agent.Oauth.Metadata.{
  ParsedUrl, Urls, Metadata, contains, without_slash, is_plain, has_safe_scheme, check_url,
  validate_secure_url, bad_endpoint, bad_optional, check_issuers,
}

module _ (lib : Urls) where
  -- A URL with a host, with no credentials and no fragment, over HTTPS, or over HTTP on a loopback
  -- address where that is allowed.
  pub record IsSecure (local : Bool) (raw : Bytes) (url : ParsedUrl) : Type 0 where
    pub parsed : lib.parse raw ≡ some url
    pub host_given : is_empty url.host ≡ false
    pub no_user : url.has_user ≡ false
    pub no_fragment : is_empty url.fragment ≡ true
    pub transport :
        (url.scheme ≡ codes "https")
        ⊎ ((url.scheme ≡ codes "http") × (local ≡ true) × (lib.is_loopback url.hostname ≡ true))

  abbrev pub HasSecure : Bool → Bytes → Type 0
  HasSecure local raw = (url : ParsedUrl) × IsSecure local raw url

  -- Plain HTTP is allowed for an endpoint only if the issuer is a loopback address itself.
  pub record IsTrusted (requested : Bytes) (m : Metadata) : Type 0 where
    pub issuer_url : ParsedUrl
    pub own_url : ParsedUrl
    pub issuer : IsSecure true (without_slash requested) issuer_url
    pub own_issuer : IsSecure true (without_slash m.issuer) own_url
    pub same_issuer : own_url.text ≡ issuer_url.text
    pub authorization : HasSecure (lib.is_loopback issuer_url.hostname) m.authorization_endpoint
    pub token : HasSecure (lib.is_loopback issuer_url.hostname) m.token_endpoint
    pub userinfo :
        (is_empty m.userinfo_endpoint ≡ true)
        ⊎ HasSecure (lib.is_loopback issuer_url.hostname) m.userinfo_endpoint
    pub revocation :
        (is_empty m.revocation_endpoint ≡ true)
        ⊎ HasSecure (lib.is_loopback issuer_url.hostname) m.revocation_endpoint
    pub pkce : contains m.code_challenge_methods (codes "S256") ≡ true
    pub public_clients : contains m.token_auth_methods (codes "none") ≡ true

  safe_transport :
      (local : Bool) (u : ParsedUrl)
      → has_safe_scheme lib local u ≡ true
      → (u.scheme ≡ codes "https")
        ⊎ ((u.scheme ≡ codes "http") × (local ≡ true) × (lib.is_loopback u.hostname ≡ true))
  safe_transport local u h = elim (Bool-cases (bytes_eq u.scheme (codes "https"))) [
    | inl https ↦ inl ((bytes_eq_iff _ _).0 https)
    | inr plain ↦
        let http : bytes_eq u.scheme (codes "http") ≡ true = ground arith in
        inr ((bytes_eq_iff _ _).0 http, ground arith, ground arith)
  ]

  check_url-IsSecure :
      (local : Bool) (raw : Bytes) (o : Option ParsedUrl) (url : ParsedUrl)
      → lib.parse raw ≡ o
      → check_url lib local o ≡ some url
      → IsSecure local raw url
  check_url-IsSecure local raw none url e h = cc
  check_url-IsSecure local raw (some u) url e h =
      let plain : is_plain lib u ≡ true = ground arith in
      let safe : has_safe_scheme lib local u ≡ true = ground arith in
      subst (IsSecure local raw) (ground arith) (record {
        parsed = e;
        host_given = ground arith;
        no_user = ground arith;
        no_fragment = ground arith;
        transport = safe_transport local u safe;
      })

  accepted-IsSecure :
      (local : Bool) (raw : Bytes) → bad_endpoint lib local raw ≡ false → HasSecure local raw
  unfolding validate_secure_url
  accepted-IsSecure local raw h = elim (Option-cases (check_url lib local (lib.parse raw))) [
    | inl e ↦ absurd (refused_none (rw e at h))
    | inr (url, e) ↦ (url, check_url-IsSecure local raw (lib.parse raw) url refl e)
  ]
    where
      refused_none : true ≡ false → ⊥
      refused_none e = cc

  optional-IsSecure :
      (local : Bool) (raw : Bytes)
      → bad_optional lib local raw ≡ false
      → (is_empty raw ≡ true) ⊎ HasSecure local raw
  optional-IsSecure local raw h = elim (Bool-cases (is_empty raw)) [
    | inl left_out ↦ inl left_out
    | inr given ↦ inr (accepted-IsSecure local raw (ground arith))
  ]

  pub check_issuers-IsTrusted :
      (m : Metadata) (requested : Bytes) (o q : Option ParsedUrl)
      → validate_secure_url lib (without_slash requested) true ≡ o
      → validate_secure_url lib (without_slash m.issuer) true ≡ q
      → check_issuers lib m o q ≡ none
      → IsTrusted requested m
  unfolding validate_secure_url
  check_issuers-IsTrusted m requested none q e f h = cc
  check_issuers-IsTrusted m requested (some issuer) none e f h = cc
  check_issuers-IsTrusted m requested (some issuer) (some actual) e f h =
      let local = lib.is_loopback issuer.hostname in
      record {
        issuer_url = issuer;
        own_url = actual;
        issuer = check_url-IsSecure true (without_slash requested) _ issuer refl e;
        own_issuer = check_url-IsSecure true (without_slash m.issuer) _ actual refl f;
        same_issuer = (bytes_eq_iff _ _).0 (ground arith);
        authorization = accepted-IsSecure local m.authorization_endpoint (ground arith);
        token = accepted-IsSecure local m.token_endpoint (ground arith);
        userinfo = optional-IsSecure local m.userinfo_endpoint (ground arith);
        revocation = optional-IsSecure local m.revocation_endpoint (ground arith);
        pkce = ground arith;
        public_clients = ground arith;
      }
