-- ===== src/Oauth/Tokens/Granted.antt =====
-- What the tokens are that internal/oauth/oauth.go takes from a token endpoint.
use mockingo_agent.Base.{
  ℕ, ◌+◌, ◌-◌, ◌*◌, ◌^◌, ◌≤◌, ◌<◌, Bool, true, false, ◌&&◌, Option, none, some, List, [], ◌∷◌,
  Bytes, codes, is_empty, bytes_eq, bytes_eq_refl, some_of, all_of, to_lower, leb, ℤ, pos, negsuc,
  eq_int, if◌then◌else◌, ◌⊎◌, inl, inr, ◌≡◌, refl, arith, subst, Bool-cases, In, here, there,
}
use mockingo_agent.Oauth.Credentials.{is_bearer, is_incomplete}
use mockingo_agent.Oauth.Metadata.{contains}
use mockingo_agent.Oauth.Tokens.{
  RawTokenResponse, TokenResponse, TokenError, parse_scope, expires_at, token_response, with_scopes,
  with_expiry, parse_token_response, answered, token_request, offline_access, exchange_code,
  login_credentials,
}

-- For up to 9223372036 seconds, which are 292 years, the tokens expire that long after the time of
-- the request. From there to 18446744073 seconds the product wraps, and they expire 2^64 nanoseconds
-- too early, which is before the request.
pub expires_at-wraps :
    (now seconds : ℕ)
    → 2 ^ 63 ≤ now
    → seconds ≤ 18446744073
    → expires_at now seconds ≡ (
        if leb seconds 9223372036
        then pos (now + seconds * 1000000000)
        else pos (now + seconds * 1000000000 - 2 ^ 64))
unfolding expires_at
expires_at-wraps now seconds late few = ground arith

all_of-In :
    (p : Bytes → Bool) (xs : List Bytes) → ((x : Bytes) → In x xs → p x ≡ true) → all_of p xs ≡ true
unfolding all_of
all_of-In p [] h = refl
all_of-In p (x ∷ xs) h = rw (h x (here xs), all_of-In p xs (λ y i. h y (there x i))) refl

In-contains : (v : Bytes) {xs : List Bytes} → In v xs → contains xs v ≡ true
unfolding some_of
In-contains v (here xs) = rw (bytes_eq_refl v) refl
In-contains v (there x i) = let ih = In-contains v i in ground arith

contains_all : (xs : List Bytes) → all_of (contains xs) xs ≡ true
contains_all xs = all_of-In (contains xs) xs (λ x i. In-contains x i)

-- What a token response has to give.
pub record IsGranted (raw : RawTokenResponse) (now : ℕ) (requested : List Bytes)
    (require_refresh : Bool) (t : TokenResponse) : Type 0 where
  pub access_token : is_empty t.access_token ≡ false
  pub token_type : t.token_type ≡ codes "Bearer"
  pub refresh_token : (require_refresh && is_empty t.refresh_token) ≡ false
  pub scope : all_of (contains t.scope) requested ≡ true
  pub seconds : ℕ
  pub positive : 0 < seconds
  pub expires_in : raw.expires_in ≡ some (pos seconds)
  pub expires_at : t.expires_at ≡ expires_at now seconds

inr-equal : {a b : TokenResponse} → ◌≡◌ {A = TokenError ⊎ TokenResponse} (inr a) (inr b) → a ≡ b
inr-equal h = cc

inl-inr :
    {e : TokenError} {b : TokenResponse} → ◌≡◌ {A = TokenError ⊎ TokenResponse} (inl e) (inr b) → ⊥
inl-inr h = cc

module _ (raw : RawTokenResponse) (now : ℕ) (requested : List Bytes) (require_refresh : Bool)
    (t : TokenResponse) (token_given : is_empty raw.access_token ≡ false) where
  response-IsGranted :
      (scopes : List Bytes) (n : ℕ)
      → 0 < n
      → raw.expires_in ≡ some (pos n)
      → (require_refresh && is_empty raw.refresh_token) ≡ false
      → all_of (contains scopes) requested ≡ true
      → token_response raw scopes now n ≡ t
      → IsGranted raw now requested require_refresh t
  response-IsGranted scopes n p e r granted same =
      subst (IsGranted raw now requested require_refresh) same (record {
        access_token = token_given;
        token_type = refl;
        refresh_token = r;
        scope = granted;
        seconds = n;
        positive = p;
        expires_in = e;
        expires_at = refl;
      })

  with_scopes-IsGranted :
      (n : ℕ) (o : Option (List Bytes))
      → 0 < n
      → raw.expires_in ≡ some (pos n)
      → (require_refresh && is_empty raw.refresh_token) ≡ false
      → with_scopes raw now requested n o ≡ inr t
      → IsGranted raw now requested require_refresh t
  with_scopes-IsGranted n none p e r h = cc
  with_scopes-IsGranted n (some []) p e r h =
      response-IsGranted requested n p e r (contains_all requested) cc
  with_scopes-IsGranted n (some (s ∷ ss)) p e r h =
      elim (Bool-cases (all_of (contains (s ∷ ss)) requested)) [
        | inl granted ↦ response-IsGranted (s ∷ ss) n p e r granted (inr-equal (rw granted at h))
        | inr lacking ↦ absurd (inl-inr (rw lacking at h))
      ]

  with_expiry-IsGranted :
      (o : Option ℤ)
      → raw.expires_in ≡ o
      → with_expiry raw now requested require_refresh o ≡ inr t
      → IsGranted raw now requested require_refresh t
  with_expiry-IsGranted none e h = cc
  with_expiry-IsGranted (some (negsuc n)) e h = cc
  with_expiry-IsGranted (some (pos n)) e h =
      with_scopes-IsGranted n (parse_scope raw.scope) (ground arith) e (ground arith) (ground arith)

parse-IsGranted :
    (body : Option RawTokenResponse) (now : ℕ) (requested : List Bytes) (require_refresh : Bool)
    (t : TokenResponse)
    → parse_token_response body now requested require_refresh ≡ inr t
    → (raw : RawTokenResponse) × (body ≡ some raw) × IsGranted raw now requested require_refresh t
unfolding parse_token_response
parse-IsGranted none now requested require_refresh t h = cc
parse-IsGranted (some raw) now requested require_refresh t h =
    let given : is_empty raw.access_token ≡ false = ground arith in
    let rest : with_expiry raw now requested require_refresh raw.expires_in ≡ inr t =
      ground arith in
    (
      raw,
      refl,
      with_expiry-IsGranted raw now requested require_refresh t given raw.expires_in refl rest,
    )

bearer : is_bearer (codes "Bearer") ≡ true
unfolding to_lower bytes_eq
bearer = refl

expires_at-later :
    (now seconds : ℕ) → 2 ^ 63 < now → eq_int (expires_at now seconds) (pos 0) ≡ false
unfolding expires_at
expires_at-later now seconds late = ground arith

posted :
    (status : ℤ) (body : Option RawTokenResponse) (now : ℕ) (scopes : List Bytes)
    (require_refresh : Bool) (t : TokenResponse)
    → token_request (answered status body) now scopes require_refresh ≡ inr t
    → parse_token_response body now scopes require_refresh ≡ inr t
unfolding token_request
posted status body now scopes require_refresh t h = ground arith

complete :
    (t : TokenResponse) (user_id : Bytes) (now seconds : ℕ)
    → is_empty t.access_token ≡ false
    → t.token_type ≡ codes "Bearer"
    → is_empty t.refresh_token ≡ false
    → t.expires_at ≡ expires_at now seconds
    → 2 ^ 63 < now
    → is_incomplete (login_credentials t user_id) ≡ false
complete t user_id now seconds a b r x late =
    rw (a, r, b, bearer, x, expires_at-later now seconds late) refl

-- The tokens that a login gets with the scope offline_access, at a time after the year 293, come from
-- a response with a positive number of seconds, from which their expiry is computed; they have every
-- scope that was asked for; and the credentials that are made of them are complete, so that the store
-- reads them back.
pub exchange_code-Complete :
    (status : ℤ) (body : Option RawTokenResponse) (now : ℕ) (scopes : List Bytes)
    (t : TokenResponse) (user_id : Bytes)
    → 2 ^ 63 < now
    → contains scopes offline_access ≡ true
    → exchange_code (answered status body) now scopes ≡ inr t
    → (raw : RawTokenResponse) × (body ≡ some raw)
      × IsGranted raw now scopes true t
      × (is_incomplete (login_credentials t user_id) ≡ false)
exchange_code-Complete status body now scopes t user_id late offline h =
    let parsed : parse_token_response body now scopes true ≡ inr t =
      posted status body now scopes true t
        (subst (λ b. token_request (answered status body) now scopes b ≡ inr t) offline h) in
    let (raw, e, g) = parse-IsGranted body now scopes true t parsed in
    (
      raw,
      e,
      g,
      complete t user_id now g.seconds g.access_token g.token_type g.refresh_token g.expires_at
          late,
    )
