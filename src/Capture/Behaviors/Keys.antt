-- ===== src/Capture/Behaviors/Keys.antt =====
-- `matcherKey` of internal/dependencycapture/behaviors.go: the zero bytes keep the parts apart.
use mockingo_agent.Base.{
  ℕ, Bool, true, false, [], ◌∷◌, ◌++◌, Bytes, codes, has, Without, bytes_eq, bytes_eq_iff, pos, ◌≡◌,
  refl, arith, or_false, ap₂, sym, ◌∙◌, some_of, to_lower, trim-none, trim_suffix-none, inl, inr,
  Bool-cases, some_of-weaken, has-some_of, ◌⊎◌, ◌==◌,
}
use mockingo_agent.Base.Decimal.{itoa, itoa-pos-injective, itoa-Without-zero}
use mockingo_agent.Protocol.Message.{DependencyBehavior}
use mockingo_agent.Protocol.Text.{Externals}
use mockingo_agent.Protocol.Text.Accepted.{
  IpLaws, is_marker, valid_http_token-Without, valid_dependency_host-bytes,
  valid_dependency_host-end,
}
use mockingo_agent.Protocol.Validation.{matcher_key, bad_scheme}
use mockingo_agent.Protocol.Validation.Config.{IsRoutable}
use mockingo_agent.Capture.Target.{normalize_hostname, is_bracket}

-- Two texts that end at their first zero byte.
cut-injective :
    (a b s t : Bytes) → Without 0 a → Without 0 b → a ++ (0 ∷ s) ≡ b ++ (0 ∷ t) → (a ≡ b) × (s ≡ t)
unfolding has
cut-injective [] [] s t ha hb e = (refl, cc)
cut-injective [] (y ∷ b) s t ha hb e = ground arith
cut-injective (x ∷ a) [] s t ha hb e = ground arith
cut-injective (x ∷ a) (y ∷ b) s t ha hb e =
    let rest : a ++ (0 ∷ s) ≡ b ++ (0 ∷ t) = cc in
    let first : x ≡ y = cc in
    let (p, q) = cut-injective a b s t ((or_false _ _ ha).1) ((or_false _ _ hb).1) rest in
    (ap₂ (λ (c : ℕ) (l : Bytes). c ∷ l) first p, q)

-- The parts of a request that the store compares.
pub record Target : Type 0 where
  pub scheme : Bytes
  pub host : Bytes
  pub port : ℕ
  pub method : Bytes
  pub path : Bytes

pub record IsZeroFree (t : Target) : Type 0 where
  pub scheme : Without 0 t.scheme
  pub host : Without 0 t.host
  pub method : Without 0 t.method

abbrev pub target_key : Target → Bytes
target_key t = matcher_key t.scheme t.host (pos t.port) t.method t.path

pub target_key-injective :
    (s t : Target) → IsZeroFree s → IsZeroFree t → target_key s ≡ target_key t → s ≡ t
unfolding matcher_key
target_key-injective s t hs ht e =
    let (p1, e1) = cut-injective s.scheme t.scheme _ _ hs.scheme ht.scheme e in
    let (p2, e2) = cut-injective s.host t.host _ _ hs.host ht.host e1 in
    let (p3, e3) =
      cut-injective (itoa (pos s.port)) (itoa (pos t.port)) _ _ (itoa-Without-zero (pos s.port))
        (itoa-Without-zero (pos t.port)) e2 in
    let (p4, p5) = cut-injective s.method t.method _ _ hs.method ht.method e3 in
    let p6 = itoa-pos-injective s.port t.port p3 in
    λ i. record { scheme = p1 i; host = p2 i; port = p6 i; method = p4 i; path = p5 i }

-- What a stored behavior is matched by.
abbrev pub target_of : DependencyBehavior → ℕ → Target
target_of b n = record {
  scheme = b.scheme;
  host = b.host;
  port = n;
  method = b.method;
  path = b.path;
}

known_scheme : (s : Bytes) → bad_scheme s ≡ false → (s ≡ codes "http") ⊎ (s ≡ codes "https")
known_scheme s h = elim (Bool-cases (bytes_eq s (codes "http"))) [
  | inl a ↦ inl ((bytes_eq_iff _ _).0 a)
  | inr a ↦ inr ((bytes_eq_iff _ _).0 (ground arith))
]

known_scheme-Without : (s : Bytes) → bad_scheme s ≡ false → Without 0 s
unfolding has
known_scheme-Without s h = elim (known_scheme s h) [ inl e ↦ rw e | inr e ↦ rw e ]

known_scheme-lower : (s : Bytes) → bad_scheme s ≡ false → to_lower s ≡ s
unfolding to_lower
known_scheme-lower s h = elim (known_scheme s h) [ inl e ↦ rw e | inr e ↦ rw e ]

module _ (ext : Externals) (laws : IpLaws ext) (b : DependencyBehavior) (r : IsRoutable ext b) where
  host_plain :
      (p : ℕ → Bool) → ((c : ℕ) → p c ≡ true → is_marker c ≡ true) → some_of p b.host ≡ false
  host_plain p sub =
      some_of-weaken p is_marker sub b.host
        (valid_dependency_host-bytes ext laws b.host r.host_valid)

  pub target_of-IsZeroFree : (n : ℕ) → IsZeroFree (target_of b n)
  target_of-IsZeroFree n = record {
    scheme = known_scheme-Without b.scheme r.scheme_known;
    host = has-some_of 0 b.host ∙ host_plain (λ c. c == 0) (λ c e. ground arith);
    method = valid_http_token-Without b.method r.method_token;
  }

  -- Normalizing the parts of a stored behavior leaves them as they are.
  pub normalize_hostname-stored : normalize_hostname b.host ≡ b.host
  unfolding normalize_hostname
  normalize_hostname-stored =
      rw
        (
          trim-none is_bracket b.host (host_plain is_bracket (λ c e. ground arith)),
          trim_suffix-none b'.' b.host (valid_dependency_host-end ext laws b.host r.host_valid),
        )
        (sym r.host_lower)

  pub to_lower-stored : to_lower b.scheme ≡ b.scheme
  to_lower-stored = known_scheme-lower b.scheme r.scheme_known
