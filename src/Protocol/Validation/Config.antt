-- ===== src/Protocol/Validation/Config.antt =====
-- What `validateDependencyConfig` lets through: valid behaviors, no two with one key.
use mockingo_agent.Base.{
  ℕ, Bool, true, false, ◌||◌, Option, none, some, List, [], ◌∷◌, Bytes, some_of, bytes_eq,
  bytes_eq_iff, to_lower, to_upper, ℤ, pos, negsuc, lt_int, length, ltb, ◌≡◌, refl, arith, In, here,
  there, Bool-cases, or_false, inl, inr, subst,
}
use mockingo_agent.Protocol.Message.{DependencyBehavior, DependencyBehaviorSnapshot, ProtocolError}
use mockingo_agent.Protocol.Text.{
  Externals, valid_http_token, valid_dependency_host, valid_exact_dependency_path, validate_headers,
}
use mockingo_agent.Protocol.Validation.{
  fails, out_of_range, bad_scheme, bad_behavior, behavior_key, validate_behaviors,
  validate_dependency_config, check_behaviors,
}

-- The facts about one behavior that its lookup rests on.
pub record IsRoutable (ext : Externals) (b : DependencyBehavior) : Type 0 where
  pub scheme_known : bad_scheme b.scheme ≡ false
  pub host_valid : valid_dependency_host ext b.host ≡ true
  pub host_lower : b.host ≡ to_lower b.host
  pub port_pos : (n : ℕ) × (b.port ≡ pos n)
  pub method_token : valid_http_token b.method ≡ true
  pub method_upper : b.method ≡ to_upper b.method
  pub path_valid : valid_exact_dependency_path b.path ≡ true
  pub method_size : ltb 32 (length b.method) ≡ false
  pub status_range : out_of_range 100 599 b.status ≡ false
  pub headers_valid : fails (validate_headers b.headers) ≡ false

port_cases : (p : ℤ) → lt_int p (pos 1) ≡ false → (n : ℕ) × (p ≡ pos n)
port_cases (pos n) h = (n, refl)
port_cases (negsuc n) h = ground arith

bad_behavior-IsRoutable :
    (ext : Externals) (b : DependencyBehavior) → bad_behavior ext b ≡ false → IsRoutable ext b
bad_behavior-IsRoutable ext b h = record {
  scheme_known = ground arith;
  host_valid = ground arith;
  host_lower = (bytes_eq_iff _ _).0 (ground arith);
  port_pos = port_cases b.port (ground arith);
  method_token = ground arith;
  method_upper = (bytes_eq_iff _ _).0 (ground arith);
  path_valid = ground arith;
  method_size = ground arith;
  status_range = ground arith;
  headers_valid = ground arith;
}

-- Every behavior is valid, and no key was met before.
abbrev pub Accepted : Externals → List Bytes → List DependencyBehavior → Type 0
Accepted ext seen [] = Unit
Accepted ext seen (b ∷ bs) =
    IsRoutable ext b
    × (some_of (bytes_eq (behavior_key b)) seen ≡ false)
    × Accepted ext (behavior_key b ∷ seen) bs

validate_behaviors-Accepted :
    (ext : Externals) (seen : List Bytes) (bs : List DependencyBehavior)
    → validate_behaviors ext seen bs ≡ none
    → Accepted ext seen bs
unfolding validate_behaviors
validate_behaviors-Accepted ext seen [] h = tt
validate_behaviors-Accepted ext seen (b ∷ bs) h =
    elim (Bool-cases (bad_behavior ext b || some_of (bytes_eq (behavior_key b)) seen)) [
      | inl bad ↦ absurd (refused (subst Outcome bad h))
      | inr good ↦
          let (x, y) =
            or_false (bad_behavior ext b) (some_of (bytes_eq (behavior_key b)) seen) good in
          (
            bad_behavior-IsRoutable ext b x,
            y,
            validate_behaviors-Accepted ext (behavior_key b ∷ seen) bs (subst Outcome good h),
          )
    ]
  where
    Outcome : Bool → Type 0
    Outcome t =
        elim t [
          | true ↦ some ProtocolError.invalid_message
          | false ↦ validate_behaviors ext (behavior_key b ∷ seen) bs
        ]
        ≡ none

    refused : Outcome true → ⊥
    refused e = cc

check_behaviors-Accepted :
    (ext : Externals) (id : Bytes) (o : Option (List DependencyBehavior))
    → check_behaviors ext id o ≡ none
    → (bs : List DependencyBehavior) × (o ≡ some bs) × Accepted ext [] bs
check_behaviors-Accepted ext id none h = cc
check_behaviors-Accepted ext id (some bs) h =
    (bs, refl, validate_behaviors-Accepted ext [] bs (ground arith))

pub validate_dependency_config-Accepted :
    (ext : Externals) (value : DependencyBehaviorSnapshot)
    → validate_dependency_config ext value ≡ none
    → (bs : List DependencyBehavior) × (value.behaviors ≡ some bs) × Accepted ext [] bs
unfolding validate_dependency_config
validate_dependency_config-Accepted ext value h =
    check_behaviors-Accepted ext value.endpoint_id value.behaviors h

pub Accepted-In :
    (ext : Externals) {b : DependencyBehavior} (seen : List Bytes) {bs : List DependencyBehavior}
    → Accepted ext seen bs
    → In b bs
    → IsRoutable ext b
Accepted-In ext seen acc (here bs) = acc.0
Accepted-In ext seen acc (there x i) = Accepted-In ext (behavior_key x ∷ seen) acc.2 i
