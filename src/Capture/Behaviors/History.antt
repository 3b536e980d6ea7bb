-- ===== src/Capture/Behaviors/History.antt =====
-- The store of internal/dependencycapture/behaviors.go through a history of snapshots.
use mockingo_agent.Base.{
  ℕ, Option, none, some, List, [], ◌∷◌, Bytes, length, find, bytes_eq, to_lower, to_upper, pos, ◌≡◌,
  refl, arith, inl, inr, ap, sym, ◌∙◌, subst, In, Option-cases,
}
use mockingo_agent.Base.Maps.{lookup}
use mockingo_agent.Protocol.Message.{DependencyBehavior, DependencyBehaviorSnapshot, ProtocolError}
use mockingo_agent.Protocol.Text.{Externals}
use mockingo_agent.Protocol.Text.Accepted.{IpLaws}
use mockingo_agent.Protocol.Validation.{validate, behavior_key}
use mockingo_agent.Protocol.Validation.Config.{
  Accepted, Accepted-In, validate_dependency_config-Accepted,
}
use mockingo_agent.Capture.Target.{normalize_hostname}
use mockingo_agent.Capture.Behaviors.{
  BehaviorStore, new_behavior_store, index, elements, config_message, replace, match_behavior,
  count,
}
use mockingo_agent.Capture.Behaviors.Keys.{
  Target, IsZeroFree, target_key, normalize_hostname-stored, to_lower-stored,
}
use mockingo_agent.Capture.Behaviors.Lookup.{
  matches, or_else, lookup-index, length-index, find-In, find-matches,
}

-- A request as `Match` reads it.
abbrev pub request_target : Bytes → Bytes → ℕ → Bytes → Bytes → Target
request_target scheme host port method path = record {
  scheme = to_lower scheme;
  host = normalize_hostname host;
  port = port;
  method = to_upper method;
  path = path;
}

pub Accepted-behaviors :
    (ext : Externals) (snapshot : DependencyBehaviorSnapshot)
    → validate ext (config_message snapshot) ≡ none
    → Accepted ext [] (elements snapshot.behaviors)
unfolding validate bytes_eq
Accepted-behaviors ext snapshot h =
    let (bs, e, acc) = validate_dependency_config-Accepted ext snapshot (ground arith) in
    subst (λ o. Accepted ext [] (elements o)) (sym e) acc

or_else-none : (o : Option DependencyBehavior) → or_else o none ≡ o
or_else-none none = refl
or_else-none (some b) = refl

abbrev filled : DependencyBehaviorSnapshot → BehaviorStore
filled snapshot = record {
  current = some (record {
    endpoint_id = snapshot.endpoint_id;
    by_matcher = index (elements snapshot.behaviors) [];
  });
}

replace-accepted :
    (ext : Externals) (s : BehaviorStore) (snapshot : DependencyBehaviorSnapshot)
    → validate ext (config_message snapshot) ≡ none
    → (replace ext s snapshot).0 ≡ filled snapshot
unfolding replace index
replace-accepted ext s snapshot h = rw (replace, h)

replace-rejected :
    (ext : Externals) (s : BehaviorStore) (snapshot : DependencyBehaviorSnapshot)
    (e : ProtocolError)
    → validate ext (config_message snapshot) ≡ some e
    → (replace ext s snapshot).0 ≡ s
unfolding replace
replace-rejected ext s snapshot e h = rw (replace, h)

-- What `Match` is meant to answer when the snapshot is the one in force; `before` is the answer
-- when there is none.
abbrev pub served :
    Target
    → Option DependencyBehavior
    → Option DependencyBehaviorSnapshot
    → Option DependencyBehavior
served t before none = before
served t before (some snapshot) = find (matches t) (elements snapshot.behaviors)

abbrev in_force :
    DependencyBehaviorSnapshot
    → Option ProtocolError
    → Option DependencyBehaviorSnapshot
    → Option DependencyBehaviorSnapshot
in_force snapshot e (some later) = some later
in_force snapshot none none = some snapshot
in_force snapshot (some e) none = none

-- The store after a history of snapshots, and the last of them that `Validate` accepts.
abbrev pub replace_all : Externals → BehaviorStore → List DependencyBehaviorSnapshot → BehaviorStore
replace_all ext s [] = s
replace_all ext s (snapshot ∷ rest) = replace_all ext (replace ext s snapshot).0 rest

abbrev pub last_accepted :
    Externals → List DependencyBehaviorSnapshot → Option DependencyBehaviorSnapshot
last_accepted ext [] = none
last_accepted ext (snapshot ∷ rest) =
    in_force snapshot (validate ext (config_message snapshot)) (last_accepted ext rest)

module _ (ext : Externals) (laws : IpLaws ext) (scheme host method path : Bytes) (port : ℕ) where
  abbrev asked : BehaviorStore → Option DependencyBehavior
  asked s = match_behavior (some s) scheme host (pos port) method path

  abbrev wanted : Target
  wanted = request_target scheme host port method path

  filled-match :
      (snapshot : DependencyBehaviorSnapshot)
      → IsZeroFree wanted
      → validate ext (config_message snapshot) ≡ none
      → asked (filled snapshot) ≡ find (matches wanted) (elements snapshot.behaviors)
  unfolding match_behavior lookup
  filled-match snapshot free h =
      let acc = Accepted-behaviors ext snapshot h in
      lookup-index ext (target_key wanted) [] (elements snapshot.behaviors) [] acc
      ∙ or_else-none _
      ∙ find-matches ext laws wanted free [] (elements snapshot.behaviors) acc

  history-match :
      (s : BehaviorStore) (snapshots : List DependencyBehaviorSnapshot)
      → IsZeroFree wanted
      → asked (replace_all ext s snapshots) ≡ served wanted (asked s) (last_accepted ext snapshots)
  history-match s [] free = refl
  history-match s (x ∷ rest) free =
      let ih = history-match (replace ext s x).0 rest free in
      elim (Option-cases (last_accepted ext rest)) [
        | inr (later, e) ↦ rw e (rw e at ih)
        | inl e ↦ elim (Option-cases (validate ext (config_message x))) [
          | inl ok ↦
              rw (e, ok)
                ((rw e at ih) ∙ ap asked (replace-accepted ext s x ok) ∙ filled-match x free ok)
          | inr (err, bad) ↦
              rw (e, bad) ((rw e at ih) ∙ ap asked (replace-rejected ext s x err bad))
        ]
      ]

-- Whatever snapshots a new store is sent, valid or not, a lookup by scheme, host, port, method and
-- path answers with the behavior that the last valid snapshot has for exactly these five, and with
-- nothing if no snapshot was valid. The request's scheme, host and method have no zero byte.
pub match-replace_all :
    (ext : Externals) (laws : IpLaws ext) (snapshots : List DependencyBehaviorSnapshot)
    (scheme host method path : Bytes) (port : ℕ)
    → IsZeroFree (request_target scheme host port method path)
    → match_behavior
        (some (replace_all ext new_behavior_store snapshots))
        scheme
        host
        (pos port)
        method
        path
      ≡ served (request_target scheme host port method path) none (last_accepted ext snapshots)
match-replace_all ext laws snapshots scheme host method path port free =
    history-match ext laws scheme host method path port new_behavior_store snapshots free
    ∙ ap (λ o. served (request_target scheme host port method path) o (last_accepted ext snapshots))
        empty
  where
    empty : match_behavior (some new_behavior_store) scheme host (pos port) method path ≡ none
    empty = unfold match_behavior lookup in refl

module _ (ext : Externals) (s : BehaviorStore) (snapshot : DependencyBehaviorSnapshot)
    (accepted : validate ext (config_message snapshot) ≡ none) where
  -- A store that has taken a valid snapshot holds as many behaviors as the snapshot lists.
  pub count-replace : count (some (replace ext s snapshot).0) ≡ length (elements snapshot.behaviors)
  unfolding count
  count-replace = rw (replace-accepted ext s snapshot accepted) (
      omega (
        arith,
        length-index ext [] (elements snapshot.behaviors) [] (λ k h. unfold lookup in refl)
            (Accepted-behaviors ext snapshot accepted),
      ))

  -- A store that has taken a valid snapshot answers a request for any behavior of the snapshot, by
  -- the behavior's own scheme, host, port, method and path, with that behavior.
  pub match-replace :
      (laws : IpLaws ext) (b : DependencyBehavior)
      → In b (elements snapshot.behaviors)
      → match_behavior (some (replace ext s snapshot).0) b.scheme b.host b.port b.method b.path
        ≡ some b
  unfolding match_behavior lookup
  match-replace laws b i =
      let acc = Accepted-behaviors ext snapshot accepted in
      let r = Accepted-In ext [] acc i in
      rw
        (
          replace-accepted ext s snapshot accepted,
          to_lower-stored ext laws b r,
          normalize_hostname-stored ext laws b r,
          ← r.method_upper,
        )
        (lookup-index ext (behavior_key b) [] (elements snapshot.behaviors) [] acc
          ∙ rw (find-In ext b [] acc i))
