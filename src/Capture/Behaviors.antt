-- ===== src/Capture/Behaviors.antt =====
-- internal/dependencycapture/behaviors.go: the store of replay behaviors.
pub mod Keys
mod Lookup
pub mod History
use mockingo_agent.Base.{ℕ, Option, none, some, List, [], ◌∷◌, Bytes, to_lower, to_upper, length, ℤ}
use mockingo_agent.Base.Maps.{lookup, insert}
use mockingo_agent.Protocol.Message.{
  Message, DependencyBehavior, DependencyBehaviorSnapshot, ProtocolError, version,
  type_dependency_config,
}
use mockingo_agent.Protocol.Text.{Externals}
use mockingo_agent.Protocol.Validation.{validate, matcher_key, behavior_key}
use mockingo_agent.Capture.Target.{normalize_hostname}

pub record BehaviorConfig : Type 0 where
  pub endpoint_id : Bytes
  pub by_matcher : List (Bytes × DependencyBehavior)

-- The pointer that readers load and `replace` stores: one step each.
pub record BehaviorStore : Type 0 where
  pub current : Option BehaviorConfig

abbrev pub new_behavior_store : BehaviorStore
new_behavior_store = record { current = some (record { endpoint_id = []; by_matcher = [] }) }

-- The loop that fills the next table.
unfoldable pub index :
    List DependencyBehavior → List (Bytes × DependencyBehavior) → List (Bytes × DependencyBehavior)
index [] table = table
index (behavior ∷ behaviors) table = index behaviors (insert (behavior_key behavior) behavior table)

-- Ranging over a nil slice makes no round.
abbrev pub elements {ℓ} : {A : Type ℓ} → Option (List A) → List A
elements none = []
elements (some xs) = xs

abbrev pub config_message : DependencyBehaviorSnapshot → Message
config_message snapshot = record {
  version = version;
  type = type_dependency_config;
  request_id = [];
  method = [];
  path = [];
  headers = none;
  body_base64 = [];
  status = ℤ.pos 0;
  error_code = [];
  error = [];
  dependency = none;
  dependency_config = some snapshot;
}

unfoldable pub replace :
    Externals → BehaviorStore → DependencyBehaviorSnapshot → BehaviorStore × Option ProtocolError
replace ext s snapshot = elim (validate ext (config_message snapshot)) [
  | some e ↦ (s, some e)
  | none ↦ (
    record {
      current = some (record {
        endpoint_id = snapshot.endpoint_id;
        by_matcher = index (elements snapshot.behaviors) [];
      });
    },
    none,
  )
]

abbrev find_in : Bytes → Option BehaviorConfig → Option DependencyBehavior
find_in key none = none
find_in key (some config) = lookup key config.by_matcher

-- A nil store matches nothing.
unfoldable pub match_behavior :
    Option BehaviorStore → Bytes → Bytes → ℤ → Bytes → Bytes → Option DependencyBehavior
match_behavior none scheme host port method path = none
match_behavior (some s) scheme host port method path =
    find_in (matcher_key (to_lower scheme) (normalize_hostname host) port (to_upper method) path)
      s.current

abbrev size_of : Option BehaviorConfig → ℕ
size_of none = 0
size_of (some config) = length config.by_matcher

unfoldable pub count : Option BehaviorStore → ℕ
count none = 0
count (some s) = size_of s.current
