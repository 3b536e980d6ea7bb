-- ===== src/Capture/Uploader/Reader.antt =====
-- The reader of internal/dependencycapture/uploader.go with the store of replay behaviors.
use mockingo_agent.Base.{
  Bool, true, false, not, Option, none, some, List, [], ◌∷◌, Bytes, bytes_eq, bytes_eq_iff, ◌≡◌,
  refl, inl, inr, ◌⊎◌, Bool-cases, Option-cases,
}
use mockingo_agent.Protocol.Message.{Message, DependencyBehaviorSnapshot, type_dependency_config}
use mockingo_agent.Protocol.Text.{Externals}
use mockingo_agent.Protocol.Validation.{validate, fails}
use mockingo_agent.Capture.Behaviors.{BehaviorStore, BehaviorConfig, replace, config_message}
use mockingo_agent.Capture.Uploader.{read_messages, take_message, take_config, then_read}

module _ {Store : Type 0} (ext : Externals) (endpoint_id : Bytes)
    (on_config : Store → DependencyBehaviorSnapshot → Store × Bool) (P : Store → Type 0)
    (keeps : (s : Store) (snapshot : DependencyBehaviorSnapshot)
      → snapshot.endpoint_id ≡ endpoint_id
      → P s
      → P (on_config s snapshot).0) where
  take_config-keeps :
      (s : Store) (o : Option DependencyBehaviorSnapshot)
      → P s
      → P (take_config ext endpoint_id (some on_config) s o).0
  take_config-keeps s none p = p
  take_config-keeps s (some snapshot) p =
      elim (Bool-cases (bytes_eq snapshot.endpoint_id endpoint_id)) [
        | inl same ↦ rw same (keeps s snapshot ((bytes_eq_iff _ _).0 same) p)
        | inr other ↦ rw other p
      ]

  take_message-keeps :
      (s : Store) (m : Message) → P s → P (take_message ext endpoint_id (some on_config) s m).0
  take_message-keeps s m p = elim (Option-cases (validate ext m)) [
    | inr (e, bad) ↦ rw (take_message, bad) p
    | inl fine ↦ elim (Bool-cases (bytes_eq m.type type_dependency_config)) [
      | inl config ↦ rw (take_message, fine, config) (take_config-keeps s m.dependency_config p)
      | inr other ↦ rw (take_message, fine, other) p
    ]
  ]

  then_read-keeps :
      (r : Store × Bool) (rest : Store → Store × Bool)
      → P r.0
      → ((s : Store) → P s → P (rest s).0)
      → P (then_read ext endpoint_id (some on_config) r rest).0
  then_read-keeps (s, true) rest p q = q s p
  then_read-keeps (s, false) rest p q = p

  -- What every call of OnConfig for the own endpoint keeps, a reader keeps.
  read_messages-keeps :
      (messages : List Message) (s : Store)
      → P s
      → P (read_messages ext endpoint_id (some on_config) s messages).0
  unfolding read_messages
  read_messages-keeps [] s p = p
  read_messages-keeps (m ∷ messages) s p =
      then_read-keeps (take_message ext endpoint_id (some on_config) s m) _
        (take_message-keeps s m p) (read_messages-keeps messages)

-- behaviors.Replace as OnConfig: the store, and whether there was no error.
abbrev pub replace_config :
    Externals → BehaviorStore → DependencyBehaviorSnapshot → BehaviorStore × Bool
replace_config ext s snapshot = let (s', e) = replace ext s snapshot in (s', not (fails e))

-- The store is as it was, or has a configuration of the endpoint.
abbrev pub Configured : Bytes → BehaviorStore → BehaviorStore → Type 0
Configured endpoint_id before s =
    (s ≡ before)
    ⊎ ((config : BehaviorConfig) × (s.current ≡ some config) × (config.endpoint_id ≡ endpoint_id))

replace-Configured :
    (ext : Externals) (endpoint_id : Bytes) (before s : BehaviorStore)
    (snapshot : DependencyBehaviorSnapshot)
    → snapshot.endpoint_id ≡ endpoint_id
    → Configured endpoint_id before s
    → Configured endpoint_id before (replace_config ext s snapshot).0
unfolding replace
replace-Configured ext endpoint_id before s snapshot e c =
    elim (Option-cases (validate ext (config_message snapshot))) [
      | inl fine ↦ rw (replace, fine) (inr (_, refl, e))
      | inr (err, bad) ↦ rw (replace, bad) c
    ]

-- Whatever messages the gateway sends on a connection, the store of replay behaviors stays as it was
-- before the connection, or holds a configuration for the endpoint of the session.
pub read_messages-Configured :
    (ext : Externals) (endpoint_id : Bytes) (messages : List Message) (s : BehaviorStore)
    → Configured endpoint_id s
        (read_messages ext endpoint_id (some (replace_config ext)) s messages).0
read_messages-Configured ext endpoint_id messages s =
    read_messages-keeps ext endpoint_id (replace_config ext) (Configured endpoint_id s)
      (replace-Configured ext endpoint_id s) messages s (inl refl)
