-- ===== src/Capture/Uploader.antt =====
-- internal/dependencycapture/uploader.go: the queue of interactions, its writer and its reader.
pub mod Queue
pub mod Reader
pub mod Loop
use mockingo_agent.Base.{
  ℕ, ◌+◌, ◌*◌, ◌^◌, Bool, true, false, not, Option, none, some, List, [], ◌∷◌, ◌++◌, Bytes,
  bytes_eq, length, ltb, ℤ, pos, negsuc, if◌then◌else◌,
}
use mockingo_agent.Protocol.Message.{
  Message, DependencyInteraction, DependencyBehaviorSnapshot, version, type_ping,
  type_dependency_interaction, type_dependency_config,
}
use mockingo_agent.Protocol.Text.{Externals}
use mockingo_agent.Protocol.Validation.{validate}

-- The state that Enqueue and the writer share: the channel with its capacity, and the time of the
-- last warning, in nanoseconds since Go's zero time. Time does not go backwards.
pub record Uploader : Type 0 where
  pub capacity : ℕ
  pub queue : List DependencyInteraction
  pub last_drop_warning : ℕ

-- NewUploader, from config.QueueSize.
abbrev queue_capacity : ℤ → ℕ
queue_capacity (pos n) = if ltb 0 n then n else 100
queue_capacity (negsuc n) = 100

abbrev pub new_uploader : ℤ → Uploader
new_uploader queue_size = record {
  capacity = queue_capacity queue_size;
  queue = [];
  last_drop_warning = 0;
}

abbrev message_of : Bytes → Option DependencyInteraction → Message
message_of type dependency = record {
  version = version;
  type = type;
  request_id = [];
  method = [];
  path = [];
  headers = none;
  body_base64 = [];
  status = pos 0;
  error_code = [];
  error = [];
  dependency = dependency;
  dependency_config = none;
}

abbrev pub interaction_message : DependencyInteraction → Message
interaction_message event = message_of type_dependency_interaction (some event)

abbrev pub ping_message : Message
ping_message = message_of type_ping none

-- What others see of the uploader: a call of OnDrop at a time, a message that was written to the
-- socket, a call of OnSent.
pub data Effect : Type 0 where
  drop_reported : ℕ → Effect
  written : Message → Effect
  sent_reported : Effect

abbrev pub drop_interval : ℕ
drop_interval = 10 * 10 ^ 9

-- time.Since(u.lastDropWarning) < 10*time.Second, at the time `now`.
unfoldable pub dropped : ℕ → Uploader → Uploader × List Effect
dropped now u =
    if ltb now (u.last_drop_warning + drop_interval)
    then (u, [])
    else (record u { last_drop_warning = now }, drop_reported now ∷ [])

abbrev pub rejected : ℕ → Uploader → Uploader × Bool × List Effect
rejected now u = let (u', es) = dropped now u in (u', false, es)

-- The send to the channel, which does not block.
abbrev pub try_send : ℕ → Uploader → DependencyInteraction → Uploader × Bool × List Effect
try_send now u event =
    if ltb (length u.queue) u.capacity
    then (record u { queue = u.queue ++ (event ∷ []) }, true, [])
    else rejected now u

unfoldable pub enqueue :
    Externals → ℕ → Uploader → DependencyInteraction → Uploader × Bool × List Effect
enqueue ext now u event = elim (validate ext (interaction_message event)) [
  | some e ↦ rejected now u
  | none ↦ try_send now u event
]

-- What the writer's `select` finds, with the time and whether the write succeeds.
pub data Ready : Type 0 where
  context_done reader_failed : Ready
  event_ready ticked : ℕ → Bool → Ready

-- The rest of a round of the writer with the interaction that it took from the queue.
abbrev write_event : ℕ → Bool → Uploader → DependencyInteraction → Uploader × Bool × List Effect
write_event now true u event = (u, true, written (interaction_message event) ∷ sent_reported ∷ [])
write_event now false u event = rejected now u

abbrev pub take_event :
    ℕ → Bool → Uploader → List DependencyInteraction → Uploader × Bool × List Effect
take_event now success u [] = (u, true, [])
take_event now success u (event ∷ rest) = write_event now success (record u { queue = rest }) event

-- One round of the writer's loop: the new state, whether the loop goes on, and what was done. An
-- empty queue is never ready.
unfoldable pub write_step : Uploader → Ready → Uploader × Bool × List Effect
write_step u context_done = (u, false, [])
write_step u reader_failed = (u, false, [])
write_step u (ticked now success) =
    if success then (u, true, written ping_message ∷ []) else (u, false, [])
write_step u (event_ready now success) = take_event now success u u.queue

module _ {Store : Type 0} (ext : Externals) (endpoint_id : Bytes)
    (on_config : Option (Store → DependencyBehaviorSnapshot → Store × Bool)) where
  abbrev call_on_config :
      Option (Store → DependencyBehaviorSnapshot → Store × Bool)
      → Store
      → DependencyBehaviorSnapshot
      → Store × Bool
  call_on_config none store snapshot = (store, true)
  call_on_config (some f) store snapshot = f store snapshot

  abbrev take_config : Store → Option DependencyBehaviorSnapshot → Store × Bool
  take_config store none = (store, false)
  take_config store (some snapshot) =
      if bytes_eq snapshot.endpoint_id endpoint_id
      then call_on_config on_config store snapshot
      else (store, false)

  abbrev take_message : Store → Message → Store × Bool
  take_message store message = elim (validate ext message) [
    | some e ↦ (store, false)
    | none ↦
        if bytes_eq message.type type_dependency_config
        then take_config store message.dependency_config
        else (store, true)
  ]

  abbrev then_read : Store × Bool → (Store → Store × Bool) → Store × Bool
  then_read (store, true) rest = rest store
  then_read (store, false) rest = (store, false)

  -- The reader's goroutine on the messages of a connection, which ends when reading fails: the store
  -- that OnConfig fills, and whether the reader still runs.
  unfoldable pub read_messages : Store → List Message → Store × Bool
  read_messages store [] = (store, true)
  read_messages store (message ∷ messages) =
      then_read (take_message store message) (λ store'. read_messages store' messages)
