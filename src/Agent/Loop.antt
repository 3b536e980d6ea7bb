-- ===== src/Agent/Loop.antt =====
-- internal/agent/agent.go: runTicket, the connection loop, one round at a time.
mod Unroll
pub mod Tickets
pub mod Delays
pub mod Doubled
pub mod Verdicts
use mockingo_agent.Base.{
  ℕ, Bool, true, false, ◌||◌, ◌&&◌, not, Option, none, some, List, [], ◌∷◌, ◌++◌, Bytes, ℤ, pos,
  if◌then◌else◌,
}
use mockingo_agent.Agent.Gateway.{
  GatewayError, Response, ConnectionError, decode_gateway_error, retryable_gateway_error,
  endpoint_virtualized_disconnect,
}
use mockingo_agent.Agent.Backoff.{initial_delay, max_delay, next_delay_max, backoff_wait}

pub record Session : Type 0 where
  pub endpoint_id : Bytes
  pub endpoint_name : Bytes
  pub session_id : Bytes
  pub connect_url : Bytes
  pub ticket : Bytes
  pub public_url : Bytes

-- `Error` is Go's type of errors; of those of the session provider the loop knows what `Retryable`
-- and `TemporaryConflict` say.
pub record Config (Error : Type 0) : Type 0 where
  pub retryable : Option (Error → Bool)
  pub temporary_conflict : Option (Error → Bool)
  pub has_on_state : Bool
  pub initial_session : Option Session
  pub reconnect_enabled : Bool
  pub reconnect_initial_delay : ℤ
  pub reconnect_max_delay : ℤ

pub data Acquired (Error : Type 0) : Type 0 where
  granted : Session → Acquired Error
  refused : Error → Acquired Error

pub data Dialled (Error : Type 0) : Type 0 where
  connected : Dialled Error
  failed : Option Response → Error → Dialled Error

-- What the surroundings answer in one round: whether the context is cancelled at each place where
-- the loop asks, the results of the calls that it makes, and the answers of rand.Int63n.
pub record Round (Error : Type 0) : Type 0 where
  pub cancelled : Bool
  pub acquired : Acquired Error
  pub cancelled_acquire : Bool
  pub dialled : Dialled Error
  pub cancelled_dial : Bool
  pub ended : ConnectionError
  pub cancelled_serve : Bool
  pub cancelled_wait : Bool
  pub random : ℤ → ℤ

pub record State : Type 0 where
  pub delay : ℤ
  pub connected_once : Bool
  pub first : Bool
  pub pending_message_shown : Bool
  pub next : Option Session

pub data Notice : Type 0 where
  previous_closing control_plane_unavailable reconnected_tunnel connected_tunnel : Notice
  virtualized : Bytes → Notice
  connection_lost : Notice

-- What the loop does that others see.
pub data Effect : Type 0 where
  acquire : Effect
  grant dial : Bytes → Effect
  notice : Notice → Effect
  wait : ℤ → Effect

pub data Verdict (Error : Type 0) : Type 0 where
  stopped : Verdict Error
  acquire_failed : Error → Verdict Error
  gateway_rejected : GatewayError → Verdict Error
  dial_failed : Error → Verdict Error
  disconnected : ConnectionError → Verdict Error

-- `a.config.InitialSession.Ticket = ""`, once the loop has its copy.
abbrev pub without_ticket : Option Session → Option Session
without_ticket none = none
without_ticket (some s) = some (record s { ticket = [] })

module _ {Error : Type 0} (config : Config Error) where
  -- The state after a step, the result if the loop has returned, and what was done.
  abbrev pub Outcome : Type 0
  Outcome = State × Option (Verdict Error) × List Effect

  abbrev pub first_delay : ℤ
  first_delay = initial_delay config.reconnect_initial_delay

  abbrev pub longest_delay : ℤ
  longest_delay = max_delay first_delay config.reconnect_max_delay

  abbrev pub is_retryable : Error → Bool
  is_retryable e = elim config.retryable [ none ↦ false | some f ↦ f e ]

  abbrev is_conflict : Error → Bool
  is_conflict e = elim config.temporary_conflict [ none ↦ false | some f ↦ f e ]

  abbrev tell : Notice → List Effect
  tell n = if config.has_on_state then notice n ∷ [] else []

  -- waitBackoff, then the next delay; a cancelled wait ends the loop.
  abbrev back_off : State → Round Error → List Effect → Outcome
  back_off s r done =
      if r.cancelled_wait
      then (s, some stopped, done ++ (wait (backoff_wait r.random s.delay) ∷ []))
      else (
        record s { delay = next_delay_max s.delay longest_delay },
        none,
        done ++ (wait (backoff_wait r.random s.delay) ∷ []),
      )

  -- AcquireSession has returned an error.
  abbrev after_refusal : State → Round Error → Error → Outcome
  after_refusal s r e =
      if r.cancelled_acquire
      then (s, some stopped, acquire ∷ [])
      else if not (is_retryable e)
      then (s, some (acquire_failed e), acquire ∷ [])
      else if not config.reconnect_enabled && not s.first
      then (s, some (acquire_failed e), acquire ∷ [])
      else if not s.pending_message_shown && config.has_on_state
      then back_off (record s { first = false; pending_message_shown = true }) r
          (acquire
            ∷ notice (if is_conflict e then previous_closing else control_plane_unavailable)
            ∷ [])
      else back_off (record s { first = false }) r (acquire ∷ [])

  -- The dialer has returned an error.
  abbrev after_dial_error :
      State → Round Error → Option GatewayError → Error → List Effect → Outcome
  after_dial_error s r none e done =
      if r.cancelled_dial
      then (s, some stopped, done)
      else if not config.reconnect_enabled
      then (s, some (dial_failed e), done)
      else back_off s r done
  after_dial_error s r (some gateway) e done =
      if r.cancelled_dial
      then (s, some stopped, done)
      else if not (retryable_gateway_error (some gateway))
      then (s, some (gateway_rejected gateway), done)
      else if not config.reconnect_enabled
      then (s, some (gateway_rejected gateway), done)
      else back_off s r done

  -- serveConnection has returned: it returns an error only.
  abbrev after_serve : State → Round Error → Session → List Effect → Outcome
  after_serve s r session done =
      if r.cancelled_serve
      then (s, some stopped, done)
      else if endpoint_virtualized_disconnect r.ended
      then (s, some stopped, done ++ tell (virtualized session.endpoint_name))
      else if not config.reconnect_enabled
      then (s, some (disconnected r.ended), done)
      else back_off s r (done ++ tell connection_lost)

  abbrev after_connect : State → Round Error → Session → List Effect → Outcome
  after_connect s r session done =
      after_serve (record s { delay = first_delay; connected_once = true }) r session
        (done ++ tell (if s.connected_once then reconnected_tunnel else connected_tunnel))

  -- The round from the point where it has a session.
  abbrev with_session : State → Round Error → Session → List Effect → Outcome
  with_session s r session done = elim r.dialled [
    | connected ↦
        after_connect (record s { first = false; pending_message_shown = false }) r session
          (done ++ (dial session.ticket ∷ []))
    | failed response e ↦
        after_dial_error (record s { first = false; pending_message_shown = false }) r
          (decode_gateway_error response) e (done ++ (dial session.ticket ∷ []))
  ]

  abbrev after_acquire : State → Round Error → Acquired Error → Outcome
  after_acquire s r (granted session) =
      with_session s r session (acquire ∷ grant session.ticket ∷ [])
  after_acquire s r (refused e) = after_refusal s r e

  abbrev choose_session : State → Round Error → Option Session → Outcome
  choose_session s r (some session) = with_session (record s { next = none }) r session []
  choose_session s r none = after_acquire s r r.acquired

  -- One round of the loop.
  unfoldable pub step : State → Round Error → Outcome
  step s r = if r.cancelled then (s, some stopped, []) else choose_session s r s.next

  -- The variables before the loop.
  abbrev pub start : State
  start = record {
    delay = first_delay;
    connected_once = false;
    first = true;
    pending_message_shown = false;
    next = config.initial_session;
  }

  abbrev pub then_run : Outcome → (State → Outcome) → Outcome
  then_run (s, some v, done) rest = (s, some v, done)
  then_run (s, none, done) rest = let (s', v, more) = rest s in (s', v, done ++ more)

  -- The loop over the answers of the surroundings, for as long as there are any.
  unfoldable pub run : State → List (Round Error) → Outcome
  run s [] = (s, none, [])
  run s (r ∷ rs) = then_run (step s r) (λ s'. run s' rs)
