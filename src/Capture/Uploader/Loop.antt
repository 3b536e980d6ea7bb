-- ===== src/Capture/Uploader/Loop.antt =====
-- internal/dependencycapture/uploader.go: Run, the connection loop of the uploader.
pub mod Tickets
use mockingo_agent.Base.{
  ℕ, Bool, true, false, ◌||◌, ◌&&◌, not, Option, none, some, List, [], ◌∷◌, ◌++◌, Bytes, ℤ, pos,
  lt_int, eq_int, if◌then◌else◌,
}
use mockingo_agent.Base.Rounds.{Outcome}
use mockingo_agent.Agent.Backoff.{initial_delay, max_delay, next_delay_max, backoff_wait}

pub record CaptureSession : Type 0 where
  pub endpoint_id : Bytes
  pub endpoint_name : Bytes
  pub session_id : Bytes
  pub connect_url : Bytes
  pub ticket : Bytes

-- Of the session provider's errors the loop knows what `Retryable` says.
pub record UploaderConfig (Error : Type 0) : Type 0 where
  pub retryable : Option (Error → Bool)
  pub has_on_state : Bool
  pub initial_session : Option CaptureSession
  pub reconnect_initial_delay : ℤ
  pub reconnect_max_delay : ℤ

pub data Acquired (Error : Type 0) : Type 0 where
  granted : CaptureSession → Acquired Error
  refused : Error → Acquired Error

-- A dial that fails may have a response, with its status.
pub data Dialled : Type 0 where
  connected : Dialled
  failed : Option ℤ → Dialled

-- What the surroundings answer in one round.
pub record Answer (Error : Type 0) : Type 0 where
  pub cancelled : Bool
  pub acquired : Acquired Error
  pub cancelled_acquire : Bool
  pub dialled : Dialled
  pub cancelled_dial : Bool
  pub cancelled_serve : Bool
  pub cancelled_wait : Bool
  pub random : ℤ → ℤ

pub record LoopState : Type 0 where
  pub delay : ℤ
  pub connected_once : Bool
  pub next : Option CaptureSession

pub data Notice : Type 0 where
  capture_connected capture_reconnected capture_lost : Notice

pub data LoopEffect : Type 0 where
  acquire : LoopEffect
  grant dial : Bytes → LoopEffect
  notice : Notice → LoopEffect
  wait : ℤ → LoopEffect

pub data LoopVerdict (Error : Type 0) : Type 0 where
  stopped : LoopVerdict Error
  acquire_failed : Error → LoopVerdict Error
  capture_rejected : ℤ → LoopVerdict Error

-- A status from 400 to 499 other than 401 and 409.
unfoldable pub rejects_capture : Option ℤ → Bool
rejects_capture none = false
rejects_capture (some status) =
    not (lt_int status (pos 400))
    && lt_int status (pos 500)
    && not (eq_int status (pos 401))
    && not (eq_int status (pos 409))

abbrev status_of : Option ℤ → ℤ
status_of none = pos 0
status_of (some status) = status

module _ {Error : Type 0} (config : UploaderConfig Error) where
  abbrev pub LoopOutcome : Type 0
  LoopOutcome = Outcome LoopState (LoopVerdict Error) LoopEffect

  abbrev pub first_capture_delay : ℤ
  first_capture_delay = initial_delay config.reconnect_initial_delay

  abbrev longest_capture_delay : ℤ
  longest_capture_delay = max_delay first_capture_delay config.reconnect_max_delay

  abbrev pub may_retry : Error → Bool
  may_retry e = elim config.retryable [ none ↦ false | some f ↦ f e ]

  abbrev tell : Notice → List LoopEffect
  tell n = if config.has_on_state then notice n ∷ [] else []

  -- waitCaptureBackoff and nextCaptureDelay; a cancelled wait ends the loop.
  abbrev wait_capture_backoff : LoopState → Answer Error → List LoopEffect → LoopOutcome
  wait_capture_backoff s a done =
      if a.cancelled_wait
      then (s, some stopped, done ++ (wait (backoff_wait a.random s.delay) ∷ []))
      else (
        record s { delay = next_delay_max s.delay longest_capture_delay },
        none,
        done ++ (wait (backoff_wait a.random s.delay) ∷ []),
      )

  abbrev after_capture_refusal : LoopState → Answer Error → Error → LoopOutcome
  after_capture_refusal s a e =
      if a.cancelled_acquire
      then (s, some stopped, acquire ∷ [])
      else if not (may_retry e)
      then (s, some (acquire_failed e), acquire ∷ [])
      else wait_capture_backoff s a (acquire ∷ [])

  abbrev after_failed_dial : LoopState → Answer Error → Option ℤ → List LoopEffect → LoopOutcome
  after_failed_dial s a status done =
      if a.cancelled_dial
      then (s, some stopped, done)
      else if rejects_capture status
      then (s, some (capture_rejected (status_of status)), done)
      else wait_capture_backoff s a done

  -- serveConnection ends in any case; with a cancelled context the loop ends too.
  abbrev after_capture_serve : LoopState → Answer Error → List LoopEffect → LoopOutcome
  after_capture_serve s a done =
      if a.cancelled_serve
      then (s, some stopped, done)
      else wait_capture_backoff s a (done ++ tell capture_lost)

  abbrev with_capture_session :
      LoopState → Answer Error → CaptureSession → List LoopEffect → LoopOutcome
  with_capture_session s a session done = elim a.dialled [
    | failed status ↦ after_failed_dial s a status (done ++ (dial session.ticket ∷ []))
    | connected ↦
        after_capture_serve (record s { delay = first_capture_delay; connected_once = true }) a
          ((done ++ (dial session.ticket ∷ []))
            ++ tell (if s.connected_once then capture_reconnected else capture_connected))
  ]

  abbrev capture_acquired : LoopState → Answer Error → Acquired Error → LoopOutcome
  capture_acquired s a (granted session) =
      with_capture_session s a session (acquire ∷ grant session.ticket ∷ [])
  capture_acquired s a (refused e) = after_capture_refusal s a e

  abbrev choose_capture_session : LoopState → Answer Error → Option CaptureSession → LoopOutcome
  choose_capture_session s a (some session) =
      with_capture_session (record s { next = none }) a session []
  choose_capture_session s a none = capture_acquired s a a.acquired

  -- One round of the loop.
  unfoldable pub capture_step : LoopState → Answer Error → LoopOutcome
  capture_step s a =
      if a.cancelled then (s, some stopped, []) else choose_capture_session s a s.next

  -- The variables before the loop.
  abbrev pub capture_start : LoopState
  capture_start = record {
    delay = first_capture_delay;
    connected_once = false;
    next = config.initial_session;
  }
