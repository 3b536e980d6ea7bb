-- ===== src/Agent/Serve.antt =====
-- internal/agent/agent.go: serveConnection, as steps of the reader and of the goroutines that it
-- starts. A step is atomic: the writer's mutex keeps messages apart. Each call of handleRequest
-- returns; the step in which it does says what the local side answered to it.
pub mod Settled
pub mod Drained
use mockingo_agent.Base.{
  ℕ, zero, suc, Bool, true, false, ◌&&◌, not, Option, none, some, List, [], ◌∷◌, ◌++◌, bytes_eq, ℤ,
  pos, eq_int, if◌then◌else◌, ◌≡◌, Bytes,
}
use mockingo_agent.Protocol.Message.{Message, version, type_request, type_ping, type_pong}
use mockingo_agent.Agent.Request.{Local, handle_request}

-- Where serveConnection is: in its loop, in requests.Wait, or back at its caller.
pub data Phase : Type 0 where
  reading waiting returned : Phase

-- What was written for a request, or for a ping, and whether the write succeeded.
pub data Written : Type 0 where
  reply : Message → Message → Bool → Written
  pong : Bool → Written

-- The requests whose goroutines run, and everything that was written, the oldest first.
pub record Connection : Type 0 where
  pub phase : Phase
  pub in_flight : List Message
  pub written : List Written

abbrev pub connected : Connection
connected = record { phase = reading; in_flight = []; written = [] }

-- A message that was read, with the success of the write that it leads to; the failure of a read;
-- the end of the goroutine at a place of the list; and the return from requests.Wait.
pub data Event : Type 0 where
  received : Message → Bool → Event
  read_failed : Event
  finished : ℕ → Local → Bool → Event
  all_done : Event

abbrev pub put_back : Message → Option (Message × List Message) → Option (Message × List Message)
put_back m none = none
put_back m (some (k, rest)) = some (k, m ∷ rest)

unfoldable pub take_at : ℕ → List Message → Option (Message × List Message)
take_at n [] = none
take_at zero (m ∷ ms) = some (m, ms)
take_at (suc n) (m ∷ ms) = put_back m (take_at n ms)

-- What the loop makes of a message that was read, from the test of its version and those of its type.
pub data Kind : Type 0 where
  skipped asked pinged : Kind

abbrev pub kind_of : Bool → Bool → Bool → Kind
kind_of known is_request is_ping =
    if not known then skipped else if is_request then asked else if is_ping then pinged else skipped

abbrev pub classify : Message → Kind
classify message =
    kind_of (eq_int message.version version) (bytes_eq message.type type_request)
      (bytes_eq message.type type_ping)

-- A round of the loop, after the read.
abbrev pub receive_as : Connection → Message → Bool → Kind → Connection
receive_as s message ok skipped = s
receive_as s message ok asked = record s { in_flight = s.in_flight ++ (message ∷ []) }
receive_as s message ok pinged = record s { written = s.written ++ (pong ok ∷ []) }

abbrev pub receive : Connection → Message → Bool → Connection
receive s message ok = receive_as s message ok (classify message)

abbrev pub finish_at :
    ℤ → Connection → Local → Bool → Option (Message × List Message) → Option Connection
finish_at port s lib ok none = none
finish_at port s lib ok (some (message, rest)) = some (record s {
  in_flight = rest;
  written = s.written ++ (reply message (handle_request lib port message).1 ok ∷ []);
})

abbrev return_if_idle : Connection → List Message → Option Connection
return_if_idle s [] = some (record s { phase = returned })
return_if_idle s (m ∷ ms) = none

-- What an event makes of a connection; `none` if it cannot happen.
abbrev pub serve_in : ℤ → Connection → Phase → Event → Option Connection
serve_in port s reading (received message ok) = some (receive s message ok)
serve_in port s reading read_failed = some (record s { phase = waiting })
serve_in port s reading (finished n lib ok) = finish_at port s lib ok (take_at n s.in_flight)
serve_in port s reading all_done = none
serve_in port s waiting (received message ok) = none
serve_in port s waiting read_failed = none
serve_in port s waiting (finished n lib ok) = finish_at port s lib ok (take_at n s.in_flight)
serve_in port s waiting all_done = return_if_idle s s.in_flight
serve_in port s returned event = none

abbrev pub serve_event : ℤ → Connection → Event → Option Connection
serve_event port s event = serve_in port s s.phase event

-- One step, and a run of steps with its events.
pub data Step (port : ℤ) (s : Connection) : Event → Connection → Type 0 where
  happen :
      (event : Event) (t : Connection) → serve_event port s event ≡ some t → Step port s event t

pub data Run (port : ℤ) (s : Connection) : List Event → Connection → Type 0 where
  here : Run port s [] s
  then_step :
      {events : List Event} {t u : Connection} (event : Event)
      → Run port s events t
      → Step port t event u
      → Run port s (events ++ (event ∷ [])) u
