-- ===== src/Tests/Serving.antt =====
-- Tests of serveConnection in internal/agent/agent.go.
use mockingo_agent.Base.{true, false, some, List, [], ◌∷◌, codes, pos, bytes_eq, refl}
use mockingo_agent.Protocol.Message.{Message, type_request}
use mockingo_agent.Agent.Request.{Local, handle_request, unreachable}
use mockingo_agent.Agent.Serve.{
  Connection, Step, reading, reply, pong, connected, Event, received, read_failed, finished,
  take_at, Run, here, then_step, happen, waiting,
}
use mockingo_agent.Agent.Serve.Settled.{IsSettled, Run-IsSettled}
use mockingo_agent.Agent.Serve.Drained.{IsDraining, Run-IsDraining}
use mockingo_agent.Tests.Data.{ping}

-- A local side that takes every path as it stands, and answers no request.
abbrev local : Local
local = record {
  decode_base64 = λ s. some s;
  encode_base64 = λ s. s;
  parse_request_uri = λ s. some (record { scheme = []; host = []; path = s; request_uri = s });
  valid_request = λ m u. true;
  exchange = λ q. unreachable;
}

abbrev asked_message : Message
asked_message = record ping {
  type = type_request;
  request_id = codes "r1";
  method = codes "GET";
  path = codes "/";
}

-- A request and a ping are read, the next read fails, and the reply to the request cannot be written.
abbrev events : List Event
events =
    received asked_message true ∷ received ping true ∷ read_failed ∷ finished 0 local false ∷ []

abbrev asked_state : Connection
asked_state = record connected { in_flight = asked_message ∷ [] }

-- The state after the four events.
abbrev served_state : Connection
served_state = record {
  phase = waiting;
  in_flight = [];
  written =
      pong true ∷ reply asked_message (handle_request local (pos 8080) asked_message).1 false ∷ [];
}

abbrev waiting_state : Connection
waiting_state = record { phase = waiting; in_flight = asked_message ∷ []; written = pong true ∷ [] }

reading_state-Run :
    Run
      (pos 8080)
      connected
      (received asked_message true ∷ received ping true ∷ [])
      (record waiting_state { phase = reading })
unfolding bytes_eq
reading_state-Run =
    then_step (received ping true)
      (then_step (received asked_message true) here
        (happen (received asked_message true) asked_state refl))
      (happen (received ping true) (record waiting_state { phase = reading }) refl)

answered-Step : Step (pos 8080) waiting_state (finished 0 local false) served_state
unfolding take_at
answered-Step = happen (finished 0 local false) served_state refl

served-Run : Run (pos 8080) connected events served_state
served-Run =
    then_step (finished 0 local false)
      (then_step read_failed reading_state-Run (happen read_failed waiting_state refl))
      answered-Step

Run-IsSettled_example : IsSettled events served_state
Run-IsSettled_example = Run-IsSettled served-Run

Run-IsDraining_example : IsDraining (pos 8080) 1 2 served_state
Run-IsDraining_example =
    Run-IsDraining {s = waiting_state} local refl
      (then_step (finished 0 local false) here answered-Step)
