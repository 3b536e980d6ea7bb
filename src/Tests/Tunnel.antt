-- ===== src/Tests/Tunnel.antt =====
-- Tests of internal/agent.
use mockingo_agent.Base.{
  ℕ, ◌-◌, ◌*◌, ◌^◌, min, ◌≤◌, true, false, none, some, List, [], ◌∷◌, starts_with, is_empty, ◌++◌,
  Bytes, codes, length, ℤ, pos, negsuc, inr, eq_int, ◌≡◌, refl, arith, subst, ap, All,
}
use mockingo_agent.Base.Decimal.{itoa, digits}
use mockingo_agent.Protocol.Message.{Message, HeaderMap, version, type_request, max_body_size}
use mockingo_agent.Protocol.Codec.{Stream}
use mockingo_agent.ForwardHeaders.{filter_headers, copy_unblocked}
use mockingo_agent.Agent.Gateway.{broken, endpoint_virtualized_disconnect}
use mockingo_agent.Agent.Backoff.{IsInt63n, IsWait, backoff_wait}
use mockingo_agent.Agent.Loop.{
  Config, Round, Session, granted, connected, failed, refused, run, start,
}
use mockingo_agent.Agent.Loop.Tickets.{run-tickets, granted_tickets, dialled_tickets, held}
use mockingo_agent.Agent.Loop.Delays.{run-waits-bounded, waits}
use mockingo_agent.Agent.Loop.Doubled.{Fails, doubled_waits, run-doubled}
use mockingo_agent.Agent.Request.{Local, LocalRequest, Uri, Exchange, answered, handle_request}
use mockingo_agent.Agent.Request.Reply.{Answers, handle_request-Answers, handle_request-local}
use mockingo_agent.Tests.Data.{no_addresses}

abbrev session : Bytes → Session
session ticket = record {
  endpoint_id = codes "e1";
  endpoint_name = codes "shop";
  session_id = codes "s1";
  connect_url = codes "wss://gateway.test";
  ticket = ticket;
  public_url = codes "https://shop.test";
}

-- An error is a number; all may be retried.
abbrev config : Config ℕ
config = record {
  retryable = some (λ e. true);
  temporary_conflict = none;
  has_on_state = true;
  initial_session = some (session (codes "t0"));
  reconnect_enabled = true;
  reconnect_initial_delay = pos 1;
  reconnect_max_delay = pos 8;
}

-- The largest answer of rand.Int63n.
abbrev largest : ℤ → ℤ
largest (pos n) = pos (n - 1)
largest (negsuc n) = pos 0

-- A dial that fails, a connection that is lost, and a cancelled context.
abbrev unreachable : Round ℕ
unreachable = record {
  cancelled = false;
  acquired = refused 7;
  cancelled_acquire = false;
  dialled = failed none 7;
  cancelled_dial = false;
  ended = broken;
  cancelled_serve = false;
  cancelled_wait = false;
  random = largest;
}

abbrev lost : Round ℕ
lost = record unreachable { acquired = granted (session (codes "t1")); dialled = connected }

abbrev cancelled_round : Round ℕ
cancelled_round = record unreachable { cancelled = true }

abbrev rounds : List (Round ℕ)
rounds = unreachable ∷ unreachable ∷ lost ∷ cancelled_round ∷ []

run-tickets_example :
    let (s', v, es) = run config (start config) rounds in
    dialled_tickets es ++ held s'.next ≡ codes "t0" ∷ granted_tickets es
run-tickets_example = run-tickets config (start config) rounds

largest-IsInt63n : IsInt63n largest
largest-IsInt63n n positive = (n - 1, refl, omega arith)

run-waits-bounded_example : All (IsWait 1 8) (waits (run config (start config) rounds).2)
run-waits-bounded_example =
    run-waits-bounded config rounds 1 8 refl refl (omega arith) (omega arith) (omega arith)
      (largest-IsInt63n, (largest-IsInt63n, (largest-IsInt63n, (largest-IsInt63n, tt))))

-- The connection is lost, and four dials fail; the last wait is 12, with a longest delay of 8.
abbrev outage : List (Round ℕ)
outage = unreachable ∷ unreachable ∷ unreachable ∷ unreachable ∷ []

run-doubled_example :
    let (s', v, es) = run config (start config) (lost ∷ outage) in
    (v ≡ none)
    × (s'.delay ≡ pos (min (1 * 2 ^ 5) 8))
    × (waits es ≡ doubled_waits 1 8 0 (lost ∷ outage))
run-doubled_example =
    run-doubled config 1 8 (start config) lost outage refl refl refl (omega arith) (omega arith)
      (inr (refl, tt, refl, refl, unfold endpoint_virtualized_disconnect in refl, refl))
      (failing, (failing, (failing, (failing, tt))))
  where
    failing : Fails config none unreachable
    failing = (refl, refl, refl, (refl, refl))

outage-waits : doubled_waits 1 8 0 (lost ∷ outage) ≡ pos 1 ∷ pos 3 ∷ pos 6 ∷ pos 12 ∷ pos 12 ∷ []
outage-waits = unfold backoff_wait in refl

abbrev message : Message
message = record {
  version = version;
  type = type_request;
  request_id = codes "r1";
  method = codes "GET";
  path = codes "/";
  headers = none;
  body_base64 = [];
  status = pos 0;
  error_code = [];
  error = [];
  dependency = none;
  dependency_config = none;
}

abbrev root : Uri
root = record { scheme = []; host = []; path = codes "/"; request_uri = codes "/" }

abbrev no_content : Exchange
no_content = answered (pos 204) [] (record { bytes = []; broken = false })

abbrev server : Local
server = record {
  decode_base64 = λ s. some s;
  encode_base64 = λ s. s;
  parse_request_uri = λ s. some root;
  valid_request = λ m u. true;
  exchange = λ q. no_content;
}

abbrev status_of : Exchange → ℤ
status_of (answered status headers body) = status
status_of e = pos 1

server-status :
    (q : LocalRequest) (status : ℤ) (headers : HeaderMap) (body : Stream)
    → server.exchange q ≡ answered status headers body
    → eq_int status (pos 0) ≡ false
server-status q status headers body h =
    subst (λ (n : ℤ). eq_int n (pos 0) ≡ false) (ap status_of h) refl

handle_request-Answers_example :
    Answers no_addresses message (handle_request server (pos 8080) message).1
handle_request-Answers_example =
    handle_request-Answers no_addresses server (pos 8080) message refl server-status

abbrev sent : LocalRequest
sent = record {
  method = codes "GET";
  url = codes "http://127.0.0.1:8080/";
  headers = [];
  body = [];
}

handle_request-local_example :
    (path : Uri) × (server.parse_request_uri message.path ≡ some path)
    × (is_empty path.scheme ≡ true)
    × (is_empty path.host ≡ true)
    × (starts_with b'/' path.path ≡ true)
    × (sent.url ≡ codes "http://127.0.0.1:" ++ (itoa (pos 8080) ++ path.request_uri))
    × (length sent.body ≤ max_body_size)
handle_request-local_example =
    handle_request-local server (pos 8080) message sent
      (unfold handle_request itoa digits filter_headers copy_unblocked in refl)
