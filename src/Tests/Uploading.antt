-- ===== src/Tests/Uploading.antt =====
-- Tests of the uploader of internal/dependencycapture.
use mockingo_agent.Base.{
  ℕ, ◌^◌, ◌≤◌, true, false, none, some, List, [], ◌∷◌, ◌++◌, Bytes, codes, length, pos, ◌≡◌, refl,
  All, In,
}
use mockingo_agent.Base.Rounds.{rounds_from}
use mockingo_agent.Protocol.Message.{DependencyInteraction, CapturedBody}
use mockingo_agent.Capture.Behaviors.{new_behavior_store, config_message}
use mockingo_agent.Capture.Uploader.{new_uploader, event_ready, ticked, context_done, read_messages}
use mockingo_agent.Capture.Uploader.Queue.{
  Action, sends, writes, run_actions, events, delivered, written_events, warnings, Sendable, Spaced,
}
use mockingo_agent.Capture.Uploader.Queue.Runs.{run_actions-order, run_actions-bounded}
use mockingo_agent.Capture.Uploader.Reader.{Configured, replace_config, read_messages-Configured}
use mockingo_agent.Capture.Uploader.Loop.{
  UploaderConfig, CaptureSession, Answer, granted, connected, failed, capture_step, capture_start,
  capture_rejected, rejects_capture,
}
use mockingo_agent.Capture.Uploader.Loop.Tickets.{
  Cause, given_tickets, sent_tickets, kept_ticket, rounds_from-tickets, rounds_from-Cause,
}
use mockingo_agent.Tests.Data.{no_addresses, one_behavior}

abbrev empty_body : CapturedBody
empty_body = record {
  captured = false;
  content_type = [];
  content = [];
  size_bytes = pos 0;
  captured_bytes = pos 0;
  truncated = false;
  reason = codes "binary_content";
}

abbrev interaction : Bytes → DependencyInteraction
interaction id = record {
  id = id;
  scheme = codes "https";
  host = codes "api.test";
  port = pos 443;
  handled_by = codes "ORIGIN";
  started_at = pos 5;
  completed_at = pos 6;
  duration_ms = pos 1;
  request = record {
    method = codes "GET";
    path = codes "/";
    raw_query = [];
    headers = some [];
    body = empty_body;
    size_bytes = pos 0;
  };
  response = record { status = pos 200; headers = some []; body = empty_body; size_bytes = pos 0 };
}

-- Two interactions and one that is not valid, for a queue of one place, and a write that fails.
abbrev actions : List Action
actions =
    sends (10 ^ 11) (interaction (codes "1"))
    ∷ sends (10 ^ 11) (interaction (codes "2"))
    ∷ writes (event_ready (10 ^ 11) true)
    ∷ sends (10 ^ 12) (interaction [])
    ∷ sends (10 ^ 12) (interaction (codes "3"))
    ∷ writes (ticked (10 ^ 12) true)
    ∷ writes (event_ready (10 ^ 12) false)
    ∷ writes context_done
    ∷ []

run_actions-order_example :
    let t = run_actions no_addresses (new_uploader (pos 1)) actions in
    (t.accepted ≡ events t.taken ++ t.uploader.queue)
    × (written_events t.effects ≡ delivered t.taken)
run_actions-order_example = run_actions-order no_addresses (pos 1) actions

run_actions-bounded_example :
    let t = run_actions no_addresses (new_uploader (pos 1)) actions in
    (length t.uploader.queue ≤ 1)
    × All (Sendable no_addresses) (events t.taken ++ t.uploader.queue)
    × Spaced 0 (warnings t.effects) t.uploader.last_drop_warning
run_actions-bounded_example = run_actions-bounded no_addresses (pos 1) actions

read_messages-Configured_example :
    Configured
      (codes "e1")
      new_behavior_store
      (read_messages no_addresses
        (codes "e1")
        (some (replace_config no_addresses))
        new_behavior_store
        (config_message one_behavior ∷ [])).0
read_messages-Configured_example =
    read_messages-Configured no_addresses (codes "e1") (config_message one_behavior ∷ [])
      new_behavior_store

abbrev capture_session : Bytes → CaptureSession
capture_session ticket = record {
  endpoint_id = codes "e1";
  endpoint_name = codes "shop";
  session_id = codes "s1";
  connect_url = codes "wss://gateway.test";
  ticket = ticket;
}

-- An error is a number; all may be retried.
abbrev uploader_config : UploaderConfig ℕ
uploader_config = record {
  retryable = some (λ e. true);
  has_on_state = true;
  initial_session = some (capture_session (codes "t0"));
  reconnect_initial_delay = pos 1;
  reconnect_max_delay = pos 8;
}

-- A dial without a response, a connection that is lost, and a dial that is forbidden.
abbrev unreachable : Answer ℕ
unreachable = record {
  cancelled = false;
  acquired = granted (capture_session (codes "t1"));
  cancelled_acquire = false;
  dialled = failed none;
  cancelled_dial = false;
  cancelled_serve = false;
  cancelled_wait = false;
  random = λ n. pos 0;
}

abbrev lost : Answer ℕ
lost = record unreachable { dialled = connected }

abbrev forbidden : Answer ℕ
forbidden = record unreachable { dialled = failed (some (pos 403)) }

abbrev answers : List (Answer ℕ)
answers = unreachable ∷ lost ∷ forbidden ∷ []

rounds_from-tickets_example :
    let (s', v, es) =
      rounds_from (capture_step uploader_config) (capture_start uploader_config) answers in
    sent_tickets es ++ kept_ticket s'.next ≡ codes "t0" ∷ given_tickets es
rounds_from-tickets_example =
    rounds_from-tickets uploader_config (capture_start uploader_config) answers

rounds_from-Cause_example :
    (a : Answer ℕ) × In a answers × Cause uploader_config a (capture_rejected (pos 403))
rounds_from-Cause_example =
    rounds_from-Cause uploader_config (capture_start uploader_config) answers
      (capture_rejected (pos 403)) (unfold rounds_from capture_step rejects_capture in refl)
