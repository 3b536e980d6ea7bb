-- ===== src/Capture/Uploader/Queue.antt =====
-- The queue of internal/dependencycapture/uploader.go under any interleaving of senders and writer.
pub mod Runs
use mockingo_agent.Base.{
  ℕ, suc, ◌+◌, ◌≤◌, Bool, true, false, Option, none, some, List, [], ◌∷◌, ◌++◌, map, length,
  length-append, append-nil, append_assoc, ◌≡◌, refl, ap, sym, ◌∙◌, subst, arith, All, All-append,
  Bool-cases, Option-cases, inl, inr, if◌then◌else◌, ltb, ℤ,
}
use mockingo_agent.Protocol.Message.{DependencyInteraction}
use mockingo_agent.Protocol.Text.{Externals}
use mockingo_agent.Protocol.Validation.{validate}
use mockingo_agent.Capture.Uploader.{
  Uploader, new_uploader, Effect, drop_reported, written, sent_reported, Ready, event_ready, ticked,
  context_done, reader_failed, enqueue, write_step, dropped, drop_interval, interaction_message,
  rejected, try_send, take_event,
}

-- A call of Enqueue at a time, or a round of the writer; a writer whose connection was lost is
-- followed by that of the next connection.
pub data Action : Type 0 where
  sends : ℕ → DependencyInteraction → Action
  writes : Ready → Action

-- The interaction that a round of the writer takes, with the success of the write.
abbrev pub first_of : Bool → List DependencyInteraction → List (DependencyInteraction × Bool)
first_of success [] = []
first_of success (event ∷ rest) = (event, success) ∷ []

abbrev pub taken_by : Ready → Uploader → List (DependencyInteraction × Bool)
taken_by (event_ready now success) u = first_of success u.queue
taken_by (ticked now success) u = []
taken_by context_done u = []
taken_by reader_failed u = []

-- What a run leaves: the uploader, the interactions for which Enqueue returned true, those that
-- were taken from the queue, and what others saw.
pub record Trace : Type 0 where
  pub uploader : Uploader
  pub accepted : List DependencyInteraction
  pub taken : List (DependencyInteraction × Bool)
  pub effects : List Effect

abbrev pub delivered : List (DependencyInteraction × Bool) → List DependencyInteraction
delivered [] = []
delivered ((event, true) ∷ rest) = event ∷ delivered rest
delivered ((event, false) ∷ rest) = delivered rest

-- The interactions among the messages that were written.
abbrev pub dependency_of : Option DependencyInteraction → List DependencyInteraction
dependency_of none = []
dependency_of (some event) = event ∷ []

abbrev pub written_events : List Effect → List DependencyInteraction
written_events [] = []
written_events (written m ∷ es) = dependency_of m.dependency ++ written_events es
written_events (drop_reported now ∷ es) = written_events es
written_events (sent_reported ∷ es) = written_events es

abbrev pub events : List (DependencyInteraction × Bool) → List DependencyInteraction
events = map (λ t. t.0)

abbrev pub enqueued : DependencyInteraction → Uploader × Bool × List Effect → Trace
enqueued event (u, fine, es) = record {
  uploader = u;
  accepted = if fine then event ∷ [] else [];
  taken = [];
  effects = es;
}

abbrev pub wrote : List (DependencyInteraction × Bool) → Uploader × Bool × List Effect → Trace
wrote taken (u, fine, es) = record { uploader = u; accepted = []; taken = taken; effects = es }

abbrev pub act : Externals → Uploader → Action → Trace
act ext u (sends now event) = enqueued event (enqueue ext now u event)
act ext u (writes ready) = wrote (taken_by ready u) (write_step u ready)

abbrev pub after : Trace → Trace → Trace
after t t' = record {
  uploader = t'.uploader;
  accepted = t.accepted ++ t'.accepted;
  taken = t.taken ++ t'.taken;
  effects = t.effects ++ t'.effects;
}

unfoldable pub run_actions : Externals → Uploader → List Action → Trace
run_actions ext u [] = record { uploader = u; accepted = []; taken = []; effects = [] }
run_actions ext u (a ∷ actions) =
    after (act ext u a) (run_actions ext (act ext u a).uploader actions)

-- The times of the warnings.
abbrev pub warnings : List Effect → List ℕ
warnings [] = []
warnings (drop_reported now ∷ es) = now ∷ warnings es
warnings (written m ∷ es) = warnings es
warnings (sent_reported ∷ es) = warnings es

-- Times from one warning to a last one, each a full interval after the one before.
abbrev pub Spaced : ℕ → List ℕ → ℕ → Type 0
Spaced previous [] last = last ≡ previous
Spaced previous (now ∷ times) last = (previous + drop_interval ≤ now) × Spaced now times last

abbrev pub Sendable : Externals → DependencyInteraction → Type 0
Sendable ext event = validate ext (interaction_message event) ≡ none
