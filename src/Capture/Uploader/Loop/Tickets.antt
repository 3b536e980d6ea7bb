-- ===== src/Capture/Uploader/Loop/Tickets.antt =====
-- Tickets and results of Run of internal/dependencycapture/uploader.go.
use mockingo_agent.Base.{
  true, false, Option, none, some, List, [], ◌∷◌, ◌++◌, Bytes, ◌≡◌, refl, arith, append_assoc,
  append-nil, ap, sym, ◌∙◌, subst, In, here, there, ◌⊎◌,
}
use mockingo_agent.Base.Rounds.{rounds_from, rounds_from-rule}
use mockingo_agent.Capture.Uploader.Loop.{
  UploaderConfig, CaptureSession, Answer, refused, failed, LoopState, LoopEffect, acquire, grant,
  dial, notice, wait, LoopOutcome, LoopVerdict, stopped, acquire_failed, capture_rejected,
  capture_step, rejects_capture, may_retry,
}

-- The tickets that the loop was given, those that it sent to the gateway, and the one it still has.
abbrev pub given_tickets : List LoopEffect → List Bytes
given_tickets [] = []
given_tickets (grant t ∷ es) = t ∷ given_tickets es
given_tickets (acquire ∷ es) = given_tickets es
given_tickets (dial t ∷ es) = given_tickets es
given_tickets (notice n ∷ es) = given_tickets es
given_tickets (wait d ∷ es) = given_tickets es

abbrev pub sent_tickets : List LoopEffect → List Bytes
sent_tickets [] = []
sent_tickets (dial t ∷ es) = t ∷ sent_tickets es
sent_tickets (acquire ∷ es) = sent_tickets es
sent_tickets (grant t ∷ es) = sent_tickets es
sent_tickets (notice n ∷ es) = sent_tickets es
sent_tickets (wait d ∷ es) = sent_tickets es

abbrev pub kept_ticket : Option CaptureSession → List Bytes
kept_ticket none = []
kept_ticket (some s) = s.ticket ∷ []

given_tickets-append :
    (a b : List LoopEffect) → given_tickets (a ++ b) ≡ given_tickets a ++ given_tickets b
given_tickets-append [] b = refl
given_tickets-append (grant t ∷ a) b = ap (λ (l : List Bytes). t ∷ l) (given_tickets-append a b)
given_tickets-append (acquire ∷ a) b = given_tickets-append a b
given_tickets-append (dial t ∷ a) b = given_tickets-append a b
given_tickets-append (notice n ∷ a) b = given_tickets-append a b
given_tickets-append (wait d ∷ a) b = given_tickets-append a b

sent_tickets-append :
    (a b : List LoopEffect) → sent_tickets (a ++ b) ≡ sent_tickets a ++ sent_tickets b
sent_tickets-append [] b = refl
sent_tickets-append (dial t ∷ a) b = ap (λ (l : List Bytes). t ∷ l) (sent_tickets-append a b)
sent_tickets-append (acquire ∷ a) b = sent_tickets-append a b
sent_tickets-append (grant t ∷ a) b = sent_tickets-append a b
sent_tickets-append (notice n ∷ a) b = sent_tickets-append a b
sent_tickets-append (wait d ∷ a) b = sent_tickets-append a b

module _ {Error : Type 0} (config : UploaderConfig Error) where
  -- What in a round accounts for a result: a cancelled context, an error of the provider that may
  -- not be retried, or a response to a failed dial with a status that is not retried.
  abbrev pub Cause : Answer Error → LoopVerdict Error → Type 0
  Cause a stopped =
      (a.cancelled ≡ true)
      ⊎ (a.cancelled_acquire ≡ true)
      ⊎ (a.cancelled_dial ≡ true)
      ⊎ (a.cancelled_serve ≡ true)
      ⊎ (a.cancelled_wait ≡ true)
  Cause a (acquire_failed e) = (a.acquired ≡ refused e) × (may_retry config e ≡ false)
  Cause a (capture_rejected status) =
      (a.dialled ≡ failed (some status)) × (rejects_capture (some status) ≡ true)

  capture_step-Cause :
      (s : LoopState) (a : Answer Error) (v : LoopVerdict Error)
      → (capture_step config s a).1 ≡ some v
      → Cause a v
  unfolding capture_step rejects_capture
  capture_step-Cause s a stopped e = ground arith
  capture_step-Cause s a (acquire_failed x) e = ground arith
  capture_step-Cause s a (capture_rejected x) e = ground arith

  capture_step-tickets :
      (s : LoopState) (a : Answer Error)
      → let (s', v, es) = capture_step config s a in
        sent_tickets es ++ kept_ticket s'.next ≡ kept_ticket s.next ++ given_tickets es
  unfolding capture_step
  capture_step-tickets s a = ground arith

  -- Two stretches of the loop, one after the other.
  stretches :
      (d1 d2 g1 g2 h0 h1 h2 : List Bytes)
      → d1 ++ h1 ≡ h0 ++ g1
      → d2 ++ h2 ≡ h1 ++ g2
      → (d1 ++ d2) ++ h2 ≡ h0 ++ (g1 ++ g2)
  stretches d1 d2 g1 g2 h0 h1 h2 p q =
      append_assoc d1 d2 h2
      ∙ ap (◌++◌ d1) q
      ∙ sym (append_assoc d1 h1 g2)
      ∙ ap (λ (l : List Bytes). l ++ g2) p
      ∙ append_assoc h0 g1 g2

  -- In any run of the uploader's loop, the tickets that are sent to the gateway, with the one that is
  -- still held at the end, are the one that was held at the start and those that the backend granted,
  -- each once and in the order in which they came.
  pub rounds_from-tickets :
      (s : LoopState) (answers : List (Answer Error))
      → let (s', v, es) = rounds_from (capture_step config) s answers in
        sent_tickets es ++ kept_ticket s'.next ≡ kept_ticket s.next ++ given_tickets es
  rounds_from-tickets s [] = unfold rounds_from in sym (append-nil (kept_ticket s.next))
  rounds_from-tickets s (a ∷ answers) =
      rounds_from-rule (capture_step config) Balanced s a answers
        (λ s' v es e. subst Balanced e (capture_step-tickets s a))
        λ s' es e.
          let (s'', v', more) = rounds_from (capture_step config) s' answers in
          rw (sent_tickets-append es more, given_tickets-append es more)
            (stretches (sent_tickets es) (sent_tickets more) (given_tickets es) (given_tickets more)
              (kept_ticket s.next) (kept_ticket s'.next) (kept_ticket s''.next)
              (subst Balanced e (capture_step-tickets s a)) (rounds_from-tickets s' answers))
    where
      Balanced : LoopOutcome config → Type 0
      Balanced (s', v, es) =
          sent_tickets es ++ kept_ticket s'.next ≡ kept_ticket s.next ++ given_tickets es

  -- The uploader's loop returns only in a round whose answers account for the result: without an
  -- error for a cancelled context, with the provider's error if that may not be retried, and with a
  -- rejection if the gateway answered a failed dial with a status from 400 to 499 other than 401 and
  -- 409. A lost connection ends no run.
  pub rounds_from-Cause :
      (s : LoopState) (answers : List (Answer Error)) (v : LoopVerdict Error)
      → (rounds_from (capture_step config) s answers).1 ≡ some v
      → (a : Answer Error) × In a answers × Cause a v
  rounds_from-Cause s [] v e = absurd (unfold rounds_from in none-ne e)
    where
      none-ne : none ≡ some v → ⊥
      none-ne h = cc
  rounds_from-Cause s (a ∷ answers) v x =
      rounds_from-rule (capture_step config) Accounted s a answers
        (λ s' w es e h.
          (a, here answers, capture_step-Cause s a v (ap (λ (o : LoopOutcome config). o.1) e ∙ h)))
        (λ s' es e h. let (q, i, c) = rounds_from-Cause s' answers v h in (q, there a i, c)) x
    where
      Accounted : LoopOutcome config → Type 0
      Accounted (s', w, es) = w ≡ some v → (q : Answer Error) × In q (a ∷ answers) × Cause q v
