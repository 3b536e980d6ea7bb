-- ===== src/Agent/Loop/Tickets.antt =====
-- Each ticket of runTicket of internal/agent/agent.go is dialled once.
use mockingo_agent.Base.{
  Option, none, some, List, [], ◌∷◌, ◌++◌, Bytes, ◌≡◌, refl, arith, append_assoc, append-nil, ap,
  sym, ◌∙◌, subst,
}
use mockingo_agent.Agent.Loop.Unroll.{run-rule}
use mockingo_agent.Agent.Loop.{
  Config, Session, Round, State, Effect, acquire, grant, dial, notice, wait, Outcome, step, run,
}

-- The tickets that the loop was given, and those that it sent to the gateway, in order.
abbrev pub granted_tickets : List Effect → List Bytes
granted_tickets [] = []
granted_tickets (grant t ∷ es) = t ∷ granted_tickets es
granted_tickets (acquire ∷ es) = granted_tickets es
granted_tickets (dial t ∷ es) = granted_tickets es
granted_tickets (notice n ∷ es) = granted_tickets es
granted_tickets (wait d ∷ es) = granted_tickets es

abbrev pub dialled_tickets : List Effect → List Bytes
dialled_tickets [] = []
dialled_tickets (dial t ∷ es) = t ∷ dialled_tickets es
dialled_tickets (acquire ∷ es) = dialled_tickets es
dialled_tickets (grant t ∷ es) = dialled_tickets es
dialled_tickets (notice n ∷ es) = dialled_tickets es
dialled_tickets (wait d ∷ es) = dialled_tickets es

abbrev pub held : Option Session → List Bytes
held none = []
held (some s) = s.ticket ∷ []

granted_tickets-append :
    (a b : List Effect) → granted_tickets (a ++ b) ≡ granted_tickets a ++ granted_tickets b
granted_tickets-append [] b = refl
granted_tickets-append (grant t ∷ a) b = ap (λ (l : List Bytes). t ∷ l) (granted_tickets-append a b)
granted_tickets-append (acquire ∷ a) b = granted_tickets-append a b
granted_tickets-append (dial t ∷ a) b = granted_tickets-append a b
granted_tickets-append (notice n ∷ a) b = granted_tickets-append a b
granted_tickets-append (wait d ∷ a) b = granted_tickets-append a b

dialled_tickets-append :
    (a b : List Effect) → dialled_tickets (a ++ b) ≡ dialled_tickets a ++ dialled_tickets b
dialled_tickets-append [] b = refl
dialled_tickets-append (dial t ∷ a) b = ap (λ (l : List Bytes). t ∷ l) (dialled_tickets-append a b)
dialled_tickets-append (acquire ∷ a) b = dialled_tickets-append a b
dialled_tickets-append (grant t ∷ a) b = dialled_tickets-append a b
dialled_tickets-append (notice n ∷ a) b = dialled_tickets-append a b
dialled_tickets-append (wait d ∷ a) b = dialled_tickets-append a b

module _ {Error : Type 0} (config : Config Error) where
  step-tickets :
      (s : State) (r : Round Error)
      → let (s', v, es) = step config s r in
        dialled_tickets es ++ held s'.next ≡ held s.next ++ granted_tickets es
  unfolding step
  step-tickets s r = ground arith

  -- Two stretches of the loop, one after the other.
  joined :
      (d1 d2 g1 g2 h0 h1 h2 : List Bytes)
      → d1 ++ h1 ≡ h0 ++ g1
      → d2 ++ h2 ≡ h1 ++ g2
      → (d1 ++ d2) ++ h2 ≡ h0 ++ (g1 ++ g2)
  joined d1 d2 g1 g2 h0 h1 h2 p q =
      append_assoc d1 d2 h2
      ∙ ap (◌++◌ d1) q
      ∙ sym (append_assoc d1 h1 g2)
      ∙ ap (λ (l : List Bytes). l ++ g2) p
      ∙ append_assoc h0 g1 g2

  -- In any run of the loop, the tickets that are sent to the gateway, with the one that is still
  -- held at the end, are the one that was held at the start and those that the backend granted, each
  -- once and in the order in which they came.
  pub run-tickets :
      (s : State) (rounds : List (Round Error))
      → let (s', v, es) = run config s rounds in
        dialled_tickets es ++ held s'.next ≡ held s.next ++ granted_tickets es
  run-tickets s [] = unfold run in sym (append-nil (held s.next))
  run-tickets s (r ∷ rs) =
      run-rule config Balanced s r rs (λ s' v es e. subst Balanced e (step-tickets s r))
        λ s' es e.
          let (s'', v', more) = run config s' rs in
          rw (dialled_tickets-append es more, granted_tickets-append es more)
            (joined (dialled_tickets es) (dialled_tickets more) (granted_tickets es)
              (granted_tickets more) (held s.next) (held s'.next) (held s''.next)
              (subst Balanced e (step-tickets s r)) (run-tickets s' rs))
    where
      Balanced : Outcome config → Type 0
      Balanced (s', v, es) = dialled_tickets es ++ held s'.next ≡ held s.next ++ granted_tickets es
