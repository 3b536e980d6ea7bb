-- ===== src/Agent/Loop/Unroll.antt =====
-- The first round of a run of the loop of internal/agent/agent.go.
use mockingo_agent.Base.{none, some, List, ◌∷◌, ◌++◌, ◌≡◌, refl}
use mockingo_agent.Agent.Loop.{Config, Round, State, Effect, Outcome, Verdict, then_run, step, run}

module _ {Error : Type 0} (config : Config Error) where
  then_run-rule :
      (P : Outcome config → Type 0) (o : Outcome config) (rest : State → Outcome config)
      → ((s : State) (v : Verdict Error) (es : List Effect)
          → o ≡ (s, some v, es)
          → P (s, some v, es))
      → ((s : State) (es : List Effect)
          → o ≡ (s, none, es)
          → P ((rest s).0, (rest s).1, es ++ (rest s).2))
      → P (then_run config o rest)
  then_run-rule P (s, some v, es) rest stop go = stop s v es refl
  then_run-rule P (s, none, es) rest stop go = go s es refl

  -- To show something of a run, show it of a first round that returns, and of one that goes on.
  pub run-rule :
      (P : Outcome config → Type 0) (s : State) (r : Round Error) (rs : List (Round Error))
      → ((s' : State) (v : Verdict Error) (es : List Effect)
          → step config s r ≡ (s', some v, es)
          → P (s', some v, es))
      → ((s' : State) (es : List Effect)
          → step config s r ≡ (s', none, es)
          → let (s'', v, more) = run config s' rs in P (s'', v, es ++ more))
      → P (run config s (r ∷ rs))
  unfolding run
  run-rule P s r rs stop go = then_run-rule P (step config s r) (λ s'. run config s' rs) stop go
