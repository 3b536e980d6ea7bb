-- ===== src/Base/Rounds.antt =====
-- A loop whose rounds each take an answer of the surroundings, and return or go on.
use mathlib.Core.Path.{◌≡◌, refl}
use mathlib.Core.Option.{Option, none, some}
use mathlib.Core.List.{List, [], ◌∷◌, ◌++◌}

-- The state after some rounds, the result if the loop has returned, and what was done.
abbrev pub Outcome : Type 0 → Type 0 → Type 0 → Type 0
Outcome State Verdict Effect = State × Option Verdict × List Effect

module _ {State Verdict Effect : Type 0} where
  abbrev pub then_rounds :
      Outcome State Verdict Effect
      → (State → Outcome State Verdict Effect)
      → Outcome State Verdict Effect
  then_rounds (s, some v, done) rest = (s, some v, done)
  then_rounds (s, none, done) rest = let (s', v, more) = rest s in (s', v, done ++ more)

  then_rounds-rule :
      (P : Outcome State Verdict Effect → Type 0) (o : Outcome State Verdict Effect)
      (rest : State → Outcome State Verdict Effect)
      → ((s : State) (v : Verdict) (es : List Effect) → o ≡ (s, some v, es) → P (s, some v, es))
      → ((s : State) (es : List Effect)
          → o ≡ (s, none, es)
          → P ((rest s).0, (rest s).1, es ++ (rest s).2))
      → P (then_rounds o rest)
  then_rounds-rule P (s, some v, es) rest stop go = stop s v es refl
  then_rounds-rule P (s, none, es) rest stop go = go s es refl

module _ {State Answer Verdict Effect : Type 0} where
  -- The loop over the answers, for as long as there are any.
  unfoldable pub rounds_from :
      (State → Answer → Outcome State Verdict Effect)
      → State
      → List Answer
      → Outcome State Verdict Effect
  rounds_from step s [] = (s, none, [])
  rounds_from step s (a ∷ answers) = then_rounds (step s a) (λ s'. rounds_from step s' answers)

  -- To show something of a run, show it of a first round that returns, and of one that goes on.
  pub rounds_from-rule :
      (step : State → Answer → Outcome State Verdict Effect)
      (P : Outcome State Verdict Effect → Type 0) (s : State) (a : Answer) (answers : List Answer)
      → ((s' : State) (v : Verdict) (es : List Effect)
          → step s a ≡ (s', some v, es)
          → P (s', some v, es))
      → ((s' : State) (es : List Effect)
          → step s a ≡ (s', none, es)
          → let (s'', v, more) = rounds_from step s' answers in P (s'', v, es ++ more))
      → P (rounds_from step s (a ∷ answers))
  unfolding rounds_from
  rounds_from-rule step P s a answers stop go =
      then_rounds-rule P (step s a) (λ s'. rounds_from step s' answers) stop go
