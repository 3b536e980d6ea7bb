-- ===== src/Agent/Loop/Delays.antt =====
-- The waits of runTicket of internal/agent/agent.go.
use mockingo_agent.Base.{
  ℕ, ◌≤◌, ◌<◌, ◌^◌, List, [], ◌∷◌, ◌++◌, ℤ, pos, ◌≡◌, refl, arith, ap, sym, inl, inr, subst, All,
  All-append, ◌⊎◌,
}
use mockingo_agent.Agent.Backoff.{
  Within, next_delay_max-Within, next_delay_max, IsInt63n, IsWait, backoff_wait,
  backoff_wait-IsWait,
}
use mockingo_agent.Agent.Loop.Unroll.{run-rule}
use mockingo_agent.Agent.Loop.{
  Config, Round, State, Effect, acquire, grant, dial, notice, wait, Outcome, step, run, start,
  first_delay, longest_delay,
}

abbrev pub waits : List Effect → List ℤ
waits [] = []
waits (wait d ∷ es) = d ∷ waits es
waits (acquire ∷ es) = waits es
waits (grant t ∷ es) = waits es
waits (dial t ∷ es) = waits es
waits (notice n ∷ es) = waits es

pub waits-append : (a b : List Effect) → waits (a ++ b) ≡ waits a ++ waits b
waits-append [] b = refl
waits-append (wait d ∷ a) b = ap (λ (l : List ℤ). d ∷ l) (waits-append a b)
waits-append (acquire ∷ a) b = waits-append a b
waits-append (grant t ∷ a) b = waits-append a b
waits-append (dial t ∷ a) b = waits-append a b
waits-append (notice n ∷ a) b = waits-append a b

-- What a round may make of the delay: it stays, is reset, or is doubled after a wait for it.
abbrev Moves : (ℤ → ℤ) → ℤ → ℤ → ℤ → ℤ → List ℤ → Type 0
Moves random first longest before after ws =
    ((ws ≡ []) × (after ≡ before))
    ⊎ ((ws ≡ []) × (after ≡ first))
    ⊎ ((ws ≡ backoff_wait random before ∷ []) × (after ≡ before))
    ⊎ ((ws ≡ backoff_wait random first ∷ []) × (after ≡ first))
    ⊎ ((ws ≡ backoff_wait random before ∷ []) × (after ≡ next_delay_max before longest))
    ⊎ ((ws ≡ backoff_wait random first ∷ []) × (after ≡ next_delay_max first longest))

abbrev pub HasInt63n : {Error : Type 0} → Round Error → Type 0
HasInt63n r = IsInt63n r.random

module _ {Error : Type 0} (config : Config Error) where
  step-Moves :
      (s : State) (r : Round Error)
      → let (s', v, es) = step config s r in
        Moves r.random (first_delay config) (longest_delay config) s.delay s'.delay (waits es)
  unfolding step
  step-Moves s r = ground arith

  module _ (lo hi : ℕ) (first : first_delay config ≡ pos lo)
      (longest : longest_delay config ≡ pos hi) (le : lo ≤ hi) (small : hi < 2 ^ 62) where
    Moves-Within :
        (random : ℤ → ℤ) (before after : ℤ) (ws : List ℤ)
        → IsInt63n random
        → Moves random (first_delay config) (longest_delay config) before after ws
        → Within lo hi before
        → All (IsWait lo hi) ws × Within lo hi after
    Moves-Within random before after ws law m w = go first_in m
      where
        first_in : Within lo hi (first_delay config)
        first_in = rw first (omega arith)

        next_in : (d : ℤ) → Within lo hi d → Within lo hi (next_delay_max d (longest_delay config))
        next_in d h = rw longest (next_delay_max-Within lo hi d small h)

        waits_in : (d : ℤ) → Within lo hi d → IsWait lo hi (backoff_wait random d)
        waits_in d h = backoff_wait-IsWait random lo hi d law small h

        go :
            Within lo hi (first_delay config)
            → Moves random (first_delay config) (longest_delay config) before after ws
            → All (IsWait lo hi) ws × Within lo hi after
        go f (inl (e, a)) = rw (e, a) (tt, w)
        go f (inr (inl (e, a))) = rw (e, a) (tt, f)
        go f (inr (inr (inl (e, a)))) = rw (e, a) ((waits_in before w, tt), w)
        go f (inr (inr (inr (inl (e, a))))) = rw (e, a) ((waits_in _ f, tt), f)
        go f (inr (inr (inr (inr (inl (e, a)))))) =
            rw (e, a) ((waits_in before w, tt), next_in before w)
        go f (inr (inr (inr (inr (inr (e, a)))))) = rw (e, a) ((waits_in _ f, tt), next_in _ f)

    abbrev Bounded : Outcome config → Type 0
    Bounded (s', v, es) = All (IsWait lo hi) (waits es) × Within lo hi s'.delay

    step-Bounded :
        (s : State) (r : Round Error)
        → IsInt63n r.random
        → Within lo hi s.delay
        → Bounded (step config s r)
    step-Bounded s r law w =
        let (s', v, es) = step config s r in
        Moves-Within r.random s.delay s'.delay (waits es) law (step-Moves s r) w

    run-Bounded :
        (s : State) (rs : List (Round Error))
        → All HasInt63n rs
        → Within lo hi s.delay
        → Bounded (run config s rs)
    run-Bounded s [] laws w = unfold run in (tt, w)
    run-Bounded s (r ∷ rs) laws w =
        run-rule config Bounded s r rs (λ s' v es e. subst Bounded e (step-Bounded s r laws.0 w))
          λ s' es e.
            let (a, b) = subst Bounded e (step-Bounded s r laws.0 w) in
            let (c, d) = run-Bounded s' rs laws.1 b in
            let (s'', v, more) = run config s' rs in
            (rw (waits-append es more) (All-append (IsWait lo hi) (waits es) (waits more) a c), d)

-- If the first delay is positive and not above the longest, and doubling the longest does not
-- overflow, then every wait of the loop is for a delay between the two and for up to half of that
-- delay more, whatever the surroundings answer: a wait may be longer than the longest delay, by half
-- of it at most.
pub run-waits-bounded :
    {Error : Type 0} (config : Config Error) (rounds : List (Round Error)) (lo hi : ℕ)
    → config.reconnect_initial_delay ≡ pos lo
    → config.reconnect_max_delay ≡ pos hi
    → 0 < lo
    → lo ≤ hi
    → hi < 2 ^ 62
    → All HasInt63n rounds
    → All (IsWait lo hi) (waits (run config (start config) rounds).2)
run-waits-bounded config rounds lo hi i m positive le small laws =
    let first : first_delay config ≡ pos lo = rw i (ground arith) in
    let longest : longest_delay config ≡ pos hi = rw (i, m) (ground arith) in
    (run-Bounded config lo hi first longest le small (start config) rounds laws
      (subst (Within lo hi) (sym first) (omega arith))).0
