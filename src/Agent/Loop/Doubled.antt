-- ===== src/Agent/Loop/Doubled.antt =====
-- How the delay of runTicket of internal/agent/agent.go grows while the connection fails.
use native.Mathlib.Nat.{pow-suc}
use mockingo_agent.Base.{
  ℕ, suc, ◌+◌, ◌*◌, ◌^◌, ◌≤◌, ◌<◌, min, true, false, Option, none, some, List, [], ◌∷◌, length, ℤ,
  pos, ◌≡◌, refl, arith, ap, ◌∙◌, sym, subst, ◌⊎◌, inl, inr,
}
use mockingo_agent.Agent.Gateway.{
  GatewayError, retryable_gateway_error, decode_gateway_error, endpoint_virtualized_disconnect,
}
use mockingo_agent.Agent.Backoff.{next_delay_max, next_delay_max-pos, backoff_wait}
use mockingo_agent.Agent.Loop.Delays.{waits, waits-append}
use mockingo_agent.Agent.Loop.{
  Config, Session, Acquired, granted, refused, Dialled, connected, failed, Round, State, Outcome,
  step, run, then_run, first_delay, longest_delay, is_retryable,
}

abbrev MayRetry : Option GatewayError → Type 0
MayRetry none = Unit
MayRetry (some gateway) = retryable_gateway_error (some gateway) ≡ true

abbrev pub DialFails : {Error : Type 0} → Dialled Error → Type 0
DialFails connected = ⊥
DialFails (failed response e) = MayRetry (decode_gateway_error response)

-- The waits of rounds that fail from the k-th on: the k-th delay is the first one doubled k times,
-- cut off at the longest.
abbrev pub doubled_waits : {Error : Type 0} → ℕ → ℕ → ℕ → List (Round Error) → List ℤ
doubled_waits first longest k [] = []
doubled_waits first longest k (r ∷ rs) =
    backoff_wait r.random (pos (min (first * 2 ^ k) longest))
    ∷ doubled_waits first longest (suc k) rs

module _ {Error : Type 0} (config : Config Error) where
  abbrev pub AcquiredFails : Round Error → Acquired Error → Type 0
  AcquiredFails r (granted session) = DialFails r.dialled
  AcquiredFails r (refused e) = (is_retryable config e ≡ true) × (r.cancelled_acquire ≡ false)

  abbrev pub SessionFails : Round Error → Option Session → Type 0
  SessionFails r (some session) = DialFails r.dialled
  SessionFails r none = AcquiredFails r r.acquired

  -- A round that gets no connection, for an error that may be retried, and is not cancelled.
  abbrev pub Fails : Option Session → Round Error → Type 0
  Fails next r =
      (r.cancelled ≡ false)
      × (r.cancelled_dial ≡ false)
      × (r.cancelled_wait ≡ false)
      × SessionFails r next

  -- The first of the rounds may use a session that the loop holds.
  abbrev pub AllFail : Option Session → List (Round Error) → Type 0
  AllFail next [] = Unit
  AllFail next (r ∷ rs) = Fails next r × AllFail none rs

  abbrev pub IsGranted : Acquired Error → Type 0
  IsGranted (granted session) = Unit
  IsGranted (refused e) = ⊥

  abbrev pub HasSession : Round Error → Option Session → Type 0
  HasSession r (some session) = Unit
  HasSession r none = IsGranted r.acquired

  -- A round that gets a connection and loses it, and is not cancelled.
  abbrev pub Loses : Option Session → Round Error → Type 0
  Loses next r =
      (r.cancelled ≡ false)
      × HasSession r next
      × (r.dialled ≡ connected)
      × (r.cancelled_serve ≡ false)
      × (endpoint_virtualized_disconnect r.ended ≡ false)
      × (r.cancelled_wait ≡ false)

  -- A first round: it fails at the first delay, or it loses a connection, whatever the delay was.
  abbrev pub Starts : State → Round Error → Type 0
  Starts s r = (Fails s.next r × (s.delay ≡ first_delay config)) ⊎ Loses s.next r

  -- What a round comes to that has waited for a delay and goes on.
  abbrev Waited : ℤ → Round Error → Outcome config → Type 0
  Waited d r (s', v, es) =
      (v ≡ none)
      × (s'.delay ≡ next_delay_max d (longest_delay config))
      × (s'.next ≡ none)
      × (waits es ≡ backoff_wait r.random d ∷ [])

  step-Waited :
      (s : State) (r : Round Error)
      → config.reconnect_enabled ≡ true
      → Fails s.next r
      → Waited s.delay r (step config s r)
  unfolding step
  step-Waited s r enabled f = ground arith

  lost-Waited :
      (s : State) (r : Round Error)
      → config.reconnect_enabled ≡ true
      → Loses s.next r
      → Waited (first_delay config) r (step config s r)
  unfolding step
  lost-Waited s r enabled f = ground arith

  start-Waited :
      (s : State) (r : Round Error)
      → config.reconnect_enabled ≡ true
      → Starts s r
      → Waited (first_delay config) r (step config s r)
  start-Waited s r enabled (inl (f, e)) =
      subst (λ d. Waited d r (step config s r)) e (step-Waited s r enabled f)
  start-Waited s r enabled (inr f) = lost-Waited s r enabled f

  module _ (lo hi : ℕ) (longest : longest_delay config ≡ pos hi) (small : hi < 2 ^ 62)
      (enabled : config.reconnect_enabled ≡ true) where
    abbrev delay_at : ℕ → ℤ
    delay_at k = pos (min (lo * 2 ^ k) hi)

    -- A run that waits in each of its rounds.
    abbrev pub Doubles : ℕ → List (Round Error) → Outcome config → Type 0
    Doubles k rs (s', v, es) =
        (v ≡ none)
        × (s'.delay ≡ pos (min (lo * 2 ^ (k + length rs)) hi))
        × (waits es ≡ doubled_waits lo hi k rs)

    next_delay_at : (k : ℕ) → next_delay_max (delay_at k) (longest_delay config) ≡ delay_at (suc k)
    next_delay_at k = rw longest (
        next_delay_max-pos (min (lo * 2 ^ k) hi) hi small (omega arith)
        ∙ ap pos (doubled lo (2 ^ k) (2 ^ suc k) hi (simp pow-suc (omega arith))))
      where
        doubled :
            (first p q longest : ℕ)
            → q ≡ 2 * p
            → min (min (first * p) longest * 2) longest ≡ min (first * q) longest
        doubled first p q longest e = rw e (omega arith)

    then_run-Doubles :
        (k : ℕ) (r : Round Error) (rs : List (Round Error)) (o : Outcome config)
        → Waited (delay_at k) r o
        → ((s : State)
            → s.next ≡ none
            → s.delay ≡ delay_at (suc k)
            → Doubles (suc k) rs (run config s rs))
        → Doubles k (r ∷ rs) (then_run config o (λ s. run config s rs))
    then_run-Doubles k r rs (s, some v, es) (stop, d, n, w) rest = cc
    then_run-Doubles k r rs (s, none, es) (stop, d, n, w) rest =
        let (v, delay, ws) = rest s n (d ∙ next_delay_at k) in
        let (s', v', more) = run config s rs in
        (
          v,
          delay ∙ ap (λ (n : ℕ). pos (min (lo * 2 ^ n) hi)) (omega arith),
          waits-append es more ∙ rw (w, ws) refl,
        )

    fails-Doubles :
        (k : ℕ) (s : State) (rs : List (Round Error))
        → AllFail s.next rs
        → s.delay ≡ delay_at k
        → Doubles k rs (run config s rs)
    unfolding run
    fails-Doubles k s [] f d =
        (refl, d ∙ ap (λ (n : ℕ). pos (min (lo * 2 ^ n) hi)) (omega arith), refl)
    fails-Doubles k s (r ∷ rs) (f, fs) d =
        then_run-Doubles k r rs (step config s r)
          (subst (λ d. Waited d r (step config s r)) d (step-Waited s r enabled f))
          (λ s' n d'. fails-Doubles (suc k) s' rs (subst (λ n. AllFail n rs) (sym n) fs) d')

-- With reconnection enabled, take a round that loses its connection, whatever the delay had grown
-- to, or one that fails at the first delay, and then rounds that fail one after the other for errors
-- that may be retried, none of them cancelled. If the first delay is not above the longest, and
-- doubling the longest does not overflow, then the loop goes on, it waits once in each round, for
-- the first delay doubled once for each round before it and cut off at the longest, and for what
-- waitBackoff adds; and the next delay follows the same rule.
pub run-doubled :
    {Error : Type 0} (config : Config Error) (lo hi : ℕ) (s : State) (r : Round Error)
    (rs : List (Round Error))
    → config.reconnect_enabled ≡ true
    → first_delay config ≡ pos lo
    → longest_delay config ≡ pos hi
    → lo ≤ hi
    → hi < 2 ^ 62
    → Starts config s r
    → AllFail config none rs
    → let (s', v, es) = run config s (r ∷ rs) in
      (v ≡ none)
      × (s'.delay ≡ pos (min (lo * 2 ^ suc (length rs)) hi))
      × (waits es ≡ doubled_waits lo hi 0 (r ∷ rs))
unfolding run
run-doubled config lo hi s r rs enabled first longest le small f fs =
    let (v, d, w) =
      then_run-Doubles config lo hi longest small enabled 0 r rs (step config s r)
        (subst (λ d. Waited config d r (step config s r)) (first ∙ ap pos (omega arith))
          (start-Waited config s r enabled f))
        λ s' n d.
          fails-Doubles config lo hi longest small enabled 1 s' rs
            (subst (λ n. AllFail config n rs) (sym n) fs) d in
    (v, d ∙ ap (λ (n : ℕ). pos (min (lo * 2 ^ n) hi)) (omega arith), w)
