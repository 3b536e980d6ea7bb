-- ===== src/Agent/Serve/Drained.antt =====
-- How requests.Wait of serveConnection in internal/agent/agent.go comes to its end.
use mockingo_agent.Base.{
  ℕ, suc, ◌+◌, Bool, true, Option, none, some, List, [], ◌∷◌, length, length-append, ℤ, ◌≡◌, refl,
  arith, ap, ◌∙◌, sym, subst, inl, inr, ◌⊎◌,
}
use mockingo_agent.Protocol.Message.{Message}
use mockingo_agent.Agent.Request.{Local}
use mockingo_agent.Agent.Serve.{
  waiting, returned, Connection, Event, received, read_failed, finished, all_done, take_at,
  finish_at, serve_in, return_if_idle, Step, happen, Run, here, then_step,
}
use mockingo_agent.Agent.Serve.Settled.{take_at-tally, same_connection}

module _ (port : ℤ) where
  -- After a number of steps, with as many as `all` in the whole: still waiting, with a step that can
  -- be made and one more left than there are goroutines; or returned, with none left.
  abbrev pub IsDraining : ℕ → ℕ → Connection → Type 0
  IsDraining done all t =
      ((t.phase ≡ waiting)
        × (done + suc (length t.in_flight) ≡ all)
        × ((event : Event) × (u : Connection) × Step port t event u))
      ⊎ ((t.phase ≡ returned) × (done ≡ all))

  can-Step :
      (lib : Local) (t : Connection) (ms : List Message)
      → t.phase ≡ waiting
      → t.in_flight ≡ ms
      → (event : Event) × (u : Connection) × Step port t event u
  unfolding take_at
  can-Step lib t [] w e = (
    all_done,
    record t { phase = returned },
    happen all_done _ (ap (λ p. serve_in port t p all_done) w ∙ ap (return_if_idle t) e),
  )
  can-Step lib t (m ∷ ms) w e = (
    finished 0 lib true,
    _,
    happen (finished 0 lib true) _ (
        ap (λ p. serve_in port t p (finished 0 lib true)) w
        ∙ ap (λ l. finish_at port t lib true (take_at 0 l)) e),
  )

  finish_at-left :
      (lib : Local) (ok : Bool) (n : ℕ) (s t : Connection) (o : Option (Message × List Message))
      → take_at n s.in_flight ≡ o
      → finish_at port s lib ok o ≡ some t
      → (t.phase ≡ s.phase) × (length s.in_flight ≡ suc (length t.in_flight))
  finish_at-left lib ok n s t none e h = cc
  finish_at-left lib ok n s t (some (m, rest)) e h =
      let same = same_connection h in
      (
        ap (λ (c : Connection). c.phase) (sym same),
        (take_at-tally (λ m. true) n s.in_flight m rest e).1
            ∙ ap (λ (c : Connection). suc (length c.in_flight)) same,
      )

  return-left :
      (s t : Connection) (ms : List Message)
      → s.in_flight ≡ ms
      → return_if_idle s ms ≡ some t
      → (t.phase ≡ returned) × (length s.in_flight ≡ 0)
  return-left s t (m ∷ ms) e h = cc
  return-left s t [] e h = (ap (λ (c : Connection). c.phase) (sym (same_connection h)), ap length e)

  serve_in-left :
      (all done : ℕ) (lib : Local) (s t : Connection) (event : Event)
      → done + suc (length s.in_flight) ≡ all
      → s.phase ≡ waiting
      → serve_in port s waiting event ≡ some t
      → IsDraining (done + 1) all t
  serve_in-left all done lib s t (received m ok) e w h = cc
  serve_in-left all done lib s t read_failed e w h = cc
  serve_in-left all done lib s t (finished n l ok) e w h =
      let (p, fewer) = finish_at-left l ok n s t (take_at n s.in_flight) refl h in
      inl (p ∙ w, omega arith, can-Step lib t t.in_flight (p ∙ w) refl)
  serve_in-left all done lib s t all_done e w h =
      let (p, idle) = return-left s t s.in_flight refl h in inr (p, omega arith)

-- Once a read has failed, with n requests being handled, every run goes on, one step after another,
-- until it has made n + 1 steps, and then the connection has been left: requests.Wait ends, if each
-- call of handleRequest does.
pub Run-IsDraining :
    {port : ℤ} {s : Connection} (lib : Local)
    → s.phase ≡ waiting
    → {events : List Event} {t : Connection} → Run port s events t
    → IsDraining port (length events) (suc (length s.in_flight)) t
Run-IsDraining {port} {s} lib w here = inl (w, omega arith, can-Step port lib s s.in_flight w refl)
Run-IsDraining {port} {s} lib w (then_step {events = es} {t} event run (happen e u h)) =
    elim (Run-IsDraining lib w run) [
      | inl (p, left, more) ↦
          subst (λ n. IsDraining port n (suc (length s.in_flight)) u)
            (sym (length-append es (event ∷ [])))
            (serve_in-left port (suc (length s.in_flight)) (length es) lib t u event left p
              (subst (λ q. serve_in port t q event ≡ some u) p h))
      | inr (p, all) ↦ absurd (stuck (subst (λ q. serve_in port t q event ≡ some u) p h))
    ]
  where
    stuck : {u : Connection} → none ≡ some u → ⊥
    stuck h = cc
