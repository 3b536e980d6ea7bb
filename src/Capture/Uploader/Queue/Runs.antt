-- ===== src/Capture/Uploader/Queue/Runs.antt =====
-- The queue of internal/dependencycapture/uploader.go: what every run keeps.
use mockingo_agent.Base.{
  ℕ, ◌+◌, ◌≤◌, Bool, true, false, List, [], ◌∷◌, ◌++◌, map, length, length-append, append-nil,
  append_assoc, ◌≡◌, refl, ap, sym, ◌∙◌, subst, arith, All, All-append, Bool-cases, Option-cases,
  inl, inr, ltb, ℤ,
}
use mockingo_agent.Protocol.Message.{DependencyInteraction}
use mockingo_agent.Protocol.Text.{Externals}
use mockingo_agent.Protocol.Validation.{validate}
use mockingo_agent.Capture.Uploader.{
  Uploader, new_uploader, Effect, drop_reported, written, sent_reported, event_ready, ticked,
  context_done, reader_failed, enqueue, write_step, dropped, drop_interval, interaction_message,
  rejected, try_send, take_event,
}
use mockingo_agent.Capture.Uploader.Queue.{
  Action, sends, writes, first_of, Trace, delivered, written_events, events, dependency_of,
  enqueued, wrote, act, after, run_actions, warnings, Spaced, Sendable,
}

-- What a step, and a run, has done to the uploader.
pub record Keeps (ext : Externals) (u : Uploader) (t : Trace) : Type 0 where
  pub order : u.queue ++ t.accepted ≡ events t.taken ++ t.uploader.queue
  pub delivery : written_events t.effects ≡ delivered t.taken
  pub bound : length u.queue ≤ u.capacity → length t.uploader.queue ≤ t.uploader.capacity
  pub capacity : t.uploader.capacity ≡ u.capacity
  pub sendable :
      All (Sendable ext) u.queue
      → All (Sendable ext) (events t.taken) × All (Sendable ext) t.uploader.queue
  pub spaced : Spaced u.last_drop_warning (warnings t.effects) t.uploader.last_drop_warning

map-append :
    (f : DependencyInteraction × Bool → DependencyInteraction)
    (a b : List (DependencyInteraction × Bool))
    → map f (a ++ b) ≡ map f a ++ map f b
map-append f [] b = refl
map-append f (x ∷ a) b = ap (λ (l : List DependencyInteraction). f x ∷ l) (map-append f a b)

delivered-append :
    (a b : List (DependencyInteraction × Bool)) → delivered (a ++ b) ≡ delivered a ++ delivered b
delivered-append [] b = refl
delivered-append ((event, true) ∷ a) b =
    ap (λ (l : List DependencyInteraction). event ∷ l) (delivered-append a b)
delivered-append ((event, false) ∷ a) b = delivered-append a b

written_events-append :
    (a b : List Effect) → written_events (a ++ b) ≡ written_events a ++ written_events b
written_events-append [] b = refl
written_events-append (written m ∷ a) b =
    ap (◌++◌ (dependency_of m.dependency)) (written_events-append a b)
    ∙ sym (append_assoc (dependency_of m.dependency) (written_events a) (written_events b))
written_events-append (drop_reported now ∷ a) b = written_events-append a b
written_events-append (sent_reported ∷ a) b = written_events-append a b

warnings-append : (a b : List Effect) → warnings (a ++ b) ≡ warnings a ++ warnings b
warnings-append [] b = refl
warnings-append (drop_reported now ∷ a) b = ap (λ (l : List ℕ). now ∷ l) (warnings-append a b)
warnings-append (written m ∷ a) b = warnings-append a b
warnings-append (sent_reported ∷ a) b = warnings-append a b

Spaced-append :
    (previous middle last : ℕ) (a b : List ℕ)
    → Spaced previous a middle
    → Spaced middle b last
    → Spaced previous (a ++ b) last
Spaced-append previous middle last [] b e h = subst (λ n. Spaced n b last) e h
Spaced-append previous middle last (now ∷ a) b (le, rest) h =
    (le, Spaced-append now middle last a b rest h)

-- Two stretches of a run, one after the other.
in_order :
    (q a a' q' q'' : List DependencyInteraction) (t t' : List (DependencyInteraction × Bool))
    → q ++ a ≡ events t ++ q'
    → q' ++ a' ≡ events t' ++ q''
    → q ++ (a ++ a') ≡ events (t ++ t') ++ q''
in_order q a a' q' q'' t t' p p' =
    sym (append_assoc q a a')
    ∙ ap (λ (l : List DependencyInteraction). l ++ a') p
    ∙ append_assoc (events t) q' a'
    ∙ ap (◌++◌ (events t)) p'
    ∙ sym (append_assoc (events t) (events t') q'')
    ∙ ap (λ (l : List DependencyInteraction). l ++ q'')
        (sym (map-append (λ (p : DependencyInteraction × Bool). p.0) t t'))

module _ (ext : Externals) where
  dropped-rule :
      (P : Uploader × List Effect → Type 0) (now : ℕ) (u : Uploader)
      → P (u, [])
      → (u.last_drop_warning + drop_interval ≤ now
          → P (record u { last_drop_warning = now }, drop_reported now ∷ []))
      → P (dropped now u)
  unfolding dropped
  dropped-rule P now u quiet loud =
      elim (Bool-cases (ltb now (u.last_drop_warning + drop_interval))) [
        | inl early ↦ rw early quiet
        | inr late ↦ rw late (loud (ground (arith, late)))
      ]

  rejected-Keeps :
      (now : ℕ) (u : Uploader) (event : DependencyInteraction)
      → Keeps ext u (enqueued event (rejected now u))
  rejected-Keeps now u event =
      dropped-rule (λ d. Keeps ext u (enqueued event (d.0, false, d.1))) now u
        (record {
          order = append-nil u.queue;
          delivery = refl;
          bound = λ h. h;
          capacity = refl;
          sendable = λ h. (tt, h);
          spaced = refl;
        })
        (λ late. record {
          order = append-nil u.queue;
          delivery = refl;
          bound = λ h. h;
          capacity = refl;
          sendable = λ h. (tt, h);
          spaced = (late, refl);
        })

  sent-Keeps :
      (now : ℕ) (u : Uploader) (event : DependencyInteraction)
      → Sendable ext event
      → Keeps ext u (enqueued event (try_send now u event))
  sent-Keeps now u event fine = elim (Bool-cases (ltb (length u.queue) u.capacity)) [
    | inr full ↦ rw full (rejected-Keeps now u event)
    | inl room ↦ rw room (record {
      order = refl;
      delivery = refl;
      bound = λ h. ground (arith, room, length-append u.queue (event ∷ []));
      capacity = refl;
      sendable = λ h. (tt, All-append (Sendable ext) u.queue (event ∷ []) h (fine, tt));
      spaced = refl;
    })
  ]

  enqueue-Keeps :
      (now : ℕ) (u : Uploader) (event : DependencyInteraction)
      → Keeps ext u (enqueued event (enqueue ext now u event))
  unfolding enqueue
  enqueue-Keeps now u event = elim (Option-cases (validate ext (interaction_message event))) [
    | inl fine ↦ rw (enqueue, fine) (sent-Keeps now u event fine)
    | inr (e, bad) ↦ rw (enqueue, bad) (rejected-Keeps now u event)
  ]

  shorter :
      (u : Uploader) (event : DependencyInteraction) (rest : List DependencyInteraction)
      → u.queue ≡ event ∷ rest
      → length u.queue ≤ u.capacity
      → length rest ≤ u.capacity
  shorter u event rest e h = omega (arith, h, ap length e)

  head_and_rest :
      (u : Uploader) (event : DependencyInteraction) (rest : List DependencyInteraction)
      → u.queue ≡ event ∷ rest
      → All (Sendable ext) u.queue
      → All (Sendable ext) (event ∷ []) × All (Sendable ext) rest
  head_and_rest u event rest e h =
      let g : All (Sendable ext) (event ∷ rest) = subst (λ q. All (Sendable ext) q) e h in
      ((g.0, tt), g.1)

  idle-Keeps :
      (u : Uploader) (goes_on : Bool) (es : List Effect)
      → written_events es ≡ []
      → warnings es ≡ []
      → Keeps ext u (wrote [] (u, goes_on, es))
  idle-Keeps u goes_on es none_written none_warned = record {
    order = append-nil u.queue;
    delivery = none_written;
    bound = λ h. h;
    capacity = refl;
    sendable = λ h. (tt, h);
    spaced = rw none_warned refl;
  }

  take_event-Keeps :
      (now : ℕ) (success : Bool) (u : Uploader) (q : List DependencyInteraction)
      → u.queue ≡ q
      → Keeps ext u (wrote (first_of success q) (take_event now success u q))
  take_event-Keeps now success u [] e = idle-Keeps u true [] refl refl
  take_event-Keeps now true u (event ∷ rest) e = record {
    order = append-nil u.queue ∙ e;
    delivery = refl;
    bound = shorter u event rest e;
    capacity = refl;
    sendable = head_and_rest u event rest e;
    spaced = refl;
  }
  take_event-Keeps now false u (event ∷ rest) e =
      dropped-rule (λ d. Keeps ext u (wrote ((event, false) ∷ []) (d.0, false, d.1))) now
        (record u { queue = rest })
        (record {
          order = append-nil u.queue ∙ e;
          delivery = refl;
          bound = shorter u event rest e;
          capacity = refl;
          sendable = head_and_rest u event rest e;
          spaced = refl;
        })
        (λ late. record {
          order = append-nil u.queue ∙ e;
          delivery = refl;
          bound = shorter u event rest e;
          capacity = refl;
          sendable = head_and_rest u event rest e;
          spaced = (late, refl);
        })

  act-Keeps : (u : Uploader) (a : Action) → Keeps ext u (act ext u a)
  unfolding write_step
  act-Keeps u (sends now event) = enqueue-Keeps now u event
  act-Keeps u (writes (event_ready now success)) = take_event-Keeps now success u u.queue refl
  act-Keeps u (writes (ticked now true)) = idle-Keeps u true _ refl refl
  act-Keeps u (writes (ticked now false)) = idle-Keeps u false [] refl refl
  act-Keeps u (writes context_done) = idle-Keeps u false [] refl refl
  act-Keeps u (writes reader_failed) = idle-Keeps u false [] refl refl

  after-Keeps :
      (u : Uploader) (t t' : Trace)
      → Keeps ext u t
      → Keeps ext t.uploader t'
      → Keeps ext u (after t t')
  after-Keeps u t t' k k' = record {
    order =
        in_order u.queue t.accepted t'.accepted t.uploader.queue t'.uploader.queue t.taken t'.taken
          k.order k'.order;
    delivery =
        rw
          (
            written_events-append t.effects t'.effects,
            delivered-append t.taken t'.taken,
            k.delivery,
            k'.delivery,
          )
          refl;
    bound = λ h. k'.bound (k.bound h);
    capacity = k'.capacity ∙ k.capacity;
    sendable = λ h.
        let (a, b) = k.sendable h in
        let (c, d) = k'.sendable b in
        (
          rw (map-append (λ (p : DependencyInteraction × Bool). p.0) t.taken t'.taken)
              (All-append (Sendable ext) (events t.taken) (events t'.taken) a c),
          d,
        );
    spaced = rw (warnings-append t.effects t'.effects) (
        Spaced-append u.last_drop_warning t.uploader.last_drop_warning t'.uploader.last_drop_warning
          (warnings t.effects) (warnings t'.effects) k.spaced k'.spaced);
  }

  pub run_actions-Keeps :
      (u : Uploader) (actions : List Action) → Keeps ext u (run_actions ext u actions)
  unfolding run_actions
  run_actions-Keeps u [] = record {
    order = append-nil u.queue;
    delivery = refl;
    bound = λ h. h;
    capacity = refl;
    sendable = λ h. (tt, h);
    spaced = refl;
  }
  run_actions-Keeps u (a ∷ actions) =
      after-Keeps u (act ext u a) (run_actions ext (act ext u a).uploader actions) (act-Keeps u a)
        (run_actions-Keeps (act ext u a).uploader actions)

module _ (ext : Externals) (queue_size : ℤ) (actions : List Action) where
  abbrev done : Trace
  done = run_actions ext (new_uploader queue_size) actions

  -- Whatever calls of Enqueue and rounds of the writer follow each other, across connections, from
  -- a new uploader: the interactions for which Enqueue returned true are those that the writer has
  -- taken, with their success, and after them those that are queued, in this order; and those among
  -- the messages on the sockets are the ones that were taken with success, in this order.
  pub run_actions-order :
      (done.accepted ≡ events done.taken ++ done.uploader.queue)
      × (written_events done.effects ≡ delivered done.taken)
  run_actions-order =
      let k = run_actions-Keeps ext (new_uploader queue_size) actions in (k.order, k.delivery)

  -- In any such run the queue never has more interactions than its capacity, every interaction that
  -- was taken or is queued makes a message that the protocol's validator accepts, and two warnings
  -- of dropped interactions are at least ten seconds apart.
  pub run_actions-bounded :
      (length done.uploader.queue ≤ (new_uploader queue_size).capacity)
      × All (Sendable ext) (events done.taken ++ done.uploader.queue)
      × Spaced 0 (warnings done.effects) done.uploader.last_drop_warning
  run_actions-bounded =
      let k = run_actions-Keeps ext (new_uploader queue_size) actions in
      let (a, b) = k.sendable tt in
      (
        subst (λ (n : ℕ). length done.uploader.queue ≤ n) k.capacity (k.bound (omega arith)),
        All-append (Sendable ext) (events done.taken) done.uploader.queue a b,
        k.spaced,
      )
