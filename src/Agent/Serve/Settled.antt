-- ===== src/Agent/Serve/Settled.antt =====
-- What a run of serveConnection of internal/agent/agent.go has answered.
use mockingo_agent.Base.{
  ℕ, zero, suc, ◌+◌, Bool, true, false, ◌&&◌, Option, none, some, List, [], ◌∷◌, ◌++◌, length,
  bytes_eq, ℤ, eq_int, if◌then◌else◌, ◌≡◌, refl, arith, ap, ◌∙◌, sym, subst, All, All-append,
  Bool-cases, Option-cases, inl, inr,
}
use mockingo_agent.Protocol.Message.{Message, version, type_request, type_ping}
use mockingo_agent.Agent.Request.{Local, handle_request}
use mockingo_agent.Agent.Request.Reply.{handle_request-request_id}
use mockingo_agent.Agent.Serve.{
  Kind, skipped, asked, pinged, kind_of, classify, receive_as, Phase, reading, waiting, returned,
  Written, reply, pong, Connection, connected, Event, received, read_failed, finished, all_done,
  take_at, finish_at, serve_in, happen, Run, here, then_step, return_if_idle,
}

-- How many messages of a list pass a test.
abbrev pub tally : (Message → Bool) → List Message → ℕ
tally p [] = 0
tally p (m ∷ ms) = (if p m then 1 else 0) + tally p ms

tally-append : (p : Message → Bool) (a b : List Message) → tally p (a ++ b) ≡ tally p a + tally p b
tally-append p [] b = omega arith
tally-append p (m ∷ a) b = omega (arith, tally-append p a b)

abbrev pub is_request : Message → Bool
is_request m = eq_int m.version version && bytes_eq m.type type_request

-- The requests among the messages that were read.
abbrev pub requests_of : List Event → List Message
requests_of [] = []
requests_of (received m ok ∷ es) = if is_request m then m ∷ requests_of es else requests_of es
requests_of (read_failed ∷ es) = requests_of es
requests_of (finished n lib ok ∷ es) = requests_of es
requests_of (all_done ∷ es) = requests_of es

-- The requests whose reply was written, and those for which the one write of their reply failed.
abbrev pub replied : List Written → List Message
replied [] = []
replied (reply m r true ∷ ws) = m ∷ replied ws
replied (reply m r false ∷ ws) = replied ws
replied (pong ok ∷ ws) = replied ws

abbrev pub unanswered : List Written → List Message
unanswered [] = []
unanswered (reply m r true ∷ ws) = unanswered ws
unanswered (reply m r false ∷ ws) = m ∷ unanswered ws
unanswered (pong ok ∷ ws) = unanswered ws

-- How many of the requests that pass a test have come to an end.
abbrev pub ended : (Message → Bool) → List Written → ℕ
ended p ws = tally p (replied ws) + tally p (unanswered ws)

-- A reply, whether or not its write succeeds, has the identifier of its request.
abbrev pub HasOwnId : Written → Type 0
HasOwnId (reply m r ok) = r.request_id ≡ m.request_id
HasOwnId (pong ok) = Unit

pub record IsSettled (events : List Event) (s : Connection) : Type 0 where
  pub tallies :
      (p : Message → Bool)
      → tally p (requests_of events)
        ≡ tally p s.in_flight + tally p (replied s.written) + tally p (unanswered s.written)
  pub own_ids : All HasOwnId s.written
  pub idle : s.phase ≡ returned → s.in_flight ≡ []

requests_of-append : (a b : List Event) → requests_of (a ++ b) ≡ requests_of a ++ requests_of b
requests_of-append [] b = refl
requests_of-append (received m ok ∷ a) b = elim (Bool-cases (is_request m)) [
  | inl e ↦ rw (e, requests_of-append a b) refl
  | inr e ↦ rw (e, requests_of-append a b) refl
]
requests_of-append (read_failed ∷ a) b = requests_of-append a b
requests_of-append (finished n lib ok ∷ a) b = requests_of-append a b
requests_of-append (all_done ∷ a) b = requests_of-append a b

ended-append : (p : Message → Bool) (a b : List Written) → ended p (a ++ b) ≡ ended p a + ended p b
ended-append p [] b = omega arith
ended-append p (reply m r true ∷ a) b = omega (arith, ended-append p a b)
ended-append p (reply m r false ∷ a) b = omega (arith, ended-append p a b)
ended-append p (pong ok ∷ a) b = ended-append p a b

-- A reply ends one request, whether its write succeeds or fails.
ended-reply :
    (p : Message → Bool) (m r : Message) (ok : Bool)
    → ended p (reply m r ok ∷ []) ≡ (if p m then 1 else 0)
ended-reply p m r true = omega arith
ended-reply p m r false = omega arith

same_message :
    (a b : Message) (r s : List Message)
    → ◌≡◌ {A = Option (Message × List Message)} (some (a, r)) (some (b, s))
    → (a ≡ b) × (r ≡ s)
same_message a b r s h = (cc, cc)

pub take_at-tally :
    (p : Message → Bool) (n : ℕ) (ms : List Message) (m : Message) (rest : List Message)
    → take_at n ms ≡ some (m, rest)
    → (tally p ms ≡ (if p m then 1 else 0) + tally p rest) × (length ms ≡ suc (length rest))
unfolding take_at
take_at-tally p n [] m rest h = cc
take_at-tally p zero (k ∷ ms) m rest h =
    let (a, b) = same_message k m ms rest h in
    (
      omega (arith, ap (λ (x : Message). if◌then◌else◌ {A = ℕ} (p x) 1 0) a, ap (tally p) b),
      ap (λ (l : List Message). suc (length l)) b,
    )
take_at-tally p (suc n) (k ∷ ms) m rest h = elim (Option-cases (take_at n ms)) [
  | inl e ↦ absurd (nothing (rw e at h))
  | inr ((j, left), e) ↦
      let (c, l) = take_at-tally p n ms j left e in
      let (a, b) = same_message j m (k ∷ left) rest (rw e at h) in
      (
        omega (arith, c, ap (λ (x : Message). if◌then◌else◌ {A = ℕ} (p x) 1 0) a, ap (tally p) b),
        omega (arith, l, ap (λ (x : List Message). length x) b),
      )
]
  where
    nothing : ◌≡◌ {A = Option (Message × List Message)} none (some (m, rest)) → ⊥
    nothing e = cc

reading-returned : ◌≡◌ {A = Phase} reading returned → ⊥
reading-returned e = cc

waiting-returned : ◌≡◌ {A = Phase} waiting returned → ⊥
waiting-returned e = cc

pub same_connection : {s t : Connection} → some s ≡ some t → s ≡ t
same_connection h = cc

-- The requests that one event adds to those that were read.
tally_requests :
    (p : Message → Bool) (events : List Event) (event : Event)
    → tally p (requests_of (events ++ (event ∷ [])))
      ≡ tally p (requests_of events) + tally p (requests_of (event ∷ []))
tally_requests p events event =
    ap (tally p) (requests_of-append events (event ∷ []))
    ∙ tally-append p (requests_of events) (requests_of (event ∷ []))

abbrev asked_of : Message → Kind → List Message
asked_of m skipped = []
asked_of m asked = m ∷ []
asked_of m pinged = []

asked_kind :
    (known request ping : Bool) (m : Message)
    → (if known && request then m ∷ [] else []) ≡ asked_of m (kind_of known request ping)
asked_kind true true ping m = refl
asked_kind true false true m = refl
asked_kind true false false m = refl
asked_kind false request ping m = refl

module _ (events : List Event) (s : Connection) (g : IsSettled events s) where
  tally_read :
      (p : Message → Bool) (m : Message) (ok : Bool)
      → tally p (requests_of (events ++ (received m ok ∷ [])))
        ≡ tally p s.in_flight + ended p s.written + tally p (asked_of m (classify m))
  tally_read p m ok = omega (
    arith,
    tally_requests p events (received m ok),
    g.tallies p,
    ap (tally p) (
        asked_kind (eq_int m.version version) (bytes_eq m.type type_request)
          (bytes_eq m.type type_ping) m),
  )

  received-IsSettled :
      (m : Message) (ok : Bool) (k : Kind)
      → s.phase ≡ reading
      → classify m ≡ k
      → IsSettled (events ++ (received m ok ∷ [])) (receive_as s m ok k)
  received-IsSettled m ok skipped at_read e = record {
    tallies = λ p. omega (arith, tally_read p m ok, ap (λ k. tally p (asked_of m k)) e);
    own_ids = g.own_ids;
    idle = g.idle;
  }
  received-IsSettled m ok asked at_read e = record {
    tallies = λ p. omega (
      arith,
      tally_read p m ok,
      ap (λ k. tally p (asked_of m k)) e,
      tally-append p s.in_flight (m ∷ []),
    );
    own_ids = g.own_ids;
    idle = λ e. absurd (reading-returned (sym at_read ∙ e));
  }
  received-IsSettled m ok pinged at_read e = record {
    tallies = λ p. omega (
      arith,
      tally_read p m ok,
      ap (λ k. tally p (asked_of m k)) e,
      ended-append p s.written (pong ok ∷ []),
    );
    own_ids = All-append HasOwnId s.written (pong ok ∷ []) g.own_ids (tt, tt);
    idle = g.idle;
  }

  finish_at-IsSettled :
      (port : ℤ) (n : ℕ) (lib : Local) (ok : Bool) (o : Option (Message × List Message))
      (t : Connection)
      → (s.phase ≡ returned → ⊥)
      → take_at n s.in_flight ≡ o
      → finish_at port s lib ok o ≡ some t
      → IsSettled (events ++ (finished n lib ok ∷ [])) t
  finish_at-IsSettled port n lib ok none t running e h = cc
  finish_at-IsSettled port n lib ok (some (m, rest)) t running e h =
      let r = (handle_request lib port m).1 in
      subst (IsSettled (events ++ (finished n lib ok ∷ []))) (same_connection h) (record {
        tallies = λ p. omega (
          arith,
          tally_requests p events (finished n lib ok),
          g.tallies p,
          (take_at-tally p n s.in_flight m rest e).0,
          ended-append p s.written (reply m r ok ∷ []),
          ended-reply p m r ok,
        );
        own_ids =
            All-append HasOwnId s.written (reply m r ok ∷ []) g.own_ids
              (handle_request-request_id lib port m, tt);
        idle = λ e. absurd (running e);
      })

  quiet-IsSettled :
      (event : Event) (phase : Phase)
      → requests_of (event ∷ []) ≡ []
      → (phase ≡ returned → s.in_flight ≡ [])
      → IsSettled (events ++ (event ∷ [])) (record s { phase = phase })
  quiet-IsSettled event phase e idle = record {
    tallies = λ p. omega (arith, tally_requests p events event, g.tallies p, ap (tally p) e);
    own_ids = g.own_ids;
    idle = idle;
  }

  return-IsSettled :
      (ms : List Message) (t : Connection)
      → s.in_flight ≡ ms
      → return_if_idle s ms ≡ some t
      → IsSettled (events ++ (all_done ∷ [])) t
  return-IsSettled (m ∷ ms) t e h = cc
  return-IsSettled [] t e h =
      subst (IsSettled (events ++ (all_done ∷ []))) (same_connection h)
        (quiet-IsSettled all_done returned refl (λ r. e))

  serve_in-IsSettled :
      (port : ℤ) (phase : Phase) (event : Event) (t : Connection)
      → s.phase ≡ phase
      → serve_in port s phase event ≡ some t
      → IsSettled (events ++ (event ∷ [])) t
  serve_in-IsSettled port reading (received m ok) t e h =
      subst (IsSettled (events ++ (received m ok ∷ []))) (same_connection h)
        (received-IsSettled m ok (classify m) e refl)
  serve_in-IsSettled port reading read_failed t e h =
      subst (IsSettled (events ++ (read_failed ∷ []))) (same_connection h)
        (quiet-IsSettled read_failed waiting refl (λ r. absurd (waiting-returned r)))
  serve_in-IsSettled port reading (finished n lib ok) t e h =
      finish_at-IsSettled port n lib ok (take_at n s.in_flight) t
        (λ r. reading-returned (sym e ∙ r)) refl h
  serve_in-IsSettled port reading all_done t e h = cc
  serve_in-IsSettled port waiting (received m ok) t e h = cc
  serve_in-IsSettled port waiting read_failed t e h = cc
  serve_in-IsSettled port waiting (finished n lib ok) t e h =
      finish_at-IsSettled port n lib ok (take_at n s.in_flight) t
        (λ r. waiting-returned (sym e ∙ r)) refl h
  serve_in-IsSettled port waiting all_done t e h = return-IsSettled s.in_flight t refl h
  serve_in-IsSettled port returned event t e h = cc

-- However the reads, the ends of the goroutines and the writes of a connection interleave: of the
-- requests that were read, each is still being handled, or its reply was written once, or the one
-- write of its reply failed, whichever test the requests are counted by; whatever was to be written
-- as a reply has the identifier of its request; and a connection is left only when no request is
-- being handled. After a failed read the socket is closed, and writes may fail: then a request ends
-- without a reply.
pub Run-IsSettled :
    {port : ℤ} {events : List Event} {s : Connection}
    → Run port connected events s
    → IsSettled events s
Run-IsSettled here = record { tallies = λ p. omega arith; own_ids = tt; idle = λ r. refl }
Run-IsSettled {port} (then_step {events} {t} event run (happen e u h)) =
    serve_in-IsSettled events t (Run-IsSettled run) port t.phase event u refl h
