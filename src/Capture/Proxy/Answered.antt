-- ===== src/Capture/Proxy/Answered.antt =====
-- internal/dependencycapture/proxy.go: the answer of forward, when the store has a behavior for the
-- request.
use mockingo_agent.Base.{
  Bool, true, false, Option, none, some, [], Bytes, codes, ℤ, if◌then◌else◌, ◌≡◌, refl, ap, ◌∙◌,
  sym, subst, In,
}
use mockingo_agent.Protocol.Message.{
  HeaderMap, Headers, DependencyBehavior, DependencyInteraction, DependencyBehaviorSnapshot,
}
use mockingo_agent.Protocol.Text.{Externals, validate_headers}
use mockingo_agent.Protocol.Text.Accepted.{IpLaws}
use mockingo_agent.Protocol.Validation.{fails, bad_scheme, validate}
use mockingo_agent.Protocol.Validation.Config.{Accepted-In}
use mockingo_agent.Capture.Target.{Authorities, target_host_port}
use mockingo_agent.Capture.Behaviors.{
  BehaviorStore, elements, config_message, replace, match_behavior,
}
use mockingo_agent.Capture.Behaviors.History.{Accepted-behaviors, match-replace}
use mockingo_agent.Capture.Body.{Decoders}
use mockingo_agent.Capture.HopHeaders.{copy_headers}
use mockingo_agent.Capture.Proxy.{
  ProxyRequest, Url, Occasion, Outgoing, RoundTrip, Handled, response, scheme_of, authority_of,
  replay_headers, replay_response, replay, replay_or_pass, forward_url, forward,
}

-- What a request with a known scheme and a target comes to.
module _ (lib : Authorities) (dec : Decoders) (store : Option BehaviorStore)
    (round_trip : Outgoing → RoundTrip) (now : Occasion) (request : ProxyRequest)
    (forced_scheme forced_authority : Bytes) (url : Url) (scheme host : Bytes) (port : ℤ)
    (u : request.url ≡ some url) (s : scheme_of forced_scheme url ≡ scheme)
    (known : bad_scheme scheme ≡ false)
    (t : target_host_port lib (authority_of forced_scheme forced_authority url) scheme
      ≡ some (host, port)) where
  pub forward-target :
      forward lib dec store round_trip now request forced_scheme forced_authority
      ≡ replay_or_pass lib dec store round_trip now request url scheme
          (authority_of forced_scheme forced_authority url)
          host
          port
          (match_behavior store scheme host port request.method url.path)
  unfolding forward
  forward-target =
      ap (forward_url lib dec store round_trip now request forced_scheme forced_authority) u
      ∙ rw (s, known, t) refl

stored_headers :
    (o : Headers) (body : Bytes)
    → fails (validate_headers o) ≡ false
    → (written : HeaderMap) × (replay_headers o body ≡ some written)
unfolding replay_headers validate_headers
stored_headers none body h = cc
stored_headers (some headers) body h = (_, refl)

-- A replay that sends nothing upstream, and is reported as one.
pub record IsReplay (h : Handled) (b : DependencyBehavior) : Type 0 where
  pub written : HeaderMap
  pub answered : h.answer ≡ response b.status written b.body
  pub unsent : h.sent ≡ none
  pub reported : DependencyInteraction
  pub event : h.event ≡ some reported
  pub handled_by : reported.handled_by ≡ codes "REPLAY"
  pub status : reported.response.status ≡ b.status

if_false : (b : Bool) (x y : Handled) → b ≡ false → (if b then x else y) ≡ y
if_false true x y e = cc
if_false false x y e = refl

replay-IsReplay :
    (dec : Decoders) (now : Occasion) (request : ProxyRequest) (url : Url) (scheme host : Bytes)
    (port : ℤ) (b : DependencyBehavior)
    → fails (validate_headers b.headers) ≡ false
    → request.body.broken ≡ false
    → IsReplay (replay dec now request url scheme host port b) b
unfolding replay
replay-IsReplay dec now request url scheme host port b valid whole =
    let (written, e) = stored_headers b.headers b.body valid in
    subst (λ h. IsReplay h b)
      (sym (
        if_false request.body.broken _ _ whole
        ∙ ap (replay_response dec now request url scheme host port b) e))
      (record {
        written = copy_headers written [];
        answered = refl;
        unsent = refl;
        reported = _;
        event = refl;
        handled_by = refl;
        status = refl;
      })

-- Once the store has taken a valid snapshot, a request for the scheme, host, port, method and path
-- of one of its behaviors, whatever port and spelling the authority has, is answered with the
-- behavior's status and body, nothing is sent upstream, and an interaction is reported as a replay
-- with that status, if the request's body can be read.
pub forward-IsReplay :
    (ext : Externals) (laws : IpLaws ext) (lib : Authorities) (dec : Decoders) (s : BehaviorStore)
    (snapshot : DependencyBehaviorSnapshot) (b : DependencyBehavior)
    (round_trip : Outgoing → RoundTrip) (now : Occasion) (request : ProxyRequest)
    (forced_scheme forced_authority : Bytes) (url : Url)
    → validate ext (config_message snapshot) ≡ none
    → In b (elements snapshot.behaviors)
    → request.url ≡ some url
    → scheme_of forced_scheme url ≡ b.scheme
    → target_host_port lib (authority_of forced_scheme forced_authority url) b.scheme
      ≡ some (b.host, b.port)
    → request.method ≡ b.method
    → url.path ≡ b.path
    → request.body.broken ≡ false
    → IsReplay
        (forward lib dec
          (some (replace ext s snapshot).0)
          round_trip
          now
          request
          forced_scheme
          forced_authority)
        b
forward-IsReplay ext laws lib dec s snapshot b round_trip now request forced_scheme forced_authority
      url accepted i u e t m p whole =
    let store = some (replace ext s snapshot).0 in
    let r = Accepted-In ext [] (Accepted-behaviors ext snapshot accepted) i in
    let found : match_behavior store b.scheme b.host b.port request.method url.path ≡ some b =
      rw (m, p) (match-replace ext s snapshot accepted laws b i) in
    subst (λ h. IsReplay h b)
      (sym (
        forward-target lib dec store round_trip now request forced_scheme forced_authority url
          b.scheme b.host b.port u e r.scheme_known t
        ∙ ap
            (replay_or_pass lib dec store round_trip now request url b.scheme
              (authority_of forced_scheme forced_authority url) b.host b.port)
            found))
      (replay-IsReplay dec now request url b.scheme b.host b.port b r.headers_valid whole)
