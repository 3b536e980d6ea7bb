-- ===== src/Capture/Proxy/Emitted.antt =====
-- internal/dependencycapture/proxy.go: what forward does with a request that it accepts, through the
-- store of behaviors, the upstream server and the loop that copies its body.
use mockingo_agent.Base.{
  ℕ, Bool, true, false, ◌||◌, Option, none, some, [], Bytes, codes, length, length-take, take,
  bytes_eq, ℤ, if◌then◌else◌, ◌≡◌, refl, arith, ap, sym, subst,
}
use mockingo_agent.Protocol.Message.{
  HeaderMap, DependencyBehavior, DependencyInteraction, max_dependency_response_preview,
}
use mockingo_agent.Protocol.Text.{Externals, valid_dependency_host}
use mockingo_agent.Protocol.Validation.{bad_scheme, validate_dependency}
use mockingo_agent.Capture.Target.{
  Authorities, Reachable, target_host_port, target_host_port-Reachable,
}
use mockingo_agent.Capture.Behaviors.{BehaviorStore, match_behavior}
use mockingo_agent.Capture.Body.{Decoders, body_capture_allowed}
use mockingo_agent.Capture.Preview.{Preview, new_preview, all_bytes}
use mockingo_agent.Capture.Preview.Stream.{Tracks, empty-kept}
use mockingo_agent.Capture.Proxy.{
  ProxyRequest, Url, Occasion, Outgoing, RoundTrip, timed_out, failed, responded, UpstreamResponse,
  Handled, scheme_of, authority_of, outgoing_request, deliver, replay_or_pass, origin_event,
  relay_body, pass_on, replay_headers, replay_response, replay, dispatch, forward_url, forward,
}
use mockingo_agent.Capture.Proxy.Relayed.{Relayed, chunks_of, relay_body-Relayed}
use mockingo_agent.Capture.Proxy.Recorded.{
  IsRecordable, IsReturnable, Fits, exchange-valid, kept-length,
}

-- What Emit is given passes the validator that stands before the uploader's queue.
abbrev pub IsAcceptable : Externals → Option DependencyInteraction → Type 0
IsAcceptable ext none = Unit
IsAcceptable ext (some e) = validate_dependency ext e ≡ none

origin_known :
    (bytes_eq (codes "ORIGIN") (codes "ORIGIN") || bytes_eq (codes "ORIGIN") (codes "REPLAY"))
    ≡ true
unfolding bytes_eq
origin_known = refl

replay_known :
    (bytes_eq (codes "REPLAY") (codes "ORIGIN") || bytes_eq (codes "REPLAY") (codes "REPLAY"))
    ≡ true
unfolding bytes_eq
replay_known = refl

-- The observer of a response before the first byte.
pub new_preview-Tracks :
    (dec : Decoders) (headers : HeaderMap) (limit : ℕ) → Tracks (new_preview dec headers limit) []
unfolding new_preview
new_preview-Tracks dec headers limit = record {
  preview = empty-kept limit (body_capture_allowed dec headers);
  total = refl;
}

IsAcceptable-unless :
    (ext : Externals) (b : Bool) (x y : Handled)
    → IsAcceptable ext x.event
    → (b ≡ false → IsAcceptable ext y.event)
    → IsAcceptable ext (if b then x else y).event
IsAcceptable-unless ext true x y p q = p
IsAcceptable-unless ext false x y p q = q refl

module _ (dec : Decoders) (request : ProxyRequest) (url : Url) (scheme : Bytes) where
  -- What the handler needs of the upstream server and of the store.
  abbrev pub Answers : (Outgoing → RoundTrip) → Bytes → Type 0
  Answers round_trip authority =
      (upstream : UpstreamResponse)
      → round_trip (outgoing_request request url scheme authority) ≡ responded upstream
      → Fits dec request upstream.consumed × IsReturnable dec upstream.status upstream.headers

  abbrev pub Replays : Bytes → ℤ → Option BehaviorStore → Type 0
  Replays host port store =
      (b : DependencyBehavior) (headers : HeaderMap)
      → match_behavior store scheme host port request.method url.path ≡ some b
      → replay_headers b.headers b.body ≡ some headers
      → IsReturnable dec b.status headers

module _ (dec : Decoders) (ext : Externals) (now : Occasion) (request : ProxyRequest) (url : Url)
    (recordable : IsRecordable dec now request url) (scheme host : Bytes) (port : ℤ)
    (known : bad_scheme scheme ≡ false) (named : valid_dependency_host ext host ≡ true)
    (reachable : Reachable (some (host, port))) where
  Relayed-valid :
      (upstream : UpstreamResponse) (out : Bytes) (w : Option Preview)
      → Fits dec request upstream.consumed
      → IsReturnable dec upstream.status upstream.headers
      → Relayed upstream.ends upstream.relays (out, w) (all_bytes (chunks_of upstream.relays))
      → IsAcceptable ext (origin_event dec now request url scheme host port upstream w)
  Relayed-valid upstream out none fits r t = tt
  Relayed-valid upstream out (some w) fits r t =
      exchange-valid dec ext now request url upstream.consumed recordable fits scheme host port
        (codes "ORIGIN") upstream.status upstream.headers w.preview w.total known named reachable
        origin_known r
        (omega (
          arith,
          ap length t.2.preview,
          kept-length dec w.capture w.limit (all_bytes (chunks_of upstream.relays)),
          t.2.total,
        ))

  deliver-valid :
      (outgoing : Outgoing) (o : RoundTrip)
      → ((upstream : UpstreamResponse)
          → o ≡ responded upstream
          → Fits dec request upstream.consumed × IsReturnable dec upstream.status upstream.headers)
      → IsAcceptable ext (deliver dec now request url scheme host port outgoing o).event
  deliver-valid outgoing timed_out answers = tt
  deliver-valid outgoing failed answers = tt
  deliver-valid outgoing (responded upstream) answers =
      let (fits, r) = answers upstream refl in
      let (out, w) =
        relay_body upstream.ends upstream.relays
          (new_preview dec upstream.headers max_dependency_response_preview) [] in
      Relayed-valid upstream out w fits r (
        relay_body-Relayed upstream.ends upstream.relays
          (new_preview dec upstream.headers max_dependency_response_preview) []
          (new_preview-Tracks dec upstream.headers max_dependency_response_preview))

  replay-valid :
      (b : DependencyBehavior) (o : Option HeaderMap)
      → Fits dec request request.body.chunks
      → ((headers : HeaderMap) → o ≡ some headers → IsReturnable dec b.status headers)
      → IsAcceptable ext (replay_response dec now request url scheme host port b o).event
  replay-valid b none fits answers = tt
  replay-valid b (some headers) fits answers =
      exchange-valid dec ext now request url request.body.chunks recordable fits scheme host port
        (codes "REPLAY") b.status headers (take max_dependency_response_preview b.body)
        (length b.body) known named reachable replay_known (answers headers refl)
        (omega (arith, length-take max_dependency_response_preview b.body))

  replay_or_pass-valid :
      (lib : Authorities) (store : Option BehaviorStore) (round_trip : Outgoing → RoundTrip)
      (authority : Bytes)
      → Fits dec request request.body.chunks
      → Answers dec request url scheme round_trip authority
      → (o : Option DependencyBehavior)
      → ((b : DependencyBehavior) (headers : HeaderMap)
          → o ≡ some b
          → replay_headers b.headers b.body ≡ some headers
          → IsReturnable dec b.status headers)
      → IsAcceptable ext
          (replay_or_pass lib dec store round_trip now request url scheme authority host port
            o).event
  unfolding pass_on replay
  replay_or_pass-valid lib store round_trip authority fits answers none replays =
      deliver-valid (outgoing_request request url scheme authority)
        (round_trip (outgoing_request request url scheme authority)) answers
  replay_or_pass-valid lib store round_trip authority fits answers (some b) replays =
      IsAcceptable-unless ext request.body.broken _ _ tt (λ whole.
        replay-valid b (replay_headers b.headers b.body) fits
          (λ headers e. replays b headers refl e))

-- Every interaction that forward hands to Emit passes the validator of the uploader's queue, be it
-- forwarded or replayed: if the target resolves to a host name that the protocol takes; the
-- method, path, redacted query and redacted headers of the request keep the protocol's limits; the
-- upstream answer, or the behavior that is replayed, has a status from 100 to 599 and redacted
-- headers within the limits; the two media types have at most 255 bytes; the reads of the request's
-- body give no more bytes than its Content-Length; and the clock is past Go's zero time.
pub forward-valid :
    (lib : Authorities) (dec : Decoders) (store : Option BehaviorStore) (ext : Externals)
    (round_trip : Outgoing → RoundTrip) (now : Occasion) (request : ProxyRequest)
    (forced_scheme forced_authority : Bytes) (url : Url) (host : Bytes) (port : ℤ)
    → request.url ≡ some url
    → target_host_port lib
        (authority_of forced_scheme forced_authority url)
        (scheme_of forced_scheme url)
      ≡ some (host, port)
    → valid_dependency_host ext host ≡ true
    → IsRecordable dec now request url
    → Fits dec request request.body.chunks
    → Answers dec request url
        (scheme_of forced_scheme url)
        round_trip
        (authority_of forced_scheme forced_authority url)
    → Replays dec request url (scheme_of forced_scheme url) host port store
    → IsAcceptable ext
        (forward lib dec store round_trip now request forced_scheme forced_authority).event
unfolding forward
forward-valid lib dec store ext round_trip now request forced_scheme forced_authority url host port
      u t named recordable fits answers replays =
    let scheme = scheme_of forced_scheme url in
    let authority = authority_of forced_scheme forced_authority url in
    let reachable : Reachable (some (host, port)) =
      subst Reachable t (target_host_port-Reachable lib authority scheme) in
    let dispatched : (known : bad_scheme scheme ≡ false)
        → IsAcceptable ext
            (dispatch lib dec store round_trip now request url scheme authority
              (target_host_port lib authority scheme)).event =
      λ known.
        subst
          (λ o.
            IsAcceptable ext
              (dispatch lib dec store round_trip now request url scheme authority o).event)
          (sym t)
          (replay_or_pass-valid dec ext now request url recordable scheme host port known named
            reachable lib store round_trip authority fits answers
            (match_behavior store scheme host port request.method url.path) replays) in
    subst
      (λ o.
        IsAcceptable ext
          (forward_url lib dec store round_trip now request forced_scheme forced_authority o).event)
      (sym u) (IsAcceptable-unless ext (bad_scheme scheme) _ _ tt dispatched)
