-- ===== src/Capture/Proxy/Origin.antt =====
-- internal/dependencycapture/proxy.go: the answer of forward, when the upstream server answers.
use mockingo_agent.Base.{
  Bool, true, false, ◌||◌, Option, none, some, List, [], ◌∷◌, Bytes, codes, length, some_of, all_of,
  has, ℤ, pos, if◌then◌else◌, ◌≡◌, refl, arith, ap, ◌∙◌, sym, subst,
}
use mockingo_agent.Base.Maps.{lookup}
use mockingo_agent.Protocol.Message.{
  HeaderMap, DependencyInteraction, max_dependency_response_preview,
}
use mockingo_agent.Protocol.Validation.{bad_scheme}
use mockingo_agent.Capture.Headers.{one_of, present}
use mockingo_agent.Capture.Target.{Authorities, target_host_port}
use mockingo_agent.Capture.Behaviors.{BehaviorStore, match_behavior}
use mockingo_agent.Capture.Body.{Decoders}
use mockingo_agent.Capture.Preview.{Preview, new_preview, all_bytes}
use mockingo_agent.ForwardHeaders.Nominated.{Filtered, filtered}
use mockingo_agent.Capture.HopHeaders.{
  canonical_from, canonical_key, copy_headers, hop_names, filter_hop_headers,
}
use mockingo_agent.Capture.HopHeaders.Laws.{keys_of, lookup-del_all, collected, lookup-copy_headers}
use mockingo_agent.Capture.HopHeaders.Copied.{IsCanonical}
use mockingo_agent.Capture.HopHeaders.Listed.{
  IsHop, is_hop, is_hop-IsHop, IsHop-is_hop, lookup-filter_hop, collected-filter_hop,
}
use mockingo_agent.Capture.Proxy.{
  ProxyRequest, Url, Occasion, Outgoing, RoundTrip, responded, UpstreamResponse, Handled, response,
  scheme_of, authority_of, outgoing_request, origin_event, relay_body, relay_response, deliver,
  pass_on, replay_or_pass, forward,
}
use mockingo_agent.Capture.Proxy.Relayed.{IsWhole, Relayed, chunks_of, relay_body-Relayed}
use mockingo_agent.Capture.Proxy.Emitted.{new_preview-Tracks}
use mockingo_agent.Capture.Proxy.Answered.{forward-target}

-- Every key of the headers that are written has the values of the upstream headers, or none.
abbrev pub IsStripped : HeaderMap → HeaderMap → Type 0
IsStripped headers written =
    (key : Bytes)
    → Filtered (IsHop headers key) [] (collected key headers) (present (lookup key written))

-- What a request is answered that the upstream server has answered with `upstream`: an interaction
-- is reported exactly if the answer came through whole, and it is that of this answer.
abbrev pub IsMirrored : Handled → UpstreamResponse → Option DependencyInteraction → Type 0
IsMirrored h upstream none = IsWhole upstream.ends upstream.relays → ⊥
IsMirrored h upstream (some e) =
    IsWhole upstream.ends upstream.relays
    × ((written : HeaderMap) × IsStripped upstream.headers written
        × (h.answer ≡ response upstream.status written (all_bytes (chunks_of upstream.relays))))
    × (e.handled_by ≡ codes "ORIGIN")
    × (e.response.status ≡ upstream.status)
    × (e.response.size_bytes ≡ pos (length (all_bytes (chunks_of upstream.relays))))

stripped :
    (headers : HeaderMap)
    → IsCanonical headers
    → IsStripped headers (copy_headers (filter_hop_headers headers) [])
unfolding lookup
stripped headers c key =
    filtered (is_hop headers key) (is_hop-IsHop headers key) (IsHop-is_hop headers key)
      (lookup-copy_headers key (filter_hop_headers headers) [] ∙ collected-filter_hop headers key c)

proxy_authorization_canonical :
    keys_of (codes "Proxy-Authorization" ∷ []) ≡ codes "Proxy-Authorization" ∷ []
unfolding canonical_key canonical_from has all_of
proxy_authorization_canonical = refl

proxy_authorization_hop :
    (key : Bytes)
    → one_of (codes "Proxy-Authorization" ∷ []) key ≡ true
    → one_of hop_names key ≡ true
unfolding some_of
proxy_authorization_hop key h = ground arith

join_hops :
    (a b c : Bool) (x : Option (Option (List Bytes)))
    → (a ≡ true → b ≡ true)
    → (if a then none else if b || c then none else x) ≡ (if b || c then none else x)
join_hops a b c x h = ground arith

outgoing-headers :
    (request : ProxyRequest) (url : Url) (scheme authority key : Bytes)
    → Filtered
        (IsHop request.headers key)
        none
        (lookup key request.headers)
        (lookup key (outgoing_request request url scheme authority).headers)
outgoing-headers request url scheme authority key =
    filtered (is_hop request.headers key) (is_hop-IsHop request.headers key)
      (IsHop-is_hop request.headers key)
      (rw
        (
          lookup-del_all (codes "Proxy-Authorization" ∷ []) key
              (filter_hop_headers request.headers),
          lookup-filter_hop request.headers key,
          proxy_authorization_canonical,
        )
        (join_hops (one_of (codes "Proxy-Authorization" ∷ []) key) (one_of hop_names key) _
          (lookup key request.headers) (proxy_authorization_hop key)))

module _ (dec : Decoders) (now : Occasion) (request : ProxyRequest) (url : Url)
    (scheme host : Bytes) (port : ℤ) (outgoing : Outgoing) (upstream : UpstreamResponse)
    (canonical : IsCanonical upstream.headers) where
  IsMirrored-as :
      (out : Bytes) (w : Option Preview)
      → Relayed upstream.ends upstream.relays (out, w) (all_bytes (chunks_of upstream.relays))
      → IsMirrored
          (record {
            answer =
                response upstream.status
                  (copy_headers (filter_hop_headers upstream.headers) [])
                  out;
            sent = some outgoing;
            event = origin_event dec now request url scheme host port upstream w;
          })
          upstream
          (origin_event dec now request url scheme host port upstream w)
  IsMirrored-as out none r = r
  IsMirrored-as out (some w) (whole, e, t) =
      let written = copy_headers (filter_hop_headers upstream.headers) [] in
      (
        whole,
        (written, stripped upstream.headers canonical, ap (response upstream.status written) e),
        refl,
        refl,
        ap pos t.total,
      )

  mirrored :
      let h = relay_response dec now request url scheme host port outgoing upstream in
      IsMirrored h upstream h.event
  mirrored =
      let start = new_preview dec upstream.headers max_dependency_response_preview in
      let (out, w) = relay_body upstream.ends upstream.relays start [] in
      IsMirrored-as out w (
        relay_body-Relayed upstream.ends upstream.relays start []
          (new_preview-Tracks dec upstream.headers max_dependency_response_preview))

delivered :
    (dec : Decoders) (round_trip : Outgoing → RoundTrip) (now : Occasion) (request : ProxyRequest)
    (url : Url) (scheme authority host : Bytes) (port : ℤ)
    → pass_on dec round_trip now request url scheme authority host port
      ≡ deliver dec now request url scheme host port
          (outgoing_request request url scheme authority)
          (round_trip (outgoing_request request url scheme authority))
unfolding pass_on
delivered dec round_trip now request url scheme authority host port = refl

-- A request whose target the store has no behavior for is sent upstream with the target's scheme and
-- authority and with its own headers, less those that belong to the connection to the proxy or whose
-- names the Connection header lists. If the names of the upstream headers are in the form that
-- http.Header gives them, then an interaction is reported exactly if the upstream body was read to
-- its end without an error and the client has got every read of it; the client has then got the
-- upstream status, the upstream headers less the same, and every byte of the upstream body, and the
-- interaction has that status and that number of bytes.
pub forward-origin :
    (lib : Authorities) (dec : Decoders) (store : Option BehaviorStore)
    (round_trip : Outgoing → RoundTrip) (now : Occasion) (request : ProxyRequest)
    (forced_scheme forced_authority : Bytes) (url : Url) (host : Bytes) (port : ℤ)
    (upstream : UpstreamResponse)
    → request.url ≡ some url
    → bad_scheme (scheme_of forced_scheme url) ≡ false
    → target_host_port lib
        (authority_of forced_scheme forced_authority url)
        (scheme_of forced_scheme url)
      ≡ some (host, port)
    → match_behavior store (scheme_of forced_scheme url) host port request.method url.path ≡ none
    → round_trip (
        outgoing_request request url
          (scheme_of forced_scheme url)
          (authority_of forced_scheme forced_authority url))
      ≡ responded upstream
    → IsCanonical upstream.headers
    → let h = forward lib dec store round_trip now request forced_scheme forced_authority in
      (outgoing : Outgoing) × (h.sent ≡ some outgoing)
      × (outgoing.method ≡ request.method)
      × (outgoing.url.scheme ≡ scheme_of forced_scheme url)
      × (outgoing.url.host ≡ authority_of forced_scheme forced_authority url)
      × ((key : Bytes)
          → Filtered
              (IsHop request.headers key)
              none
              (lookup key request.headers)
              (lookup key outgoing.headers))
      × IsMirrored h upstream h.event
forward-origin lib dec store round_trip now request forced_scheme forced_authority url host port
      upstream u known t miss answer canonical =
    let scheme = scheme_of forced_scheme url in
    let authority = authority_of forced_scheme forced_authority url in
    let outgoing = outgoing_request request url scheme authority in
    let same =
      forward-target lib dec store round_trip now request forced_scheme forced_authority url scheme
        host port u refl known t
      ∙ ap (replay_or_pass lib dec store round_trip now request url scheme authority host port) miss
      ∙ delivered dec round_trip now request url scheme authority host port
      ∙ ap (deliver dec now request url scheme host port outgoing) answer in
    (
      outgoing,
      ap (λ (h : Handled). h.sent) same,
      refl,
      refl,
      refl,
      λ key. outgoing-headers request url scheme authority key,
      subst (λ h. IsMirrored h upstream h.event) (sym same)
          (mirrored dec now request url scheme host port outgoing upstream canonical),
    )
