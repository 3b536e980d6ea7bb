-- ===== src/Tests/Proxying.antt =====
-- Tests of internal/dependencycapture/proxy.go.
use mockingo_agent.Base.{
  ◌≤◌, true, false, none, some, List, [], ◌∷◌, Bytes, codes, length, all_of, has, bytes_eq,
  to_lower, trim_left, trim_suffix, split, ends_with, some_of, pos, negsuc, ◌≡◌, ◌≢◌, refl, subst,
  arith, here, In, if◌then◌else◌,
}
use mockingo_agent.Base.Decimal.{itoa}
use mockingo_agent.Base.Maps.{lookup}
use mockingo_agent.Protocol.Message.{HeaderMap, DependencyBehavior}
use mockingo_agent.Protocol.Text.{
  valid_dependency_host, valid_host_label, validate_headers, validate_header_entries,
  valid_http_token, add_values,
}
use mockingo_agent.Capture.Headers.{header_get, present}
use mockingo_agent.Capture.Target.{target_host_port, normalize_hostname}
use mockingo_agent.Capture.Behaviors.{new_behavior_store, replace, match_behavior}
use mockingo_agent.Capture.Body.{normalized_content_type}
use mockingo_agent.Capture.Redact.{redact_headers, redact_raw_query}
use mockingo_agent.Capture.HopHeaders.{canonical_key, canonical_from}
use mockingo_agent.Capture.HopHeaders.Laws.{collected}
use mockingo_agent.Capture.Proxy.{
  Url, ProxyRequest, Occasion, Outgoing, RoundTrip, responded, UpstreamResponse, forward, response,
  replay, replay_headers,
}
use mockingo_agent.Capture.Proxy.Recorded.{IsRecordable, IsReturnable, Fits}
use mockingo_agent.Capture.Proxy.Emitted.{IsAcceptable, forward-valid}
use mockingo_agent.Capture.Proxy.Answered.{IsReplay, forward-IsReplay}
use mockingo_agent.Capture.Proxy.Origin.{IsMirrored, forward-origin}
use mockingo_agent.Capture.HopHeaders.Listed.{IsHop}
use mockingo_agent.ForwardHeaders.Nominated.{Filtered}
use mockingo_agent.Capture.Proxy.Replayed.{is_dropped, replay-headers, replay-noncanonical}
use mockingo_agent.Capture.Proxy.Connect.{tunnel_passthrough, intercept_tls}
use mockingo_agent.Capture.Proxy.Released.{IsReleased, connect-IsReleased}
use mockingo_agent.Tests.Data.{
  no_addresses, no_addresses-laws, orders, one_behavior, plain_decoders, text_headers,
  one_behavior-valid, no_ports,
}

abbrev url : Url
url = record { scheme = []; host = []; path = codes "/orders"; raw_query = [] }

abbrev request : ProxyRequest
request = record {
  method = codes "GET";
  url = some url;
  host = codes "api.test";
  headers = text_headers;
  content_length = negsuc 0;
  body = record { chunks = []; broken = false };
}

abbrev now : Occasion
now = record { id = codes "i1"; started = 100; elapsed = 5000000 }

-- A server that answers every request with five bytes in two reads.
abbrev upstream : UpstreamResponse
upstream = record {
  status = pos 200;
  headers = text_headers;
  consumed = [];
  relays =
      record { chunk = codes "hel"; written = 3; write_failed = false }
      ∷ record { chunk = codes "lo"; written = 2; write_failed = false }
      ∷ [];
  ends = true;
}

abbrev server : Outgoing → RoundTrip
server outgoing = responded upstream

abbrev authority : Bytes
authority = codes "api.test"

target_found :
    target_host_port no_ports authority (codes "https") ≡ some (codes "api.test", pos 443)
unfolding target_host_port normalize_hostname to_lower trim_left trim_suffix has some_of bytes_eq
target_found = refl

forward-IsReplay_example :
    IsReplay
      (forward no_ports plain_decoders
        (some (replace no_addresses new_behavior_store one_behavior).0)
        server
        now
        request
        (codes "https")
        authority)
      orders
forward-IsReplay_example =
    forward-IsReplay no_addresses no_addresses-laws no_ports plain_decoders new_behavior_store
      one_behavior orders server now request (codes "https") authority url one_behavior-valid
      (here []) refl refl target_found refl refl refl

short_type :
    length (normalized_content_type plain_decoders (header_get (codes "Content-Type") text_headers))
    ≤ 255
unfolding normalized_content_type header_get lookup bytes_eq to_lower
short_type = omega arith

text-IsRecordable : IsRecordable plain_decoders now request url
unfolding redact_headers redact_raw_query validate_headers validate_header_entries valid_http_token
    all_of has add_values some_of bytes_eq to_lower
text-IsRecordable = record {
  id_given = refl;
  clock_set = omega arith;
  method_given = refl;
  method_size = refl;
  path_rooted = refl;
  path_size = refl;
  query_size = refl;
  headers_valid = refl;
  short_type = short_type;
}

text-IsReturnable : IsReturnable plain_decoders (pos 200) text_headers
unfolding redact_headers redact_raw_query validate_headers validate_header_entries valid_http_token
    all_of has add_values some_of bytes_eq to_lower
text-IsReturnable = record { status_range = refl; headers_valid = refl; short_type = short_type }

test_host : valid_dependency_host no_addresses (codes "api.test") ≡ true
unfolding valid_dependency_host valid_host_label split has some_of all_of ends_with
test_host = refl

negative-Fits : (chunks : List Bytes) → Fits plain_decoders request chunks
negative-Fits chunks = λ given. cc

forward-valid_example :
    IsAcceptable no_addresses
      (forward no_ports plain_decoders none server now request (codes "https") authority).event
forward-valid_example =
    forward-valid no_ports plain_decoders none no_addresses server now request (codes "https")
      authority url (codes "api.test") (pos 443) refl target_found test_host text-IsRecordable
      (negative-Fits []) answers replays
  where
    nothing : {b : DependencyBehavior} → none ≡ some b → ⊥
    nothing h = cc

    same_answer : (u : UpstreamResponse) → responded upstream ≡ responded u → upstream ≡ u
    same_answer u e = cc

    answers :
        (u : UpstreamResponse)
        → responded upstream ≡ responded u
        → Fits plain_decoders request u.consumed × IsReturnable plain_decoders u.status u.headers
    answers u e =
        subst
          (λ (u : UpstreamResponse).
            Fits plain_decoders request u.consumed × IsReturnable plain_decoders u.status u.headers)
          (same_answer u e) (negative-Fits [], text-IsReturnable)

    replays :
        (b : DependencyBehavior) (headers : HeaderMap)
        → match_behavior none
            (codes "https")
            (codes "api.test")
            (pos 443)
            (codes "GET")
            (codes "/orders")
          ≡ some b
        → replay_headers b.headers b.body ≡ some headers
        → IsReturnable plain_decoders b.status headers
    replays b headers h e = absurd (nothing {b = b} (unfold match_behavior in h))

forward-origin_example :
    let h = forward no_ports plain_decoders none server now request (codes "https") authority in
    (outgoing : Outgoing) × (h.sent ≡ some outgoing)
    × (outgoing.method ≡ codes "GET")
    × (outgoing.url.scheme ≡ codes "https")
    × (outgoing.url.host ≡ codes "api.test")
    × ((key : Bytes)
        → Filtered
            (IsHop text_headers key)
            none
            (lookup key text_headers)
            (lookup key outgoing.headers))
    × IsMirrored h upstream h.event
forward-origin_example =
    forward-origin no_ports plain_decoders none server now request (codes "https") authority url
      (codes "api.test") (pos 443) upstream refl (unfold bytes_eq in refl) target_found
      (unfold match_behavior in refl) refl
      (unfold canonical_key canonical_from has all_of in (refl, tt))

abbrev stored_headers : HeaderMap
stored_headers =
    (codes "Content-Type", some (codes "text/plain" ∷ []))
    ∷ (codes "Date", some (codes "today" ∷ []))
    ∷ []

abbrev noted : DependencyBehavior
noted = record orders { headers = some stored_headers }

replay-headers_example :
    (written : HeaderMap) × ((replay plain_decoders now request url
        (codes "https")
        (codes "api.test")
        (pos 443)
        noted).answer
      ≡ response (pos 200) written (codes "[]"))
    × ((key : Bytes)
        → present (lookup key written) ≡ (
            if bytes_eq (codes "Content-Length") key
            then itoa (pos 2) ∷ []
            else if is_dropped stored_headers key
            then []
            else collected key stored_headers))
replay-headers_example =
    replay-headers plain_decoders now request url (codes "https") (codes "api.test") (pos 443) noted
      stored_headers refl refl
      (unfold canonical_key canonical_from has all_of in (refl, (refl, tt)))

-- A cookie that should not be replayed.
abbrev cookie_headers : HeaderMap
cookie_headers = (codes "set-cookie", some (codes "a=b" ∷ [])) ∷ []

replay-noncanonical_example :
    (written : HeaderMap) × ((replay plain_decoders now request url
        (codes "https")
        (codes "api.test")
        (pos 443)
        (record orders { headers = some cookie_headers })).answer
      ≡ response (pos 200) written (codes "[]"))
    × In (codes "a=b") (present (lookup (canonical_key (codes "set-cookie")) written))
replay-noncanonical_example =
    replay-noncanonical plain_decoders now request url (codes "https") (codes "api.test") (pos 443)
      (record orders { headers = some cookie_headers }) cookie_headers (codes "set-cookie")
      (codes "a=b") (codes "a=b" ∷ []) refl refl capital (here []) (here [])
  where
    capital : canonical_key (codes "set-cookie") ≢ codes "set-cookie"
    capital = unfold canonical_key canonical_from has all_of in (λ e. cc)

connect-IsReleased_example :
    IsReleased
      (tunnel_passthrough (record { dial = true; hijack = true; write = true; flush = false }))
    × IsReleased (
        intercept_tls (record {
          certificate = true;
          hijack = true;
          write = true;
          flush = true;
          handshake = true;
        }))
connect-IsReleased_example =
    connect-IsReleased (record { dial = true; hijack = true; write = true; flush = false })
      (record { certificate = true; hijack = true; write = true; flush = true; handshake = true })
