-- ===== src/Capture/Proxy.antt =====
-- internal/dependencycapture/proxy.go: ServeHTTP's two branches below CONNECT, forward and replay.
-- A request comes with its body as the reads that its reader gives; the upstream server is a
-- function of the request that is sent to it; the clock is read at two moments. A handler gives
-- what it answers, the request that it sent upstream, and the interaction that it passes to Emit
-- and to OnCompleted.
pub mod Connect
pub mod Released
pub mod Answered
pub mod Origin
pub mod Emitted
pub mod Recorded
pub mod Relayed
pub mod Replayed
use mockingo_agent.Base.{
  ℕ, ◌+◌, ◌*◌, ◌/◌, ◌==◌, Bool, true, false, ◌&&◌, ◌||◌, not, Option, none, some, List, [], ◌∷◌,
  ◌++◌, Bytes, codes, length, take, is_empty, bytes_eq, to_lower, ltb, ℤ, pos, lt_int,
  if◌then◌else◌,
}
use mockingo_agent.Base.Decimal.{itoa}
use mockingo_agent.Base.Maps.{erase}
use mockingo_agent.Protocol.Message.{
  HeaderMap, Headers, DependencyBehavior, DependencyInteraction, CapturedRequest, CapturedResponse,
  max_dependency_request_preview, max_dependency_response_preview,
}
use mockingo_agent.Capture.Target.{Authorities, target_host_port}
use mockingo_agent.Capture.Behaviors.{BehaviorStore, match_behavior}
use mockingo_agent.Capture.Body.{Decoders, captured_body}
use mockingo_agent.Capture.Preview.{Preview, new_preview, observe, read, after_chunks}
use mockingo_agent.Capture.Redact.{redact_headers, redact_raw_query}
use mockingo_agent.Capture.HopHeaders.{filter_hop_headers, del_all, set_header, copy_headers}

pub record Url : Type 0 where
  pub scheme : Bytes
  pub host : Bytes
  pub path : Bytes
  pub raw_query : Bytes

-- The bytes of each read of a body, and whether the last read fails with an error other than
-- io.EOF. A nil body gives nothing.
pub record BodyReads : Type 0 where
  pub chunks : List Bytes
  pub broken : Bool

pub record ProxyRequest : Type 0 where
  pub method : Bytes
  pub url : Option Url
  pub host : Bytes
  pub headers : HeaderMap
  pub content_length : ℤ
  pub body : BodyReads

-- What p.transport.RoundTrip is given.
pub record Outgoing : Type 0 where
  pub method : Bytes
  pub url : Url
  pub host : Bytes
  pub headers : HeaderMap
  pub content_length : ℤ

-- One read of the upstream body and its write to the client: the bytes, how many of them were
-- written, and whether the write failed.
pub record Relay : Type 0 where
  pub chunk : Bytes
  pub written : ℕ
  pub write_failed : Bool

-- The answer of the upstream server: its status and headers, the reads of the request's body that
-- the transport made until the end, the reads and writes of the response's body, and whether it
-- ends with io.EOF.
pub record UpstreamResponse : Type 0 where
  pub status : ℤ
  pub headers : HeaderMap
  pub consumed : List Bytes
  pub relays : List Relay
  pub ends : Bool

pub data RoundTrip : Type 0 where
  timed_out failed : RoundTrip
  responded : UpstreamResponse → RoundTrip

-- What goes to the client: an answer of http.Error, or status, headers and body, or nothing because
-- the handler panics.
pub data Answer : Type 0 where
  aborted : Answer
  http_error : Bytes → ℤ → Answer
  response : ℤ → HeaderMap → Bytes → Answer

pub record Handled : Type 0 where
  pub answer : Answer
  pub sent : Option Outgoing
  pub event : Option DependencyInteraction

-- uuid.NewString, time.Now when the work starts, in nanoseconds since Go's zero time, and
-- time.Since(started) at its end.
pub record Occasion : Type 0 where
  pub id : Bytes
  pub started : ℕ
  pub elapsed : ℕ

abbrev refuse : Bytes → ℤ → Handled
refuse text status = record { answer = http_error text status; sent = none; event = none }

-- From the size that was counted, and request.ContentLength.
unfoldable pub request_size : ProxyRequest → ℕ → ℤ
request_size request total =
    if lt_int request.content_length (pos 0) then pos total else request.content_length

-- duration.Milliseconds()
abbrev pub milliseconds : ℕ → ℤ
milliseconds elapsed = pos (elapsed / 1000000)

abbrev pub captured_request : Decoders → ProxyRequest → Url → Preview → CapturedRequest
captured_request dec request url capture = record {
  method = request.method;
  path = url.path;
  raw_query = redact_raw_query url.raw_query;
  headers = some (redact_headers request.headers);
  body =
      captured_body dec request.headers capture.preview (request_size request capture.total)
        max_dependency_request_preview;
  size_bytes = request_size request capture.total;
}

abbrev pub captured_response : Decoders → ℤ → HeaderMap → Bytes → ℕ → CapturedResponse
captured_response dec status headers preview total = record {
  status = status;
  headers = some (redact_headers headers);
  body = captured_body dec headers preview (pos total) max_dependency_response_preview;
  size_bytes = pos total;
}

abbrev pub interaction_of :
    Occasion
    → Bytes
    → Bytes
    → ℤ
    → Bytes
    → CapturedRequest
    → CapturedResponse
    → DependencyInteraction
interaction_of now scheme host port handled_by request answer = record {
  id = now.id;
  scheme = scheme;
  host = host;
  port = port;
  handled_by = handled_by;
  started_at = pos now.started;
  completed_at = pos (now.started + now.elapsed);
  duration_ms = milliseconds now.elapsed;
  request = request;
  response = answer;
}

-- safeNetworkError
abbrev safe_network_error : Bool → Bytes
safe_network_error true = codes "connection timed out"
safe_network_error false = codes "upstream connection or TLS validation failed"

-- The loop that copies the upstream body: the bytes that the client has got, and the observer
-- unless the handler returned early.
unfoldable pub relay_body : Bool → List Relay → Preview → Bytes → Bytes × Option Preview
relay_body ends [] w out = (out, if ends then some w else none)
relay_body ends (r ∷ rs) w out =
    let sent = take r.written r.chunk in
    let rest =
      relay_body ends rs (if ltb 0 r.written && not (is_empty r.chunk) then observe w sent else w)
        (out ++ sent) in
    if not (is_empty r.chunk) && (r.write_failed || not (r.written == length r.chunk))
    then (out ++ sent, none)
    else rest

abbrev pub outgoing_request : ProxyRequest → Url → Bytes → Bytes → Outgoing
outgoing_request request url scheme authority = record {
  method = request.method;
  url = record url { scheme = scheme; host = authority };
  host = request.host;
  headers = del_all (codes "Proxy-Authorization" ∷ []) (filter_hop_headers request.headers);
  content_length = request.content_length;
}

abbrev bad_gateway : Outgoing → Bool → Handled
bad_gateway outgoing timeout = record {
  answer = http_error (codes "Dependency request failed: " ++ safe_network_error timeout) (pos 502);
  sent = some outgoing;
  event = none;
}

-- The scheme and the authority that a request goes to, from the forced ones and its URL.
abbrev pub scheme_of : Bytes → Url → Bytes
scheme_of forced_scheme url = if is_empty forced_scheme then to_lower url.scheme else forced_scheme

abbrev pub authority_of : Bytes → Bytes → Url → Bytes
authority_of forced_scheme forced_authority url =
    if is_empty forced_scheme then url.host else forced_authority

abbrev pub replay_excluded : List Bytes
replay_excluded =
    codes "Authentication-Info"
    ∷ codes "Authorization"
    ∷ codes "Content-Encoding"
    ∷ codes "Content-Length"
    ∷ codes "Cookie"
    ∷ codes "Date"
    ∷ codes "Proxy-Authentication-Info"
    ∷ codes "Server"
    ∷ codes "Set-Cookie"
    ∷ codes "Via"
    ∷ []

-- The headers of a replayed response. A nil map stays nil up to the call of Set, which panics.
unfoldable pub replay_headers : Headers → Bytes → Option HeaderMap
replay_headers none body = none
replay_headers (some headers) body = some (
    set_header (codes "Content-Length") (itoa (pos (length body)))
      (del_all replay_excluded (filter_hop_headers headers)))

module _ (dec : Decoders) where
  -- The observer of the request's body, once the given reads are done.
  abbrev pub request_capture : ProxyRequest → List Bytes → Preview
  request_capture request chunks =
      after_chunks read (new_preview dec request.headers max_dependency_request_preview) chunks

  -- From the copy of the upstream headers on; `w` and `out` are what the loop leaves.
  abbrev pub origin_event :
      Occasion
      → ProxyRequest
      → Url
      → Bytes
      → Bytes
      → ℤ
      → UpstreamResponse
      → Option Preview
      → Option DependencyInteraction
  origin_event now request url scheme host port upstream none = none
  origin_event now request url scheme host port upstream (some w) = some (
      interaction_of now scheme host port (codes "ORIGIN")
        (captured_request dec request url (request_capture request upstream.consumed))
        (captured_response dec upstream.status upstream.headers w.preview w.total))

  abbrev pub relay_response :
      Occasion → ProxyRequest → Url → Bytes → Bytes → ℤ → Outgoing → UpstreamResponse → Handled
  relay_response now request url scheme host port outgoing upstream =
      let (out, w) =
        relay_body upstream.ends upstream.relays
          (new_preview dec upstream.headers max_dependency_response_preview) [] in
      record {
        answer =
            response upstream.status (copy_headers (filter_hop_headers upstream.headers) []) out;
        sent = some outgoing;
        event = origin_event now request url scheme host port upstream w;
      }

  abbrev pub deliver :
      Occasion → ProxyRequest → Url → Bytes → Bytes → ℤ → Outgoing → RoundTrip → Handled
  deliver now request url scheme host port outgoing timed_out = bad_gateway outgoing true
  deliver now request url scheme host port outgoing failed = bad_gateway outgoing false
  deliver now request url scheme host port outgoing (responded upstream) =
      relay_response now request url scheme host port outgoing upstream

  unfoldable pub pass_on :
      (Outgoing → RoundTrip) → Occasion → ProxyRequest → Url → Bytes → Bytes → Bytes → ℤ → Handled
  pass_on round_trip now request url scheme authority host port =
      let outgoing = outgoing_request request url scheme authority in
      deliver now request url scheme host port outgoing (round_trip outgoing)

  -- From the copy of the headers to those of the writer on. The answer is what the handler gives to
  -- its http.ResponseWriter, which for some statuses and methods sends less of it.
  abbrev pub replay_response :
      Occasion
      → ProxyRequest
      → Url
      → Bytes
      → Bytes
      → ℤ
      → DependencyBehavior
      → Option HeaderMap
      → Handled
  replay_response now request url scheme host port behavior none = record {
    answer = aborted;
    sent = none;
    event = none;
  }
  replay_response now request url scheme host port behavior (some headers) = record {
    answer = response behavior.status (copy_headers headers []) behavior.body;
    sent = none;
    event = some (
        interaction_of now scheme host port (codes "REPLAY")
          (captured_request dec request url (request_capture request request.body.chunks))
          (captured_response dec behavior.status headers
            (take max_dependency_response_preview behavior.body) (length behavior.body)));
  }

  unfoldable pub replay :
      Occasion → ProxyRequest → Url → Bytes → Bytes → ℤ → DependencyBehavior → Handled
  replay now request url scheme host port behavior =
      if request.body.broken
      then refuse (codes "Could not read dependency request") (pos 400)
      else replay_response now request url scheme host port behavior
          (replay_headers behavior.headers behavior.body)

module _ (lib : Authorities) (dec : Decoders) (store : Option BehaviorStore) where
  abbrev pub replay_or_pass :
      (Outgoing → RoundTrip)
      → Occasion
      → ProxyRequest
      → Url
      → Bytes
      → Bytes
      → Bytes
      → ℤ
      → Option DependencyBehavior
      → Handled
  replay_or_pass round_trip now request url scheme authority host port (some behavior) =
      replay dec now request url scheme host port behavior
  replay_or_pass round_trip now request url scheme authority host port none =
      pass_on dec round_trip now request url scheme authority host port

  abbrev pub dispatch :
      (Outgoing → RoundTrip)
      → Occasion
      → ProxyRequest
      → Url
      → Bytes
      → Bytes
      → Option (Bytes × ℤ)
      → Handled
  dispatch round_trip now request url scheme authority none =
      refuse (codes "Invalid dependency target") (pos 400)
  dispatch round_trip now request url scheme authority (some (host, port)) =
      replay_or_pass round_trip now request url scheme authority host port
        (match_behavior store scheme host port request.method url.path)

  abbrev pub forward_url :
      (Outgoing → RoundTrip) → Occasion → ProxyRequest → Bytes → Bytes → Option Url → Handled
  forward_url round_trip now request forced_scheme forced_authority none =
      refuse (codes "Bad proxy request") (pos 400)
  forward_url round_trip now request forced_scheme forced_authority (some url) =
      let scheme = scheme_of forced_scheme url in
      let authority = authority_of forced_scheme forced_authority url in
      if not (bytes_eq scheme (codes "http")) && not (bytes_eq scheme (codes "https"))
      then refuse (codes "Only HTTP and HTTPS proxy requests are supported") (pos 400)
      else dispatch round_trip now request url scheme authority
          (target_host_port lib authority scheme)

  unfoldable pub forward :
      (Outgoing → RoundTrip) → Occasion → ProxyRequest → Bytes → Bytes → Handled
  forward round_trip now request forced_scheme forced_authority =
      forward_url round_trip now request forced_scheme forced_authority request.url
