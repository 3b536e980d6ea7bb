-- ===== src/Capture/Proxy/Recorded.antt =====
-- internal/dependencycapture/proxy.go: the interactions that forward hands to Emit, against the
-- validator of tunnelprotocol.
use mockingo_agent.Base.{
  ℕ, ◌≤◌, ◌<◌, Bool, true, false, ◌||◌, none, some, List, [], ◌∷◌, Bytes, codes, length,
  length-take, starts_with, is_empty, bytes_eq, ltb, ℤ, pos, negsuc, lt_int, ◌≡◌, refl, arith,
  Bool-cases, inl, inr,
}
use mockingo_agent.Protocol.Message.{
  HeaderMap, DependencyInteraction, CapturedResponse, max_dependency_request_preview,
  max_dependency_response_preview,
}
use mockingo_agent.Protocol.Text.{Externals, valid_dependency_host, validate_headers}
use mockingo_agent.Protocol.Validation.{
  fails, bad_scheme, out_of_range, bad_interaction, bad_exchange, bad_contents,
  validate_captured_body, validate_dependency,
}
use mockingo_agent.Capture.Headers.{header_get}
use mockingo_agent.Capture.Target.{Reachable}
use mockingo_agent.Capture.Body.{Decoders, normalized_content_type, body_capture_allowed}
use mockingo_agent.Capture.Body.Valid.{captured_body-valid}
use mockingo_agent.Capture.Preview.{all_bytes}
use mockingo_agent.Capture.Preview.Stream.{kept, preview-stream}
use mockingo_agent.Capture.Redact.{redact_headers, redact_raw_query}
use mockingo_agent.Capture.Proxy.{
  ProxyRequest, Url, Occasion, request_size, captured_request, captured_response, request_capture,
  interaction_of,
}

module _ (dec : Decoders) where
  -- The media type that is recorded with a body has a length that the validator takes.
  abbrev pub HasShortType : HeaderMap → Type 0
  HasShortType headers =
      length (normalized_content_type dec (header_get (codes "Content-Type") headers)) ≤ 255

  -- What the validator asks of the request and the clock, apart from the target and the body's size.
  pub record IsRecordable (now : Occasion) (request : ProxyRequest) (url : Url) : Type 0 where
    pub id_given : is_empty now.id ≡ false
    pub clock_set : 0 < now.started
    pub method_given : is_empty request.method ≡ false
    pub method_size : ltb 32 (length request.method) ≡ false
    pub path_rooted : starts_with b'/' url.path ≡ true
    pub path_size : ltb 8192 (length url.path) ≡ false
    pub query_size : ltb 65536 (length (redact_raw_query url.raw_query)) ≡ false
    pub headers_valid : fails (validate_headers (some (redact_headers request.headers))) ≡ false
    pub short_type : HasShortType request.headers

  -- What net/http promises of the reads of a request's body: no more bytes than Content-Length says.
  abbrev pub Fits : ProxyRequest → List Bytes → Type 0
  Fits request chunks =
      lt_int request.content_length (pos 0) ≡ false
      → lt_int request.content_length (pos (length (all_bytes chunks))) ≡ false

  pub record IsReturnable (status : ℤ) (headers : HeaderMap) : Type 0 where
    pub status_range : out_of_range 100 599 status ≡ false
    pub headers_valid : fails (validate_headers (some (redact_headers headers))) ≡ false
    pub short_type : HasShortType headers

  pub kept-length : (b : Bool) (n : ℕ) (s : Bytes) → length (kept b n s) ≤ length s
  kept-length true n s = omega (arith, length-take n s)
  kept-length false n s = omega arith

  request_size-room :
      (request : ProxyRequest) (total : ℕ)
      → (lt_int request.content_length (pos 0) ≡ false
          → lt_int request.content_length (pos total) ≡ false)
      → lt_int (request_size request total) (pos total) ≡ false
  unfolding request_size
  request_size-room request total fits = elim (Bool-cases (lt_int request.content_length (pos 0))) [
    | inl unknown ↦ rw unknown (ground arith)
    | inr given ↦ rw given (fits given)
  ]

  room : (size : ℤ) (m n : ℕ) → m ≤ n → lt_int size (pos n) ≡ false → lt_int size (pos m) ≡ false
  room (pos k) m n h e = ground arith
  room (negsuc k) m n h e = ground arith

  -- The request's body.
  request_body-valid :
      (request : ProxyRequest) (url : Url) (chunks : List Bytes)
      → Fits request chunks
      → HasShortType request.headers
      → (lt_int
            (captured_request dec request url (request_capture dec request chunks)).size_bytes
            (pos 0)
          ≡ false)
        × (validate_captured_body
              (captured_request dec request url (request_capture dec request chunks)).body
              max_dependency_request_preview
            ≡ none)
  request_body-valid request url chunks fits short =
      let (a, b, preview, total) =
        preview-stream dec request.headers max_dependency_request_preview chunks in
      let size = request_size-room request (length (all_bytes chunks)) fits in
      let least =
        room (request_size request (length (all_bytes chunks))) _ (length (all_bytes chunks))
          (kept-length (body_capture_allowed dec request.headers) max_dependency_request_preview
            (all_bytes chunks))
          size in
      rw (preview, total)
        (
          room (request_size request (length (all_bytes chunks))) 0 (length (all_bytes chunks))
              (omega arith) size,
          captured_body-valid dec request.headers _ _ max_dependency_request_preview least short,
        )

  rooted-nonempty : (path : Bytes) → starts_with b'/' path ≡ true → is_empty path ≡ false
  rooted-nonempty [] h = ground arith
  rooted-nonempty (c ∷ path) h = refl

  module _ (ext : Externals) (now : Occasion) (request : ProxyRequest) (url : Url)
      (chunks : List Bytes) (recordable : IsRecordable now request url)
      (fits : Fits request chunks) where
    abbrev value : Bytes → Bytes → ℤ → Bytes → CapturedResponse → DependencyInteraction
    value scheme host port handled_by r =
        interaction_of now scheme host port handled_by
          (captured_request dec request url (request_capture dec request chunks)) r

    own_false :
        (scheme host : Bytes) (port : ℤ) (handled_by : Bytes) (r : CapturedResponse)
        → bad_scheme scheme ≡ false
        → valid_dependency_host ext host ≡ true
        → out_of_range 1 65535 port ≡ false
        → (bytes_eq handled_by (codes "ORIGIN") || bytes_eq handled_by (codes "REPLAY")) ≡ true
        → bad_interaction ext (value scheme host port handled_by r) ≡ false
    own_false scheme host port handled_by r a b c d =
        let id = recordable.id_given in
        let clock = recordable.clock_set in rw (id, a, b, c) (ground arith)

    exchange_false :
        (scheme host : Bytes) (port : ℤ) (handled_by : Bytes) (r : CapturedResponse)
        → out_of_range 100 599 r.status ≡ false
        → lt_int r.size_bytes (pos 0) ≡ false
        → bad_exchange (value scheme host port handled_by r) ≡ false
    exchange_false scheme host port handled_by r e f =
        let (size, body) = request_body-valid request url chunks fits recordable.short_type in
        rw
          (
            recordable.method_given,
            recordable.method_size,
            rooted-nonempty url.path recordable.path_rooted,
            recordable.path_size,
            recordable.path_rooted,
            recordable.query_size,
            size,
            e,
            f,
          )
          refl

    contents_false :
        (scheme host : Bytes) (port : ℤ) (handled_by : Bytes) (r : CapturedResponse)
        → fails (validate_headers r.headers) ≡ false
        → validate_captured_body r.body max_dependency_response_preview ≡ none
        → bad_contents (value scheme host port handled_by r) ≡ false
    contents_false scheme host port handled_by r g h =
        let (size, body) = request_body-valid request url chunks fits recordable.short_type in
        rw (recordable.headers_valid, g, body, h) refl

    interaction-valid :
        (scheme host : Bytes) (port : ℤ) (handled_by : Bytes) (r : CapturedResponse)
        → bad_scheme scheme ≡ false
        → valid_dependency_host ext host ≡ true
        → out_of_range 1 65535 port ≡ false
        → (bytes_eq handled_by (codes "ORIGIN") || bytes_eq handled_by (codes "REPLAY")) ≡ true
        → out_of_range 100 599 r.status ≡ false
        → lt_int r.size_bytes (pos 0) ≡ false
        → fails (validate_headers r.headers) ≡ false
        → validate_captured_body r.body max_dependency_response_preview ≡ none
        → validate_dependency ext (
            interaction_of now scheme host port handled_by
              (captured_request dec request url (request_capture dec request chunks))
              r)
          ≡ none
    unfolding validate_dependency
    interaction-valid scheme host port handled_by r a b c d e f g h =
        let own : bad_interaction ext (value scheme host port handled_by r) ≡ false =
          own_false scheme host port handled_by r a b c d in
        let exchange : bad_exchange (value scheme host port handled_by r) ≡ false =
          exchange_false scheme host port handled_by r e f in
        let contents : bad_contents (value scheme host port handled_by r) ≡ false =
          contents_false scheme host port handled_by r g h in
        rw (own, exchange, contents) refl

    returned-valid :
        (status : ℤ) (headers : HeaderMap) (preview : Bytes) (total : ℕ)
        → IsReturnable status headers
        → length preview ≤ total
        → (lt_int (pos total) (pos 0) ≡ false)
          × (validate_captured_body
                (captured_response dec status headers preview total).body
                max_dependency_response_preview
              ≡ none)
    returned-valid status headers preview total r h = (
      ground arith,
      captured_body-valid dec headers preview (pos total) max_dependency_response_preview
          (ground arith) r.short_type,
    )

    -- An interaction whose target has passed `targetHostPort`.
    pub exchange-valid :
        (scheme host : Bytes) (port : ℤ) (handled_by : Bytes) (status : ℤ) (headers : HeaderMap)
        (preview : Bytes) (total : ℕ)
        → bad_scheme scheme ≡ false
        → valid_dependency_host ext host ≡ true
        → Reachable (some (host, port))
        → (bytes_eq handled_by (codes "ORIGIN") || bytes_eq handled_by (codes "REPLAY")) ≡ true
        → IsReturnable status headers
        → length preview ≤ total
        → validate_dependency ext
            (value scheme host port handled_by (captured_response dec status headers preview total))
          ≡ none
    exchange-valid scheme host port handled_by status headers preview total a b c d r h =
        let (size, body) = returned-valid status headers preview total r h in
        interaction-valid scheme host port handled_by
          (captured_response dec status headers preview total) a b (rw (c.1, c.2) refl) d
          r.status_range size r.headers_valid body
