-- ===== src/Client/Sessions/Trusted.antt =====
-- What a session has that the checks of internal/apiclient let through.
use mockingo_agent.Base.{
  List, [], ◌∷◌, In, here, there, Bool-cases, inl, inr, ◌⊎◌, trim_space, some_of, true, false,
  Option, none, some, Bytes, codes, is_empty, bytes_eq, to_lower, lt_int, ◌≡◌, refl, arith,
}
use mockingo_agent.Protocol.Text.{Externals}
use mockingo_agent.Client.Sessions.{
  TunnelSessionRequest, TunnelSessionResponse, DependencyCaptureSessionResponse, TunnelResponse,
  TunnelSessionValidation, Url, is_trusted, equal_fold, is_local, check_connect_url,
  validate_tunnel_session, validate_dependency_capture_session,
}

is_trusted-In :
    (hosts : List Bytes) (host : Bytes)
    → is_trusted hosts host ≡ true
    → (allowed : Bytes) × In allowed hosts × (equal_fold (trim_space allowed) host ≡ true)
unfolding is_trusted some_of
is_trusted-In [] host h = cc
is_trusted-In (x ∷ hosts) host h = elim (Bool-cases (equal_fold (trim_space x) host)) [
  | inl hit ↦ (x, here hosts, hit)
  | inr miss ↦ let (a, i, e) = is_trusted-In hosts host (rw miss at h) in (a, there x i, e)
]

module _ (ext : Externals) (parse_url : Bytes → Option Url) where
  -- A session with a ticket that has not expired, for a gateway at the path, whose host is one of the
  -- expected ones, over TLS unless the gateway is local and that is allowed, and not by an address
  -- unless local gateways are allowed.
  pub record Trusted (validation : TunnelSessionValidation) (path : Bytes) (t : TunnelResponse)
      : Type 0 where
    pub url : Url
    pub parsed : parse_url t.connect_url ≡ some url
    pub at_path : bytes_eq url.path path ≡ true
    pub no_user : url.has_user ≡ false
    pub expected :
        (allowed : Bytes) × In allowed validation.expected_gateway_hosts
        × (equal_fold (trim_space allowed) (to_lower url.hostname) ≡ true)
    pub secure :
        (bytes_eq url.scheme (codes "wss") ≡ true)
        ⊎ ((validation.allow_insecure_local ≡ true)
            × (is_local (to_lower url.hostname) ≡ true)
            × (bytes_eq url.scheme (codes "ws") ≡ true))
    pub named :
        validation.allow_insecure_local ≡ false → ext.parse_ip (to_lower url.hostname) ≡ false
    pub ticket : is_empty t.ticket ≡ false
    pub current : lt_int validation.now t.expires_at ≡ true

  check_connect_url-Trusted :
      (validation : TunnelSessionValidation) (path : Bytes) (t : TunnelResponse) (o : Option Url)
      → parse_url t.connect_url ≡ o
      → is_empty t.ticket ≡ false
      → lt_int validation.now t.expires_at ≡ true
      → check_connect_url ext validation path o ≡ none
      → Trusted validation path t
  check_connect_url-Trusted validation path t none e ticket current h = absurd cc
  check_connect_url-Trusted validation path t (some u) e ticket current h = record {
    url = u;
    parsed = e;
    at_path = ground arith;
    no_user = ground arith;
    expected = is_trusted-In validation.expected_gateway_hosts (to_lower u.hostname) (ground arith);
    secure = ground arith;
    named = λ a. ground arith;
    ticket = ticket;
    current = current;
  }

  -- A tunnel session that passes the checks has the endpoint's name that was asked for, a ticket that
  -- has not expired, and a gateway at /v1/connect whose host is one of the expected ones, over TLS
  -- unless the gateway is local and that is allowed, and not by an address unless that is allowed.
  pub validate_tunnel_session-Trusted :
      (request : TunnelSessionRequest) (response : TunnelSessionResponse)
      (validation : TunnelSessionValidation)
      → validate_tunnel_session ext parse_url request response validation ≡ none
      → (bytes_eq response.endpoint.name request.endpoint_name ≡ true)
        × Trusted validation (codes "/v1/connect") response.tunnel
  unfolding validate_tunnel_session
  validate_tunnel_session-Trusted request response validation h = (
    ground arith,
    check_connect_url-Trusted validation (codes "/v1/connect") response.tunnel
        (parse_url response.tunnel.connect_url) refl (ground arith) (ground arith) (ground arith),
  )

  -- The same for a capture session, whose gateway is at /v1/dependency-capture/connect.
  pub validate_dependency_capture_session-Trusted :
      (endpoint_name : Bytes) (response : DependencyCaptureSessionResponse)
      (validation : TunnelSessionValidation)
      → validate_dependency_capture_session ext parse_url endpoint_name response validation ≡ none
      → (bytes_eq response.endpoint.name endpoint_name ≡ true)
        × Trusted validation (codes "/v1/dependency-capture/connect") response.capture
  unfolding validate_dependency_capture_session
  validate_dependency_capture_session-Trusted endpoint_name response validation h = (
    ground arith,
    check_connect_url-Trusted validation (codes "/v1/dependency-capture/connect") response.capture
        (parse_url response.capture.connect_url) refl (ground arith) (ground arith) (ground arith),
  )
