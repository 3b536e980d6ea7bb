-- ===== src/Capture/Proxy/Connect.antt =====
-- internal/dependencycapture/proxy.go: NewProxy, ServeHTTP and the handlers of CONNECT. What the
-- network does in a handler comes as an argument, and what the handler does with connections is a
-- list of effects, in the order of the code.
use mockingo_agent.Base.{
  Bool, ◌||◌, not, Option, none, some, List, [], ◌∷◌, ◌++◌, map, Bytes, codes, is_empty, bytes_eq,
  ℤ, pos, lt_int, ◌⊎◌, inl, inr, if◌then◌else◌,
}
use mockingo_agent.Capture.Headers.{one_of}
use mockingo_agent.Capture.Target.{Authorities, target_host_port, normalize_hostname}
use mockingo_agent.Capture.Behaviors.{BehaviorStore}
use mockingo_agent.Capture.Body.{Decoders}
use mockingo_agent.Capture.Proxy.{ProxyRequest, Outgoing, RoundTrip, Occasion, Handled, forward}

pub record ProxyConfig : Type 0 where
  pub bind_address : Bytes
  pub port : ℤ
  pub has_ca : Bool
  pub passthrough_hosts : List Bytes

pub record Proxy : Type 0 where
  pub bind_address : Bytes
  pub port : ℤ
  pub passthrough : List Bytes

pub data ProxyError : Type 0 where
  invalid_bind_address invalid_port missing_ca : ProxyError

-- The String method of what net.ParseIP gives is `ip_text`. The result is an error or a proxy.
abbrev new_proxy_at : ProxyConfig → Option Bytes → ProxyError ⊎ Proxy
new_proxy_at config none = inl invalid_bind_address
new_proxy_at config (some ip) =
    if lt_int config.port (pos 0) || lt_int (pos 65535) config.port
    then inl invalid_port
    else if not config.has_ca
    then inl missing_ca
    else inr (record {
      bind_address = ip;
      port = config.port;
      passthrough = map normalize_hostname config.passthrough_hosts;
    })

unfoldable pub new_proxy : (Bytes → Option Bytes) → ProxyConfig → ProxyError ⊎ Proxy
new_proxy ip_text config =
    new_proxy_at config
      (ip_text (if is_empty config.bind_address then codes "127.0.0.1" else config.bind_address))

-- The two connections of a tunnel.
pub data Side : Type 0 where
  client upstream : Side

-- What a handler does: an answer of http.Error, a connection that it opens or takes over, one that
-- it closes, and the table of the connections that Serve closes when it is stopped.
pub data Effect : Type 0 where
  http_error : Bytes → ℤ → Effect
  opened closed tracked untracked : Side → Effect
  copied served : Effect

-- Which of the calls of the network succeed.
pub record TunnelCalls : Type 0 where
  pub dial : Bool
  pub hijack : Bool
  pub write : Bool
  pub flush : Bool

-- copyTunnel returns when one direction has ended, and closes both connections.
unfoldable pub tunnel_passthrough : TunnelCalls → List Effect
tunnel_passthrough calls =
    if not calls.dial
    then http_error (codes "Dependency connection failed") (pos 502) ∷ []
    else opened upstream
      ∷ (if not calls.hijack
          then closed upstream ∷ []
          else opened client
            ∷ (if not calls.write
                then closed client ∷ closed upstream ∷ []
                else if not calls.flush
                then closed client ∷ closed upstream ∷ []
                else tracked client
                  ∷ tracked upstream
                  ∷ copied
                  ∷ closed upstream
                  ∷ closed client
                  ∷ untracked upstream
                  ∷ untracked client
                  ∷ []))

pub record InterceptCalls : Type 0 where
  pub certificate : Bool
  pub hijack : Bool
  pub write : Bool
  pub flush : Bool
  pub handshake : Bool

-- The server of the intercepted connection closes it before Serve returns.
unfoldable pub intercept_tls : InterceptCalls → List Effect
intercept_tls calls =
    if not calls.certificate
    then http_error (codes "Cannot create inspection certificate") (pos 502) ∷ []
    else if not calls.hijack
    then []
    else opened client
      ∷ tracked client
      ∷ ((if not calls.write
            then closed client ∷ []
            else if not calls.flush
            then closed client ∷ []
            else if not calls.handshake
            then closed client ∷ []
            else served ∷ closed client ∷ [])
          ++ (untracked client ∷ []))

-- What ServeHTTP does with a request: it forwards it, it refuses a CONNECT, or it opens a tunnel
-- to an authority, with or without inspection of the requests for a host.
pub data Served : Type 0 where
  handled : Handled → Served
  refused_connect : Served
  passed_through : Bytes → Served
  inspected : Bytes → Bytes → Served

abbrev connect_to : Proxy → Bytes → Option (Bytes × ℤ) → Served
connect_to p authority none = refused_connect
connect_to p authority (some (host, port)) =
    if one_of p.passthrough (normalize_hostname host)
    then passed_through authority
    else inspected authority host

unfoldable pub handle_connect : Authorities → Proxy → ProxyRequest → Served
handle_connect lib p request =
    connect_to p request.host (target_host_port lib request.host (codes "https"))

unfoldable pub serve_http :
    Authorities
    → Decoders
    → Option BehaviorStore
    → Proxy
    → (Outgoing → RoundTrip)
    → Occasion
    → ProxyRequest
    → Served
serve_http lib dec store p round_trip now request =
    if bytes_eq request.method (codes "CONNECT")
    then handle_connect lib p request
    else handled (forward lib dec store round_trip now request [] [])

-- The handler of the server that interceptTLS starts for an authority.
abbrev pub inspect :
    Authorities
    → Decoders
    → Option BehaviorStore
    → (Outgoing → RoundTrip)
    → Occasion
    → Bytes
    → ProxyRequest
    → Handled
inspect lib dec store round_trip now authority request =
    forward lib dec store round_trip now request (codes "https") authority
