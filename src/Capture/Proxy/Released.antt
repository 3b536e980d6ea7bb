-- ===== src/Capture/Proxy/Released.antt =====
-- internal/dependencycapture/proxy.go: the connections of the CONNECT handlers, and the table of
-- those that Serve closes when it is stopped (trackConnection and untrackConnection).
use mockingo_agent.Base.{Bool, true, false, ◌&&◌, ◌||◌, not, List, [], ◌∷◌, ◌≡◌, refl}
use mockingo_agent.Capture.Proxy.Connect.{
  client, upstream, Effect, http_error, opened, closed, tracked, untracked, copied, served,
  TunnelCalls, tunnel_passthrough, InterceptCalls, intercept_tls,
}

-- For each of the two connections, whether it is open, and whether the table has it.
pub record Held : Type 0 where
  pub client_open : Bool
  pub upstream_open : Bool
  pub client_tracked : Bool
  pub upstream_tracked : Bool

abbrev pub nothing_held : Held
nothing_held = record {
  client_open = false;
  upstream_open = false;
  client_tracked = false;
  upstream_tracked = false;
}

abbrev apply : Effect → Held → Held
apply (opened client) h = record h { client_open = true }
apply (opened upstream) h = record h { upstream_open = true }
apply (closed client) h = record h { client_open = false }
apply (closed upstream) h = record h { upstream_open = false }
apply (tracked client) h = record h { client_tracked = true }
apply (tracked upstream) h = record h { upstream_tracked = true }
apply (untracked client) h = record h { client_tracked = false }
apply (untracked upstream) h = record h { upstream_tracked = false }
apply (http_error text status) h = h
apply copied h = h
apply served h = h

abbrev pub after : Held → List Effect → Held
after h [] = h
after h (e ∷ es) = after (apply e h) es

abbrev covered : Held → Bool
covered h = (not h.client_open || h.client_tracked) && (not h.upstream_open || h.upstream_tracked)

-- While bytes or requests go through a tunnel, the table has every open connection, so that a stop
-- of the proxy ends the tunnel.
abbrev pub stoppable : Held → List Effect → Bool
stoppable h [] = true
stoppable h (copied ∷ es) = covered h && stoppable h es
stoppable h (served ∷ es) = covered h && stoppable h es
stoppable h (http_error text status ∷ es) = stoppable h es
stoppable h (opened side ∷ es) = stoppable (apply (opened side) h) es
stoppable h (closed side ∷ es) = stoppable (apply (closed side) h) es
stoppable h (tracked side ∷ es) = stoppable (apply (tracked side) h) es
stoppable h (untracked side ∷ es) = stoppable (apply (untracked side) h) es

abbrev pub IsReleased : List Effect → Type 0
IsReleased es = (after nothing_held es ≡ nothing_held) × (stoppable nothing_held es ≡ true)

tunnel-cases :
    (dial hijack write flush : Bool)
    → IsReleased
        (tunnel_passthrough (record { dial = dial; hijack = hijack; write = write; flush = flush }))
unfolding tunnel_passthrough
tunnel-cases false hijack write flush = (refl, refl)
tunnel-cases true false write flush = (refl, refl)
tunnel-cases true true false flush = (refl, refl)
tunnel-cases true true true false = (refl, refl)
tunnel-cases true true true true = (refl, refl)

intercept-cases :
    (certificate hijack write flush handshake : Bool)
    → IsReleased (
        intercept_tls (record {
          certificate = certificate;
          hijack = hijack;
          write = write;
          flush = flush;
          handshake = handshake;
        }))
unfolding intercept_tls
intercept-cases false hijack write flush handshake = (refl, refl)
intercept-cases true false write flush handshake = (refl, refl)
intercept-cases true true false flush handshake = (refl, refl)
intercept-cases true true true false handshake = (refl, refl)
intercept-cases true true true true false = (refl, refl)
intercept-cases true true true true true = (refl, refl)

-- Whichever of its calls fail, a handler of CONNECT, with inspection or without, leaves no connection
-- open and none in the table of connections; and while bytes or requests go through its tunnel, the
-- table has each connection that is open.
pub connect-IsReleased :
    (calls : TunnelCalls) (inspected : InterceptCalls)
    → IsReleased (tunnel_passthrough calls) × IsReleased (intercept_tls inspected)
connect-IsReleased calls inspected = (
  tunnel-cases calls.dial calls.hijack calls.write calls.flush,
  intercept-cases inspected.certificate inspected.hijack inspected.write inspected.flush
      inspected.handshake,
)
