-- ===== src/Agent.antt =====
-- internal/agent/agent.go: the tunnel client.
pub mod Gateway
pub mod Backoff
pub mod Loop
pub mod Request
pub mod Serve
