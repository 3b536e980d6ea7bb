-- ===== src/Agent/Loop/Verdicts.antt =====
-- Why runTicket of internal/agent/agent.go returns.
use mockingo_agent.Base.{true, false, some, ◌≡◌, ◌⊎◌}
use mockingo_agent.Agent.Gateway.{retryable_gateway_error, endpoint_virtualized_disconnect}
use mockingo_agent.Agent.Loop.{
  Config, Round, refused, is_retryable, Verdict, stopped, acquire_failed, gateway_rejected,
  dial_failed, disconnected,
}

module _ {Error : Type 0} (config : Config Error) where
  -- What in a round accounts for a result: a cancelled context or the switch to virtual mode for a
  -- return without an error, an error of the provider that may not be retried, or a rejection of the
  -- gateway that may not be retried. Nothing accounts for the other errors.
  abbrev pub Reason : Round Error → Verdict Error → Type 0
  Reason r stopped =
      (r.cancelled ≡ true)
      ⊎ (r.cancelled_acquire ≡ true)
      ⊎ (r.cancelled_dial ≡ true)
      ⊎ (r.cancelled_serve ≡ true)
      ⊎ (r.cancelled_wait ≡ true)
      ⊎ (endpoint_virtualized_disconnect r.ended ≡ true)
  Reason r (acquire_failed e) = (r.acquired ≡ refused e) × (is_retryable config e ≡ false)
  Reason r (gateway_rejected g) = retryable_gateway_error (some g) ≡ false
  Reason r (dial_failed e) = ⊥
  Reason r (disconnected e) = ⊥
