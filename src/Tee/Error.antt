-- ===== src/Tee/Error.antt =====
-- `GatewayError` and `Result` of crates/tee-gateway/src/lib.rs. The variants `HttpError` and `Io` are
-- never built.
use sovereign_edge_tee_agent.Base.{Bytes}
use sovereign_edge_tee_agent.Base.Fallible.{Fallible}
pub use sovereign_edge_tee_agent.Base.Fallible.{ok, err, or_fail, ◌>>=◌}

pub data GatewayError : Type 0 where
  sealing_failed unsealing_failed : Bytes → GatewayError
  attestation_failed api_key_not_initialized : GatewayError
  qwen_api_error : Bytes → GatewayError

abbrev pub Result : Type 0 → Type 0
Result A = Fallible GatewayError A
