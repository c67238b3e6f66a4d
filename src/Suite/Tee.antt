-- ===== src/Suite/Tee.antt =====
-- The tests of crates/tee-gateway/src/lib.rs, over the simulated enclave; `built` is whether an HTTP client can be built.
pub mod Passes
use sovereign_edge_tee_agent.Base.{
  ℕ, Bytes, text, bytes_eq, Bool, true, false, not, ◌&&◌, ◌||◌, List, [], ◌∷◌, Option, none, some,
}
use sovereign_edge_tee_agent.Base.Options.{◌>>=◌}
use sovereign_edge_tee_agent.Base.Lines.{starts_with}
use sovereign_edge_tee_agent.Common.{TelemetryFrame, default_metadata}
use sovereign_edge_tee_agent.Tee.Backend.{
  SimulatedTee, simulated, new_simulated, new_storage, seal, unseal, verify_attestation,
}
use sovereign_edge_tee_agent.Tee.Gateway.{
  TeeGateway, new, initialize, is_initialized, system_prompt, build_prompt,
}
use sovereign_edge_tee_agent.Suite.Checks.{unwrap, is_ok}

-- `contains` of a text
unfoldable pub contains_text : Bytes → Bytes → Bool
contains_text part [] = starts_with part []
contains_text part (c ∷ s) = starts_with part (c ∷ s) || contains_text part s

module _ (sha256 : Bytes → Bytes) where
  abbrev pub secret : Bytes
  secret = text "sk-qwen-test-token-12345"

  unfoldable pub test_sealed_storage : Option Bool
  test_sealed_storage = do
    let tb = simulated sha256
    let (sealed, storage) = seal tb (new_storage tb new_simulated) secret
    let early = unseal tb storage
    let (report, attested) = verify_attestation tb storage
    _ ← unwrap report
    let unsealed = unseal tb attested
    bytes ← unwrap unsealed
    some (is_ok sealed && (not (is_ok early) && (is_ok unsealed && bytes_eq bytes secret)))

  abbrev test_gateway : TeeGateway SimulatedTee
  test_gateway = new (simulated sha256) new_simulated (text "https://dashscope.aliyuncs.com/api/v1")

  unfoldable pub test_gateway_initialization : Bool → Option Bool
  test_gateway_initialization built = do
    (done, gateway) ← initialize (simulated sha256) test_gateway (text "test-api-token") built
    some (is_ok done && is_initialized (simulated sha256) gateway)

  -- `build_prompt` does not read the gateway and does not fail.
  unfoldable pub test_frame_processing_builds_prompt : Type 0 → Bool → Option Bool
  test_frame_processing_builds_prompt F built = do
    (done, gateway) ← initialize (simulated sha256) test_gateway (text "test-token") built
    _ ← unwrap done
    let frame : TelemetryFrame F = record {
      frame_id = 1;
      source_ip = text "192.168.1.1";
      dest_ip = none;
      timestamp_ns = 0;
      payload = text "test telemetry data";
      metadata = default_metadata;
    }
    let prompt = build_prompt frame
    some (contains_text (text "Telemetry Frame #1") prompt && contains_text system_prompt prompt)
