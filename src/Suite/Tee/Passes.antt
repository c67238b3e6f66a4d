-- ===== src/Suite/Tee/Passes.antt =====
-- The tests of the gateway pass, whatever the hash is, where an HTTP client can be built.
use sovereign_edge_tee_agent.Base.{Bytes, ◌≡◌, refl, true, some, bytes_eq}
use sovereign_edge_tee_agent.Base.Utf8.{decimal, strip_prefix, from_utf8_lossy}
use sovereign_edge_tee_agent.Base.Lines.{starts_with}
use sovereign_edge_tee_agent.Tee.Backend.{
  simulated_seal, simulated_unseal, simulated_attest, new_simulated, mask, new_storage, seal,
  unseal, verify_attestation,
}
use sovereign_edge_tee_agent.Tee.Gateway.{
  new, initialize, is_initialized, system_prompt, build_prompt,
}
use sovereign_edge_tee_agent.Suite.Tee.{
  contains_text, test_sealed_storage, test_gateway_initialization,
  test_frame_processing_builds_prompt,
}

module _ (sha256 : Bytes → Bytes) where
  test_sealed_storage_passes : test_sealed_storage sha256 ≡ some true
  unfolding test_sealed_storage simulated_seal simulated_unseal simulated_attest new_simulated mask
      new_storage seal unseal verify_attestation bytes_eq
  test_sealed_storage_passes = refl

  test_gateway_initialization_passes : test_gateway_initialization sha256 true ≡ some true
  unfolding test_gateway_initialization simulated_seal simulated_unseal simulated_attest
      new_simulated mask seal unseal verify_attestation initialize is_initialized new
  test_gateway_initialization_passes = refl

  test_frame_processing_builds_prompt_passes :
      (F : Type 0) → test_frame_processing_builds_prompt sha256 F true ≡ some true
  unfolding test_frame_processing_builds_prompt simulated_seal simulated_unseal simulated_attest
      new_simulated mask seal unseal verify_attestation initialize new contains_text starts_with
      strip_prefix build_prompt system_prompt decimal from_utf8_lossy
  test_frame_processing_builds_prompt_passes F = refl
