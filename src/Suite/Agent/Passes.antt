-- ===== src/Suite/Agent/Passes.antt =====
-- The tests of the shared types and of the agent pass, in every `f64` as in IsOrdered and on every machine.
use sovereign_edge_tee_agent.Base.{
  ℕ, ◌≡◌, ◌≢◌, refl, arith, text, Bytes, true, false, bytes_eq, some, [], ◌∷◌, List,
}
use sovereign_edge_tee_agent.Base.Utf8.{strip_prefix}
use sovereign_edge_tee_agent.Base.Lines.{starts_with}
use sovereign_edge_tee_agent.Base.Float.{Float, IsOrdered, IsRounded, lit_above, lit_not_above}
use sovereign_edge_tee_agent.Common.Quality.{is_degraded, is_offline}
use sovereign_edge_tee_agent.Common.Buffer
use sovereign_edge_tee_agent.Common.Buffer.{push, evict_bytes, evict_frames, len}
use sovereign_edge_tee_agent.Agent.Inference.{
  InferenceBackend, simulated_infer, infer, backend_name,
}
use sovereign_edge_tee_agent.Agent.State.{new}
use sovereign_edge_tee_agent.Agent.Mode.{mode_eq, determine_mode}
use sovereign_edge_tee_agent.Agent.Process.{process_frame, process_cloud_offload}
use sovereign_edge_tee_agent.Agent.Hardware.{
  Host, Accelerator, vendor_from_pci_id, supports_llama_offload,
}
use sovereign_edge_tee_agent.Agent.Hardware.Detect.{nvidia_model_name, detect_accelerators}
use sovereign_edge_tee_agent.Agent.Hardware.Sensors.{sensor_text}
use sovereign_edge_tee_agent.Agent.Hardware.Named.{AllNamed, detect_accelerators-AllNamed}
use sovereign_edge_tee_agent.Suite.Checks.{is_empty}
use sovereign_edge_tee_agent.Suite.Agent.{
  test_network_quality_degraded, test_network_quality_offline, test_context_buffer_eviction,
  test_agent_creation, test_mode_determination, test_frame_processing, test_simulated_backend,
  all_named, test_detect_does_not_panic, test_sensor_display, test_vendor_mapping,
  test_llama_offload_capability,
}

module _ (fl : Float) (o : IsOrdered fl) where
  test_network_quality_degraded_passes : test_network_quality_degraded fl ≡ true
  unfolding test_network_quality_degraded is_degraded is_offline
  test_network_quality_degraded_passes = ground (
    arith,
    lit_above fl o 250 200 (omega arith) (omega arith),
    lit_not_above fl o 250 5000 (omega arith) (omega arith),
    lit_not_above fl o 1 50 (omega arith) (omega arith),
  )

  test_network_quality_offline_passes : test_network_quality_offline fl ≡ true
  unfolding test_network_quality_offline is_offline
  test_network_quality_offline_passes =
      ground (arith, lit_above fl o 6000 5000 (omega arith) (omega arith))

  test_mode_determination_passes :
      (ib : InferenceBackend) → IsRounded fl → test_mode_determination fl ib ≡ true
  unfolding test_mode_determination determine_mode is_degraded is_offline mode_eq
  test_mode_determination_passes ib r = ground (
    arith,
    lit_not_above fl o 50 200 (omega arith) (omega arith),
    lit_not_above fl o 50 5000 (omega arith) (omega arith),
    lit_not_above fl o 5 50 (omega arith) (omega arith),
    lit_above fl o 250 200 (omega arith) (omega arith),
    lit_not_above fl o 250 5000 (omega arith) (omega arith),
    lit_above fl o 60 50 (omega arith) (omega arith),
    r.lt-dec 5 5 1 (omega arith) (omega arith),
    r.lt-dec 5 50 1 (omega arith) (omega arith),
  )

test_context_buffer_eviction_passes : (F : Type 0) → test_context_buffer_eviction F ≡ true
unfolding test_context_buffer_eviction push evict_bytes evict_frames len Buffer.new
test_context_buffer_eviction_passes F = refl

module _ (fl : Float) (ib : InferenceBackend) where
  test_agent_creation_passes : test_agent_creation fl ib ≡ true
  unfolding test_agent_creation new mode_eq
  test_agent_creation_passes = refl

  test_frame_processing_passes : (now : ℕ) → test_frame_processing fl ib now ≡ true
  unfolding test_frame_processing process_frame process_cloud_offload new
  test_frame_processing_passes now = refl

  test_simulated_backend_passes : test_simulated_backend ib ≡ some true
  unfolding test_simulated_backend infer simulated_infer backend_name bytes_eq
  test_simulated_backend_passes = refl

test_vendor_mapping_passes : test_vendor_mapping ≡ true
unfolding test_vendor_mapping vendor_from_pci_id bytes_eq
test_vendor_mapping_passes = refl

test_llama_offload_capability_passes : test_llama_offload_capability ≡ true
unfolding test_llama_offload_capability supports_llama_offload
test_llama_offload_capability_passes = refl

module _ (fl : Float) (host : Host fl.F32) where
  -- The printer of `f32` rounds half to even.
  test_sensor_display_passes :
      host.show_f32 0 (fl.dec32 450 1) ≡ text "45"
      → host.show_f32 1 (fl.dec32 325 2) ≡ text "3.2"
      → host.show_f32 0 (fl.dec32 120 1) ≡ text "12"
      → test_sensor_display fl host ≡ true
  unfolding test_sensor_display sensor_text bytes_eq
  test_sensor_display_passes a b c = rw (a, b, c) refl

  node-filled : (p : Bytes) → starts_with (text "/dev/") p ≡ true → is_empty p ≡ false
  unfolding starts_with strip_prefix
  node-filled [] h = absurd (cc)
  node-filled (c ∷ p) h = refl

  name-filled : (name : Bytes) → name ≢ [] → is_empty name ≡ false
  name-filled [] h = absurd (h refl)
  name-filled (c ∷ name) h = refl

  AllNamed-all_named :
      (as' : List Accelerator)
      → nvidia_model_name host ≢ some []
      → AllNamed host as'
      → all_named fl host as' ≡ true
  AllNamed-all_named [] n h = refl
  AllNamed-all_named (a ∷ as') n (named, rest) =
      rw
        (
          node-filled a.device_path named.at_node,
          name-filled a.name (λ e. n (named.named e).1),
          AllNamed-all_named as' n rest,
        )
        refl

  -- The driver of NVIDIA does not give an empty model.
  test_detect_does_not_panic_passes :
      nvidia_model_name host ≢ some [] → test_detect_does_not_panic fl host ≡ true
  unfolding test_detect_does_not_panic
  test_detect_does_not_panic_passes n =
      AllNamed-all_named (detect_accelerators host) n (detect_accelerators-AllNamed host)
