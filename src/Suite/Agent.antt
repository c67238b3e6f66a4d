-- ===== src/Suite/Agent.antt =====
-- The tests of crates/common/src/lib.rs and crates/edge-agent (lib.rs, inference.rs, hardware.rs).
pub mod Passes
use sovereign_edge_tee_agent.Base.{
  ℕ, zero, suc, ◌+◌, ◌*◌, ◌%◌, ◌^◌, Bytes, text, bytes_eq, Bool, true, false, not, ◌&&◌, leb, ◌==◌,
  ltb, List, [], ◌∷◌, ◌++◌, Option, none, some, length, replicate,
}
use sovereign_edge_tee_agent.Base.Float.{Float}
use sovereign_edge_tee_agent.Common.{
  TelemetryFrame, NetworkQuality, online, degraded, offline, default_metadata,
}
use sovereign_edge_tee_agent.Common.Quality.{is_degraded, is_offline}
use sovereign_edge_tee_agent.Common.Buffer
use sovereign_edge_tee_agent.Common.Buffer.{ContextBuffer, push, len}
use sovereign_edge_tee_agent.Agent.Inference.{
  Inference, InferenceBackend, ok, err, simulated, infer, backend_name,
}
use sovereign_edge_tee_agent.Agent.State.{InferenceSource, cloud, local, hybrid, Agent, new}
use sovereign_edge_tee_agent.Agent.Mode.{mode_eq, determine_mode}
use sovereign_edge_tee_agent.Agent.Process.{process_frame}
use sovereign_edge_tee_agent.Agent.Hardware.{
  Host, Vendor, nvidia, amd, intel, other, gpu, npu, Accelerator, vendor_from_pci_id,
  supports_llama_offload,
}
use sovereign_edge_tee_agent.Agent.Hardware.Detect.{detect_accelerators}
use sovereign_edge_tee_agent.Agent.Hardware.Sensors.{SensorReading, no_reading, sensor_text}
use sovereign_edge_tee_agent.Suite.Checks.{is_empty}

module _ (fl : Float) where
  open fl use {lit, dec}

  abbrev measured : fl.F → fl.F → fl.F → fl.F → NetworkQuality fl.F
  measured latency loss jitter bandwidth = record {
    latency_ms = latency;
    packet_loss_pct = loss;
    jitter_ms = jitter;
    bandwidth_mbps = bandwidth;
    measured_at = 0;
  }

  unfoldable pub test_network_quality_degraded : Bool
  test_network_quality_degraded =
      let quality = measured (lit 250) (lit 1) (lit 10) (lit 100) in
      is_degraded fl quality && not (is_offline fl quality)

  unfoldable pub test_network_quality_offline : Bool
  test_network_quality_offline = is_offline fl (measured (lit 6000) (lit 60) (lit 100) (lit 0))

module _ {F : Type 0} where
  -- The loop of the test, for `n` values of `i` from `i` on.
  pushed : ℕ → ℕ → ContextBuffer F → ContextBuffer F
  pushed zero i b = b
  pushed (suc n) i b = pushed n (i + 1) (
      push b (record {
        frame_id = i;
        source_ip = text "192.168.1.1";
        dest_ip = none;
        timestamp_ns = i * 1000;
        payload = replicate 100 (i % 256);
        metadata = default_metadata;
      }))

module _ (F : Type 0) where
  unfoldable pub test_context_buffer_eviction : Bool
  unfolding pushed
  test_context_buffer_eviction =
      let buffer = pushed {F = F} 15 0 (Buffer.new 10 1024) in
      leb (len buffer) 10 && leb buffer.total_bytes 1024

module _ (fl : Float) (ib : InferenceBackend) where
  open fl use {lit, dec}

  unfoldable pub test_agent_creation : Bool
  test_agent_creation = mode_eq (new fl ib 5).mode online

  unfoldable pub test_mode_determination : Bool
  test_mode_determination =
      let good = measured fl (lit 50) (dec 5 1) (lit 5) (lit 100) in
      let slow : NetworkQuality fl.F = record good { latency_ms = lit 250 } in
      let lossy : NetworkQuality fl.F = record slow { packet_loss_pct = lit 60 } in
      mode_eq (determine_mode fl good) online
      && (mode_eq (determine_mode fl slow) degraded && mode_eq (determine_mode fl lossy) offline)

  abbrev is_cloud : InferenceSource → Bool
  is_cloud cloud = true
  is_cloud local = false
  is_cloud hybrid = false

  unfoldable pub test_frame_processing : ℕ → Bool
  test_frame_processing now =
      let (agent, result) =
        process_frame fl ib (new fl ib 5)
          (record {
            frame_id = 0;
            source_ip = text "192.168.1.1";
            dest_ip = none;
            timestamp_ns = 0;
            payload = 1 ∷ 2 ∷ 3 ∷ 4 ∷ [];
            metadata = default_metadata;
          })
          now in
      is_cloud result.source && (agent.stats.frames_processed == 1)

module _ (ib : InferenceBackend) where
  -- The text of an answer; an error is the panic of `unwrap`.
  abbrev answer : Inference → Option Bytes
  answer (ok output) = some output.text
  answer (err e) = none

  unfoldable pub test_simulated_backend : Option Bool
  test_simulated_backend =
      let (r, backend) = infer ib simulated (text "test prompt") 16 in
      elim (answer r) [
        | none ↦ none
        | some said ↦ some (
            bytes_eq said (text "LOCAL_SAFETY_CHECK")
            && bytes_eq (backend_name ib backend) (text "simulated"))
      ]

module _ (fl : Float) (host : Host fl.F32) where
  abbrev all_named : List Accelerator → Bool
  all_named [] = true
  all_named (a ∷ rest) = (not (is_empty a.name) && not (is_empty a.device_path)) && all_named rest

  unfoldable pub test_detect_does_not_panic : Bool
  test_detect_does_not_panic = all_named (detect_accelerators host)

  -- 194 176 is the sign for degrees.
  unfoldable pub test_sensor_display : Bool
  test_sensor_display =
      let full : SensorReading fl.F32 = record {
        temp_c = some (fl.dec32 450 1);
        power_w = some (fl.dec32 325 2);
        utilization_pct = some (fl.dec32 120 1);
      } in
      bytes_eq (sensor_text host no_reading) (text "no sensors")
      && bytes_eq (sensor_text host full) (text "45" ++ (194 ∷ 176 ∷ text "C, 3.2W, 12% util"))

abbrev is_intel : Vendor → Bool
is_intel intel = true
is_intel _ = false

abbrev is_amd : Vendor → Bool
is_amd amd = true
is_amd _ = false

abbrev is_nvidia : Vendor → Bool
is_nvidia nvidia = true
is_nvidia _ = false

abbrev is_other : Vendor → Bool
is_other (other id) = true
is_other _ = false

unfoldable pub test_vendor_mapping : Bool
test_vendor_mapping =
    is_nvidia (vendor_from_pci_id (text "0x10de"))
    && (is_amd (vendor_from_pci_id (text "0x1002"))
        && (is_intel (vendor_from_pci_id (text "0x8086"))
            && is_other (vendor_from_pci_id (text "0xdead"))))

unfoldable pub test_llama_offload_capability : Bool
test_llama_offload_capability =
    supports_llama_offload (record {
      kind = gpu;
      vendor = nvidia;
      name = text "test";
      device_path = text "/dev/dri/card0";
      driver = none;
      sysfs_device = none;
    })
    && not (
        supports_llama_offload (record {
          kind = npu;
          vendor = amd;
          name = text "test";
          device_path = text "/dev/accel/accel0";
          driver = none;
          sysfs_device = none;
        }))
