-- ===== src/Agent/Program.antt =====
-- The program edge_agent (crates/edge-agent/src/main.rs). Loading a llama.cpp model is the parameter `load`:
-- `LlamaCppBackend::load` with the feature `llama`, and a failure in a build without it, which only warns as well.
pub mod Demo
pub mod Stats
use sovereign_edge_tee_agent.Base.{
  ℕ, zero, suc, ◌+◌, Bytes, text, Bool, bytes_eq, if◌then◌else◌, ◌++◌, List, [], ◌∷◌, Option, none,
  some,
}
use sovereign_edge_tee_agent.Base.Float.{Float}
use sovereign_edge_tee_agent.Base.Fallible.{Fallible, ok, err}
use sovereign_edge_tee_agent.Base.Utf8.{decimal}
use sovereign_edge_tee_agent.Common.{NetworkQuality, TelemetryFrame, default_metadata}
use sovereign_edge_tee_agent.Agent.Inference.{AgentError, InferenceBackend, other}
use sovereign_edge_tee_agent.Agent.State.{
  InferenceResult, Agent, new, set_local_backend, set_mode_change_callback, start_monitoring, stop,
}
use sovereign_edge_tee_agent.Agent.Mode.{update_network_quality}
use sovereign_edge_tee_agent.Agent.Process.{process_frame}
use sovereign_edge_tee_agent.Agent.Hardware.{Accelerator, Host}
use sovereign_edge_tee_agent.Agent.Hardware.Detect.{detect_accelerators}
use sovereign_edge_tee_agent.Agent.Hardware.Offload.{any_offload}

-- `Args`; the port is only printed.
pub record Args : Type 0 where
  pub probe_interval : ℕ
  pub mode : Bytes
  pub port : ℕ
  pub model : Option Bytes
  pub gpu_layers : ℕ

module _ (fl : Float) where
  open fl use {F, lit}

  unfoldable pub offline_start : ℕ → NetworkQuality F
  offline_start now = record {
    latency_ms = lit 10000;
    packet_loss_pct = lit 100;
    jitter_ms = lit 0;
    bandwidth_mbps = lit 0;
    measured_at = now;
  }

  unfoldable pub degraded_start : ℕ → NetworkQuality F
  degraded_start now = record {
    latency_ms = lit 300;
    packet_loss_pct = lit 10;
    jitter_ms = lit 60;
    bandwidth_mbps = lit 5;
    measured_at = now;
  }

  unfoldable pub demo_frame : ℕ → TelemetryFrame F
  demo_frame i = record {
    frame_id = 0;
    source_ip = text "192.168.1.1";
    dest_ip = none;
    timestamp_ns = 0;
    payload = text "telemetry-data-" ++ decimal i;
    metadata = default_metadata;
  }

module _ (fl : Float) (ib : InferenceBackend) where
  -- The `match` on the mode's text.
  unfoldable pub force_mode : Bytes → ℕ → Agent fl ib → Agent fl ib
  force_mode mode now a =
      if bytes_eq mode (text "offline")
      then (update_network_quality fl ib a (offline_start fl now)).0
      else (if bytes_eq mode (text "degraded")
          then (update_network_quality fl ib a (degraded_start fl now)).0
          else a)

  -- The loop over `n` frames from the number `i` on; the clock gives the time of each call.
  unfoldable pub process_demo :
      ℕ → ℕ → (ℕ → ℕ) → Agent fl ib → Agent fl ib × List (InferenceResult fl.F32)
  process_demo zero i clock a = (a, [])
  process_demo (suc n) i clock a =
      let (a', result) = process_frame fl ib a (demo_frame fl i) (clock i) in
      let (last, results) = process_demo n (i + 1) clock a' in (last, result ∷ results)

module _ (fl : Float) (ib : InferenceBackend)
    (load : Bytes → ℕ → Fallible AgentError ib.Backend) where
  open fl use {F}

  unfoldable pub load_llama_backend : Agent fl ib → Bytes → ℕ → Agent fl ib
  load_llama_backend a model_path gpu_layers = elim (load model_path gpu_layers) [
    | ok backend ↦ set_local_backend fl ib a (other backend)
    | err e ↦ a
  ]

  unfoldable pub load_model : Args → List Accelerator → Agent fl ib → Agent fl ib
  load_model args accelerators a = elim args.model [
    | none ↦ a
    | some model_path ↦
        load_llama_backend a model_path (if any_offload accelerators then args.gpu_layers else 0)
  ]

  -- The agent before the frames: what was detected decides the layers, the text of the mode the mode.
  unfoldable pub prepare : Args → List Accelerator → ℕ → Agent fl ib
  prepare args accelerators now = force_mode fl ib args.mode now (
      set_mode_change_callback fl ib (load_model args accelerators (new fl ib args.probe_interval))
        0)

  -- `main` to its end, with what the monitoring thread will read: the agent, and the results that are printed.
  unfoldable pub run :
      Args → Host fl.F32 → ℕ → (ℕ → ℕ) → List Bool → Agent fl ib × List (InferenceResult fl.F32)
  run args host now clock later =
      let a = (start_monitoring fl ib (prepare args (detect_accelerators host) now) later).0 in
      let (last, results) = process_demo fl ib 5 0 clock a in (stop fl ib last, results)
