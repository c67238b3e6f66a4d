-- ===== src/Agent/Process.antt =====
-- `process_frame` of crates/edge-agent/src/lib.rs, with the cloud and the local branch.
pub mod Laws
use sovereign_edge_tee_agent.Base.{ℕ, ◌+◌, Bytes, text, Bool, not, List, [], ◌∷◌, ◌++◌}
use sovereign_edge_tee_agent.Base.{add64, if◌then◌else◌}
use sovereign_edge_tee_agent.Base.Utf8.{decimal, trim, from_utf8_lossy}
use sovereign_edge_tee_agent.Base.Float.{Float}
use sovereign_edge_tee_agent.Base.Dict.{Dict, insert}
use sovereign_edge_tee_agent.Common.{
  TelemetryFrame, AgentMode, online, degraded, offline, transitioning,
}
use sovereign_edge_tee_agent.Common.Quality.{is_offline}
use sovereign_edge_tee_agent.Common.Buffer
use sovereign_edge_tee_agent.Agent.Inference.{
  InferenceBackend, ok, err, error_text, backend_name, infer,
}
use sovereign_edge_tee_agent.Agent.State.{
  InferenceResult, cloud, local, EdgeAgent, AgentStats, Agent,
}

module _ (fl : Float) (ib : InferenceBackend) where
  abbrev Outcome : Type 0
  Outcome = Agent fl ib × InferenceResult fl.F32

  unfoldable pub can_reach_cloud : Agent fl ib → Bool
  can_reach_cloud a = not (is_offline fl a.network_quality)

  unfoldable pub process_cloud_offload : TelemetryFrame fl.F → ℕ → InferenceResult fl.F32
  process_cloud_offload frame now = record {
    action = text "CLOUD_ANALYSIS_COMPLETE";
    confidence = fl.dec32 95 2;
    metadata = insert (text "model") (text "qwen-max") [];
    timestamp = now;
    source = cloud;
  }

  -- The prompt of `process_local_inference`; 10 is the line feed.
  unfoldable pub local_prompt : TelemetryFrame fl.F → Bytes
  local_prompt frame =
      text "Telemetry from "
      ++ (frame.source_ip
          ++ (text ": " ++ (from_utf8_lossy frame.payload ++ (10 ∷ text "Safety assessment:"))))

  unfoldable pub process_local_inference : Agent fl ib → TelemetryFrame fl.F → ℕ → Outcome
  process_local_inference a frame now =
      let (r, backend) = infer ib a.local_backend (local_prompt frame) 32 in
      let a' : Agent fl ib = record a { local_backend = backend } in
      elim r [
        | ok output ↦ (
          a',
          record {
            action = trim output.text;
            confidence = fl.dec32 75 2;
            metadata = insert (text "tokens") (decimal output.tokens_generated) (
                insert (text "backend") (backend_name ib backend)
                  (insert (text "model") output.model_name []));
            timestamp = now;
            source = local;
          },
        )
        | err e ↦ (
          a',
          record {
            action = text "INFERENCE_ERROR";
            confidence = fl.dec32 0 1;
            metadata = insert (text "error") (error_text e) [];
            timestamp = now;
            source = local;
          },
        )
      ]

  -- The branches of the `match` count where the frame goes.
  offload : Agent fl ib → TelemetryFrame fl.F → ℕ → Outcome
  offload a frame now = (
    record a { stats = record (a.stats) { cloud_offloads = add64 a.stats.cloud_offloads 1 } },
    process_cloud_offload frame now,
  )

  infer_locally : Agent fl ib → TelemetryFrame fl.F → ℕ → Outcome
  infer_locally a frame now =
      process_local_inference
        (record a {
          stats = record (a.stats) { local_inferences = add64 a.stats.local_inferences 1 };
        })
        frame now

  buffered : Agent fl ib → ℕ → Outcome
  buffered a now = (
    a,
    record {
      action = text "BUFFERED";
      confidence = fl.dec32 0 1;
      metadata = [];
      timestamp = now;
      source = local;
    },
  )

  dispatch : AgentMode → Agent fl ib → TelemetryFrame fl.F → ℕ → Outcome
  unfolding offload infer_locally buffered
  dispatch online a frame now = offload a frame now
  dispatch degraded a frame now =
      if can_reach_cloud a then offload a frame now else infer_locally a frame now
  dispatch offline a frame now = infer_locally a frame now
  dispatch transitioning a frame now = buffered a now

  unfoldable pub process_frame : Agent fl ib → TelemetryFrame fl.F → ℕ → Outcome
  unfolding dispatch
  process_frame a frame now =
      let counter = add64 a.frame_counter 1 in
      let numbered : TelemetryFrame fl.F = record frame { frame_id = counter } in
      let a' : Agent fl ib = record a {
        frame_counter = counter;
        stats = record (a.stats) { frames_processed = add64 a.stats.frames_processed 1 };
        context_buffer = Buffer.push a.context_buffer numbered;
      } in
      dispatch a'.mode a' numbered now
