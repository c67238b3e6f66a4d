-- ===== src/Agent/Process/Laws.antt =====
-- Where a frame goes in each mode, and what processing it changes.
use sovereign_edge_tee_agent.Base.{ℕ, ◌≡◌, ◌⊎◌, true, false, arith}
use sovereign_edge_tee_agent.Base.{add64}
use sovereign_edge_tee_agent.Base.Float.{Float}
use sovereign_edge_tee_agent.Common.{TelemetryFrame, online, degraded, offline, transitioning}
use sovereign_edge_tee_agent.Common.Quality.{is_offline}
use sovereign_edge_tee_agent.Common.Buffer
use sovereign_edge_tee_agent.Agent.Inference.{InferenceBackend}
use sovereign_edge_tee_agent.Agent.State.{Agent, cloud, local}
use sovereign_edge_tee_agent.Agent.Process.{
  can_reach_cloud, process_local_inference, process_cloud_offload, process_frame,
}

module _ (fl : Float) (ib : InferenceBackend) where
  -- The frame as it is stored and processed.
  abbrev pub numbered : Agent fl ib → TelemetryFrame fl.F → TelemetryFrame fl.F
  numbered a f = record f { frame_id = add64 a.frame_counter 1 }

  -- What every frame changes and leaves alone: it is numbered by the next counter value, counted and
  -- stored, and the mode, the network quality, the flag and the count of transitions stay.
  pub process_frame_state :
      (a : Agent fl ib) (f : TelemetryFrame fl.F) (now : ℕ)
      → let a' = (process_frame fl ib a f now).0 in
        (a'.context_buffer ≡ Buffer.push a.context_buffer (numbered a f))
        × (a'.frame_counter ≡ add64 a.frame_counter 1)
        × (a'.stats.frames_processed ≡ add64 a.stats.frames_processed 1)
        × (a'.mode ≡ a.mode)
        × (a'.network_quality ≡ a.network_quality)
        × (a'.running ≡ a.running)
        × (a'.stats.mode_transitions ≡ a.stats.mode_transitions)
  unfolding process_frame process_local_inference
  process_frame_state a f now = ground arith

  -- A frame goes to the cloud exactly in online mode, and in degraded mode while the network does not
  -- count as offline. Then `cloud_offloads` moves by one and `local_inferences` stays; otherwise it
  -- is the other way round, but in the transitioning mode neither moves.
  pub process_frame_source :
      (a : Agent fl ib) (f : TelemetryFrame fl.F) (now : ℕ)
      → let (a', r) = process_frame fl ib a f now in
        ((r.source ≡ cloud)
          × ((a.mode ≡ online) ⊎ ((a.mode ≡ degraded) × (is_offline fl a.network_quality ≡ false)))
          × (a'.stats.cloud_offloads ≡ add64 a.stats.cloud_offloads 1)
          × (a'.stats.local_inferences ≡ a.stats.local_inferences))
        ⊎ ((r.source ≡ local)
            × ((a.mode ≡ offline)
                ⊎ ((a.mode ≡ degraded) × (is_offline fl a.network_quality ≡ true)))
            × (a'.stats.cloud_offloads ≡ a.stats.cloud_offloads)
            × (a'.stats.local_inferences ≡ add64 a.stats.local_inferences 1))
        ⊎ ((r.source ≡ local)
            × (a.mode ≡ transitioning)
            × (a'.stats.cloud_offloads ≡ a.stats.cloud_offloads)
            × (a'.stats.local_inferences ≡ a.stats.local_inferences))
  unfolding process_frame process_local_inference process_cloud_offload can_reach_cloud
  process_frame_source a f now = ground arith
