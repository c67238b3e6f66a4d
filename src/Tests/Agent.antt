-- ===== src/Tests/Agent.antt =====
-- The agent on concrete data.
use sovereign_edge_tee_agent.Base.{
  ℕ, ◌≤◌, ◌≡◌, ◌≢◌, ◌⊎◌, refl, true, false, none, [], text, add64, arith, List, length, ◌∷◌,
}
use sovereign_edge_tee_agent.Common.{
  TelemetryFrame, online, degraded, offline, transitioning, default_metadata,
}
use sovereign_edge_tee_agent.Common.Quality.{is_degraded, is_offline, IsWorse}
use sovereign_edge_tee_agent.Agent.Inference.{InferenceBackend, err, inference_failed, infer, other}
use sovereign_edge_tee_agent.Agent.State.{
  Agent, new, set_local_backend, set_mode_change_callback, cloud, local,
}
use sovereign_edge_tee_agent.Agent.Mode.{determine_mode, update_network_quality, mode_eq}
use sovereign_edge_tee_agent.Agent.Mode.Laws.{
  severity, determine_mode_monotone, update_network_quality_lem, IsDecided, IsEntered, IsTold,
}
use sovereign_edge_tee_agent.Agent.Process.{
  process_frame, process_local_inference, process_cloud_offload,
}
use sovereign_edge_tee_agent.Agent.Process.Laws.{process_frame_source}
use sovereign_edge_tee_agent.Agent.Reach.{Step, Reach, here, next, updates, Inv, Reach-Inv}
use sovereign_edge_tee_agent.Agent.History.{
  Event, measures, arrives, handle_all, fresh, observe, observe_all,
}
use sovereign_edge_tee_agent.Agent.History.Whole.{IsShownBy, handle_all_lem}
use sovereign_edge_tee_agent.Tests.Floats.{fixed, fixed-IsOrdered}
use sovereign_edge_tee_agent.Tests.Common.{quality}

-- A backend that fails, and counts how often it was asked.
abbrev failing : InferenceBackend
failing = record {
  Backend = ℕ;
  name = λ b. text "failing";
  infer = λ b prompt n. (err (inference_failed (text "no model")), add64 b 1);
}

abbrev telemetry : TelemetryFrame fixed.F
telemetry = record {
  frame_id = 0;
  source_ip = text "192.168.1.1";
  dest_ip = none;
  timestamp_ns = 0;
  payload = 1 ∷ 2 ∷ 3 ∷ 4 ∷ [];
  metadata = default_metadata;
}

abbrev start : Agent fixed failing
start = set_mode_change_callback fixed failing (new fixed failing 5) 7

abbrev degraded_agent : Agent fixed failing
degraded_agent = (update_network_quality fixed failing start (quality 250 1 10)).0

-- `test_mode_determination`
modes :
    (determine_mode fixed (quality 50 0 5) ≡ online)
    × (determine_mode fixed (quality 250 0 5) ≡ degraded)
    × (determine_mode fixed (quality 250 60 5) ≡ offline)
unfolding determine_mode is_degraded is_offline
modes = (refl, refl, refl)

-- A fresh agent offloads, and the callback sees the transition.
offloads : (process_frame fixed failing start telemetry 9).1.source ≡ cloud
unfolding process_frame process_cloud_offload set_mode_change_callback new
offloads = refl

notices :
    (update_network_quality fixed failing start (quality 250 1 10)).1 ≡ (7, online, degraded) ∷ []
unfolding update_network_quality determine_mode is_degraded is_offline mode_eq
    set_mode_change_callback new
notices = refl

worse : IsWorse fixed (quality 250 0 5) (quality 250 60 5)
worse = record { latency = refl; packet_loss = refl; jitter = refl }

determine_mode_monotone_example :
    severity (determine_mode fixed (quality 250 0 5))
    ≤ severity (determine_mode fixed (quality 250 60 5))
determine_mode_monotone_example =
    determine_mode_monotone fixed fixed-IsOrdered {q = quality 250 0 5} {r = quality 250 60 5} worse

update_network_quality_lem_example :
    let (a', ns) = update_network_quality fixed failing start (quality 250 1 10) in
    let m = a'.mode in
    IsDecided fixed failing (quality 250 1 10) m
    × (((start.mode ≡ m) × (a' ≡ record start { network_quality = quality 250 1 10 }) × (ns ≡ []))
        ⊎ ((start.mode ≢ m)
            × (a' ≡ record start {
              network_quality = quality 250 1 10;
              mode = m;
              last_mode = start.mode;
              context_buffer = a'.context_buffer;
              stats = record (start.stats) {
                mode_transitions = add64 start.stats.mode_transitions 1;
              };
            })
            × IsEntered fixed failing m start.context_buffer a'.context_buffer
            × IsTold fixed failing start.mode_change_callback start.mode m ns))
update_network_quality_lem_example =
    update_network_quality_lem fixed failing start (quality 250 1 10)

Reach-degraded : Reach fixed failing degraded_agent
Reach-degraded = next (next (here 5) (Step.sets_callback 7)) (updates (quality 250 1 10))

Reach-Inv_example : Inv fixed failing degraded_agent
Reach-Inv_example = Reach-Inv fixed failing fixed-IsOrdered Reach-degraded

-- An offline agent with a failing backend reports the error.
reports_error :
    (process_frame fixed failing
      (record (set_local_backend fixed failing start (other 0)) { mode = offline })
      telemetry
      9).1.action
    ≡ text "INFERENCE_ERROR"
unfolding process_frame process_local_inference infer set_local_backend set_mode_change_callback new
reports_error = refl

process_frame_source_example :
    let (a', r) = process_frame fixed failing degraded_agent telemetry 9 in
    ((r.source ≡ cloud)
      × ((degraded_agent.mode ≡ online)
          ⊎ ((degraded_agent.mode ≡ degraded)
              × (is_offline fixed degraded_agent.network_quality ≡ false)))
      × (a'.stats.cloud_offloads ≡ add64 degraded_agent.stats.cloud_offloads 1)
      × (a'.stats.local_inferences ≡ degraded_agent.stats.local_inferences))
    ⊎ ((r.source ≡ local)
        × ((degraded_agent.mode ≡ offline)
            ⊎ ((degraded_agent.mode ≡ degraded)
                × (is_offline fixed degraded_agent.network_quality ≡ true)))
        × (a'.stats.cloud_offloads ≡ degraded_agent.stats.cloud_offloads)
        × (a'.stats.local_inferences ≡ add64 degraded_agent.stats.local_inferences 1))
    ⊎ ((r.source ≡ local)
        × (degraded_agent.mode ≡ transitioning)
        × (a'.stats.cloud_offloads ≡ degraded_agent.stats.cloud_offloads)
        × (a'.stats.local_inferences ≡ degraded_agent.stats.local_inferences))
process_frame_source_example = process_frame_source fixed failing degraded_agent telemetry 9

-- The network degrades, a frame comes, the network goes, a frame comes, and the network is back.
abbrev outage : List (Event fixed.F)
outage =
    measures (quality 250 1 10)
    ∷ arrives telemetry 1
    ∷ measures (quality 6000 0 0)
    ∷ arrives telemetry 2
    ∷ measures (quality 20 0 1)
    ∷ arrives telemetry 3
    ∷ []

outage_seen :
    let (v, changes, sources) = observe_all fixed fresh outage in
    (changes ≡ (online, degraded) ∷ (degraded, offline) ∷ (offline, online) ∷ [])
    × (sources ≡ cloud ∷ local ∷ cloud ∷ [])
    × (length v.since ≡ 1)
unfolding observe_all observe determine_mode is_degraded is_offline mode_eq
outage_seen = (refl, refl, refl)

handle_all_lem_example :
    IsShownBy fixed failing 7
      (handle_all fixed failing start outage)
      (observe_all fixed fresh outage)
handle_all_lem_example =
    handle_all_lem fixed failing fixed-IsOrdered 5 7 outage
      (omega arith, (omega arith, (omega arith, tt)))
