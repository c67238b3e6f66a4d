-- ===== src/Helpers/Fixtures.antt =====
-- The fixtures of crates/helpers/src/fixtures.rs. `unwrap` of a builder that cannot fail is the value itself.
pub mod Samples
use sovereign_edge_tee_agent.Base.{
  ℕ, zero, suc, ◌+◌, Bytes, text, ◌++◌, List, [], ◌∷◌, Option, none, some,
}
use sovereign_edge_tee_agent.Base.Float.{Float}
use sovereign_edge_tee_agent.Base.Utf8.{decimal}
use sovereign_edge_tee_agent.Base.Options.{◌>>=◌}
use sovereign_edge_tee_agent.Base.Fallible.{Fallible, ok, err}
use sovereign_edge_tee_agent.Common.{FrameMetadata, TelemetryFrame, NetworkQuality, AgentMode}
use sovereign_edge_tee_agent.Helpers.Builders.{
  TelemetryFrameBuilder, new_frame, with_frame_id, with_source_ip, with_payload_str, with_metadata,
  build_frame, excellent, degraded_quality, offline_quality, debug_mode,
}

abbrev sample_ip : Bytes
sample_ip = text "192.168.1.100"

-- `unwrap`: `none` stands for its panic.
abbrev pub unwrap : {A : Type 0} → Fallible Bytes A → Option A
unwrap (ok a) = some a
unwrap (err e) = none

module _ {F : Type 0} where
  unfoldable pub sample_frame : Option (TelemetryFrame F)
  sample_frame = unwrap (
      build_frame (
        with_payload_str (with_source_ip (with_frame_id new_frame 1) sample_ip)
          (text "sample telemetry data")))

  unfoldable pub sample_frame_with_id : ℕ → Option (TelemetryFrame F)
  sample_frame_with_id id = unwrap (
      build_frame (
        with_payload_str (with_source_ip (with_frame_id new_frame id) sample_ip)
          (text "telemetry frame " ++ decimal id)))

  -- The frames of `n` numbers from the number `id` on.
  unfoldable pub sample_from : ℕ → ℕ → Option (List (TelemetryFrame F))
  sample_from zero id = some []
  sample_from (suc n) id = do
    frame ← sample_frame_with_id id
    frames ← sample_from n (id + 1)
    some (frame ∷ frames)

  unfoldable pub sample_frames : ℕ → Option (List (TelemetryFrame F))
  sample_frames count = sample_from count 1

module _ (fl : Float) where
  open fl use {F, lit, dec}

  unfoldable pub excellent_network : NetworkQuality F
  excellent_network = excellent fl

  unfoldable pub degraded_network : NetworkQuality F
  degraded_network = degraded_quality fl

  unfoldable pub offline_network : NetworkQuality F
  offline_network = offline_quality fl

  unfoldable pub sample_metadata : FrameMetadata F
  sample_metadata = record {
    latency_ms = some (lit 45);
    packet_loss_pct = some (dec 5 1);
    jitter_ms = some (lit 5);
    agent_mode = some (text "online");
    session_id = some (text "test-session-123");
  }

  unfoldable pub metadata_for_mode : AgentMode → FrameMetadata F
  metadata_for_mode mode = record {
    latency_ms = some (lit 50);
    packet_loss_pct = some (lit 1);
    jitter_ms = some (lit 10);
    agent_mode = some (debug_mode mode);
    session_id = some (text "test-session");
  }

  unfoldable pub frame_with_quality : ℕ → NetworkQuality F → Option (TelemetryFrame F)
  frame_with_quality frame_id quality =
      let metadata : FrameMetadata F = record {
        latency_ms = some quality.latency_ms;
        packet_loss_pct = some quality.packet_loss_pct;
        jitter_ms = some quality.jitter_ms;
        agent_mode = none;
        session_id = some (text "session-" ++ decimal frame_id);
      } in
      unwrap (
        build_frame (
          with_metadata
            (with_payload_str (with_source_ip (with_frame_id new_frame frame_id) sample_ip)
              (text "frame " ++ (decimal frame_id ++ text " data")))
            metadata))
