-- ===== src/Helpers/Builders.antt =====
-- The builders of crates/helpers/src/builders.rs. A builder is the values that were set.
pub mod Presets
pub mod Setters
use sovereign_edge_tee_agent.Base.{ℕ, Bytes, text, Option, none, some}
use sovereign_edge_tee_agent.Base.Float.{Float}
use sovereign_edge_tee_agent.Base.Fallible.{Fallible, ok}
use sovereign_edge_tee_agent.Common.{
  FrameMetadata, default_metadata, TelemetryFrame, NetworkQuality, AgentMode, online, degraded,
  offline, transitioning,
}

-- `unwrap_or`
abbrev pub unwrap_or : {A : Type 0} → A → Option A → A
unwrap_or default none = default
unwrap_or default (some a) = a

pub record TelemetryFrameBuilder (F : Type 0) : Type 0 where
  pub frame_id : Option ℕ
  pub source_ip : Option Bytes
  pub dest_ip : Option Bytes
  pub timestamp_ns : Option ℕ
  pub payload : Option Bytes
  pub metadata : Option (FrameMetadata F)

pub record NetworkQualityBuilder (F : Type 0) : Type 0 where
  pub latency_ms : Option F
  pub packet_loss_pct : Option F
  pub jitter_ms : Option F
  pub bandwidth_mbps : Option F
  pub measured_at : Option ℕ

pub record FrameMetadataBuilder (F : Type 0) : Type 0 where
  pub latency_ms : Option F
  pub packet_loss_pct : Option F
  pub jitter_ms : Option F
  pub agent_mode : Option Bytes
  pub session_id : Option Bytes

module _ {F : Type 0} where
  abbrev pub new_frame : TelemetryFrameBuilder F
  new_frame = record {
    frame_id = none;
    source_ip = none;
    dest_ip = none;
    timestamp_ns = none;
    payload = none;
    metadata = none;
  }

  abbrev pub with_frame_id : TelemetryFrameBuilder F → ℕ → TelemetryFrameBuilder F
  with_frame_id b id = record b { frame_id = some id }

  abbrev pub with_source_ip : TelemetryFrameBuilder F → Bytes → TelemetryFrameBuilder F
  with_source_ip b ip = record b { source_ip = some ip }

  abbrev pub with_dest_ip : TelemetryFrameBuilder F → Bytes → TelemetryFrameBuilder F
  with_dest_ip b ip = record b { dest_ip = some ip }

  abbrev pub with_timestamp_ns : TelemetryFrameBuilder F → ℕ → TelemetryFrameBuilder F
  with_timestamp_ns b ts = record b { timestamp_ns = some ts }

  abbrev pub with_payload : TelemetryFrameBuilder F → Bytes → TelemetryFrameBuilder F
  with_payload b bytes = record b { payload = some bytes }

  abbrev pub with_payload_str : TelemetryFrameBuilder F → Bytes → TelemetryFrameBuilder F
  with_payload_str b str = record b { payload = some str }

  abbrev pub with_metadata : TelemetryFrameBuilder F → FrameMetadata F → TelemetryFrameBuilder F
  with_metadata b meta = record b { metadata = some meta }

  -- The error type is `&'static str`; no branch fails.
  unfoldable pub build_frame : TelemetryFrameBuilder F → Fallible Bytes (TelemetryFrame F)
  build_frame b = ok (record {
    frame_id = unwrap_or 0 b.frame_id;
    source_ip = unwrap_or (text "0.0.0.0") b.source_ip;
    dest_ip = b.dest_ip;
    timestamp_ns = unwrap_or 0 b.timestamp_ns;
    payload = unwrap_or (text "") b.payload;
    metadata = unwrap_or default_metadata b.metadata;
  })

module _ (fl : Float) where
  open fl use {F, lit, dec}

  abbrev pub new_quality : NetworkQualityBuilder F
  new_quality = record {
    latency_ms = none;
    packet_loss_pct = none;
    jitter_ms = none;
    bandwidth_mbps = none;
    measured_at = none;
  }

  abbrev pub quality_latency : NetworkQualityBuilder F → F → NetworkQualityBuilder F
  quality_latency b latency = record b { latency_ms = some latency }

  abbrev pub quality_packet_loss : NetworkQualityBuilder F → F → NetworkQualityBuilder F
  quality_packet_loss b loss = record b { packet_loss_pct = some loss }

  abbrev pub quality_jitter : NetworkQualityBuilder F → F → NetworkQualityBuilder F
  quality_jitter b jitter = record b { jitter_ms = some jitter }

  abbrev pub quality_bandwidth : NetworkQualityBuilder F → F → NetworkQualityBuilder F
  quality_bandwidth b bw = record b { bandwidth_mbps = some bw }

  abbrev pub quality_measured_at : NetworkQualityBuilder F → ℕ → NetworkQualityBuilder F
  quality_measured_at b ts = record b { measured_at = some ts }

  unfoldable pub build_quality : NetworkQualityBuilder F → NetworkQuality F
  build_quality b = record {
    latency_ms = unwrap_or (lit 0) b.latency_ms;
    packet_loss_pct = unwrap_or (lit 0) b.packet_loss_pct;
    jitter_ms = unwrap_or (lit 0) b.jitter_ms;
    bandwidth_mbps = unwrap_or (lit 0) b.bandwidth_mbps;
    measured_at = unwrap_or 0 b.measured_at;
  }

  abbrev four : F → F → F → F → NetworkQuality F
  four latency loss jitter bw = build_quality (
      quality_bandwidth
        (quality_jitter (quality_packet_loss (quality_latency new_quality latency) loss) jitter) bw)

  unfoldable pub excellent : NetworkQuality F
  excellent = four (lit 10) (dec 1 1) (lit 2) (lit 1000)

  unfoldable pub degraded_quality : NetworkQuality F
  degraded_quality = four (lit 250) (lit 6) (lit 60) (lit 50)

  unfoldable pub offline_quality : NetworkQuality F
  offline_quality = four (lit 10000) (lit 100) (lit 0) (lit 0)

-- `Debug` of `AgentMode`, derived.
unfoldable pub debug_mode : AgentMode → Bytes
debug_mode online = text "Online"
debug_mode degraded = text "Degraded"
debug_mode offline = text "Offline"
debug_mode transitioning = text "Transitioning"

module _ {F : Type 0} where
  abbrev pub new_metadata : FrameMetadataBuilder F
  new_metadata = record {
    latency_ms = none;
    packet_loss_pct = none;
    jitter_ms = none;
    agent_mode = none;
    session_id = none;
  }

  abbrev pub metadata_latency : FrameMetadataBuilder F → F → FrameMetadataBuilder F
  metadata_latency b latency = record b { latency_ms = some latency }

  abbrev pub metadata_packet_loss : FrameMetadataBuilder F → F → FrameMetadataBuilder F
  metadata_packet_loss b loss = record b { packet_loss_pct = some loss }

  abbrev pub metadata_jitter : FrameMetadataBuilder F → F → FrameMetadataBuilder F
  metadata_jitter b jitter = record b { jitter_ms = some jitter }

  unfoldable pub metadata_mode : FrameMetadataBuilder F → AgentMode → FrameMetadataBuilder F
  metadata_mode b mode = record b { agent_mode = some (debug_mode mode) }

  abbrev pub metadata_session : FrameMetadataBuilder F → Bytes → FrameMetadataBuilder F
  metadata_session b id = record b { session_id = some id }

  unfoldable pub build_metadata : FrameMetadataBuilder F → FrameMetadata F
  build_metadata b = record {
    latency_ms = b.latency_ms;
    packet_loss_pct = b.packet_loss_pct;
    jitter_ms = b.jitter_ms;
    agent_mode = b.agent_mode;
    session_id = b.session_id;
  }
