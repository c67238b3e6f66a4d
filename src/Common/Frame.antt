-- ===== src/Common/Frame.antt =====
-- The data types of crates/common/src/lib.rs. `F` is the type of `f64`.
use sovereign_edge_tee_agent.Base.{ℕ, Option, none, List, Bytes}

-- `FrameMetadata`
pub record FrameMetadata (F : Type 0) : Type 0 where
  pub latency_ms : Option F
  pub packet_loss_pct : Option F
  pub jitter_ms : Option F
  pub agent_mode : Option Bytes
  pub session_id : Option Bytes

-- `FrameMetadata::default`, derived
abbrev pub default_metadata : {F : Type 0} → FrameMetadata F
default_metadata = record {
  latency_ms = none;
  packet_loss_pct = none;
  jitter_ms = none;
  agent_mode = none;
  session_id = none;
}

pub record TelemetryFrame (F : Type 0) : Type 0 where
  pub frame_id : ℕ
  pub source_ip : Bytes
  pub dest_ip : Option Bytes
  pub timestamp_ns : ℕ
  pub payload : List ℕ
  pub metadata : FrameMetadata F

pub record NetworkQuality (F : Type 0) : Type 0 where
  pub latency_ms : F
  pub packet_loss_pct : F
  pub jitter_ms : F
  pub bandwidth_mbps : F
  pub measured_at : ℕ

pub data AgentMode : Type 0 where
  online degraded offline transitioning : AgentMode

pub record EncryptedFrame : Type 0 where
  pub frame_id : ℕ
  pub nonce : List ℕ
  pub ciphertext : List ℕ
  pub tag : List ℕ
