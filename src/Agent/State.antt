-- ===== src/Agent/State.antt =====
-- The state of `EdgeAgent` (crates/edge-agent/src/lib.rs), its construction and its setters.
use sovereign_edge_tee_agent.Base.{
  ℕ, suc, ◌*◌, Bytes, Bool, false, Option, none, some, List, [], ◌∷◌,
}
use sovereign_edge_tee_agent.Base.{add64, if◌then◌else◌}
use sovereign_edge_tee_agent.Base.Float.{Float}
use sovereign_edge_tee_agent.Base.Dict.{Dict}
use sovereign_edge_tee_agent.Common.{NetworkQuality, AgentMode, online}
use sovereign_edge_tee_agent.Common.Buffer
use sovereign_edge_tee_agent.Common.Buffer.{ContextBuffer}
use sovereign_edge_tee_agent.Agent.Inference.{InferenceBackend, LocalBackend, simulated}

pub data InferenceSource : Type 0 where
  cloud local hybrid : InferenceSource

-- `F32` is the type of `f32`.
pub record InferenceResult (F32 : Type 0) : Type 0 where
  pub action : Bytes
  pub confidence : F32
  pub metadata : Dict Bytes
  pub timestamp : ℕ
  pub source : InferenceSource

pub record AgentStats : Type 0 where
  pub frames_processed : ℕ
  pub cloud_offloads : ℕ
  pub local_inferences : ℕ
  pub mode_transitions : ℕ
  pub probe_count : ℕ

abbrev pub no_stats : AgentStats
no_stats = record {
  frames_processed = 0;
  cloud_offloads = 0;
  local_inferences = 0;
  mode_transitions = 0;
  probe_count = 0;
}

-- A registered closure is known by a number; what it is called with is returned by the call.
pub record EdgeAgent (F B : Type 0) : Type 0 where
  pub mode : AgentMode
  pub network_quality : NetworkQuality F
  pub context_buffer : ContextBuffer F
  pub mode_change_callback : Option ℕ
  pub last_mode : AgentMode
  pub probe_interval : ℕ
  pub running : Bool
  pub frame_counter : ℕ
  pub stats : AgentStats
  pub local_backend : LocalBackend B

-- The loop of the monitoring thread, over the values that it reads from the shared flag: it sleeps
-- once for each `true` before the first `false`.
unfoldable pub monitor_sleeps : List Bool → ℕ
monitor_sleeps [] = 0
monitor_sleeps (flag ∷ flags) = let rest = monitor_sleeps flags in if flag then suc rest else 0

module _ (fl : Float) (ib : InferenceBackend) where
  open fl use {F, lit, dec, add, mul}
  open ib use {Backend}

  abbrev pub Agent : Type 0
  Agent = EdgeAgent F Backend

  unfoldable pub new : ℕ → Agent
  unfolding Buffer.new
  new probe_interval_secs = record {
    mode = online;
    network_quality = record {
      latency_ms = lit 0;
      packet_loss_pct = lit 0;
      jitter_ms = lit 0;
      bandwidth_mbps = lit 0;
      measured_at = 0;
    };
    context_buffer = Buffer.new 100 (10 * 1024 * 1024);
    mode_change_callback = none;
    last_mode = online;
    probe_interval = probe_interval_secs;
    running = false;
    frame_counter = 0;
    stats = no_stats;
    local_backend = simulated;
  }

  unfoldable pub set_local_backend : Agent → LocalBackend Backend → Agent
  set_local_backend a backend = record a { local_backend = backend }

  unfoldable pub set_mode_change_callback : Agent → ℕ → Agent
  set_mode_change_callback a callback = record a { mode_change_callback = some callback }

  -- The thread's behaviour, from the values of `running` that it will read.
  unfoldable pub start_monitoring : Agent → List Bool → Agent × ℕ
  unfolding monitor_sleeps
  start_monitoring a later = (a, monitor_sleeps (a.running ∷ later))

  -- The three random numbers and the time are inputs.
  unfoldable pub probe_network_quality : Agent → F → F → F → ℕ → Agent × NetworkQuality F
  probe_network_quality a r1 r2 r3 now = (
    record a { stats = record (a.stats) { probe_count = add64 a.stats.probe_count 1 } },
    record {
      latency_ms = add (lit 45) (mul r1 (lit 20));
      packet_loss_pct = mul r2 (lit 2);
      jitter_ms = mul r3 (lit 10);
      bandwidth_mbps = lit 100;
      measured_at = now;
    },
  )

  unfoldable pub stop : Agent → Agent
  stop a = record a { running = false }
