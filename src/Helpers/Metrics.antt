-- ===== src/Helpers/Metrics.antt =====
-- crates/helpers/src/metrics.rs, a placeholder for a registry of Prometheus: nothing is registered or recorded, and the
-- exported text is fixed. 10 is the line feed.
use sovereign_edge_tee_agent.Base.{ℕ, Bytes, Bool, text, ◌++◌, ◌∷◌, []}
use sovereign_edge_tee_agent.Base.Fallible.{Fallible, ok}

pub record MetricsRegistry : Type 0 where
  pub private : Unit {0}

unfoldable pub new : MetricsRegistry
new = record { private = tt }

abbrev pub Registered : Type 0
Registered = Fallible Bytes (Unit {0})

unfoldable pub register_edge_agent_counters : MetricsRegistry → Registered
register_edge_agent_counters registry = ok tt

unfoldable pub register_network_gauges : MetricsRegistry → Registered
register_network_gauges registry = ok tt

unfoldable pub register_latency_histogram : MetricsRegistry → Registered
register_latency_histogram registry = ok tt

unfoldable pub observe_latency : {F : Type 0} → F → Unit {0}
observe_latency latency_ms = tt

unfoldable pub record_mode_transition : Bytes → Bytes → Unit {0}
record_mode_transition from to = tt

unfoldable pub record_frame_processed : Bytes → ℕ → Unit {0}
record_frame_processed source bytes = tt

unfoldable pub record_pqc_event : Bytes → Unit {0}
record_pqc_event event_type = tt

unfoldable pub record_tee_event : {F : Type 0} → Bytes → F → Unit {0}
record_tee_event event_type duration_ms = tt

unfoldable pub record_zk_event : Bytes → Bool → Unit {0}
record_zk_event event_type verified = tt

unfoldable pub export_metrics : Bytes
export_metrics =
    text "# HELP sovereignedge_frames_processed Total frames processed"
    ++ (10
        ∷ (text "# TYPE sovereignedge_frames_processed counter"
            ++ (10 ∷ (text "sovereignedge_frames_processed 0" ++ (10 ∷ [])))))
