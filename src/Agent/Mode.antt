-- ===== src/Agent/Mode.antt =====
-- `determine_mode`, `transition_mode` and `update_network_quality` of crates/edge-agent/src/lib.rs.
pub mod Laws
use sovereign_edge_tee_agent.Base.{ℕ, ◌+◌, Bool, true, false, Option, none, some, List, [], ◌∷◌}
use sovereign_edge_tee_agent.Base.{add64, if◌then◌else◌}
use sovereign_edge_tee_agent.Base.Float.{Float}
use sovereign_edge_tee_agent.Common.{
  NetworkQuality, AgentMode, online, degraded, offline, transitioning,
}
use sovereign_edge_tee_agent.Common.Quality.{is_degraded, is_offline}
use sovereign_edge_tee_agent.Common.Buffer
use sovereign_edge_tee_agent.Common.Buffer.{ContextBuffer}
use sovereign_edge_tee_agent.Agent.Inference.{InferenceBackend}
use sovereign_edge_tee_agent.Agent.State.{EdgeAgent, Agent}

-- One call of the callback: which closure, the old and the new mode.
abbrev pub Notice : Type 0
Notice = ℕ × AgentMode × AgentMode

-- `PartialEq` of `AgentMode`, derived.
unfoldable pub mode_eq : AgentMode → AgentMode → Bool
mode_eq online online = true
mode_eq degraded degraded = true
mode_eq offline offline = true
mode_eq transitioning transitioning = true
mode_eq _ _ = false

module _ (fl : Float) where
  -- `determine_mode`, of the quality that the agent holds
  unfoldable pub determine_mode : NetworkQuality fl.F → AgentMode
  determine_mode q =
      if is_offline fl q then offline else if is_degraded fl q then degraded else online

-- The buffer after the `match` of `transition_mode`.
abbrev pub enter : {F : Type 0} → AgentMode → ContextBuffer F → ContextBuffer F
enter online b = Buffer.clear b
enter degraded b = b
enter offline b = b
enter transitioning b = b

abbrev pub notify : Option ℕ → AgentMode → AgentMode → List Notice
notify none old new = []
notify (some callback) old new = (callback, old, new) ∷ []

module _ (fl : Float) (ib : InferenceBackend) where
  -- The agent and the calls of the callback.
  unfoldable pub transition_mode : Agent fl ib → AgentMode → Agent fl ib × List Notice
  transition_mode a new_mode =
      let old_mode = a.mode in
      let a₁ : Agent fl ib = record a { mode = transitioning } in
      let a₂ : Agent fl ib = record a₁ { context_buffer = enter new_mode a₁.context_buffer } in
      let a₃ : Agent fl ib = record a₂ {
        mode = new_mode;
        last_mode = old_mode;
        stats = record (a₂.stats) { mode_transitions = add64 a₂.stats.mode_transitions 1 };
      } in
      (a₃, notify a₃.mode_change_callback old_mode new_mode)

  unfoldable pub update_network_quality :
      Agent fl ib → NetworkQuality fl.F → Agent fl ib × List Notice
  unfolding transition_mode
  update_network_quality a quality =
      let a₁ : Agent fl ib = record a { network_quality = quality } in
      let new_mode = determine_mode fl a₁.network_quality in
      if mode_eq new_mode a₁.mode then (a₁, []) else transition_mode a₁ new_mode
