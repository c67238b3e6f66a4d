-- ===== src/Agent/History.antt =====
-- A history of measurements and frames, as `EdgeAgent` of crates/edge-agent/src/lib.rs handles it, and as an abstract
-- agent does that keeps every frame since it was last back online and counts without a bound.
pub mod Refines
pub mod Whole
use sovereign_edge_tee_agent.Base.{ℕ, suc, ◌%◌, ◌^◌, List, [], ◌∷◌, ◌++◌, if◌then◌else◌}
use sovereign_edge_tee_agent.Base.Float.{Float}
use sovereign_edge_tee_agent.Common.{TelemetryFrame, NetworkQuality, AgentMode, online, offline}
use sovereign_edge_tee_agent.Agent.Inference.{InferenceBackend}
use sovereign_edge_tee_agent.Agent.State.{InferenceSource, cloud, local, InferenceResult, Agent}
use sovereign_edge_tee_agent.Agent.Mode.{Notice, mode_eq, determine_mode, update_network_quality}
use sovereign_edge_tee_agent.Agent.Process.{process_frame}

-- The network was measured, or a frame arrived at a time.
pub data Event (F : Type 0) : Type 0 where
  measures : NetworkQuality F → Event F
  arrives : TelemetryFrame F → ℕ → Event F

module _ (fl : Float) (ib : InferenceBackend) where
  -- The agent after an event, the calls of the callback and the results.
  abbrev pub Reaction : Type 0
  Reaction = Agent fl ib × List Notice × List (InferenceResult fl.F32)

  unfoldable pub handle : Agent fl ib → Event fl.F → Reaction
  handle a (measures q) = let (a', notices) = update_network_quality fl ib a q in (a', notices, [])
  handle a (arrives f now) = let (a', result) = process_frame fl ib a f now in (a', [], result ∷ [])

  unfoldable pub handle_all : Agent fl ib → List (Event fl.F) → Reaction
  handle_all a [] = (a, [], [])
  handle_all a (e ∷ es) =
      let (a', notices, results) = handle a e in
      let (b, more_notices, more_results) = handle_all a' es in
      (b, notices ++ more_notices, results ++ more_results)

-- The abstract agent: its mode, all frames since it was last back online, and exact counts.
pub record View (F : Type 0) : Type 0 where
  pub mode : AgentMode
  pub since : List (TelemetryFrame F)
  pub arrived : ℕ
  pub uploaded : ℕ
  pub inferred : ℕ
  pub changes : ℕ

abbrev pub Change : Type 0
Change = AgentMode × AgentMode

abbrev pub fresh : {F : Type 0} → View F
fresh = record { mode = online; since = []; arrived = 0; uploaded = 0; inferred = 0; changes = 0 }

module _ (fl : Float) where
  -- The abstract agent after an event, the changes of mode and where the frames went.
  abbrev pub Sight : Type 0
  Sight = View fl.F × List Change × List InferenceSource

  enters : View fl.F → AgentMode → Sight
  enters v m = if mode_eq m v.mode then (v, [], []) else (
    record v {
      mode = m;
      since = if mode_eq m online then [] else v.since;
      changes = suc v.changes;
    },
    (v.mode, m) ∷ [],
    [],
  )

  stores : View fl.F → TelemetryFrame fl.F → View fl.F
  stores v f = record v {
    since = v.since ++ (record f { frame_id = suc v.arrived % 2 ^ 64 } ∷ []);
    arrived = suc v.arrived;
  }

  unfoldable pub observe : View fl.F → Event fl.F → Sight
  unfolding enters stores
  observe v (measures q) = enters v (determine_mode fl q)
  observe v (arrives f now) =
      if mode_eq v.mode offline
      then (record (stores v f) { inferred = suc v.inferred }, [], local ∷ [])
      else (record (stores v f) { uploaded = suc v.uploaded }, [], cloud ∷ [])

  unfoldable pub observe_all : View fl.F → List (Event fl.F) → Sight
  observe_all v [] = (v, [], [])
  observe_all v (e ∷ es) =
      let (v', changes, sources) = observe v e in
      let (w, more_changes, more_sources) = observe_all v' es in
      (w, changes ++ more_changes, sources ++ more_sources)
