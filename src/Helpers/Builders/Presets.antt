-- ===== src/Helpers/Builders/Presets.antt =====
-- What the preset network qualities are, and the mode that an agent takes on them.
use sovereign_edge_tee_agent.Base.{◌≡◌, ap, ◌∙◌, inl, inr, arith}
use sovereign_edge_tee_agent.Base.Float.{Float, IsOrdered, IsRounded, lit_above, lit_not_above}
use sovereign_edge_tee_agent.Common.{NetworkQuality, online, degraded, offline}
use sovereign_edge_tee_agent.Common.Quality.{is_degraded, is_offline}
use sovereign_edge_tee_agent.Agent.Inference.{InferenceBackend}
use sovereign_edge_tee_agent.Agent.State.{Agent}
use sovereign_edge_tee_agent.Agent.Mode.{determine_mode, update_network_quality}
use sovereign_edge_tee_agent.Agent.Mode.Laws.{update_network_quality_cases}
use sovereign_edge_tee_agent.Helpers.Builders.{
  excellent, degraded_quality, offline_quality, build_quality,
}

module _ (fl : Float) (o : IsOrdered fl) where
  excellent-mode : IsRounded fl → determine_mode fl (excellent fl) ≡ online
  unfolding determine_mode is_offline is_degraded excellent build_quality
  excellent-mode r = ground (
    arith,
    lit_not_above fl o 10 200 (omega arith) (omega arith),
    lit_not_above fl o 10 5000 (omega arith) (omega arith),
    lit_not_above fl o 2 50 (omega arith) (omega arith),
    r.lt-dec 1 5 1 (omega arith) (omega arith),
    r.lt-dec 1 50 1 (omega arith) (omega arith),
  )

  degraded-mode : determine_mode fl (degraded_quality fl) ≡ degraded
  unfolding determine_mode is_offline is_degraded degraded_quality build_quality
  degraded-mode = ground (
    arith,
    lit_above fl o 250 200 (omega arith) (omega arith),
    lit_not_above fl o 250 5000 (omega arith) (omega arith),
    lit_not_above fl o 6 50 (omega arith) (omega arith),
  )

  offline-mode : determine_mode fl (offline_quality fl) ≡ offline
  unfolding determine_mode is_offline offline_quality build_quality
  offline-mode = ground (arith, lit_above fl o 10000 5000 (omega arith) (omega arith))

  module _ (ib : InferenceBackend) where
    takes :
        (a : Agent fl ib) (q : NetworkQuality fl.F)
        → (update_network_quality fl ib a q).0.mode ≡ determine_mode fl q
    takes a q = elim (update_network_quality_cases fl ib a q) [
      | inl (same, e, quiet) ↦ ap (λ b. b.mode) e ∙ same
      | inr (differs, e, notice) ↦ ap (λ b. b.mode) e
    ]

    -- With an `f64` order and rounding as in IsOrdered and IsRounded, an agent in any state is online after an update
    -- with the excellent preset, degraded after the degraded one and offline after the offline one.
    pub presets-modes :
        IsRounded fl
        → (a : Agent fl ib)
        → ((update_network_quality fl ib a (excellent fl)).0.mode ≡ online)
          × ((update_network_quality fl ib a (degraded_quality fl)).0.mode ≡ degraded)
          × ((update_network_quality fl ib a (offline_quality fl)).0.mode ≡ offline)
    presets-modes r a = (
      takes a (excellent fl) ∙ excellent-mode r,
      takes a (degraded_quality fl) ∙ degraded-mode,
      takes a (offline_quality fl) ∙ offline-mode,
    )
