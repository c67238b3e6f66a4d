-- ===== src/Agent/Mode/Laws.antt =====
-- How the network decides the mode, and all that an update of the network quality changes.
use sovereign_edge_tee_agent.Base.{ℕ, ◌≤◌, ◌≡◌, ◌≢◌, refl, sym, ◌↔◌, ◌⊎◌, inl, inr, true, false}
use sovereign_edge_tee_agent.Base.{
  [], ◌∷◌, List, Option, none, some, arith, add64, Bool-cases, if◌then◌else◌,
}
use sovereign_edge_tee_agent.Base.Float.{Float, IsOrdered}
use sovereign_edge_tee_agent.Common.{
  NetworkQuality, AgentMode, online, degraded, offline, transitioning,
}
use sovereign_edge_tee_agent.Common.Quality.{
  is_degraded, is_offline, IsWorse, is_offline-is_degraded, is_offline-IsWorse, is_degraded-IsWorse,
}
use sovereign_edge_tee_agent.Common.Buffer
use sovereign_edge_tee_agent.Common.Buffer.{ContextBuffer}
use sovereign_edge_tee_agent.Agent.Inference.{InferenceBackend}
use sovereign_edge_tee_agent.Agent.State.{Agent}
use sovereign_edge_tee_agent.Agent.Mode.{
  Notice, mode_eq, determine_mode, enter, notify, update_network_quality,
}

pub mode_eq_iff : (m n : AgentMode) → (mode_eq m n ≡ true) ↔ (m ≡ n)
unfolding mode_eq
mode_eq_iff online n = ground arith
mode_eq_iff degraded n = ground arith
mode_eq_iff offline n = ground arith
mode_eq_iff transitioning n = ground arith

-- How far a mode is from full service.
abbrev pub severity : AgentMode → ℕ
severity online = 0
severity degraded = 1
severity offline = 2
severity transitioning = 3

module _ (fl : Float) (o : IsOrdered fl) where
  -- With an `f64` order as in IsOrdered, on every network: the mode is offline exactly when an
  -- offline threshold is exceeded, online exactly when no degraded threshold is exceeded, and
  -- degraded exactly in between.
  pub determine_mode_iff :
      (q : NetworkQuality fl.F)
      → ((determine_mode fl q ≡ offline) ↔ (is_offline fl q ≡ true))
        × ((determine_mode fl q ≡ online) ↔ (is_degraded fl q ≡ false))
        × ((determine_mode fl q ≡ degraded)
            ↔ ((is_degraded fl q ≡ true) × (is_offline fl q ≡ false)))
  unfolding determine_mode
  determine_mode_iff q = ground (arith, is_offline-is_degraded fl o q)

  -- With an `f64` order as in IsOrdered, a network that is at least as bad in latency, loss and
  -- jitter never gets a less severe mode.
  pub determine_mode_monotone :
      {q r : NetworkQuality fl.F}
      → IsWorse fl q r
      → severity (determine_mode fl q) ≤ severity (determine_mode fl r)
  unfolding determine_mode
  determine_mode_monotone {q} {r} w =
      ground (
        arith,
        is_offline-IsWorse fl o w,
        is_degraded-IsWorse fl o w,
        is_offline-is_degraded fl o q,
      )

enter_lem :
    {F : Type 0} (m : AgentMode) (b : Buffer.ContextBuffer F)
    → enter m b ≡ (if mode_eq m online then Buffer.clear b else b)
unfolding mode_eq
enter_lem online b = refl
enter_lem degraded b = refl
enter_lem offline b = refl
enter_lem transitioning b = refl

module _ (fl : Float) (ib : InferenceBackend) where
  pub update_network_quality_cases :
      (a : Agent fl ib) (q : NetworkQuality fl.F)
      → let (a', notices) = update_network_quality fl ib a q in
        let new = determine_mode fl q in
        ((a.mode ≡ new) × (a' ≡ record a { network_quality = q }) × (notices ≡ []))
        ⊎ ((a.mode ≢ new)
            × (a' ≡ record a {
              network_quality = q;
              mode = new;
              last_mode = a.mode;
              context_buffer =
                  if mode_eq new online then Buffer.clear a.context_buffer else a.context_buffer;
              stats = record (a.stats) { mode_transitions = add64 a.stats.mode_transitions 1 };
            })
            × (notices ≡ notify a.mode_change_callback a.mode new))
  unfolding update_network_quality
  update_network_quality_cases a q = elim (Bool-cases (mode_eq (determine_mode fl q) a.mode)) [
    | inl e ↦ rw (e, if◌then◌else◌) (inl (sym ((mode_eq_iff _ _).0 e), refl, refl))
    | inr e ↦
        rw (e, if◌then◌else◌)
          (inr
            ((λ h. cc ((mode_eq_iff (determine_mode fl q) a.mode).1 (sym h))), rw enter_lem, refl))
  ]

  -- The mode for a quality.
  abbrev pub IsDecided : NetworkQuality fl.F → AgentMode → Type 0
  IsDecided q new =
      ((is_offline fl q ≡ true) × (new ≡ offline))
      ⊎ ((is_offline fl q ≡ false) × (is_degraded fl q ≡ true) × (new ≡ degraded))
      ⊎ ((is_offline fl q ≡ false) × (is_degraded fl q ≡ false) × (new ≡ online))

  decided : (q : NetworkQuality fl.F) → IsDecided q (determine_mode fl q)
  unfolding determine_mode
  decided q = ground arith

  -- What becomes of the buffer, and whom the callback is told.
  abbrev pub IsEntered : AgentMode → ContextBuffer fl.F → ContextBuffer fl.F → Type 0
  IsEntered new b b' =
      ((new ≡ online)
        × (b' ≡ record {
          frames = [];
          max_bytes = b.max_bytes;
          max_frames = b.max_frames;
          total_bytes = 0;
        }))
      ⊎ ((new ≢ online) × (b' ≡ b))

  abbrev pub IsTold : Option ℕ → AgentMode → AgentMode → List Notice → Type 0
  IsTold callback old new notices =
      ((callback ≡ none) × (notices ≡ []))
      ⊎ ((f : ℕ) × (callback ≡ some f) × (notices ≡ (f, old, new) ∷ []))

  entered : (m : AgentMode) (b : ContextBuffer fl.F) → IsEntered m b (enter m b)
  unfolding Buffer.clear
  entered online b = inl (refl, refl)
  entered degraded b = inr ((λ e. cc e), refl)
  entered offline b = inr ((λ e. cc e), refl)
  entered transitioning b = inr ((λ e. cc e), refl)

  told :
      (callback : Option ℕ) (old new : AgentMode)
      → IsTold callback old new (notify callback old new)
  told none old new = inl (refl, refl)
  told (some f) old new = inr (f, refl, refl)

  -- An update stores the quality and leaves the agent in offline mode if the quality counts as offline, else in
  -- degraded mode if it counts as degraded, and else online. If that is the mode it was in, nothing else changes and nobody is told. If not, the transition is counted, the old
  -- mode is remembered, a callback that is set is called once, with the old mode and the new one, and
  -- the buffer has no frames and no bytes when the new mode is online and is as before otherwise.
  pub update_network_quality_lem :
      (a : Agent fl ib) (q : NetworkQuality fl.F)
      → let (a', notices) = update_network_quality fl ib a q in
        let new = a'.mode in
        IsDecided q new
        × (((a.mode ≡ new) × (a' ≡ record a { network_quality = q }) × (notices ≡ []))
            ⊎ ((a.mode ≢ new)
                × (a' ≡ record a {
                  network_quality = q;
                  mode = new;
                  last_mode = a.mode;
                  context_buffer = a'.context_buffer;
                  stats = record (a.stats) { mode_transitions = add64 a.stats.mode_transitions 1 };
                })
                × IsEntered new a.context_buffer a'.context_buffer
                × IsTold a.mode_change_callback a.mode new notices))
  unfolding update_network_quality
  update_network_quality_lem a q = elim (Bool-cases (mode_eq (determine_mode fl q) a.mode)) [
    | inl e ↦
        rw (e, if◌then◌else◌) (rw (← (mode_eq_iff _ _).0 e) (decided q), inl (refl, refl, refl))
    | inr e ↦
        rw (e, if◌then◌else◌)
          (
            decided q,
            inr (
              (λ h. cc ((mode_eq_iff (determine_mode fl q) a.mode).1 (sym h))),
              refl,
              entered (determine_mode fl q) a.context_buffer,
              told a.mode_change_callback a.mode (determine_mode fl q),
            ),
          )
  ]
