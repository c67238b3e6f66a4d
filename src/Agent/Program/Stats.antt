-- ===== src/Agent/Program/Stats.antt =====
-- What the program edge_agent prints as its final statistics.
use sovereign_edge_tee_agent.Base.{
  ℕ, ◌≡◌, ◌≢◌, inl, inr, sym, ap, ◌∙◌, arith, Bytes, text, Bool, false, bytes_eq, bytes_eq_iff,
  if◌then◌else◌, length, List, Bool-cases,
}
use sovereign_edge_tee_agent.Base.Float.{Float, IsOrdered, lit_above, lit_not_above}
use sovereign_edge_tee_agent.Base.Fallible.{Fallible}
use sovereign_edge_tee_agent.Common.{NetworkQuality, AgentMode, online, degraded, offline}
use sovereign_edge_tee_agent.Common.Quality.{is_degraded, is_offline}
use sovereign_edge_tee_agent.Agent.Inference.{AgentError, InferenceBackend}
use sovereign_edge_tee_agent.Agent.State.{
  InferenceSource, cloud, local, InferenceResult, Agent, new, set_local_backend,
  set_mode_change_callback, start_monitoring, stop,
}
use sovereign_edge_tee_agent.Agent.Mode.{determine_mode, update_network_quality}
use sovereign_edge_tee_agent.Agent.Mode.Laws.{update_network_quality_cases}
use sovereign_edge_tee_agent.Agent.Hardware.{Accelerator, Host}
use sovereign_edge_tee_agent.Agent.Hardware.Detect.{detect_accelerators}
use sovereign_edge_tee_agent.Agent.Program.{
  Args, load_llama_backend, load_model, offline_start, degraded_start, force_mode, process_demo,
  prepare, run,
}
use sovereign_edge_tee_agent.Agent.Program.Demo.{
  AllFrom, Sends, up, still_up, down, uploads, inferences, shares-le, AreWords, process_demo-Sent,
}

-- The agent that the program starts from in a mode, after so many transitions: no counter has moved otherwise.
record Begins (fl : Float) (ib : InferenceBackend) (a : Agent fl ib) (m : AgentMode) (n : ℕ)
    : Type 0 where
  pub mode : a.mode ≡ m
  pub frames : a.stats.frames_processed ≡ 0
  pub offloads : a.stats.cloud_offloads ≡ 0
  pub locals : a.stats.local_inferences ≡ 0
  pub transitions : a.stats.mode_transitions ≡ n

module _ (fl : Float) (ib : InferenceBackend)
    (load : Bytes → ℕ → Fallible AgentError ib.Backend) where
  load_model-same :
      (args : Args) (as' : List Accelerator) (a : Agent fl ib)
      → ((load_model fl ib load args as' a).mode ≡ a.mode)
        × ((load_model fl ib load args as' a).stats ≡ a.stats)
  unfolding load_model load_llama_backend set_local_backend
  load_model-same args as' a = ground arith

  ready : Args → List Accelerator → Agent fl ib
  ready args as' =
      set_mode_change_callback fl ib
        (load_model fl ib load args as' (new fl ib args.probe_interval)) 0

  ready-Begins : (args : Args) (as' : List Accelerator) → Begins fl ib (ready args as') online 0
  unfolding ready set_mode_change_callback new
  ready-Begins args as' =
      let (mode, stats) = load_model-same args as' (new fl ib args.probe_interval) in
      record {
        mode = mode;
        frames = ap (λ s. s.frames_processed) stats;
        offloads = ap (λ s. s.cloud_offloads) stats;
        locals = ap (λ s. s.local_inferences) stats;
        transitions = ap (λ s. s.mode_transitions) stats;
      }

module _ (fl : Float) (ib : InferenceBackend) where
  -- A first update that decides another mode.
  forced :
      (a : Agent fl ib) (q : NetworkQuality fl.F) (m : AgentMode)
      → Begins fl ib a online 0
      → determine_mode fl q ≡ m
      → m ≢ online
      → Begins fl ib (update_network_quality fl ib a q).0 m 1
        × ((update_network_quality fl ib a q).0.network_quality ≡ q)
  forced a q m v d o = elim (update_network_quality_cases fl ib a q) [
    | inl (same, e, quiet) ↦ absurd (o (sym d ∙ sym same ∙ v.mode))
    | inr (differs, e, notice) ↦ (
      record {
        mode = ap (λ b. b.mode) e ∙ d;
        frames = ap (λ b. b.stats.frames_processed) e ∙ v.frames;
        offloads = ap (λ b. b.stats.cloud_offloads) e ∙ v.offloads;
        locals = ap (λ b. b.stats.local_inferences) e ∙ v.locals;
        transitions = ap (λ b. b.stats.mode_transitions) e ∙ omega (arith, v.transitions);
      },
      ap (λ b. b.network_quality) e,
    )
  ]

  -- The statistics after the frames.
  pub record Prints (a : Agent fl ib) (rs : List (InferenceResult fl.F32)) (s : InferenceSource)
      (n : ℕ) : Type 0 where
    pub frames : a.stats.frames_processed ≡ 5
    pub offloads : a.stats.cloud_offloads ≡ uploads s 5
    pub locals : a.stats.local_inferences ≡ inferences s 5
    pub transitions : a.stats.mode_transitions ≡ n
    pub sources : AllFrom s rs
    pub results : length rs ≡ 5

  Begins-Prints :
      (a : Agent fl ib) (m : AgentMode) (n : ℕ) (s : InferenceSource) (clock : ℕ → ℕ)
      → Begins fl ib a m n
      → Sends fl ib a s
      → let (b, rs) = process_demo fl ib 5 0 clock a in Prints (stop fl ib b) rs s n
  unfolding stop
  Begins-Prints a m n s clock v h =
      let words : AreWords fl ib a = record {
        frames = omega (arith, v.frames);
        offloads = omega (arith, v.offloads);
        locals = omega (arith, v.locals);
      } in
      let (sent, from, count) = process_demo-Sent fl ib s 5 0 clock a h words in
      record {
        frames = omega (arith, sent.frames, v.frames);
        offloads = omega (arith, sent.offloads, v.offloads, (shares-le s 5).0);
        locals = omega (arith, sent.locals, v.locals, (shares-le s 5).1);
        transitions = sent.transitions ∙ v.transitions;
        sources = from;
        results = count;
      }

module _ (fl : Float) (o : IsOrdered fl) where
  offline_start-mode : (now : ℕ) → determine_mode fl (offline_start fl now) ≡ offline
  unfolding determine_mode is_offline offline_start
  offline_start-mode now = ground (arith, lit_above fl o 10000 5000 (omega arith) (omega arith))

  degraded_start-mode :
      (now : ℕ)
      → (determine_mode fl (degraded_start fl now) ≡ degraded)
        × (is_offline fl (degraded_start fl now) ≡ false)
  unfolding determine_mode is_offline is_degraded degraded_start
  degraded_start-mode now = ground (
    arith,
    lit_above fl o 300 200 (omega arith) (omega arith),
    lit_not_above fl o 300 5000 (omega arith) (omega arith),
    lit_not_above fl o 10 50 (omega arith) (omega arith),
  )

  -- What the three kinds of the mode's text leave of a fresh agent.
  module _ (ib : InferenceBackend) (a : Agent fl ib) (v : Begins fl ib a online 0) (now : ℕ) where
    offline_text :
        (mode : Bytes)
        → mode ≡ text "offline"
        → Begins fl ib (force_mode fl ib mode now a) offline 1
    unfolding force_mode bytes_eq
    offline_text mode h =
        rw h
          ((forced fl ib a (offline_start fl now) offline v (offline_start-mode now) (λ e. cc)).0)

    degraded_text :
        (mode : Bytes)
        → mode ≡ text "degraded"
        → Begins fl ib (force_mode fl ib mode now a) degraded 1
          × (is_offline fl (force_mode fl ib mode now a).network_quality ≡ false)
    unfolding force_mode bytes_eq
    degraded_text mode h =
        let (mode, reachable) = degraded_start-mode now in
        let (begins, quality) = forced fl ib a (degraded_start fl now) degraded v mode (λ e. cc) in
        rw h (begins, ap (is_offline fl) quality ∙ reachable)

    other_text :
        (mode : Bytes)
        → mode ≢ text "offline"
        → mode ≢ text "degraded"
        → Begins fl ib (force_mode fl ib mode now a) online 0
    unfolding force_mode
    other_text mode h k = elim (Bool-cases (bytes_eq mode (text "offline"))) [
      | inl e ↦ absurd (h ((bytes_eq_iff mode (text "offline")).0 e))
      | inr e ↦ elim (Bool-cases (bytes_eq mode (text "degraded"))) [
        | inl d ↦ absurd (k ((bytes_eq_iff mode (text "degraded")).0 d))
        | inr d ↦ rw (e, d, if◌then◌else◌) v
      ]
    ]

  module _ (ib : InferenceBackend) (load : Bytes → ℕ → Fallible AgentError ib.Backend) where
    -- With an `f64` order as in IsOrdered: on every machine, whatever the backend is and its loading
    -- gives, the program processes five frames and has five results. Started in the mode "offline"
    -- it sends none to the cloud and makes one transition, in the mode "degraded" all five with one
    -- transition, and with any other text all five with no transition.
    pub run_stats :
        (args : Args) (host : Host fl.F32) (now : ℕ) (clock : ℕ → ℕ) (later : List Bool)
        → let (a, rs) = run fl ib load args host now clock later in
          (args.mode ≡ text "offline" → Prints fl ib a rs local 1)
          × (args.mode ≡ text "degraded" → Prints fl ib a rs cloud 1)
          × (args.mode ≢ text "offline" → args.mode ≢ text "degraded" → Prints fl ib a rs cloud 0)
    unfolding run prepare start_monitoring ready
    run_stats args host now clock later =
        let as' = detect_accelerators host in
        let a = ready fl ib load args as' in
        let v = ready-Begins fl ib load args as' in
        let prints = Begins-Prints fl ib (force_mode fl ib args.mode now a) in
        (
          (λ e.
              let b = offline_text ib a v now args.mode e in
              prints offline 1 local clock b (down b.mode)),
          (λ e.
              let (b, q) = degraded_text ib a v now args.mode e in
              prints degraded 1 cloud clock b (still_up b.mode q)),
          (λ h k.
              let b = other_text ib a v now args.mode h k in
              prints online 0 cloud clock b (up b.mode)),
        )
