-- ===== src/Agent/History/Refines.antt =====
-- The agent refines the abstract agent: on every event they react alike.
use sovereign_edge_tee_agent.Base.{
  ℕ, ◌*◌, ◌%◌, ◌^◌, ◌≤◌, ◌≡◌, ◌≢◌, refl, sym, ap, ◌∙◌, arith, List, [], ◌∷◌, ◌++◌, map, some, add64,
  Bool, true, false, if◌then◌else◌, suc, inl, inr,
}
use sovereign_edge_tee_agent.Base.Float.{Float, IsOrdered}
use sovereign_edge_tee_agent.Common.{
  TelemetryFrame, NetworkQuality, online, degraded, offline, transitioning,
}
use sovereign_edge_tee_agent.Common.Quality.{is_offline}
use sovereign_edge_tee_agent.Common.Buffer
use sovereign_edge_tee_agent.Common.Buffer.{ContextBuffer, frame_size}
use sovereign_edge_tee_agent.Common.Buffer.Window.{Shows, push-Shows, clear-Shows}
use sovereign_edge_tee_agent.Agent.Inference.{InferenceBackend}
use sovereign_edge_tee_agent.Agent.State.{Agent}
use sovereign_edge_tee_agent.Agent.Mode.{mode_eq, determine_mode}
use sovereign_edge_tee_agent.Agent.Mode.Laws.{
  mode_eq_iff, determine_mode_iff, update_network_quality_cases,
}
use sovereign_edge_tee_agent.Agent.Process.{process_frame, process_local_inference}
use sovereign_edge_tee_agent.Agent.Process.Laws.{process_frame_state, process_frame_source}
use sovereign_edge_tee_agent.Agent.Reach.{determine_mode-ne}
use sovereign_edge_tee_agent.Agent.History.{
  measures, arrives, handle, View, Reaction, Sight, observe,
}

-- The caps of the agent's buffer.
abbrev pub max_bytes : ℕ
max_bytes = 10 * 1024 * 1024

-- An exact count as a `u64` keeps it.
abbrev pub wrap : ℕ → ℕ
wrap n = n % 2 ^ 64

module _ (fl : Float) (ib : InferenceBackend) where
  -- What the agent shows of the abstract one, its callback being the closure `c`.
  pub record Refines (c : ℕ) (v : View fl.F) (a : Agent fl ib) : Type 0 where
    pub mode : a.mode ≡ v.mode
    pub settled : a.mode ≡ determine_mode fl a.network_quality
    pub frames : Shows 100 max_bytes v.since a.context_buffer
    pub processed : a.stats.frames_processed ≡ wrap v.arrived
    pub uploads : a.stats.cloud_offloads ≡ wrap v.uploaded
    pub inferences : a.stats.local_inferences ≡ wrap v.inferred
    pub transitions : a.stats.mode_transitions ≡ wrap v.changes
    pub probes : a.stats.probe_count ≡ 0
    pub counter : a.frame_counter ≡ wrap v.arrived
    pub callback : a.mode_change_callback ≡ some c

  process_frame_rest :
      (a : Agent fl ib) (f : TelemetryFrame fl.F) (now : ℕ)
      → let a' = (process_frame fl ib a f now).0 in
        (a'.mode_change_callback ≡ a.mode_change_callback)
        × (a'.stats.probe_count ≡ a.stats.probe_count)
  unfolding process_frame process_local_inference
  process_frame_rest a f now = ground arith

  -- The reactions agree, and so do the states after them.
  abbrev pub Agree : ℕ → Reaction fl ib → Sight fl → Type 0
  Agree c (a, notices, results) (v, changes, sources) =
      Refines c v a
      × (notices ≡ map (λ change. (c, change.0, change.1)) changes)
      × (map (λ r. r.source) results ≡ sources)

  entered-Shows :
      (back : Bool) (past : List (TelemetryFrame fl.F)) (b : ContextBuffer fl.F)
      → Shows 100 max_bytes past b
      → Shows 100 max_bytes (if back then [] else past) (if back then Buffer.clear b else b)
  entered-Shows true past b s = clear-Shows 100 max_bytes b s.0
  entered-Shows false past b s = s

  pub measures-Agree :
      (c : ℕ) (v : View fl.F) (a : Agent fl ib) (q : NetworkQuality fl.F)
      → Refines c v a
      → Agree c (handle fl ib a (measures q)) (observe fl v (measures q))
  unfolding handle observe
  measures-Agree c v a q r = elim (update_network_quality_cases fl ib a q) [
    | inl (stays, e, none_called) ↦
        rw (e, none_called, (mode_eq_iff (determine_mode fl q) v.mode).1 (sym stays ∙ r.mode))
          (
            record {
              mode = r.mode;
              settled = stays;
              frames = r.frames;
              processed = r.processed;
              uploads = r.uploads;
              inferences = r.inferences;
              transitions = r.transitions;
              probes = r.probes;
              counter = r.counter;
              callback = r.callback;
            },
            refl,
            refl,
          )
    | inr (moves, e, called) ↦
        let differs : mode_eq (determine_mode fl q) v.mode ≡ false =
          ground (arith, mode_eq_iff (determine_mode fl q) v.mode, r.mode) in
        rw (e, called, differs)
          (
            record {
              mode = refl;
              settled = refl;
              frames = entered-Shows (mode_eq (determine_mode fl q) online) _ _ r.frames;
              processed = r.processed;
              uploads = r.uploads;
              inferences = r.inferences;
              transitions = omega (arith, r.transitions);
              probes = r.probes;
              counter = r.counter;
              callback = r.callback;
            },
            rw (r.callback, r.mode) refl,
            refl,
          )
  ]

  -- The agent after a frame, whatever became of the two counts.
  arrived-Refines :
      (c : ℕ) (v : View fl.F) (a : Agent fl ib) (f : TelemetryFrame fl.F) (now up inf : ℕ)
      → frame_size f ≤ max_bytes
      → Refines c v a
      → let a' = (process_frame fl ib a f now).0 in
        a'.stats.cloud_offloads ≡ wrap up
        → a'.stats.local_inferences ≡ wrap inf
        → Refines c
            (record v {
              since = v.since ++ (record f { frame_id = suc v.arrived % 2 ^ 64 } ∷ []);
              arrived = suc v.arrived;
              uploaded = up;
              inferred = inf;
            })
            a'
  arrived-Refines c v a f now up inf h r u i =
      let (buffer, counter, processed, mode, quality, _, transitions) =
        process_frame_state fl ib a f now in
      let (callback, probes) = process_frame_rest a f now in
      let id : add64 a.frame_counter 1 ≡ suc v.arrived % 2 ^ 64 = omega (arith, r.counter) in
      record {
        mode = mode ∙ r.mode;
        settled = mode ∙ (r.settled ∙ ap (determine_mode fl) (sym quality));
        frames =
            rw (buffer, id)
              (push-Shows 100 max_bytes v.since a.context_buffer _ (omega arith) h r.frames);
        processed = processed ∙ omega (arith, r.processed);
        uploads = u;
        inferences = i;
        transitions = transitions ∙ r.transitions;
        probes = probes ∙ r.probes;
        counter = counter ∙ id;
        callback = callback ∙ r.callback;
      }

  stays_away :
      (o : IsOrdered fl) (c : ℕ) (v : View fl.F) (a : Agent fl ib)
      → Refines c v a
      → (v.mode ≢ transitioning) × ((v.mode ≡ degraded) → is_offline fl a.network_quality ≡ false)
  stays_away o c v a r = (
    (λ e. determine_mode-ne fl ib a.network_quality (sym r.settled ∙ (r.mode ∙ e))),
    (λ e. ((determine_mode_iff fl o a.network_quality).2.0 (sym r.settled ∙ (r.mode ∙ e))).1),
  )

  pub arrives-Agree :
      (o : IsOrdered fl) (c : ℕ) (v : View fl.F) (a : Agent fl ib) (f : TelemetryFrame fl.F)
      (now : ℕ)
      → frame_size f ≤ max_bytes
      → Refines c v a
      → Agree c (handle fl ib a (arrives f now)) (observe fl v (arrives f now))
  unfolding handle observe
  arrives-Agree o c v a f now h r =
      let (settles, reaches) = stays_away o c v a r in
      elim (process_frame_source fl ib a f now) [
        | inl (source, where', up, inf) ↦
            let at : mode_eq v.mode offline ≡ false =
              ground (arith, mode_eq_iff v.mode offline, r.mode) in
            rw (at, source)
              (
                arrived-Refines c v a f now (suc v.uploaded) v.inferred h r
                    (omega (arith, up, r.uploads)) (inf ∙ r.inferences),
                refl,
                refl,
              )
        | inr (inl (source, where', up, inf)) ↦
            let at : mode_eq v.mode offline ≡ true =
              ground (arith, mode_eq_iff v.mode offline, r.mode) in
            rw (at, source)
              (
                arrived-Refines c v a f now v.uploaded (suc v.inferred) h r (up ∙ r.uploads)
                    (omega (arith, inf, r.inferences)),
                refl,
                refl,
              )
        | inr (inr (source, where', _, _)) ↦ absurd (settles (sym r.mode ∙ where'))
      ]
