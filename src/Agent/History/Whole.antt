-- ===== src/Agent/History/Whole.antt =====
-- The agent over a whole history.
use sovereign_edge_tee_agent.Base.{ℕ, ◌≤◌, ◌≡◌, refl, sym, ◌∙◌, arith, List, [], ◌∷◌, ◌++◌, map}
use mathlib.Core.Path.{ap₂}
use mathlib.Core.List.{map-append}
use sovereign_edge_tee_agent.Base.Float.{Float, IsOrdered}
use sovereign_edge_tee_agent.Common.Buffer.{frame_size}
use sovereign_edge_tee_agent.Common.Buffer.Evict.{longest_suffix}
use sovereign_edge_tee_agent.Common.Buffer.Window.{in_window, new-IsWithin}
use sovereign_edge_tee_agent.Agent.Inference.{InferenceBackend}
use sovereign_edge_tee_agent.Agent.State.{Agent, new, set_mode_change_callback}
use sovereign_edge_tee_agent.Agent.Reach.{Reach-Inv, here}
use sovereign_edge_tee_agent.Agent.History.{
  Event, measures, arrives, handle, handle_all, View, Reaction, Sight, fresh, observe, observe_all,
}
use sovereign_edge_tee_agent.Agent.History.Refines.{
  max_bytes, wrap, Refines, Agree, measures-Agree, arrives-Agree,
}

module _ (fl : Float) (ib : InferenceBackend) where
  -- Each frame that arrives fits into the buffer.
  abbrev pub FramesFit : List (Event fl.F) → Type 0
  FramesFit [] = Unit {0}
  FramesFit (measures q ∷ es) = FramesFit es
  FramesFit (arrives f now ∷ es) = (frame_size f ≤ max_bytes) × FramesFit es

  handle-Agree :
      (o : IsOrdered fl) (c : ℕ) (v : View fl.F) (a : Agent fl ib) (e : Event fl.F)
      (es : List (Event fl.F))
      → FramesFit (e ∷ es)
      → Refines fl ib c v a
      → FramesFit es × Agree fl ib c (handle fl ib a e) (observe fl v e)
  handle-Agree o c v a (measures q) es h r = (h, measures-Agree fl ib c v a q r)
  handle-Agree o c v a (arrives f now) es h r = (h.1, arrives-Agree fl ib o c v a f now h.0 r)

  handle_all-Agree :
      (o : IsOrdered fl) (c : ℕ) (v : View fl.F) (a : Agent fl ib) (es : List (Event fl.F))
      → FramesFit es
      → Refines fl ib c v a
      → Agree fl ib c (handle_all fl ib a es) (observe_all fl v es)
  unfolding handle_all observe_all
  handle_all-Agree o c v a [] h r = (r, refl, refl)
  handle_all-Agree o c v a (e ∷ es) h r =
      let (fit, (next, notices, sources)) = handle-Agree o c v a e es h r in
      let (last, more_notices, more_sources) =
        handle_all-Agree o c (observe fl v e).0 (handle fl ib a e).0 es fit next in
      (
        last,
        ap₂ ◌++◌ notices more_notices ∙ sym (map-append _ _ _),
        map-append _ _ _ ∙ ap₂ ◌++◌ sources more_sources,
      )

  new-Refines :
      (o : IsOrdered fl) (interval c : ℕ)
      → Refines fl ib c fresh (set_mode_change_callback fl ib (new fl ib interval) c)
  unfolding new set_mode_change_callback longest_suffix
  new-Refines o interval c = record {
    mode = refl;
    settled = (Reach-Inv fl ib o (here interval)).settled;
    frames = (new-IsWithin 100 max_bytes (omega arith), refl);
    processed = refl;
    uploads = refl;
    inferences = refl;
    transitions = refl;
    probes = refl;
    counter = refl;
    callback = refl;
  }

  -- The same mode; the window of the frames, under both caps; the counts modulo 2^64; one call of the callback for
  -- each change; and each frame where it was sent.
  abbrev pub IsShownBy : ℕ → Reaction fl ib → Sight fl → Type 0
  IsShownBy c (a, notices, results) (v, changes, sources) =
      (a.mode ≡ v.mode)
      × (a.context_buffer.frames ≡ longest_suffix (in_window 100 max_bytes) v.since)
      × (a.stats ≡ record {
        frames_processed = wrap v.arrived;
        cloud_offloads = wrap v.uploaded;
        local_inferences = wrap v.inferred;
        mode_transitions = wrap v.changes;
        probe_count = 0;
      })
      × (notices ≡ map (λ change. (c, change.0, change.1)) changes)
      × (map (λ r. r.source) results ≡ sources)

  -- With an `f64` order as in IsOrdered, for a new agent with a callback and any history of measurements and of frames
  -- no larger than 10 MiB, in any order: the agent ends in the mode of the abstract agent, and its buffer shows the
  -- longest run of newest frames within both caps, of all the frames since it was last back online. Its statistics are
  -- the abstract counts modulo 2^64: a frame counts as a local inference exactly when it arrives in offline mode, and
  -- as an offload otherwise. The callback was called once for each change of mode, in order, and the results tell where
  -- each frame went.
  pub handle_all_lem :
      (o : IsOrdered fl) (interval c : ℕ) (es : List (Event fl.F))
      → FramesFit es
      → IsShownBy c
          (handle_all fl ib (set_mode_change_callback fl ib (new fl ib interval) c) es)
          (observe_all fl fresh es)
  handle_all_lem o interval c es h =
      let (r, notices, sources) = handle_all-Agree o c fresh _ es h (new-Refines o interval c) in
      (r.mode, r.frames.1, ground (arith, r), notices, sources)
