-- ===== src/Agent/Reach.antt =====
-- Every history of an `EdgeAgent`: the calls of its methods as a step relation, and what holds in
-- every state that they reach from `new`.
use sovereign_edge_tee_agent.Base.{ℕ, ◌^◌, ◌<◌, ◌≤◌, ◌≡◌, ◌≢◌, sym, ap, ◌∙◌, List}
use sovereign_edge_tee_agent.Base.{Bool, false, arith, add64, length}
use sovereign_edge_tee_agent.Base.Float.{Float, IsOrdered}
use sovereign_edge_tee_agent.Common.{TelemetryFrame, NetworkQuality, degraded, transitioning}
use sovereign_edge_tee_agent.Common.Quality.{is_offline, is_degraded}
use sovereign_edge_tee_agent.Common.Buffer
use sovereign_edge_tee_agent.Common.Buffer.{ContextBuffer, frame_size}
use sovereign_edge_tee_agent.Common.Buffer.Evict.{IsValid}
use sovereign_edge_tee_agent.Common.Buffer.Bounds.{
  push-IsValid, push_caps, push_count, clear-IsValid,
}
use sovereign_edge_tee_agent.Agent.Inference.{InferenceBackend, LocalBackend}
use sovereign_edge_tee_agent.Agent.State.{
  Agent, cloud, new, set_local_backend, set_mode_change_callback, start_monitoring,
  probe_network_quality, stop,
}
use sovereign_edge_tee_agent.Agent.Mode.{determine_mode, update_network_quality}
use sovereign_edge_tee_agent.Agent.Mode.Laws.{update_network_quality_cases, determine_mode_iff}
use sovereign_edge_tee_agent.Agent.Process.{process_frame}
use sovereign_edge_tee_agent.Agent.Process.Laws.{
  numbered, process_frame_state, process_frame_source,
}

module _ (fl : Float) (ib : InferenceBackend) where
  -- One method call. The payload is a Rust vector, so its length is at most 2^63 - 1.
  pub data Step (a : Agent fl ib) : Agent fl ib → Type 0 where
    updates : (q : NetworkQuality fl.F) → Step a (update_network_quality fl ib a q).0
    processes :
        (f : TelemetryFrame fl.F) (now : ℕ)
        → frame_size f < 2 ^ 63
        → Step a (process_frame fl ib a f now).0
    probes : (r1 r2 r3 : fl.F) (now : ℕ) → Step a (probe_network_quality fl ib a r1 r2 r3 now).0
    sets_backend : (b : LocalBackend ib.Backend) → Step a (set_local_backend fl ib a b)
    sets_callback : (c : ℕ) → Step a (set_mode_change_callback fl ib a c)
    starts : (later : List Bool) → Step a (start_monitoring fl ib a later).0
    stops : Step a (stop fl ib a)

  pub data Reach : Agent fl ib → Type 0 where
    here : (interval : ℕ) → Reach (new fl ib interval)
    next : {a b : Agent fl ib} → Reach a → Step a b → Reach b

  -- The mode is the one that the stored quality decides, every frame is counted once as offloaded
  -- or inferred, the monitoring flag is down, and the buffer is valid and within its count.
  pub record Inv (a : Agent fl ib) : Type 0 where
    pub settled : a.mode ≡ determine_mode fl a.network_quality
    pub accounted : a.stats.frames_processed ≡ add64 a.stats.cloud_offloads a.stats.local_inferences
    pub numbered : a.frame_counter ≡ a.stats.frames_processed
    pub idle : a.running ≡ false
    pub buffer : IsValid a.context_buffer
    pub slots : a.context_buffer.max_frames ≡ 100
    pub few : length a.context_buffer.frames ≤ 100

  pub determine_mode-ne : (q : NetworkQuality fl.F) → determine_mode fl q ≢ transitioning
  unfolding determine_mode
  determine_mode-ne q = ground arith

  update-buffer :
      (a : Agent fl ib) (q : NetworkQuality fl.F)
      → IsValid a.context_buffer
      → length a.context_buffer.frames ≤ 100
      → let b = (update_network_quality fl ib a q).0.context_buffer in
        IsValid b × (b.max_frames ≡ a.context_buffer.max_frames) × (length b.frames ≤ 100)
  unfolding update_network_quality Buffer.clear
  update-buffer a q v h = ground (arith, clear-IsValid a.context_buffer v)

  update-Inv :
      (a : Agent fl ib) (q : NetworkQuality fl.F) → Inv a → Inv (update_network_quality fl ib a q).0
  update-Inv a q i =
      ground (arith, update_network_quality_cases fl ib a q, update-buffer a q i.buffer i.few)

  process-buffer :
      (a : Agent fl ib) (f : TelemetryFrame fl.F) (now : ℕ)
      → frame_size f < 2 ^ 63
      → Inv a
      → let b = (process_frame fl ib a f now).0.context_buffer in
        IsValid b × (b.max_frames ≡ 100) × (length b.frames ≤ 100)
  process-buffer a f now h i =
      let n = numbered fl ib a f in
      rw ((process_frame_state fl ib a f now).0) (
        push-IsValid a.context_buffer n i.buffer h,
        (push_caps a.context_buffer n).0 ∙ i.slots,
        omega (arith, push_count a.context_buffer n i.buffer h (omega arith)),
      )

  process-accounted :
      (a : Agent fl ib) (f : TelemetryFrame fl.F) (now : ℕ)
      → Inv a
      → let s = (process_frame fl ib a f now).0.stats in
        s.frames_processed ≡ add64 s.cloud_offloads s.local_inferences
  process-accounted a f now i = ground (
    arith,
    i.settled,
    i.accounted,
    determine_mode-ne a.network_quality,
    (process_frame_state fl ib a f now).2,
    process_frame_source fl ib a f now,
  )

  process-Inv :
      (a : Agent fl ib) (f : TelemetryFrame fl.F) (now : ℕ)
      → frame_size f < 2 ^ 63
      → Inv a
      → Inv (process_frame fl ib a f now).0
  process-Inv a f now h i =
      let (_, counter, processed, mode, quality, running, _) = process_frame_state fl ib a f now in
      let (valid, slots, few) = process-buffer a f now h i in
      record {
        settled = mode ∙ (i.settled ∙ ap (determine_mode fl) (sym quality));
        accounted = process-accounted a f now i;
        numbered = counter ∙ (ap (λ n. add64 n 1) i.numbered ∙ sym processed);
        idle = running ∙ i.idle;
        buffer = valid;
        slots = slots;
        few = few;
      }

  Step-Inv : {a b : Agent fl ib} → Step a b → Inv a → Inv b
  unfolding set_local_backend set_mode_change_callback start_monitoring probe_network_quality stop
  Step-Inv {a} (updates q) i = update-Inv a q i
  Step-Inv {a} (processes f now h) i = process-Inv a f now h i
  Step-Inv (probes r1 r2 r3 now) i = record {
    settled = i.settled;
    accounted = i.accounted;
    numbered = i.numbered;
    idle = i.idle;
    buffer = i.buffer;
    slots = i.slots;
    few = i.few;
  }
  Step-Inv (sets_backend b) i = ground arith
  Step-Inv (sets_callback c) i = ground arith
  Step-Inv (starts later) i = i
  Step-Inv stops i = ground arith

module _ (fl : Float) (ib : InferenceBackend) (o : IsOrdered fl) where
  new-Inv : (interval : ℕ) → Inv fl ib (new fl ib interval)
  unfolding new determine_mode is_offline is_degraded
  new-Inv interval = ground (
    arith,
    o.lt-lit 5000 0 (omega arith) (omega arith),
    o.lt-lit 200 0 (omega arith) (omega arith),
    o.lt-lit 50 0 (omega arith) (omega arith),
    o.lt-lit 5 0 (omega arith) (omega arith),
  )

  -- With an `f64` order as in IsOrdered, in every state that the methods reach from `new`: the mode
  -- is the one that the stored network quality decides, each processed frame is counted once as
  -- offloaded or as inferred locally, frame ids count the processed frames, the monitoring flag is
  -- down, and the buffer counts its bytes exactly and holds at most 100 frames.
  pub Reach-Inv : {a : Agent fl ib} → Reach fl ib a → Inv fl ib a
  Reach-Inv (here interval) = new-Inv interval
  Reach-Inv (next r s) = Step-Inv fl ib s (Reach-Inv r)

  -- In a reachable state in degraded mode every frame goes to the cloud: the fallback to local
  -- inference is never taken there.
  degraded_never_local :
      {a : Agent fl ib}
      → Reach fl ib a
      → a.mode ≡ degraded
      → (f : TelemetryFrame fl.F) (now : ℕ)
      → let (a', r) = process_frame fl ib a f now in
        (r.source ≡ cloud) × (a'.stats.local_inferences ≡ a.stats.local_inferences)
  degraded_never_local {a} r m f now = ground (
    arith,
    process_frame_source fl ib a f now,
    (Reach-Inv r).settled,
    determine_mode_iff fl o a.network_quality,
  )

  -- In a reachable state the monitoring thread ends without having slept once, whatever the flag
  -- would show later.
  pub start_monitoring_idle :
      {a : Agent fl ib}
      → Reach fl ib a
      → (later : List Bool) → (start_monitoring fl ib a later).1 ≡ 0
  unfolding start_monitoring
  start_monitoring_idle r later = rw (Reach-Inv r).idle
