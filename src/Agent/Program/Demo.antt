-- ===== src/Agent/Program/Demo.antt =====
-- The frames that the program edge_agent processes, and what they leave of the counters.
use sovereign_edge_tee_agent.Base.{
  ℕ, zero, suc, ◌+◌, ◌%◌, ◌^◌, ◌≤◌, ◌<◌, ◌≡◌, refl, ap, ◌∙◌, arith, false, length, List, [], ◌∷◌,
}
use sovereign_edge_tee_agent.Base.Float.{Float}
use sovereign_edge_tee_agent.Common.{TelemetryFrame, online, degraded, offline}
use sovereign_edge_tee_agent.Common.Quality.{is_offline}
use sovereign_edge_tee_agent.Agent.Inference.{InferenceBackend}
use sovereign_edge_tee_agent.Agent.State.{
  InferenceSource, cloud, local, hybrid, InferenceResult, Agent,
}
use sovereign_edge_tee_agent.Agent.Process.{process_frame}
use sovereign_edge_tee_agent.Agent.Process.Laws.{process_frame_state, process_frame_source}
use sovereign_edge_tee_agent.Agent.Program.{demo_frame, process_demo}

-- Every result comes from the source.
pub data AllFrom {F : Type 0} (s : InferenceSource) : List (InferenceResult F) → Type 0 where
  nothing : AllFrom s []
  one_more :
      {r : InferenceResult F} {rs : List (InferenceResult F)}
      → r.source ≡ s
      → AllFrom s rs
      → AllFrom s (r ∷ rs)

-- How many of `n` frames a counter of the source counts.
abbrev pub uploads : InferenceSource → ℕ → ℕ
uploads cloud n = n
uploads local n = 0
uploads hybrid n = 0

abbrev pub inferences : InferenceSource → ℕ → ℕ
inferences cloud n = 0
inferences local n = n
inferences hybrid n = 0

uploads-suc : (s : InferenceSource) (n : ℕ) → uploads s (suc n) ≡ uploads s 1 + uploads s n
uploads-suc cloud n = omega arith
uploads-suc local n = omega arith
uploads-suc hybrid n = omega arith

inferences-suc :
    (s : InferenceSource) (n : ℕ) → inferences s (suc n) ≡ inferences s 1 + inferences s n
inferences-suc cloud n = omega arith
inferences-suc local n = omega arith
inferences-suc hybrid n = omega arith

no_uploads : (s : InferenceSource) → (uploads s 0 ≡ 0) × (inferences s 0 ≡ 0)
no_uploads cloud = (refl, refl)
no_uploads local = (refl, refl)
no_uploads hybrid = (refl, refl)

pub shares-le : (s : InferenceSource) (n : ℕ) → (uploads s n ≤ n) × (inferences s n ≤ n)
shares-le cloud n = (omega arith, omega arith)
shares-le local n = (omega arith, omega arith)
shares-le hybrid n = (omega arith, omega arith)

module _ (fl : Float) (ib : InferenceBackend) where
  -- Where the mode and the network send the frames.
  pub data Sends (a : Agent fl ib) : InferenceSource → Type 0 where
    up : a.mode ≡ online → Sends a cloud
    still_up : a.mode ≡ degraded → is_offline fl a.network_quality ≡ false → Sends a cloud
    down : a.mode ≡ offline → Sends a local

  -- What `n` frames leave that all go to the source: the next one goes there as well.
  pub record Sent (s : InferenceSource) (a b : Agent fl ib) (n : ℕ) : Type 0 where
    pub frames : b.stats.frames_processed ≡ (a.stats.frames_processed + n) % 2 ^ 64
    pub offloads : b.stats.cloud_offloads ≡ (a.stats.cloud_offloads + uploads s n) % 2 ^ 64
    pub locals : b.stats.local_inferences ≡ (a.stats.local_inferences + inferences s n) % 2 ^ 64
    pub transitions : b.stats.mode_transitions ≡ a.stats.mode_transitions
    pub sends : Sends b s

  -- The counters that the program prints fit `u64`.
  pub record AreWords (a : Agent fl ib) : Type 0 where
    pub frames : a.stats.frames_processed < 2 ^ 64
    pub offloads : a.stats.cloud_offloads < 2 ^ 64
    pub locals : a.stats.local_inferences < 2 ^ 64

  Sent-AreWords : (s : InferenceSource) (a b : Agent fl ib) (n : ℕ) → Sent s a b n → AreWords b
  Sent-AreWords s a b n u = record {
    frames = omega (arith, u.frames);
    offloads = omega (arith, u.offloads);
    locals = omega (arith, u.locals);
  }

  Sends-same :
      (s : InferenceSource) (a b : Agent fl ib)
      → b.mode ≡ a.mode
      → b.network_quality ≡ a.network_quality
      → Sends a s
      → Sends b s
  Sends-same s a b m q (up h) = up (m ∙ h)
  Sends-same s a b m q (still_up h k) = still_up (m ∙ h) (ap (is_offline fl) q ∙ k)
  Sends-same s a b m q (down h) = down (m ∙ h)

  -- Where the frame goes, and the two counters.
  source_one :
      (s : InferenceSource) (a : Agent fl ib) (f : TelemetryFrame fl.F) (now : ℕ)
      → Sends a s
      → AreWords a
      → let (b, r) = process_frame fl ib a f now in
        (r.source ≡ s)
        × (b.stats.cloud_offloads ≡ (a.stats.cloud_offloads + uploads s 1) % 2 ^ 64)
        × (b.stats.local_inferences ≡ (a.stats.local_inferences + inferences s 1) % 2 ^ 64)
  source_one s a f now (up h) w =
      ground (arith, process_frame_source fl ib a f now, w.offloads, w.locals)
  source_one s a f now (still_up h k) w =
      ground (arith, process_frame_source fl ib a f now, w.offloads, w.locals)
  source_one s a f now (down h) w =
      ground (arith, process_frame_source fl ib a f now, w.offloads, w.locals)

  Sent-one :
      (s : InferenceSource) (a : Agent fl ib) (f : TelemetryFrame fl.F) (now : ℕ)
      → Sends a s
      → AreWords a
      → Sent s a (process_frame fl ib a f now).0 1
  Sent-one s a f now h w =
      let (stored, number, frames, mode, quality, running, transitions) =
        process_frame_state fl ib a f now in
      let (source, offloads, locals) = source_one s a f now h w in
      record {
        frames = frames;
        offloads = offloads;
        locals = locals;
        transitions = transitions;
        sends = Sends-same s a (process_frame fl ib a f now).0 mode quality h;
      }

  Sent-none : (s : InferenceSource) (a : Agent fl ib) → Sends a s → AreWords a → Sent s a a 0
  Sent-none s a h w = record {
    frames = omega (arith, w.frames);
    offloads = omega (arith, w.offloads, (no_uploads s).0);
    locals = omega (arith, w.locals, (no_uploads s).1);
    transitions = refl;
    sends = h;
  }

  Sent-more :
      (s : InferenceSource) (a b c : Agent fl ib) (n : ℕ)
      → Sent s a b 1
      → Sent s b c n
      → Sent s a c (suc n)
  Sent-more s a b c n u v = record {
    frames = omega (arith, u.frames, v.frames);
    offloads = omega (arith, u.offloads, v.offloads, uploads-suc s n);
    locals = omega (arith, u.locals, v.locals, inferences-suc s n);
    transitions = v.transitions ∙ u.transitions;
    sends = v.sends;
  }

  pub process_demo-Sent :
      (s : InferenceSource) (n i : ℕ) (clock : ℕ → ℕ) (a : Agent fl ib)
      → Sends a s
      → AreWords a
      → let (b, rs) = process_demo fl ib n i clock a in
        Sent s a b n × AllFrom s rs × (length rs ≡ n)
  unfolding process_demo
  process_demo-Sent s zero i clock a h w = (Sent-none s a h w, nothing, refl)
  process_demo-Sent s (suc n) i clock a h w =
      let f = demo_frame fl i in
      let b = (process_frame fl ib a f (clock i)).0 in
      let one = Sent-one s a f (clock i) h w in
      let (rest, from, count) =
        process_demo-Sent s n (i + 1) clock b one.sends (Sent-AreWords s a b 1 one) in
      (
        Sent-more s a b (process_demo fl ib n (i + 1) clock b).0 n one rest,
        one_more (source_one s a f (clock i) h w).0 from,
        ap suc count,
      )
