-- ===== src/Tests/Common.antt =====
-- The buffer and the thresholds on concrete data.
use sovereign_edge_tee_agent.Base.{
  ℕ, ◌<◌, ◌≡◌, refl, arith, true, false, none, List, [], ◌∷◌, ◌++◌, replicate, text,
}
use sovereign_edge_tee_agent.Common.{TelemetryFrame, NetworkQuality, default_metadata}
use sovereign_edge_tee_agent.Common.Quality.{is_degraded, is_offline}
use sovereign_edge_tee_agent.Common.Buffer.{ContextBuffer, new, push, evict_bytes, evict_frames}
use sovereign_edge_tee_agent.Common.Buffer.Evict.{
  longest_suffix, has_room, IsValid, push_keeps_longest,
}
use sovereign_edge_tee_agent.Common.Buffer.Bounds.{push_oversized, push_all}
use sovereign_edge_tee_agent.Tests.Floats.{fixed}

abbrev pub frame : ℕ → ℕ → TelemetryFrame ℕ
frame id size = record {
  frame_id = id;
  source_ip = text "192.168.1.1";
  dest_ip = none;
  timestamp_ns = 0;
  payload = replicate size id;
  metadata = default_metadata;
}

abbrev full : ContextBuffer ℕ
full = record {
  frames = frame 1 4 ∷ frame 2 3 ∷ frame 3 2 ∷ [];
  max_frames = 3;
  max_bytes = 10;
  total_bytes = 9;
}

full-IsValid : IsValid full
full-IsValid = omega arith

-- Two frames go for the bytes of the new one.
push-full :
    push full (frame 4 5)
    ≡ record full { frames = frame 2 3 ∷ frame 3 2 ∷ frame 4 5 ∷ []; total_bytes = 10 }
unfolding push evict_bytes evict_frames
push-full = refl

-- `test_context_buffer_eviction`, with three frames
push_all-run :
    (push_all (new 2 1024) (frame 0 100 ∷ frame 1 100 ∷ frame 2 100 ∷ [])).frames
    ≡ frame 1 100 ∷ frame 2 100 ∷ []
unfolding push_all new push evict_bytes evict_frames
push_all-run = refl

push_keeps_longest_example :
    (push full (frame 4 5)).frames
    ≡ longest_suffix (has_room full (frame 4 5)) full.frames ++ (frame 4 5 ∷ [])
push_keeps_longest_example = push_keeps_longest full (frame 4 5) full-IsValid (omega arith)

push_oversized_example :
    ((push full (frame 4 11)).frames ≡ frame 4 11 ∷ [])
    × (10 < (push full (frame 4 11)).total_bytes)
push_oversized_example = push_oversized full (frame 4 11) full-IsValid (omega arith) (omega arith)

abbrev three : List (TelemetryFrame ℕ)
three = frame 1 4 ∷ frame 2 3 ∷ frame 3 5 ∷ []

abbrev pub quality : ℕ → ℕ → ℕ → NetworkQuality fixed.F
quality latency loss jitter = record {
  latency_ms = fixed.lit latency;
  packet_loss_pct = fixed.lit loss;
  jitter_ms = fixed.lit jitter;
  bandwidth_mbps = fixed.lit 100;
  measured_at = 0;
}

-- `test_network_quality_degraded`, `test_network_quality_offline`
quality_tests :
    (is_degraded fixed (quality 250 1 10) ≡ true)
    × (is_offline fixed (quality 250 1 10) ≡ false)
    × (is_offline fixed (quality 6000 60 100) ≡ true)
unfolding is_degraded is_offline
quality_tests = (refl, refl, refl)
