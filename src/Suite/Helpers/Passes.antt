-- ===== src/Suite/Helpers/Passes.antt =====
-- The tests of the helpers and of the ingest daemon pass.
use sovereign_edge_tee_agent.Base.{
  ℕ, ◌^◌, ◌≤◌, ◌<◌, ◌≡◌, refl, ap, arith, Bytes, text, bytes_eq, true, some, [], ◌∷◌, ◌++◌, ◌==◌,
  length-replicate,
}
use sovereign_edge_tee_agent.Base.Utf8.{decimal, strip_prefix}
use sovereign_edge_tee_agent.Base.Lines.{starts_with}
use sovereign_edge_tee_agent.Base.Float.{Float, IsOrdered, IsRounded, lit_above, lit_not_above}
use sovereign_edge_tee_agent.Common.Quality.{is_degraded, is_offline}
use sovereign_edge_tee_agent.Helpers.ZeroCopy.{
  with_capacity, advance_write, advance_read, write_available, read_available,
}
use sovereign_edge_tee_agent.Helpers.Builders.{
  build_frame, build_quality, excellent, degraded_quality, offline_quality,
}
use sovereign_edge_tee_agent.Helpers.Fixtures.{
  sample_frame, sample_frame_with_id, sample_from, sample_frames, excellent_network,
  degraded_network, offline_network,
}
use sovereign_edge_tee_agent.Helpers.Metrics.{
  register_edge_agent_counters, register_network_gauges, register_latency_histogram, export_metrics,
}
use sovereign_edge_tee_agent.Helpers.Time.{
  Duration, Printer, as_nanos, as_millis, now_ns, elapsed_ms, format_duration,
}
use sovereign_edge_tee_agent.Ingest.Umem.{new_region}
use sovereign_edge_tee_agent.Ingest.Socket.{parse_telemetry_frame}
use sovereign_edge_tee_agent.Suite.Tee.{contains_text}
use sovereign_edge_tee_agent.Suite.Helpers.{
  test_zero_copy_buffer, test_buffer_overflow, test_telemetry_frame_builder,
  test_sample_frame_generation, test_multiple_frames, test_parse_telemetry_frame,
  test_parse_invalid_frame, test_network_quality_builders, test_network_quality_fixtures,
  test_now_ns_increases, test_elapsed_time, test_format_duration, test_umem_region,
  test_registry_creation, test_export_metrics,
}

test_zero_copy_buffer_passes : test_zero_copy_buffer ≡ some true
unfolding test_zero_copy_buffer with_capacity advance_write advance_read write_available
    read_available
test_zero_copy_buffer_passes = refl

test_buffer_overflow_passes : test_buffer_overflow ≡ some true
unfolding test_buffer_overflow with_capacity advance_write
test_buffer_overflow_passes = refl

module _ (F : Type 0) where
  test_telemetry_frame_builder_passes : test_telemetry_frame_builder F ≡ some true
  unfolding test_telemetry_frame_builder build_frame bytes_eq
  test_telemetry_frame_builder_passes = refl

  test_sample_frame_generation_passes : test_sample_frame_generation F ≡ some true
  unfolding test_sample_frame_generation sample_frame build_frame
  test_sample_frame_generation_passes = refl

  test_multiple_frames_passes : test_multiple_frames F ≡ some true
  unfolding test_multiple_frames sample_frames sample_from sample_frame_with_id build_frame decimal
  test_multiple_frames_passes = refl

  test_parse_telemetry_frame_passes : (now : ℕ) → test_parse_telemetry_frame F now ≡ some true
  unfolding test_parse_telemetry_frame parse_telemetry_frame
  test_parse_telemetry_frame_passes now = refl

  test_parse_invalid_frame_passes : (now : ℕ) → test_parse_invalid_frame F now ≡ true
  unfolding test_parse_invalid_frame parse_telemetry_frame
  test_parse_invalid_frame_passes now = refl

module _ (fl : Float) (o : IsOrdered fl) (r : IsRounded fl) where
  test_network_quality_builders_passes : test_network_quality_builders fl ≡ true
  unfolding test_network_quality_builders is_offline is_degraded excellent degraded_quality
      offline_quality build_quality
  test_network_quality_builders_passes = ground (
    arith,
    lit_not_above fl o 10 200 (omega arith) (omega arith),
    lit_not_above fl o 10 5000 (omega arith) (omega arith),
    lit_not_above fl o 2 50 (omega arith) (omega arith),
    r.lt-dec 1 5 1 (omega arith) (omega arith),
    r.lt-dec 1 50 1 (omega arith) (omega arith),
    lit_above fl o 250 200 (omega arith) (omega arith),
    lit_not_above fl o 250 5000 (omega arith) (omega arith),
    lit_not_above fl o 6 50 (omega arith) (omega arith),
    lit_above fl o 10000 5000 (omega arith) (omega arith),
  )

  test_network_quality_fixtures_passes : test_network_quality_fixtures fl ≡ true
  unfolding test_network_quality_fixtures test_network_quality_builders excellent_network
      degraded_network offline_network
  test_network_quality_fixtures_passes = ground (arith, test_network_quality_builders_passes)

test_umem_region_passes : test_umem_region ≡ true
unfolding test_umem_region new_region
test_umem_region_passes = ap (λ n. n == 102400) (length-replicate {A = ℕ} 102400 0)

test_registry_creation_passes : test_registry_creation ≡ true
unfolding test_registry_creation register_edge_agent_counters register_network_gauges
    register_latency_histogram
test_registry_creation_passes = refl

test_export_metrics_passes : test_export_metrics ≡ true
unfolding test_export_metrics contains_text starts_with strip_prefix export_metrics
test_export_metrics_passes = refl

-- The second reading is later, within the 584 years that 64 bits hold.
test_now_ns_increases_passes :
    (d e : Duration)
    → as_nanos d < as_nanos e
    → as_nanos e < 2 ^ 64
    → test_now_ns_increases (some d) (some e) ≡ some true
unfolding test_now_ns_increases now_ns as_nanos
test_now_ns_increases_passes d e h k = ground arith

-- The sleep of 50 ms ends between 50 and 100 ms later.
test_elapsed_time_passes :
    (d : Duration) → 50 ≤ as_millis d → as_millis d < 100 → test_elapsed_time d ≡ true
unfolding test_elapsed_time elapsed_ms as_millis
test_elapsed_time_passes d h k = ground arith

strip_prefix_self : (p : Bytes) → strip_prefix p p ≡ some []
unfolding strip_prefix
strip_prefix_self [] = refl
strip_prefix_self (b ∷ p) = ground (arith, strip_prefix_self p)

contains_text-append : (p s : Bytes) → contains_text p (s ++ p) ≡ true
unfolding contains_text starts_with strip_prefix
contains_text-append [] [] = refl
contains_text-append (b ∷ p) [] = rw (strip_prefix_self (b ∷ p)) refl
contains_text-append p (b ∷ s) = ground (arith, contains_text-append p s)

test_format_duration_passes : (fl : Float) (p : Printer fl.F) → test_format_duration fl p ≡ true
unfolding test_format_duration format_duration as_millis
test_format_duration_passes fl p = ground (
  arith,
  contains_text-append (text "m")
      (p.show_2 (p.div (p.as_secs_f64 (record { secs = 120; nanos = 0 })) (fl.lit 60))),
  contains_text-append (text "s") (p.show_2 (p.as_secs_f64 (record { secs = 30; nanos = 0 }))),
  contains_text-append (text "ms")
      (p.show_2 (fl.mul (p.as_secs_f64 (record { secs = 0; nanos = 500_000_000 })) (fl.lit 1000))),
)
