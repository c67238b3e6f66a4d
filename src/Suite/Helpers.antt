-- ===== src/Suite/Helpers.antt =====
-- The tests of crates/helpers (lib.rs, builders.rs, fixtures.rs, time.rs, metrics.rs) and of crates/xdp-ingest/src/main.rs. Those that
-- compare numbers of `f64` for equality are left out; what a test reads of a clock is an argument.
pub mod Passes
use sovereign_edge_tee_agent.Base.{
  ℕ, Bytes, text, bytes_eq, Bool, true, false, not, ◌&&◌, ◌==◌, ltb, leb, List, [], Option, none,
  some, length, get_elem?, replicate,
}
use sovereign_edge_tee_agent.Base.Options.{◌>>=◌}
use sovereign_edge_tee_agent.Base.Float.{Float}
use sovereign_edge_tee_agent.Common.{TelemetryFrame}
use sovereign_edge_tee_agent.Common.Quality.{is_degraded, is_offline}
use sovereign_edge_tee_agent.Helpers.ZeroCopy.{
  with_capacity, advance_write, advance_read, write_available, read_available,
}
use sovereign_edge_tee_agent.Helpers.Builders.{
  new_frame, with_frame_id, with_source_ip, with_payload_str, build_frame, excellent,
  degraded_quality, offline_quality,
}
use sovereign_edge_tee_agent.Helpers.Fixtures
use sovereign_edge_tee_agent.Helpers.Fixtures.{
  sample_frame, sample_frames, excellent_network, degraded_network, offline_network,
}
use sovereign_edge_tee_agent.Helpers.Metrics
use sovereign_edge_tee_agent.Helpers.Metrics.{
  register_edge_agent_counters, register_network_gauges, register_latency_histogram, export_metrics,
}
use sovereign_edge_tee_agent.Helpers.Time.{Duration, Printer, now_ns, elapsed_ms, format_duration}
use sovereign_edge_tee_agent.Ingest.Umem.{new_region}
use sovereign_edge_tee_agent.Ingest.Socket.{parse_telemetry_frame}
use sovereign_edge_tee_agent.Suite.Checks.{unwrap, is_ok, is_empty}
use sovereign_edge_tee_agent.Suite.Tee.{contains_text}

unfoldable pub test_zero_copy_buffer : Option Bool
test_zero_copy_buffer = do
  let buffer = with_capacity 1024
  let (written, full) = advance_write buffer 100
  _ ← unwrap written
  let (read, rest) = advance_read full 50
  _ ← unwrap read
  some (
      (write_available buffer == 1024)
      && ((read_available buffer == 0)
          && ((write_available full == 924)
              && ((read_available full == 100) && (read_available rest == 50)))))

unfoldable pub test_buffer_overflow : Option Bool
test_buffer_overflow = do
  let (written, full) = advance_write (with_capacity 100) 100
  _ ← unwrap written
  some (not (is_ok (advance_write full 1).0))

module _ (F : Type 0) where
  unfoldable pub test_telemetry_frame_builder : Option Bool
  test_telemetry_frame_builder = do
    frame ← unwrap (
        build_frame {F = F} (
          with_payload_str (with_source_ip (with_frame_id new_frame 42) (text "192.168.1.100"))
            (text "test data")))
    some (
        (frame.frame_id == 42)
        && (bytes_eq frame.source_ip (text "192.168.1.100")
            && bytes_eq frame.payload (text "test data")))

  unfoldable pub test_sample_frame_generation : Option Bool
  test_sample_frame_generation = do
    frame ← sample_frame {F = F}
    some ((frame.frame_id == 1) && not (is_empty frame.payload))

  -- An index out of range would be a panic.
  unfoldable pub test_multiple_frames : Option Bool
  test_multiple_frames = do
    frames ← sample_frames {F = F} 5
    first ← get_elem? frames 0
    last ← get_elem? frames 4
    some ((length frames == 5) && ((first.frame_id == 1) && (last.frame_id == 5)))

  unfoldable pub test_parse_telemetry_frame : ℕ → Option Bool
  test_parse_telemetry_frame now = do
    frame ← parse_telemetry_frame {F = F} now (replicate 100 0) 1
    some (length frame.payload == 100)

  abbrev is_none : Option (TelemetryFrame F) → Bool
  is_none none = true
  is_none (some f) = false

  unfoldable pub test_parse_invalid_frame : ℕ → Bool
  test_parse_invalid_frame now = is_none (parse_telemetry_frame now (replicate 10 0) 1)

module _ (fl : Float) where
  unfoldable pub test_network_quality_builders : Bool
  test_network_quality_builders =
      (not (is_degraded fl (excellent fl)) && not (is_offline fl (excellent fl)))
      && ((is_degraded fl (degraded_quality fl) && not (is_offline fl (degraded_quality fl)))
          && is_offline fl (offline_quality fl))

  unfoldable pub test_network_quality_fixtures : Bool
  test_network_quality_fixtures =
      not (is_degraded fl (excellent_network fl))
      && (is_degraded fl (degraded_network fl) && is_offline fl (offline_network fl))

unfoldable pub test_umem_region : Bool
test_umem_region = length (new_region 1024 100).buffer == 102400

unfoldable pub test_registry_creation : Bool
test_registry_creation =
    let registry = Metrics.new in
    is_ok (register_edge_agent_counters registry)
    && (is_ok (register_network_gauges registry) && is_ok (register_latency_histogram registry))

unfoldable pub test_export_metrics : Bool
test_export_metrics = contains_text (text "sovereignedge_frames_processed") export_metrics

-- The two readings of the clock, before and after the sleep.
unfoldable pub test_now_ns_increases : Option Duration → Option Duration → Option Bool
test_now_ns_increases before later = do t1 ← now_ns before; t2 ← now_ns later; some (ltb t1 t2)

unfoldable pub test_elapsed_time : Duration → Bool
test_elapsed_time slept = let elapsed = elapsed_ms slept in leb 50 elapsed && ltb elapsed 100

unfoldable pub test_format_duration : (fl : Float) → Printer fl.F → Bool
test_format_duration fl p =
    contains_text (text "m") (format_duration fl p (record { secs = 120; nanos = 0 }))
    && (contains_text (text "s") (format_duration fl p (record { secs = 30; nanos = 0 }))
        && contains_text (text "ms")
            (format_duration fl p (record { secs = 0; nanos = 500_000_000 })))
