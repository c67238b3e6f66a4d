-- ===== src/Helpers/Time/Clocks.antt =====
-- How the two clocks of the helpers relate.
use sovereign_edge_tee_agent.Base.{ℕ, ◌+◌, ◌*◌, ◌^◌, ◌≤◌, ◌<◌, ◌≡◌, refl, arith, some}
use sovereign_edge_tee_agent.Helpers.Time.{
  Duration, as_nanos, as_millis, now_ns, now_ms, elapsed_ns, from_nanos, Instants, IsSteady,
  instant_from_ns_ago,
}

-- Up to 2^34 seconds after the epoch, which is past the year 2500, neither clock wraps, and the milliseconds are those
-- of the nanoseconds, rounded down.
pub now_ms-now_ns :
    (d : Duration)
    → d.nanos < 1_000_000_000
    → d.secs < 2 ^ 34
    → (ns : ℕ) × (ms : ℕ) × (now_ns (some d) ≡ some ns)
      × (now_ms (some d) ≡ some ms)
      × (ms * 1_000_000 ≤ ns)
      × (ns < (ms + 1) * 1_000_000)
unfolding now_ns now_ms as_nanos as_millis
now_ms-now_ns d h k = (_, _, refl, refl, omega arith, omega arith)

-- With a steady clock: the time that has passed since the instant of `ns` nanoseconds ago is `ns` nanoseconds, for any
-- `u64`.
pub elapsed_ns-instant_from_ns_ago :
    (i : Instants) (now : i.Instant) (ns : ℕ) {past : i.Instant}
    → IsSteady i
    → ns < 2 ^ 64
    → instant_from_ns_ago i now ns ≡ some past
    → elapsed_ns (i.duration_since now past) ≡ ns
unfolding instant_from_ns_ago from_nanos elapsed_ns as_nanos
elapsed_ns-instant_from_ns_ago i now ns h k e =
    rw (h.since_sub now (from_nanos ns) (omega arith) e) (omega arith)
