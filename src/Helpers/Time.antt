-- ===== src/Helpers/Time.antt =====
-- The conversions of crates/helpers/src/time.rs. A reading of a clock is an input: the time since the epoch, or none
-- where the clock is set before it, and the time since an instant. `none` as a result stands for a panic.
pub mod Clocks
use sovereign_edge_tee_agent.Base.{
  ℕ, ◌+◌, ◌*◌, ◌/◌, ◌%◌, ◌^◌, ◌<◌, ◌≡◌, Bytes, text, ltb, if◌then◌else◌, ◌++◌, ◌∷◌, Option, none,
  some,
}
use sovereign_edge_tee_agent.Base.Float.{Float}

-- `std::time::Duration`: its seconds, and its nanoseconds below 10^9
pub record Duration : Type 0 where
  pub secs : ℕ
  pub nanos : ℕ

unfoldable pub as_nanos : Duration → ℕ
as_nanos d = d.secs * 1_000_000_000 + d.nanos

unfoldable pub as_millis : Duration → ℕ
as_millis d = d.secs * 1000 + d.nanos / 1_000_000

-- `as u64` of a `u128`
abbrev pub truncate64 : ℕ → ℕ
truncate64 n = n % 2 ^ 64

unfoldable pub now_ns : Option Duration → Option ℕ
now_ns none = none
now_ns (some since_epoch) = some (truncate64 (as_nanos since_epoch))

unfoldable pub now_ms : Option Duration → Option ℕ
now_ms none = none
now_ms (some since_epoch) = some (truncate64 (as_millis since_epoch))

unfoldable pub elapsed_ns : Duration → ℕ
elapsed_ns elapsed = truncate64 (as_nanos elapsed)

unfoldable pub elapsed_ms : Duration → ℕ
elapsed_ms elapsed = truncate64 (as_millis elapsed)

-- `as_secs_f64`, the division of `f64`, and `{:.2}`
pub record Printer (F : Type 0) : Type 0 where
  pub as_secs_f64 : Duration → F
  pub div : F → F → F
  pub show_2 : F → Bytes

-- 194 181 is the sign for micro.
unfoldable pub format_duration : (fl : Float) → Printer fl.F → Duration → Bytes
format_duration fl p d =
    if ltb 60 d.secs
    then p.show_2 (p.div (p.as_secs_f64 d) (fl.lit 60)) ++ text "m"
    else (if ltb 1 d.secs
        then p.show_2 (p.as_secs_f64 d) ++ text "s"
        else (if ltb 1 (as_millis d)
            then p.show_2 (fl.mul (p.as_secs_f64 d) (fl.lit 1000)) ++ text "ms"
            else p.show_2 (fl.mul (p.as_secs_f64 d) (fl.lit 1000000)) ++ (194 ∷ 181 ∷ text "s")))

-- `Duration::from_nanos`
unfoldable pub from_nanos : ℕ → Duration
from_nanos ns = record { secs = ns / 1_000_000_000; nanos = ns % 1_000_000_000 }

-- `std::time::Instant`: the subtraction of a duration, which has no result where the platform cannot represent it, and
-- `duration_since`, which `elapsed` calls with the time of now.
pub record Instants : Type 1 where
  pub Instant : Type 0
  pub checked_sub : Instant → Duration → Option Instant
  pub duration_since : Instant → Instant → Duration

-- What the documentation says of the two: the later instant is that much later.
pub record IsSteady (i : Instants) : Type 0 where
  pub since_sub :
      (now : i.Instant) (d : Duration) {past : i.Instant}
      → d.nanos < 1_000_000_000
      → i.checked_sub now d ≡ some past
      → i.duration_since now past ≡ d

-- The operator `-` of instants panics where `checked_sub` has no result.
unfoldable pub instant_from_ns_ago : (i : Instants) → i.Instant → ℕ → Option i.Instant
instant_from_ns_ago i now ns = i.checked_sub now (from_nanos ns)
