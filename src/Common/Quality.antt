-- ===== src/Common/Quality.antt =====
-- `NetworkQuality::is_degraded` and `is_offline` of crates/common/src/lib.rs.
use sovereign_edge_tee_agent.Base.{ℕ, ◌<◌, ◌≤◌, ◌≡◌, ◌∙◌, lt→ltb, Bool, true, ◌||◌, arith}
use sovereign_edge_tee_agent.Base.Float.{Float, IsOrdered}
use sovereign_edge_tee_agent.Common.Frame.{NetworkQuality}

module _ (fl : Float) where
  open fl use {F, lit, lt, le}

  -- `a > n.0`
  abbrev exceeds : F → F → Bool
  exceeds a b = lt b a

  unfoldable pub is_degraded : NetworkQuality F → Bool
  is_degraded q =
      exceeds q.latency_ms (lit 200)
      || exceeds q.packet_loss_pct (lit 5)
      || exceeds q.jitter_ms (lit 50)

  unfoldable pub is_offline : NetworkQuality F → Bool
  is_offline q = exceeds q.latency_ms (lit 5000) || exceeds q.packet_loss_pct (lit 50)

  -- Every metric that the thresholds read is at least as bad.
  pub record IsWorse (q r : NetworkQuality F) : Type 0 where
    pub latency : le q.latency_ms r.latency_ms ≡ true
    pub packet_loss : le q.packet_loss_pct r.packet_loss_pct ≡ true
    pub jitter : le q.jitter_ms r.jitter_ms ≡ true

module _ (fl : Float) (o : IsOrdered fl) where
  open fl use {F, lit, lt, le}

  exceeds_down : (x : F) (m n : ℕ) → m < n → n ≤ 5000 → lt (lit n) x ≡ true → lt (lit m) x ≡ true
  exceeds_down x m n h k e =
      o.lt_trans _ (lit n) _ (o.lt-lit m n (omega arith) (omega arith) ∙ lt→ltb m n h) e

  -- A network that counts as offline also counts as degraded.
  pub is_offline-is_degraded :
      (q : NetworkQuality F) → is_offline fl q ≡ true → is_degraded fl q ≡ true
  unfolding is_offline is_degraded
  is_offline-is_degraded q h =
      ground (arith, exceeds_down q.latency_ms 200 5000, exceeds_down q.packet_loss_pct 5 50)

  pub is_offline-IsWorse :
      {q r : NetworkQuality F} → IsWorse fl q r → is_offline fl q ≡ true → is_offline fl r ≡ true
  unfolding is_offline
  is_offline-IsWorse w h = grind (arith, o.lt-le_trans)

  pub is_degraded-IsWorse :
      {q r : NetworkQuality F} → IsWorse fl q r → is_degraded fl q ≡ true → is_degraded fl r ≡ true
  unfolding is_degraded
  is_degraded-IsWorse w h = grind (arith, o.lt-le_trans)
