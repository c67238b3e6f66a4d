-- ===== src/Pqc/Manager/Cleanup.antt =====
-- Expiry and `cleanup_expired`.
use sovereign_edge_tee_agent.Base.{ℕ, ◌+◌, ◌≤◌, ◌<◌, ◌≡◌, refl, ◌↔◌, arith, Bool, true, false}
use sovereign_edge_tee_agent.Base.{◌&&◌, ◌||◌, ◌==◌, List, [], ◌∷◌, length, get_elem?, some}
use sovereign_edge_tee_agent.Pqc.Session.{PqcSession, is_expired}
use sovereign_edge_tee_agent.Pqc.Manager.{
  World, PqcTransportManager, is_kept, retain, cleanup_expired, session_count,
}

-- A session is expired exactly when more than the timeout has passed since its last activity; a
-- clock that has gone back never expires it.
pub is_expired_iff :
    (s : PqcSession) (timeout now : ℕ)
    → (is_expired s timeout now ≡ true) ↔ (s.last_activity + timeout < now)
unfolding is_expired
is_expired_iff s timeout now = ground arith

pub holds : List ℕ → ℕ → Bool
holds [] arc = false
holds (x ∷ xs) arc = x == arc || holds xs arc

holds-retain :
    (keep : ℕ → Bool) (xs : List ℕ) (arc : ℕ)
    → holds (retain keep xs) arc ≡ holds xs arc && keep arc
unfolding holds retain
holds-retain keep [] arc = refl
holds-retain keep (x ∷ xs) arc = ground (arith, holds-retain keep xs arc)

length-retain-le : (keep : ℕ → Bool) (xs : List ℕ) → length (retain keep xs) ≤ length xs
unfolding retain
length-retain-le keep [] = omega arith
length-retain-le keep (x ∷ xs) = ground (arith, length-retain-le keep xs)

-- A cleanup keeps a session of the manager exactly when, at the time it is looked at, no more than the timeout has
-- passed since its last activity. The manager holds no other sessions afterwards, and the timeout stays. The number
-- that is returned is by how many sessions the manager has shrunk.
pub cleanup_expired_lem :
    (w : World) (m : PqcTransportManager) (clock : ℕ → ℕ) (arc : ℕ) (s : PqcSession)
    → get_elem? w arc ≡ some s
    → let (removed, m') = cleanup_expired w m clock in
      (removed + session_count m' ≡ session_count m)
      × ((holds m'.sessions arc ≡ true) ↔ (
          (holds m.sessions arc ≡ true) × (clock arc ≤ s.last_activity + m.session_timeout_nanos)))
      × ((other : ℕ) → holds m'.sessions other ≡ true → holds m.sessions other ≡ true)
      × (m'.session_timeout_nanos ≡ m.session_timeout_nanos)
unfolding cleanup_expired session_count is_expired
cleanup_expired_lem w m clock arc s there =
    let keep = is_kept w m.session_timeout_nanos clock in
    (
      omega (arith, length-retain-le keep m.sessions),
      ground (arith, holds-retain keep m.sessions arc, there),
      (λ other h. ground (arith, holds-retain keep m.sessions other)),
      refl,
    )
