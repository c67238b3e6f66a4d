-- ===== src/Tee/Gateway/Interleave.antt =====
-- Frames of two sources in either order. The abstract view of a session cache forgets the order of its entries: it is
-- a quotient of the association lists by what is found under every key.
use sovereign_edge_tee_agent.Base.{
  ℕ, ◌≡◌, ◌≢◌, refl, sym, arith, Bytes, true, some, bytes_eq, bytes_eq_iff, if◌then◌else◌,
}
use mathlib.Core.Quot
use mathlib.Core.Quot.{Quot}
use sovereign_edge_tee_agent.Base.Dict.{Dict, lookup, lookup-insert}
use sovereign_edge_tee_agent.Common.{TelemetryFrame}
use sovereign_edge_tee_agent.Tee.Backend.{TeeBackend}
use sovereign_edge_tee_agent.Tee.Qwen.{Web, Request, Reply}
use sovereign_edge_tee_agent.Tee.Gateway.{
  TeeGateway, SessionState, counted, update_sessions, call_qwen_api, process_frame,
}

-- The same state under every key.
abbrev pub SameSessions : Dict SessionState → Dict SessionState → Type 0
SameSessions c d = (key : Bytes) → lookup key c ≡ lookup key d

abbrev pub Sessions : Type 0
Sessions = Quot SameSessions

abbrev pub sessions : {T : Type 0} → TeeGateway T → Sessions
sessions g = Quot.mk g.session_cache

update_lem :
    (cache : Dict SessionState) (source : Bytes) (now : ℕ) (key : Bytes)
    → lookup key (update_sessions cache source now)
      ≡ (if bytes_eq source key then some (counted now (lookup source cache)) else lookup key cache)
unfolding update_sessions
update_lem cache source now key = lookup-insert source key (counted now (lookup source cache)) cache

-- A source does not see the update of another one.
update_other :
    (cache : Dict SessionState) (source other : Bytes) (now : ℕ)
    → source ≢ other
    → lookup other (update_sessions cache source now) ≡ lookup other cache
update_other cache source other now h =
    ground (arith, update_lem cache source now other, bytes_eq_iff source other)

update_comm :
    (cache : Dict SessionState) (s t : Bytes) (m n : ℕ)
    → s ≢ t
    → SameSessions
        (update_sessions (update_sessions cache s m) t n)
        (update_sessions (update_sessions cache t n) s m)
update_comm cache s t m n h key = ground (
  arith,
  update_lem (update_sessions cache s m) t n key,
  update_lem (update_sessions cache t n) s m key,
  update_lem cache s m key,
  update_lem cache t n key,
  update_other cache s t m h,
  update_other cache t s n (λ e. h (sym e)),
  bytes_eq_iff s key,
  bytes_eq_iff t key,
)

module _ (tb : TeeBackend) (web : Web) where
  open tb use {Tee}

  -- With a network whose reply depends on the request alone: two frames of different sources, in
  -- either order and at any times, leave the same sessions, as an abstract map, and the same count
  -- of frames; and in live mode each frame has the same result in both orders.
  pub process_frame_comm :
      {F : Type 0} (g : TeeGateway Tee) (net : Request → Reply) (f h : TelemetryFrame F) (m n : ℕ)
      → f.source_ip ≢ h.source_ip
      → let (first, after_f) = process_frame tb web g net f m in
        let (second, after_fh) = process_frame tb web after_f net h n in
        let (first', after_h) = process_frame tb web g net h n in
        let (second', after_hf) = process_frame tb web after_h net f m in
        (sessions after_fh ≡ sessions after_hf)
        × (after_fh.processed_frames ≡ after_hf.processed_frames)
        × (g.live ≡ true → (first ≡ second') × (second ≡ first'))
  unfolding process_frame call_qwen_api
  process_frame_comm g net f h m n d = (
    Quot.sound (update_comm g.session_cache f.source_ip h.source_ip m n d),
    refl,
    (λ l. (rw l refl, rw l refl)),
  )
