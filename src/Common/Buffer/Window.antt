-- ===== src/Common/Buffer/Window.antt =====
-- The buffer against its abstract view: the history since the last clear, of which it shows a window.
use sovereign_edge_tee_agent.Base.{
  ℕ, ◌^◌, ◌≤◌, ◌<◌, ◌≡◌, refl, sym, ap, ◌∙◌, List, [], ◌∷◌, ◌++◌, arith, Bool, true, ◌&&◌, leb,
  length, length-append, if◌then◌else◌,
}
use sovereign_edge_tee_agent.Common.Frame.{TelemetryFrame}
use sovereign_edge_tee_agent.Common.Buffer.{ContextBuffer, frame_size, new, push, clear, len}
use sovereign_edge_tee_agent.Common.Buffer.Evict.{
  bytes, bytes-append, longest_suffix, has_room, push_keeps_longest,
}
use sovereign_edge_tee_agent.Common.Buffer.Bounds.{IsWithin, push-IsWithin, clear-IsValid}

-- A call that changes the buffer.
pub data Op (F : Type 0) : Type 0 where
  pushes : TelemetryFrame F → Op F
  clears : Op F

module _ {F : Type 0} where
  unfoldable pub run_all : ContextBuffer F → List (Op F) → ContextBuffer F
  run_all b [] = b
  run_all b (pushes f ∷ ops) = run_all (push b f) ops
  run_all b (clears ∷ ops) = run_all (clear b) ops

  -- The frames pushed since the last clear.
  unfoldable pub history : List (TelemetryFrame F) → List (Op F) → List (TelemetryFrame F)
  history past [] = past
  history past (pushes f ∷ ops) = history (past ++ (f ∷ [])) ops
  history past (clears ∷ ops) = history [] ops

  abbrev pub PushesFit : ℕ → List (Op F) → Type 0
  PushesFit limit [] = Unit {0}
  PushesFit limit (pushes f ∷ ops) = (frame_size f ≤ limit) × PushesFit limit ops
  PushesFit limit (clears ∷ ops) = PushesFit limit ops

  -- Both caps hold of the frames.
  abbrev pub in_window : ℕ → ℕ → List (TelemetryFrame F) → Bool
  in_window n limit s = leb (bytes s) limit && leb (length s) n

  -- Searching again with a stricter test is one search with it.
  suffix_strict :
      (strict fits : List (TelemetryFrame F) → Bool)
      → ((s : List (TelemetryFrame F)) → strict s ≡ true → fits s ≡ true)
      → (h : List (TelemetryFrame F))
      → longest_suffix strict (longest_suffix fits h) ≡ longest_suffix strict h
  unfolding longest_suffix
  suffix_strict strict fits i [] = refl
  suffix_strict strict fits i (f ∷ fs) = ground (arith, suffix_strict strict fits i fs, i (f ∷ fs))

  -- The longest suffix with a newest frame is the longest suffix that has room for it, and the frame.
  suffix_snoc :
      (fits room : List (TelemetryFrame F) → Bool) (f : TelemetryFrame F)
      → ((s : List (TelemetryFrame F)) → fits (s ++ (f ∷ [])) ≡ room s)
      → fits (f ∷ []) ≡ true
      → (h : List (TelemetryFrame F))
      → longest_suffix fits (h ++ (f ∷ [])) ≡ longest_suffix room h ++ (f ∷ [])
  unfolding longest_suffix
  suffix_snoc fits room f same alone [] = rw (alone, if◌then◌else◌) refl
  suffix_snoc fits room f same alone (x ∷ h) =
      ground (arith, suffix_snoc fits room f same alone h, same (x ∷ h))

  -- The buffer shows the window of the past.
  abbrev pub Shows : ℕ → ℕ → List (TelemetryFrame F) → ContextBuffer F → Type 0
  Shows n limit past b = IsWithin b n limit × (b.frames ≡ longest_suffix (in_window n limit) past)

  room_is :
      (n limit : ℕ) (b : ContextBuffer F) (f : TelemetryFrame F)
      → b.max_frames ≡ n
      → b.max_bytes ≡ limit
      → (s : List (TelemetryFrame F)) → in_window n limit (s ++ (f ∷ [])) ≡ has_room b f s
  room_is n limit b f e m s = ground (arith, bytes-append s (f ∷ []), length-append {0} s (f ∷ []))

  room-fits :
      (n limit : ℕ) (b : ContextBuffer F) (f : TelemetryFrame F)
      → b.max_frames ≡ n
      → b.max_bytes ≡ limit
      → (s : List (TelemetryFrame F)) → has_room b f s ≡ true
      → in_window n limit s ≡ true
  room-fits n limit b f e m s r = ground arith

  pub push-Shows :
      (n limit : ℕ) (past : List (TelemetryFrame F)) (b : ContextBuffer F) (f : TelemetryFrame F)
      → 1 ≤ n
      → frame_size f ≤ limit
      → Shows n limit past b
      → Shows n limit (past ++ (f ∷ [])) (push b f)
  push-Shows n limit past b f h k (w, e) =
      let same = room_is n limit b f w.1 w.2 in
      let fits = in_window n limit in
      let strict : (s : List (TelemetryFrame F)) → has_room b f s ≡ true → fits s ≡ true =
        λ s r. room-fits n limit b f w.1 w.2 s r in
      let shown : (push b f).frames ≡ longest_suffix fits (past ++ (f ∷ [])) =
        push_keeps_longest b f w.0 (omega (arith, k, w.2, w.0.cap_small))
        ∙ ap (λ fs. longest_suffix (has_room b f) fs ++ (f ∷ [])) e
        ∙ ap (λ s. s ++ (f ∷ [])) (suffix_strict (has_room b f) fits strict past)
        ∙ sym (suffix_snoc fits (has_room b f) f same (ground arith) past) in
      (push-IsWithin b f n limit h k w, shown)

  pub clear-Shows :
      (n limit : ℕ) (b : ContextBuffer F) → IsWithin b n limit → Shows n limit [] (clear b)
  unfolding clear len longest_suffix
  clear-Shows n limit b w = (((clear-IsValid b w.0).0, w.1, w.2, omega arith, omega arith), refl)

  pub new-IsWithin : (n limit : ℕ) → limit < 2 ^ 63 → IsWithin {F = F} (new n limit) n limit
  unfolding new len
  new-IsWithin n limit k = omega arith

  run_all-Shows :
      (n limit : ℕ) (past : List (TelemetryFrame F)) (b : ContextBuffer F) (ops : List (Op F))
      → 1 ≤ n
      → limit < 2 ^ 63
      → PushesFit limit ops
      → Shows n limit past b
      → Shows n limit (history past ops) (run_all b ops)
  unfolding run_all history
  run_all-Shows n limit past b [] h k a s = s
  run_all-Shows n limit past b (pushes f ∷ ops) h k a s =
      run_all-Shows n limit (past ++ (f ∷ [])) (push b f) ops h k a.1
        (push-Shows n limit past b f h a.0 s)
  run_all-Shows n limit past b (clears ∷ ops) h k a s =
      run_all-Shows n limit [] (clear b) ops h k a (clear-Shows n limit b s.0)

  -- With room for a frame and a byte cap below 2^63: after any sequence of pushes, of frames no larger than the byte
  -- cap, and clears on a new buffer, its frames are the longest run of newest frames within both caps, of all the
  -- frames that were pushed since the last clear. What was evicted on the way does not matter.
  pub run_all-window :
      (n limit : ℕ) (ops : List (Op F))
      → 1 ≤ n
      → limit < 2 ^ 63
      → PushesFit limit ops
      → (run_all (new n limit) ops).frames ≡ longest_suffix (in_window n limit) (history [] ops)
  unfolding new longest_suffix
  run_all-window n limit ops h k a =
      (run_all-Shows n limit [] (new n limit) ops h k a (new-IsWithin n limit k, refl)).1
