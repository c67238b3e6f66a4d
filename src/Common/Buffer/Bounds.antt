-- ===== src/Common/Buffer/Bounds.antt =====
-- The caps of the buffer after a `push`, and what reading and clearing give.
use sovereign_edge_tee_agent.Base.{ℕ, suc, ◌+◌, ◌^◌, ◌≤◌, ◌<◌, ◌≡◌, refl, List, [], ◌∷◌, arith}
use sovereign_edge_tee_agent.Base.{length, length-append, inl, inr, ◌∙◌, ap}
use sovereign_edge_tee_agent.Base.{◌⊎◌}
use mathlib.Core.List.{reverse-append}
use sovereign_edge_tee_agent.Common.Frame.{TelemetryFrame}
use sovereign_edge_tee_agent.Common.Buffer.{
  ContextBuffer, frame_size, new, push, get_recent, clear, len,
}
use sovereign_edge_tee_agent.Common.Buffer.Evict.{
  bytes, bytes-append, longest_suffix, longest_suffix_fits, has_room, IsValid, push_lem,
}

module _ {F : Type 0} where
  abbrev kept : ContextBuffer F → TelemetryFrame F → List (TelemetryFrame F)
  kept b f = longest_suffix (has_room b f) b.frames

  -- What is kept has room for the new frame, or nothing is kept.
  kept_room :
      (b : ContextBuffer F) (f : TelemetryFrame F)
      → ((bytes (kept b f) ≡ 0) × (length (kept b f) ≡ 0))
        ⊎ ((bytes (kept b f) + frame_size f ≤ b.max_bytes) × (length (kept b f) < b.max_frames))
  kept_room b f = elim (longest_suffix_fits (has_room b f) b.frames) [
    | inl e ↦ inl (ap bytes e, ap length e)
    | inr e ↦ inr (ground arith, ground arith)
  ]

  -- After a push the byte count is again the exact sum, and no later sum can wrap.
  pub push-IsValid :
      (b : ContextBuffer F) (f : TelemetryFrame F)
      → IsValid b
      → frame_size f < 2 ^ 63
      → IsValid (push b f)
  push-IsValid b f v h =
      rw (push_lem b f v h) (omega (arith, kept_room b f, bytes-append (kept b f) (f ∷ [])))

  -- After pushing a frame that is no larger than the byte cap into a valid buffer with room for at
  -- least one frame, both caps hold, and the count is the sum of the payloads.
  pub push_bounds :
      (b : ContextBuffer F) (f : TelemetryFrame F)
      → IsValid b
      → frame_size f ≤ b.max_bytes
      → 1 ≤ b.max_frames
      → ((push b f).total_bytes ≤ b.max_bytes)
        × (len (push b f) ≤ b.max_frames)
        × ((push b f).total_bytes ≡ bytes (push b f).frames)
  unfolding len
  push_bounds b f v h k = rw (push_lem b f v (omega arith)) (
      omega (
        arith,
        kept_room b f,
        bytes-append (kept b f) (f ∷ []),
        length-append {0} (kept b f) (f ∷ []),
      ))

  -- For a valid buffer and a frame of less than 2^63 bytes: a frame that is larger than the byte cap
  -- is admitted as the only frame, and the byte count exceeds the cap.
  pub push_oversized :
      (b : ContextBuffer F) (f : TelemetryFrame F)
      → IsValid b
      → frame_size f < 2 ^ 63
      → b.max_bytes < frame_size f
      → ((push b f).frames ≡ f ∷ []) × (b.max_bytes < (push b f).total_bytes)
  push_oversized b f v h k =
      rw (push_lem b f v h) (elim (longest_suffix_fits (has_room b f) b.frames) [
        | inl e ↦ rw e (refl, omega arith)
        | inr e ↦ absurd (ground arith)
      ])

  -- For a valid buffer and a frame of less than 2^63 bytes, after a push the new frame is read
  -- first, and then the newest of those that leave room for it, in their order.
  pub get_recent-push :
      (b : ContextBuffer F) (f : TelemetryFrame F) (n : ℕ)
      → IsValid b
      → frame_size f < 2 ^ 63
      → get_recent (push b f) (suc n)
        ≡ f ∷ get_recent (record b { frames = longest_suffix (has_room b f) b.frames }) n
  unfolding get_recent
  get_recent-push b f n v h = rw (push_lem b f v h, reverse-append)

  -- Any history of pushes, from a new buffer.
  unfoldable pub push_all : ContextBuffer F → List (TelemetryFrame F) → ContextBuffer F
  push_all b [] = b
  push_all b (f ∷ fs) = push_all (push b f) fs

  abbrev pub AllFit : ℕ → List (TelemetryFrame F) → Type 0
  AllFit limit [] = Unit {0}
  AllFit limit (f ∷ fs) = (frame_size f ≤ limit) × AllFit limit fs

  abbrev pub IsWithin : ContextBuffer F → ℕ → ℕ → Type 0
  IsWithin b frames limit =
      IsValid b
      × (b.max_frames ≡ frames)
      × (b.max_bytes ≡ limit)
      × (b.total_bytes ≤ limit)
      × (len b ≤ frames)

  pub push_count :
      (b : ContextBuffer F) (f : TelemetryFrame F)
      → IsValid b
      → frame_size f < 2 ^ 63
      → 1 ≤ b.max_frames
      → length (push b f).frames ≤ b.max_frames
  push_count b f v h k =
      rw (push_lem b f v h) (omega (arith, kept_room b f, length-append {0} (kept b f) (f ∷ [])))

  pub clear-IsValid :
      (b : ContextBuffer F) → IsValid b → IsValid (clear b) × (length (clear b).frames ≡ 0)
  unfolding clear
  clear-IsValid b v = omega arith

  pub push_caps :
      (b : ContextBuffer F) (f : TelemetryFrame F)
      → ((push b f).max_frames ≡ b.max_frames) × ((push b f).max_bytes ≡ b.max_bytes)
  unfolding push
  push_caps b f = (refl, refl)

  pub push-IsWithin :
      (b : ContextBuffer F) (f : TelemetryFrame F) (n limit : ℕ)
      → 1 ≤ n
      → frame_size f ≤ limit
      → IsWithin b n limit
      → IsWithin (push b f) n limit
  push-IsWithin b f n limit h k w = (
    push-IsValid b f w.0 (omega arith),
    (push_caps b f).0 ∙ w.1,
    (push_caps b f).1 ∙ w.2,
    omega (arith, push_bounds b f w.0 (omega arith) (omega arith)),
    omega (arith, push_bounds b f w.0 (omega arith) (omega arith)),
  )

  push_all-IsWithin :
      (b : ContextBuffer F) (fs : List (TelemetryFrame F)) (n limit : ℕ)
      → 1 ≤ n
      → AllFit limit fs
      → IsWithin b n limit
      → IsWithin (push_all b fs) n limit
  unfolding push_all
  push_all-IsWithin b [] n limit h k w = w
  push_all-IsWithin b (f ∷ fs) n limit h k w =
      push_all-IsWithin (push b f) fs n limit h k.1 (push-IsWithin b f n limit h k.0 w)

  -- A buffer that starts empty, with room for a frame and a byte cap below 2^63, stays within both
  -- caps through any sequence of pushes of frames that are no larger than the byte cap.
  pub push_all-new :
      (n limit : ℕ) (fs : List (TelemetryFrame F))
      → 1 ≤ n
      → limit < 2 ^ 63
      → AllFit limit fs
      → let b = push_all (new n limit) fs in
        (b.total_bytes ≤ limit) × (len b ≤ n) × (b.total_bytes ≡ bytes b.frames)
  unfolding new len
  push_all-new n limit fs h k a =
      let w : IsWithin (push_all (new n limit) fs) n limit =
        push_all-IsWithin (new n limit) fs n limit h a (omega arith) in
      (w.3, w.4, w.0.counted)
