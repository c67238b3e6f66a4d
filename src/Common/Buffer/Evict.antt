-- ===== src/Common/Buffer/Evict.antt =====
-- What the two eviction loops of `push` keep: the longest run of newest frames that leaves room.
use sovereign_edge_tee_agent.Base.{ℕ, ◌+◌, ◌^◌, ◌≤◌, ◌<◌, ◌≡◌, refl, List, [], ◌∷◌, ◌++◌, arith}
use sovereign_edge_tee_agent.Base.{Bool, true, ◌&&◌, length, ltb, leb}
use sovereign_edge_tee_agent.Base.{if◌then◌else◌, Bool-cases, inl, inr, ◌⊎◌, add64}
use sovereign_edge_tee_agent.Common.Frame.{TelemetryFrame}
use sovereign_edge_tee_agent.Common.Buffer.{
  ContextBuffer, frame_size, evict_bytes, evict_frames, push,
}

module _ {F : Type 0} where
  -- The payload bytes that a list of frames holds.
  abbrev pub bytes : List (TelemetryFrame F) → ℕ
  bytes [] = 0
  bytes (f ∷ fs) = frame_size f + bytes fs

  pub bytes-append : (xs ys : List (TelemetryFrame F)) → bytes (xs ++ ys) ≡ bytes xs + bytes ys
  bytes-append [] ys = omega arith
  bytes-append (x ∷ xs) ys = omega (arith, bytes-append xs ys)

  -- The longest suffix that passes a test, or nothing.
  unfoldable pub longest_suffix :
      (List (TelemetryFrame F) → Bool) → List (TelemetryFrame F) → List (TelemetryFrame F)
  longest_suffix fits [] = []
  longest_suffix fits (f ∷ fs) = if fits (f ∷ fs) then f ∷ fs else longest_suffix fits fs

  -- Room for a new frame beside the frames `s`.
  abbrev pub has_bytes : ℕ → ℕ → List (TelemetryFrame F) → Bool
  has_bytes max size s = leb (bytes s + size) max

  abbrev pub has_slot : ℕ → List (TelemetryFrame F) → Bool
  has_slot max s = ltb (length s) max

  abbrev pub has_room : ContextBuffer F → TelemetryFrame F → List (TelemetryFrame F) → Bool
  has_room b f s = has_bytes b.max_bytes (frame_size f) s && has_slot b.max_frames s

  evict_bytes_lem :
      (size max : ℕ) (fs : List (TelemetryFrame F))
      → bytes fs < 2 ^ 63
      → size < 2 ^ 63
      → evict_bytes size max fs (bytes fs)
        ≡ (longest_suffix (has_bytes max size) fs, bytes (longest_suffix (has_bytes max size) fs))
  unfolding evict_bytes longest_suffix
  evict_bytes_lem size max [] h k = refl
  evict_bytes_lem size max (f ∷ fs) h k = ground (arith, evict_bytes_lem size max fs)

  evict_frames_lem :
      (max : ℕ) (fs : List (TelemetryFrame F))
      → evict_frames max fs (bytes fs)
        ≡ (longest_suffix (has_slot max) fs, bytes (longest_suffix (has_slot max) fs))
  unfolding evict_frames longest_suffix
  evict_frames_lem max [] = refl
  evict_frames_lem max (f ∷ fs) = ground (arith, evict_frames_lem max fs)

  suffix_fits :
      (max size slots : ℕ) (fs : List (TelemetryFrame F))
      → bytes fs + size ≤ max
      → longest_suffix (has_slot slots) fs
        ≡ longest_suffix (λ s. has_bytes max size s && has_slot slots s) fs
  unfolding longest_suffix
  suffix_fits max size slots [] h = refl
  suffix_fits max size slots (f ∷ fs) h = ground (arith, suffix_fits max size slots fs)

  -- Running one loop after the other is one search for room on both counts.
  suffix-suffix :
      (max size slots : ℕ) (fs : List (TelemetryFrame F))
      → longest_suffix (has_slot slots) (longest_suffix (has_bytes max size) fs)
        ≡ longest_suffix (λ s. has_bytes max size s && has_slot slots s) fs
  unfolding longest_suffix
  suffix-suffix max size slots [] = refl
  suffix-suffix max size slots (f ∷ fs) =
      ground (arith, suffix-suffix max size slots fs, suffix_fits max size slots fs)

  -- The byte count is exact, and it and the cap are such that no sum with a frame wraps.
  pub record IsValid (b : ContextBuffer F) : Type 0 where
    pub counted : b.total_bytes ≡ bytes b.frames
    pub total_small : b.total_bytes < 2 ^ 63
    pub cap_small : b.max_bytes < 2 ^ 63

  pub push_lem :
      (b : ContextBuffer F) (f : TelemetryFrame F)
      → IsValid b
      → frame_size f < 2 ^ 63
      → let kept = longest_suffix (has_room b f) b.frames in
        push b f
        ≡ record b { frames = kept ++ (f ∷ []); total_bytes = add64 (bytes kept) (frame_size f) }
  unfolding push
  push_lem b f v h = simp (
    v.counted,
    evict_bytes_lem (frame_size f) b.max_bytes b.frames (omega arith) h,
    evict_frames_lem,
    suffix-suffix,
  )

  -- For a valid buffer and a frame of less than 2^63 bytes, `push` keeps the longest run of the
  -- newest frames that leaves room for the new one under both caps, and adds the new one as the
  -- newest.
  pub push_keeps_longest :
      (b : ContextBuffer F) (f : TelemetryFrame F)
      → IsValid b
      → frame_size f < 2 ^ 63
      → (push b f).frames ≡ longest_suffix (has_room b f) b.frames ++ (f ∷ [])
  push_keeps_longest b f v h = rw (push_lem b f v h)

  -- The search never returns frames that fail its test, unless it returns none.
  pub longest_suffix_fits :
      (fits : List (TelemetryFrame F) → Bool) (fs : List (TelemetryFrame F))
      → (longest_suffix fits fs ≡ []) ⊎ (fits (longest_suffix fits fs) ≡ true)
  unfolding longest_suffix
  longest_suffix_fits fits [] = inl refl
  longest_suffix_fits fits (f ∷ fs) = elim (Bool-cases (fits (f ∷ fs))) [
    | inl e ↦ inr (rw (e, if◌then◌else◌) e)
    | inr e ↦ rw (e, if◌then◌else◌) (longest_suffix_fits fits fs)
  ]
