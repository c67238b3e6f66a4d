-- ===== src/Common/Buffer.antt =====
-- `ContextBuffer` of crates/common/src/lib.rs, as a release build runs it: `usize` sums wrap.
-- The head of `frames` is the oldest frame.
pub mod Evict
pub mod Bounds
pub mod Window
use sovereign_edge_tee_agent.Base.{ℕ, suc, ◌-◌, List, [], ◌∷◌, ◌++◌, reverse, Bool, true, false}
use sovereign_edge_tee_agent.Base.{length, take, add64, ltb, leb, if◌then◌else◌}
use sovereign_edge_tee_agent.Common.Frame.{TelemetryFrame}

pub record ContextBuffer (F : Type 0) : Type 0 where
  pub frames : List (TelemetryFrame F)
  pub max_frames : ℕ
  pub max_bytes : ℕ
  pub total_bytes : ℕ

module _ {F : Type 0} where
  -- `frame.payload.len()`
  abbrev pub frame_size : TelemetryFrame F → ℕ
  frame_size f = length f.payload

  -- `ContextBuffer::new`
  unfoldable pub new : ℕ → ℕ → ContextBuffer F
  new max_frames max_bytes = record {
    frames = [];
    max_frames = max_frames;
    max_bytes = max_bytes;
    total_bytes = 0;
  }

  -- The first loop of `push`, over the frames and their byte count: the oldest frame goes while the
  -- new one does not fit.
  unfoldable pub evict_bytes : ℕ → ℕ → List (TelemetryFrame F) → ℕ → List (TelemetryFrame F) × ℕ
  evict_bytes size max_bytes [] total = ([], total)
  evict_bytes size max_bytes (oldest ∷ rest) total =
      if ltb max_bytes (add64 total size)
      then evict_bytes size max_bytes rest (total - frame_size oldest)
      else (oldest ∷ rest, total)

  -- The second loop of `push`: the oldest frame goes while the count has reached its limit.
  unfoldable pub evict_frames : ℕ → List (TelemetryFrame F) → ℕ → List (TelemetryFrame F) × ℕ
  evict_frames max_frames [] total = ([], total)
  evict_frames max_frames (oldest ∷ rest) total =
      if leb max_frames (length (oldest ∷ rest))
      then evict_frames max_frames rest (total - frame_size oldest)
      else (oldest ∷ rest, total)

  unfoldable pub push : ContextBuffer F → TelemetryFrame F → ContextBuffer F
  push b frame =
      let size = frame_size frame in
      let (kept, total) = evict_bytes size b.max_bytes b.frames b.total_bytes in
      let (kept', total') = evict_frames b.max_frames kept total in
      record b { frames = kept' ++ (frame ∷ []); total_bytes = add64 total' size }

  unfoldable pub get_recent : ContextBuffer F → ℕ → List (TelemetryFrame F)
  get_recent b count = take count (reverse b.frames)

  unfoldable pub len : ContextBuffer F → ℕ
  len b = length b.frames

  unfoldable pub is_empty : ContextBuffer F → Bool
  is_empty b = elim b.frames [ [] ↦ true | _ ∷ _ ↦ false ]

  unfoldable pub clear : ContextBuffer F → ContextBuffer F
  clear b = record b { frames = []; total_bytes = 0 }
