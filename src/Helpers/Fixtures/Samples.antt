-- ===== src/Helpers/Fixtures/Samples.antt =====
-- What the sample frames are.
use sovereign_edge_tee_agent.Base.{
  ℕ, zero, suc, ◌+◌, ◌<◌, ◌≡◌, refl, ap, ◌∙◌, arith, text, ◌++◌, length, get_elem?, List, [], ◌∷◌,
  none, some,
}
use sovereign_edge_tee_agent.Base.Utf8.{decimal}
use sovereign_edge_tee_agent.Common.{TelemetryFrame, default_metadata}
use sovereign_edge_tee_agent.Helpers.Builders.{build_frame}
use sovereign_edge_tee_agent.Helpers.Fixtures.{sample_frame_with_id, sample_from, sample_frames}

module _ {F : Type 0} where
  -- The frame that is meant by a number.
  abbrev pub sample : ℕ → TelemetryFrame F
  sample id = record {
    frame_id = id;
    source_ip = text "192.168.1.100";
    dest_ip = none;
    timestamp_ns = 0;
    payload = text "telemetry frame " ++ decimal id;
    metadata = default_metadata;
  }

  sample_lem : (id : ℕ) → sample_frame_with_id {F = F} id ≡ some (sample id)
  unfolding sample_frame_with_id build_frame
  sample_lem id = refl

  sample_from_lem :
      (n id : ℕ)
      → (fs : List (TelemetryFrame F)) × (sample_from n id ≡ some fs)
        × (length fs ≡ n)
        × ((i : ℕ) → i < n → get_elem? fs i ≡ some (sample (id + i)))
  unfolding sample_from
  sample_from_lem zero id = ([], refl, refl, (λ i h. absurd (omega (arith, h))))
  sample_from_lem (suc n) id =
      let (fs, e, count, rest) = sample_from_lem n (id + 1) in
      (sample id ∷ fs, rw (sample_lem id, e), ap suc count, nth fs rest)
    where
      nth :
          (fs : List (TelemetryFrame F))
          → ((i : ℕ) → i < n → get_elem? fs i ≡ some (sample (id + 1 + i)))
          → (i : ℕ) → i < suc n
          → get_elem? (sample id ∷ fs) i ≡ some (sample (id + i))
      nth fs rest zero h = ap (λ j. some (sample j)) (omega arith)
      nth fs rest (suc i) h = rest i (omega (arith, h)) ∙ ap (λ j. some (sample j)) (omega arith)

  -- `sample_frames` gives exactly as many frames as asked for, numbered from 1 on in order, each the sample frame of
  -- its number.
  pub sample_frames_lem :
      (count : ℕ)
      → (fs : List (TelemetryFrame F)) × (sample_frames count ≡ some fs)
        × (length fs ≡ count)
        × ((i : ℕ) → i < count → get_elem? fs i ≡ some (sample (1 + i)))
  unfolding sample_frames
  sample_frames_lem count = sample_from_lem count 1
