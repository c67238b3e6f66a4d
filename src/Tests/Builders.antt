-- ===== src/Tests/Builders.antt =====
-- The builders on concrete calls, and a buffer with a history.
use sovereign_edge_tee_agent.Base.{ℕ, ◌≡◌, refl, arith, text, List, [], ◌∷◌}
use sovereign_edge_tee_agent.Base.Fallible.{ok}
use sovereign_edge_tee_agent.Common.Buffer.{new}
use sovereign_edge_tee_agent.Common.Buffer.Evict.{longest_suffix}
use sovereign_edge_tee_agent.Common.Buffer.Window.{
  Op, pushes, clears, run_all, history, in_window, run_all-window,
}
use sovereign_edge_tee_agent.Agent.Inference.{InferenceBackend, simulated_infer}
use sovereign_edge_tee_agent.Agent.State
use sovereign_edge_tee_agent.Agent.State.{Agent}
use sovereign_edge_tee_agent.Helpers.Builders.{new_frame, build_frame}
use sovereign_edge_tee_agent.Helpers.Builders.Setters.{
  Setter, sets_id, sets_source, sets_payload, apply_all, promised, build-apply_all,
}
use sovereign_edge_tee_agent.Tests.Floats.{fixed}
use sovereign_edge_tee_agent.Tests.Common.{frame}

abbrev setters : List (Setter ℕ)
setters = sets_id 1 ∷ sets_source (text "10.0.0.1") ∷ sets_id 42 ∷ sets_payload (text "data") ∷ []

build-apply_all_example : build_frame (apply_all new_frame setters) ≡ ok (promised setters)
build-apply_all_example = build-apply_all setters

abbrev no_backend : InferenceBackend
no_backend = record {
  Backend = Unit {0};
  name = λ b. text "none";
  infer = λ b prompt n. (simulated_infer prompt n, b);
}

abbrev agent : Agent fixed no_backend
agent = State.new fixed no_backend 5

abbrev calls : List (Op ℕ)
calls =
    pushes (frame 1 9)
    ∷ clears
    ∷ pushes (frame 2 4)
    ∷ pushes (frame 3 3)
    ∷ pushes (frame 4 3)
    ∷ pushes (frame 5 2)
    ∷ []

-- Ten bytes and three frames: the second frame gives way to the last.
newest : longest_suffix (in_window 3 10) (history [] calls) ≡ frame 3 3 ∷ frame 4 3 ∷ frame 5 2 ∷ []
unfolding longest_suffix history
newest = refl

run_all-window_example :
    (run_all (new 3 10) calls).frames ≡ longest_suffix (in_window 3 10) (history [] calls)
run_all-window_example = run_all-window 3 10 calls (omega arith) (omega arith) (omega arith)
