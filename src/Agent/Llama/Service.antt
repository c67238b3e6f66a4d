-- ===== src/Agent/Llama/Service.antt =====
-- The llama.cpp backend as a local backend of the agent: `infer` returns for every prompt, so it is a total function,
-- taken out of the proof that enough fuel is given.
use sovereign_edge_tee_agent.Base.{
  ℕ, ◌≤◌, ◌≡◌, ◌⊎◌, inl, inr, refl, ap, ◌∙◌, Bytes, text, some, bytes_eq,
}
use sovereign_edge_tee_agent.Base.Fallible.{Fallible}
use sovereign_edge_tee_agent.Base.Dict.{lookup, insert}
use sovereign_edge_tee_agent.Base.Utf8.{decimal}
use sovereign_edge_tee_agent.Base.Float.{Float}
use sovereign_edge_tee_agent.Common.{TelemetryFrame}
use sovereign_edge_tee_agent.Agent.Inference.{
  AgentError, InferenceOutput, Inference, ok, err, InferenceBackend, other, infer, backend_name,
}
use sovereign_edge_tee_agent.Agent.State.{InferenceResult, Agent}
use sovereign_edge_tee_agent.Agent.Process.{local_prompt, process_local_inference}
use sovereign_edge_tee_agent.Agent.Llama.{LlamaCpp, LlamaCppBackend}
use sovereign_edge_tee_agent.Agent.Llama.Bounds.{IsOutput, failed, given, llama_infer_terminates}

abbrev pub as_inference : Fallible AgentError InferenceOutput → Inference
as_inference (Fallible.ok output) = ok output
as_inference (Fallible.err e) = err e

module _ (ll : LlamaCpp) where
  abbrev pub result_of : LlamaCppBackend ll → Bytes → ℕ → Fallible AgentError InferenceOutput
  result_of b prompt max_tokens = (llama_infer_terminates ll b prompt max_tokens).0

  -- The trait's methods.
  abbrev pub llama_backend : InferenceBackend
  llama_backend = record {
    Backend = LlamaCppBackend ll;
    name = λ b. text "llama.cpp";
    infer = λ b prompt max_tokens. (as_inference (result_of b prompt max_tokens), b);
  }

  module _ (fl : Float) where
    -- What a local result of the model says of itself.
    pub record IsReported (b : LlamaCppBackend ll) (r : InferenceResult fl.F32) : Type 0 where
      pub tokens : ℕ
      pub few : tokens ≤ 32
      pub tokens_told : lookup (text "tokens") r.metadata ≡ some (decimal tokens)
      pub model_told : lookup (text "model") r.metadata ≡ some b.model_name
      pub backend_told : lookup (text "backend") r.metadata ≡ some (text "llama.cpp")

    answered :
        (a : Agent fl llama_backend) (b : LlamaCppBackend ll) (prompt : Bytes)
        (r : Fallible AgentError InferenceOutput)
        → a.local_backend ≡ other b
        → result_of b prompt 32 ≡ r
        → infer llama_backend a.local_backend prompt 32 ≡ (as_inference r, other b)
    unfolding infer
    answered a b prompt r at s =
        ap (λ lb. infer llama_backend lb prompt 32) at ∙ ap (λ x. (as_inference x, other b)) s

    reported :
        (a : Agent fl llama_backend) (b : LlamaCppBackend ll) (f : TelemetryFrame fl.F) (now : ℕ)
        (r : Fallible AgentError InferenceOutput)
        → infer llama_backend a.local_backend (local_prompt fl llama_backend f) 32
          ≡ (as_inference r, other b)
        → IsOutput ll b (local_prompt fl llama_backend f) 32 r
        → let (a', result) = process_local_inference fl llama_backend a f now in
          (a'.local_backend ≡ other b)
          × ((result.action ≡ text "INFERENCE_ERROR") ⊎ IsReported b result)
    unfolding process_local_inference backend_name lookup insert bytes_eq
    reported a b f now (Fallible.err e) s failed =
        rw (ap (λ x. x.0) s, ap (λ x. x.1) s, process_local_inference) (refl, inl refl)
    reported a b f now (Fallible.ok out) s (given tokens t few room name) =
        rw (ap (λ x. x.0) s, ap (λ x. x.1) s, process_local_inference)
          (
            refl,
            inr (record {
              tokens = out.tokens_generated;
              few = few;
              tokens_told = refl;
              model_told = ap some name;
              backend_told = refl;
            }),
          )

    -- With a llama.cpp backend, whatever its library answers: a local inference always gives a result, the backend
    -- stays in place, and the result either is marked as an error or tells in its metadata the backend llama.cpp, the
    -- model's name, and a number of tokens that is at most 32.
    pub process_local_inference_lem :
        (a : Agent fl llama_backend) (b : LlamaCppBackend ll) (f : TelemetryFrame fl.F) (now : ℕ)
        → a.local_backend ≡ other b
        → let (a', result) = process_local_inference fl llama_backend a f now in
          (a'.local_backend ≡ other b)
          × ((result.action ≡ text "INFERENCE_ERROR") ⊎ IsReported b result)
    process_local_inference_lem a b f now at =
        let prompt = local_prompt fl llama_backend f in
        reported a b f now (result_of b prompt 32)
          (answered a b prompt (result_of b prompt 32) at refl)
          (llama_infer_terminates ll b prompt 32).2
