-- ===== src/Agent/Inference.antt =====
-- crates/edge-agent/src/inference.rs. A `Box<dyn InferenceBackend>` is a value of `LocalBackend`:
-- the simulated backend, which the source implements, or another one. Others (llama.cpp, behind a
-- feature, calls an external crate) are the parameter `InferenceBackend`.
use sovereign_edge_tee_agent.Base.{ℕ, Bytes, text, ◌++◌}

-- `AgentError` of crates/edge-agent/src/lib.rs
pub data AgentError : Type 0 where
  probe_failed : AgentError
  mode_transition_failed : Bytes → AgentError
  inference_failed : Bytes → AgentError

-- Its `Display`.
unfoldable pub error_text : AgentError → Bytes
error_text probe_failed = text "Network probe failed"
error_text (mode_transition_failed m) = text "Mode transition failed: " ++ m
error_text (inference_failed m) = text "Inference failed: " ++ m

pub record InferenceOutput : Type 0 where
  pub text : Bytes
  pub tokens_generated : ℕ
  pub model_name : Bytes

pub data Inference : Type 0 where
  ok : InferenceOutput → Inference
  err : AgentError → Inference

-- The trait; `infer` takes `&mut self`.
pub record InferenceBackend : Type 1 where
  pub Backend : Type 0
  pub name : Backend → Bytes
  pub infer : Backend → Bytes → ℕ → Inference × Backend

pub data LocalBackend (B : Type 0) : Type 0 where
  simulated : LocalBackend B
  other : B → LocalBackend B

-- `SimulatedBackend::infer`
unfoldable pub simulated_infer : Bytes → ℕ → Inference
simulated_infer prompt max_tokens = ok (record {
  text = text "LOCAL_SAFETY_CHECK";
  tokens_generated = 0;
  model_name = text "qwen2.5-0.5b (simulated)";
})

module _ (ib : InferenceBackend) where
  open ib use {Backend}

  unfoldable pub backend_name : LocalBackend Backend → Bytes
  backend_name simulated = text "simulated"
  backend_name (other b) = ib.name b

  unfoldable pub infer : LocalBackend Backend → Bytes → ℕ → Inference × LocalBackend Backend
  infer simulated prompt max_tokens = (simulated_infer prompt max_tokens, simulated)
  infer (other b) prompt max_tokens = let (r, b') = ib.infer b prompt max_tokens in (r, other b')
