-- ===== src/Agent/Llama/Bounds.antt =====
-- The generation loop ends, and stays within the token budget and the context.
use sovereign_edge_tee_agent.Base.{
  ℕ, zero, suc, ◌+◌, ◌≤◌, ◌<◌, ◌≡◌, ◌⊎◌, inl, inr, refl, arith, Bytes, true, ltb, ◌&&◌, List,
  length, some, Bool-cases,
}
use sovereign_edge_tee_agent.Base.Fallible.{Fallible, ok, err, Fallible-cases}
use sovereign_edge_tee_agent.Agent.Inference.{AgentError, InferenceOutput}
use sovereign_edge_tee_agent.Agent.Llama.{
  LlamaCpp, ctx_size, LlamaCppBackend, Generation, Round, ends, goes_on, round, generate_tokens,
  begin, llama_infer,
}

module _ (ll : LlamaCpp) where
  open ll use {Model, Token}

  -- A round leaves both counters or moves both by one.
  pub data IsRoundOf (g : Generation ll) : Round ll → Type 0 where
    stopped :
        {h : Generation ll} → h.generated ≡ g.generated → h.n_cur ≡ g.n_cur → IsRoundOf g (ends h)
    moved :
        {h : Generation ll}
        → h.generated ≡ g.generated + 1
        → h.n_cur ≡ g.n_cur + 1
        → IsRoundOf g (goes_on h)

  round-IsRoundOf :
      (model : Model) (g : Generation ll) {r : Round ll} → round ll model g ≡ ok r → IsRoundOf g r
  unfolding round
  round-IsRoundOf model g {r = ends h} e = stopped (ground arith) (ground arith)
  round-IsRoundOf model g {r = goes_on h} e = moved (ground arith) (ground arith)

  within :
      (n : ℕ) (g h : Generation ll)
      → (ltb g.generated n && ltb g.n_cur ctx_size) ≡ true
      → IsRoundOf g (goes_on h)
      → h.generated ≤ n
  within n g h t (moved p q) = ground arith

  enough :
      (n fuel : ℕ) (g h : Generation ll)
      → n < suc fuel + g.generated
      → IsRoundOf g (goes_on h)
      → n < fuel + h.generated
  enough n fuel g h t (moved p q) = omega arith

  -- What the loop ends with, from the state `g` and under the budget.
  pub data IsEnd (max_tokens : ℕ) (g : Generation ll)
      : Fallible AgentError (Generation ll) → Type 0 where
    failed : {e : AgentError} → IsEnd max_tokens g (err e)
    ended :
        {h : Generation ll}
        → h.generated ≤ max_tokens
        → h.n_cur + g.generated ≡ g.n_cur + h.generated
        → (h.n_cur ≤ ctx_size) ⊎ (h.n_cur ≡ g.n_cur)
        → IsEnd max_tokens g (ok h)

  -- A round that goes on, before the rest of the loop.
  IsEnd-moved :
      {max_tokens : ℕ} {g h : Generation ll} {r : Fallible AgentError (Generation ll)}
      → g.n_cur < ctx_size
      → IsRoundOf g (goes_on h)
      → IsEnd max_tokens h r
      → IsEnd max_tokens g r
  IsEnd-moved small m failed = failed
  IsEnd-moved small (moved p q) (ended a b c) = ended a (omega arith) (ground arith)

  generate_tokens-IsEnd :
      (fuel : ℕ) (model : Model) (max_tokens : ℕ) (g : Generation ll)
      → g.generated ≤ max_tokens
      → max_tokens < fuel + g.generated
      → (r : Fallible AgentError (Generation ll)) × (generate_tokens ll fuel model max_tokens g
          ≡ some r)
        × IsEnd max_tokens g r
  unfolding generate_tokens
  generate_tokens-IsEnd zero model n g k h = absurd (omega arith)
  generate_tokens-IsEnd (suc fuel) model n g k h =
      elim (Bool-cases (ltb g.generated n && ltb g.n_cur ctx_size)) [
        | inr out ↦ (ok g, ground arith, ended k (omega arith) (inr refl))
        | inl more ↦ elim (Fallible-cases (round ll model g)) [
          | inr (e, failing) ↦ (err e, ground arith, failed)
          | inl (ends g', q) ↦ elim (round-IsRoundOf model g q) [
            | stopped a b ↦ (ok g', ground arith, ended (omega arith) (omega arith) (inr b))
          ]
          | inl (goes_on g', q) ↦
              let step = round-IsRoundOf model g q in
              let (r, rest, end) =
                generate_tokens-IsEnd fuel model n g' (within n g g' more step)
                  (enough n fuel g g' h step) in
              (r, ground arith, IsEnd-moved (ground arith) step end)
        ]
      ]

  begin_lem :
      (b : LlamaCppBackend ll) (prompt : Bytes) {g : Generation ll}
      → begin ll b prompt ≡ ok g
      → (tokens : List Token) × (ll.str_to_token b.model prompt ≡ ok tokens)
        × (g.n_cur ≡ length tokens)
        × (g.generated ≡ 0)
  unfolding begin
  begin_lem b prompt {g} e = elim (Fallible-cases (ll.str_to_token b.model prompt)) [
    | inl (tokens, q) ↦ (tokens, q, ground arith, ground arith)
    | inr (t, q) ↦ absurd (ground arith)
  ]

  -- The result of `infer`: an error, or an output of the model within the budget, where prompt and output
  -- fill at most the context, unless the prompt fills it already, and then the output is empty.
  pub data IsOutput (b : LlamaCppBackend ll) (prompt : Bytes) (max_tokens : ℕ)
      : Fallible AgentError InferenceOutput → Type 0 where
    failed : {e : AgentError} → IsOutput b prompt max_tokens (err e)
    given :
        {out : InferenceOutput} (tokens : List Token)
        → ll.str_to_token b.model prompt ≡ ok tokens
        → out.tokens_generated ≤ max_tokens
        → (length tokens + out.tokens_generated ≤ ctx_size) ⊎ (out.tokens_generated ≡ 0)
        → out.model_name ≡ b.model_name
        → IsOutput b prompt max_tokens (ok out)

  IsEnd-generated :
      {max_tokens : ℕ} {g h : Generation ll}
      → IsEnd max_tokens g (ok h)
      → g.generated ≡ 0
      → (h.generated ≤ max_tokens) × ((g.n_cur + h.generated ≤ ctx_size) ⊎ (h.generated ≡ 0))
  IsEnd-generated (ended a b c) z = (a, ground arith)

  finish :
      (b : LlamaCppBackend ll) (prompt : Bytes) (n : ℕ) {g : Generation ll} {tokens : List Token}
      (r : Fallible AgentError (Generation ll))
      → begin ll b prompt ≡ ok g
      → ll.str_to_token b.model prompt ≡ ok tokens
      → g.n_cur ≡ length tokens
      → g.generated ≡ 0
      → generate_tokens ll (n + 1) b.model n g ≡ some r
      → IsEnd n g r
      → (out : Fallible AgentError InferenceOutput) × (llama_infer ll (n + 1) b prompt n ≡ some out)
        × IsOutput b prompt n out
  unfolding llama_infer
  finish b prompt n (err e) q t cur z run end = (err e, ground arith, failed)
  finish b prompt n {tokens = tokens} (ok h) q t cur z run end =
      let (few, room) = IsEnd-generated end z in
      (
        ok (record { text = h.output; tokens_generated = h.generated; model_name = b.model_name }),
        ground arith,
        given tokens t few (ground arith) refl,
      )

  -- Inference ends after at most one round more than the budget of tokens, whatever the library answers:
  -- with an error, or with an output of at most that many tokens under the model's name, which fills the
  -- context of 512 together with the prompt's tokens at most, and is empty if those fill it alone.
  pub llama_infer_terminates :
      (b : LlamaCppBackend ll) (prompt : Bytes) (max_tokens : ℕ)
      → (r : Fallible AgentError InferenceOutput) × (llama_infer ll
            (max_tokens + 1)
            b
            prompt
            max_tokens
          ≡ some r)
        × IsOutput b prompt max_tokens r
  unfolding llama_infer
  llama_infer_terminates b prompt n = elim (Fallible-cases (begin ll b prompt)) [
    | inr (e, q) ↦ (err e, ground arith, failed)
    | inl (g, q) ↦
        let (tokens, t, cur, zero_generated) = begin_lem b prompt q in
        let (r, run, end) = generate_tokens-IsEnd (n + 1) b.model n g (omega arith) (omega arith) in
        finish b prompt n r q t cur zero_generated run end
  ]
