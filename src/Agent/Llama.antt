-- ===== src/Agent/Llama.antt =====
-- `LlamaCppBackend` of crates/edge-agent/src/inference.rs (the feature `llama`). The crate llama-cpp-2 and
-- the decoder of encoding_rs are the parameter `LlamaCpp`; errors of it are their text.
-- Counts of tokens are below 2^31, where `i32` and `u32` agree.
pub mod Bounds
pub mod Service
use sovereign_edge_tee_agent.Base.{
  ℕ, zero, suc, ◌+◌, ◌-◌, Bytes, text, Bool, true, false, not, ◌&&◌, ◌||◌, ltb, ◌==◌, if◌then◌else◌,
  ◌++◌, List, [], ◌∷◌, length, reverse, Option, none, some, bytes_eq,
}
use sovereign_edge_tee_agent.Base.Int.{ℤ, sub_ℕ}
use sovereign_edge_tee_agent.Base.Lines.{split, contains}
use sovereign_edge_tee_agent.Base.Utf8.{from_utf8_lossy}
use sovereign_edge_tee_agent.Base.Fallible.{Fallible, ok, err, ◌>>=◌}
use sovereign_edge_tee_agent.Agent.Inference.{AgentError, inference_failed, InferenceOutput}

pub record LlamaCpp : Type 1 where
  pub Model : Type 0
  pub Context : Type 0
  pub Batch : Type 0
  pub Token : Type 0
  pub Sampler : Type 0
  pub Decoder : Type 0
  pub init : Fallible Bytes (Unit {0})
  pub load_from_file : Bytes → ℕ → Fallible Bytes Model
  pub new_context : Model → ℕ → Fallible Bytes Context
  -- with `AddBos::Always`
  pub str_to_token : Model → Bytes → Fallible Bytes (List Token)
  pub new_batch : ℕ → Batch
  -- token, position, and whether logits are wanted
  pub add : Batch → Token → ℕ → Bool → Fallible Bytes Batch
  pub clear : Batch → Batch
  pub n_tokens : Batch → ℕ
  pub decode : Context → Batch → Fallible Bytes Context
  pub greedy : Sampler
  pub sample : Sampler → Context → ℤ → Token × Sampler
  pub is_eog_token : Model → Token → Bool
  pub new_decoder : Decoder
  pub token_to_piece : Model → Token → Decoder → Fallible Bytes Bytes × Decoder

abbrev pub ctx_size : ℕ
ctx_size = 512

-- `map_err` of a message with the error's text.
abbrev pub failed_as : {A : Type 0} → Bytes → Fallible Bytes A → Fallible AgentError A
failed_as stage (ok a) = ok a
failed_as stage (err e) = err (inference_failed (stage ++ (text ": " ++ e)))

-- The last component of a path, `.` left out.
last_name : List Bytes → Bytes → Bytes
last_name [] name = name
last_name (c ∷ cs) name = last_name cs (if bytes_eq c [] || bytes_eq c (text ".") then name else c)

-- From the reversed name: what stands before the last dot, or the name where there is none but a first one.
before_dot : Bytes → Option Bytes
before_dot [] = none
before_dot (c ∷ s) = let rest = before_dot s in if c == 46 then some s else rest

abbrev stem : Bytes → Option Bytes → Bytes
stem name none = name
stem name (some []) = name
stem name (some (c ∷ s)) = reverse (c ∷ s)

-- `Path::file_stem`
unfoldable pub file_stem : Bytes → Option Bytes
unfolding last_name before_dot
file_stem path =
    let name = last_name (split 47 path) [] in
    if bytes_eq name [] || bytes_eq name (text "..")
    then none
    else some (stem name (before_dot (reverse name)))

abbrev name_or_unknown : Option Bytes → Bytes
name_or_unknown none = text "unknown"
name_or_unknown (some s) = from_utf8_lossy s

module _ (ll : LlamaCpp) where
  open ll use {Model, Context, Batch, Token, Sampler, Decoder}

  pub record LlamaCppBackend : Type 0 where
    pub model : Model
    pub model_name : Bytes

  unfoldable pub load : Bytes → ℕ → Fallible AgentError LlamaCppBackend
  load model_path gpu_layers = do
    _ ← failed_as (text "llama init") ll.init
    model ← failed_as (text "model load") (ll.load_from_file model_path gpu_layers)
    ok (record { model = model; model_name = name_or_unknown (file_stem model_path) })

  -- The loop that fills the batch with the prompt, from position `i` on.
  unfoldable pub fill_batch : ℕ → ℕ → List Token → Batch → Fallible AgentError Batch
  fill_batch last_idx i [] batch = ok batch
  fill_batch last_idx i (token ∷ tokens) batch = do
    batch' ← failed_as (text "batch add") (ll.add batch token i (i == last_idx))
    fill_batch last_idx (i + 1) tokens batch'

  -- The variables of the loop.
  pub record Generation : Type 0 where
    pub ctx : Context
    pub batch : Batch
    pub sampler : Sampler
    pub utf8_decoder : Decoder
    pub output : Bytes
    pub n_cur : ℕ
    pub generated : ℕ

  -- A round ends at the end-of-generation token or goes on.
  pub data Round : Type 0 where
    ends goes_on : Generation → Round

  abbrev piece_or_empty : Fallible Bytes Bytes → Bytes
  piece_or_empty (ok piece) = piece
  piece_or_empty (err e) = []

  abbrev accept : Model → Generation → Token → Fallible AgentError Round
  accept model g token = do
    let (piece, decoder) = ll.token_to_piece model token g.utf8_decoder
    batch ← failed_as (text "batch add") (ll.add (ll.clear g.batch) token g.n_cur true)
    ctx ← failed_as (text "decode") (ll.decode g.ctx batch)
    ok (
        goes_on (record {
          ctx = ctx;
          batch = batch;
          sampler = g.sampler;
          utf8_decoder = decoder;
          output = g.output ++ piece_or_empty piece;
          n_cur = g.n_cur + 1;
          generated = g.generated + 1;
        }))

  unfoldable pub round : Model → Generation → Fallible AgentError Round
  round model g =
      let (token, sampler) = ll.sample g.sampler g.ctx (sub_ℕ (ll.n_tokens g.batch) 1) in
      let g' : Generation = record g { sampler = sampler } in
      if ll.is_eog_token model token then ok (ends g') else accept model g' token

  -- The `while` loop; `none` means that the fuel ran out.
  unfoldable pub generate_tokens :
      ℕ → Model → ℕ → Generation → Option (Fallible AgentError Generation)
  generate_tokens zero model max_tokens g = none
  generate_tokens (suc fuel) model max_tokens g =
      elim (ltb g.generated max_tokens && ltb g.n_cur ctx_size) [
        | false ↦ some (ok g)
        | true ↦ elim (round model g) [
          | err e ↦ some (err e)
          | ok (ends g') ↦ some (ok g')
          | ok (goes_on g') ↦ generate_tokens fuel model max_tokens g'
        ]
      ]

  -- What comes before the loop.
  unfoldable pub begin : LlamaCppBackend → Bytes → Fallible AgentError Generation
  begin b prompt = do
    ctx ← failed_as (text "context") (ll.new_context b.model ctx_size)
    tokens ← failed_as (text "tokenize") (ll.str_to_token b.model prompt)
    batch ← fill_batch (length tokens - 1) 0 tokens (ll.new_batch ctx_size)
    ctx' ← failed_as (text "decode") (ll.decode ctx batch)
    ok (record {
      ctx = ctx';
      batch = batch;
      sampler = ll.greedy;
      utf8_decoder = ll.new_decoder;
      output = [];
      n_cur = length tokens;
      generated = 0;
    })

  abbrev output_of :
      LlamaCppBackend
      → Option (Fallible AgentError Generation)
      → Option (Fallible AgentError InferenceOutput)
  output_of b none = none
  output_of b (some (err e)) = some (err e)
  output_of b (some (ok g)) =
      some
        (ok (record { text = g.output; tokens_generated = g.generated; model_name = b.model_name }))

  abbrev continue :
      ℕ
      → LlamaCppBackend
      → ℕ
      → Fallible AgentError Generation
      → Option (Fallible AgentError InferenceOutput)
  continue fuel b max_tokens (err e) = some (err e)
  continue fuel b max_tokens (ok g) = output_of b (generate_tokens fuel b.model max_tokens g)

  -- `infer`, with the fuel of its loop.
  unfoldable pub llama_infer :
      ℕ → LlamaCppBackend → Bytes → ℕ → Option (Fallible AgentError InferenceOutput)
  llama_infer fuel b prompt max_tokens = continue fuel b max_tokens (begin b prompt)
