-- ===== src/Tee/Gateway.antt =====
-- `TeeGateway` of crates/tee-gateway/src/lib.rs. The network is the argument `net`: the reply to a
-- request. The times of `Instant::now` are the argument `now`. Of the HTTP client only its presence is kept.
-- `none` stands for a panic: of `initialize` where no client can be built, and of the log, which indexes the choices.
pub mod Laws
pub mod Answers
pub mod Reach
pub mod Interleave
use sovereign_edge_tee_agent.Base.{
  ℕ, ◌+◌, Bytes, text, Bool, true, false, List, [], ◌∷◌, ◌++◌, length, add64, Option, none, some,
  get_elem?, ◌&&◌,
}
use sovereign_edge_tee_agent.Base.Utf8.{decimal, from_utf8_lossy}
use sovereign_edge_tee_agent.Base.Dict.{Dict, lookup, insert}
use sovereign_edge_tee_agent.Common.{TelemetryFrame}
use sovereign_edge_tee_agent.Zk.Generator.{hex}
use sovereign_edge_tee_agent.Tee.Error.{
  GatewayError, api_key_not_initialized, qwen_api_error, Result, ok, err, or_fail, ◌>>=◌,
}
use sovereign_edge_tee_agent.Tee.Backend.{
  TeeBackend, AttestationReport, SealedStorage, new_storage, seal, verify_attestation,
}
use sovereign_edge_tee_agent.Tee.Qwen.{
  Web, Request, Reply, QwenResponse, completions_url, receive_reply, canned_response,
}

pub record SessionState : Type 0 where
  pub last_activity : ℕ
  pub frame_count : ℕ

pub record GatewayStats : Type 0 where
  pub processed_frames : ℕ
  pub active_sessions : ℕ
  pub api_calls : ℕ

pub record TeeGateway (T : Type 0) : Type 0 where
  pub storage : SealedStorage T
  pub qwen_api_key : Option Bytes
  pub qwen_endpoint : Bytes
  pub qwen_model : Bytes
  pub live : Bool
  pub processed_frames : ℕ
  pub session_cache : Dict SessionState
  pub http_client : Bool

-- 10 is the line feed.
unfoldable pub system_prompt : Bytes
system_prompt =
    text "You are an AI agent analyzing real-time edge telemetry."
    ++ (10
        ∷ (text "Your task is to provide actionable insights and decisions based on sensor data."
            ++ (10
                ∷ text "Respond with structured JSON containing: action, confidence, reasoning.")))

unfoldable pub build_prompt : {F : Type 0} → TelemetryFrame F → Bytes
build_prompt frame =
    system_prompt
    ++ (10
        ∷ 10
        ∷ (text "Telemetry Frame #"
            ++ (decimal frame.frame_id
                ++ (text " from "
                    ++ (frame.source_ip
                        ++ (10
                            ∷ (text "Data: "
                                ++ (from_utf8_lossy frame.payload
                                    ++ (10 ∷ 10 ∷ text "Analyze and provide decision:")))))))))

-- The entry of a source after a frame of it.
abbrev pub counted : ℕ → Option SessionState → SessionState
counted now none = record { last_activity = now; frame_count = add64 0 1 }
counted now (some s) = record { last_activity = now; frame_count = add64 s.frame_count 1 }

unfoldable pub update_sessions : Dict SessionState → Bytes → ℕ → Dict SessionState
update_sessions cache source now = insert source (counted now (lookup source cache)) cache

module _ (tb : TeeBackend) where
  open tb use {Tee}

  unfoldable pub new : Tee → Bytes → TeeGateway Tee
  new tee qwen_endpoint = record {
    storage = new_storage tb tee;
    qwen_api_key = none;
    qwen_endpoint = qwen_endpoint;
    qwen_model = text "qwen-max";
    live = false;
    processed_frames = 0;
    session_cache = [];
    http_client = false;
  }

  unfoldable pub new_live : Tee → Bytes → Bytes → TeeGateway Tee
  new_live tee qwen_endpoint model = record (new tee qwen_endpoint) {
    qwen_model = model;
    live = true;
  }

  -- `built` is whether the builder of the HTTP client gives one; the `expect` on it panics where it does not, and then
  -- there is no result.
  abbrev sealed_with :
      TeeGateway Tee
      → Bytes
      → Bool
      → Result (Unit {0}) × SealedStorage Tee
      → Option (Result (Unit {0}) × TeeGateway Tee)
  sealed_with g api_token built (err e, s) = some (err e, record g { storage = s })
  sealed_with g api_token false (ok u, s) = none
  sealed_with g api_token true (ok u, s) = some (
    ok tt,
    record g { storage = s; qwen_api_key = some (from_utf8_lossy api_token); http_client = true },
  )

  abbrev attested_with :
      TeeGateway Tee
      → Bytes
      → Bool
      → Result AttestationReport × SealedStorage Tee
      → Option (Result (Unit {0}) × TeeGateway Tee)
  attested_with g api_token built (err e, s) = some (err e, record g { storage = s })
  attested_with g api_token built (ok report, s) =
      sealed_with g api_token built (seal tb s api_token)

  unfoldable pub initialize :
      TeeGateway Tee → Bytes → Bool → Option (Result (Unit {0}) × TeeGateway Tee)
  initialize g api_token built = attested_with g api_token built (verify_attestation tb g.storage)

  module _ (web : Web) where
    abbrev ask_live :
        TeeGateway Tee → (Request → Reply) → Bytes → Bytes → Bool → Result QwenResponse
    ask_live g net api_key prompt false = err (qwen_api_error (text "HTTP client not initialized"))
    ask_live g net api_key prompt true = receive_reply web g.qwen_model (
        net (record {
          url = completions_url g.qwen_endpoint;
          bearer = api_key;
          body_model = g.qwen_model;
          content = prompt;
        }))

    unfoldable pub call_qwen_api : TeeGateway Tee → (Request → Reply) → Bytes → Result QwenResponse
    call_qwen_api g net prompt = do
      api_key ← or_fail g.qwen_api_key api_key_not_initialized
      elim g.live as (λ _. Result QwenResponse) [
        | true ↦ ask_live g net api_key prompt g.http_client
        | false ↦ ok (canned_response g.qwen_model g.processed_frames prompt)
      ]

    unfoldable pub process_frame :
        {F : Type 0}
        → TeeGateway Tee
        → (Request → Reply)
        → TelemetryFrame F
        → ℕ
        → Result QwenResponse × TeeGateway Tee
    process_frame g net frame now =
        let g₁ : TeeGateway Tee = record g { processed_frames = add64 g.processed_frames 1 } in
        let g₂ : TeeGateway Tee = record g₁ {
          session_cache = update_sessions g₁.session_cache frame.source_ip now;
        } in
        (call_qwen_api g₂ net (build_prompt frame), g₂)

  unfoldable pub stats : TeeGateway Tee → GatewayStats
  stats g = record {
    processed_frames = g.processed_frames;
    active_sessions = length g.session_cache;
    api_calls = g.processed_frames;
  }

  abbrev is_some : Option Bytes → Bool
  is_some none = false
  is_some (some b) = true

  unfoldable pub is_initialized : TeeGateway Tee → Bool
  is_initialized g = is_some g.qwen_api_key && g.storage.attested

-- `generate_execution_log`
unfoldable pub generate_execution_log : (Bytes → Bytes) → ℕ → QwenResponse → Option Bytes
generate_execution_log sha256 frame_id response = elim (get_elem? response.choices 0) [
  | none ↦ none
  | some choice ↦
      let log =
        text "FRAME:"
        ++ (decimal frame_id
            ++ (text "|MODEL:"
                ++ (response.model
                    ++ (text "|ACTION:"
                        ++ (choice.message.content
                            ++ (text "|TOKENS:" ++ decimal response.usage.total_tokens)))))) in
      some (log ++ (text "|HASH:" ++ hex (sha256 log)))
]
