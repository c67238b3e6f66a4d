-- ===== src/Tee/Program.antt =====
-- The program tee_gateway (crates/tee-gateway/src/main.rs) to its end. The environment, the network, SHA-256 and the
-- clocks are arguments.
pub mod Outcome
pub mod Steps
use sovereign_edge_tee_agent.Base.{
  ℕ, Bytes, text, Bool, true, false, Option, none, some, get_elem?, [], ◌∷◌,
}
use sovereign_edge_tee_agent.Base.Utf8.{from_utf8_lossy}
use sovereign_edge_tee_agent.Common.{TelemetryFrame, default_metadata}
use sovereign_edge_tee_agent.Tee.Error.{GatewayError, Result, ok, err}
use sovereign_edge_tee_agent.Tee.Backend.{SimulatedTee, simulated, new_simulated}
use sovereign_edge_tee_agent.Tee.Qwen.{Web, Request, Reply, QwenResponse}
use sovereign_edge_tee_agent.Tee.Gateway.{
  TeeGateway, new, new_live, initialize, process_frame, generate_execution_log,
}

pub record Args : Type 0 where
  pub prompt : Bytes
  pub endpoint : Bytes
  pub model : Bytes
  pub simulate : Bool

-- What is printed of the response, and of the log.
pub record Output : Type 0 where
  pub request_id : Bytes
  pub model : Bytes
  pub prompt_tokens : ℕ
  pub completion_tokens : ℕ
  pub content : Bytes
  pub log : Bytes

pub data Exit : Type 0 where
  no_key panicked : Exit
  failed : GatewayError → Exit
  printed : Output → Exit

-- The text of the variable, or nothing.
unfoldable pub key_text : Option Bytes → Bytes
key_text none = []
key_text (some key) = key

unfoldable pub program_frame : {F : Type 0} → Bytes → ℕ → TelemetryFrame F
program_frame prompt now_ns = record {
  frame_id = 1;
  source_ip = text "edge-node-01";
  dest_ip = none;
  timestamp_ns = now_ns;
  payload = prompt;
  metadata = default_metadata;
}

module _ (sha256 : Bytes → Bytes) where
  -- The gateway and the key, or nothing where the program bails out.
  unfoldable pub choose_gateway : Args → Option Bytes → Option (TeeGateway SimulatedTee × Bytes)
  choose_gateway args env_key = elim args.simulate [
    | true ↦ some (new (simulated sha256) new_simulated args.endpoint, text "simulated-key")
    | false ↦ elim (key_text env_key) [
      | [] ↦ none
      | b ∷ bs ↦ some (new_live (simulated sha256) new_simulated args.endpoint args.model, b ∷ bs)
    ]
  ]

  -- The prints, where an index out of range panics.
  unfoldable pub print_response : ℕ → QwenResponse → Exit
  print_response frame_id response = elim (get_elem? response.choices 0) [
    | none ↦ panicked
    | some choice ↦ elim (generate_execution_log sha256 frame_id response) [
      | none ↦ panicked
      | some log ↦ printed (record {
        request_id = response.request_id;
        model = response.model;
        prompt_tokens = response.usage.prompt_tokens;
        completion_tokens = response.usage.completion_tokens;
        content = choice.message.content;
        log = from_utf8_lossy log;
      })
    ]
  ]

  module _ (web : Web) where
    unfoldable pub relay :
        (F : Type 0) → TeeGateway SimulatedTee → (Request → Reply) → TelemetryFrame F → ℕ → Exit
    relay F gateway net frame now =
        elim ((process_frame (simulated sha256) web gateway net frame now).0) [
          | err e ↦ failed e
          | ok response ↦ print_response frame.frame_id response
        ]

    -- After `initialize`.
    unfoldable pub relay_with :
        (F : Type 0)
        → Option (Result (Unit {0}) × TeeGateway SimulatedTee)
        → (Request → Reply)
        → TelemetryFrame F
        → ℕ
        → Exit
    relay_with F none net frame now = panicked
    relay_with F (some (err e, gateway)) net frame now = failed e
    relay_with F (some (ok u, gateway)) net frame now = relay F gateway net frame now

    -- `built` is whether the HTTP client can be built.
    unfoldable pub run :
        (F : Type 0) → Args → Option Bytes → Bool → (Request → Reply) → ℕ → ℕ → Exit
    run F args env_key built net now_ns now = elim (choose_gateway args env_key) [
      | none ↦ no_key
      | some (gateway, api_key) ↦
          relay_with F (initialize (simulated sha256) gateway api_key built) net
            (program_frame args.prompt now_ns) now
    ]
