-- ===== src/Tee/Program/Steps.antt =====
-- The steps of the program tee_gateway: how it starts in each mode, and what it prints.
use sovereign_edge_tee_agent.Base.{
  ℕ, ◌/◌, ◌≡◌, ◌≢◌, refl, sym, ◌∙◌, arith, Bytes, text, Bool, true, false, length, [], ◌∷◌, Option,
  none, some, inl, inr,
}
use sovereign_edge_tee_agent.Base.Fallible.{Fallible-cases}
use sovereign_edge_tee_agent.Base.Utf8.{from_utf8_lossy, decimal, decimal_onto}
use sovereign_edge_tee_agent.Common.{TelemetryFrame}
use sovereign_edge_tee_agent.Tee.Error.{GatewayError, ok, err}
use sovereign_edge_tee_agent.Tee.Backend.{
  SimulatedTee, simulated, new_simulated, simulated_seal, simulated_attest, seal,
  verify_attestation,
}
use sovereign_edge_tee_agent.Tee.Qwen.{Web, Request, Reply, QwenResponse, canned_response}
use sovereign_edge_tee_agent.Tee.Gateway.{
  TeeGateway, new, new_live, initialize, build_prompt, process_frame, generate_execution_log,
}
use sovereign_edge_tee_agent.Tee.Gateway.Answers.{process_frame-log, process_frame_offline}
use sovereign_edge_tee_agent.Tee.Program.{
  Args, Output, no_key, panicked, failed, printed, key_text, program_frame, choose_gateway,
  print_response, relay, relay_with, run,
}

module _ (sha256 : Bytes → Bytes) where
  -- A log is made only of a response with a choice.
  print-not_panicked :
      (frame_id : ℕ) (r : QwenResponse) {log : Bytes}
      → generate_execution_log sha256 frame_id r ≡ some log
      → print_response sha256 frame_id r ≢ panicked
  unfolding print_response generate_execution_log
  print-not_panicked frame_id r h e = ground arith

  -- The gateway after `initialize` with an HTTP client, which the simulated enclave never refuses.
  abbrev started : TeeGateway SimulatedTee → Bytes → TeeGateway SimulatedTee
  started g key = elim (initialize (simulated sha256) g key true) [ none ↦ g | some (r, h) ↦ h ]

  pub started_key :
      (g : TeeGateway SimulatedTee) (key : Bytes)
      → ((started g key).qwen_api_key ≡ some (from_utf8_lossy key))
        × ((started g key).live ≡ g.live)
        × ((started g key).qwen_endpoint ≡ g.qwen_endpoint)
        × ((started g key).qwen_model ≡ g.qwen_model)
  unfolding initialize verify_attestation seal simulated_attest simulated_seal
  started_key g key = (refl, refl, refl, refl)

  -- What the simulated run prints, of the canned response.
  pub offline_prints :
      {F : Type 0} (frame : TelemetryFrame F)
      → (out : Output) × (print_response sha256 1
            (canned_response (text "qwen-max") 1 (build_prompt frame))
          ≡ printed out)
        × (out.request_id ≡ text "tee-req-1")
        × (out.model ≡ text "qwen-max")
        × (out.prompt_tokens ≡ length (build_prompt frame) / 4)
        × (out.completion_tokens ≡ 50)
  unfolding print_response generate_execution_log canned_response decimal decimal_onto
  offline_prints frame = (_, refl, refl, refl, refl, refl)

  module _ (web : Web) (F : Type 0) (net : Request → Reply) where
    pub relay_ok :
        (g : TeeGateway SimulatedTee) (f : TelemetryFrame F) (now : ℕ) {r : QwenResponse}
        → (process_frame (simulated sha256) web g net f now).0 ≡ ok r
        → relay sha256 web F g net f now ≡ print_response sha256 f.frame_id r
    unfolding relay
    relay_ok g f now h = rw (h, relay) refl

    pub relay_err :
        (g : TeeGateway SimulatedTee) (f : TelemetryFrame F) (now : ℕ) {e : GatewayError}
        → (process_frame (simulated sha256) web g net f now).0 ≡ err e
        → relay sha256 web F g net f now ≡ failed e
    unfolding relay
    relay_err g f now h = rw (h, relay) refl

    pub relay-not_panicked :
        (g : TeeGateway SimulatedTee) (f : TelemetryFrame F) (now : ℕ)
        → relay sha256 web F g net f now ≢ panicked
    relay-not_panicked g f now e =
        elim (Fallible-cases ((process_frame (simulated sha256) web g net f now).0)) [
          | inl (r, answered) ↦
              let (log, made) =
                process_frame-log (simulated sha256) web g net f now sha256 f.frame_id answered in
              print-not_panicked f.frame_id r made (sym (relay_ok g f now answered) ∙ e)
          | inr (why, wrong) ↦ cc (sym (relay_err g f now wrong) ∙ e)
        ]

    started_run :
        (g : TeeGateway SimulatedTee) (key : Bytes) (f : TelemetryFrame F) (now : ℕ)
        → relay_with sha256 web F (initialize (simulated sha256) g key true) net f now
          ≡ relay sha256 web F (started g key) net f now
    unfolding initialize verify_attestation seal simulated_attest simulated_seal relay_with
    started_run g key f now = refl

    -- Without an HTTP client.
    unbuilt_run :
        (g : TeeGateway SimulatedTee) (key : Bytes) (f : TelemetryFrame F) (now : ℕ)
        → relay_with sha256 web F (initialize (simulated sha256) g key false) net f now ≡ panicked
    unfolding initialize verify_attestation seal simulated_attest simulated_seal relay_with
    unbuilt_run g key f now = refl

    abbrev pub offline_gateway : Args → TeeGateway SimulatedTee
    offline_gateway args =
        started (new (simulated sha256) new_simulated args.endpoint) (text "simulated-key")

    abbrev pub live_gateway : Args → Bytes → TeeGateway SimulatedTee
    live_gateway args key =
        started (new_live (simulated sha256) new_simulated args.endpoint args.model) key

    pub run_simulated :
        (args : Args) (env_key : Option Bytes) (now_ns now : ℕ)
        → args.simulate ≡ true
        → run sha256 web F args env_key true net now_ns now
          ≡ relay sha256 web F (offline_gateway args) net (program_frame args.prompt now_ns) now
    unfolding run choose_gateway
    run_simulated args env_key now_ns now s =
        (rw s refl)
        ∙ started_run (new (simulated sha256) new_simulated args.endpoint) (text "simulated-key")
            (program_frame args.prompt now_ns) now

    pub run_simulated_unbuilt :
        (args : Args) (env_key : Option Bytes) (now_ns now : ℕ)
        → args.simulate ≡ true
        → run sha256 web F args env_key false net now_ns now ≡ panicked
    unfolding run choose_gateway
    run_simulated_unbuilt args env_key now_ns now s =
        (rw s refl)
        ∙ unbuilt_run (new (simulated sha256) new_simulated args.endpoint) (text "simulated-key")
            (program_frame args.prompt now_ns) now

    choose_keyless :
        (args : Args) (env_key : Option Bytes)
        → args.simulate ≡ false
        → key_text env_key ≡ []
        → choose_gateway sha256 args env_key ≡ none
    unfolding choose_gateway
    choose_keyless args env_key s k = ground arith

    choose_live :
        (args : Args) (env_key : Option Bytes) (b : ℕ) (bs : Bytes)
        → args.simulate ≡ false
        → key_text env_key ≡ b ∷ bs
        → choose_gateway sha256 args env_key
          ≡ some (new_live (simulated sha256) new_simulated args.endpoint args.model, b ∷ bs)
    unfolding choose_gateway
    choose_live args env_key b bs s k = ground arith

    pub run_keyless :
        (args : Args) (env_key : Option Bytes) (built : Bool) (now_ns now : ℕ)
        → args.simulate ≡ false
        → key_text env_key ≡ []
        → run sha256 web F args env_key built net now_ns now ≡ no_key
    unfolding run choose_gateway
    run_keyless args env_key built now_ns now s k = rw (choose_keyless args env_key s k, run) refl

    pub run_live :
        (args : Args) (env_key : Option Bytes) (now_ns now b : ℕ) (bs : Bytes)
        → args.simulate ≡ false
        → key_text env_key ≡ b ∷ bs
        → run sha256 web F args env_key true net now_ns now
          ≡ relay sha256 web F
              (live_gateway args (b ∷ bs))
              net
              (program_frame args.prompt now_ns)
              now
    unfolding run choose_gateway
    run_live args env_key now_ns now b bs s k =
        (rw (choose_live args env_key b bs s k, run) refl)
        ∙ started_run (new_live (simulated sha256) new_simulated args.endpoint args.model) (b ∷ bs)
            (program_frame args.prompt now_ns) now

    pub run_live_unbuilt :
        (args : Args) (env_key : Option Bytes) (now_ns now b : ℕ) (bs : Bytes)
        → args.simulate ≡ false
        → key_text env_key ≡ b ∷ bs
        → run sha256 web F args env_key false net now_ns now ≡ panicked
    unfolding run choose_gateway
    run_live_unbuilt args env_key now_ns now b bs s k =
        (rw (choose_live args env_key b bs s k, run) refl)
        ∙ unbuilt_run (new_live (simulated sha256) new_simulated args.endpoint args.model) (b ∷ bs)
            (program_frame args.prompt now_ns) now

    pub offline_relay :
        (args : Args) (now_ns now : ℕ)
        → relay sha256 web F (offline_gateway args) net (program_frame args.prompt now_ns) now
          ≡ print_response sha256 1 (
              canned_response
                (text "qwen-max")
                1
                (build_prompt (program_frame {F = F} args.prompt now_ns)))
    unfolding initialize verify_attestation seal simulated_attest simulated_seal new program_frame
    offline_relay args now_ns now =
        relay_ok (offline_gateway args) (program_frame args.prompt now_ns) now (
          process_frame_offline (simulated sha256) web (offline_gateway args) net
            (program_frame args.prompt now_ns) now refl refl)
