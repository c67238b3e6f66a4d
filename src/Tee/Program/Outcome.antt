-- ===== src/Tee/Program/Outcome.antt =====
-- How the program tee_gateway ends.
use sovereign_edge_tee_agent.Base.{
  ℕ, ◌/◌, ◌≡◌, ◌≢◌, ◌↔◌, refl, sym, ◌∙◌, arith, Bytes, text, Bool, true, false, length, [], ◌∷◌,
  Option, inl, inr,
}
use sovereign_edge_tee_agent.Base.Fallible.{Fallible-cases}
use sovereign_edge_tee_agent.Base.Utf8.{from_utf8_lossy}
use sovereign_edge_tee_agent.Common.{TelemetryFrame}
use sovereign_edge_tee_agent.Tee.Backend.{
  SimulatedTee, simulated, new_simulated, simulated_seal, simulated_attest, seal,
  verify_attestation,
}
use sovereign_edge_tee_agent.Tee.Qwen.{Web, Request, Reply, QwenResponse, completions_url}
use sovereign_edge_tee_agent.Tee.Qwen.Answers.{IsAnswer, HasChoices}
use sovereign_edge_tee_agent.Tee.Gateway.{
  TeeGateway, new, new_live, initialize, build_prompt, process_frame, generate_execution_log,
}
use sovereign_edge_tee_agent.Tee.Gateway.Answers.{process_frame-IsAnswer}
use sovereign_edge_tee_agent.Tee.Program.{
  Args, Output, Exit, no_key, panicked, printed, key_text, program_frame, print_response, relay,
  run,
}
use sovereign_edge_tee_agent.Tee.Program.Steps.{
  started_key, relay_ok, relay_err, relay-not_panicked, live_gateway, run_simulated, run_keyless,
  run_live, run_live_unbuilt, run_simulated_unbuilt, offline_prints, offline_relay,
}

module _ (sha256 : Bytes → Bytes) (web : Web) (F : Type 0) (net : Request → Reply) where
  print_lem :
      (frame_id : ℕ) (r : QwenResponse) (has : HasChoices web r) {out : Output}
      → print_response sha256 frame_id r ≡ printed out
      → (out.request_id ≡ r.request_id)
        × (out.model ≡ r.model)
        × (out.content ≡ has.first_choice.message.content)
  unfolding print_response generate_execution_log
  print_lem frame_id r has h = ground (arith, has.are)

  -- What a printed response tells of the reply.
  pub record Relayed (args : Args) (key : Bytes) (now_ns : ℕ) (out : Output) : Type 0 where
    pub response : QwenResponse
    pub bearer : Bytes
    pub is_key : bearer ≡ from_utf8_lossy key
    pub answer :
        IsAnswer web args.model
          (net (record {
            url = completions_url args.endpoint;
            bearer = bearer;
            body_model = args.model;
            content = build_prompt (program_frame {F = F} args.prompt now_ns);
          }))
          response
    pub request_id : out.request_id ≡ response.request_id
    pub model : out.model ≡ response.model
    pub content : out.content ≡ answer.has_choices.first_choice.message.content

  run-Relayed :
      (args : Args) (env_key : Option Bytes) (now_ns now b : ℕ) (bs : Bytes) {out : Output}
      → args.simulate ≡ false
      → key_text env_key ≡ b ∷ bs
      → run sha256 web F args env_key true net now_ns now ≡ printed out
      → Relayed args (b ∷ bs) now_ns out
  unfolding initialize verify_attestation seal simulated_attest simulated_seal new_live new
  run-Relayed args env_key now_ns now b bs {out} s k h =
      let g = live_gateway sha256 web F net args (b ∷ bs) in
      let f = program_frame {F = F} args.prompt now_ns in
      let relayed : relay sha256 web F g net f now ≡ printed out =
        sym (run_live sha256 web F net args env_key now_ns now b bs s k) ∙ h in
      elim (Fallible-cases ((process_frame (simulated sha256) web g net f now).0)) [
        | inl (r, answered) ↦
            let (key, e, client, answer) =
              process_frame-IsAnswer (simulated sha256) web g net f now refl answered in
            let (id, model, content) =
              print_lem f.frame_id r answer.has_choices
                (sym (relay_ok sha256 web F net g f now answered) ∙ relayed) in
            record {
              response = r;
              bearer = key;
              is_key = cc (
                  sym e
                  ∙ (started_key sha256
                      (new_live (simulated sha256) new_simulated args.endpoint args.model)
                      (b ∷ bs)).0);
              answer = answer;
              request_id = id;
              model = model;
              content = content;
            }
        | inr (why, wrong) ↦ absurd (cc (sym (relay_err sha256 web F net g f now wrong) ∙ relayed))
      ]

  print-ne-no_key : (frame_id : ℕ) (r : QwenResponse) → print_response sha256 frame_id r ≢ no_key
  unfolding print_response
  print-ne-no_key frame_id r e = ground arith

  relay-ne-no_key :
      (g : TeeGateway SimulatedTee) (f : TelemetryFrame F) (now : ℕ)
      → relay sha256 web F g net f now ≢ no_key
  relay-ne-no_key g f now e =
      elim (Fallible-cases ((process_frame (simulated sha256) web g net f now).0)) [
        | inl (r, answered) ↦
            print-ne-no_key f.frame_id r (sym (relay_ok sha256 web F net g f now answered) ∙ e)
        | inr (why, wrong) ↦ cc (sym (relay_err sha256 web F net g f now wrong) ∙ e)
      ]

  -- How a run ends, by the key and by whether the client can be built.
  abbrev Ends : Args → ℕ → Bytes → Bool → Exit → Type 0
  Ends args now_ns key built exit =
      ((exit ≡ panicked) ↔ ((key ≢ []) × (built ≡ false)))
      × ((exit ≡ no_key) ↔ (key ≡ []))
      × ((out : Output) → exit ≡ printed out → Relayed args key now_ns out)

  ends :
      (args : Args) (env_key : Option Bytes) (now_ns now : ℕ) (key : Bytes) (built : Bool)
      → args.simulate ≡ false
      → key_text env_key ≡ key
      → Ends args now_ns key built (run sha256 web F args env_key built net now_ns now)
  ends args env_key now_ns now [] built s k =
      rw (run_keyless sha256 web F net args env_key built now_ns now s k) (
        ((λ e. cc e), (λ (apart, _). absurd (apart refl))),
        ((λ _. refl), (λ _. refl)),
        (λ out e. cc e),
      )
  ends args env_key now_ns now (b ∷ bs) false s k =
      rw (run_live_unbuilt sha256 web F net args env_key now_ns now b bs s k)
        (((λ _. ((λ e. cc e), refl)), (λ _. refl)), ((λ e. cc e), (λ e. cc e)), (λ out e. cc e))
  ends args env_key now_ns now (b ∷ bs) true s k =
      let g = live_gateway sha256 web F net args (b ∷ bs) in
      let f = program_frame {F = F} args.prompt now_ns in
      let same = run_live sha256 web F net args env_key now_ns now b bs s k in
      (
        (
          (λ e. absurd (relay-not_panicked sha256 web F net g f now (sym same ∙ e))),
          (λ (_, unbuilt). cc unbuilt),
        ),
        ((λ e. absurd (relay-ne-no_key g f now (sym same ∙ e))), (λ e. cc e)),
        (λ out e. run-Relayed args env_key now_ns now b bs s k e),
      )

  -- In live mode, whatever the network answers: the program panics exactly when there is a key and no HTTP client can
  -- be built. It ends for the missing key exactly when the environment has none, or an empty one. What it prints is
  -- the identifier, the model and the first content of a response that has all its parts from the JSON of a
  -- successful reply to the request for the frame, sent with that key to the endpoint of the arguments.
  pub run_live_lem :
      (args : Args) (env_key : Option Bytes) (built : Bool) (now_ns now : ℕ)
      → args.simulate ≡ false
      → let exit = run sha256 web F args env_key built net now_ns now in
        ((exit ≡ panicked) ↔ ((key_text env_key ≢ []) × (built ≡ false)))
        × ((exit ≡ no_key) ↔ (key_text env_key ≡ []))
        × ((out : Output) → exit ≡ printed out → Relayed args (key_text env_key) now_ns out)
  run_live_lem args env_key built now_ns now s =
      ends args env_key now_ns now (key_text env_key) built s refl

module _ (sha256 : Bytes → Bytes) (F : Type 0) where
  -- With `--simulate`, where an HTTP client can be built, the program prints one and the same output whatever the environment's key, the endpoint's
  -- network and the parser of its replies are: the canned response, whose request is number 1 and whose model is
  -- qwen-max, not the one asked for, with a quarter of the prompt's bytes as tokens and 50 tokens of completion.
  -- Where none can be built it panics, although it would not be used.
  pub run_simulated_lem :
      (args : Args) (now_ns : ℕ)
      → args.simulate ≡ true
      → (out : Output) × ((web : Web) (env_key : Option Bytes) (net : Request → Reply) (now : ℕ)
          → (run sha256 web F args env_key true net now_ns now ≡ printed out)
            × (run sha256 web F args env_key false net now_ns now ≡ panicked))
        × (out.request_id ≡ text "tee-req-1")
        × (out.model ≡ text "qwen-max")
        × (out.prompt_tokens ≡ length (build_prompt (program_frame {F = F} args.prompt now_ns)) / 4)
        × (out.completion_tokens ≡ 50)
  run_simulated_lem args now_ns s =
      let (out, prints, id, model, tokens, completion) =
        offline_prints sha256 (program_frame {F = F} args.prompt now_ns) in
      (
        out,
        (λ web env_key net now. (
          run_simulated sha256 web F net args env_key now_ns now s
              ∙ offline_relay sha256 web F net args now_ns now
              ∙ prints,
          run_simulated_unbuilt sha256 web F net args env_key now_ns now s,
        )),
        id,
        model,
        tokens,
        completion,
      )
