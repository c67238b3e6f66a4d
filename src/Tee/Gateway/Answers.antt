-- ===== src/Tee/Gateway/Answers.antt =====
-- Where the response to a frame comes from, and the log of it.
use sovereign_edge_tee_agent.Base.{
  ℕ, ◌≡◌, refl, sym, ap, ◌∙◌, arith, Bytes, true, false, [], add64, none, some, inl, inr,
  Option-cases, Bool-cases,
}
use sovereign_edge_tee_agent.Common.{TelemetryFrame}
use sovereign_edge_tee_agent.Tee.Error.{api_key_not_initialized, ok, err}
use sovereign_edge_tee_agent.Tee.Backend.{TeeBackend}
use sovereign_edge_tee_agent.Tee.Qwen.{
  Web, Request, Reply, QwenResponse, completions_url, canned_response,
}
use sovereign_edge_tee_agent.Tee.Qwen.Answers.{IsAnswer, HasChoices, receive_reply-IsAnswer}
use sovereign_edge_tee_agent.Tee.Gateway.{
  TeeGateway, build_prompt, call_qwen_api, process_frame, generate_execution_log,
}

module _ (tb : TeeBackend) (web : Web) where
  open tb use {Tee}

  -- The request for a frame.
  abbrev pub request_for : {F : Type 0} → TeeGateway Tee → TelemetryFrame F → Bytes → Request
  request_for g f key = record {
    url = completions_url g.qwen_endpoint;
    bearer = key;
    body_model = g.qwen_model;
    content = build_prompt f;
  }

  -- In live mode a response is never made up: if a frame gives one, then the gateway has a key and a client,
  -- the reply to the request for the frame has a successful status and a text that parses as JSON with a list of
  -- choices. The response has as many choices as that list, at least one, and at each position the role, the
  -- content and the reason to finish of the list's element; its identifier, model and counts of tokens are those of
  -- the JSON too. A part that the JSON does not have is the fixed default, or the gateway's model.
  pub process_frame-IsAnswer :
      {F : Type 0} (g : TeeGateway Tee) (net : Request → Reply) (f : TelemetryFrame F) (now : ℕ)
      {r : QwenResponse}
      → g.live ≡ true
      → (process_frame tb web g net f now).0 ≡ ok r
      → (key : Bytes) × (g.qwen_api_key ≡ some key)
        × (g.http_client ≡ true)
        × IsAnswer web g.qwen_model (net (request_for g f key)) r
  unfolding process_frame call_qwen_api
  process_frame-IsAnswer g net f now {r} l h = elim (Option-cases g.qwen_api_key) [
    | inl e ↦ absurd (ground arith)
    | inr (key, e) ↦ elim (Bool-cases g.http_client) [
      | inl c ↦ (
        key,
        e,
        c,
        receive_reply-IsAnswer web g.qwen_model (net (request_for g f key)) (ground arith),
      )
      | inr c ↦ absurd (ground arith)
    ]
  ]

  -- Offline, a gateway that has a key answers every frame with the canned response, and the network
  -- is not asked.
  pub process_frame_offline :
      {F : Type 0} (g : TeeGateway Tee) (net : Request → Reply) (f : TelemetryFrame F) (now : ℕ)
      {key : Bytes}
      → g.live ≡ false
      → g.qwen_api_key ≡ some key
      → (process_frame tb web g net f now).0
        ≡ ok (canned_response g.qwen_model (add64 g.processed_frames 1) (build_prompt f))
  unfolding process_frame call_qwen_api
  process_frame_offline g net f now l e = rw (e, l) refl

  process_frame_no_key :
      {F : Type 0} (g : TeeGateway Tee) (net : Request → Reply) (f : TelemetryFrame F) (now : ℕ)
      → g.qwen_api_key ≡ none
      → (process_frame tb web g net f now).0 ≡ err api_key_not_initialized
  unfolding process_frame call_qwen_api
  process_frame_no_key g net f now e = rw e refl

  logged :
      (sha256 : Bytes → Bytes) (frame_id : ℕ) (r : QwenResponse)
      → HasChoices web r
      → (log : Bytes) × (generate_execution_log sha256 frame_id r ≡ some log)
  unfolding generate_execution_log
  logged sha256 frame_id r has = elim (Option-cases (generate_execution_log sha256 frame_id r)) [
    | inl e ↦ absurd (ground (arith, has.are))
    | inr found ↦ found
  ]

  -- A response that a frame gave always has a log: the first choice, which the log indexes, is there, in
  -- live mode and offline.
  pub process_frame-log :
      {F : Type 0} (g : TeeGateway Tee) (net : Request → Reply) (f : TelemetryFrame F) (now : ℕ)
      {r : QwenResponse} (sha256 : Bytes → Bytes) (frame_id : ℕ)
      → (process_frame tb web g net f now).0 ≡ ok r
      → (log : Bytes) × (generate_execution_log sha256 frame_id r ≡ some log)
  unfolding canned_response
  process_frame-log g net f now {r} sha256 frame_id h = elim (Bool-cases g.live) [
    | inl l ↦
        let (_, _, _, answer) = process_frame-IsAnswer g net f now l h in
        logged sha256 frame_id r answer.has_choices
    | inr l ↦ elim (Option-cases g.qwen_api_key) [
      | inl e ↦ absurd (cc (sym (process_frame_no_key g net f now e) ∙ h))
      | inr (key, e) ↦
          let same : canned_response g.qwen_model (add64 g.processed_frames 1) (build_prompt f)
              ≡ r =
            cc (sym (process_frame_offline g net f now l e) ∙ h) in
          logged sha256 frame_id r
            (record { first_choice = _; other_choices = []; are = ap (λ x. x.choices) (sym same) })
    ]
  ]
