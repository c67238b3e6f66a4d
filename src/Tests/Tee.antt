-- ===== src/Tests/Tee.antt =====
-- The gateway on concrete data.
use sovereign_edge_tee_agent.Base.{
  ℕ, ◌≡◌, ◌≢◌, ◌⊎◌, refl, Bytes, text, true, false, [], ◌∷◌, none, some, length, leb,
}
use sovereign_edge_tee_agent.Base.Utf8.{decimal, from_utf8_lossy}
use sovereign_edge_tee_agent.Base.Fallible.{Fallible}
use sovereign_edge_tee_agent.Common.{TelemetryFrame, default_metadata}
use sovereign_edge_tee_agent.Tee.Error.{unsealing_failed, qwen_api_error, ok, err}
use sovereign_edge_tee_agent.Tee.Backend.{
  SimulatedTee, simulated, new_simulated, simulated_seal, simulated_attest, mask, seal, unseal,
  verify_attestation, new_storage,
}
use sovereign_edge_tee_agent.Tee.Qwen.{
  Web, Request, Reply, answered, QwenResponse, receive_reply, read_response, choices_from,
}
use sovereign_edge_tee_agent.Tee.Qwen.Answers.{IsAnswer}
use sovereign_edge_tee_agent.Tee.Gateway.{
  TeeGateway, new, new_live, initialize, call_qwen_api, process_frame, is_initialized,
}
use sovereign_edge_tee_agent.Tee.Gateway.Laws.{initialize-unseal}
use sovereign_edge_tee_agent.Tee.Gateway.Answers.{request_for, process_frame-IsAnswer}
use sovereign_edge_tee_agent.Tee.Gateway.Reach.{
  Reached, starts_live, calls, initializes, processes, IsSound, Reached-IsSound,
}

abbrev pub digest : Bytes → Bytes
digest bs = length bs ∷ []

abbrev parse_length : Bytes → Fallible Bytes ℕ
parse_length [] = err (text "empty")
parse_length (b ∷ bs) = ok (length bs)

-- A value is a number, which is an array of itself.
abbrev pub numbers_web : Web
numbers_web = record {
  is_success = λ s. leb 200 s;
  status_text = decimal;
  Value = ℕ;
  parse = parse_length;
  field = λ v name. v;
  as_array = λ v. some (v ∷ v ∷ []);
  as_str = λ v. none;
  as_u64 = λ v. some v;
}

abbrev pub frame : TelemetryFrame ℕ
frame = record {
  frame_id = 7;
  source_ip = text "10.0.0.1";
  dest_ip = none;
  timestamp_ns = 0;
  payload = text "t=21";
  metadata = default_metadata;
}

abbrev fresh : TeeGateway SimulatedTee
fresh = new_live (simulated digest) new_simulated (text "https://host/v1/") (text "qwen-plus")

abbrev pub ready : TeeGateway SimulatedTee
ready = elim (initialize (simulated digest) fresh (text "token") true) [
  | none ↦ fresh
  | some (r, g) ↦ g
]

abbrev pub reply : Request → Reply
reply request = answered 200 (text "{}")

abbrev refuses : Request → Reply
refuses request = answered 100 (text "no")

ready_key : ready.qwen_api_key ≡ some (text "token")
unfolding initialize verify_attestation seal simulated_attest simulated_seal new_live new
    new_storage from_utf8_lossy
ready_key = refl

ready_live : ready.live ≡ true
unfolding initialize verify_attestation seal simulated_attest simulated_seal new_live new
ready_live = refl

-- `test_sealed_storage`: the key is 13 20 27 ..
sealed : mask new_simulated.encryption_key 0 (text "sk") ≡ 126 ∷ 127 ∷ []
unfolding mask new_simulated
sealed = refl

abbrev given : QwenResponse
given = record {
  request_id = text "unknown";
  model = text "qwen-plus";
  choices = choices_from numbers_web 0 (1 ∷ 1 ∷ []);
  usage = record { prompt_tokens = 1; completion_tokens = 1; total_tokens = 1 };
}

responds : (process_frame (simulated digest) numbers_web ready reply frame 5).0 ≡ ok given
unfolding process_frame call_qwen_api choices_from receive_reply read_response initialize
    verify_attestation seal simulated_attest simulated_seal new_live new new_storage
responds = refl

refused :
    (process_frame (simulated digest) numbers_web ready refuses frame 5).0
    ≡ err (qwen_api_error (text "HTTP 100: no"))
unfolding process_frame call_qwen_api receive_reply initialize verify_attestation seal
    simulated_attest simulated_seal new_live new new_storage decimal
refused = refl

initialize-unseal_example :
    (initialize (simulated digest) fresh (text "key") false ≡ none)
    × (g : TeeGateway SimulatedTee) × (initialize (simulated digest) fresh (text "key") true
        ≡ some (ok tt, g))
    × (is_initialized (simulated digest) g ≡ true)
    × (g.qwen_api_key ≡ some (from_utf8_lossy (text "key")))
    × (g.http_client ≡ true)
    × (((text "key" ≢ []) × (unseal (simulated digest) g.storage ≡ ok (text "key")))
        ⊎ ((text "key" ≡ [])
            × (unseal (simulated digest) g.storage
                ≡ err (unsealing_failed (text "No sealed data available")))))
initialize-unseal_example = initialize-unseal digest fresh (text "key")

process_frame-IsAnswer_example :
    (key : Bytes) × (ready.qwen_api_key ≡ some key)
    × (ready.http_client ≡ true)
    × IsAnswer numbers_web ready.qwen_model
        (reply (request_for (simulated digest) numbers_web ready frame key))
        given
process_frame-IsAnswer_example =
    process_frame-IsAnswer (simulated digest) numbers_web ready reply frame 5 ready_live responds

started : initialize (simulated digest) fresh (text "token") true ≡ some (ok tt, ready)
unfolding initialize verify_attestation seal simulated_attest simulated_seal
started = refl

reached :
    Reached
      (simulated digest)
      numbers_web
      ℕ
      (process_frame (simulated digest) numbers_web ready reply frame 5).1
reached =
    calls
      (calls (starts_live new_simulated (text "https://host/v1/") (text "qwen-plus"))
        (initializes (text "token") true started))
      (processes reply frame 5)

Reached-IsSound_example :
    IsSound
      (simulated digest)
      numbers_web
      ℕ
      (process_frame (simulated digest) numbers_web ready reply frame 5).1
Reached-IsSound_example = Reached-IsSound (simulated digest) numbers_web ℕ reached
