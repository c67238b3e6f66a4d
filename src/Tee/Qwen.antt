-- ===== src/Tee/Qwen.antt =====
-- The calls of the Qwen API of crates/tee-gateway/src/lib.rs. The network (reqwest) and the JSON parser
-- (serde_json) are parameters.
pub mod Answers
use sovereign_edge_tee_agent.Base.{ℕ, ◌+◌, ◌/◌, ◌==◌, Bytes, text, Bool, true, false, if◌then◌else◌}
use sovereign_edge_tee_agent.Base.{List, [], ◌∷◌, ◌++◌, length, reverse, Option, none, some}
use sovereign_edge_tee_agent.Base.Utf8.{decimal}
use sovereign_edge_tee_agent.Base.Fallible.{Fallible}
use sovereign_edge_tee_agent.Tee.Error.{
  GatewayError, qwen_api_error, Result, ok, err, or_fail, ◌>>=◌,
}

pub record QwenMessage : Type 0 where
  pub role : Bytes
  pub content : Bytes

pub record QwenChoice : Type 0 where
  pub index : ℕ
  pub message : QwenMessage
  pub finish_reason : Bytes

pub record QwenUsage : Type 0 where
  pub prompt_tokens : ℕ
  pub completion_tokens : ℕ
  pub total_tokens : ℕ

pub record QwenResponse : Type 0 where
  pub request_id : Bytes
  pub model : Bytes
  pub choices : List QwenChoice
  pub usage : QwenUsage

-- A `POST` with the body `{"model": .., "messages": [{"role": "user", "content": ..}]}`.
pub record Request : Type 0 where
  pub url : Bytes
  pub bearer : Bytes
  pub body_model : Bytes
  pub content : Bytes

-- What comes back: an error of `send`, an error of `text`, or a status and a text.
pub data Reply : Type 0 where
  not_sent : Bytes → Reply
  not_read : ℕ → Bytes → Reply
  answered : ℕ → Bytes → Reply

pub record Web : Type 1 where
  -- `is_success` of a status, and its display
  pub is_success : ℕ → Bool
  pub status_text : ℕ → Bytes
  pub Value : Type 0
  -- `from_str` to a `Value`, or the text of the error
  pub parse : Bytes → Fallible Bytes Value
  -- `v["name"]`, which is null where there is no such field
  pub field : Value → Bytes → Value
  pub as_array : Value → Option (List Value)
  pub as_str : Value → Option Bytes
  pub as_u64 : Value → Option ℕ

-- `map_err` of the parser's error.
abbrev json_or_error : {A : Type 0} → Fallible Bytes A → Result A
json_or_error (ok v) = ok v
json_or_error (err e) = err (qwen_api_error (text "bad JSON: " ++ e))

abbrev pub or_default : {A : Type 0} → Option A → A → A
or_default none a = a
or_default (some x) a = x

-- `trim_end_matches('/')`, on the reversed text.
drop_slashes : Bytes → Bytes
drop_slashes [] = []
drop_slashes (c ∷ s) = let rest = drop_slashes s in if c == 47 then rest else c ∷ s

unfoldable pub completions_url : Bytes → Bytes
unfolding drop_slashes
completions_url endpoint = reverse (drop_slashes (reverse endpoint)) ++ text "/chat/completions"

module _ (web : Web) where
  open web use {Value, field, as_str, as_u64, as_array}

  -- The closure over `enumerate`.
  unfoldable pub choices_from : ℕ → List Value → List QwenChoice
  choices_from i [] = []
  choices_from i (c ∷ cs) =
      record {
        index = i;
        message = record {
          role =
              or_default (as_str (field (field c (text "message")) (text "role")))
                (text "assistant");
          content = or_default (as_str (field (field c (text "message")) (text "content"))) [];
        };
        finish_reason = or_default (as_str (field c (text "finish_reason"))) (text "stop");
      }
      ∷ choices_from (i + 1) cs

  abbrev count : Value → Bytes → ℕ
  count v name = or_default (as_u64 (field (field v (text "usage")) name)) 0

  abbrev pub with_choices : Bytes → Value → List QwenChoice → Result QwenResponse
  with_choices model v [] = err (qwen_api_error (text "response contained no choices"))
  with_choices model v (c ∷ cs) = ok (record {
    request_id = or_default (as_str (field v (text "id"))) (text "unknown");
    model = or_default (as_str (field v (text "model"))) model;
    choices = c ∷ cs;
    usage = record {
      prompt_tokens = count v (text "prompt_tokens");
      completion_tokens = count v (text "completion_tokens");
      total_tokens = count v (text "total_tokens");
    };
  })

  -- From the text of a successful reply.
  unfoldable pub read_response : Bytes → Bytes → Result QwenResponse
  read_response model body = do
    v ← json_or_error (web.parse body)
    with_choices model v (choices_from 0 (or_default (as_array (field v (text "choices"))) []))

  unfoldable pub receive_reply : Bytes → Reply → Result QwenResponse
  receive_reply model (not_sent e) = err (qwen_api_error (text "request failed: " ++ e))
  receive_reply model (not_read status e) = err (qwen_api_error e)
  receive_reply model (answered status body) =
      if web.is_success status
      then read_response model body
      else err (qwen_api_error (text "HTTP " ++ (web.status_text status ++ (text ": " ++ body))))

-- The canned response.
unfoldable pub canned_response : Bytes → ℕ → Bytes → QwenResponse
canned_response model processed_frames prompt = record {
  request_id = text "tee-req-" ++ decimal processed_frames;
  model = model;
  choices =
      record {
        index = 0;
        message = record {
          role = text "assistant";
          content =
              text
                "{\"action\": \"MAINTAIN_COURSE\", \"confidence\": 0.92, \"reasoning\": \"Sensor readings nominal\"}";
        };
        finish_reason = text "stop";
      }
      ∷ [];
  usage = record {
    prompt_tokens = length prompt / 4;
    completion_tokens = 50;
    total_tokens = length prompt / 4 + 50;
  };
}
