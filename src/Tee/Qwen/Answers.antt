-- ===== src/Tee/Qwen/Answers.antt =====
-- What a reply must be for a response to come of it, and what the response has of it.
use sovereign_edge_tee_agent.Base.{
  ℕ, zero, suc, ◌+◌, ◌≡◌, ◌⊎◌, refl, arith, Bytes, text, true, List, [], ◌∷◌, Option, none, some,
  length, get_elem?, inl, inr, Bool-cases, Option-cases,
}
use sovereign_edge_tee_agent.Tee.Error.{Result, ok, err}
use sovereign_edge_tee_agent.Base.Fallible.{Fallible}
use sovereign_edge_tee_agent.Tee.Qwen.{
  Web, Reply, answered, not_sent, not_read, QwenResponse, QwenChoice, with_choices, or_default,
  choices_from, read_response, receive_reply,
}

-- A value that was read, or the default where there was none.
abbrev pub IsReadOr : {A : Type 0} → A → Option A → A → Type 0
IsReadOr default read x = (read ≡ some x) ⊎ ((read ≡ none) × (x ≡ default))

or_default_lem :
    {A : Type 0} (read : Option A) (default : A) → IsReadOr default read (or_default read default)
or_default_lem none default = inr (refl, refl)
or_default_lem (some x) default = inl refl

ok_injective : {A : Type 0} {a b : A} → Path (Result A) (ok a) (ok b) → a ≡ b
ok_injective e = cc e

module _ (web : Web) where
  open web use {Value, field, as_array, as_str, as_u64}

  -- The choice at a position is what the element there has.
  pub record IsChoice (i : ℕ) (v : Value) (choice : QwenChoice) : Type 0 where
    pub at : choice.index ≡ i
    pub role :
        IsReadOr
          (text "assistant")
          (as_str (field (field v (text "message")) (text "role")))
          choice.message.role
    pub content :
        IsReadOr []
          (as_str (field (field v (text "message")) (text "content")))
          choice.message.content
    pub finish_reason :
        IsReadOr (text "stop") (as_str (field v (text "finish_reason"))) choice.finish_reason

  -- The response has these choices, and there is one.
  pub record HasChoices (r : QwenResponse) : Type 0 where
    pub first_choice : QwenChoice
    pub other_choices : List QwenChoice
    pub are : r.choices ≡ first_choice ∷ other_choices

  -- As many choices as elements, at each position that of the element there.
  abbrev pub AreChoices : List Value → List QwenChoice → Type 0
  AreChoices elements choices =
      (length choices ≡ length elements)
      × ((i : ℕ) (v : Value)
          → get_elem? elements i ≡ some v
          → (x : QwenChoice) × (get_elem? choices i ≡ some x) × IsChoice i v x)

  length-choices_from : (i : ℕ) (vs : List Value) → length (choices_from web i vs) ≡ length vs
  unfolding choices_from
  length-choices_from i [] = refl
  length-choices_from i (v ∷ vs) = omega (arith, length-choices_from (i + 1) vs)

  choices_from-IsChoice :
      (i : ℕ) (vs : List Value) (k at : ℕ) (v : Value)
      → i + k ≡ at
      → get_elem? vs k ≡ some v
      → (x : QwenChoice) × (get_elem? (choices_from web i vs) k ≡ some x) × IsChoice at v x
  unfolding choices_from
  choices_from-IsChoice i [] k at v here e = absurd (cc)
  choices_from-IsChoice i (u ∷ vs) zero at v here e =
      let same : u ≡ v = cc e in
      (
        _,
        refl,
        rw (← same) (record {
          at = omega arith;
          role = or_default_lem _ _;
          content = or_default_lem _ _;
          finish_reason = or_default_lem _ _;
        }),
      )
  choices_from-IsChoice i (u ∷ vs) (suc k) at v here e =
      choices_from-IsChoice (i + 1) vs k at v (omega arith) e

  -- How the response came from the reply, and all that it has of it.
  pub record IsAnswer (model : Bytes) (reply : Reply) (r : QwenResponse) : Type 0 where
    pub status : ℕ
    pub body : Bytes
    pub value : Value
    pub elements : List Value
    pub is_answer : reply ≡ answered status body
    pub success : web.is_success status ≡ true
    pub parsed : web.parse body ≡ ok value
    pub listed : as_array (field value (text "choices")) ≡ some elements
    pub choices : AreChoices elements r.choices
    pub has_choices : HasChoices r
    pub request_id : IsReadOr (text "unknown") (as_str (field value (text "id"))) r.request_id
    pub model_name : IsReadOr model (as_str (field value (text "model"))) r.model
    pub prompt_tokens :
        IsReadOr 0
          (as_u64 (field (field value (text "usage")) (text "prompt_tokens")))
          r.usage.prompt_tokens
    pub completion_tokens :
        IsReadOr 0
          (as_u64 (field (field value (text "usage")) (text "completion_tokens")))
          r.usage.completion_tokens
    pub total_tokens :
        IsReadOr 0
          (as_u64 (field (field value (text "usage")) (text "total_tokens")))
          r.usage.total_tokens

  with_choices-IsAnswer :
      (model body : Bytes) (status : ℕ) (v : Value) (elements : List Value) {r : QwenResponse}
      (cs : List QwenChoice)
      → web.parse body ≡ ok v
      → web.is_success status ≡ true
      → as_array (field v (text "choices")) ≡ some elements
      → AreChoices elements cs
      → with_choices web model v cs ≡ ok r
      → IsAnswer model (answered status body) r
  with_choices-IsAnswer model body status v elements [] e s l are h = absurd (cc)
  with_choices-IsAnswer model body status v elements {r} (c ∷ cs) e s l are h =
      rw (← ok_injective h) (record {
        status = status;
        body = body;
        value = v;
        elements = elements;
        is_answer = refl;
        success = s;
        parsed = e;
        listed = l;
        choices = are;
        has_choices = record { first_choice = c; other_choices = cs; are = refl };
        request_id = or_default_lem _ _;
        model_name = or_default_lem _ _;
        prompt_tokens = or_default_lem _ _;
        completion_tokens = or_default_lem _ _;
        total_tokens = or_default_lem _ _;
      })

  read_ok :
      (model body : Bytes) (status : ℕ) (m : Fallible Bytes Value) {r : QwenResponse}
      → web.parse body ≡ m
      → web.is_success status ≡ true
      → read_response web model body ≡ ok r
      → IsAnswer model (answered status body) r
  unfolding read_response choices_from
  read_ok model body status (err t) e s h = absurd (ground arith)
  read_ok model body status (ok v) e s h =
      elim (Option-cases (as_array (field v (text "choices")))) [
        | inl l ↦ absurd (ground arith)
        | inr (elements, l) ↦
            with_choices-IsAnswer model body status v elements (choices_from web 0 elements) e s l
              (
                length-choices_from 0 elements,
                (λ i u. choices_from-IsChoice 0 elements i i u (omega arith)),
              )
              (ground arith)
      ]

  pub receive_reply-IsAnswer :
      (model : Bytes) (reply : Reply) {r : QwenResponse}
      → receive_reply web model reply ≡ ok r
      → IsAnswer model reply r
  unfolding receive_reply
  receive_reply-IsAnswer model (not_sent e) h = absurd (cc)
  receive_reply-IsAnswer model (not_read status e) h = absurd (cc)
  receive_reply-IsAnswer model (answered status body) h =
      elim (Bool-cases (web.is_success status)) [
        | inl s ↦ read_ok model body status (web.parse body) refl s (ground arith)
        | inr s ↦ absurd (ground arith)
      ]
