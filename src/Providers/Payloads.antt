-- ===== src/Providers/Payloads.antt =====
-- The JSON answers of the upstream, and what is kept of them. `serde_json` is a parameter: the text of an
-- error, or the value.
use mizan.Prelude.{
  ℕ, Bool, ◌&&◌, not, Option, none, some, List, [], ◌∷◌, ◌++◌, Text, codes, text_eq, trim, is_empty,
  is_some, unwrap_or, ◌⊎◌, inl, inr, if◌then◌else◌,
}
use mizan.Core.Error.{AppResult, ok, err, infrastructure, provider}
use mizan.Billing.Usage.{TokenUsage}
use mizan.Dispatch.Jobs.{ChatResponse}
use mizan.Gateway.Requests.{ChatStreamChunk}

pub record OpenAiTokenUsage : Type 0 where
  pub prompt_tokens : ℕ
  pub completion_tokens : ℕ
  pub total_tokens : ℕ
  pub estimated : Bool

pub record OpenAiChatMessage : Type 0 where
  pub content : Option Text

pub record OpenAiChoice : Type 0 where
  pub message : Option OpenAiChatMessage

pub record OpenAiChatCompletionResponse : Type 0 where
  pub model : Option Text
  pub choices : List OpenAiChoice
  pub usage : Option OpenAiTokenUsage

pub record OpenAiStreamMessage : Type 0 where
  pub content : Option Text

pub record OpenAiChunkChoice : Type 0 where
  pub index : ℕ
  pub delta : OpenAiStreamMessage
  pub finish_reason : Option Text

pub record OpenAiChatCompletionChunk : Type 0 where
  pub choices : List OpenAiChunkChoice
  pub usage : Option OpenAiTokenUsage

unfoldable pub normalize_usage : OpenAiTokenUsage → TokenUsage
normalize_usage raw_usage = record {
  prompt_tokens = raw_usage.prompt_tokens;
  completion_tokens = raw_usage.completion_tokens;
  total_tokens = raw_usage.total_tokens;
  estimated = raw_usage.estimated;
}

abbrev normalized : Option OpenAiTokenUsage → Option TokenUsage
normalized none = none
normalized (some usage) = some (normalize_usage usage)

abbrev content_of : Option OpenAiChatMessage → Text
content_of none = []
content_of (some message) = unwrap_or [] message.content

-- The first choice of a response that was decoded.
unfoldable pub first_choice :
    (model provider_name : Text)
    → OpenAiChatCompletionResponse
    → List OpenAiChoice
    → AppResult ChatResponse
unfolding normalize_usage
first_choice model provider_name response [] =
    err (provider (codes "upstream chat completion response returned no choices"))
first_choice model provider_name response (choice ∷ choices) = ok (record {
  provider = provider_name;
  model = unwrap_or model response.model;
  content = content_of choice.message;
  usage = normalized response.usage;
})

unfoldable pub parse_chat_completion_response :
    (Text → Text ⊎ OpenAiChatCompletionResponse)
    → (raw_body model provider_name : Text) → AppResult ChatResponse
unfolding first_choice
parse_chat_completion_response decode raw_body model provider_name = elim (decode raw_body) [
  | inl error ↦
      err (infrastructure (codes "failed to decode upstream chat completion response: " ++ error))
  | inr response ↦ first_choice model provider_name response response.choices
]

-- The loop over the choices: one without text and without a reason to finish is left out.
unfoldable pub kept_choices :
    Option OpenAiTokenUsage → List OpenAiChunkChoice → List ChatStreamChunk
unfolding normalize_usage
kept_choices usage [] = []
kept_choices usage (choice ∷ choices) =
    let delta = unwrap_or [] choice.delta.content in
    let rest = kept_choices usage choices in
    if is_empty delta && not (is_some choice.finish_reason)
    then rest
    else record {
      index = choice.index;
      delta = delta;
      finish_reason = choice.finish_reason;
      usage = normalized usage;
    }
      ∷ rest

-- Where no choice is left, the usage alone is a chunk.
unfoldable pub or_usage_alone :
    Option OpenAiTokenUsage → List ChatStreamChunk → List ChatStreamChunk
unfolding normalize_usage
or_usage_alone (some usage) [] =
    record { index = 0; delta = []; finish_reason = none; usage = some (normalize_usage usage) }
    ∷ []
or_usage_alone none [] = []
or_usage_alone usage (chunk ∷ chunks) = chunk ∷ chunks

unfoldable pub parse_stream_event :
    (Text → Text ⊎ OpenAiChatCompletionChunk) → Text → AppResult (List ChatStreamChunk)
unfolding kept_choices or_usage_alone
parse_stream_event decode raw_event_data =
    if text_eq (trim raw_event_data) (codes "[DONE]")
    then ok []
    else (elim (decode (trim raw_event_data)) [
      | inl error ↦ err (provider (codes "invalid upstream stream payload: " ++ error))
      | inr chunk ↦ ok (or_usage_alone chunk.usage (kept_choices chunk.usage chunk.choices))
    ])
