-- ===== src/Gateway/Requests.antt =====
-- The two endpoints, what they take and what they give back, and the bodies of the responses.
use mizan.Prelude.{ℕ, Bool, true, false, Option, none, some, List, [], ◌∷◌, Text, codes, ℤ}
use mizan.Core.Id.{Uuid}
use mizan.Core.Error.{ErrorEnvelope}
use mizan.Core.Context.{RequestContext}
use mizan.Wallet.{RoutePrice}
use mizan.Billing.Usage.{ChatMessage, TokenUsage}
use mizan.Dispatch.Jobs.{ChatResponse}

unfoldable pub chat_completions_path : Text
chat_completions_path = codes "/v1/chat/completions"

unfoldable pub responses_path : Text
responses_path = codes "/v1/responses"

unfoldable pub chat_completions_model_field : Text
chat_completions_model_field = codes "chat_completion.model"

unfoldable pub responses_model_field : Text
responses_model_field = codes "responses.model"

pub record GatewayRequestSpec : Type 0 where
  pub path : Text
  pub kind : Text
  pub model_field : Text
  pub stream_field : Text
  pub max_tokens_field : Text
  pub allow_stream : Bool

abbrev pub chat_completions_spec : GatewayRequestSpec
chat_completions_spec = record {
  path = chat_completions_path;
  kind = codes "chat_completion";
  model_field = chat_completions_model_field;
  stream_field = codes "chat_completion.stream";
  max_tokens_field = codes "chat_completion.max_tokens";
  allow_stream = true;
}

abbrev pub responses_spec : GatewayRequestSpec
responses_spec = record {
  path = responses_path;
  kind = codes "responses";
  model_field = responses_model_field;
  stream_field = codes "responses.stream";
  max_tokens_field = codes "responses.max_tokens";
  allow_stream = false;
}

pub record ChatCompletionsRequest : Type 0 where
  pub model : Text
  pub messages : List ChatMessage
  pub stream : Bool
  pub max_tokens : Option ℕ

pub record ChatCompletionsMessage : Type 0 where
  pub role : Text
  pub content : Text

pub record ChatCompletionsChoice : Type 0 where
  pub index : ℕ
  pub message : ChatCompletionsMessage
  pub finish_reason : Text

pub record ChatCompletionsUsage : Type 0 where
  pub prompt_tokens : ℕ
  pub completion_tokens : ℕ
  pub total_tokens : ℕ

pub record ChatCompletionsResponse : Type 0 where
  pub id : Text
  pub object : Text
  pub created : ℕ
  pub model : Text
  pub choices : List ChatCompletionsChoice
  pub usage : Option ChatCompletionsUsage

pub record ChatCompletionsStreamChoice : Type 0 where
  pub index : ℕ
  pub delta : ChatCompletionsMessage
  pub finish_reason : Option Text

pub record ChatCompletionsStreamResponse : Type 0 where
  pub id : Text
  pub object : Text
  pub created : ℕ
  pub model : Text
  pub choices : List ChatCompletionsStreamChoice

-- crates/mizan-providers/src/lib.rs
pub record ChatStreamChunk : Type 0 where
  pub index : ℕ
  pub delta : Text
  pub finish_reason : Option Text
  pub usage : Option TokenUsage

pub record ResolvedModelRoute : Type 0 where
  pub id : Uuid
  pub provider_connection_id : Uuid
  pub upstream_model : Text
  pub provider_type : Text
  pub provider_base_url : Text
  pub provider_api_key : Text
  pub max_tokens : Option ℕ
  pub input_price_per_1m_tokens : ℤ
  pub output_price_per_1m_tokens : ℤ

unfoldable pub route_price : ResolvedModelRoute → RoutePrice
route_price route = record {
  input_microcredits_per_1m_tokens = route.input_price_per_1m_tokens;
  output_microcredits_per_1m_tokens = route.output_price_per_1m_tokens;
}

abbrev shown_usage : Option TokenUsage → Option ChatCompletionsUsage
shown_usage none = none
shown_usage (some usage) = some (record {
  prompt_tokens = usage.prompt_tokens;
  completion_tokens = usage.completion_tokens;
  total_tokens = usage.total_tokens;
})

-- The clock is an argument.
unfoldable pub map_to_chat_completion_response :
    (now : ℕ) → Text → Text → ChatResponse → ChatCompletionsResponse
map_to_chat_completion_response now completion_id model upstream = record {
  id = completion_id;
  object = codes "chat.completion";
  created = now;
  model = model;
  choices =
      record {
        index = 0;
        message = record { role = codes "assistant"; content = upstream.content };
        finish_reason = codes "stop";
      }
      ∷ [];
  usage = shown_usage upstream.usage;
}

unfoldable pub map_to_chat_completion_stream_response :
    Text → Text → ℕ → ChatStreamChunk → ChatCompletionsStreamResponse
map_to_chat_completion_stream_response completion_id model created upstream = record {
  id = completion_id;
  object = codes "chat.completion.chunk";
  created = created;
  model = model;
  choices =
      record {
        index = upstream.index;
        delta = record { role = codes "assistant"; content = upstream.delta };
        finish_reason = upstream.finish_reason;
      }
      ∷ [];
}

-- The body of a response: an envelope, a completion, or the events of the stream that `S` describes.
pub data Body (S : Type 0) : Type 0 where
  error_body : ErrorEnvelope → Body S
  completion_body : ChatCompletionsResponse → Body S
  event_stream : S → Body S

-- A response with the two headers of `attach_request_headers`.
pub record Response (S : Type 0) : Type 0 where
  pub status : ℕ
  pub body : Body S
  pub request_id_header : Uuid
  pub trace_id_header : Uuid

module _ {S : Type 0} where
  unfoldable pub attach_request_headers : RequestContext → ℕ → Body S → Response S
  attach_request_headers context status body = record {
    status = status;
    body = body;
    request_id_header = context.request_id;
    trace_id_header = context.trace_id;
  }

  unfoldable pub build_error_response : RequestContext → ℕ → ErrorEnvelope → Response S
  unfolding attach_request_headers
  build_error_response context status body = attach_request_headers context status (error_body body)

  unfoldable pub json_chat_completion_response :
      (now : ℕ) → Text → Text → ChatResponse → RequestContext → Response S
  unfolding attach_request_headers map_to_chat_completion_response
  json_chat_completion_response now completion_id model upstream context =
      attach_request_headers context 200
        (completion_body (map_to_chat_completion_response now completion_id model upstream))
