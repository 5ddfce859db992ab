-- ===== src/Gateway/Policy.antt =====
-- The decisions of the gateway that need no state: ids from headers, the tokens a request may use,
-- what it is admitted for, and how an upstream error is shown.
use mizan.Prelude.{
  ℕ, Bool, ◌&&◌, ◌||◌, Option, none, some, List, [], ◌++◌, Text, codes, text_eq, ltb, unwrap_or,
  saturating_add_u64, true, false, if◌then◌else◌,
}
use mizan.Core.Id.{Uuid}
use mizan.Core.Error.{
  AppError, AppResult, ok, err, config, invalid_config, infrastructure, io, not_found,
  limit_exceeded, provider, unauthorized, forbidden, insufficient_credit,
}
use mizan.Core.Headers.{HeaderValue, opaque_bytes, readable, HeaderMap, get_header}
use mizan.Core.Context.{RequestContext}
use mizan.Core.Redaction.{redact_for_logs}
use mizan.Billing.Usage.{ChatMessage, TokenUsage, estimate_usage}
use mizan.Gateway.Requests.{chat_completions_model_field, responses_model_field}

abbrev header_uuid : (Text → Option Uuid) → Option HeaderValue → Option Uuid
header_uuid parse none = none
header_uuid parse (some opaque_bytes) = none
header_uuid parse (some (readable value)) = parse value

-- `parse` stands for `Uuid::parse_str`.
unfoldable pub parse_request_id_header : (Text → Option Uuid) → HeaderMap → Text → Option Uuid
unfolding get_header
parse_request_id_header parse headers name = header_uuid parse (get_header headers name)

unfoldable pub resolve_effective_max_tokens : Option ℕ → Option ℕ → Text → AppResult (Option ℕ)
resolve_effective_max_tokens (some requested) (some route_limit) field =
    if ltb route_limit requested
    then err (invalid_config field (codes "max_tokens exceeds route limit"))
    else ok (some requested)
resolve_effective_max_tokens (some requested) none field = ok (some requested)
resolve_effective_max_tokens none route_limit field = ok route_limit

unfoldable pub estimate_admission_usage : List ChatMessage → Option ℕ → TokenUsage
unfolding estimate_usage
estimate_admission_usage request_messages expected_completion_tokens =
    let prompt_tokens = (estimate_usage request_messages []).prompt_tokens in
    let completion_tokens = unwrap_or 0 expected_completion_tokens in
    record {
      prompt_tokens = prompt_tokens;
      completion_tokens = completion_tokens;
      total_tokens = saturating_add_u64 prompt_tokens completion_tokens;
      estimated = true;
    }

-- The start of the message that is logged and sent; `uuid_text` prints an id.
abbrev failure_text : (Uuid → Text) → Text → RequestContext → Text → Text → Text
failure_text uuid_text kind context route_alias message =
    kind
    ++ codes " route="
    ++ route_alias
    ++ codes " provider="
    ++ unwrap_or (codes "unknown") context.provider
    ++ codes " request_id="
    ++ uuid_text context.request_id
    ++ codes ": "
    ++ message

unfoldable pub normalize_provider_error :
    (Uuid → Text) → AppError → RequestContext → Text → AppError
unfolding redact_for_logs
normalize_provider_error uuid_text (infrastructure message) context route_alias = provider (
    redact_for_logs
      (failure_text uuid_text (codes "upstream transport failure") context route_alias message))
normalize_provider_error uuid_text (provider message) context route_alias = provider (
    redact_for_logs
      (failure_text uuid_text (codes "upstream provider error") context route_alias message))
normalize_provider_error uuid_text (config key source) context route_alias = config key source
normalize_provider_error uuid_text (invalid_config key message) context route_alias =
    invalid_config key message
normalize_provider_error uuid_text (io source) context route_alias = io source
normalize_provider_error uuid_text (not_found message) context route_alias = not_found message
normalize_provider_error uuid_text (limit_exceeded message) context route_alias =
    limit_exceeded message
normalize_provider_error uuid_text unauthorized context route_alias = unauthorized
normalize_provider_error uuid_text forbidden context route_alias = forbidden
normalize_provider_error uuid_text insufficient_credit context route_alias = insufficient_credit

unfoldable pub is_model_route_not_found : AppError → Bool
is_model_route_not_found (invalid_config key message) =
    (text_eq key chat_completions_model_field || text_eq key responses_model_field)
    && text_eq message (codes "model not found or disabled")
is_model_route_not_found _ = false
