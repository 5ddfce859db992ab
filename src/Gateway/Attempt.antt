-- ===== src/Gateway/Attempt.antt =====
-- One attempt to answer a request, on a provider or on a daemon node: what both paths know, the input
-- they meter, and the stages between the preflight and the response. Each stage takes the result of
-- the call before it.
use mizan.Prelude.{ℕ, Bool, Option, none, some, List, [], ◌++◌, Text, codes, as_bytes, trim}
use mizan.Core.Id.{Uuid}
use mizan.Core.Error.{
  AppError, AppResult, ok, err, ErrorEnvelope, from_app_error, app_error_status_code,
  error_code_from_app_error,
}
use mizan.Core.Context.{RequestContext}
use mizan.Wallet.{RoutePrice}
use mizan.Billing.Usage.{
  TokenUsage, BillingInput, ChatMessage, estimate_usage, ensure_sufficient_credit,
}
use mizan.Dispatch.Jobs.{ChatRequest, ChatResponse}
use mizan.Gateway.Requests.{
  Response, GatewayRequestSpec, ChatCompletionsRequest, build_error_response,
  json_chat_completion_response,
}
use mizan.Core.Headers.{HeaderMap}
use mizan.Gateway.State.{
  Act, Outside, GatewayConfig, Fresh, Chunks, GatewayCompletionLog, return, ◌>>=◌, ◌>>◌, elapsed_ms,
  on_world, record_gateway_request_completion, release_limit_lease,
  observe_gateway_metrics_with_daemon_node, meter,
}

-- The state of the stream of events, before its first event.
pub record StreamBuildState : Type 0 where
  pub upstream : Chunks
  pub completion_id : Text
  pub model : Text
  pub route_alias : Text
  pub context : RequestContext
  pub request_messages : List ChatMessage
  pub latest_usage : Option TokenUsage
  pub created : ℕ
  pub route_price : RoutePrice
  pub user_id : Uuid
  pub api_key_id : Option Uuid
  pub provider_id : Uuid
  pub route_id : Uuid
  pub emit_done : Bool
  pub limit_lease : Option (List Text)
  pub completion_log : GatewayCompletionLog

abbrev pub Reply : Type 0
Reply = Response StreamBuildState

pub record ApiKeyIdentity : Type 0 where
  pub api_key_id : Uuid
  pub user_id : Uuid

-- What the handler is called with.
pub record Call : Type 0 where
  pub out : Outside
  pub config : GatewayConfig
  pub fresh : Fresh
  pub identity : ApiKeyIdentity
  pub headers : HeaderMap
  pub payload : ChatCompletionsRequest
  pub spec : GatewayRequestSpec

abbrev pub public_model : Call → Text
public_model c = trim c.payload.model

pub record Attempt : Type 0 where
  pub call : Call
  pub context : RequestContext
  pub completion_log : GatewayCompletionLog
  pub request : ChatRequest
  pub admission_usage : TokenUsage
  pub route_price : RoutePrice
  pub provider_id : Option Uuid
  pub route_id : Option Uuid
  pub daemon_node_id : Option Uuid

unfoldable pub billing_input : Attempt → TokenUsage → (status_code latency_ms : ℕ) → BillingInput
billing_input a usage status_code latency_ms = record {
  request_id = a.context.request_id;
  user_id = a.call.identity.user_id;
  api_key_id = some a.call.identity.api_key_id;
  provider_id = a.provider_id;
  route_id = a.route_id;
  daemon_node_id = a.daemon_node_id;
  model = public_model a.call;
  usage = usage;
  status_code = status_code;
  latency_ms = latency_ms;
  route_price = a.route_price;
}

abbrev pub prompt_only_usage : Attempt → TokenUsage
prompt_only_usage a = estimate_usage a.request.messages []

abbrev pub status_of : AppError → ℕ
status_of error = (from_app_error error).0

abbrev pub envelope_of : AppError → ErrorEnvelope
envelope_of error = (from_app_error error).1

abbrev pub log_completion : Attempt → ℕ → Option Text → Act (Unit {0})
log_completion a = record_gateway_request_completion a.call.out a.completion_log

abbrev pub observe_usage : Attempt → TokenUsage → (status latency_ms : ℕ) → Act (Unit {0})
observe_usage a usage status latency_ms =
    observe_gateway_metrics_with_daemon_node a.call.out a.context (public_model a.call)
      a.daemon_node_id usage status latency_ms a.route_price

abbrev pub error_reply : RequestContext → ℕ → AppError → Reply
error_reply context status error = build_error_response context status (envelope_of error)

-- A refusal before anything is asked of the wallet: it is logged and answered.
unfoldable pub refuse : Outside → GatewayCompletionLog → AppError → Act Reply
unfolding build_error_response
refuse out log error = do
  record_gateway_request_completion out log (app_error_status_code error)
      (some (error_code_from_app_error error))
  return (error_reply log.context (app_error_status_code error) error)

unfoldable pub preflight : Attempt → Act (AppResult (Unit {0}))
preflight a = on_world (
    ensure_sufficient_credit a.call.fresh.preflight a.call.identity.user_id a.admission_usage
      a.route_price)

-- The limits refuse: nothing is metered.
unfoldable pub refuse_admission : Attempt → AppError → Act Reply
refuse_admission a error = do
  latency_ms ← elapsed_ms a.call.out
  log_completion a (app_error_status_code error) (some (error_code_from_app_error error))
  observe_usage a a.admission_usage (app_error_status_code error) latency_ms
  return (error_reply a.context (app_error_status_code error) error)

-- The upstream failed: the prompt is metered with the error's status, and a failure of that is only
-- warned of.
unfoldable pub upstream_error_reply : Attempt → AppError → Act Reply
upstream_error_reply a error = do
  latency_ms ← elapsed_ms a.call.out
  meter a.call.fresh.metering (billing_input a (prompt_only_usage a) (status_of error) latency_ms)
  observe_usage a (prompt_only_usage a) (status_of error) latency_ms
  log_completion a (status_of error) (some (error_code_from_app_error error))
  return (error_reply a.context (status_of error) error)

abbrev pub usage_or_estimate : Attempt → ChatResponse → Option TokenUsage → TokenUsage
usage_or_estimate a upstream none = estimate_usage a.request.messages (as_bytes upstream.content)
usage_or_estimate a upstream (some usage) = usage

-- After metering a completion.
unfoldable pub metered_reply :
    Attempt → ChatResponse → TokenUsage → (latency_ms : ℕ) → AppResult (Unit {0}) → Act Reply
metered_reply a upstream usage latency_ms (err error) = do
  observe_usage a usage (app_error_status_code error) latency_ms
  log_completion a (app_error_status_code error) (some (error_code_from_app_error error))
  return (error_reply a.context (app_error_status_code error) error)
metered_reply a upstream usage latency_ms (ok _) = do
  observe_usage a usage 200 latency_ms
  log_completion a 200 none
  return (
      json_chat_completion_response a.call.fresh.now
        (codes "chatcmpl-" ++ a.call.out.uuid_text a.call.fresh.completion_id) (public_model a.call)
        upstream a.context)

unfoldable pub completed_reply : Attempt → ChatResponse → Act Reply
unfolding metered_reply
completed_reply a upstream = do
  let usage = usage_or_estimate a upstream upstream.usage
  latency_ms ← elapsed_ms a.call.out
  metered ← meter a.call.fresh.metering (billing_input a usage 200 latency_ms)
  metered_reply a upstream usage latency_ms metered

-- The reply, and then the release of the lease.
unfoldable pub and_release : List Text → Act Reply → Act Reply
and_release lease m = do reply ← m; release_limit_lease (some lease); return reply
