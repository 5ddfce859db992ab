-- ===== src/Gateway/Stream.antt =====
-- `build_stream_events`: the state machine behind the events of a streamed completion. The upstream
-- stream is the list of what it will give. A client polls for events and may go away after any of
-- them; the state is then dropped.
pub mod Ending
pub mod Metering
use mizan.Prelude.{
  ℕ, zero, suc, Bool, true, false, Option, none, some, List, [], ◌∷◌, Text, codes, if◌then◌else◌,
}
use mizan.Core.Error.{
  AppError, AppResult, ok, err, ErrorEnvelope, error_envelope, app_error_status_code,
  error_code_from_app_error,
}
use mizan.Billing.Wallets.{Draw}
use mizan.Billing.Usage.{TokenUsage, BillingInput, estimate_usage}
use mizan.Gateway.Requests.{
  ChatStreamChunk, ChatCompletionsStreamResponse, map_to_chat_completion_stream_response,
}
use mizan.Gateway.Policy.{normalize_provider_error}
use mizan.Gateway.State.{
  Act, Outside, return, ◌>>=◌, ◌>>◌, elapsed_ms, record_gateway_request_completion,
  release_limit_lease, observe_gateway_metrics_with_daemon_node, meter,
}
use mizan.Gateway.Attempt.{StreamBuildState}

pub data Event : Type 0 where
  chunk_event : ChatCompletionsStreamResponse → Event
  error_event : ErrorEnvelope → Event
  done_event : Event

unfoldable pub stream_input :
    StreamBuildState → TokenUsage → (status_code latency_ms : ℕ) → BillingInput
stream_input state usage status_code latency_ms = record {
  request_id = state.context.request_id;
  user_id = state.user_id;
  api_key_id = state.api_key_id;
  provider_id = some state.provider_id;
  route_id = some state.route_id;
  daemon_node_id = none;
  model = state.model;
  usage = usage;
  status_code = status_code;
  latency_ms = latency_ms;
  route_price = state.route_price;
}

-- `latest_usage.take().unwrap_or_else(…)`
unfoldable pub final_usage : StreamBuildState → Option TokenUsage → TokenUsage
final_usage state none = estimate_usage state.request_messages []
final_usage state (some usage) = usage

-- The state once the last event is out.
abbrev pub closed : StreamBuildState → StreamBuildState
closed state = record state { emit_done = false; latest_usage = none; limit_lease = none }

abbrev keep_usage : Option TokenUsage → Option TokenUsage → Option TokenUsage
keep_usage (some usage) latest = some usage
keep_usage none latest = latest

abbrev observe_stream :
    Outside → StreamBuildState → TokenUsage → (status latency_ms : ℕ) → Act (Unit {0})
observe_stream out state usage status latency_ms =
    observe_gateway_metrics_with_daemon_node out state.context state.route_alias none usage status
      latency_ms state.route_price

-- Metering failed: its own error is logged and sent.
unfoldable pub unmetered_event :
    Outside → StreamBuildState → TokenUsage → (latency_ms : ℕ) → AppError → Act Event
unmetered_event out state usage latency_ms error = do
  record_gateway_request_completion out state.completion_log (app_error_status_code error)
      (some (error_code_from_app_error error))
  observe_stream out state usage (app_error_status_code error) latency_ms
  release_limit_lease state.limit_lease
  return (error_event (error_envelope error))

-- Metering of the whole stream succeeded.
unfoldable pub metered_event :
    Outside
    → StreamBuildState
    → TokenUsage
    → (latency_ms status : ℕ) → Option Text
    → Event
    → Act Event
metered_event out state usage latency_ms status error_code event = do
  observe_stream out state usage status latency_ms
  record_gateway_request_completion out state.completion_log status error_code
  release_limit_lease state.limit_lease
  return event

unfoldable pub after_metering :
    Outside
    → StreamBuildState
    → TokenUsage
    → (latency_ms status : ℕ) → Option Text
    → Event
    → AppResult (Unit {0})
    → Act Event
unfolding unmetered_event metered_event
after_metering out state usage latency_ms status error_code event (err error) =
    unmetered_event out state usage latency_ms error
after_metering out state usage latency_ms status error_code event (ok _) =
    metered_event out state usage latency_ms status error_code event

-- The last event: metering with the status, and then `event`, or the error of metering.
unfoldable pub last_event :
    Outside
    → Draw
    → StreamBuildState
    → (status : ℕ) → Option Text
    → Event
    → Act (Option (Event × StreamBuildState))
unfolding final_usage stream_input after_metering
last_event out draw state status error_code event = do
  latency_ms ← elapsed_ms out
  let usage = final_usage state state.latest_usage
  metered ← meter draw (stream_input state usage status latency_ms)
  sent ← after_metering out state usage latency_ms status error_code event metered
  return (some (sent, closed state))

abbrev pub stream_error : Outside → StreamBuildState → AppError → AppError
stream_error out state error =
    normalize_provider_error out.uuid_text error state.context state.route_alias

-- One round of `unfold`, for what the upstream stream gives next.
unfoldable pub step :
    Outside
    → Draw
    → List (AppResult ChatStreamChunk)
    → StreamBuildState
    → Act (Option (Event × StreamBuildState))
unfolding last_event
step out draw [] state = last_event out draw state 200 none done_event
step out draw (ok chunk ∷ upstream) state = return (
    some (
      chunk_event (
          map_to_chat_completion_stream_response state.completion_id state.model state.created
            chunk),
      record state {
        upstream = upstream;
        latest_usage = keep_usage chunk.usage state.latest_usage;
      },
    ))
step out draw (err error ∷ upstream) state =
    let shown = stream_error out state error in
    last_event out draw (record state { upstream = upstream }) (app_error_status_code shown)
      (some (error_code_from_app_error shown)) (error_event (error_envelope shown))

unfoldable pub next_event :
    Outside → Draw → StreamBuildState → Act (Option (Event × StreamBuildState))
unfolding step
next_event out draw state =
    if state.emit_done then step out draw state.upstream state else return none

-- `Drop`
unfoldable pub drop_state : StreamBuildState → Act (Unit {0})
drop_state state = release_limit_lease state.limit_lease

-- What the client gets of a round, and of the `rest`.
abbrev pub deliver :
    StreamBuildState
    → (StreamBuildState → Act (List Event))
    → Option (Event × StreamBuildState)
    → Act (List Event)
deliver state rest none = do drop_state state; return []
deliver state rest (some (sent, state')) = do events ← rest state'; return (sent ∷ events)

-- A client that polls at most `polls` times and then goes away, with the events that it gets.
unfoldable pub serve : Outside → Draw → (polls : ℕ) → StreamBuildState → Act (List Event)
unfolding next_event
serve out draw zero state = do drop_state state; return []
serve out draw (suc polls) state = do
  event ← next_event out draw state
  deliver state (serve out draw polls) event
