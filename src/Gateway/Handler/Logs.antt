-- ===== src/Gateway/Handler/Logs.antt =====
-- Every request that is answered at once is logged once, with the status and the id of the answer.
use mizan.Prelude.{ℕ, ◌≡◌, refl, not, ◌&&◌, Option, none, some, List, Text, is_empty}
use mizan.Core.Id.{Uuid}
use mizan.Core.Error.{AppError, AppResult, ok, err, app_error_status_code}
use mizan.Core.Error.Laws.{app_error_status_code-from_app_error}
use mizan.Core.Context.{RequestContext}
use mizan.Billing.Usage.{TokenUsage}
use mizan.Dispatch.Jobs.{ChatResponse, DispatchJobResult, succeeded, failed, timed_out}
use mizan.Nodes.Select.{EligibleDaemonNode}
use mizan.Logging.{Logs, record_request_log}
use mizan.Logging.Laws.{Recorded, record_request_log-IsInserted}
use mizan.Gateway.Requests.{
  ResolvedModelRoute, Body, error_body, completion_body, event_stream, build_error_response,
  json_chat_completion_response, attach_request_headers,
}
use mizan.Gateway.Policy.{is_model_route_not_found}
use mizan.Gateway.State.{
  Gateway, Outside, Act, Chunks, GatewayCompletionLog, request_log_input,
  record_gateway_request_completion, acquire_runtime_limits, release_limit_lease,
  observe_gateway_metrics_with_daemon_node, call_provider, call_provider_stream, meter,
}
use mizan.Gateway.Attempt.{
  StreamBuildState, Reply, Call, public_model, Attempt, status_of, refuse, preflight,
  refuse_admission, upstream_error_reply, metered_reply, completed_reply, and_release,
}
use mizan.Gateway.Provider.{
  provider_context, provider_attempt, refuse_credit, after_stream_call, after_call, after_admission,
  after_preflight, with_max_tokens, handle_model_route,
}
use mizan.Gateway.Daemon.{
  daemon_context, daemon_log, daemon_attempt, refuse_daemon_credit, refuse_daemon_admission,
  after_dispatch, after_daemon_admission, after_daemon_preflight, with_daemon_max_tokens,
  after_selection, handle_daemon_chat_completion,
}
use mizan.Gateway.Handler.{request_context, after_resolution, chat_completions_impl}
use mizan.Gateway.Handler.Plain.{if_rule}

-- A stream of events is logged at its end, any other body with the reply.
abbrev pub LoggedFor : Body StreamBuildState → (status : ℕ) (id : Uuid) → (old new : Logs) → Type 0
LoggedFor (event_stream _) status id old new = new ≡ old
LoggedFor (error_body _) status id old new = Recorded status id old new
LoggedFor (completion_body _) status id old new = Recorded status id old new

-- The reply is for the id, and logged.
abbrev pub IsLogged : Uuid → Logs → Reply × Gateway → Type 0
IsLogged id old out =
    (out.0.request_id_header ≡ id) × LoggedFor out.0.body out.0.status id old out.1.logs

recorded :
    (log : GatewayCompletionLog) (ms : ℕ) (code : Option Text) (row : Uuid) (now : Text)
    (old : Logs) {status sent : ℕ} {id : Uuid}
    → status ≡ sent
    → log.context.request_id ≡ id
    → Recorded sent id old (record_request_log row now (request_log_input log status code ms) old).1
unfolding request_log_input
recorded log ms code row now old {status} same own =
    let entry = request_log_input log status code ms in
    record {
      row = row;
      now = now;
      entry = entry;
      status_is = same;
      request_is = own;
      ran = refl;
      inserted = record_request_log-IsInserted row now entry old;
    }

refuse-IsLogged :
    (out : Outside) (log : GatewayCompletionLog) (error : AppError) (g : Gateway)
    → IsLogged log.context.request_id g.logs (refuse out log error g)
unfolding refuse record_gateway_request_completion build_error_response attach_request_headers
refuse-IsLogged out log error g = (refl, recorded log _ _ _ _ _ refl refl)

-- The two tables of statuses agree.
same_status : (error : AppError) → app_error_status_code error ≡ status_of error
same_status error = app_error_status_code-from_app_error error

-- The log of an attempt is for its own request.
abbrev IsOwn : Attempt → Type 0
IsOwn a = a.completion_log.context.request_id ≡ a.context.request_id

module _ (a : Attempt) (own : IsOwn a) where
  refuse_admission-IsLogged :
      (error : AppError) (g : Gateway)
      → IsLogged a.context.request_id g.logs (refuse_admission a error g)
  unfolding refuse_admission record_gateway_request_completion
      observe_gateway_metrics_with_daemon_node build_error_response attach_request_headers
  refuse_admission-IsLogged error g = (refl, recorded a.completion_log _ _ _ _ _ refl own)

  refuse_credit-IsLogged :
      (error : AppError) (g : Gateway)
      → IsLogged a.context.request_id g.logs (refuse_credit a error g)
  unfolding refuse_credit record_gateway_request_completion observe_gateway_metrics_with_daemon_node
      meter build_error_response attach_request_headers
  refuse_credit-IsLogged error g =
      (refl, recorded a.completion_log _ _ _ _ _ (same_status error) own)

  refuse_daemon_credit-IsLogged :
      (error : AppError) (g : Gateway)
      → IsLogged a.context.request_id g.logs (refuse_daemon_credit a error g)
  unfolding refuse_daemon_credit record_gateway_request_completion
      observe_gateway_metrics_with_daemon_node build_error_response attach_request_headers
  refuse_daemon_credit-IsLogged error g =
      (refl, recorded a.completion_log _ _ _ _ _ (same_status error) own)

  refuse_daemon_admission-IsLogged :
      (error : AppError) (g : Gateway)
      → IsLogged a.context.request_id g.logs (refuse_daemon_admission a error g)
  unfolding refuse_daemon_admission record_gateway_request_completion
      observe_gateway_metrics_with_daemon_node build_error_response attach_request_headers
  refuse_daemon_admission-IsLogged error g = (refl, recorded a.completion_log _ _ _ _ _ refl own)

  upstream_error_reply-IsLogged :
      (error : AppError) (g : Gateway)
      → IsLogged a.context.request_id g.logs (upstream_error_reply a error g)
  unfolding upstream_error_reply record_gateway_request_completion
      observe_gateway_metrics_with_daemon_node meter build_error_response attach_request_headers
  upstream_error_reply-IsLogged error g = (refl, recorded a.completion_log _ _ _ _ _ refl own)

  metered_reply-IsLogged :
      (upstream : ChatResponse) (usage : TokenUsage) (ms : ℕ) (metered : AppResult (Unit {0}))
      (g : Gateway)
      → IsLogged a.context.request_id g.logs (metered_reply a upstream usage ms metered g)
  unfolding metered_reply record_gateway_request_completion observe_gateway_metrics_with_daemon_node
      build_error_response json_chat_completion_response attach_request_headers
  metered_reply-IsLogged upstream usage ms (ok _) g =
      (refl, recorded a.completion_log _ _ _ _ _ refl own)
  metered_reply-IsLogged upstream usage ms (err error) g =
      (refl, recorded a.completion_log _ _ _ _ _ refl own)

  completed_reply-IsLogged :
      (upstream : ChatResponse) (g : Gateway)
      → IsLogged a.context.request_id g.logs (completed_reply a upstream g)
  unfolding completed_reply meter
  completed_reply-IsLogged upstream g = metered_reply-IsLogged upstream _ _ _ _

  after_dispatch-IsLogged :
      (dispatched : AppResult (Option DispatchJobResult)) (g : Gateway)
      → IsLogged a.context.request_id g.logs (after_dispatch a dispatched g)
  unfolding after_dispatch
  after_dispatch-IsLogged (ok (some (succeeded upstream))) g = completed_reply-IsLogged upstream g
  after_dispatch-IsLogged (ok (some (failed _ _))) g = upstream_error_reply-IsLogged _ g
  after_dispatch-IsLogged (ok (some timed_out)) g = upstream_error_reply-IsLogged _ g
  after_dispatch-IsLogged (ok none) g = upstream_error_reply-IsLogged _ g
  after_dispatch-IsLogged (err error) g = upstream_error_reply-IsLogged _ g

  and_release-IsLogged :
      (keys : List Text) (m : Act Reply) (g : Gateway) (old : Logs)
      → IsLogged a.context.request_id old (m g)
      → IsLogged a.context.request_id old (and_release keys m g)
  unfolding and_release release_limit_lease
  and_release-IsLogged keys m g old logged = logged

  module _ (route : ResolvedModelRoute) where
    after_stream_call-IsLogged :
        (keys : List Text) (upstream : AppResult Chunks) (g : Gateway)
        → IsLogged a.context.request_id g.logs (after_stream_call a route keys upstream g)
    unfolding after_stream_call attach_request_headers
    after_stream_call-IsLogged keys (ok upstream) g = (refl, refl)
    after_stream_call-IsLogged keys (err error) g =
        and_release-IsLogged keys _ g _ (upstream_error_reply-IsLogged _ g)

    after_call-IsLogged :
        (keys : List Text) (upstream : AppResult ChatResponse) (g : Gateway)
        → IsLogged a.context.request_id g.logs (after_call a keys upstream g)
    unfolding after_call
    after_call-IsLogged keys (ok upstream) g =
        and_release-IsLogged keys _ g _ (completed_reply-IsLogged upstream g)
    after_call-IsLogged keys (err error) g =
        and_release-IsLogged keys _ g _ (upstream_error_reply-IsLogged _ g)

    after_admission-IsLogged :
        (lease : AppResult (List Text)) (g : Gateway)
        → IsLogged a.context.request_id g.logs (after_admission a route lease g)
    unfolding after_admission call_provider call_provider_stream
    after_admission-IsLogged (err error) g = refuse_admission-IsLogged error g
    after_admission-IsLogged (ok keys) g =
        if_rule (IsLogged a.context.request_id g.logs) a.call.payload.stream _ _ g
          (λ _. after_stream_call-IsLogged keys _ _) (λ _. after_call-IsLogged keys _ _)

    after_preflight-IsLogged :
        (checked : AppResult (Unit {0})) (g : Gateway)
        → IsLogged a.context.request_id g.logs (after_preflight a route checked g)
    unfolding after_preflight acquire_runtime_limits
    after_preflight-IsLogged (err error) g = refuse_credit-IsLogged error g
    after_preflight-IsLogged (ok _) g = after_admission-IsLogged _ _

  module _ (node : EligibleDaemonNode) where
    after_daemon_admission-IsLogged :
        (lease : AppResult (List Text)) (g : Gateway)
        → IsLogged a.context.request_id g.logs (after_daemon_admission a node lease g)
    unfolding after_daemon_admission
    after_daemon_admission-IsLogged (err error) g = refuse_daemon_admission-IsLogged error g
    after_daemon_admission-IsLogged (ok keys) g =
        and_release-IsLogged keys _ _ _ (after_dispatch-IsLogged _ _)

    after_daemon_preflight-IsLogged :
        (checked : AppResult (Unit {0})) (g : Gateway)
        → IsLogged a.context.request_id g.logs (after_daemon_preflight a node checked g)
    unfolding after_daemon_preflight acquire_runtime_limits
    after_daemon_preflight-IsLogged (err error) g = refuse_daemon_credit-IsLogged error g
    after_daemon_preflight-IsLogged (ok _) g = after_daemon_admission-IsLogged _ _

module _ (c : Call) where
  module _ (context : RequestContext) where
    with_max_tokens-IsLogged :
        (route : ResolvedModelRoute) (max_tokens : AppResult (Option ℕ)) (g : Gateway)
        → IsLogged context.request_id g.logs (with_max_tokens c context route max_tokens g)
    unfolding with_max_tokens preflight provider_attempt provider_context
    with_max_tokens-IsLogged route (err error) g = refuse-IsLogged c.out _ error g
    with_max_tokens-IsLogged route (ok max_tokens) g =
        after_preflight-IsLogged (provider_attempt c context route max_tokens) refl route _ _

    with_daemon_max_tokens-IsLogged :
        (node : EligibleDaemonNode) (max_tokens : AppResult (Option ℕ)) (g : Gateway)
        → IsLogged context.request_id g.logs (with_daemon_max_tokens c context node max_tokens g)
    unfolding with_daemon_max_tokens preflight daemon_attempt daemon_context daemon_log
    with_daemon_max_tokens-IsLogged node (err error) g = refuse-IsLogged c.out _ error g
    with_daemon_max_tokens-IsLogged node (ok max_tokens) g =
        after_daemon_preflight-IsLogged (daemon_attempt c context node max_tokens) refl node _ _

    module _ (log : GatewayCompletionLog) (own : log.context.request_id ≡ context.request_id) where
      refused :
          (error : AppError) (g : Gateway)
          → IsLogged context.request_id g.logs (refuse c.out log error g)
      refused error g = rw⁻¹ own (refuse-IsLogged c.out log error g)

      after_selection-IsLogged :
          (selected : AppResult (Option EligibleDaemonNode)) (g : Gateway)
          → IsLogged context.request_id g.logs (after_selection c context log selected g)
      unfolding after_selection
      after_selection-IsLogged (err error) g = refused error g
      after_selection-IsLogged (ok none) g = refused _ g
      after_selection-IsLogged (ok (some node)) g = with_daemon_max_tokens-IsLogged node _ g

      handle_daemon-IsLogged :
          (g : Gateway)
          → IsLogged context.request_id g.logs (handle_daemon_chat_completion c context log g)
      unfolding handle_daemon_chat_completion
      handle_daemon-IsLogged g =
          if_rule (IsLogged context.request_id g.logs) c.payload.stream _ _ g (λ _. refused _ g)
            (λ _. after_selection-IsLogged _ _)

  abbrev IsAnswered : Gateway → Reply × Gateway → Type 0
  IsAnswered g out = IsLogged (request_context c).request_id g.logs out

  after_resolution-IsLogged :
      (resolved : AppResult ResolvedModelRoute) (g : Gateway)
      → IsAnswered g (after_resolution c resolved g)
  unfolding after_resolution handle_model_route
  after_resolution-IsLogged (ok route) g = with_max_tokens-IsLogged (request_context c) route _ g
  after_resolution-IsLogged (err error) g =
      if_rule (IsAnswered g) (is_model_route_not_found error) _ _ g
        (λ _. handle_daemon-IsLogged (request_context c) _ refl g)
        (λ _. refuse-IsLogged c.out _ error g)

  -- Whatever path a request takes, and whatever fails on it, its reply carries the request's id. With a
  -- reply other than a stream of events, one insertion of a request log is run, with that id and the
  -- status of the reply; it adds one row, unless the latency is beyond an i64 or the database refuses the
  -- statement, and then none. With a stream none is run.
  pub chat_completions_impl-IsLogged :
      (g : Gateway) → IsLogged (request_context c).request_id g.logs (chat_completions_impl c g)
  unfolding chat_completions_impl
  chat_completions_impl-IsLogged g =
      if_rule (IsAnswered g) (is_empty (public_model c)) _ _ g (λ _. refuse-IsLogged c.out _ _ g)
        (λ _.
          if_rule (IsAnswered g) (not c.spec.allow_stream && c.payload.stream) _ _ g
            (λ _. refuse-IsLogged c.out _ _ g) (λ _. after_resolution-IsLogged _ _))
