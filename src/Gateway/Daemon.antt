-- ===== src/Gateway/Daemon.antt =====
-- `handle_daemon_chat_completion`: the path of a model that a daemon node serves.
use mizan.Prelude.{
  ℕ, false, Option, none, some, List, [], ◌∷◌, ◌++◌, Text, codes, pos, min, max, unwrap_or,
  if◌then◌else◌,
}
use mizan.Core.Error.{
  AppError, AppResult, ok, err, app_error_status_code, error_code_from_app_error, invalid_config,
  provider,
}
use mizan.Core.Redaction.{redact_for_logs}
use mizan.Core.Context.{
  RequestContext, new_context, with_user_id, with_api_key_id, with_provider, with_request_id,
  with_trace_id, with_route, with_method, with_path, with_model, with_streaming,
}
use mizan.Wallet.{RoutePrice}
use mizan.Limits.Acquire.{LimitScope, api_key, user}
use mizan.Dispatch.Jobs.{DispatchJobInput, DispatchJobResult, succeeded, failed, timed_out}
use mizan.Dispatch.Wait.{dispatch_to_daemon_node}
use mizan.Nodes.Select.{EligibleDaemonNode, select_eligible_daemon_node}
use mizan.Gateway.Policy.{
  resolve_effective_max_tokens, estimate_admission_usage, normalize_provider_error,
}
use mizan.Gateway.State.{
  Act, GatewayCompletionLog, return, ◌>>=◌, ◌>>◌, elapsed_ms, on_queue, on_nodes,
  new_completion_log, with_route_alias, with_provider_alias, with_daemon_node_id,
  acquire_runtime_limits,
}
use mizan.Gateway.Attempt.{
  Reply, Call, public_model, Attempt, prompt_only_usage, status_of, log_completion, observe_usage,
  error_reply, refuse, preflight, upstream_error_reply, completed_reply, and_release,
}

unfoldable pub daemon_context : Call → RequestContext → EligibleDaemonNode → RequestContext
daemon_context c context node = with_streaming false (
    with_model node.model_id (
      with_path c.spec.path (
        with_method (codes "POST") (
          with_route (public_model c) (
            with_trace_id context.trace_id (
              with_request_id context.request_id (
                with_provider node.provider_family (
                  with_api_key_id c.identity.api_key_id
                    (with_user_id c.identity.user_id (new_context c.fresh.request_id))))))))))

-- A daemon's tokens cost nothing.
abbrev pub no_price : RoutePrice
no_price = record {
  input_microcredits_per_1m_tokens = pos 0;
  output_microcredits_per_1m_tokens = pos 0;
}

unfoldable pub daemon_log : Call → RequestContext → EligibleDaemonNode → GatewayCompletionLog
unfolding daemon_context
daemon_log c context node = with_daemon_node_id node.id (
    with_provider_alias (codes "mizan-daemon")
      (with_route_alias (public_model c) (new_completion_log (daemon_context c context node))))

unfoldable pub daemon_attempt : Call → RequestContext → EligibleDaemonNode → Option ℕ → Attempt
unfolding daemon_context daemon_log estimate_admission_usage
daemon_attempt c context node max_tokens = record {
  call = c;
  context = daemon_context c context node;
  completion_log = daemon_log c context node;
  request = record {
    model = node.model_id;
    messages = c.payload.messages;
    stream = false;
    max_tokens = max_tokens;
  };
  admission_usage = estimate_admission_usage c.payload.messages max_tokens;
  route_price = no_price;
  provider_id = none;
  route_id = none;
  daemon_node_id = some node.id;
}

abbrev pub daemon_scopes : Call → List LimitScope
daemon_scopes c = api_key c.identity.api_key_id ∷ user c.identity.user_id ∷ []

unfoldable pub dispatch_input : Attempt → EligibleDaemonNode → DispatchJobInput
dispatch_input a node = record {
  request_id = a.context.request_id;
  node_id = node.id;
  user_id = some a.call.identity.user_id;
  api_key_id = some a.call.identity.api_key_id;
  model = public_model a.call;
  request = a.request;
  timeout_seconds = max 1 (min a.call.config.limit_lease_seconds 30);
}

-- The wallet refuses: it is logged and observed, and nothing is metered.
unfoldable pub refuse_daemon_credit : Attempt → AppError → Act Reply
refuse_daemon_credit a error = do
  log_completion a (app_error_status_code error) (some (error_code_from_app_error error))
  latency_ms ← elapsed_ms a.call.out
  observe_usage a (prompt_only_usage a) (status_of error) latency_ms
  return (error_reply a.context (status_of error) error)

unfoldable pub refuse_daemon_admission : Attempt → AppError → Act Reply
refuse_daemon_admission a error = do
  log_completion a (app_error_status_code error) (some (error_code_from_app_error error))
  latency_ms ← elapsed_ms a.call.out
  observe_usage a a.admission_usage (app_error_status_code error) latency_ms
  return (error_reply a.context (app_error_status_code error) error)

abbrev dispatch_error : Option Text → Text → AppError
dispatch_error error_code error_message = provider (
    codes "daemon dispatch failed code="
    ++ unwrap_or (codes "daemon_error") error_code
    ++ codes " message="
    ++ redact_for_logs error_message)

abbrev timeout_error : AppError
timeout_error = provider (codes "daemon dispatch timed out")

-- No result means that the polls ran out before the clock showed the timeout, which does not happen
-- with a poll for every reading up to it; it is answered like a timeout.
unfoldable pub after_dispatch : Attempt → AppResult (Option DispatchJobResult) → Act Reply
after_dispatch a (ok (some (succeeded upstream))) = completed_reply a upstream
after_dispatch a (ok (some (failed error_code error_message))) =
    upstream_error_reply a (dispatch_error error_code error_message)
after_dispatch a (ok (some timed_out)) = upstream_error_reply a timeout_error
after_dispatch a (ok none) = upstream_error_reply a timeout_error
after_dispatch a (err error) =
    upstream_error_reply a
      (normalize_provider_error a.call.out.uuid_text error a.context (public_model a.call))

unfoldable pub after_daemon_admission :
    Attempt → EligibleDaemonNode → AppResult (List Text) → Act Reply
unfolding refuse_daemon_admission dispatch_input after_dispatch
after_daemon_admission a node (err error) = refuse_daemon_admission a error
after_daemon_admission a node (ok lease) = do
  dispatched ← on_queue (
      dispatch_to_daemon_node a.call.out.json a.call.out.waiting a.call.out.polls
        a.call.out.duplicate a.call.fresh.job_id a.call.fresh.job_created
        a.call.fresh.job_deadline_from a.call.fresh.job_finished (dispatch_input a node))
  and_release lease (after_dispatch a dispatched)

unfoldable pub after_daemon_preflight :
    Attempt → EligibleDaemonNode → AppResult (Unit {0}) → Act Reply
unfolding refuse_daemon_credit after_daemon_admission
after_daemon_preflight a node (err error) = refuse_daemon_credit a error
after_daemon_preflight a node (ok _) = do
  lease ←
      acquire_runtime_limits a.call.out a.call.config (daemon_scopes a.call)
        a.admission_usage.total_tokens
  after_daemon_admission a node lease

abbrev pub attempt_daemon : Attempt → EligibleDaemonNode → Act Reply
attempt_daemon a node = do checked ← preflight a; after_daemon_preflight a node checked

unfoldable pub with_daemon_max_tokens :
    Call → RequestContext → EligibleDaemonNode → AppResult (Option ℕ) → Act Reply
unfolding daemon_log daemon_attempt after_daemon_preflight
with_daemon_max_tokens c context node (err error) = refuse c.out (daemon_log c context node) error
with_daemon_max_tokens c context node (ok max_tokens) =
    attempt_daemon (daemon_attempt c context node max_tokens) node

unfoldable pub after_selection :
    Call → RequestContext → GatewayCompletionLog → AppResult (Option EligibleDaemonNode) → Act Reply
unfolding with_daemon_max_tokens
after_selection c context log (err error) = refuse c.out log error
after_selection c context log (ok none) =
    refuse c.out log (invalid_config c.spec.model_field (codes "model not found or disabled"))
after_selection c context log (ok (some node)) =
    with_daemon_max_tokens c context node
      (resolve_effective_max_tokens c.payload.max_tokens none c.spec.max_tokens_field)

unfoldable pub handle_daemon_chat_completion :
    Call → RequestContext → GatewayCompletionLog → Act Reply
unfolding after_selection
handle_daemon_chat_completion c context log =
    if c.payload.stream
    then refuse c.out log (
        invalid_config c.spec.stream_field
          (codes "stream is not supported for daemon-backed models yet"))
    else (do
      selected ← on_nodes (
          select_eligible_daemon_node c.out.node_json c.fresh.now (public_model c)
            c.config.daemon_stale_seconds)
      after_selection c context log selected)
