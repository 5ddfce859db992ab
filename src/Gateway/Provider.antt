-- ===== src/Gateway/Provider.antt =====
-- The path of a model route: preflight, limits, and the call of the provider.
use mizan.Prelude.{
  ℕ, true, Option, none, some, List, [], ◌∷◌, ◌++◌, Text, codes, text_eq, to_ascii_lowercase,
  if◌then◌else◌,
}
use mizan.Core.Error.{
  AppError, AppResult, ok, err, app_error_status_code, error_code_from_app_error,
}
use mizan.Core.Context.{
  RequestContext, new_context, with_user_id, with_api_key_id, with_provider, with_request_id,
  with_trace_id, with_route, with_route_id, with_method, with_path, with_provider_id, with_model,
  with_streaming,
}
use mizan.Limits.Acquire.{LimitScope, api_key, user, provider}
use mizan.Dispatch.Jobs.{ChatResponse}
use mizan.Gateway.Requests.{ResolvedModelRoute, route_price, event_stream, attach_request_headers}
use mizan.Gateway.Policy.{
  resolve_effective_max_tokens, estimate_admission_usage, normalize_provider_error,
}
use mizan.Gateway.State.{
  Act, Chunks, return, ◌>>=◌, ◌>>◌, elapsed_ms, new_completion_log, with_route_alias,
  with_provider_alias, acquire_runtime_limits, call_provider, call_provider_stream, meter,
}
use mizan.Gateway.Attempt.{
  Reply, StreamBuildState, Call, public_model, Attempt, billing_input, prompt_only_usage, status_of,
  log_completion, observe_usage, error_reply, refuse, preflight, refuse_admission,
  upstream_error_reply, completed_reply, and_release,
}

unfoldable pub provider_context : Call → RequestContext → ResolvedModelRoute → RequestContext
provider_context c context route = with_streaming c.payload.stream (
    with_model route.upstream_model (
      with_provider_id route.provider_connection_id (
        with_path c.spec.path (
          with_method (codes "POST") (
            with_route_id route.id (
              with_route (public_model c) (
                with_trace_id context.trace_id (
                  with_request_id context.request_id (
                    with_provider route.provider_type (
                      with_api_key_id c.identity.api_key_id
                        (with_user_id c.identity.user_id (new_context c.fresh.request_id))))))))))))

unfoldable pub provider_name : ResolvedModelRoute → Text
provider_name route =
    if text_eq (to_ascii_lowercase route.provider_type) (codes "openai")
    then codes "openai"
    else codes "openai-compatible"

-- What is known once the route and the limit on the tokens are.
unfoldable pub provider_attempt : Call → RequestContext → ResolvedModelRoute → Option ℕ → Attempt
unfolding provider_context provider_name route_price estimate_admission_usage
provider_attempt c context route max_tokens =
    let own = provider_context c context route in
    record {
      call = c;
      context = own;
      completion_log =
          with_provider_alias (provider_name route)
            (with_route_alias (public_model c) (new_completion_log own));
      request = record {
        model = route.upstream_model;
        messages = c.payload.messages;
        stream = c.payload.stream;
        max_tokens = max_tokens;
      };
      admission_usage = estimate_admission_usage c.payload.messages max_tokens;
      route_price = route_price route;
      provider_id = some route.provider_connection_id;
      route_id = some route.id;
      daemon_node_id = none;
    }

abbrev pub provider_scopes : Call → ResolvedModelRoute → List LimitScope
provider_scopes c route =
    api_key c.identity.api_key_id
    ∷ user c.identity.user_id
    ∷ provider route.provider_connection_id
    ∷ []

-- The wallet refuses: the prompt is metered with the error's status, and answered.
unfoldable pub refuse_credit : Attempt → AppError → Act Reply
refuse_credit a error = do
  latency_ms ← elapsed_ms a.call.out
  log_completion a (app_error_status_code error) (some (error_code_from_app_error error))
  meter a.call.fresh.metering (billing_input a (prompt_only_usage a) (status_of error) latency_ms)
  observed_ms ← elapsed_ms a.call.out
  observe_usage a (prompt_only_usage a) (status_of error) observed_ms
  return (error_reply a.context (status_of error) error)

abbrev normalized : Attempt → AppError → AppError
normalized a error =
    normalize_provider_error a.call.out.uuid_text error a.context (public_model a.call)

-- `StreamBuildState` as `build_stream_events` fills it; its completion log has no provider alias.
unfoldable pub stream_state : Attempt → ResolvedModelRoute → List Text → Chunks → StreamBuildState
stream_state a route lease upstream = record {
  upstream = upstream;
  completion_id = codes "chatcmpl-" ++ a.call.out.uuid_text a.call.fresh.completion_id;
  model = public_model a.call;
  route_alias = public_model a.call;
  context = a.context;
  request_messages = a.request.messages;
  latest_usage = none;
  created = a.call.fresh.now;
  route_price = a.route_price;
  user_id = a.call.identity.user_id;
  api_key_id = some a.call.identity.api_key_id;
  provider_id = route.provider_connection_id;
  route_id = route.id;
  emit_done = true;
  limit_lease = some lease;
  completion_log = with_route_alias (public_model a.call) (new_completion_log a.context);
}

-- `stream_chat_completion_response`.
unfoldable pub after_stream_call :
    Attempt → ResolvedModelRoute → List Text → AppResult Chunks → Act Reply
unfolding stream_state attach_request_headers
after_stream_call a route lease (err error) =
    and_release lease (upstream_error_reply a (normalized a error))
after_stream_call a route lease (ok upstream) =
    return
      (attach_request_headers a.context 200 (event_stream (stream_state a route lease upstream)))

unfoldable pub after_call : Attempt → List Text → AppResult ChatResponse → Act Reply
after_call a lease (err error) = and_release lease (upstream_error_reply a (normalized a error))
after_call a lease (ok upstream) = and_release lease (completed_reply a upstream)

unfoldable pub after_admission : Attempt → ResolvedModelRoute → AppResult (List Text) → Act Reply
unfolding provider_name after_stream_call after_call
after_admission a route (err error) = refuse_admission a error
after_admission a route (ok lease) =
    if a.call.payload.stream
    then (do
      upstream ←
          call_provider_stream a.call.out (provider_name route) route.provider_base_url
            route.provider_api_key a.request
      after_stream_call a route lease upstream)
    else (do
      upstream ←
          call_provider a.call.out (provider_name route) route.provider_base_url
            route.provider_api_key a.request
      after_call a lease upstream)

unfoldable pub after_preflight : Attempt → ResolvedModelRoute → AppResult (Unit {0}) → Act Reply
unfolding refuse_credit after_admission
after_preflight a route (err error) = refuse_credit a error
after_preflight a route (ok _) = do
  lease ←
      acquire_runtime_limits a.call.out a.call.config (provider_scopes a.call route)
        a.admission_usage.total_tokens
  after_admission a route lease

abbrev pub attempt_provider : Attempt → ResolvedModelRoute → Act Reply
attempt_provider a route = do checked ← preflight a; after_preflight a route checked

unfoldable pub with_max_tokens :
    Call → RequestContext → ResolvedModelRoute → AppResult (Option ℕ) → Act Reply
unfolding provider_context provider_attempt after_preflight
with_max_tokens c context route (err error) =
    refuse c.out
      (with_route_alias (public_model c) (new_completion_log (provider_context c context route)))
      error
with_max_tokens c context route (ok max_tokens) =
    attempt_provider (provider_attempt c context route max_tokens) route

unfoldable pub handle_model_route : Call → RequestContext → ResolvedModelRoute → Act Reply
unfolding with_max_tokens
handle_model_route c context route =
    with_max_tokens c context route
      (resolve_effective_max_tokens c.payload.max_tokens route.max_tokens c.spec.max_tokens_field)
