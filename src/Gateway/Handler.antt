-- ===== src/Gateway/Handler.antt =====
-- `chat_completions_impl`, which both endpoints share, from the headers to the choice of a path.
pub mod Plain
pub mod Leases
pub mod Logs
pub mod Admission
pub mod Charges
pub mod Money
use mizan.Prelude.{
  Bool, not, ◌&&◌, Option, none, some, Text, codes, is_empty, unwrap_or, if◌then◌else◌,
}
use mizan.Core.Id.{Uuid}
use mizan.Core.Error.{AppError, AppResult, ok, err, invalid_config}
use mizan.Core.Context.{
  RequestContext, new_context, with_user_id, with_api_key_id, with_request_id, with_trace_id,
  with_method, with_path, with_streaming,
}
use mizan.Gateway.Requests.{
  ChatCompletionsRequest, ResolvedModelRoute, chat_completions_spec, responses_spec,
}
use mizan.Core.Headers.{HeaderMap}
use mizan.Gateway.Policy.{parse_request_id_header, is_model_route_not_found}
use mizan.Gateway.Routes.{resolve_model_route}
use mizan.Gateway.State.{
  Act, Outside, GatewayConfig, Fresh, GatewayCompletionLog, return, ◌>>=◌, on_routes,
  new_completion_log, with_route_alias,
}
use mizan.Gateway.Attempt.{Reply, ApiKeyIdentity, Call, public_model, refuse}
use mizan.Gateway.Provider.{handle_model_route}
use mizan.Gateway.Daemon.{handle_daemon_chat_completion}

abbrev header_id : Call → Text → Option Uuid
header_id c name = parse_request_id_header c.out.parse_uuid c.headers name

unfoldable pub request_context : Call → RequestContext
request_context c =
    let request_id = unwrap_or c.fresh.request_id (header_id c (codes "x-request-id")) in
    let trace_id = unwrap_or request_id (header_id c (codes "x-trace-id")) in
    with_streaming c.payload.stream (
      with_path c.spec.path (
        with_method (codes "POST") (
          with_trace_id trace_id (
            with_request_id request_id (
              with_api_key_id c.identity.api_key_id
                (with_user_id c.identity.user_id (new_context c.fresh.request_id)))))))

abbrev pub unresolved_completion_log : Call → GatewayCompletionLog
unresolved_completion_log c =
    with_route_alias (public_model c) (new_completion_log (request_context c))

unfoldable pub after_resolution : Call → AppResult ResolvedModelRoute → Act Reply
after_resolution c (ok route) = handle_model_route c (request_context c) route
after_resolution c (err error) =
    if is_model_route_not_found error
    then handle_daemon_chat_completion c (request_context c) (unresolved_completion_log c)
    else refuse c.out (unresolved_completion_log c) error

unfoldable pub chat_completions_impl : Call → Act Reply
unfolding request_context after_resolution
chat_completions_impl c =
    if is_empty (public_model c)
    then refuse c.out (unresolved_completion_log c)
        (invalid_config c.spec.model_field (codes "model is required"))
    else if not c.spec.allow_stream && c.payload.stream
    then refuse c.out (unresolved_completion_log c)
        (invalid_config c.spec.stream_field (codes "stream is not supported for this endpoint yet"))
    else (do
      resolved ← on_routes (
          resolve_model_route c.out.decrypt c.config.provider_secret_key c.spec.model_field
            (public_model c))
      after_resolution c resolved)

module _ (out : Outside) (config : GatewayConfig) (fresh : Fresh) (identity : ApiKeyIdentity)
    (headers : HeaderMap) (payload : ChatCompletionsRequest) where
  unfoldable pub chat_completions : Act Reply
  chat_completions = chat_completions_impl (record {
    out = out;
    config = config;
    fresh = fresh;
    identity = identity;
    headers = headers;
    payload = payload;
    spec = chat_completions_spec;
  })

  unfoldable pub responses : Act Reply
  responses = chat_completions_impl (record {
    out = out;
    config = config;
    fresh = fresh;
    identity = identity;
    headers = headers;
    payload = payload;
    spec = responses_spec;
  })
