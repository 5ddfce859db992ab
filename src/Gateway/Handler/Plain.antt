-- ===== src/Gateway/Handler/Plain.antt =====
-- The stages of the gateway that leave the store of the limits and the provider alone.
use mizan.Prelude.{ℕ, ◌≡◌, refl, Bool, true, false, Option, none, some, List, Text, if◌then◌else◌}
use mizan.Core.Error.{AppError, AppResult, ok, err}
use mizan.Billing.Usage.{TokenUsage}
use mizan.Dispatch.Jobs.{ChatResponse, DispatchJobResult, succeeded, failed, timed_out}
use mizan.Gateway.Requests.{
  Body, error_body, completion_body, event_stream, build_error_response,
  json_chat_completion_response, attach_request_headers,
}
use mizan.Gateway.State.{
  Gateway, Outside, Act, GatewayCompletionLog, record_gateway_request_completion,
  observe_gateway_metrics_with_daemon_node, meter,
}
use mizan.Gateway.Attempt.{
  StreamBuildState, Reply, Attempt, refuse, refuse_admission, upstream_error_reply, metered_reply,
  completed_reply,
}
use mizan.Gateway.Provider.{refuse_credit}
use mizan.Gateway.Daemon.{refuse_daemon_credit, refuse_daemon_admission, after_dispatch}

-- The lease that a body still holds.
abbrev pub pending_lease : Body StreamBuildState → Option (List Text)
pending_lease (error_body _) = none
pending_lease (completion_body _) = none
pending_lease (event_stream state) = state.limit_lease

-- A stage that leaves the store of the limits and the provider alone, and gives a reply without a
-- lease.
abbrev pub IsPlain : Gateway → Reply × Gateway → Type 0
IsPlain g out =
    (pending_lease out.0.body ≡ none)
    × (out.1.redis ≡ g.redis)
    × (out.1.upstream_calls ≡ g.upstream_calls)

pub refuse-IsPlain :
    (out : Outside) (log : GatewayCompletionLog) (error : AppError) (g : Gateway)
    → IsPlain g (refuse out log error g)
unfolding refuse record_gateway_request_completion build_error_response
refuse-IsPlain out log error g = (refl, refl, refl)

module _ (a : Attempt) where
  pub refuse_admission-IsPlain :
      (error : AppError) (g : Gateway) → IsPlain g (refuse_admission a error g)
  unfolding refuse_admission record_gateway_request_completion
      observe_gateway_metrics_with_daemon_node build_error_response
  refuse_admission-IsPlain error g = (refl, refl, refl)

  pub refuse_credit-IsPlain : (error : AppError) (g : Gateway) → IsPlain g (refuse_credit a error g)
  unfolding refuse_credit record_gateway_request_completion observe_gateway_metrics_with_daemon_node
      meter build_error_response
  refuse_credit-IsPlain error g = (refl, refl, refl)

  pub refuse_daemon_credit-IsPlain :
      (error : AppError) (g : Gateway) → IsPlain g (refuse_daemon_credit a error g)
  unfolding refuse_daemon_credit record_gateway_request_completion
      observe_gateway_metrics_with_daemon_node build_error_response
  refuse_daemon_credit-IsPlain error g = (refl, refl, refl)

  pub refuse_daemon_admission-IsPlain :
      (error : AppError) (g : Gateway) → IsPlain g (refuse_daemon_admission a error g)
  unfolding refuse_daemon_admission record_gateway_request_completion
      observe_gateway_metrics_with_daemon_node build_error_response
  refuse_daemon_admission-IsPlain error g = (refl, refl, refl)

  pub upstream_error_reply-IsPlain :
      (error : AppError) (g : Gateway) → IsPlain g (upstream_error_reply a error g)
  unfolding upstream_error_reply record_gateway_request_completion
      observe_gateway_metrics_with_daemon_node meter build_error_response
  upstream_error_reply-IsPlain error g = (refl, refl, refl)

  pub metered_reply-IsPlain :
      (upstream : ChatResponse) (usage : TokenUsage) (ms : ℕ) (metered : AppResult (Unit {0}))
      (g : Gateway)
      → IsPlain g (metered_reply a upstream usage ms metered g)
  unfolding metered_reply record_gateway_request_completion observe_gateway_metrics_with_daemon_node
      build_error_response json_chat_completion_response attach_request_headers
  metered_reply-IsPlain upstream usage ms (ok _) g = (refl, refl, refl)
  metered_reply-IsPlain upstream usage ms (err error) g = (refl, refl, refl)

  pub completed_reply-IsPlain :
      (upstream : ChatResponse) (g : Gateway) → IsPlain g (completed_reply a upstream g)
  unfolding completed_reply meter
  completed_reply-IsPlain upstream g = metered_reply-IsPlain upstream _ _ _ _

  pub after_dispatch-IsPlain :
      (dispatched : AppResult (Option DispatchJobResult)) (g : Gateway)
      → IsPlain g (after_dispatch a dispatched g)
  unfolding after_dispatch
  after_dispatch-IsPlain (ok (some (succeeded upstream))) g = completed_reply-IsPlain upstream g
  after_dispatch-IsPlain (ok (some (failed _ _))) g = upstream_error_reply-IsPlain _ g
  after_dispatch-IsPlain (ok (some timed_out)) g = upstream_error_reply-IsPlain _ g
  after_dispatch-IsPlain (ok none) g = upstream_error_reply-IsPlain _ g
  after_dispatch-IsPlain (err error) g = upstream_error_reply-IsPlain _ g

-- What holds of both branches holds of a test.
pub if_rule :
    (Q : Reply × Gateway → Type 0) (b : Bool) (m n : Act Reply) (g : Gateway)
    → (b ≡ true → Q (m g))
    → (b ≡ false → Q (n g))
    → Q ((if b then m else n) g)
if_rule Q true m n g then_holds else_holds = then_holds refl
if_rule Q false m n g then_holds else_holds = else_holds refl
