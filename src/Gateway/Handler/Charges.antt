-- ===== src/Gateway/Handler/Charges.antt =====
-- The stages of the gateway move no money but for a completion, and keep the tables balanced.
use mizan.Prelude.{ℕ, ◌≤◌, ◌≡◌, refl, inl, inr, ◌⊎◌, Option, none, some, pos, arith}
use mizan.Core.Error.{AppError, AppResult, ok, err}
use mizan.Core.Error.Laws.{app_error_status_code-from_app_error, app_error_status_code-ge}
use mizan.Billing.Tables.{Tables}
use mizan.Billing.Database.{World}
use mizan.Billing.Balance.{deltas, IsBalanced}
use mizan.Billing.Usage.{TokenUsage, record_usage}
use mizan.Billing.Preflight.{SameMoney, SameMoney-refl}
use mizan.Billing.Uncharged.{Metered, record_usage-Metered}
use mizan.Dispatch.Jobs.{ChatResponse, DispatchJobResult, succeeded, failed, timed_out}
use mizan.Gateway.Requests.{
  build_error_response, json_chat_completion_response, attach_request_headers,
}
use mizan.Gateway.State.{
  Gateway, Outside, GatewayCompletionLog, record_gateway_request_completion,
  observe_gateway_metrics_with_daemon_node, meter,
}
use mizan.Gateway.Attempt.{
  Reply, Attempt, billing_input, status_of, refuse, refuse_admission, upstream_error_reply,
  metered_reply, completed_reply,
}
use mizan.Gateway.Provider.{refuse_credit}
use mizan.Gateway.Daemon.{refuse_daemon_credit, refuse_daemon_admission, after_dispatch}

-- The tables stay balanced, and unless the status is 200 no money moved.
abbrev pub IsFair : Tables → Reply × Gateway → Type 0
IsFair old out =
    IsBalanced out.1.world.committed × ((out.0.status ≡ 200) ⊎ SameMoney old out.1.world.committed)

-- The status of an error is that of a failed request.
status_of-ge : (error : AppError) → 400 ≤ status_of error
status_of-ge error =
    omega (arith, app_error_status_code-ge error, app_error_status_code-from_app_error error)

still :
    (old : Tables) (out : Reply × Gateway)
    → out.1.world.committed ≡ old
    → IsBalanced old
    → IsFair old out
still old out same balanced = rw same (balanced, inr (SameMoney-refl old))

pub refuse-IsFair :
    (out : Outside) (log : GatewayCompletionLog) (error : AppError) (g : Gateway)
    → IsBalanced g.world.committed
    → IsFair g.world.committed (refuse out log error g)
unfolding refuse record_gateway_request_completion build_error_response
refuse-IsFair out log error g balanced = (balanced, inr (SameMoney-refl g.world.committed))

module _ (a : Attempt) where
  -- Metering can run.
  abbrev pub CanMeter : Tables → Type 0
  CanMeter t = IsBalanced t × (deltas a.call.fresh.metering.wallet_id t.credit_ledger ≡ pos 0)

  metered :
      (usage : TokenUsage) (status ms : ℕ) (w : World)
      → CanMeter w.committed
      → Metered a.call.fresh.metering
          (billing_input a usage status ms)
          w
          (record_usage a.call.fresh.metering (billing_input a usage status ms) w)
  metered usage status ms w (balanced, fresh) =
      record_usage-Metered a.call.fresh.metering (billing_input a usage status ms) w balanced fresh

  -- Metering with the status of an error moves no money.
  metered_error :
      (usage : TokenUsage) (error : AppError) (ms : ℕ) (w : World)
      → CanMeter w.committed
      → SameMoney w.committed
          (record_usage a.call.fresh.metering
            (billing_input a usage (status_of error) ms)
            w).1.committed
  unfolding billing_input
  metered_error usage error ms w ready =
      let large = status_of-ge error in
      (metered usage (status_of error) ms w ready).free (ground arith)

  pub refuse_admission-IsFair :
      (error : AppError) (g : Gateway)
      → IsBalanced g.world.committed
      → IsFair g.world.committed (refuse_admission a error g)
  unfolding refuse_admission record_gateway_request_completion
      observe_gateway_metrics_with_daemon_node build_error_response
  refuse_admission-IsFair error g balanced = (balanced, inr (SameMoney-refl g.world.committed))

  pub refuse_daemon_credit-IsFair :
      (error : AppError) (g : Gateway)
      → IsBalanced g.world.committed
      → IsFair g.world.committed (refuse_daemon_credit a error g)
  unfolding refuse_daemon_credit record_gateway_request_completion
      observe_gateway_metrics_with_daemon_node build_error_response
  refuse_daemon_credit-IsFair error g balanced = (balanced, inr (SameMoney-refl g.world.committed))

  pub refuse_daemon_admission-IsFair :
      (error : AppError) (g : Gateway)
      → IsBalanced g.world.committed
      → IsFair g.world.committed (refuse_daemon_admission a error g)
  unfolding refuse_daemon_admission record_gateway_request_completion
      observe_gateway_metrics_with_daemon_node build_error_response
  refuse_daemon_admission-IsFair error g balanced =
      (balanced, inr (SameMoney-refl g.world.committed))

  pub refuse_credit-IsFair :
      (error : AppError) (g : Gateway)
      → CanMeter g.world.committed
      → IsFair g.world.committed (refuse_credit a error g)
  unfolding refuse_credit record_gateway_request_completion observe_gateway_metrics_with_daemon_node
      meter build_error_response
  refuse_credit-IsFair error g ready =
      ((metered _ _ _ g.world ready).balanced, inr (metered_error _ error _ g.world ready))

  pub upstream_error_reply-IsFair :
      (error : AppError) (g : Gateway)
      → CanMeter g.world.committed
      → IsFair g.world.committed (upstream_error_reply a error g)
  unfolding upstream_error_reply record_gateway_request_completion
      observe_gateway_metrics_with_daemon_node meter build_error_response
  upstream_error_reply-IsFair error g ready =
      ((metered _ _ _ g.world ready).balanced, inr (metered_error _ error _ g.world ready))

  metered_reply-IsFair :
      (upstream : ChatResponse) (usage : TokenUsage) (ms : ℕ) (result : AppResult (Unit {0}))
      (old : Tables) (g : Gateway)
      → IsBalanced g.world.committed
      → ((e : AppError) → result ≡ err e → SameMoney old g.world.committed)
      → IsFair old (metered_reply a upstream usage ms result g)
  unfolding metered_reply record_gateway_request_completion observe_gateway_metrics_with_daemon_node
      build_error_response json_chat_completion_response attach_request_headers
  metered_reply-IsFair upstream usage ms (ok _) old g balanced unpaid = (balanced, inl refl)
  metered_reply-IsFair upstream usage ms (err error) old g balanced unpaid =
      (balanced, inr (unpaid error refl))

  pub completed_reply-IsFair :
      (upstream : ChatResponse) (g : Gateway)
      → CanMeter g.world.committed
      → IsFair g.world.committed (completed_reply a upstream g)
  unfolding completed_reply meter
  completed_reply-IsFair upstream g ready =
      let m = metered _ 200 (a.call.out.elapsed g.readings) g.world ready in
      metered_reply-IsFair upstream _ _ _ _ _ m.balanced m.refused

  pub after_dispatch-IsFair :
      (dispatched : AppResult (Option DispatchJobResult)) (g : Gateway)
      → CanMeter g.world.committed
      → IsFair g.world.committed (after_dispatch a dispatched g)
  unfolding after_dispatch
  after_dispatch-IsFair (ok (some (succeeded upstream))) g ready =
      completed_reply-IsFair upstream g ready
  after_dispatch-IsFair (ok (some (failed _ _))) g ready = upstream_error_reply-IsFair _ g ready
  after_dispatch-IsFair (ok (some timed_out)) g ready = upstream_error_reply-IsFair _ g ready
  after_dispatch-IsFair (ok none) g ready = upstream_error_reply-IsFair _ g ready
  after_dispatch-IsFair (err error) g ready = upstream_error_reply-IsFair _ g ready
