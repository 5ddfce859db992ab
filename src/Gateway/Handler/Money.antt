-- ===== src/Gateway/Handler/Money.antt =====
-- A request that is not answered with a completion costs nothing, and the tables stay balanced.
use mizan.Prelude.{ℕ, ◌≡◌, refl, not, ◌&&◌, inl, inr, Option, none, some, List, Text, is_empty, pos}
use mizan.Core.Error.{AppResult, ok, err}
use mizan.Core.Context.{RequestContext}
use mizan.Billing.Tables.{Tables}
use mizan.Billing.Balance.{deltas, IsBalanced}
use mizan.Billing.Usage.{ensure_sufficient_credit}
use mizan.Billing.Preflight.{SameMoney, SameMoney-trans, ensure_sufficient_credit-Preflighted}
use mizan.Dispatch.Jobs.{ChatResponse}
use mizan.Nodes.Select.{EligibleDaemonNode}
use mizan.Gateway.Requests.{ResolvedModelRoute, attach_request_headers}
use mizan.Gateway.Policy.{is_model_route_not_found}
use mizan.Gateway.State.{
  Gateway, Act, Chunks, GatewayCompletionLog, acquire_runtime_limits, release_limit_lease,
  call_provider, call_provider_stream,
}
use mizan.Gateway.Attempt.{Reply, Call, public_model, Attempt, preflight, and_release}
use mizan.Gateway.Provider.{
  provider_attempt, after_stream_call, after_call, after_admission, after_preflight,
  with_max_tokens, handle_model_route,
}
use mizan.Gateway.Daemon.{
  daemon_attempt, after_daemon_admission, after_daemon_preflight, with_daemon_max_tokens,
  after_selection, handle_daemon_chat_completion,
}
use mizan.Gateway.Handler.{request_context, after_resolution, chat_completions_impl}
use mizan.Gateway.Handler.Plain.{if_rule}
use mizan.Gateway.Handler.Charges.{
  IsFair, CanMeter, refuse-IsFair, refuse_admission-IsFair, refuse_credit-IsFair,
  refuse_daemon_credit-IsFair, refuse_daemon_admission-IsFair, upstream_error_reply-IsFair,
  completed_reply-IsFair, after_dispatch-IsFair,
}

-- The tables are balanced, and no entry names either of the fresh wallet ids of the call.
abbrev pub IsReady : Call → Tables → Type 0
IsReady c t =
    IsBalanced t
    × (deltas c.fresh.preflight.wallet_id t.credit_ledger ≡ pos 0)
    × (deltas c.fresh.metering.wallet_id t.credit_ledger ≡ pos 0)

-- What holds since the tables `t` holds since the tables `s`, if no money moved from `s` to `t`.
IsFair-trans : (s t : Tables) (out : Reply × Gateway) → SameMoney s t → IsFair t out → IsFair s out
IsFair-trans s t out same (balanced, inl completed) = (balanced, inl completed)
IsFair-trans s t out same (balanced, inr unpaid) =
    (balanced, inr (SameMoney-trans s t _ same unpaid))

module _ (a : Attempt) where
  and_release-IsFair :
      (keys : List Text) (m : Act Reply) (g : Gateway) (old : Tables)
      → IsFair old (m g)
      → IsFair old (and_release keys m g)
  unfolding and_release release_limit_lease
  and_release-IsFair keys m g old fair = fair

  module _ (route : ResolvedModelRoute) where
    after_stream_call-IsFair :
        (keys : List Text) (upstream : AppResult Chunks) (g : Gateway)
        → CanMeter a g.world.committed
        → IsFair g.world.committed (after_stream_call a route keys upstream g)
    unfolding after_stream_call attach_request_headers
    after_stream_call-IsFair keys (ok upstream) g ready = (ready.0, inl refl)
    after_stream_call-IsFair keys (err error) g ready =
        and_release-IsFair keys _ g _ (upstream_error_reply-IsFair a _ g ready)

    after_call-IsFair :
        (keys : List Text) (upstream : AppResult ChatResponse) (g : Gateway)
        → CanMeter a g.world.committed
        → IsFair g.world.committed (after_call a keys upstream g)
    unfolding after_call
    after_call-IsFair keys (ok upstream) g ready =
        and_release-IsFair keys _ g _ (completed_reply-IsFair a upstream g ready)
    after_call-IsFair keys (err error) g ready =
        and_release-IsFair keys _ g _ (upstream_error_reply-IsFair a _ g ready)

    after_admission-IsFair :
        (lease : AppResult (List Text)) (g : Gateway)
        → CanMeter a g.world.committed
        → IsFair g.world.committed (after_admission a route lease g)
    unfolding after_admission call_provider call_provider_stream
    after_admission-IsFair (err error) g ready = refuse_admission-IsFair a error g ready.0
    after_admission-IsFair (ok keys) g ready =
        if_rule (IsFair g.world.committed) a.call.payload.stream _ _ g
          (λ _. after_stream_call-IsFair keys _ _ ready) (λ _. after_call-IsFair keys _ _ ready)

    after_preflight-IsFair :
        (checked : AppResult (Unit {0})) (g : Gateway)
        → CanMeter a g.world.committed
        → IsFair g.world.committed (after_preflight a route checked g)
    unfolding after_preflight acquire_runtime_limits
    after_preflight-IsFair (err error) g ready = refuse_credit-IsFair a error g ready
    after_preflight-IsFair (ok _) g ready = after_admission-IsFair _ _ ready

  module _ (node : EligibleDaemonNode) where
    after_daemon_admission-IsFair :
        (lease : AppResult (List Text)) (g : Gateway)
        → CanMeter a g.world.committed
        → IsFair g.world.committed (after_daemon_admission a node lease g)
    unfolding after_daemon_admission
    after_daemon_admission-IsFair (err error) g ready =
        refuse_daemon_admission-IsFair a error g ready.0
    after_daemon_admission-IsFair (ok keys) g ready =
        and_release-IsFair keys _ _ _ (after_dispatch-IsFair a _ _ ready)

    after_daemon_preflight-IsFair :
        (checked : AppResult (Unit {0})) (g : Gateway)
        → CanMeter a g.world.committed
        → IsFair g.world.committed (after_daemon_preflight a node checked g)
    unfolding after_daemon_preflight acquire_runtime_limits
    after_daemon_preflight-IsFair (err error) g ready =
        refuse_daemon_credit-IsFair a error g ready.0
    after_daemon_preflight-IsFair (ok _) g ready = after_daemon_admission-IsFair _ _ ready

  -- Anything fair that follows the preflight is fair with it.
  preflight-IsFair :
      (rest : AppResult (Unit {0}) → Act Reply) (g : Gateway)
      → IsReady a.call g.world.committed
      → ((checked : AppResult (Unit {0})) (h : Gateway)
          → CanMeter a h.world.committed
          → IsFair h.world.committed (rest checked h))
      → IsFair g.world.committed (let (checked, h) = preflight a g in rest checked h)
  unfolding preflight
  preflight-IsFair rest g (balanced, fresh, fresh') fair =
      let out =
        ensure_sufficient_credit a.call.fresh.preflight a.call.identity.user_id a.admission_usage
          a.route_price g.world in
      let h = record g { world = out.1 } in
      let checked =
        ensure_sufficient_credit-Preflighted a.call.fresh.preflight a.call.identity.user_id
          a.admission_usage a.route_price g.world balanced fresh in
      IsFair-trans g.world.committed out.1.committed (rest out.0 h) checked.same
        (fair out.0 h (checked.balanced, rw checked.same.credit_ledger fresh'))

module _ (c : Call) where
  with_max_tokens-IsFair :
      (context : RequestContext) (route : ResolvedModelRoute) (max_tokens : AppResult (Option ℕ))
      (g : Gateway)
      → IsReady c g.world.committed
      → IsFair g.world.committed (with_max_tokens c context route max_tokens g)
  unfolding with_max_tokens provider_attempt
  with_max_tokens-IsFair context route (err error) g ready = refuse-IsFair c.out _ error g ready.0
  with_max_tokens-IsFair context route (ok max_tokens) g ready =
      let a = provider_attempt c context route max_tokens in
      preflight-IsFair a (after_preflight a route) g ready (after_preflight-IsFair a route)

  with_daemon_max_tokens-IsFair :
      (context : RequestContext) (node : EligibleDaemonNode) (max_tokens : AppResult (Option ℕ))
      (g : Gateway)
      → IsReady c g.world.committed
      → IsFair g.world.committed (with_daemon_max_tokens c context node max_tokens g)
  unfolding with_daemon_max_tokens daemon_attempt
  with_daemon_max_tokens-IsFair context node (err error) g ready =
      refuse-IsFair c.out _ error g ready.0
  with_daemon_max_tokens-IsFair context node (ok max_tokens) g ready =
      let a = daemon_attempt c context node max_tokens in
      preflight-IsFair a (after_daemon_preflight a node) g ready
        (after_daemon_preflight-IsFair a node)

  after_selection-IsFair :
      (context : RequestContext) (log : GatewayCompletionLog)
      (selected : AppResult (Option EligibleDaemonNode)) (g : Gateway)
      → IsReady c g.world.committed
      → IsFair g.world.committed (after_selection c context log selected g)
  unfolding after_selection
  after_selection-IsFair context log (err error) g ready = refuse-IsFair c.out log error g ready.0
  after_selection-IsFair context log (ok none) g ready = refuse-IsFair c.out log _ g ready.0
  after_selection-IsFair context log (ok (some node)) g ready =
      with_daemon_max_tokens-IsFair context node _ g ready

  handle_daemon-IsFair :
      (context : RequestContext) (log : GatewayCompletionLog) (g : Gateway)
      → IsReady c g.world.committed
      → IsFair g.world.committed (handle_daemon_chat_completion c context log g)
  unfolding handle_daemon_chat_completion
  handle_daemon-IsFair context log g ready =
      if_rule (IsFair g.world.committed) c.payload.stream _ _ g
        (λ _. refuse-IsFair c.out log _ g ready.0)
        (λ _. after_selection-IsFair context log _ _ ready)

  after_resolution-IsFair :
      (resolved : AppResult ResolvedModelRoute) (g : Gateway)
      → IsReady c g.world.committed
      → IsFair g.world.committed (after_resolution c resolved g)
  unfolding after_resolution handle_model_route
  after_resolution-IsFair (ok route) g ready =
      with_max_tokens-IsFair (request_context c) route _ g ready
  after_resolution-IsFair (err error) g ready =
      if_rule (IsFair g.world.committed) (is_model_route_not_found error) _ _ g
        (λ _. handle_daemon-IsFair _ _ g ready) (λ _. refuse-IsFair c.out _ error g ready.0)

  -- Over balanced tables and two fresh wallet ids, whatever path a request takes and whatever fails on it:
  -- the tables are balanced when it is answered, and if the status of the reply is not 200, the ledger
  -- and the balance of every user are what they were.
  pub chat_completions_impl-IsFair :
      (g : Gateway)
      → IsReady c g.world.committed
      → IsFair g.world.committed (chat_completions_impl c g)
  unfolding chat_completions_impl
  chat_completions_impl-IsFair g ready =
      if_rule (IsFair g.world.committed) (is_empty (public_model c)) _ _ g
        (λ _. refuse-IsFair c.out _ _ g ready.0)
        (λ _.
          if_rule (IsFair g.world.committed) (not c.spec.allow_stream && c.payload.stream) _ _ g
            (λ _. refuse-IsFair c.out _ _ g ready.0) (λ _. after_resolution-IsFair _ _ ready))
