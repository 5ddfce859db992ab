-- ===== src/Gateway/Handler/Leases.antt =====
-- No path through the handler keeps a concurrency slot: what the limits took is given back, at once or
-- by the stream of events.
use mizan.Prelude.{
  ℕ, ◌≡◌, refl, ap, ◌∙◌, not, ◌&&◌, inl, inr, Option, none, some, List, [], Text, arith, is_empty,
}
use mizan.Core.Id.{Uuid}
use mizan.Core.Error.{AppResult, ok, err, result-cases}
use mizan.Core.Context.{RequestContext}
use mizan.Limits.Redis.{Redis}
use mizan.Limits.Acquire.{LimitScope, RuntimeLimitPolicy, check_and_acquire, release}
use mizan.Limits.Leases.{taken}
use mizan.Limits.Admission.{kept, check_and_acquire-taken, release-check_and_acquire}
use mizan.Dispatch.Jobs.{ChatResponse}
use mizan.Nodes.Select.{EligibleDaemonNode}
use mizan.Gateway.Requests.{ResolvedModelRoute, attach_request_headers}
use mizan.Gateway.Policy.{is_model_route_not_found}
use mizan.Gateway.State.{
  Gateway, Act, Chunks, GatewayCompletionLog, acquire_runtime_limits, release_limit_lease,
  call_provider, call_provider_stream,
}
use mizan.Gateway.Attempt.{
  Reply, Call, public_model, Attempt, refuse, preflight, refuse_admission, and_release,
}
use mizan.Gateway.Provider.{
  refuse_credit, stream_state, after_stream_call, after_call, after_admission, after_preflight,
  provider_attempt, with_max_tokens, handle_model_route,
}
use mizan.Gateway.Daemon.{
  refuse_daemon_credit, refuse_daemon_admission, after_daemon_admission, daemon_attempt,
  after_daemon_preflight, with_daemon_max_tokens, after_selection, handle_daemon_chat_completion,
}
use mizan.Gateway.Handler.{request_context, after_resolution, chat_completions_impl}
use mizan.Gateway.Handler.Plain.{
  pending_lease, IsPlain, if_rule, refuse-IsPlain, refuse_admission-IsPlain, refuse_credit-IsPlain,
  refuse_daemon_credit-IsPlain, refuse_daemon_admission-IsPlain, upstream_error_reply-IsPlain,
  completed_reply-IsPlain, after_dispatch-IsPlain,
}
use mizan.Gateway.Stream.Ending.{released}

module _ (uuid_text : Uuid → Text) (scope : LimitScope) where
  -- Once the lease that the reply holds is released, the counter of the scope is what it was.
  abbrev pub GivesBack : Redis → Reply × Gateway → Type 0
  GivesBack r out =
      taken uuid_text scope (released (pending_lease out.0.body) out.1.redis)
      ≡ taken uuid_text scope r

  -- What the limits took is in the lease.
  abbrev IsLeased : Redis → AppResult (List Text) × Redis → Type 0
  IsLeased r (ok keys, s) = taken uuid_text scope (release keys s).1 ≡ taken uuid_text scope r
  IsLeased r (err error, s) = taken uuid_text scope s ≡ taken uuid_text scope r

  IsPlain-GivesBack : (m : Act Reply) (g : Gateway) → IsPlain g (m g) → GivesBack g.redis (m g)
  IsPlain-GivesBack m g (none_left, same, _) = rw (none_left, same) refl

  -- A reply that is given before the lease is released.
  and_release-GivesBack :
      (r : Redis) (keys : List Text) (m : Act Reply) (g : Gateway)
      → IsLeased r (ok keys, g.redis)
      → IsPlain g (m g)
      → GivesBack r (and_release keys m g)
  unfolding and_release release_limit_lease
  and_release-GivesBack r keys m g leased (none_left, same, _) = rw (none_left, same) leased

  module _ (a : Attempt) where
    module _ (route : ResolvedModelRoute) where
      after_stream_call-GivesBack :
          (r : Redis) (keys : List Text) (upstream : AppResult Chunks) (g : Gateway)
          → IsLeased r (ok keys, g.redis)
          → GivesBack r (after_stream_call a route keys upstream g)
      unfolding after_stream_call stream_state attach_request_headers
      after_stream_call-GivesBack r keys (ok upstream) g leased = leased
      after_stream_call-GivesBack r keys (err error) g leased =
          and_release-GivesBack r keys _ g leased (upstream_error_reply-IsPlain a _ g)

      after_call-GivesBack :
          (r : Redis) (keys : List Text) (upstream : AppResult ChatResponse) (g : Gateway)
          → IsLeased r (ok keys, g.redis)
          → GivesBack r (after_call a keys upstream g)
      unfolding after_call
      after_call-GivesBack r keys (ok upstream) g leased =
          and_release-GivesBack r keys _ g leased (completed_reply-IsPlain a upstream g)
      after_call-GivesBack r keys (err error) g leased =
          and_release-GivesBack r keys _ g leased (upstream_error_reply-IsPlain a _ g)

      after_admission-GivesBack :
          (r : Redis) (lease : AppResult (List Text)) (g : Gateway)
          → IsLeased r (lease, g.redis)
          → GivesBack r (after_admission a route lease g)
      unfolding after_admission call_provider call_provider_stream
      after_admission-GivesBack r (err error) g leased =
          IsPlain-GivesBack (refuse_admission a error) g (refuse_admission-IsPlain a error g)
          ∙ leased
      after_admission-GivesBack r (ok keys) g leased =
          if_rule (GivesBack r) a.call.payload.stream _ _ g
            (λ _. after_stream_call-GivesBack r keys _ _ leased)
            (λ _. after_call-GivesBack r keys _ _ leased)

    after_daemon_admission-GivesBack :
        (node : EligibleDaemonNode) (r : Redis) (lease : AppResult (List Text)) (g : Gateway)
        → IsLeased r (lease, g.redis)
        → GivesBack r (after_daemon_admission a node lease g)
    unfolding after_daemon_admission
    after_daemon_admission-GivesBack node r (err error) g leased =
        IsPlain-GivesBack (refuse_daemon_admission a error) g
          (refuse_daemon_admission-IsPlain a error g)
        ∙ leased
    after_daemon_admission-GivesBack node r (ok keys) g leased =
        and_release-GivesBack r keys _ _ leased (after_dispatch-IsPlain a _ _)

  -- What `check_and_acquire` took, where no command fails.
  check_and_acquire-IsLeased :
      (policy : RuntimeLimitPolicy) (scopes : List LimitScope) (tokens : ℕ) (r : Redis)
      → r.faults ≡ []
      → IsLeased r (check_and_acquire uuid_text policy scopes tokens r)
  check_and_acquire-IsLeased policy scopes tokens r calm =
      let out = check_and_acquire uuid_text policy scopes tokens r in
      elim (result-cases out.0) [
        | inl (keys, granted) ↦
            let given =
              release-check_and_acquire uuid_text policy scopes tokens r scope keys calm granted in
            rw granted given.1
        | inr (error, refused) ↦
            let took = check_and_acquire-taken uuid_text policy scopes tokens r scope calm in
            let nothing = ap (kept uuid_text scope) refused in
            rw refused (omega (arith, took, nothing))
      ]

module _ (a : Attempt) (scope : LimitScope) where
  abbrev Returns : Gateway → Reply × Gateway → Type 0
  Returns g out = GivesBack a.call.out.uuid_text scope g.redis out

  after_preflight-Returns :
      (route : ResolvedModelRoute) (checked : AppResult (Unit {0})) (g : Gateway)
      → g.redis.faults ≡ []
      → Returns g (after_preflight a route checked g)
  unfolding after_preflight acquire_runtime_limits
  after_preflight-Returns route (err error) g calm =
      IsPlain-GivesBack a.call.out.uuid_text scope (refuse_credit a error) g
        (refuse_credit-IsPlain a error g)
  after_preflight-Returns route (ok _) g calm =
      after_admission-GivesBack a.call.out.uuid_text scope a route g.redis _ _
        (check_and_acquire-IsLeased a.call.out.uuid_text scope _ _ _ g.redis calm)

  after_daemon_preflight-Returns :
      (node : EligibleDaemonNode) (checked : AppResult (Unit {0})) (g : Gateway)
      → g.redis.faults ≡ []
      → Returns g (after_daemon_preflight a node checked g)
  unfolding after_daemon_preflight acquire_runtime_limits
  after_daemon_preflight-Returns node (err error) g calm =
      IsPlain-GivesBack a.call.out.uuid_text scope (refuse_daemon_credit a error) g
        (refuse_daemon_credit-IsPlain a error g)
  after_daemon_preflight-Returns node (ok _) g calm =
      after_daemon_admission-GivesBack a.call.out.uuid_text scope a node g.redis _ _
        (check_and_acquire-IsLeased a.call.out.uuid_text scope _ _ _ g.redis calm)

module _ (c : Call) (scope : LimitScope) where
  abbrev Restores : Gateway → Reply × Gateway → Type 0
  Restores g out = GivesBack c.out.uuid_text scope g.redis out

  module _ (context : RequestContext) where
    with_max_tokens-Restores :
        (route : ResolvedModelRoute) (max_tokens : AppResult (Option ℕ)) (g : Gateway)
        → g.redis.faults ≡ []
        → Restores g (with_max_tokens c context route max_tokens g)
    unfolding with_max_tokens preflight provider_attempt
    with_max_tokens-Restores route (err error) g calm =
        IsPlain-GivesBack c.out.uuid_text scope (refuse c.out _ error) g
          (refuse-IsPlain c.out _ error g)
    with_max_tokens-Restores route (ok max_tokens) g calm =
        after_preflight-Returns (provider_attempt c context route max_tokens) scope route _ _ calm

    with_daemon_max_tokens-Restores :
        (node : EligibleDaemonNode) (max_tokens : AppResult (Option ℕ)) (g : Gateway)
        → g.redis.faults ≡ []
        → Restores g (with_daemon_max_tokens c context node max_tokens g)
    unfolding with_daemon_max_tokens preflight daemon_attempt
    with_daemon_max_tokens-Restores node (err error) g calm =
        IsPlain-GivesBack c.out.uuid_text scope (refuse c.out _ error) g
          (refuse-IsPlain c.out _ error g)
    with_daemon_max_tokens-Restores node (ok max_tokens) g calm =
        after_daemon_preflight-Returns (daemon_attempt c context node max_tokens) scope node _ _
          calm

    after_selection-Restores :
        (log : GatewayCompletionLog) (selected : AppResult (Option EligibleDaemonNode))
        (g : Gateway)
        → g.redis.faults ≡ []
        → Restores g (after_selection c context log selected g)
    unfolding after_selection
    after_selection-Restores log (err error) g calm =
        IsPlain-GivesBack c.out.uuid_text scope (refuse c.out log error) g
          (refuse-IsPlain c.out log error g)
    after_selection-Restores log (ok none) g calm =
        IsPlain-GivesBack c.out.uuid_text scope (refuse c.out log _) g
          (refuse-IsPlain c.out log _ g)
    after_selection-Restores log (ok (some node)) g calm =
        with_daemon_max_tokens-Restores node _ g calm

    handle_daemon-Restores :
        (log : GatewayCompletionLog) (g : Gateway)
        → g.redis.faults ≡ []
        → Restores g (handle_daemon_chat_completion c context log g)
    unfolding handle_daemon_chat_completion
    handle_daemon-Restores log g calm =
        if_rule (Restores g) c.payload.stream _ _ g
          (λ _.
            IsPlain-GivesBack c.out.uuid_text scope (refuse c.out log _) g
              (refuse-IsPlain c.out log _ g))
          (λ _. after_selection-Restores log _ _ calm)

  after_resolution-Restores :
      (resolved : AppResult ResolvedModelRoute) (g : Gateway)
      → g.redis.faults ≡ []
      → Restores g (after_resolution c resolved g)
  unfolding after_resolution handle_model_route
  after_resolution-Restores (ok route) g calm =
      with_max_tokens-Restores (request_context c) route _ g calm
  after_resolution-Restores (err error) g calm =
      if_rule (Restores g) (is_model_route_not_found error) _ _ g
        (λ _. handle_daemon-Restores (request_context c) _ g calm)
        (λ _.
          IsPlain-GivesBack c.out.uuid_text scope (refuse c.out _ error) g
            (refuse-IsPlain c.out _ error g))

  -- If no command of the limits fails: whatever path the request takes, and whatever fails on it, once
  -- the lease that its reply still holds is released, the concurrency counter of every scope is what
  -- it was before the request. Only a stream of events holds one.
  pub chat_completions_impl-GivesBack :
      (g : Gateway)
      → g.redis.faults ≡ []
      → GivesBack c.out.uuid_text scope g.redis (chat_completions_impl c g)
  unfolding chat_completions_impl
  chat_completions_impl-GivesBack g calm =
      if_rule (Restores g) (is_empty (public_model c)) _ _ g
        (λ _.
          IsPlain-GivesBack c.out.uuid_text scope (refuse c.out _ _) g (refuse-IsPlain c.out _ _ g))
        (λ _.
          if_rule (Restores g) (not c.spec.allow_stream && c.payload.stream) _ _ g
            (λ _.
              IsPlain-GivesBack c.out.uuid_text scope (refuse c.out _ _) g
                (refuse-IsPlain c.out _ _ g))
            (λ _. after_resolution-Restores _ _ calm))
