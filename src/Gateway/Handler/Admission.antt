-- ===== src/Gateway/Handler/Admission.antt =====
-- The provider is called at most once, and only for a request that was admitted.
use mizan.Prelude.{
  ℕ, ◌≤◌, ◌≡◌, refl, not, ◌&&◌, inl, inr, ◌⊎◌, Option, none, some, List, [], ◌∷◌, ◌++◌, Text,
  is_empty, arith,
}
use mizan.Core.Error.{AppResult, ok, err}
use mizan.Core.Context.{RequestContext}
use mizan.Billing.Usage.{ensure_sufficient_credit}
use mizan.Limits.Acquire.{check_and_acquire}
use mizan.Dispatch.Jobs.{ChatRequest, ChatResponse}
use mizan.Nodes.Select.{EligibleDaemonNode}
use mizan.Gateway.Requests.{ResolvedModelRoute, route_price, attach_request_headers}
use mizan.Gateway.Policy.{
  resolve_effective_max_tokens, estimate_admission_usage, is_model_route_not_found,
}
use mizan.Gateway.Routes.{RouteStore, resolve_model_route}
use mizan.Gateway.State.{
  Gateway, Act, Chunks, GatewayCompletionLog, runtime_policy, acquire_runtime_limits,
  release_limit_lease, call_provider, call_provider_stream,
}
use mizan.Gateway.Attempt.{Reply, Call, public_model, Attempt, preflight, and_release}
use mizan.Gateway.Provider.{
  provider_scopes, provider_attempt, after_stream_call, after_call, after_admission,
  after_preflight, with_max_tokens, handle_model_route,
}
use mizan.Gateway.Daemon.{
  daemon_attempt, after_daemon_admission, after_daemon_preflight, with_daemon_max_tokens,
  after_selection, handle_daemon_chat_completion,
}
use mizan.Gateway.Handler.{request_context, after_resolution, chat_completions_impl}
use mizan.Gateway.Handler.Plain.{
  if_rule, refuse-IsPlain, refuse_admission-IsPlain, refuse_credit-IsPlain,
  refuse_daemon_credit-IsPlain, refuse_daemon_admission-IsPlain, upstream_error_reply-IsPlain,
  completed_reply-IsPlain, after_dispatch-IsPlain,
}

-- No call of the provider was added.
abbrev IsSilent : List ChatRequest → Reply × Gateway → Type 0
IsSilent old out = out.1.upstream_calls ≡ old

-- What a limit on the tokens asks of a request.
abbrev pub Within : Option ℕ → Option ℕ → Type 0
Within (some limit) (some tokens) = tokens ≤ limit
Within (some limit) none = ⊥
Within none tokens = Unit

-- A request never asks for more tokens than its route allows, and always for some number of them if the
-- route has a limit.
pub resolve_effective_max_tokens-Within :
    (requested limit max_tokens : Option ℕ) (field : Text)
    → resolve_effective_max_tokens requested limit field ≡ ok max_tokens
    → Within limit max_tokens
unfolding resolve_effective_max_tokens
resolve_effective_max_tokens-Within (some requested) (some limit) none field e = ground arith
resolve_effective_max_tokens-Within (some requested) (some limit) (some tokens) field e =
    ground arith
resolve_effective_max_tokens-Within none (some limit) none field e = ground arith
resolve_effective_max_tokens-Within none (some limit) (some tokens) field e = ground arith
resolve_effective_max_tokens-Within requested none max_tokens field e = tt

module _ (a : Attempt) where
  and_release-IsSilent :
      (keys : List Text) (m : Act Reply) (g : Gateway) (old : List ChatRequest)
      → IsSilent old (m g)
      → IsSilent old (and_release keys m g)
  unfolding and_release release_limit_lease
  and_release-IsSilent keys m g old silent = silent

  module _ (route : ResolvedModelRoute) where
    after_stream_call-IsSilent :
        (keys : List Text) (upstream : AppResult Chunks) (g : Gateway)
        → IsSilent g.upstream_calls (after_stream_call a route keys upstream g)
    unfolding after_stream_call attach_request_headers
    after_stream_call-IsSilent keys (ok upstream) g = refl
    after_stream_call-IsSilent keys (err error) g =
        and_release-IsSilent keys _ g _ (upstream_error_reply-IsPlain a _ g).2

    after_call-IsSilent :
        (keys : List Text) (upstream : AppResult ChatResponse) (g : Gateway)
        → IsSilent g.upstream_calls (after_call a keys upstream g)
    unfolding after_call
    after_call-IsSilent keys (ok upstream) g =
        and_release-IsSilent keys _ g _ (completed_reply-IsPlain a upstream g).2
    after_call-IsSilent keys (err error) g =
        and_release-IsSilent keys _ g _ (upstream_error_reply-IsPlain a _ g).2

    -- The provider was not called; or once, with the request, after the two results.
    abbrev IsAsked :
        AppResult (Unit {0}) → AppResult (List Text) → List ChatRequest → Reply × Gateway → Type 0
    IsAsked checked lease old out =
        IsSilent old out
        ⊎ ((checked ≡ ok tt)
            × ((keys : List Text) × (lease ≡ ok keys))
            × (out.1.upstream_calls ≡ old ++ a.request ∷ []))

    after_admission-IsAsked :
        (lease : AppResult (List Text)) (g : Gateway)
        → IsAsked (ok tt) lease g.upstream_calls (after_admission a route lease g)
    unfolding after_admission call_provider call_provider_stream
    after_admission-IsAsked (err error) g = inl (refuse_admission-IsPlain a error g).2
    after_admission-IsAsked (ok keys) g =
        if_rule (IsAsked (ok tt) (ok keys) g.upstream_calls) a.call.payload.stream _ _ g
          (λ _. inr (refl, (keys, refl), after_stream_call-IsSilent keys _ _))
          (λ _. inr (refl, (keys, refl), after_call-IsSilent keys _ _))

    after_preflight-IsAsked :
        (checked : AppResult (Unit {0})) (g : Gateway)
        → IsAsked checked
            (check_and_acquire a.call.out.uuid_text
              (runtime_policy a.call.config)
              (provider_scopes a.call route)
              a.admission_usage.total_tokens
              g.redis).0
            g.upstream_calls
            (after_preflight a route checked g)
    unfolding after_preflight acquire_runtime_limits
    after_preflight-IsAsked (err error) g = inl (refuse_credit-IsPlain a error g).2
    after_preflight-IsAsked (ok _) g = after_admission-IsAsked _ _

  module _ (node : EligibleDaemonNode) where
    after_daemon_admission-IsSilent :
        (lease : AppResult (List Text)) (g : Gateway)
        → IsSilent g.upstream_calls (after_daemon_admission a node lease g)
    unfolding after_daemon_admission
    after_daemon_admission-IsSilent (err error) g = (refuse_daemon_admission-IsPlain a error g).2
    after_daemon_admission-IsSilent (ok keys) g =
        and_release-IsSilent keys _ _ _ (after_dispatch-IsPlain a _ _).2

    after_daemon_preflight-IsSilent :
        (checked : AppResult (Unit {0})) (g : Gateway)
        → IsSilent g.upstream_calls (after_daemon_preflight a node checked g)
    unfolding after_daemon_preflight acquire_runtime_limits
    after_daemon_preflight-IsSilent (err error) g = (refuse_daemon_credit-IsPlain a error g).2
    after_daemon_preflight-IsSilent (ok _) g = after_daemon_admission-IsSilent _ _

module _ (c : Call) where
  -- The request that was admitted: the route of its model, the tokens it may use, the credit for them
  -- and the lease were all there, each asked of the state before the request.
  abbrev pub IsAdmitted : Gateway → ChatRequest → Type 0
  IsAdmitted g request =
      (route : ResolvedModelRoute) × (max_tokens : Option ℕ) × ((resolve_model_route c.out.decrypt
          c.config.provider_secret_key c.spec.model_field (public_model c) g.routes).0
        ≡ ok route)
      × (resolve_effective_max_tokens c.payload.max_tokens route.max_tokens c.spec.max_tokens_field
          ≡ ok max_tokens)
      × ((ensure_sufficient_credit c.fresh.preflight c.identity.user_id
            (estimate_admission_usage c.payload.messages max_tokens) (route_price route) g.world).0
          ≡ ok tt)
      × ((keys : List Text) × ((check_and_acquire c.out.uuid_text (runtime_policy c.config)
              (provider_scopes c route)
              (estimate_admission_usage c.payload.messages max_tokens).total_tokens g.redis).0
            ≡ ok keys))
      × (request ≡ record {
        model = route.upstream_model;
        messages = c.payload.messages;
        stream = c.payload.stream;
        max_tokens = max_tokens;
      })

  abbrev Called : Gateway → Reply × Gateway → Type 0
  Called g out =
      (out.1.upstream_calls ≡ g.upstream_calls)
      ⊎ ((request : ChatRequest) × IsAdmitted g request
          × (out.1.upstream_calls ≡ g.upstream_calls ++ request ∷ []))

  with_daemon_max_tokens-IsSilent :
      (context : RequestContext) (node : EligibleDaemonNode) (max_tokens : AppResult (Option ℕ))
      (g : Gateway)
      → IsSilent g.upstream_calls (with_daemon_max_tokens c context node max_tokens g)
  unfolding with_daemon_max_tokens preflight
  with_daemon_max_tokens-IsSilent context node (err error) g = (refuse-IsPlain c.out _ error g).2
  with_daemon_max_tokens-IsSilent context node (ok max_tokens) g =
      after_daemon_preflight-IsSilent (daemon_attempt c context node max_tokens) node _ _

  after_selection-IsSilent :
      (context : RequestContext) (log : GatewayCompletionLog)
      (selected : AppResult (Option EligibleDaemonNode)) (g : Gateway)
      → IsSilent g.upstream_calls (after_selection c context log selected g)
  unfolding after_selection
  after_selection-IsSilent context log (err error) g = (refuse-IsPlain c.out log error g).2
  after_selection-IsSilent context log (ok none) g = (refuse-IsPlain c.out log _ g).2
  after_selection-IsSilent context log (ok (some node)) g =
      with_daemon_max_tokens-IsSilent context node _ g

  handle_daemon-IsSilent :
      (context : RequestContext) (log : GatewayCompletionLog) (g : Gateway)
      → IsSilent g.upstream_calls (handle_daemon_chat_completion c context log g)
  unfolding handle_daemon_chat_completion
  handle_daemon-IsSilent context log g =
      if_rule (IsSilent g.upstream_calls) c.payload.stream _ _ g
        (λ _. (refuse-IsPlain c.out log _ g).2) (λ _. after_selection-IsSilent context log _ _)

  module _ (g : Gateway) (routes : RouteStore) where
    abbrev found : Gateway
    found = record g { routes = routes }

    with_max_tokens-Called :
        (route : ResolvedModelRoute)
        → (resolve_model_route c.out.decrypt c.config.provider_secret_key c.spec.model_field
            (public_model c)
            g.routes).0
          ≡ ok route
        → (max_tokens : AppResult (Option ℕ))
        → resolve_effective_max_tokens c.payload.max_tokens route.max_tokens c.spec.max_tokens_field
          ≡ max_tokens
        → Called g (with_max_tokens c (request_context c) route max_tokens found)
    unfolding with_max_tokens preflight provider_attempt
    with_max_tokens-Called route resolved (err error) e = inl (refuse-IsPlain c.out _ error found).2
    with_max_tokens-Called route resolved (ok max_tokens) e =
        let a = provider_attempt c (request_context c) route max_tokens in
        let credit =
          ensure_sufficient_credit c.fresh.preflight c.identity.user_id a.admission_usage
            a.route_price g.world in
        elim (after_preflight-IsAsked a route credit.0 (record found { world = credit.1 })) [
          | inl silent ↦ inl silent
          | inr (paid, leased, called) ↦
              inr (a.request, (route, max_tokens, resolved, e, paid, leased, refl), called)
        ]

    after_resolution-Called :
        (resolved : AppResult ResolvedModelRoute)
        → (resolve_model_route c.out.decrypt c.config.provider_secret_key c.spec.model_field
            (public_model c)
            g.routes).0
          ≡ resolved
        → Called g (after_resolution c resolved found)
    unfolding after_resolution handle_model_route
    after_resolution-Called (ok route) e = with_max_tokens-Called route e _ refl
    after_resolution-Called (err error) e =
        if_rule (Called g) (is_model_route_not_found error) _ _ found
          (λ _. inl (handle_daemon-IsSilent _ _ found))
          (λ _. inl (refuse-IsPlain c.out _ error found).2)

  -- Either the provider is not called, or it is called once, with a request for the model of a route
  -- that was resolved, for the tokens that the route allows, after the credit check and the limits
  -- both accepted the admission estimate of that request.
  pub chat_completions_impl-IsAdmitted :
      (g : Gateway)
      → ((chat_completions_impl c g).1.upstream_calls ≡ g.upstream_calls)
        ⊎ ((request : ChatRequest) × IsAdmitted g request
            × ((chat_completions_impl c g).1.upstream_calls ≡ g.upstream_calls ++ request ∷ []))
  unfolding chat_completions_impl
  chat_completions_impl-IsAdmitted g =
      if_rule (Called g) (is_empty (public_model c)) _ _ g (λ _. inl (refuse-IsPlain c.out _ _ g).2)
        (λ _.
          if_rule (Called g) (not c.spec.allow_stream && c.payload.stream) _ _ g
            (λ _. inl (refuse-IsPlain c.out _ _ g).2) (λ _. after_resolution-Called g _ _ refl))
