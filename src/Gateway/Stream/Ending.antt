-- ===== src/Gateway/Stream/Ending.antt =====
-- The theorems about a streamed completion: its lease, its one metering, and its one log.
use mizan.Prelude.{
  ℕ, zero, suc, ◌≡◌, refl, ap, ◌∙◌, true, false, Bool-cases, inl, inr, Option, none, some, List, [],
  ◌∷◌, Text, if◌then◌else◌,
}
use mizan.Core.Error.{AppResult, ok, err}
use mizan.Billing.Wallets.{Draw}
use mizan.Billing.Usage.{TokenUsage}
use mizan.Limits.Redis.{Redis}
use mizan.Limits.Acquire.{release}
use mizan.Gateway.State.{
  Gateway, Outside, Act, return, Chunks, record_gateway_request_completion, release_limit_lease,
  observe_gateway_metrics_with_daemon_node, meter,
}
use mizan.Gateway.Attempt.{StreamBuildState}
use mizan.Gateway.Stream.{
  Event, closed, unmetered_event, metered_event, after_metering, last_event, step, next_event,
  drop_state, deliver, serve,
}

-- The store after the release of a lease that may be gone.
abbrev pub released : Option (List Text) → Redis → Redis
released none r = r
released (some keys) r = (release keys r).1

pub release_limit_lease_lem :
    (lease : Option (List Text)) (g : Gateway)
    → (release_limit_lease lease g).1 ≡ record g { redis = released lease g.redis }
unfolding release_limit_lease
release_limit_lease_lem none g = refl
release_limit_lease_lem (some keys) g = refl

module _ (out : Outside) (draw : Draw) where
  after_metering-redis :
      (state : StreamBuildState) (usage : TokenUsage) (latency_ms status : ℕ) (code : Option Text)
      (event : Event) (metered : AppResult (Unit {0})) (g : Gateway)
      → (after_metering out state usage latency_ms status code event metered g).1.redis
        ≡ released state.limit_lease g.redis
  unfolding after_metering unmetered_event metered_event record_gateway_request_completion
      observe_gateway_metrics_with_daemon_node
  after_metering-redis state usage latency_ms status code event (ok _) g =
      ap (λ h. h.redis) (release_limit_lease_lem state.limit_lease _)
  after_metering-redis state usage latency_ms status code event (err error) g =
      ap (λ h. h.redis) (release_limit_lease_lem state.limit_lease _)

  abbrev Releases : (StreamBuildState → Act (List Event)) → Type 0
  Releases rest =
      (state : StreamBuildState) (g : Gateway)
      → (rest state g).1.redis ≡ released state.limit_lease g.redis

  step-redis :
      (upstream : Chunks) (state : StreamBuildState) (rest : StreamBuildState → Act (List Event))
      (g : Gateway)
      → Releases rest
      → (let (next, g') = step out draw upstream state g in deliver state rest next g').1.redis
        ≡ released state.limit_lease g.redis
  unfolding step last_event meter
  step-redis [] state rest g releases =
      releases (closed state) _ ∙ after_metering-redis state _ _ _ _ _ _ _
  step-redis (ok chunk ∷ upstream) state rest g releases = releases _ g
  step-redis (err error ∷ upstream) state rest g releases =
      releases (closed (record state { upstream = upstream })) _
      ∙ after_metering-redis (record state { upstream = upstream }) _ _ _ _ _ _ _

  pub next_event_more :
      (state : StreamBuildState)
      → state.emit_done ≡ true
      → next_event out draw state ≡ step out draw state.upstream state
  unfolding next_event
  next_event_more state more =
      ap (λ b. if b then step out draw state.upstream state else return none) more

  pub next_event_over :
      (state : StreamBuildState) → state.emit_done ≡ false → next_event out draw state ≡ return none
  unfolding next_event
  next_event_over state over =
      ap (λ b. if b then step out draw state.upstream state else return none) over

  -- However many events the client polls for before it goes away, whatever the upstream stream gives,
  -- and whether metering succeeds or not, the lease is released exactly once: the limits' store is
  -- afterwards what one release of the lease makes of it.
  pub serve-redis :
      (polls : ℕ) (state : StreamBuildState) (g : Gateway)
      → (serve out draw polls state g).1.redis ≡ released state.limit_lease g.redis
  unfolding serve drop_state
  serve-redis zero state g = ap (λ h. h.redis) (release_limit_lease_lem state.limit_lease g)
  serve-redis (suc polls) state g = elim (Bool-cases state.emit_done) [
    | inl more ↦
        rw (next_event_more state more)
          (step-redis state.upstream state (serve out draw polls) g (serve-redis polls))
    | inr over ↦
        rw (next_event_over state over)
          (ap (λ h. h.redis) (release_limit_lease_lem state.limit_lease g))
  ]
