-- ===== src/Gateway/Stream/Metering.antt =====
-- What a streamed completion is charged, and its log: nothing before the last event, and then once.
use mizan.Prelude.{
  ℕ, zero, suc, ◌+◌, ◌≤◌, ◌<◌, ◌≡◌, refl, true, Option, none, some, [], ◌∷◌, Text, length, arith,
}
use mizan.Core.Error.{
  AppError, AppResult, ok, err, app_error_status_code, error_code_from_app_error,
}
use mizan.Billing.Wallets.{Draw}
use mizan.Billing.Usage.{TokenUsage, BillingInput, record_usage}
use mizan.Logging.{RequestLogInput, record_request_log}
use mizan.Gateway.State.{
  Gateway, Outside, Chunks, request_log_input, record_gateway_request_completion,
  release_limit_lease, observe_gateway_metrics_with_daemon_node, meter,
}
use mizan.Gateway.Attempt.{StreamBuildState}
use mizan.Gateway.Stream.{
  Event, stream_input, final_usage, closed, keep_usage, unmetered_event, metered_event,
  after_metering, last_event, stream_error, step, next_event, drop_state, serve,
}
use mizan.Gateway.Stream.Ending.{release_limit_lease_lem, next_event_more}

-- How a stream of chunks ends: the last usage that it reported, and its error if it broke off.
unfoldable pub ending : Option TokenUsage → Chunks → Option TokenUsage × Option AppError
ending latest [] = (latest, none)
ending latest (ok chunk ∷ upstream) = ending (keep_usage chunk.usage latest) upstream
ending latest (err error ∷ upstream) = (latest, some error)

-- The chunks before an error.
unfoldable pub clean : Chunks → ℕ
clean [] = 0
clean (ok chunk ∷ upstream) = suc (clean upstream)
clean (err error ∷ upstream) = 0

module _ (out : Outside) (state : StreamBuildState) where
  -- The status of the stream, and the code of its log.
  abbrev pub end_status : Option AppError → ℕ
  end_status none = 200
  end_status (some error) = app_error_status_code (stream_error out state error)

  abbrev pub end_code : Option AppError → Option Text
  end_code none = none
  end_code (some error) = some (error_code_from_app_error (stream_error out state error))

  -- What is metered at the given reading of the time.
  abbrev pub billed : Option TokenUsage × Option AppError → ℕ → BillingInput
  billed end latency_ms = stream_input state (final_usage state end.0) (end_status end.1) latency_ms

  -- The log says how the stream ended, or why it could not be metered.
  abbrev pub logged :
      Option TokenUsage × Option AppError → AppResult (Unit {0}) → ℕ → RequestLogInput
  logged end (ok _) latency_ms =
      request_log_input state.completion_log (end_status end.1) (end_code end.1) latency_ms
  logged end (err error) latency_ms =
      request_log_input state.completion_log (app_error_status_code error)
        (some (error_code_from_app_error error)) latency_ms

  module _ (draw : Draw) where
    -- The charge and the log of a stream that ended so.
    abbrev pub IsSettled : Option TokenUsage × Option AppError → Gateway → Gateway → Type 0
    IsSettled end old new =
        let metered = record_usage draw (billed end (out.elapsed old.readings)) old.world in
        (new.world ≡ metered.1)
        × (new.logs
            ≡ (let reading = old.readings + 1 in
                record_request_log (out.log_id (reading + 1)) (out.log_time (reading + 1))
                  (logged end metered.0 (out.elapsed reading)) old.logs).1)

module _ (out : Outside) (draw : Draw) where
  serve-closed :
      (polls : ℕ) (state : StreamBuildState) (g : Gateway)
      → (serve out draw polls (closed state) g).1 ≡ g
  unfolding serve next_event drop_state release_limit_lease
  serve-closed zero state g = refl
  serve-closed (suc polls) state g = refl

  after_metering-logs :
      (state : StreamBuildState) (usage : TokenUsage) (latency_ms : ℕ)
      (end : Option TokenUsage × Option AppError) (event : Event) (metered : AppResult (Unit {0}))
      (g : Gateway)
      → (let g' =
            (after_metering out state usage latency_ms
              (end_status out state end.1)
              (end_code out state end.1)
              event
              metered
              g).1 in
          (g'.world ≡ g.world)
          × (g'.logs
              ≡ (record_request_log
                  (out.log_id (g.readings + 1))
                  (out.log_time (g.readings + 1))
                  (logged out state end metered (out.elapsed g.readings))
                  g.logs).1))
  unfolding after_metering unmetered_event metered_event record_gateway_request_completion
      observe_gateway_metrics_with_daemon_node
  after_metering-logs state usage latency_ms end event (ok _) g =
      rw (release_limit_lease_lem state.limit_lease) (refl, refl)
  after_metering-logs state usage latency_ms end event (err error) g =
      rw (release_limit_lease_lem state.limit_lease) (refl, refl)

  serve_from-IsSettled :
      (polls : ℕ) (upstream : Chunks) (state : StreamBuildState) (g : Gateway)
      → state.emit_done ≡ true
      → length upstream < polls
      → IsSettled out state draw
          (ending state.latest_usage upstream)
          g
          (serve out draw polls (record state { upstream = upstream }) g).1
  unfolding serve ending step last_event meter final_usage stream_input
  serve_from-IsSettled zero upstream state g more enough = absurd (omega arith)
  serve_from-IsSettled (suc polls) [] state g more enough =
      rw (next_event_more out draw (record state { upstream = [] }) more) (
        rw (serve-closed polls (record state { upstream = [] }) _) (
          after_metering-logs (record state { upstream = [] }) _ _ (state.latest_usage, none) _ _
            _))
  serve_from-IsSettled (suc polls) (ok chunk ∷ upstream) state g more enough =
      rw (next_event_more out draw (record state { upstream = ok chunk ∷ upstream }) more) (
        serve_from-IsSettled polls upstream
          (record state { latest_usage = keep_usage chunk.usage state.latest_usage }) g more
          (omega arith))
  serve_from-IsSettled (suc polls) (err error ∷ upstream) state g more enough =
      rw (next_event_more out draw (record state { upstream = err error ∷ upstream }) more) (
        rw (serve-closed polls (record state { upstream = upstream }) _) (
          after_metering-logs (record state { upstream = upstream }) _ _
            (state.latest_usage, some error) _ _ _))

  -- A client that polls more often than there are chunks sees the stream end, whatever metering answers:
  -- `record_usage` runs once, on the last usage that was reported or else the estimate of the prompt,
  -- with status 200 or that of the upstream error; and `record_request_log` runs once, with that status
  -- or with the one of metering's own error.
  pub serve-IsSettled :
      (polls : ℕ) (state : StreamBuildState) (g : Gateway)
      → state.emit_done ≡ true
      → length state.upstream < polls
      → IsSettled out state draw
          (ending state.latest_usage state.upstream)
          g
          (serve out draw polls state g).1
  serve-IsSettled polls state g more enough =
      serve_from-IsSettled polls state.upstream state g more enough

  serve_from-left :
      (polls : ℕ) (upstream : Chunks) (state : StreamBuildState) (g : Gateway)
      → state.emit_done ≡ true
      → polls ≤ clean upstream
      → (let g' = (serve out draw polls (record state { upstream = upstream }) g).1 in
          (g'.world ≡ g.world) × (g'.logs ≡ g.logs) × (g'.metrics ≡ g.metrics))
  unfolding serve step clean drop_state
  serve_from-left zero upstream state g more early =
      rw (release_limit_lease_lem state.limit_lease) (refl, refl, refl)
  serve_from-left (suc polls) [] state g more early = absurd (omega arith)
  serve_from-left (suc polls) (err error ∷ upstream) state g more early = absurd (omega arith)
  serve_from-left (suc polls) (ok chunk ∷ upstream) state g more early =
      rw (next_event_more out draw (record state { upstream = ok chunk ∷ upstream }) more) (
        serve_from-left polls upstream
          (record state { latest_usage = keep_usage chunk.usage state.latest_usage }) g more
          (omega arith))

  -- A client that goes away before it polls past the last chunk, or past an error, leaves no trace: its
  -- tokens are not metered, no insertion of a log is run, and there is no observation.
  pub serve-left :
      (polls : ℕ) (state : StreamBuildState) (g : Gateway)
      → state.emit_done ≡ true
      → polls ≤ clean state.upstream
      → (let g' = (serve out draw polls state g).1 in
          (g'.world ≡ g.world) × (g'.logs ≡ g.logs) × (g'.metrics ≡ g.metrics))
  serve-left polls state g more early = serve_from-left polls state.upstream state g more early
