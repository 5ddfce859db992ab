-- ===== src/Gateway/State.antt =====
-- What a request reads and writes, and the calls of the other components. An action always gives a
-- result; the result of a call that may fail is a value. A spawned task runs where it is spawned: the
-- release of a lease and the insertion of a request log act at once, and their errors are only warned
-- of. The time since the start of the request is read through `elapsed`, by the number of
-- the reading.
use mizan.Prelude.{ℕ, ◌+◌, Option, none, some, List, [], ◌∷◌, ◌++◌, Text, codes, unwrap_or}
use mizan.Core.Id.{Uuid}
use mizan.Core.Error.{AppResult}
use mizan.Core.Exec.{Exec}
use mizan.Core.Context.{RequestContext}
use mizan.Wallet.{RoutePrice}
use mizan.Billing.Database.{World}
use mizan.Billing.Wallets.{Draw}
use mizan.Billing.Usage.{TokenUsage, BillingInput, record_usage}
use mizan.Limits.Redis.{Redis}
use mizan.Limits.Acquire.{LimitScope, RuntimeLimitPolicy, check_and_acquire, release}
use mizan.Dispatch.Jobs.{ChatRequest, ChatResponse}
use mizan.Dispatch.Queue.{Queue, Json}
use mizan.Dispatch.Wait.{Waiting}
use mizan.Nodes.Table.{NodeStore, NodeJson}
use mizan.Metrics.{MetricsRegistry, observe_gateway}
use mizan.Logging.{RequestLogInput, Logs, record_request_log}
use mizan.Gateway.Requests.{ChatStreamChunk, chat_completions_path}
use mizan.Gateway.Routes.{RouteStore}

pub record Gateway : Type 0 where
  pub world : World
  pub redis : Redis
  pub queue : Queue
  pub nodes : NodeStore
  pub routes : RouteStore
  pub metrics : MetricsRegistry
  pub logs : Logs
  pub upstream_calls : List ChatRequest
  pub readings : ℕ

abbrev pub Act : Type 0 → Type 0
Act A = Gateway → A × Gateway

module _ {A B : Type 0} where
  infixl 5 ◌>>=◌ ◌>>◌
  abbrev pub ◌>>=◌ : Act A → (A → Act B) → Act B
  ◌>>=◌ m f g = let (a, g') = m g in f a g'

  abbrev pub ◌>>◌ : Act A → Act B → Act B
  m >> k = m >>= λ _. k

abbrev pub return : {A : Type 0} → A → Act A
return a g = (a, g)

pub record GatewayConfig : Type 0 where
  pub provider_secret_key : Option Text
  pub limit_rpm : ℕ
  pub limit_tpm : ℕ
  pub limit_concurrency : ℕ
  pub limit_window_seconds : ℕ
  pub limit_lease_seconds : ℕ
  pub daemon_stale_seconds : ℕ

abbrev pub Chunks : Type 0
Chunks = List (AppResult ChatStreamChunk)

-- What is not the program's: the printing and parsing of ids, the cipher of stored keys, the upstream
-- provider with its name, address and key, `serde_json`, the clock, and the fresh id and the timestamp of
-- the row of a request log.
pub record Outside : Type 0 where
  pub uuid_text : Uuid → Text
  pub parse_uuid : Text → Option Uuid
  pub decrypt : Text → Uuid → Text → AppResult Text
  pub chat : (name base_url api_key : Text) → ChatRequest → AppResult ChatResponse
  pub chat_stream : (name base_url api_key : Text) → ChatRequest → AppResult Chunks
  pub json : Json
  pub node_json : NodeJson
  pub waiting : Waiting
  pub polls : ℕ
  pub duplicate : Text
  pub elapsed : ℕ → ℕ
  pub log_id : ℕ → Uuid
  pub log_time : ℕ → Text

-- The fresh ids and the readings of the wall clock that one request draws.
pub record Fresh : Type 0 where
  pub request_id : Uuid
  pub completion_id : Uuid
  pub job_id : Uuid
  pub preflight : Draw
  pub metering : Draw
  pub now : ℕ
  pub job_created : ℕ
  pub job_deadline_from : ℕ
  pub job_finished : ℕ

module _ {A : Type 0} where
  abbrev pub on_world : Exec World A → Act (AppResult A)
  on_world m g = let (r, w) = m g.world in (r, record g { world = w })

  abbrev pub on_redis : Exec Redis A → Act (AppResult A)
  on_redis m g = let (r, s) = m g.redis in (r, record g { redis = s })

  abbrev pub on_queue : Exec Queue A → Act (AppResult A)
  on_queue m g = let (r, q) = m g.queue in (r, record g { queue = q })

  abbrev pub on_nodes : Exec NodeStore A → Act (AppResult A)
  on_nodes m g = let (r, s) = m g.nodes in (r, record g { nodes = s })

  abbrev pub on_routes : Exec RouteStore A → Act (AppResult A)
  on_routes m g = let (r, s) = m g.routes in (r, record g { routes = s })

-- `elapsed().as_millis() as u64`; the milliseconds since the start are below 2^64.
abbrev pub elapsed_ms : Outside → Act ℕ
elapsed_ms out g = (out.elapsed g.readings, record g { readings = g.readings + 1 })

pub record GatewayCompletionLog : Type 0 where
  pub context : RequestContext
  pub route_alias : Option Text
  pub provider_alias : Option Text
  pub daemon_node_id : Option Uuid

abbrev pub new_completion_log : RequestContext → GatewayCompletionLog
new_completion_log context = record {
  context = context;
  route_alias = none;
  provider_alias = none;
  daemon_node_id = none;
}

abbrev pub with_route_alias : Text → GatewayCompletionLog → GatewayCompletionLog
with_route_alias alias log = record log { route_alias = some alias }

abbrev pub with_provider_alias : Text → GatewayCompletionLog → GatewayCompletionLog
with_provider_alias alias log = record log { provider_alias = some alias }

abbrev pub with_daemon_node_id : Uuid → GatewayCompletionLog → GatewayCompletionLog
with_daemon_node_id id log = record log { daemon_node_id = some id }

abbrev or_else : {A : Type 0} → Option A → Option A → Option A
or_else (some a) other = some a
or_else none other = other

unfoldable pub request_log_input :
    GatewayCompletionLog → (status : ℕ) → Option Text → (latency_ms : ℕ) → RequestLogInput
request_log_input log status error_code latency_ms = record {
  request_id = log.context.request_id;
  user_id = log.context.user_id;
  api_key_id = log.context.api_key_id;
  provider_id = log.context.provider_id;
  route_id = log.context.route_id;
  daemon_node_id = log.daemon_node_id;
  method = unwrap_or (codes "POST") log.context.method;
  path = unwrap_or chat_completions_path log.context.path;
  route = or_else log.context.route log.route_alias;
  provider = or_else log.context.provider log.provider_alias;
  status_code = status;
  latency_ms = latency_ms;
  error_code = error_code;
}

-- The error of the insertion is only warned of.
abbrev pub spawn_record : Outside → RequestLogInput → Act (Unit {0})
spawn_record out request_log g = (
  tt,
  record g {
    logs =
        (record_request_log (out.log_id g.readings) (out.log_time g.readings) request_log g.logs).1;
  },
)

unfoldable pub record_gateway_request_completion :
    Outside → GatewayCompletionLog → (status : ℕ) → Option Text → Act (Unit {0})
unfolding request_log_input
record_gateway_request_completion out log status error_code = do
  latency_ms ← elapsed_ms out
  spawn_record out (request_log_input log status error_code latency_ms)

abbrev pub runtime_policy : GatewayConfig → RuntimeLimitPolicy
runtime_policy config = record {
  requests_per_window = config.limit_rpm;
  tokens_per_window = config.limit_tpm;
  concurrent_requests = config.limit_concurrency;
  window_seconds = config.limit_window_seconds;
  lease_seconds = config.limit_lease_seconds;
}

unfoldable pub acquire_runtime_limits :
    Outside → GatewayConfig → List LimitScope → (tokens : ℕ) → Act (AppResult (List Text))
acquire_runtime_limits out config scopes tokens =
    on_redis (check_and_acquire out.uuid_text (runtime_policy config) scopes tokens)

-- The error of a release is only warned of.
unfoldable pub release_limit_lease : Option (List Text) → Act (Unit {0})
release_limit_lease none = return tt
release_limit_lease (some keys) = do on_redis (release keys); return tt

abbrev printed_node : Outside → Option Uuid → Option Text
printed_node out none = none
printed_node out (some id) = some (out.uuid_text id)

unfoldable pub observe_gateway_metrics_with_daemon_node :
    Outside
    → RequestContext
    → (route_alias : Text) → (daemon_node_id : Option Uuid) → TokenUsage
    → (status latency_ms : ℕ) → RoutePrice
    → Act (Unit {0})
observe_gateway_metrics_with_daemon_node out context route_alias daemon_node_id usage status
      latency_ms price g =
    (
      tt,
      record g {
        metrics =
            observe_gateway
              (record {
                route = unwrap_or route_alias context.route;
                provider = unwrap_or (codes "unknown") context.provider;
                model = unwrap_or (codes "unknown") context.model;
                daemon_node = printed_node out daemon_node_id;
                status = status;
                usage = usage;
                latency_ms = latency_ms;
                route_price = price;
              })
              g.metrics;
      },
    )

-- `GatewayService::chat_completions` of crates/mizan-gateway/src/lib.rs passes the request on.
unfoldable pub call_provider :
    Outside → (name base_url api_key : Text) → ChatRequest → Act (AppResult ChatResponse)
call_provider out name base_url api_key request g = (
  out.chat name base_url api_key request,
  record g { upstream_calls = g.upstream_calls ++ request ∷ [] },
)

unfoldable pub call_provider_stream :
    Outside → (name base_url api_key : Text) → ChatRequest → Act (AppResult Chunks)
call_provider_stream out name base_url api_key request g = (
  out.chat_stream name base_url api_key request,
  record g { upstream_calls = g.upstream_calls ++ request ∷ [] },
)

unfoldable pub meter : Draw → BillingInput → Act (AppResult (Unit {0}))
meter draw input = on_world (record_usage draw input)
