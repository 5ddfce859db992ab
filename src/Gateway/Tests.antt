-- ===== src/Gateway/Tests.antt =====
-- A call for a model with one route, a user with credit, a limit of two requests at a time, and the
-- theorems applied to it. A uuid is printed as its number, and the cipher leaves the key as it is.
use mizan.Prelude.{
  ◌+◌, ℕ, ◌≡◌, ◌⊎◌, ◌≤◌, refl, arith, inl, inr, true, none, some, [], ◌∷◌, ◌++◌, codes, pos, ◌+ℤ◌,
}
use mizan.Prelude.Decimal.{to_decimal}
use mizan.Core.Id.{printed}
use mizan.Core.Error.{ok, err, provider}
use mizan.Billing.Tables.{Tables}
use mizan.Billing.Balance.{IsBalanced}
use mizan.Billing.Wallets.{Draw}
use mizan.Limits.Acquire.{user}
use mizan.Dispatch.Queue.{Json}
use mizan.Dispatch.Jobs.{ChatRequest}
use mizan.Nodes.Table.{NodeJson}
use mizan.Metrics.{empty_registry}
use mizan.Gateway.Requests.{ChatStreamChunk, chat_completions_spec}
use mizan.Core.Headers.{readable}
use mizan.Gateway.Policy.{resolve_effective_max_tokens}
use mizan.Gateway.State.{
  Gateway, Outside, GatewayConfig, Fresh, Chunks, with_route_alias, new_completion_log,
}
use mizan.Gateway.Attempt.{Call, StreamBuildState}
use mizan.Gateway.Handler.{request_context, chat_completions_impl}
use mizan.Gateway.Handler.Leases.{GivesBack, chat_completions_impl-GivesBack}
use mizan.Gateway.Handler.Logs.{IsLogged, chat_completions_impl-IsLogged}
use mizan.Gateway.Handler.Admission.{
  Within, resolve_effective_max_tokens-Within, IsAdmitted, chat_completions_impl-IsAdmitted,
}
use mizan.Gateway.Handler.Charges.{IsFair}
use mizan.Gateway.Handler.Money.{chat_completions_impl-IsFair}
use mizan.Gateway.Stream.{serve}
use mizan.Gateway.Stream.Ending.{released, serve-redis}
use mizan.Gateway.Stream.Metering.{ending, clean, IsSettled, serve-IsSettled, serve-left}

abbrev draw : ℕ → Draw
draw wallet_id = record {
  wallet_id = wallet_id;
  wallet_now = codes "1700000000";
  entry_id = 71;
  entry_now = codes "1700000001";
  event_id = 72;
  event_now = codes "1700000002";
}

abbrev tables : Tables
tables = record {
  wallets =
      record {
        id = printed 7;
        owner_user_id = 1;
        balance_microcredits = pos 500;
        created_at = codes "1600000000";
        updated_at = codes "1600000000";
      }
      ∷ [];
  credit_ledger =
      record {
        id = 70;
        wallet_id = 7;
        request_id = none;
        request_delta_microcredits = pos 500;
        balance_after_microcredits = pos 500;
        reason = codes "credit_grant";
        created_at = codes "1600000000";
      }
      ∷ [];
  usage_events = [];
  admin_audit_logs = [];
}

balanced : IsBalanced tables
unfolding ◌+ℤ◌
balanced = ((refl, ground arith), tt)

abbrev json : Json
json = record {
  print_request = λ request. inr request.model;
  read_request = λ text. inl (codes "expected value");
  print_response = λ response. inr response.content;
  read_response = λ text. inl (codes "expected value");
}

abbrev node_json : NodeJson
node_json = record {
  print_list = λ list. inl (codes "not printed");
  read_list = λ text. inr (text ∷ []);
  print_value = λ value. inr value;
  read_value = λ text. inr text;
}

abbrev chunk : ChatStreamChunk
chunk = record { index = 0; delta = codes "hello"; finish_reason = none; usage = none }

-- The upstream stream breaks off after two chunks.
abbrev chunks : Chunks
chunks = ok chunk ∷ ok chunk ∷ err (provider (codes "connection reset")) ∷ []

abbrev out : Outside
out = record {
  uuid_text = to_decimal;
  parse_uuid = λ text. none;
  decrypt = λ secret id encrypted. ok encrypted;
  chat = λ name base_url api_key request.
      ok (record { provider = name; model = request.model; content = codes "hello"; usage = none });
  chat_stream = λ name base_url api_key request. ok chunks;
  json = json;
  node_json = node_json;
  waiting = record { elapsed = λ poll. poll; others = λ poll queue. queue };
  polls = 40;
  duplicate = codes "UNIQUE constraint failed";
  elapsed = λ reading. 12;
  log_id = λ reading. 100 + reading;
  log_time = λ reading. codes "1700000000";
}

abbrev config : GatewayConfig
config = record {
  provider_secret_key = some (codes "secret");
  limit_rpm = 60;
  limit_tpm = 1000;
  limit_concurrency = 2;
  limit_window_seconds = 60;
  limit_lease_seconds = 120;
  daemon_stale_seconds = 60;
}

abbrev fresh : Fresh
fresh = record {
  request_id = 30;
  completion_id = 31;
  job_id = 32;
  preflight = draw 8;
  metering = draw 9;
  now = 1700000000;
  job_created = 1700000000;
  job_deadline_from = 1700000000;
  job_finished = 1700000001;
}

abbrev call : Call
call = record {
  out = out;
  config = config;
  fresh = fresh;
  identity = record { api_key_id = 3; user_id = 1 };
  headers = (codes "x-request-id", readable (codes "not a uuid")) ∷ [];
  payload = record {
    model = codes " llama ";
    messages = record { role = codes "user"; content = 104 ∷ 105 ∷ [] } ∷ [];
    stream = true;
    max_tokens = some 16;
  };
  spec = chat_completions_spec;
}

abbrev gateway : Gateway
gateway = record {
  world = record { committed = tables; pending = tables; faults = none ∷ [] };
  redis = record {
    counters =
        (codes "mizan:limit:concurrency:user:1", record { value = 1; expires_in = some 120 }) ∷ [];
    faults = [];
  };
  queue = record { jobs = []; faults = [] };
  nodes = record { nodes = []; users = []; faults = [] };
  routes = record {
    model_routes =
        record {
          id = printed 50;
          public_model = codes "llama";
          provider_connection_id = printed 60;
          upstream_model = codes "llama3.1";
          enabled = 1;
          max_tokens = some (pos 64);
          pricing_input_per_1m_tokens = pos 1000000;
          pricing_output_per_1m_tokens = pos 2000000;
        }
        ∷ [];
    provider_connections =
        record {
          id = printed 60;
          provider_type = codes "openai";
          auth_mode = codes "api_key";
          base_url = codes "https://upstream.example";
          api_key_encrypted = codes "c2VjcmV0";
          enabled = 1;
        }
        ∷ [];
    faults = [];
  };
  metrics = empty_registry;
  logs = record { request_logs = []; admin_audit_logs = []; faults = [] };
  upstream_calls = [];
  readings = 0;
}

chat_completions_impl-GivesBack_example :
    GivesBack to_decimal (user 1) gateway.redis (chat_completions_impl call gateway)
chat_completions_impl-GivesBack_example = chat_completions_impl-GivesBack call (user 1) gateway refl

chat_completions_impl-IsLogged_example :
    IsLogged (request_context call).request_id gateway.logs (chat_completions_impl call gateway)
chat_completions_impl-IsLogged_example = chat_completions_impl-IsLogged call gateway

chat_completions_impl-IsAdmitted_example :
    ((chat_completions_impl call gateway).1.upstream_calls ≡ [])
    ⊎ ((request : ChatRequest) × IsAdmitted call gateway request
        × ((chat_completions_impl call gateway).1.upstream_calls ≡ [] ++ request ∷ []))
chat_completions_impl-IsAdmitted_example = chat_completions_impl-IsAdmitted call gateway

chat_completions_impl-IsFair_example : IsFair tables (chat_completions_impl call gateway)
chat_completions_impl-IsFair_example =
    chat_completions_impl-IsFair call gateway (balanced, refl, refl)

allowed : resolve_effective_max_tokens (some 16) (some 64) [] ≡ ok (some 16)
unfolding resolve_effective_max_tokens
allowed = refl

resolve_effective_max_tokens-Within_example : Within (some 64) (some 16)
resolve_effective_max_tokens-Within_example =
    resolve_effective_max_tokens-Within (some 16) (some 64) (some 16) [] allowed

-- A stream that holds two slots.
abbrev state : StreamBuildState
state = record {
  upstream = chunks;
  completion_id = codes "chatcmpl-31";
  model = codes "llama";
  route_alias = codes "llama";
  context = request_context call;
  request_messages = call.payload.messages;
  latest_usage = none;
  created = 1700000000;
  route_price = record {
    input_microcredits_per_1m_tokens = pos 1000000;
    output_microcredits_per_1m_tokens = pos 2000000;
  };
  user_id = 1;
  api_key_id = some 3;
  provider_id = 60;
  route_id = 50;
  emit_done = true;
  limit_lease =
      some
        (codes "mizan:limit:concurrency:user:1" ∷ codes "mizan:limit:concurrency:api_key:3" ∷ []);
  completion_log = with_route_alias (codes "llama") (new_completion_log (request_context call));
}

serve-redis_example :
    (serve out (draw 9) 2 state gateway).1.redis ≡ released state.limit_lease gateway.redis
serve-redis_example = serve-redis out (draw 9) 2 state gateway

serve-IsSettled_example :
    IsSettled out state (draw 9) (ending none chunks) gateway (serve out (draw 9) 9 state gateway).1
serve-IsSettled_example = serve-IsSettled out (draw 9) 9 state gateway refl (omega arith)

two : 2 ≤ clean chunks
unfolding clean
two = omega arith

serve-left_example :
    (let g' = (serve out (draw 9) 2 state gateway).1 in
      (g'.world ≡ gateway.world) × (g'.logs ≡ gateway.logs) × (g'.metrics ≡ empty_registry))
serve-left_example = serve-left out (draw 9) 2 state gateway refl two
