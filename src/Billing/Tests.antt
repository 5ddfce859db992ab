-- ===== src/Billing/Tests.antt =====
-- A balanced world, a request, and the theorems applied to them.
use mizan.Prelude.{
  i64_bound, ℕ, ◌≡◌, refl, inl, false, none, some, [], ◌∷◌, codes, pos, ◌<ℤ◌, ◌+ℤ◌, ◌-ℤ◌, ◌*ℤ◌,
  quot, as_i64, arith,
}
use mizan.Core.Id.{printed}
use mizan.Wallet.{calculate_usage_charge, ceil_div}
use mizan.Billing.Tables.{find_wallet, Tables}
use mizan.Billing.Database.{World}
use mizan.Billing.Balance.{IsBalanced, balance_of}
use mizan.Billing.Wallets.{Draw, GrantRequest, grant_credits}
use mizan.Billing.Usage.{
  BillingInput, event_row, add_event, total_charge, record_usage, ensure_sufficient_credit,
}
use mizan.Billing.Preflight.{Preflighted, ensure_sufficient_credit-Preflighted}
use mizan.Billing.Writes.{Stored}
use mizan.Billing.Settlement.{Settled}
use mizan.Billing.Grants.{Granted, grant_credits-Granted}
use mizan.Billing.Metering.{
  total_of, record_usage-IsBalanced, record_usage-Settled, record_usage-Stored,
}

abbrev draw : Draw
draw = record {
  wallet_id = 9;
  wallet_now = codes "1700000000";
  entry_id = 71;
  entry_now = codes "1700000001";
  event_id = 72;
  event_now = codes "1700000002";
}

abbrev tables : Tables
tables = record {
  wallets =
      record {
        id = printed 7;
        owner_user_id = 1;
        balance_microcredits = pos 500;
        created_at = codes "1600000000";
        updated_at = codes "1600000000";
      }
      ∷ [];
  credit_ledger =
      record {
        id = 70;
        wallet_id = 7;
        request_id = none;
        request_delta_microcredits = pos 500;
        balance_after_microcredits = pos 500;
        reason = codes "credit_grant";
        created_at = codes "1600000000";
      }
      ∷ [];
  usage_events = [];
  admin_audit_logs = [];
}

-- The second statement of the schedule fails.
abbrev world : World
world = record {
  committed = tables;
  pending = tables;
  faults = none ∷ some (codes "database is locked") ∷ [];
}

abbrev calm_world : World
calm_world = record { committed = tables; pending = tables; faults = [] }

abbrev request : ℕ → BillingInput
request status = record {
  request_id = 30;
  user_id = 1;
  api_key_id = some 40;
  provider_id = none;
  route_id = none;
  daemon_node_id = none;
  model = codes "llama3.1";
  usage = record {
    prompt_tokens = 10;
    completion_tokens = 5;
    total_tokens = 15;
    estimated = false;
  };
  status_code = status;
  latency_ms = 12;
  route_price = record {
    input_microcredits_per_1m_tokens = pos 1_000_000;
    output_microcredits_per_1m_tokens = pos 2_000_000;
  };
}

balanced : IsBalanced tables
unfolding ◌+ℤ◌
balanced = ((refl, ground arith), tt)

charged : total_of (request 200) ≡ pos 20
unfolding total_charge calculate_usage_charge ceil_div quot as_i64 ◌+ℤ◌ ◌-ℤ◌ ◌*ℤ◌
charged = refl

costs : pos 0 <ℤ total_of (request 200)
costs = rw charged (omega arith)

record_usage-IsBalanced_example : IsBalanced (record_usage draw (request 200) world).1.committed
record_usage-IsBalanced_example = record_usage-IsBalanced draw (request 200) world balanced refl

record_usage-Settled_example :
    Settled draw
      (request 200)
      (total_of (request 200))
      tables
      (record_usage draw (request 200) world)
record_usage-Settled_example =
    record_usage-Settled draw (request 200) world balanced refl refl costs

record_usage-Stored_example :
    Stored
      (add_event (event_row draw (request 500) 500))
      world
      (record_usage draw (request 500) world).0
      (record_usage draw (request 500) world).1
record_usage-Stored_example = record_usage-Stored draw (request 500) world (inl refl)

abbrev grant : GrantRequest
grant = record { amount_microcredits = pos 100; reason = none }

below_limit : balance_of 1 tables.wallets +ℤ pos 100 <ℤ pos i64_bound
unfolding find_wallet ◌+ℤ◌
below_limit = omega arith

grant_credits-Granted_example : Granted 1 (pos 100) tables (grant_credits draw 2 1 grant world)
grant_credits-Granted_example = grant_credits-Granted draw 2 1 grant world balanced refl below_limit

ensure_sufficient_credit-Preflighted_example :
    Preflighted 1
      (total_charge (request 200).usage (request 200).route_price)
      world
      (ensure_sufficient_credit draw 1 (request 200).usage (request 200).route_price world)
ensure_sufficient_credit-Preflighted_example =
    ensure_sufficient_credit-Preflighted draw 1 (request 200).usage (request 200).route_price world
      balanced refl
