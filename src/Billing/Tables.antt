-- ===== src/Billing/Tables.antt =====
-- The tables that billing reads and writes, as lists of rows in insertion order. The schema
-- (migrations/0001_initial.sql) makes `owner_user_id` unique in `wallets`, so the
-- `ORDER BY created_at DESC LIMIT 1` of the wallet query picks the one row that there is.
use mizan.Prelude.{ℕ, Bool, Option, none, some, List, [], ◌∷◌, Text, ℤ, ◌==◌, if◌then◌else◌}
use mizan.Core.Id.{Uuid, IdText, is_id}

pub record Wallet : Type 0 where
  pub id : IdText
  pub owner_user_id : Uuid
  pub balance_microcredits : ℤ
  pub created_at : Text
  pub updated_at : Text

pub record LedgerEntry : Type 0 where
  pub id : Uuid
  pub wallet_id : Uuid
  pub request_id : Option Uuid
  pub request_delta_microcredits : ℤ
  pub balance_after_microcredits : ℤ
  pub reason : Text
  pub created_at : Text

pub record UsageEvent : Type 0 where
  pub id : Uuid
  pub request_id : Uuid
  pub user_id : Uuid
  pub api_key_id : Option Uuid
  pub provider_id : Option Uuid
  pub route_id : Option Uuid
  pub daemon_node_id : Option Uuid
  pub model : Text
  pub usage_prompt_tokens : ℕ
  pub usage_completion_tokens : ℕ
  pub usage_total_tokens : ℕ
  pub usage_estimated : Bool
  pub status_code : ℕ
  pub latency_ms : ℕ
  pub created_at : Text

-- A row of `admin_audit_logs` for a credit grant; the JSON payload is kept as its two values.
pub record GrantAudit : Type 0 where
  pub actor_user_id : Uuid
  pub action : Text
  pub entity_type : Text
  pub entity_id : Uuid
  pub amount_microcredits : ℤ
  pub reason : Text

pub record Tables : Type 0 where
  pub wallets : List Wallet
  pub credit_ledger : List LedgerEntry
  pub usage_events : List UsageEvent
  pub admin_audit_logs : List GrantAudit

-- `SELECT … FROM wallets WHERE owner_user_id = ?`
unfoldable pub find_wallet : Uuid → List Wallet → Option Wallet
find_wallet user [] = none
find_wallet user (w ∷ ws) = if w.owner_user_id == user then some w else find_wallet user ws

-- `INSERT INTO wallets … ON CONFLICT(owner_user_id) DO NOTHING`
unfoldable pub insert_wallet : Wallet → List Wallet → List Wallet
insert_wallet new [] = new ∷ []
insert_wallet new (w ∷ ws) =
    if w.owner_user_id == new.owner_user_id then w ∷ ws else w ∷ insert_wallet new ws

-- `UPDATE wallets SET balance_microcredits = ?, updated_at = ? WHERE id = ?`
unfoldable pub set_balance : Uuid → ℤ → Text → List Wallet → List Wallet
set_balance id balance now [] = []
set_balance id balance now (w ∷ ws) =
    (if is_id w.id id then record w { balance_microcredits = balance; updated_at = now } else w)
    ∷ set_balance id balance now ws
