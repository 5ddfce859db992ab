-- ===== src/Billing/Wallets.antt =====
-- `ensure_wallet`, `ensure_wallet_in_tx` and `grant_credits`. The handler's response on an error is
-- `from_app_error` of it, so the model keeps the error.
pub mod Ensure
use mizan.Prelude.{
  not, Option, none, some, [], ◌∷◌, ◌++◌, Text, codes, trim, is_empty, ℤ, pos, leb_ℤ,
  saturating_add_i64, if◌then◌else◌,
}
use mizan.Core.Id.{Uuid, printed, parse_id}
use mizan.Core.Error.{AppError, infrastructure, invalid_config, ok_or}
use mizan.Billing.Tables.{
  Wallet, LedgerEntry, GrantAudit, Tables, find_wallet, insert_wallet, set_balance,
}
use mizan.Core.Exec.{◌>>=◌, ◌>>◌, pure, throw, lift, gets, ignore}
use mizan.Billing.Database.{M, attempt, on_committed, on_pending, begin, commit}

pub record WalletRow : Type 0 where
  pub id : Uuid
  pub owner_user_id : Uuid
  pub balance_microcredits : ℤ

-- What a call draws from outside: the fresh uuids and the readings of the clock.
pub record Draw : Type 0 where
  pub wallet_id : Uuid
  pub wallet_now : Text
  pub entry_id : Uuid
  pub entry_now : Text
  pub event_id : Uuid
  pub event_now : Text

-- An error text with the driver's error behind it.
abbrev pub infrastructure_with : Text → Text → AppError
infrastructure_with context message = infrastructure (context ++ message)

select_wallet : Uuid → M (Option Wallet)
select_wallet user = do attempt infrastructure; gets (λ w. find_wallet user w.pending.wallets)

-- The text of the uuid parser's own error is left out.
wallet_row : Uuid → Wallet → M WalletRow
wallet_row user w = do
  id ← lift (parse_id (infrastructure (codes "invalid wallet id")) w.id)
  pure (record { id = id; owner_user_id = user; balance_microcredits = w.balance_microcredits })

abbrev pub new_wallet : Draw → Uuid → Wallet
new_wallet d user = record {
  id = printed d.wallet_id;
  owner_user_id = user;
  balance_microcredits = pos 0;
  created_at = d.wallet_now;
  updated_at = d.wallet_now;
}

-- The row that the second query gives, which must be there.
read_created : Uuid → Option Wallet → M WalletRow
unfolding wallet_row
read_created user created = do
  w ← lift (
      ok_or (infrastructure (codes "wallet initialization did not result in a wallet row")) created)
  wallet_row user w

create_wallet : Draw → Uuid → M WalletRow
unfolding select_wallet read_created
create_wallet d user = do
  attempt (infrastructure_with (codes "cannot initialize wallet: "))
  on_pending (λ t. record t { wallets = insert_wallet (new_wallet d user) t.wallets })
  created ← select_wallet user
  read_created user created

found_or_created : Draw → Uuid → Option Wallet → M WalletRow
found_or_created d user (some w) = wallet_row user w
found_or_created d user none = create_wallet d user

unfoldable pub ensure_wallet_in_tx : Draw → Uuid → M WalletRow
unfolding select_wallet wallet_row create_wallet found_or_created
ensure_wallet_in_tx d user = do existing ← select_wallet user; found_or_created d user existing

unfoldable pub ensure_wallet : Draw → Uuid → M WalletRow
unfolding ensure_wallet_in_tx begin commit
ensure_wallet d user = do
  begin infrastructure
  wallet ← ensure_wallet_in_tx d user
  commit (infrastructure_with (codes "failed to persist wallet row: "))
  pure wallet

-- The two writes that `grant_credits` and `record_usage` make to the wallet of a row, one after the
-- other in the transaction.
unfoldable pub post_entry : Draw → WalletRow → Option Uuid → ℤ → ℤ → Text → M (Unit {0})
post_entry d wallet request delta balance reason = do
  attempt (infrastructure_with (codes "failed to create credit ledger entry: "))
  on_pending (λ t. record t {
    credit_ledger =
        t.credit_ledger
        ++ record {
          id = d.entry_id;
          wallet_id = wallet.id;
          request_id = request;
          request_delta_microcredits = delta;
          balance_after_microcredits = balance;
          reason = reason;
          created_at = d.entry_now;
        }
          ∷ [];
  })
  attempt (infrastructure_with (codes "failed to update wallet balance: "))
  on_pending (λ t. record t { wallets = set_balance wallet.id balance d.entry_now t.wallets })

pub record GrantRequest : Type 0 where
  pub amount_microcredits : ℤ
  pub reason : Option Text

pub record GrantResponse : Type 0 where
  pub user_id : Uuid
  pub wallet_id : Uuid
  pub balance_microcredits : ℤ
  pub amount_microcredits : ℤ
  pub reason : Text

abbrev pub grant_reason : Option Text → Text
grant_reason none = codes "credit_grant"
grant_reason (some value) = if not (is_empty (trim value)) then value else codes "credit_grant"

-- `admin` is the caller, `user` the owner of the wallet.
unfoldable pub grant_credits : Draw → Uuid → Uuid → GrantRequest → M GrantResponse
unfolding ensure_wallet_in_tx post_entry begin commit
grant_credits d admin user payload =
    if leb_ℤ payload.amount_microcredits (pos 0)
    then throw (
        invalid_config (codes "grant.amount_microcredits")
          (codes "amount_microcredits must be greater than 0"))
    else do
      let reason = grant_reason payload.reason
      begin (infrastructure_with (codes "failed to begin grant credits transaction: "))
      wallet ← ensure_wallet_in_tx d user
      let new_balance = saturating_add_i64 wallet.balance_microcredits payload.amount_microcredits
      post_entry d wallet none payload.amount_microcredits new_balance reason
      commit (infrastructure_with (codes "failed to commit credit grant transaction: "))
      ignore (do
        attempt infrastructure
        on_committed (λ t. record t {
          admin_audit_logs =
              t.admin_audit_logs
              ++ record {
                actor_user_id = admin;
                action = codes "credit_granted";
                entity_type = codes "user";
                entity_id = user;
                amount_microcredits = payload.amount_microcredits;
                reason = reason;
              }
                ∷ [];
        }))
      pure (record {
        user_id = user;
        wallet_id = wallet.id;
        balance_microcredits = new_balance;
        amount_microcredits = payload.amount_microcredits;
        reason = reason;
      })
