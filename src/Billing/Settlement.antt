-- ===== src/Billing/Settlement.antt =====
-- What a call of `record_usage` that costs something may come to.
use mizan.Prelude.{◌≡◌, ◌≢◌, ◌⊎◌, some, [], ◌∷◌, ◌++◌, ℤ, pos, ◌≤ℤ◌, ◌<ℤ◌, ◌-ℤ◌}
use mizan.Core.Error.{ok, err, insufficient_credit}
use mizan.Billing.Tables.{LedgerEntry, Tables}
use mizan.Billing.Database.{World}
use mizan.Billing.Balance.{IsBalanced, balance_of}
use mizan.Billing.Wallets.{Draw}
use mizan.Billing.Usage.{BillingInput, Fits, event_row}
use mizan.Billing.Writes.{Outcome}

-- The request was paid: the user had the credit, it went down by the total, one ledger entry
-- accounts for it, one usage event was added, and the invariant holds.
pub record IsCharged (d : Draw) (input : BillingInput) (total : ℤ) (old new : Tables) : Type 0 where
  pub balanced : IsBalanced new
  pub covered : total ≤ℤ balance_of input.user_id old.wallets
  pub paid : balance_of input.user_id new.wallets ≡ balance_of input.user_id old.wallets -ℤ total
  pub entry : LedgerEntry
  pub credit_ledger : new.credit_ledger ≡ old.credit_ledger ++ entry ∷ []
  pub delta : entry.request_delta_microcredits ≡ pos 0 -ℤ total
  pub balance_after : entry.balance_after_microcredits ≡ balance_of input.user_id new.wallets
  pub request_id : entry.request_id ≡ some input.request_id
  pub usage_events : new.usage_events ≡ old.usage_events ++ event_row d input input.status_code ∷ []

-- No money moved.
pub record IsUnpaid (old new : Tables) : Type 0 where
  pub wallets : new.wallets ≡ old.wallets
  pub credit_ledger : new.credit_ledger ≡ old.credit_ledger

-- A refusal for lack of credit is recorded as an event with status 402.
pub record IsRefused (d : Draw) (input : BillingInput) (total : ℤ) (old new : Tables) : Type 0 where
  pub short : balance_of input.user_id old.wallets <ℤ total
  pub usage_events : new.usage_events ≡ old.usage_events ++ event_row d input 402 ∷ []

abbrev pub Settled : Draw → BillingInput → ℤ → Tables → Outcome → Type 0
Settled d input total old (ok _, v) = IsCharged d input total old v.committed
Settled d input total old (err e, v) =
    IsUnpaid old v.committed
    × (((v.committed.usage_events ≡ old.usage_events) × (e ≢ insufficient_credit))
        ⊎ ((e ≡ insufficient_credit) × IsRefused d input total old v.committed))

-- All of it, with what happens if no statement fails.
pub record Settles (d : Draw) (input : BillingInput) (total : ℤ) (w : World) (out : Outcome)
    : Type 0 where
  pub settled : Settled d input total w.committed out
  pub pays :
      w.faults ≡ []
      → Fits input
      → total ≤ℤ balance_of input.user_id w.committed.wallets
      → out.0 ≡ ok tt
  pub refuses :
      w.faults ≡ []
      → Fits input
      → balance_of input.user_id w.committed.wallets <ℤ total
      → out.0 ≡ err insufficient_credit
