-- ===== src/Billing/Uncharged.antt =====
-- When metering moves no money: on any failure, and for any status of a failed request.
use mizan.Prelude.{◌≡◌, inl, inr, refl, ap, false, pos}
use mizan.Core.Error.{AppError, ok, err}
use mizan.Core.Exec.Rules.{ok-ne-err}
use mizan.Billing.Tables.{Tables}
use mizan.Billing.Database.{World}
use mizan.Billing.Balance.{deltas, IsBalanced, balance_of}
use mizan.Billing.Wallets.{Draw}
use mizan.Billing.Usage.{BillingInput, event_row, add_event, record_usage}
use mizan.Billing.Writes.{Outcome, Stored}
use mizan.Billing.Settlement.{IsUnpaid, Settled}
use mizan.Billing.Metering.{
  is_success, total_of, IsFree-cases, record_usage-IsBalanced, record_usage-Settled,
  record_usage-Stored,
}
use mizan.Billing.Preflight.{SameMoney, SameMoney-refl}

IsUnpaid-SameMoney : (old new : Tables) → IsUnpaid old new → SameMoney old new
IsUnpaid-SameMoney old new h = record {
  credit_ledger = h.credit_ledger;
  balances = λ v. ap (balance_of v) h.wallets;
}

module _ (d : Draw) (input : BillingInput) where
  Stored-SameMoney :
      (w : World) (out : Outcome)
      → Stored (add_event (event_row d input input.status_code)) w out.0 out.1
      → SameMoney w.committed out.1.committed
  Stored-SameMoney w (ok _, v) h = rw h (record { credit_ledger = refl; balances = λ v'. refl })
  Stored-SameMoney w (err e, v) h = rw h.0 (SameMoney-refl w.committed)

  Settled-SameMoney :
      (old : Tables) (out : Outcome) (e : AppError)
      → Settled d input (total_of input) old out
      → out.0 ≡ err e
      → SameMoney old out.1.committed
  Settled-SameMoney old (ok a, v) e h refused = absurd (ok-ne-err a e refused)
  Settled-SameMoney old (err e', v) e h refused = IsUnpaid-SameMoney old v.committed h.0

  -- What metering may come to, as far as money goes.
  pub record Metered (w : World) (out : Outcome) : Type 0 where
    pub balanced : IsBalanced out.1.committed
    pub refused : (e : AppError) → out.0 ≡ err e → SameMoney w.committed out.1.committed
    pub free : is_success input ≡ false → SameMoney w.committed out.1.committed

  pub record_usage-Metered :
      (w : World)
      → IsBalanced w.committed
      → deltas d.wallet_id w.committed.credit_ledger ≡ pos 0
      → Metered w (record_usage d input w)
  record_usage-Metered w balanced fresh = record {
    balanced = record_usage-IsBalanced d input w balanced fresh;
    refused = λ e refused. elim (IsFree-cases d input w) [
      | inl costs_nothing ↦ Stored-SameMoney w _ (record_usage-Stored d input w costs_nothing)
      | inr (success, costs) ↦
          Settled-SameMoney w.committed _ e
            (record_usage-Settled d input w balanced fresh success costs) refused
    ];
    free = λ failed. Stored-SameMoney w _ (record_usage-Stored d input w (inl failed));
  }
