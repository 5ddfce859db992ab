-- ===== src/Billing/Metering.antt =====
-- The theorems about `record_usage` and the credit preflight.
use mizan.Prelude.{
  ◌≡◌, ◌⊎◌, inl, inr, Bool, true, false, ◌&&◌, Bool-cases, leb, ℤ, pos, leb_ℤ, ◌≤ℤ◌, ◌<ℤ◌, arith,
}
use mizan.Core.Error.{ok, err}
use mizan.Billing.Tables.{Tables}
use mizan.Billing.Database.{World}
use mizan.Billing.Balance.{deltas, IsBalanced}
use mizan.Billing.Wallets.{Draw}
use mizan.Billing.Usage.{
  BillingInput, Fits, event_row, add_event, insert_usage_event, total_charge, charge_wallet,
  record_usage,
}
use mizan.Billing.Writes.{Outcome, Stored, Stores, insert_usage_event_lem}
use mizan.Billing.Settlement.{IsUnpaid, Settled, Settles}
use mizan.Billing.Charge.{charge_wallet_lem}

abbrev pub is_success : BillingInput → Bool
is_success input = leb 200 input.status_code && leb input.status_code 299

abbrev pub total_of : BillingInput → ℤ
total_of input = total_charge input.usage input.route_price

-- A request that failed, or that costs nothing.
abbrev pub IsFree : BillingInput → Type 0
IsFree input = (is_success input ≡ false) ⊎ (total_of input ≤ℤ pos 0)

module _ (d : Draw) (input : BillingInput) (w : World) where
  record_usage_free :
      IsFree input → record_usage d input w ≡ insert_usage_event d input input.status_code w
  unfolding record_usage
  record_usage_free (inl failed) = rw failed
  record_usage_free (inr free) = ground arith

  record_usage_charged :
      is_success input ≡ true
      → pos 0 <ℤ total_of input
      → record_usage d input w ≡ charge_wallet d input (total_of input) w
  unfolding record_usage
  record_usage_charged success costs = ground arith

  pub IsFree-cases : IsFree input ⊎ ((is_success input ≡ true) × (pos 0 <ℤ total_of input))
  IsFree-cases = elim (Bool-cases (is_success input)) [
    | inr failed ↦ inl (inl failed)
    | inl success ↦ elim (Bool-cases (leb_ℤ (total_of input) (pos 0))) [
      | inl free ↦ inl (inr (ground arith))
      | inr costs ↦ inr (success, ground arith)
    ]
  ]

  stores :
      IsFree input
      → Stores
          (add_event (event_row d input input.status_code))
          (Fits input)
          w
          (record_usage d input w)
  stores free = rw (record_usage_free free) (insert_usage_event_lem d input input.status_code w)

  module _ (balanced : IsBalanced w.committed)
      (fresh : deltas d.wallet_id w.committed.credit_ledger ≡ pos 0)
      (success : is_success input ≡ true) (costs : pos 0 <ℤ total_of input) where
    settles : Settles d input (total_of input) w (record_usage d input w)
    settles =
        rw (record_usage_charged success costs)
          (charge_wallet_lem d input (total_of input) w balanced fresh)

IsUnpaid-IsBalanced : (old new : Tables) → IsUnpaid old new → IsBalanced old → IsBalanced new
IsUnpaid-IsBalanced old new same h = rw (same.wallets, same.credit_ledger) h

Settled-IsBalanced :
    (d : Draw) (input : BillingInput) (total : ℤ) (old : Tables) (out : Outcome)
    → Settled d input total old out
    → IsBalanced old
    → IsBalanced out.1.committed
Settled-IsBalanced d input total old (ok _, v) h b = h.balanced
Settled-IsBalanced d input total old (err e, v) h b = IsUnpaid-IsBalanced old v.committed h.0 b

Stored-IsBalanced :
    (d : Draw) (input : BillingInput) (w : World) (out : Outcome)
    → Stored (add_event (event_row d input input.status_code)) w out.0 out.1
    → IsBalanced w.committed
    → IsBalanced out.1.committed
Stored-IsBalanced d input w (ok _, v) h b = rw h b
Stored-IsBalanced d input w (err e, v) h b = rw h.0 b

-- If every balance is the sum of its ledger entries and not negative, and no entry names the fresh
-- wallet id, then this is still so of the committed tables after `record_usage`, whatever the input
-- and whichever statements fail.
pub record_usage-IsBalanced :
    (d : Draw) (input : BillingInput) (w : World)
    → IsBalanced w.committed
    → deltas d.wallet_id w.committed.credit_ledger ≡ pos 0
    → IsBalanced (record_usage d input w).1.committed
record_usage-IsBalanced d input w balanced fresh = elim (IsFree-cases d input w) [
  | inl free ↦ Stored-IsBalanced d input w _ (stores d input w free).result balanced
  | inr (success, costs) ↦
      Settled-IsBalanced d input (total_of input) w.committed _
        (settles d input w balanced fresh success costs).settled balanced
]

-- For a status from 200 to 299 and a total above 0, over balanced tables and a fresh wallet id,
-- whichever statements fail: if `record_usage` succeeds, the user had the credit, the balance went
-- down by the total, one ledger entry with the request's id and the new balance accounts for it, and
-- one usage event was added; if it fails, wallets and ledger are as before, and so are the events,
-- except that a refusal for lack of credit happens only when the balance is below the total and adds
-- one event with status 402.
pub record_usage-Settled :
    (d : Draw) (input : BillingInput) (w : World)
    → IsBalanced w.committed
    → deltas d.wallet_id w.committed.credit_ledger ≡ pos 0
    → is_success input ≡ true
    → pos 0 <ℤ total_of input
    → Settled d input (total_of input) w.committed (record_usage d input w)
record_usage-Settled d input w balanced fresh success costs =
    (settles d input w balanced fresh success costs).settled

-- For a status outside 200 to 299, or a total of at most 0, whichever statements fail: a success changes the
-- committed tables by one usage event alone, and a failure changes nothing and is not for lack of
-- credit.
pub record_usage-Stored :
    (d : Draw) (input : BillingInput) (w : World)
    → IsFree input
    → Stored
        (add_event (event_row d input input.status_code))
        w
        (record_usage d input w).0
        (record_usage d input w).1
record_usage-Stored d input w free = (stores d input w free).result
