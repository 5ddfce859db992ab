-- ===== src/Billing/Writes.antt =====
-- The outcomes of the writes: the statements of a transaction change the open copy only, a write on
-- the pool changes the committed tables only, and each is all or nothing as far as it shows.
use mathlib.Core.Path.{subst}
use mizan.Prelude.{ℕ, ◌≡◌, ◌≢◌, refl, sym, ap, ◌∙◌, Option, [], ◌∷◌, ◌++◌, Text, ℤ, arith}
use mizan.Core.Id.{Uuid}
use mizan.Core.Error.{AppError, AppResult, ok, err, insufficient_credit}
use mizan.Billing.Tables.{UsageEvent, LedgerEntry, Tables, set_balance}
use mizan.Billing.Database.{World}
use mizan.Core.Exec.Rules.{bind_rule}
use mizan.Billing.Rules.{attempt_rule}
use mizan.Billing.Wallets.{Draw, WalletRow, post_entry}
use mizan.Billing.Usage.{
  BillingInput, usage_event, add_event, event_row, Fits, insert_usage_event, insert_usage_event_tx,
}

abbrev pub Outcome : Type 0
Outcome = AppResult (Unit {0}) × World

ok-ne-err : (e : AppError) → ◌≡◌ {A = AppResult (Unit {0})} (ok tt) (err e) → ⊥
ok-ne-err e h = cc

abbrev pub Wrote : (Tables → Tables) → World → AppResult (Unit {0}) → World → Type 0
Wrote f w (ok _) v = v.pending ≡ f w.pending
Wrote f w (err e) v = e ≢ insufficient_credit

-- In a transaction. `fits` is what the values must meet for the write to go through.
pub record Writes (f : Tables → Tables) (fits : Type 0) (w : World) (out : Outcome) : Type 0 where
  pub committed : out.1.committed ≡ w.committed
  pub result : Wrote f w out.0 out.1
  pub runs : w.faults ≡ [] → fits → (out.0 ≡ ok tt) × (out.1.faults ≡ [])

abbrev pub Stored : (Tables → Tables) → World → AppResult (Unit {0}) → World → Type 0
Stored f w (ok _) v = v.committed ≡ f w.committed
Stored f w (err e) v = (v.committed ≡ w.committed) × (e ≢ insufficient_credit)

module _ {f : Tables → Tables} {fits : Type 0} {w : World} {out : Outcome}
    (h : Writes f fits w out) where
  pub wrote_ok : {a : Unit {0}} → out.0 ≡ ok a → out.1.pending ≡ f w.pending
  wrote_ok e = subst (λ r. Wrote f w r out.1) e h.result

  pub wrote_err :
      {e : AppError} → out.0 ≡ err e → (e ≢ insufficient_credit) × (w.faults ≡ [] → fits → ⊥)
  wrote_err {e} failed = (
    subst (λ r. Wrote f w r out.1) failed h.result,
    λ no_faults fit. ok-ne-err e (sym (h.runs no_faults fit).0 ∙ failed),
  )

-- On the pool.
pub record Stores (f : Tables → Tables) (fits : Type 0) (w : World) (out : Outcome) : Type 0 where
  pub result : Stored f w out.0 out.1
  pub runs : w.faults ≡ [] → fits → (out.0 ≡ ok tt) × (out.1.faults ≡ [])

module _ {f : Tables → Tables} {fits : Type 0} {w : World} {out : Outcome}
    (h : Stores f fits w out) where
  pub stored_ok : {a : Unit {0}} → out.0 ≡ ok a → out.1.committed ≡ f w.committed
  stored_ok e = subst (λ r. Stored f w r out.1) e h.result

  pub stored_err :
      {e : AppError}
      → out.0 ≡ err e
      → (out.1.committed ≡ w.committed) × (e ≢ insufficient_credit) × (w.faults ≡ [] → fits → ⊥)
  stored_err {e} failed =
      let (same, other) = subst (λ r. Stored f w r out.1) failed h.result in
      (same, other, λ no_faults fit. ok-ne-err e (sym (h.runs no_faults fit).0 ∙ failed))

-- The entry and the balance that `post_entry` writes.
abbrev pub entry : Draw → WalletRow → Option Uuid → ℤ → ℤ → Text → LedgerEntry
entry d wallet request delta balance reason = record {
  id = d.entry_id;
  wallet_id = wallet.id;
  request_id = request;
  request_delta_microcredits = delta;
  balance_after_microcredits = balance;
  reason = reason;
  created_at = d.entry_now;
}

abbrev pub posted : Draw → WalletRow → Option Uuid → ℤ → ℤ → Text → Tables → Tables
posted d wallet request delta balance reason t = record t {
  credit_ledger = t.credit_ledger ++ entry d wallet request delta balance reason ∷ [];
  wallets = set_balance wallet.id balance d.entry_now t.wallets;
}

pub post_entry_lem :
    (d : Draw) (wallet : WalletRow) (request : Option Uuid) (delta balance : ℤ) (reason : Text)
    (w : World)
    → Writes
        (posted d wallet request delta balance reason)
        Unit
        w
        (post_entry d wallet request delta balance reason w)
unfolding post_entry
post_entry_lem d wallet request delta balance reason w =
    attempt_rule (Writes f Unit w) _ _ w
      (λ m v same faulty. record {
        committed = same.0;
        result = λ e. cc;
        runs = λ h _. absurd (faulty h);
      })
      (λ v same.
        attempt_rule (Writes f Unit w) _ _ _
          (λ m u same' faulty. record {
            committed = same'.0 ∙ same.0;
            result = λ e. cc;
            runs = λ h _. absurd (faulty (same.2 h));
          })
          (λ u same'. record {
            committed = same'.0 ∙ same.0;
            result = cc (same'.1, same.1);
            runs = λ h _. (refl, same'.2 (same.2 h));
          }))
  where
    f : Tables → Tables
    f = posted d wallet request delta balance reason

module _ (d : Draw) (input : BillingInput) (status : ℕ) (w : World) where
  usage_event_same : (usage_event d input status w).1 ≡ w
  unfolding usage_event
  usage_event_same = ground arith

  usage_event_ok :
      (row : UsageEvent)
      → (usage_event d input status w).0 ≡ ok row
      → row ≡ event_row d input status
  unfolding usage_event
  usage_event_ok row h = ground arith

  usage_event_err :
      (e : AppError)
      → (usage_event d input status w).0 ≡ err e
      → (e ≢ insufficient_credit) × ¬ Fits input
  unfolding usage_event
  usage_event_err e h = (ground arith, λ fits. ground arith)

  usage_event_runs : Fits input → (usage_event d input status w).0 ≡ ok (event_row d input status)
  unfolding usage_event
  usage_event_runs fits = ground arith

pub insert_usage_event_tx_lem :
    (d : Draw) (input : BillingInput) (status : ℕ) (w : World)
    → Writes
        (add_event (event_row d input status))
        (Fits input)
        w
        (insert_usage_event_tx d input status w)
unfolding insert_usage_event_tx
insert_usage_event_tx_lem d input status w =
    let same = usage_event_same d input status w in
    bind_rule (Writes f (Fits input) w) (usage_event d input status) _ w
      (λ e failed. record {
        committed = ap (λ v. v.committed) same;
        result = (usage_event_err d input status w e failed).0;
        runs = λ _ fits. absurd ((usage_event_err d input status w e failed).1 fits);
      })
      (λ row made.
        rw (same, usage_event_ok d input status w row made)
          (attempt_rule (Writes f (Fits input) w) _ _ w
            (λ m v same' faulty. record {
              committed = same'.0;
              result = λ e. cc;
              runs = λ h _. absurd (faulty h);
            })
            (λ v same'. record {
              committed = same'.0;
              result = cc (same'.1);
              runs = λ h _. (refl, same'.2 h);
            })))
  where
    f : Tables → Tables
    f = add_event (event_row d input status)

pub insert_usage_event_lem :
    (d : Draw) (input : BillingInput) (status : ℕ) (w : World)
    → Stores
        (add_event (event_row d input status))
        (Fits input)
        w
        (insert_usage_event d input status w)
unfolding insert_usage_event
insert_usage_event_lem d input status w =
    let same = usage_event_same d input status w in
    bind_rule (Stores f (Fits input) w) (usage_event d input status) _ w
      (λ e failed. record {
        result = (ap (λ v. v.committed) same, (usage_event_err d input status w e failed).0);
        runs = λ _ fits. absurd ((usage_event_err d input status w e failed).1 fits);
      })
      (λ row made.
        rw (same, usage_event_ok d input status w row made)
          (attempt_rule (Stores f (Fits input) w) _ _ w
            (λ m v same' faulty. record {
              result = (same'.0, λ e. cc);
              runs = λ h _. absurd (faulty h);
            })
            (λ v same'. record { result = cc (same'.0); runs = λ h _. (refl, same'.2 h) })))
  where
    f : Tables → Tables
    f = add_event (event_row d input status)
