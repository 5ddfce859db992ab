-- ===== src/Billing/Charge.antt =====
-- What `charge_wallet` and `record_usage` guarantee of every outcome.
use mizan.Prelude.{
  ◌≡◌, ◌≢◌, inl, inr, refl, sym, ap, ◌∙◌, Bool-cases, some, [], ◌∷◌, ◌++◌, codes, ℤ, pos, ltb_ℤ,
  ◌≤ℤ◌, ◌<ℤ◌, ◌-ℤ◌, int_laws, arith, if◌then◌else◌,
}
use mizan.Core.Error.{AppError, ok, err, insufficient_credit}
use mizan.Billing.Tables.{LedgerEntry, Tables}
use mizan.Core.Exec.{◌>>◌, throw}
use mizan.Billing.Database.{World, M, commit}
use mizan.Core.Exec.Rules.{bind_rule}
use mizan.Billing.Rules.{Opened, begin_rule, commit_last_rule}
use mizan.Billing.Balance.{
  deltas, IsBalanced, balance_of, set_balance-AllBacked, balance_of-set_balance,
}
use mizan.Billing.Wallets.{Draw, WalletRow, ensure_wallet_in_tx, post_entry, infrastructure_with}
use mizan.Billing.Wallets.Ensure.{
  IsRowOf, EnsuresWallet, ensured_ok, ensured_err, ensure_wallet_in_tx_lem,
}
use mizan.Billing.Usage.{
  BillingInput, Fits, event_row, add_event, insert_usage_event, insert_usage_event_tx,
  charge_wallet,
}
use mizan.Billing.Writes.{
  Outcome, Writes, Stores, entry, posted, wrote_ok, wrote_err, stored_ok, stored_err,
  post_entry_lem, insert_usage_event_tx_lem, insert_usage_event_lem,
}
use mizan.Billing.Settlement.{IsCharged, Settles}

module _ (d : Draw) (input : BillingInput) (total : ℤ) (w : World) where
  -- A call that stops at a failed statement.
  failed :
      (e : AppError) (v : World)
      → v.committed ≡ w.committed
      → e ≢ insufficient_credit
      → (w.faults ≡ [] → Fits input → ⊥)
      → Settles d input total w (err e, v)
  failed e v same other never = record {
    settled = (
      record { wallets = ap (λ t. t.wallets) same; credit_ledger = ap (λ t. t.credit_ledger) same },
      inl (ap (λ t. t.usage_events) same, other),
    );
    pays = λ h fits _. absurd (never h fits);
    refuses = λ h fits _. absurd (never h fits);
  }

  -- The state in which the wallet's row was read.
  record IsReady (row : WalletRow) (v : World) : Type 0 where
    committed : v.committed ≡ w.committed
    credit_ledger : v.pending.credit_ledger ≡ w.committed.credit_ledger
    usage_events : v.pending.usage_events ≡ w.committed.usage_events
    balance :
        balance_of input.user_id v.pending.wallets ≡ balance_of input.user_id w.committed.wallets
    balanced : IsBalanced v.pending
    is_row : IsRowOf input.user_id v.pending row
    no_faults : w.faults ≡ [] → v.faults ≡ []

  abbrev new_balance : WalletRow → ℤ
  new_balance row = row.balance_microcredits -ℤ total

  abbrev new_entry : WalletRow → LedgerEntry
  new_entry row =
      entry d row (some input.request_id) (pos 0 -ℤ total) (new_balance row) (codes "usage_charge")

  abbrev post : WalletRow → M (Unit {0})
  post row =
      post_entry d row (some input.request_id) (pos 0 -ℤ total) (new_balance row)
        (codes "usage_charge")

  abbrev posted_tables : WalletRow → Tables → Tables
  posted_tables row =
      posted d row (some input.request_id) (pos 0 -ℤ total) (new_balance row) (codes "usage_charge")

  abbrev new_tables : WalletRow → Tables → Tables
  new_tables row t = add_event (event_row d input input.status_code) (posted_tables row t)

  new_tables-IsCharged :
      (row : WalletRow) (v : World)
      → IsReady row v
      → total ≤ℤ row.balance_microcredits
      → IsCharged d input total w.committed (new_tables row v.pending)
  new_tables-IsCharged row v ready funds =
      let r = ready.is_row in
      let sees =
        balance_of-set_balance input.user_id row.id (new_balance row) d.entry_now v.pending.wallets
          r.found r.same_id in
      let old : balance_of input.user_id w.committed.wallets ≡ row.balance_microcredits =
        sym ready.balance ∙ r.balance in
      record {
        balanced =
            set_balance-AllBacked v.pending.credit_ledger (new_entry row) (new_balance row)
              d.entry_now (rw r.backed (omega int_laws)) (omega int_laws) v.pending.wallets
              ready.balanced;
        covered = rw old funds;
        paid = sees ∙ ap (λ b. b -ℤ total) (sym old);
        entry = new_entry row;
        credit_ledger = ap (λ es. es ++ new_entry row ∷ []) ready.credit_ledger;
        delta = refl;
        balance_after = sym sees;
        request_id = refl;
        usage_events = ap (λ es. es ++ event_row d input input.status_code ∷ []) ready.usage_events;
      }

  -- The writes of the payment and the commit.
  pay :
      (row : WalletRow) (v : World)
      → IsReady row v
      → total ≤ℤ row.balance_microcredits
      → Settles d input total w (
          (do
            post row
            insert_usage_event_tx d input input.status_code
            commit (infrastructure_with (codes "failed to commit metering transaction: ")))
            v)
  pay row v ready funds =
      bind_rule Q (post row) _ v
        (λ e stop.
          failed e _ (posting.committed ∙ ready.committed) (wrote_err posting stop).0
            (λ h fits. (wrote_err posting stop).1 (ready.no_faults h) tt))
        (λ _ done.
          bind_rule Q (insert_usage_event_tx d input input.status_code) _ v₁
            (λ e stop.
              failed e _ (adding.committed ∙ (posting.committed ∙ ready.committed))
                (wrote_err adding stop).0
                (λ h fits. (wrote_err adding stop).1 (posting.runs (ready.no_faults h) tt).1 fits))
            (λ _ done'.
              commit_last_rule Q _ v₂
                (λ m u same faulty.
                  failed _ u (same.0 ∙ (adding.committed ∙ (posting.committed ∙ ready.committed)))
                    (λ e. cc)
                    (λ h fits. faulty (adding.runs (posting.runs (ready.no_faults h) tt).1 fits).1))
                (λ u closed. finish u (
                  closed.0
                  ∙ (wrote_ok adding done'
                      ∙ ap (add_event (event_row d input input.status_code))
                          (wrote_ok posting done))))))
    where
      Q : Outcome → Type 0
      Q = Settles d input total w

      v₁ : World
      v₁ = (post row v).1

      v₂ : World
      v₂ = (insert_usage_event_tx d input input.status_code v₁).1

      posting : Writes (posted_tables row) Unit v (post row v)
      posting = post_entry_lem _ _ _ _ _ _ v

      adding :
          Writes
            (add_event (event_row d input input.status_code))
            (Fits input)
            v₁
            (insert_usage_event_tx d input input.status_code v₁)
      adding = insert_usage_event_tx_lem d input input.status_code v₁

      finish :
          (u : World) → u.committed ≡ new_tables row v.pending → Settles d input total w (ok tt, u)
      finish u same = record {
        settled = rw same (new_tables-IsCharged row v ready funds);
        pays = λ _ _ _. refl;
        refuses =
            λ _ _ short. absurd (omega (arith, (new_tables-IsCharged row v ready funds).covered));
      }

  -- The event of a refusal is written outside the transaction, which is dropped.
  refuse :
      (row : WalletRow) (v : World)
      → IsReady row v
      → row.balance_microcredits <ℤ total
      → Settles d input total w ((do insert_usage_event d input 402; throw insufficient_credit) v)
  refuse row v ready short =
      bind_rule (Settles d input total w) (insert_usage_event d input 402) _ v
        (λ e stop.
          let (same, other, never) = stored_err storing stop in
          failed e _ (same ∙ ready.committed) other (λ h. never (ready.no_faults h)))
        (λ _ done.
          finish _
            (stored_ok storing done ∙ ap (add_event (event_row d input 402)) ready.committed))
    where
      storing :
          Stores
            (add_event (event_row d input 402))
            (Fits input)
            v
            (insert_usage_event d input 402 v)
      storing = insert_usage_event_lem d input 402 v

      low : balance_of input.user_id w.committed.wallets <ℤ total
      low = rw (sym ready.balance ∙ ready.is_row.balance) short

      finish :
          (u : World)
          → u.committed ≡ add_event (event_row d input 402) w.committed
          → Settles d input total w (err insufficient_credit, u)
      finish u same = record {
        settled = (
          record {
            wallets = ap (λ t. t.wallets) same;
            credit_ledger = ap (λ t. t.credit_ledger) same;
          },
          inr (refl, record { short = low; usage_events = ap (λ t. t.usage_events) same }),
        );
        pays = λ _ _ funds. absurd (omega (arith, low));
        refuses = λ _ _ _. refl;
      }

  branch :
      (row : WalletRow) (v : World)
      → IsReady row v
      → Settles d input total w (
          (if ltb_ℤ row.balance_microcredits total
              then (do insert_usage_event d input 402; throw insufficient_credit)
              else (do
                post row
                insert_usage_event_tx d input input.status_code
                commit (infrastructure_with (codes "failed to commit metering transaction: "))))
            v)
  branch row v ready = elim (Bool-cases (ltb_ℤ row.balance_microcredits total)) [
    | inl short ↦ rw short (refuse row v ready (ground arith))
    | inr funds ↦ rw funds (pay row v ready (ground arith))
  ]

-- `charge_wallet` charges the whole total and records it, or moves no money.
pub charge_wallet_lem :
    (d : Draw) (input : BillingInput) (total : ℤ) (w : World)
    → IsBalanced w.committed
    → deltas d.wallet_id w.committed.credit_ledger ≡ pos 0
    → Settles d input total w (charge_wallet d input total w)
unfolding charge_wallet
charge_wallet_lem d input total w balanced fresh =
    begin_rule (Settles d input total w) _ _ w
      (λ m v same faulty. failed d input total w _ v same.0 (λ e. cc) (λ h _. faulty h))
      (λ v opened.
        bind_rule (Settles d input total w) (ensure_wallet_in_tx d input.user_id) _ v
          (λ e stop.
            failed d input total w e _ ((ensured v opened).committed ∙ opened.0)
              (ensured_err (ensured v opened) stop).0
              (λ h _. (ensured_err (ensured v opened) stop).1 (opened.2 h)))
          (λ row done. branch d input total w row _ (ready v opened row done)))
  where
    ensured :
        (v : World)
        → Opened v w
        → EnsuresWallet input.user_id v (ensure_wallet_in_tx d input.user_id v)
    ensured v opened =
        ensure_wallet_in_tx_lem d input.user_id v (rw opened.1 balanced) (rw opened.1 fresh)

    ready :
        (v : World)
        → Opened v w
        → (row : WalletRow) → (ensure_wallet_in_tx d input.user_id v).0 ≡ ok row
        → IsReady d input total w row (ensure_wallet_in_tx d input.user_id v).1
    ready v opened row done = record {
      committed = (ensured v opened).committed ∙ opened.0;
      credit_ledger = (ensured v opened).credit_ledger ∙ ap (λ t. t.credit_ledger) opened.1;
      usage_events = (ensured v opened).usage_events ∙ ap (λ t. t.usage_events) opened.1;
      balance =
          (ensured v opened).balances input.user_id
          ∙ ap (λ t. balance_of input.user_id t.wallets) opened.1;
      balanced = (ensured v opened).balanced;
      is_row = (ensured_ok (ensured v opened) done).0;
      no_faults = λ h. (ensured_ok (ensured v opened) done).1 (opened.2 h);
    }
