-- ===== src/Billing/Preflight.antt =====
-- The credit preflight: what `ensure_sufficient_credit` accepts, and what it leaves alone.
use mathlib.Core.Path.{subst}
use mizan.Prelude.{
  ◌≡◌, ◌⊎◌, inl, inr, refl, sym, ap, ◌∙◌, Bool-cases, ℤ, pos, leb_ℤ, ltb_ℤ, ◌≤ℤ◌, arith,
}
use mizan.Core.Id.{Uuid}
use mizan.Core.Error.{AppResult, ok, err, insufficient_credit}
use mizan.Core.Exec.Rules.{bind_rule, ok-ne-err}
use mizan.Billing.Tables.{Tables}
use mizan.Billing.Database.{World}
use mizan.Billing.Rules.{begin_rule, commit_rule}
use mizan.Billing.Balance.{deltas, IsBalanced, balance_of}
use mizan.Billing.Wallets.{WalletRow, Draw, ensure_wallet, ensure_wallet_in_tx}
use mizan.Billing.Wallets.Ensure.{EnsuresWallet, ensure_wallet_in_tx_lem, ensured_ok}
use mizan.Billing.Usage.{TokenUsage, ensure_sufficient_credit, total_charge}
use mizan.Wallet.{RoutePrice}

-- No money moved: the ledger and every balance are as before.
pub record SameMoney (old new : Tables) : Type 0 where
  pub credit_ledger : new.credit_ledger ≡ old.credit_ledger
  pub balances : (v : Uuid) → balance_of v new.wallets ≡ balance_of v old.wallets

pub SameMoney-refl : (t : Tables) → SameMoney t t
SameMoney-refl t = record { credit_ledger = refl; balances = λ v. refl }

pub SameMoney-trans : (s t u : Tables) → SameMoney s t → SameMoney t u → SameMoney s u
SameMoney-trans s t u a b = record {
  credit_ledger = b.credit_ledger ∙ a.credit_ledger;
  balances = λ v. b.balances v ∙ a.balances v;
}

abbrev pub RowBalance : Uuid → World → AppResult WalletRow → Type 0
RowBalance user w (ok row) = row.balance_microcredits ≡ balance_of user w.committed.wallets
RowBalance user w (err e) = Unit {0}

-- What the wallet is asked for, whichever statement fails.
abbrev Ensures : Uuid → World → AppResult WalletRow × World → Type 0
Ensures user w out =
    SameMoney w.committed out.1.committed × IsBalanced out.1.committed × RowBalance user w out.0

module _ (d : Draw) (user : Uuid) (w : World) (balanced : IsBalanced w.committed)
    (fresh : deltas d.wallet_id w.committed.credit_ledger ≡ pos 0) where
  stopped :
      (v : World)
      → v.committed ≡ w.committed
      → SameMoney w.committed v.committed × IsBalanced v.committed × Unit {0}
  stopped v same = rw same (SameMoney-refl w.committed, balanced, tt)

  ensure_wallet_lem : Ensures user w (ensure_wallet d user w)
  unfolding ensure_wallet
  ensure_wallet_lem =
      begin_rule (Ensures user w) _ _ w (λ m v same _. stopped v same.0)
        (λ v opened.
          let h : EnsuresWallet user v (ensure_wallet_in_tx d user v) =
            ensure_wallet_in_tx_lem d user v (rw opened.1 balanced) (rw opened.1 fresh) in
          bind_rule (Ensures user w) (ensure_wallet_in_tx d user) _ v
            (λ e _. stopped (ensure_wallet_in_tx d user v).1 (h.committed ∙ opened.0))
            (λ row done.
              let u = (ensure_wallet_in_tx d user v).1 in
              commit_rule (Ensures user w) _ _ u
                (λ m x same _. stopped x (same.0 ∙ h.committed ∙ opened.0))
                (λ x closed. (
                  record {
                    credit_ledger =
                        ap (λ t. t.credit_ledger) closed.0
                        ∙ h.credit_ledger
                        ∙ ap (λ t. t.credit_ledger) opened.1;
                    balances = λ v'.
                        ap (λ t. balance_of v' t.wallets) closed.0
                        ∙ h.balances v'
                        ∙ ap (λ t. balance_of v' t.wallets) opened.1;
                  },
                  rw closed.0 h.balanced,
                  sym (ensured_ok h done).0.balance
                      ∙ h.balances user
                      ∙ ap (λ t. balance_of user t.wallets) opened.1,
                ))))

-- What a preflight for a total may come to.
pub record Preflighted (user : Uuid) (total : ℤ) (w : World) (out : AppResult (Unit {0}) × World)
    : Type 0 where
  pub same : SameMoney w.committed out.1.committed
  pub balanced : IsBalanced out.1.committed
  pub covered : out.0 ≡ ok tt → (total ≤ℤ pos 0) ⊎ (total ≤ℤ balance_of user w.committed.wallets)

-- Over balanced tables and a fresh wallet id, whichever statements fail: the preflight moves no money and
-- keeps the tables balanced, and it accepts only a total that is not above 0 or that the user's
-- balance covers.
pub ensure_sufficient_credit-Preflighted :
    (d : Draw) (user : Uuid) (usage : TokenUsage) (price : RoutePrice) (w : World)
    → IsBalanced w.committed
    → deltas d.wallet_id w.committed.credit_ledger ≡ pos 0
    → Preflighted user (total_charge usage price) w (ensure_sufficient_credit d user usage price w)
unfolding ensure_sufficient_credit
ensure_sufficient_credit-Preflighted d user usage price w balanced fresh =
    let total = total_charge usage price in
    let ensured = ensure_wallet_lem d user w balanced fresh in
    elim (Bool-cases (leb_ℤ total (pos 0))) [
      | inl free ↦ rw free (record {
        same = SameMoney-refl w.committed;
        balanced = balanced;
        covered = λ _. inl (ground arith);
      })
      | inr costs ↦ rw costs (
          bind_rule (Preflighted user total w) (ensure_wallet d user) _ w
            (λ e _. record {
              same = ensured.0;
              balanced = ensured.1;
              covered = λ accepted. absurd (ok-ne-err tt e (sym accepted));
            })
            (λ row done.
              let balance : row.balance_microcredits ≡ balance_of user w.committed.wallets =
                subst (RowBalance user w) done ensured.2 in
              elim (Bool-cases (ltb_ℤ row.balance_microcredits total)) [
                | inl short ↦ rw short (record {
                  same = ensured.0;
                  balanced = ensured.1;
                  covered = λ accepted. absurd (ok-ne-err tt insufficient_credit (sym accepted));
                })
                | inr funds ↦ rw funds (record {
                  same = ensured.0;
                  balanced = ensured.1;
                  covered = λ _. inr (rw⁻¹ balance (ground arith));
                })
              ]))
    ]
