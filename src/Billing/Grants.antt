-- ===== src/Billing/Grants.antt =====
-- The theorem about `grant_credits`.
use mizan.Prelude.{
  ◌≡◌, refl, sym, ap, ◌∙◌, inl, inr, Bool-cases, none, [], ◌∷◌, ◌++◌, codes, ℤ, pos, negsuc, pos-+ℤ,
  leb_ℤ, ◌≤ℤ◌, ◌<ℤ◌, ◌+ℤ◌, int_laws, arith, i64_bound, saturating_add_i64,
}
use mizan.Core.Id.{Uuid}
use mizan.Core.Error.{AppResult, ok, err, infrastructure}
use mizan.Core.Exec.{◌>>◌, pure, ignore}
use mizan.Core.Exec.Rules.{bind_rule}
use mizan.Billing.Tables.{LedgerEntry, GrantAudit, Tables}
use mizan.Billing.Database.{World, M, attempt, on_committed}
use mizan.Billing.Rules.{begin_rule, commit_rule, attempt_rule}
use mizan.Billing.Balance.{
  deltas, IsBalanced, balance_of, set_balance-AllBacked, balance_of-set_balance,
}
use mizan.Billing.Wallets.{
  Draw, WalletRow, GrantRequest, GrantResponse, grant_reason, grant_credits, ensure_wallet_in_tx,
  post_entry, infrastructure_with,
}
use mizan.Billing.Wallets.Ensure.{IsRowOf, ensured_ok, ensure_wallet_in_tx_lem}
use mizan.Billing.Writes.{entry, posted, wrote_ok, post_entry_lem}

saturating_add_i64_exact :
    (a b : ℤ) → pos 0 ≤ℤ a → pos 0 ≤ℤ b → a +ℤ b <ℤ pos i64_bound → saturating_add_i64 a b ≡ a +ℤ b
unfolding saturating_add_i64
saturating_add_i64_exact (pos m) (pos n) ha hb small = ground (arith, pos-+ℤ m n)
saturating_add_i64_exact (pos m) (negsuc n) ha hb small =
    let impossible : ⊥ = ground arith in elim impossible [ ]
saturating_add_i64_exact (negsuc m) b ha hb small =
    let impossible : ⊥ = ground arith in elim impossible [ ]

-- The grant was made: the balance went up by the amount, one ledger entry accounts for it, and the
-- invariant holds.
pub record IsGranted (user : Uuid) (amount : ℤ) (old new : Tables) (response : GrantResponse)
    : Type 0 where
  pub balanced : IsBalanced new
  pub raised : balance_of user new.wallets ≡ balance_of user old.wallets +ℤ amount
  pub reported : response.balance_microcredits ≡ balance_of user new.wallets
  pub entry : LedgerEntry
  pub credit_ledger : new.credit_ledger ≡ old.credit_ledger ++ entry ∷ []
  pub delta : entry.request_delta_microcredits ≡ amount
  pub balance_after : entry.balance_after_microcredits ≡ balance_of user new.wallets

-- An error leaves the tables as they were.
abbrev pub Granted : Uuid → ℤ → Tables → AppResult GrantResponse × World → Type 0
Granted user amount old (ok response, v) = IsGranted user amount old v.committed response
Granted user amount old (err e, v) = v.committed ≡ old

module _ (d : Draw) (admin user : Uuid) (payload : GrantRequest) (w : World)
    (balanced : IsBalanced w.committed)
    (fresh : deltas d.wallet_id w.committed.credit_ledger ≡ pos 0)
    (small : balance_of user w.committed.wallets +ℤ payload.amount_microcredits
      <ℤ pos i64_bound) where
  abbrev Q : AppResult GrantResponse × World → Type 0
  Q = Granted user payload.amount_microcredits w.committed

  abbrev sum_of : WalletRow → ℤ
  sum_of row = saturating_add_i64 row.balance_microcredits payload.amount_microcredits

  abbrev granted_tables : WalletRow → Tables → Tables
  granted_tables row =
      posted d row none payload.amount_microcredits (sum_of row) (grant_reason payload.reason)

  module _ (row : WalletRow) (t : Tables) (is_row : IsRowOf user t row)
      (kept : t.credit_ledger ≡ w.committed.credit_ledger)
      (balance : balance_of user t.wallets ≡ balance_of user w.committed.wallets)
      (still : IsBalanced t) (positive : pos 0 <ℤ payload.amount_microcredits) where
    granted_tables-IsGranted :
        (new : Tables) (response : GrantResponse)
        → new.wallets ≡ (granted_tables row t).wallets
        → new.credit_ledger ≡ (granted_tables row t).credit_ledger
        → response.balance_microcredits ≡ sum_of row
        → IsGranted user payload.amount_microcredits w.committed new response
    granted_tables-IsGranted new response same_wallets same_ledger reported =
        let old : balance_of user w.committed.wallets ≡ row.balance_microcredits =
          sym balance ∙ is_row.balance in
        let within : row.balance_microcredits +ℤ payload.amount_microcredits <ℤ pos i64_bound =
          rw (sym old) small in
        let exact =
          saturating_add_i64_exact row.balance_microcredits payload.amount_microcredits
            is_row.nonneg (omega arith) within in
        let sees =
          ap (balance_of user) same_wallets
          ∙ balance_of-set_balance user row.id (sum_of row) d.entry_now t.wallets is_row.found
              is_row.same_id in
        let new_entry =
          entry d row none payload.amount_microcredits (sum_of row) (grant_reason payload.reason) in
        let backed = exact ∙ ap (λ b. b +ℤ payload.amount_microcredits) (sym is_row.backed) in
        let nonneg : pos 0 ≤ℤ sum_of row = rw exact (grind (int_laws, is_row.nonneg)) in
        record {
          balanced =
              rw (same_wallets, same_ledger)
                (set_balance-AllBacked t.credit_ledger new_entry (sum_of row) d.entry_now backed
                  nonneg t.wallets still);
          raised = sees ∙ exact ∙ ap (λ b. b +ℤ payload.amount_microcredits) (sym old);
          reported = reported ∙ sym sees;
          entry = new_entry;
          credit_ledger = same_ledger ∙ ap (λ es. es ++ new_entry ∷ []) kept;
          delta = refl;
          balance_after = sym sees;
        }

-- The audit row of a grant touches neither wallets nor the ledger.
abbrev SameMoney : World → AppResult (Unit {0}) × World → Type 0
SameMoney u out =
    (out.1.committed.wallets ≡ u.committed.wallets)
    × (out.1.committed.credit_ledger ≡ u.committed.credit_ledger)

abbrev write_audit : GrantAudit → M (Unit {0})
write_audit row = do
  attempt infrastructure
  on_committed (λ t. record t { admin_audit_logs = t.admin_audit_logs ++ row ∷ [] })

audit_lem : (row : GrantAudit) (u : World) → SameMoney u (write_audit row u)
audit_lem row u =
    attempt_rule (SameMoney u) _ _ u
      (λ m v same _. (ap (λ t. t.wallets) same.0, ap (λ t. t.credit_ledger) same.0))
      (λ v same. (ap (λ t. t.wallets) same.0, ap (λ t. t.credit_ledger) same.0))

module _ (admin user : Uuid) (payload : GrantRequest) (row : WalletRow) where
  abbrev audit_row : GrantAudit
  audit_row = record {
    actor_user_id = admin;
    action = codes "credit_granted";
    entity_type = codes "user";
    entity_id = user;
    amount_microcredits = payload.amount_microcredits;
    reason = grant_reason payload.reason;
  }

  abbrev response : GrantResponse
  response = record {
    user_id = user;
    wallet_id = row.id;
    balance_microcredits = saturating_add_i64 row.balance_microcredits payload.amount_microcredits;
    amount_microcredits = payload.amount_microcredits;
    reason = grant_reason payload.reason;
  }

  -- What follows the commit.
  abbrev finish : Unit {0} → M GrantResponse
  finish _ = do ignore (write_audit audit_row); pure response

-- Over balanced tables and a fresh wallet id, while the balance and the amount together stay below 2^63, and
-- whichever statements fail: if `grant_credits` succeeds, the balance went up by the amount, which is the
-- balance it reports, one ledger entry with the amount and the new balance accounts for it, and the tables
-- are balanced; if it fails, the committed tables are as before.
pub grant_credits-Granted :
    (d : Draw) (admin user : Uuid) (payload : GrantRequest) (w : World)
    → IsBalanced w.committed
    → deltas d.wallet_id w.committed.credit_ledger ≡ pos 0
    → balance_of user w.committed.wallets +ℤ payload.amount_microcredits <ℤ pos i64_bound
    → Granted user payload.amount_microcredits w.committed (grant_credits d admin user payload w)
unfolding grant_credits
grant_credits-Granted d admin user payload w balanced fresh small =
    elim (Bool-cases (leb_ℤ payload.amount_microcredits (pos 0))) [
      | inl invalid ↦ rw invalid refl
      | inr valid ↦ rw valid (
          begin_rule Q' _ _ w (λ m v same _. same.0)
            (λ v opened.
              let ensured =
                ensure_wallet_in_tx_lem d user v (rw opened.1 balanced) (rw opened.1 fresh) in
              bind_rule Q' (ensure_wallet_in_tx d user) _ v (λ e _. ensured.committed ∙ opened.0)
                (λ row found.
                  let v₁ = (ensure_wallet_in_tx d user v).1 in
                  let posting =
                    post_entry_lem d row none payload.amount_microcredits
                      (sum_of d admin user payload w balanced fresh small row)
                      (grant_reason payload.reason) v₁ in
                  bind_rule Q'
                    (post_entry d row none payload.amount_microcredits _
                      (grant_reason payload.reason))
                    _ v₁ (λ e _. posting.committed ∙ (ensured.committed ∙ opened.0))
                    (λ _ done.
                      commit_rule Q'
                        (infrastructure_with (codes "failed to commit credit grant transaction: "))
                        (finish admin user payload row) _
                        (λ m u same _.
                          same.0 ∙ (posting.committed ∙ (ensured.committed ∙ opened.0)))
                        (λ u closed.
                          let audited = audit_lem (audit_row admin user payload row) u in
                          let stored = closed.0 ∙ wrote_ok posting done in
                          granted_tables-IsGranted d admin user payload w balanced fresh small row
                            v₁.pending (ensured_ok ensured found).0
                            (ensured.credit_ledger ∙ ap (λ t. t.credit_ledger) opened.1)
                            (ensured.balances user ∙ ap (λ t. balance_of user t.wallets) opened.1)
                            ensured.balanced (ground arith) _ (response admin user payload row)
                            (audited.0 ∙ ap (λ t. t.wallets) stored)
                            (audited.1 ∙ ap (λ t. t.credit_ledger) stored) refl)))))
    ]
  where
    Q' : AppResult GrantResponse × World → Type 0
    Q' = Granted user payload.amount_microcredits w.committed
