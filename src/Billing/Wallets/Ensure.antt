-- ===== src/Billing/Wallets/Ensure.antt =====
-- What `ensure_wallet_in_tx` guarantees of every outcome.
use mathlib.Core.Path.{subst}
use mizan.Prelude.{
  ◌≡◌, ◌≢◌, refl, sym, ap, ◌∙◌, Text, Option, some, none, Option-cases, inl, inr, List, [], ℤ, pos,
  ◌≤ℤ◌, arith,
}
use mizan.Core.Id.{Uuid, IdText, printed, malformed}
use mizan.Core.Error.{AppError, AppResult, ok, err, infrastructure, insufficient_credit}
use mizan.Billing.Tables.{Wallet, LedgerEntry, Tables, find_wallet, insert_wallet}
use mizan.Core.Exec.{◌>>=◌}
use mizan.Billing.Database.{World, M, attempt}
use mizan.Core.Exec.Rules.{bind_assoc}
use mizan.Billing.Rules.{SameTables, attempt_rule}
use mizan.Billing.Balance.{
  deltas, IsBacked, IsBalanced, balance_of, find_wallet-IsBacked, insert_wallet-AllBacked,
  find_wallet-insert_wallet, balance_of-insert_wallet,
}
use mizan.Billing.Wallets.{
  WalletRow, Draw, new_wallet, select_wallet, wallet_row, read_created, create_wallet,
  found_or_created, ensure_wallet_in_tx,
}

-- The row belongs to the user and says what the tables say.
pub record IsRowOf (user : Uuid) (t : Tables) (row : WalletRow) : Type 0 where
  pub backed : deltas row.id t.credit_ledger ≡ row.balance_microcredits
  pub nonneg : pos 0 ≤ℤ row.balance_microcredits
  pub balance : balance_of user t.wallets ≡ row.balance_microcredits
  pub wallet : Wallet
  pub found : find_wallet user t.wallets ≡ some wallet
  pub same_id : wallet.id ≡ printed row.id

abbrev pub RowOf : Uuid → World → AppResult WalletRow → Type 0
RowOf user w (ok row) = IsRowOf user w.pending row
RowOf user w (err e) = e ≢ insufficient_credit

row-ne-err : (row : WalletRow) (e : AppError) → ok row ≡ err e → ⊥
row-ne-err row e h = cc

pub record EnsuresWallet (user : Uuid) (w : World) (out : AppResult WalletRow × World)
    : Type 0 where
  pub committed : out.1.committed ≡ w.committed
  pub credit_ledger : out.1.pending.credit_ledger ≡ w.pending.credit_ledger
  pub usage_events : out.1.pending.usage_events ≡ w.pending.usage_events
  pub balances : (v : Uuid) → balance_of v out.1.pending.wallets ≡ balance_of v w.pending.wallets
  pub balanced : IsBalanced out.1.pending
  pub row : RowOf user out.1 out.0
  pub runs : w.faults ≡ [] → (r : WalletRow) × (out.0 ≡ ok r) × (out.1.faults ≡ [])

IsBacked-printed :
    (es : List LedgerEntry) (id : IdText) (balance : ℤ)
    → IsBacked es id balance
    → (u : Uuid) × (id ≡ printed u) × (deltas u es ≡ balance) × (pos 0 ≤ℤ balance)
IsBacked-printed es (printed u) balance h = (u, refl, h.0, h.1)
IsBacked-printed es (malformed _) balance h = absurd h

-- A backed wallet that was found is read without an error.
wallet_row_lem :
    (user : Uuid) (v : Wallet) (w : World)
    → find_wallet user w.pending.wallets ≡ some v
    → IsBacked w.pending.credit_ledger v.id v.balance_microcredits
    → (row : WalletRow) × (wallet_row user v w ≡ (ok row, w)) × IsRowOf user w.pending row
unfolding wallet_row
wallet_row_lem user v w e h =
    let (u, same, sums, nonneg) = IsBacked-printed _ v.id v.balance_microcredits h in
    (
      record { id = u; owner_user_id = user; balance_microcredits = v.balance_microcredits },
      ground arith,
      record {
        backed = sums;
        nonneg = nonneg;
        balance = rw e;
        wallet = v;
        found = e;
        same_id = same;
      },
    )

select_rule :
    {A : Type 0} (Q : AppResult A × World → Type 0) (user : Uuid) (k : Option Wallet → M A)
    (w : World)
    → ((message : Text) (v : World)
        → SameTables v w
        → w.faults ≢ []
        → Q (err (infrastructure message), v))
    → ((v : World) → SameTables v w → Q (k (find_wallet user v.pending.wallets) v))
    → Q ((select_wallet user >>= k) w)
unfolding select_wallet
select_rule Q user k w stop go =
    subst Q (sym (bind_assoc _ k (attempt infrastructure) w))
      (attempt_rule Q infrastructure _ w stop go)

stopped :
    (user : Uuid) (e : AppError) (v w : World)
    → SameTables v w
    → IsBalanced w.pending
    → e ≢ insufficient_credit
    → w.faults ≢ []
    → EnsuresWallet user w (err e, v)
stopped user e v w same balanced other faulty = record {
  committed = same.0;
  credit_ledger = ap (λ t. t.credit_ledger) same.1;
  usage_events = ap (λ t. t.usage_events) same.1;
  balances = λ u. ap (λ t. balance_of u t.wallets) same.1;
  balanced = rw same.1 balanced;
  row = other;
  runs = λ none_left. absurd (faulty none_left);
}

EnsuresWallet-same :
    (user : Uuid) (v w : World) (out : AppResult WalletRow × World)
    → SameTables v w
    → EnsuresWallet user v out
    → EnsuresWallet user w out
EnsuresWallet-same user v w out same h = record {
  committed = h.committed ∙ same.0;
  credit_ledger = h.credit_ledger ∙ ap (λ t. t.credit_ledger) same.1;
  usage_events = h.usage_events ∙ ap (λ t. t.usage_events) same.1;
  balances = λ u. h.balances u ∙ ap (λ t. balance_of u t.wallets) same.1;
  balanced = h.balanced;
  row = h.row;
  runs = λ none_left. h.runs (same.2 none_left);
}

read_row :
    (user : Uuid) (v : Wallet) (w : World)
    → IsBalanced w.pending
    → find_wallet user w.pending.wallets ≡ some v
    → EnsuresWallet user w (wallet_row user v w)
read_row user v w balanced e =
    let backed = find_wallet-IsBacked w.pending.credit_ledger user w.pending.wallets balanced e in
    let (row, reads, is_row) = wallet_row_lem user v w e backed in
    subst (EnsuresWallet user w) (sym reads) (record {
      committed = refl;
      credit_ledger = refl;
      usage_events = refl;
      balances = λ u. refl;
      balanced = balanced;
      row = is_row;
      runs = λ none_left. (row, refl, none_left);
    })

-- The state after the wallet was inserted.
module _ (d : Draw) (user : Uuid) (v : World) (balanced : IsBalanced v.pending)
    (fresh : deltas d.wallet_id v.pending.credit_ledger ≡ pos 0)
    (missing : find_wallet user v.pending.wallets ≡ none) where
  abbrev with_wallet : World
  with_wallet = record v {
    pending = record (v.pending) { wallets = insert_wallet (new_wallet d user) v.pending.wallets };
  }

  with_wallet-IsBalanced : IsBalanced with_wallet.pending
  with_wallet-IsBalanced =
      insert_wallet-AllBacked v.pending.credit_ledger (new_wallet d user) v.pending.wallets balanced
        (fresh, omega arith)

  grown :
      (out : AppResult WalletRow × World)
      → EnsuresWallet user with_wallet out
      → EnsuresWallet user v out
  grown out h = record {
    committed = h.committed;
    credit_ledger = h.credit_ledger;
    usage_events = h.usage_events;
    balances = λ u.
        h.balances u
        ∙ balance_of-insert_wallet (new_wallet d user) u v.pending.wallets refl missing;
    balanced = h.balanced;
    row = h.row;
    runs = h.runs;
  }

  read_back :
      EnsuresWallet user with_wallet ((select_wallet user >>= read_created user) with_wallet)
  unfolding read_created
  read_back =
      select_rule (EnsuresWallet user with_wallet) user (read_created user) with_wallet
        (λ m x same faulty.
          stopped user _ x with_wallet same with_wallet-IsBalanced (λ e. cc) faulty)
        (λ x same.
          let e : find_wallet user x.pending.wallets ≡ some (new_wallet d user) =
            rw same.1 (find_wallet-insert_wallet (new_wallet d user) v.pending.wallets missing) in
          rw e (
            EnsuresWallet-same user x with_wallet _ same
              (read_row user (new_wallet d user) x (rw same.1 with_wallet-IsBalanced) e)))

create_wallet_lem :
    (d : Draw) (user : Uuid) (w : World)
    → IsBalanced w.pending
    → deltas d.wallet_id w.pending.credit_ledger ≡ pos 0
    → find_wallet user w.pending.wallets ≡ none
    → EnsuresWallet user w (create_wallet d user w)
unfolding create_wallet
create_wallet_lem d user w balanced fresh missing =
    attempt_rule (EnsuresWallet user w) _ _ w
      (λ m v same faulty. stopped user _ v w same balanced (λ e. cc) faulty)
      (λ v same. EnsuresWallet-same user v w _ same (
        grown d user v (rw same.1 balanced) (rw same.1 fresh) (rw same.1 missing) _
          (read_back d user v (rw same.1 balanced) (rw same.1 fresh) (rw same.1 missing))))

-- Every outcome of `ensure_wallet_in_tx` leaves the committed tables, the ledger and the events
-- alone, changes no user's balance and keeps the invariant; a row that it returns is the user's;
-- and it returns one if no statement fails.
pub ensure_wallet_in_tx_lem :
    (d : Draw) (user : Uuid) (w : World)
    → IsBalanced w.pending
    → deltas d.wallet_id w.pending.credit_ledger ≡ pos 0
    → EnsuresWallet user w (ensure_wallet_in_tx d user w)
unfolding ensure_wallet_in_tx
ensure_wallet_in_tx_lem d user w balanced fresh =
    select_rule (EnsuresWallet user w) user (found_or_created d user) w
      (λ m v same faulty. stopped user _ v w same balanced (λ e. cc) faulty)
      (λ v same.
        EnsuresWallet-same user v w _ same (branch v (rw same.1 balanced) (rw same.1 fresh)))
  where
    branch :
        (v : World)
        → IsBalanced v.pending
        → deltas d.wallet_id v.pending.credit_ledger ≡ pos 0
        → EnsuresWallet user v (found_or_created d user (find_wallet user v.pending.wallets) v)
    branch v balanced' fresh' = elim (Option-cases (find_wallet user v.pending.wallets)) [
      | inl missing ↦ rw missing (create_wallet_lem d user v balanced' fresh' missing)
      | inr (x, found) ↦ rw found (read_row user x v balanced' found)
    ]

module _ {user : Uuid} {w : World} {out : AppResult WalletRow × World}
    (h : EnsuresWallet user w out) where
  pub ensured_ok :
      {row : WalletRow}
      → out.0 ≡ ok row
      → IsRowOf user out.1.pending row × (w.faults ≡ [] → out.1.faults ≡ [])
  ensured_ok e = (subst (RowOf user out.1) e h.row, λ none_left. (h.runs none_left).2)

  pub ensured_err : {e : AppError} → out.0 ≡ err e → (e ≢ insufficient_credit) × (w.faults ≡ [] → ⊥)
  ensured_err {e} failed = (
    subst (RowOf user out.1) failed h.row,
    λ none_left. let (row, is_ok, _) = h.runs none_left in row-ne-err row e (sym is_ok ∙ failed),
  )
