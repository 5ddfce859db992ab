-- ===== src/Billing/Balance.antt =====
-- The invariant of the tables: every wallet has a well-formed id and a balance that is the sum of
-- its ledger entries and not negative. What each statement does to it.
use mathlib.Core.Path.{subst}
use mizan.Prelude.{
  Bool-cases, true, false, inl, inr, ◌≡◌, ◌≢◌, refl, Option, some, none, List, [], ◌∷◌, ◌++◌, Text,
  All, ℤ, pos, ◌≤ℤ◌, ◌+ℤ◌, int_laws, ◌==◌, if◌then◌else◌, arith,
}
use mizan.Core.Id
use mizan.Core.Id.{Uuid, IdText, printed, malformed}
use mizan.Billing.Tables.{Wallet, LedgerEntry, Tables, find_wallet, insert_wallet, set_balance}

-- The sum of the entries of one wallet.
abbrev pub deltas : Uuid → List LedgerEntry → ℤ
deltas id [] = pos 0
deltas id (e ∷ es) =
    if e.wallet_id == id then e.request_delta_microcredits +ℤ deltas id es else deltas id es

abbrev pub IsBacked : List LedgerEntry → IdText → ℤ → Type 0
IsBacked es (printed id) balance = (deltas id es ≡ balance) × (pos 0 ≤ℤ balance)
IsBacked es (malformed _) balance = ⊥

abbrev pub AllBacked : List LedgerEntry → List Wallet → Type 0
AllBacked es = All (λ w. IsBacked es w.id w.balance_microcredits)

abbrev pub IsBalanced : Tables → Type 0
IsBalanced t = AllBacked t.credit_ledger t.wallets

abbrev pub credit : Option Wallet → ℤ
credit none = pos 0
credit (some w) = w.balance_microcredits

-- The credit that a user has; a user with no wallet has none.
abbrev pub balance_of : Uuid → List Wallet → ℤ
balance_of user ws = credit (find_wallet user ws)

pub deltas-append :
    (id : Uuid) (es : List LedgerEntry) (e : LedgerEntry)
    → deltas id (es ++ e ∷ [])
      ≡ (if e.wallet_id == id then deltas id es +ℤ e.request_delta_microcredits else deltas id es)
deltas-append id [] e = grind int_laws
deltas-append id (x ∷ es) e = grind (int_laws, deltas-append id es e)

some_injective : (v w : Wallet) → some v ≡ some w → v ≡ w
some_injective v w e = cc

pub find_wallet-IsBacked :
    (es : List LedgerEntry) (user : Uuid) (ws : List Wallet) {w : Wallet}
    → AllBacked es ws
    → find_wallet user ws ≡ some w
    → IsBacked es w.id w.balance_microcredits
unfolding find_wallet
find_wallet-IsBacked es user [] h e = cc
find_wallet-IsBacked es user (x ∷ ws) {w} h e = elim (Bool-cases (x.owner_user_id == user)) [
  | inl mine ↦
      let same : x ≡ w = some_injective x w (rw mine at e) in
      subst (λ v. IsBacked es v.id v.balance_microcredits) same h.0
  | inr other ↦ find_wallet-IsBacked es user ws h.1 (rw other at e)
]

pub insert_wallet-AllBacked :
    (es : List LedgerEntry) (new : Wallet) (ws : List Wallet)
    → AllBacked es ws
    → IsBacked es new.id new.balance_microcredits
    → AllBacked es (insert_wallet new ws)
unfolding insert_wallet
insert_wallet-AllBacked es new [] h k = (k, tt)
insert_wallet-AllBacked es new (x ∷ ws) h k =
    ground (arith, insert_wallet-AllBacked es new ws h.1 k)

pub find_wallet-insert_wallet :
    (new : Wallet) (ws : List Wallet)
    → find_wallet new.owner_user_id ws ≡ none
    → find_wallet new.owner_user_id (insert_wallet new ws) ≡ some new
unfolding find_wallet insert_wallet
find_wallet-insert_wallet new [] e = ground arith
find_wallet-insert_wallet new (x ∷ ws) e = ground (arith, find_wallet-insert_wallet new ws)

find_wallet-insert_wallet_ne :
    (new : Wallet) (user : Uuid) (ws : List Wallet)
    → user ≢ new.owner_user_id
    → find_wallet user (insert_wallet new ws) ≡ find_wallet user ws
unfolding find_wallet insert_wallet
find_wallet-insert_wallet_ne new user [] h = ground arith
find_wallet-insert_wallet_ne new user (x ∷ ws) h =
    ground (arith, find_wallet-insert_wallet_ne new user ws)

-- A new wallet without credit changes nobody's balance.
pub balance_of-insert_wallet :
    (new : Wallet) (user : Uuid) (ws : List Wallet)
    → new.balance_microcredits ≡ pos 0
    → find_wallet new.owner_user_id ws ≡ none
    → balance_of user (insert_wallet new ws) ≡ balance_of user ws
balance_of-insert_wallet new user ws zero_balance e =
    elim (Bool-cases (user == new.owner_user_id)) [
      | inl own ↦
          let same : user ≡ new.owner_user_id = ground arith in
          rw (same, e, find_wallet-insert_wallet new ws e) zero_balance
      | inr other ↦ rw (find_wallet-insert_wallet_ne new user ws (ground arith))
    ]

-- A new entry for `id`, and the balance that it leaves.
module _ (es : List LedgerEntry) (e : LedgerEntry) (balance : ℤ) (now : Text)
    (adds : balance ≡ deltas e.wallet_id es +ℤ e.request_delta_microcredits)
    (nonneg : pos 0 ≤ℤ balance) where
  set_balance-IsBacked :
      (id : IdText) (old : ℤ)
      → IsBacked es id old
      → IsBacked (es ++ e ∷ []) id (if Id.is_id id e.wallet_id then balance else old)
  set_balance-IsBacked (printed v) old h = ground (arith, deltas-append v es e)
  set_balance-IsBacked (malformed _) old h = absurd h

  step :
      (w : Wallet)
      → IsBacked es w.id w.balance_microcredits
      → IsBacked
          (es ++ e ∷ [])
          w.id
          (if Id.is_id w.id e.wallet_id then balance else w.balance_microcredits)
  step w h = set_balance-IsBacked w.id w.balance_microcredits h

  pub set_balance-AllBacked :
      (ws : List Wallet)
      → AllBacked es ws
      → AllBacked (es ++ e ∷ []) (set_balance e.wallet_id balance now ws)
  unfolding set_balance
  set_balance-AllBacked [] h = tt
  set_balance-AllBacked (w ∷ ws) h = elim (Bool-cases (Id.is_id w.id e.wallet_id)) [
    | inl same ↦ rw same (rw same at (step w h.0), set_balance-AllBacked ws h.1)
    | inr other ↦ rw other (rw other at (step w h.0), set_balance-AllBacked ws h.1)
  ]

-- `set_balance` on one row.
abbrev pub reset : Uuid → ℤ → Text → Wallet → Wallet
reset id balance now w =
    if Id.is_id w.id id then record w { balance_microcredits = balance; updated_at = now } else w

abbrev pub reset_found : Uuid → ℤ → Text → Option Wallet → Option Wallet
reset_found id balance now none = none
reset_found id balance now (some w) = some (reset id balance now w)

pub find_wallet-set_balance :
    (user id : Uuid) (balance : ℤ) (now : Text) (ws : List Wallet)
    → find_wallet user (set_balance id balance now ws)
      ≡ reset_found id balance now (find_wallet user ws)
unfolding find_wallet set_balance
find_wallet-set_balance user id balance now [] = refl
find_wallet-set_balance user id balance now (x ∷ ws) = elim (Bool-cases (Id.is_id x.id id)) [
  | inl hit ↦ rw hit (step (find_wallet-set_balance user id balance now ws) hit)
  | inr miss ↦ rw miss (step' (find_wallet-set_balance user id balance now ws) miss)
]
  where
    step :
        find_wallet user (set_balance id balance now ws)
          ≡ reset_found id balance now (find_wallet user ws)
        → Id.is_id x.id id ≡ true
        → (if x.owner_user_id == user
            then some (record x { balance_microcredits = balance; updated_at = now })
            else find_wallet user (set_balance id balance now ws))
          ≡ reset_found id balance now
              (if x.owner_user_id == user then some x else find_wallet user ws)
    step ih hit = elim (Bool-cases (x.owner_user_id == user)) [
      | inl own ↦ rw (own, hit)
      | inr other ↦ rw other ih
    ]

    step' :
        find_wallet user (set_balance id balance now ws)
          ≡ reset_found id balance now (find_wallet user ws)
        → Id.is_id x.id id ≡ false
        → (if x.owner_user_id == user
            then some x
            else find_wallet user (set_balance id balance now ws))
          ≡ reset_found id balance now
              (if x.owner_user_id == user then some x else find_wallet user ws)
    step' ih miss = elim (Bool-cases (x.owner_user_id == user)) [
      | inl own ↦ rw (own, miss)
      | inr other ↦ rw other ih
    ]

reset_same_id :
    (id : Uuid) (balance : ℤ) (now : Text) (w : Wallet)
    → w.id ≡ printed id
    → (reset id balance now w).balance_microcredits ≡ balance
reset_same_id id balance now w same = ground arith

-- The owner of the row sees the balance that was set.
pub balance_of-set_balance :
    (user id : Uuid) (balance : ℤ) (now : Text) (ws : List Wallet) {w : Wallet}
    → find_wallet user ws ≡ some w
    → w.id ≡ printed id
    → balance_of user (set_balance id balance now ws) ≡ balance
balance_of-set_balance user id balance now ws {w} e same =
    rw (find_wallet-set_balance user id balance now ws, e) (reset_same_id id balance now w same)
