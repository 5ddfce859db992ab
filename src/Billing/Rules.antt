-- ===== src/Billing/Rules.antt =====
-- Rules to follow a call statement by statement: what holds of every outcome holds if it holds of
-- the error at which the call stops, and of what follows a success.
use mathlib.Core.Path.{subst}
use mizan.Prelude.{◌≡◌, refl, sym, ◌≢◌, Option, some, none, List, [], ◌∷◌, Text}
use mizan.Core.Error.{AppError, AppResult, ok, err}
use mizan.Core.Exec.{continue, ◌>>=◌, meet}
use mizan.Core.Exec.Rules.{bind_assoc}
use mizan.Billing.Database.{World, M, attempt, begin, commit}

-- Two worlds with the same tables; where no statement was going to fail, none will.
abbrev pub SameTables : World → World → Type 0
SameTables v w =
    (v.committed ≡ w.committed) × (v.pending ≡ w.pending) × (w.faults ≡ [] → v.faults ≡ [])

module _ {B : Type 0} (Q : AppResult B × World → Type 0) (wrap : Text → AppError)
    (f : Unit {0} → M B) (w : World) where
  Stops : Type 0
  Stops = (message : Text) (v : World) → SameTables v w → w.faults ≢ [] → Q (err (wrap message), v)

  meet_rule :
      (faults : List (Option Text))
      → faults ≡ w.faults
      → Stops
      → ((v : World) → SameTables v w → Q (f tt v))
      → Q (let (r, v) = meet (λ v fs. record v { faults = fs }) wrap faults w in continue r f v)
  unfolding Stops
  meet_rule [] e stop go = go w (refl, refl, λ h. h)
  meet_rule (none ∷ fs) e stop go = go (record w { faults = fs }) (refl, refl, λ h. cc)
  meet_rule (some message ∷ fs) e stop go =
      stop message (record w { faults = fs }) (refl, refl, λ h. cc) (λ h. cc)

  pub attempt_rule :
      ((message : Text) (v : World) → SameTables v w → w.faults ≢ [] → Q (err (wrap message), v))
      → ((v : World) → SameTables v w → Q (f tt v))
      → Q ((attempt wrap >>= f) w)
  unfolding attempt Stops
  attempt_rule stop go = meet_rule w.faults refl stop go

-- A world in which a transaction was opened at `w`.
abbrev pub Opened : World → World → Type 0
Opened v w =
    (v.committed ≡ w.committed) × (v.pending ≡ w.committed) × (w.faults ≡ [] → v.faults ≡ [])

pub begin_rule :
    {A : Type 0} (Q : AppResult A × World → Type 0) (wrap : Text → AppError) (k : Unit {0} → M A)
    (w : World)
    → ((message : Text) (v : World) → SameTables v w → w.faults ≢ [] → Q (err (wrap message), v))
    → ((v : World) → Opened v w → Q (k tt v))
    → Q ((begin wrap >>= k) w)
unfolding begin
begin_rule Q wrap k w stop go =
    subst Q (sym (bind_assoc _ k (attempt wrap) w))
      (attempt_rule Q wrap _ w stop (λ v same. go _ (same.0, same.0, same.2)))

-- The tables that a commit leaves.
abbrev pub Closed : World → World → Type 0
Closed v w = (v.committed ≡ w.pending) × (w.faults ≡ [] → v.faults ≡ [])

pub commit_rule :
    {A : Type 0} (Q : AppResult A × World → Type 0) (wrap : Text → AppError) (k : Unit {0} → M A)
    (w : World)
    → ((message : Text) (v : World) → SameTables v w → w.faults ≢ [] → Q (err (wrap message), v))
    → ((v : World) → Closed v w → Q (k tt v))
    → Q ((commit wrap >>= k) w)
unfolding commit
commit_rule Q wrap k w stop go =
    subst Q (sym (bind_assoc _ k (attempt wrap) w))
      (attempt_rule Q wrap _ w stop (λ v same. go _ (same.1, same.2)))

-- A commit at the end of a call.
pub commit_last_rule :
    (Q : AppResult (Unit {0}) × World → Type 0) (wrap : Text → AppError) (w : World)
    → ((message : Text) (v : World) → SameTables v w → w.faults ≢ [] → Q (err (wrap message), v))
    → ((v : World) → Closed v w → Q (ok tt, v))
    → Q (commit wrap w)
unfolding commit
commit_last_rule Q wrap w stop go = attempt_rule Q wrap _ w stop (λ v same. go _ (same.1, same.2))
