-- ===== src/Core/Exec.antt =====
-- Calls that read and write a state and may fail. What was written before an error stays written.
-- An external command that may fail takes the next item of a schedule of failures: the text of its
-- error, or none; past the end of the schedule nothing fails, and a command that fails has no effect.
pub mod Rules
use mizan.Prelude.{Option, none, some, List, [], ◌∷◌, Text}
use mizan.Core.Error.{AppError, AppResult, ok, err}

abbrev pub Exec {ℓ κ} : Type ℓ → Type κ → Type (ℓ ⊔ κ)
Exec S A = S → AppResult A × S

module _ {S A B : Type 0} where
  abbrev pub continue : AppResult A → (A → Exec S B) → Exec S B
  continue (ok a) f s = f a s
  continue (err e) f s = (err e, s)

  infixl 5 ◌>>=◌ ◌>>◌
  abbrev pub ◌>>=◌ : Exec S A → (A → Exec S B) → Exec S B
  ◌>>=◌ m f s = let (r, s') = m s in continue r f s'

  abbrev pub ◌>>◌ : Exec S A → Exec S B → Exec S B
  m >> k = m >>= λ _. k

module _ {S A : Type 0} where
  abbrev pub pure : A → Exec S A
  pure a s = (ok a, s)

  abbrev pub throw : AppError → Exec S A
  throw e s = (err e, s)

  abbrev pub lift : AppResult A → Exec S A
  lift r s = (r, s)

  abbrev pub gets : (S → A) → Exec S A
  gets f s = (ok (f s), s)

  -- `if let Err(error) = … { warn!(…) }` and `let _ = …`: the result is dropped.
  abbrev pub ignore : Exec S A → Exec S (Unit {0})
  ignore m s = let (_, s') = m s in (ok tt, s')

abbrev pub modify : {S : Type 0} → (S → S) → Exec S (Unit {0})
modify f s = (ok tt, f s)

abbrev pub Faults : Type 0
Faults = List (Option Text)

-- A command is sent; `set` puts back the rest of the schedule.
abbrev pub meet : {S : Type 0} → (S → Faults → S) → (Text → AppError) → Faults → Exec S (Unit {0})
meet set wrap [] s = (ok tt, s)
meet set wrap (none ∷ fs) s = (ok tt, set s fs)
meet set wrap (some message ∷ fs) s = (err (wrap message), set s fs)
