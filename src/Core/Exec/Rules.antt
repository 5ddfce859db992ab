-- ===== src/Core/Exec/Rules.antt =====
-- Rules to follow a call step by step: what holds of every outcome holds if it holds of the error at
-- which the call stops, and of what follows a success.
use mizan.Prelude.{◌≡◌, refl}
use mizan.Core.Error.{AppError, AppResult, ok, err}
use mizan.Core.Exec.{Exec, continue, ◌>>=◌}

module _ {S A B : Type 0} (Q : AppResult B × S → Type 0) where
  continue_rule :
      (r : AppResult A) (f : A → Exec S B) (s : S)
      → ((e : AppError) → r ≡ err e → Q (err e, s))
      → ((a : A) → r ≡ ok a → Q (f a s))
      → Q (continue r f s)
  continue_rule (ok a) f s stop go = go a refl
  continue_rule (err e) f s stop go = stop e refl

  pub bind_rule :
      (m : Exec S A) (f : A → Exec S B) (s : S)
      → ((e : AppError) → (m s).0 ≡ err e → Q (err e, (m s).1))
      → ((a : A) → (m s).0 ≡ ok a → Q (f a (m s).1))
      → Q ((m >>= f) s)
  bind_rule m f s stop go = continue_rule (m s).0 f (m s).1 stop go

module _ {S A B C : Type 0} (g : A → Exec S B) (k : B → Exec S C) where
  continue_assoc :
      (r : AppResult A) (s : S)
      → (let (r', s') = continue r g s in continue r' k s') ≡ continue r (λ a. g a >>= k) s
  continue_assoc (ok a) s = refl
  continue_assoc (err e) s = refl

  pub bind_assoc : (m : Exec S A) (s : S) → ((m >>= g) >>= k) s ≡ (m >>= λ a. g a >>= k) s
  bind_assoc m s = continue_assoc (m s).0 (m s).1

pub ok-ne-err : {A : Type 0} (a : A) (e : AppError) → ok a ≡ err e → ⊥
ok-ne-err a e h = cc
