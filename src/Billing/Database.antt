-- ===== src/Billing/Database.antt =====
-- Work with the database: statements that may fail, and one transaction at a time. A statement
-- on the pool acts on the committed tables. `begin` opens a copy, on which the statements of the
-- transaction act; `commit` makes it the committed tables, and a transaction that is dropped on an
-- early return leaves nothing.
use mizan.Prelude.{Text}
use mizan.Core.Error.{AppError, ok}
use mizan.Core.Exec.{Exec, Faults, meet, ◌>>◌}
use mizan.Billing.Tables.{Tables}

pub record World : Type 0 where
  pub committed : Tables
  pub pending : Tables
  pub faults : Faults

abbrev pub M {ℓ} : Type ℓ → Type ℓ
M = Exec World

-- One statement is sent; `wrap` is what the caller makes of the driver's error.
unfoldable pub attempt : (Text → AppError) → M (Unit {0})
attempt wrap w = meet (λ w fs. record w { faults = fs }) wrap w.faults w

abbrev pub on_committed : (Tables → Tables) → M (Unit {0})
on_committed f w = (ok tt, record w { committed = f w.committed })

abbrev pub on_pending : (Tables → Tables) → M (Unit {0})
on_pending f w = (ok tt, record w { pending = f w.pending })

-- `database.begin()` and `tx.commit()`.
unfoldable pub begin : (Text → AppError) → M (Unit {0})
unfolding attempt
begin wrap = do attempt wrap; λ w. (ok tt, record w { pending = w.committed })

unfoldable pub commit : (Text → AppError) → M (Unit {0})
unfolding attempt
commit wrap = do attempt wrap; λ w. (ok tt, record w { committed = w.pending })
