-- ===== src/Sql/Tests.antt =====
-- A query with a parameter and a quoted question mark, and one with two parameters.
use mizan.Prelude.{◌≡◌, refl, true, all, codes}
use mizan.Prelude.Decimal.{to_decimal}
use mizan.Sql.{sqlite, postgres, plain, round, convert, to_dollar_params, prepare_sql}
use mizan.Sql.Laws.{
  is_bare, number_parameters, erase, number, pieces, prepare_sql-pieces, to_dollar_params_bare,
}

quoted : prepare_sql postgres (codes "a = '?' OR b = ?") ≡ codes "a = '?' OR b = $1"
unfolding prepare_sql to_dollar_params convert round codes to_decimal
quoted = refl

prepare_sql-pieces_example :
    (prepare_sql sqlite (codes "a = '?' OR b = ?")
      ≡ erase (pieces plain (codes "a = '?' OR b = ?")))
    × (prepare_sql postgres (codes "a = '?' OR b = ?")
        ≡ number 1 (pieces plain (codes "a = '?' OR b = ?")))
prepare_sql-pieces_example = prepare_sql-pieces (codes "a = '?' OR b = ?")

bare : all is_bare (codes "a = ? AND b = ?") ≡ true
unfolding codes
bare = refl

to_dollar_params_bare_example :
    to_dollar_params (codes "a = ? AND b = ?") ≡ number_parameters 1 (codes "a = ? AND b = ?")
to_dollar_params_bare_example = to_dollar_params_bare (codes "a = ? AND b = ?") bare
