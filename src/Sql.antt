-- ===== src/Sql.antt =====
-- `prepare_sql` and `to_dollar_params` of crates/mizan-api/src/utils.rs, and the `DatabaseBackend` of
-- crates/mizan-core/src/database.rs that chooses between them.
pub mod Laws
mod Tests
use mizan.Prelude.{
  ℕ, suc, ◌+◌, Bool, true, false, ◌&&◌, ◌||◌, Option, none, some, List, [], ◌∷◌, ◌++◌, Text, codes,
  starts_with, ◌==◌, if◌then◌else◌,
}
use mizan.Prelude.Decimal.{to_decimal}
use mizan.Core.Error.{AppResult, ok, err, invalid_config}

pub data DatabaseBackend : Type 0 where
  sqlite postgres : DatabaseBackend

unfoldable pub from_url : Text → AppResult DatabaseBackend
from_url value =
    if starts_with value (codes "sqlite:")
    then ok sqlite
    else if starts_with value (codes "postgres://") || starts_with value (codes "postgresql://")
    then ok postgres
    else err
        (invalid_config (codes "DATABASE_URL") (codes "unsupported database URL scheme: " ++ value))

-- The four flags of the loop, of which at most one is set.
pub data LexMode : Type 0 where
  plain single_quote double_quote line_comment block_comment : LexMode

abbrev pub is_char : ℕ → Option ℕ → Bool
is_char c none = false
is_char c (some d) = d == c

-- What a round does: the mode after it, whether the character is a parameter, and whether the next
-- character is pushed along with it.
pub record Round : Type 0 where
  pub mode : LexMode
  pub is_parameter : Bool
  pub takes_next : Bool

abbrev pub pushes : LexMode → Round
pushes mode = record { mode = mode; is_parameter = false; takes_next = false }

abbrev pub pushes_both : LexMode → Round
pushes_both mode = record { mode = mode; is_parameter = false; takes_next = true }

unfoldable pub round : LexMode → ℕ → Option ℕ → Round
round line_comment c next = if c == b'\n' then pushes plain else pushes line_comment
round block_comment c next =
    if c == b'*' && is_char b'/' next then pushes_both plain else pushes block_comment
round single_quote c next =
    if c == b'\''
    then (if is_char b'\'' next then pushes_both single_quote else pushes plain)
    else pushes single_quote
round double_quote c next =
    if c == b'"'
    then (if is_char b'"' next then pushes_both double_quote else pushes plain)
    else pushes double_quote
round plain c next =
    if c == b'-' && is_char b'-' next
    then pushes_both line_comment
    else if c == b'/' && is_char b'*' next
    then pushes_both block_comment
    else if c == b'\''
    then pushes single_quote
    else if c == b'"'
    then pushes double_quote
    else if c == b'?'
    then record { mode = plain; is_parameter = true; takes_next = false }
    else pushes plain

-- The character as it is pushed, where `index` parameters came before, and the count after it.
abbrev pub pushed : Round → ℕ → ℕ → Text
pushed r index c = if r.is_parameter then b'$' ∷ to_decimal (index + 1) else c ∷ []

abbrev pub counted : Round → ℕ → ℕ
counted r index = if r.is_parameter then index + 1 else index

unfoldable pub convert : LexMode → ℕ → Text → Text
convert mode index [] = []
convert mode index (c ∷ []) = pushed (round mode c none) index c
convert mode index (c ∷ d ∷ s) =
    let r = round mode c (some d) in
    let both = convert r.mode index s in
    let one = convert r.mode (counted r index) (d ∷ s) in
    if r.takes_next then c ∷ d ∷ both else pushed r index c ++ one

unfoldable pub to_dollar_params : Text → Text
to_dollar_params query = convert plain 0 query

unfoldable pub prepare_sql : DatabaseBackend → Text → Text
prepare_sql sqlite query = query
prepare_sql postgres query = to_dollar_params query
