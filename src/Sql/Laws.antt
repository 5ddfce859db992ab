-- ===== src/Sql/Laws.antt =====
-- What the conversion of a query keeps.
use mizan.Prelude.{
  ℕ, ◌+◌, ◌≡◌, refl, ap, ◌∙◌, sym, inl, inr, Bool, true, false, not, ◌&&◌, Bool-cases, append-nil,
  Option, none, some, List, [], ◌∷◌, ◌++◌, Text, all, ◌==◌, arith, if◌then◌else◌,
}
use mizan.Prelude.Decimal.{to_decimal}
use mizan.Sql.{
  LexMode, plain, single_quote, double_quote, line_comment, block_comment, Round, round, convert,
  to_dollar_params, prepare_sql, sqlite, postgres,
}

-- A character that opens neither a quotation nor a comment.
abbrev pub is_bare : ℕ → Bool
is_bare c = not (c == b'\'') && not (c == b'"') && not (c == b'-') && not (c == b'/')

-- Every question mark becomes `$` with its number, from the given one on.
abbrev pub number_parameters : ℕ → Text → Text
number_parameters n [] = []
number_parameters n (c ∷ s) =
    let rest = number_parameters n s in
    let counted_rest = number_parameters (n + 1) s in
    if c == b'?' then b'$' ∷ to_decimal n ++ counted_rest else c ∷ rest

-- One piece of a query: a character that stays, or a parameter.
pub data Piece : Type 0 where
  kept : ℕ → Piece
  parameter : Piece

abbrev pub erase : List Piece → Text
erase [] = []
erase (kept c ∷ ps) = c ∷ erase ps
erase (parameter ∷ ps) = b'?' ∷ erase ps

abbrev pub number : ℕ → List Piece → Text
number n [] = []
number n (kept c ∷ ps) = c ∷ number n ps
number n (parameter ∷ ps) = b'$' ∷ to_decimal n ++ number (n + 1) ps

abbrev pub piece : Round → ℕ → Piece
piece r c = if r.is_parameter then parameter else kept c

abbrev pub pieces : LexMode → Text → List Piece
pieces mode [] = []
pieces mode (c ∷ []) = piece (round mode c none) c ∷ []
pieces mode (c ∷ d ∷ s) =
    let r = round mode c (some d) in
    let both = pieces r.mode s in
    let one = pieces r.mode (d ∷ s) in
    if r.takes_next then kept c ∷ kept d ∷ both else piece r c ∷ one

round-parameter :
    (mode : LexMode) (c : ℕ) (next : Option ℕ) → (round mode c next).is_parameter ≡ true → c ≡ b'?'
unfolding round
round-parameter plain c next h = ground arith
round-parameter single_quote c next h = ground arith
round-parameter double_quote c next h = ground arith
round-parameter line_comment c next h = ground arith
round-parameter block_comment c next h = ground arith

round_bare :
    (c : ℕ) (next : Option ℕ)
    → is_bare c ≡ true
    → ((round plain c next).takes_next ≡ false)
      × ((round plain c next).mode ≡ plain)
      × ((round plain c next).is_parameter ≡ (c == b'?'))
unfolding round
round_bare c next bare = (ground arith, ground arith, ground arith)

convert_bare :
    (index : ℕ) (s : Text)
    → all is_bare s ≡ true
    → convert plain index s ≡ number_parameters (index + 1) s
unfolding convert
convert_bare index [] bare = refl
convert_bare index (c ∷ []) bare =
    let (_, _, param) = round_bare c none (ground arith) in
    elim (Bool-cases (c == b'?')) [
      | inl mark ↦ rw (param, mark) (sym (append-nil _))
      | inr other ↦ rw (param, other) refl
    ]
convert_bare index (c ∷ d ∷ s) bare =
    let (alone, same, param) = round_bare c (some d) (ground arith) in
    let rest : all is_bare (d ∷ s) ≡ true = ground arith in
    elim (Bool-cases (c == b'?')) [
      | inl mark ↦
          rw (alone, same, param, mark)
            (ap (λ t. b'$' ∷ to_decimal (index + 1) ++ t) (convert_bare (index + 1) (d ∷ s) rest))
      | inr other ↦
          rw (alone, same, param, other) (ap (λ t. c ∷ t) (convert_bare index (d ∷ s) rest))
    ]

erase-pieces : (mode : LexMode) (s : Text) → erase (pieces mode s) ≡ s
erase-pieces mode [] = refl
erase-pieces mode (c ∷ []) = elim (Bool-cases (round mode c none).is_parameter) [
  | inl param ↦ rw param (ap (λ x. x ∷ []) (sym (round-parameter mode c none param)))
  | inr stays ↦ rw stays refl
]
erase-pieces mode (c ∷ d ∷ s) =
    let r = round mode c (some d) in
    elim (Bool-cases r.takes_next) [
      | inl both ↦ rw both (ap (λ t. c ∷ d ∷ t) (erase-pieces r.mode s))
      | inr alone ↦ elim (Bool-cases r.is_parameter) [
        | inl param ↦
            rw (alone, param)
              (ap (λ x. x ∷ erase (pieces r.mode (d ∷ s)))
                  (sym (round-parameter mode c (some d) param))
                ∙ ap (λ t. c ∷ t) (erase-pieces r.mode (d ∷ s)))
        | inr stays ↦ rw (alone, stays) (ap (λ t. c ∷ t) (erase-pieces r.mode (d ∷ s)))
      ]
    ]

convert-pieces :
    (mode : LexMode) (index : ℕ) (s : Text)
    → convert mode index s ≡ number (index + 1) (pieces mode s)
unfolding convert
convert-pieces mode index [] = refl
convert-pieces mode index (c ∷ []) = elim (Bool-cases (round mode c none).is_parameter) [
  | inl param ↦ rw param (sym (append-nil _))
  | inr stays ↦ rw stays refl
]
convert-pieces mode index (c ∷ d ∷ s) =
    let r = round mode c (some d) in
    elim (Bool-cases r.takes_next) [
      | inl both ↦ rw both (ap (λ t. c ∷ d ∷ t) (convert-pieces r.mode index s))
      | inr alone ↦ elim (Bool-cases r.is_parameter) [
        | inl param ↦
            rw (alone, param)
              (ap (λ t. b'$' ∷ to_decimal (index + 1) ++ t)
                (convert-pieces r.mode (index + 1) (d ∷ s)))
        | inr stays ↦ rw (alone, stays) (ap (λ t. c ∷ t) (convert-pieces r.mode index (d ∷ s)))
      ]
    ]

-- A query is a list of pieces, from which SQLite gets the query itself, and PostgreSQL the same text with
-- the parameters numbered from 1 in their order.
pub prepare_sql-pieces :
    (query : Text)
    → (prepare_sql sqlite query ≡ erase (pieces plain query))
      × (prepare_sql postgres query ≡ number 1 (pieces plain query))
unfolding prepare_sql to_dollar_params
prepare_sql-pieces query = (sym (erase-pieces plain query), convert-pieces plain 0 query)

-- In a query with no quotation mark, hyphen or slash, every question mark becomes a numbered parameter, and
-- nothing else changes.
pub to_dollar_params_bare :
    (query : Text) → all is_bare query ≡ true → to_dollar_params query ≡ number_parameters 1 query
unfolding to_dollar_params
to_dollar_params_bare query bare = convert_bare 0 query bare
