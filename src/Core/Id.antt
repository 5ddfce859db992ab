-- ===== src/Core/Id.antt =====
-- Identifiers. A `Uuid` is a number of 128 bits, only compared; the generators `Uuid::now_v7` and
-- `Uuid::new_v4` are external, so a fresh identifier is an argument. A stored TEXT column that the
-- program parses back is the printed form of a uuid, or some other text.
use mizan.Prelude.{ℕ, Bool, false, Text, ◌==◌}
use mizan.Core.Error.{AppError, AppResult, ok, err}

abbrev pub Uuid : Type 0
Uuid = ℕ

pub data IdText : Type 0 where
  printed : Uuid → IdText
  malformed : Text → IdText

-- `WHERE id = ?`, bound to the printed form of a uuid.
abbrev pub is_id : IdText → Uuid → Bool
is_id (printed v) u = v == u
is_id (malformed _) u = false

-- `Uuid::parse_str`, with the error that the caller makes of a failure.
abbrev pub parse_id : AppError → IdText → AppResult Uuid
parse_id e (printed u) = ok u
parse_id e (malformed _) = err e
