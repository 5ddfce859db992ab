-- ===== src/Prelude/Decimal.antt =====
-- The decimal text of a number, as `to_string` and `format!` print it.
use Prim.Native.Nat.{ℕ, zero, suc, ◌+◌, ◌/◌, ◌%◌}
use mathlib.Core.List.{[], ◌∷◌, ◌++◌}
use mizan.Prelude.Tests.{ltb, if◌then◌else◌}
use mizan.Prelude.Texts.{Text}
use mizan.Prelude.Int.{ℤ, pos, negsuc}

-- The fuel bounds the number of digits; a number has no more digits than its value plus one.
print_digits : ℕ → ℕ → Text
print_digits zero n = []
print_digits (suc fuel) n =
    let rest = print_digits fuel (n / 10) in
    if ltb n 10 then (b'0' + n) ∷ [] else rest ++ (b'0' + n % 10) ∷ []

unfoldable pub to_decimal : ℕ → Text
unfolding print_digits
to_decimal n = print_digits (suc n) n

-- The text of a signed integer.
unfoldable pub to_decimal_int : ℤ → Text
unfolding to_decimal
to_decimal_int (pos n) = to_decimal n
to_decimal_int (negsuc n) = b'-' ∷ to_decimal (suc n)
