-- ===== src/Prelude/Words.antt =====
-- Machine integers: their bounds, the casts between widths, and saturating sums.
use Prim.Native.Nat.{ℕ, zero, suc, ◌+◌, ◌-◌, ◌*◌, ◌/◌, ◌%◌, ◌^◌, ◌<◌, ◌≤◌, min}
use mathlib.Core.List.{List, [], ◌∷◌}
use mathlib.Core.Path.{◌≡◌}
use native.Mathlib.Omega.{arith}
use mizan.Prelude.Tests.{ltb, leb, if◌then◌else◌}
use mizan.Prelude.Int.{ℤ, pos, negsuc, pos_part, neg_part, ◌+ℤ◌}

abbrev pub u32_mod : ℕ
u32_mod = 2 ^ 32

abbrev pub u64_mod : ℕ
u64_mod = 2 ^ 64

abbrev pub u64_max : ℕ
u64_max = 2 ^ 64 - 1

-- The least number above every `i64`, and the number of negative ones.
abbrev pub i64_bound : ℕ
i64_bound = 2 ^ 63

-- The integers that an `i64` holds.
abbrev pub InI64 : ℤ → Type 0
InI64 a = (pos_part a < i64_bound) × (neg_part a ≤ i64_bound)

-- The `i64` with the bit pattern n, for n below 2^64.
abbrev signed_64 : ℕ → ℤ
signed_64 n = if ltb n i64_bound then pos n else negsuc (u64_max - n)

-- `x as i64` keeps the low 64 bits.
unfoldable pub as_i64 : ℤ → ℤ
as_i64 (pos n) = signed_64 (n % u64_mod)
as_i64 (negsuc n) = signed_64 (u64_max - n % u64_mod)

pub as_i64-InI64 : (a : ℤ) → InI64 (as_i64 a)
unfolding as_i64
as_i64-InI64 (pos n) = ground arith
as_i64-InI64 (negsuc n) = ground arith

-- The cast changes nothing within the range.
pub as_i64_of_InI64 : (a : ℤ) → InI64 a → as_i64 a ≡ a
unfolding as_i64
as_i64_of_InI64 (pos n) h = ground arith
as_i64_of_InI64 (negsuc n) h = ground arith

-- `i64::saturating_add`.
unfoldable pub saturating_add_i64 : ℤ → ℤ → ℤ
saturating_add_i64 a b =
    let s = a +ℤ b in
    if leb i64_bound (pos_part s)
    then pos (i64_bound - 1)
    else if ltb i64_bound (neg_part s)
    then negsuc (i64_bound - 1)
    else s

-- `u64::saturating_add`.
unfoldable pub saturating_add_u64 : ℕ → ℕ → ℕ
saturating_add_u64 a b = min (a + b) u64_max

-- Exclusive or of the low `width` bits.
unfoldable pub xor_bits : (width : ℕ) → ℕ → ℕ → ℕ
xor_bits zero a b = 0
xor_bits (suc width) a b = (a + b) % 2 + 2 * xor_bits width (a / 2) (b / 2)

-- `to_le_bytes` of an integer of `width` bytes.
unfoldable pub to_le_bytes : (width : ℕ) → ℕ → List ℕ
to_le_bytes zero n = []
to_le_bytes (suc width) n = n % 256 ∷ to_le_bytes width (n / 256)
