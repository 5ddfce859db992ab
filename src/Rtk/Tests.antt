-- ===== src/Rtk/Tests.antt =====
-- A text of ninety characters under a loose, a tight and no real limit.
use mizan.Prelude.{
  ℕ, zero, suc, ◌≡◌, ◌≤◌, ◌-◌, [], ◌∷◌, ◌++◌, Text, codes, length, take, drop, arith,
}
use mizan.Prelude.Decimal.{to_decimal}
use mizan.Rtk.Filter.{FilterPolicy, truncation_marker, retained, filter_output, passthrough_filter}
use mizan.Rtk.Laws.{filter_output_bound, filter_output-keeps, filter_output_twice}

abbrev repeated : ℕ → Text
repeated zero = []
repeated (suc n) = b'a' ∷ repeated n

abbrev limit : ℕ → FilterPolicy
limit n = record { max_output_chars = n; retained_head_chars = 10; retained_tail_chars = 10 }

room : length (truncation_marker 0 0) ≤ 85
unfolding truncation_marker codes to_decimal
room = omega arith

filter_output_bound_example :
    ((filter_output (repeated 90) (limit 20)).output_chars ≤ 20)
    × ((filter_output (repeated 90) (limit 20)).output_chars
        ≡ length (filter_output (repeated 90) (limit 20)).body)
    × ((filter_output (repeated 90) (limit 20)).original_chars ≡ 90)
filter_output_bound_example = filter_output_bound (repeated 90) (limit 20)

filter_output-keeps_example :
    (let (h, t) = retained (limit 85) 90 in
      ((filter_output (repeated 90) (limit 85)).body
        ≡ take h (repeated 90) ++ truncation_marker h t ++ drop (90 - t) (repeated 90))
      × (h ≤ 10)
      × (t ≤ 10))
filter_output-keeps_example = filter_output-keeps (repeated 90) (limit 85) (omega arith) room

filter_output_twice_example :
    filter_output (filter_output (repeated 90) (limit 85)).body (limit 85)
    ≡ passthrough_filter (filter_output (repeated 90) (limit 85)).body
filter_output_twice_example = filter_output_twice (repeated 90) (limit 85)
