-- ===== src/Rtk/Laws.antt =====
-- The theorems about `filter_output`.
use mizan.Prelude.{
  ℕ, zero, suc, ◌+◌, ◌-◌, ◌≤◌, ◌<◌, ◌≡◌, refl, ap, ◌⊎◌, inl, inr, Bool, true, false, Bool-cases,
  ◌++◌, Text, ltb, leb, min, length, take, drop, length-take, length-drop, length-append, arith,
}
use mizan.Rtk.Filter.{
  FilterPolicy, truncation_marker, truncate_middle, lower, lower_while, sum_exceeds, marked_exceeds,
  passthrough_filter, retained, shortened, filter_output,
}

-- The loop only lowers the sizes, and ends with the test false or with nothing left.
abbrev Lowered : (ℕ × ℕ → Bool) → ℕ × ℕ → ℕ × ℕ → Type 0
Lowered over old new =
    (new.0 ≤ old.0) × (new.1 ≤ old.1) × ((over new ≡ false) ⊎ (new.0 + new.1 ≡ 0))

lower_lem :
    (h t : ℕ)
    → ((lower (h, t)).0 ≤ h)
      × ((lower (h, t)).1 ≤ t)
      × ((lower (h, t)).0 + (lower (h, t)).1 ≡ h + t - 1)
unfolding lower
lower_lem h t = ground arith

lower_while_lem :
    (over : ℕ × ℕ → Bool) (fuel : ℕ) (sizes : ℕ × ℕ)
    → sizes.0 + sizes.1 ≤ fuel
    → Lowered over sizes (lower_while over fuel sizes)
unfolding lower_while
lower_while_lem over zero sizes enough = (omega arith, omega arith, inr (omega arith))
lower_while_lem over (suc fuel) (h, t) enough = elim (Bool-cases (over (h, t))) [
  | inl more ↦
      let (head, tail, sum) = lower_lem h t in
      let (head', tail', ends) = lower_while_lem over fuel (lower (h, t)) (omega (arith, sum)) in
      rw more (omega (arith, head, head'), omega (arith, tail, tail'), ends)
  | inr done ↦ rw done (omega arith, omega arith, inl done)
]

module _ (policy : FilterPolicy) (n : ℕ) where
  pub retained_lem :
      (let (h, t) = retained policy n in
        (h ≤ policy.retained_head_chars)
        × (t ≤ policy.retained_tail_chars)
        × ((h + t + length (truncation_marker h t) ≤ policy.max_output_chars) ⊎ (h + t ≡ 0)))
  unfolding retained
  retained_lem =
      let head = min policy.retained_head_chars n in
      let tail = min policy.retained_tail_chars (n - head) in
      let sizes = lower_while (sum_exceeds policy.max_output_chars) (head + tail) (head, tail) in
      let (a, b, _) =
        lower_while_lem (sum_exceeds policy.max_output_chars) (head + tail) (head, tail)
          (omega arith) in
      let (c, d, ends) =
        lower_while_lem (marked_exceeds policy.max_output_chars) (sizes.0 + sizes.1) sizes
          (omega arith) in
      (
        omega (arith, a, c),
        omega (arith, b, d),
        elim ends [ inl fits ↦ inl (ground (arith, fits)) | inr gone ↦ inr gone ],
      )

-- The sizes that the loops end with leave room for the marker, if the marker fits at all.
retained_fits :
    (policy : FilterPolicy) (n : ℕ)
    → length (truncation_marker 0 0) ≤ policy.max_output_chars
    → (let (h, t) = retained policy n in
        h + t + length (truncation_marker h t) ≤ policy.max_output_chars)
retained_fits policy n room =
    let (_, _, ends) = retained_lem policy n in
    elim ends [
      | inl fits ↦ fits
      | inr gone ↦
          let head : (retained policy n).0 ≡ 0 = omega (arith, gone) in
          let tail : (retained policy n).1 ≡ 0 = omega (arith, gone) in
          rw (head, tail) (omega (arith, room))
    ]

truncate_middle_lem :
    (chars : Text) (h t : ℕ)
    → h + t ≤ length chars
    → truncate_middle chars h t ≡ (take h chars, drop (length chars - t) chars)
unfolding truncate_middle
truncate_middle_lem chars h t within =
    let head : min h (length chars) ≡ h = omega arith in
    let tail : min t (length chars - h) ≡ t = omega arith in rw (head, tail) refl

module _ (policy : FilterPolicy) (output : Text) where
  abbrev kept_text : ℕ × ℕ → Text
  kept_text sizes =
      take sizes.0 output
      ++ truncation_marker sizes.0 sizes.1
      ++ drop (length output - sizes.1) output

  shortened_lem :
      (let (h, t) = retained policy (length output) in h + t ≤ length output)
      → shortened policy output ≡ kept_text (retained policy (length output))
  unfolding shortened
  shortened_lem within =
      let (h, t) = retained policy (length output) in
      ap (λ parts. parts.0 ++ truncation_marker h t ++ parts.1)
        (truncate_middle_lem output h t within)

  length-kept_text :
      (h t : ℕ)
      → h + t ≤ length output
      → length (take h output ++ truncation_marker h t ++ drop (length output - t) output)
        ≡ h + t + length (truncation_marker h t)
  length-kept_text h t within =
      let rest = drop (length output - t) output in
      omega (
        arith,
        length-append (take h output ++ truncation_marker h t) rest,
        length-append (take h output) (truncation_marker h t),
        length-take h output,
        length-drop (length output - t) output,
      )

-- The output of `filter_output` is never longer than the policy allows, whatever the sizes that the
-- policy asks for, and its two counts are the lengths of the text and of the output.
pub filter_output_bound :
    (output : Text) (policy : FilterPolicy)
    → ((filter_output output policy).output_chars ≤ policy.max_output_chars)
      × ((filter_output output policy).output_chars ≡ length (filter_output output policy).body)
      × ((filter_output output policy).original_chars ≡ length output)
unfolding filter_output
filter_output_bound output policy =
    elim (Bool-cases (leb (length output) policy.max_output_chars)) [
      | inl short ↦ rw short (ground arith, refl, refl)
      | inr long ↦
          rw long
            (elim (Bool-cases (ltb policy.max_output_chars (length (shortened policy output)))) [
              | inl over ↦ rw over (
                omega (arith, length-take policy.max_output_chars (shortened policy output)),
                refl,
                refl,
              )
              | inr within ↦ rw within (ground arith, refl, refl)
            ])
    ]

-- A text within the limit is passed on as `passthrough_filter` does.
filter_output-passthrough_filter :
    (output : Text) (policy : FilterPolicy)
    → length output ≤ policy.max_output_chars
    → filter_output output policy ≡ passthrough_filter output
unfolding filter_output passthrough_filter
filter_output-passthrough_filter output policy short =
    let within : leb (length output) policy.max_output_chars ≡ true = ground arith in rw within refl

-- Whatever the text and the policy, filtering the output again under the same policy passes it on
-- unchanged, as `passthrough_filter` does.
pub filter_output_twice :
    (output : Text) (policy : FilterPolicy)
    → filter_output (filter_output output policy).body policy
      ≡ passthrough_filter (filter_output output policy).body
filter_output_twice output policy =
    let (bound, counted, _) = filter_output_bound output policy in
    filter_output-passthrough_filter (filter_output output policy).body policy
      (omega (arith, bound, counted))

-- A text above the limit, where the limit has room for the marker: the output is the start of the text,
-- the whole marker with the two sizes kept, and the end of the text, of the sizes that the loops end
-- with, which are at most those of the policy.
pub filter_output-keeps :
    (output : Text) (policy : FilterPolicy)
    → policy.max_output_chars < length output
    → length (truncation_marker 0 0) ≤ policy.max_output_chars
    → (let (h, t) = retained policy (length output) in
        ((filter_output output policy).body
          ≡ take h output ++ truncation_marker h t ++ drop (length output - t) output)
        × (h ≤ policy.retained_head_chars)
        × (t ≤ policy.retained_tail_chars))
unfolding filter_output
filter_output-keeps output policy long room =
    let (head, tail, _) = retained_lem policy (length output) in
    let (h, t) = retained policy (length output) in
    let fits = retained_fits policy (length output) room in
    let within : h + t ≤ length output = omega (arith, fits) in
    let above : leb (length output) policy.max_output_chars ≡ false = ground arith in
    let below : ltb policy.max_output_chars (length (kept_text policy output (h, t))) ≡ false =
      rw (length-kept_text policy output h t within) (ground (arith, fits)) in
    rw (above, shortened_lem policy output within, below) (refl, head, tail)
