-- ===== src/Rtk/Filter.antt =====
-- `filter_output`. A text is its list of characters; sizes stay within `usize`, since a text in
-- memory is shorter than that.
use mizan.Prelude.{
  ℕ, ◌+◌, ◌-◌, suc, zero, Bool, true, false, ◌++◌, Text, codes, ltb, leb, min, length, take, drop,
  if◌then◌else◌,
}
use mizan.Prelude.Decimal.{to_decimal}

pub record FilterPolicy : Type 0 where
  pub max_output_chars : ℕ
  pub retained_head_chars : ℕ
  pub retained_tail_chars : ℕ

pub record RtkFilterResult : Type 0 where
  pub original_chars : ℕ
  pub output_chars : ℕ
  pub body : Text
  pub filtered : Bool

unfoldable pub passthrough_filter : Text → RtkFilterResult
passthrough_filter output = record {
  original_chars = length output;
  output_chars = length output;
  body = output;
  filtered = false;
}

unfoldable pub truncation_marker : ℕ → ℕ → Text
truncation_marker head_chars tail_chars =
    codes "\n\n[output truncated by mizan-rtk: "
    ++ to_decimal head_chars
    ++ codes " chars retained from head and "
    ++ to_decimal tail_chars
    ++ codes " from tail]\n"

unfoldable pub truncate_middle : Text → ℕ → ℕ → Text × Text
truncate_middle chars head_chars tail_chars =
    let head_chars' = min head_chars (length chars) in
    let tail_chars' = min tail_chars (length chars - head_chars') in
    (take head_chars' chars, drop (length chars - tail_chars') chars)

-- One round of either loop: a character less of the tail, and of the head once the tail is gone.
unfoldable pub lower : ℕ × ℕ → ℕ × ℕ
lower (head, tail) = if ltb 0 tail then (head, tail - 1) else (head - 1, tail)

-- `lower` while the test holds. The fuel `head + tail` is enough: after it both are 0, where the
-- loops of the source break.
unfoldable pub lower_while : (ℕ × ℕ → Bool) → ℕ → ℕ × ℕ → ℕ × ℕ
unfolding lower
lower_while over zero sizes = sizes
lower_while over (suc fuel) sizes =
    let rest = lower_while over fuel (lower sizes) in if over sizes then rest else sizes

abbrev pub sum_exceeds : ℕ → ℕ × ℕ → Bool
sum_exceeds limit (head, tail) = ltb limit (head + tail)

abbrev pub marked_exceeds : ℕ → ℕ × ℕ → Bool
marked_exceeds limit (head, tail) = ltb limit (head + tail + length (truncation_marker head tail))

-- How much of the head and of the tail is kept: the two loops.
unfoldable pub retained : FilterPolicy → ℕ → ℕ × ℕ
unfolding lower_while
retained policy body_len =
    let head = min policy.retained_head_chars body_len in
    let tail = min policy.retained_tail_chars (body_len - head) in
    let sizes = lower_while (sum_exceeds policy.max_output_chars) (head + tail) (head, tail) in
    lower_while (marked_exceeds policy.max_output_chars) (sizes.0 + sizes.1) sizes

unfoldable pub shortened : FilterPolicy → Text → Text
unfolding retained truncate_middle truncation_marker
shortened policy chars =
    let (head, tail) = retained policy (length chars) in
    let (kept_head, kept_tail) = truncate_middle chars head tail in
    kept_head ++ truncation_marker head tail ++ kept_tail

unfoldable pub filter_output : Text → FilterPolicy → RtkFilterResult
unfolding shortened
filter_output output policy =
    if leb (length output) policy.max_output_chars
    then record {
      original_chars = length output;
      output_chars = length output;
      body = output;
      filtered = false;
    }
    else (let body = shortened policy output in
        let body' =
          if ltb policy.max_output_chars (length body)
          then take policy.max_output_chars body
          else body in
        record {
          original_chars = length output;
          output_chars = length body';
          body = body';
          filtered = true;
        })
