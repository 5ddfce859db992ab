-- ===== src/Core/Redaction/Plain.antt =====
-- A text with no sensitive prefix is logged as it is.
use mizan.Prelude.{
  ℕ, zero, suc, ◌≡◌, ◌≤◌, refl, sym, ap, ◌∙◌, inl, inr, true, false, Bool-cases, List, [], ◌∷◌,
  ◌++◌, append_assoc, append-nil, Text, starts_with, is_whitespace, length, arith,
}
use mizan.Core.Redaction.{
  sensitive_prefixes, redact_from, redact_segment, redact_words, redact_for_logs,
}
use mizan.Core.Redaction.Laws.{
  is_sensitive, matching_sensitive_prefix-is_sensitive, redact_from_plain,
}
use mizan.Core.Redaction.Clean.{leaks}

starts_with-longer : (a b p : Text) → starts_with a p ≡ true → starts_with (a ++ b) p ≡ true
unfolding starts_with
starts_with-longer [] [] [] h = refl
starts_with-longer [] (_ ∷ _) [] h = refl
starts_with-longer [] b (d ∷ p) h = cc
starts_with-longer (x ∷ a) b [] h = refl
starts_with-longer (x ∷ a) b (d ∷ p) h = ground (arith, starts_with-longer a b p)

is_sensitive-longer :
    (ps : List Text) (a b : Text) → is_sensitive ps a ≡ true → is_sensitive ps (a ++ b) ≡ true
is_sensitive-longer [] a b h = h
is_sensitive-longer (p ∷ ps) a b h =
    ground (arith, starts_with-longer a b p, is_sensitive-longer ps a b)

leaks-left : (a b : Text) → leaks (a ++ b) ≡ false → leaks a ≡ false
leaks-left [] b h = refl
leaks-left (x ∷ a) b h =
    ground (arith, is_sensitive-longer sensitive_prefixes (x ∷ a) b, leaks-left a b)

leaks-right : (a b : Text) → leaks (a ++ b) ≡ false → leaks b ≡ false
leaks-right [] b h = h
leaks-right (x ∷ a) b h = ground (arith, leaks-right a b)

redact_from_lem : (fuel : ℕ) (s : Text) → length s ≤ fuel → leaks s ≡ false → redact_from fuel s ≡ s
unfolding redact_from
redact_from_lem zero [] enough h = refl
redact_from_lem zero (c ∷ s) enough h = let impossible : ⊥ = omega arith in elim impossible [ ]
redact_from_lem (suc fuel) [] enough h = refl
redact_from_lem (suc fuel) (c ∷ s) enough h =
    let start : is_sensitive sensitive_prefixes (c ∷ s) ≡ false = ground arith in
    let rest : leaks s ≡ false = ground arith in
    redact_from_plain fuel c s (matching_sensitive_prefix-is_sensitive (c ∷ s) start)
    ∙ ap (λ t. c ∷ t) (redact_from_lem fuel s (omega arith) rest)

redact_segment_lem : (s : Text) → leaks s ≡ false → redact_segment s ≡ s
unfolding redact_segment
redact_segment_lem s h = redact_from_lem (length s) s (omega arith) h

redact_words_lem :
    (segment s : Text) → leaks (segment ++ s) ≡ false → redact_words segment s ≡ segment ++ s
unfolding redact_words
redact_words_lem segment [] h =
    redact_segment_lem segment (leaks-left segment [] h) ∙ sym (append-nil segment)
redact_words_lem segment (c ∷ s) h = elim (Bool-cases (is_whitespace c)) [
  | inl blank ↦
      let rest : leaks s ≡ false = leaks-right (c ∷ []) s (leaks-right segment (c ∷ s) h) in
      rw
        (
          blank,
          redact_segment_lem segment (leaks-left segment (c ∷ s) h),
          redact_words_lem [] s rest,
        )
        refl
  | inr letter ↦
      let joined = append_assoc segment (c ∷ []) s in
      rw letter (redact_words_lem (segment ++ c ∷ []) s (ap leaks joined ∙ h) ∙ joined)
]

-- A text in which no sensitive prefix stands is returned as it is.
pub redact_for_logs_plain : (value : Text) → leaks value ≡ false → redact_for_logs value ≡ value
unfolding redact_for_logs
redact_for_logs_plain value h = redact_words_lem [] value h
