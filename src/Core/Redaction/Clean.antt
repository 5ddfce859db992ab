-- ===== src/Core/Redaction/Clean.antt =====
-- The theorems about `redact_for_logs`.
use mizan.Prelude.{
  ℕ, zero, suc, ◌≡◌, refl, ap, ◌∙◌, inl, inr, Bool, true, false, ◌||◌, Bool-cases, Option-cases, [],
  ◌∷◌, ◌++◌, Text, codes, all, starts_with, is_whitespace, length, arith,
}
use mizan.Core.Redaction.{
  redacted, sensitive_prefixes, matching_sensitive_prefix, redact_from, redact_segment,
  redact_words, redact_for_logs,
}
use mizan.Core.Redaction.Laws.{
  lacks, is_sensitive, matching_sensitive_prefix-none, redact_from_plain, redact_from_secret,
  is_sensitive-append, is_sensitive-redact_from,
}

-- A sensitive prefix stands at some place of the text.
abbrev pub leaks : Text → Bool
leaks [] = false
leaks (c ∷ s) = is_sensitive sensitive_prefixes (c ∷ s) || leaks s

-- No sensitive prefix has the character.
abbrev Parts : ℕ → Type 0
Parts c = all (lacks c) sensitive_prefixes ≡ true

whitespace-Parts : (c : ℕ) → is_whitespace c ≡ true → Parts c
unfolding is_whitespace sensitive_prefixes codes
whitespace-Parts c h = ground arith

is_sensitive-nil : is_sensitive sensitive_prefixes [] ≡ false
unfolding sensitive_prefixes codes starts_with
is_sensitive-nil = refl

leaks-append :
    (a : Text) (c : ℕ) (b : Text)
    → Parts c
    → leaks a ≡ false
    → leaks b ≡ false
    → leaks (a ++ c ∷ b) ≡ false
leaks-append [] c b parts ha hb =
    ground (arith, is_sensitive-append sensitive_prefixes [] c b parts, is_sensitive-nil)
leaks-append (x ∷ a) c b parts ha hb =
    ground
      (arith, is_sensitive-append sensitive_prefixes (x ∷ a) c b parts, leaks-append a c b parts)

bracket-Parts : Parts b'['
unfolding sensitive_prefixes codes
bracket-Parts = refl

leaks-redacted : (t : Text) → leaks t ≡ false → leaks (redacted ++ t) ≡ false
unfolding redacted codes sensitive_prefixes starts_with
leaks-redacted t h = h

leaks_cons :
    (c : ℕ) (s : Text)
    → is_sensitive sensitive_prefixes (c ∷ s) ≡ false
    → leaks s ≡ false
    → leaks (c ∷ s) ≡ false
leaks_cons c s start rest = ground arith

no_start :
    (out longer : Bool) {before : Bool}
    → before ≡ out
    → (before ≡ true → longer ≡ true)
    → longer ≡ false
    → out ≡ false
no_start out longer same start safe = ground arith

leaks-redact_from : (fuel : ℕ) (s : Text) → leaks (redact_from fuel s) ≡ false
unfolding redact_from
leaks-redact_from zero s = refl
leaks-redact_from (suc fuel) [] = refl
leaks-redact_from (suc fuel) (c ∷ s) = elim (Option-cases (matching_sensitive_prefix (c ∷ s))) [
  | inl plain ↦
      let out = redact_from_plain fuel c s plain in
      let same = ap (is_sensitive sensitive_prefixes) out in
      let start = is_sensitive-redact_from sensitive_prefixes (suc fuel) (c ∷ s) bracket-Parts in
      let safe = matching_sensitive_prefix-none (c ∷ s) plain in
      let rest = leaks-redact_from fuel s in
      ap leaks out ∙ leaks_cons c (redact_from fuel s) (no_start _ _ same start safe) rest
  | inr (prefix, secret) ↦
      ap leaks (redact_from_secret fuel c s prefix secret)
      ∙ leaks-redacted _ (leaks-redact_from fuel _)
]

leaks-redact_words : (segment s : Text) → leaks (redact_words segment s) ≡ false
unfolding redact_words redact_segment
leaks-redact_words segment [] = leaks-redact_from (length segment) segment
leaks-redact_words segment (c ∷ s) = elim (Bool-cases (is_whitespace c)) [
  | inl blank ↦ rw blank (
      leaks-append (redact_segment segment) c (redact_words [] s) (whitespace-Parts c blank)
        (leaks-redact_from (length segment) segment) (leaks-redact_words [] s))
  | inr letter ↦ rw letter (leaks-redact_words (segment ++ c ∷ []) s)
]

-- Nowhere in a text that `redact_for_logs` returns does one of the sensitive prefixes stand.
pub leaks-redact_for_logs : (value : Text) → leaks (redact_for_logs value) ≡ false
unfolding redact_for_logs
leaks-redact_for_logs value = leaks-redact_words [] value
