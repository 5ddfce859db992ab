-- ===== src/Core/Redaction/Laws.antt =====
-- How the start of a text is read: a text that starts with a prefix does so before any character that
-- the prefix has not.
use mizan.Prelude.{
  ℕ, zero, suc, ◌≡◌, refl, sym, ap, ◌∙◌, inl, inr, Bool, true, false, not, Option-cases, none, some,
  is_some, List, [], ◌∷◌, ◌++◌, Text, codes, all, any, starts_with, length, drop, ◌==◌, arith,
}
use mizan.Core.Redaction.{
  redacted, sensitive_prefixes, find_prefix, matching_sensitive_prefix, skip_secret, redact_from,
}

-- The character is not in the prefix.
abbrev pub lacks : ℕ → Text → Bool
lacks c = all (λ d. not (d == c))

pub starts_with-append :
    (a : Text) (c : ℕ) (b p : Text)
    → lacks c p ≡ true
    → starts_with (a ++ c ∷ b) p ≡ true
    → starts_with a p ≡ true
unfolding starts_with
starts_with-append [] c b [] free h = refl
starts_with-append [] c b (d ∷ p) free h = ground arith
starts_with-append (x ∷ a) c b [] free h = refl
starts_with-append (x ∷ a) c b (d ∷ p) free h = ground (arith, starts_with-append a c b p)

-- Whether a sensitive prefix stands at the start, or anywhere.
abbrev pub is_sensitive : List Text → Text → Bool
is_sensitive ps s = any (starts_with s) ps

pub find_prefix-is_sensitive :
    (ps : List Text) (s : Text) → is_some (find_prefix ps s) ≡ is_sensitive ps s
unfolding find_prefix
find_prefix-is_sensitive [] s = refl
find_prefix-is_sensitive (p ∷ ps) s = ground (arith, find_prefix-is_sensitive ps s)

pub matching_sensitive_prefix-none :
    (s : Text) → matching_sensitive_prefix s ≡ none → is_sensitive sensitive_prefixes s ≡ false
unfolding matching_sensitive_prefix
matching_sensitive_prefix-none s plain =
    sym (find_prefix-is_sensitive sensitive_prefixes s) ∙ rw plain refl

pub matching_sensitive_prefix-is_sensitive :
    (s : Text) → is_sensitive sensitive_prefixes s ≡ false → matching_sensitive_prefix s ≡ none
unfolding matching_sensitive_prefix
matching_sensitive_prefix-is_sensitive s plain =
    let none_found = find_prefix-is_sensitive sensitive_prefixes s ∙ plain in
    elim (Option-cases (find_prefix sensitive_prefixes s)) [
      | inl missing ↦ missing
      | inr (p, found) ↦ let wrong : true ≡ false = sym (ap is_some found) ∙ none_found in cc
    ]

pub is_sensitive-append :
    (ps : List Text) (a : Text) (c : ℕ) (b : Text)
    → all (lacks c) ps ≡ true
    → is_sensitive ps (a ++ c ∷ b) ≡ true
    → is_sensitive ps a ≡ true
is_sensitive-append [] a c b free h = h
is_sensitive-append (p ∷ ps) a c b free h =
    ground (arith, starts_with-append a c b p, is_sensitive-append ps a c b)

-- One round of the outer loop.
module _ (fuel c : ℕ) (s : Text) where
  pub redact_from_plain :
      matching_sensitive_prefix (c ∷ s) ≡ none
      → redact_from (suc fuel) (c ∷ s) ≡ c ∷ redact_from fuel s
  unfolding redact_from
  redact_from_plain plain = rw (plain, redact_from) refl

  -- What follows the replaced secret.
  pub redact_from_secret :
      (prefix : Text)
      → matching_sensitive_prefix (c ∷ s) ≡ some prefix
      → redact_from (suc fuel) (c ∷ s)
        ≡ redacted ++ redact_from fuel (skip_secret (drop (length prefix) (c ∷ s)))
  unfolding redact_from
  redact_from_secret prefix secret = rw (secret, redact_from) refl

starts_with-redacted :
    (t : Text) (d : ℕ) (p : Text) → starts_with (redacted ++ t) (d ∷ p) ≡ true → d ≡ b'['
unfolding starts_with redacted codes
starts_with-redacted t d p h = ground arith

starts_with-nil : (s : Text) → starts_with s [] ≡ true
unfolding starts_with
starts_with-nil [] = refl
starts_with-nil (_ ∷ _) = refl

pub starts_with-redact_from :
    (fuel : ℕ) (s p : Text)
    → lacks b'[' p ≡ true
    → starts_with (redact_from fuel s) p ≡ true
    → starts_with s p ≡ true
unfolding starts_with redact_from
starts_with-redact_from fuel s [] free h = starts_with-nil s
starts_with-redact_from zero s (d ∷ p) free h = cc
starts_with-redact_from (suc fuel) [] (d ∷ p) free h = cc
starts_with-redact_from (suc fuel) (c ∷ s) (d ∷ p) free h =
    elim (Option-cases (matching_sensitive_prefix (c ∷ s))) [
      | inl plain ↦
          let start : starts_with (c ∷ redact_from fuel s) (d ∷ p) ≡ true =
            ap (λ t. starts_with t (d ∷ p)) (sym (redact_from_plain fuel c s plain)) ∙ h in
          ground (arith, starts_with-redact_from fuel s p)
      | inr (prefix, secret) ↦
          let start =
            ap (λ t. starts_with t (d ∷ p)) (sym (redact_from_secret fuel c s prefix secret)) ∙ h in
          let bracket = starts_with-redacted _ d p start in ground arith
    ]

pub is_sensitive-redact_from :
    (ps : List Text) (fuel : ℕ) (s : Text)
    → all (lacks b'[') ps ≡ true
    → is_sensitive ps (redact_from fuel s) ≡ true
    → is_sensitive ps s ≡ true
is_sensitive-redact_from [] fuel s free h = h
is_sensitive-redact_from (p ∷ ps) fuel s free h =
    ground (arith, starts_with-redact_from fuel s p, is_sensitive-redact_from ps fuel s)
