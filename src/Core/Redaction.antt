-- ===== src/Core/Redaction.antt =====
-- crates/mizan-core/src/redaction.rs: secrets are cut out of texts before they are logged.
pub mod Laws
pub mod Clean
pub mod Plain
mod Tests
use mizan.Prelude.{
  ℕ, zero, suc, Bool, true, false, ◌||◌, Option, none, some, List, [], ◌∷◌, ◌++◌, Text, codes,
  starts_with, is_whitespace, length, drop, ◌==◌, if◌then◌else◌,
}

unfoldable pub redacted : Text
redacted = codes "[REDACTED]"

unfoldable pub sensitive_prefixes : List Text
sensitive_prefixes = codes "mizan_sk_" ∷ codes "mizan_sess_" ∷ codes "sk-" ∷ codes "Bearer" ∷ []

unfoldable pub find_prefix : List Text → Text → Option Text
find_prefix [] value = none
find_prefix (p ∷ ps) value = if starts_with value p then some p else find_prefix ps value

unfoldable pub matching_sensitive_prefix : Text → Option Text
matching_sensitive_prefix value = find_prefix sensitive_prefixes value

unfoldable pub is_secret_boundary : ℕ → Bool
is_secret_boundary c =
    c == b',' || c == b';' || c == b'"' || c == b'\'' || c == b')' || c == b']' || c == b'}'

-- The inner loop: past the characters of the secret.
unfoldable pub skip_secret : Text → Text
skip_secret [] = []
skip_secret (c ∷ s) = if is_secret_boundary c then c ∷ s else skip_secret s

-- The outer loop, on what is left of the segment. Every round takes a character, so the length of the
-- segment is enough fuel.
unfoldable pub redact_from : ℕ → Text → Text
redact_from zero s = []
redact_from (suc fuel) [] = []
redact_from (suc fuel) (c ∷ s) = elim (matching_sensitive_prefix (c ∷ s)) [
  | none ↦ c ∷ redact_from fuel s
  | some prefix ↦ redacted ++ redact_from fuel (skip_secret (drop (length prefix) (c ∷ s)))
]

unfoldable pub redact_segment : Text → Text
redact_segment segment = redact_from (length segment) segment

-- The loop of `redact_for_logs`, with the segment read so far.
unfoldable pub redact_words : Text → Text → Text
redact_words segment [] = redact_segment segment
redact_words segment (c ∷ s) =
    let closed = redact_words [] s in
    let longer = redact_words (segment ++ c ∷ []) s in
    if is_whitespace c then redact_segment segment ++ c ∷ closed else longer

unfoldable pub redact_for_logs : Text → Text
redact_for_logs value = redact_words [] value
