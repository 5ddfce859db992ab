-- ===== src/Core/Redaction/Tests.antt =====
-- The example of the source's own tests.
use mizan.Prelude.{◌≡◌, refl, false, Text, codes, starts_with, is_whitespace}
use mizan.Core.Redaction.{
  redacted, sensitive_prefixes, find_prefix, matching_sensitive_prefix, is_secret_boundary,
  skip_secret, redact_from, redact_segment, redact_words, redact_for_logs,
}
use mizan.Core.Redaction.Clean.{leaks, leaks-redact_for_logs}
use mizan.Core.Redaction.Plain.{redact_for_logs_plain}

abbrev line : Text
line = codes "key=sk-live-1 ok"

cuts : redact_for_logs line ≡ codes "key=[REDACTED] ok"
unfolding redact_for_logs redact_words redact_segment redact_from skip_secret is_secret_boundary
    matching_sensitive_prefix find_prefix sensitive_prefixes redacted codes starts_with
    is_whitespace
cuts = refl

leaks-redact_for_logs_example : leaks (redact_for_logs line) ≡ false
leaks-redact_for_logs_example = leaks-redact_for_logs line

regular : leaks (codes "status=200 provider=openai") ≡ false
unfolding sensitive_prefixes codes starts_with
regular = refl

redact_for_logs_plain_example :
    redact_for_logs (codes "status=200 provider=openai") ≡ codes "status=200 provider=openai"
redact_for_logs_plain_example = redact_for_logs_plain (codes "status=200 provider=openai") regular
