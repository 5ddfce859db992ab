-- ===== src/Providers/Tests.antt =====
-- A stream in three pieces that cut a line and a code.
use mizan.Prelude.{
  ℕ, ◌≡◌, refl, List, [], ◌∷◌, ◌++◌, Text, codes, some, none, ◌⊎◌, inl, inr, trim, starts_with,
  text_eq,
}
use mizan.Core.Error.{ok, err}
use mizan.Providers.Payloads.{
  OpenAiChatCompletionChunk, parse_stream_event, kept_choices, or_usage_alone,
}
use mizan.Providers.Sse.{ByteStream, new_stream, strip_cr, add_data, Gives, read_error}
use mizan.Providers.Sse.Reference.{reference, consume, line_of, event}
use mizan.Providers.Sse.Ending.{new_stream-Gives}

-- The text of an event is the delta of its chunk.
abbrev decode : Text → Text ⊎ OpenAiChatCompletionChunk
decode text = inr (record {
  choices = record { index = 0; delta = record { content = some text }; finish_reason = none } ∷ [];
  usage = none;
})

abbrev from_utf8 : List ℕ → Text ⊎ Text
from_utf8 bytes = inr bytes

abbrev pieces : ByteStream
pieces =
    inr (codes "data: a" ++ 13 ∷ [])
    ∷ inr (10 ∷ codes "da")
    ∷ inr (codes "ta:b" ++ 10 ∷ 10 ∷ codes "data: [DONE]" ++ 10 ∷ 10 ∷ [])
    ∷ inl (codes "reset")
    ∷ []

reference_items :
    reference from_utf8 decode pieces
    ≡ ok (record {
      index = 0;
      delta = codes "a" ++ 10 ∷ codes "b";
      finish_reason = none;
      usage = none;
    })
      ∷ err (read_error (codes "reset"))
      ∷ []
unfolding reference consume line_of event strip_cr add_data parse_stream_event kept_choices
    or_usage_alone codes trim starts_with text_eq
reference_items = refl

new_stream-Gives_example :
    Gives from_utf8 decode (new_stream pieces) (reference from_utf8 decode pieces)
new_stream-Gives_example = new_stream-Gives from_utf8 decode pieces
