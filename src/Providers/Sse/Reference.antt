-- ===== src/Providers/Sse/Reference.antt =====
-- What the items of a stream are, as a function of its bytes and read errors alone.
use mizan.Prelude.{
  ℕ, Bool, true, false, List, [], ◌∷◌, ◌++◌, Text, codes, starts_with, trim, trim_start, is_empty,
  drop, map, ◌==◌, ◌⊎◌, inl, inr, if◌then◌else◌,
}
use mizan.Core.Error.{AppResult, ok, err}
use mizan.Gateway.Requests.{ChatStreamChunk}
use mizan.Providers.Payloads.{OpenAiChatCompletionChunk, parse_stream_event}
use mizan.Providers.Sse.{
  Item, ByteStream, strip_cr, read_error, empty_error, add_data, decoded_line,
}

-- A byte, or the read error at which the stream breaks off.
abbrev pub Symbol : Type 0
Symbol = Text ⊎ ℕ

abbrev pub byte : ℕ → Symbol
byte b = inr b

-- The stream, however it was cut into pieces.
abbrev pub symbols : ByteStream → List Symbol
symbols [] = []
symbols (inl error ∷ pieces) = inl error ∷ symbols pieces
symbols (inr bytes ∷ pieces) = map byte bytes ++ symbols pieces

-- Whether an item was emitted, after some chunks.
abbrev pub after : Bool → List ChatStreamChunk → Bool
after emitted [] = emitted
after emitted (chunk ∷ chunks) = true

abbrev pub items : List ChatStreamChunk → List Item
items chunks = map ok chunks

-- A stream without any item ends with an error.
abbrev pub tail : Bool → List Item
tail true = []
tail false = err empty_error ∷ []

module _ (from_utf8 : List ℕ → Text ⊎ Text) (decode : Text → Text ⊎ OpenAiChatCompletionChunk) where
  -- The chunks of an event's data.
  unfoldable pub event : Text → AppResult (List ChatStreamChunk)
  event text = if is_empty (trim text) then ok [] else parse_stream_event decode text

  abbrev pub emptied : AppResult (List ChatStreamChunk) → AppResult (Text × List ChatStreamChunk)
  emptied (ok chunks) = ok ([], chunks)
  emptied (err error) = err error

  abbrev pub line_text : Text → Text → AppResult (Text × List ChatStreamChunk)
  line_text text line =
      if is_empty line
      then emptied (event text)
      else if starts_with (trim_start line) (codes ":")
      then ok (text, [])
      else if starts_with (trim_start line) (codes "data:")
      then ok (add_data from_utf8 decode text (drop 5 (trim_start line)), [])
      else ok (text, [])

  abbrev pub line_result : Text → AppResult Text → AppResult (Text × List ChatStreamChunk)
  line_result text (ok line) = line_text text line
  line_result text (err error) = err error

  -- What a line makes of the data before it, and the chunks of the event that it ends.
  unfoldable pub line_of : List ℕ → Text → AppResult (Text × List ChatStreamChunk)
  unfolding event
  line_of raw text = line_result text (decoded_line from_utf8 decode (from_utf8 raw))

  abbrev pub last_event : Bool → List ChatStreamChunk → AppResult (List ChatStreamChunk) → List Item
  last_event emitted chunks (ok more) =
      items (chunks ++ more) ++ tail (after emitted (chunks ++ more))
  last_event emitted chunks (err error) = err error ∷ []

  abbrev pub closing_event : Bool → AppResult (Text × List ChatStreamChunk) → List Item
  closing_event emitted (ok (text, chunks)) = last_event emitted chunks (event text)
  closing_event emitted (err error) = err error ∷ []

  -- The items at the end of the bytes, with the last line if there is one.
  abbrev pub closing : List ℕ → Text → Bool → List Item
  closing [] text emitted = closing_event emitted (ok (text, []))
  closing (b ∷ bs) text emitted = closing_event emitted (line_of (b ∷ bs) text)

  abbrev pub line_items :
      (Text → Bool → List Item) → Bool → AppResult (Text × List ChatStreamChunk) → List Item
  line_items rest emitted (ok (text, chunks)) = items chunks ++ rest text (after emitted chunks)
  line_items rest emitted (err error) = err error ∷ []

  -- The items, from the bytes of the line so far, the data of the event and whether an item was emitted.
  unfoldable pub consume : List ℕ → Text → Bool → List Symbol → List Item
  unfolding line_of
  consume line text emitted [] = closing line text emitted
  consume line text emitted (inl error ∷ input) = err (read_error error) ∷ []
  consume line text emitted (inr b ∷ input) = elim (b == 10) [
    | true ↦
        line_items (λ text' emitted'. consume [] text' emitted' input) emitted
          (line_of (strip_cr line) text)
    | false ↦ consume (line ++ b ∷ []) text emitted input
  ]

  unfoldable pub reference : ByteStream → List Item
  unfolding consume
  reference pieces = consume [] [] false (symbols pieces)
