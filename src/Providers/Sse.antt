-- ===== src/Providers/Sse.antt =====
-- `stream_sse_chunks`: the machine that cuts the bytes of the upstream into lines, the lines into events,
-- and the events into chunks. `from_utf8` and the decoding of a chunk are parameters. The machine is
-- given as one round of its loop; a round emits an item, goes on, or ends the stream.
pub mod Reference
pub mod Pieces
pub mod Ending
use mizan.Prelude.{
  ℕ, Bool, ◌≡◌, true, false, not, ◌||◌, Option, none, some, List, [], ◌∷◌, ◌++◌, Text, codes,
  starts_with, trim, trim_start, is_empty, drop, map, ◌==◌, ◌⊎◌, inl, inr, if◌then◌else◌,
}
use mizan.Core.Error.{AppError, AppResult, ok, err, infrastructure, provider}
use mizan.Core.Exec.{Exec, ◌>>=◌, ◌>>◌, pure, lift, gets, modify}
use mizan.Gateway.Requests.{ChatStreamChunk}
use mizan.Providers.Payloads.{OpenAiChatCompletionChunk, parse_stream_event}

abbrev pub Item : Type 0
Item = AppResult ChatStreamChunk

-- What is left of the byte stream: pieces, or the text of a read error.
abbrev pub ByteStream : Type 0
ByteStream = List (Text ⊎ List ℕ)

pub record SseStreamState : Type 0 where
  pub byte_stream : ByteStream
  pub line_buffer : List ℕ
  pub event_data : Text
  pub pending : List Item
  pub emitted_any : Bool
  pub finished : Bool

-- `SseStreamState::new`
abbrev pub new_stream : ByteStream → SseStreamState
new_stream byte_stream = record {
  byte_stream = byte_stream;
  line_buffer = [];
  event_data = [];
  pending = [];
  emitted_any = false;
  finished = false;
}

abbrev pub M : Type 0 → Type 0
M = Exec SseStreamState

-- `position` of the line feed, and `drain`: the bytes before it, and those after it.
unfoldable pub split_line : List ℕ → Option (List ℕ × List ℕ)
split_line [] = none
split_line (b ∷ bs) =
    if b == 10
    then some ([], bs)
    else (elim (split_line bs) [ none ↦ none | some (line, rest) ↦ some (b ∷ line, rest) ])

-- A carriage return at the end is dropped.
unfoldable pub strip_cr : List ℕ → List ℕ
strip_cr [] = []
strip_cr (b ∷ []) = if b == 13 then [] else b ∷ []
strip_cr (b ∷ c ∷ bs) = b ∷ strip_cr (c ∷ bs)

pub data Round : Type 0 where
  emits : Item → SseStreamState → Round
  goes_on : SseStreamState → Round
  ends : Round

abbrev pub read_error : Text → AppError
read_error error = infrastructure (codes "upstream chat completion stream read failed: " ++ error)

abbrev pub empty_error : AppError
empty_error = provider (codes "upstream stream response was empty")

module _ (from_utf8 : List ℕ → Text ⊎ Text) (decode : Text → Text ⊎ OpenAiChatCompletionChunk) where
  unfoldable pub flush_pending_sse_event : M (Unit {0})
  flush_pending_sse_event s =
      if is_empty (trim s.event_data)
      then (ok tt, record s { event_data = [] })
      else (do
        chunks ← lift (parse_stream_event decode s.event_data)
        modify (λ s. record s { pending = s.pending ++ map ok chunks }))
          (record s { event_data = [] })

  abbrev pub decoded_line : Text ⊎ Text → AppResult Text
  decoded_line (inl error) = err (provider (codes "invalid upstream stream line: " ++ error))
  decoded_line (inr line) = ok line

  -- A line of data is added to the data of the event, after a line feed if there are some.
  unfoldable pub add_data : Text → Text → Text
  add_data event_data value =
      (if is_empty event_data then event_data else event_data ++ 10 ∷ []) ++ trim_start value

  unfoldable pub process_sse_line : List ℕ → M (Unit {0})
  unfolding flush_pending_sse_event add_data
  process_sse_line raw_line = do
    line ← lift (decoded_line (from_utf8 raw_line))
    if is_empty line
        then flush_pending_sse_event
        else if starts_with (trim_start line) (codes ":")
        then pure tt
        else if starts_with (trim_start line) (codes "data:")
        then modify
            (λ s. record s { event_data = add_data s.event_data (drop 5 (trim_start line)) })
        else pure tt

  abbrev pub finish : SseStreamState → SseStreamState
  finish s = record s { finished = true }

  -- `pending.pop_front()`
  abbrev emit_next : Item → List Item → SseStreamState → Round
  emit_next (ok chunk) items s = emits (ok chunk) (record s { pending = items; emitted_any = true })
  emit_next (err error) items s = emits (err error) (record s { pending = items })

  -- The end of the bytes, once the last line and the last event are dealt with.
  unfoldable pub last_round : List Item → SseStreamState → Round
  last_round (item ∷ items) s = emit_next item items s
  last_round [] s = if not s.emitted_any then emits (err empty_error) (finish s) else ends

  abbrev pub flushed : AppResult (Unit {0}) × SseStreamState → Round
  flushed (ok _, s) = last_round s.pending s
  flushed (err error, s) = emits (err error) (finish s)

  abbrev pub last_line : AppResult (Unit {0}) × SseStreamState → Round
  last_line (ok _, s) = flushed (flush_pending_sse_event s)
  last_line (err error, s) = emits (err error) (finish s)

  abbrev pub after_line : AppResult (Unit {0}) × SseStreamState → Round
  after_line (ok _, s) = goes_on s
  after_line (err error, s) = emits (err error) (finish s)

  -- No pending item, and no whole line in the buffer.
  unfoldable pub read_more : ByteStream → SseStreamState → Round
  unfolding last_round flush_pending_sse_event process_sse_line
  read_more (inr bytes ∷ byte_stream) s =
      goes_on (record s { byte_stream = byte_stream; line_buffer = s.line_buffer ++ bytes })
  read_more (inl error ∷ byte_stream) s =
      emits (err (read_error error)) (finish (record s { byte_stream = byte_stream }))
  read_more [] s = elim (s.line_buffer) [
    | [] ↦ last_line (ok tt, s)
    | b ∷ bs ↦ last_line (process_sse_line (b ∷ bs) (record s { line_buffer = [] }))
  ]

  -- No pending item.
  unfoldable pub next_line : Option (List ℕ × List ℕ) → SseStreamState → Round
  unfolding process_sse_line read_more
  next_line (some (line, rest)) s =
      after_line (process_sse_line (strip_cr line) (record s { line_buffer = rest }))
  next_line none s = read_more s.byte_stream s

  unfoldable pub round : List Item → SseStreamState → Round
  unfolding next_line
  round (item ∷ items) s = emit_next item items s
  round [] s = next_line (split_line s.line_buffer) s

  -- The stream of items, from a state: `unfold`, which asks until it gets the end.
  pub data Gives : SseStreamState → List Item → Type 0 where
    over : (s : SseStreamState) → s.finished ≡ true → Gives s []
    ended : (s : SseStreamState) → s.finished ≡ false → round s.pending s ≡ ends → Gives s []
    emitted :
        (s s' : SseStreamState) (item : Item) (items : List Item)
        → s.finished ≡ false
        → round s.pending s ≡ emits item s'
        → Gives s' items
        → Gives s (item ∷ items)
    went_on :
        (s s' : SseStreamState) (items : List Item)
        → s.finished ≡ false
        → round s.pending s ≡ goes_on s'
        → Gives s' items
        → Gives s items
