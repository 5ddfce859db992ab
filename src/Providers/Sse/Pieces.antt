-- ===== src/Providers/Sse/Pieces.antt =====
-- The machine of `stream_sse_chunks` one line at a time, against the reference: what a line of bytes
-- adds to the event, and what the chunks that it completes do to the stream.
use mathlib.Core.Path.{subst}
use mizan.Prelude.{
  ℕ, ◌≡◌, refl, sym, ap, ◌∙◌, Bool, true, false, Bool-cases, ◌⊎◌, inl, inr, Option, none, some,
  List, [], ◌∷◌, ◌++◌, append_assoc, append-nil, Text, codes, starts_with, trim, trim_start,
  is_empty, map, ◌==◌,
}
use mizan.Core.Error.{AppError, AppResult, ok, err, result-cases}
use mizan.Gateway.Requests.{ChatStreamChunk}
use mizan.Providers.Payloads.{OpenAiChatCompletionChunk, parse_stream_event}
use mizan.Providers.Sse.{
  Item, ByteStream, SseStreamState, split_line, strip_cr, flush_pending_sse_event, decoded_line,
  process_sse_line, finish, after_line, next_line, round, Gives, over, emitted, went_on,
}
use mizan.Providers.Sse.Reference.{
  Symbol, byte, after, items, event, line_result, line_of, line_items, consume,
}

-- A state that is not finished, with chunks to emit.
abbrev pub st : ByteStream → List ℕ → Text → List ChatStreamChunk → Bool → SseStreamState
st pieces buffer text chunks emitted_any = record {
  byte_stream = pieces;
  line_buffer = buffer;
  event_data = text;
  pending = items chunks;
  emitted_any = emitted_any;
  finished = false;
}

items-append : (xs ys : List ChatStreamChunk) → items (xs ++ ys) ≡ items xs ++ items ys
items-append [] ys = refl
items-append (x ∷ xs) ys = ap (λ zs. ok x ∷ zs) (items-append xs ys)

pub after-true : (chunks : List ChatStreamChunk) → after true chunks ≡ true
after-true [] = refl
after-true (c ∷ cs) = refl

module _ (from_utf8 : List ℕ → Text ⊎ Text) (decode : Text → Text ⊎ OpenAiChatCompletionChunk) where
  abbrev pub Out : Type 0
  Out = AppResult (Unit {0}) × SseStreamState

  abbrev pub G : SseStreamState → List Item → Type 0
  G = Gives from_utf8 decode

  pub flush_rule :
      (Q : Out → Type 0) (pieces : ByteStream) (buffer : List ℕ) (text : Text)
      (chunks : List ChatStreamChunk) (e : Bool)
      → ((error : AppError) (s : SseStreamState)
          → event from_utf8 decode text ≡ err error
          → Q (err error, s))
      → ((more : List ChatStreamChunk)
          → event from_utf8 decode text ≡ ok more
          → Q (ok tt, st pieces buffer [] (chunks ++ more) e))
      → Q (flush_pending_sse_event from_utf8 decode (st pieces buffer text chunks e))
  unfolding flush_pending_sse_event event
  flush_rule Q pieces buffer text chunks e stop go = elim (Bool-cases (is_empty (trim text))) [
    | inl blank ↦ rw blank (
        subst (λ cs. Q (ok tt, st pieces buffer [] cs e)) (append-nil chunks)
          (go [] (rw blank refl)))
    | inr full ↦ elim (result-cases (parse_stream_event decode text)) [
      | inl (more, parsed) ↦
          rw (full, parsed)
            (subst (λ p. Q (ok tt, record (st pieces buffer [] [] e) { pending = p }))
              (items-append chunks more) (go more (rw full parsed)))
      | inr (error, failed) ↦ rw (full, failed) (stop error _ (rw full failed))
    ]
  ]

  pub process_rule :
      (Q : Out → Type 0) (raw : List ℕ) (pieces : ByteStream) (buffer : List ℕ) (text : Text)
      (e : Bool)
      → ((error : AppError) (s : SseStreamState)
          → line_of from_utf8 decode raw text ≡ err error
          → Q (err error, s))
      → ((text' : Text) (chunks : List ChatStreamChunk)
          → line_of from_utf8 decode raw text ≡ ok (text', chunks)
          → Q (ok tt, st pieces buffer text' chunks e))
      → Q (process_sse_line from_utf8 decode raw (st pieces buffer text [] e))
  unfolding process_sse_line line_of flush_pending_sse_event event
  process_rule Q raw pieces buffer text e stop go =
      elim (result-cases (decoded_line from_utf8 decode (from_utf8 raw))) [
        | inr (error, bad) ↦ rw bad (stop error _ (ap (line_result from_utf8 decode text) bad))
        | inl (line, read) ↦
            let is = ap (line_result from_utf8 decode text) read in
            rw read (elim (Bool-cases (is_empty line)) [
              | inl blank ↦ rw blank (
                  flush_rule Q pieces buffer text [] e
                    (λ error s failed. stop error s (is ∙ rw (blank, failed) refl))
                    (λ more parsed. go [] more (is ∙ rw (blank, parsed) refl)))
              | inr full ↦ elim (Bool-cases (starts_with (trim_start line) (codes ":"))) [
                | inl comment ↦ rw (full, comment) (go text [] (is ∙ rw (full, comment) refl))
                | inr not_comment ↦
                    elim (Bool-cases (starts_with (trim_start line) (codes "data:"))) [
                      | inl of_data ↦
                          rw (full, not_comment, of_data)
                            (go _ [] (is ∙ rw (full, not_comment, of_data) refl))
                      | inr other ↦
                          rw (full, not_comment, other)
                            (go text [] (is ∙ rw (full, not_comment, other) refl))
                    ]
              ]
            ])
      ]

  -- The items of a buffer, by its first line.
  abbrev pub split_items :
      List ℕ → Text → Bool → List Symbol → List ℕ → Option (List ℕ × List ℕ) → List Item
  split_items acc text e more buffer none = consume from_utf8 decode (acc ++ buffer) text e more
  split_items acc text e more buffer (some (line, rest)) =
      line_items from_utf8 decode
        (λ text' e'. consume from_utf8 decode [] text' e' (map byte rest ++ more)) e
        (line_of from_utf8 decode (strip_cr (acc ++ line)) text)

  later_line :
      (acc : List ℕ) (b : ℕ) (buffer : List ℕ) (text : Text) (e : Bool) (more : List Symbol)
      (o : Option (List ℕ × List ℕ))
      → split_items (acc ++ b ∷ []) text e more buffer o
        ≡ split_items acc text e more
            (b ∷ buffer)
            (elim o [ none ↦ none | some (line, rest) ↦ some (b ∷ line, rest) ])
  later_line acc b buffer text e more none =
      ap (λ l. consume from_utf8 decode l text e more) (append_assoc acc (b ∷ []) buffer)
  later_line acc b buffer text e more (some (line, rest)) =
      ap
        (λ l.
          line_items from_utf8 decode
            (λ text' e'. consume from_utf8 decode [] text' e' (map byte rest ++ more)) e
            (line_of from_utf8 decode (strip_cr l) text))
        (append_assoc acc (b ∷ []) line)

  consume_feed :
      (acc : List ℕ) (b : ℕ) (text : Text) (e : Bool) (input : List Symbol)
      → (b == 10) ≡ true
      → consume from_utf8 decode acc text e (inr b ∷ input)
        ≡ line_items from_utf8 decode
            (λ text' e'. consume from_utf8 decode [] text' e' input)
            e
            (line_of from_utf8 decode (strip_cr acc) text)
  unfolding consume
  consume_feed acc b text e input feed =
      ap
        (λ t. elim t [
          | true ↦
              line_items from_utf8 decode (λ text' e'. consume from_utf8 decode [] text' e' input) e
                (line_of from_utf8 decode (strip_cr acc) text)
          | false ↦ consume from_utf8 decode (acc ++ b ∷ []) text e input
        ])
        feed

  consume_other :
      (acc : List ℕ) (b : ℕ) (text : Text) (e : Bool) (input : List Symbol)
      → (b == 10) ≡ false
      → consume from_utf8 decode acc text e (inr b ∷ input)
        ≡ consume from_utf8 decode (acc ++ b ∷ []) text e input
  unfolding consume
  consume_other acc b text e input other =
      ap
        (λ t. elim t [
          | true ↦
              line_items from_utf8 decode (λ text' e'. consume from_utf8 decode [] text' e' input) e
                (line_of from_utf8 decode (strip_cr acc) text)
          | false ↦ consume from_utf8 decode (acc ++ b ∷ []) text e input
        ])
        other

  pub split_feed : (b : ℕ) (bs : List ℕ) → (b == 10) ≡ true → split_line (b ∷ bs) ≡ some ([], bs)
  unfolding split_line
  split_feed b bs feed = rw feed refl

  pub split_other :
      (b : ℕ) (bs : List ℕ)
      → (b == 10) ≡ false
      → split_line (b ∷ bs)
        ≡ (elim (split_line bs) [ none ↦ none | some (line, rest) ↦ some (b ∷ line, rest) ])
  unfolding split_line
  split_other b bs other = rw other refl

  pub consume-split_line :
      (acc buffer : List ℕ) (text : Text) (e : Bool) (more : List Symbol)
      → consume from_utf8 decode acc text e (map byte buffer ++ more)
        ≡ split_items acc text e more buffer (split_line buffer)
  unfolding split_line
  consume-split_line acc [] text e more =
      ap (λ l. consume from_utf8 decode l text e more) (sym (append-nil acc))
  consume-split_line acc (b ∷ buffer) text e more = elim (Bool-cases (b == 10)) [
    | inl feed ↦
        consume_feed acc b text e (map byte buffer ++ more) feed
        ∙ ap
            (λ l.
              line_items from_utf8 decode
                (λ text' e'. consume from_utf8 decode [] text' e' (map byte buffer ++ more)) e
                (line_of from_utf8 decode (strip_cr l) text))
            (sym (append-nil acc))
        ∙ ap (split_items acc text e more (b ∷ buffer)) (sym (split_feed b buffer feed))
    | inr other ↦
        consume_other acc b text e (map byte buffer ++ more) other
        ∙ consume-split_line (acc ++ b ∷ []) buffer text e more
        ∙ later_line acc b buffer text e more (split_line buffer)
        ∙ ap (split_items acc text e more (b ∷ buffer)) (sym (split_other b buffer other))
  ]

  -- Chunks that wait are emitted first.
  pub chunks_first :
      (pieces : ByteStream) (buffer : List ℕ) (text : Text) (chunks : List ChatStreamChunk)
      (e : Bool) (xs : List Item)
      → G (st pieces buffer text [] (after e chunks)) xs
      → G (st pieces buffer text chunks e) (items chunks ++ xs)
  unfolding round
  chunks_first pieces buffer text [] e xs rest = rest
  chunks_first pieces buffer text (chunk ∷ chunks) e xs rest =
      emitted _ (st pieces buffer text chunks true) (ok chunk) _ refl refl (
        chunks_first pieces buffer text chunks true xs
          (subst (λ b. G (st pieces buffer text [] b) xs) (sym (after-true chunks)) rest))

  pub line_first :
      (pieces : ByteStream) (buffer line rest : List ℕ) (text : Text) (e : Bool)
      (later : Text → Bool → List Item)
      → split_line buffer ≡ some (line, rest)
      → ((text' : Text) (e' : Bool) → G (st pieces rest text' [] e') (later text' e'))
      → G
          (st pieces buffer text [] e)
          (line_items from_utf8 decode later e (line_of from_utf8 decode (strip_cr line) text))
  unfolding round next_line
  line_first pieces buffer line rest text e later cut goes =
      let s = st pieces buffer text [] e in
      let of_line = line_of from_utf8 decode (strip_cr line) text in
      process_rule
        (λ out.
          round from_utf8 decode [] s ≡ after_line from_utf8 decode out
          → G s (line_items from_utf8 decode later e of_line))
        (strip_cr line) pieces rest text e
        (λ error s' failed is.
          subst (λ r. G s (line_items from_utf8 decode later e r)) (sym failed)
            (emitted s (finish from_utf8 decode s') (err error) [] refl is (over _ refl)))
        (λ text' chunks read is.
          subst (λ r. G s (line_items from_utf8 decode later e r)) (sym read)
            (went_on s (st pieces rest text' chunks e) _ refl is
              (chunks_first pieces rest text' chunks e _ (goes text' (after e chunks)))))
        (ap (λ o. next_line from_utf8 decode o s) cut)
