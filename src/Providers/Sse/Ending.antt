-- ===== src/Providers/Sse/Ending.antt =====
-- The end of the bytes in the machine of `stream_sse_chunks`, and the machine as a whole.
use mathlib.Core.Path.{subst}
use mizan.Prelude.{
  ℕ, zero, suc, ◌≤◌, ◌<◌, ◌≡◌, refl, sym, ap, ◌∙◌, Bool, true, false, Bool-cases, ◌⊎◌, inl, inr,
  Option, Option-cases, none, some, List, [], ◌∷◌, ◌++◌, Text, trim, map, length, ◌==◌, arith,
}
use mizan.Core.Error.{ok, err}
use mizan.Gateway.Requests.{ChatStreamChunk}
use mizan.Providers.Payloads.{OpenAiChatCompletionChunk}
use mizan.Providers.Sse.{
  Item, ByteStream, SseStreamState, new_stream, split_line, read_error, empty_error,
  flush_pending_sse_event, finish, last_round, flushed, last_line, read_more, next_line, round,
  Gives, over, ended, emitted, went_on,
}
use mizan.Providers.Sse.Reference.{
  Symbol, byte, symbols, after, items, tail, event, line_of, last_event, closing_event, closing,
  consume, reference,
}
use mizan.Providers.Sse.Pieces.{
  st, G, flush_rule, process_rule, split_items, consume-split_line, chunks_first, line_first,
  after-true, split_feed, split_other,
}

module _ (from_utf8 : List ℕ → Text ⊎ Text) (decode : Text → Text ⊎ OpenAiChatCompletionChunk) where
  abbrev Stream : SseStreamState → List Item → Type 0
  Stream = G from_utf8 decode

  over_silent : Stream (st [] [] [] [] true) []
  unfolding round next_line read_more split_line flush_pending_sse_event last_round trim
  over_silent = ended _ refl refl

  last_round-Stream :
      (buffer : List ℕ) (text : Text) (e : Bool) (chunks : List ChatStreamChunk)
      → round from_utf8 decode [] (st [] buffer text [] e)
        ≡ last_round from_utf8 decode (items chunks) (st [] [] [] chunks e)
      → Stream (st [] buffer text [] e) (items chunks ++ tail (after e chunks))
  unfolding last_round
  last_round-Stream buffer text true [] is = ended _ refl is
  last_round-Stream buffer text false [] is =
      emitted _ (finish from_utf8 decode (st [] [] [] [] false)) (err empty_error) [] refl is
        (over _ refl)
  last_round-Stream buffer text e (chunk ∷ chunks) is =
      emitted _ (st [] [] [] chunks true) (ok chunk) _ refl is (
        chunks_first from_utf8 decode [] [] [] chunks true []
          (subst (λ b. Stream (st [] [] [] [] b) []) (sym (after-true chunks)) over_silent))

  event_last :
      (buffer : List ℕ) (text text' : Text) (e : Bool) (chunks : List ChatStreamChunk)
      → round from_utf8 decode [] (st [] buffer text [] e)
        ≡ flushed from_utf8 decode
            (flush_pending_sse_event from_utf8 decode (st [] [] text' chunks e))
      → Stream
          (st [] buffer text [] e)
          (last_event from_utf8 decode e chunks (event from_utf8 decode text'))
  event_last buffer text text' e chunks =
      let s = st [] buffer text [] e in
      flush_rule from_utf8 decode
        (λ out.
          round from_utf8 decode [] s ≡ flushed from_utf8 decode out
          → Stream s (last_event from_utf8 decode e chunks (event from_utf8 decode text')))
        [] [] text' chunks e
        (λ error s' failed is.
          subst (λ r. Stream s (last_event from_utf8 decode e chunks r)) (sym failed)
            (emitted s (finish from_utf8 decode s') (err error) [] refl is (over _ refl)))
        (λ more parsed is.
          subst (λ r. Stream s (last_event from_utf8 decode e chunks r)) (sym parsed)
            (last_round-Stream buffer text e (chunks ++ more) is))

  closing-Stream :
      (buffer : List ℕ) (text : Text) (e : Bool)
      → split_line buffer ≡ none
      → Stream (st [] buffer text [] e) (closing from_utf8 decode buffer text e)
  unfolding round next_line read_more
  closing-Stream [] text e whole =
      event_last [] text text e []
        (ap (λ o. next_line from_utf8 decode o (st [] [] text [] e)) whole)
  closing-Stream (b ∷ bs) text e whole =
      let s = st [] (b ∷ bs) text [] e in
      process_rule from_utf8 decode
        (λ out.
          round from_utf8 decode [] s ≡ last_line from_utf8 decode out
          → Stream s (closing_event from_utf8 decode e (line_of from_utf8 decode (b ∷ bs) text)))
        (b ∷ bs) [] [] text e
        (λ error s' failed is.
          subst (λ r. Stream s (closing_event from_utf8 decode e r)) (sym failed)
            (emitted s (finish from_utf8 decode s') (err error) [] refl is (over _ refl)))
        (λ text' chunks read is.
          subst (λ r. Stream s (closing_event from_utf8 decode e r)) (sym read)
            (event_last (b ∷ bs) text text' e chunks is))
        (ap (λ o. next_line from_utf8 decode o s) whole)

  abbrev longer : ℕ → Option (List ℕ × List ℕ) → Option (List ℕ × List ℕ)
  longer b o = elim o [ none ↦ none | some (line, rest) ↦ some (b ∷ line, rest) ]

  some_snd :
      {l l' r r' : List ℕ}
      → ◌≡◌ {A = Option (List ℕ × List ℕ)} (some (l, r)) (some (l', r'))
      → r ≡ r'
  some_snd e = cc

  split_line-length :
      (buffer line rest : List ℕ)
      → split_line buffer ≡ some (line, rest)
      → length rest < length buffer
  unfolding split_line
  split_line-length [] line rest cut = cc
  split_line-length (b ∷ bs) line rest cut = elim (Bool-cases (b == 10)) [
    | inl feed ↦
        let same : bs ≡ rest = some_snd (sym (split_feed from_utf8 decode b bs feed) ∙ cut) in
        rw (sym same) (omega arith)
    | inr other ↦ elim (Option-cases (split_line bs)) [
      | inl missing ↦
          let e = sym (split_other from_utf8 decode b bs other) ∙ cut in
          let never = subst (λ o. longer b o ≡ some (line, rest)) missing e in absurd cc
      | inr ((l, r), found) ↦
          let e = sym (split_other from_utf8 decode b bs other) ∙ cut in
          let same : r ≡ rest = some_snd (subst (λ o. longer b o ≡ some (line, rest)) found e) in
          let shorter = split_line-length bs l r found in rw (sym same) (omega (arith, shorter))
    ]
  ]

  whole_line :
      (buffer : List ℕ) (text : Text) (e : Bool) (more : List Symbol)
      → split_line buffer ≡ none
      → consume from_utf8 decode [] text e (map byte buffer ++ more)
        ≡ consume from_utf8 decode buffer text e more
  whole_line buffer text e more whole =
      consume-split_line from_utf8 decode [] buffer text e more
      ∙ ap (split_items from_utf8 decode [] text e more buffer) whole

  bytes_then :
      (buffer bytes : List ℕ) (more : List Symbol)
      → map byte (buffer ++ bytes) ++ more ≡ map byte buffer ++ (map byte bytes ++ more)
  bytes_then [] bytes more = refl
  bytes_then (b ∷ buffer) bytes more = ap (λ l. byte b ∷ l) (bytes_then buffer bytes more)

  lines-Stream :
      (pieces : ByteStream)
      → ((buffer : List ℕ) (text : Text) (e : Bool)
          → split_line buffer ≡ none
          → Stream
              (st pieces buffer text [] e)
              (consume from_utf8 decode buffer text e (symbols pieces)))
      → (n : ℕ) (buffer : List ℕ) (text : Text) (e : Bool) → length buffer ≤ n
      → Stream
          (st pieces buffer text [] e)
          (consume from_utf8 decode [] text e (map byte buffer ++ symbols pieces))
  lines-Stream pieces at_none zero buffer text e small =
      let whole : split_line buffer ≡ none = elim (Option-cases (split_line buffer)) [
        | inl whole ↦ whole
        | inr ((line, rest), cut) ↦
            let shorter = split_line-length buffer line rest cut in
            absurd (omega (arith, shorter, small))
      ] in
      subst (Stream (st pieces buffer text [] e))
        (sym (whole_line buffer text e (symbols pieces) whole)) (at_none buffer text e whole)
  lines-Stream pieces at_none (suc n) buffer text e small =
      elim (Option-cases (split_line buffer)) [
        | inl whole ↦
            subst (Stream (st pieces buffer text [] e))
              (sym (whole_line buffer text e (symbols pieces) whole)) (at_none buffer text e whole)
        | inr ((line, rest), cut) ↦
            let later : Text → Bool → List Item =
              λ text' e'. consume from_utf8 decode [] text' e' (map byte rest ++ symbols pieces) in
            let shorter = split_line-length buffer line rest cut in
            subst (Stream (st pieces buffer text [] e))
              (sym (
                consume-split_line from_utf8 decode [] buffer text e (symbols pieces)
                ∙ ap (split_items from_utf8 decode [] text e (symbols pieces) buffer) cut))
              (line_first from_utf8 decode pieces buffer line rest text e later cut (λ text' e'.
                lines-Stream pieces at_none n rest text' e' (omega (arith, shorter, small))))
      ]

  -- A buffer without a line feed: the next piece is read.
  piece-Stream :
      (bytes : List ℕ) (pieces : ByteStream) (buffer : List ℕ) (text : Text) (e : Bool)
      → split_line buffer ≡ none
      → Stream
          (st pieces (buffer ++ bytes) text [] e)
          (consume from_utf8 decode [] text e (map byte (buffer ++ bytes) ++ symbols pieces))
      → Stream
          (st (inr bytes ∷ pieces) buffer text [] e)
          (consume from_utf8 decode buffer text e (symbols (inr bytes ∷ pieces)))
  unfolding round next_line read_more
  piece-Stream bytes pieces buffer text e whole rest =
      let s = st (inr bytes ∷ pieces) buffer text [] e in
      went_on s (st pieces (buffer ++ bytes) text [] e) _ refl
        (ap (λ o. next_line from_utf8 decode o s) whole)
        (subst (Stream (st pieces (buffer ++ bytes) text [] e))
          (ap (λ l. consume from_utf8 decode [] text e l) (bytes_then buffer bytes (symbols pieces))
            ∙ whole_line buffer text e (map byte bytes ++ symbols pieces) whole)
          rest)

  whole_buffer :
      (pieces : ByteStream) (buffer : List ℕ) (text : Text) (e : Bool)
      → split_line buffer ≡ none
      → Stream
          (st pieces buffer text [] e)
          (consume from_utf8 decode buffer text e (symbols pieces))
  unfolding consume round next_line read_more
  whole_buffer [] buffer text e whole = closing-Stream buffer text e whole
  whole_buffer (inl error ∷ pieces) buffer text e whole =
      let s = st (inl error ∷ pieces) buffer text [] e in
      emitted s (finish from_utf8 decode (st pieces buffer text [] e)) (err (read_error error)) []
        refl (ap (λ o. next_line from_utf8 decode o s) whole) (over _ refl)
  whole_buffer (inr bytes ∷ pieces) buffer text e whole =
      piece-Stream bytes pieces buffer text e whole (
        lines-Stream pieces (whole_buffer pieces) (length (buffer ++ bytes)) (buffer ++ bytes) text
          e (omega arith))

  pieces-Stream :
      (pieces : ByteStream) (buffer : List ℕ) (text : Text) (e : Bool)
      → Stream
          (st pieces buffer text [] e)
          (consume from_utf8 decode [] text e (map byte buffer ++ symbols pieces))
  pieces-Stream pieces buffer text e =
      lines-Stream pieces (whole_buffer pieces) (length buffer) buffer text e (omega arith)

  -- Whatever the pieces are in which the bytes arrive, and wherever a read fails, the machine ends, and
  -- the items that it gives are those of the reference, which sees the bytes and the read errors only.
  pub new_stream-Gives :
      (pieces : ByteStream)
      → Gives from_utf8 decode (new_stream pieces) (reference from_utf8 decode pieces)
  unfolding reference
  new_stream-Gives pieces = pieces-Stream pieces [] [] false
