-- ===== src/Metrics/Escape.antt =====
-- Escaped label values are read back.
use mizan.Prelude.{
  ℕ, ◌≡◌, refl, sym, ap, ◌∙◌, append_assoc, ◌||◌, Option, none, some, [], ◌∷◌, ◌++◌, Text, ◌==◌,
  arith, if◌then◌else◌,
}
use mizan.Metrics.Render.{replace_char, escape_label}

abbrev before : ℕ → Option Text → Option Text
before c none = none
before c (some s) = some (c ∷ s)

-- The label values of the exposition format: `\\`, `\"` and `\n` are the three escapes, and neither
-- a quote nor a new line stands bare.
unfoldable pub unescape : Text → Option Text
unescape [] = some []
unescape (c ∷ []) = if c == b'\\' || c == b'"' || c == 10 then none else some (c ∷ [])
unescape (c ∷ d ∷ s) =
    let plain = before c (unescape (d ∷ s)) in
    let escaped = unescape s in
    if c == b'\\'
    then (if d == b'\\'
        then before b'\\' escaped
        else if d == b'"'
        then before b'"' escaped
        else if d == b'n'
        then before 10 escaped
        else none)
    else if c == b'"' || c == 10
    then none
    else plain

escape : ℕ → Text
escape c =
    if c == b'\\'
    then b'\\' ∷ b'\\' ∷ []
    else if c == b'"'
    then b'\\' ∷ b'"' ∷ []
    else if c == 10
    then b'\\' ∷ b'n' ∷ []
    else c ∷ []

replace_char-append :
    (c : ℕ) (by s t : Text)
    → replace_char c by (s ++ t) ≡ replace_char c by s ++ replace_char c by t
unfolding replace_char
replace_char-append c by [] t = refl
replace_char-append c by (d ∷ s) t =
    rw (replace_char-append c by s t) (sym (append_assoc (if d == c then by else d ∷ []) _ _))

escape_label_step : (c : ℕ) (s : Text) → escape_label (c ∷ s) ≡ escape c ++ escape_label s
unfolding escape_label replace_char escape
escape_label_step c s = ground arith

unescape-escape : (c : ℕ) (s : Text) → unescape (escape c ++ s) ≡ before c (unescape s)
unfolding unescape escape
unescape-escape c [] = ground arith
unescape-escape c (d ∷ s) = ground arith

-- What `escape_label` writes is read back as the label by `unescape`, the reading of a quoted label.
pub unescape-escape_label : (value : Text) → unescape (escape_label value) ≡ some value
unfolding unescape escape_label replace_char
unescape-escape_label [] = refl
unescape-escape_label (c ∷ s) =
    ap unescape (escape_label_step c s)
    ∙ unescape-escape c (escape_label s)
    ∙ ap (before c) (unescape-escape_label s)
