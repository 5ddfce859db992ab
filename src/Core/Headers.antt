-- ===== src/Core/Headers.antt =====
-- The headers of a request, as `axum::http::HeaderMap` gives them.
use mizan.Prelude.{Option, none, some, List, [], ◌∷◌, Text, text_eq, if◌then◌else◌}

-- `to_str` reads a value, or fails.
pub data HeaderValue : Type 0 where
  opaque_bytes : HeaderValue
  readable : Text → HeaderValue

abbrev pub HeaderMap : Type 0
HeaderMap = List (Text × HeaderValue)

unfoldable pub get_header : HeaderMap → Text → Option HeaderValue
get_header [] name = none
get_header ((n, value) ∷ headers) name =
    if text_eq n name then some value else get_header headers name

-- `get(name).and_then(|value| value.to_str().ok())`
abbrev readable_text : Option HeaderValue → Option Text
readable_text none = none
readable_text (some opaque_bytes) = none
readable_text (some (readable value)) = some value

unfoldable pub header_text : HeaderMap → Text → Option Text
unfolding get_header
header_text headers name = readable_text (get_header headers name)
