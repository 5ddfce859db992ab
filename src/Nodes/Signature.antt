-- ===== src/Nodes/Signature.antt =====
-- The signed requests of a daemon: the token of the node, the signature over the request, and the cache
-- of nonces. `sha256_hex` stands for the hexadecimal digest of a text, `uuid_text` for the printed form
-- of a uuid. The write lock of the cache makes each request one step on it.

pub mod Replay
use mathlib.Core.List.{reverse}
use mizan.Prelude.{
  ℕ, zero, suc, ◌+◌, ◌*◌, ◌-◌, ◌/◌, ◌%◌, Bool, true, false, not, ◌&&◌, ◌||◌, Option, none, some,
  List, [], ◌∷◌, ◌++◌, Text, codes, text_eq, trim, is_empty, is_whitespace, starts_with,
  to_ascii_lowercase, unwrap_or, any, length, leb, ltb, ◌==◌, ℤ, pos, negsuc, ◌+ℤ◌, ◌-ℤ◌, pos_part,
  neg_part, leb_ℤ, sub_ℕ, i64_bound, ◌⊎◌, inl, inr, as_bytes, xor_bits, max, if◌then◌else◌,
}
use mizan.Prelude.Decimal.{to_decimal_int}
use mizan.Core.Id.{Uuid}
use mizan.Core.Error.{AppError, ErrorEnvelope, error_envelope, unauthorized, invalid_config}
use mizan.Core.Headers.{HeaderMap, header_text}

-- The status and the body of a refusal, or the result.
abbrev pub HttpResult : Type 0 → Type 0
HttpResult A = (ℕ × ErrorEnvelope) ⊎ A

unfoldable pub and_then : {A B : Type 0} → HttpResult A → (A → HttpResult B) → HttpResult B
and_then (inl refusal) f = inl refusal
and_then (inr a) f = f a

abbrev pub map_error : {A : Type 0} → ℕ → AppError → HttpResult A
map_error status error = inl (status, error_envelope error)

abbrev pub or_unauthorized : {A : Type 0} → Option A → HttpResult A
or_unauthorized none = map_error 401 unauthorized
or_unauthorized (some a) = inr a

-- A guard of the handler.
abbrev pub require : Bool → HttpResult (Unit {0})
require true = inr tt
require false = map_error 401 unauthorized

pub record DaemonNodeIdentity : Type 0 where
  pub node_id : Uuid
  pub status : Text
  pub token_hash : Text

abbrev non_empty : Option Text → Option Text
non_empty none = none
non_empty (some value) = if is_empty (trim value) then none else some (trim value)

unfoldable pub header_value : HeaderMap → Text → HttpResult Text
header_value headers key = or_unauthorized (non_empty (header_text headers key))

abbrev ends_with : Text → Text → Bool
ends_with s suffix = starts_with (reverse s) (reverse suffix)

unfoldable pub requires_body_signature : Text → Bool
requires_body_signature path =
    text_eq path (codes "/daemon/register")
    || text_eq path (codes "/daemon/heartbeat")
    || (starts_with path (codes "/daemon/jobs/") && ends_with path (codes "/complete"))

-- The digits of a number, most significant first, after those that were read.
unfoldable pub read_digits : ℕ → Text → Option ℕ
read_digits n [] = some n
read_digits n (c ∷ s) =
    if leb b'0' c && leb c b'9' then read_digits (n * 10 + (c - b'0')) s else none

abbrev digits : Text → Option ℕ
digits [] = none
digits (c ∷ s) = read_digits 0 (c ∷ s)

-- An integer that an `i64` holds.
abbrev pub checked_i64 : ℤ → Option ℤ
checked_i64 z = if leb i64_bound (pos_part z) || ltb i64_bound (neg_part z) then none else some z

abbrev signed : (ℕ → ℤ) → Option ℕ → Option ℤ
signed sign none = none
signed sign (some n) = checked_i64 (sign n)

-- `parse::<i64>()`: a sign, and at least one digit.
unfoldable pub parse_i64 : Text → Option ℤ
unfolding read_digits
parse_i64 [] = none
parse_i64 (c ∷ s) =
    if c == b'-'
    then signed (λ n. sub_ℕ 0 n) (digits s)
    else if c == b'+'
    then signed pos (digits s)
    else signed pos (digits (c ∷ s))

abbrev pub timestamp_header : Text
timestamp_header = codes "x-mizan-daemon-timestamp"

abbrev or_invalid_timestamp : Option ℤ → HttpResult ℤ
or_invalid_timestamp none =
    map_error 401
      (invalid_config timestamp_header (codes "infrastructure error: invalid timestamp: "))
or_invalid_timestamp (some timestamp) = inr timestamp

-- `parse_timestamp`; the text of the number parser's own error is left out.
unfoldable pub timestamp_of : Text → HttpResult ℤ
unfolding parse_i64
timestamp_of raw = or_invalid_timestamp (parse_i64 raw)

abbrev pub signature_ttl_seconds : ℕ
signature_ttl_seconds = 300

-- `checked_abs` fails at the least `i64`.
abbrev checked_abs : Option ℤ → Option ℕ
checked_abs none = none
checked_abs (some delta) =
    if neg_part delta == i64_bound then none else some (pos_part delta + neg_part delta)

-- The age of the timestamp, in either direction.
unfoldable pub age_seconds : ℕ → ℤ → HttpResult ℕ
age_seconds now timestamp = or_unauthorized (checked_abs (checked_i64 (pos now -ℤ timestamp)))

unfoldable pub nonce_expiry : ℤ → HttpResult ℤ
nonce_expiry timestamp = or_unauthorized (checked_i64 (timestamp +ℤ pos signature_ttl_seconds))

-- `diff |= left ^ right`, over the bytes that are paired.
unfoldable pub or_bits : (width : ℕ) → ℕ → ℕ → ℕ
or_bits zero a b = 0
or_bits (suc width) a b = max (a % 2) (b % 2) + 2 * or_bits width (a / 2) (b / 2)

unfoldable pub fold_diff : ℕ → List ℕ → List ℕ → ℕ
unfolding or_bits xor_bits
fold_diff diff [] right = diff
fold_diff diff (l ∷ left) [] = diff
fold_diff diff (l ∷ left) (r ∷ right) = fold_diff (or_bits 8 diff (xor_bits 8 l r)) left right

unfoldable pub secure_eq : Text → Text → Bool
unfolding fold_diff
secure_eq left right =
    length (as_bytes left) == length (as_bytes right)
    && fold_diff 0 (as_bytes left) (as_bytes right) == 0

unfoldable pub compute_daemon_signature :
    (Text → Text) → (token_hash method path : Text) → ℤ → (nonce body_hash : Text) → Text
compute_daemon_signature sha256_hex token_hash method path timestamp nonce body_hash = sha256_hex (
    token_hash
    ++ codes "|"
    ++ method
    ++ codes "|"
    ++ path
    ++ codes "|"
    ++ to_decimal_int timestamp
    ++ codes "|"
    ++ nonce
    ++ codes "|"
    ++ body_hash)

unfoldable pub verify_daemon_signature :
    (Text → Text) → (token_hash method path : Text) → ℤ → (nonce body_hash signature : Text) → Bool
unfolding compute_daemon_signature secure_eq
verify_daemon_signature sha256_hex token_hash method path timestamp nonce body_hash signature =
    secure_eq (compute_daemon_signature sha256_hex token_hash method path timestamp nonce body_hash)
      signature

abbrev pub Nonces : Type 0
Nonces = List (Text × ℤ)

-- `retain(|_, expires_at| now <= *expires_at)`
unfoldable pub prune_stale_nonces : ℕ → Nonces → Nonces
prune_stale_nonces now [] = []
prune_stale_nonces now ((key, expires_at) ∷ nonces) =
    let rest = prune_stale_nonces now nonces in
    if leb_ℤ (pos now) expires_at then (key, expires_at) ∷ rest else rest

unfoldable pub contains_key : Text → Nonces → Bool
contains_key key [] = false
contains_key key ((k, _) ∷ nonces) = text_eq k key || contains_key key nonces

abbrev pub prune_threshold : ℕ
prune_threshold = 256

-- The last part, under the lock.
unfoldable pub remember_nonce : ℕ → Text × ℤ → Nonces → HttpResult (Unit {0}) × Nonces
unfolding prune_stale_nonces contains_key
remember_nonce now (key, expiry) nonces =
    let kept =
      if leb prune_threshold (length nonces) then prune_stale_nonces now nonces else nonces in
    if contains_key key kept
    then (map_error 401 unauthorized, kept)
    else (inr tt, (key, expiry) ∷ kept)

-- A request as the middleware sees it, and the reading of the clock.
pub record SignedRequest : Type 0 where
  pub now : ℕ
  pub method : Text
  pub path : Text
  pub headers : HeaderMap
  pub identity : DaemonNodeIdentity

module _ (sha256_hex : Text → Text) (uuid_text : Uuid → Text) where
  -- The checks before the lock: the key of the nonce and its expiry.
  unfoldable pub checked_nonce : SignedRequest → HttpResult (Text × ℤ)
  checked_nonce r = and_then (header_value r.headers timestamp_header) (λ timestamp_raw.
      and_then (header_value r.headers (codes "x-mizan-daemon-nonce")) (λ nonce.
        and_then (header_value r.headers (codes "x-mizan-daemon-signature")) (λ signature.
          let body_hash =
            trim (unwrap_or [] (header_text r.headers (codes "x-mizan-daemon-body-hash"))) in
          and_then (require (not (requires_body_signature r.path && is_empty body_hash))) (λ _.
            and_then (timestamp_of timestamp_raw) (λ timestamp.
              and_then (age_seconds r.now timestamp) (λ age.
                and_then (require (leb age signature_ttl_seconds)) (λ _.
                  and_then (nonce_expiry timestamp) (λ expiry.
                    and_then
                      (require (
                        verify_daemon_signature sha256_hex r.identity.token_hash r.method r.path
                          timestamp nonce body_hash signature))
                      (λ _.
                        inr (uuid_text r.identity.node_id ++ codes "::" ++ nonce, expiry))))))))))

  abbrev pub remembered : ℕ → HttpResult (Text × ℤ) → Nonces → HttpResult (Unit {0}) × Nonces
  remembered now (inl refusal) nonces = (inl refusal, nonces)
  remembered now (inr entry) nonces = remember_nonce now entry nonces

  unfoldable pub validate_daemon_request_signature :
      SignedRequest → Nonces → HttpResult (Unit {0}) × Nonces
  unfolding checked_nonce remember_nonce
  validate_daemon_request_signature r nonces = remembered r.now (checked_nonce r) nonces
