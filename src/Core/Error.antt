-- ===== src/Core/Error.antt =====
-- crates/mizan-core/src/error.rs, and the two functions of crates/mizan-api that give an error its
-- HTTP status: `from_app_error` (utils.rs) and `app_error_status_code` (gateway.rs). The texts that
-- external errors print are parts of the messages. A status code is a number.
pub mod Laws
use mizan.Prelude.{ℕ, ◌≡◌, refl, ◌⊎◌, inl, inr, Text, codes, ◌++◌, Option, none, some}

pub data AppError : Type 0 where
  config invalid_config : (key message : Text) → AppError
  infrastructure io not_found limit_exceeded provider : (message : Text) → AppError
  unauthorized forbidden insufficient_credit : AppError

pub data AppResult {ℓ} (A : Type ℓ) : Type ℓ where
  ok : A → AppResult A
  err : AppError → AppResult A

infixl 5 ◌>>=◌ ◌>>◌
abbrev pub ◌>>=◌ {ℓ κ} : {A : Type ℓ} {B : Type κ} → AppResult A → (A → AppResult B) → AppResult B
ok a >>= f = f a
err e >>= f = err e

abbrev pub ◌>>◌ {ℓ κ} : {A : Type ℓ} {B : Type κ} → AppResult A → AppResult B → AppResult B
m >> k = m >>= λ _. k

abbrev pub ok_or {ℓ} : {A : Type ℓ} → AppError → Option A → AppResult A
ok_or e none = err e
ok_or e (some a) = ok a

-- `#[error("…")]`, the text of an error.
unfoldable pub display : AppError → Text
display (config key source) = codes "configuration error for " ++ key ++ codes ": " ++ source
display (invalid_config key message) =
    codes "invalid configuration for " ++ key ++ codes ": " ++ message
display (infrastructure message) = codes "infrastructure error: " ++ message
display (io source) = codes "io error: " ++ source
display (not_found message) = codes "not found: " ++ message
display (limit_exceeded message) = codes "limit exceeded: " ++ message
display (provider message) = codes "upstream provider error: " ++ message
display unauthorized = codes "unauthorized"
display forbidden = codes "forbidden"
display insufficient_credit = codes "insufficient credit"

unfoldable pub public_code : AppError → Text
public_code (config _ _) = codes "configuration_error"
public_code (invalid_config _ _) = codes "invalid_configuration"
public_code (infrastructure _) = codes "infrastructure_error"
public_code (io _) = codes "io_error"
public_code (not_found _) = codes "not_found"
public_code (limit_exceeded _) = codes "limit_exceeded"
public_code (provider _) = codes "provider_error"
public_code unauthorized = codes "unauthorized"
public_code forbidden = codes "forbidden"
public_code insufficient_credit = codes "insufficient_credit"

pub record ErrorEnvelope : Type 0 where
  pub code : Text
  pub message : Text

-- `ErrorEnvelope::from`.
unfoldable pub error_envelope : AppError → ErrorEnvelope
error_envelope error = record { code = public_code error; message = display error }

-- The match of `from_app_error`, with its catch-all for the internal errors.
status_of_error : AppError → ℕ
status_of_error (invalid_config _ _) = 400
status_of_error (not_found _) = 404
status_of_error unauthorized = 401
status_of_error forbidden = 403
status_of_error (provider _) = 502
status_of_error (limit_exceeded _) = 429
status_of_error insufficient_credit = 402
status_of_error _ = 500

unfoldable pub from_app_error : AppError → ℕ × ErrorEnvelope
unfolding status_of_error error_envelope
from_app_error error = (status_of_error error, error_envelope error)

-- The gateway's own table, which names every constructor.
unfoldable pub app_error_status_code : AppError → ℕ
app_error_status_code (invalid_config _ _) = 400
app_error_status_code (not_found _) = 404
app_error_status_code unauthorized = 401
app_error_status_code forbidden = 403
app_error_status_code (provider _) = 502
app_error_status_code (limit_exceeded _) = 429
app_error_status_code insufficient_credit = 402
app_error_status_code (config _ _) = 500
app_error_status_code (infrastructure _) = 500
app_error_status_code (io _) = 500

-- `error_code_from_app_error` of crates/mizan-api/src/logging.rs.
unfoldable pub error_code_from_app_error : AppError → Text
error_code_from_app_error error = public_code error

pub result-cases {ℓ} :
    {A : Type ℓ} (r : AppResult A) → ((a : A) × (r ≡ ok a)) ⊎ ((e : AppError) × (r ≡ err e))
result-cases (ok a) = inl (a, refl)
result-cases (err e) = inr (e, refl)
