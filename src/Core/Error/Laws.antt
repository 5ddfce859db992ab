-- ===== src/Core/Error/Laws.antt =====
-- What the two tables of statuses have in common.
use mizan.Prelude.{◌≡◌, refl, ◌≤◌, arith}
use mizan.Core.Error.{
  AppError, config, invalid_config, infrastructure, io, not_found, limit_exceeded, provider,
  unauthorized, forbidden, insufficient_credit, from_app_error, app_error_status_code,
}

-- `app_error_status_code` gives every error the status that `from_app_error` gives it.
pub app_error_status_code-from_app_error :
    (error : AppError) → app_error_status_code error ≡ (from_app_error error).0
unfolding app_error_status_code from_app_error
app_error_status_code-from_app_error (config _ _) = refl
app_error_status_code-from_app_error (invalid_config _ _) = refl
app_error_status_code-from_app_error (infrastructure _) = refl
app_error_status_code-from_app_error (io _) = refl
app_error_status_code-from_app_error (not_found _) = refl
app_error_status_code-from_app_error (limit_exceeded _) = refl
app_error_status_code-from_app_error (provider _) = refl
app_error_status_code-from_app_error unauthorized = refl
app_error_status_code-from_app_error forbidden = refl
app_error_status_code-from_app_error insufficient_credit = refl

-- `app_error_status_code` gives every error a status of 400 or more.
pub app_error_status_code-ge : (error : AppError) → 400 ≤ app_error_status_code error
unfolding app_error_status_code
app_error_status_code-ge (config _ _) = omega arith
app_error_status_code-ge _ = omega arith
