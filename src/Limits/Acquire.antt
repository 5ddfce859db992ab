-- ===== src/Limits/Acquire.antt =====
-- `check_and_acquire`, the three checks of a scope, and the release of a lease.
use mizan.Prelude.{
  ℕ, Bool, true, false, ◌&&◌, ◌||◌, Option, none, some, List, [], ◌∷◌, ◌++◌, Text, codes, ltb, ◌==◌,
  if◌then◌else◌,
}
use mizan.Core.Id.{Uuid}
use mizan.Core.Error.{ok, err, limit_exceeded}
use mizan.Core.Exec.{◌>>=◌, ◌>>◌, pure, throw}
use mizan.Limits.Redis.{M, connect, increment_window_counter, release_key}

pub data LimitScope : Type 0 where
  api_key user provider : Uuid → LimitScope

pub record RuntimeLimitPolicy : Type 0 where
  pub requests_per_window : ℕ
  pub tokens_per_window : ℕ
  pub concurrent_requests : ℕ
  pub window_seconds : ℕ
  pub lease_seconds : ℕ

abbrev pub disabled : RuntimeLimitPolicy
disabled = record {
  requests_per_window = 0;
  tokens_per_window = 0;
  concurrent_requests = 0;
  window_seconds = 60;
  lease_seconds = 120;
}

unfoldable pub is_disabled : RuntimeLimitPolicy → Bool
is_disabled policy =
    policy.requests_per_window == 0
    && policy.tokens_per_window == 0
    && policy.concurrent_requests == 0

abbrev pub no_scopes : List LimitScope → Bool
no_scopes [] = true
no_scopes (_ ∷ _) = false

-- Every key is released, and the first error is the result.
unfoldable pub release_keys : List Text → M (Unit {0})
release_keys [] r = (ok tt, r)
release_keys (key ∷ keys) r =
    let (released, r') = release_key key r in
    let (rest, r'') = release_keys keys r' in
    (elim released [ ok _ ↦ rest | err error ↦ err error ], r'')

-- `RuntimeLimitLease::release`.
unfoldable pub release : List Text → M (Unit {0})
unfolding connect release_keys
release [] = pure tt
release (key ∷ keys) = do connect; release_keys (key ∷ keys)

abbrev pub push : List Text → Option Text → List Text
push acquired none = acquired
push acquired (some key) = acquired ++ key ∷ []

-- `uuid_text` is the printed form of a uuid, which is external.
module _ (uuid_text : Uuid → Text) where
  unfoldable pub key_part : LimitScope → Text
  key_part (api_key id) = codes "api_key:" ++ uuid_text id
  key_part (user id) = codes "user:" ++ uuid_text id
  key_part (provider id) = codes "provider:" ++ uuid_text id

  unfoldable pub request_counter_key : LimitScope → Text
  request_counter_key scope = codes "mizan:limit:rpm:" ++ key_part scope

  unfoldable pub token_counter_key : LimitScope → Text
  token_counter_key scope = codes "mizan:limit:tpm:" ++ key_part scope

  unfoldable pub concurrency_counter_key : LimitScope → Text
  concurrency_counter_key scope = codes "mizan:limit:concurrency:" ++ key_part scope

  unfoldable pub check_request_counter : RuntimeLimitPolicy → LimitScope → M (Unit {0})
  check_request_counter policy scope = if policy.requests_per_window == 0 then pure tt else do
    count ← increment_window_counter (request_counter_key scope) policy.window_seconds 1
    if ltb policy.requests_per_window count
        then throw (limit_exceeded (codes "requests_per_window exceeded for " ++ key_part scope))
        else pure tt

  unfoldable pub check_token_counter : RuntimeLimitPolicy → LimitScope → ℕ → M (Unit {0})
  check_token_counter policy scope tokens =
      if policy.tokens_per_window == 0 || tokens == 0 then pure tt else do
        count ← increment_window_counter (token_counter_key scope) policy.window_seconds tokens
        if ltb policy.tokens_per_window count
            then throw (limit_exceeded (codes "tokens_per_window exceeded for " ++ key_part scope))
            else pure tt

  unfoldable pub acquire_concurrency_lease : RuntimeLimitPolicy → LimitScope → M (Option Text)
  acquire_concurrency_lease policy scope = if policy.concurrent_requests == 0 then pure none else do
    let counter_key = concurrency_counter_key scope
    count ← increment_window_counter counter_key policy.lease_seconds 1
    if ltb policy.concurrent_requests count
        then (do
          release_key counter_key
          throw (limit_exceeded (codes "concurrent_requests exceeded for " ++ key_part scope)))
        else pure (some counter_key)

  -- One round of the loop: the three checks in order.
  unfoldable pub check_scope : RuntimeLimitPolicy → ℕ → LimitScope → M (Option Text)
  check_scope policy tokens scope = do
    check_request_counter policy scope
    check_token_counter policy scope tokens
    acquire_concurrency_lease policy scope

  -- On an error what was acquired is released, and the error of that is dropped.
  unfoldable pub acquire_from : RuntimeLimitPolicy → ℕ → List LimitScope → List Text → M (List Text)
  acquire_from policy tokens [] acquired r = (ok acquired, r)
  acquire_from policy tokens (scope ∷ scopes) acquired r =
      let (checked, r') = check_scope policy tokens scope r in
      elim checked [
        | ok lease ↦ acquire_from policy tokens scopes (push acquired lease) r'
        | err error ↦ let (_, r'') = release_keys acquired r' in (err error, r'')
      ]

  -- The keys of the lease. A lease without keys is the `noop` lease.
  unfoldable pub check_and_acquire : RuntimeLimitPolicy → List LimitScope → ℕ → M (List Text)
  unfolding is_disabled connect check_scope acquire_from
  check_and_acquire policy scopes tokens =
      if is_disabled policy || no_scopes scopes
      then pure []
      else do connect; acquire_from policy tokens scopes []
