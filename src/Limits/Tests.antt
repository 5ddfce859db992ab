-- ===== src/Limits/Tests.antt =====
-- Two scopes under a policy that allows two concurrent requests. A uuid is printed as its number.
use mizan.Prelude.{◌≡◌, ◌≤◌, ◌+◌, refl, some, List, [], ◌∷◌, Text, codes, max, text_eq}
use mizan.Prelude.Decimal.{to_decimal}
use mizan.Core.Error.{ok}
use mizan.Limits.Redis.{Redis, get, put, increment, increment_window_counter}
use mizan.Limits.Acquire.{
  LimitScope, api_key, user, RuntimeLimitPolicy, check_and_acquire, release, check_request_counter,
  check_token_counter, acquire_concurrency_lease, request_counter_key, token_counter_key,
  concurrency_counter_key, key_part,
}
use mizan.Limits.Leases.{taken}
use mizan.Limits.Granted.{check_and_acquire_granted}
use mizan.Limits.Admission.{
  kept, check_and_acquire-taken, check_and_acquire_bound, release-check_and_acquire,
}
use mizan.Limits.Keys.{leases_of, check_and_acquire_keys}

abbrev policy : RuntimeLimitPolicy
policy = record {
  requests_per_window = 60;
  tokens_per_window = 1000;
  concurrent_requests = 2;
  window_seconds = 60;
  lease_seconds = 120;
}

abbrev scopes : List LimitScope
scopes = api_key 3 ∷ user 4 ∷ []

-- One request of the user is under way.
abbrev store : Redis
store = record {
  counters =
      (codes "mizan:limit:concurrency:user:4", record { value = 1; expires_in = some 120 }) ∷ [];
  faults = [];
}

abbrev lease : List Text
lease = codes "mizan:limit:concurrency:api_key:3" ∷ codes "mizan:limit:concurrency:user:4" ∷ []

granted : (check_and_acquire to_decimal policy scopes 10 store).0 ≡ ok lease
unfolding check_and_acquire check_request_counter check_token_counter acquire_concurrency_lease
    increment_window_counter get put increment request_counter_key token_counter_key
    concurrency_counter_key key_part text_eq codes to_decimal
granted = refl

check_and_acquire-taken_example :
    taken to_decimal (user 4) (check_and_acquire to_decimal policy scopes 10 store).1
    ≡ taken to_decimal (user 4) store
      + kept to_decimal (user 4) (check_and_acquire to_decimal policy scopes 10 store).0
check_and_acquire-taken_example =
    check_and_acquire-taken to_decimal policy scopes 10 store (user 4) refl

check_and_acquire_bound_example :
    taken to_decimal (user 4) (check_and_acquire to_decimal policy scopes 10 store).1
    ≤ max (taken to_decimal (user 4) store) 2
check_and_acquire_bound_example =
    check_and_acquire_bound to_decimal policy scopes 10 store (user 4) refl

release-check_and_acquire_example :
    ((release lease (check_and_acquire to_decimal policy scopes 10 store).1).0 ≡ ok tt)
    × (taken to_decimal
          (user 4)
          (release lease (check_and_acquire to_decimal policy scopes 10 store).1).1
        ≡ taken to_decimal (user 4) store)
release-check_and_acquire_example =
    release-check_and_acquire to_decimal policy scopes 10 store (user 4) lease refl granted

check_and_acquire_keys_example : lease ≡ leases_of to_decimal policy scopes
check_and_acquire_keys_example =
    check_and_acquire_keys to_decimal policy scopes 10 store lease granted

check_and_acquire_granted_example :
    taken to_decimal (user 4) (check_and_acquire to_decimal policy scopes 10 store).1
    ≤ max (taken to_decimal (user 4) store) 2
check_and_acquire_granted_example =
    check_and_acquire_granted to_decimal policy scopes 10 store (user 4) lease granted
