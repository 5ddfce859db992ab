-- ===== src/Limits/Leases.antt =====
-- What `check_and_acquire` and `release` do to the concurrency counters when no command fails.
use mathlib.Core.Path.{subst}
use mizan.Prelude.{
  ℕ, ◌+◌, ◌-◌, ◌≤◌, ◌≡◌, refl, ◌∙◌, true, false, ◌||◌, Bool-cases, inl, inr, ◌⊎◌, Option, none,
  some, List, [], ◌∷◌, ◌++◌, Text, text_eq, codes, text_eq_iff, text_eq_refl, arith, ltb, max, ◌==◌,
  if◌then◌else◌,
}
use mizan.Core.Id.{Uuid}
use mizan.Core.Error.{AppResult, ok, err}
use mizan.Core.Exec.Rules.{bind_rule}
use mizan.Limits.Redis.{Counter, Redis, value_of, increment, decrement}
use mizan.Limits.Acquire.{
  LimitScope, RuntimeLimitPolicy, request_counter_key, token_counter_key, concurrency_counter_key,
  check_request_counter, check_token_counter, acquire_concurrency_lease, check_scope,
}
use mizan.Limits.Counters.{
  value_of-increment, value_of-decrement, decrement_all, increment_window_counter_calm,
  release_key_calm,
}

-- How often a key is among the keys of a lease.
abbrev pub hit : Text → Text → ℕ
hit k key = if text_eq k key then 1 else 0

abbrev pub occurrences : Text → List Text → ℕ
occurrences key [] = 0
occurrences key (k ∷ ks) = hit k key + occurrences key ks

pub occurrences-append :
    (key : Text) (ks : List Text) (k : Text)
    → occurrences key (ks ++ k ∷ []) ≡ occurrences key ks + hit k key
occurrences-append key [] k = omega arith
occurrences-append key (x ∷ ks) k = omega (arith, occurrences-append key ks k)

pub value_of-decrement_all :
    (key : Text) (ks : List Text) (m : List (Text × Counter))
    → value_of key (decrement_all ks m) ≡ value_of key m - occurrences key ks
value_of-decrement_all key [] m = omega arith
value_of-decrement_all key (k ∷ ks) m = ground (
  arith,
  value_of-decrement_all key ks (decrement k m),
  value_of-decrement key k m,
  text_eq_iff k key,
)

-- A key is another one, or counts the same.
same_value :
    (k key : Text) (m : List (Text × Counter))
    → (text_eq k key ≡ false) ⊎ ((text_eq k key ≡ true) × (value_of k m ≡ value_of key m))
same_value k key m = ground (arith, text_eq_iff k key)

value_of-increment_one :
    (k key : Text) (ttl : ℕ) (m : List (Text × Counter))
    → value_of key (increment k ttl 1 m) ≡ value_of key m + hit k key
value_of-increment_one k key ttl m = elim (same_value k key m) [
  | inl other ↦ value_of-increment key k ttl 1 m ∙ rw other (omega arith)
  | inr (same, eq) ↦ value_of-increment key k ttl 1 m ∙ rw (same, eq) refl
]

value_of-decrement-increment :
    (k key : Text) (ttl : ℕ) (m : List (Text × Counter))
    → value_of key (decrement k (increment k ttl 1 m)) ≡ value_of key m
value_of-decrement-increment k key ttl m = elim (same_value k key m) [
  | inl other ↦
      value_of-decrement key k _ ∙ rw other (value_of-increment key k ttl 1 m ∙ rw other refl)
  | inr (same, eq) ↦
      value_of-decrement key k _
      ∙ rw (same, value_of-increment k k ttl 1 m, text_eq_refl k, eq) (omega arith)
]

pub increment_one_bound :
    (k key : Text) (ttl limit : ℕ) (m : List (Text × Counter))
    → ltb limit (value_of k m + 1) ≡ false
    → value_of key (increment k ttl 1 m) ≤ max (value_of key m) limit
increment_one_bound k key ttl limit m within = elim (same_value k key m) [
  | inl other ↦ rw (value_of-increment key k ttl 1 m, other) (omega arith)
  | inr (same, eq) ↦ rw (value_of-increment key k ttl 1 m, same) (ground arith)
]

module _ (uuid_text : Uuid → Text) (scope : LimitScope) where
  -- The concurrency counter of a scope.
  abbrev pub slot : Text
  slot = concurrency_counter_key uuid_text scope

  pub request_other : (s : LimitScope) → text_eq (request_counter_key uuid_text s) slot ≡ false
  unfolding text_eq codes request_counter_key concurrency_counter_key
  request_other s = refl

  pub token_other : (s : LimitScope) → text_eq (token_counter_key uuid_text s) slot ≡ false
  unfolding text_eq codes token_counter_key concurrency_counter_key
  token_other s = refl

  abbrev pub taken : Redis → ℕ
  taken r = value_of slot r.counters

  -- The counter is as before and the schedule still empty.
  abbrev Quiet : {A : Type 0} → Redis → AppResult A × Redis → Type 0
  Quiet r out = (taken out.1 ≡ taken r) × (out.1.faults ≡ [])

  abbrev pub held : AppResult (Option Text) → ℕ
  held (ok none) = 0
  held (ok (some key)) = hit key slot
  held (err error) = 0

  -- One round: the counter goes up by what it took, and above the limit only if it was there.
  abbrev pub Took : RuntimeLimitPolicy → ℕ → AppResult (Option Text) × Redis → Type 0
  Took policy n out =
      (taken out.1 ≡ n + held out.0)
      × (taken out.1 ≤ max n policy.concurrent_requests)
      × (out.1.faults ≡ [])

  module _ (policy : RuntimeLimitPolicy) (s : LimitScope) (r : Redis) (calm : r.faults ≡ []) where
    check_request_counter_lem : Quiet r (check_request_counter uuid_text policy s r)
    unfolding check_request_counter
    check_request_counter_lem =
        let counted =
          value_of-increment slot (request_counter_key uuid_text s) policy.window_seconds 1
            r.counters in
        elim (Bool-cases (policy.requests_per_window == 0)) [
          | inl off ↦ rw off (refl, calm)
          | inr on ↦
              rw
                (
                  on,
                  increment_window_counter_calm r calm (request_counter_key uuid_text s)
                      policy.window_seconds 1,
                )
                (elim (Bool-cases (
                  ltb policy.requests_per_window
                    (value_of (request_counter_key uuid_text s) r.counters + 1))) [
                      | inl over ↦ rw over (counted ∙ rw (request_other s), calm)
                      | inr within ↦ rw within (counted ∙ rw (request_other s), calm)
                    ])
        ]

    check_token_counter_lem :
        (tokens : ℕ) → Quiet r (check_token_counter uuid_text policy s tokens r)
    unfolding check_token_counter
    check_token_counter_lem tokens =
        let counted =
          value_of-increment slot (token_counter_key uuid_text s) policy.window_seconds tokens
            r.counters in
        elim (Bool-cases (policy.tokens_per_window == 0 || tokens == 0)) [
          | inl off ↦ rw off (refl, calm)
          | inr on ↦
              rw
                (
                  on,
                  increment_window_counter_calm r calm (token_counter_key uuid_text s)
                      policy.window_seconds tokens,
                )
                (elim (Bool-cases (
                  ltb policy.tokens_per_window
                    (value_of (token_counter_key uuid_text s) r.counters + tokens))) [
                      | inl over ↦ rw over (counted ∙ rw (token_other s), calm)
                      | inr within ↦ rw within (counted ∙ rw (token_other s), calm)
                    ])
        ]

    acquire_concurrency_lease_lem :
        Took policy (taken r) (acquire_concurrency_lease uuid_text policy s r)
    unfolding acquire_concurrency_lease
    acquire_concurrency_lease_lem =
        let key = concurrency_counter_key uuid_text s in
        let raised = increment key policy.lease_seconds 1 r.counters in
        let restored = value_of-decrement-increment key slot policy.lease_seconds r.counters in
        elim (Bool-cases (policy.concurrent_requests == 0)) [
          | inl off ↦ rw off (omega arith, omega arith, calm)
          | inr on ↦
              rw (on, increment_window_counter_calm r calm key policy.lease_seconds 1)
                (elim (Bool-cases (ltb policy.concurrent_requests (value_of key r.counters + 1))) [
                  | inl over ↦
                      rw (over, release_key_calm (record r { counters = raised }) calm key)
                        (restored ∙ omega arith, rw restored (omega arith), calm)
                  | inr within ↦ rw within (
                    value_of-increment_one key slot policy.lease_seconds r.counters,
                    increment_one_bound key slot policy.lease_seconds policy.concurrent_requests
                        r.counters within,
                    calm,
                  )
                ])
        ]

  module _ (policy : RuntimeLimitPolicy) (s : LimitScope) (tokens : ℕ) (r : Redis)
      (calm : r.faults ≡ []) where
    abbrev after_requests : Redis
    after_requests = (check_request_counter uuid_text policy s r).1

    abbrev after_tokens : Redis
    after_tokens = (check_token_counter uuid_text policy s tokens after_requests).1

    counted_requests : Quiet r (check_request_counter uuid_text policy s r)
    counted_requests = check_request_counter_lem policy s r calm

    counted_tokens :
        Quiet after_requests (check_token_counter uuid_text policy s tokens after_requests)
    counted_tokens = check_token_counter_lem policy s after_requests counted_requests.1 tokens

    pub check_scope_lem : Took policy (taken r) (check_scope uuid_text policy tokens s r)
    unfolding check_scope
    check_scope_lem =
        bind_rule (Took policy (taken r)) (check_request_counter uuid_text policy s) _ r
          (λ e _. (
            counted_requests.0 ∙ omega arith,
            rw counted_requests.0 (omega arith),
            counted_requests.1,
          ))
          (λ _ _.
            bind_rule (Took policy (taken r)) (check_token_counter uuid_text policy s tokens) _
              after_requests
              (λ e _. (
                counted_tokens.0 ∙ counted_requests.0 ∙ omega arith,
                rw (counted_tokens.0, counted_requests.0) (omega arith),
                counted_tokens.1,
              ))
              (λ _ _.
                subst
                  (λ n. Took policy n (acquire_concurrency_lease uuid_text policy s after_tokens))
                  (counted_tokens.0 ∙ counted_requests.0)
                  (acquire_concurrency_lease_lem policy s after_tokens counted_tokens.1)))
