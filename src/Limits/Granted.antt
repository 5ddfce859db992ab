-- ===== src/Limits/Granted.antt =====
-- Admissions that are granted, under any schedule of failures.
use mizan.Prelude.{
  ℕ, ◌+◌, ◌≤◌, ◌≡◌, refl, sym, ap, ◌∙◌, ◌||◌, Bool-cases, inl, inr, Option, none, some, List, [],
  ◌∷◌, Text, arith, max, ltb, ◌==◌, text_eq_refl,
}
use mathlib.Core.Path.{subst}
use mizan.Core.Id.{Uuid}
use mizan.Core.Error.{AppError, AppResult, ok, err}
use mizan.Core.Exec.{Faults}
use mizan.Core.Exec.Rules.{bind_rule, ok-ne-err}
use mizan.Limits.Redis.{Redis, value_of, increment, increment_window_counter, release_key, connect}
use mizan.Limits.Acquire.{
  LimitScope, RuntimeLimitPolicy, is_disabled, no_scopes, request_counter_key, token_counter_key,
  concurrency_counter_key, check_request_counter, check_token_counter, acquire_concurrency_lease,
  check_scope, acquire_from, push, check_and_acquire, release_keys,
}
use mizan.Limits.Counters.{value_of-increment}
use mizan.Limits.Leases.{slot, taken, request_other, token_other, increment_one_bound}

-- A command is sent, and then the counter is raised, or the command fails.
module _ (Q : AppResult ℕ × Redis → Type 0) (key : Text) (ttl amount : ℕ) (r : Redis)
    (stop : (error : AppError) (r' : Redis) → Q (err error, r'))
    (go : (r' : Redis)
      → r'.counters ≡ increment key ttl amount r.counters
      → Q (ok (value_of key (increment key ttl amount r.counters)), r')) where
  window_sent : (fs : Faults) → r.faults ≡ fs → Q (increment_window_counter key ttl amount r)
  unfolding increment_window_counter
  window_sent [] next = rw next (go _ refl)
  window_sent (none ∷ fs) next = rw next (go _ refl)
  window_sent (some message ∷ fs) next = rw next (stop _ _)

  window_rule : Q (increment_window_counter key ttl amount r)
  window_rule = window_sent r.faults refl

-- What the script leaves where it succeeds.
abbrev Raised : Text → (ttl amount : ℕ) → Redis → AppResult ℕ × Redis → Type 0
Raised key ttl amount r out =
    (c : ℕ)
    → out.0 ≡ ok c
    → (out.1.counters ≡ increment key ttl amount r.counters)
      × (value_of key (increment key ttl amount r.counters) ≡ c)

ok_inj : {A : Type 0} {a b : A} → ◌≡◌ {A = AppResult A} (ok a) (ok b) → a ≡ b
ok_inj e = cc

window_lem :
    (key : Text) (ttl amount : ℕ) (r : Redis)
    → Raised key ttl amount r (increment_window_counter key ttl amount r)
window_lem key ttl amount r =
    window_rule (Raised key ttl amount r) key ttl amount r
      (λ error r' c wrong. absurd (ok-ne-err c error (sym wrong)))
      (λ r' raised c is. (raised, ok_inj is))

raised_value :
    (key : Text) (ttl : ℕ) (r : Redis)
    → value_of key (increment key ttl 1 r.counters) ≡ value_of key r.counters + 1
raised_value key ttl r = value_of-increment key key ttl 1 r.counters ∙ rw (text_eq_refl key) refl

module _ (uuid_text : Uuid → Text) (scope : LimitScope) (policy : RuntimeLimitPolicy) where
  -- A success leaves the counter at most at the limit, or at what it was.
  abbrev Under : {A : Type 0} → ℕ → AppResult A × Redis → Type 0
  Under n (ok a, r) = taken uuid_text scope r ≤ max n policy.concurrent_requests
  Under n (err error, r) = Unit

  -- A success leaves the counter as it was.
  abbrev Same : {A : Type 0} → ℕ → AppResult A × Redis → Type 0
  Same n (ok a, r) = taken uuid_text scope r ≡ n
  Same n (err error, r) = Unit

  check_request_counter-Same :
      (s : LimitScope) (r : Redis)
      → Same (taken uuid_text scope r) (check_request_counter uuid_text policy s r)
  unfolding check_request_counter
  check_request_counter-Same s r =
      let key = request_counter_key uuid_text s in
      elim (Bool-cases (policy.requests_per_window == 0)) [
        | inl none_set ↦ rw none_set refl
        | inr on ↦ rw on (
            bind_rule (Same (taken uuid_text scope r))
              (increment_window_counter key policy.window_seconds 1) _ r (λ _ _. tt)
              (λ c counted.
                let (raised, _) = window_lem key policy.window_seconds 1 r c counted in
                elim (Bool-cases (ltb policy.requests_per_window c)) [
                  | inl over ↦ rw over tt
                  | inr within ↦
                      rw (within, raised)
                        (value_of-increment (slot uuid_text scope) key policy.window_seconds 1
                            r.counters
                          ∙ rw (request_other uuid_text scope s) refl)
                ]))
      ]

  check_token_counter-Same :
      (s : LimitScope) (tokens : ℕ) (r : Redis)
      → Same (taken uuid_text scope r) (check_token_counter uuid_text policy s tokens r)
  unfolding check_token_counter
  check_token_counter-Same s tokens r =
      let key = token_counter_key uuid_text s in
      elim (Bool-cases (policy.tokens_per_window == 0 || tokens == 0)) [
        | inl none_set ↦ rw none_set refl
        | inr on ↦ rw on (
            bind_rule (Same (taken uuid_text scope r))
              (increment_window_counter key policy.window_seconds tokens) _ r (λ _ _. tt)
              (λ c counted.
                let (raised, _) = window_lem key policy.window_seconds tokens r c counted in
                elim (Bool-cases (ltb policy.tokens_per_window c)) [
                  | inl over ↦ rw over tt
                  | inr within ↦
                      rw (within, raised)
                        (value_of-increment (slot uuid_text scope) key policy.window_seconds tokens
                            r.counters
                          ∙ rw (token_other uuid_text scope s) refl)
                ]))
      ]

  acquire_concurrency_lease-Under :
      (s : LimitScope) (r : Redis)
      → Under (taken uuid_text scope r) (acquire_concurrency_lease uuid_text policy s r)
  unfolding acquire_concurrency_lease
  acquire_concurrency_lease-Under s r =
      let key = concurrency_counter_key uuid_text s in
      elim (Bool-cases (policy.concurrent_requests == 0)) [
        | inl off ↦ rw off (omega arith)
        | inr on ↦ rw on (
            bind_rule (Under (taken uuid_text scope r))
              (increment_window_counter key policy.lease_seconds 1) _ r (λ _ _. tt)
              (λ c counted.
                let (raised, counts) = window_lem key policy.lease_seconds 1 r c counted in
                elim (Bool-cases (ltb policy.concurrent_requests c)) [
                  | inl over ↦ rw over (
                      bind_rule (Under (taken uuid_text scope r)) (release_key key) _ _ (λ _ _. tt)
                        (λ _ _. tt))
                  | inr within ↦
                      rw (within, raised)
                        (increment_one_bound key (slot uuid_text scope) policy.lease_seconds
                          policy.concurrent_requests r.counters
                          (ap (ltb policy.concurrent_requests)
                              (sym (raised_value key policy.lease_seconds r) ∙ counts)
                            ∙ within))
                ]))
      ]

  Same-ok :
      {A : Type 0} (n : ℕ) (out : AppResult A × Redis)
      → Same n out
      → (a : A) → out.0 ≡ ok a
      → taken uuid_text scope out.1 ≡ n
  Same-ok n (ok b, r) same a is = same
  Same-ok n (err error, r) same a is = absurd (ok-ne-err a error (sym is))

  Under-ok :
      {A : Type 0} (n : ℕ) (out : AppResult A × Redis)
      → Under n out
      → (a : A) → out.0 ≡ ok a
      → taken uuid_text scope out.1 ≤ max n policy.concurrent_requests
  Under-ok n (ok b, r) under a is = under
  Under-ok n (err error, r) under a is = absurd (ok-ne-err a error (sym is))

  Under-then :
      {A : Type 0} (n m : ℕ)
      → m ≤ max n policy.concurrent_requests
      → (out : AppResult A × Redis) → Under m out
      → Under n out
  Under-then n m below (ok a, r) under = omega (arith, below, under)
  Under-then n m below (err error, r) under = tt

  connected_by :
      (r : Redis) (fs : Faults)
      → r.faults ≡ fs
      → taken uuid_text scope (connect r).1 ≡ taken uuid_text scope r
  unfolding connect
  connected_by r [] next = rw next refl
  connected_by r (none ∷ fs) next = rw next refl
  connected_by r (some message ∷ fs) next = rw next refl

  connected : (r : Redis) → taken uuid_text scope (connect r).1 ≡ taken uuid_text scope r
  connected r = connected_by r r.faults refl

  check_scope-Under :
      (s : LimitScope) (tokens : ℕ) (r : Redis)
      → Under (taken uuid_text scope r) (check_scope uuid_text policy tokens s r)
  unfolding check_scope
  check_scope-Under s tokens r =
      bind_rule (Under (taken uuid_text scope r)) (check_request_counter uuid_text policy s) _ r
        (λ _ _. tt)
        (λ _ requested.
          let r1 = (check_request_counter uuid_text policy s r).1 in
          let same = Same-ok _ _ (check_request_counter-Same s r) _ requested in
          bind_rule (Under (taken uuid_text scope r))
            (check_token_counter uuid_text policy s tokens) _ r1 (λ _ _. tt)
            (λ _ counted.
              let r2 = (check_token_counter uuid_text policy s tokens r1).1 in
              let same' = Same-ok _ _ (check_token_counter-Same s tokens r1) _ counted in
              subst (λ n. Under n (acquire_concurrency_lease uuid_text policy s r2)) (same' ∙ same)
                (acquire_concurrency_lease-Under s r2)))

  acquired-Under :
      (scopes : List LimitScope)
      → ((tokens : ℕ) (acquired : List Text) (r : Redis)
          → Under
              (taken uuid_text scope r)
              (acquire_from uuid_text policy tokens scopes acquired r))
      → (n tokens : ℕ) (acquired : List Text) (checked : AppResult (Option Text)) (r' : Redis)
      → Under {A = Option Text} n (checked, r')
      → Under {A = List Text} n (elim checked [
        | ok lease ↦ acquire_from uuid_text policy tokens scopes (push acquired lease) r'
        | err error ↦ let (_, r'') = release_keys acquired r' in (err error, r'')
      ])
  acquired-Under scopes rest n tokens acquired (ok lease) r' under =
      Under-then n _ under _ (rest tokens (push acquired lease) r')
  acquired-Under scopes rest n tokens acquired (err error) r' under = tt

  acquire_from-Under :
      (scopes : List LimitScope) (tokens : ℕ) (acquired : List Text) (r : Redis)
      → Under (taken uuid_text scope r) (acquire_from uuid_text policy tokens scopes acquired r)
  unfolding acquire_from
  acquire_from-Under [] tokens acquired r = omega arith
  acquire_from-Under (s ∷ scopes) tokens acquired r =
      acquired-Under scopes (acquire_from-Under scopes) _ tokens acquired _ _
        (check_scope-Under s tokens r)

  check_and_acquire-Under :
      (scopes : List LimitScope) (tokens : ℕ) (r : Redis)
      → Under (taken uuid_text scope r) (check_and_acquire uuid_text policy scopes tokens r)
  unfolding check_and_acquire
  check_and_acquire-Under scopes tokens r =
      elim (Bool-cases (is_disabled policy || no_scopes scopes)) [
        | inl off ↦ rw off (omega arith)
        | inr on ↦ rw on (
            bind_rule (Under (taken uuid_text scope r)) connect _ r (λ _ _. tt)
              (λ _ _.
                let r' = (connect r).1 in
                subst (λ n. Under n (acquire_from uuid_text policy tokens scopes [] r'))
                  (connected r) (acquire_from-Under scopes tokens [] r')))
      ]

-- Under any schedule of failures: if the admission is granted, the concurrency counter of a scope is at
-- most the limit of the policy, or what it was before.
pub check_and_acquire_granted :
    (uuid_text : Uuid → Text) (policy : RuntimeLimitPolicy) (scopes : List LimitScope) (tokens : ℕ)
    (r : Redis) (scope : LimitScope) (keys : List Text)
    → (check_and_acquire uuid_text policy scopes tokens r).0 ≡ ok keys
    → taken uuid_text scope (check_and_acquire uuid_text policy scopes tokens r).1
      ≤ max (taken uuid_text scope r) policy.concurrent_requests
check_and_acquire_granted uuid_text policy scopes tokens r scope keys granted =
    Under-ok uuid_text scope policy _ _
      (check_and_acquire-Under uuid_text scope policy scopes tokens r) keys granted
