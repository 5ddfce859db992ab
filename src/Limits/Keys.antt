-- ===== src/Limits/Keys.antt =====
-- Which keys `check_and_acquire` puts in a lease.
use mizan.Prelude.{
  ℕ, ◌≡◌, refl, sym, ◌∙◌, true, ◌||◌, Bool-cases, inl, inr, Option, none, some, List, [], ◌∷◌, ◌++◌,
  append_assoc, append-nil, Text, arith, ◌==◌, if◌then◌else◌, ltb,
}
use mizan.Core.Id.{Uuid}
use mizan.Core.Error.{AppError, AppResult, ok, err}
use mizan.Core.Exec.Rules.{bind_rule}
use mizan.Limits.Redis.{Redis, connect, increment_window_counter, release_key}
use mizan.Limits.Acquire.{
  LimitScope, RuntimeLimitPolicy, is_disabled, no_scopes, check_scope, acquire_from, push,
  check_and_acquire, release_keys, concurrency_counter_key, acquire_concurrency_lease,
  check_request_counter, check_token_counter,
}

module _ (uuid_text : Uuid → Text) (policy : RuntimeLimitPolicy) where
  abbrev lease_of : LimitScope → Option Text
  lease_of s =
      if policy.concurrent_requests == 0 then none else some (concurrency_counter_key uuid_text s)

  -- The lease of the scopes: nothing where the policy does not limit concurrency.
  abbrev pub leases_of : List LimitScope → List Text
  leases_of [] = []
  leases_of (s ∷ scopes) = push [] (lease_of s) ++ leases_of scopes

abbrev Gives : {A : Type 0} → A → AppResult A → Type 0
Gives {A} a result = (b : A) → result ≡ ok b → b ≡ a

Gives-ok : {A : Type 0} (a : A) → Gives a (ok a)
Gives-ok a b h = cc

Gives-err : {A : Type 0} (a : A) (e : AppError) → Gives a (err e)
Gives-err a e b h = cc

abbrev Yields : {A : Type 0} → A → AppResult A × Redis → Type 0
Yields a out = Gives a out.0

module _ (uuid_text : Uuid → Text) (policy : RuntimeLimitPolicy) (tokens : ℕ) where
  acquire_concurrency_lease-Gives :
      (s : LimitScope) (r : Redis)
      → Gives (lease_of uuid_text policy s) (acquire_concurrency_lease uuid_text policy s r).0
  unfolding acquire_concurrency_lease
  acquire_concurrency_lease-Gives s r = elim (Bool-cases (policy.concurrent_requests == 0)) [
    | inl off ↦ rw off (Gives-ok none)
    | inr on ↦
        let key = concurrency_counter_key uuid_text s in
        rw on (
          bind_rule (λ out. Gives (some key) out.0)
            (increment_window_counter key policy.lease_seconds 1) _ r
            (λ e _. Gives-err (some key) e)
            (λ count _. elim (Bool-cases (ltb policy.concurrent_requests count)) [
              | inl over ↦ rw over (
                  bind_rule (λ out. Gives (some key) out.0) (release_key key) _ _
                    (λ e _. Gives-err (some key) e) (λ _ _. Gives-err (some key) _))
              | inr within ↦ rw within (Gives-ok (some key))
            ]))
  ]

  check_scope-Gives :
      (s : LimitScope) (r : Redis)
      → Gives (lease_of uuid_text policy s) (check_scope uuid_text policy tokens s r).0
  unfolding check_scope
  check_scope-Gives s r =
      bind_rule (λ out. Gives (lease_of uuid_text policy s) out.0)
        (check_request_counter uuid_text policy s) _ r
        (λ e _. Gives-err (lease_of uuid_text policy s) e)
        (λ _ _.
          bind_rule (λ out. Gives (lease_of uuid_text policy s) out.0)
            (check_token_counter uuid_text policy s tokens) _ _
            (λ e _. Gives-err (lease_of uuid_text policy s) e)
            (λ _ _. acquire_concurrency_lease-Gives s _))

  push-append :
      (acquired : List Text) (lease : Option Text) (rest : List Text)
      → push acquired lease ++ rest ≡ acquired ++ (push [] lease ++ rest)
  push-append acquired none rest = refl
  push-append acquired (some key) rest = append_assoc acquired (key ∷ []) rest

  acquire_from_step :
      (s : LimitScope) (scopes : List LimitScope)
      → ((acquired : List Text) (r : Redis)
          → Gives
              (acquired ++ leases_of uuid_text policy scopes)
              (acquire_from uuid_text policy tokens scopes acquired r).0)
      → (acquired : List Text) (checked : AppResult (Option Text)) (r' : Redis)
      → Gives (lease_of uuid_text policy s) checked
      → Yields (acquired ++ leases_of uuid_text policy (s ∷ scopes)) (elim checked [
        | ok lease ↦ acquire_from uuid_text policy tokens scopes (push acquired lease) r'
        | err error ↦ let (_, r'') = release_keys acquired r' in (err error, r'')
      ])
  acquire_from_step s scopes rest acquired (ok lease) r' given keys h =
      rest (push acquired lease) r' keys h
      ∙ push-append acquired lease (leases_of uuid_text policy scopes)
      ∙ rw (given lease refl) refl
  acquire_from_step s scopes rest acquired (err error) r' given keys h = cc

  acquire_from-Gives :
      (scopes : List LimitScope) (acquired : List Text) (r : Redis)
      → Gives
          (acquired ++ leases_of uuid_text policy scopes)
          (acquire_from uuid_text policy tokens scopes acquired r).0
  unfolding acquire_from
  acquire_from-Gives [] acquired r = rw append-nil (Gives-ok acquired)
  acquire_from-Gives (s ∷ scopes) acquired r =
      acquire_from_step s scopes (acquire_from-Gives scopes) acquired _ _ (check_scope-Gives s r)

  leases_of_off :
      (scopes : List LimitScope)
      → policy.concurrent_requests ≡ 0
      → leases_of uuid_text policy scopes ≡ []
  leases_of_off [] off = refl
  leases_of_off (s ∷ scopes) off = rw off (leases_of_off scopes off)

  leases_of_skipped :
      (scopes : List LimitScope)
      → (is_disabled policy || no_scopes scopes) ≡ true
      → [] ≡ leases_of uuid_text policy scopes
  unfolding is_disabled
  leases_of_skipped [] skipped = refl
  leases_of_skipped (s ∷ scopes) skipped = sym (leases_of_off (s ∷ scopes) (ground arith))

-- Whichever commands fail: if `check_and_acquire` succeeds, the lease is the list of the concurrency
-- counters of the scopes, in their order, and empty where the policy does not limit concurrency.
pub check_and_acquire_keys :
    (uuid_text : Uuid → Text) (policy : RuntimeLimitPolicy) (scopes : List LimitScope) (tokens : ℕ)
    (r : Redis) (keys : List Text)
    → (check_and_acquire uuid_text policy scopes tokens r).0 ≡ ok keys
    → keys ≡ leases_of uuid_text policy scopes
unfolding check_and_acquire
check_and_acquire_keys uuid_text policy scopes tokens r =
    elim (Bool-cases (is_disabled policy || no_scopes scopes)) [
      | inl skipped ↦
          rw (skipped, sym (leases_of_skipped uuid_text policy tokens scopes skipped)) (Gives-ok [])
      | inr on ↦ rw on (
          bind_rule (λ out. Gives (leases_of uuid_text policy scopes) out.0) connect _ r
            (λ e _. Gives-err _ e) (λ _ _. acquire_from-Gives uuid_text policy tokens scopes [] _))
    ]
