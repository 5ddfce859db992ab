-- ===== src/Limits/Admission.antt =====
-- The theorems about `check_and_acquire` and `release`.
use mizan.Prelude.{
  ℕ, ◌+◌, ◌≤◌, ◌≡◌, refl, ap, ◌||◌, Bool-cases, inl, inr, Option, none, some, List, [], ◌∷◌, Text,
  arith, max,
}
use mizan.Core.Id.{Uuid}
use mizan.Core.Error.{AppResult, ok, err}
use mizan.Limits.Redis.{Redis}
use mizan.Limits.Acquire.{
  LimitScope, RuntimeLimitPolicy, is_disabled, no_scopes, acquire_from, push, check_and_acquire,
  release_keys, release,
}
use mizan.Limits.Counters.{decrement_all, connect_calm, release_keys_calm}
use mizan.Limits.Leases.{
  occurrences, occurrences-append, value_of-decrement_all, slot, taken, held, Took, check_scope_lem,
}

release_calm :
    (keys : List Text) (r : Redis)
    → r.faults ≡ []
    → release keys r ≡ (ok tt, record r { counters = decrement_all keys r.counters })
unfolding release
release_calm [] r calm = refl
release_calm (key ∷ keys) r calm = rw (connect_calm r calm) (release_keys_calm (key ∷ keys) r calm)

module _ (uuid_text : Uuid → Text) (scope : LimitScope) where
  -- How often the result holds the concurrency counter of the scope.
  abbrev pub kept : AppResult (List Text) → ℕ
  kept (ok keys) = occurrences (slot uuid_text scope) keys
  kept (err error) = 0

  occurrences-push :
      (acquired : List Text) (lease : Option Text)
      → occurrences (slot uuid_text scope) (push acquired lease)
        ≡ occurrences (slot uuid_text scope) acquired + held uuid_text scope (ok lease)
  occurrences-push acquired none = omega arith
  occurrences-push acquired (some key) = occurrences-append (slot uuid_text scope) acquired key

  abbrev Acquired : RuntimeLimitPolicy → List Text → Redis → AppResult (List Text) × Redis → Type 0
  Acquired policy acquired r out =
      (taken uuid_text scope out.1 + occurrences (slot uuid_text scope) acquired
        ≡ taken uuid_text scope r + kept out.0)
      × (taken uuid_text scope out.1 ≤ max (taken uuid_text scope r) policy.concurrent_requests)
      × (out.1.faults ≡ [])

  module _ (policy : RuntimeLimitPolicy) (tokens : ℕ) where
    acquire_from_step :
        (scopes : List LimitScope)
        → ((acquired : List Text) (r : Redis)
            → r.faults ≡ []
            → occurrences (slot uuid_text scope) acquired ≤ taken uuid_text scope r
            → Acquired policy acquired r (acquire_from uuid_text policy tokens scopes acquired r))
        → (acquired : List Text) (r : Redis)
        → occurrences (slot uuid_text scope) acquired ≤ taken uuid_text scope r
        → (checked : AppResult (Option Text)) (r' : Redis)
        → Took uuid_text scope policy (taken uuid_text scope r) (checked, r')
        → Acquired policy acquired r (elim checked [
          | ok lease ↦ acquire_from uuid_text policy tokens scopes (push acquired lease) r'
          | err error ↦ let (_, r'') = release_keys acquired r' in (err error, r'')
        ])
    acquire_from_step scopes rest acquired r below (ok lease) r' (took, bound, calm) =
        let pushed = occurrences-push acquired lease in
        let (more, under, quiet) = rest (push acquired lease) r' calm (omega (arith, pushed)) in
        (omega (arith, pushed, more), omega (arith, under, bound), quiet)
    acquire_from_step scopes rest acquired r below (err error) r' (took, bound, calm) =
        let lowered = value_of-decrement_all (slot uuid_text scope) acquired r'.counters in
        rw (release_keys_calm acquired r' calm)
          (omega (arith, lowered, took, below), omega (arith, lowered, bound), calm)

    acquire_from_lem :
        (scopes : List LimitScope) (acquired : List Text) (r : Redis)
        → r.faults ≡ []
        → occurrences (slot uuid_text scope) acquired ≤ taken uuid_text scope r
        → Acquired policy acquired r (acquire_from uuid_text policy tokens scopes acquired r)
    unfolding acquire_from
    acquire_from_lem [] acquired r calm below = (refl, omega arith, calm)
    acquire_from_lem (s ∷ scopes) acquired r calm below =
        acquire_from_step scopes (acquire_from_lem scopes) acquired r below _ _
          (check_scope_lem uuid_text scope policy s tokens r calm)

    check_and_acquire_lem :
        (scopes : List LimitScope) (r : Redis)
        → r.faults ≡ []
        → Acquired policy [] r (check_and_acquire uuid_text policy scopes tokens r)
    unfolding check_and_acquire
    check_and_acquire_lem scopes r calm =
        elim (Bool-cases (is_disabled policy || no_scopes scopes)) [
          | inl off ↦ rw off (refl, omega arith, calm)
          | inr on ↦ rw (on, connect_calm r calm) (acquire_from_lem scopes [] r calm (omega arith))
        ]

-- If no command fails: `check_and_acquire` raises the concurrency counter of every scope by the number
-- of times its key is in the lease, and by nothing if it is refused.
pub check_and_acquire-taken :
    (uuid_text : Uuid → Text) (policy : RuntimeLimitPolicy) (scopes : List LimitScope) (tokens : ℕ)
    (r : Redis) (scope : LimitScope)
    → r.faults ≡ []
    → taken uuid_text scope (check_and_acquire uuid_text policy scopes tokens r).1
      ≡ taken uuid_text scope r
        + kept uuid_text scope (check_and_acquire uuid_text policy scopes tokens r).0
check_and_acquire-taken uuid_text policy scopes tokens r scope calm =
    omega (arith, (check_and_acquire_lem uuid_text scope policy tokens scopes r calm).0)

-- If no command fails, a concurrency counter is after `check_and_acquire` at most the limit of the
-- policy, or what it was before.
pub check_and_acquire_bound :
    (uuid_text : Uuid → Text) (policy : RuntimeLimitPolicy) (scopes : List LimitScope) (tokens : ℕ)
    (r : Redis) (scope : LimitScope)
    → r.faults ≡ []
    → taken uuid_text scope (check_and_acquire uuid_text policy scopes tokens r).1
      ≤ max (taken uuid_text scope r) policy.concurrent_requests
check_and_acquire_bound uuid_text policy scopes tokens r scope calm =
    (check_and_acquire_lem uuid_text scope policy tokens scopes r calm).1

-- If no command fails, the release of the lease that `check_and_acquire` gave succeeds and puts every
-- concurrency counter back to what it was before.
pub release-check_and_acquire :
    (uuid_text : Uuid → Text) (policy : RuntimeLimitPolicy) (scopes : List LimitScope) (tokens : ℕ)
    (r : Redis) (scope : LimitScope) (keys : List Text)
    → r.faults ≡ []
    → (check_and_acquire uuid_text policy scopes tokens r).0 ≡ ok keys
    → ((release keys (check_and_acquire uuid_text policy scopes tokens r).1).0 ≡ ok tt)
      × (taken uuid_text scope
            (release keys (check_and_acquire uuid_text policy scopes tokens r).1).1
          ≡ taken uuid_text scope r)
release-check_and_acquire uuid_text policy scopes tokens r scope keys calm granted =
    let (took, _, quiet) = check_and_acquire_lem uuid_text scope policy tokens scopes r calm in
    let after = (check_and_acquire uuid_text policy scopes tokens r).1 in
    let counted = ap (kept uuid_text scope) granted in
    rw (release_calm keys after quiet) (
      refl,
      omega
          (arith, took, counted, value_of-decrement_all (slot uuid_text scope) keys after.counters),
    )
