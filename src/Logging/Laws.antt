-- ===== src/Logging/Laws.antt =====
-- What an insertion into request_logs comes to.
use mizan.Prelude.{
  ℕ, ◌≤◌, ◌≡◌, refl, true, Bool-cases, ◌⊎◌, inl, inr, none, some, [], ◌∷◌, ◌++◌, Text, ltb,
  i64_bound, arith,
}
use mizan.Core.Id.{Uuid}
use mizan.Core.Exec.{Faults}
use mizan.Logging.{RequestLogInput, Logs, record_request_log}

-- The latency is beyond an i64, or the database refuses the statement.
abbrev pub CannotInsert : RequestLogInput → Logs → Type 0
CannotInsert entry old =
    (i64_bound ≤ entry.latency_ms)
    ⊎ ((message : Text) × (fs : Faults) × (old.faults ≡ some message ∷ fs))

-- One row was added, or none, where that was not possible.
abbrev pub IsInserted : Uuid → Text → RequestLogInput → Logs → Logs → Type 0
IsInserted row now entry old new =
    (new.request_logs
      ≡ old.request_logs ++ record { id = row; entry = entry; created_at = now } ∷ [])
    ⊎ ((new.request_logs ≡ old.request_logs) × CannotInsert entry old)

-- One insertion was run, of an entry with the status and the id of the request.
pub record Recorded (status : ℕ) (id : Uuid) (old new : Logs) : Type 0 where
  pub row : Uuid
  pub now : Text
  pub entry : RequestLogInput
  pub status_is : entry.status_code ≡ status
  pub request_is : entry.request_id ≡ id
  pub ran : new ≡ (record_request_log row now entry old).1
  pub inserted : IsInserted row now entry old new

module _ (row : Uuid) (now : Text) (entry : RequestLogInput) (old : Logs) where
  -- The statement, by what the schedule has for it.
  sent :
      (fs : Faults)
      → old.faults ≡ fs
      → ltb entry.latency_ms i64_bound ≡ true
      → IsInserted row now entry old (record_request_log row now entry old).1
  unfolding record_request_log
  sent [] next fits = rw (fits, next) (inl refl)
  sent (none ∷ fs) next fits = rw (fits, next) (inl refl)
  sent (some message ∷ fs) next fits = rw (fits, next) (inr (refl, inr (message, fs, refl)))

  pub record_request_log-IsInserted :
      IsInserted row now entry old (record_request_log row now entry old).1
  unfolding record_request_log
  record_request_log-IsInserted = elim (Bool-cases (ltb entry.latency_ms i64_bound)) [
    | inl fits ↦ sent old.faults refl fits
    | inr large ↦ rw large (inr (refl, inl (ground (arith, large))))
  ]
