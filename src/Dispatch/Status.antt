-- ===== src/Dispatch/Status.antt =====
-- How the rows of the queue may change, and that every operation changes them so.
use mizan.Prelude.{
  ℕ, ◌≡◌, refl, ◌⊎◌, Bool, true, false, Option, none, some, List, [], ◌∷◌, Text, text_eq_iff, arith,
  if◌then◌else◌,
}
use mizan.Prelude.Decimal.{to_decimal}
use mizan.Core.Id.{Uuid, IdText}
use mizan.Core.Error.{AppError, AppResult, ok}
use mizan.Core.Exec.{Faults, meet}
use mizan.Core.Exec.Rules.{bind_rule}
use mizan.Dispatch.Jobs.{
  DispatchJob, status_accepted, status_leased, status_succeeded, status_failed,
}
use mizan.Dispatch.Statements.{
  update, is_open, can_lease, set_leased, can_complete, set_completed, can_time_out, is_expired,
  set_timed_out,
}
use mizan.Dispatch.Queue.{
  Queue, attempt, execute_update, mark_job_timed_out, mark_expired_jobs_timed_out, requested_status,
}

-- The end of a job that its daemon reports.
abbrev pub IsReported : Text → Type 0
IsReported status = (status ≡ status_succeeded) ⊎ (status ≡ status_failed)

-- One step of a row.
pub data Moves : DispatchJob → DispatchJob → Type 0 where
  leases : (now : Text) (j : DispatchJob) → j.status ≡ status_accepted → Moves j (set_leased now j)
  completes :
      (status : Text) (response error message : Option Text) (now : Text) (j : DispatchJob)
      → j.status ≡ status_leased
      → IsReported status
      → Moves j (set_completed status response error message now j)
  times_out :
      (now : Text) (j : DispatchJob)
      → (j.status ≡ status_accepted) ⊎ (j.status ≡ status_leased)
      → Moves j (set_timed_out now j)

-- Any number of steps.
pub data History : DispatchJob → DispatchJob → Type 0 where
  same : (j : DispatchJob) → History j j
  after : (i j k : DispatchJob) → History i j → Moves j k → History i k

-- Every row of the old table is still there, in its place, and moved by steps only.
abbrev pub Evolves : List DispatchJob → List DispatchJob → Type 0
Evolves [] new = Unit
Evolves (j ∷ old) [] = ⊥
Evolves (j ∷ old) (k ∷ new) = History j k × Evolves old new

pub History-trans : (i j k : DispatchJob) → History i j → History j k → History i k
History-trans i j k h (same _) = h
History-trans i j k h (after _ l _ g m) = after i l k (History-trans i j l h g) m

pub Evolves-refl : (jobs : List DispatchJob) → Evolves jobs jobs
Evolves-refl [] = tt
Evolves-refl (j ∷ jobs) = (same j, Evolves-refl jobs)

pub Evolves-trans : (a b c : List DispatchJob) → Evolves a b → Evolves b c → Evolves a c
Evolves-trans [] b c p q = tt
Evolves-trans (i ∷ a) [] c p q = elim p [ ]
Evolves-trans (i ∷ a) (j ∷ b) [] p q = elim q [ ]
Evolves-trans (i ∷ a) (j ∷ b) (k ∷ c) (h, p) (g, q) =
    (History-trans i j k h g, Evolves-trans a b c p q)

moved : (b : Bool) (j k : DispatchJob) → (b ≡ true → Moves j k) → History j (if b then k else j)
moved true j k step = after j j k (same j) (step refl)
moved false j k step = same j

update-Evolves :
    (selected : DispatchJob → Bool) (set : DispatchJob → DispatchJob)
    → ((j : DispatchJob) → selected j ≡ true → Moves j (set j))
    → (jobs : List DispatchJob) → Evolves jobs (update selected set jobs)
unfolding update
update-Evolves selected set step [] = tt
update-Evolves selected set step (j ∷ jobs) =
    (moved (selected j) j (set j) (step j), update-Evolves selected set step jobs)

is_open_lem :
    (j : DispatchJob) → is_open j ≡ true → (j.status ≡ status_accepted) ⊎ (j.status ≡ status_leased)
unfolding is_open
is_open_lem j h =
    ground (arith, text_eq_iff j.status status_accepted, text_eq_iff j.status status_leased)

pub can_lease_lem :
    (id : IdText) (node : Uuid) (j : DispatchJob)
    → can_lease id node j ≡ true
    → j.status ≡ status_accepted
unfolding can_lease
can_lease_lem id node j h = ground (arith, text_eq_iff j.status status_accepted)

pub can_complete_lem :
    (id node : Uuid) (j : DispatchJob) → can_complete id node j ≡ true → j.status ≡ status_leased
unfolding can_complete
can_complete_lem id node j h = ground (arith, text_eq_iff j.status status_leased)

can_time_out_lem : (id : Uuid) (j : DispatchJob) → can_time_out id j ≡ true → is_open j ≡ true
unfolding can_time_out
can_time_out_lem id j h = ground arith

is_expired_lem : (now : Text) (j : DispatchJob) → is_expired now j ≡ true → is_open j ≡ true
unfolding is_expired
is_expired_lem now j h = ground arith

pub requested_status_lem : (s status : Text) → requested_status s ≡ ok status → IsReported status
unfolding requested_status
requested_status_lem s status h = ground arith

meet_jobs :
    (wrap : Text → AppError) (fs : Faults) (q : Queue)
    → (meet (λ q fs. record q { faults = fs }) wrap fs q).1.jobs ≡ q.jobs
meet_jobs wrap [] q = refl
meet_jobs wrap (none ∷ fs) q = refl
meet_jobs wrap (some message ∷ fs) q = refl

pub attempt-jobs : (q : Queue) → (attempt q).1.jobs ≡ q.jobs
unfolding attempt
attempt-jobs q = meet_jobs _ q.faults q

-- What a call left behind.
abbrev pub Keeps : {A : Type 0} → List DispatchJob → AppResult A × Queue → Type 0
Keeps old out = Evolves old out.1.jobs

pub execute_update-Keeps :
    (selected : DispatchJob → Bool) (set : DispatchJob → DispatchJob)
    → ((j : DispatchJob) → selected j ≡ true → Moves j (set j))
    → (q : Queue) → Keeps q.jobs (execute_update selected set q)
unfolding execute_update
execute_update-Keeps selected set step q =
    bind_rule (Keeps q.jobs) attempt _ q (λ e _. rw (attempt-jobs q) (Evolves-refl q.jobs))
      (λ _ _. rw (attempt-jobs q) (update-Evolves selected set step q.jobs))

module _ (now : ℕ) (q : Queue) where
  pub mark_job_timed_out-Keeps : (id : Uuid) → Keeps q.jobs (mark_job_timed_out now id q)
  unfolding mark_job_timed_out
  mark_job_timed_out-Keeps id =
      let kept =
        execute_update-Keeps (can_time_out id) (set_timed_out (to_decimal now))
          (λ j h. times_out (to_decimal now) j (is_open_lem j (can_time_out_lem id j h))) q in
      bind_rule (Keeps q.jobs) (execute_update (can_time_out id) (set_timed_out (to_decimal now))) _
        q (λ _ _. kept) (λ _ _. kept)

  pub mark_expired_jobs_timed_out-Keeps : Keeps q.jobs (mark_expired_jobs_timed_out now q)
  unfolding mark_expired_jobs_timed_out
  mark_expired_jobs_timed_out-Keeps =
      let kept =
        execute_update-Keeps (is_expired (to_decimal now)) (set_timed_out (to_decimal now))
          (λ j h.
            times_out (to_decimal now) j (is_open_lem j (is_expired_lem (to_decimal now) j h)))
          q in
      bind_rule (Keeps q.jobs)
        (execute_update (is_expired (to_decimal now)) (set_timed_out (to_decimal now))) _ q
        (λ _ _. kept) (λ _ _. kept)
