-- ===== src/Dispatch/Wait.antt =====
-- The waiting side: `wait_for_dispatch_result` and `dispatch_to_daemon_node`. The clock since the start
-- of the wait, in milliseconds, and what other callers do to the queue while the waiter sleeps are
-- arguments, as functions of the number of the poll.
use mathlib.Core.Path.{subst}
use mizan.Prelude.{
  ℕ, zero, suc, ◌+◌, ◌*◌, ◌≤◌, ◌<◌, ◌≡◌, ◌≢◌, refl, sym, ◌∙◌, inl, inr, Bool, true, false,
  Bool-cases, Option, none, some, List, [], ◌∷◌, Text, leb, max, arith, text_eq, codes,
}
use mizan.Prelude.Decimal.{to_decimal}
use mizan.Core.Id.{Uuid, is_id}
use mizan.Core.Error.{AppResult, ok}
use mizan.Core.Exec.{◌>>=◌, ◌>>◌, pure}
use mizan.Core.Exec.Rules.{bind_rule}
use mizan.Dispatch.Jobs.{
  DispatchJob, DispatchJobInput, DispatchJobResult, timed_out, status_accepted, status_leased,
  status_timed_out,
}
use mizan.Dispatch.Statements.{update, is_open, can_time_out, set_timed_out}
use mizan.Dispatch.Queue.{
  Queue, M, Json, attempt, execute_update, find_job, fetch_terminal_result, create_dispatch_job,
  mark_job_timed_out,
}

pub record Waiting : Type 0 where
  pub elapsed : ℕ → ℕ
  pub others : ℕ → Queue → Queue

-- After a poll: a result ends the wait, and so does the time.
abbrev pub polled :
    Bool → Option DispatchJobResult → M (Option DispatchJobResult) → M (Option DispatchJobResult)
polled late (some result) rest = pure (some result)
polled true none rest = pure (some timed_out)
polled false none rest = rest

-- The loop from the poll with the given number; none where the fuel runs out.
unfoldable pub wait_from :
    Json → Waiting → Uuid → ℕ → (fuel poll : ℕ) → M (Option DispatchJobResult)
wait_from json env job_id timeout zero poll = pure none
wait_from json env job_id timeout (suc fuel) poll =
    let rest : M (Option DispatchJobResult) =
      λ q. wait_from json env job_id timeout fuel (poll + 1) (env.others poll q) in
    do found ← fetch_terminal_result json job_id; polled (leb timeout (env.elapsed poll)) found rest

unfoldable pub wait_for_dispatch_result :
    Json → Waiting → ℕ → Uuid → ℕ → M (Option DispatchJobResult)
wait_for_dispatch_result json env fuel job_id timeout = wait_from json env job_id timeout fuel 0

-- `now''` is the clock when the wait is over; other callers run once more before that.
unfoldable pub dispatch_to_daemon_node :
    Json
    → Waiting
    → ℕ
    → Text
    → Uuid
    → (now now' now'' : ℕ) → DispatchJobInput
    → M (Option DispatchJobResult)
dispatch_to_daemon_node json env fuel duplicate id now now' now'' input = do
  job_id ← create_dispatch_job json duplicate id now now' input
  result ← wait_for_dispatch_result json env fuel job_id (max input.timeout_seconds 1 * 1000)
  elim result as (λ _. M (Option DispatchJobResult)) [
    | some timed_out ↦
        λ q. (do mark_job_timed_out now'' job_id; pure (some timed_out)) (env.others fuel q)
    | other ↦ pure other
  ]

-- The call did not run out of fuel.
abbrev Ends : AppResult (Option DispatchJobResult) × Queue → Type 0
Ends out = out.0 ≢ ok none

polled-Ends :
    (late : Bool) (found : Option DispatchJobResult) (rest : M (Option DispatchJobResult))
    (q : Queue)
    → (late ≡ false → Ends (rest q))
    → Ends (polled late found rest q)
polled-Ends late (some result) rest q h = λ e. cc
polled-Ends true none rest q h = λ e. cc
polled-Ends false none rest q h = h refl

module _ (json : Json) (env : Waiting) (job_id : Uuid) (timeout : ℕ) where
  wait_from-Ends :
      (fuel poll n : ℕ) (q : Queue)
      → timeout ≤ env.elapsed (poll + n)
      → n < fuel
      → Ends (wait_from json env job_id timeout fuel poll q)
  unfolding wait_from
  wait_from-Ends zero poll n q late enough = let impossible : ⊥ = omega arith in elim impossible [ ]
  wait_from-Ends (suc fuel) poll zero q late enough =
      let now : timeout ≤ env.elapsed poll =
        subst (λ m. timeout ≤ env.elapsed m) (omega arith) late in
      bind_rule Ends (fetch_terminal_result json job_id) _ q (λ e _ h. cc)
        (λ found _.
          polled-Ends (leb timeout (env.elapsed poll)) found _ _
            (λ early. let impossible : ⊥ = ground arith in elim impossible [ ]))
  wait_from-Ends (suc fuel) poll (suc n) q late enough =
      let later : timeout ≤ env.elapsed (poll + 1 + n) =
        subst (λ m. timeout ≤ env.elapsed m) (omega arith) late in
      bind_rule Ends (fetch_terminal_result json job_id) _ q (λ e _ h. cc)
        (λ found _.
          polled-Ends (leb timeout (env.elapsed poll)) found _ _
            (λ early. wait_from-Ends fuel (poll + 1) n _ later (omega arith)))

-- If the clock shows the timeout at some poll, and the fuel goes beyond that poll, then the wait ends
-- with a result or an error, whatever other callers do and whichever statements fail.
pub wait_for_dispatch_result_ends :
    (json : Json) (env : Waiting) (fuel : ℕ) (job_id : Uuid) (timeout : ℕ) (q : Queue) (n : ℕ)
    → timeout ≤ env.elapsed n
    → n < fuel
    → (wait_for_dispatch_result json env fuel job_id timeout q).0 ≢ ok none
unfolding wait_for_dispatch_result
wait_for_dispatch_result_ends json env fuel job_id timeout q n late enough =
    wait_from-Ends json env job_id timeout fuel 0 n q
      (subst (λ m. timeout ≤ env.elapsed m) (omega arith) late) enough

set_timed_out-is_open : (now : Text) (j : DispatchJob) → is_open (set_timed_out now j) ≡ false
unfolding is_open set_timed_out text_eq codes status_accepted status_leased status_timed_out
set_timed_out-is_open now j = refl

-- The row of a job that was timed out is not open.
find_job-update :
    (now : Text) (id : Uuid) (jobs : List DispatchJob) (j : DispatchJob)
    → find_job id (update (can_time_out id) (set_timed_out now) jobs) ≡ some j
    → is_open j ≡ false
unfolding find_job update can_time_out set_timed_out
find_job-update now id [] j found = cc
find_job-update now id (i ∷ jobs) j found = elim (Bool-cases (is_id i.id id)) [
  | inr other ↦
      let skipped : can_time_out id i ≡ false = rw other refl in
      find_job-update now id jobs j (sym (rw (skipped, other) refl) ∙ found)
  | inl this ↦ elim (Bool-cases (is_open i)) [
    | inl unfinished ↦
        let chosen : can_time_out id i ≡ true = rw (this, unfinished) refl in
        let it : some (set_timed_out now i) ≡ some j = sym (rw (chosen, this) refl) ∙ found in
        let same : set_timed_out now i ≡ j = cc in
        subst (λ k. is_open k ≡ false) same (set_timed_out-is_open now i)
    | inr closed ↦
        let kept : can_time_out id i ≡ false = rw (this, closed) refl in
        let it : some i ≡ some j = sym (rw (kept, this) refl) ∙ found in
        let same : i ≡ j = cc in subst (λ k. is_open k ≡ false) same closed
  ]
]

-- If no statement fails, then after `mark_job_timed_out` the row of the job, if there is one, is neither
-- accepted nor leased.
pub mark_job_timed_out-is_open :
    (now : ℕ) (id : Uuid) (q : Queue) (j : DispatchJob)
    → q.faults ≡ []
    → find_job id (mark_job_timed_out now id q).1.jobs ≡ some j
    → is_open j ≡ false
unfolding mark_job_timed_out execute_update attempt
mark_job_timed_out-is_open now id q j calm found =
    find_job-update (to_decimal now) id q.jobs j (rw calm at found)
