-- ===== src/Dispatch/Final.antt =====
-- Sequences of calls on the queue, by any nodes and waiting requests in any order, and the theorems about them.
use mizan.Prelude.{
  ℕ, ◌≡◌, refl, sym, ap, ◌∙◌, ◌⊎◌, inl, inr, true, false, Bool-cases, Option-cases, none, some,
  List, [], ◌∷◌, Text, text_eq, codes, text_eq_iff, text_eq_refl, arith,
}
use mizan.Core.Id.{Uuid, is_id}
use mizan.Core.Error.{ok, err, not_found}
use mizan.Dispatch.Jobs.{
  DispatchJob, DispatchJobInput, DispatchJobCompleteRequest, DispatchJobResult, status_accepted,
  status_leased, status_succeeded, status_failed, status_timed_out,
}
use mizan.Dispatch.Statements.{is_open, set_timed_out}
use mizan.Dispatch.Queue.{
  Queue, Json, mark_job_timed_out, lease_next_job_for_node, complete_job, create_dispatch_job,
  terminal_result, fetched, find_job,
}
use mizan.Dispatch.Status.{
  Moves, leases, completes, times_out, History, same, after, Evolves, Evolves-refl, Evolves-trans,
  mark_job_timed_out-Keeps,
}
use mizan.Dispatch.Calls.{
  lease_next_job_for_node-Keeps, complete_job-Keeps, create_dispatch_job-Keeps,
}

-- A call with all that it reads besides the queue.
pub data Call : Type 0 where
  create : (duplicate : Text) (id : Uuid) (now now' : ℕ) (input : DispatchJobInput) → Call
  lease : (now now' : ℕ) (node : Uuid) → Call
  complete : (now : ℕ) (node id : Uuid) (payload : DispatchJobCompleteRequest) → Call
  time_out : (now : ℕ) (id : Uuid) → Call

abbrev pub perform : Json → Call → Queue → Queue
perform json (create duplicate id now now' input) q =
    (create_dispatch_job json duplicate id now now' input q).1
perform json (lease now now' node) q = (lease_next_job_for_node json now now' node q).1
perform json (complete now node id payload) q = (complete_job json now node id payload q).1
perform json (time_out now id) q = (mark_job_timed_out now id q).1

abbrev pub perform_all : Json → List Call → Queue → Queue
perform_all json [] q = q
perform_all json (call ∷ calls) q = perform_all json calls (perform json call q)

perform-Evolves :
    (json : Json) (call : Call) (q : Queue) → Evolves q.jobs (perform json call q).jobs
perform-Evolves json (create duplicate id now now' input) q =
    create_dispatch_job-Keeps json duplicate id now now' input q
perform-Evolves json (lease now now' node) q = lease_next_job_for_node-Keeps json node now now' q
perform-Evolves json (complete now node id payload) q =
    complete_job-Keeps json node now id payload q
perform-Evolves json (time_out now id) q = mark_job_timed_out-Keeps now q id

-- Whatever jobs are created, leased, completed and timed out in whatever order, and whichever statements
-- fail: every row stays in the
-- table, and moves only from accepted to leased, from leased to succeeded or failed, and from accepted
-- or leased to timed_out.
pub perform_all-Evolves :
    (json : Json) (calls : List Call) (q : Queue) → Evolves q.jobs (perform_all json calls q).jobs
perform_all-Evolves json [] q = Evolves-refl q.jobs
perform_all-Evolves json (call ∷ calls) q =
    Evolves-trans q.jobs _ _ (perform-Evolves json call q)
      (perform_all-Evolves json calls (perform json call q))

Moves-id : (j k : DispatchJob) → Moves j k → k.id ≡ j.id
unfolding set_timed_out
Moves-id _ _ (leases now j free) = refl
Moves-id _ _ (completes status response error message now j held reported) = refl
Moves-id _ _ (times_out now j unfinished) = refl

History-id : (j k : DispatchJob) → History j k → k.id ≡ j.id
History-id _ _ (same j) = refl
History-id _ _ (after i j k h m) = Moves-id j k m ∙ History-id i j h

Moves-is_open : (j k : DispatchJob) → Moves j k → is_open j ≡ true
unfolding is_open
Moves-is_open _ _ (leases now j free) = rw (free, text_eq_refl status_accepted) refl
Moves-is_open _ _ (completes status response error message now j held reported) =
    rw (held, text_eq_refl status_leased) (ground arith)
Moves-is_open _ _ (times_out now j unfinished) = elim unfinished [
  | inl free ↦ rw (free, text_eq_refl status_accepted) refl
  | inr held ↦ rw (held, text_eq_refl status_leased) (ground arith)
]

-- A row that is not open stays as it is.
History-closed : (j k : DispatchJob) → History j k → is_open j ≡ false → k ≡ j
History-closed _ _ (same j) closed = refl
History-closed _ _ (after i j k h m) closed =
    let still = History-closed i j h closed in
    let opened = Moves-is_open j k m in cc (opened, closed, ap is_open still)

find_job-Evolves :
    (id : Uuid) (old new : List DispatchJob) (j : DispatchJob)
    → Evolves old new
    → find_job id old ≡ some j
    → is_open j ≡ false
    → find_job id new ≡ some j
unfolding find_job
find_job-Evolves id [] new j e found closed = cc
find_job-Evolves id (i ∷ old) [] j e found closed = elim e [ ]
find_job-Evolves id (i ∷ old) (k ∷ new) j (h, e) found closed = elim (Bool-cases (is_id i.id id)) [
  | inl this ↦
      let it : some i ≡ some j = sym (rw this refl) ∙ found in
      let i-is : i ≡ j = cc in
      let k-is = History-closed i k h (ap is_open i-is ∙ closed) in
      let k-this : is_id k.id id ≡ true = ap (λ x. is_id x id) (History-id i k h) ∙ this in
      rw k-this (ap some (k-is ∙ i-is))
  | inr other ↦
      let rest : find_job id old ≡ some j = sym (rw other refl) ∙ found in
      let k-other : is_id k.id id ≡ false = ap (λ x. is_id x id) (History-id i k h) ∙ other in
      rw k-other (find_job-Evolves id old new j e rest closed)
]

-- The statuses of a job that is over.
abbrev IsOver : Text → Type 0
IsOver status =
    (status ≡ status_succeeded) ⊎ ((status ≡ status_failed) ⊎ (status ≡ status_timed_out))

IsOver-is_open : (j : DispatchJob) → IsOver j.status → is_open j ≡ false
unfolding is_open text_eq codes status_accepted status_leased status_succeeded status_failed
    status_timed_out
IsOver-is_open j (inl done) = rw done refl
IsOver-is_open j (inr (inl done)) = rw done refl
IsOver-is_open j (inr (inr done)) = rw done refl

terminal_result-is_open :
    (json : Json) (j : DispatchJob) (result : DispatchJobResult)
    → terminal_result json j ≡ ok (some result)
    → is_open j ≡ false
unfolding terminal_result
terminal_result-is_open json j result h = elim (Bool-cases (text_eq j.status status_succeeded)) [
  | inl a ↦ IsOver-is_open j (inl ((text_eq_iff j.status status_succeeded).0 a))
  | inr a ↦ elim (Bool-cases (text_eq j.status status_failed)) [
    | inl b ↦ IsOver-is_open j (inr (inl ((text_eq_iff j.status status_failed).0 b)))
    | inr b ↦ elim (Bool-cases (text_eq j.status status_timed_out)) [
      | inl c ↦ IsOver-is_open j (inr (inr ((text_eq_iff j.status status_timed_out).0 c)))
      | inr c ↦ let no_result : ok none ≡ ok (some result) = sym (rw (a, b, c) refl) ∙ h in cc
    ]
  ]
]

-- Whatever calls are made in whatever order, and whichever statements fail: once the row of a job gives
-- a result, it gives that same result ever after.
pub fetched-perform_all :
    (json : Json) (calls : List Call) (q : Queue) (id : Uuid) (result : DispatchJobResult)
    → fetched json (find_job id q.jobs) ≡ ok (some result)
    → fetched json (find_job id (perform_all json calls q).jobs) ≡ ok (some result)
unfolding fetched
fetched-perform_all json calls q id result h = elim (Option-cases (find_job id q.jobs)) [
  | inl missing ↦
      let lost : err (not_found (codes "dispatch job not found")) ≡ ok (some result) =
        sym (rw missing refl) ∙ h in
      cc
  | inr (j, there) ↦
      let gives : terminal_result json j ≡ ok (some result) = sym (rw there refl) ∙ h in
      rw
        (find_job-Evolves id q.jobs _ j (perform_all-Evolves json calls q) there
          (terminal_result-is_open json j result gives))
        gives
]
