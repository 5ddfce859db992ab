-- ===== src/Dispatch/Calls.antt =====
-- That each call moves the rows by steps only.
use mizan.Prelude.{
  ℕ, inl, inr, ◌&&◌, not, Bool-cases, List, [], ◌∷◌, ◌++◌, Text, codes, text_eq, any, ◌==◌, is_some,
}
use mizan.Prelude.Decimal.{to_decimal}
use mizan.Core.Id.{Uuid, is_id}
use mizan.Core.Exec.{lift}
use mizan.Core.Exec.Rules.{bind_rule}
use mizan.Dispatch.Jobs.{
  DispatchJob, DispatchJobInput, DispatchJobCompleteRequest, status_succeeded,
}
use mizan.Dispatch.Statements.{can_lease, set_leased, can_complete, set_completed}
use mizan.Dispatch.Queue.{
  Queue, Json, or_infrastructure, attempt, execute_update, mark_expired_jobs_timed_out, lease_rows,
  lease_response, lease_next_job_for_node, requested_status, response_text, trimmed_message,
  complete_job, create_dispatch_job,
}
use mizan.Dispatch.Status.{
  leases, completes, same, Evolves, Evolves-refl, Evolves-trans, Keeps, attempt-jobs,
  execute_update-Keeps, can_lease_lem, can_complete_lem, requested_status_lem,
  mark_expired_jobs_timed_out-Keeps,
}

module _ (json : Json) (node : Uuid) where
  lease_rows-Keeps :
      (now : Text) (rows : List DispatchJob) (q : Queue)
      → Keeps q.jobs (lease_rows json now node rows q)
  unfolding lease_rows
  lease_rows-Keeps now [] q = Evolves-refl q.jobs
  lease_rows-Keeps now (row ∷ rows) q =
      let updated = execute_update (can_lease row.id node) (set_leased now) in
      let kept =
        execute_update-Keeps (can_lease row.id node) (set_leased now)
          (λ j h. leases now j (can_lease_lem row.id node j h)) q in
      bind_rule (Keeps q.jobs) updated _ q (λ _ _. kept)
        (λ count _. elim (Bool-cases (count == 1)) [
          | inl one ↦ rw one (
              bind_rule (Keeps q.jobs) (lift (lease_response json row)) _ _ (λ _ _. kept)
                (λ _ _. kept))
          | inr other ↦
              rw other (Evolves-trans q.jobs _ _ kept (lease_rows-Keeps now rows (updated q).1))
        ])

  pub lease_next_job_for_node-Keeps :
      (now now' : ℕ) (q : Queue) → Keeps q.jobs (lease_next_job_for_node json now now' node q)
  unfolding lease_next_job_for_node
  lease_next_job_for_node-Keeps now now' q =
      let marked = mark_expired_jobs_timed_out-Keeps now q in
      let q' = (mark_expired_jobs_timed_out now q).1 in
      bind_rule (Keeps q.jobs) (mark_expired_jobs_timed_out now) _ q (λ _ _. marked)
        (λ _ _.
          bind_rule (Keeps q.jobs) attempt _ q' (λ _ _. rw (attempt-jobs q') marked)
            (λ _ _.
              let rest = lease_rows-Keeps (to_decimal now') _ (attempt q').1 in
              Evolves-trans q.jobs (attempt q').1.jobs _ (rw (attempt-jobs q') marked) rest))

  pub complete_job-Keeps :
      (now : ℕ) (id : Uuid) (payload : DispatchJobCompleteRequest) (q : Queue)
      → Keeps q.jobs (complete_job json now node id payload q)
  unfolding complete_job
  complete_job-Keeps now id payload q =
      let unchanged = Evolves-refl q.jobs in
      bind_rule (Keeps q.jobs) (lift (requested_status payload.status)) _ q (λ _ _. unchanged)
        (λ status asked.
          elim (Bool-cases (text_eq status status_succeeded && not (is_some payload.response))) [
            | inl missing ↦ rw missing unchanged
            | inr present ↦ rw present (
                bind_rule (Keeps q.jobs) (lift (response_text json payload.response)) _ q
                  (λ _ _. unchanged)
                  (λ response _.
                    let selected = can_complete id node in
                    let set =
                      set_completed status response payload.error_code
                        (trimmed_message payload.error_message) (to_decimal now) in
                    let kept =
                      execute_update-Keeps selected set
                        (λ j h.
                          completes status response payload.error_code
                            (trimmed_message payload.error_message) (to_decimal now) j
                            (can_complete_lem id node j h)
                            (requested_status_lem payload.status status asked))
                        q in
                    bind_rule (Keeps q.jobs) (execute_update selected set) _ q (λ _ _. kept)
                      (λ count _. elim (Bool-cases (count == 1)) [
                        | inl one ↦ rw one kept
                        | inr other ↦ rw other kept
                      ])))
          ])

Evolves-append : (jobs more : List DispatchJob) → Evolves jobs (jobs ++ more)
Evolves-append [] more = tt
Evolves-append (j ∷ jobs) more = (same j, Evolves-append jobs more)

pub create_dispatch_job-Keeps :
    (json : Json) (duplicate : Text) (id : Uuid) (now now' : ℕ) (input : DispatchJobInput)
    (q : Queue)
    → Keeps q.jobs (create_dispatch_job json duplicate id now now' input q)
unfolding create_dispatch_job
create_dispatch_job-Keeps json duplicate id now now' input q =
    let unchanged = Evolves-refl q.jobs in
    bind_rule (Keeps q.jobs)
      (lift (
        or_infrastructure (codes "dispatch request encode failed: ")
          (json.print_request input.request)))
      _ q (λ _ _. unchanged)
      (λ request _.
        bind_rule (Keeps q.jobs) attempt _ q (λ _ _. rw (attempt-jobs q) unchanged)
          (λ _ _. elim (Bool-cases (any (λ job. is_id job.id id) (attempt q).1.jobs)) [
            | inl taken ↦ rw taken (rw (attempt-jobs q) unchanged)
            | inr free ↦ rw free (rw (attempt-jobs q) (Evolves-append q.jobs _))
          ]))
