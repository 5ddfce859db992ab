-- ===== src/Dispatch/Queue.antt =====
-- The operations on the queue. `Json` stands for `serde_json`: the text of a value or the text of an
-- error, and back. The clock's readings are arguments: seconds since the epoch, as a number below
-- 2 ^ 63. A statement that the database refuses, as for a foreign key, takes an item of the schedule.
use mizan.Prelude.{
  ℕ, ◌+◌, ◌-◌, Bool, ◌&&◌, not, Option, none, some, List, [], ◌∷◌, ◌++◌, Text, codes, text_eq, trim,
  is_empty, take, any, ◌==◌, min, max, i64_bound, ◌⊎◌, inl, inr, is_some, if◌then◌else◌,
}
use mizan.Prelude.Decimal.{to_decimal}
use mizan.Core.Id.{Uuid, printed, is_id, parse_id}
use mizan.Core.Error.{AppError, AppResult, ok, err, infrastructure, invalid_config, not_found}
use mizan.Core.Exec.{Exec, Faults, meet, ◌>>=◌, ◌>>◌, pure, throw, lift, gets, modify}
use mizan.Dispatch.Jobs.{
  DispatchJob, ChatRequest, ChatResponse, DispatchJobInput, DispatchJobLeaseResponse,
  DispatchJobCompleteRequest, DispatchJobResult, succeeded, failed, timed_out, status_accepted,
  status_succeeded, status_failed, status_timed_out,
}
use mizan.Dispatch.Statements.{
  text_ltb, update, affected, select, order_by_created, can_lease, set_leased, can_complete,
  set_completed, can_time_out, is_expired, set_timed_out,
}

pub record Queue : Type 0 where
  pub jobs : List DispatchJob
  pub faults : Faults

abbrev pub M : Type 0 → Type 0
M = Exec Queue

pub record Json : Type 0 where
  pub print_request : ChatRequest → Text ⊎ Text
  pub read_request : Text → Text ⊎ ChatRequest
  pub print_response : ChatResponse → Text ⊎ Text
  pub read_response : Text → Text ⊎ ChatResponse

-- `map_err`, with the text before the error's own.
abbrev pub or_infrastructure : {A : Type 0} → Text → Text ⊎ A → AppResult A
or_infrastructure prefix (inl error) = err (infrastructure (prefix ++ error))
or_infrastructure prefix (inr a) = ok a

unfoldable pub attempt : M (Unit {0})
attempt q = meet (λ q fs. record q { faults = fs }) infrastructure q.faults q

abbrev pub modify_jobs : (List DispatchJob → List DispatchJob) → M (Unit {0})
modify_jobs f = modify (λ q. record q { jobs = f q.jobs })

-- An UPDATE, with the number of rows that it changed.
unfoldable pub execute_update : (DispatchJob → Bool) → (DispatchJob → DispatchJob) → M ℕ
unfolding attempt
execute_update selected set = do
  attempt
  count ← gets (λ q. affected selected q.jobs)
  modify_jobs (update selected set)
  pure count

unfoldable pub mark_job_timed_out : ℕ → Uuid → M (Unit {0})
unfolding execute_update
mark_job_timed_out now job_id = do
  execute_update (can_time_out job_id) (set_timed_out (to_decimal now))
  pure tt

unfoldable pub mark_expired_jobs_timed_out : ℕ → M (Unit {0})
unfolding execute_update
mark_expired_jobs_timed_out now = do
  execute_update (is_expired (to_decimal now)) (set_timed_out (to_decimal now))
  pure tt

-- The deadline, with the saturation of `i64`.
unfoldable pub deadline_of : ℕ → ℕ → ℕ
deadline_of now timeout_seconds = min (now + max timeout_seconds 1) (i64_bound - 1)

-- `id` is the fresh identifier, and `duplicate` the text of the error for a key that is taken.
unfoldable pub create_dispatch_job : Json → Text → Uuid → (now now' : ℕ) → DispatchJobInput → M Uuid
unfolding attempt deadline_of
create_dispatch_job json duplicate id now now' input = do
  request_json ← lift (
      or_infrastructure (codes "dispatch request encode failed: ")
        (json.print_request input.request))
  attempt
  taken ← gets (λ q. any (λ job. is_id job.id id) q.jobs)
  if taken then throw (infrastructure duplicate) else do
    modify_jobs (λ jobs.
        jobs
        ++ record {
          id = printed id;
          request_id = printed input.request_id;
          node_id = printed input.node_id;
          user_id = input.user_id;
          api_key_id = input.api_key_id;
          model = input.model;
          status = status_accepted;
          request_json = request_json;
          response_json = none;
          error_code = none;
          error_message = none;
          leased_at = none;
          completed_at = none;
          deadline_at = to_decimal (deadline_of now' input.timeout_seconds);
          created_at = to_decimal now;
          updated_at = to_decimal now;
        }
          ∷ [])
    pure id

-- The texts of the uuid parser's own errors are left out.
unfoldable pub lease_response : Json → DispatchJob → AppResult DispatchJobLeaseResponse
lease_response json row =
    mizan.Core.Error.◌>>=◌
      (parse_id (infrastructure (codes "stored dispatch id is invalid")) row.id)
      (λ id.
        mizan.Core.Error.◌>>=◌
          (parse_id (infrastructure (codes "stored dispatch request id is invalid")) row.request_id)
          (λ request_id.
            mizan.Core.Error.◌>>=◌
              (or_infrastructure (codes "stored dispatch request is invalid: ")
                (json.read_request row.request_json))
              (λ request. ok (record {
                id = id;
                request_id = request_id;
                model = row.model;
                request = request;
                deadline_at = row.deadline_at;
              }))))

-- The loop over the rows that were read: the first one that is still free is leased.
unfoldable pub lease_rows :
    Json → Text → Uuid → List DispatchJob → M (Option DispatchJobLeaseResponse)
unfolding execute_update lease_response
lease_rows json now node_id [] = pure none
lease_rows json now node_id (row ∷ rows) = do
  count ← execute_update (can_lease row.id node_id) (set_leased now)
  if count == 1
      then (do response ← lift (lease_response json row); pure (some response))
      else lease_rows json now node_id rows

-- WHERE node_id = ? AND status = ? AND deadline_at >= ?
unfoldable pub is_candidate : Uuid → Text → DispatchJob → Bool
is_candidate node_id now job =
    is_id job.node_id node_id
    && text_eq job.status status_accepted
    && not (text_ltb job.deadline_at now)

unfoldable pub lease_next_job_for_node :
    Json → (now now' : ℕ) → Uuid → M (Option DispatchJobLeaseResponse)
unfolding attempt mark_expired_jobs_timed_out lease_rows
lease_next_job_for_node json now now' node_id = do
  mark_expired_jobs_timed_out now
  attempt
  rows ←
      gets (λ q. take 5 (order_by_created (select (is_candidate node_id (to_decimal now')) q.jobs)))
  lease_rows json (to_decimal now') node_id rows

-- The status that the payload asks for.
unfoldable pub requested_status : Text → AppResult Text
requested_status status =
    if text_eq (trim status) status_succeeded
    then ok status_succeeded
    else if text_eq (trim status) status_failed
    then ok status_failed
    else err
        (invalid_config (codes "dispatch_job.status") (codes "status must be succeeded or failed"))

unfoldable pub trimmed_message : Option Text → Option Text
trimmed_message none = none
trimmed_message (some value) = if is_empty (trim value) then none else some (trim value)

unfoldable pub response_text : Json → Option ChatResponse → AppResult (Option Text)
response_text json none = ok none
response_text json (some response) =
    mizan.Core.Error.◌>>=◌
      (or_infrastructure (codes "dispatch response encode failed: ") (json.print_response response))
      (λ raw. ok (some raw))

unfoldable pub complete_job : Json → ℕ → Uuid → Uuid → DispatchJobCompleteRequest → M Text
unfolding requested_status trimmed_message response_text execute_update
complete_job json now node_id job_id payload = do
  status ← lift (requested_status payload.status)
  if text_eq status status_succeeded && not (is_some payload.response)
      then throw (
          invalid_config (codes "dispatch_job.response")
            (codes "response is required when status is succeeded"))
      else pure tt
  response_json ← lift (response_text json payload.response)
  count ← execute_update (can_complete job_id node_id) (
      set_completed status response_json payload.error_code (trimmed_message payload.error_message)
        (to_decimal now))
  if count == 1 then pure status else throw (not_found (codes "leased dispatch job not found"))

unfoldable pub terminal_result : Json → DispatchJob → AppResult (Option DispatchJobResult)
terminal_result json row =
    if text_eq row.status status_succeeded
    then (elim row.response_json as (λ _. AppResult (Option DispatchJobResult)) [
      | none ↦ err (infrastructure (codes "dispatch job succeeded without response_json"))
      | some raw ↦
          mizan.Core.Error.◌>>=◌
            (or_infrastructure (codes "stored dispatch response is invalid: ")
              (json.read_response raw))
            (λ response. ok (some (succeeded response)))
    ])
    else if text_eq row.status status_failed
    then ok (
        some (
          failed row.error_code
            (elim row.error_message [ none ↦ codes "daemon job failed" | some message ↦ message ])))
    else if text_eq row.status status_timed_out
    then ok (some timed_out)
    else ok none

unfoldable pub find_job : Uuid → List DispatchJob → Option DispatchJob
find_job id [] = none
find_job id (job ∷ jobs) = if is_id job.id id then some job else find_job id jobs

unfoldable pub fetched : Json → Option DispatchJob → AppResult (Option DispatchJobResult)
unfolding terminal_result
fetched json none = err (not_found (codes "dispatch job not found"))
fetched json (some row) = terminal_result json row

unfoldable pub fetch_terminal_result : Json → Uuid → M (Option DispatchJobResult)
unfolding attempt fetched
fetch_terminal_result json job_id = do
  attempt
  row ← gets (λ q. find_job job_id q.jobs)
  lift (fetched json row)
