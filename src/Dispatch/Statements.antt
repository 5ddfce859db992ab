-- ===== src/Dispatch/Statements.antt =====
-- The SQL statements of the queue, each one atomic. Deadlines are compared as texts, as the TEXT
-- column does.
use mizan.Prelude.{
  ℕ, ◌+◌, Bool, true, false, ◌&&◌, ◌||◌, Option, some, List, [], ◌∷◌, Text, codes, text_eq, ltb,
  ◌==◌, if◌then◌else◌,
}
use mizan.Core.Id.{Uuid, IdText, printed, malformed, is_id}
use mizan.Dispatch.Jobs.{DispatchJob, status_accepted, status_leased, status_timed_out}

unfoldable pub text_ltb : Text → Text → Bool
text_ltb [] [] = false
text_ltb [] (_ ∷ _) = true
text_ltb (_ ∷ _) [] = false
text_ltb (c ∷ s) (d ∷ t) = ltb c d || (c == d && text_ltb s t)

-- UPDATE … SET … WHERE …
unfoldable pub update :
    (DispatchJob → Bool) → (DispatchJob → DispatchJob) → List DispatchJob → List DispatchJob
update selected set [] = []
update selected set (job ∷ jobs) =
    (if selected job then set job else job) ∷ update selected set jobs

-- `rows_affected`
unfoldable pub affected : (DispatchJob → Bool) → List DispatchJob → ℕ
affected selected [] = 0
affected selected (job ∷ jobs) = (if selected job then 1 else 0) + affected selected jobs

unfoldable pub select : (DispatchJob → Bool) → List DispatchJob → List DispatchJob
select selected [] = []
select selected (job ∷ jobs) =
    let rest = select selected jobs in if selected job then job ∷ rest else rest

-- ORDER BY created_at ASC; the order of equal texts is that of the table.
unfoldable pub insert_by_created : DispatchJob → List DispatchJob → List DispatchJob
insert_by_created job [] = job ∷ []
insert_by_created job (j ∷ jobs) =
    if text_ltb j.created_at job.created_at then j ∷ insert_by_created job jobs else job ∷ j ∷ jobs

unfoldable pub order_by_created : List DispatchJob → List DispatchJob
unfolding insert_by_created
order_by_created [] = []
order_by_created (job ∷ jobs) = insert_by_created job (order_by_created jobs)

-- `status IN (accepted, leased)`
unfoldable pub is_open : DispatchJob → Bool
is_open job = text_eq job.status status_accepted || text_eq job.status status_leased

abbrev pub same_id : IdText → IdText → Bool
same_id (printed u) stored = is_id stored u
same_id (malformed s) (printed u) = false
same_id (malformed s) (malformed t) = text_eq s t

unfoldable pub can_lease : IdText → Uuid → DispatchJob → Bool
can_lease id node_id job =
    same_id id job.id && is_id job.node_id node_id && text_eq job.status status_accepted

abbrev pub set_leased : Text → DispatchJob → DispatchJob
set_leased now job = record job { status = status_leased; leased_at = some now; updated_at = now }

unfoldable pub can_complete : Uuid → Uuid → DispatchJob → Bool
can_complete id node_id job =
    is_id job.id id && is_id job.node_id node_id && text_eq job.status status_leased

abbrev pub set_completed :
    Text → Option Text → Option Text → Option Text → Text → DispatchJob → DispatchJob
set_completed status response_json error_code error_message now job = record job {
  status = status;
  response_json = response_json;
  error_code = error_code;
  error_message = error_message;
  completed_at = some now;
  updated_at = now;
}

unfoldable pub can_time_out : Uuid → DispatchJob → Bool
unfolding is_open
can_time_out id job = is_id job.id id && is_open job

unfoldable pub is_expired : Text → DispatchJob → Bool
unfolding is_open
is_expired now job = is_open job && text_ltb job.deadline_at now

unfoldable pub set_timed_out : Text → DispatchJob → DispatchJob
set_timed_out now job = record job {
  status = status_timed_out;
  error_code = some (codes "timeout");
  error_message = some (codes "daemon dispatch timed out");
  completed_at = some now;
  updated_at = now;
}
