-- ===== src/Dispatch/Tests.antt =====
-- A table with one finished job, and calls that come after it.
use mizan.Prelude.{
  ◌≡◌, ◌≢◌, ◌*◌, arith, false, refl, inl, inr, text_eq, none, some, List, [], ◌∷◌, codes,
}
use mizan.Core.Id.{printed}
use mizan.Core.Error.{ok}
use mizan.Dispatch.Jobs.{
  DispatchJob, DispatchJobResult, failed, status_failed, status_accepted, status_leased,
  status_succeeded,
}
use mizan.Dispatch.Statements.{is_open, set_timed_out, update, can_time_out}
use mizan.Dispatch.Queue.{
  Queue, attempt, execute_update, mark_job_timed_out, Json, fetched, find_job, terminal_result,
}
use mizan.Dispatch.Status.{Evolves}
use mizan.Dispatch.Wait.{
  Waiting, wait_for_dispatch_result, wait_for_dispatch_result_ends, mark_job_timed_out-is_open,
}
use mizan.Prelude.Decimal.{to_decimal}
use mizan.Dispatch.Final.{
  Call, lease, complete, time_out, perform_all, perform_all-Evolves, fetched-perform_all,
}

-- A codec that prints the model or the content alone, and reads nothing.
abbrev json : Json
json = record {
  print_request = λ request. inr request.model;
  read_request = λ text. inl (codes "expected value");
  print_response = λ response. inr response.content;
  read_response = λ text. inl (codes "expected value");
}

abbrev job : DispatchJob
job = record {
  id = printed 5;
  request_id = printed 6;
  node_id = printed 7;
  user_id = none;
  api_key_id = none;
  model = codes "llama3.1";
  status = status_failed;
  request_json = codes "llama3.1";
  response_json = none;
  error_code = some (codes "upstream");
  error_message = none;
  leased_at = some (codes "1700000001");
  completed_at = some (codes "1700000002");
  deadline_at = codes "1700000030";
  created_at = codes "1700000000";
  updated_at = codes "1700000002";
}

abbrev queue : Queue
queue = record { jobs = job ∷ []; faults = none ∷ some (codes "database is locked") ∷ [] }

abbrev calls : List Call
calls =
    time_out 1_700_000_040 5
    ∷ lease 1_700_000_041 1_700_000_041 7
    ∷ complete 1_700_000_042 7 5 (record {
      status = codes "failed";
      response = none;
      error_code = none;
      error_message = none;
    })
    ∷ []

abbrev result : DispatchJobResult
result = failed (some (codes "upstream")) (codes "daemon job failed")

gives : fetched json (find_job 5 queue.jobs) ≡ ok (some result)
unfolding fetched terminal_result find_job codes text_eq status_succeeded status_failed
gives = refl

perform_all-Evolves_example : Evolves queue.jobs (perform_all json calls queue).jobs
perform_all-Evolves_example = perform_all-Evolves json calls queue

fetched-perform_all_example :
    fetched json (find_job 5 (perform_all json calls queue).jobs) ≡ ok (some result)
fetched-perform_all_example = fetched-perform_all json calls queue 5 result gives

-- A waiter that polls every 100 milliseconds, alone.
abbrev alone : Waiting
alone = record { elapsed = λ poll. poll * 100; others = λ poll q. q }

wait_for_dispatch_result_ends_example :
    (wait_for_dispatch_result json alone 5 5 300 queue).0 ≢ ok none
wait_for_dispatch_result_ends_example =
    wait_for_dispatch_result_ends json alone 5 5 300 queue 3 (omega arith) (omega arith)

abbrev leased_job : DispatchJob
leased_job = record job { status = status_leased; completed_at = none }

abbrev leased_queue : Queue
leased_queue = record { jobs = leased_job ∷ []; faults = [] }

abbrev ended_job : DispatchJob
ended_job = set_timed_out (codes "1700000040") leased_job

ended : find_job 5 (mark_job_timed_out 1_700_000_040 5 leased_queue).1.jobs ≡ some ended_job
unfolding mark_job_timed_out execute_update attempt find_job update can_time_out is_open
    set_timed_out codes text_eq status_accepted status_leased to_decimal
ended = refl

mark_job_timed_out-is_open_example : is_open ended_job ≡ false
mark_job_timed_out-is_open_example =
    mark_job_timed_out-is_open 1_700_000_040 5 leased_queue ended_job refl ended
