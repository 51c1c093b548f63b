-- ===== src/Jobs/Examples.antt =====
-- Jobs and batches on concrete input.
use mastermind_minecraft_ser.Prelude.{
  ℕ, ◌+◌, ◌≡◌, pos, refl, Text, codes, none, some, List, [], ◌∷◌, arith, find_first, update_first,
  update_many, total, same,
}
use mastermind_minecraft_ser.Json.{int, nan, string, number, end}
use mastermind_minecraft_ser.Jobs.Store.{RunStatus, Run, BatchStatus, Batch, Db}
use mastermind_minecraft_ser.Jobs.Batches.{
  Final, Prior, Instance, Result, create_batch, cancel_batch, count, complete_run, final_status,
}
use mastermind_minecraft_ser.Jobs.Batches.Counts.{runs_in, IsCounted}
use mastermind_minecraft_ser.Jobs.Batches.Status.{IsAccurate, IsConsistent}
use mastermind_minecraft_ser.Jobs.Runs.{
  Report, mark_job_run_started, report_job_result, fail_stale_running_jobs, reported,
  run_not_running,
}
use mastermind_minecraft_ser.Jobs.Runs.Create.{create_batch-IsConsistent}
use mastermind_minecraft_ser.Jobs.Runs.Life.{
  Request, serve_all, mark_job_run_started-IsConsistent, report_job_result-IsConsistent,
  report_job_result-once,
}
use mastermind_minecraft_ser.Jobs.Runs.Cancel.{
  IsCompleted, cancel_batch-IsConsistent, complete_run-overwrites,
}
use mastermind_minecraft_ser.Jobs.Runs.Stale.{stale_in, fail_stale_running_jobs-drift}
use mastermind_minecraft_ser.Jobs.Console.{check_command, accepted}
use mastermind_minecraft_ser.Grants.Items.{Runtime}
use mastermind_minecraft_ser.Grants.Command.{build_give_command}

abbrev empty : Db
empty = record { runs = []; batches = [] }

empty-IsConsistent : IsConsistent empty
unfolding find_first
empty-IsConsistent = record { accurate = λ id b h. absurd (ground arith) }

abbrev servers : List Instance
servers =
    record { id = 11; host_id = 3; job_id = 21; run_id = 31 }
    ∷ record { id = 12; host_id = 3; job_id = 22; run_id = 32 }
    ∷ []

abbrev restart : Text
restart = codes "SERVER_RESTART"

abbrev run_of : ℕ → ℕ → ℕ → Run
run_of id job server = record {
  id = id;
  job_id = job;
  org_id = 1;
  batch_id = some 9;
  server_instance_id = some server;
  type = restart;
  payload = end;
  host_id = 3;
  status = RunStatus.pending;
  started_at = none;
  finished_at = none;
  updated_at = none;
}

abbrev created : Db
created = record {
  runs = run_of 31 21 11 ∷ run_of 32 22 12 ∷ [];
  batches =
      record {
        id = 9;
        org_id = 1;
        type = restart;
        status = BatchStatus.running;
        total_count = pos 2;
        pending_count = pos 2;
        running_count = pos 0;
        success_count = pos 0;
        failed_count = pos 0;
        cancelled_count = pos 0;
        completed_at = none;
      }
      ∷ [];
}

creates : create_batch empty 1 9 restart restart end 2 servers ≡ some created
unfolding create_batch
creates = refl

create_batch-IsConsistent_example :
    IsConsistent created × (runs_in 9 RunStatus.pending created.runs ≡ 2)
create_batch-IsConsistent_example =
    create_batch-IsConsistent empty created 1 9 restart restart end 2 servers empty-IsConsistent tt
      (omega arith) creates

-- the first run is picked by its host
abbrev started : Db
started = mark_job_run_started created 1000 3 31

-- its success is reported, and the second run is left
abbrev ended : Db
ended = record {
  runs =
      record (run_of 31 21 11) {
        status = RunStatus.success;
        started_at = some 1000;
        finished_at = some 2000;
      }
      ∷ run_of 32 22 12
      ∷ [];
  batches =
      record {
        id = 9;
        org_id = 1;
        type = restart;
        status = BatchStatus.running;
        total_count = pos 2;
        pending_count = pos 1;
        running_count = pos 0;
        success_count = pos 1;
        failed_count = pos 0;
        cancelled_count = pos 0;
        completed_at = none;
      }
      ∷ [];
}

reports : report_job_result started 2000 3 31 (codes "success") ≡ Report.ok ended []
unfolding mark_job_run_started report_job_result find_first update_first same
reports = refl

started-IsConsistent : IsConsistent started
started-IsConsistent =
    mark_job_run_started-IsConsistent created 1000 3 31 create_batch-IsConsistent_example.0

report_job_result-IsConsistent_example : IsConsistent ended
report_job_result-IsConsistent_example =
    report_job_result-IsConsistent started ended 2000 3 31 (codes "success") [] started-IsConsistent
      reports

-- the first run is started and reported again, and the second one too
abbrev second_run : List Request
second_run =
    Request.starts 2500 3 31
    ∷ Request.starts 2500 3 32
    ∷ Request.progresses 2550 3 32
    ∷ Request.reports 2600 3 32 (codes "success")
    ∷ []

report_job_result-once_example :
    report_job_result (serve_all second_run ended) 3000 3 31 (codes "failed")
    ≡ Report.err (run_not_running (final_status (reported (codes "success"))))
report_job_result-once_example =
    report_job_result-once started ended 2000 3000 3 31 (codes "success") (codes "failed") []
      second_run reports

-- the second run is cancelled with its batch
abbrev cancelled : Db
cancelled = record {
  runs =
      record (run_of 31 21 11) {
        status = RunStatus.success;
        started_at = some 1000;
        finished_at = some 2000;
      }
      ∷ record (run_of 32 22 12) { status = RunStatus.cancelled; finished_at = some 4000 }
      ∷ [];
  batches =
      record {
        id = 9;
        org_id = 1;
        type = restart;
        status = BatchStatus.cancelled;
        total_count = pos 2;
        pending_count = pos 0;
        running_count = pos 0;
        success_count = pos 1;
        failed_count = pos 0;
        cancelled_count = pos 1;
        completed_at = some 4000;
      }
      ∷ [];
}

cancels : cancel_batch ended 4000 1 9 ≡ Result.ok cancelled
unfolding cancel_batch find_first update_first update_many total
cancels = refl

cancel_batch-IsConsistent_example :
    IsConsistent cancelled
    × (runs_in 9 RunStatus.pending cancelled.runs ≡ 0)
    × (runs_in 9 RunStatus.running cancelled.runs ≡ runs_in 9 RunStatus.running ended.runs)
cancel_batch-IsConsistent_example =
    cancel_batch-IsConsistent ended cancelled 4000 1 9 report_job_result-IsConsistent_example
      cancels

-- a batch of which one run is running
abbrev busy_runs : List Run
busy_runs = record (run_of 31 21 11) { status = RunStatus.running; started_at = some 1000 } ∷ []

abbrev busy : BatchStatus → Batch
busy s = record {
  id = 9;
  org_id = 1;
  type = restart;
  status = s;
  total_count = pos 1;
  pending_count = pos 0;
  running_count = pos 1;
  success_count = pos 0;
  failed_count = pos 0;
  cancelled_count = pos 0;
  completed_at = none;
}

busy-IsCounted : (s : BatchStatus) → IsCounted busy_runs (busy s)
unfolding count total
busy-IsCounted s = record {
  pending_ok = refl;
  running_ok = refl;
  success_ok = refl;
  failed_ok = refl;
  cancelled_ok = refl;
  total_ok = refl;
}

running-IsAccurate : IsAccurate busy_runs (busy BatchStatus.running)
unfolding count total
running-IsAccurate = record { counted = busy-IsCounted BatchStatus.running; status = omega arith }

cancelled-IsAccurate : IsAccurate busy_runs (busy BatchStatus.cancelled)
unfolding count total
cancelled-IsAccurate = record { counted = busy-IsCounted BatchStatus.cancelled; status = refl }

abbrev one_batch : Db
one_batch = record { runs = busy_runs; batches = busy BatchStatus.running ∷ [] }

fail_stale_running_jobs-drift_example :
    let db' = fail_stale_running_jobs one_batch 1000000 in
    (db'.batches ≡ one_batch.batches)
    × ((busy BatchStatus.running).running_count
        ≡ pos (runs_in 9 RunStatus.running db'.runs + count (stale_in 9 1000000) busy_runs))
fail_stale_running_jobs-drift_example =
    fail_stale_running_jobs-drift one_batch 1000000 (busy BatchStatus.running) running-IsAccurate

one_running : runs_in 9 RunStatus.running busy_runs ≡ 1
unfolding count total
one_running = refl

complete_run-overwrites_example :
    IsCompleted (complete_run 5000 Final.success Prior.running (busy BatchStatus.cancelled))
complete_run-overwrites_example =
    complete_run-overwrites busy_runs (busy BatchStatus.cancelled) 5000 Final.success
      cancelled-IsAccurate refl one_running

-- console commands and access
abbrev quiet : Runtime
quiet = record { to_number = λ t. nan; to_string = λ v. []; json_parse = λ t. none }

built :
    build_give_command quiet
      (some (codes "Steve"))
      (string (codes "diamond"))
      (number (int (pos 64)))
      none
    ≡ some (codes "give Steve diamond 64")
unfolding build_give_command
built = refl

says_hi : check_command (string (codes " say hi ")) ≡ accepted (codes "say hi")
unfolding check_command
says_hi = refl
