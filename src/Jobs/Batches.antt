-- ===== src/Jobs/Batches.antt =====
-- The counters of a batch (batches.service.ts). Progress events and audit rows are not part of it.
pub mod Counts
pub mod Status
use mastermind_minecraft_ser.Prelude.{
  ℕ, suc, ◌+◌, ℤ, pos, add_ℕ, sub_ℕ, is_positive, Bool, true, false, ◌&&◌, ◌||◌, not, Text, Option,
  none, some, List, [], ◌∷◌, ◌++◌, length, find_first, update_first, update_many, total, ◌==◌,
  if◌then◌else◌,
}
use mastermind_minecraft_ser.Json.{Fields}
use mastermind_minecraft_ser.Jobs.Store.{
  RunStatus, Run, BatchStatus, Batch, Db, is_status, has_batch_id, is_in, in_batch,
}

-- the final status of a run: success, failed or cancelled
pub data Final : Type 0 where
  success failed cancelled : Final

pub data Prior : Type 0 where
  pending running : Prior

-- the status that the run gets
abbrev pub final_status : Final → RunStatus
final_status Final.success = RunStatus.success
final_status Final.failed = RunStatus.failed
final_status Final.cancelled = RunStatus.cancelled

unfoldable pub count_final : Final → Batch → Batch
count_final success b = record b { success_count = add_ℕ b.success_count 1 }
count_final failed b = record b { failed_count = add_ℕ b.failed_count 1 }
count_final cancelled b = record b { cancelled_count = add_ℕ b.cancelled_count 1 }

unfoldable pub uncount_prior : Prior → Batch → Batch
uncount_prior running b = record b { running_count = sub_ℕ b.running_count 1 }
uncount_prior pending b = record b { pending_count = sub_ℕ b.pending_count 1 }

-- nothing pending and nothing running ends the batch
unfoldable pub close_if_done : ℕ → Batch → Batch
close_if_done now b =
    if not (is_positive b.pending_count) && not (is_positive b.running_count)
    then record b {
      status =
          if is_positive b.failed_count
          then BatchStatus.completed_with_failures
          else BatchStatus.completed;
      completed_at = some now;
    }
    else b

unfoldable pub complete_run : ℕ → Final → Prior → Batch → Batch
unfolding count_final uncount_prior close_if_done add_ℕ sub_ℕ
complete_run now final prior b = close_if_done now (uncount_prior prior (count_final final b))

unfoldable pub start_run : Batch → Batch
unfolding add_ℕ sub_ℕ
start_run b = record b {
  pending_count = sub_ℕ b.pending_count 1;
  running_count = add_ℕ b.running_count 1;
}

-- the batch of a job is there: its rows go with it
unfoldable pub record_job_run_completed : Db → ℕ → Option ℕ → Final → Prior → Db
unfolding complete_run
record_job_run_completed db now none final prior = db
record_job_run_completed db now (some batch) final prior = record db {
  batches = update_first (has_batch_id batch) (complete_run now final prior) db.batches;
}

unfoldable pub record_job_run_started : Db → Option ℕ → Db
unfolding start_run
record_job_run_started db none = db
record_job_run_started db (some batch) = record db {
  batches = update_first (has_batch_id batch) start_run db.batches;
}

pub data BatchError : Type 0 where
  not_found not_running : BatchError

pub data Result : Type 0 where
  ok : Db → Result
  err : BatchError → Result

-- the runs that are cancelled: the pending ones of the batch
abbrev pub is_cancellable : ℕ → Run → Bool
is_cancellable batch r = in_batch batch RunStatus.pending r

abbrev pub cancel_run : ℕ → Run → Run
cancel_run now r = record r { status = RunStatus.cancelled; finished_at = some now }

-- how many rows meet the condition
unfoldable pub count {ℓ} : {A : Type ℓ} → (A → Bool) → List A → ℕ
unfolding total
count p xs = total (λ x. if p x then 1 else 0) xs

unfoldable pub cancelled_batch : ℕ → ℕ → Batch → Batch
unfolding add_ℕ sub_ℕ
cancelled_batch now n b = record b {
  status = BatchStatus.cancelled;
  pending_count = sub_ℕ b.pending_count n;
  cancelled_count = add_ℕ b.cancelled_count n;
  completed_at = some now;
}

abbrev pub is_running : BatchStatus → Bool
is_running BatchStatus.running = true
is_running _ = false

-- The queue's own entries are taken out by the queue; a run that is cancelled is not started.
unfoldable pub cancel : Db → ℕ → ℕ → Db
unfolding count cancelled_batch
cancel db now batch = record {
  runs = update_many (is_cancellable batch) (cancel_run now) db.runs;
  batches =
      update_first (has_batch_id batch) (cancelled_batch now (count (is_cancellable batch) db.runs))
        db.batches;
}

unfoldable pub cancel_batch : Db → ℕ → ℕ → ℕ → Result
unfolding cancel
cancel_batch db now org batch = elim (find_first (has_batch_id batch) db.batches) [
  | none ↦ err not_found
  | some b ↦
      if not (b.org_id == org)
      then err not_found
      else if not (is_running b.status)
      then err not_running
      else ok (cancel db now batch)
]

-- A server instance of the batch: its id, its host, and the ids that the database gives to the new
-- job and run.
pub record Instance : Type 0 where
  pub id : ℕ
  pub host_id : ℕ
  pub job_id : ℕ
  pub run_id : ℕ

unfoldable pub new_run : ℕ → ℕ → Text → Fields → Instance → Run
new_run org batch type payload i = record {
  id = i.run_id;
  job_id = i.job_id;
  org_id = org;
  batch_id = some batch;
  server_instance_id = some i.id;
  type = type;
  payload = payload;
  host_id = i.host_id;
  status = RunStatus.pending;
  started_at = none;
  finished_at = none;
  updated_at = none;
}

unfoldable pub new_runs : ℕ → ℕ → Text → Fields → List Instance → List Run
unfolding new_run
new_runs org batch type payload [] = []
new_runs org batch type payload (i ∷ is) =
    new_run org batch type payload i ∷ new_runs org batch type payload is

unfoldable pub new_batch : ℕ → ℕ → Text → ℕ → Batch
new_batch org batch type n = record {
  id = batch;
  org_id = org;
  type = type;
  status = BatchStatus.running;
  total_count = pos n;
  pending_count = pos n;
  running_count = pos 0;
  success_count = pos 0;
  failed_count = pos 0;
  cancelled_count = pos 0;
  completed_at = none;
}

-- `requested` is the number of server ids asked for; `found` are the instances of the organization
-- among them. The batch's id is new.
unfoldable pub create_batch : Db → ℕ → ℕ → Text → Text → Fields → ℕ → List Instance → Option Db
unfolding new_runs new_batch
create_batch db org batch type job_type payload requested found =
    if not (length found == requested)
    then none
    else some (record {
      runs = new_runs org batch job_type payload found ++ db.runs;
      batches = new_batch org batch type (length found) ∷ db.batches;
    })
