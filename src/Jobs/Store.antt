-- ===== src/Jobs/Store.antt =====
-- The tables of jobs, runs and batches. Row ids, which the database makes and the code only
-- compares, are numbers. The code makes exactly one run for each job, so a run's row holds its job.
use mastermind_minecraft_ser.Prelude.{
  ℕ, ℤ, Bool, true, false, ◌&&◌, Text, Option, none, some, List, ◌==◌,
}
use mastermind_minecraft_ser.Json.{Fields}

pub data RunStatus : Type 0 where
  pending running success failed cancelled : RunStatus

abbrev pub is_status : RunStatus → RunStatus → Bool
is_status pending pending = true
is_status running running = true
is_status success success = true
is_status failed failed = true
is_status cancelled cancelled = true
is_status _ _ = false

-- Times are milliseconds.
pub record Run : Type 0 where
  pub id : ℕ
  pub job_id : ℕ
  pub org_id : ℕ
  pub batch_id : Option ℕ
  pub server_instance_id : Option ℕ
  pub type : Text
  pub payload : Fields
  pub host_id : ℕ
  pub status : RunStatus
  pub started_at : Option ℕ
  pub finished_at : Option ℕ
  pub updated_at : Option ℕ

pub data BatchStatus : Type 0 where
  running completed completed_with_failures cancelled : BatchStatus

pub record Batch : Type 0 where
  pub id : ℕ
  pub org_id : ℕ
  pub type : Text
  pub status : BatchStatus
  pub total_count : ℤ
  pub pending_count : ℤ
  pub running_count : ℤ
  pub success_count : ℤ
  pub failed_count : ℤ
  pub cancelled_count : ℤ
  pub completed_at : Option ℕ

pub record Db : Type 0 where
  pub runs : List Run
  pub batches : List Batch

abbrev pub has_run_id : ℕ → Run → Bool
has_run_id id r = r.id == id

abbrev pub has_batch_id : ℕ → Batch → Bool
has_batch_id id b = b.id == id

abbrev pub is_in : ℕ → Option ℕ → Bool
is_in id none = false
is_in id (some b) = b == id

-- the run stands in the batch with the status
abbrev pub in_batch : ℕ → RunStatus → Run → Bool
in_batch id s r = is_in id r.batch_id && is_status r.status s
