-- ===== src/Scheduler/Store.antt =====
-- Schedules, their runs and the calls that queue them, the latest call first (scheduler.service.ts).
use mastermind_minecraft_ser.Prelude.{ℕ, Bool, Text, Option, List, ◌==◌}
use mastermind_minecraft_ser.Jobs.Store.{RunStatus}
use mastermind_minecraft_ser.Scheduler.Cron.{Calendar}

-- `toUpperCase`, the cron calendar, and the setting of a local time of day and of the next local day
pub record Clock : Type 0 where
  pub upper : Text → Text
  pub calendar : Calendar
  pub set_hours : ℕ → ℕ → ℕ → ℕ
  pub next_day : ℕ → ℕ

pub data RunOutcome : Type 0 where
  success skipped_busy skipped_stability_restart skipped_by_operator scheduler_failed : RunOutcome

pub data SkipReason : Type 0 where
  manual stability_restart : SkipReason

-- A schedule with what is read of its server and the `schedule_id` of its payload, if it has one; times
-- are milliseconds. The ends of the execution
-- window are hours and minutes.
pub record Schedule : Type 0 where
  pub id : ℕ
  pub org_id : ℕ
  pub server_instance_id : ℕ
  pub host_id : ℕ
  pub game_type : Text
  pub name : Text
  pub cron_expression : Text
  pub job_type : Text
  pub payload_schedule_id : Option ℕ
  pub enabled : Bool
  pub window_start : Option (ℕ × ℕ)
  pub window_end : Option (ℕ × ℕ)
  pub next_run_at : Option ℕ
  pub last_run_at : Option ℕ
  pub last_run_status : Option RunOutcome
  pub last_run_job_id : Option ℕ
  pub run_count : ℕ
  pub failure_count : ℕ
  pub skip_next_run : Bool
  pub skip_next_run_reason : Option SkipReason

-- A job of a schedule and its run.
pub record ScheduledRun : Type 0 where
  pub job_id : ℕ
  pub schedule_id : ℕ
  pub server_instance_id : ℕ
  pub host_id : ℕ
  pub type : Text
  pub status : RunStatus

-- A call that queues the schedule for a time.
pub record Entry : Type 0 where
  pub schedule_id : ℕ
  pub at : ℕ
  pub delay : ℕ

pub record Db : Type 0 where
  pub schedules : List Schedule
  pub runs : List ScheduledRun
  pub queued : List Entry

abbrev pub has_schedule_id : ℕ → Schedule → Bool
has_schedule_id id s = s.id == id
