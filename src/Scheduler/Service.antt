-- ===== src/Scheduler/Service.antt =====
-- The firing of schedules (scheduler.service.ts). The delayed queue itself calls `processScheduleFire` when
-- an entry is due. The current time, new ids, and where a database or queue call throws are arguments.
pub mod Steps
pub mod Fire
pub mod Failure
use mastermind_minecraft_ser.Prelude.{
  ℕ, zero, suc, ◌+◌, ◌-◌, Bool, true, false, ◌&&◌, ◌||◌, not, Text, codes, same, Option, none, some,
  List, [], ◌∷◌, any, ltb, leb, ◌==◌, if◌then◌else◌, find_first, update_first,
}
use mastermind_minecraft_ser.Jobs.Store.{RunStatus, is_status}
use mastermind_minecraft_ser.Scheduler.Store.{
  Clock, RunOutcome, success, skipped_busy, skipped_stability_restart, skipped_by_operator,
  scheduler_failed, SkipReason, manual, stability_restart, Schedule, ScheduledRun, Entry, Db,
  has_schedule_id,
}
use mastermind_minecraft_ser.Scheduler.Cron.{
  Calendar, Clamped, as_is, today, tomorrow, get_next_cron_run, clamp_to_execution_window,
}

unfoldable pub clamped_time : Clock → ℕ → Clamped → ℕ
clamped_time c t as_is = t
clamped_time c t (today h m) = c.set_hours t h m
clamped_time c t (tomorrow h m) = c.set_hours (c.next_day t) h m

unfoldable pub clamp_run : Clock → Schedule → ℕ → ℕ
unfolding clamped_time clamp_to_execution_window
clamp_run c s t =
    let now = c.calendar.moment t in
    clamped_time c t (clamp_to_execution_window now.hour now.minute s.window_start s.window_end)

unfoldable pub compute_next_run : Clock → Schedule → ℕ → Option ℕ
unfolding clamp_run get_next_cron_run
compute_next_run c s from = elim (get_next_cron_run c.calendar s.cron_expression from) [
  | none ↦ none
  | some t ↦ some (clamp_run c s t)
]

-- `Math.max(0, next - now)`
abbrev pub entry : ℕ → ℕ → ℕ → Entry
entry id now t = record { schedule_id = id; at = t; delay = t - now }

unfoldable pub enqueue : ℕ → ℕ → Option ℕ → List Entry → List Entry
enqueue id now none q = q
enqueue id now (some t) q = entry id now t ∷ q

-- `nextRun ?? undefined` leaves the column alone
unfoldable pub keep_unless : Option ℕ → Option ℕ → Option ℕ
keep_unless none old = old
keep_unless (some t) old = some t

unfoldable pub is_restart_job : Clock → Text → Bool
unfolding same
is_restart_job c t =
    same (c.upper t) (codes "SERVER_RESTART") || same (c.upper t) (codes "SERVER_SAFE_RESTART")

unfoldable pub effective_job_type : Clock → Schedule → Text
unfolding same
effective_job_type c s =
    if same s.game_type (codes "minecraft") && same (c.upper s.job_type) (codes "SERVER_RESTART")
    then codes "SERVER_SAFE_RESTART"
    else s.job_type

abbrev pub is_active : RunStatus → Bool
is_active s = is_status s RunStatus.pending || is_status s RunStatus.running

-- a run of the schedule that waits or runs, with the same server and type
abbrev pub is_busy : ℕ → ℕ → Text → ScheduledRun → Bool
is_busy id server type r =
    is_active r.status && r.server_instance_id == server && same r.type type && r.schedule_id == id

abbrev pub skip_status : Option SkipReason → RunOutcome
skip_status (some stability_restart) = skipped_stability_restart
skip_status _ = skipped_by_operator

abbrev pub write_schedule : ℕ → (Schedule → Schedule) → Db → Db
write_schedule id f db = record db { schedules = update_first (has_schedule_id id) f db.schedules }

abbrev pub queue_next : ℕ → ℕ → Option ℕ → Db → Db
queue_next id now next db = record db { queued = enqueue id now next db.queued }

abbrev pub set_skipped : ℕ → Option ℕ → Schedule → Schedule
set_skipped now next s = record s {
  last_run_at = some now;
  last_run_status = some (skip_status s.skip_next_run_reason);
  next_run_at = keep_unless next s.next_run_at;
  skip_next_run = false;
  skip_next_run_reason = none;
}

abbrev pub set_busy : ℕ → Option ℕ → Schedule → Schedule
set_busy now next s = record s {
  last_run_at = some now;
  last_run_status = some skipped_busy;
  next_run_at = keep_unless next s.next_run_at;
}

abbrev pub set_success : ℕ → ℕ → Option ℕ → Schedule → Schedule
set_success now job next s = record s {
  last_run_at = some now;
  last_run_status = some success;
  last_run_job_id = some job;
  run_count = s.run_count + 1;
  next_run_at = keep_unless next s.next_run_at;
}

abbrev pub set_failed : ℕ → Option ℕ → Option ℕ → Schedule → Schedule
set_failed now job next s = record s {
  last_run_at = some now;
  last_run_status = some scheduler_failed;
  last_run_job_id = job;
  failure_count = s.failure_count + 1;
  next_run_at = keep_unless next s.next_run_at;
}

-- How far a fire comes: through, or up to the call that throws. `fails_at_queue` is the queue of the
-- organization or the update of the schedule after it, `fails_at_requeue` the queueing of the next fire
-- inside the try block. The last two are the update of the schedule and the queueing of its next fire
-- where nothing catches them: when a fire is skipped or busy, and in the catch block, with the job
-- when its run was made before.
pub data Attempt : Type 0 where
  goes_through : ℕ → Attempt
  fails_at_job : Attempt
  fails_at_run : Attempt
  fails_at_queue : ℕ → Attempt
  fails_at_requeue : ℕ → Attempt
  unwritten : Option ℕ → Attempt
  unqueued : Option ℕ → Attempt

-- the configured payload is spread after the schedule's own id
unfoldable pub payload_schedule : Option ℕ → ℕ → ℕ
payload_schedule none id = id
payload_schedule (some own) id = own

-- the run, with the `schedule_id` of its job's payload
abbrev pub new_run : Clock → Schedule → ℕ → ScheduledRun
new_run c s job = record {
  job_id = job;
  schedule_id = payload_schedule s.payload_schedule_id s.id;
  server_instance_id = s.server_instance_id;
  host_id = s.host_id;
  type = effective_job_type c s;
  status = RunStatus.pending;
}

abbrev pub add_run : ScheduledRun → Db → Db
add_run r db = record db { runs = r ∷ db.runs }

-- What the worker is left with; `threw` makes it call `handleWorkerFailure`.
pub record Fired : Type 0 where
  pub db : Db
  pub threw : Bool

-- the update of the schedule and the queueing of its next fire, where nothing catches them
unfoldable pub finish : Attempt → ℕ → ℕ → Option ℕ → (Schedule → Schedule) → Db → Fired
unfolding enqueue
finish (unwritten job) id now next f db = record { db = db; threw = true }
finish (unqueued job) id now none f db = record { db = write_schedule id f db; threw = false }
finish (unqueued job) id now (some t) f db = record { db = write_schedule id f db; threw = true }
finish a id now next f db = record {
  db = queue_next id now next (write_schedule id f db);
  threw = false;
}

abbrev pub add_created : Clock → Schedule → Option ℕ → Db → Db
add_created c s job db = elim job [ none ↦ db | some j ↦ add_run (new_run c s j) db ]

-- `createdJobId` is set once the run is there too
unfoldable pub fire_job : Clock → Db → ℕ → Schedule → Option ℕ → Attempt → Fired
unfolding enqueue keep_unless effective_job_type payload_schedule
fire_job c db now s next (goes_through job) = record {
  db =
      queue_next s.id now next
        (write_schedule s.id (set_success now job next) (add_run (new_run c s job) db));
  threw = false;
}
fire_job c db now s next fails_at_job = record {
  db = queue_next s.id now next (write_schedule s.id (set_failed now none next) db);
  threw = true;
}
fire_job c db now s next fails_at_run = record {
  db = queue_next s.id now next (write_schedule s.id (set_failed now none next) db);
  threw = true;
}
fire_job c db now s next (fails_at_queue job) = record {
  db =
      queue_next s.id now next
        (write_schedule s.id (set_failed now (some job) next) (add_run (new_run c s job) db));
  threw = true;
}
fire_job c db now s none (fails_at_requeue job) = record {
  db = write_schedule s.id (set_success now job none) (add_run (new_run c s job) db);
  threw = false;
}
fire_job c db now s (some t) (fails_at_requeue job) = record {
  db = queue_next s.id now (some t) (
      write_schedule s.id (set_failed now (some job) (some t))
        (write_schedule s.id (set_success now job (some t)) (add_run (new_run c s job) db)));
  threw = true;
}
fire_job c db now s next (unwritten job) = record { db = add_created c s job db; threw = true }
fire_job c db now s next (unqueued job) = record {
  db = write_schedule s.id (set_failed now job next) (add_created c s job db);
  threw = true;
}

unfoldable pub fire_schedule : Clock → Db → ℕ → Schedule → Attempt → Fired
unfolding fire_job finish compute_next_run is_restart_job effective_job_type enqueue keep_unless
fire_schedule c db now s attempt =
    let next = compute_next_run c s now in
    if s.skip_next_run && is_restart_job c s.job_type
    then finish attempt s.id now next (set_skipped now next) db
    else if any (is_busy s.id s.server_instance_id (effective_job_type c s)) db.runs
    then finish attempt s.id now next (set_busy now next) db
    else fire_job c db now s next attempt

unfoldable pub process_schedule_fire : Clock → Db → ℕ → ℕ → Attempt → Fired
unfolding fire_schedule
process_schedule_fire c db now id attempt = elim (find_first (has_schedule_id id) db.schedules) [
  | none ↦ record { db = db; threw = false }
  | some s ↦
      if s.enabled then fire_schedule c db now s attempt else record { db = db; threw = false }
]

abbrev pub count_failure : Schedule → Schedule
count_failure s = record s {
  last_run_status = some scheduler_failed;
  failure_count = s.failure_count + 1;
}

unfoldable pub handle_worker_failure : Db → ℕ → Db
handle_worker_failure db id = write_schedule id count_failure db

-- the worker, with its listener of failures
unfoldable pub run_worker : Clock → Db → ℕ → ℕ → Attempt → Db
unfolding process_schedule_fire handle_worker_failure
run_worker c db now id attempt =
    let fired = process_schedule_fire c db now id attempt in
    if fired.threw then handle_worker_failure fired.db id else fired.db
