-- ===== src/Scheduler/Examples.antt =====
-- Schedules on concrete input.
use mathlib.Core.Path.{subst}
use mathlib.Core.Option.{some-injective}
use mastermind_minecraft_ser.Prelude.{◌+◌, ◌*◌, ◌/◌, ◌%◌, ◌≡◌, refl, codes, some, [], ◌∷◌, arith}
use mastermind_minecraft_ser.Scheduler.Cron.{Calendar, Cron, every, only, parse_set}
use mastermind_minecraft_ser.Prelude.{
  true, false, ◌*◌, ◌+◌, none, find_first, update_first, total, same,
}
use mastermind_minecraft_ser.Scheduler.Store.{Clock, Schedule, Db, has_schedule_id, manual}
use mastermind_minecraft_ser.Scheduler.Service.{
  goes_through, fails_at_run, fails_at_queue, compute_next_run, process_schedule_fire, run_worker,
  skip_status,
}
use mastermind_minecraft_ser.Scheduler.Service.Fire.{
  IsUnstacked, process_schedule_fire-continues, process_schedule_fire-IsUnstacked,
}
use mastermind_minecraft_ser.Scheduler.Service.Failure.{run_worker-failure_count}
use mastermind_minecraft_ser.Scheduler.Manage.{set_skip, skipped, skip_next_auto_restart}
use mastermind_minecraft_ser.Scheduler.Manage.Restart.{skip_next_auto_restart-spent}

-- a calendar whose every day is the first of January, a Sunday
abbrev flat : Calendar
flat = record {
  moment = λ t. record {
    minute = t / 60000 % 60;
    hour = t / 3600000 % 24;
    day = 1;
    month = 1;
    weekday = 0;
  };
}

quarters : parse_set (codes "*/15,7") 0 59 ≡ some (only (0 ∷ 15 ∷ 30 ∷ 45 ∷ 7 ∷ []))
unfolding parse_set
quarters = refl

abbrev half_past_three : Cron
half_past_three = record {
  minutes = only (30 ∷ []);
  hours = only (3 ∷ []);
  days = every;
  months = every;
  weekdays = every;
}

abbrev clock : Clock
clock = record {
  upper = λ t. t;
  calendar = flat;
  set_hours = λ t h m. t;
  next_day = λ t. t + 86400000;
}

-- a restart each day at half past three
abbrev nightly : Schedule
nightly = record {
  id = 7;
  org_id = 1;
  server_instance_id = 2;
  host_id = 3;
  game_type = codes "minecraft";
  name = codes "Nightly";
  cron_expression = codes "30  3 * * *";
  job_type = codes "SERVER_RESTART";
  payload_schedule_id = none;
  enabled = true;
  window_start = none;
  window_end = none;
  next_run_at = some 12600000;
  last_run_at = none;
  last_run_status = none;
  last_run_job_id = none;
  run_count = 0;
  failure_count = 0;
  skip_next_run = false;
  skip_next_run_reason = none;
}

abbrev tables : Db
tables = record { schedules = nightly ∷ []; runs = []; queued = [] }

finds : find_first (has_schedule_id 7) tables.schedules ≡ some nightly
unfolding find_first
finds = refl

next_run : compute_next_run clock nightly 12540000 ≡ some 12600000
unfolding compute_next_run
next_run = refl

process_schedule_fire-continues_example :
    (process_schedule_fire clock tables 12540000 7 fails_at_run).db.queued
    ≡ record { schedule_id = 7; at = 12600000; delay = 60000 } ∷ []
process_schedule_fire-continues_example =
    process_schedule_fire-continues clock tables 12540000 7 12600000 nightly fails_at_run refl finds
      refl next_run

own_id :
    (s : Schedule)
    → find_first (has_schedule_id 7) tables.schedules ≡ some s
    → s.payload_schedule_id ≡ none
own_id s h =
    subst (λ (r : Schedule). r.payload_schedule_id ≡ none)
      (some-injective nightly s (rw finds at h)) refl

process_schedule_fire-IsUnstacked_example :
    IsUnstacked (process_schedule_fire clock tables 12540000 7 (goes_through 50)).db
unfolding total
process_schedule_fire-IsUnstacked_example =
    process_schedule_fire-IsUnstacked clock tables 12540000 7 (goes_through 50)
      (λ id server type. omega arith) own_id

run_worker-failure_count_example :
    (r : Schedule) × (find_first
        (has_schedule_id 7)
        (run_worker clock tables 12540000 7 (fails_at_queue 50)).schedules
      ≡ some r)
    × (r.failure_count ≡ 2)
    × (r.run_count ≡ 0)
run_worker-failure_count_example =
    run_worker-failure_count clock tables 12540000 7 nightly (fails_at_queue 50) refl finds refl
      refl refl

abbrev marked : Db
marked = record tables { schedules = set_skip manual nightly ∷ [] }

skips : skip_next_auto_restart tables 12540000 1 2 manual ≡ skipped 7 marked
unfolding skip_next_auto_restart update_first same
skips = refl

skip_next_auto_restart-spent_example :
    let fired = process_schedule_fire clock marked 12600000 7 (goes_through 50) in
    (fired.db.runs ≡ [])
    × (s : Schedule) × (find_first (has_schedule_id 7) fired.db.schedules ≡ some s)
    × (s.skip_next_run ≡ false)
    × (s.last_run_status ≡ some (skip_status (some manual)))
skip_next_auto_restart-spent_example =
    skip_next_auto_restart-spent clock tables marked 12540000 12600000 1 2 7 manual
      (goes_through 50) refl refl refl (refl, tt) skips
