-- ===== src/Scheduler/Manage.antt =====
-- The reading of all schedules at the start, skipping the next restart, and the making and editing of
-- schedules (scheduler.service.ts). The current time and new ids are arguments.
pub mod Nearest
pub mod Restart
use mastermind_minecraft_ser.Prelude.{
  ℕ, zero, suc, ◌+◌, ◌-◌, Bool, true, false, ◌&&◌, ◌||◌, not, Text, codes, same, Option, none, some,
  List, [], ◌∷◌, any, ltb, leb, ◌==◌, if◌then◌else◌, find_first, update_first,
}
use mastermind_minecraft_ser.Jobs.Store.{RunStatus, is_status}
use mastermind_minecraft_ser.Scheduler.Store.{
  Clock, RunOutcome, success, skipped_busy, skipped_stability_restart, skipped_by_operator,
  scheduler_failed, SkipReason, manual, stability_restart, Schedule, ScheduledRun, Entry, Db,
  has_schedule_id,
}
use mastermind_minecraft_ser.Scheduler.Cron.{Calendar, get_next_cron_run}
use mastermind_minecraft_ser.Scheduler.Service.{compute_next_run, entry, enqueue, write_schedule}

abbrev pub set_next : ℕ → Schedule → Schedule
set_next t s = record s { next_run_at = some t }

-- the loop over the enabled schedules
unfoldable pub hydrate : Clock → Db → ℕ → List Schedule → Db
unfolding compute_next_run
hydrate c db now [] = db
hydrate c db now (s ∷ ss) =
    if not s.enabled then hydrate c db now ss else elim (compute_next_run c s now) [
      | none ↦ hydrate c db now ss
      | some t ↦
          hydrate c
            (write_schedule s.id (set_next t) (record db { queued = entry s.id now t ∷ db.queued }))
            now ss
    ]

unfoldable pub hydrate_schedules : Clock → Db → ℕ → Db
unfolding hydrate
hydrate_schedules c db now = hydrate c db now db.schedules

unfoldable pub is_due_from : ℕ → Option ℕ → Bool
is_due_from now none = false
is_due_from now (some t) = leb now t

-- an enabled restart of the server that is still to come
unfoldable pub is_upcoming_restart : ℕ → ℕ → ℕ → Schedule → Bool
unfolding same is_due_from
is_upcoming_restart now org server s =
    s.org_id == org
    && s.server_instance_id == server
    && s.enabled
    && (same s.job_type (codes "SERVER_RESTART") || same s.job_type (codes "SERVER_SAFE_RESTART"))
    && is_due_from now s.next_run_at

unfoldable pub comes_before : Option ℕ → Option ℕ → Bool
comes_before none b = true
comes_before (some a) none = false
comes_before (some a) (some b) = leb a b

unfoldable pub nearer : Schedule → Option Schedule → Schedule
unfolding comes_before
nearer s none = s
nearer s (some r) = if comes_before s.next_run_at r.next_run_at then s else r

-- `findFirst` in the order of `nextRunAt`
unfoldable pub nearest : (Schedule → Bool) → List Schedule → Option Schedule
unfolding nearer
nearest p [] = none
nearest p (s ∷ ss) = let rest = nearest p ss in if p s then some (nearer s rest) else rest

abbrev pub set_skip : SkipReason → Schedule → Schedule
set_skip reason s = record s { skip_next_run = true; skip_next_run_reason = some reason }

pub data Skip : Type 0 where
  no_scheduled_restart : Skip
  already_skipped : ℕ → Skip
  skipped : ℕ → Db → Skip

unfoldable pub skip_next_auto_restart : Db → ℕ → ℕ → ℕ → SkipReason → Skip
unfolding nearest is_upcoming_restart
skip_next_auto_restart db now org server reason =
    elim (nearest (is_upcoming_restart now org server) db.schedules) [
      | none ↦ no_scheduled_restart
      | some s ↦
          if s.skip_next_run
          then already_skipped s.id
          else skipped s.id (write_schedule s.id (set_skip reason) db)
    ]

pub record NewSchedule : Type 0 where
  pub id : ℕ
  pub server_instance_id : ℕ
  pub host_id : ℕ
  pub game_type : Text
  pub name : Text
  pub cron_expression : Text
  pub job_type : Text
  pub payload_schedule_id : Option ℕ
  pub enabled : Option Bool

unfoldable pub or_enabled : Option Bool → Bool
or_enabled none = true
or_enabled (some b) = b

unfoldable pub schedule_of : ℕ → NewSchedule → ℕ → Schedule
unfolding or_enabled
schedule_of org n next = record {
  id = n.id;
  org_id = org;
  server_instance_id = n.server_instance_id;
  host_id = n.host_id;
  game_type = n.game_type;
  name = n.name;
  cron_expression = n.cron_expression;
  job_type = n.job_type;
  payload_schedule_id = n.payload_schedule_id;
  enabled = or_enabled n.enabled;
  window_start = none;
  window_end = none;
  next_run_at = some next;
  last_run_at = none;
  last_run_status = none;
  last_run_job_id = none;
  run_count = 0;
  failure_count = 0;
  skip_next_run = false;
  skip_next_run_reason = none;
}

-- none: the expression is refused
unfoldable pub create_schedule : Clock → Db → ℕ → ℕ → NewSchedule → Option Db
unfolding schedule_of get_next_cron_run or_enabled
create_schedule c db now org n = elim (get_next_cron_run c.calendar n.cron_expression now) [
  | none ↦ none
  | some t ↦ some (record db {
    schedules = schedule_of org n t ∷ db.schedules;
    queued = if or_enabled n.enabled then entry n.id now t ∷ db.queued else db.queued;
  })
]

unfoldable pub or_old {ℓ} : {A : Type ℓ} → Option A → A → A
or_old none a = a
or_old (some b) a = b

-- What an edit may give; an expression that is given is not empty.
pub record Edit : Type 0 where
  pub enabled : Option Bool
  pub name : Option Text
  pub cron_expression : Option Text
  pub job_type : Option Text

unfoldable pub edited : Edit → Option ℕ → Schedule → Schedule
unfolding or_old
edited e next s = record s {
  enabled = or_old e.enabled s.enabled;
  name = or_old e.name s.name;
  cron_expression = or_old e.cron_expression s.cron_expression;
  job_type = or_old e.job_type s.job_type;
  next_run_at = next;
}

-- an entry of the queue with the schedule's id and time, taken out
unfoldable pub unqueue : ℕ → Option ℕ → List Entry → List Entry
unqueue id none q = q
unqueue id (some t) [] = []
unqueue id (some t) (e ∷ q) =
    let rest = unqueue id (some t) q in if e.schedule_id == id && e.at == t then rest else e ∷ rest

unfoldable pub save_edit : Db → ℕ → Edit → Option ℕ → Schedule → Db
unfolding edited unqueue enqueue or_old
save_edit db now e next s =
    let left = unqueue s.id s.next_run_at db.queued in
    record db {
      schedules = update_first (has_schedule_id s.id) (edited e next) db.schedules;
      queued = if or_old e.enabled s.enabled then enqueue s.id now next left else left;
    }

pub data EditResult : Type 0 where
  saved : Db → EditResult
  not_found invalid_cron : EditResult

unfoldable pub update_schedule : Clock → Db → ℕ → ℕ → ℕ → Edit → EditResult
unfolding save_edit get_next_cron_run
update_schedule c db now org id e = elim (find_first (has_schedule_id id) db.schedules) [
  | none ↦ not_found
  | some s ↦ if not (s.org_id == org) then not_found else elim e.cron_expression [
    | none ↦ saved (save_edit db now e s.next_run_at s)
    | some expression ↦ elim (get_next_cron_run c.calendar expression now) [
      | none ↦ invalid_cron
      | some t ↦ saved (save_edit db now e (some t) s)
    ]
  ]
]
