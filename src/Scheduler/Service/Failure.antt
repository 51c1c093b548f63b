-- ===== src/Scheduler/Service/Failure.antt =====
-- The failure count of a schedule (the worker of scheduler.service.ts).
use mathlib.Core.Path.{subst}
use mastermind_minecraft_ser.Prelude.{
  ℕ, ◌+◌, Bool, true, false, ◌&&◌, ◌≡◌, refl, sym, ◌∙◌, Option, none, some, any, ==_iff, find_first,
  find_first-holds, find_first-update_first_self, arith,
}
use mastermind_minecraft_ser.Scheduler.Store.{Clock, Schedule, Db, has_schedule_id}
use mastermind_minecraft_ser.Scheduler.Service.{
  Attempt, goes_through, fails_at_job, fails_at_run, fails_at_queue, fails_at_requeue, unwritten,
  unqueued, fire_job, process_schedule_fire, effective_job_type, is_busy, is_restart_job,
  set_failed, count_failure, handle_worker_failure, run_worker, compute_next_run,
}
use mastermind_minecraft_ser.Scheduler.Service.Steps.{
  process_schedule_fire-fires, fire_schedule-goes,
}

abbrev pub is_failure : Attempt → Bool
is_failure (goes_through job) = false
is_failure fails_at_job = true
is_failure fails_at_run = true
is_failure (fails_at_queue job) = true
is_failure (fails_at_requeue job) = false
is_failure (unwritten job) = false
is_failure (unqueued job) = false

fire_job-failure_count :
    (c : Clock) (db : Db) (now : ℕ) (s : Schedule) (next : Option ℕ) (a : Attempt)
    → is_failure a ≡ true
    → find_first (has_schedule_id s.id) db.schedules ≡ some s
    → let fired = fire_job c db now s next a in
      (fired.threw ≡ true)
      × (r : Schedule) × (find_first (has_schedule_id s.id) fired.db.schedules ≡ some r)
      × (r.failure_count ≡ s.failure_count + 1)
      × (r.run_count ≡ s.run_count)
unfolding fire_job
fire_job-failure_count c db now s next (goes_through job) h found = absurd (ground arith)
fire_job-failure_count c db now s next (fails_at_requeue job) h found = absurd (ground arith)
fire_job-failure_count c db now s next (unwritten job) h found = absurd (ground arith)
fire_job-failure_count c db now s next (unqueued job) h found = absurd (ground arith)
fire_job-failure_count c db now s next fails_at_job h found = (
  refl,
  set_failed now none next s,
  find_first-update_first_self (has_schedule_id s.id) _ db.schedules s (λ x. refl) found,
  refl,
  refl,
)
fire_job-failure_count c db now s next fails_at_run h found = (
  refl,
  set_failed now none next s,
  find_first-update_first_self (has_schedule_id s.id) _ db.schedules s (λ x. refl) found,
  refl,
  refl,
)
fire_job-failure_count c db now s next (fails_at_queue job) h found = (
  refl,
  set_failed now (some job) next s,
  find_first-update_first_self (has_schedule_id s.id) _ db.schedules s (λ x. refl) found,
  refl,
  refl,
)

-- A fire of an enabled schedule that is neither skipped nor busy and fails in making its job, at whichever
-- call, while the catch block goes through, is counted as two failures of the schedule and as no run.
pub run_worker-failure_count :
    (c : Clock) (db : Db) (now id : ℕ) (s : Schedule) (a : Attempt)
    → is_failure a ≡ true
    → find_first (has_schedule_id id) db.schedules ≡ some s
    → s.enabled ≡ true
    → (s.skip_next_run && is_restart_job c s.job_type) ≡ false
    → any (is_busy s.id s.server_instance_id (effective_job_type c s)) db.runs ≡ false
    → (r : Schedule) × (find_first (has_schedule_id id) (run_worker c db now id a).schedules
        ≡ some r)
      × (r.failure_count ≡ s.failure_count + 2)
      × (r.run_count ≡ s.run_count)
unfolding run_worker handle_worker_failure
run_worker-failure_count c db now id s a failed found on run free =
    let own : s.id ≡ id =
      (==_iff s.id id).0 (find_first-holds (has_schedule_id id) db.schedules s found) in
    let (threw, r, there, counted, runs) =
      fire_job-failure_count c db now s (compute_next_run c s now) a failed
        (subst (λ (i : ℕ). find_first (has_schedule_id i) db.schedules ≡ some s) (sym own) found) in
    let fires : process_schedule_fire c db now id a
        ≡ fire_job c db now s (compute_next_run c s now) a =
      process_schedule_fire-fires c db now s a id found on
      ∙ fire_schedule-goes c db now s a run free in
    (
      count_failure r,
      rw (run_worker, fires, threw, handle_worker_failure)
          (find_first-update_first_self (has_schedule_id id) count_failure
            (fire_job c db now s (compute_next_run c s now) a).db.schedules r (λ x. refl)
            (subst
              (λ (i : ℕ).
                find_first (has_schedule_id i)
                  (fire_job c db now s (compute_next_run c s now) a).db.schedules
                ≡ some r)
              own there)),
      omega (arith, counted),
      runs,
    )
