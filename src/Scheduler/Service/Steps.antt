-- ===== src/Scheduler/Service/Steps.antt =====
-- Which branch a fire takes.
use mastermind_minecraft_ser.Prelude.{
  Bool, true, false, ◌&&◌, ◌≡◌, refl, ℕ, Option, Option-cases, inl, inr, arith, ap, ◌∙◌, some, any,
  if◌then◌else◌, find_first,
}
use mastermind_minecraft_ser.Scheduler.Store.{Clock, Schedule, Db, has_schedule_id}
use mastermind_minecraft_ser.Scheduler.Service.{
  Attempt, Fired, fire_job, fire_schedule, process_schedule_fire, effective_job_type, is_busy,
  is_restart_job, finish, unwritten, unqueued, goes_through, fails_at_job, fails_at_run,
  fails_at_queue, fails_at_requeue, queue_next, write_schedule, set_skipped, set_busy,
  compute_next_run,
}

-- the last two calls, where nothing catches them, go through
abbrev pub is_through : Attempt → Bool
is_through (unwritten job) = false
is_through (unqueued job) = false
is_through _ = true

-- the last write of the schedule, where nothing catches it, goes through
abbrev pub is_written : Attempt → Bool
is_written (unwritten job) = false
is_written _ = true

module _ (id now : ℕ) (next : Option ℕ) (f : Schedule → Schedule) (db : Db) where
  pub finish-through :
      (a : Attempt)
      → is_through a ≡ true
      → (finish a id now next f db).db ≡ queue_next id now next (write_schedule id f db)
  unfolding finish
  finish-through (goes_through job) h = refl
  finish-through fails_at_job h = refl
  finish-through fails_at_run h = refl
  finish-through (fails_at_queue job) h = refl
  finish-through (fails_at_requeue job) h = refl
  finish-through (unwritten job) h = absurd (ground arith)
  finish-through (unqueued job) h = absurd (ground arith)

  pub finish-written :
      (a : Attempt)
      → is_written a ≡ true
      → (finish a id now next f db).db.schedules ≡ (write_schedule id f db).schedules
  unfolding finish
  finish-written (goes_through job) h = refl
  finish-written fails_at_job h = refl
  finish-written fails_at_run h = refl
  finish-written (fails_at_queue job) h = refl
  finish-written (fails_at_requeue job) h = refl
  finish-written (unwritten job) h = absurd (ground arith)
  finish-written (unqueued job) h = elim (Option-cases next) [
    | inl e ↦ rw (e, finish) refl
    | inr (t, e) ↦ rw (e, finish) refl
  ]

  pub finish-runs : (a : Attempt) → (finish a id now next f db).db.runs ≡ db.runs
  unfolding finish
  finish-runs (goes_through job) = refl
  finish-runs fails_at_job = refl
  finish-runs fails_at_run = refl
  finish-runs (fails_at_queue job) = refl
  finish-runs (fails_at_requeue job) = refl
  finish-runs (unwritten job) = refl
  finish-runs (unqueued job) = elim (Option-cases next) [
    | inl e ↦ rw (e, finish) refl
    | inr (t, e) ↦ rw (e, finish) refl
  ]

module _ (c : Clock) (db : Db) (now : ℕ) (s : Schedule) (a : Attempt) where
  pub process_schedule_fire-fires :
      (id : ℕ)
      → find_first (has_schedule_id id) db.schedules ≡ some s
      → s.enabled ≡ true
      → process_schedule_fire c db now id a ≡ fire_schedule c db now s a
  unfolding process_schedule_fire
  process_schedule_fire-fires id found on =
      rw (found, process_schedule_fire)
        (ap
          (λ (b : Bool).
            if b then fire_schedule c db now s a else record { db = db; threw = false })
          on)

  abbrev skipping : Fired
  skipping =
      finish a s.id now (compute_next_run c s now) (set_skipped now (compute_next_run c s now)) db

  abbrev waiting : Fired
  waiting =
      finish a s.id now (compute_next_run c s now) (set_busy now (compute_next_run c s now)) db

  abbrev going : Fired
  going = fire_job c db now s (compute_next_run c s now) a

  pub fire_schedule-skips :
      (s.skip_next_run && is_restart_job c s.job_type) ≡ true
      → fire_schedule c db now s a ≡ skipping
  unfolding fire_schedule
  fire_schedule-skips skip =
      ap
        (λ (b : Bool).
          if b
          then skipping
          else if any (is_busy s.id s.server_instance_id (effective_job_type c s)) db.runs
          then waiting
          else going)
        skip

  pub fire_schedule-waits :
      (s.skip_next_run && is_restart_job c s.job_type) ≡ false
      → any (is_busy s.id s.server_instance_id (effective_job_type c s)) db.runs ≡ true
      → fire_schedule c db now s a ≡ waiting
  unfolding fire_schedule
  fire_schedule-waits run busy =
      ap
        (λ (b : Bool).
          if b
          then skipping
          else if any (is_busy s.id s.server_instance_id (effective_job_type c s)) db.runs
          then waiting
          else going)
        run
      ∙ ap (λ (b : Bool). if b then waiting else going) busy

  pub fire_schedule-goes :
      (s.skip_next_run && is_restart_job c s.job_type) ≡ false
      → any (is_busy s.id s.server_instance_id (effective_job_type c s)) db.runs ≡ false
      → fire_schedule c db now s a ≡ going
  unfolding fire_schedule
  fire_schedule-goes run free =
      ap
        (λ (b : Bool).
          if b
          then skipping
          else if any (is_busy s.id s.server_instance_id (effective_job_type c s)) db.runs
          then waiting
          else going)
        run
      ∙ ap (λ (b : Bool). if b then waiting else going) free
