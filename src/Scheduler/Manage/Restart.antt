-- ===== src/Scheduler/Manage/Restart.antt =====
-- Skipping the next automatic restart (skipNextAutoRestart of scheduler.service.ts).
use mathlib.Core.Path.{subst}
use mastermind_minecraft_ser.Prelude.{
  ℕ, true, false, ◌≡◌, refl, sym, ap, ◌∙◌, same, same_iff, codes, some, same_refl, ◌⊎◌, find_first,
  update_first, find_first-update_first_self, arith, Bool-cases, Option-cases, inl, inr,
}
use mastermind_minecraft_ser.Scheduler.Store.{Clock, Schedule, Db, has_schedule_id, SkipReason}
use mastermind_minecraft_ser.Scheduler.Service.{
  Attempt, process_schedule_fire, is_restart_job, skip_status, write_schedule, set_skipped,
  compute_next_run,
}
use mastermind_minecraft_ser.Scheduler.Service.Steps.{
  process_schedule_fire-fires, fire_schedule-skips, finish-runs, finish-written, is_written,
}
use mastermind_minecraft_ser.Scheduler.Manage.{
  already_skipped, skipped, skip_next_auto_restart, nearest, is_upcoming_restart, set_skip,
}
use mastermind_minecraft_ser.Scheduler.Manage.Nearest.{
  IsKeyed, nearest-is_least, nearest-set_skip, nearest-found,
}

set_skip-upcoming :
    (now org server : ℕ) (reason : SkipReason) (s : Schedule)
    → is_upcoming_restart now org server (set_skip reason s) ≡ is_upcoming_restart now org server s
unfolding is_upcoming_restart
set_skip-upcoming now org server reason s = refl

-- what a skip that was accepted did
skipped-inv :
    (db next : Db) (now org server id : ℕ) (reason : SkipReason)
    → skip_next_auto_restart db now org server reason ≡ skipped id next
    → (s : Schedule) × (nearest (is_upcoming_restart now org server) db.schedules ≡ some s)
      × (s.skip_next_run ≡ false)
      × (s.id ≡ id)
      × (write_schedule s.id (set_skip reason) db ≡ next)
unfolding skip_next_auto_restart
skipped-inv db next now org server id reason h =
    elim (Option-cases (nearest (is_upcoming_restart now org server) db.schedules)) [
      | inl nothing ↦ absurd (ground arith)
      | inr (s, found) ↦ (s, found, ground arith, ground arith, ground arith)
    ]

-- Where ids are keys, a restart that is marked is still the nearest: a second request at the same time,
-- whatever its reason, is told that it is skipped already and changes nothing.
pub skip_next_auto_restart-once :
    (db next : Db) (now org server id : ℕ) (reason again : SkipReason)
    → IsKeyed db.schedules
    → skip_next_auto_restart db now org server reason ≡ skipped id next
    → skip_next_auto_restart next now org server again ≡ already_skipped id
unfolding skip_next_auto_restart
skip_next_auto_restart-once db next now org server id reason again v h =
    let (s, found, fresh, own, write) = skipped-inv db next now org server id reason h in
    subst (λ (d : Db). skip_next_auto_restart d now org server again ≡ already_skipped id) write
      (rw
        (
          nearest-set_skip (is_upcoming_restart now org server) reason db.schedules s
              (set_skip-upcoming now org server reason) v found,
          skip_next_auto_restart,
        )
        (ap already_skipped own))

restart_type :
    (now org server : ℕ) (s : Schedule)
    → is_upcoming_restart now org server s ≡ true
    → (s.job_type ≡ codes "SERVER_RESTART") ⊎ (s.job_type ≡ codes "SERVER_SAFE_RESTART")
unfolding is_upcoming_restart
restart_type now org server s h = elim (Bool-cases (same s.job_type (codes "SERVER_RESTART"))) [
  | inl e ↦ inl ((same_iff s.job_type (codes "SERVER_RESTART")).0 e)
  | inr miss ↦ inr ((same_iff s.job_type (codes "SERVER_SAFE_RESTART")).0 (ground (arith, miss, h)))
]

upcoming-restart :
    (c : Clock) (now org server : ℕ) (s : Schedule)
    → c.upper (codes "SERVER_RESTART") ≡ codes "SERVER_RESTART"
    → c.upper (codes "SERVER_SAFE_RESTART") ≡ codes "SERVER_SAFE_RESTART"
    → is_upcoming_restart now org server s ≡ true
    → (s.enabled ≡ true) × (is_restart_job c s.job_type ≡ true)
unfolding is_upcoming_restart is_restart_job
upcoming-restart c now org server s plain safe h =
    let kind = restart_type now org server s h in
    (
      ground arith,
      elim kind [
        | inl e ↦ rw (e, plain) refl
        | inr e ↦ rw (e, safe) (rw (same_refl (codes "SERVER_SAFE_RESTART")) refl)
      ],
    )

-- The next fire of a schedule that a skip has marked makes no run and takes the mark away, and the
-- one mark is spent, provided that the update of the schedule does not throw: what `toUpperCase` leaves of the two job types is the types themselves.
pub skip_next_auto_restart-spent :
    (c : Clock) (db next : Db) (now later org server id : ℕ) (reason : SkipReason) (a : Attempt)
    → is_written a ≡ true
    → c.upper (codes "SERVER_RESTART") ≡ codes "SERVER_RESTART"
    → c.upper (codes "SERVER_SAFE_RESTART") ≡ codes "SERVER_SAFE_RESTART"
    → IsKeyed db.schedules
    → skip_next_auto_restart db now org server reason ≡ skipped id next
    → let fired = process_schedule_fire c next later id a in
      (fired.db.runs ≡ db.runs)
      × (s : Schedule) × (find_first (has_schedule_id id) fired.db.schedules ≡ some s)
      × (s.skip_next_run ≡ false)
      × (s.last_run_status ≡ some (skip_status (some reason)))
skip_next_auto_restart-spent c db next now later org server id reason a written plain safe v h =
    let (s, found, fresh, own, write) = skipped-inv db next now org server id reason h in
    let (on, kind) =
      upcoming-restart c now org server s plain safe
        (nearest-is_least (is_upcoming_restart now org server) db.schedules s found).0 in
    let there : find_first (has_schedule_id id) next.schedules ≡ some (set_skip reason s) =
      subst (λ (i : ℕ). find_first (has_schedule_id i) next.schedules ≡ some (set_skip reason s))
        own
        (subst
          (λ (d : Db). find_first (has_schedule_id s.id) d.schedules ≡ some (set_skip reason s))
          write
          (find_first-update_first_self (has_schedule_id s.id) (set_skip reason) db.schedules s
            (λ x. refl)
            (nearest-found (is_upcoming_restart now org server) db.schedules s v found))) in
    let next_run = compute_next_run c (set_skip reason s) later in
    rw
      (process_schedule_fire-fires c next later (set_skip reason s) a id there on
        ∙ fire_schedule-skips c next later (set_skip reason s) a kind)
      (
        finish-runs (set_skip reason s).id later next_run (set_skipped later next_run) next a
            ∙ ap (λ (d : Db). d.runs) (sym write),
        set_skipped later next_run (set_skip reason s),
        ap (find_first (has_schedule_id id)) (
              finish-written (set_skip reason s).id later next_run (set_skipped later next_run) next
                a written)
            ∙ subst
                (λ (i : ℕ).
                  find_first (has_schedule_id id)
                    (update_first (has_schedule_id i) (set_skipped later next_run) next.schedules)
                  ≡ some (set_skipped later next_run (set_skip reason s)))
                (sym own)
                (find_first-update_first_self (has_schedule_id id) (set_skipped later next_run)
                  next.schedules (set_skip reason s) (λ x. refl) there),
        refl,
        refl,
      )
