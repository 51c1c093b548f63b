-- ===== src/Scheduler/Service/Fire.antt =====
-- What a fire queues and which runs it makes (processScheduleFire of scheduler.service.ts).
use mathlib.Core.Path.{subst}
use mastermind_minecraft_ser.Prelude.{
  ℕ, ◌≤◌, true, false, ◌&&◌, ◌≡◌, refl, ap, ◌∙◌, Text, same_iff, Option, none, sym, some, List, [],
  ◌∷◌, any, ==_iff, if◌then◌else◌, find_first, total, find_first-holds, arith, Bool-cases,
  Option-cases, inl, inr,
}
use mastermind_minecraft_ser.Scheduler.Store.{Clock, Schedule, ScheduledRun, Db, has_schedule_id}
use mastermind_minecraft_ser.Scheduler.Service.{
  compute_next_run, enqueue, entry, is_restart_job, effective_job_type, is_busy, Attempt,
  goes_through, fails_at_job, fails_at_run, fails_at_queue, fails_at_requeue, unwritten, unqueued,
  payload_schedule, set_skipped, set_busy, finish, new_run, fire_job, fire_schedule,
  process_schedule_fire,
}
use mastermind_minecraft_ser.Scheduler.Service.Steps.{
  is_through, finish-through, finish-runs, process_schedule_fire-fires, fire_schedule-skips,
  fire_schedule-waits, fire_schedule-goes,
}

fire_job-queued :
    (c : Clock) (db : Db) (now t : ℕ) (s : Schedule) (a : Attempt)
    → is_through a ≡ true
    → (fire_job c db now s (some t) a).db.queued ≡ entry s.id now t ∷ db.queued
unfolding fire_job enqueue
fire_job-queued c db now t s (goes_through job) h = refl
fire_job-queued c db now t s fails_at_job h = refl
fire_job-queued c db now t s fails_at_run h = refl
fire_job-queued c db now t s (fails_at_queue job) h = refl
fire_job-queued c db now t s (fails_at_requeue job) h = refl
fire_job-queued c db now t s (unwritten job) h = absurd (ground arith)
fire_job-queued c db now t s (unqueued job) h = absurd (ground arith)

fire_schedule-queued :
    (c : Clock) (db : Db) (now t : ℕ) (s : Schedule) (a : Attempt)
    → is_through a ≡ true
    → compute_next_run c s now ≡ some t
    → (fire_schedule c db now s a).db.queued ≡ entry s.id now t ∷ db.queued
unfolding fire_schedule enqueue
fire_schedule-queued c db now t s a through next =
    elim (Bool-cases (s.skip_next_run && is_restart_job c s.job_type)) [
      | inl skip ↦ rw (fire_schedule-skips c db now s a skip) (
          rw
            (finish-through s.id now (compute_next_run c s now)
              (set_skipped now (compute_next_run c s now)) db a through)
            (rw (next, enqueue) refl))
      | inr run ↦
          elim (Bool-cases
            (any (is_busy s.id s.server_instance_id (effective_job_type c s)) db.runs)) [
              | inl busy ↦ rw (fire_schedule-waits c db now s a run busy) (
                  rw
                    (finish-through s.id now (compute_next_run c s now)
                      (set_busy now (compute_next_run c s now)) db a through)
                    (rw (next, enqueue) refl))
              | inr free ↦
                  rw (fire_schedule-goes c db now s a run free)
                    (rw next (fire_job-queued c db now t s a through))
            ]
    ]

-- An enabled schedule that has a next run is queued for it by each of its fires, whether the fire is
-- skipped, finds the last run still busy, makes a job, or fails in doing so, provided that the
-- update of the schedule and the queueing that end the fire do not throw where nothing catches them.
pub process_schedule_fire-continues :
    (c : Clock) (db : Db) (now id t : ℕ) (s : Schedule) (a : Attempt)
    → is_through a ≡ true
    → find_first (has_schedule_id id) db.schedules ≡ some s
    → s.enabled ≡ true
    → compute_next_run c s now ≡ some t
    → (process_schedule_fire c db now id a).db.queued ≡ entry id now t ∷ db.queued
unfolding process_schedule_fire
process_schedule_fire-continues c db now id t s a through found on next =
    let own : s.id ≡ id =
      (==_iff s.id id).0 (find_first-holds (has_schedule_id id) db.schedules s found) in
    rw (found, on, process_schedule_fire)
      (fire_schedule-queued c db now t s a through next
        ∙ ap (λ (i : ℕ). entry i now t ∷ db.queued) own)

-- the active runs of a schedule with a server and a type
abbrev pub busy_runs : ℕ → ℕ → Text → List ScheduledRun → ℕ
busy_runs id server type runs = total (λ r. if is_busy id server type r then 1 else 0) runs

none_busy :
    (id server : ℕ) (type : Text) (runs : List ScheduledRun)
    → any (is_busy id server type) runs ≡ false
    → busy_runs id server type runs ≡ 0
unfolding total
none_busy id server type [] h = refl
none_busy id server type (r ∷ rs) h = ground (arith, none_busy id server type rs)

-- a run of another schedule, server or type does not count
new_run-busy :
    (c : Clock) (s : Schedule) (job id server : ℕ) (type : Text) (runs : List ScheduledRun)
    → busy_runs id server type runs ≤ 1
    → s.payload_schedule_id ≡ none
    → any (is_busy s.id s.server_instance_id (effective_job_type c s)) runs ≡ false
    → busy_runs id server type (new_run c s job ∷ runs) ≤ 1
unfolding total payload_schedule
new_run-busy c s job id server type runs h plain free =
    elim (Bool-cases (is_busy id server type (new_run c s job))) [
      | inr other ↦ rw other (omega arith)
      | inl own ↦
          let named : payload_schedule s.payload_schedule_id s.id ≡ s.id =
            ap (λ (o : Option ℕ). payload_schedule o s.id) plain in
          let e : s.id ≡ id =
            sym named
            ∙ (==_iff (payload_schedule s.payload_schedule_id s.id) id).0 (ground arith) in
          let f : s.server_instance_id ≡ server =
            (==_iff s.server_instance_id server).0 (ground arith) in
          let g : effective_job_type c s ≡ type =
            (same_iff (effective_job_type c s) type).0 (ground arith) in
          let none_before : busy_runs id server type runs ≡ 0 = none_busy id server type runs (
            subst (λ (i : ℕ). any (is_busy i server type) runs ≡ false) e
              (subst (λ (v : ℕ). any (is_busy s.id v type) runs ≡ false) f
                (subst (λ (u : Text). any (is_busy s.id s.server_instance_id u) runs ≡ false) g
                  free))) in
          rw own (omega (arith, none_before))
    ]

-- No schedule has two active runs of the same type on the same server.
abbrev pub IsUnstacked : Db → Type 0
IsUnstacked db = (id server : ℕ) (type : Text) → busy_runs id server type db.runs ≤ 1

fire_job-IsUnstacked :
    (c : Clock) (db : Db) (now : ℕ) (s : Schedule) (next : Option ℕ) (a : Attempt)
    → IsUnstacked db
    → s.payload_schedule_id ≡ none
    → any (is_busy s.id s.server_instance_id (effective_job_type c s)) db.runs ≡ false
    → IsUnstacked (fire_job c db now s next a).db
unfolding fire_job
fire_job-IsUnstacked c db now s next (goes_through job) v plain free id server type =
    new_run-busy c s job id server type db.runs (v id server type) plain free
fire_job-IsUnstacked c db now s next fails_at_job v plain free id server type = v id server type
fire_job-IsUnstacked c db now s next fails_at_run v plain free id server type = v id server type
fire_job-IsUnstacked c db now s next (fails_at_queue job) v plain free id server type =
    new_run-busy c s job id server type db.runs (v id server type) plain free
fire_job-IsUnstacked c db now s none (fails_at_requeue job) v plain free id server type =
    new_run-busy c s job id server type db.runs (v id server type) plain free
fire_job-IsUnstacked c db now s (some t) (fails_at_requeue job) v plain free id server type =
    new_run-busy c s job id server type db.runs (v id server type) plain free
fire_job-IsUnstacked c db now s next (unwritten none) v plain free id server type = v id server type
fire_job-IsUnstacked c db now s next (unwritten (some job)) v plain free id server type =
    new_run-busy c s job id server type db.runs (v id server type) plain free
fire_job-IsUnstacked c db now s next (unqueued none) v plain free id server type = v id server type
fire_job-IsUnstacked c db now s next (unqueued (some job)) v plain free id server type =
    new_run-busy c s job id server type db.runs (v id server type) plain free

runs-IsUnstacked : (db db' : Db) → db'.runs ≡ db.runs → IsUnstacked db → IsUnstacked db'
runs-IsUnstacked db db' e v id server type = rw e (v id server type)

-- A fire of a schedule whose payload does not name a schedule itself, however far it comes, does not stack
-- runs: where no schedule has two active runs of one type on one server, none has afterwards.
pub process_schedule_fire-IsUnstacked :
    (c : Clock) (db : Db) (now id : ℕ) (a : Attempt)
    → IsUnstacked db
    → ((s : Schedule)
        → find_first (has_schedule_id id) db.schedules ≡ some s
        → s.payload_schedule_id ≡ none)
    → IsUnstacked (process_schedule_fire c db now id a).db
unfolding process_schedule_fire fire_schedule
process_schedule_fire-IsUnstacked c db now id a v plain =
    elim (Option-cases (find_first (has_schedule_id id) db.schedules)) [
      | inl nothing ↦ rw (nothing, process_schedule_fire) v
      | inr (s, found) ↦ elim (Bool-cases s.enabled) [
        | inr off ↦ rw (found, off, process_schedule_fire) v
        | inl on ↦ elim (Bool-cases (s.skip_next_run && is_restart_job c s.job_type)) [
          | inl skip ↦
              rw
                (process_schedule_fire-fires c db now s a id found on
                  ∙ fire_schedule-skips c db now s a skip)
                (runs-IsUnstacked db
                  (finish a s.id now (compute_next_run c s now)
                    (set_skipped now (compute_next_run c s now)) db).db
                  (finish-runs s.id now (compute_next_run c s now)
                    (set_skipped now (compute_next_run c s now)) db a)
                  v)
          | inr run ↦
              elim (Bool-cases
                (any (is_busy s.id s.server_instance_id (effective_job_type c s)) db.runs)) [
                  | inl busy ↦
                      rw
                        (process_schedule_fire-fires c db now s a id found on
                          ∙ fire_schedule-waits c db now s a run busy)
                        (runs-IsUnstacked db
                          (finish a s.id now (compute_next_run c s now)
                            (set_busy now (compute_next_run c s now)) db).db
                          (finish-runs s.id now (compute_next_run c s now)
                            (set_busy now (compute_next_run c s now)) db a)
                          v)
                  | inr free ↦
                      rw
                        (process_schedule_fire-fires c db now s a id found on
                          ∙ fire_schedule-goes c db now s a run free)
                        (fire_job-IsUnstacked c db now s (compute_next_run c s now) a v
                          (plain s found) free)
                ]
        ]
      ]
    ]
