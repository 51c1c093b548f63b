-- ===== src/Jobs/Runs/Life.antt =====
-- The batch counters stay right while runs are picked, reported and cancelled; they do not when a
-- stale run is given up.
use mathlib.Core.Path.{subst}
use mathlib.Core.Option.{some-injective}
use mastermind_minecraft_ser.Prelude.{
  ℕ, Bool, true, false, ◌≡◌, refl, sym, ap, ◌∙◌, Text, Option, none, some, List, [], ◌∷◌, arith,
  Bool-cases, Option-cases, inl, inr, find_first, update_first, find_first-update_first,
  find_first-update_first_self, find_first-holds, find_first-update_first_inv, ==_iff, ◌==◌,
}
use mastermind_minecraft_ser.Jobs.Store.{
  RunStatus, pending, running, Run, Batch, Db, is_status, has_run_id, has_batch_id, is_in,
}
use mastermind_minecraft_ser.Jobs.Batches.{
  Final, Prior, final_status, complete_run, start_run, record_job_run_started,
  record_job_run_completed,
}
use mastermind_minecraft_ser.Jobs.Batches.Status.{
  IsAccurate, IsConsistent, IsAccurate-other, IsAccurate-start, IsAccurate-complete,
}
use mastermind_minecraft_ser.Jobs.Runs.{
  report_job_progress, set_progress, set_started, set_final, reported, mark_job_run_started,
  report_job_result, accept_result, Report, ok, err, run_not_running, Effect,
}

-- One run is rewritten and, if it is in a batch, so is the batch: every batch stays counted right.
module _ (runs : List Run) (batches : List Batch) (p : Run → Bool) (f : Run → Run) (r : Run)
    (found : find_first p runs ≡ some r) (keep : (f r).batch_id ≡ r.batch_id)
    (consistent : (id : ℕ) (b : Batch)
      → find_first (has_batch_id id) batches ≡ some b
      → IsAccurate runs b) where
  alone :
      r.batch_id ≡ none
      → (id : ℕ) (b : Batch) → find_first (has_batch_id id) batches ≡ some b
      → IsAccurate (update_first p f runs) b
  alone e id b h = IsAccurate-other runs p f r b found (rw e refl) keep (consistent id b h)

  in_step :
      (own : ℕ) (g : Batch → Batch)
      → r.batch_id ≡ some own
      → ((b : Batch) → (g b).id ≡ b.id)
      → ((b : Batch)
          → is_in b.id r.batch_id ≡ true
          → IsAccurate runs b
          → IsAccurate (update_first p f runs) (g b))
      → (id : ℕ) (b : Batch)
      → find_first (has_batch_id id) (update_first (has_batch_id own) g batches) ≡ some b
      → IsAccurate (update_first p f runs) b
  in_step own g e same_id step id b h = elim (Bool-cases (own == id)) [
    | inl this ↦
        let (b', found', e') =
          find_first-update_first_inv (has_batch_id own) g batches b (λ x. rw same_id refl)
            (rw (← (==_iff own id).0 this) at h) in
        subst (IsAccurate (update_first p f runs)) e' (
          step b' (rw e (ground (arith, find_first-holds (has_batch_id own) batches b' found')))
            (consistent own b' found'))
    | inr other ↦
        let found' =
          sym (
            find_first-update_first (has_batch_id own) (has_batch_id id) g batches
              (λ x. rw same_id refl) (λ x q. ground arith))
          ∙ h in
        IsAccurate-other runs p f r b found
          (rw e (ground (arith, find_first-holds (has_batch_id id) batches b found'))) keep
          (consistent id b found')
  ]

start_run-id : (b : Batch) → (start_run b).id ≡ b.id
unfolding start_run
start_run-id b = refl

complete_run-id : (now : ℕ) (f : Final) (p : Prior) (b : Batch) → (complete_run now f p b).id ≡ b.id
unfolding complete_run
complete_run-id now f p b = ground arith

started-IsConsistent :
    (db : Db) (now id : ℕ) (run : Run)
    → IsConsistent db
    → find_first (has_run_id id) db.runs ≡ some run
    → is_status run.status pending ≡ true
    → IsConsistent (
        record_job_run_started
          (record db { runs = update_first (has_run_id id) (set_started now) db.runs })
          run.batch_id)
unfolding record_job_run_started
started-IsConsistent db now id run c e waiting = elim (Option-cases run.batch_id) [
  | inl single ↦
      rw (single, record_job_run_started)
        (record {
          accurate =
              alone db.runs db.batches (has_run_id id) (set_started now) run e refl c.accurate
                single;
        })
  | inr (own, many) ↦
      rw (many, record_job_run_started)
        (record {
          accurate =
              in_step db.runs db.batches (has_run_id id) (set_started now) run e refl c.accurate own
                start_run many start_run-id
                (λ b within cb.
                  IsAccurate-start db.runs (has_run_id id) (set_started now) run b e within refl
                    (ground arith) refl cb);
        })
]

-- Picking a run, whether it is picked or left alone, keeps every batch accurate: its counters are the
-- numbers of its runs in each state, and its status fits them.
pub mark_job_run_started-IsConsistent :
    (db : Db) (now host id : ℕ)
    → IsConsistent db
    → IsConsistent (mark_job_run_started db now host id)
unfolding mark_job_run_started
mark_job_run_started-IsConsistent db now host id c =
    elim (Option-cases (find_first (has_run_id id) db.runs)) [
      | inl e ↦ rw (e, mark_job_run_started) c
      | inr (run, e) ↦ elim (Bool-cases (run.host_id == host)) [
        | inr other ↦ rw (e, other, mark_job_run_started) c
        | inl mine ↦ elim (Bool-cases (is_status run.status pending)) [
          | inr late ↦ rw (e, mine, late, mark_job_run_started) c
          | inl waiting ↦
              rw (e, mine, waiting, mark_job_run_started)
                (started-IsConsistent db now id run c e waiting)
        ]
      ]
    ]

completed-IsConsistent :
    (db : Db) (now id : ℕ) (final : Final) (run : Run)
    → IsConsistent db
    → find_first (has_run_id id) db.runs ≡ some run
    → is_status run.status running ≡ true
    → IsConsistent (
        record_job_run_completed
          (record db { runs = update_first (has_run_id id) (set_final now final) db.runs })
          now
          run.batch_id
          final
          Prior.running)
unfolding record_job_run_completed
completed-IsConsistent db now id final run c e going = elim (Option-cases run.batch_id) [
  | inl single ↦
      rw (single, record_job_run_completed)
        (record {
          accurate =
              alone db.runs db.batches (has_run_id id) (set_final now final) run e refl c.accurate
                single;
        })
  | inr (own, many) ↦
      rw (many, record_job_run_completed)
        (record {
          accurate =
              in_step db.runs db.batches (has_run_id id) (set_final now final) run e refl c.accurate
                own (complete_run now final Prior.running) many
                (complete_run-id now final Prior.running)
                (λ b within cb.
                  IsAccurate-complete db.runs (has_run_id id) (set_final now final) run b e within
                    refl cb now final Prior.running (ground arith) refl);
        })
]

db_of : Db → Report → Db
db_of d (ok db es) = db
db_of d (err e) = d

ok-injective : {db db' : Db} {es es' : List Effect} → ok db es ≡ ok db' es' → db ≡ db'
unfolding db_of
ok-injective {db} h = ap (db_of db) h

-- the tables after an accepted report
abbrev ended_db : Db → ℕ → ℕ → Final → Run → Db
ended_db db now id final run =
    record_job_run_completed
      (record db { runs = update_first (has_run_id id) (set_final now final) db.runs }) now
      run.batch_id final Prior.running

-- a report is accepted only for a running run of the host
report_accepted :
    (db db' : Db) (now host id : ℕ) (status : Text) (es : List Effect)
    → report_job_result db now host id status ≡ ok db' es
    → (run : Run) × (find_first (has_run_id id) db.runs ≡ some run)
      × ((run.host_id == host) ≡ true)
      × (is_status run.status running ≡ true)
      × (ended_db db now id (reported status) run ≡ db')
unfolding report_job_result accept_result
report_accepted db db' now host id status es h =
    elim (Option-cases (find_first (has_run_id id) db.runs)) [
      | inl e ↦ absurd (ground arith)
      | inr (run, e) ↦ elim (Bool-cases (run.host_id == host)) [
        | inr other ↦ absurd (ground arith)
        | inl mine ↦ elim (Bool-cases (is_status run.status running)) [
          | inr over ↦ absurd (ground arith)
          | inl going ↦
              (run, e, mine, going, ok-injective (rw (e, mine, going, report_job_result) at h))
        ]
      ]
    ]

-- A report that is accepted keeps every batch accurate: its counters are the numbers of its runs in
-- each state, and its status says whether one is left and whether one failed.
pub report_job_result-IsConsistent :
    (db db' : Db) (now host id : ℕ) (status : Text) (es : List Effect)
    → IsConsistent db
    → report_job_result db now host id status ≡ ok db' es
    → IsConsistent db'
report_job_result-IsConsistent db db' now host id status es c h =
    let (run, e, mine, going, end) = report_accepted db db' now host id status es h in
    subst IsConsistent end (completed-IsConsistent db now id (reported status) run c e going)

-- the runs after a batch has been written
runs-completed :
    (db : Db) (now : ℕ) (batch : Option ℕ) (final : Final) (prior : Prior)
    → (record_job_run_completed db now batch final prior).runs ≡ db.runs
unfolding record_job_run_completed
runs-completed db now none final prior = refl
runs-completed db now (some b) final prior = refl

not_running : (f : Final) → is_status (final_status f) running ≡ false
not_running Final.success = refl
not_running Final.failed = refl
not_running Final.cancelled = refl

refused :
    (db : Db) (now host id : ℕ) (status : Text) (final : Final) (run : Run)
    → find_first (has_run_id id) db.runs ≡ some run
    → (run.host_id == host) ≡ true
    → run.status ≡ final_status final
    → report_job_result db now host id status ≡ err (run_not_running (final_status final))
unfolding report_job_result
refused db now host id status final run e mine s =
    let over : is_status run.status running ≡ false = rw s (not_running final) in
    rw (e, mine, over, report_job_result) (ap (λ (t : RunStatus). err (run_not_running t)) s)

-- What an agent sends about a run.
pub data Request : Type 0 where
  starts : ℕ → ℕ → ℕ → Request
  progresses : ℕ → ℕ → ℕ → Request
  reports : ℕ → ℕ → ℕ → Text → Request

unfoldable pub left_by : Db → Report → Db
left_by db (ok db' es) = db'
left_by db (err e) = db

unfoldable pub serve : Request → Db → Db
unfolding left_by
serve (starts now host id) db = mark_job_run_started db now host id
serve (progresses now host id) db = left_by db (report_job_progress db now host id)
serve (reports now host id status) db = left_by db (report_job_result db now host id status)

unfoldable pub serve_all : List Request → Db → Db
serve_all [] db = db
serve_all (r ∷ rs) db = serve_all rs (serve r db)

runs-started : (db : Db) (batch : Option ℕ) → (record_job_run_started db batch).runs ≡ db.runs
unfolding record_job_run_started
runs-started db none = refl
runs-started db (some b) = refl

not_pending : (f : Final) → is_status (final_status f) pending ≡ false
not_pending Final.success = refl
not_pending Final.failed = refl
not_pending Final.cancelled = refl

-- A finished run stays as it is when a run in another state is rewritten.
ended-kept :
    (id id' : ℕ) (s : RunStatus) (final : Final) (f : Run → Run) (runs : List Run) (run other : Run)
    → find_first (has_run_id id) runs ≡ some run
    → find_first (has_run_id id') runs ≡ some other
    → run.status ≡ final_status final
    → is_status (final_status final) s ≡ false
    → is_status other.status s ≡ true
    → ((x : Run) → (f x).id ≡ x.id)
    → find_first (has_run_id id) (update_first (has_run_id id') f runs) ≡ some run
ended-kept id id' s final f runs run other e e' over apart live keep =
    elim (Bool-cases (id' == id)) [
      | inl eq ↦
          let one : id' ≡ id = (==_iff id' id).0 eq in
          let own : other ≡ run =
            some-injective other run
              (sym e' ∙ ap (λ (i : ℕ). find_first (has_run_id i) runs) one ∙ e) in
          let dead : is_status other.status s ≡ false =
            ap (λ (r : Run). is_status r.status s) own
            ∙ ap (λ (t : RunStatus). is_status t s) over
            ∙ apart in
          absurd (cc (dead, live))
      | inr ne ↦
          find_first-update_first (has_run_id id') (has_run_id id) f runs
            (λ x. ap (λ (i : ℕ). i == id) (keep x)) (λ x q. ground arith)
          ∙ e
    ]

serve-ended :
    (r : Request) (db : Db) (id : ℕ) (final : Final) (run : Run)
    → find_first (has_run_id id) db.runs ≡ some run
    → run.status ≡ final_status final
    → find_first (has_run_id id) (serve r db).runs ≡ some run
unfolding serve mark_job_run_started report_job_result report_job_progress accept_result left_by
serve-ended (starts now host id') db id final run e over =
    elim (Option-cases (find_first (has_run_id id') db.runs)) [
      | inl nothing ↦ rw (nothing, mark_job_run_started) e
      | inr (other, e') ↦ elim (Bool-cases (other.host_id == host)) [
        | inr foreign ↦ rw (e', foreign, mark_job_run_started) e
        | inl mine ↦ elim (Bool-cases (is_status other.status pending)) [
          | inr past ↦ rw (e', mine, past, mark_job_run_started) e
          | inl live ↦
              rw (e', mine, live, mark_job_run_started)
                (ap (find_first (has_run_id id)) (runs-started _ other.batch_id)
                  ∙ ended-kept id id' pending final (set_started now) db.runs run other e e' over
                      (not_pending final) live (λ x. refl))
        ]
      ]
    ]
serve-ended (progresses now host id') db id final run e over =
    elim (Option-cases (find_first (has_run_id id') db.runs)) [
      | inl nothing ↦ rw (nothing, report_job_progress) e
      | inr (other, e') ↦ elim (Bool-cases (other.host_id == host)) [
        | inr foreign ↦ rw (e', foreign, report_job_progress) e
        | inl mine ↦ elim (Bool-cases (is_status other.status running)) [
          | inr past ↦ rw (e', mine, past, report_job_progress) e
          | inl live ↦
              rw (e', mine, live, report_job_progress)
                (ended-kept id id' running final (set_progress now) db.runs run other e e' over
                  (not_running final) live (λ x. refl))
        ]
      ]
    ]
serve-ended (reports now host id' status) db id final run e over =
    elim (Option-cases (find_first (has_run_id id') db.runs)) [
      | inl nothing ↦ rw (nothing, report_job_result) e
      | inr (other, e') ↦ elim (Bool-cases (other.host_id == host)) [
        | inr foreign ↦ rw (e', foreign, report_job_result) e
        | inl mine ↦ elim (Bool-cases (is_status other.status running)) [
          | inr past ↦ rw (e', mine, past, report_job_result) e
          | inl live ↦
              rw (e', mine, live, report_job_result)
                (ap (find_first (has_run_id id))
                    (runs-completed _ now other.batch_id (reported status) Prior.running)
                  ∙ ended-kept id id' running final (set_final now (reported status)) db.runs run
                      other e e' over (not_running final) live (λ x. refl))
        ]
      ]
    ]

serve_all-ended :
    (rs : List Request) (db : Db) (id : ℕ) (final : Final) (run : Run)
    → find_first (has_run_id id) db.runs ≡ some run
    → run.status ≡ final_status final
    → find_first (has_run_id id) (serve_all rs db).runs ≡ some run
unfolding serve_all
serve_all-ended [] db id final run e over = e
serve_all-ended (r ∷ rs) db id final run e over =
    serve_all-ended rs (serve r db) id final run (serve-ended r db id final run e over) over

-- A run is reported once: after an accepted report, whatever starts, progress and results of any runs
-- the agents send in between, every later report of the run by the same host is refused.
pub report_job_result-once :
    (db db' : Db) (now later host id : ℕ) (status status' : Text) (es : List Effect)
    (rs : List Request)
    → report_job_result db now host id status ≡ ok db' es
    → report_job_result (serve_all rs db') later host id status'
      ≡ err (run_not_running (final_status (reported status)))
report_job_result-once db db' now later host id status status' es rs h =
    let (run, e, mine, going, end) = report_accepted db db' now host id status es h in
    subst
      (λ (d : Db).
        report_job_result (serve_all rs d) later host id status'
        ≡ err (run_not_running (final_status (reported status))))
      end
      (refused (serve_all rs (ended_db db now id (reported status) run)) later host id status'
        (reported status) (set_final now (reported status) run)
        (serve_all-ended rs (ended_db db now id (reported status) run) id (reported status)
          (set_final now (reported status) run)
          (ap (find_first (has_run_id id))
              (runs-completed _ now run.batch_id (reported status) Prior.running)
            ∙ find_first-update_first_self (has_run_id id) (set_final now (reported status)) db.runs
                run (λ x. refl) e)
          refl)
        mine refl)
