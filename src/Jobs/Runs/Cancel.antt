-- ===== src/Jobs/Runs/Cancel.antt =====
-- Cancelling a batch (batches.service.ts, cancelBatch), and what a late report does to it.
use mathlib.Core.Path.{subst}
use mastermind_minecraft_ser.Prelude.{
  ℕ, ◌+◌, is_positive, sub_ℕ, false, ◌≡◌, ◌⊎◌, refl, sym, ap, ◌∙◌, some, List, [], ◌∷◌, arith,
  Bool-cases, Option-cases, inl, inr, find_first, update_first, update_many, total,
  find_first-update_first, find_first-holds, find_first-update_first_inv, ==_iff, ◌==◌,
}
use mastermind_minecraft_ser.Jobs.Store.{
  RunStatus, pending, running, success, failed, cancelled, Run, BatchStatus, Batch, Db,
  has_batch_id,
}
use mastermind_minecraft_ser.Jobs.Batches.{
  Final, count, is_cancellable, cancel_run, cancel, cancelled_batch, cancel_batch, Result, ok, err,
  is_running, Prior, complete_run, close_if_done, uncount_prior, count_final,
}
use mastermind_minecraft_ser.Jobs.Batches.Counts.{runs_in}
use mastermind_minecraft_ser.Jobs.Batches.Status.{
  StatusFits, StatusFits-same, IsAccurate, IsConsistent,
}

-- the runs with the pending ones of the batch cancelled
abbrev without_pending : ℕ → ℕ → List Run → List Run
without_pending batch now runs = update_many (is_cancellable batch) (cancel_run now) runs

cancelled-counts :
    (batch now : ℕ) (runs : List Run)
    → (runs_in batch pending (without_pending batch now runs) ≡ 0)
      × (runs_in batch running (without_pending batch now runs) ≡ runs_in batch running runs)
      × (runs_in batch success (without_pending batch now runs) ≡ runs_in batch success runs)
      × (runs_in batch failed (without_pending batch now runs) ≡ runs_in batch failed runs)
      × (runs_in batch cancelled (without_pending batch now runs)
          ≡ runs_in batch cancelled runs + runs_in batch pending runs)
unfolding update_many count total
cancelled-counts batch now [] = omega arith
cancelled-counts batch now (r ∷ rs) = ground (arith, cancelled-counts batch now rs)

-- another batch is not touched
cancelled-elsewhere :
    (batch now id : ℕ) (s : RunStatus) (runs : List Run)
    → (batch == id) ≡ false
    → runs_in id s (without_pending batch now runs) ≡ runs_in id s runs
unfolding update_many count total
cancelled-elsewhere batch now id s [] ne = refl
cancelled-elsewhere batch now id s (r ∷ rs) ne =
    ground (arith, cancelled-elsewhere batch now id s rs ne)

cancelled-IsAccurate :
    (now : ℕ) (runs : List Run) (b : Batch)
    → IsAccurate runs b
    → IsAccurate
        (without_pending b.id now runs)
        (cancelled_batch now (count (is_cancellable b.id) runs) b)
unfolding cancelled_batch
cancelled-IsAccurate now runs b a = record {
  counted = ground (arith, a.counted, cancelled-counts b.id now runs);
  status = (cancelled-counts b.id now runs).0;
}

elsewhere-IsAccurate :
    (batch now : ℕ) (runs : List Run) (b : Batch)
    → (batch == b.id) ≡ false
    → IsAccurate runs b
    → IsAccurate (without_pending batch now runs) b
elsewhere-IsAccurate batch now runs b ne a =
    let same_count = λ (s : RunStatus). cancelled-elsewhere batch now b.id s runs ne in
    record {
      counted = ground (
        arith,
        a.counted,
        same_count pending,
        same_count running,
        same_count success,
        same_count failed,
        same_count cancelled,
      );
      status =
          StatusFits-same b.status _ _ _ _ _ _ (sym (same_count pending)) (sym (same_count running))
            (sym (same_count failed)) a.status;
    }

cancel-IsAccurate :
    (db : Db) (now batch id : ℕ) (b : Batch)
    → IsConsistent db
    → find_first (has_batch_id id) (
        update_first
          (has_batch_id batch)
          (cancelled_batch now (count (is_cancellable batch) db.runs))
          db.batches)
      ≡ some b
    → IsAccurate (without_pending batch now db.runs) b
unfolding cancelled_batch
cancel-IsAccurate db now batch id b c h =
    let mark = cancelled_batch now (count (is_cancellable batch) db.runs) in
    elim (Bool-cases (batch == id)) [
      | inl this ↦
          let (b', found, e) =
            find_first-update_first_inv (has_batch_id batch) mark db.batches b (λ x. refl)
              (rw (← (==_iff batch id).0 this) at h) in
          let own : b'.id ≡ batch =
            (==_iff b'.id batch).0 (find_first-holds (has_batch_id batch) db.batches b' found) in
          subst (IsAccurate (without_pending batch now db.runs)) e (
            subst
              (λ (i : ℕ).
                IsAccurate (without_pending i now db.runs)
                  (cancelled_batch now (count (is_cancellable i) db.runs) b'))
              own (cancelled-IsAccurate now db.runs b' (c.accurate batch b' found)))
      | inr other ↦
          let found =
            sym (
              find_first-update_first (has_batch_id batch) (has_batch_id id) mark db.batches
                (λ x. refl) (λ x q. ground arith))
            ∙ h in
          elsewhere-IsAccurate batch now db.runs b
            (ground (arith, find_first-holds (has_batch_id id) db.batches b found))
            (c.accurate id b found)
    ]

result_db : Db → Result → Db
result_db d (ok db) = db
result_db d (err e) = d

-- A batch that is cancelled has no pending run left and as many running ones as before, and every
-- batch stays accurate.
pub cancel_batch-IsConsistent :
    (db db' : Db) (now org batch : ℕ)
    → IsConsistent db
    → cancel_batch db now org batch ≡ ok db'
    → IsConsistent db'
      × (runs_in batch pending db'.runs ≡ 0)
      × (runs_in batch running db'.runs ≡ runs_in batch running db.runs)
unfolding cancel_batch cancel result_db
cancel_batch-IsConsistent db db' now org batch c h =
    elim (Option-cases (find_first (has_batch_id batch) db.batches)) [
      | inl e ↦ absurd (ground arith)
      | inr (b, e) ↦ elim (Bool-cases (b.org_id == org)) [
        | inr other ↦ absurd (ground arith)
        | inl mine ↦ elim (Bool-cases (is_running b.status)) [
          | inr over ↦ absurd (ground arith)
          | inl going ↦
              let (none_left, same_running, _, _, _) = cancelled-counts batch now db.runs in
              subst
                (λ (d : Db).
                  IsConsistent d
                  × (runs_in batch pending d.runs ≡ 0)
                  × (runs_in batch running d.runs ≡ runs_in batch running db.runs))
                (ap (result_db db) (rw (e, mine, going, cancel_batch) at h))
                (
                  record { accurate = λ id b' f. cancel-IsAccurate db now batch id b' c f },
                  none_left,
                  same_running,
                )
        ]
      ]
    ]

-- a closed batch is completed, whatever it was
abbrev pub IsCompleted : Batch → Type 0
IsCompleted b =
    (b.status ≡ BatchStatus.completed) ⊎ (b.status ≡ BatchStatus.completed_with_failures)

close_if_done-IsCompleted :
    (now : ℕ) (b : Batch)
    → is_positive b.pending_count ≡ false
    → is_positive b.running_count ≡ false
    → IsCompleted (close_if_done now b)
unfolding close_if_done
close_if_done-IsCompleted now b p r = elim (Bool-cases (is_positive b.failed_count)) [
  | inl some_failed ↦ rw (p, r, some_failed, close_if_done) (inr refl)
  | inr none_failed ↦ rw (p, r, none_failed, close_if_done) (inl refl)
]

counts-kept :
    (final : Final) (b : Batch)
    → ((uncount_prior Prior.running (count_final final b)).pending_count ≡ b.pending_count)
      × ((uncount_prior Prior.running (count_final final b)).running_count
          ≡ sub_ℕ b.running_count 1)
unfolding uncount_prior count_final
counts-kept Final.success b = (refl, refl)
counts-kept _ b = (refl, refl)

-- When the last running run of a cancelled batch is reported, the batch's status changes from
-- cancelled to one of the completed ones.
pub complete_run-overwrites :
    (runs : List Run) (b : Batch) (now : ℕ) (final : Final)
    → IsAccurate runs b
    → b.status ≡ BatchStatus.cancelled
    → runs_in b.id running runs ≡ 1
    → IsCompleted (complete_run now final Prior.running b)
unfolding complete_run sub_ℕ
complete_run-overwrites runs b now final a c one =
    let nothing_waits : runs_in b.id pending runs ≡ 0 =
      subst
        (λ (s : BatchStatus).
          StatusFits s (runs_in b.id pending runs) (runs_in b.id running runs)
            (runs_in b.id failed runs))
        c a.status in
    close_if_done-IsCompleted now (uncount_prior Prior.running (count_final final b))
      (rw ((counts-kept final b).0, a.counted.pending_ok, nothing_waits) refl)
      (rw ((counts-kept final b).1, a.counted.running_ok, one) refl)
