-- ===== src/Jobs/Batches/Status.antt =====
-- The status of a batch tells whether its runs are through.
use mastermind_minecraft_ser.Prelude.{
  ℕ, suc, ◌+◌, ◌≤◌, ◌<◌, is_positive, Bool, true, false, ◌&&◌, not, ◌≡◌, refl, Option, some, List,
  arith, Bool-cases, inl, inr, find_first, update_first,
}
use mastermind_minecraft_ser.Jobs.Store.{
  pending, running, failed, Run, BatchStatus, Batch, Db, has_batch_id, is_in,
}
use mastermind_minecraft_ser.Jobs.Batches.{
  Final, Prior, final_status, count_final, uncount_prior, close_if_done, complete_run, start_run,
}
use mastermind_minecraft_ser.Jobs.Batches.Counts.{
  runs_in, IsCounted, moved, IsCounted-other, IsCounted-start, ended, prior_status,
}

-- What the status says, with `p` runs pending, `r` running and `f` failed: a running batch has a run
-- to finish, a completed one has none, and its status tells whether one failed.
abbrev pub StatusFits : BatchStatus → ℕ → ℕ → ℕ → Type 0
StatusFits BatchStatus.running p r f = 0 < p + r
StatusFits BatchStatus.completed p r f = (p ≡ 0) × (r ≡ 0) × (f ≡ 0)
StatusFits BatchStatus.completed_with_failures p r f = (p ≡ 0) × (r ≡ 0) × (0 < f)
StatusFits BatchStatus.cancelled p r f = p ≡ 0

pub record IsAccurate (runs : List Run) (b : Batch) : Type 0 where
  pub counted : IsCounted runs b
  pub status :
      StatusFits b.status
        (runs_in b.id pending runs)
        (runs_in b.id running runs)
        (runs_in b.id failed runs)

-- Every batch is accurate.
pub record IsConsistent (db : Db) : Type 0 where
  pub accurate :
      (id : ℕ) (b : Batch) → find_first (has_batch_id id) db.batches ≡ some b → IsAccurate db.runs b

-- the status goes by three counts
pub StatusFits-same :
    (s : BatchStatus) (p r f p' r' f' : ℕ)
    → p ≡ p'
    → r ≡ r'
    → f ≡ f'
    → StatusFits s p r f
    → StatusFits s p' r' f'
StatusFits-same BatchStatus.running p r f p' r' f' e g h s = omega arith
StatusFits-same BatchStatus.completed p r f p' r' f' e g h s = omega arith
StatusFits-same BatchStatus.completed_with_failures p r f p' r' f' e g h s = omega arith
StatusFits-same BatchStatus.cancelled p r f p' r' f' e g h s = omega arith

StatusFits-start :
    (s : BatchStatus) (p r f p' r' f' : ℕ)
    → p ≡ suc p'
    → r' ≡ suc r
    → StatusFits s p r f
    → StatusFits s p' r' f'
StatusFits-start BatchStatus.running p r f p' r' f' e g s = omega arith
StatusFits-start BatchStatus.completed p r f p' r' f' e g s = omega arith
StatusFits-start BatchStatus.completed_with_failures p r f p' r' f' e g s = omega arith
StatusFits-start BatchStatus.cancelled p r f p' r' f' e g s = omega arith

pub IsAccurate-other :
    (runs : List Run) (p : Run → Bool) (f : Run → Run) (r : Run) (b : Batch)
    → find_first p runs ≡ some r
    → is_in b.id r.batch_id ≡ false
    → (f r).batch_id ≡ r.batch_id
    → IsAccurate runs b
    → IsAccurate (update_first p f runs) b
IsAccurate-other runs p f r b h out keep c = record {
  counted = IsCounted-other runs p f r b h out keep c.counted;
  status =
      let (mp, mr, ms, mf, mc) = moved b.id p f runs r h in
      StatusFits-same b.status _ _ _ _ _ _ (ground arith) (ground arith) (ground arith) c.status;
}

pub IsAccurate-start :
    (runs : List Run) (p : Run → Bool) (f : Run → Run) (r : Run) (b : Batch)
    → find_first p runs ≡ some r
    → is_in b.id r.batch_id ≡ true
    → (f r).batch_id ≡ r.batch_id
    → r.status ≡ pending
    → (f r).status ≡ running
    → IsAccurate runs b
    → IsAccurate (update_first p f runs) (start_run b)
unfolding start_run
IsAccurate-start runs p f r b h within keep s s' c = record {
  counted = IsCounted-start runs p f r b h within keep s s' c.counted;
  status =
      let (mp, mr, ms, mf, mc) = moved b.id p f runs r h in
      StatusFits-start b.status _ _ (runs_in b.id failed runs) _ _ _ (ground arith) (ground arith)
        c.status;
}

StatusFits-end :
    (s : BatchStatus) (p r f p' r' f' : ℕ)
    → StatusFits s p r f
    → 0 < p + r
    → p' ≤ p
    → 0 < p' + r'
    → StatusFits s p' r' f'
StatusFits-end BatchStatus.running p r f p' r' f' s h k g = g
StatusFits-end BatchStatus.completed p r f p' r' f' s h k g = absurd (omega arith)
StatusFits-end BatchStatus.completed_with_failures p r f p' r' f' s h k g = absurd (omega arith)
StatusFits-end BatchStatus.cancelled p r f p' r' f' s h k g = omega arith

-- a batch with nothing left to finish
closed-IsAccurate :
    (runs : List Run) (now : ℕ) (b : Batch)
    → IsCounted runs b
    → (0 < runs_in b.id pending runs + runs_in b.id running runs
        → StatusFits b.status
            (runs_in b.id pending runs)
            (runs_in b.id running runs)
            (runs_in b.id failed runs))
    → IsAccurate runs (close_if_done now b)
unfolding close_if_done
closed-IsAccurate runs now b c open' =
    elim (Bool-cases (not (is_positive b.pending_count) && not (is_positive b.running_count))) [
      | inl done ↦ elim (Bool-cases (is_positive b.failed_count)) [
        | inl some_failed ↦
            rw (done, some_failed, close_if_done)
              (record {
                counted = recount BatchStatus.completed_with_failures (some now);
                status = (ground arith, ground arith, ground arith);
              })
        | inr none_failed ↦
            rw (done, none_failed, close_if_done)
              (record {
                counted = recount BatchStatus.completed (some now);
                status = (ground arith, ground arith, ground arith);
              })
      ]
      | inr more ↦ rw (more, close_if_done) (record { counted = c; status = open' (ground arith) })
    ]
  where
    recount :
        (s : BatchStatus) (t : Option ℕ)
        → IsCounted runs (record b { status = s; completed_at = t })
    recount s t = record {
      pending_ok = c.pending_ok;
      running_ok = c.running_ok;
      success_ok = c.success_ok;
      failed_ok = c.failed_ok;
      cancelled_ok = c.cancelled_ok;
      total_ok = c.total_ok;
    }

-- the counters are written, the rest of the batch is kept
kept :
    (final : Final) (prior : Prior) (b : Batch)
    → ((uncount_prior prior (count_final final b)).id ≡ b.id)
      × ((uncount_prior prior (count_final final b)).status ≡ b.status)
unfolding uncount_prior count_final
kept Final.success Prior.pending b = (refl, refl)
kept Final.success _ b = (refl, refl)
kept _ Prior.pending b = (refl, refl)
kept _ _ b = (refl, refl)

module _ (runs : List Run) (p : Run → Bool) (f : Run → Run) (r : Run) (b : Batch)
    (found : find_first p runs ≡ some r) (within : is_in b.id r.batch_id ≡ true)
    (keep : (f r).batch_id ≡ r.batch_id) (accurate : IsAccurate runs b) where
  had_open :
      (final : Final) (prior : Prior)
      → r.status ≡ prior_status prior
      → (f r).status ≡ final_status final
      → (0 < runs_in b.id pending runs + runs_in b.id running runs)
        × (runs_in b.id pending (update_first p f runs) ≤ runs_in b.id pending runs)
  had_open Final.success Prior.pending s s' = ground (arith, moved b.id p f runs r found)
  had_open Final.success _ s s' = ground (arith, moved b.id p f runs r found)
  had_open _ Prior.pending s s' = ground (arith, moved b.id p f runs r found)
  had_open _ _ s s' = ground (arith, moved b.id p f runs r found)

  still_open :
      (final : Final) (prior : Prior)
      → r.status ≡ prior_status prior
      → (f r).status ≡ final_status final
      → 0
        < runs_in b.id pending (update_first p f runs)
          + runs_in b.id running (update_first p f runs)
      → StatusFits b.status
          (runs_in b.id pending (update_first p f runs))
          (runs_in b.id running (update_first p f runs))
          (runs_in b.id failed (update_first p f runs))
  still_open final prior s s' more =
      let (had, fewer) = had_open final prior s s' in
      StatusFits-end b.status (runs_in b.id pending runs) (runs_in b.id running runs)
        (runs_in b.id failed runs) _ _ _ accurate.status had fewer more

  -- a run of the batch ends
  pub IsAccurate-complete :
      (now : ℕ) (final : Final) (prior : Prior)
      → r.status ≡ prior_status prior
      → (f r).status ≡ final_status final
      → IsAccurate (update_first p f runs) (complete_run now final prior b)
  unfolding complete_run
  IsAccurate-complete now final prior s s' =
      closed-IsAccurate (update_first p f runs) now (uncount_prior prior (count_final final b))
        (ended runs p f r b found within keep accurate.counted final prior s s')
        (rw ((kept final prior b).0, (kept final prior b).1) (still_open final prior s s'))
