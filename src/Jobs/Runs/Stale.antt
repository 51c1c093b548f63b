-- ===== src/Jobs/Runs/Stale.antt =====
-- Giving up stale runs (jobs.service.ts, failStaleRunningJobs).
use mastermind_minecraft_ser.Prelude.{
  ℕ, ◌+◌, pos, Bool, ◌&&◌, ◌≡◌, refl, sym, ap, ◌∙◌, List, [], ◌∷◌, arith, update_many, total,
}
use mastermind_minecraft_ser.Jobs.Store.{running, Run, Batch, Db, is_in}
use mastermind_minecraft_ser.Jobs.Batches.{Final, count}
use mastermind_minecraft_ser.Jobs.Batches.Counts.{runs_in}
use mastermind_minecraft_ser.Jobs.Batches.Status.{IsAccurate}
use mastermind_minecraft_ser.Jobs.Runs.{is_stale, set_final, fail_stale_running_jobs}

-- the stale runs of a batch
abbrev pub stale_in : ℕ → ℕ → Run → Bool
stale_in id now r = is_in id r.batch_id && is_stale now r

stale-counts :
    (id now : ℕ) (runs : List Run)
    → runs_in id running (update_many (is_stale now) (set_final now Final.failed) runs)
        + count (stale_in id now) runs
      ≡ runs_in id running runs
unfolding update_many count total
stale-counts id now [] = refl
stale-counts id now (r ∷ rs) = ground (arith, stale-counts id now rs)

-- Stale runs are failed without their batch: its counter of running runs stays ahead of the runs
-- that run by the number of its stale ones.
pub fail_stale_running_jobs-drift :
    (db : Db) (now : ℕ) (b : Batch)
    → IsAccurate db.runs b
    → let db' = fail_stale_running_jobs db now in
      (db'.batches ≡ db.batches)
      × (b.running_count ≡ pos (runs_in b.id running db'.runs + count (stale_in b.id now) db.runs))
unfolding fail_stale_running_jobs
fail_stale_running_jobs-drift db now b a =
    (refl, a.counted.running_ok ∙ ap pos (sym (stale-counts b.id now db.runs)))
