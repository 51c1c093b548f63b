-- ===== src/Jobs/Batches/Counts.antt =====
-- The counters of a batch are the numbers of its runs in each state.
use mastermind_minecraft_ser.Prelude.{
  ℕ, ◌+◌, pos, add_ℕ, sub_ℕ, Bool, true, false, ◌≡◌, some, List, arith, find_first, update_first,
  total-update_first, if◌then◌else◌,
}
use mastermind_minecraft_ser.Jobs.Store.{
  RunStatus, pending, running, success, failed, cancelled, Run, Batch, is_in, in_batch,
}
use mastermind_minecraft_ser.Jobs.Batches.{
  Final, Prior, final_status, count_final, uncount_prior, start_run, count,
}

-- the number of the batch's runs in a state
abbrev pub runs_in : ℕ → RunStatus → List Run → ℕ
runs_in id s runs = count (in_batch id s) runs

pub record IsCounted (runs : List Run) (b : Batch) : Type 0 where
  pub pending_ok : b.pending_count ≡ pos (runs_in b.id pending runs)
  pub running_ok : b.running_count ≡ pos (runs_in b.id running runs)
  pub success_ok : b.success_count ≡ pos (runs_in b.id success runs)
  pub failed_ok : b.failed_count ≡ pos (runs_in b.id failed runs)
  pub cancelled_ok : b.cancelled_count ≡ pos (runs_in b.id cancelled runs)
  pub total_ok :
      b.total_count
      ≡ pos (
          runs_in b.id pending runs
          + runs_in b.id running runs
          + runs_in b.id success runs
          + runs_in b.id failed runs
          + runs_in b.id cancelled runs)

-- one run is rewritten
runs_in-update :
    (id : ℕ) (s : RunStatus) (p : Run → Bool) (f : Run → Run) (runs : List Run) (r : Run)
    → find_first p runs ≡ some r
    → runs_in id s (update_first p f runs) + (if in_batch id s r then 1 else 0)
      ≡ runs_in id s runs + (if in_batch id s (f r) then 1 else 0)
unfolding count
runs_in-update id s p f runs r h =
    total-update_first (λ x. if in_batch id s x then 1 else 0) p f runs r h

-- how the five counts move when one run is rewritten
abbrev pub Moved : ℕ → List Run → List Run → Run → Run → RunStatus → Type 0
Moved id runs runs' r r' s =
    runs_in id s runs' + (if in_batch id s r then 1 else 0)
    ≡ runs_in id s runs + (if in_batch id s r' then 1 else 0)

pub moved :
    (id : ℕ) (p : Run → Bool) (f : Run → Run) (runs : List Run) (r : Run)
    → find_first p runs ≡ some r
    → Moved id runs (update_first p f runs) r (f r) pending
      × Moved id runs (update_first p f runs) r (f r) running
      × Moved id runs (update_first p f runs) r (f r) success
      × Moved id runs (update_first p f runs) r (f r) failed
      × Moved id runs (update_first p f runs) r (f r) cancelled
moved id p f runs r h = (
  runs_in-update id pending p f runs r h,
  runs_in-update id running p f runs r h,
  runs_in-update id success p f runs r h,
  runs_in-update id failed p f runs r h,
  runs_in-update id cancelled p f runs r h,
)

-- a run that is not of the batch leaves its counts alone
pub IsCounted-other :
    (runs : List Run) (p : Run → Bool) (f : Run → Run) (r : Run) (b : Batch)
    → find_first p runs ≡ some r
    → is_in b.id r.batch_id ≡ false
    → (f r).batch_id ≡ r.batch_id
    → IsCounted runs b
    → IsCounted (update_first p f runs) b
IsCounted-other runs p f r b h out keep c = ground (arith, moved b.id p f runs r h)

-- a pending run of the batch starts
pub IsCounted-start :
    (runs : List Run) (p : Run → Bool) (f : Run → Run) (r : Run) (b : Batch)
    → find_first p runs ≡ some r
    → is_in b.id r.batch_id ≡ true
    → (f r).batch_id ≡ r.batch_id
    → r.status ≡ pending
    → (f r).status ≡ running
    → IsCounted runs b
    → IsCounted (update_first p f runs) (start_run b)
unfolding start_run
IsCounted-start runs p f r b h within keep s s' c = ground (arith, moved b.id p f runs r h)

abbrev pub prior_status : Prior → RunStatus
prior_status Prior.pending = pending
prior_status Prior.running = running

-- a run of the batch ends
module _ (runs : List Run) (p : Run → Bool) (f : Run → Run) (r : Run) (b : Batch)
    (found : find_first p runs ≡ some r) (within : is_in b.id r.batch_id ≡ true)
    (keep : (f r).batch_id ≡ r.batch_id) (counted : IsCounted runs b) where
  pub ended :
      (final : Final) (prior : Prior)
      → r.status ≡ prior_status prior
      → (f r).status ≡ final_status final
      → IsCounted (update_first p f runs) (uncount_prior prior (count_final final b))
  unfolding uncount_prior count_final add_ℕ sub_ℕ
  ended Final.success Prior.pending s s' = ground (arith, moved b.id p f runs r found)
  ended Final.success _ s s' = ground (arith, moved b.id p f runs r found)
  ended _ Prior.pending s s' = ground (arith, moved b.id p f runs r found)
  ended _ _ s s' = ground (arith, moved b.id p f runs r found)
