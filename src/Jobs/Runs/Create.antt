-- ===== src/Jobs/Runs/Create.antt =====
-- Creating a batch (batches.service.ts, createBatch).
use mathlib.Core.Path.{subst}
use mathlib.Core.Option.{some-injective}
use mastermind_minecraft_ser.Prelude.{
  ℕ, ◌+◌, ◌<◌, false, ◌≡◌, refl, ap, Text, Option, none, some, List, [], ◌∷◌, ◌++◌, All, length,
  arith, Bool-cases, inl, inr, find_first, total, find_first-holds, ==_iff, ==_refl, ◌==◌,
  if◌then◌else◌,
}
use mastermind_minecraft_ser.Json.{Fields}
use mastermind_minecraft_ser.Jobs.Store.{
  RunStatus, pending, running, success, failed, cancelled, Run, Batch, Db, has_batch_id, is_in,
}
use mastermind_minecraft_ser.Jobs.Batches.{
  count, Instance, new_run, new_runs, new_batch, create_batch,
}
use mastermind_minecraft_ser.Jobs.Batches.Counts.{runs_in}
use mastermind_minecraft_ser.Jobs.Batches.Status.{StatusFits-same, IsAccurate, IsConsistent}

-- the new runs are pending runs of the new batch
new_runs-counts :
    (org batch : ℕ) (type : Text) (payload : Fields) (is : List Instance) (runs : List Run) (id : ℕ)
    → let all = new_runs org batch type payload is ++ runs in
      (runs_in id pending all ≡ (if batch == id then length is else 0) + runs_in id pending runs)
      × (runs_in id running all ≡ runs_in id running runs)
      × (runs_in id success all ≡ runs_in id success runs)
      × (runs_in id failed all ≡ runs_in id failed runs)
      × (runs_in id cancelled all ≡ runs_in id cancelled runs)
unfolding new_runs new_run count total
new_runs-counts org batch type payload [] runs id = ground arith
new_runs-counts org batch type payload (i ∷ is) runs id =
    ground (arith, new_runs-counts org batch type payload is runs id)

-- a batch id that no run carries
abbrev IsFresh : ℕ → List Run → Type 0
IsFresh batch runs = All (λ r. is_in batch r.batch_id ≡ false) runs

fresh-runs_in :
    (batch : ℕ) (s : RunStatus) (runs : List Run) → IsFresh batch runs → runs_in batch s runs ≡ 0
unfolding count total
fresh-runs_in batch s [] h = refl
fresh-runs_in batch s (r ∷ rs) h = ground (arith, fresh-runs_in batch s rs h.1, h.0)

-- the new batch, whatever was there before
new-IsAccurate :
    (org batch : ℕ) (type job_type : Text) (payload : Fields) (found : List Instance)
    (runs : List Run)
    → IsFresh batch runs
    → 0 < length found
    → IsAccurate
        (new_runs org batch job_type payload found ++ runs)
        (new_batch org batch type (length found))
unfolding new_batch
new-IsAccurate org batch type job_type payload found runs fresh some_server =
    let counts = new_runs-counts org batch job_type payload found runs batch in
    let none_yet = λ (s : RunStatus). fresh-runs_in batch s runs fresh in
    let same_id = ==_refl batch in
    record {
      counted = ground (
        arith,
        counts,
        same_id,
        none_yet pending,
        none_yet running,
        none_yet success,
        none_yet failed,
        none_yet cancelled,
      );
      status = ground (arith, counts, same_id, none_yet pending);
    }

-- the batches that were there
kept-IsAccurate :
    (org batch : ℕ) (job_type : Text) (payload : Fields) (found : List Instance) (runs : List Run)
    (b : Batch)
    → (batch == b.id) ≡ false
    → IsAccurate runs b
    → IsAccurate (new_runs org batch job_type payload found ++ runs) b
kept-IsAccurate org batch job_type payload found runs b ne a =
    let counts = new_runs-counts org batch job_type payload found runs b.id in
    record {
      counted = ground (arith, a.counted, counts);
      status =
          StatusFits-same b.status _ _ _ _ _ _ (ground (arith, counts)) (ground (arith, counts))
            (ground (arith, counts)) a.status;
    }

created : Db → Option Db → Db
created d none = d
created d (some x) = x

created-IsAccurate :
    (db : Db) (org batch : ℕ) (type job_type : Text) (payload : Fields) (found : List Instance)
    (id : ℕ) (b : Batch)
    → IsConsistent db
    → IsFresh batch db.runs
    → 0 < length found
    → find_first (has_batch_id id) (new_batch org batch type (length found) ∷ db.batches) ≡ some b
    → IsAccurate (new_runs org batch job_type payload found ++ db.runs) b
unfolding find_first new_batch
created-IsAccurate db org batch type job_type payload found id b c fresh some_server h =
    elim (Bool-cases (batch == id)) [
      | inl this ↦
          subst (IsAccurate (new_runs org batch job_type payload found ++ db.runs))
            (some-injective (new_batch org batch type (length found)) b (rw this at h))
            (new-IsAccurate org batch type job_type payload found db.runs fresh some_server)
      | inr other ↦
          let found' : find_first (has_batch_id id) db.batches ≡ some b = rw other at h in
          kept-IsAccurate org batch job_type payload found db.runs b
            (ground (arith, find_first-holds (has_batch_id id) db.batches b found'))
            (c.accurate id b found')
    ]

-- A new batch starts with as many pending runs as it has servers, all counted, and the other batches
-- stay accurate, provided that no run carries the batch's id yet and at least one server is asked for.
pub create_batch-IsConsistent :
    (db db' : Db) (org batch : ℕ) (type job_type : Text) (payload : Fields) (requested : ℕ)
    (found : List Instance)
    → IsConsistent db
    → IsFresh batch db.runs
    → 0 < requested
    → create_batch db org batch type job_type payload requested found ≡ some db'
    → IsConsistent db' × (runs_in batch pending db'.runs ≡ requested)
unfolding create_batch created
create_batch-IsConsistent db db' org batch type job_type payload requested found c fresh some_server
      h =
    elim (Bool-cases (length found == requested)) [
      | inr missing ↦ absurd (ground arith)
      | inl there ↦
          let n : length found ≡ requested = (==_iff (length found) requested).0 there in
          subst (λ (d : Db). IsConsistent d × (runs_in batch pending d.runs ≡ requested))
            (ap (created db) (rw (there, create_batch) at h))
            (
              record {
                accurate = λ id b f.
                    created-IsAccurate db org batch type job_type payload found id b c fresh
                      (ground arith) f;
              },
              ground (
                arith,
                new_runs-counts org batch job_type payload found db.runs batch,
                ==_refl batch,
                fresh-runs_in batch pending db.runs fresh,
              ),
            )
    ]
