-- ===== src/Jobs/Queue.antt =====
-- The queue of an organization's job runs (jobs-queue.service.ts, and `poll` of agent-jobs.controller.ts).
-- Entries are listed in the order that the queue gives them; BullMQ keeps one entry for an id.
pub mod Taken
mod Examples
use mastermind_minecraft_ser.Prelude.{
  ℕ, Bool, true, false, ◌&&◌, ◌||◌, not, Text, String, codes, same, Option, none, some, List, [],
  ◌∷◌, ◌++◌, any, take, ◌==◌, if◌then◌else◌,
}

pub record QueueJobData : Type 0 where
  pub job_run_id : ℕ
  pub host_id : ℕ
  pub type : Text

abbrev pub read_only_types : List Text
read_only_types =
    codes "MOD_LIST"
    ∷ codes "MOD_QUARANTINE_LIST"
    ∷ codes "MOD_PENDING_LIST"
    ∷ codes "MOD_CONFIG_READ"
    ∷ codes "SERVER_CONFIG_READ"
    ∷ codes "PLAYER_LIST_SYNC"
    ∷ codes "PLAYER_ADMIN_LIST"
    ∷ codes "SAVE_LIST"
    ∷ codes "ITEM_CATALOG"
    ∷ []

unfoldable pub is_read_only : Text → Bool
unfolding same
is_read_only type = any (same type) read_only_types

abbrev pub has_run_id : ℕ → QueueJobData → Bool
has_run_id id j = j.job_run_id == id

-- an entry whose id is there already is left out
unfoldable pub add_job : QueueJobData → List QueueJobData → List QueueJobData
add_job j queue = if any (has_run_id j.job_run_id) queue then queue else queue ++ (j ∷ [])

-- `getJobs(['waiting', 'delayed'], 0, 499)`: the entries of the queue that are looked at
abbrev pub GetJobs : Type 0
GetJobs = List QueueJobData → List QueueJobData

-- an entry of the host that may be given out
unfoldable pub may_take : ℕ → Bool → QueueJobData → Bool
unfolding is_read_only
may_take host mutation_busy j =
    j.host_id == host && not (mutation_busy && not (is_read_only j.type))

unfoldable pub remove_run : ℕ → List QueueJobData → List QueueJobData
remove_run id [] = []
remove_run id (j ∷ js) = let rest = remove_run id js in if has_run_id id j then js else j ∷ rest

-- The loop over the entries; `taken` says which of them another request takes first, so that the
-- removal throws.
unfoldable pub first_free :
    (QueueJobData → Bool) → ℕ → Bool → List QueueJobData → Option QueueJobData
unfolding may_take
first_free taken host mutation_busy [] = none
first_free taken host mutation_busy (j ∷ js) =
    let rest = first_free taken host mutation_busy js in
    if may_take host mutation_busy j then (if taken j then rest else some j) else rest

unfoldable pub get_next_job_for_host :
    GetJobs
    → (QueueJobData → Bool)
    → ℕ
    → Bool
    → List QueueJobData
    → Option (QueueJobData × List QueueJobData)
unfolding first_free remove_run
get_next_job_for_host get_jobs taken host mutation_busy queue =
    elim (first_free taken host mutation_busy (get_jobs queue)) [
      | none ↦ none
      | some j ↦ some (j, remove_run j.job_run_id queue)
    ]

-- What each look at the queue finds, until one finds a job or the time is over after the last.
unfoldable pub poll :
    GetJobs
    → (QueueJobData → Bool)
    → ℕ
    → Bool
    → List (List QueueJobData)
    → Option (QueueJobData × List QueueJobData)
unfolding get_next_job_for_host
poll get_jobs taken host mutation_busy [] = none
poll get_jobs taken host mutation_busy (queue ∷ later) =
    let rest = poll get_jobs taken host mutation_busy later in
    elim (get_next_job_for_host get_jobs taken host mutation_busy queue) [
      | none ↦ rest
      | some found ↦ some found
    ]
