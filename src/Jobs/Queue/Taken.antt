-- ===== src/Jobs/Queue/Taken.antt =====
-- Which run a poll gives out (getNextJobForHost of jobs-queue.service.ts).
use mathlib.Core.Path.{subst}
use mastermind_minecraft_ser.Prelude.{
  ℕ, ◌+◌, ◌≤◌, Bool, true, false, not, ◌&&◌, ◌≡◌, refl, sym, ap, ◌∙◌, some, List, [], ◌∷◌, ◌++◌,
  any, ==_iff, ==_refl, total, arith, if◌then◌else◌, Bool-cases, Option-cases, inl, inr,
}
use mathlib.Core.Option.{some-injective}
use mastermind_minecraft_ser.Jobs.Queue.{
  QueueJobData, is_read_only, has_run_id, add_job, GetJobs, may_take, remove_run, first_free,
  get_next_job_for_host,
}

-- how many entries have the id
abbrev pub entries : ℕ → List QueueJobData → ℕ
entries id queue = total (λ j. if has_run_id id j then 1 else 0) queue

-- Each run has at most one entry.
abbrev pub IsSingle : List QueueJobData → Type 0
IsSingle queue = (id : ℕ) → entries id queue ≤ 1

entries-none :
    (id : ℕ) (queue : List QueueJobData) → any (has_run_id id) queue ≡ false → entries id queue ≡ 0
unfolding total
entries-none id [] h = refl
entries-none id (j ∷ js) h = ground (arith, entries-none id js)

none-entries :
    (id : ℕ) (queue : List QueueJobData) → entries id queue ≡ 0 → any (has_run_id id) queue ≡ false
unfolding total
none-entries id [] h = refl
none-entries id (j ∷ js) h = ground (arith, none-entries id js)

entries-append :
    (id : ℕ) (j : QueueJobData) (queue : List QueueJobData)
    → entries id (queue ++ (j ∷ [])) ≡ entries id queue + (if has_run_id id j then 1 else 0)
unfolding total
entries-append id j [] = omega arith
entries-append id j (k ∷ ks) = omega (arith, entries-append id j ks)

one_more :
    (id : ℕ) (j : QueueJobData) (queue : List QueueJobData)
    → any (has_run_id j.job_run_id) queue ≡ false
    → entries id queue ≤ 1
    → entries id queue + (if has_run_id id j then 1 else 0) ≤ 1
one_more id j queue free v = elim (Bool-cases (has_run_id id j)) [
  | inr other ↦ rw other (omega arith)
  | inl own ↦
      let e : j.job_run_id ≡ id = (==_iff j.job_run_id id).0 own in
      let before : entries id queue ≡ 0 =
        entries-none id queue (subst (λ (i : ℕ). any (has_run_id i) queue ≡ false) e free) in
      rw own (omega (arith, before))
]

-- Adding a run keeps one entry for each run, also when it is added again.
pub add_job-IsSingle :
    (j : QueueJobData) (queue : List QueueJobData) → IsSingle queue → IsSingle (add_job j queue)
unfolding add_job
add_job-IsSingle j queue v id = elim (Bool-cases (any (has_run_id j.job_run_id) queue)) [
  | inl there ↦ rw (there, add_job) (v id)
  | inr free ↦ rw (free, add_job, entries-append id j queue) (one_more id j queue free (v id))
]

entries-remove_run :
    (id : ℕ) (queue : List QueueJobData)
    → any (has_run_id id) queue ≡ true
    → entries id (remove_run id queue) + 1 ≡ entries id queue
unfolding total remove_run
entries-remove_run id [] h = absurd (ground arith)
entries-remove_run id (j ∷ js) h = ground (arith, entries-remove_run id js)

entries-fewer :
    (i id : ℕ) (queue : List QueueJobData) → entries i (remove_run id queue) ≤ entries i queue
unfolding total remove_run
entries-fewer i id [] = omega arith
entries-fewer i id (j ∷ js) = ground (arith, entries-fewer i id js)

may_take-means :
    (host : ℕ) (busy : Bool) (j : QueueJobData)
    → may_take host busy j ≡ true
    → (j.host_id ≡ host) × ((busy && not (is_read_only j.type)) ≡ false)
unfolding may_take
may_take-means host busy j h = ((==_iff j.host_id host).0 (ground arith), ground arith)

first_free-found :
    (taken : QueueJobData → Bool) (host : ℕ) (busy : Bool) (queue : List QueueJobData)
    (j : QueueJobData)
    → first_free taken host busy queue ≡ some j
    → (may_take host busy j ≡ true) × (any (has_run_id j.job_run_id) queue ≡ true)
unfolding first_free
first_free-found taken host busy [] j h = absurd (ground arith)
first_free-found taken host busy (k ∷ ks) j h = elim (Bool-cases (may_take host busy k)) [
  | inr no_host ↦
      let (may, there) = first_free-found taken host busy ks j (ground arith) in (may, ground arith)
  | inl may_k ↦ elim (Bool-cases (taken k)) [
    | inl lost ↦
        let (may, there) = first_free-found taken host busy ks j (ground arith) in
        (may, ground arith)
    | inr free ↦
        let e : k ≡ j = ground arith in
        subst
          (λ (r : QueueJobData).
            (may_take host busy r ≡ true) × (any (has_run_id r.job_run_id) (k ∷ ks) ≡ true))
          e (may_k, rw (==_refl k.job_run_id) refl)
  ]
]

-- What a poll gives out is a run of the host, one that only reads while the host is busy with another
-- change, and it is gone from the queue that is left: where every
-- run has one entry there, and what is looked at are entries of the queue.
pub get_next_job_for_host-taken :
    (get_jobs : GetJobs) (taken : QueueJobData → Bool) (host : ℕ) (busy : Bool)
    (queue next : List QueueJobData) (j : QueueJobData)
    → IsSingle queue
    → ((id : ℕ) → any (has_run_id id) (get_jobs queue) ≡ true → any (has_run_id id) queue ≡ true)
    → get_next_job_for_host get_jobs taken host busy queue ≡ some (j, next)
    → (j.host_id ≡ host)
      × ((busy && not (is_read_only j.type)) ≡ false)
      × (any (has_run_id j.job_run_id) queue ≡ true)
      × (any (has_run_id j.job_run_id) next ≡ false)
      × IsSingle next
unfolding get_next_job_for_host
get_next_job_for_host-taken get_jobs taken host busy queue next j v own h =
    elim (Option-cases (first_free taken host busy (get_jobs queue))) [
      | inl nothing ↦ absurd (ground (arith, nothing, h))
      | inr (k, found) ↦
          let given : get_next_job_for_host get_jobs taken host busy queue
              ≡ some (k, remove_run k.job_run_id queue) =
            rw (found, get_next_job_for_host) refl in
          let pair : Path (QueueJobData × List QueueJobData) (k, remove_run k.job_run_id queue)
              (j, next) =
            some-injective (k, remove_run k.job_run_id queue) (j, next) (sym given ∙ h) in
          let e : k ≡ j = ap (λ (r : QueueJobData × List QueueJobData). r.0) pair in
          let left : remove_run k.job_run_id queue ≡ next =
            ap (λ (r : QueueJobData × List QueueJobData). r.1) pair in
          let (may, there) = first_free-found taken host busy (get_jobs queue) k found in
          let in_queue = own k.job_run_id there in
          let (host_id, reads) = may_take-means host busy k may in
          subst
            (λ (r : QueueJobData).
              (r.host_id ≡ host)
              × ((busy && not (is_read_only r.type)) ≡ false)
              × (any (has_run_id r.job_run_id) queue ≡ true)
              × (any (has_run_id r.job_run_id) next ≡ false)
              × IsSingle next)
            e
            (
              host_id,
              reads,
              in_queue,
              subst (λ (q : List QueueJobData). any (has_run_id k.job_run_id) q ≡ false) left
                  (none-entries k.job_run_id (remove_run k.job_run_id queue) (
                    omega (arith, entries-remove_run k.job_run_id queue in_queue, v k.job_run_id))),
              subst IsSingle left (λ i. omega (arith, entries-fewer i k.job_run_id queue, v i)),
            )
    ]
