-- ===== src/Triggers/Fires/Attempts.antt =====
-- The jobs of a fire are counted by its attempts, and there are at most eight.
pub mod Reachable
use mathlib.Core.Path.{subst}
use mathlib.Core.Option.{some-injective}
use mastermind_minecraft_ser.Prelude.{
  ℕ, zero, suc, ◌+◌, ◌≤◌, ◌<◌, Bool, true, false, ◌&&◌, not, ◌≡◌, refl, sym, ap, ◌∙◌, Text, same,
  Option, none, some, List, [], ◌∷◌, ==_refl, ==_iff, find_first, update_first, update_many, total,
  Bool-cases, Option-cases, inl, inr, arith, ◌==◌, if◌then◌else◌, leb, find_first-update_first,
  find_first-update_first_self, find_first-update_first_inv, find_first-holds,
}
use mastermind_minecraft_ser.Grants.Items.{Runtime, max_grant_attempts}
use mastermind_minecraft_ser.Grants.Outcome.{RunResult, GrantOutcome}
use mastermind_minecraft_ser.Triggers.Catalog.{
  GrantItemsActionConfig, parse_grant_items_action_config,
}
use mastermind_minecraft_ser.Triggers.Fires.{
  Fire, FireStatus, Trigger, Player, Db, GrantJob, has_fire_id, is_for, write, set_pending, give_up,
  set_queued, is_exhausted, queue_grant, grant_fire, grant_alone, new_fire, record_and_grant,
  grant_again, enqueue_grant_items, fire_once, settle, complete_item_grant, is_stale, requeue_stale,
}

abbrev pub is_job_of : ℕ → Option ℕ → Bool
is_job_of id none = false
is_job_of id (some f) = f == id

-- the jobs queued for a fire
abbrev pub jobs_of : ℕ → List GrantJob → ℕ
jobs_of id jobs = total (λ j. if is_job_of id j.fire_id then 1 else 0) jobs

pub record IsBounded (db : Db) : Type 0 where
  pub counted :
      (id : ℕ) (f : Fire)
      → find_first (has_fire_id id) db.fires ≡ some f
      → (jobs_of id db.jobs ≡ f.attempts) × (f.attempts ≤ max_grant_attempts)
  pub fresh : (id : ℕ) → find_first (has_fire_id id) db.fires ≡ none → jobs_of id db.jobs ≡ 0

-- a write that keeps every id
update-none :
    (id at : ℕ) (g : Fire → Fire) (fires : List Fire)
    → ((f : Fire) → (g f).id ≡ f.id)
    → find_first (has_fire_id id) (update_first (has_fire_id at) g fires) ≡ none
    → find_first (has_fire_id id) fires ≡ none
unfolding find_first update_first
update-none id at g [] keep h = refl
update-none id at g (x ∷ fires) keep h = ground (arith, keep x, update-none id at g fires keep)

module _ (db : Db) (at : ℕ) (g : Fire → Fire) (keep : (f : Fire) → (g f).id ≡ f.id) where
  -- the rows with another id are as they were
  elsewhere :
      (id : ℕ) (f : Fire)
      → (at == id) ≡ false
      → find_first (has_fire_id id) (write at g db).fires ≡ some f
      → find_first (has_fire_id id) db.fires ≡ some f
  elsewhere id f apart h =
      sym (
        find_first-update_first (has_fire_id at) (has_fire_id id) g db.fires (λ x. rw (keep x) refl)
          (λ x q. ground arith))
      ∙ h

  -- the row written
  written :
      (id : ℕ) (f : Fire)
      → (at == id) ≡ true
      → find_first (has_fire_id id) (write at g db).fires ≡ some f
      → (f' : Fire) × (find_first (has_fire_id id) db.fires ≡ some f') × (g f' ≡ f)
  written id f this h =
      let own : at ≡ id = (==_iff at id).0 this in
      let (f', found, e) =
        find_first-update_first_inv (has_fire_id at) g db.fires f (λ x. rw (keep x) refl)
          (subst (λ (i : ℕ). find_first (has_fire_id i) (write at g db).fires ≡ some f) (sym own)
            h) in
      (f', subst (λ (i : ℕ). find_first (has_fire_id i) db.fires ≡ some f') own found, e)

  pub write-IsBounded :
      ((f : Fire) → (g f).attempts ≡ f.attempts) → IsBounded db → IsBounded (write at g db)
  write-IsBounded same_attempts b = record {
    counted = λ id f h. elim (Bool-cases (at == id)) [
      | inr other ↦ b.counted id f (elsewhere id f other h)
      | inl this ↦
          let (f', found, e) = written id f this h in
          let (n, le) = b.counted id f' found in
          let k : f.attempts ≡ f'.attempts =
            sym (ap (λ (x : Fire). x.attempts) e) ∙ same_attempts f' in
          (n ∙ sym k, omega arith)
    ];
    fresh = λ id h. b.fresh id (update-none id at g db.fires keep h);
  }

pub settle-keeps :
    (o : GrantOutcome) (e : Option Text) (f : Fire)
    → ((settle o e f).id ≡ f.id) × ((settle o e f).attempts ≡ f.attempts)
unfolding settle
settle-keeps GrantOutcome.delivered e f = (refl, refl)
settle-keeps GrantOutcome.failed e f = (refl, refl)
settle-keeps GrantOutcome.retry e f = (ground arith, ground arith)

pub give_up-keeps : (f : Fire) → ((give_up f).id ≡ f.id) × ((give_up f).attempts ≡ f.attempts)
unfolding give_up
give_up-keeps f = (refl, refl)

set_queued-keeps :
    (job : ℕ) (f : Fire)
    → ((set_queued job f).id ≡ f.id) × ((set_queued job f).attempts ≡ suc f.attempts)
unfolding set_queued
set_queued-keeps job f = (refl, omega arith)

-- a job with its attempt
abbrev pub with_job : Db → ℕ → GrantItemsActionConfig → ℕ → Db
with_job db fire config job =
    write fire (set_queued job)
      (record db { jobs = record { job_id = job; fire_id = some fire; config = config } ∷ db.jobs })

pub with_job-IsBounded :
    (db : Db) (fire job : ℕ) (config : GrantItemsActionConfig) (f : Fire)
    → IsBounded db
    → find_first (has_fire_id fire) db.fires ≡ some f
    → is_exhausted (find_first (has_fire_id fire) db.fires) ≡ false
    → IsBounded (with_job db fire config job)
unfolding total is_exhausted
with_job-IsBounded db fire job config f b there left =
    let few : f.attempts < max_grant_attempts = ground arith in
    let keep = λ (x : Fire). (set_queued-keeps job x).0 in
    record {
      counted = λ id f' h. elim (Bool-cases (fire == id)) [
        | inr other ↦
            ground (arith, b.counted id f' (elsewhere db fire (set_queued job) keep id f' other h))
        | inl this ↦
            let (f'', found, e) = written db fire (set_queued job) keep id f' this h in
            let own : fire ≡ id = (==_iff fire id).0 this in
            let same_row : f ≡ f'' = some-injective f f'' (
              sym there
              ∙ subst (λ (i : ℕ). find_first (has_fire_id i) db.fires ≡ some f'') (sym own)
                  found) in
            let k : f'.attempts ≡ suc f''.attempts =
              sym (ap (λ (x : Fire). x.attempts) e) ∙ (set_queued-keeps job f'').1 in
            let n : f.attempts ≡ f''.attempts = ap (λ (x : Fire). x.attempts) same_row in
            ground (arith, b.counted id f'' found)
      ];
      fresh = λ id h. elim (Bool-cases (fire == id)) [
        | inr other ↦
            ground (arith, b.fresh id (update-none id fire (set_queued job) db.fires keep h))
        | inl this ↦
            let own : fire ≡ id = (==_iff fire id).0 this in
            let gone = update-none id fire (set_queued job) db.fires keep h in
            absurd (
              ground
                (arith, subst (λ (i : ℕ). find_first (has_fire_id i) db.fires ≡ some f) own there))
      ];
    }
