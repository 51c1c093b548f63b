-- ===== src/Triggers/Fires/Attempts/Reachable.antt =====
-- Whatever the service does, a fire never gets more than eight jobs.
use mastermind_minecraft_ser.Prelude.{
  ℕ, ◌≤◌, Bool, true, false, ◌≡◌, refl, sym, ◌∙◌, Text, Option, none, some, List, [], ◌∷◌, ==_refl,
  ==_iff, find_first, update_many, total, Bool-cases, Option-cases, inl, inr, arith, ◌==◌,
  if◌then◌else◌,
}
use mastermind_minecraft_ser.Grants.Items.{Runtime, max_grant_attempts}
use mastermind_minecraft_ser.Grants.Outcome.{RunResult}
use mastermind_minecraft_ser.Triggers.Catalog.{
  GrantItemsActionConfig, parse_grant_items_action_config,
}
use mastermind_minecraft_ser.Triggers.Fires.{
  Fire, Trigger, Player, Db, has_fire_id, is_for, set_pending, give_up, is_exhausted, queue_grant,
  grant_fire, grant_alone, new_fire, record_and_grant, grant_again, enqueue_grant_items, fire_once,
  complete_item_grant, is_stale, requeue_stale,
}
use mastermind_minecraft_ser.Triggers.Fires.Attempts.{
  jobs_of, IsBounded, write-IsBounded, settle-keeps, give_up-keeps, with_job-IsBounded,
}

queue_grant-IsBounded :
    (db : Db) (fire : ℕ) (b : Bool) (trigger : Trigger) (config : GrantItemsActionConfig)
    (job : Option ℕ) (f : Fire)
    → IsBounded db
    → find_first (has_fire_id fire) db.fires ≡ some f
    → is_exhausted (find_first (has_fire_id fire) db.fires) ≡ false
    → IsBounded (queue_grant db fire b trigger config job)
unfolding queue_grant
queue_grant-IsBounded db fire b trigger config none f v h left = v
queue_grant-IsBounded db fire true trigger config (some job) f v h left =
    let w = with_job-IsBounded db fire job config f v h left in
    record { counted = w.counted; fresh = w.fresh }
queue_grant-IsBounded db fire false trigger config (some job) f v h left =
    with_job-IsBounded db fire job config f v h left

grant_fire-IsBounded :
    (db : Db) (fire : ℕ) (b : Bool) (trigger : Trigger) (player : Player)
    (config : GrantItemsActionConfig) (job : Option ℕ) (f : Fire)
    → IsBounded db
    → find_first (has_fire_id fire) db.fires ≡ some f
    → IsBounded (grant_fire db fire b trigger player config job)
unfolding grant_fire
grant_fire-IsBounded db fire b trigger player config job f v h = elim (Bool-cases player.online) [
  | inr off ↦ rw (off, grant_fire) (write-IsBounded db fire set_pending (λ x. refl) (λ x. refl) v)
  | inl on ↦ elim (Bool-cases (is_exhausted (find_first (has_fire_id fire) db.fires))) [
    | inl over ↦
        rw (on, over, grant_fire)
          (write-IsBounded db fire give_up (λ x. (give_up-keeps x).0) (λ x. (give_up-keeps x).1) v)
    | inr left ↦
        rw (on, left, grant_fire) (queue_grant-IsBounded db fire b trigger config job f v h left)
  ]
]

-- a fire with a new id
new_fire-IsBounded :
    (db : Db) (now id : ℕ) (trigger : Trigger) (player : Player) (key : Text)
    → IsBounded db
    → find_first (has_fire_id id) db.fires ≡ none
    → IsBounded (record db { fires = new_fire id now trigger player key ∷ db.fires })
unfolding find_first new_fire
new_fire-IsBounded db now id trigger player key v free = record {
  counted = λ i f h. elim (Bool-cases (id == i)) [
    | inl this ↦ ground (arith, v.fresh id free, (==_iff id i).0 this)
    | inr other ↦ v.counted i f (rw other at h)
  ];
  fresh = λ i h. elim (Bool-cases (id == i)) [
    | inl this ↦ absurd (ground arith)
    | inr other ↦ v.fresh i (rw other at h)
  ];
}

-- a row that is found has its id found
id_found :
    (p : Fire → Bool) (fires : List Fire) (f : Fire)
    → find_first p fires ≡ some f
    → (f' : Fire) × (find_first (has_fire_id f.id) fires ≡ some f')
unfolding find_first
id_found p [] f h = absurd (ground arith)
id_found p (x ∷ fires) f h = elim (Bool-cases (x.id == f.id)) [
  | inl here ↦ (x, rw here refl)
  | inr on ↦ elim (Bool-cases (p x)) [
    | inl this ↦ absurd (ground (arith, ==_refl f.id))
    | inr other ↦ let (f', h') = id_found p fires f (rw other at h) in (f', rw on h')
  ]
]

grant_alone-IsBounded :
    (db : Db) (player : Player) (config : GrantItemsActionConfig) (job : Option ℕ)
    → IsBounded db
    → IsBounded (grant_alone db player config job)
unfolding grant_alone total
grant_alone-IsBounded db player config none v = v
grant_alone-IsBounded db player config (some job) v = elim (Bool-cases player.online) [
  | inr off ↦ rw (off, grant_alone) v
  | inl on ↦
      rw (on, grant_alone)
        (record {
          counted = λ id f h. ground (arith, v.counted id f h);
          fresh = λ id h. ground (arith, v.fresh id h);
        })
]

-- Granting the items of a trigger keeps the count of jobs of every fire equal to its attempts and at
-- most eight, with a new row or for one that is there, provided that a new row's id is new.
pub enqueue_grant_items-IsBounded :
    (js : Runtime) (db : Db) (now id : ℕ) (trigger : Trigger) (player : Player) (key : Text)
    (b : Bool) (job : Option ℕ)
    → IsBounded db
    → find_first (has_fire_id id) db.fires ≡ none
    → IsBounded (enqueue_grant_items js db now id trigger player key b job)
unfolding enqueue_grant_items record_and_grant grant_again find_first new_fire
enqueue_grant_items-IsBounded js db now id trigger player key b job v free =
    elim (Option-cases (parse_grant_items_action_config js trigger.action_config)) [
      | inl broken ↦ rw (broken, enqueue_grant_items) v
      | inr (config, e) ↦ rw (e, enqueue_grant_items) (granted config b)
    ]
  where
    granted :
        (config : GrantItemsActionConfig) (b : Bool)
        → IsBounded (
            if b
            then record_and_grant db now id trigger player key config job
            else grant_again db trigger player key config job)
    granted config true =
        elim (Option-cases (find_first (is_for trigger.id player.id key) db.fires)) [
          | inr (f, h) ↦ rw (h, record_and_grant) v
          | inl first ↦
              rw (first, record_and_grant)
                (grant_fire-IsBounded
                  (record db { fires = new_fire id now trigger player key ∷ db.fires }) id true
                  trigger player config job (new_fire id now trigger player key)
                  (new_fire-IsBounded db now id trigger player key v free) (rw (==_refl id) refl))
        ]
    granted config false =
        elim (Option-cases (find_first (is_for trigger.id player.id key) db.fires)) [
          | inl nothing ↦ rw (nothing, grant_again) (grant_alone-IsBounded db player config job v)
          | inr (f, h) ↦
              let (f', h') = id_found (is_for trigger.id player.id key) db.fires f h in
              rw (h, grant_again)
                (grant_fire-IsBounded db f.id false trigger player config job f' v h')
        ]

requeued-find :
    (id : ℕ) (p : Fire → Bool) (g : Fire → Fire) (fires : List Fire)
    → ((f : Fire) → (g f).id ≡ f.id)
    → ((f : Fire) → (g f).attempts ≡ f.attempts)
    → ((f : Fire)
        → find_first (has_fire_id id) (update_many p g fires) ≡ some f
        → (f' : Fire) × (find_first (has_fire_id id) fires ≡ some f') × (f.attempts ≡ f'.attempts))
      × (find_first (has_fire_id id) (update_many p g fires) ≡ none
          → find_first (has_fire_id id) fires ≡ none)
unfolding find_first update_many
requeued-find id p g [] ki ka = (λ f h. absurd (ground arith), λ h. refl)
requeued-find id p g (x ∷ fires) ki ka =
    let (some_case, none_case) = requeued-find id p g fires ki ka in
    (
      λ f h. elim (Bool-cases (x.id == id)) [
        | inl this ↦ (x, rw this refl, ground (arith, ki x, ka x))
        | inr other ↦ let (f', h', e) = some_case f (ground (arith, ki x)) in (f', rw other h', e)
      ],
      λ h. ground (arith, ki x, none_case),
    )

requeue_stale-IsBounded :
    (covers : Fire → Bool) (db : Db) (now : ℕ)
    → IsBounded db
    → IsBounded (requeue_stale covers db now)
unfolding requeue_stale
requeue_stale-IsBounded covers db now v = record {
  counted = λ id f h.
      let (f', h', e) =
        (requeued-find id (is_stale covers now) _ db.fires (λ x. refl) (λ x. refl)).0 f h in
      let (n, le) = v.counted id f' h' in (n ∙ sym e, omega arith);
  fresh = λ id h.
      v.fresh id ((requeued-find id (is_stale covers now) _ db.fires (λ x. refl) (λ x. refl)).1 h);
}

complete_item_grant-IsBounded :
    (db : Db) (id : Option ℕ) (result : RunResult) (output : Option Text) (shown : Text)
    → IsBounded db
    → IsBounded (complete_item_grant db id result output shown)
unfolding complete_item_grant
complete_item_grant-IsBounded db none result output shown v = v
complete_item_grant-IsBounded db (some id) result output shown v =
    write-IsBounded db id _ (λ f. (settle-keeps _ _ f).0) (λ f. (settle-keeps _ _ f).1) v

fire_once-IsBounded :
    (js : Runtime) (db : Db) (now id : ℕ) (trigger : Trigger) (player : Player) (key : Text)
    (job : Option ℕ)
    → IsBounded db
    → find_first (has_fire_id id) db.fires ≡ none
    → IsBounded (fire_once js db now id trigger player key job)
unfolding fire_once
fire_once-IsBounded js db now id trigger player key job v free =
    elim (Option-cases (find_first (is_for trigger.id player.id key) db.fires)) [
      | inr (f, h) ↦ rw (h, fire_once) v
      | inl first ↦
          rw (first, fire_once)
            (enqueue_grant_items-IsBounded js db now id trigger player key true job v free)
    ]

-- One thing that the service does with the fires; the events' evaluation and the retries are made of these.
pub data Step (js : Runtime) (db : Db) : Db → Type 0 where
  fires_once :
      (now id : ℕ) (trigger : Trigger) (player : Player) (key : Text) (job : Option ℕ)
      → find_first (has_fire_id id) db.fires ≡ none
      → Step js db (fire_once js db now id trigger player key job)
  tries_again :
      (now id : ℕ) (trigger : Trigger) (player : Player) (key : Text) (job : Option ℕ)
      → find_first (has_fire_id id) db.fires ≡ none
      → Step js db (enqueue_grant_items js db now id trigger player key false job)
  completes :
      (id : Option ℕ) (result : RunResult) (output : Option Text) (shown : Text)
      → Step js db (complete_item_grant db id result output shown)
  requeues : (covers : Fire → Bool) (now : ℕ) → Step js db (requeue_stale covers db now)

pub data Reachable (js : Runtime) : Db → Type 0 where
  start : Reachable js (record { fires = []; jobs = []; fired = [] })
  next : (db db' : Db) → Reachable js db → Step js db db' → Reachable js db'

Step-IsBounded : (js : Runtime) (db db' : Db) → IsBounded db → Step js db db' → IsBounded db'
Step-IsBounded js db _ v (fires_once now id trigger player key job free) =
    fire_once-IsBounded js db now id trigger player key job v free
Step-IsBounded js db _ v (tries_again now id trigger player key job free) =
    enqueue_grant_items-IsBounded js db now id trigger player key false job v free
Step-IsBounded js db _ v (completes id result output shown) =
    complete_item_grant-IsBounded db id result output shown v
Step-IsBounded js db _ v (requeues covers now) = requeue_stale-IsBounded covers db now v

Reachable-IsBounded : (js : Runtime) (db : Db) → Reachable js db → IsBounded db
unfolding find_first total
Reachable-IsBounded js _ start = record {
  counted = λ id f h. absurd (ground arith);
  fresh = λ id h. refl;
}
Reachable-IsBounded js _ (next db db' r s) =
    Step-IsBounded js db db' (Reachable-IsBounded js db r) s

-- From empty tables on, in whatever order triggers fire, fires are tried again, reports come in and
-- stale fires are put back, no fire ever has more than eight jobs.
pub jobs_of-bounded :
    (js : Runtime) (db : Db) (id : ℕ) → Reachable js db → jobs_of id db.jobs ≤ max_grant_attempts
jobs_of-bounded js db id r =
    let v = Reachable-IsBounded js db r in
    elim (Option-cases (find_first (has_fire_id id) db.fires)) [
      | inl free ↦ omega (arith, v.fresh id free)
      | inr (f, h) ↦ omega (arith, (v.counted id f h).0, (v.counted id f h).1)
    ]
