-- ===== src/Triggers/Fires/Once.antt =====
-- A trigger fires once for a player and an event.
use mastermind_minecraft_ser.Prelude.{
  ℕ, Bool, true, false, ◌≡◌, refl, Text, same_refl, Option, none, some, List, [], ◌∷◌, ==_refl,
  find_first, update_first, Bool-cases, Option-cases, inl, inr, arith,
}
use mastermind_minecraft_ser.Grants.Items.{Runtime}
use mastermind_minecraft_ser.Triggers.Catalog.{
  GrantItemsActionConfig, parse_grant_items_action_config,
}
use mastermind_minecraft_ser.Triggers.Fires.{
  Fire, Trigger, Player, Db, has_fire_id, is_for, set_pending, give_up, set_queued, is_exhausted,
  queue_grant, grant_fire, new_fire, record_and_grant, enqueue_grant_items, fire_once,
}

-- a fire of the key is there
abbrev pub HasFired : ℕ → ℕ → Text → List Fire → Type 0
HasFired trigger player key fires =
    (f : Fire) × (find_first (is_for trigger player key) fires ≡ some f)

-- a write that keeps the key keeps the fires found by it
kept :
    (trigger player : ℕ) (key : Text) (p : Fire → Bool) (g : Fire → Fire) (fires : List Fire)
    → ((f : Fire) → is_for trigger player key (g f) ≡ is_for trigger player key f)
    → HasFired trigger player key fires
    → HasFired trigger player key (update_first p g fires)
unfolding find_first update_first
kept trigger player key p g [] keep (f, h) = absurd (ground arith)
kept trigger player key p g (x ∷ fires) keep (f, h) =
    elim (Bool-cases (is_for trigger player key x)) [
      | inl own ↦ elim (Bool-cases (p x)) [
        | inl written ↦ (g x, rw (written, keep x, own) refl)
        | inr left ↦ (x, rw (left, own) refl)
      ]
      | inr other ↦
          let (f', h') = kept trigger player key p g fires keep (f, rw other at h) in
          elim (Bool-cases (p x)) [
            | inl written ↦ (f, rw (written, keep x, other) (rw other at h))
            | inr left ↦ (f', rw (left, other) h')
          ]
    ]

give_up-key : (t p : ℕ) (k : Text) (f : Fire) → is_for t p k (give_up f) ≡ is_for t p k f
unfolding give_up
give_up-key t p k f = refl

set_queued-key :
    (job t p : ℕ) (k : Text) (f : Fire) → is_for t p k (set_queued job f) ≡ is_for t p k f
unfolding set_queued
set_queued-key job t p k f = refl

queue_grant-fired :
    (db : Db) (fire : ℕ) (b : Bool) (trigger : Trigger) (config : GrantItemsActionConfig)
    (job : Option ℕ) (t p : ℕ) (k : Text)
    → HasFired t p k db.fires
    → HasFired t p k (queue_grant db fire b trigger config job).fires
unfolding queue_grant
queue_grant-fired db fire b trigger config none t p k h = h
queue_grant-fired db fire true trigger config (some job) t p k h =
    kept t p k (has_fire_id fire) (set_queued job) db.fires (set_queued-key job t p k) h
queue_grant-fired db fire false trigger config (some job) t p k h =
    kept t p k (has_fire_id fire) (set_queued job) db.fires (set_queued-key job t p k) h

grant_fire-fired :
    (db : Db) (fire : ℕ) (b : Bool) (trigger : Trigger) (player : Player)
    (config : GrantItemsActionConfig) (job : Option ℕ) (t p : ℕ) (k : Text)
    → HasFired t p k db.fires
    → HasFired t p k (grant_fire db fire b trigger player config job).fires
unfolding grant_fire
grant_fire-fired db fire b trigger player config job t p k h = elim (Bool-cases player.online) [
  | inr off ↦
      rw (off, grant_fire) (kept t p k (has_fire_id fire) set_pending db.fires (λ f. refl) h)
  | inl on ↦ elim (Bool-cases (is_exhausted (find_first (has_fire_id fire) db.fires))) [
    | inl over ↦
        rw (on, over, grant_fire)
          (kept t p k (has_fire_id fire) give_up db.fires (give_up-key t p k) h)
    | inr left ↦ rw (on, left, grant_fire) (queue_grant-fired db fire b trigger config job t p k h)
  ]
]

new_fire-own :
    (id now : ℕ) (trigger : Trigger) (player : Player) (key : Text) (fires : List Fire)
    → HasFired trigger.id player.id key (new_fire id now trigger player key ∷ fires)
unfolding new_fire find_first
new_fire-own id now trigger player key fires = (
  new_fire id now trigger player key,
  rw (==_refl trigger.id, ==_refl player.id, same_refl key) refl,
)

-- the key has fired, or the table is left as it was, whatever is tried
fire_once-known :
    (js : Runtime) (db : Db) (now id : ℕ) (trigger : Trigger) (player : Player) (key : Text)
    (job : Option ℕ)
    → HasFired trigger.id player.id key db.fires
    → fire_once js db now id trigger player key job ≡ db
unfolding fire_once
fire_once-known js db now id trigger player key job (f, h) = rw (h, fire_once) refl

fire_once-broken :
    (js : Runtime) (db : Db) (now id : ℕ) (trigger : Trigger) (player : Player) (key : Text)
    (job : Option ℕ)
    → parse_grant_items_action_config js trigger.action_config ≡ none
    → fire_once js db now id trigger player key job ≡ db
unfolding fire_once enqueue_grant_items
fire_once-broken js db now id trigger player key job e =
    elim (Option-cases (find_first (is_for trigger.id player.id key) db.fires)) [
      | inl first ↦ rw (first, fire_once, e, enqueue_grant_items) refl
      | inr known ↦ fire_once-known js db now id trigger player key job known
    ]

pub fire_once-fired :
    (js : Runtime) (db : Db) (now id : ℕ) (trigger : Trigger) (player : Player) (key : Text)
    (job : Option ℕ) (config : GrantItemsActionConfig)
    → parse_grant_items_action_config js trigger.action_config ≡ some config
    → HasFired trigger.id player.id key (fire_once js db now id trigger player key job).fires
unfolding fire_once enqueue_grant_items record_and_grant
fire_once-fired js db now id trigger player key job config e =
    elim (Option-cases (find_first (is_for trigger.id player.id key) db.fires)) [
      | inr known ↦ rw (fire_once-known js db now id trigger player key job known) known
      | inl first ↦
          rw (first, fire_once, e, enqueue_grant_items, first, record_and_grant)
            (grant_fire-fired (record db { fires = new_fire id now trigger player key ∷ db.fires })
              id true trigger player config job trigger.id player.id key
              (new_fire-own id now trigger player key db.fires))
    ]

-- a new row does not hide another key's
added :
    (f : Fire) (t p : ℕ) (k : Text) (fires : List Fire)
    → HasFired t p k fires
    → HasFired t p k (f ∷ fires)
unfolding find_first
added f t p k fires (f', h) = elim (Bool-cases (is_for t p k f)) [
  | inl own ↦ (f, rw own refl)
  | inr other ↦ (f', rw other h)
]

-- firing keeps what has fired
pub fire_once-keeps :
    (js : Runtime) (db : Db) (now id : ℕ) (trigger : Trigger) (player : Player) (key : Text)
    (job : Option ℕ) (t p : ℕ) (k : Text)
    → HasFired t p k db.fires
    → HasFired t p k (fire_once js db now id trigger player key job).fires
unfolding fire_once enqueue_grant_items record_and_grant
fire_once-keeps js db now id trigger player key job t p k h =
    elim (Option-cases (find_first (is_for trigger.id player.id key) db.fires)) [
      | inr known ↦ rw (fire_once-known js db now id trigger player key job known) h
      | inl first ↦ elim (Option-cases (parse_grant_items_action_config js trigger.action_config)) [
        | inl broken ↦ rw (fire_once-broken js db now id trigger player key job broken) h
        | inr (config, e) ↦
            rw (first, fire_once, e, enqueue_grant_items, first, record_and_grant)
              (grant_fire-fired
                (record db { fires = new_fire id now trigger player key ∷ db.fires }) id true
                trigger player config job t p k
                (added (new_fire id now trigger player key) t p k db.fires h))
      ]
    ]

-- Firing a trigger a second time for the same player and event changes nothing, whatever id and job
-- the second try is offered and whether or not the player is online: no row, no job, no count.
pub fire_once-once :
    (js : Runtime) (db : Db) (now now' id id' : ℕ) (trigger : Trigger) (player : Player)
    (key : Text) (job job' : Option ℕ)
    → let db' = fire_once js db now id trigger player key job in
      fire_once js db' now' id' trigger player key job' ≡ db'
fire_once-once js db now now' id id' trigger player key job job' =
    elim (Option-cases (parse_grant_items_action_config js trigger.action_config)) [
      | inl broken ↦
          fire_once-broken js (fire_once js db now id trigger player key job) now' id' trigger
            player key job' broken
      | inr (config, e) ↦
          fire_once-known js (fire_once js db now id trigger player key job) now' id' trigger player
            key job' (fire_once-fired js db now id trigger player key job config e)
    ]
