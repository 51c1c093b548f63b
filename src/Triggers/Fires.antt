-- ===== src/Triggers/Fires.antt =====
-- The fires of triggers (triggers.service.ts): one row for each trigger, player and event, and the jobs
-- that grant its items. Ids that the database makes are arguments, and so is what the job queue
-- answers: the id of the new job, or none where it throws. The caller catches what is thrown.
pub mod Attempts
pub mod Once
use mastermind_minecraft_ser.Prelude.{
  filter, ℕ, zero, suc, ◌+◌, ◌*◌, Bool, true, false, ◌&&◌, ◌||◌, not, Text, codes, same, take,
  Option, none, some, List, [], ◌∷◌, length, leb, ltb, ◌==◌, if◌then◌else◌, find_first,
  update_first, update_many, total,
}
use mastermind_minecraft_ser.Json.{Value}
use mastermind_minecraft_ser.Grants.Items.{Runtime, max_grant_attempts}
use mastermind_minecraft_ser.Grants.Command.{trimmed}
use mastermind_minecraft_ser.Grants.Outcome.{RunResult, GrantOutcome, classify_grant_output}
use mastermind_minecraft_ser.Triggers.Catalog.{
  GrantItemsActionConfig, parse_grant_items_action_config, parse_playtime_config,
  parse_donation_total_config, event_key_for_first_join, event_key_for_playtime,
  event_key_for_donation_total, crossed_playtime_hours, crossed_donation_total_cents,
}

pub data FireStatus : Type 0 where
  pending queued delivered failed : FireStatus

pub record Fire : Type 0 where
  pub id : ℕ
  pub trigger_id : ℕ
  pub player_id : ℕ
  pub event_key : Text
  pub status : FireStatus
  pub job_id : Option ℕ
  pub attempts : ℕ
  pub last_error : Option Text
  pub created_at : ℕ

pub record Trigger : Type 0 where
  pub id : ℕ
  pub event_config : Value
  pub action_config : Value

pub record Player : Type 0 where
  pub id : ℕ
  pub online : Bool

-- A queued job, with the fire it is for.
pub record GrantJob : Type 0 where
  pub job_id : ℕ
  pub fire_id : Option ℕ
  pub config : GrantItemsActionConfig

-- The jobs with the latest first; `fired` holds a trigger's id for each time it has fired.
pub record Db : Type 0 where
  pub fires : List Fire
  pub jobs : List GrantJob
  pub fired : List ℕ

abbrev pub has_fire_id : ℕ → Fire → Bool
has_fire_id id f = f.id == id

-- the unique key of a fire
abbrev pub is_for : ℕ → ℕ → Text → Fire → Bool
is_for trigger player key f =
    f.trigger_id == trigger && f.player_id == player && same f.event_key key

abbrev pub write : ℕ → (Fire → Fire) → Db → Db
write id g db = record db { fires = update_first (has_fire_id id) g db.fires }

abbrev pub set_pending : Fire → Fire
set_pending f = record f { status = pending }

unfoldable pub error_or : Text → Option Text → Option Text
error_or t none = some t
error_or t (some []) = some t
error_or t e = e

unfoldable pub give_up : Fire → Fire
unfolding error_or
give_up f = record f {
  status = FireStatus.failed;
  last_error = error_or (codes "Max grant attempts exceeded") f.last_error;
}

unfoldable pub set_queued : ℕ → Fire → Fire
set_queued job f = record f {
  status = FireStatus.queued;
  job_id = some job;
  attempts = f.attempts + 1;
  last_error = none;
}

unfoldable pub is_exhausted : Option Fire → Bool
is_exhausted none = false
is_exhausted (some f) = leb max_grant_attempts f.attempts

-- The job is queued, then written to the fire; none when the making of the job throws, where a row of
-- a job that does not come into the queue is not kept, since no agent is given it. The attempts are
-- counted in one step, as when no other call for the fire comes between.
unfoldable pub queue_grant : Db → ℕ → Bool → Trigger → GrantItemsActionConfig → Option ℕ → Db
unfolding set_queued
queue_grant db fire record_fire trigger config none = db
queue_grant db fire record_fire trigger config (some job) =
    let queued_db = record db {
      jobs = record { job_id = job; fire_id = some fire; config = config } ∷ db.jobs;
    } in
    let written = write fire (set_queued job) queued_db in
    if record_fire then record written { fired = trigger.id ∷ db.fired } else written

-- The rest of `enqueueGrantItems`, for a fire that is there.
unfoldable pub grant_fire :
    Db → ℕ → Bool → Trigger → Player → GrantItemsActionConfig → Option ℕ → Db
unfolding is_exhausted give_up queue_grant
grant_fire db fire record_fire trigger player config job =
    if not player.online
    then write fire set_pending db
    else if is_exhausted (find_first (has_fire_id fire) db.fires)
    then write fire give_up db
    else queue_grant db fire record_fire trigger config job

-- the same without a fire: an online player gets the items, and nothing is written
unfoldable pub grant_alone : Db → Player → GrantItemsActionConfig → Option ℕ → Db
grant_alone db player config none = db
grant_alone db player config (some job) =
    if player.online
    then record db { jobs = record { job_id = job; fire_id = none; config = config } ∷ db.jobs }
    else db

unfoldable pub new_fire : ℕ → ℕ → Trigger → Player → Text → Fire
new_fire id now trigger player key = record {
  id = id;
  trigger_id = trigger.id;
  player_id = player.id;
  event_key = key;
  status = if player.online then queued else pending;
  job_id = none;
  attempts = 0;
  last_error = none;
  created_at = now;
}

-- `enqueueGrantItems` with `recordFire`: a second row for the key is refused by the table
unfoldable pub record_and_grant :
    Db → ℕ → ℕ → Trigger → Player → Text → GrantItemsActionConfig → Option ℕ → Db
unfolding new_fire grant_fire
record_and_grant db now id trigger player key config job =
    elim (find_first (is_for trigger.id player.id key) db.fires) [
      | some f ↦ db
      | none ↦
          grant_fire (record db { fires = new_fire id now trigger player key ∷ db.fires }) id true
            trigger player config job
    ]

-- `enqueueGrantItems` without `recordFire`
unfoldable pub grant_again : Db → Trigger → Player → Text → GrantItemsActionConfig → Option ℕ → Db
unfolding grant_fire grant_alone
grant_again db trigger player key config job =
    elim (find_first (is_for trigger.id player.id key) db.fires) [
      | some f ↦ grant_fire db f.id false trigger player config job
      | none ↦ grant_alone db player config job
    ]

unfoldable pub enqueue_grant_items :
    Runtime → Db → ℕ → ℕ → Trigger → Player → Text → Bool → Option ℕ → Db
unfolding record_and_grant grant_again parse_grant_items_action_config
enqueue_grant_items js db now id trigger player key record_fire job =
    elim (parse_grant_items_action_config js trigger.action_config) [
      | none ↦ db
      | some config ↦
          if record_fire
          then record_and_grant db now id trigger player key config job
          else grant_again db trigger player key config job
    ]

unfoldable pub fire_once : Runtime → Db → ℕ → ℕ → Trigger → Player → Text → Option ℕ → Db
unfolding enqueue_grant_items
fire_once js db now id trigger player key job =
    elim (find_first (is_for trigger.id player.id key) db.fires) [
      | some f ↦ db
      | none ↦ enqueue_grant_items js db now id trigger player key true job
    ]

-- what the agent reports of a grant
unfoldable pub settle : GrantOutcome → Option Text → Fire → Fire
settle GrantOutcome.delivered e f = record f { status = FireStatus.delivered; last_error = none }
settle GrantOutcome.failed e f = record f { status = FireStatus.failed; last_error = e }
settle GrantOutcome.retry e f =
    if leb max_grant_attempts f.attempts
    then record f { status = FireStatus.failed; last_error = e }
    else record f { status = pending; last_error = e }

unfoldable pub some_text : Text → Option Text
some_text [] = none
some_text t = some t

-- `id` is the fire of the job's payload, where it has one
unfoldable pub complete_item_grant : Db → Option ℕ → RunResult → Option Text → Text → Db
unfolding settle some_text classify_grant_output trimmed
complete_item_grant db none result output shown = db
complete_item_grant db (some id) result output shown =
    write id (settle (classify_grant_output shown result) (some_text (take 500 (trimmed output))))
      db

abbrev pub is_queued : Fire → Bool
is_queued f = elim f.status [ queued ↦ true | _ ↦ false ]

-- `retryPendingItemGrants`, its first statement; `covers` picks the fires of enabled triggers of the server
unfoldable pub is_stale : (Fire → Bool) → ℕ → Fire → Bool
is_stale covers now f =
    is_queued f
    && ltb f.attempts max_grant_attempts
    && ltb (f.created_at + 5 * 60000) now
    && covers f

unfoldable pub requeue_stale : (Fire → Bool) → Db → ℕ → Db
unfolding is_stale
requeue_stale covers db now = record db {
  fires =
      update_many (is_stale covers now)
        (λ f. record f {
          status = pending;
          last_error = some (codes "Stale queued grant; will retry");
        })
        db.fires;
}

-- What the queries join to a fire, and the answer of the job queue.
pub record Joined : Type 0 where
  pub trigger : Trigger
  pub player : Player
  pub job : Option ℕ

abbrev pub is_waiting : Fire → Bool
is_waiting f = elim f.status [ pending ↦ true | _ ↦ false ]

-- a pending fire with attempts left; `covers` is the rest of the condition
unfoldable pub is_retryable : (Fire → Bool) → Fire → Bool
is_retryable covers f = is_waiting f && ltb f.attempts max_grant_attempts && covers f

unfoldable pub retry_fires : Runtime → Db → ℕ → (Fire → Joined) → List Fire → Db
unfolding enqueue_grant_items
retry_fires js db now join [] = db
retry_fires js db now join (f ∷ fs) =
    let j = join f in
    retry_fires js (enqueue_grant_items js db now 0 j.trigger j.player f.event_key false j.job) now
      join fs

-- `covers` picks the fires of enabled triggers of the server, `online` those whose player is online
unfoldable pub retry_pending_item_grants :
    Runtime → Db → ℕ → (Fire → Bool) → (Fire → Bool) → (Fire → Joined) → Db
unfolding requeue_stale is_retryable retry_fires
retry_pending_item_grants js db now covers online join =
    let requeued = requeue_stale covers db now in
    retry_fires js requeued now join
      (take 32 (filter (is_retryable (λ f. covers f && online f)) requeued.fires))

-- `covers` picks the fires of enabled triggers
unfoldable pub retry_pending_item_grants_for_player :
    Runtime → Db → ℕ → ℕ → (Fire → Bool) → (Fire → Joined) → Db
unfolding is_retryable retry_fires
retry_pending_item_grants_for_player js db now player covers join =
    retry_fires js db now join
      (take 16 (filter (is_retryable (λ f. (f.player_id == player) && covers f)) db.fires))

-- One enabled trigger of the event, with the id of the fire that it may make and the answer of the
-- job queue.
pub record Candidate : Type 0 where
  pub trigger : Trigger
  pub fire_id : ℕ
  pub job : Option ℕ

unfoldable pub evaluate_first_join : Runtime → Db → ℕ → Player → List Candidate → Db
unfolding fire_once
evaluate_first_join js db now player [] = db
evaluate_first_join js db now player (c ∷ cs) =
    evaluate_first_join js
      (fire_once js db now c.fire_id c.trigger player event_key_for_first_join c.job) now player cs

unfoldable pub fire_playtime : Runtime → Db → ℕ → Player → ℕ → ℕ → Candidate → Option ℕ → Db
unfolding fire_once crossed_playtime_hours
fire_playtime js db now player previous next c none = db
fire_playtime js db now player previous next c (some hours) =
    if not (crossed_playtime_hours previous next hours)
    then db
    else fire_once js db now c.fire_id c.trigger player (event_key_for_playtime hours) c.job

unfoldable pub evaluate_playtime : Runtime → Db → ℕ → Player → ℕ → ℕ → List Candidate → Db
unfolding fire_playtime parse_playtime_config
evaluate_playtime js db now player previous next [] = db
evaluate_playtime js db now player previous next (c ∷ cs) =
    evaluate_playtime js
      (fire_playtime js db now player previous next c
        (parse_playtime_config js c.trigger.event_config))
      now player previous next cs

unfoldable pub fire_donation_total : Runtime → Db → ℕ → Player → ℕ → ℕ → Candidate → Option ℕ → Db
unfolding fire_once crossed_donation_total_cents
fire_donation_total js db now player previous next c none = db
fire_donation_total js db now player previous next c (some dollars) =
    if not (crossed_donation_total_cents previous next dollars)
    then db
    else fire_once js db now c.fire_id c.trigger player (event_key_for_donation_total dollars) c.job

unfoldable pub evaluate_donation_total : Runtime → Db → ℕ → Player → ℕ → ℕ → List Candidate → Db
unfolding fire_donation_total parse_donation_total_config
evaluate_donation_total js db now player previous next [] = db
evaluate_donation_total js db now player previous next (c ∷ cs) =
    evaluate_donation_total js
      (fire_donation_total js db now player previous next c
        (parse_donation_total_config js c.trigger.event_config))
      now player previous next cs
