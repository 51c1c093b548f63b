-- ===== src/Triggers/Backfill.antt =====
-- A new trigger that applies to existing players (triggers.service.ts, backfillTrigger).
use mastermind_minecraft_ser.Prelude.{
  ℕ, ◌*◌, Bool, ◌≡◌, Text, codes, same, take, filter, leb, Option, none, some, List, [], ◌∷◌, All,
  if◌then◌else◌,
}
use mastermind_minecraft_ser.Grants.Items.{Runtime}
use mastermind_minecraft_ser.Triggers.Catalog.{
  GrantItemsActionConfig, parse_grant_items_action_config, parse_playtime_config,
  parse_donation_total_config, event_key_for_first_join, event_key_for_playtime,
  event_key_for_donation_total, donation_total_cents,
}
use mastermind_minecraft_ser.Triggers.Fires.{Trigger, Player, Db, fire_once}
use mastermind_minecraft_ser.Triggers.Fires.Once.{HasFired, fire_once-fired, fire_once-keeps}

-- A player of the trigger's server, with the id of the fire that it may get and the answer of the job
-- queue.
pub record Existing : Type 0 where
  pub player : Player
  pub lifetime_seconds : ℕ
  pub total_donated_cents : ℕ
  pub fire_id : ℕ
  pub job : Option ℕ

unfoldable pub fire_all : Runtime → Db → ℕ → Trigger → Text → List Existing → Db
unfolding fire_once
fire_all js db now trigger key [] = db
fire_all js db now trigger key (e ∷ es) =
    fire_all js (fire_once js db now e.fire_id trigger e.player key e.job) now trigger key es

abbrev pub has_played : ℕ → Existing → Bool
has_played hours e = leb (hours * 3600) e.lifetime_seconds

abbrev pub has_donated : ℕ → Existing → Bool
has_donated dollars e = leb (donation_total_cents dollars) e.total_donated_cents

unfoldable pub fire_played : Runtime → Db → ℕ → Trigger → List Existing → Option ℕ → Db
unfolding fire_all
fire_played js db now trigger es none = db
fire_played js db now trigger es (some hours) =
    fire_all js db now trigger (event_key_for_playtime hours)
      (take 500 (filter (has_played hours) es))

unfoldable pub fire_donated : Runtime → Db → ℕ → Trigger → List Existing → Option ℕ → Db
unfolding fire_all
fire_donated js db now trigger es none = db
fire_donated js db now trigger es (some dollars) =
    fire_all js db now trigger (event_key_for_donation_total dollars)
      (take 500 (filter (has_donated dollars) es))

unfoldable pub backfill_trigger : Runtime → Db → ℕ → Text → Trigger → List Existing → Db
unfolding fire_all fire_played fire_donated parse_playtime_config parse_donation_total_config same
backfill_trigger js db now event_type trigger es =
    if same event_type (codes "player_first_join")
    then fire_all js db now trigger event_key_for_first_join (take 500 es)
    else if same event_type (codes "player_playtime")
    then fire_played js db now trigger es (parse_playtime_config js trigger.event_config)
    else if same event_type (codes "player_donation_total")
    then fire_donated js db now trigger es (parse_donation_total_config js trigger.event_config)
    else db

fire_all-keeps :
    (js : Runtime) (db : Db) (now : ℕ) (trigger : Trigger) (key : Text) (es : List Existing)
    (t p : ℕ) (k : Text)
    → HasFired t p k db.fires
    → HasFired t p k (fire_all js db now trigger key es).fires
unfolding fire_all
fire_all-keeps js db now trigger key [] t p k h = h
fire_all-keeps js db now trigger key (e ∷ es) t p k h =
    fire_all-keeps js (fire_once js db now e.fire_id trigger e.player key e.job) now trigger key es
      t p k (fire_once-keeps js db now e.fire_id trigger e.player key e.job t p k h)

fire_all-fired :
    (js : Runtime) (db : Db) (now : ℕ) (trigger : Trigger) (key : Text) (es : List Existing)
    (config : GrantItemsActionConfig)
    → parse_grant_items_action_config js trigger.action_config ≡ some config
    → All (λ e. HasFired trigger.id e.player.id key (fire_all js db now trigger key es).fires) es
unfolding fire_all
fire_all-fired js db now trigger key [] config h = tt
fire_all-fired js db now trigger key (e ∷ es) config h =
    let next = fire_once js db now e.fire_id trigger e.player key e.job in
    (
      fire_all-keeps js next now trigger key es trigger.id e.player.id key
          (fire_once-fired js db now e.fire_id trigger e.player key e.job config h),
      fire_all-fired js next now trigger key es config h,
    )

-- After the backfill of a playtime trigger whose configurations can be read, each of the first 500
-- players of the server who have played long enough has a fire of its milestone.
pub backfill_trigger-HasFired :
    (js : Runtime) (db : Db) (now hours : ℕ) (trigger : Trigger) (es : List Existing)
    (config : GrantItemsActionConfig)
    → parse_grant_items_action_config js trigger.action_config ≡ some config
    → parse_playtime_config js trigger.event_config ≡ some hours
    → let db' = backfill_trigger js db now (codes "player_playtime") trigger es in
      All
        (λ e. HasFired trigger.id e.player.id (event_key_for_playtime hours) db'.fires)
        (take 500 (filter (has_played hours) es))
unfolding backfill_trigger fire_played same
backfill_trigger-HasFired js db now hours trigger es config h k =
    rw (k, fire_played)
      (fire_all-fired js db now trigger (event_key_for_playtime hours)
        (take 500 (filter (has_played hours) es)) config h)
