-- ===== src/Triggers/Examples.antt =====
-- Triggers on concrete input.
use mastermind_minecraft_ser.Prelude.{
  pos, ◌≤◌, ◌≡◌, refl, true, codes, none, some, [], ◌∷◌, total, find_first,
}
use mastermind_minecraft_ser.Json.{
  int, nan, undefined, string, number, array, object, nil, cons, end, field,
}
use mastermind_minecraft_ser.Grants.Items.{Runtime, max_grant_attempts}
use mastermind_minecraft_ser.Triggers.Catalog.{event_key_for_first_join}
use mastermind_minecraft_ser.Prelude.{List}
use mastermind_minecraft_ser.Triggers.Catalog.{
  GrantItemsActionConfig, parse_grant_items_action_config, parse_playtime_config,
}
use mastermind_minecraft_ser.Prelude.{false}
use mastermind_minecraft_ser.Triggers.Manage.{
  TriggerInput, TriggerRow, playtime, saved, create_trigger, update_trigger,
}
use mastermind_minecraft_ser.Triggers.Backfill.{Existing}
use mastermind_minecraft_ser.Triggers.Fires.{Trigger, Player, Db, fire_once}
use mastermind_minecraft_ser.Triggers.Fires.Once.{fire_once-once}
use mastermind_minecraft_ser.Triggers.Fires.Attempts.{jobs_of}
use mastermind_minecraft_ser.Triggers.Fires.Attempts.Reachable.{
  Reachable, start, next, fires_once, jobs_of-bounded,
}

abbrev quiet : Runtime
quiet = record { to_number = λ t. nan; to_string = λ v. []; json_parse = λ t. none }

abbrev welcome : Trigger
welcome = record {
  id = 1;
  event_config = undefined;
  action_config = object (
      field "items"
        (array (
          cons
            (object
              (field "name" (string (codes "torch")) (field "quantity" (number (int (pos 8))) end)))
            nil))
        end);
}

abbrev steve : Player
steve = record { id = 7; online = true }

abbrev nothing : Db
nothing = record { fires = []; jobs = []; fired = [] }

abbrev welcomed : Db
welcomed = fire_once quiet nothing 1000 5 welcome steve event_key_for_first_join (some 42)

welcomed_once : jobs_of 5 welcomed.jobs ≡ 1
unfolding fire_once total find_first
welcomed_once = refl

fire_once-once_example :
    fire_once quiet welcomed 2000 6 welcome steve event_key_for_first_join (some 43) ≡ welcomed
fire_once-once_example =
    fire_once-once quiet nothing 1000 2000 5 6 welcome steve event_key_for_first_join (some 42)
      (some 43)

reached : Reachable quiet welcomed
unfolding find_first
reached =
    next nothing welcomed start
      (fires_once 1000 5 welcome steve event_key_for_first_join (some 42) refl)

jobs_of-bounded_example : jobs_of 5 welcomed.jobs ≤ max_grant_attempts
jobs_of-bounded_example = jobs_of-bounded quiet welcomed 5 reached

abbrev veteran : Trigger
veteran = record welcome { event_config = object (field "hours" (number (int (pos 10))) end) }

abbrev players : List Existing
players =
    record {
      player = steve;
      lifetime_seconds = 40000;
      total_donated_cents = 0;
      fire_id = 5;
      job = some 42;
    }
    ∷ []

abbrev config : GrantItemsActionConfig
config = record {
  items = record { name = codes "torch"; quantity = 8 } ∷ [];
  notify_player = true;
  message = codes "You received a reward.";
}

veteran_config : parse_grant_items_action_config quiet veteran.action_config ≡ some config
unfolding parse_grant_items_action_config
veteran_config = refl

veteran_hours : parse_playtime_config quiet veteran.event_config ≡ some 10
unfolding parse_playtime_config
veteran_hours = refl

abbrev input : TriggerInput
input = record {
  name = codes " Veterans ";
  enabled = none;
  event_type = codes "player_playtime";
  event_config = veteran.event_config;
  action_type = codes "grant_items";
  action_config = veteran.action_config;
  apply_to_existing = true;
}

abbrev row : TriggerRow
row = record {
  name = codes "Veterans";
  enabled = true;
  event_type = codes "player_playtime";
  event_config = playtime 10;
  action_config = config;
  apply_to_existing = true;
}

creates : create_trigger quiet true input ≡ saved row
unfolding create_trigger
creates = refl

disables : update_trigger row false none (some false) ≡ saved (record row { enabled = false })
unfolding update_trigger
disables = refl
