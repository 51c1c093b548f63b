-- ===== src/Players/Examples.antt =====
-- Players on concrete input.
use mastermind_minecraft_ser.Prelude.{
  false, ◌+◌, ◌≤◌, ◌≡◌, refl, true, Text, codes, none, some, List, [], ◌∷◌, All, length, map,
  to_lower, find_first, total, same, starts_with,
}
use mastermind_minecraft_ser.Json.{Value, string, array, object, nil, cons, end, field, nan}
use mastermind_minecraft_ser.Grants.Items.{Runtime}
use mastermind_minecraft_ser.Players.Store.{PlayerRow, Db, has_identity}
use mastermind_minecraft_ser.Players.Parse.{PlayerRosterRow, parse_minecraft_roster, name_key}
use mastermind_minecraft_ser.Players.Parse.Rows.{IsRow, parse_minecraft_roster-IsRow}
use mastermind_minecraft_ser.Players.Identity.{reconcile_name_fallback}
use mastermind_minecraft_ser.Players.Identity.Merge.{
  reconcile_name_fallback-lifetime, reconcile_name_fallback-donations,
}
use mastermind_minecraft_ser.Players.Roster.{Incoming, apply_player_roster, is_seen}
use mastermind_minecraft_ser.Players.Roster.Online.{has_online, apply_player_roster-online}
use mastermind_minecraft_ser.Prelude.{arith}
use mastermind_minecraft_ser.Players.Protection.{
  Connection, Settings, Tools, kick, enforce_connection_tools,
}
use mastermind_minecraft_ser.Players.Protection.Cooldown.{jobs_for, enforce_connection_tools-once}

abbrev quiet : Runtime
quiet = record { to_number = λ t. nan; to_string = λ v. []; json_parse = λ t. none }

abbrev lower : Text → Text
lower t = map to_lower t

-- "Ann" under her name, with an hour of play and $5
abbrev ann : PlayerRow
ann = record {
  id = 1;
  identity_key = codes "name:ann";
  steam_id = none;
  name = codes "Ann";
  online = true;
  current_session_started_at = some 0;
  first_seen_at = 0;
  last_seen_at = 0;
  last_logout_at = none;
  lifetime_seconds = 3600;
  total_donated_cents = 500;
}

abbrev known : PlayerRow
known = record ann {
  id = 2;
  identity_key = codes "uuid:1";
  lifetime_seconds = 60;
  total_donated_cents = 0;
}

abbrev both : Db
both = record { players = ann ∷ known ∷ []; sessions = [] }

finds_ann : find_first (has_identity (name_key (codes "ann"))) both.players ≡ some ann
unfolding find_first same
finds_ann = refl

finds_known : find_first (has_identity (codes "uuid:1")) both.players ≡ some known
unfolding find_first same
finds_known = refl

reconcile_name_fallback-lifetime_example :
    total
      (λ (p : PlayerRow). p.lifetime_seconds)
      (reconcile_name_fallback both (codes "uuid:1") (name_key (codes "ann")) none).players
    ≡ total (λ (p : PlayerRow). p.lifetime_seconds) both.players
reconcile_name_fallback-lifetime_example =
    reconcile_name_fallback-lifetime both (codes "uuid:1") (codes "ann") none

reconcile_name_fallback-donations_example :
    total
        (λ (p : PlayerRow). p.total_donated_cents)
        (reconcile_name_fallback both (codes "uuid:1") (name_key (codes "ann")) none).players
      + 500
    ≡ total (λ (p : PlayerRow). p.total_donated_cents) both.players
unfolding starts_with
reconcile_name_fallback-donations_example =
    reconcile_name_fallback-donations both (codes "uuid:1") (codes "ann") none ann known refl
      finds_ann finds_known

abbrev bob : PlayerRosterRow
bob = record { name = codes "Bob"; identity_key = codes "name:bob"; steam_id = none }

abbrev roster : List Incoming
roster = record { row = bob; id = 3 } ∷ []

apply_player_roster-online_example :
    has_online (codes "name:ann") (apply_player_roster lower both 9000 roster).db.players
    ≡ is_seen roster (codes "name:ann")
unfolding starts_with
apply_player_roster-online_example =
    apply_player_roster-online lower both 9000 roster (codes "name:ann") (refl, tt)

abbrev sent : Value
sent =
    object
      (field "players" (array (cons (object (field "name" (string (codes "Bob")) end)) nil)) end)

reads : parse_minecraft_roster quiet lower sent ≡ some (bob ∷ [])
unfolding parse_minecraft_roster to_lower
reads = refl

parse_minecraft_roster-IsRow_example : (length (bob ∷ []) ≤ 256) × All (IsRow lower) (bob ∷ [])
parse_minecraft_roster-IsRow_example =
    parse_minecraft_roster-IsRow quiet lower sent (bob ∷ []) reads

abbrev strict : Settings
strict = record {
  high_ping_enabled = true;
  high_ping_threshold_ms = 300;
  high_ping_samples = 1;
  country_ban_enabled = false;
  blocked_country_codes = [];
  country_action = kick;
}

abbrev laggy : List Connection
laggy = record { identifier = codes "Bob"; ping = some 900; ip_address = none } ∷ []

abbrev quiet_tools : Tools
quiet_tools = record { cooldown = []; bad_ping = []; jobs = [] }

enforce_connection_tools-once_example :
    jobs_for (codes "Bob") (
      enforce_connection_tools
        (λ ip. [])
        (some strict)
        true
        60000
        laggy
        (enforce_connection_tools (λ ip. []) (some strict) true 0 laggy quiet_tools))
    ≤ jobs_for (codes "Bob") quiet_tools + 1
enforce_connection_tools-once_example =
    enforce_connection_tools-once (λ ip. []) (λ ip. []) (some strict) (some strict) true true 0
      60000 laggy laggy quiet_tools (codes "Bob") (omega arith)
