-- ===== src/Players/Roster.antt =====
-- Applying a roster to a server (jobs.service.ts, applyPlayerRoster). What it sets off in triggers,
-- alerts and grants is a list of effects, whose failures the source ignores.
pub mod Online
use mastermind_minecraft_ser.Prelude.{
  ℕ, zero, suc, ◌+◌, ◌-◌, ◌/◌, min, Bool, true, false, ◌&&◌, not, Text, same, Option, none, some,
  List, [], ◌∷◌, ◌++◌, map, any, filter, ◌==◌, if◌then◌else◌, find_first, update_first, update_many,
}
use mastermind_minecraft_ser.Players.Parse.{PlayerRosterRow, name_key}
use mastermind_minecraft_ser.Players.Store.{PlayerRow, Session, Db, has_identity}
use mastermind_minecraft_ser.Players.Identity.{or_else_id, reconcile_name_fallback}

pub data Effect : Type 0 where
  evaluate_first_join : PlayerRow → Effect
  retry_item_grants_of : ℕ → Effect
  connected : Text → Effect
  evaluate_playtime : ℕ → ℕ → ℕ → Effect
  disconnected : Text → ℕ → Effect
  enqueue_pending_shop_grants : Effect
  retry_pending_item_grants : Effect

pub record Applied : Type 0 where
  pub db : Db
  pub effects : List Effect

abbrev pub new_player : ℕ → ℕ → PlayerRosterRow → PlayerRow
new_player now id row = record {
  id = id;
  identity_key = row.identity_key;
  steam_id = row.steam_id;
  name = row.name;
  online = true;
  current_session_started_at = some now;
  first_seen_at = now;
  last_seen_at = now;
  last_logout_at = none;
  lifetime_seconds = 0;
  total_donated_cents = 0;
}

unfoldable pub seen_player : ℕ → PlayerRosterRow → PlayerRow → PlayerRow
unfolding or_else_id
seen_player now row p = record p {
  steam_id = or_else_id row.steam_id p.steam_id;
  name = row.name;
  online = true;
  last_seen_at = now;
  current_session_started_at = if p.online then p.current_session_started_at else some now;
}

abbrev pub new_session : ℕ → ℕ → Session
new_session player now = record {
  player_id = player;
  started_at = now;
  ended_at = none;
  duration_seconds = none;
}

-- whole seconds from the start of the session to `end`
unfoldable pub session_seconds : Option ℕ → ℕ → ℕ
session_seconds none end_at = 0
session_seconds (some start) end_at = (end_at - start) / 1000

unfoldable pub playtime_effect : ℕ → ℕ → PlayerRow → List Effect
unfolding session_seconds
playtime_effect now previous p =
    evaluate_playtime p.id previous
      (p.lifetime_seconds + session_seconds p.current_session_started_at now)
    ∷ []

-- the player's row is there
unfoldable pub apply_known : Db → ℕ → PlayerRosterRow → PlayerRow → Applied
unfolding seen_player playtime_effect
apply_known db now row p =
    let players = update_first (has_identity row.identity_key) (seen_player now row) db.players in
    if p.online
    then record {
      db = record db { players = players };
      effects = playtime_effect now p.lifetime_seconds (seen_player now row p);
    }
    else record {
      db = record { players = players; sessions = new_session p.id now ∷ db.sessions };
      effects =
          retry_item_grants_of p.id
          ∷ connected row.name
          ∷ playtime_effect now p.lifetime_seconds (seen_player now row p);
    }

unfoldable pub apply_new : Db → ℕ → ℕ → PlayerRosterRow → Applied
unfolding playtime_effect
apply_new db now id row = record {
  db = record {
    players = new_player now id row ∷ db.players;
    sessions = new_session id now ∷ db.sessions;
  };
  effects =
      evaluate_first_join (new_player now id row)
      ∷ retry_item_grants_of id
      ∷ connected row.name
      ∷ playtime_effect now 0 (new_player now id row);
}

unfoldable pub upsert_player : Db → ℕ → ℕ → PlayerRosterRow → Applied
unfolding apply_known apply_new
upsert_player db now id row = elim (find_first (has_identity row.identity_key) db.players) [
  | none ↦ apply_new db now id row
  | some p ↦ apply_known db now row p
]

-- A row of the roster with the id that the database gives to a new player.
pub record Incoming : Type 0 where
  pub row : PlayerRosterRow
  pub id : ℕ

-- one round of the loop; `lower` is the runtime's `toLowerCase`
unfoldable pub apply_row : (Text → Text) → Db → ℕ → Incoming → Applied
unfolding reconcile_name_fallback upsert_player
apply_row lower db now i =
    upsert_player
      (reconcile_name_fallback db i.row.identity_key (name_key (lower i.row.name)) i.row.steam_id)
      now i.id i.row

unfoldable pub apply_rows : (Text → Text) → Db → ℕ → List Incoming → Applied
unfolding apply_row
apply_rows lower db now [] = record { db = db; effects = [] }
apply_rows lower db now (i ∷ is) =
    let first = apply_row lower db now i in
    let rest = apply_rows lower first.db now is in
    record { db = rest.db; effects = first.effects ++ rest.effects }

unfoldable pub is_seen : List Incoming → Text → Bool
is_seen is k = any (λ i. same i.row.identity_key k) is

abbrev pub is_missing : List Incoming → PlayerRow → Bool
is_missing is p = p.online && not (is_seen is p.identity_key)

abbrev pub logout_time : ℕ → PlayerRow → ℕ
logout_time now p = min p.last_seen_at now

abbrev pub logout_seconds : ℕ → PlayerRow → ℕ
logout_seconds now p = session_seconds p.current_session_started_at (logout_time now p)

unfoldable pub logged_out : ℕ → PlayerRow → PlayerRow
unfolding session_seconds
logged_out now p = record p {
  online = false;
  current_session_started_at = none;
  last_logout_at = some (logout_time now p);
  lifetime_seconds = p.lifetime_seconds + logout_seconds now p;
}

abbrev pub is_open_of : ℕ → Session → Bool
is_open_of player s = s.player_id == player && elim s.ended_at [ none ↦ true | some t ↦ false ]

abbrev pub closed : ℕ → PlayerRow → Session → Session
closed now p s = record s {
  ended_at = some (logout_time now p);
  duration_seconds = some (logout_seconds now p);
}

-- the open sessions of the players, closed
unfoldable pub close_sessions : ℕ → List PlayerRow → List Session → List Session
unfolding session_seconds
close_sessions now [] sessions = sessions
close_sessions now (p ∷ ps) sessions =
    close_sessions now ps (update_many (is_open_of p.id) (closed now p) sessions)

unfoldable pub logout_effects : ℕ → List PlayerRow → List Effect
unfolding session_seconds
logout_effects now [] = []
logout_effects now (p ∷ ps) =
    evaluate_playtime p.id p.lifetime_seconds (p.lifetime_seconds + logout_seconds now p)
    ∷ disconnected p.name (logout_seconds now p)
    ∷ logout_effects now ps

-- Each missing player is written once; the writes of different players do not meet.
unfoldable pub apply_player_roster : (Text → Text) → Db → ℕ → List Incoming → Applied
unfolding apply_rows is_seen logged_out close_sessions logout_effects filter
apply_player_roster lower db now is =
    let seen = apply_rows lower db now is in
    let missing = filter (is_missing is) seen.db.players in
    record {
      db = record {
        players = update_many (is_missing is) (logged_out now) seen.db.players;
        sessions = close_sessions now missing seen.db.sessions;
      };
      effects =
          seen.effects
          ++ (logout_effects now missing
              ++ (enqueue_pending_shop_grants ∷ retry_pending_item_grants ∷ []));
    }
