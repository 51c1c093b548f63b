-- ===== src/Players/Identity.antt =====
-- A player seen first without a stable id (player-identity.ts).
pub mod Merge
use mastermind_minecraft_ser.Prelude.{
  ℕ, zero, suc, ◌+◌, min, max, Bool, true, false, ◌&&◌, ◌||◌, not, Text, codes, same, starts_with,
  Option, none, some, List, [], ◌∷◌, ◌==◌, if◌then◌else◌, find_first, update_first, update_many,
}
use mastermind_minecraft_ser.Players.Store.{PlayerRow, Session, Db, has_identity, remove_first}

abbrev pub is_name_key : Text → Bool
is_name_key k = starts_with (codes "name:") k

unfoldable pub or_else_id : Option Text → Option Text → Option Text
or_else_id none b = b
or_else_id (some a) b = some a

-- the earlier of the starts that are there
unfoldable pub earlier_start : Option ℕ → Option ℕ → Option ℕ
earlier_start none b = b
earlier_start (some a) none = some a
earlier_start (some a) (some b) = some (min a b)

abbrev pub promoted : Text → Option Text → PlayerRow → PlayerRow
promoted key steam p = record p { identity_key = key; steam_id = steam }

-- the canonical row with what the fallback row has
unfoldable pub merged : Option Text → PlayerRow → PlayerRow → PlayerRow
unfolding or_else_id earlier_start
merged steam fallback c = record c {
  steam_id = or_else_id steam c.steam_id;
  lifetime_seconds = c.lifetime_seconds + fallback.lifetime_seconds;
  first_seen_at = min fallback.first_seen_at c.first_seen_at;
  last_seen_at = max fallback.last_seen_at c.last_seen_at;
  online = c.online || fallback.online;
  current_session_started_at =
      if c.online || fallback.online
      then earlier_start c.current_session_started_at fallback.current_session_started_at
      else none;
}

abbrev pub moved_to : ℕ → Session → Session
moved_to id s = record s { player_id = id }

unfoldable pub merge_players : Db → Text → Text → Option Text → PlayerRow → PlayerRow → Db
unfolding merged remove_first
merge_players db key fallback_key steam fallback canonical = record {
  players =
      remove_first (has_identity fallback_key)
        (update_first (has_identity key) (merged steam fallback) db.players);
  sessions = update_many (λ s. s.player_id == fallback.id) (moved_to canonical.id) db.sessions;
}

-- `fallback_key` is the key of the name in lower case
unfoldable pub reconcile_name_fallback : Db → Text → Text → Option Text → Db
unfolding merge_players
reconcile_name_fallback db key fallback_key steam =
    if is_name_key key then db else elim (find_first (has_identity fallback_key) db.players) [
      | none ↦ db
      | some fallback ↦ elim (find_first (has_identity key) db.players) [
        | none ↦ record db {
          players = update_first (has_identity fallback_key) (promoted key steam) db.players;
        }
        | some canonical ↦ merge_players db key fallback_key steam fallback canonical
      ]
    ]
