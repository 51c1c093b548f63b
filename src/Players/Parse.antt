-- ===== src/Players/Parse.antt =====
-- Reading the agent's player list (player-roster.ts).
pub mod Rows
use mastermind_minecraft_ser.Prelude.{
  ℕ, zero, suc, ◌+◌, Bool, true, false, ◌&&◌, ◌||◌, not, Text, String, codes, same, trim, take,
  Option, none, some, List, [], ◌∷◌, ◌++◌, length, leb, ltb, ◌==◌, if◌then◌else◌,
}
use mastermind_minecraft_ser.Json.{
  JsNumber, int, fraction, nan, Value, undefined, null, string, number, array, object, Items, nil,
  cons, Fields, get,
}
use mastermind_minecraft_ser.Grants.Items.{Runtime}
use mastermind_minecraft_ser.Grants.Command.{is_uuid}

-- A row of the roster. Its Steam id, address, ping and position are null for every Minecraft player.
pub record PlayerRosterRow : Type 0 where
  pub name : Text
  pub identity_key : Text
  pub steam_id : Option Text

abbrev pub is_number : JsNumber → Bool
is_number nan = false
is_number n = true

-- the text of one value, empty if it has none
unfoldable pub text_of : Runtime → Value → Text
unfolding trim
text_of js (string t) = trim t
text_of js (number n) = if is_number n then js.to_string (number n) else []
text_of js v = []

-- the first value that has a text
unfoldable pub first_text : Runtime → List Value → Text
unfolding text_of same
first_text js [] = []
first_text js (v ∷ vs) = if same (text_of js v) [] then first_text js vs else text_of js v

abbrev pub name_key : Text → Text
name_key lowered = codes "name:" ++ lowered

abbrev pub uuid_key : Text → Text
uuid_key lowered = codes "uuid:" ++ lowered

-- `lower` is the runtime's `toLowerCase`
unfoldable pub key_of : (Text → Text) → Text → Text → Text
unfolding is_uuid
key_of lower name uuid_raw =
    if is_uuid uuid_raw then uuid_key (lower uuid_raw) else name_key (lower name)

unfoldable pub row_of : (Text → Text) → Text → Text → List PlayerRosterRow
unfolding key_of same
row_of lower name uuid_raw =
    if same name [] || ltb 16 (length name)
    then []
    else record { name = name; identity_key = key_of lower name uuid_raw; steam_id = none } ∷ []

-- a value that is no record gives no row
unfoldable pub rows_of : Runtime → (Text → Text) → Value → List PlayerRosterRow
unfolding row_of first_text get
rows_of js lower (object fs) =
    row_of lower
      (first_text js
        (get fs "name" ∷ get fs "player" ∷ get fs "username" ∷ get fs "displayName" ∷ []))
      (first_text js (get fs "uuid" ∷ get fs "id" ∷ get fs "playerUuid" ∷ []))
rows_of js lower v = []

unfoldable pub all_rows : Runtime → (Text → Text) → Items → List PlayerRosterRow
unfolding rows_of
all_rows js lower nil = []
all_rows js lower (cons x xs) = rows_of js lower x ++ all_rows js lower xs

unfoldable pub listed : Runtime → (Text → Text) → Value → Option (List PlayerRosterRow)
unfolding all_rows
listed js lower (array xs) = some (take 256 (all_rows js lower xs))
listed js lower v = none

unfoldable pub parse_minecraft_roster :
    Runtime → (Text → Text) → Value → Option (List PlayerRosterRow)
unfolding listed get
parse_minecraft_roster js lower (object fs) = listed js lower (get fs "players")
parse_minecraft_roster js lower v = listed js lower v
