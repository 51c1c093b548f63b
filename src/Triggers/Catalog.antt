-- ===== src/Triggers/Catalog.antt =====
-- The events of triggers (catalog.ts). Totals are seconds or cents and are never negative.
pub mod Crossing
use mastermind_minecraft_ser.Prelude.{
  ℕ, ◌+◌, ◌*◌, ℤ, pos, Bool, true, false, ◌&&◌, Text, String, codes, trim, take, same, Option, none,
  some, List, [], ◌∷◌, ◌++◌, leb, ltb, if◌then◌else◌,
}
use mastermind_minecraft_ser.Json.{
  JsNumber, int, nan, Value, undefined, null, bool, number, string, array, object, get,
}
use mastermind_minecraft_ser.Grants.Items.{Runtime, GrantItemSpec, parse_grant_item_list}
use mastermind_minecraft_ser.Grants.Command.{decimal, trimmed}
use mastermind_minecraft_ser.Donations.Stripe.{as_text}

-- `data.key`, where a value that is no object counts as the empty one
unfoldable pub member : Value → String → Value
unfolding get
member (object fs) k = get fs k
member _ k = undefined

-- `Number(value)`
unfoldable pub number_of : Runtime → Value → JsNumber
number_of js undefined = nan
number_of js null = int (pos 0)
number_of js (bool true) = int (pos 1)
number_of js (bool false) = int (pos 0)
number_of js (number n) = n
number_of js (string t) = js.to_number t
number_of js v = js.to_number (js.to_string v)

-- a whole number from 1 to `most`
unfoldable pub whole_up_to : ℕ → JsNumber → Option ℕ
whole_up_to most (int (pos n)) = if leb 1 n && leb n most then some n else none
whole_up_to most _ = none

unfoldable pub parse_playtime_config : Runtime → Value → Option ℕ
unfolding member number_of whole_up_to
parse_playtime_config js raw = whole_up_to 10000 (number_of js (member raw "hours"))

unfoldable pub parse_donation_total_config : Runtime → Value → Option ℕ
unfolding member number_of whole_up_to
parse_donation_total_config js raw = whole_up_to 500 (number_of js (member raw "dollars"))

abbrev pub event_key_for_first_join : Text
event_key_for_first_join = codes "first_join"

abbrev pub event_key_for_playtime : ℕ → Text
event_key_for_playtime hours = codes "playtime:" ++ decimal hours

abbrev pub donation_total_cents : ℕ → ℕ
donation_total_cents dollars = dollars * 100

abbrev pub event_key_for_donation_total : ℕ → Text
event_key_for_donation_total dollars = codes "donation:" ++ decimal (donation_total_cents dollars)

-- the items, whether the player is told, and the message
pub record GrantItemsActionConfig : Type 0 where
  pub items : List GrantItemSpec
  pub notify_player : Bool
  pub message : Text

unfoldable pub is_not_false : Value → Bool
is_not_false (bool false) = false
is_not_false _ = true

unfoldable pub message_or_default : Text → Text
message_or_default [] = codes "You received a reward."
message_or_default t = t

unfoldable pub config_of : Option (List GrantItemSpec) → Value → Option GrantItemsActionConfig
unfolding member is_not_false message_or_default trimmed as_text
config_of none raw = none
config_of (some []) raw = none
config_of (some (i ∷ is)) raw = some (record {
  items = i ∷ is;
  notify_player = is_not_false (member raw "notifyPlayer");
  message = message_or_default (take 200 (trimmed (as_text (member raw "message"))));
})

unfoldable pub parse_grant_items_action_config : Runtime → Value → Option GrantItemsActionConfig
unfolding config_of member parse_grant_item_list
parse_grant_items_action_config js raw =
    config_of (parse_grant_item_list js (member raw "items")) raw

unfoldable pub crossed_playtime_hours : ℕ → ℕ → ℕ → Bool
crossed_playtime_hours previous next hours = ltb previous (hours * 3600) && leb (hours * 3600) next

unfoldable pub crossed_donation_total_cents : ℕ → ℕ → ℕ → Bool
crossed_donation_total_cents previous next dollars =
    ltb previous (donation_total_cents dollars) && leb (donation_total_cents dollars) next
