-- ===== src/Grants/Command.antt =====
-- The console command of a grant (shop-grants.ts), and `String(n)` of a whole number.
pub mod Safety
use mastermind_minecraft_ser.Prelude.{
  ℕ, zero, suc, ◌+◌, ◌/◌, ◌%◌, Bool, true, false, ◌&&◌, ◌||◌, not, Text, codes, trim, Option, none,
  some, List, [], ◌∷◌, ◌++◌, all, length, ltb, leb, ◌==◌, if◌then◌else◌,
}
use mastermind_minecraft_ser.Json.{Value, null, string}
use mastermind_minecraft_ser.Grants.Items.{
  Runtime, is_letter, is_digit, is_all, parse_grant_item_name, parse_grant_quantity,
}

-- digits of `n`, before those in `acc`; each round divides by ten
unfoldable pub decimal_digits : ℕ → ℕ → Text → Text
decimal_digits zero n acc = acc
decimal_digits (suc fuel) n acc =
    let digit = b'0' + n % 10 in
    let rest = decimal_digits fuel (n / 10) (digit ∷ acc) in if ltb n 10 then digit ∷ acc else rest

unfoldable pub decimal : ℕ → Text
unfolding decimal_digits
decimal n = decimal_digits (suc n) n []

-- `String(value || '').trim()`
unfoldable pub trimmed : Option Text → Text
unfolding trim
trimmed none = []
trimmed (some t) = trim t

unfoldable pub is_player_char : ℕ → Bool
unfolding is_letter is_digit
is_player_char c = is_letter c || is_digit c || c == b'_'

unfoldable pub is_uuid_char : ℕ → Bool
unfolding is_digit
is_uuid_char c = is_digit c || (leb b'a' c && leb c b'f') || (leb b'A' c && leb c b'F') || c == b'-'

unfoldable pub is_player_name : Text → Bool
unfolding is_player_char
is_player_name t = leb 1 (length t) && leb (length t) 16 && all is_player_char t

unfoldable pub is_uuid : Text → Bool
unfolding is_uuid_char
is_uuid t = leb 32 (length t) && leb (length t) 36 && all is_uuid_char t

unfoldable pub grant_player_target : Option Text → Option Text → Option Text
unfolding trimmed is_player_name is_uuid is_all
grant_player_target player_name uuid =
    let name = trimmed player_name in
    let id = trimmed uuid in
    if is_player_name name && not (is_all name)
    then some name
    else if is_uuid id
    then some id
    else none

-- `give ${target} ${item} ${count}`
unfoldable pub give : Text → Text → ℕ → Text
unfolding decimal
give target item count = codes "give " ++ (target ++ (b' ' ∷ (item ++ (b' ' ∷ decimal count))))

unfoldable pub complete : Option Text → Option Text → Option ℕ → Option Text
unfolding give
complete (some target) (some item) (some count) = some (give target item count)
complete _ _ _ = none

unfoldable pub build_give_command :
    Runtime → Option Text → Value → Value → Option Text → Option Text
unfolding complete grant_player_target parse_grant_item_name parse_grant_quantity
build_give_command js player_name item_name amount uuid =
    complete (grant_player_target player_name uuid) (parse_grant_item_name item_name)
      (parse_grant_quantity js amount 1)
