-- ===== src/Grants/Delivery/Examples.antt =====
-- Deliveries on concrete input.
use mastermind_minecraft_ser.Prelude.{
  ◌≤◌, ◌≡◌, refl, true, false, codes, none, some, List, [], ◌∷◌, All, length, arith, pos, take,
  filter,
}
use mastermind_minecraft_ser.Json.{
  Value, int, nan, string, number, array, object, nil, cons, end, field,
}
use mastermind_minecraft_ser.Grants.Items.{Runtime, GrantItemSpec, parse_grant_item_list}
use mastermind_minecraft_ser.Grants.Status.{
  LineGrantItem, pending, has_pending, snapshot_line_grants,
}
use mastermind_minecraft_ser.Grants.Stored.{line_items_value, line_grant_items, specs_value}
use mastermind_minecraft_ser.Grants.Stored.Specs.{parse_grant_item_list-again}
use mastermind_minecraft_ser.Grants.Stored.Lines.{snapshot_line_grants-All}
use mastermind_minecraft_ser.Grants.Command.Safety.{IsCommand}
use mastermind_minecraft_ser.Grants.Outcome.{success}
use mastermind_minecraft_ser.Grants.Delivery.{
  line_items, Line, Recipient, deliver_shop_grant_lines, finish_shop_grant, is_open,
}
use mastermind_minecraft_ser.Grants.Delivery.Bounds.{deliver_shop_grant_lines-bounded}
use mastermind_minecraft_ser.Grants.Delivery.Kept.{IsFull, IsKept, deliver_shop_grant_lines-IsKept}
use mastermind_minecraft_ser.Grants.Delivery.Settled.{finish_shop_grant-IsKept}
use mastermind_minecraft_ser.Grants.Delivery.Starved.{IsExhausted, deliver_shop_grant_lines-starved}

abbrev quiet : Runtime
quiet = record { to_number = λ t. nan; to_string = λ v. []; json_parse = λ t. none }

abbrev diamonds : Value
diamonds = array (
    cons
      (object (
        field "itemName" (string (codes "diamond")) (field "quantity" (number (int (pos 64))) end)))
      nil)

abbrev sixty_four : List GrantItemSpec
sixty_four = record { name = codes "diamond"; quantity = 64 } ∷ []

reads : parse_grant_item_list quiet diamonds ≡ some sixty_four
unfolding parse_grant_item_list
reads = refl

parse_grant_item_list-again_example :
    parse_grant_item_list quiet (specs_value sixty_four) ≡ some sixty_four
parse_grant_item_list-again_example = parse_grant_item_list-again quiet diamonds sixty_four reads

abbrev fresh : List LineGrantItem
fresh =
    record { name = codes "diamond"; quantity = 64; status = pending; attempts = 0; error = none }
    ∷ []

abbrev line_with : List LineGrantItem → Line
line_with is = record {
  id = 1;
  player_id = 5;
  completed = true;
  grant_items = line_items_value is;
  grant_item_name = some (codes "diamond");
  grant_quantity = some 64;
  grant_status = has_pending;
  grant_error = none;
  grant_queued_at = none;
  granted_at = none;
}

fresh-IsKept : IsKept (line_with fresh)
unfolding snapshot_line_grants
fresh-IsKept = (
  fresh,
  refl,
  (
    (((snapshot_line_grants-All quiet diamonds sixty_four reads).0, omega arith), tt),
    omega arith,
    omega arith,
  ),
)

abbrev ann : Recipient
ann = record { name = codes "Ann"; uuid = none; online = true; now = 1000000 }

deliver_shop_grant_lines-bounded_example :
    let jobs =
      (deliver_shop_grant_lines quiet (λ l i. true) true ann 8 5 (line_with fresh ∷ [])).1 in
    (length jobs ≤ 8) × All (λ j. IsCommand j.command) jobs
deliver_shop_grant_lines-bounded_example =
    deliver_shop_grant_lines-bounded quiet (λ l i. true) true ann 8 5 (line_with fresh ∷ [])

deliver_shop_grant_lines-IsKept_example :
    All IsKept (deliver_shop_grant_lines quiet (λ l i. false) true ann 8 5 (line_with fresh ∷ [])).0
deliver_shop_grant_lines-IsKept_example =
    deliver_shop_grant_lines-IsKept quiet (λ l i. false) true ann 8 5 (line_with fresh ∷ [])
      (fresh-IsKept, tt)

finish_shop_grant-IsKept_example :
    (is : List LineGrantItem) × ((finish_shop_grant quiet 1000000
        (some 0)
        (codes "No player was found")
        success
        (line_with fresh)).grant_items
      ≡ line_items_value is)
    × IsFull is
    × (length is ≡ length (line_items quiet (line_with fresh)))
finish_shop_grant-IsKept_example =
    finish_shop_grant-IsKept quiet 1000000 (some 0) (codes "No player was found") success
      (line_with fresh) fresh-IsKept

abbrev tired : List LineGrantItem
tired =
    record { name = codes "diamond"; quantity = 64; status = pending; attempts = 8; error = none }
    ∷ []

tired-IsExhausted : All (IsExhausted quiet) (take 16 (filter (is_open 5) (line_with tired ∷ [])))
unfolding filter line_grant_items line_items_value
tired-IsExhausted = ((refl, tt), tt)

deliver_shop_grant_lines-starved_example :
    (deliver_shop_grant_lines quiet (λ l i. true) true ann 8 5 (line_with tired ∷ [])).1 ≡ []
deliver_shop_grant_lines-starved_example =
    deliver_shop_grant_lines-starved quiet (λ l i. true) true ann 8 5 (line_with tired ∷ [])
      tired-IsExhausted
