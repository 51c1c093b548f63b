-- ===== src/Grants/Examples.antt =====
-- Grants on concrete input.
use mastermind_minecraft_ser.Prelude.{
  ◌≤◌, ◌≡◌, refl, Text, codes, none, some, List, [], ◌∷◌, All, length, pos,
}
use mastermind_minecraft_ser.Json.{
  int, nan, Value, number, string, array, object, nil, cons, end, field,
}
use mastermind_minecraft_ser.Grants.Items.{
  Runtime, GrantItemSpec, parse_grant_item_list, max_grant_items,
}
use mastermind_minecraft_ser.Grants.Items.Bounds.{IsSpec, parse_grant_item_list-Accepted}
use mastermind_minecraft_ser.Grants.Command.{build_give_command}
use mastermind_minecraft_ser.Grants.Command.Safety.{IsCommand, build_give_command-IsCommand}
use mastermind_minecraft_ser.Grants.Outcome.{success, retry, classify_grant_output}
use mastermind_minecraft_ser.Grants.Status.{
  GrantStatus, LineGrantItem, new_grant, has_pending, aggregate_grant_status,
}

-- a runtime whose conversions are constant; the inputs here need none
abbrev quiet : Runtime
quiet = record { to_number = λ t. nan; to_string = λ v. []; json_parse = λ t. none }

abbrev diamonds : Value
diamonds =
    object
      (field "itemName" (string (codes "diamond")) (field "quantity" (number (int (pos 64))) end))

abbrev sixty_four : List GrantItemSpec
sixty_four = record { name = codes "diamond"; quantity = 64 } ∷ []

parsed : parse_grant_item_list quiet (array (cons diamonds nil)) ≡ some sixty_four
unfolding parse_grant_item_list
parsed = refl

parse_grant_item_list-Accepted_example :
    (length sixty_four ≤ max_grant_items) × All IsSpec sixty_four
parse_grant_item_list-Accepted_example =
    parse_grant_item_list-Accepted quiet (array (cons diamonds nil)) sixty_four parsed

abbrev command : Text
command = codes "give Steve diamond 64"

built :
    build_give_command quiet
      (some (codes " Steve "))
      (string (codes "diamond"))
      (number (int (pos 64)))
      none
    ≡ some command
unfolding build_give_command
built = refl

build_give_command-IsCommand_example : IsCommand command
build_give_command-IsCommand_example =
    build_give_command-IsCommand quiet (some (codes " Steve ")) (string (codes "diamond"))
      (number (int (pos 64))) none command built

-- the whole server as a target is refused
no_all :
    build_give_command quiet
      (some (codes "@a"))
      (string (codes "diamond"))
      (number (int (pos 1)))
      none
    ≡ none
unfolding build_give_command
no_all = refl

abbrev two_grants : List LineGrantItem
two_grants =
    record (new_grant (record { name = codes "diamond"; quantity = 64 })) {
      status = GrantStatus.delivered;
    }
    ∷ new_grant (record { name = codes "torch"; quantity = 8 })
    ∷ []

two_grants_open : aggregate_grant_status two_grants ≡ has_pending
unfolding aggregate_grant_status
two_grants_open = refl

offline : classify_grant_output (codes "No player was found") success ≡ retry
unfolding classify_grant_output
offline = refl
