-- ===== src/Grants/Outcome.antt =====
-- The classification of a give command's output (shop-grants.ts).
use mastermind_minecraft_ser.Prelude.{Bool, ◌||◌, Text, String, codes, contains_ci, if◌then◌else◌}

-- The run's status as the agent reports it.
pub data RunResult : Type 0 where
  success failure : RunResult

pub data GrantOutcome : Type 0 where
  delivered retry failed : GrantOutcome

abbrev says : Text → String → Bool
says output phrase = contains_ci (codes phrase) output

unfoldable pub no_player : Text → Bool
unfolding contains_ci
no_player t =
    says t "no player was found"
    || says t "player not found"
    || says t "must be online"
    || says t "that player cannot be found"

unfoldable pub no_item : Text → Bool
unfolding contains_ci
no_item t =
    says t "there is no such item"
    || says t "unknown item"
    || says t "invalid item"
    || says t "expected item"

unfoldable pub bad_syntax : Text → Bool
unfolding contains_ci
bad_syntax t =
    says t "incorrect argument" || says t "syntax error" || says t "unknown or incomplete command"

-- `output || ''` makes a missing output the empty text.
unfoldable pub classify_grant_output : Text → RunResult → GrantOutcome
unfolding no_player no_item bad_syntax
classify_grant_output t success =
    if no_player t
    then retry
    else if no_item t
    then failed
    else if bad_syntax t
    then failed
    else delivered
classify_grant_output t failure =
    if no_player t
    then retry
    else if no_item t
    then failed
    else if bad_syntax t
    then failed
    else retry
