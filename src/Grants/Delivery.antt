-- ===== src/Grants/Delivery.antt =====
-- The delivery of a donation's items (`deliverShopGrantLines`, `queueShopGrantJob`, `finishShopGrant` of
-- jobs.service.ts). Whether the creation of a job goes through is an argument.
pub mod Bounds
pub mod Kept
pub mod Settled
pub mod Starved
mod Examples
use mastermind_minecraft_ser.Prelude.{
  ℕ, zero, suc, ◌+◌, ◌-◌, Bool, true, false, ◌&&◌, ◌||◌, not, Text, codes, starts_with, Option,
  none, some, List, [], ◌∷◌, ◌++◌, take, filter, length, any, ltb, leb, ◌==◌, if◌then◌else◌,
  update_first, pos,
}
use mastermind_minecraft_ser.Json.{int, Value, string, number}
use mastermind_minecraft_ser.Grants.Items.{Runtime, max_grant_attempts}
use mastermind_minecraft_ser.Grants.Status.{
  GrantStatus, pending, queued, delivered, failed, LineGrantItem, is_pending, is_queued, LineStatus,
  all_delivered, partial, has_pending, has_queued, aggregate_grant_status,
}
use mastermind_minecraft_ser.Grants.Stored.{line_items_value, line_grant_items}
use mastermind_minecraft_ser.Grants.Command.{build_give_command}
use mastermind_minecraft_ser.Grants.Outcome.{RunResult, GrantOutcome, classify_grant_output}

-- A donation line, with what is read of its donation; times are milliseconds.
pub record Line : Type 0 where
  pub id : ℕ
  pub player_id : ℕ
  pub completed : Bool
  pub grant_items : Value
  pub grant_item_name : Option Text
  pub grant_quantity : Option ℕ
  pub grant_status : LineStatus
  pub grant_error : Option Text
  pub grant_queued_at : Option ℕ
  pub granted_at : Option ℕ

-- The console job of one item of a line.
pub record GrantJob : Type 0 where
  pub line_id : ℕ
  pub item_index : ℕ
  pub command : Text

-- the player that the items are for, whether online, and the time
pub record Recipient : Type 0 where
  pub name : Text
  pub uuid : Option Text
  pub online : Bool
  pub now : ℕ

-- The loop's state: the row as it is stored, the jobs made so far (the latest first) and their number.
pub record State : Type 0 where
  pub line : Line
  pub jobs : List GrantJob
  pub count : ℕ

abbrev pub stale_ms : ℕ
stale_ms = 300000

unfoldable pub is_stale : Option ℕ → ℕ → Bool
is_stale none now = true
is_stale (some at) now = ltb (at + stale_ms) now

abbrev pub is_due : Bool → LineGrantItem → Bool
is_due stale i = (is_pending i || (is_queued i && stale)) && ltb i.attempts max_grant_attempts

abbrev pub invalid_item : LineGrantItem → LineGrantItem
invalid_item i = record i { status = failed; error = some (codes "Invalid grant item") }

abbrev pub queued_item : LineGrantItem → LineGrantItem
queued_item i = record i { status = queued; attempts = i.attempts + 1; error = none }

abbrev pub write_invalid : List LineGrantItem → Line → Line
write_invalid grants l = record l {
  grant_items = line_items_value grants;
  grant_status = aggregate_grant_status grants;
  grant_error = some (codes "Invalid grant item");
}

abbrev pub write_queued : ℕ → List LineGrantItem → Line → Line
write_queued now grants l = record l {
  grant_items = line_items_value grants;
  grant_status = aggregate_grant_status grants;
  grant_queued_at = some now;
  grant_error = none;
}

abbrev pub write_pending : Line → Line
write_pending l = record l { grant_status = has_pending }

-- `queueShopGrantJob`: the row is written first; when the job cannot be made, only its status is set back
unfoldable pub queue_shop_grant_job : Bool → ℕ → ℕ → Text → List LineGrantItem → State → State
unfolding line_items_value aggregate_grant_status
queue_shop_grant_job true now index command grants s = record {
  line = write_queued now grants s.line;
  jobs = record { line_id = s.line.id; item_index = index; command = command } ∷ s.jobs;
  count = s.count + 1;
}
queue_shop_grant_job false now index command grants s = record s {
  line = write_pending (write_queued now grants s.line);
}

-- the item as the loop keeps it: as it was, but pending, where no job was made
abbrev pub kept_item : Bool → LineGrantItem → LineGrantItem
kept_item true i = queued_item i
kept_item false i = record i { status = pending }

-- What the loop does with an item.
pub data Step : Type 0 where
  stop leave invalid : Step
  give_item : Text → Step

unfoldable pub command_step : Option Text → Step
command_step none = invalid
command_step (some command) = give_item command

unfoldable pub next_step : Runtime → Recipient → ℕ → Bool → ℕ → LineGrantItem → Step
unfolding command_step build_give_command
next_step js who limit stale count i =
    if leb limit count
    then stop
    else if not (is_due stale i)
    then leave
    else command_step (
        build_give_command js (some who.name) (string i.name) (number (int (pos i.quantity)))
          who.uuid)

-- The items from `index` on; those before it are as the loop has left them.
unfoldable pub deliver_items :
    Runtime
    → (ℕ → Bool)
    → Recipient
    → ℕ
    → Bool
    → ℕ
    → List LineGrantItem
    → List LineGrantItem
    → State
    → State
unfolding queue_shop_grant_job next_step
deliver_items js works who limit stale index before [] s = s
deliver_items js works who limit stale index before (i ∷ is) s =
    elim (next_step js who limit stale s.count i) [
      | stop ↦ s
      | leave ↦ deliver_items js works who limit stale (suc index) (before ++ (i ∷ [])) is s
      | invalid ↦
          deliver_items js works who limit stale (suc index) (before ++ (invalid_item i ∷ [])) is
            (record s { line = write_invalid (before ++ (invalid_item i ∷ is)) s.line })
      | give_item command ↦
          deliver_items js works who limit stale (suc index)
            (before ++ (kept_item (works index) i ∷ [])) is
            (queue_shop_grant_job (works index) who.now index command
              (before ++ (queued_item i ∷ is)) s)
    ]

-- The lines that are looked at: those of the player's donations that are not refunded, with items to
-- deliver.
abbrev pub is_open : ℕ → Line → Bool
is_open player l =
    l.player_id == player
    && l.completed
    && elim l.grant_status [ has_pending ↦ true | has_queued ↦ true | _ ↦ false ]

abbrev pub line_items : Runtime → Line → List LineGrantItem
line_items js l = line_grant_items js l.grant_items l.grant_item_name l.grant_quantity

-- The lines are written one after the other; `works` says which jobs can be made.
unfoldable pub deliver_lines :
    Runtime
    → (ℕ → ℕ → Bool)
    → Recipient
    → ℕ
    → List Line
    → List Line
    → List GrantJob
    → ℕ
    → List Line × List GrantJob
unfolding deliver_items line_grant_items is_stale
deliver_lines js works who limit written [] jobs count = (written, jobs)
deliver_lines js works who limit written (l ∷ ls) jobs count =
    if leb limit count
    then (written, jobs)
    else if not who.online
    then deliver_lines js works who limit written ls jobs count
    else let s =
        deliver_items js (works l.id) who limit (is_stale l.grant_queued_at who.now) 0 []
          (line_items js l) (record { line = l; jobs = jobs; count = count }) in
      deliver_lines js works who limit (s.line ∷ written) ls s.jobs s.count

-- the first sixteen open lines; without a member of the organization nothing is done
unfoldable pub deliver_shop_grant_lines :
    Runtime → (ℕ → ℕ → Bool) → Bool → Recipient → ℕ → ℕ → List Line → List Line × List GrantJob
unfolding deliver_lines filter
deliver_shop_grant_lines js works has_member who limit player lines =
    if not has_member
    then ([], [])
    else deliver_lines js works who limit [] (take 16 (filter (is_open player) lines)) [] 0

-- What is reported of the job of an item; `output` is empty where there is none.
unfoldable pub next_status : GrantOutcome → GrantStatus
next_status GrantOutcome.delivered = delivered
next_status GrantOutcome.failed = failed
next_status GrantOutcome.retry = pending

-- `String(output || 'Grant command failed').slice(0, 180)`
unfoldable pub failure_text : Text → Text
failure_text [] = codes "Grant command failed"
failure_text (c ∷ t) = take 180 (c ∷ t)

unfoldable pub next_error : GrantOutcome → Text → Option Text
unfolding failure_text
next_error GrantOutcome.delivered output = none
next_error GrantOutcome.failed output = some (failure_text output)
next_error GrantOutcome.retry output = some (failure_text output)

abbrev pub is_waiting : LineGrantItem → Bool
is_waiting i = is_queued i || is_pending i

unfoldable pub set_at :
    ℕ → (LineGrantItem → LineGrantItem) → List LineGrantItem → List LineGrantItem
set_at index f [] = []
set_at zero f (i ∷ is) = f i ∷ is
set_at (suc index) f (i ∷ is) = i ∷ set_at index f is

abbrev pub in_range : Option ℕ → ℕ → Bool
in_range none n = false
in_range (some k) n = ltb k n

-- the item of the index, or else the first that waits
unfoldable pub settle_items :
    Option ℕ → (LineGrantItem → LineGrantItem) → List LineGrantItem → List LineGrantItem
unfolding set_at update_first
settle_items none f is = update_first is_waiting f is
settle_items (some k) f is =
    if ltb k (length is) then set_at k f is else update_first is_waiting f is

unfoldable pub join_errors : List LineGrantItem → Text
join_errors [] = []
join_errors (i ∷ is) =
    let rest = join_errors is in
    elim i.error [
      | some (c ∷ t) ↦ elim rest [ [] ↦ c ∷ t | d ∷ u ↦ (c ∷ t) ++ (codes "; " ++ (d ∷ u)) ]
      | _ ↦ rest
    ]

unfoldable pub error_of : Text → Option Text
error_of [] = none
error_of (c ∷ t) = some (take 180 (c ∷ t))

abbrev pub is_granted : LineStatus → Bool
is_granted s = elim s [ all_delivered ↦ true | partial ↦ true | _ ↦ false ]

abbrev pub settle_item : GrantOutcome → Text → LineGrantItem → LineGrantItem
settle_item outcome output i = record i {
  status = next_status outcome;
  error = next_error outcome output;
}

unfoldable pub finish_shop_grant : Runtime → ℕ → Option ℕ → Text → RunResult → Line → Line
unfolding settle_items join_errors error_of classify_grant_output next_status next_error
    line_items_value aggregate_grant_status line_grant_items
finish_shop_grant js now index output result l =
    let outcome = classify_grant_output output result in
    let grants = settle_items index (settle_item outcome output) (line_items js l) in
    let status = aggregate_grant_status grants in
    record l {
      grant_items = line_items_value grants;
      grant_status = status;
      grant_error = error_of (join_errors grants);
      granted_at = if is_granted status then some now else l.granted_at;
    }
