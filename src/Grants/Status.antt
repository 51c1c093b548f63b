-- ===== src/Grants/Status.antt =====
-- The delivery state of a line's grant items (shop-grants.ts).
pub mod Aggregate
use mastermind_minecraft_ser.Prelude.{
  ℕ, Bool, true, false, ◌&&◌, Text, codes, same, Option, none, List, [], ◌∷◌, map, any, all,
  if◌then◌else◌,
}
use mastermind_minecraft_ser.Grants.Items.{GrantItemSpec}

-- A status is a string; the code writes the first four.
pub data GrantStatus : Type 0 where
  pending queued delivered failed : GrantStatus
  other : Text → GrantStatus

unfoldable pub status_text : GrantStatus → Text
status_text pending = codes "pending"
status_text queued = codes "queued"
status_text delivered = codes "delivered"
status_text failed = codes "failed"
status_text (other s) = s

unfoldable pub status_of : Text → GrantStatus
unfolding same
status_of s =
    if same s (codes "pending")
    then pending
    else if same s (codes "queued")
    then queued
    else if same s (codes "delivered")
    then delivered
    else if same s (codes "failed")
    then failed
    else other s

pub record LineGrantItem : Type 0 where
  pub name : Text
  pub quantity : ℕ
  pub status : GrantStatus
  pub attempts : ℕ
  pub error : Option Text

abbrev pub is_pending : LineGrantItem → Bool
is_pending i = elim i.status [ pending ↦ true | _ ↦ false ]

abbrev pub is_queued : LineGrantItem → Bool
is_queued i = elim i.status [ queued ↦ true | _ ↦ false ]

abbrev pub is_delivered : LineGrantItem → Bool
is_delivered i = elim i.status [ delivered ↦ true | _ ↦ false ]

abbrev pub is_failed : LineGrantItem → Bool
is_failed i = elim i.status [ failed ↦ true | _ ↦ false ]

abbrev pub new_grant : GrantItemSpec → LineGrantItem
new_grant s = record {
  name = s.name;
  quantity = s.quantity;
  status = pending;
  attempts = 0;
  error = none;
}

unfoldable pub snapshot_line_grants : List GrantItemSpec → List LineGrantItem
snapshot_line_grants specs = map new_grant specs

-- The strings that `aggregateGrantStatus` returns.
pub data LineStatus : Type 0 where
  no_grants all_delivered all_failed has_pending has_queued partial : LineStatus

unfoldable pub aggregate_grant_status : List LineGrantItem → LineStatus
aggregate_grant_status [] = no_grants
aggregate_grant_status (i ∷ is) =
    let items = i ∷ is in
    if all is_delivered items
    then all_delivered
    else if all is_failed items
    then all_failed
    else if any is_pending items
    then has_pending
    else if any is_queued items
    then has_queued
    else if any is_delivered items && any is_failed items
    then partial
    else has_pending
