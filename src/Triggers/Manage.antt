-- ===== src/Triggers/Manage.antt =====
-- Creating and editing triggers (triggers.service.ts). Whether the server is there is an argument; the
-- backfill that may follow is in Triggers.Backfill.
use mathlib.Core.Path.{subst}
use mastermind_minecraft_ser.Prelude.{
  ℕ, ◌≤◌, ◌<◌, ◌==◌, Bool, true, false, ◌||◌, not, ◌≡◌, refl, sym, ap, Text, codes, same, trim,
  length, ltb, Option, none, some, if◌then◌else◌, arith, Bool-cases, inl, inr,
}
use mastermind_minecraft_ser.Json.{Value}
use mastermind_minecraft_ser.Grants.Items.{Runtime}
use mastermind_minecraft_ser.Triggers.Catalog.{
  GrantItemsActionConfig, parse_grant_items_action_config, parse_playtime_config,
  parse_donation_total_config,
}

pub data EventConfig : Type 0 where
  first_join : EventConfig
  playtime : ℕ → EventConfig
  donation_total : ℕ → EventConfig

abbrev pub is_first_join : Text → Bool
is_first_join t = same t (codes "player_first_join")

abbrev pub is_playtime : Text → Bool
is_playtime t = same t (codes "player_playtime")

abbrev pub is_donation_total : Text → Bool
is_donation_total t = same t (codes "player_donation_total")

unfoldable pub hours_config : Option ℕ → Option EventConfig
hours_config none = none
hours_config (some n) = some (playtime n)

unfoldable pub dollars_config : Option ℕ → Option EventConfig
dollars_config none = none
dollars_config (some n) = some (donation_total n)

unfoldable pub parse_event_config : Runtime → Text → Value → Option EventConfig
unfolding hours_config dollars_config parse_playtime_config parse_donation_total_config
parse_event_config js type raw =
    if is_first_join type
    then some first_join
    else if is_playtime type
    then hours_config (parse_playtime_config js raw)
    else if is_donation_total type
    then dollars_config (parse_donation_total_config js raw)
    else none

-- `enabled` is none where it is not given.
pub record TriggerInput : Type 0 where
  pub name : Text
  pub enabled : Option Bool
  pub event_type : Text
  pub event_config : Value
  pub action_type : Text
  pub action_config : Value
  pub apply_to_existing : Bool

pub record TriggerRow : Type 0 where
  pub name : Text
  pub enabled : Bool
  pub event_type : Text
  pub event_config : EventConfig
  pub action_config : GrantItemsActionConfig
  pub apply_to_existing : Bool

pub data ManageError : Type 0 where
  bad_name unsupported_event unsupported_action no_server bad_config frozen : ManageError

pub data Managed : Type 0 where
  saved : TriggerRow → Managed
  refused : ManageError → Managed

abbrev pub is_bad_name : Text → Bool
is_bad_name t = length t == 0 || ltb 80 (length t)

unfoldable pub or_true : Option Bool → Bool
or_true none = true
or_true (some b) = b

unfoldable pub save :
    TriggerInput → Text → Option EventConfig → Option GrantItemsActionConfig → Managed
unfolding or_true
save input name (some event) (some action) = saved (record {
  name = name;
  enabled = or_true input.enabled;
  event_type = input.event_type;
  event_config = event;
  action_config = action;
  apply_to_existing = input.apply_to_existing;
})
save input name _ _ = refused bad_config

unfoldable pub create_trigger : Runtime → Bool → TriggerInput → Managed
unfolding save parse_event_config parse_grant_items_action_config trim
create_trigger js server_found input =
    if is_bad_name (trim input.name)
    then refused bad_name
    else if not (
        is_first_join input.event_type
        || is_playtime input.event_type
        || is_donation_total input.event_type)
    then refused unsupported_event
    else if not (same input.action_type (codes "grant_items"))
    then refused unsupported_action
    else if not server_found
    then refused no_server
    else save input (trim input.name) (parse_event_config js input.event_type input.event_config)
        (parse_grant_items_action_config js input.action_config)

-- The name and whether the trigger is enabled, where they are given.
unfoldable pub set_enabled : Option Bool → TriggerRow → TriggerRow
set_enabled none r = r
set_enabled (some b) r = record r { enabled = b }

-- `fixed_given`: the input has one of the fields that cannot be edited
unfoldable pub update_trigger : TriggerRow → Bool → Option Text → Option Bool → Managed
unfolding set_enabled trim
update_trigger r true name enabled = refused frozen
update_trigger r false none enabled = saved (set_enabled enabled r)
update_trigger r false (some name) enabled =
    if is_bad_name (trim name)
    then refused bad_name
    else saved (set_enabled enabled (record r { name = trim name }))

-- the name of a trigger
abbrev pub IsName : Text → Type 0
IsName t = (0 < length t) × (length t ≤ 80)

row_of : TriggerRow → Managed → TriggerRow
row_of d (saved r) = r
row_of d (refused e) = d

save-saved :
    (input : TriggerInput) (name : Text) (e : Option EventConfig)
    (a : Option GrantItemsActionConfig) (r : TriggerRow)
    → save input name e a ≡ saved r
    → (r.name ≡ name) × (e ≡ some r.event_config) × (a ≡ some r.action_config)
unfolding save row_of
save-saved input name none a r h = absurd (ground arith)
save-saved input name (some e) none r h = absurd (ground arith)
save-saved input name (some e) (some a) r h =
    subst
      (λ (x : TriggerRow).
        (x.name ≡ name) × (some e ≡ some x.event_config) × (some a ≡ some x.action_config))
      (ap (row_of r) h) (refl, refl, refl)

-- A trigger that is created has a trimmed name of 1 to 80 characters, and its configurations are what
-- the input's are read as: it is saved only if both can be read and its server is there.
pub create_trigger-saved :
    (js : Runtime) (server_found : Bool) (input : TriggerInput) (r : TriggerRow)
    → create_trigger js server_found input ≡ saved r
    → IsName r.name
      × (r.name ≡ trim input.name)
      × (server_found ≡ true)
      × (parse_event_config js input.event_type input.event_config ≡ some r.event_config)
      × (parse_grant_items_action_config js input.action_config ≡ some r.action_config)
unfolding create_trigger
create_trigger-saved js server_found input r h = elim (Bool-cases (is_bad_name (trim input.name))) [
  | inl bad ↦ absurd (ground arith)
  | inr good ↦
      elim (Bool-cases (
        not (
          is_first_join input.event_type
          || is_playtime input.event_type
          || is_donation_total input.event_type))) [
            | inl unknown ↦ absurd (ground arith)
            | inr event ↦ elim (Bool-cases (not (same input.action_type (codes "grant_items")))) [
              | inl other ↦ absurd (ground arith)
              | inr action ↦ elim (Bool-cases server_found) [
                | inr gone ↦ absurd (ground arith)
                | inl there ↦
                    let (name, e, a) =
                      save-saved input (trim input.name)
                        (parse_event_config js input.event_type input.event_config)
                        (parse_grant_items_action_config js input.action_config) r
                        (rw (good, event, action, there, create_trigger) at h) in
                    (subst IsName (sym name) (ground arith, ground arith), name, there, e, a)
              ]
            ]
          ]
]

kept :
    (r r' : TriggerRow) (enabled : Option Bool)
    → IsName r.name
    → saved (set_enabled enabled r) ≡ saved r'
    → IsName r'.name
      × (r'.event_type ≡ r.event_type)
      × (r'.event_config ≡ r.event_config)
      × (r'.action_config ≡ r.action_config)
unfolding set_enabled row_of
kept r r' none n h =
    subst
      (λ (x : TriggerRow).
        IsName x.name
        × (x.event_type ≡ r.event_type)
        × (x.event_config ≡ r.event_config)
        × (x.action_config ≡ r.action_config))
      (ap (row_of r) h) (n, refl, refl, refl)
kept r r' (some b) n h =
    subst
      (λ (x : TriggerRow).
        IsName x.name
        × (x.event_type ≡ r.event_type)
        × (x.event_config ≡ r.event_config)
        × (x.action_config ≡ r.action_config))
      (ap (row_of r) h) (n, refl, refl, refl)

-- An accepted edit keeps the name of a trigger within 1 to 80 characters and changes neither its event
-- nor its grants.
pub update_trigger-saved :
    (r r' : TriggerRow) (fixed_given : Bool) (name : Option Text) (enabled : Option Bool)
    → IsName r.name
    → update_trigger r fixed_given name enabled ≡ saved r'
    → IsName r'.name
      × (r'.event_type ≡ r.event_type)
      × (r'.event_config ≡ r.event_config)
      × (r'.action_config ≡ r.action_config)
unfolding update_trigger set_enabled row_of
update_trigger-saved r r' true name enabled n h = absurd (ground arith)
update_trigger-saved r r' false none enabled n h = kept r r' enabled n h
update_trigger-saved r r' false (some name) enabled n h =
    elim (Bool-cases (is_bad_name (trim name))) [
      | inl bad ↦ absurd (ground arith)
      | inr good ↦
          kept (record r { name = trim name }) r' enabled (ground arith, ground arith)
            (rw (good, update_trigger) at h)
    ]
