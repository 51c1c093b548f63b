-- ===== src/Donations/Shop/Manage.antt =====
-- Making, editing and removing shop items (shop-items.service.ts). The conversion of a picture, which may
-- throw, is an argument; the files that hold the pictures are left out.
use mastermind_minecraft_ser.Prelude.{
  ℕ, pos, Bool, true, false, ◌&&◌, ◌||◌, not, Text, codes, trim, same, Option, none, some, List, [],
  ◌∷◌, filter, length, leb, ◌==◌, if◌then◌else◌, find_first, update_first,
}
use mastermind_minecraft_ser.Json.{
  int, Value, undefined, null, string, number, array, object, nil, cons, end, field,
}
use mastermind_minecraft_ser.Grants.Items.{Runtime, GrantItemSpec, parse_grant_item_list}
use mastermind_minecraft_ser.Grants.Stored.{specs_value}
use mastermind_minecraft_ser.Donations.Stripe.{non_empty}
use mastermind_minecraft_ser.Donations.Shop.{
  max_shop_items, parse_shop_name, parse_shop_description, parse_shop_price_dollars,
  parse_active_flag, detect_shop_image,
}

pub record ShopItemRow : Type 0 where
  pub id : ℕ
  pub org_id : ℕ
  pub name : Text
  pub description : Text
  pub price_cents : ℕ
  pub active : Bool
  pub has_image : Bool
  pub sort_order : ℕ
  pub grant_items : Value
  pub grant_item_name : Option Text
  pub grant_quantity : ℕ

pub record AuditLog : Type 0 where
  pub org_id : ℕ
  pub actor_id : ℕ
  pub action : Text
  pub resource_id : ℕ

pub record Db : Type 0 where
  pub items : List ShopItemRow
  pub audit : List AuditLog

-- What a request gives; the fields are untrusted.
pub record ShopItemInput : Type 0 where
  pub name : Value
  pub description : Value
  pub price : Value
  pub active : Value
  pub grant_item_name : Value
  pub grant_quantity : Value
  pub grant_items : Value

abbrev pub is_in_org : ℕ → ShopItemRow → Bool
is_in_org org r = r.org_id == org

abbrev pub is_item : ℕ → ℕ → ShopItemRow → Bool
is_item org id r = r.id == id && r.org_id == org

abbrev pub has_item_id : ℕ → ShopItemRow → Bool
has_item_id id r = r.id == id

-- `value == null || value === ''`
unfoldable pub is_absent : Value → Bool
is_absent undefined = true
is_absent null = true
is_absent (string []) = true
is_absent _ = false

unfoldable pub is_nullish : Value → Bool
is_nullish undefined = true
is_nullish null = true
is_nullish _ = false

-- `[{ name, quantity }]`
abbrev pub one_grant : Value → Value → Value
one_grant name quantity =
    array (cons (object (field "name" name (field "quantity" quantity end))) nil)

-- `String(value)` of a value that is not a string is the runtime's
unfoldable pub text_of : Runtime → Value → Text
text_of js (string t) = t
text_of js v = js.to_string v

-- the single legacy grant of a row; an empty name is none
unfoldable pub row_grant : ShopItemRow → Value
row_grant r = elim r.grant_item_name [
  | some (c ∷ t) ↦ one_grant (string (c ∷ t)) (number (int (pos r.grant_quantity)))
  | _ ↦ array nil
]

unfoldable pub has_grant_name : ShopItemRow → Bool
has_grant_name r = elim r.grant_item_name [ some (c ∷ t) ↦ true | _ ↦ false ]

-- the grants of a row that no field changes
unfoldable pub kept_grants : Runtime → ShopItemRow → Option (List GrantItemSpec)
unfolding row_grant has_grant_name parse_grant_item_list
kept_grants js r = elim (parse_grant_item_list js r.grant_items) [
  | none ↦ parse_grant_item_list js (row_grant r)
  | some [] ↦ if has_grant_name r then parse_grant_item_list js (row_grant r) else some []
  | some (i ∷ is) ↦ some (i ∷ is)
]

unfoldable pub existing_grants : Runtime → Option ShopItemRow → Option (List GrantItemSpec)
unfolding kept_grants
existing_grants js none = some []
existing_grants js (some r) = kept_grants js r

-- `parseShopGrantFields`; `none` is the exception
unfoldable pub parse_shop_grant_fields :
    Runtime → ShopItemInput → Option ShopItemRow → Option (List GrantItemSpec)
unfolding is_absent is_nullish text_of existing_grants parse_grant_item_list trim same
parse_shop_grant_fields js input existing =
    if not (is_absent input.grant_items)
    then parse_grant_item_list js input.grant_items
    else if not (is_nullish input.grant_item_name)
    then parse_grant_item_list js (
        if same (trim (text_of js input.grant_item_name)) []
        then array nil
        else one_grant input.grant_item_name input.grant_quantity)
    else existing_grants js existing

unfoldable pub first_name : List GrantItemSpec → Option Text
first_name [] = none
first_name (i ∷ is) = some i.name

unfoldable pub first_quantity : List GrantItemSpec → ℕ
first_quantity [] = 1
first_quantity (i ∷ is) = i.quantity

-- `viewGrantItems`
unfoldable pub view_grant_items : Runtime → ShopItemRow → List GrantItemSpec
unfolding row_grant parse_grant_item_list
view_grant_items js r = elim (parse_grant_item_list js r.grant_items) [
  | some (i ∷ is) ↦ i ∷ is
  | _ ↦ elim (parse_grant_item_list js (row_grant r)) [ none ↦ [] | some is ↦ is ]
]

-- The picture of a request: the conversion is tried on what looks like a picture.
unfoldable pub require_processed_image : (List ℕ → Bool) → List ℕ → Bool
unfolding detect_shop_image
require_processed_image converts bytes = elim (detect_shop_image bytes) [
  | none ↦ false
  | some kind ↦ converts bytes
]

pub data ShopResult : Type 0 where
  done : Db → ShopResult
  conflict not_found : ShopResult

abbrev pub log : ℕ → ℕ → Text → ℕ → List AuditLog → List AuditLog
log org actor action id audit =
    record { org_id = org; actor_id = actor; action = action; resource_id = id } ∷ audit

unfoldable pub new_row : ℕ → ℕ → ℕ → ShopItemInput → Text → ℕ → List GrantItemSpec → ShopItemRow
unfolding parse_shop_description parse_active_flag specs_value first_name first_quantity
new_row id org order input name price grants = record {
  id = id;
  org_id = org;
  name = name;
  description = parse_shop_description input.description;
  price_cents = price;
  active = parse_active_flag input.active true;
  has_image = true;
  sort_order = order;
  grant_items = specs_value grants;
  grant_item_name = first_name grants;
  grant_quantity = first_quantity grants;
}

-- the fields as they were read, in the order in which the code refuses them
unfoldable pub add_item :
    Db
    → ℕ
    → ℕ
    → ℕ
    → ℕ
    → ShopItemInput
    → Option Text
    → Option ℕ
    → Option (List GrantItemSpec)
    → Bool
    → ShopResult
unfolding new_row
add_item db org user id order input (some name) (some price) (some grants) true = done (record {
  items = new_row id org order input name price grants ∷ db.items;
  audit = log org user (codes "shop_item_created") id db.audit;
})
add_item db org user id order input _ _ _ _ = conflict

-- `id` is the id that the database gives the row
unfoldable pub create :
    Runtime → (List ℕ → Bool) → Db → ℕ → ℕ → ℕ → ShopItemInput → List ℕ → ShopResult
unfolding add_item parse_shop_name parse_shop_price_dollars parse_shop_grant_fields
    require_processed_image filter
create js converts db org user id input file =
    let count = length (filter (is_in_org org) db.items) in
    if leb max_shop_items count
    then conflict
    else add_item db org user id count input (parse_shop_name input.name)
        (parse_shop_price_dollars js input.price) (parse_shop_grant_fields js input none)
        (require_processed_image converts file)

unfoldable pub edited_row :
    ShopItemInput → Text → ℕ → List GrantItemSpec → Bool → ShopItemRow → ShopItemRow
unfolding is_nullish parse_shop_description parse_active_flag specs_value first_name first_quantity
edited_row input name price grants has_file r = record r {
  name = name;
  description =
      if is_nullish input.description
      then r.description
      else parse_shop_description input.description;
  price_cents = price;
  active = parse_active_flag input.active r.active;
  has_image = r.has_image || has_file;
  grant_items = specs_value grants;
  grant_item_name = first_name grants;
  grant_quantity = first_quantity grants;
}

unfoldable pub save_item :
    Db
    → ℕ
    → ℕ
    → ShopItemRow
    → ShopItemInput
    → Option Text
    → Option ℕ
    → Option (List GrantItemSpec)
    → Bool
    → Bool
    → ShopResult
unfolding edited_row
save_item db org user r input (some name) (some price) (some grants) has_file true = done (record {
  items = update_first (has_item_id r.id) (edited_row input name price grants has_file) db.items;
  audit = log org user (codes "shop_item_updated") r.id db.audit;
})
save_item db org user r input _ _ _ has_file _ = conflict

-- without a file the picture stays
unfoldable pub update :
    Runtime → (List ℕ → Bool) → Db → ℕ → ℕ → ℕ → ShopItemInput → List ℕ → ShopResult
unfolding save_item non_empty parse_shop_name parse_shop_price_dollars parse_shop_grant_fields
    require_processed_image is_absent
update js converts db org user id input file = elim (find_first (is_item org id) db.items) [
  | none ↦ not_found
  | some r ↦
      let has_file = not (length file == 0) in
      save_item db org user r input
        (if is_absent input.name then non_empty r.name else parse_shop_name input.name)
        (if is_absent input.price
          then some r.price_cents
          else parse_shop_price_dollars js input.price)
        (parse_shop_grant_fields js input (some r)) has_file
        (if has_file then require_processed_image converts file else true)
]

unfoldable pub remove_item : ℕ → List ShopItemRow → List ShopItemRow
remove_item id [] = []
remove_item id (r ∷ rs) = let rest = remove_item id rs in if has_item_id id r then rs else r ∷ rest

unfoldable pub remove : Db → ℕ → ℕ → ℕ → ShopResult
unfolding remove_item
remove db org user id = elim (find_first (is_item org id) db.items) [
  | none ↦ not_found
  | some r ↦ done (record {
    items = remove_item r.id db.items;
    audit = log org user (codes "shop_item_deleted") r.id db.audit;
  })
]
