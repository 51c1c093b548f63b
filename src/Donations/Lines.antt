-- ===== src/Donations/Lines.antt =====
-- The lines of a donation (`buildDonationLines` of donations.service.ts).
use mastermind_minecraft_ser.Prelude.{
  ℕ, suc, pos, Bool, ◌&&◌, Text, codes, same, Option, none, some, List, [], ◌∷◌, ltb, filter,
  find_first, get_elem?,
}
use mastermind_minecraft_ser.Json.{
  int, Value, undefined, null, number, string, array, object, nil, cons, end, field,
}
use mastermind_minecraft_ser.Grants.Items.{Runtime, GrantItemSpec, parse_grant_item_list}
use mastermind_minecraft_ser.Grants.Status.{
  LineGrantItem, LineStatus, snapshot_line_grants, aggregate_grant_status,
}
use mastermind_minecraft_ser.Donations.Stripe.{Paid}

pub record ShopItem : Type 0 where
  pub id : Text
  pub org_id : Text
  pub name : Text
  pub price_cents : ℕ
  pub grant_item_name : Option Text
  pub grant_quantity : Option ℕ
  pub grant_items : Value

pub record DonationLine : Type 0 where
  pub shop_item_id : Option Text
  pub item_name : Text
  pub amount_cents : ℕ
  pub grant_items : List LineGrantItem
  pub grant_item_name : Option Text
  pub grant_quantity : Option ℕ
  pub grant_status : LineStatus

unfoldable pub is_shop_item : Text → Text → ShopItem → Bool
unfolding same
is_shop_item org id item = same item.org_id org && same item.id id

-- `lineAmounts[index] ?? item?.priceCents ?? 0`
unfoldable pub line_amount : Option ℕ → Option ShopItem → ℕ
line_amount (some n) item = n
line_amount none none = 0
line_amount none (some item) = item.price_cents

unfoldable pub quantity_value : Option ℕ → Value
quantity_value none = null
quantity_value (some n) = number (int (pos n))

-- `false || []` and the list itself otherwise
unfoldable pub or_empty : Option (List GrantItemSpec) → List GrantItemSpec
or_empty none = []
or_empty (some is) = is

-- the item's single legacy grant; an empty name is none
unfoldable pub legacy_list : Option Text → Option ℕ → Value
unfolding quantity_value
legacy_list (some (c ∷ t)) q =
    array
      (cons (object (field "name" (string (c ∷ t)) (field "quantity" (quantity_value q) end))) nil)
legacy_list _ q = array nil

unfoldable pub prefer : Option (List GrantItemSpec) → List GrantItemSpec → List GrantItemSpec
prefer (some (i ∷ is)) rest = i ∷ is
prefer _ rest = rest

unfoldable pub item_grants : Runtime → Option ShopItem → List GrantItemSpec
unfolding prefer or_empty legacy_list parse_grant_item_list
item_grants js none =
    prefer (parse_grant_item_list js undefined) (or_empty (parse_grant_item_list js (array nil)))
item_grants js (some item) =
    prefer (parse_grant_item_list js item.grant_items)
      (or_empty (parse_grant_item_list js (legacy_list item.grant_item_name item.grant_quantity)))

unfoldable pub item_id : Option ShopItem → Option Text
item_id none = none
item_id (some item) = some item.id

unfoldable pub item_label : Option ShopItem → Text
item_label none = codes "Shop item"
item_label (some item) = item.name

unfoldable pub first_name : List LineGrantItem → Option Text
first_name [] = none
first_name (g ∷ gs) = some g.name

unfoldable pub first_quantity : List LineGrantItem → Option ℕ
first_quantity [] = none
first_quantity (g ∷ gs) = some g.quantity

unfoldable pub build_line : Runtime → Option ShopItem → Option ℕ → DonationLine
unfolding line_amount item_grants item_id item_label first_name first_quantity snapshot_line_grants
    aggregate_grant_status
build_line js item amount =
    let grants = snapshot_line_grants (item_grants js item) in
    record {
      shop_item_id = item_id item;
      item_name = item_label item;
      amount_cents = line_amount amount item;
      grant_items = grants;
      grant_item_name = first_name grants;
      grant_quantity = first_quantity grants;
      grant_status = aggregate_grant_status grants;
    }

-- one line for each id from `index` on
unfoldable pub lines_from :
    Runtime → List ShopItem → Text → List ℕ → ℕ → List Text → List DonationLine
unfolding build_line is_shop_item
lines_from js items org amounts index [] = []
lines_from js items org amounts index (id ∷ ids) =
    build_line js (find_first (is_shop_item org id) items) (get_elem? amounts index)
    ∷ lines_from js items org amounts (suc index) ids

abbrev pub has_amount : DonationLine → Bool
has_amount line = ltb 0 line.amount_cents

unfoldable pub build_donation_lines : Runtime → List ShopItem → Paid → List DonationLine
unfolding lines_from filter
build_donation_lines js items paid =
    filter has_amount (lines_from js items paid.org_id paid.line_amounts 0 paid.shop_item_ids)
