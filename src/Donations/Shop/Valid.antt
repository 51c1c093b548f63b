-- ===== src/Donations/Shop/Valid.antt =====
-- Valid rows of the shop, and their creation (shop-items.service.ts).
use mathlib.Core.Path.{subst}
use mastermind_minecraft_ser.Prelude.{
  ℕ, zero, suc, ◌≤◌, Bool, true, false, not, ◌≡◌, refl, sym, ap, Text, trim, same, split_on, Option,
  none, some, List, [], ◌∷◌, All, filter, length, take, leb, arith, if◌then◌else◌, Bool-cases, inl,
  inr,
}
use mastermind_minecraft_ser.Json.{Value, undefined, null, bool, string, number, array, object, nil}
use mastermind_minecraft_ser.Grants.Items.{Runtime, GrantItemSpec, parse_grant_item_list}
use mastermind_minecraft_ser.Grants.Stored.{specs_value}
use mastermind_minecraft_ser.Grants.Stored.Specs.{parse_grant_item_list-again}
use mastermind_minecraft_ser.Donations.Shop.{
  max_shop_name, max_shop_description, max_shop_items, min_shop_price_cents, max_shop_price_cents,
  parse_shop_name, parse_shop_description, parse_shop_price_dollars, in_price_range, price_cents,
}
use mastermind_minecraft_ser.Donations.Shop.Manage.{
  ShopItemRow, Db, ShopItemInput, ShopResult, done, conflict, is_in_org, create, add_item, new_row,
  parse_shop_grant_fields, existing_grants, kept_grants, row_grant, has_grant_name, one_grant,
  text_of, is_absent, is_nullish, require_processed_image,
}

abbrev pub IsName : Text → Type 0
IsName t = (1 ≤ length t) × (length t ≤ max_shop_name)

abbrev pub IsPrice : ℕ → Type 0
IsPrice n = (min_shop_price_cents ≤ n) × (n ≤ max_shop_price_cents)

-- A row as the shop shows and sells it; its grants are read back from the column.
pub record IsValidRow (js : Runtime) (r : ShopItemRow) : Type 0 where
  pub name : IsName r.name
  pub description : length r.description ≤ max_shop_description
  pub price : IsPrice r.price_cents
  pub grants : List GrantItemSpec
  pub read : parse_grant_item_list js r.grant_items ≡ some grants

pub record IsValidShop (js : Runtime) (org : ℕ) (db : Db) : Type 0 where
  pub rows : All (IsValidRow js) db.items
  pub size : length (filter (is_in_org org) db.items) ≤ max_shop_items

pub parse_shop_name-IsName : (v : Value) (t : Text) → parse_shop_name v ≡ some t → IsName t
unfolding parse_shop_name
parse_shop_name-IsName (string raw) t h = (ground arith, ground arith)
parse_shop_name-IsName _ t h = absurd (ground arith)

in_price_range-IsPrice : (o : Option ℕ) (n : ℕ) → in_price_range o ≡ some n → IsPrice n
unfolding in_price_range
in_price_range-IsPrice none n h = absurd (ground arith)
in_price_range-IsPrice (some m) n h = (ground arith, ground arith)

pub parse_shop_price_dollars-IsPrice :
    (js : Runtime) (v : Value) (n : ℕ) → parse_shop_price_dollars js v ≡ some n → IsPrice n
unfolding parse_shop_price_dollars
parse_shop_price_dollars-IsPrice js (string t) n h =
    in_price_range-IsPrice (price_cents (split_on b'.' (trim t))) n h
parse_shop_price_dollars-IsPrice js (number m) n h =
    in_price_range-IsPrice (price_cents (split_on b'.' (trim (js.to_string (number m))))) n h
parse_shop_price_dollars-IsPrice js _ n h = absurd (ground arith)

length-take : (n : ℕ) (t : Text) → length (take n t) ≤ n
length-take zero t = omega arith
length-take (suc n) [] = omega arith
length-take (suc n) (c ∷ t) = omega (arith, length-take n t)

pub description-short : (v : Value) → length (parse_shop_description v) ≤ max_shop_description
unfolding parse_shop_description
description-short (string raw) = length-take max_shop_description (trim raw)
description-short undefined = omega arith
description-short null = omega arith
description-short (bool b) = omega arith
description-short (number n) = omega arith
description-short (array xs) = omega arith
description-short (object fs) = omega arith

-- What is accepted as grants was read by `parseGrantItemList`.
abbrev IsRead : Runtime → Option (List GrantItemSpec) → Type 0
IsRead js o =
    (is : List GrantItemSpec) → o ≡ some is → (v : Value) × (parse_grant_item_list js v ≡ some is)

IsRead-if :
    (js : Runtime) (b : Bool) (x y : Option (List GrantItemSpec))
    → IsRead js x
    → IsRead js y
    → IsRead js (if b then x else y)
IsRead-if js true x y hx hy = hx
IsRead-if js false x y hx hy = hy

IsRead-empty : (js : Runtime) → IsRead js (some [])
unfolding parse_grant_item_list
IsRead-empty js is h = (null, h)

IsRead-kept :
    (js : Runtime) (o x y : Option (List GrantItemSpec))
    → IsRead js o
    → IsRead js x
    → IsRead js y
    → IsRead js (elim o as (λ z. Option (List GrantItemSpec)) [
      | none ↦ x
      | some [] ↦ y
      | some (i ∷ is) ↦ some (i ∷ is)
    ])
IsRead-kept js none x y ho hx hy = hx
IsRead-kept js (some []) x y ho hx hy = hy
IsRead-kept js (some (i ∷ is)) x y ho hx hy = ho

existing_grants-IsRead :
    (js : Runtime) (existing : Option ShopItemRow) → IsRead js (existing_grants js existing)
unfolding existing_grants kept_grants
existing_grants-IsRead js none = IsRead-empty js
existing_grants-IsRead js (some r) =
    let legacy : IsRead js (parse_grant_item_list js (row_grant r)) = λ is h. (row_grant r, h) in
    IsRead-kept js (parse_grant_item_list js r.grant_items) _ _ (λ is h. (r.grant_items, h)) legacy
      (IsRead-if js (has_grant_name r) _ _ legacy (IsRead-empty js))

grants-IsRead :
    (js : Runtime) (input : ShopItemInput) (existing : Option ShopItemRow)
    → IsRead js (parse_shop_grant_fields js input existing)
unfolding parse_shop_grant_fields
grants-IsRead js input existing =
    IsRead-if js (not (is_absent input.grant_items)) _ _ (λ is h. (input.grant_items, h))
      (IsRead-if js (not (is_nullish input.grant_item_name)) _ _
        (λ is h. (
          if same (trim (text_of js input.grant_item_name)) []
              then array nil
              else one_grant input.grant_item_name input.grant_quantity,
          h,
        ))
        (existing_grants-IsRead js existing))

-- the grants that are accepted are read back from the column
pub grants-again :
    (js : Runtime) (input : ShopItemInput) (existing : Option ShopItemRow) (is : List GrantItemSpec)
    → parse_shop_grant_fields js input existing ≡ some is
    → parse_grant_item_list js (specs_value is) ≡ some is
grants-again js input existing is h =
    let (v, e) = grants-IsRead js input existing is h in parse_grant_item_list-again js v is e

done_db : ShopResult → Db → Db
done_db (done db) other = db
done_db _ other = other

pub done-injective : (a b : Db) → done a ≡ done b → a ≡ b
unfolding done_db
done-injective a b h = ap (λ r. done_db r a) h

new_row-IsValid :
    (js : Runtime) (id org order : ℕ) (input : ShopItemInput) (name : Text) (price : ℕ)
    (grants : List GrantItemSpec)
    → IsName name
    → IsPrice price
    → parse_grant_item_list js (specs_value grants) ≡ some grants
    → IsValidRow js (new_row id org order input name price grants)
unfolding new_row
new_row-IsValid js id org order input name price grants hn hp hg = record {
  name = hn;
  description = description-short input.description;
  price = hp;
  grants = grants;
  read = hg;
}

add_item-inv :
    (db next : Db) (org user id order : ℕ) (input : ShopItemInput) (name : Option Text)
    (price : Option ℕ) (grants : Option (List GrantItemSpec)) (image : Bool)
    → add_item db org user id order input name price grants image ≡ done next
    → (n : Text) × (p : ℕ) × (is : List GrantItemSpec) × (name ≡ some n)
      × (price ≡ some p)
      × (grants ≡ some is)
      × (next.items ≡ new_row id org order input n p is ∷ db.items)
unfolding add_item
add_item-inv db next org user id order input (some n) (some p) (some is) true h =
    (n, p, is, refl, refl, refl, sym (ap (λ (d : Db). d.items) (done-injective _ next h)))
add_item-inv db next org user id order input none price grants image h = absurd (ground arith)
add_item-inv db next org user id order input (some n) none grants image h = absurd (ground arith)
add_item-inv db next org user id order input (some n) (some p) none image h = absurd (ground arith)
add_item-inv db next org user id order input (some n) (some p) (some is) false h =
    absurd (ground arith)

one_more :
    (p : ShopItemRow → Bool) (r : ShopItemRow) (rs : List ShopItemRow)
    → leb max_shop_items (length (filter p rs)) ≡ false
    → length (filter p (r ∷ rs)) ≤ max_shop_items
unfolding filter
one_more p r rs h = elim (Bool-cases (p r)) [
  | inl hit ↦ rw (hit, filter) (ground arith)
  | inr miss ↦ rw (miss, filter) (ground arith)
]

room_left :
    (full : Bool) (r : ShopResult) (next : Db)
    → (if full then conflict else r) ≡ done next
    → (full ≡ false) × (r ≡ done next)
room_left full r next h = (ground arith, ground arith)

-- A shop item that is created, whatever the request gives, leaves the shop valid and at most fifty items
-- long: every row has a name of 1 to 80 characters, a description of at most 500, a price between
-- $1.00 and $500.00, and grants that are read back from their column.
pub create-IsValid :
    (js : Runtime) (converts : List ℕ → Bool) (db next : Db) (org user id : ℕ)
    (input : ShopItemInput) (file : List ℕ)
    → IsValidShop js org db
    → create js converts db org user id input file ≡ done next
    → IsValidShop js org next
unfolding create
create-IsValid js converts db next org user id input file v h =
    let (room, added) = room_left _ _ next h in
    let (n, p, is, en, ep, eg, items) =
      add_item-inv db next org user id _ input (parse_shop_name input.name)
        (parse_shop_price_dollars js input.price) (parse_shop_grant_fields js input none)
        (require_processed_image converts file) added in
    record {
      rows = subst (All (IsValidRow js)) (sym items) (
        new_row-IsValid js id org (length (filter (is_in_org org) db.items)) input n p is
            (parse_shop_name-IsName input.name n en)
            (parse_shop_price_dollars-IsPrice js input.price p ep)
            (grants-again js input none is eg),
        v.rows,
      );
      size =
          subst (λ (rs : List ShopItemRow). length (filter (is_in_org org) rs) ≤ max_shop_items)
            (sym items)
            (one_more (is_in_org org)
              (new_row id org (length (filter (is_in_org org) db.items)) input n p is) db.items
              room);
    }
