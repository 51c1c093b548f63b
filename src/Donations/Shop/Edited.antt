-- ===== src/Donations/Shop/Edited.antt =====
-- Edits of valid rows of the shop (shop-items.service.ts).
use mathlib.Core.Path.{subst}
use mathlib.Core.Option.{some-injective}
use mastermind_minecraft_ser.Prelude.{
  ℕ, ◌≤◌, Bool, true, false, not, ◌≡◌, refl, sym, ap, ◌∙◌, Text, Option, none, some, List, [], ◌∷◌,
  All, filter, length, ◌==◌, arith, if◌then◌else◌, find_first, update_first, Bool-cases,
  Option-cases, inl, inr,
}
use mastermind_minecraft_ser.Grants.Items.{Runtime, GrantItemSpec, parse_grant_item_list}
use mastermind_minecraft_ser.Grants.Stored.{specs_value}
use mastermind_minecraft_ser.Donations.Stripe.{non_empty}
use mastermind_minecraft_ser.Donations.Shop.{
  parse_shop_name, parse_shop_description, parse_shop_price_dollars, max_shop_items,
  max_shop_description,
}
use mastermind_minecraft_ser.Donations.Shop.Manage.{
  ShopItemRow, Db, ShopItemInput, done, is_in_org, is_item, has_item_id, update, save_item,
  edited_row, parse_shop_grant_fields, is_absent, is_nullish, require_processed_image,
}
use mastermind_minecraft_ser.Donations.Shop.Valid.{
  IsName, IsPrice, IsValidRow, IsValidShop, parse_shop_name-IsName,
  parse_shop_price_dollars-IsPrice, description-short, grants-again, done-injective,
}

non_empty-same : (t n : Text) → non_empty t ≡ some n → t ≡ n
unfolding non_empty
non_empty-same [] n h = absurd (ground arith)
non_empty-same (c ∷ t) n h = ground arith

kept_or_read :
    {A : Type 0} (P : A → Type 0) (b : Bool) (old new : Option A) (a : A)
    → ((x : A) → old ≡ some x → P x)
    → ((x : A) → new ≡ some x → P x)
    → (if b then old else new) ≡ some a
    → P a
kept_or_read P true old new a ho hn h = ho a h
kept_or_read P false old new a ho hn h = hn a h

save_item-inv :
    (db next : Db) (org user : ℕ) (r : ShopItemRow) (input : ShopItemInput) (name : Option Text)
    (price : Option ℕ) (grants : Option (List GrantItemSpec)) (has_file image : Bool)
    → save_item db org user r input name price grants has_file image ≡ done next
    → (n : Text) × (p : ℕ) × (is : List GrantItemSpec) × (name ≡ some n)
      × (price ≡ some p)
      × (grants ≡ some is)
      × (next.items ≡ update_first (has_item_id r.id) (edited_row input n p is has_file) db.items)
unfolding save_item
save_item-inv db next org user r input (some n) (some p) (some is) has_file true h =
    (n, p, is, refl, refl, refl, sym (ap (λ (d : Db). d.items) (done-injective _ next h)))
save_item-inv db next org user r input none price grants has_file image h = absurd (ground arith)
save_item-inv db next org user r input (some n) none grants has_file image h = absurd (ground arith)
save_item-inv db next org user r input (some n) (some p) none has_file image h =
    absurd (ground arith)
save_item-inv db next org user r input (some n) (some p) (some is) has_file false h =
    absurd (ground arith)

edited_description :
    (b : Bool) (old new : Text)
    → length old ≤ max_shop_description
    → length new ≤ max_shop_description
    → length (if b then old else new) ≤ max_shop_description
edited_description true old new ho hn = ho
edited_description false old new ho hn = hn

edited_row-IsValid :
    (js : Runtime) (input : ShopItemInput) (n : Text) (p : ℕ) (is : List GrantItemSpec)
    (has_file : Bool) (r : ShopItemRow)
    → IsName n
    → IsPrice p
    → parse_grant_item_list js (specs_value is) ≡ some is
    → IsValidRow js r
    → IsValidRow js (edited_row input n p is has_file r)
unfolding edited_row
edited_row-IsValid js input n p is has_file r hn hp hg v = record {
  name = hn;
  description =
      edited_description (is_nullish input.description) r.description
        (parse_shop_description input.description) v.description
        (description-short input.description);
  price = hp;
  grants = is;
  read = hg;
}

All-update :
    (P : ShopItemRow → Type 0) (p : ShopItemRow → Bool) (f : ShopItemRow → ShopItemRow)
    (rs : List ShopItemRow)
    → ((r : ShopItemRow) → P r → P (f r))
    → All P rs
    → All P (update_first p f rs)
unfolding update_first
All-update P p f [] hf h = tt
All-update P p f (r ∷ rs) hf h = elim (Bool-cases (p r)) [
  | inl hit ↦ rw (hit, update_first) (hf r h.0, h.1)
  | inr miss ↦ rw (miss, update_first) (h.0, All-update P p f rs hf h.1)
]

All-find :
    (P : ShopItemRow → Type 0) (p : ShopItemRow → Bool) (rs : List ShopItemRow) (r : ShopItemRow)
    → All P rs
    → find_first p rs ≡ some r
    → P r
unfolding find_first
All-find P p [] r h e = absurd (ground arith)
All-find P p (s ∷ rs) r h e = elim (Bool-cases (p s)) [
  | inl hit ↦ subst P (some-injective s r (ground (arith, hit, e))) h.0
  | inr miss ↦ All-find P p rs r h.1 (ground (arith, miss, e))
]

-- an edit keeps the organization
count-update :
    (org : ℕ) (p : ShopItemRow → Bool) (f : ShopItemRow → ShopItemRow) (rs : List ShopItemRow)
    → ((r : ShopItemRow) → is_in_org org (f r) ≡ is_in_org org r)
    → length (filter (is_in_org org) (update_first p f rs)) ≡ length (filter (is_in_org org) rs)
unfolding filter update_first
count-update org p f [] keep = refl
count-update org p f (r ∷ rs) keep = ground (arith, keep r, count-update org p f rs keep)

edited_row-org :
    (org : ℕ) (input : ShopItemInput) (n : Text) (p : ℕ) (is : List GrantItemSpec) (has_file : Bool)
    (r : ShopItemRow)
    → is_in_org org (edited_row input n p is has_file r) ≡ is_in_org org r
unfolding edited_row
edited_row-org org input n p is has_file r = refl

-- An edit of a shop item that is accepted, whatever fields the request gives or leaves out, keeps the shop
-- valid: every row has a name, a description and a price within their bounds and grants that are read back
-- from their column, and the shop is as long as it was.
pub update-IsValid :
    (js : Runtime) (converts : List ℕ → Bool) (db next : Db) (org user id : ℕ)
    (input : ShopItemInput) (file : List ℕ)
    → IsValidShop js org db
    → update js converts db org user id input file ≡ done next
    → IsValidShop js org next
unfolding update
update-IsValid js converts db next org user id input file v h =
    elim (Option-cases (find_first (is_item org id) db.items)) [
      | inl nothing ↦ absurd (ground (arith, nothing, h))
      | inr (r, found) ↦
          let has_file = not (length file == 0) in
          let name =
            if is_absent input.name then non_empty r.name else parse_shop_name input.name in
          let price =
            if is_absent input.price
            then some r.price_cents
            else parse_shop_price_dollars js input.price in
          let grants = parse_shop_grant_fields js input (some r) in
          let image = if has_file then require_processed_image converts file else true in
          let saved : update js converts db org user id input file
              ≡ save_item db org user r input name price grants has_file image =
            rw (found, update) refl in
          let row = All-find (IsValidRow js) (is_item org id) db.items r v.rows found in
          let (n, p, is, en, ep, eg, items) =
            save_item-inv db next org user r input name price grants has_file image
              (sym saved ∙ h) in
          let hn =
            kept_or_read IsName (is_absent input.name) (non_empty r.name)
              (parse_shop_name input.name) n
              (λ x e. subst IsName (non_empty-same r.name x e) row.name)
              (parse_shop_name-IsName input.name) en in
          let hp =
            kept_or_read IsPrice (is_absent input.price) (some r.price_cents)
              (parse_shop_price_dollars js input.price) p
              (λ x e. subst IsPrice (some-injective r.price_cents x e) row.price)
              (parse_shop_price_dollars-IsPrice js input.price) ep in
          let again = grants-again js input (some r) is eg in
          record {
            rows = subst (All (IsValidRow js)) (sym items) (
                All-update (IsValidRow js) (has_item_id r.id) (edited_row input n p is has_file)
                  db.items (λ s w. edited_row-IsValid js input n p is has_file s hn hp again w)
                  v.rows);
            size =
                subst
                  (λ (rs : List ShopItemRow). length (filter (is_in_org org) rs) ≤ max_shop_items)
                  (sym items)
                  (rw
                    (count-update org (has_item_id r.id) (edited_row input n p is has_file) db.items
                      (edited_row-org org input n p is has_file))
                    v.size);
          }
    ]
