-- ===== src/Donations/Shop/Purchase/Cart.antt =====
-- The checkout of a cart and its reading by the webhook (donations.service.ts, donations.logic.ts).
use mathlib.Core.Path.{subst}
use mathlib.Core.Option.{some-injective}
use mastermind_minecraft_ser.Prelude.{
  ℕ, zero, suc, pos, ◌≤◌, true, ◌≡◌, refl, sym, ap, ◌∙◌, Text, same, same_iff, some, List, [], ◌∷◌,
  map, all, All, arith, length, find_first, find_first-holds, Option-cases, inl, inr,
}
use mastermind_minecraft_ser.Json.{int, Fields}
use mastermind_minecraft_ser.Grants.Items.{Runtime}
use mastermind_minecraft_ser.Donations.Signature.{is_filled}
use mastermind_minecraft_ser.Donations.Stripe.{Paid, is_item_id, parse_paid_checkout_session}
use mastermind_minecraft_ser.Donations.Checkout.{
  line_items_of, shop_ids, has_price, is_price, cents_of, whole_cents, or_text,
}
use mastermind_minecraft_ser.Donations.Checkout.Echo.{
  IsPaidSession, parse_paid_checkout_session-echo,
}
use mastermind_minecraft_ser.Donations.Checkout.Joined.{ReadsBack, billed}
use mastermind_minecraft_ser.Donations.Shop.Purchase.{
  CatalogItem, Buyer, cart_line, cart_input, find_all, account_of,
}

abbrev pub ids_of : List CatalogItem → List Text
ids_of rows = map (λ (r : CatalogItem). r.id) rows

abbrev pub prices_of : List CatalogItem → List ℕ
prices_of rows = map (λ (r : CatalogItem). r.price_cents) rows

-- the rows that are found are those of the ids, in their order
find_all-ids :
    (ids : List Text) (rows ordered : List CatalogItem)
    → find_all ids rows ≡ some ordered
    → ids_of ordered ≡ ids
unfolding find_all
find_all-ids [] rows ordered h = ap ids_of (sym (some-injective [] ordered h))
find_all-ids (id ∷ ids) rows ordered h =
    elim (Option-cases (find_first (λ (r : CatalogItem). same r.id id) rows)) [
      | inl nothing ↦ absurd (ground (arith, nothing, h))
      | inr (r, found) ↦ elim (Option-cases (find_all ids rows)) [
        | inl nothing ↦ absurd (ground (arith, found, nothing, h))
        | inr (rs, rest) ↦
            let e : r ∷ rs ≡ ordered = ground (arith, found, rest, h) in
            let own : r.id ≡ id =
              (same_iff r.id id).0
                (find_first-holds (λ (s : CatalogItem). same s.id id) rows r found) in
            subst (λ (os : List CatalogItem). ids_of os ≡ id ∷ ids) e
              (rw (own, find_all-ids ids rows rs rest) refl)
      ]
    ]

or_text_self : (t : Text) → or_text (some t) [] ≡ t
unfolding or_text
or_text_self [] = refl
or_text_self (c ∷ t) = refl

item_id-cons : (t : Text) → is_item_id t ≡ true → (c : ℕ) × (u : Text) × (t ≡ c ∷ u)
unfolding is_item_id
item_id-cons [] h = absurd (ground arith)
item_id-cons (c ∷ u) h = (c, u, refl)

shop_ids-cart :
    (b : Buyer) (ordered : List CatalogItem)
    → All (λ id. is_item_id id ≡ true) (ids_of ordered)
    → shop_ids (map (cart_line b) ordered) ≡ ids_of ordered
unfolding shop_ids cart_line
shop_ids-cart b [] h = refl
shop_ids-cart b (r ∷ rs) h =
    let (c, u, e) = item_id-cons r.id h.0 in
    rw (or_text_self r.id ∙ e, shop_ids)
      (rw (shop_ids-cart b rs h.1) (ap (λ (t : Text). t ∷ ids_of rs) (sym e)))

cents-cart :
    (b : Buyer) (ordered : List CatalogItem)
    → map cents_of (map (cart_line b) ordered) ≡ prices_of ordered
unfolding cents_of whole_cents cart_line
cents-cart b [] = refl
cents-cart b (r ∷ rs) = ap (λ (ns : List ℕ). r.price_cents ∷ ns) (cents-cart b rs)

price-positive : (n : ℕ) → 1 ≤ n → is_price (int (pos n)) ≡ true
unfolding is_price
price-positive zero h = absurd (omega arith)
price-positive (suc n) h = refl

priced-cart :
    (b : Buyer) (ordered : List CatalogItem)
    → All (λ (r : CatalogItem). 1 ≤ r.price_cents) ordered
    → all has_price (map (cart_line b) ordered) ≡ true
unfolding has_price cart_line
priced-cart b [] h = refl
priced-cart b (r ∷ rs) h = rw (price-positive r.price_cents h.0, priced-cart b rs h.1) refl

lines-cart :
    (b : Buyer) (key origin : Text) (ordered : List CatalogItem)
    → 1 ≤ length ordered
    → line_items_of (cart_input b key origin ordered) ≡ map (cart_line b) ordered
unfolding line_items_of cart_input
lines-cart b key origin [] h = absurd (omega arith)
lines-cart b key origin (r ∷ rs) h = refl

billed-all : (ids : List Text) (ns : List ℕ) → 1 ≤ length ids → billed ids ns ≡ ns
billed-all [] ns h = absurd (omega arith)
billed-all (id ∷ ids) ns h = refl

length-ids : (rows : List CatalogItem) → length (ids_of rows) ≡ length rows
length-ids [] = refl
length-ids (r ∷ rs) = omega (arith, length-ids rs)

-- The paid session of a cart is read back as the cart's item ids, in their order, and the prices of the
-- items that they name, for the buyer's organization and server: where the buyer's identifiers are not
-- empty, the ids well-formed, the prices above 0, and the runtime reads a printed price back.
pub cart_input-echo :
    (js : Runtime) (b : Buyer) (key origin : Text) (ids : List Text)
    (rows ordered : List CatalogItem) (o : Fields)
    → find_all ids rows ≡ some ordered
    → 1 ≤ length ids
    → All (λ id. is_item_id id ≡ true) ids
    → All (λ (r : CatalogItem). 1 ≤ r.price_cents) ordered
    → is_filled b.id ≡ true
    → is_filled (account_of b) ≡ true
    → is_filled b.server_instance_id ≡ true
    → is_filled b.org_id ≡ true
    → ReadsBack js (map (cart_line b) ordered)
    → IsPaidSession (cart_input b key origin ordered) o
    → (p : Paid) × (parse_paid_checkout_session js o ≡ some p)
      × (p.player_id ≡ b.id)
      × (p.server_instance_id ≡ b.server_instance_id)
      × (p.org_id ≡ b.org_id)
      × (p.shop_item_ids ≡ ids)
      × (p.line_amounts ≡ prices_of ordered)
unfolding cart_input
cart_input-echo js b key origin ids rows ordered o found some_ids good priced hp hs hv ho back
      paid =
    let i = cart_input b key origin ordered in
    let own = find_all-ids ids rows ordered found in
    let filled : 1 ≤ length ordered = omega (arith, some_ids, length-ids ordered, ap length own) in
    let lines = lines-cart b key origin ordered filled in
    let good_ids = subst (λ (ts : List Text). All (λ id. is_item_id id ≡ true) ts) (sym own) good in
    let shop = shop_ids-cart b ordered good_ids in
    let sent = ap shop_ids lines ∙ shop ∙ own in
    let (p, parsed, player, steam, server, org, items, amounts) =
      parse_paid_checkout_session-echo js i o paid hp hs hv ho
        (subst (λ (ts : List Text). All (λ id. is_item_id id ≡ true) ts) (sym sent) good)
        (ap (all has_price) lines ∙ priced-cart b ordered priced)
        (subst (ReadsBack js) (sym lines) back) in
    (
      p,
      parsed,
      player,
      server,
      org,
      items ∙ sent,
      amounts
          ∙ ap (λ (ts : List Text). billed ts (map cents_of (line_items_of i))) sent
          ∙ billed-all ids (map cents_of (line_items_of i)) some_ids
          ∙ ap (map cents_of) lines
          ∙ cents-cart b ordered,
    )
