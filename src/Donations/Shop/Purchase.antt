-- ===== src/Donations/Shop/Purchase.antt =====
-- Opening a checkout for a player (`createCheckout` and `createCartCheckout` of donations.service.ts). The
-- organization's Stripe key and the environment are arguments.
pub mod Cart
use mastermind_minecraft_ser.Prelude.{
  ℕ, zero, suc, pos, Bool, true, false, ◌&&◌, ◌||◌, not, Text, codes, same, starts_with, to_lower,
  Option, none, some, List, [], ◌∷◌, ◌++◌, map, any, filter, length, leb, ltb, ◌==◌, if◌then◌else◌,
  find_first,
}
use mathlib.Core.List.{reverse}
use mastermind_minecraft_ser.Json.{JsNumber, int, Value, number}
use mastermind_minecraft_ser.Donations.Checkout.{
  CheckoutInput, CheckoutLineItem, Net, or_text, last_four, create_checkout_session,
}
use mastermind_minecraft_ser.Donations.Ledger.{parse_donation_amount_cents}
use mastermind_minecraft_ser.Donations.Shop.{parse_shop_item_id, parse_shop_item_ids}

pub record CatalogItem : Type 0 where
  pub id : Text
  pub org_id : Text
  pub active : Bool
  pub name : Text
  pub description : Text
  pub price_cents : ℕ

pub record Buyer : Type 0 where
  pub id : Text
  pub steam_id : Option Text
  pub server_instance_id : Text
  pub org_id : Text
  pub name : Option Text
  pub session_auth : Option Text

-- `PUBLIC_WEB_URL`, whether this is production, and the key of the environment
pub record Env : Type 0 where
  pub public_web_url : Option Text
  pub production : Bool
  pub stripe_secret_key : Option Text

pub data Purchase : Type 0 where
  opened : Text → Purchase
  bad_request unavailable : Purchase

-- `.replace(/\/$/, '')` on the reversed text
unfoldable pub without_slash : Text → Text
without_slash [] = []
without_slash (c ∷ t) = if c == b'/' then t else c ∷ t

unfoldable pub checkout_origin : Env → Option Text
unfolding without_slash or_text starts_with to_lower
checkout_origin env =
    let origin = reverse (without_slash (reverse (or_text env.public_web_url []))) in
    if not (starts_with (codes "https://") origin) && env.production
    then none
    else if not (
        starts_with (codes "http://") (map to_lower origin)
        || starts_with (codes "https://") (map to_lower origin))
    then none
    else some origin

unfoldable pub opened_at : Option Text → Purchase
opened_at none = unavailable
opened_at (some url) = opened url

unfoldable pub is_name_session : Buyer → Bool
unfolding or_text same
is_name_session b = same (or_text b.session_auth []) (codes "name")

-- `steamId || 'mc:' + id`
unfoldable pub account_of : Buyer → Text
unfolding or_text
account_of b = or_text b.steam_id (codes "mc:" ++ b.id)

abbrev pub is_sold : Text → CatalogItem → Bool
is_sold org item = same item.org_id org && item.active

-- the text for an item of a cart without a description
unfoldable pub cart_description : Buyer → Text
unfolding is_name_session or_text account_of last_four starts_with same
cart_description b =
    if is_name_session b && not (same (or_text b.name []) [])
    then codes "Support tied to Minecraft name " ++ or_text b.name []
    else codes "Support tied to account "
      ++ (if starts_with (codes "mc:") (account_of b)
          then or_text b.name b.id
          else codes "Steam ending " ++ last_four (account_of b))

unfoldable pub cart_line : Buyer → CatalogItem → CheckoutLineItem
unfolding cart_description or_text
cart_line b item = record {
  amount_cents = int (pos item.price_cents);
  name = item.name;
  description = or_text (some item.description) (cart_description b);
  shop_item_id = some item.id;
}

-- the items in the order of the ids; an id without a row throws later
unfoldable pub find_all : List Text → List CatalogItem → Option (List CatalogItem)
unfolding find_first same
find_all [] rows = some []
find_all (id ∷ ids) rows = elim (find_first (λ (r : CatalogItem). same r.id id) rows) [
  | none ↦ none
  | some r ↦ elim (find_all ids rows) [ none ↦ none | some rs ↦ some (r ∷ rs) ]
]

unfoldable pub cart_rows : Text → List Text → List CatalogItem → List CatalogItem
unfolding filter same
cart_rows org ids items = filter (λ r. is_sold org r && any (same r.id) ids) items

unfoldable pub cart_input : Buyer → Text → Text → List CatalogItem → CheckoutInput
unfolding cart_line account_of
cart_input b key origin ordered = record {
  amount_cents = none;
  player_id = b.id;
  steam_id = account_of b;
  server_instance_id = b.server_instance_id;
  org_id = b.org_id;
  origin = origin;
  secret_key = some key;
  product_name = none;
  product_description = none;
  shop_item_id = none;
  line_items = map (cart_line b) ordered;
  return_path = some (codes "/player/shop/cart");
}

unfoldable pub create_cart_checkout :
    Net → Env → List CatalogItem → Buyer → List Text → Text → Purchase
unfolding cart_rows find_all checkout_origin cart_input opened_at create_checkout_session
create_cart_checkout net env items b ids key =
    let rows = cart_rows b.org_id ids items in
    if not (length rows == length ids) then bad_request else elim (checkout_origin env) [
      | none ↦ unavailable
      | some origin ↦ elim (find_all ids rows) [
        | none ↦ unavailable
        | some ordered ↦
            opened_at
              (create_checkout_session net env.stripe_secret_key (cart_input b key origin ordered))
      ]
    ]

unfoldable pub tied_to : Buyer → Text
unfolding is_name_session or_text account_of last_four same
tied_to b =
    if is_name_session b && not (same (or_text b.name []) [])
    then codes "Support tied to Minecraft name " ++ or_text b.name []
    else codes "Support tied to Steam ending " ++ last_four (account_of b)

unfoldable pub single_input :
    Buyer → Text → Text → ℕ → Text → Text → Option Text → Text → CheckoutInput
unfolding account_of
single_input b key origin amount name description item page = record {
  amount_cents = some (int (pos amount));
  player_id = b.id;
  steam_id = account_of b;
  server_instance_id = b.server_instance_id;
  org_id = b.org_id;
  origin = origin;
  secret_key = some key;
  product_name = some name;
  product_description = some description;
  shop_item_id = item;
  line_items = [];
  return_path = some page;
}

unfoldable pub open_single : Net → Env → Option Text → (Text → CheckoutInput) → Purchase
unfolding opened_at create_checkout_session
open_single net env none input = unavailable
open_single net env (some origin) input =
    opened_at (create_checkout_session net env.stripe_secret_key (input origin))

unfoldable pub create_amount_checkout : Net → Env → Buyer → Text → Option ℕ → Purchase
unfolding open_single checkout_origin single_input tied_to
create_amount_checkout net env b key none = bad_request
create_amount_checkout net env b key (some amount) =
    open_single net env (checkout_origin env) (λ origin.
      single_input b key origin amount (codes "Server support") (tied_to b) none
        (codes "/player/profile"))

unfoldable pub create_item_checkout : Net → Env → List CatalogItem → Buyer → Text → Text → Purchase
unfolding open_single checkout_origin single_input tied_to or_text same find_first
create_item_checkout net env items b key id =
    elim (find_first (λ (r : CatalogItem). same r.id id && is_sold b.org_id r) items) [
      | none ↦ bad_request
      | some item ↦ open_single net env (checkout_origin env) (λ origin.
          single_input b key origin item.price_cents item.name
            (or_text (some item.description) (tied_to b)) (some id) (codes "/player/shop/" ++ id))
    ]

-- `credentials` is the organization's Stripe key
unfoldable pub create_checkout :
    Net → Env → List CatalogItem → Option Text → Buyer → Value → Value → Value → Purchase
unfolding create_cart_checkout create_item_checkout create_amount_checkout parse_shop_item_ids
    parse_shop_item_id parse_donation_amount_cents or_text is_name_session same
create_checkout net env items credentials b amount item_id cart_ids =
    if same (or_text b.steam_id []) [] && not (is_name_session b)
    then bad_request
    else elim credentials [
      | none ↦ unavailable
      | some key ↦ elim (parse_shop_item_ids cart_ids) [
        | some ids ↦ create_cart_checkout net env items b ids key
        | none ↦ elim (parse_shop_item_id item_id) [
          | some id ↦ create_item_checkout net env items b key id
          | none ↦ create_amount_checkout net env b key (parse_donation_amount_cents amount)
        ]
      ]
    ]
