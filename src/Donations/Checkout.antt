-- ===== src/Donations/Checkout.antt =====
-- Stripe's checkout session (donations.stripe.ts): the form that is sent, and what is made of the answer.
pub mod Body
pub mod Joined
pub mod Echo
use mastermind_minecraft_ser.Prelude.{
  ℕ, zero, suc, ◌-◌, pos, Bool, true, false, ◌&&◌, ◌||◌, not, Text, String, codes, trim, same,
  join_commas, Option, none, some, List, [], ◌∷◌, ◌++◌, map, all, take, length, leb, if◌then◌else◌,
}
use mastermind_minecraft_ser.Json.{JsNumber, int, Value, string}
use mastermind_minecraft_ser.Grants.Command.{decimal}
use mastermind_minecraft_ser.Donations.Signature.{non_default_secret, is_filled}

pub record CheckoutLineItem : Type 0 where
  pub amount_cents : JsNumber
  pub name : Text
  pub description : Text
  pub shop_item_id : Option Text

pub record CheckoutInput : Type 0 where
  pub amount_cents : Option JsNumber
  pub player_id : Text
  pub steam_id : Text
  pub server_instance_id : Text
  pub org_id : Text
  pub origin : Text
  pub secret_key : Option Text
  pub product_name : Option Text
  pub product_description : Option Text
  pub shop_item_id : Option Text
  pub line_items : List CheckoutLineItem
  pub return_path : Option Text

-- `a || b`
unfoldable pub or_text : Option Text → Text → Text
or_text none b = b
or_text (some []) b = b
or_text (some (c ∷ t)) b = c ∷ t

-- `t.slice(-4)`
unfoldable pub last_four : Text → Text
last_four [] = []
last_four (c ∷ t) = let rest = last_four t in if leb (length t) 3 then c ∷ t else rest

-- `a ?? 0`
unfoldable pub or_nothing : Option JsNumber → JsNumber
or_nothing none = int (pos 0)
or_nothing (some n) = n

unfoldable pub line_items_of : CheckoutInput → List CheckoutLineItem
unfolding or_text or_nothing last_four
line_items_of i = elim i.line_items [
  | item ∷ items ↦ item ∷ items
  | [] ↦
      record {
        amount_cents = or_nothing i.amount_cents;
        name = or_text i.product_name (codes "Server support");
        description =
            or_text i.product_description
              (codes "Support tied to Steam ending " ++ last_four i.steam_id);
        shop_item_id = i.shop_item_id;
      }
      ∷ []
]

-- `Number.isInteger(n) && n > 0`
unfoldable pub is_price : JsNumber → Bool
is_price (int (pos (suc n))) = true
is_price _ = false

-- the number of cents of a price
unfoldable pub whole_cents : JsNumber → ℕ
whole_cents (int (pos n)) = n
whole_cents _ = 0

unfoldable pub has_price : CheckoutLineItem → Bool
unfolding is_price
has_price item = is_price item.amount_cents

unfoldable pub cents_of : CheckoutLineItem → ℕ
unfolding whole_cents
cents_of item = whole_cents item.amount_cents

-- the ids that are there and not empty
unfoldable pub shop_ids : List CheckoutLineItem → List Text
unfolding or_text
shop_ids [] = []
shop_ids (item ∷ items) = elim (or_text item.shop_item_id []) [
  | [] ↦ shop_ids items
  | c ∷ t ↦ (c ∷ t) ∷ shop_ids items
]

-- A form: names and values, each name once.
abbrev pub Body : Type 0
Body = List (Text × Text)

-- `body.set(name, value)`
unfoldable pub set : Text → Text → Body → Body
unfolding same
set name value [] = (name, value) ∷ []
set name value ((n, v) ∷ rest) =
    if same n name then (n, value) ∷ rest else (n, v) ∷ set name value rest

unfoldable pub metadata_name : String → Text
metadata_name key = codes "metadata[" ++ (codes key ++ codes "]")

unfoldable pub intent_name : String → Text
intent_name key = codes "payment_intent_data[metadata][" ++ (codes key ++ codes "]")

unfoldable pub set_only_id : Text → List Text → Body → Body
unfolding set
set_only_id name (id ∷ []) body = set name id body
set_only_id name _ body = body

unfoldable pub set_shop : List Text → List CheckoutLineItem → Body → Body
unfolding set set_only_id metadata_name join_commas cents_of decimal
set_shop [] items body = body
set_shop (id ∷ ids) items body = set_only_id (metadata_name "shopItemId") (id ∷ ids) (
    set (metadata_name "lineAmounts") (join_commas (map (λ item. decimal (cents_of item)) items))
      (set (metadata_name "shopItemIds") (join_commas (id ∷ ids)) body))

unfoldable pub set_intent_shop : List Text → Body → Body
unfolding set set_only_id intent_name join_commas
set_intent_shop [] body = body
set_intent_shop (id ∷ ids) body =
    set_only_id (intent_name "shopItemId") (id ∷ ids)
      (set (intent_name "shopItemIds") (join_commas (id ∷ ids)) body)

unfoldable pub line_name : ℕ → String → Text
unfolding decimal
line_name index field = codes "line_items[" ++ (decimal index ++ codes field)

unfoldable pub set_lines : ℕ → List CheckoutLineItem → Body → Body
unfolding set line_name cents_of decimal
set_lines index [] body = body
set_lines index (item ∷ items) body = set_lines (suc index) items (
    set (line_name index "][price_data][product_data][description]") (take 250 item.description) (
      set (line_name index "][price_data][product_data][name]") (take 120 item.name) (
        set (line_name index "][price_data][unit_amount]") (decimal (cents_of item)) (
          set (line_name index "][price_data][currency]") (codes "usd")
            (set (line_name index "][quantity]") (codes "1") body)))))

unfoldable pub set_people : CheckoutInput → Body → Body
unfolding set metadata_name or_text
set_people i body =
    let page = i.origin ++ or_text i.return_path (codes "/player/profile") in
    set (metadata_name "orgId") i.org_id (
      set (metadata_name "serverInstanceId") i.server_instance_id (
        set (metadata_name "steamId") i.steam_id (
          set (metadata_name "playerId") i.player_id (
            set (codes "cancel_url") (page ++ codes "?donation=cancel") (
              set (codes "success_url") (page ++ codes "?donation=success") (
                set (codes "client_reference_id") i.player_id
                  (set (codes "mode") (codes "payment") body)))))))

unfoldable pub set_intent_people : CheckoutInput → Body → Body
unfolding set intent_name
set_intent_people i body = set (intent_name "orgId") i.org_id (
    set (intent_name "serverInstanceId") i.server_instance_id
      (set (intent_name "steamId") i.steam_id (set (intent_name "playerId") i.player_id body)))

unfoldable pub checkout_body : CheckoutInput → Body
unfolding set_people set_shop set_intent_people set_intent_shop set_lines line_items_of shop_ids
checkout_body i =
    let items = line_items_of i in
    set_lines 0 items (
      set_intent_shop (shop_ids items)
        (set_intent_people i (set_shop (shop_ids items) items (set_people i []))))

pub record Url : Type 0 where
  pub protocol : Text
  pub hostname : Text

-- The answer to the request, with the `url` of its JSON.
pub record Response : Type 0 where
  pub ok : Bool
  pub url : Value

-- `new URL(url)`, and the request, which may fail
pub record Net : Type 0 where
  pub parse_url : Text → Option Url
  pub post : Text → Body → Option Response

unfoldable pub ends_with : Text → Text → Bool
unfolding same
ends_with suffix [] = same suffix []
ends_with suffix (c ∷ t) = same suffix (c ∷ t) || ends_with suffix t

unfoldable pub is_stripe_https_url : Net → Text → Bool
unfolding same ends_with
is_stripe_https_url net url = elim (net.parse_url url) [
  | none ↦ false
  | some u ↦
      same u.protocol (codes "https:")
      && (same u.hostname (codes "checkout.stripe.com")
          || ends_with (codes ".stripe.com") u.hostname)
]

-- The page to go to; every error has the code `unconfigured`.
unfoldable pub checkout_url : Net → Option Response → Option Text
unfolding is_stripe_https_url
checkout_url net none = none
checkout_url net (some r) = elim r.url [
  | string url ↦ if r.ok && is_stripe_https_url net url then some url else none
  | _ ↦ none
]

unfoldable pub secret_key_of : Option Text → Option Text → Text
unfolding non_default_secret same
secret_key_of given env =
    let key = non_default_secret given in if same key [] then non_default_secret env else key

unfoldable pub create_checkout_session : Net → Option Text → CheckoutInput → Option Text
unfolding secret_key_of line_items_of has_price checkout_body checkout_url same
create_checkout_session net env i =
    let key = secret_key_of i.secret_key env in
    if same key []
    then none
    else if not (all has_price (line_items_of i))
    then none
    else checkout_url net (net.post key (checkout_body i))
