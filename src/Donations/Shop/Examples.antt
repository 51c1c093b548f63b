-- ===== src/Donations/Shop/Examples.antt =====
-- The shop on concrete input.
use mastermind_minecraft_ser.Prelude.{
  ℕ, ◌≡◌, refl, true, codes, none, some, List, [], ◌∷◌, arith, pos, filter, same,
}
use mastermind_minecraft_ser.Json.{
  int, nan, undefined, null, string, number, array, object, nil, cons, Fields, end, field, get,
}
use mastermind_minecraft_ser.Grants.Items.{Runtime}
use mastermind_minecraft_ser.Donations.Stripe.{Paid, is_item_id, parse_paid_checkout_session}
use mastermind_minecraft_ser.Donations.Checkout.{CheckoutInput}
use mastermind_minecraft_ser.Donations.Checkout.Echo.{IsPaidSession}
use mastermind_minecraft_ser.Donations.Shop.Manage.{Db, ShopItemInput, done, create}
use mastermind_minecraft_ser.Donations.Shop.Valid.{IsValidShop, create-IsValid}
use mastermind_minecraft_ser.Donations.Stripe.{stripe_object_id, as_whole, metadata_text}
use mastermind_minecraft_ser.Donations.Signature.{is_filled}
use mastermind_minecraft_ser.Donations.Checkout.{metadata_name, checkout_body, cents_of}
use mastermind_minecraft_ser.Donations.Checkout.Body.{value_of}
use mastermind_minecraft_ser.Donations.Shop.Purchase.{
  CatalogItem, Buyer, cart_input, cart_line, find_all, account_of,
}
use mastermind_minecraft_ser.Donations.Shop.Purchase.Cart.{cart_input-echo}

abbrev quiet : Runtime
quiet = record { to_number = λ t. nan; to_string = λ v. []; json_parse = λ t. none }

abbrev empty : Db
empty = record { items = []; audit = [] }

empty-IsValid : IsValidShop quiet 1 empty
unfolding filter
empty-IsValid = record { rows = tt; size = omega arith }

abbrev wanted : ShopItemInput
wanted = record {
  name = string (codes " Ten   diamonds ");
  description = undefined;
  price = string (codes "4.5");
  active = null;
  grant_item_name = string (codes "diamond");
  grant_quantity = number (int (pos 10));
  grant_items = undefined;
}

abbrev picture : List ℕ
picture = 0xff ∷ 0xd8 ∷ 0xff ∷ []

abbrev stocked : Db
stocked = record {
  items =
      record {
        id = 9;
        org_id = 1;
        name = codes "Ten diamonds";
        description = [];
        price_cents = 450;
        active = true;
        has_image = true;
        sort_order = 0;
        grant_items = array (
            cons
              (object (
                field "name" (string (codes "diamond"))
                  (field "quantity" (number (int (pos 10))) end)))
              nil);
        grant_item_name = some (codes "diamond");
        grant_quantity = 10;
      }
      ∷ [];
  audit =
      record { org_id = 1; actor_id = 2; action = codes "shop_item_created"; resource_id = 9 } ∷ [];
}

creates : create quiet (λ bytes. true) empty 1 2 9 wanted picture ≡ done stocked
unfolding create
creates = refl

create-IsValid_example : IsValidShop quiet 1 stocked
create-IsValid_example =
    create-IsValid quiet (λ bytes. true) empty stocked 1 2 9 wanted picture empty-IsValid creates

-- a runtime that reads "450"
abbrev reader : Runtime
reader = record { to_number = λ t. int (pos 450); to_string = λ v. []; json_parse = λ t. none }

abbrev buyer : Buyer
buyer = record {
  id = codes "player_1";
  steam_id = none;
  server_instance_id = codes "server_1";
  org_id = codes "org_1";
  name = some (codes "Ann");
  session_auth = some (codes "name");
}

abbrev ten_diamonds : CatalogItem
ten_diamonds = record {
  id = codes "item_000001";
  org_id = codes "org_1";
  active = true;
  name = codes "Ten diamonds";
  description = [];
  price_cents = 450;
}

-- the session that Stripe reports
abbrev paid_session : Fields
paid_session = field "payment_status" (string (codes "paid")) (
    field "id" (string (codes "cs_1")) (
      field "amount_total" (number (int (pos 450))) (
        field "metadata"
          (object (
            field "playerId" (string (codes "player_1")) (
              field "steamId" (string (codes "mc:player_1")) (
                field "serverInstanceId" (string (codes "server_1")) (
                  field "orgId" (string (codes "org_1")) (
                    field "shopItemIds" (string (codes "item_000001")) (
                      field "shopItemId" (string (codes "item_000001"))
                        (field "lineAmounts" (string (codes "450")) end))))))))
          end)))

abbrev input : CheckoutInput
input = cart_input buyer (codes "sk_test") (codes "https://play.example") (ten_diamonds ∷ [])

session-IsPaid : IsPaidSession input paid_session
unfolding stripe_object_id as_whole metadata_text value_of metadata_name checkout_body cart_input
    get
session-IsPaid = record {
  paid = refl;
  session = codes "cs_1";
  session_id = refl;
  cents = 449;
  amount = refl;
  echo = (refl, (refl, (refl, (refl, (refl, (refl, (refl, tt)))))));
}

finds : find_all (codes "item_000001" ∷ []) (ten_diamonds ∷ []) ≡ some (ten_diamonds ∷ [])
unfolding find_all
finds = refl

well_formed : is_item_id (codes "item_000001") ≡ true
unfolding is_item_id
well_formed = refl

has_account : is_filled (account_of buyer) ≡ true
unfolding account_of same
has_account = refl

cart_input-echo_example :
    (p : Paid) × (parse_paid_checkout_session reader paid_session ≡ some p)
    × (p.player_id ≡ codes "player_1")
    × (p.server_instance_id ≡ codes "server_1")
    × (p.org_id ≡ codes "org_1")
    × (p.shop_item_ids ≡ codes "item_000001" ∷ [])
    × (p.line_amounts ≡ 450 ∷ [])
unfolding same cents_of cart_line
cart_input-echo_example =
    cart_input-echo reader buyer (codes "sk_test") (codes "https://play.example")
      (codes "item_000001" ∷ []) (ten_diamonds ∷ []) (ten_diamonds ∷ []) paid_session finds
      (omega arith) (well_formed, tt) (omega arith, tt) refl has_account refl refl (refl, tt)
      session-IsPaid
