-- ===== src/Donations/Checkout/Echo.antt =====
-- A checkout's form and the webhook's reading of it (donations.stripe.ts, donations.logic.ts).
use mastermind_minecraft_ser.Prelude.{
  ℕ, suc, true, ◌≡◌, refl, ap, ◌∙◌, Text, String, codes, same, Option, none, some, List, [], ◌∷◌,
  map, all, All, arith,
}
use mastermind_minecraft_ser.Json.{string, Fields, get}
use mastermind_minecraft_ser.Grants.Items.{Runtime}
use mastermind_minecraft_ser.Donations.Signature.{is_filled}
use mastermind_minecraft_ser.Donations.Stripe.{
  Paid, is_item_id, as_text, text_or_empty, metadata_text, item_ids, make_paid, checked_paid,
  require_all, stripe_object_id, as_whole, player_id_of, parse_paid_checkout_session,
}
use mastermind_minecraft_ser.Donations.Checkout.{
  CheckoutInput, CheckoutLineItem, line_items_of, shop_ids, has_price, cents_of, checkout_body,
  metadata_name, set_shop, set_people,
}
use mastermind_minecraft_ser.Donations.Checkout.Body.{
  value_of, value_of-checkout_body, shop-player, shop-steam, shop-server, shop-org, shop-ids,
  shop-amounts, shop-no_id,
}
use mastermind_minecraft_ser.Donations.Checkout.Joined.{
  ReadsBack, billed, ids-joined, amounts-joined,
}

-- the metadata that is read
abbrev pub metadata_keys : List String
metadata_keys =
    "playerId" ∷ "steamId" ∷ "serverInstanceId" ∷ "orgId" ∷ "shopItemIds" ∷ "shopItemId"
    ∷ "lineAmounts" ∷ []

-- What Stripe's session of a checkout is, once it is paid: it has an id and an amount above 0, and the
-- metadata of the form.
pub record IsPaidSession (i : CheckoutInput) (o : Fields) : Type 0 where
  pub paid : get o "payment_status" ≡ string (codes "paid")
  pub session : Text
  pub session_id : stripe_object_id (get o "id") ≡ some session
  pub cents : ℕ
  pub amount : as_whole (get o "amount_total") ≡ some (suc cents)
  pub echo :
      All
        (λ key. metadata_text o key ≡ value_of (metadata_name key) (checkout_body i))
        metadata_keys

require_all-filled :
    (session player steam server org : Text) (n : ℕ) (make : Text → ℕ → Text → Paid)
    → is_filled player ≡ true
    → is_filled steam ≡ true
    → is_filled server ≡ true
    → is_filled org ≡ true
    → require_all (some session) (some (suc n)) (some player) steam server org make
      ≡ some (make session (suc n) player)
unfolding require_all
require_all-filled session player steam server org n make hp hs hv ho = ground arith

require_all-of :
    (s pl : Option Text) (a : Option ℕ) (f g k session player steam server org : Text) (n : ℕ)
    (make : Text → ℕ → Text → Paid)
    → s ≡ some session
    → a ≡ some (suc n)
    → pl ≡ some player
    → f ≡ steam
    → g ≡ server
    → k ≡ org
    → is_filled player ≡ true
    → is_filled steam ≡ true
    → is_filled server ≡ true
    → is_filled org ≡ true
    → require_all s a pl f g k make ≡ some (make session (suc n) player)
require_all-of s pl a f g k session player steam server org n make e1 e2 e3 e4 e5 e6 hp hs hv ho =
    rw (e1, e2, e3, e4, e5, e6)
      (require_all-filled session player steam server org n make hp hs hv ho)

checked_paid-echo :
    (js : Runtime) (i : CheckoutInput) (o : Fields) (h : IsPaidSession i o)
    → is_filled i.player_id ≡ true
    → is_filled i.steam_id ≡ true
    → is_filled i.server_instance_id ≡ true
    → is_filled i.org_id ≡ true
    → checked_paid js o ≡ some (make_paid js o h.session (suc h.cents) i.player_id)
unfolding checked_paid player_id_of text_or_empty
checked_paid-echo js i o h hp hs hv ho =
    let items = line_items_of i in
    let ids = shop_ids items in
    require_all-of _ _ _ _ _ _ h.session i.player_id i.steam_id i.server_instance_id i.org_id
      h.cents (make_paid js o) h.session_id h.amount
      (ap (λ (t : Option Text). player_id_of t (get o "client_reference_id"))
        (h.echo.0 ∙ value_of-checkout_body "playerId" i ∙ shop-player i items ids))
      (ap text_or_empty (h.echo.1.0 ∙ value_of-checkout_body "steamId" i ∙ shop-steam i items ids))
      (ap text_or_empty
        (h.echo.1.1.0 ∙ value_of-checkout_body "serverInstanceId" i ∙ shop-server i items ids))
      (ap text_or_empty (h.echo.1.1.1.0 ∙ value_of-checkout_body "orgId" i ∙ shop-org i items ids))
      hp hs hv ho

no_id :
    (i : CheckoutInput) (items : List CheckoutLineItem) (ids : List Text)
    → ids ≡ []
    → value_of (metadata_name "shopItemId") (set_shop ids items (set_people i [])) ≡ none
no_id i items ids e = rw e (shop-no_id i items)

-- A paid session is read back as it was made: the player, the account, the server and the organization
-- of the checkout, the ids of its shop items in their order, and, where there are such items, the price
-- of each line. It holds where the four identifiers are not empty, the shop items have well-formed ids and
-- every line a price, as the checkout demands, and the runtime reads a printed price back.
pub parse_paid_checkout_session-echo :
    (js : Runtime) (i : CheckoutInput) (o : Fields)
    → IsPaidSession i o
    → is_filled i.player_id ≡ true
    → is_filled i.steam_id ≡ true
    → is_filled i.server_instance_id ≡ true
    → is_filled i.org_id ≡ true
    → All (λ id. is_item_id id ≡ true) (shop_ids (line_items_of i))
    → all has_price (line_items_of i) ≡ true
    → ReadsBack js (line_items_of i)
    → (p : Paid) × (parse_paid_checkout_session js o ≡ some p)
      × (p.player_id ≡ i.player_id)
      × (p.steam_id ≡ i.steam_id)
      × (p.server_instance_id ≡ i.server_instance_id)
      × (p.org_id ≡ i.org_id)
      × (p.shop_item_ids ≡ shop_ids (line_items_of i))
      × (p.line_amounts ≡ billed (shop_ids (line_items_of i)) (map cents_of (line_items_of i)))
unfolding parse_paid_checkout_session make_paid item_ids as_text text_or_empty same
parse_paid_checkout_session-echo js i o h hp hs hv ho good priced back =
    let items = line_items_of i in
    let ids = shop_ids items in
    (
      make_paid js o h.session (suc h.cents) i.player_id,
      rw h.paid (checked_paid-echo js i o h hp hs hv ho),
      refl,
      ap text_or_empty (h.echo.1.0 ∙ value_of-checkout_body "steamId" i ∙ shop-steam i items ids),
      ap text_or_empty
          (h.echo.1.1.0 ∙ value_of-checkout_body "serverInstanceId" i ∙ shop-server i items ids),
      ap text_or_empty (h.echo.1.1.1.0 ∙ value_of-checkout_body "orgId" i ∙ shop-org i items ids),
      rw (h.echo.1.1.1.1.0 ∙ value_of-checkout_body "shopItemIds" i ∙ shop-ids i items ids) (
          ids-joined ids (metadata_text o "shopItemId") good (λ e.
            h.echo.1.1.1.1.1.0 ∙ value_of-checkout_body "shopItemId" i ∙ no_id i items ids e)),
      rw (h.echo.1.1.1.1.1.1.0 ∙ value_of-checkout_body "lineAmounts" i ∙ shop-amounts i items ids)
          (amounts-joined js ids items priced back),
    )
