-- ===== src/Donations/Checkout/Body.antt =====
-- What the form of a checkout holds.
use mastermind_minecraft_ser.Prelude.{
  ℕ, suc, true, false, ◌≡◌, refl, ap, ◌∙◌, Text, String, same, same_iff, join_commas, Option, none,
  some, List, [], ◌∷◌, map, if◌then◌else◌, Bool-cases, inl, inr,
}
use mastermind_minecraft_ser.Grants.Command.{decimal}
use mastermind_minecraft_ser.Donations.Checkout.{
  CheckoutInput, CheckoutLineItem, Body, set, set_only_id, set_shop, set_intent_shop, set_people,
  set_intent_people, set_lines, metadata_name, intent_name, line_name, checkout_body, line_items_of,
  shop_ids, cents_of,
}

unfoldable pub value_of : Text → Body → Option Text
unfolding same
value_of name [] = none
value_of name ((n, v) ∷ rest) = if same n name then some v else value_of name rest

apart : (n m name : Text) → same n m ≡ true → same m name ≡ false → same n name ≡ false
apart n m name h k = ap (λ (t : Text). same t name) ((same_iff n m).0 h) ∙ k

value_of-set :
    (name other value : Text) (body : Body)
    → same other name ≡ false
    → value_of name (set other value body) ≡ value_of name body
unfolding value_of set
value_of-set name other value [] h = rw h refl
value_of-set name other value ((n, v) ∷ rest) h = elim (Bool-cases (same n other)) [
  | inl hit ↦ rw (hit, apart n other name hit h) refl
  | inr miss ↦ rw miss (
      ap (λ (o : Option Text). if same n name then some v else o)
        (value_of-set name other value rest h))
]

value_of-set_lines :
    (key : String) (index : ℕ) (items : List CheckoutLineItem) (body : Body)
    → value_of (metadata_name key) (set_lines index items body) ≡ value_of (metadata_name key) body
unfolding set_lines metadata_name line_name same
value_of-set_lines key index [] body = refl
value_of-set_lines key index (item ∷ items) body =
    value_of-set_lines key (suc index) items _
    ∙ value_of-set (metadata_name key) (line_name index "][price_data][product_data][description]")
        _ _ refl
    ∙ value_of-set (metadata_name key) (line_name index "][price_data][product_data][name]") _ _
        refl
    ∙ value_of-set (metadata_name key) (line_name index "][price_data][unit_amount]") _ _ refl
    ∙ value_of-set (metadata_name key) (line_name index "][price_data][currency]") _ _ refl
    ∙ value_of-set (metadata_name key) (line_name index "][quantity]") _ _ refl

value_of-set_intent_shop :
    (key : String) (ids : List Text) (body : Body)
    → value_of (metadata_name key) (set_intent_shop ids body) ≡ value_of (metadata_name key) body
unfolding set_intent_shop set_only_id metadata_name intent_name same
value_of-set_intent_shop key [] body = refl
value_of-set_intent_shop key (id ∷ []) body =
    value_of-set (metadata_name key) (intent_name "shopItemId") _ _ refl
    ∙ value_of-set (metadata_name key) (intent_name "shopItemIds") _ _ refl
value_of-set_intent_shop key (id ∷ next ∷ ids) body =
    value_of-set (metadata_name key) (intent_name "shopItemIds") _ _ refl

value_of-set_intent_people :
    (key : String) (i : CheckoutInput) (body : Body)
    → value_of (metadata_name key) (set_intent_people i body) ≡ value_of (metadata_name key) body
unfolding set_intent_people metadata_name intent_name same
value_of-set_intent_people key i body =
    value_of-set (metadata_name key) (intent_name "orgId") _ _ refl
    ∙ value_of-set (metadata_name key) (intent_name "serverInstanceId") _ _ refl
    ∙ value_of-set (metadata_name key) (intent_name "steamId") _ _ refl
    ∙ value_of-set (metadata_name key) (intent_name "playerId") _ _ refl

-- only the metadata of the session is read
pub value_of-checkout_body :
    (key : String) (i : CheckoutInput)
    → value_of (metadata_name key) (checkout_body i)
      ≡ value_of
          (metadata_name key)
          (set_shop (shop_ids (line_items_of i)) (line_items_of i) (set_people i []))
unfolding checkout_body
value_of-checkout_body key i =
    value_of-set_lines key 0 (line_items_of i) _
    ∙ value_of-set_intent_shop key (shop_ids (line_items_of i)) _
    ∙ value_of-set_intent_people key i _

-- what is sent of the shop items, where there are any
abbrev pub joined : List Text → Text → Option Text
joined [] t = none
joined (id ∷ ids) t = some t

module _ (i : CheckoutInput) (items : List CheckoutLineItem) where
  pub shop-player :
      (ids : List Text)
      → value_of (metadata_name "playerId") (set_shop ids items (set_people i []))
        ≡ some i.player_id
  unfolding value_of set_shop set_only_id set_people set metadata_name same
  shop-player [] = refl
  shop-player (id ∷ []) = refl
  shop-player (id ∷ next ∷ ids) = refl

  pub shop-steam :
      (ids : List Text)
      → value_of (metadata_name "steamId") (set_shop ids items (set_people i [])) ≡ some i.steam_id
  unfolding value_of set_shop set_only_id set_people set metadata_name same
  shop-steam [] = refl
  shop-steam (id ∷ []) = refl
  shop-steam (id ∷ next ∷ ids) = refl

  pub shop-server :
      (ids : List Text)
      → value_of (metadata_name "serverInstanceId") (set_shop ids items (set_people i []))
        ≡ some i.server_instance_id
  unfolding value_of set_shop set_only_id set_people set metadata_name same
  shop-server [] = refl
  shop-server (id ∷ []) = refl
  shop-server (id ∷ next ∷ ids) = refl

  pub shop-org :
      (ids : List Text)
      → value_of (metadata_name "orgId") (set_shop ids items (set_people i [])) ≡ some i.org_id
  unfolding value_of set_shop set_only_id set_people set metadata_name same
  shop-org [] = refl
  shop-org (id ∷ []) = refl
  shop-org (id ∷ next ∷ ids) = refl

  pub shop-ids :
      (ids : List Text)
      → value_of (metadata_name "shopItemIds") (set_shop ids items (set_people i []))
        ≡ joined ids (join_commas ids)
  unfolding value_of set_shop set_only_id set_people set metadata_name same
  shop-ids [] = refl
  shop-ids (id ∷ []) = refl
  shop-ids (id ∷ next ∷ ids) = refl

  pub shop-amounts :
      (ids : List Text)
      → value_of (metadata_name "lineAmounts") (set_shop ids items (set_people i []))
        ≡ joined ids (join_commas (map (λ item. decimal (cents_of item)) items))
  unfolding value_of set_shop set_only_id set_people set metadata_name same
  shop-amounts [] = refl
  shop-amounts (id ∷ []) = refl
  shop-amounts (id ∷ next ∷ ids) = refl

pub shop-no_id :
    (i : CheckoutInput) (items : List CheckoutLineItem)
    → value_of (metadata_name "shopItemId") (set_shop [] items (set_people i [])) ≡ none
unfolding value_of set_shop set_people set metadata_name same
shop-no_id i items = refl
