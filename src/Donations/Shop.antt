-- ===== src/Donations/Shop.antt =====
-- Reading the fields of a shop item (donations.shop.ts). Times are milliseconds, prices are cents; a
-- price of at most two decimals is exactly a number of cents, which the source rounds to.
pub mod Manage
pub mod Valid
pub mod Edited
pub mod Purchase
mod Examples
use mastermind_minecraft_ser.Prelude.{
  ℕ, zero, suc, ◌+◌, ◌*◌, ◌-◌, Bool, true, false, ◌&&◌, ◌||◌, not, Text, codes, trim, same,
  is_space, split_on, Option, none, some, List, [], ◌∷◌, ◌++◌, any, take, length, leb, ltb, ◌==◌,
  if◌then◌else◌,
}
use mastermind_minecraft_ser.Json.{
  Value, undefined, null, bool, number, string, array, Items, nil, cons, item_count,
}
use mastermind_minecraft_ser.Grants.Items.{Runtime}
use mastermind_minecraft_ser.Scheduler.Cron.{leading_digits}
use mastermind_minecraft_ser.Donations.Signature.{is_decimal}
use mastermind_minecraft_ser.Donations.Stripe.{is_item_id}

abbrev pub min_shop_price_cents : ℕ
min_shop_price_cents = 100

abbrev pub max_shop_price_cents : ℕ
max_shop_price_cents = 50000

abbrev pub max_shop_items : ℕ
max_shop_items = 50

abbrev pub max_shop_image_bytes : ℕ
max_shop_image_bytes = 2097152

abbrev pub max_shop_name : ℕ
max_shop_name = 80

abbrev pub max_shop_description : ℕ
max_shop_description = 500

abbrev pub max_cart_items : ℕ
max_cart_items = 20

-- `.replace(/\s+/g, ' ')`; the flag says that a space was just written
unfoldable pub squeeze : Bool → Text → Text
unfolding is_space
squeeze after [] = []
squeeze after (c ∷ t) =
    let skipped = squeeze true t in
    let kept = squeeze false t in
    if is_space c then (if after then skipped else b' ' ∷ skipped) else c ∷ kept

unfoldable pub parse_shop_name : Value → Option Text
unfolding squeeze trim
parse_shop_name (string raw) =
    let name = squeeze false (trim raw) in
    if ltb (length name) 1 || ltb max_shop_name (length name) then none else some name
parse_shop_name _ = none

unfoldable pub parse_shop_description : Value → Text
unfolding trim
parse_shop_description (string raw) = take max_shop_description (trim raw)
parse_shop_description _ = []

-- the cents of `.d` and `.dd`
unfoldable pub fraction_cents : Text → Option ℕ
unfolding is_decimal leading_digits
fraction_cents (a ∷ []) =
    if is_decimal (a ∷ []) then some (leading_digits 0 (a ∷ []) * 10) else none
fraction_cents (a ∷ b ∷ []) =
    if is_decimal (a ∷ b ∷ []) then some (leading_digits 0 (a ∷ b ∷ [])) else none
fraction_cents _ = none

unfoldable pub add_cents : ℕ → Option ℕ → Option ℕ
add_cents whole none = none
add_cents whole (some cents) = some (whole * 100 + cents)

-- `/^\d+(\.\d{1,2})?$/`
unfoldable pub price_cents : List Text → Option ℕ
unfolding fraction_cents add_cents is_decimal leading_digits
price_cents (whole ∷ []) = if is_decimal whole then some (leading_digits 0 whole * 100) else none
price_cents (whole ∷ part ∷ []) =
    if is_decimal whole then add_cents (leading_digits 0 whole) (fraction_cents part) else none
price_cents _ = none

unfoldable pub in_price_range : Option ℕ → Option ℕ
in_price_range none = none
in_price_range (some cents) =
    if ltb cents min_shop_price_cents || ltb max_shop_price_cents cents then none else some cents

unfoldable pub parse_shop_price_dollars : Runtime → Value → Option ℕ
unfolding in_price_range price_cents split_on trim
parse_shop_price_dollars js (string t) = in_price_range (price_cents (split_on b'.' (trim t)))
parse_shop_price_dollars js (number n) =
    in_price_range (price_cents (split_on b'.' (trim (js.to_string (number n)))))
parse_shop_price_dollars js _ = none

unfoldable pub parse_shop_item_id : Value → Option Text
unfolding is_item_id trim
parse_shop_item_id (string raw) = let id = trim raw in if is_item_id id then some id else none
parse_shop_item_id _ = none

unfoldable pub add_id : List Text → Option Text → Option (List Text)
unfolding same
add_id ids none = none
add_id ids (some id) = if any (same id) ids then none else some (ids ++ (id ∷ []))

-- the loop over the entries, with the ids so far
unfoldable pub read_ids : List Text → Items → Option (List Text)
unfolding add_id parse_shop_item_id
read_ids ids nil = some ids
read_ids ids (cons x xs) = elim (add_id ids (parse_shop_item_id x)) [
  | none ↦ none
  | some more ↦ read_ids more xs
]

unfoldable pub parse_shop_item_ids : Value → Option (List Text)
unfolding read_ids item_count
parse_shop_item_ids (array xs) =
    if ltb (item_count xs) 1 || ltb max_cart_items (item_count xs) then none else read_ids [] xs
parse_shop_item_ids _ = none

unfoldable pub parse_active_flag : Value → Bool → Bool
unfolding same
parse_active_flag undefined fallback = fallback
parse_active_flag null fallback = fallback
parse_active_flag (string []) fallback = fallback
parse_active_flag (bool b) fallback = b
parse_active_flag (string t) fallback =
    same t (codes "true") || same t (codes "1") || same t (codes "on")
parse_active_flag _ fallback = fallback

pub data ImageKind : Type 0 where
  jpg png webp : ImageKind

unfoldable pub begins : List ℕ → List ℕ → Bool
begins [] bytes = true
begins (b ∷ bs) [] = false
begins (b ∷ bs) (c ∷ cs) = b == c && begins bs cs

unfoldable pub drop : ℕ → List ℕ → List ℕ
drop zero bytes = bytes
drop (suc n) [] = []
drop (suc n) (b ∷ bs) = drop n bs

-- the bytes that a picture begins with
unfoldable pub detect_shop_image : List ℕ → Option ImageKind
unfolding begins drop
detect_shop_image bytes =
    if length bytes == 0 || ltb max_shop_image_bytes (length bytes)
    then none
    else if begins (0xff ∷ 0xd8 ∷ 0xff ∷ []) bytes
    then some jpg
    else if begins (0x89 ∷ 0x50 ∷ 0x4e ∷ 0x47 ∷ 0x0d ∷ 0x0a ∷ 0x1a ∷ 0x0a ∷ []) bytes
    then some png
    else if leb 12 (length bytes)
        && begins (codes "RIFF") bytes
        && begins (codes "WEBP") (drop 8 bytes)
    then some webp
    else none
