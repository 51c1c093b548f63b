-- ===== src/Donations/Stripe.antt =====
-- Reading Stripe's objects (donations.logic.ts).
pub mod Parsed
use mastermind_minecraft_ser.Prelude.{
  ℕ, zero, suc, pos, Bool, true, false, String, ◌&&◌, ◌||◌, not, Text, codes, trim, same,
  split_commas, Option, none, some, List, [], ◌∷◌, map, filter, all, take, length, leb, ◌==◌,
  if◌then◌else◌,
}
use mastermind_minecraft_ser.Json.{
  JsNumber, int, Value, bool, number, string, object, Fields, end, get,
}
use mastermind_minecraft_ser.Grants.Items.{Runtime, is_letter, is_digit}

-- `t || null`
unfoldable pub non_empty : Text → Option Text
non_empty [] = none
non_empty (c ∷ t) = some (c ∷ t)

-- `typeof value === 'string' ? value : null`
unfoldable pub as_text : Value → Option Text
as_text (string t) = some t
as_text _ = none

-- the trimmed text, cut to 255 characters
unfoldable pub clean_id : Option Text → Option Text
unfolding non_empty trim
clean_id none = none
clean_id (some t) = non_empty (take 255 (trim t))

unfoldable pub stripe_object_id : Value → Option Text
unfolding clean_id as_text get
stripe_object_id (string t) = clean_id (some t)
stripe_object_id (object fs) = clean_id (as_text (get fs "id"))
stripe_object_id _ = none

-- `Number.isInteger(value) ? value : null`, for a value that has to be at least 0 to be used
unfoldable pub as_whole : Value → Option ℕ
as_whole (number (int (pos n))) = some n
as_whole _ = none

-- `/^[a-z0-9_-]{10,40}$/i`
unfoldable pub is_item_id_char : ℕ → Bool
unfolding is_letter is_digit
is_item_id_char c = is_letter c || is_digit c || c == b'_' || c == b'-'

unfoldable pub is_item_id : Text → Bool
unfolding is_item_id_char
is_item_id t = leb 10 (length t) && leb (length t) 40 && all is_item_id_char t

unfoldable pub metadata_of : Value → Fields
metadata_of (object fs) = fs
metadata_of _ = end

unfoldable pub text_or_empty : Option Text → Text
text_or_empty none = []
text_or_empty (some t) = t

unfoldable pub single_item : Option Text → List Text
unfolding is_item_id
single_item none = []
single_item (some t) = if is_item_id t then t ∷ [] else []

unfoldable pub shop_item_ids_of : Option Text → Option Text → List Text
unfolding single_item split_commas trim same filter
shop_item_ids_of none one = single_item one
shop_item_ids_of (some many) one =
    if same (trim many) []
    then single_item one
    else filter is_item_id (map trim (split_commas many))

-- an integer above 0
unfoldable pub positives : List JsNumber → List ℕ
positives [] = []
positives (int (pos (suc n)) ∷ ns) = suc n ∷ positives ns
positives (_ ∷ ns) = positives ns

unfoldable pub line_amounts_of : Runtime → Option Text → List ℕ
unfolding positives split_commas trim same
line_amounts_of js none = []
line_amounts_of js (some t) =
    if same (trim t) []
    then []
    else positives (map (λ part. js.to_number (trim part)) (split_commas t))

unfoldable pub only : List Text → Option Text
only (x ∷ []) = some x
only _ = none

unfoldable pub currency_of : Option Text → Text
currency_of (some (c ∷ t)) = take 8 (c ∷ t)
currency_of _ = codes "usd"

pub record Paid : Type 0 where
  pub session_id : Text
  pub payment_intent_id : Option Text
  pub amount_cents : ℕ
  pub currency : Text
  pub player_id : Text
  pub steam_id : Text
  pub server_instance_id : Text
  pub org_id : Text
  pub shop_item_id : Option Text
  pub shop_item_ids : List Text
  pub line_amounts : List ℕ

-- `metadata.playerId`, or the client reference
unfoldable pub player_id_of : Option Text → Value → Option Text
unfolding stripe_object_id
player_id_of (some t) reference = some t
player_id_of none reference = stripe_object_id reference

-- the last test: every field that has to be there is there, and the amount is above 0
unfoldable pub require_all :
    Option Text
    → Option ℕ
    → Option Text
    → Text
    → Text
    → Text
    → (Text → ℕ → Text → Paid)
    → Option Paid
unfolding same
require_all (some session) (some (suc n)) (some player) steam server org make =
    if same player [] || same steam [] || same server [] || same org []
    then none
    else some (make session (suc n) player)
require_all _ _ _ steam server org make = none

-- a string of the session's metadata
unfoldable pub metadata_text : Fields → String → Option Text
unfolding metadata_of as_text get
metadata_text o key = as_text (get (metadata_of (get o "metadata")) key)

unfoldable pub item_ids : Fields → List Text
unfolding shop_item_ids_of metadata_text
item_ids o = shop_item_ids_of (metadata_text o "shopItemIds") (metadata_text o "shopItemId")

unfoldable pub make_paid : Runtime → Fields → Text → ℕ → Text → Paid
unfolding stripe_object_id as_text text_or_empty item_ids line_amounts_of only currency_of
make_paid js o session amount player = record {
  session_id = session;
  payment_intent_id = stripe_object_id (get o "payment_intent");
  amount_cents = amount;
  currency = currency_of (as_text (get o "currency"));
  player_id = player;
  steam_id = text_or_empty (metadata_text o "steamId");
  server_instance_id = text_or_empty (metadata_text o "serverInstanceId");
  org_id = text_or_empty (metadata_text o "orgId");
  shop_item_id = only (item_ids o);
  shop_item_ids = item_ids o;
  line_amounts = line_amounts_of js (metadata_text o "lineAmounts");
}

unfoldable pub checked_paid : Runtime → Fields → Option Paid
unfolding require_all stripe_object_id as_whole player_id_of make_paid
checked_paid js o =
    require_all (stripe_object_id (get o "id")) (as_whole (get o "amount_total"))
      (player_id_of (metadata_text o "playerId") (get o "client_reference_id"))
      (text_or_empty (metadata_text o "steamId"))
      (text_or_empty (metadata_text o "serverInstanceId")) (text_or_empty (metadata_text o "orgId"))
      (make_paid js o)

unfoldable pub parse_paid_checkout_session : Runtime → Fields → Option Paid
unfolding checked_paid same
parse_paid_checkout_session js o =
    if not (same (text_or_empty (as_text (get o "payment_status"))) (codes "paid"))
    then none
    else checked_paid js o

pub record ChargeRefund : Type 0 where
  pub payment_intent_id : Text
  pub refunded_cents : ℕ

unfoldable pub charge_refund : Option Text → Option ℕ → Option ChargeRefund
charge_refund (some intent) (some n) =
    some (record { payment_intent_id = intent; refunded_cents = n })
charge_refund _ _ = none

unfoldable pub is_true : Value → Bool
is_true (bool b) = b
is_true _ = false

-- the integer `amount_refunded`, or the integer `amount` of a charge that is marked as refunded; a
-- negative integer is refused, also where the other field could be read
unfoldable pub refund_amount : Value → Value → Value → Option ℕ
unfolding as_whole is_true
refund_amount (number (int z)) amount flag = as_whole (number (int z))
refund_amount _ amount flag = if is_true flag then as_whole amount else none

unfoldable pub parse_charge_refund : Fields → Option ChargeRefund
unfolding charge_refund stripe_object_id refund_amount get
parse_charge_refund o =
    charge_refund (stripe_object_id (get o "payment_intent"))
      (refund_amount (get o "amount_refunded") (get o "amount") (get o "refunded"))

-- a dispute needs an amount above 0
unfoldable pub above_zero : Option ℕ → Option ℕ
above_zero (some (suc n)) = some (suc n)
above_zero _ = none

unfoldable pub parse_lost_dispute : Fields → Option ChargeRefund
unfolding charge_refund stripe_object_id as_whole above_zero as_text text_or_empty get same
parse_lost_dispute o =
    if not (same (text_or_empty (as_text (get o "status"))) (codes "lost"))
    then none
    else charge_refund (stripe_object_id (get o "payment_intent"))
        (above_zero (as_whole (get o "amount")))
