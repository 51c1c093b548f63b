-- ===== src/Donations/Signature.antt =====
-- The signature of a Stripe webhook (donations.stripe.ts). The time is in seconds.
pub mod Hex
pub mod Digits
pub mod Verified
pub mod Secrets
mod Examples
use mastermind_minecraft_ser.Prelude.{
  ℕ, zero, suc, ◌+◌, ◌-◌, ◌*◌, Bool, true, false, ◌&&◌, ◌||◌, not, Text, codes, trim, same,
  split_on, split_commas, contains_ci, Option, none, some, List, [], ◌∷◌, ◌++◌, map, filter, all,
  any, length, leb, ◌==◌, if◌then◌else◌,
}
use mastermind_minecraft_ser.Json.{Value, string, object, array, end, get}
use mastermind_minecraft_ser.Grants.Items.{Runtime, is_digit}
use mastermind_minecraft_ser.Grants.Command.{decimal, trimmed}
use mastermind_minecraft_ser.Scheduler.Cron.{leading_digits}

-- HMAC-SHA256 of a text under a secret, in hexadecimal
abbrev pub Hmac : Type 0
Hmac = Text → Text → Text

abbrev pub signature_tolerance_sec : ℕ
signature_tolerance_sec = 300

-- the empty text stands for a secret that is not set
unfoldable pub non_default_secret : Option Text → Text
unfolding trimmed same contains_ci
non_default_secret value =
    let secret = trimmed value in
    if same secret [] || contains_ci (codes "change-me") secret then [] else secret

-- `${timestamp}.${payload}`
abbrev pub signed_text : Text → Text → Text
signed_text timestamp payload = timestamp ++ (b'.' ∷ payload)

unfoldable pub generate_test_header_string : Hmac → Text → Text → ℕ → Text
unfolding decimal
generate_test_header_string hmac payload secret timestamp =
    codes "t="
    ++ (decimal timestamp
        ++ (b',' ∷ (codes "v1=" ++ hmac secret (signed_text (decimal timestamp) payload))))

pub record Header : Type 0 where
  pub timestamp : Text
  pub signatures : List Text

-- `[key, value]` of `split('=', 2)`: a part without `=` has no value
unfoldable pub with_value : Text → Option Text → Header → Header
unfolding same
with_value key none h = if same key (codes "t") then record h { timestamp = [] } else h
with_value key (some value) h =
    if same key (codes "t")
    then record h { timestamp = value }
    else if same key (codes "v1") && not (same value [])
    then record h { signatures = h.signatures ++ (value ∷ []) }
    else h

unfoldable pub read_pair : List Text → Header → Header
unfolding with_value
read_pair [] h = h
read_pair (key ∷ []) h = with_value key none h
read_pair (key ∷ value ∷ more) h = with_value key (some value) h

unfoldable pub read_parts : List Text → Header → Header
unfolding read_pair split_on trim
read_parts [] h = h
read_parts (part ∷ parts) h = read_parts parts (read_pair (split_on b'=' (trim part)) h)

unfoldable pub read_header : Text → Header
unfolding read_parts split_commas
read_header header = read_parts (split_commas header) (record { timestamp = []; signatures = [] })

unfoldable pub hex_value : ℕ → Option ℕ
unfolding is_digit
hex_value c =
    if is_digit c
    then some (c - b'0')
    else if leb b'a' c && leb c b'f'
    then some (c - b'a' + 10)
    else if leb b'A' c && leb c b'F'
    then some (c - b'A' + 10)
    else none

unfoldable pub hex_byte : Option ℕ → Option ℕ → Option ℕ
hex_byte (some a) (some b) = some (a * 16 + b)
hex_byte _ _ = none

-- `Buffer.from(s, 'hex')`, which stops at the first pair that is not hexadecimal
unfoldable pub from_hex : Text → List ℕ
unfolding hex_byte hex_value
from_hex [] = []
from_hex (a ∷ []) = []
from_hex (a ∷ b ∷ rest) =
    let bytes = from_hex rest in
    elim (hex_byte (hex_value a) (hex_value b)) [ none ↦ [] | some byte ↦ byte ∷ bytes ]

unfoldable pub safe_equal_hex : Text → Text → Bool
unfolding from_hex same
safe_equal_hex left right =
    let a = from_hex left in
    let b = from_hex right in
    if length a == 0 || not (length a == length b) then false else same a b

-- `/^\d+$/`
unfoldable pub is_decimal : Text → Bool
unfolding is_digit
is_decimal [] = false
is_decimal (c ∷ t) = all is_digit (c ∷ t)

-- `Math.abs(a - b)`
unfoldable pub distance : ℕ → ℕ → ℕ
distance a b = if leb b a then a - b else b - a

unfoldable pub verify_stripe_signature : Hmac → Text → Text → Text → ℕ → Bool
unfolding read_header is_decimal distance leading_digits safe_equal_hex
verify_stripe_signature hmac payload header secret now =
    let h = read_header header in
    if not (is_decimal h.timestamp) || length h.signatures == 0
    then false
    else if not (leb (distance now (leading_digits 0 h.timestamp)) signature_tolerance_sec)
    then false
    else any (λ s. safe_equal_hex s (hmac secret (signed_text h.timestamp payload))) h.signatures

-- An event, or the code of the error.
pub data StripeEvent : Type 0 where
  event : Text → Value → StripeEvent
  unconfigured bad_signature : StripeEvent

-- `event.data.object` where it is an object or an array, and `{}` otherwise
unfoldable pub payload_object : Value → Value
payload_object (object fs) = elim (get fs "object") [
  | object gs ↦ object gs
  | array xs ↦ array xs
  | _ ↦ object end
]
payload_object _ = object end

unfoldable pub typed_event : Value → Value → StripeEvent
unfolding payload_object
typed_event (string type) payload = event type (payload_object payload)
typed_event _ payload = bad_signature

unfoldable pub event_of : Option Value → StripeEvent
unfolding typed_event
event_of (some (object fs)) = typed_event (get fs "type") (get fs "data")
event_of _ = bad_signature

unfoldable pub construct_stripe_event : Runtime → Hmac → Text → Option Text → Text → ℕ → StripeEvent
unfolding event_of verify_stripe_signature trimmed same
construct_stripe_event js hmac payload none secret now =
    if same secret [] then unconfigured else bad_signature
construct_stripe_event js hmac payload (some signature) secret now =
    if same secret []
    then unconfigured
    else if same (trim signature) []
    then bad_signature
    else if not (verify_stripe_signature hmac payload signature secret now)
    then bad_signature
    else event_of (js.json_parse payload)

-- `new Set(...)`, in the order of the first occurrences
unfoldable pub distinct : List Text → List Text
unfolding same filter
distinct [] = []
distinct (s ∷ ss) = s ∷ filter (λ t. not (same s t)) (distinct ss)

abbrev pub is_filled : Text → Bool
is_filled t = not (same t [])

unfoldable pub unique_secrets : List Text → List Text
unfolding distinct filter
unique_secrets secrets = distinct (filter is_filled (map trim secrets))

-- the next secret is tried when the signature is bad
unfoldable pub first_event : Runtime → Hmac → Text → Option Text → List Text → ℕ → StripeEvent
unfolding construct_stripe_event
first_event js hmac payload signature [] now = bad_signature
first_event js hmac payload signature (s ∷ ss) now =
    let rest = first_event js hmac payload signature ss now in
    elim (construct_stripe_event js hmac payload signature s now) [
      | event type o ↦ event type o
      | unconfigured ↦ unconfigured
      | bad_signature ↦ rest
    ]

unfoldable pub construct_stripe_event_with_secrets :
    Runtime → Hmac → Text → Option Text → List Text → ℕ → StripeEvent
unfolding first_event unique_secrets
construct_stripe_event_with_secrets js hmac payload signature secrets now =
    elim (unique_secrets secrets) [
      | [] ↦ unconfigured
      | s ∷ ss ↦ first_event js hmac payload signature (s ∷ ss) now
    ]
