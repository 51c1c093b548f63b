-- ===== src/Donations/Signature/Secrets.antt =====
-- The webhook's secrets, of which any one that fits is enough.
use mastermind_minecraft_ser.Prelude.{
  ℕ, Bool, true, false, not, ◌&&◌, ◌||◌, ◌≡◌, ◌≢◌, refl, sym, ap, ◌∙◌, Text, same, same_iff, trim,
  Option, none, some, List, [], ◌∷◌, All, any, filter, filter-All, map, arith, if◌then◌else◌,
  Bool-cases, inl, inr,
}
use mastermind_minecraft_ser.Json.{Value, null, undefined, bool, number, string, array, object, get}
use mastermind_minecraft_ser.Grants.Items.{Runtime}
use mastermind_minecraft_ser.Donations.Signature.{
  Hmac, StripeEvent, event, unconfigured, bad_signature, typed_event, event_of,
  verify_stripe_signature, construct_stripe_event, distinct, is_filled, unique_secrets, first_event,
  construct_stripe_event_with_secrets,
}

-- the header is there and fits the body under the secret
abbrev pub signs : Hmac → Text → Option Text → ℕ → Text → Bool
signs hmac payload none now secret = false
signs hmac payload (some header) now secret =
    not (same (trim header) []) && verify_stripe_signature hmac payload header secret now

any-filter :
    {A : Type 0} (p q : A → Bool) (xs : List A) (x : A)
    → ((y : A) → q y ≡ false → p y ≡ p x)
    → (p x || any p (filter q xs)) ≡ (p x || any p xs)
unfolding filter
any-filter p q [] x h = refl
any-filter p q (y ∷ ys) x h = ground (arith, h y, any-filter p q ys x h)

not_different : (p : Text → Bool) (s t : Text) → not (same s t) ≡ false → p t ≡ p s
not_different p s t h = ap p (sym ((same_iff s t).0 (ground arith)))

any-distinct : (p : Text → Bool) (ss : List Text) → any p (distinct ss) ≡ any p ss
unfolding distinct
any-distinct p [] = refl
any-distinct p (s ∷ ss) =
    any-filter p (λ t. not (same s t)) (distinct ss) s (not_different p s)
    ∙ ap (λ (b : Bool). p s || b) (any-distinct p ss)

All-filter : (P : Text → Type 0) (q : Text → Bool) (ss : List Text) → All P ss → All P (filter q ss)
unfolding filter
All-filter P q [] h = tt
All-filter P q (s ∷ ss) h = elim (Bool-cases (q s)) [
  | inl hit ↦ rw (hit, filter) (h.0, All-filter P q ss h.1)
  | inr miss ↦ rw (miss, filter) (All-filter P q ss h.1)
]

distinct-All : (P : Text → Type 0) (ss : List Text) → All P ss → All P (distinct ss)
unfolding distinct
distinct-All P [] h = tt
distinct-All P (s ∷ ss) h =
    (h.0, All-filter P (λ t. not (same s t)) (distinct ss) (distinct-All P ss h.1))

construct-signs :
    (js : Runtime) (hmac : Hmac) (payload secret : Text) (header : Option Text) (now : ℕ)
    → is_filled secret ≡ true
    → construct_stripe_event js hmac payload header secret now ≡ (
        if signs hmac payload header now secret
        then event_of (js.json_parse payload)
        else bad_signature)
unfolding construct_stripe_event
construct-signs js hmac payload secret none now filled = ground arith
construct-signs js hmac payload secret (some t) now filled = ground arith

typed_event-configured : (v w : Value) → typed_event v w ≢ unconfigured
unfolding typed_event
typed_event-configured undefined w e = absurd (ground arith)
typed_event-configured null w e = absurd (ground arith)
typed_event-configured (bool b) w e = absurd (ground arith)
typed_event-configured (number n) w e = absurd (ground arith)
typed_event-configured (string t) w e = absurd (ground arith)
typed_event-configured (array xs) w e = absurd (ground arith)
typed_event-configured (object fs) w e = absurd (ground arith)

event_of-configured : (o : Option Value) → event_of o ≢ unconfigured
unfolding event_of
event_of-configured none e = absurd (ground arith)
event_of-configured (some undefined) e = absurd (ground arith)
event_of-configured (some null) e = absurd (ground arith)
event_of-configured (some (bool b)) e = absurd (ground arith)
event_of-configured (some (number n)) e = absurd (ground arith)
event_of-configured (some (string t)) e = absurd (ground arith)
event_of-configured (some (array xs)) e = absurd (ground arith)
event_of-configured (some (object fs)) e = typed_event-configured (get fs "type") (get fs "data") e

-- trying the next secret after a bad signature, once the body's event is known
next_secret :
    (b rest : Bool) (e r : StripeEvent)
    → e ≢ unconfigured
    → r ≡ (if rest then e else bad_signature)
    → (elim (if b then e else bad_signature) as (λ x. StripeEvent) [
      | event type o ↦ event type o
      | unconfigured ↦ unconfigured
      | bad_signature ↦ r
    ])
      ≡ (if b || rest then e else bad_signature)
next_secret true rest (event type o) r h k = refl
next_secret true rest unconfigured r h k = absurd (h refl)
next_secret true true bad_signature r h k = k
next_secret true false bad_signature r h k = k
next_secret false rest e r h k = k

first_event-any :
    (js : Runtime) (hmac : Hmac) (payload : Text) (header : Option Text) (ss : List Text) (now : ℕ)
    → All (λ s. is_filled s ≡ true) ss
    → first_event js hmac payload header ss now ≡ (
        if any (signs hmac payload header now) ss
        then event_of (js.json_parse payload)
        else bad_signature)
unfolding first_event
first_event-any js hmac payload header [] now h = refl
first_event-any js hmac payload header (s ∷ ss) now h =
    rw (construct-signs js hmac payload s header now h.0, first_event)
      (next_secret (signs hmac payload header now s) (any (signs hmac payload header now) ss)
        (event_of (js.json_parse payload)) (first_event js hmac payload header ss now)
        (event_of-configured (js.json_parse payload))
        (first_event-any js hmac payload header ss now h.1))

-- the secrets that are not blank, trimmed
abbrev pub filled_secrets : List Text → List Text
filled_secrets secrets = filter is_filled (map trim secrets)

with_some :
    (js : Runtime) (hmac : Hmac) (payload : Text) (header : Option Text) (ss : List Text) (now : ℕ)
    → All (λ s. is_filled s ≡ true) ss
    → (elim (distinct ss) as (λ x. StripeEvent) [
      | [] ↦ unconfigured
      | s ∷ rest ↦ first_event js hmac payload header (s ∷ rest) now
    ])
      ≡ (elim ss as (λ x. StripeEvent) [
        | [] ↦ unconfigured
        | s ∷ rest ↦
            (if any (signs hmac payload header now) (s ∷ rest)
              then event_of (js.json_parse payload)
              else bad_signature)
      ])
unfolding distinct
with_some js hmac payload header [] now h = refl
with_some js hmac payload header (s ∷ ss) now h =
    first_event-any js hmac payload header (distinct (s ∷ ss)) now (distinct-All _ (s ∷ ss) h)
    ∙ ap (λ (b : Bool). if b then event_of (js.json_parse payload) else bad_signature)
        (any-distinct (signs hmac payload header now) (s ∷ ss))

-- Without a secret that is not blank the webhook is not configured; else the event of the body is read
-- when the header fits under one of them, in whatever order and however often they are listed, and every
-- other header is a bad signature.
pub construct_stripe_event_with_secrets-any :
    (js : Runtime) (hmac : Hmac) (payload : Text) (header : Option Text) (secrets : List Text)
    (now : ℕ)
    → construct_stripe_event_with_secrets js hmac payload header secrets now
      ≡ (elim (filled_secrets secrets) as (λ x. StripeEvent) [
        | [] ↦ unconfigured
        | s ∷ rest ↦
            (if any (signs hmac payload header now) (s ∷ rest)
              then event_of (js.json_parse payload)
              else bad_signature)
      ])
unfolding construct_stripe_event_with_secrets unique_secrets
construct_stripe_event_with_secrets-any js hmac payload header secrets now =
    with_some js hmac payload header (filled_secrets secrets) now
      (filter-All is_filled (map trim secrets))
