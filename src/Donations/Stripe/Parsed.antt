-- ===== src/Donations/Stripe/Parsed.antt =====
-- What a parsed Stripe object satisfies.
use mastermind_minecraft_ser.Prelude.{
  ℕ, suc, ◌<◌, Bool, false, ◌≡◌, ◌≢◌, Text, same, same_iff, zero, if◌then◌else◌, Option, none, some,
  [], arith,
}
use mathlib.Core.Path.{subst}
use mastermind_minecraft_ser.Json.{Fields, get}
use mastermind_minecraft_ser.Grants.Items.{Runtime}
use mastermind_minecraft_ser.Donations.Stripe.{
  Paid, require_all, stripe_object_id, as_whole, player_id_of, metadata_text, text_or_empty,
  make_paid, checked_paid, parse_paid_checkout_session,
}

-- Everything that the webhook handler uses of a paid session is there.
pub record IsPaid (p : Paid) : Type 0 where
  pub amount : 0 < p.amount_cents
  pub player : p.player_id ≢ []
  pub steam : p.steam_id ≢ []
  pub server : p.server_instance_id ≢ []
  pub org : p.org_id ≢ []

same-ne : (t : Text) → same t [] ≡ false → t ≢ []
same-ne t h e = cc (h, (same_iff t []).1 e)

require_all-some :
    (s : Option Text) (a : Option ℕ) (pl : Option Text) (steam server org : Text)
    (make : Text → ℕ → Text → Paid) (p : Paid)
    → require_all s a pl steam server org make ≡ some p
    → (session : Text) × (n : ℕ) × (player : Text) × (make session (suc n) player ≡ p)
      × (player ≢ [])
      × (steam ≢ [])
      × (server ≢ [])
      × (org ≢ [])
unfolding require_all
require_all-some (some s) (some (suc n)) (some pl) steam server org make p h = (
  s,
  n,
  pl,
  ground arith,
  same-ne pl (ground arith),
  same-ne steam (ground arith),
  same-ne server (ground arith),
  same-ne org (ground arith),
)
require_all-some none a pl steam server org make p h = absurd (ground arith)
require_all-some (some s) none pl steam server org make p h = absurd (ground arith)
require_all-some (some s) (some zero) pl steam server org make p h = absurd (ground arith)
require_all-some (some s) (some (suc n)) none steam server org make p h = absurd (ground arith)

unless :
    {A : Type 0} (b : Bool) (o : Option A) (p : A) → (if b then none else o) ≡ some p → o ≡ some p
unless b o p h = ground arith

checked_paid-IsPaid : (js : Runtime) (o : Fields) (p : Paid) → checked_paid js o ≡ some p → IsPaid p
unfolding checked_paid
checked_paid-IsPaid js o p h =
    let (session, n, player, made, has_player, has_steam, has_server, has_org) =
      require_all-some (stripe_object_id (get o "id")) (as_whole (get o "amount_total"))
        (player_id_of (metadata_text o "playerId") (get o "client_reference_id"))
        (text_or_empty (metadata_text o "steamId"))
        (text_or_empty (metadata_text o "serverInstanceId"))
        (text_or_empty (metadata_text o "orgId")) (make_paid js o) p h in
    subst IsPaid made (record {
      amount = omega arith;
      player = has_player;
      steam = has_steam;
      server = has_server;
      org = has_org;
    })

-- A session is read as paid only with an amount above 0 and with every identifier that the handler
-- looks the player up by.
pub parse_paid_checkout_session-IsPaid :
    (js : Runtime) (o : Fields) (p : Paid) → parse_paid_checkout_session js o ≡ some p → IsPaid p
unfolding parse_paid_checkout_session
parse_paid_checkout_session-IsPaid js o p h =
    checked_paid-IsPaid js o p (unless _ (checked_paid js o) p h)
