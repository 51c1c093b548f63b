-- ===== src/Donations/Ledger.antt =====
-- control-plane/src/donations/donations.logic.ts: crediting and refunding one donation. Amounts of
-- the ledger are natural numbers: every write keeps them at 0 or above.
pub mod Laws
use mastermind_minecraft_ser.Prelude.{
  ℕ, zero, suc, ◌+◌, ◌-◌, min, max, ℤ, pos, negsuc, pos_part, Bool, true, false, ◌||◌, Text, Option,
  none, some, ltb, leb, ◌==◌, if◌then◌else◌,
}
use mastermind_minecraft_ser.Json.{JsNumber, int, fraction, nan, Value, number}

abbrev pub min_donation_cents : ℕ
min_donation_cents = 500

abbrev pub max_donation_cents : ℕ
max_donation_cents = 50000

pub data DonationStatus : Type 0 where
  completed refunded : DonationStatus

pub record LedgerDonation : Type 0 where
  pub session_id : Text
  pub payment_intent_id : Option Text
  pub amount_cents : ℕ
  pub refunded_cents : ℕ
  pub status : DonationStatus

-- Times are milliseconds.
pub record LedgerPlayer : Type 0 where
  pub supporter : Bool
  pub supporter_since : Option ℕ
  pub total_donated_cents : ℕ

unfoldable pub parse_donation_amount_cents : Value → Option ℕ
parse_donation_amount_cents (number (int (pos n))) =
    if ltb n min_donation_cents || ltb max_donation_cents n then none else some n
parse_donation_amount_cents _ = none

pub record SessionInput : Type 0 where
  pub session_id : Text
  pub payment_intent_id : Option Text
  pub amount_cents : JsNumber

pub record Credit : Type 0 where
  pub donation : LedgerDonation
  pub player : LedgerPlayer
  pub applied : Bool

-- the donation row of a session, with the amount given
unfoldable pub session_donation : SessionInput → ℕ → LedgerDonation
session_donation input amount = record {
  session_id = input.session_id;
  payment_intent_id = input.payment_intent_id;
  amount_cents = amount;
  refunded_cents = 0;
  status = completed;
}

-- `a ?? b`
unfoldable pub or_since : Option ℕ → Option ℕ → Option ℕ
or_since none b = b
or_since (some a) b = some a

unfoldable pub credited_player : LedgerPlayer → ℕ → ℕ → LedgerPlayer
unfolding or_since
credited_player player amount at =
    let total = player.total_donated_cents + amount in
    record {
      supporter = ltb 0 total;
      supporter_since = or_since player.supporter_since (if ltb 0 total then some at else none);
      total_donated_cents = total;
    }

-- an integer above 0, which the code credits
unfoldable pub positive : JsNumber → Option ℕ
positive (int (pos (suc n))) = some (suc n)
positive _ = none

unfoldable pub credit_amount : Option ℕ → SessionInput → LedgerPlayer → ℕ → Credit
unfolding session_donation credited_player
credit_amount none input player at = record {
  donation = session_donation input 0;
  player = player;
  applied = false;
}
credit_amount (some amount) input player at = record {
  donation = session_donation input amount;
  player = credited_player player amount at;
  applied = true;
}

unfoldable pub credit_completed_session :
    Option LedgerDonation → SessionInput → LedgerPlayer → ℕ → Credit
unfolding credit_amount positive
credit_completed_session (some existing) input player at = record {
  donation = existing;
  player = player;
  applied = false;
}
credit_completed_session none input player at =
    credit_amount (positive input.amount_cents) input player at

pub record Refund : Type 0 where
  pub donation : Option LedgerDonation
  pub player : LedgerPlayer
  pub applied : Bool
  pub delta : ℕ

-- `Math.trunc(x) || 0`, as far as a maximum with a number that is not negative can tell
unfoldable pub trunc : JsNumber → ℕ
trunc (int z) = pos_part z
trunc (fraction z) = pos_part z
trunc nan = 0

unfoldable pub next_refunded : LedgerDonation → ℕ → ℕ
next_refunded d cents = min d.amount_cents (max d.refunded_cents cents)

unfoldable pub refunded_donation : LedgerDonation → ℕ → LedgerDonation
refunded_donation d next = record d {
  refunded_cents = next;
  status = if leb d.amount_cents next then refunded else completed;
}

unfoldable pub refunded_player : LedgerPlayer → ℕ → LedgerPlayer
refunded_player player delta =
    let total = player.total_donated_cents - delta in
    record {
      supporter = ltb 0 total;
      supporter_since = if ltb 0 total then player.supporter_since else none;
      total_donated_cents = total;
    }

-- A delta at or below 0 is 0 here, and is refused as in the source.
unfoldable pub apply_charge_refund : Option LedgerDonation → JsNumber → LedgerPlayer → Refund
unfolding trunc next_refunded refunded_donation refunded_player
apply_charge_refund none cents player = record {
  donation = none;
  player = player;
  applied = false;
  delta = 0;
}
apply_charge_refund (some d) cents player =
    let next = next_refunded d (trunc cents) in
    let delta = next - d.refunded_cents in
    if delta == 0
    then record { donation = some d; player = player; applied = false; delta = 0 }
    else record {
      donation = some (refunded_donation d next);
      player = refunded_player player delta;
      applied = true;
      delta = delta;
    }
