-- ===== src/Donations/Examples.antt =====
-- Donations on concrete input.
use mathlib.Core.Path.{subst}
use mathlib.Core.Option.{some-injective}
use mastermind_minecraft_ser.Prelude.{
  ◌+◌, ◌≡◌, refl, pos, true, false, Text, codes, same, Option, none, some, [], ◌∷◌, arith,
  find_first, update_first, total, Bool-cases, inl, inr,
}
use mastermind_minecraft_ser.Json.{int, nan, string, number, object, Fields, end, field}
use mastermind_minecraft_ser.Grants.Items.{Runtime}
use mastermind_minecraft_ser.Donations.Ledger.{
  completed, LedgerDonation, LedgerPlayer, SessionInput, credit_completed_session,
  apply_charge_refund,
}
use mastermind_minecraft_ser.Donations.Ledger.Laws.{IsDonation, IsPlayer, refund_comm}
use mastermind_minecraft_ser.Donations.Stripe.{Paid, parse_paid_checkout_session}
use mastermind_minecraft_ser.Donations.Webhook.{
  PlayerRow, Db, Pending, Event, has_id, begin_credit, session_input, donation_row, commit_credit,
  handle_webhook,
}
use mastermind_minecraft_ser.Donations.Webhook.Balance.{IsBalanced, owed, handle_webhook-IsBalanced}
use mastermind_minecraft_ser.Donations.Webhook.Races.{commit_credit-once, commit_credit-lost_update}

abbrev quiet : Runtime
quiet = record { to_number = λ t. nan; to_string = λ v. []; json_parse = λ t. none }

abbrev newcomer : LedgerPlayer
newcomer = record { supporter = false; supporter_since = none; total_donated_cents = 0 }

newcomer-IsPlayer : IsPlayer newcomer
newcomer-IsPlayer = record { flag = refl; since = λ h. refl; no_since = λ h. refl }

abbrev session : SessionInput
session = record {
  session_id = codes "cs_1";
  payment_intent_id = some (codes "pi_1");
  amount_cents = int (pos 500);
}

abbrev donor : LedgerPlayer
donor = record { supporter = true; supporter_since = some 1000; total_donated_cents = 500 }

donor-IsPlayer : IsPlayer donor
donor-IsPlayer = record {
  flag = refl;
  since = λ h. absurd (ground arith);
  no_since = λ h. absurd (ground arith);
}

abbrev five_dollars : LedgerDonation
five_dollars = record {
  session_id = codes "cs_1";
  payment_intent_id = some (codes "pi_1");
  amount_cents = 500;
  refunded_cents = 0;
  status = completed;
}

five_dollars-IsDonation : IsDonation five_dollars
five_dollars-IsDonation = record { paid = omega arith; within = omega arith; settled = refl }

abbrev after_refund : LedgerDonation
after_refund = record five_dollars { refunded_cents = 200 }

refunds :
    (apply_charge_refund (some five_dollars) (int (pos 200)) donor).donation ≡ some after_refund
unfolding apply_charge_refund
refunds = refl

refund_comm_example :
    let first = apply_charge_refund (some five_dollars) (int (pos 200)) donor in
    let second = apply_charge_refund (some five_dollars) (int (pos 500)) donor in
    let ab = apply_charge_refund first.donation (int (pos 500)) first.player in
    let ba = apply_charge_refund second.donation (int (pos 200)) second.player in
    (ab.donation ≡ ba.donation) × (ab.player ≡ ba.player)
refund_comm_example =
    refund_comm five_dollars (int (pos 200)) (int (pos 500)) donor five_dollars-IsDonation
      donor-IsPlayer (omega arith)

-- a checkout session as Stripe sends it
abbrev checkout : Text → Fields
checkout id = field "id" (string id) (
    field "payment_status" (string (codes "paid")) (
      field "amount_total" (number (int (pos 500))) (
        field "metadata"
          (object (
            field "playerId" (string (codes "p1")) (
              field "steamId" (string (codes "7656")) (
                field "serverInstanceId" (string (codes "s1"))
                  (field "orgId" (string (codes "o1")) end)))))
          end)))

abbrev paid : Text → Paid
paid id = record {
  session_id = id;
  payment_intent_id = none;
  amount_cents = 500;
  currency = codes "usd";
  player_id = codes "p1";
  steam_id = codes "7656";
  server_instance_id = codes "s1";
  org_id = codes "o1";
  shop_item_id = none;
  shop_item_ids = [];
  line_amounts = [];
}

reads : parse_paid_checkout_session quiet (checkout (codes "cs_1")) ≡ some (paid (codes "cs_1"))
unfolding parse_paid_checkout_session
reads = refl

abbrev steve : Option Text → PlayerRow
steve steam = record {
  id = codes "p1";
  steam_id = steam;
  server_instance_id = codes "s1";
  org_id = codes "o1";
  name = codes "Steve";
  ledger = newcomer;
}

abbrev shop : Option Text → Db
shop steam = record { players = steve steam ∷ []; donations = []; shop_items = [] }

shop-IsBalanced : IsBalanced (shop (some (codes "7656")))
unfolding find_first total
shop-IsBalanced = record {
  totals = λ id p h. elim (Bool-cases (same (codes "p1") id)) [
    | inl own ↦
        subst (λ (q : PlayerRow). (q.ledger.total_donated_cents ≡ 0) × IsPlayer q.ledger)
          (some-injective (steve (some (codes "7656"))) p (rw own at h)) (refl, newcomer-IsPlayer)
    | inr other ↦ absurd (ground arith)
  ];
  rows = tt;
}

abbrev completed_event : Event
completed_event = record {
  type = codes "checkout.session.completed";
  object = object (checkout (codes "cs_1"));
}

handle_webhook-IsBalanced_example :
    IsBalanced (handle_webhook quiet (shop (some (codes "7656"))) 1000 completed_event).db
handle_webhook-IsBalanced_example =
    handle_webhook-IsBalanced quiet (shop (some (codes "7656"))) 1000 completed_event
      shop-IsBalanced

-- the credit of a session that has been read
abbrev read_of : Text → Pending
read_of id =
    let credit = credit_completed_session none (session_input (paid id)) newcomer 1000 in
    record {
      paid = paid id;
      player = steve (some (codes "7656"));
      credit = credit;
      row =
          donation_row quiet (shop (some (codes "7656"))) (paid id) (steve (some (codes "7656")))
            1000 credit;
    }

commit_credit-once_example :
    commit_credit
      (read_of (codes "cs_1"))
      (commit_credit (read_of (codes "cs_1")) (shop (some (codes "7656"))))
    ≡ commit_credit (read_of (codes "cs_1")) (shop (some (codes "7656")))
commit_credit-once_example =
    commit_credit-once (shop (some (codes "7656"))) (read_of (codes "cs_1"))
      (read_of (codes "cs_1")) refl

first_read :
    begin_credit quiet (shop (some (codes "7656"))) 1000 (paid (codes "cs_1"))
    ≡ some (read_of (codes "cs_1"))
unfolding begin_credit session_input find_first same
first_read = refl

second_read :
    begin_credit quiet (shop (some (codes "7656"))) 1000 (paid (codes "cs_2"))
    ≡ some (read_of (codes "cs_2"))
unfolding begin_credit session_input find_first same
second_read = refl

abbrev both_written : Db
both_written =
    commit_credit (read_of (codes "cs_2"))
      (commit_credit (read_of (codes "cs_1")) (shop (some (codes "7656"))))

abbrev short_player : PlayerRow
short_player = record (steve (some (codes "7656"))) { ledger = donor }

short_player_found : find_first (has_id (codes "p1")) both_written.players ≡ some short_player
unfolding commit_credit find_first update_first same credit_completed_session session_input
    donation_row
short_player_found = refl

commit_credit-lost_update_example : 500 + 500 ≡ total (owed (codes "p1")) both_written.donations
unfolding same
commit_credit-lost_update_example =
    commit_credit-lost_update quiet (shop (some (codes "7656"))) 1000 1000 (paid (codes "cs_1"))
      (paid (codes "cs_2")) (read_of (codes "cs_1")) (read_of (codes "cs_2")) shop-IsBalanced
      first_read second_read refl refl short_player short_player_found
