-- ===== src/Donations/Webhook.antt =====
-- The Stripe webhook (donations.service.ts): crediting a paid session and refunding a payment. The
-- credit reads the player and the donations first and writes them later in one transaction, so it
-- is modelled as two steps, between which another request may run.
pub mod Balance
pub mod Races
use mastermind_minecraft_ser.Prelude.{
  ℕ, pos, Bool, true, false, ◌&&◌, Text, String, codes, same, Option, none, some, List, [], ◌∷◌,
  map, find_first, update_first, if◌then◌else◌,
}
use mastermind_minecraft_ser.Json.{JsNumber, int, Value, Fields}
use mastermind_minecraft_ser.Grants.Items.{Runtime}
use mastermind_minecraft_ser.Donations.Ledger.{
  DonationStatus, completed, refunded, LedgerDonation, LedgerPlayer, SessionInput, Credit, Refund,
  credit_completed_session, apply_charge_refund,
}
use mastermind_minecraft_ser.Donations.Stripe.{
  Paid, ChargeRefund, metadata_of, parse_paid_checkout_session, parse_charge_refund,
  parse_lost_dispute,
}
use mastermind_minecraft_ser.Donations.Lines.{
  ShopItem, DonationLine, is_shop_item, build_donation_lines,
}

pub record PlayerRow : Type 0 where
  pub id : Text
  pub steam_id : Option Text
  pub server_instance_id : Text
  pub org_id : Text
  pub name : Text
  pub ledger : LedgerPlayer

pub record DonationRow : Type 0 where
  pub org_id : Text
  pub server_instance_id : Text
  pub player_id : Text
  pub steam_id : Text
  pub currency : Text
  pub shop_item_id : Option Text
  pub completed_at : ℕ
  pub refunded_at : Option ℕ
  pub lines : List DonationLine
  pub ledger : LedgerDonation

pub record Db : Type 0 where
  pub players : List PlayerRow
  pub donations : List DonationRow
  pub shop_items : List ShopItem

-- What the handler sets off once the transaction is through; failures there are ignored.
pub data Effect : Type 0 where
  notify_discord : Text → Text → ℕ → List Text → Effect
  enqueue_shop_grants : Text → Text → Text → Effect
  evaluate_donation_total : Text → Text → Text → ℕ → ℕ → Effect

abbrev pub has_id : Text → PlayerRow → Bool
has_id id p = same p.id id

abbrev pub has_session : Text → DonationRow → Bool
has_session session d = same d.ledger.session_id session

unfoldable pub same_option : Option Text → Text → Bool
same_option none t = false
same_option (some s) t = same s t

abbrev pub has_intent : Text → DonationRow → Bool
has_intent intent d = same_option d.ledger.payment_intent_id intent

-- the player with the id, if the rest of the `where` holds of it
unfoldable pub matching : Paid → Option PlayerRow → Option PlayerRow
unfolding same_option
matching paid none = none
matching paid (some p) =
    if same_option p.steam_id paid.steam_id
      && same p.server_instance_id paid.server_instance_id
      && same p.org_id paid.org_id
    then some p
    else none

-- What the first half has read and computed.
pub record Pending : Type 0 where
  pub paid : Paid
  pub player : PlayerRow
  pub credit : Credit
  pub row : DonationRow

unfoldable pub primary_item : Db → Paid → Option Text
unfolding is_shop_item
primary_item db paid = elim paid.shop_item_id [
  | none ↦ none
  | some id ↦ elim (find_first (is_shop_item paid.org_id id) db.shop_items) [
    | none ↦ none
    | some item ↦ some item.id
  ]
]

unfoldable pub session_input : Paid → SessionInput
session_input paid = record {
  session_id = paid.session_id;
  payment_intent_id = paid.payment_intent_id;
  amount_cents = int (pos paid.amount_cents);
}

unfoldable pub donation_row : Runtime → Db → Paid → PlayerRow → ℕ → Credit → DonationRow
unfolding primary_item build_donation_lines
donation_row js db paid player at credit = record {
  org_id = paid.org_id;
  server_instance_id = paid.server_instance_id;
  player_id = player.id;
  steam_id = paid.steam_id;
  currency = paid.currency;
  shop_item_id = primary_item db paid;
  completed_at = at;
  refunded_at = none;
  lines = build_donation_lines js db.shop_items paid;
  ledger = credit.donation;
}

unfoldable pub prepare : Runtime → Db → ℕ → Paid → PlayerRow → Option Pending
unfolding session_input credit_completed_session donation_row
prepare js db at paid player =
    let credit = credit_completed_session none (session_input paid) player.ledger at in
    if credit.applied
    then some (record {
      paid = paid;
      player = player;
      credit = credit;
      row = donation_row js db paid player at credit;
    })
    else none

-- the first half, which reads; `none` is an early return
unfoldable pub begin_credit : Runtime → Db → ℕ → Paid → Option Pending
unfolding matching prepare
begin_credit js db at paid = elim (matching paid (find_first (has_id paid.player_id) db.players)) [
  | none ↦ none
  | some player ↦ elim (find_first (has_session paid.session_id) db.donations) [
    | some existing ↦ none
    | none ↦ prepare js db at paid player
  ]
]

abbrev pub set_ledger : LedgerPlayer → PlayerRow → PlayerRow
set_ledger l p = record p { ledger = l }

-- the two writes
unfoldable pub committed : Pending → Db → Db
committed pending db = record db {
  donations = pending.row ∷ db.donations;
  players = update_first (has_id pending.player.id) (set_ledger pending.credit.player) db.players;
}

-- The transaction: a session id that is there already makes it fail as a whole (P2002), which the
-- handler takes as done.
unfoldable pub commit_credit : Pending → Db → Db
unfolding committed
commit_credit pending db =
    elim (find_first (has_session pending.row.ledger.session_id) db.donations) [
      | some existing ↦ db
      | none ↦ committed pending db
    ]

unfoldable pub effects_of : Pending → List Effect
effects_of p =
    notify_discord p.player.org_id p.player.name p.paid.amount_cents
      (map (λ line. line.item_name) p.row.lines)
    ∷ enqueue_shop_grants p.paid.org_id p.paid.server_instance_id p.player.id
    ∷ evaluate_donation_total p.paid.org_id p.paid.server_instance_id p.player.id
        p.player.ledger.total_donated_cents p.credit.player.total_donated_cents
    ∷ []

pub record Handled : Type 0 where
  pub db : Db
  pub effects : List Effect

-- the effects follow only a transaction that went through
unfoldable pub effects_after : Pending → Db → List Effect
unfolding effects_of
effects_after pending db =
    elim (find_first (has_session pending.row.ledger.session_id) db.donations) [
      | some existing ↦ []
      | none ↦ effects_of pending
    ]

-- both halves with nothing in between
unfoldable pub credit_session : Runtime → Db → ℕ → Paid → Handled
unfolding begin_credit commit_credit effects_after
credit_session js db at paid = elim (begin_credit js db at paid) [
  | none ↦ record { db = db; effects = [] }
  | some pending ↦ record { db = commit_credit pending db; effects = effects_after pending db }
]

unfoldable pub credit_paid_session : Runtime → Db → ℕ → Fields → Handled
unfolding credit_session parse_paid_checkout_session
credit_paid_session js db at object = elim (parse_paid_checkout_session js object) [
  | none ↦ record { db = db; effects = [] }
  | some paid ↦ credit_session js db at paid
]

unfoldable pub refunded_row : ℕ → LedgerDonation → DonationRow → DonationRow
refunded_row at l d = record d {
  ledger = l;
  refunded_at = elim l.status [ refunded ↦ some at | completed ↦ d.refunded_at ];
}

unfoldable pub write_refund : Db → ℕ → Text → DonationRow → Refund → Db
unfolding refunded_row
write_refund db at intent d refund = elim refund.donation [
  | none ↦ db
  | some l ↦
      if refund.applied
      then record db {
        donations = update_first (has_intent intent) (refunded_row at l) db.donations;
        players = update_first (has_id d.player_id) (set_ledger refund.player) db.players;
      }
      else db
]

-- a donation's player is there: the row goes with its player
unfoldable pub refund_payment_intent : Db → ℕ → Text → ℕ → Db
unfolding write_refund apply_charge_refund
refund_payment_intent db at intent cents = elim (find_first (has_intent intent) db.donations) [
  | none ↦ db
  | some d ↦ elim (find_first (has_id d.player_id) db.players) [
    | none ↦ db
    | some p ↦
        write_refund db at intent d (apply_charge_refund (some d.ledger) (int (pos cents)) p.ledger)
  ]
]

unfoldable pub refund_parsed : Db → ℕ → Option ChargeRefund → Db
unfolding refund_payment_intent
refund_parsed db at none = db
refund_parsed db at (some r) = refund_payment_intent db at r.payment_intent_id r.refunded_cents

-- An event whose signature has been verified: its type and its object.
pub record Event : Type 0 where
  pub type : Text
  pub object : Value

unfoldable pub handle_webhook : Runtime → Db → ℕ → Event → Handled
unfolding credit_paid_session refund_parsed parse_charge_refund parse_lost_dispute metadata_of same
handle_webhook js db at e =
    if same e.type (codes "checkout.session.completed")
    then credit_paid_session js db at (metadata_of e.object)
    else if same e.type (codes "charge.refunded")
    then record {
      db = refund_parsed db at (parse_charge_refund (metadata_of e.object));
      effects = [];
    }
    else if same e.type (codes "charge.dispute.closed")
    then record {
      db = refund_parsed db at (parse_lost_dispute (metadata_of e.object));
      effects = [];
    }
    else record { db = db; effects = [] }
