-- ===== src/Donations/Webhook/Balance.antt =====
-- The totals of the players are what their donations come to.
use mathlib.Core.Path.{subst}
use mathlib.Core.Option.{some-injective}
use mastermind_minecraft_ser.Prelude.{
  ℕ, pos, ◌+◌, ◌≤◌, Bool, true, false, ◌≡◌, refl, sym, ◌∙◌, Text, same, same_iff, same_refl, codes,
  min, max, Option, none, some, List, [], ◌∷◌, All, arith, Bool-cases, Option-cases, inl, inr,
  find_first, update_first, total, total-update_first, find_first-update_first,
  find_first-update_first_self, find_first-holds, if◌then◌else◌,
}
use mastermind_minecraft_ser.Json.{JsNumber, int, Fields}
use mastermind_minecraft_ser.Grants.Items.{Runtime}
use mastermind_minecraft_ser.Donations.Ledger.{
  LedgerDonation, LedgerPlayer, Refund, credit_completed_session, apply_charge_refund, trunc,
}
use mastermind_minecraft_ser.Donations.Ledger.Laws.{IsDonation, IsPlayer, net, refund-IsValid}
use mastermind_minecraft_ser.Donations.Stripe.{
  Paid, ChargeRefund, metadata_of, parse_paid_checkout_session, parse_charge_refund,
  parse_lost_dispute,
}
use mastermind_minecraft_ser.Donations.Webhook.{
  PlayerRow, DonationRow, Db, Pending, has_id, has_session, has_intent, matching, session_input,
  prepare, donation_row, begin_credit, set_ledger, commit_credit, credit_session,
  credit_paid_session, refunded_row, write_refund, refund_payment_intent, refund_parsed, Event,
  handle_webhook,
}

-- what a donation adds to a player's total
abbrev pub owed : Text → DonationRow → ℕ
owed id d = if same d.player_id id then net d.ledger else 0

-- Every player's total is the net sum of the player's donations, and the rows are valid.
pub record IsBalanced (db : Db) : Type 0 where
  pub totals :
      (id : Text) (p : PlayerRow)
      → find_first (has_id id) db.players ≡ some p
      → (p.ledger.total_donated_cents ≡ total (owed id) db.donations) × IsPlayer p.ledger
  pub rows : All (λ d. IsDonation d.ledger) db.donations

-- A player's ledger is rewritten together with the donations: the totals stay right if the new
-- total is right for this player and nothing is changed for the others.
module _ (ps : List PlayerRow) (ds ds' : List DonationRow) (pl : PlayerRow) (l : LedgerPlayer)
    (valid : IsPlayer l) (found : find_first (has_id pl.id) ps ≡ some pl)
    (self : l.total_donated_cents ≡ total (owed pl.id) ds')
    (others : (id : Text) → same pl.id id ≡ false → total (owed id) ds' ≡ total (owed id) ds)
    (old : (id : Text) (p : PlayerRow)
      → find_first (has_id id) ps ≡ some p
      → (p.ledger.total_donated_cents ≡ total (owed id) ds) × IsPlayer p.ledger) where
  rewritten_self :
      (p : PlayerRow)
      → find_first (has_id pl.id) (update_first (has_id pl.id) (set_ledger l) ps) ≡ some p
      → (p.ledger.total_donated_cents ≡ total (owed pl.id) ds') × IsPlayer p.ledger
  rewritten_self p h =
      let e : set_ledger l pl ≡ p = some-injective _ _ (
        sym (find_first-update_first_self (has_id pl.id) (set_ledger l) ps pl (λ x. refl) found)
        ∙ h) in
      subst
        (λ (q : PlayerRow).
          (q.ledger.total_donated_cents ≡ total (owed pl.id) ds') × IsPlayer q.ledger)
        e (self, valid)

  apart :
      (id : Text) (x : PlayerRow)
      → same pl.id id ≡ false
      → has_id id x ≡ true
      → has_id pl.id x ≡ false
  apart id x ne h = ground (arith, same_iff x.id id, same_iff x.id pl.id, same_iff pl.id id)

  rewritten :
      (id : Text) (p : PlayerRow)
      → find_first (has_id id) (update_first (has_id pl.id) (set_ledger l) ps) ≡ some p
      → (p.ledger.total_donated_cents ≡ total (owed id) ds') × IsPlayer p.ledger
  rewritten id p h = elim (Bool-cases (same pl.id id)) [
    | inl this ↦
        subst
          (λ (i : Text).
            find_first (has_id i) (update_first (has_id pl.id) (set_ledger l) ps) ≡ some p
            → (p.ledger.total_donated_cents ≡ total (owed i) ds') × IsPlayer p.ledger)
          ((same_iff pl.id id).0 this) (rewritten_self p) h
    | inr other ↦
        let was = old id p (
          sym (
            find_first-update_first (has_id pl.id) (has_id id) (set_ledger l) ps (λ x. refl)
              (λ x q. apart id x other q))
          ∙ h) in
        (was.0 ∙ sym (others id other), was.1)
  ]

matching-some :
    (paid : Paid) (o : Option PlayerRow) (p : PlayerRow) → matching paid o ≡ some p → o ≡ some p
unfolding matching
matching-some paid none p h = absurd (ground arith)
matching-some paid (some q) p h = ground arith

-- what the first half guarantees of the second
pub record IsReady (db : Db) (w : Pending) : Type 0 where
  pub player_found : find_first (has_id w.paid.player_id) db.players ≡ some w.player
  pub row_player : w.row.player_id ≡ w.player.id
  pub session : w.row.ledger.session_id ≡ w.paid.session_id
  pub amount : net w.row.ledger ≡ w.paid.amount_cents
  pub valid : IsDonation w.row.ledger
  pub credited : IsPlayer w.player.ledger → IsPlayer w.credit.player
  pub total_after :
      w.credit.player.total_donated_cents
      ≡ w.player.ledger.total_donated_cents + w.paid.amount_cents

credit-facts :
    (paid : Paid) (p : LedgerPlayer) (at : ℕ)
    → let c = credit_completed_session none (session_input paid) p at in
      c.applied ≡ true
      → (c.donation.session_id ≡ paid.session_id)
        × (net c.donation ≡ paid.amount_cents)
        × IsDonation c.donation
        × (IsPlayer p → IsPlayer c.player)
        × (c.player.total_donated_cents ≡ p.total_donated_cents + paid.amount_cents)
unfolding credit_completed_session session_input
credit-facts paid p at h =
    (ground arith, ground arith, ground arith, λ v. ground arith, ground arith)

prepare-IsReady :
    (js : Runtime) (db : Db) (at : ℕ) (paid : Paid) (p : PlayerRow) (w : Pending)
    → find_first (has_id paid.player_id) db.players ≡ some p
    → prepare js db at paid p ≡ some w
    → IsReady db w × (w.paid ≡ paid)
unfolding prepare donation_row
prepare-IsReady js db at paid p w f h =
    elim (Bool-cases (credit_completed_session none (session_input paid) p.ledger at).applied) [
      | inl yes' ↦
          let (session, amount, valid, credited, after) = credit-facts paid p.ledger at yes' in
          subst (λ (w : Pending). IsReady db w × (w.paid ≡ paid))
            (some-injective _ _ (rw yes' at h))
            (
              record {
                player_found = f;
                row_player = refl;
                session = session;
                amount = amount;
                valid = valid;
                credited = credited;
                total_after = after;
              },
              refl,
            )
      | inr no' ↦ absurd (ground arith)
    ]

pub begin_credit-IsReady :
    (js : Runtime) (db : Db) (at : ℕ) (paid : Paid) (w : Pending)
    → begin_credit js db at paid ≡ some w
    → IsReady db w × (w.paid ≡ paid)
unfolding begin_credit
begin_credit-IsReady js db at paid w h =
    elim (Option-cases (matching paid (find_first (has_id paid.player_id) db.players))) [
      | inl e ↦ absurd (ground arith)
      | inr (p, e) ↦ elim (Option-cases (find_first (has_session paid.session_id) db.donations)) [
        | inl new ↦ prepare-IsReady js db at paid p w (matching-some paid _ p e) (ground arith)
        | inr (d, old) ↦ absurd (ground arith)
      ]
    ]

owed-other :
    (id : Text) (row : DonationRow) (ds : List DonationRow) (who : Text)
    → row.player_id ≡ who
    → same who id ≡ false
    → total (owed id) (row ∷ ds) ≡ total (owed id) ds
unfolding total
owed-other id row ds who e ne = rw (e, ne) (omega arith)

pub owed_self :
    (row : DonationRow) (ds : List DonationRow) (who : Text)
    → row.player_id ≡ who
    → total (owed who) (row ∷ ds) ≡ net row.ledger + total (owed who) ds
unfolding total
owed_self row ds who e = rw (e, same_refl) refl

-- The second half keeps the balance if the player is as the first half read it.
commit_credit-IsBalanced :
    (db : Db) (w : Pending) → IsBalanced db → IsReady db w → IsBalanced (commit_credit w db)
unfolding commit_credit
commit_credit-IsBalanced db w b r =
    elim (Option-cases (find_first (has_session w.row.ledger.session_id) db.donations)) [
      | inl new ↦
          rw (new, commit_credit)
            (record {
              totals =
                  rewritten db.players db.donations (w.row ∷ db.donations) w.player w.credit.player
                    (r.credited (b.totals w.paid.player_id w.player r.player_found).1) found
                    (omega (
                      arith,
                      r.total_after,
                      r.amount,
                      (b.totals w.player.id w.player found).0,
                      owed_self w.row db.donations w.player.id r.row_player,
                    ))
                    (λ id ne. owed-other id w.row db.donations w.player.id r.row_player ne)
                    b.totals;
              rows = (r.valid, b.rows);
            })
      | inr (d, old) ↦ rw (old, commit_credit) b
    ]
  where
    found : find_first (has_id w.player.id) db.players ≡ some w.player
    found =
        subst (λ (i : Text). find_first (has_id i) db.players ≡ some w.player)
          (sym (
            (same_iff w.player.id w.paid.player_id).0
              (find_first-holds _ db.players w.player r.player_found)))
          r.player_found

credit_session-IsBalanced :
    (js : Runtime) (db : Db) (at : ℕ) (paid : Paid)
    → IsBalanced db
    → IsBalanced (credit_session js db at paid).db
unfolding credit_session
credit_session-IsBalanced js db at paid b = elim (Option-cases (begin_credit js db at paid)) [
  | inl e ↦ rw (e, credit_session) b
  | inr (w, e) ↦
      rw (e, credit_session)
        (commit_credit-IsBalanced db w b (begin_credit-IsReady js db at paid w e).0)
]

credit_paid_session-IsBalanced :
    (js : Runtime) (db : Db) (at : ℕ) (o : Fields)
    → IsBalanced db
    → IsBalanced (credit_paid_session js db at o).db
unfolding credit_paid_session
credit_paid_session-IsBalanced js db at o b =
    elim (Option-cases (parse_paid_checkout_session js o)) [
      | inl e ↦ rw (e, credit_paid_session) b
      | inr (paid, e) ↦ rw (e, credit_paid_session) (credit_session-IsBalanced js db at paid b)
    ]

-- a refund of one donation, seen by each player's sum
module _ (ds : List DonationRow) (intent : Text) (at : ℕ) (d : DonationRow) (l : LedgerDonation)
    (found : find_first (has_intent intent) ds ≡ some d) where
  owed-refunded_self :
      total (owed d.player_id) (update_first (has_intent intent) (refunded_row at l) ds)
        + net d.ledger
      ≡ total (owed d.player_id) ds + net l
  unfolding refunded_row
  owed-refunded_self = ground (
    arith,
    same_refl d.player_id,
    total-update_first (owed d.player_id) (has_intent intent) (refunded_row at l) ds d found,
  )

  owed-refunded_other :
      (id : Text)
      → same d.player_id id ≡ false
      → total (owed id) (update_first (has_intent intent) (refunded_row at l) ds)
        ≡ total (owed id) ds
  unfolding refunded_row
  owed-refunded_other id ne =
      ground
        (arith, total-update_first (owed id) (has_intent intent) (refunded_row at l) ds d found)

update_first-All :
    {A : Type 0} (P : A → Type 0) (p : A → Bool) (f : A → A) (xs : List A)
    → ((x : A) → P (f x))
    → All P xs
    → All P (update_first p f xs)
unfolding update_first
update_first-All P p f [] keep h = h
update_first-All P p f (x ∷ xs) keep h = elim (Bool-cases (p x)) [
  | inl here ↦ rw here (keep x, h.1)
  | inr on ↦ rw on (h.0, update_first-All P p f xs keep h.1)
]

find_first-All :
    {A : Type 0} (P : A → Type 0) (p : A → Bool) (xs : List A) (x : A)
    → All P xs
    → find_first p xs ≡ some x
    → P x
unfolding find_first
find_first-All P p [] x h e = absurd (ground arith)
find_first-All P p (y ∷ ys) x h e = elim (Bool-cases (p y)) [
  | inl here ↦ subst P (some-injective _ _ (rw here at e)) h.0
  | inr on ↦ find_first-All P p ys x h.1 (rw on at e)
]

-- a donation's net amount is part of what its player's donations come to
net-le-owed :
    (ds : List DonationRow) (p : DonationRow → Bool) (d : DonationRow)
    → find_first p ds ≡ some d
    → net d.ledger ≤ total (owed d.player_id) ds
unfolding find_first total
net-le-owed [] p d h = absurd (ground arith)
net-le-owed (x ∷ xs) p d h = ground (arith, same_refl d.player_id, net-le-owed xs p d)

pub own_id :
    (ps : List PlayerRow) (id : Text) (p : PlayerRow)
    → find_first (has_id id) ps ≡ some p
    → p.id ≡ id
own_id ps id p h = (same_iff p.id id).0 (find_first-holds (has_id id) ps p h)

-- a refund that is applied is written to the donation and to its player
refund-IsBalanced :
    (db : Db) (at : ℕ) (intent : Text) (d : DonationRow) (p : PlayerRow) (cents : JsNumber)
    (l : LedgerDonation)
    → IsBalanced db
    → find_first (has_intent intent) db.donations ≡ some d
    → find_first (has_id d.player_id) db.players ≡ some p
    → (apply_charge_refund (some d.ledger) cents p.ledger).donation ≡ some l
    → IsBalanced (record db {
      donations = update_first (has_intent intent) (refunded_row at l) db.donations;
      players =
          update_first
            (has_id d.player_id)
            (set_ledger (apply_charge_refund (some d.ledger) cents p.ledger).player)
            db.players;
    })
unfolding refunded_row
refund-IsBalanced db at intent d p cents l b fd fp e =
    subst
      (λ (i : Text). IsBalanced (record db {
        donations = update_first (has_intent intent) (refunded_row at l) db.donations;
        players = update_first (has_id i) (set_ledger r.player) db.players;
      }))
      own
      (record {
        totals =
            rewritten db.players db.donations
              (update_first (has_intent intent) (refunded_row at l) db.donations) p r.player facts.1
              (subst (λ (i : Text). find_first (has_id i) db.players ≡ some p) (sym own) fp)
              (subst
                (λ (i : Text).
                  r.player.total_donated_cents
                  ≡ total (owed i)
                      (update_first (has_intent intent) (refunded_row at l) db.donations))
                (sym own)
                (omega (
                  arith,
                  facts.3,
                  was.0,
                  owed-refunded_self db.donations intent at d l fd,
                  covered,
                )))
              (λ id ne. owed-refunded_other db.donations intent at d l fd id (rw own at ne))
              b.totals;
        rows =
            update_first-All (λ x. IsDonation x.ledger) (has_intent intent) (refunded_row at l)
              db.donations (λ x. facts.0) b.rows;
      })
  where
    r : Refund
    r = apply_charge_refund (some d.ledger) cents p.ledger

    own : p.id ≡ d.player_id
    own = own_id db.players d.player_id p fp

    was : (p.ledger.total_donated_cents ≡ total (owed d.player_id) db.donations) × IsPlayer p.ledger
    was = b.totals d.player_id p fp

    covered : net d.ledger ≤ total (owed d.player_id) db.donations
    covered = net-le-owed db.donations (has_intent intent) d fd

    facts :
        IsDonation l
        × IsPlayer r.player
        × (l.refunded_cents ≡ min d.ledger.amount_cents (max d.ledger.refunded_cents (trunc cents)))
        × (r.player.total_donated_cents + net d.ledger ≡ p.ledger.total_donated_cents + net l)
    facts =
        refund-IsValid d.ledger l cents p.ledger
          (find_first-All (λ x. IsDonation x.ledger) (has_intent intent) db.donations d b.rows fd)
          was.1 (omega (arith, was.0, covered)) e

write_refund-IsBalanced :
    (db : Db) (at : ℕ) (intent : Text) (d : DonationRow) (p : PlayerRow) (cents : JsNumber)
    → IsBalanced db
    → find_first (has_intent intent) db.donations ≡ some d
    → find_first (has_id d.player_id) db.players ≡ some p
    → IsBalanced (write_refund db at intent d (apply_charge_refund (some d.ledger) cents p.ledger))
unfolding write_refund
write_refund-IsBalanced db at intent d p cents b fd fp =
    elim (Option-cases (apply_charge_refund (some d.ledger) cents p.ledger).donation) [
      | inl e ↦ rw (e, write_refund) b
      | inr (l, e) ↦
          elim (Bool-cases (apply_charge_refund (some d.ledger) cents p.ledger).applied) [
            | inl go ↦
                rw (e, go, write_refund) (refund-IsBalanced db at intent d p cents l b fd fp e)
            | inr stay ↦ rw (e, stay, write_refund) b
          ]
    ]

refund_payment_intent-IsBalanced :
    (db : Db) (at : ℕ) (intent : Text) (cents : ℕ)
    → IsBalanced db
    → IsBalanced (refund_payment_intent db at intent cents)
unfolding refund_payment_intent
refund_payment_intent-IsBalanced db at intent cents b =
    elim (Option-cases (find_first (has_intent intent) db.donations)) [
      | inl e ↦ rw (e, refund_payment_intent) b
      | inr (d, e) ↦ elim (Option-cases (find_first (has_id d.player_id) db.players)) [
        | inl f ↦ rw (e, f, refund_payment_intent) b
        | inr (p, f) ↦
            rw (e, f, refund_payment_intent)
              (write_refund-IsBalanced db at intent d p (int (pos cents)) b e f)
      ]
    ]

refund_parsed-IsBalanced :
    (db : Db) (at : ℕ) (o : Option ChargeRefund)
    → IsBalanced db
    → IsBalanced (refund_parsed db at o)
unfolding refund_parsed
refund_parsed-IsBalanced db at none b = b
refund_parsed-IsBalanced db at (some r) b =
    refund_payment_intent-IsBalanced db at r.payment_intent_id r.refunded_cents b

-- Any verified Stripe event, handled with no other request in between, keeps every player's total
-- equal to the net sum of the player's donations, and every donation and supporter flag valid.
pub handle_webhook-IsBalanced :
    (js : Runtime) (db : Db) (at : ℕ) (e : Event)
    → IsBalanced db
    → IsBalanced (handle_webhook js db at e).db
unfolding handle_webhook
handle_webhook-IsBalanced js db at e b =
    elim (Bool-cases (same e.type (codes "checkout.session.completed"))) [
      | inl t ↦ rw t (credit_paid_session-IsBalanced js db at (metadata_of e.object) b)
      | inr f ↦ elim (Bool-cases (same e.type (codes "charge.refunded"))) [
        | inl t ↦
            rw (f, t)
              (refund_parsed-IsBalanced db at (parse_charge_refund (metadata_of e.object)) b)
        | inr g ↦ elim (Bool-cases (same e.type (codes "charge.dispute.closed"))) [
          | inl t ↦
              rw (f, g, t)
                (refund_parsed-IsBalanced db at (parse_lost_dispute (metadata_of e.object)) b)
          | inr k ↦ rw (f, g, k) b
        ]
      ]
    ]
