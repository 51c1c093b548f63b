-- ===== src/Donations/Webhook/Races.antt =====
-- Two credits that run at the same time, events that come again, and players without a Steam id.
use mathlib.Core.Path.{subst}
use mathlib.Core.Option.{some-injective}
use mastermind_minecraft_ser.Prelude.{
  ℕ, ◌+◌, false, ◌≡◌, refl, sym, ap, ◌∙◌, Text, same, same_iff, none, some, List, [], ◌∷◌, arith,
  Option-cases, inl, inr, find_first, update_first, total, find_first-update_first_self,
}
use mastermind_minecraft_ser.Grants.Items.{Runtime}
use mastermind_minecraft_ser.Donations.Stripe.{Paid}
use mastermind_minecraft_ser.Donations.Webhook.{
  PlayerRow, DonationRow, Db, Pending, has_id, has_session, matching, begin_credit, set_ledger,
  committed, commit_credit, credit_session,
}
use mastermind_minecraft_ser.Donations.Webhook.Balance.{
  IsBalanced, owed, begin_credit-IsReady, own_id, owed_self,
}

commit_credit-seen :
    (db : Db) (w : Pending) (d : DonationRow)
    → find_first (has_session w.row.ledger.session_id) db.donations ≡ some d
    → commit_credit w db ≡ db
unfolding commit_credit
commit_credit-seen db w d h = rw (h, commit_credit) refl

commit_credit-fresh :
    (db : Db) (w : Pending)
    → find_first (has_session w.row.ledger.session_id) db.donations ≡ none
    → commit_credit w db ≡ committed w db
unfolding commit_credit
commit_credit-fresh db w h = rw (h, commit_credit) refl

first_row :
    (w w' : Pending)
    → w.row.ledger.session_id ≡ w'.row.ledger.session_id
    → (ds : List DonationRow)
    → find_first (has_session w'.row.ledger.session_id) (w.row ∷ ds) ≡ some w.row
unfolding find_first
first_row w w' e ds = rw ((same_iff w.row.ledger.session_id w'.row.ledger.session_id).1 e) refl

-- Two deliveries of one session, however far both have come before either is written, write it once.
pub commit_credit-once :
    (db : Db) (w w' : Pending)
    → w.row.ledger.session_id ≡ w'.row.ledger.session_id
    → commit_credit w' (commit_credit w db) ≡ commit_credit w db
unfolding committed
commit_credit-once db w w' e =
    elim (Option-cases (find_first (has_session w.row.ledger.session_id) db.donations)) [
      | inl new ↦
          let first = commit_credit-fresh db w new in
          ap (commit_credit w') first
          ∙ commit_credit-seen (committed w db) w' w.row (first_row w w' e db.donations)
          ∙ sym first
      | inr (d, old) ↦
          let first = commit_credit-seen db w d old in
          ap (commit_credit w') first ∙ commit_credit-seen db w' d (rw (← e) old) ∙ sym first
    ]

begin_credit-new :
    (js : Runtime) (db : Db) (at : ℕ) (paid : Paid) (w : Pending)
    → begin_credit js db at paid ≡ some w
    → find_first (has_session paid.session_id) db.donations ≡ none
unfolding begin_credit
begin_credit-new js db at paid w h =
    elim (Option-cases (find_first (has_session paid.session_id) db.donations)) [
      | inl new ↦ new
      | inr (d, old) ↦
          elim (Option-cases (matching paid (find_first (has_id paid.player_id) db.players))) [
            | inl e ↦ absurd (ground arith)
            | inr (p, e) ↦ absurd (ground arith)
          ]
    ]

-- A credit of a session that is there already changes nothing and sets nothing off.
credit_session-old :
    (js : Runtime) (db : Db) (at : ℕ) (paid : Paid) (d : DonationRow)
    → find_first (has_session paid.session_id) db.donations ≡ some d
    → credit_session js db at paid ≡ record { db = db; effects = [] }
unfolding credit_session
credit_session-old js db at paid d old = elim (Option-cases (begin_credit js db at paid)) [
  | inl e ↦ rw (e, credit_session) refl
  | inr (w, e) ↦ absurd (cc (old, begin_credit-new js db at paid w e))
]

-- A paid checkout whose player has no Steam id is dropped: no donation, no credit, no grant.
pub credit_session-no_steam :
    (js : Runtime) (db : Db) (at : ℕ) (paid : Paid) (p : PlayerRow)
    → find_first (has_id paid.player_id) db.players ≡ some p
    → p.steam_id ≡ none
    → credit_session js db at paid ≡ record { db = db; effects = [] }
unfolding credit_session begin_credit matching
credit_session-no_steam js db at paid p f s = ground arith

-- two sessions of one player that are both read before either is written
module _ (js : Runtime) (db : Db) (at at' : ℕ) (paid paid' : Paid) (w w' : Pending)
    (balanced : IsBalanced db) (begun : begin_credit js db at paid ≡ some w)
    (begun' : begin_credit js db at' paid' ≡ some w') (player : paid'.player_id ≡ paid.player_id)
    (distinct : same paid.session_id paid'.session_id ≡ false) where
  found : find_first (has_id paid.player_id) db.players ≡ some w.player
  found =
      let (ready, this) = begin_credit-IsReady js db at paid w begun in
      subst (λ (q : Paid). find_first (has_id q.player_id) db.players ≡ some w.player) this
        ready.player_found

  found' : find_first (has_id paid.player_id) db.players ≡ some w'.player
  found' =
      let (ready, this) = begin_credit-IsReady js db at' paid' w' begun' in
      subst (λ (i : Text). find_first (has_id i) db.players ≡ some w'.player) player
        (subst (λ (q : Paid). find_first (has_id q.player_id) db.players ≡ some w'.player) this
          ready.player_found)

  session_of : w.row.ledger.session_id ≡ paid.session_id
  session_of =
      let (ready, this) = begin_credit-IsReady js db at paid w begun in
      ready.session ∙ ap (λ (q : Paid). q.session_id) this

  session_of' : w'.row.ledger.session_id ≡ paid'.session_id
  session_of' =
      let (ready, this) = begin_credit-IsReady js db at' paid' w' begun' in
      ready.session ∙ ap (λ (q : Paid). q.session_id) this

  new' : find_first (has_session w'.row.ledger.session_id) (committed w db).donations ≡ none
  unfolding committed find_first
  new' =
      let ne : same w.row.ledger.session_id w'.row.ledger.session_id ≡ false =
        rw (session_of, session_of') distinct in
      rw ne (
        subst (λ (s : Text). find_first (has_session s) db.donations ≡ none) (sym session_of')
          (begin_credit-new js db at' paid' w' begun'))

  both : commit_credit w' (commit_credit w db) ≡ committed w' (committed w db)
  both =
      ap (commit_credit w')
        (commit_credit-fresh db w (rw session_of (begin_credit-new js db at paid w begun)))
      ∙ commit_credit-fresh (committed w db) w' new'

  twice_written :
      {a b : Text}
      → a ≡ paid.player_id
      → b ≡ paid.player_id
      → find_first (has_id paid.player_id) (
          update_first
            (has_id b)
            (set_ledger w'.credit.player)
            (update_first (has_id a) (set_ledger w.credit.player) db.players))
        ≡ some (set_ledger w'.credit.player (set_ledger w.credit.player w.player))
  twice_written e f =
      rw (e, f)
        (find_first-update_first_self (has_id paid.player_id) (set_ledger w'.credit.player) _ _
          (λ x. refl)
          (find_first-update_first_self (has_id paid.player_id) (set_ledger w.credit.player)
            db.players w.player (λ x. refl) found))

  last_player :
      find_first (has_id paid.player_id) (committed w' (committed w db)).players
      ≡ some (set_ledger w'.credit.player (set_ledger w.credit.player w.player))
  unfolding committed
  last_player =
      twice_written (own_id db.players paid.player_id w.player found)
        (own_id db.players paid.player_id w'.player found')

  sums :
      total (owed paid.player_id) (committed w' (committed w db)).donations
      ≡ w'.credit.player.total_donated_cents + paid.amount_cents
  unfolding committed
  sums =
      let (ready, this) = begin_credit-IsReady js db at paid w begun in
      let (ready', this') = begin_credit-IsReady js db at' paid' w' begun' in
      let own = own_id db.players paid.player_id w.player found in
      let own' = own_id db.players paid.player_id w'.player found' in
      omega (
        arith,
        owed_self w'.row (w.row ∷ db.donations) paid.player_id (ready'.row_player ∙ own'),
        owed_self w.row db.donations paid.player_id (ready.row_player ∙ own),
        ready.amount,
        ready'.amount,
        ready'.total_after,
        ap (λ (q : Paid). q.amount_cents) this,
        (balanced.totals paid.player_id w'.player found').0,
      )

  -- From balanced tables, when both credits have been read before either is written and the player
  -- and the sessions are as stated, the player's total is short of the donations by `paid`'s amount.
  pub commit_credit-lost_update :
      (p : PlayerRow)
      → find_first (has_id paid.player_id) (commit_credit w' (commit_credit w db)).players ≡ some p
      → p.ledger.total_donated_cents + paid.amount_cents
        ≡ total (owed paid.player_id) (commit_credit w' (commit_credit w db)).donations
  commit_credit-lost_update p h =
      let e : set_ledger w'.credit.player (set_ledger w.credit.player w.player) ≡ p =
        some-injective _ _ (sym last_player ∙ rw both at h) in
      rw (both, ← e) (sym sums)
