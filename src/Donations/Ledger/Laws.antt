-- ===== src/Donations/Ledger/Laws.antt =====
-- What one credit or refund does to a donation and to its player's total.
use mastermind_minecraft_ser.Prelude.{
  ℕ, ◌+◌, ◌-◌, ◌≤◌, ◌<◌, min, max, Bool, true, false, ◌≡◌, ap, sym, ◌∙◌, none, some, arith, ltb,
  leb, if◌then◌else◌,
}
use mastermind_minecraft_ser.Json.{JsNumber}
use mastermind_minecraft_ser.Donations.Ledger.{
  DonationStatus, completed, refunded, LedgerDonation, LedgerPlayer, SessionInput,
  credit_completed_session, apply_charge_refund, trunc, refunded_player, refunded_donation,
  next_refunded,
}

abbrev pub is_refunded : DonationStatus → Bool
is_refunded completed = false
is_refunded refunded = true

-- No more is refunded than was paid, and the status says whether all of it was.
pub record IsDonation (d : LedgerDonation) : Type 0 where
  pub paid : 0 < d.amount_cents
  pub within : d.refunded_cents ≤ d.amount_cents
  pub settled : is_refunded d.status ≡ leb d.amount_cents d.refunded_cents

-- A player is a supporter exactly while the total is above 0, and only then has a start time.
pub record IsPlayer (p : LedgerPlayer) : Type 0 where
  pub flag : p.supporter ≡ ltb 0 p.total_donated_cents
  pub since : p.supporter_since ≡ none → p.total_donated_cents ≡ 0
  pub no_since : p.total_donated_cents ≡ 0 → p.supporter_since ≡ none

-- what is left of a donation
abbrev pub net : LedgerDonation → ℕ
net d = d.amount_cents - d.refunded_cents

-- A credit that is applied makes a valid donation of the whole amount, keeps the player valid and
-- raises the total by the donation's net amount; one that is not applied leaves the player alone.
pub credit-IsValid :
    (input : SessionInput) (p : LedgerPlayer) (at : ℕ)
    → IsPlayer p
    → let c = credit_completed_session none input p at in
      IsPlayer c.player
      × (c.applied ≡ true → IsDonation c.donation)
      × (c.player.total_donated_cents
          ≡ p.total_donated_cents + (if c.applied then net c.donation else 0))
unfolding credit_completed_session
credit-IsValid input p at v = ground arith

-- After a refund event the donation's refund is the greater of the old refund and the one reported,
-- at most the amount; the player's total falls by exactly what the donation's net amount falls,
-- and both stay valid, provided that the total covers the donation's net amount.
pub refund-IsValid :
    (d d' : LedgerDonation) (cents : JsNumber) (p : LedgerPlayer)
    → IsDonation d
    → IsPlayer p
    → net d ≤ p.total_donated_cents
    → (apply_charge_refund (some d) cents p).donation ≡ some d'
    → let r = apply_charge_refund (some d) cents p in
      IsDonation d'
      × IsPlayer r.player
      × (d'.refunded_cents ≡ min d.amount_cents (max d.refunded_cents (trunc cents)))
      × (r.player.total_donated_cents + net d ≡ p.total_donated_cents + net d')
unfolding apply_charge_refund
refund-IsValid d d' cents p v w c e = ground arith

-- a refund event in closed form, whether or not it is applied
refund-closed :
    (d : LedgerDonation) (a : JsNumber) (p : LedgerPlayer)
    → IsDonation d
    → IsPlayer p
    → net d ≤ p.total_donated_cents
    → let r = apply_charge_refund (some d) a p in
      let next = next_refunded d (trunc a) in
      (r.donation ≡ some (refunded_donation d next))
      × (r.player ≡ refunded_player p (next - d.refunded_cents))
unfolding apply_charge_refund
refund-closed d a p v w c = (ground arith, ground arith)

refunded-IsValid :
    (d : LedgerDonation) (n : ℕ) (p : LedgerPlayer)
    → IsDonation d
    → IsPlayer p
    → net d ≤ p.total_donated_cents
    → let next = next_refunded d n in
      IsDonation (refunded_donation d next)
      × IsPlayer (refunded_player p (next - d.refunded_cents))
      × (net (refunded_donation d next)
          ≤ (refunded_player p (next - d.refunded_cents)).total_donated_cents)
unfolding next_refunded refunded_donation refunded_player
refunded-IsValid d n p v w c = (ground arith, ground arith, ground arith)

refunded_donation_twice :
    (d : LedgerDonation) (m n : ℕ)
    → IsDonation d
    → refunded_donation
        (refunded_donation d (next_refunded d m))
        (next_refunded (refunded_donation d (next_refunded d m)) n)
      ≡ refunded_donation d (next_refunded d (max m n))
unfolding next_refunded refunded_donation
refunded_donation_twice d m n v = ground arith

refunded_player_twice :
    (d : LedgerDonation) (m n : ℕ) (p : LedgerPlayer)
    → IsDonation d
    → net d ≤ p.total_donated_cents
    → let d' = refunded_donation d (next_refunded d m) in
      refunded_player
        (refunded_player p (next_refunded d m - d.refunded_cents))
        (next_refunded d' n - d'.refunded_cents)
      ≡ refunded_player p (next_refunded d (max m n) - d.refunded_cents)
unfolding next_refunded refunded_donation refunded_player
refunded_player_twice d m n p v c = ground arith

-- Two refund events of one donation act as one event with the greater amount.
refund_twice :
    (d : LedgerDonation) (a b : JsNumber) (p : LedgerPlayer)
    → IsDonation d
    → IsPlayer p
    → net d ≤ p.total_donated_cents
    → let first = apply_charge_refund (some d) a p in
      let ab = apply_charge_refund first.donation b first.player in
      let next = next_refunded d (max (trunc a) (trunc b)) in
      (ab.donation ≡ some (refunded_donation d next))
      × (ab.player ≡ refunded_player p (next - d.refunded_cents))
refund_twice d a b p v w c =
    let (e, f) = refund-closed d a p v w c in
    let (v', w', c') = refunded-IsValid d (trunc a) p v w c in
    let (g, h) = refund-closed _ b _ v' w' c' in
    rw (e, f)
      (
        g ∙ ap some (refunded_donation_twice d (trunc a) (trunc b) v),
        h ∙ refunded_player_twice d (trunc a) (trunc b) p v c,
      )

-- Refund events of one donation may come in either order: the donation and the player end up the
-- same, provided that the total covers the donation's net amount.
pub refund_comm :
    (d : LedgerDonation) (a b : JsNumber) (p : LedgerPlayer)
    → IsDonation d
    → IsPlayer p
    → net d ≤ p.total_donated_cents
    → let first = apply_charge_refund (some d) a p in
      let second = apply_charge_refund (some d) b p in
      let ab = apply_charge_refund first.donation b first.player in
      let ba = apply_charge_refund second.donation a second.player in
      (ab.donation ≡ ba.donation) × (ab.player ≡ ba.player)
refund_comm d a b p v w c =
    let order : max (trunc a) (trunc b) ≡ max (trunc b) (trunc a) = omega arith in
    let (e, f) = refund_twice d a b p v w c in
    let (g, h) = refund_twice d b a p v w c in
    (
      e ∙ ap (λ (n : ℕ). some (refunded_donation d (next_refunded d n))) order ∙ sym g,
      f ∙ ap (λ (n : ℕ). refunded_player p (next_refunded d n - d.refunded_cents)) order ∙ sym h,
    )
