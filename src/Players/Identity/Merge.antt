-- ===== src/Players/Identity/Merge.antt =====
-- A merge keeps the playtime and loses the donations.
use mastermind_minecraft_ser.Prelude.{
  ℕ, ◌+◌, Bool, true, false, ◌≡◌, refl, sym, ◌∙◌, Text, same_iff, starts_with, Option, some, List,
  [], ◌∷◌, find_first, update_first, total, total-update_first, find_first-update_first, arith,
  Bool-cases, Option-cases, inl, inr,
}
use mastermind_minecraft_ser.Players.Parse.{name_key}
use mastermind_minecraft_ser.Players.Store.{PlayerRow, Db, has_identity, remove_first}
use mastermind_minecraft_ser.Players.Identity.{
  is_name_key, promoted, merged, merge_players, reconcile_name_fallback,
}

total-remove_first :
    (g : PlayerRow → ℕ) (p : PlayerRow → Bool) (xs : List PlayerRow) (x : PlayerRow)
    → find_first p xs ≡ some x
    → total g (remove_first p xs) + g x ≡ total g xs
unfolding find_first remove_first total
total-remove_first g p [] x h = absurd (ground arith)
total-remove_first g p (y ∷ ys) x h = elim (Bool-cases (p y)) [
  | inl here ↦ rw here (ground arith)
  | inr on ↦ rw on (ground (arith, total-remove_first g p ys x))
]

pub name_key-is_name_key : (t : Text) → is_name_key (name_key t) ≡ true
unfolding starts_with
name_key-is_name_key t = refl

-- a key of a name is no stable key
pub apart :
    (key t : Text) (x : PlayerRow)
    → is_name_key key ≡ false
    → has_identity (name_key t) x ≡ true
    → has_identity key x ≡ false
apart key t x stable h = elim (Bool-cases (has_identity key x)) [
  | inr other ↦ other
  | inl this ↦
      let e : name_key t ≡ key =
        sym ((same_iff x.identity_key (name_key t)).0 h) ∙ (same_iff x.identity_key key).0 this in
      absurd (cc (stable, name_key-is_name_key t, e))
]

merged-identity :
    (steam : Option Text) (f c : PlayerRow) → (merged steam f c).identity_key ≡ c.identity_key
unfolding merged
merged-identity steam f c = refl

module _ (db : Db) (key t : Text) (steam : Option Text) (fallback canonical : PlayerRow)
    (stable : is_name_key key ≡ false)
    (found : find_first (has_identity (name_key t)) db.players ≡ some fallback)
    (known : find_first (has_identity key) db.players ≡ some canonical) where
  still_found :
      find_first
        (has_identity (name_key t))
        (update_first (has_identity key) (merged steam fallback) db.players)
      ≡ some fallback
  still_found =
      find_first-update_first (has_identity key) (has_identity (name_key t)) (merged steam fallback)
        db.players (λ x. rw (merged-identity steam fallback x) refl) (λ x h. apart key t x stable h)
      ∙ found

  total-merged :
      (g : PlayerRow → ℕ)
      → total g (merge_players db key (name_key t) steam fallback canonical).players
          + g fallback
          + g canonical
        ≡ total g db.players + g (merged steam fallback canonical)
  unfolding merge_players
  total-merged g =
      let updated = update_first (has_identity key) (merged steam fallback) db.players in
      omega (
        arith,
        total-remove_first g (has_identity (name_key t)) updated fallback still_found,
        total-update_first g (has_identity key) (merged steam fallback) db.players canonical known,
      )

  merge-lifetime :
      total
        (λ p. p.lifetime_seconds)
        (merge_players db key (name_key t) steam fallback canonical).players
      ≡ total (λ p. p.lifetime_seconds) db.players
  unfolding merged
  merge-lifetime = ground (arith, total-merged (λ p. p.lifetime_seconds))

  merge-donations :
      total
          (λ p. p.total_donated_cents)
          (merge_players db key (name_key t) steam fallback canonical).players
        + fallback.total_donated_cents
      ≡ total (λ p. p.total_donated_cents) db.players
  unfolding merged
  merge-donations = ground (arith, total-merged (λ p. p.total_donated_cents))

-- Reconciling a player with an earlier row of the bare name keeps the sum of the playtimes of all
-- players, whether the row is left, promoted or merged.
pub reconcile_name_fallback-lifetime :
    (db : Db) (key t : Text) (steam : Option Text)
    → total (λ p. p.lifetime_seconds) (reconcile_name_fallback db key (name_key t) steam).players
      ≡ total (λ p. p.lifetime_seconds) db.players
unfolding reconcile_name_fallback
reconcile_name_fallback-lifetime db key t steam = elim (Bool-cases (is_name_key key)) [
  | inl bare ↦ rw (bare, reconcile_name_fallback) refl
  | inr stable ↦ elim (Option-cases (find_first (has_identity (name_key t)) db.players)) [
    | inl nothing ↦ rw (stable, nothing, reconcile_name_fallback) refl
    | inr (fallback, found) ↦ elim (Option-cases (find_first (has_identity key) db.players)) [
      | inl first ↦
          rw (stable, found, first, reconcile_name_fallback)
            (omega (
              arith,
              total-update_first (λ p. p.lifetime_seconds) (has_identity (name_key t))
                  (promoted key steam) db.players fallback found,
            ))
      | inr (canonical, known) ↦
          rw (stable, found, known, reconcile_name_fallback)
            (merge-lifetime db key t steam fallback canonical stable found known)
    ]
  ]
]

-- When both a row with the stable key and an earlier row of the bare name are there, the earlier row's
-- donated total is lost: what the players have donated in all falls by it.
pub reconcile_name_fallback-donations :
    (db : Db) (key t : Text) (steam : Option Text) (fallback canonical : PlayerRow)
    → is_name_key key ≡ false
    → find_first (has_identity (name_key t)) db.players ≡ some fallback
    → find_first (has_identity key) db.players ≡ some canonical
    → total (λ p. p.total_donated_cents) (reconcile_name_fallback db key (name_key t) steam).players
        + fallback.total_donated_cents
      ≡ total (λ p. p.total_donated_cents) db.players
unfolding reconcile_name_fallback
reconcile_name_fallback-donations db key t steam fallback canonical stable found known =
    rw (stable, found, known, reconcile_name_fallback)
      (merge-donations db key t steam fallback canonical stable found known)
