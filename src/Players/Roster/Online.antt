-- ===== src/Players/Roster/Online.antt =====
-- After a roster exactly its players are online.
use mathlib.Core.Path.{subst}
use mastermind_minecraft_ser.Prelude.{
  ℕ, Bool, true, false, ◌&&◌, ◌||◌, not, ◌≡◌, refl, sym, ◌∙◌, Text, same, same_iff, same_refl,
  Option, some, List, [], ◌∷◌, All, any, find_first, update_first, update_many, arith, Bool-cases,
  Option-cases, inl, inr,
}
use mastermind_minecraft_ser.Players.Parse.{PlayerRosterRow, name_key}
use mastermind_minecraft_ser.Players.Store.{PlayerRow, Db, has_identity, remove_first}
use mastermind_minecraft_ser.Players.Identity.{
  is_name_key, promoted, merged, merge_players, reconcile_name_fallback,
}
use mastermind_minecraft_ser.Players.Roster.{
  Incoming, seen_player, apply_known, apply_new, upsert_player, apply_row, apply_rows, is_seen,
  is_missing, logged_out, apply_player_roster,
}

-- the player of the key is online
abbrev pub is_online : Text → PlayerRow → Bool
is_online k p = p.online && same p.identity_key k

abbrev pub has_online : Text → List PlayerRow → Bool
has_online k players = any (is_online k) players

any-update_first :
    (q p : PlayerRow → Bool) (f : PlayerRow → PlayerRow) (xs : List PlayerRow)
    → ((x : PlayerRow) → p x ≡ true → q x ≡ true → q (f x) ≡ true)
    → any q xs ≡ true
    → any q (update_first p f xs) ≡ true
unfolding update_first
any-update_first q p f [] keep h = h
any-update_first q p f (x ∷ xs) keep h = ground (arith, keep x, any-update_first q p f xs keep)

any-remove_first :
    (q p : PlayerRow → Bool) (xs : List PlayerRow)
    → ((x : PlayerRow) → p x ≡ true → q x ≡ false)
    → any q xs ≡ true
    → any q (remove_first p xs) ≡ true
unfolding remove_first
any-remove_first q p [] apart h = h
any-remove_first q p (x ∷ xs) apart h = ground (arith, apart x, any-remove_first q p xs apart)

any-written :
    (q p : PlayerRow → Bool) (f : PlayerRow → PlayerRow) (xs : List PlayerRow) (x : PlayerRow)
    → ((y : PlayerRow) → p y ≡ true → q (f y) ≡ true)
    → find_first p xs ≡ some x
    → any q (update_first p f xs) ≡ true
unfolding find_first update_first
any-written q p f [] x holds h = absurd (ground arith)
any-written q p f (y ∷ ys) x holds h = ground (arith, holds y, any-written q p f ys x holds)

-- another key than the bare name's
other_key :
    (k fk : Text) (x : PlayerRow)
    → same fk k ≡ false
    → has_identity fk x ≡ true
    → is_online k x ≡ false
other_key k fk x ne h =
    ground (arith, same_iff x.identity_key fk, same_iff x.identity_key k, same_iff fk k)

merged-online :
    (steam : Option Text) (f c : PlayerRow) (k : Text)
    → is_online k c ≡ true
    → is_online k (merged steam f c) ≡ true
unfolding merged
merged-online steam f c k h = ground arith

reconcile-online :
    (db : Db) (key fk : Text) (steam : Option Text) (k : Text)
    → (is_name_key key || not (same fk k)) ≡ true
    → has_online k db.players ≡ true
    → has_online k (reconcile_name_fallback db key fk steam).players ≡ true
unfolding reconcile_name_fallback merge_players
reconcile-online db key fk steam k ok_key h = elim (Bool-cases (is_name_key key)) [
  | inl bare ↦ rw (bare, reconcile_name_fallback) h
  | inr stable ↦
      let ne : same fk k ≡ false = ground arith in
      elim (Option-cases (find_first (has_identity fk) db.players)) [
        | inl nothing ↦ rw (stable, nothing, reconcile_name_fallback) h
        | inr (fallback, found) ↦ elim (Option-cases (find_first (has_identity key) db.players)) [
          | inl first ↦
              rw (stable, found, first, reconcile_name_fallback)
                (any-update_first (is_online k) (has_identity fk) (promoted key steam) db.players
                  (λ x p q. absurd (ground (arith, other_key k fk x ne p))) h)
          | inr (canonical, known) ↦
              rw (stable, found, known, reconcile_name_fallback)
                (any-remove_first (is_online k) (has_identity fk) _ (λ x p. other_key k fk x ne p)
                  (any-update_first (is_online k) (has_identity key) (merged steam fallback)
                    db.players (λ x p q. merged-online steam fallback x k q) h))
        ]
      ]
]

seen_player-online :
    (now : ℕ) (row : PlayerRosterRow) (p : PlayerRow) (k : Text)
    → is_online k (seen_player now row p) ≡ same p.identity_key k
unfolding seen_player
seen_player-online now row p k = refl

upsert-keeps :
    (db : Db) (now id : ℕ) (row : PlayerRosterRow) (k : Text)
    → has_online k db.players ≡ true
    → has_online k (upsert_player db now id row).db.players ≡ true
unfolding upsert_player apply_known apply_new
upsert-keeps db now id row k h =
    elim (Option-cases (find_first (has_identity row.identity_key) db.players)) [
      | inl first ↦ rw (first, upsert_player) (ground arith)
      | inr (p, known) ↦
          let kept =
            any-update_first (is_online k) (has_identity row.identity_key) (seen_player now row)
              db.players (λ x o q. ground (arith, seen_player-online now row x k)) h in
          elim (Bool-cases p.online) [
            | inl on ↦ rw (known, upsert_player, on, apply_known) kept
            | inr off ↦ rw (known, upsert_player, off, apply_known) kept
          ]
    ]

upsert-own :
    (db : Db) (now id : ℕ) (row : PlayerRosterRow)
    → has_online row.identity_key (upsert_player db now id row).db.players ≡ true
unfolding upsert_player apply_known apply_new
upsert-own db now id row =
    elim (Option-cases (find_first (has_identity row.identity_key) db.players)) [
      | inl first ↦ rw (first, upsert_player, same_refl row.identity_key) refl
      | inr (p, known) ↦
          let there =
            any-written (is_online row.identity_key) (has_identity row.identity_key)
              (seen_player now row) db.players p
              (λ y o. ground (arith, seen_player-online now row y row.identity_key)) known in
          elim (Bool-cases p.online) [
            | inl on ↦ rw (known, upsert_player, on, apply_known) there
            | inr off ↦ rw (known, upsert_player, off, apply_known) there
          ]
    ]

-- A row with a stable key does not stand beside a row of its bare name.
abbrev pub NoTwin : (Text → Text) → List Incoming → Incoming → Type 0
NoTwin lower is i =
    (is_name_key i.row.identity_key || not (is_seen is (name_key (lower i.row.name)))) ≡ true

-- a key of the roster is not the bare name's of a row with a stable key
twin_free :
    (lower : Text → Text) (all : List Incoming) (i : Incoming) (k : Text)
    → NoTwin lower all i
    → is_seen all k ≡ true
    → (is_name_key i.row.identity_key || not (same (name_key (lower i.row.name)) k)) ≡ true
twin_free lower all i k free seen = elim (Bool-cases (same (name_key (lower i.row.name)) k)) [
  | inr apart ↦ rw apart (ground arith)
  | inl twin ↦
      let seen' : is_seen all (name_key (lower i.row.name)) ≡ true =
        subst (λ (x : Text). is_seen all x ≡ true)
          (sym ((same_iff (name_key (lower i.row.name)) k).0 twin)) seen in
      ground arith
]

apply_rows-online :
    (lower : Text → Text) (all : List Incoming) (db : Db) (now : ℕ) (is : List Incoming) (k : Text)
    → All (NoTwin lower all) is
    → is_seen all k ≡ true
    → (has_online k db.players || is_seen is k) ≡ true
    → has_online k (apply_rows lower db now is).db.players ≡ true
unfolding apply_rows apply_row is_seen
apply_rows-online lower all db now [] k free seen h = ground arith
apply_rows-online lower all db now (i ∷ is) k free seen h =
    apply_rows-online lower all (apply_row lower db now i).db now is k free.1 seen next
  where
    reconciled : Db
    reconciled =
        reconcile_name_fallback db i.row.identity_key (name_key (lower i.row.name)) i.row.steam_id

    next : (has_online k (apply_row lower db now i).db.players || is_seen is k) ≡ true
    next = elim (Bool-cases (has_online k db.players)) [
      | inl was ↦
          rw
            (upsert-keeps reconciled now i.id i.row k (
              reconcile-online db i.row.identity_key (name_key (lower i.row.name)) i.row.steam_id k
                (twin_free lower all i k free.0 seen) was))
            refl
      | inr off ↦ elim (Bool-cases (same i.row.identity_key k)) [
        | inl own ↦
            rw
              (subst
                (λ (x : Text).
                  has_online x (upsert_player reconciled now i.id i.row).db.players ≡ true)
                ((same_iff i.row.identity_key k).0 own) (upsert-own reconciled now i.id i.row))
              refl
        | inr other ↦ ground arith
      ]
    ]

logged_out-offline : (now : ℕ) (p : PlayerRow) (k : Text) → is_online k (logged_out now p) ≡ false
unfolding logged_out
logged_out-offline now p k = refl

-- who stays online when the missing players are logged out
logout-online :
    (is : List Incoming) (now : ℕ) (k : Text) (players : List PlayerRow)
    → has_online k (update_many (is_missing is) (logged_out now) players)
      ≡ (has_online k players && is_seen is k)
unfolding update_many
logout-online is now k [] = refl
logout-online is now k (p ∷ ps) = elim (Bool-cases (same p.identity_key k)) [
  | inl own ↦
      let e : is_seen is p.identity_key ≡ is_seen is k =
        rw ((same_iff p.identity_key k).0 own) refl in
      ground (arith, logout-online is now k ps, logged_out-offline now p k)
  | inr other ↦ ground (arith, logout-online is now k ps, logged_out-offline now p k)
]

-- After a roster has been applied, a player is online exactly if the roster has a row with the
-- player's key, whoever was online before, provided that no row with a stable key stands beside a
-- row of its bare name.
pub apply_player_roster-online :
    (lower : Text → Text) (db : Db) (now : ℕ) (is : List Incoming) (k : Text)
    → All (NoTwin lower is) is
    → has_online k (apply_player_roster lower db now is).db.players ≡ is_seen is k
unfolding apply_player_roster
apply_player_roster-online lower db now is k free =
    logout-online is now k (apply_rows lower db now is).db.players
    ∙ elim (Bool-cases (is_seen is k)) [
      | inl seen ↦
          let on = apply_rows-online lower is db now is k free seen (ground arith) in
          rw (on, seen) refl
      | inr gone ↦ ground arith
    ]
