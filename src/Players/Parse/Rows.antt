-- ===== src/Players/Parse/Rows.antt =====
-- What every row of a roster satisfies.
use mathlib.Core.Path.{subst}
use mathlib.Core.Option.{some-injective}
use mastermind_minecraft_ser.Prelude.{
  ℕ, zero, suc, ◌≤◌, ◌<◌, true, ◌≡◌, ◌⊎◌, inl, inr, refl, Text, same, take, some, List, [], ◌∷◌,
  All, length, ltb, arith, Bool-cases,
}
use mastermind_minecraft_ser.Prelude.Trim.{All-append}
use mastermind_minecraft_ser.Json.{
  Value, undefined, null, bool, number, string, array, object, Items, nil, cons, get,
}
use mastermind_minecraft_ser.Grants.Items.{Runtime}
use mastermind_minecraft_ser.Grants.Command.{is_uuid}
use mastermind_minecraft_ser.Players.Parse.{
  PlayerRosterRow, name_key, uuid_key, key_of, row_of, rows_of, all_rows, listed,
  parse_minecraft_roster, first_text,
}

-- A name of 1 to 16 characters, and a key that is made of it or of a UUID.
pub record IsRow (lower : Text → Text) (r : PlayerRosterRow) : Type 0 where
  pub named : 0 < length r.name
  pub short : length r.name ≤ 16
  pub keyed :
      (r.identity_key ≡ name_key (lower r.name))
      ⊎ ((u : Text) × (is_uuid u ≡ true) × (r.identity_key ≡ uuid_key (lower u)))

key_of-cases :
    (lower : Text → Text) (name u : Text)
    → (key_of lower name u ≡ name_key (lower name))
      ⊎ ((v : Text) × (is_uuid v ≡ true) × (key_of lower name u ≡ uuid_key (lower v)))
unfolding key_of
key_of-cases lower name u = elim (Bool-cases (is_uuid u)) [
  | inl hex ↦ inr (u, hex, rw (hex, key_of) refl)
  | inr plain ↦ inl (rw (plain, key_of) refl)
]

row_of-IsRow : (lower : Text → Text) (name u : Text) → All (IsRow lower) (row_of lower name u)
unfolding row_of same
row_of-IsRow lower [] u = tt
row_of-IsRow lower (c ∷ name) u = elim (Bool-cases (ltb 16 (length (c ∷ name)))) [
  | inl long ↦ rw (long, row_of) tt
  | inr short ↦
      rw (short, row_of)
        (
          record {
            named = omega arith;
            short = ground arith;
            keyed = key_of-cases lower (c ∷ name) u;
          },
          tt,
        )
]

rows_of-IsRow :
    (js : Runtime) (lower : Text → Text) (v : Value) → All (IsRow lower) (rows_of js lower v)
unfolding rows_of
rows_of-IsRow js lower (object fs) =
    row_of-IsRow lower
      (first_text js
        (get fs "name" ∷ get fs "player" ∷ get fs "username" ∷ get fs "displayName" ∷ []))
      (first_text js (get fs "uuid" ∷ get fs "id" ∷ get fs "playerUuid" ∷ []))
rows_of-IsRow js lower undefined = tt
rows_of-IsRow js lower null = tt
rows_of-IsRow js lower (bool b) = tt
rows_of-IsRow js lower (number n) = tt
rows_of-IsRow js lower (string t) = tt
rows_of-IsRow js lower (array xs) = tt

all_rows-IsRow :
    (js : Runtime) (lower : Text → Text) (xs : Items) → All (IsRow lower) (all_rows js lower xs)
unfolding all_rows
all_rows-IsRow js lower nil = tt
all_rows-IsRow js lower (cons x xs) =
    All-append (IsRow lower) (rows_of js lower x) (all_rows js lower xs) (rows_of-IsRow js lower x)
      (all_rows-IsRow js lower xs)

All-take : {A : Type 0} (P : A → Type 0) (n : ℕ) (xs : List A) → All P xs → All P (take n xs)
All-take P zero xs h = tt
All-take P (suc n) [] h = tt
All-take P (suc n) (x ∷ xs) h = (h.0, All-take P n xs h.1)

length-take_le : {A : Type 0} (n : ℕ) (xs : List A) → length (take n xs) ≤ n
length-take_le zero xs = omega arith
length-take_le (suc n) [] = omega arith
length-take_le (suc n) (x ∷ xs) = omega (arith, length-take_le n xs)

listed-IsRow :
    (js : Runtime) (lower : Text → Text) (v : Value) (rows : List PlayerRosterRow)
    → listed js lower v ≡ some rows
    → (length rows ≤ 256) × All (IsRow lower) rows
unfolding listed
listed-IsRow js lower (array xs) rows h =
    subst (λ (rs : List PlayerRosterRow). (length rs ≤ 256) × All (IsRow lower) rs)
      (some-injective (take 256 (all_rows js lower xs)) rows h)
      (
        length-take_le 256 (all_rows js lower xs),
        All-take (IsRow lower) 256 (all_rows js lower xs) (all_rows-IsRow js lower xs),
      )
listed-IsRow js lower undefined rows h = absurd (ground arith)
listed-IsRow js lower null rows h = absurd (ground arith)
listed-IsRow js lower (bool b) rows h = absurd (ground arith)
listed-IsRow js lower (number n) rows h = absurd (ground arith)
listed-IsRow js lower (string t) rows h = absurd (ground arith)
listed-IsRow js lower (object fs) rows h = absurd (ground arith)

-- A roster that is read has at most 256 rows, each with a name of 1 to 16 characters and a key that
-- is made of the name or of a UUID.
pub parse_minecraft_roster-IsRow :
    (js : Runtime) (lower : Text → Text) (v : Value) (rows : List PlayerRosterRow)
    → parse_minecraft_roster js lower v ≡ some rows
    → (length rows ≤ 256) × All (IsRow lower) rows
unfolding parse_minecraft_roster
parse_minecraft_roster-IsRow js lower (object fs) rows h =
    listed-IsRow js lower (get fs "players") rows h
parse_minecraft_roster-IsRow js lower undefined rows h = listed-IsRow js lower undefined rows h
parse_minecraft_roster-IsRow js lower null rows h = listed-IsRow js lower null rows h
parse_minecraft_roster-IsRow js lower (bool b) rows h = listed-IsRow js lower (bool b) rows h
parse_minecraft_roster-IsRow js lower (number n) rows h = listed-IsRow js lower (number n) rows h
parse_minecraft_roster-IsRow js lower (string t) rows h = listed-IsRow js lower (string t) rows h
parse_minecraft_roster-IsRow js lower (array xs) rows h = listed-IsRow js lower (array xs) rows h
