-- ===== src/Grants/Stored/Specs.antt =====
-- Lists of grant items in a column and their reading (shop-grants.ts).
use mastermind_minecraft_ser.Prelude.{
  ℕ, suc, Bool, true, false, ◌||◌, ◌≡◌, refl, ap, pos, Text, codes, trim, same, is_space, Option,
  none, some, List, [], ◌∷◌, all, All, length, ltb, arith, if◌then◌else◌,
}
use mastermind_minecraft_ser.Prelude.Split.{IsTight, trim-tight}
use mastermind_minecraft_ser.Json.{
  int, Value, undefined, null, bool, number, string, array, object, get, or_else, item_count,
}
use mastermind_minecraft_ser.Grants.Items.{
  GrantItemSpec, Runtime, Row, skip, item, max_grant_items, is_letter, is_digit, is_name_char,
  is_grant_item_name, is_all, is_blank, parse_grant_item_name, whole_quantity, parse_grant_quantity,
  checked_row, read_row, parse_row, push, parse_rows, parse_array, parse_json_text,
  parse_grant_item_list,
}
use mastermind_minecraft_ser.Grants.Items.Bounds.{
  parse_rows-All, parse_row-IsSpec, parse_grant_item_list-Accepted, InRange,
}
use mastermind_minecraft_ser.Grants.Stored.{spec_value, spec_values, specs_value}

-- An item name that is read as itself.
abbrev pub IsReadable : Text → Type 0
IsReadable t = (parse_grant_item_name (string t) ≡ some t) × (same (trim t) [] ≡ false)

name_char-no_space : (c : ℕ) → is_name_char c ≡ true → is_space c ≡ false
unfolding is_name_char is_letter is_digit is_space
name_char-no_space c h = ground arith

letter-no_space : (c : ℕ) → is_letter c ≡ true → is_space c ≡ false
unfolding is_letter is_space
letter-no_space c h = ground arith

name_chars-IsTight : (t : Text) → all is_name_char t ≡ true → IsTight t
name_chars-IsTight [] h = tt
name_chars-IsTight (c ∷ t) h =
    (name_char-no_space c (ground arith), name_chars-IsTight t (ground arith))

name-IsTight : (t : Text) → is_grant_item_name t ≡ true → IsTight t
unfolding is_grant_item_name
name-IsTight [] h = tt
name-IsTight (c ∷ t) h = (letter-no_space c (ground arith), name_chars-IsTight t (ground arith))

name-filled : (t : Text) → is_grant_item_name t ≡ true → same t [] ≡ false
unfolding is_grant_item_name same
name-filled [] h = absurd (ground arith)
name-filled (c ∷ t) h = refl

valid-IsReadable : (t : Text) → is_grant_item_name t ≡ true → is_all t ≡ false → IsReadable t
unfolding parse_grant_item_name
valid-IsReadable t valid own =
    let e = trim-tight t (name-IsTight t valid) in
    (rw (e, valid, own) refl, rw e (name-filled t valid))

pub parse_grant_item_name-IsReadable :
    (v : Value) (t : Text) → parse_grant_item_name v ≡ some t → IsReadable t
unfolding parse_grant_item_name
parse_grant_item_name-IsReadable (string raw) t h = valid-IsReadable t (ground arith) (ground arith)
parse_grant_item_name-IsReadable _ t h = absurd (ground arith)

-- A spec that is read as itself.
abbrev pub IsStored : GrantItemSpec → Type 0
IsStored s = IsReadable s.name × InRange s.quantity

pub quantity-again : (q : ℕ) → InRange q → whole_quantity (int (pos q)) ≡ some q
unfolding whole_quantity
quantity-again q h = ground arith

row_name : Row → Text
row_name (item s) = s.name
row_name _ = []

checked_row-name :
    (n : Option Text) (q : Option ℕ) (s : GrantItemSpec)
    → checked_row n q ≡ item s
    → n ≡ some s.name
unfolding checked_row row_name
checked_row-name none q s h = absurd (ground arith)
checked_row-name (some t) none s h = absurd (ground arith)
checked_row-name (some t) (some k) s h = ap some (ap row_name h)

unless_skip :
    (b : Bool) (r : Row) (s : GrantItemSpec) → (if b then skip else r) ≡ item s → r ≡ item s
unless_skip b r s h = ground arith

module _ (js : Runtime) where
  row-IsStored : (v : Value) (s : GrantItemSpec) → parse_row js v ≡ item s → IsStored s
  unfolding parse_row read_row
  row-IsStored (object fs) s h =
      let nv = or_else (or_else (get fs "name") (get fs "itemName")) (get fs "grantItemName") in
      let qv = or_else (get fs "quantity") (get fs "grantQuantity") in
      (
        parse_grant_item_name-IsReadable nv s.name (
            checked_row-name (parse_grant_item_name nv) (parse_grant_quantity js qv 1) s
              (unless_skip (is_blank nv) _ s h)),
        (parse_row-IsSpec js (object fs) s h).1,
      )
  row-IsStored _ s h = absurd (ground arith)

  array-IsStored :
      (v : Value) (is : List GrantItemSpec) → parse_array js v ≡ some is → All IsStored is
  unfolding parse_array
  array-IsStored (array xs) is h = parse_rows-All js IsStored xs is row-IsStored (ground arith)
  array-IsStored _ is h = absurd (ground arith)

  empty-IsStored : (is : List GrantItemSpec) → some [] ≡ some is → All IsStored is
  empty-IsStored [] h = tt
  empty-IsStored (i ∷ is) h = absurd (ground arith)

  text-IsStored :
      (b : Bool) (v : Option Value) (is : List GrantItemSpec)
      → (if b then some [] else parse_json_text js v) ≡ some is
      → All IsStored is
  unfolding parse_json_text
  text-IsStored true v is h = empty-IsStored is h
  text-IsStored false none is h = absurd (ground arith)
  text-IsStored false (some v) is h = array-IsStored v is h

  pub parse_grant_item_list-IsStored :
      (v : Value) (is : List GrantItemSpec) → parse_grant_item_list js v ≡ some is → All IsStored is
  unfolding parse_grant_item_list
  parse_grant_item_list-IsStored undefined is h = empty-IsStored is h
  parse_grant_item_list-IsStored null is h = empty-IsStored is h
  parse_grant_item_list-IsStored (string raw) is h =
      text-IsStored (same (trim raw) [] || same (trim raw) (codes "[]")) (js.json_parse (trim raw))
        is h
  parse_grant_item_list-IsStored (array xs) is h = array-IsStored (array xs) is h
  parse_grant_item_list-IsStored (bool b) is h = array-IsStored (bool b) is h
  parse_grant_item_list-IsStored (number n) is h = array-IsStored (number n) is h
  parse_grant_item_list-IsStored (object fs) is h = array-IsStored (object fs) is h

  spec-again : (s : GrantItemSpec) → IsStored s → parse_row js (spec_value s) ≡ item s
  unfolding parse_row read_row spec_value get or_else is_blank parse_grant_quantity checked_row
  spec-again s h = rw (h.0.0, h.0.1, quantity-again s.quantity h.1) refl

  specs-again :
      (ss : List GrantItemSpec) → All IsStored ss → parse_rows js (spec_values ss) ≡ some ss
  unfolding parse_rows spec_values push
  specs-again [] h = refl
  specs-again (s ∷ ss) h = rw (spec-again s h.0, specs-again ss h.1) refl

  item_count-spec_values : (ss : List GrantItemSpec) → item_count (spec_values ss) ≡ length ss
  unfolding item_count spec_values
  item_count-spec_values [] = refl
  item_count-spec_values (s ∷ ss) = ap (λ (n : ℕ). suc n) (item_count-spec_values ss)

  -- A list of grant items that is accepted, whatever it was read from, and stored as a JSON column is read
  -- back from the column as itself.
  pub parse_grant_item_list-again :
      (v : Value) (is : List GrantItemSpec)
      → parse_grant_item_list js v ≡ some is
      → parse_grant_item_list js (specs_value is) ≡ some is
  unfolding parse_grant_item_list specs_value parse_array
  parse_grant_item_list-again v is h =
      let short : ltb max_grant_items (length is) ≡ false =
        ground (arith, (parse_grant_item_list-Accepted js v is h).0) in
      rw (item_count-spec_values is, short) (specs-again is (parse_grant_item_list-IsStored v is h))
