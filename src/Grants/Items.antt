-- ===== src/Grants/Items.antt =====
-- Reading grant items from untrusted input (shop-grants.ts).
pub mod Bounds
use mastermind_minecraft_ser.Prelude.{
  ℕ, zero, suc, ◌+◌, pos, Bool, true, false, ◌&&◌, ◌||◌, not, Text, codes, trim, same, to_lower,
  Option, none, some, List, [], ◌∷◌, map, all, length, ltb, leb, ◌==◌, if◌then◌else◌,
}
use mastermind_minecraft_ser.Json.{
  JsNumber, int, Value, undefined, null, number, string, array, object, Items, nil, cons, get,
  or_else, item_count,
}

abbrev pub max_grant_quantity : ℕ
max_grant_quantity = 9999

abbrev pub max_grant_attempts : ℕ
max_grant_attempts = 8

abbrev pub max_grant_items : ℕ
max_grant_items = 8

pub record GrantItemSpec : Type 0 where
  pub name : Text
  pub quantity : ℕ

unfoldable pub is_letter : ℕ → Bool
is_letter c = (leb b'A' c && leb c b'Z') || (leb b'a' c && leb c b'z')

unfoldable pub is_digit : ℕ → Bool
is_digit c = leb b'0' c && leb c b'9'

-- `[A-Za-z0-9_.:-]`
unfoldable pub is_name_char : ℕ → Bool
unfolding is_letter is_digit
is_name_char c = is_letter c || is_digit c || c == b'_' || c == b'.' || c == b':' || c == b'-'

-- GRANT_ITEM_NAME
unfoldable pub is_grant_item_name : Text → Bool
unfolding is_name_char
is_grant_item_name [] = false
is_grant_item_name (c ∷ rest) = is_letter c && all is_name_char rest && leb (length rest) 79

-- `/^all$/i`
unfoldable pub is_all : Text → Bool
unfolding to_lower same
is_all name = same (map to_lower name) (codes "all")

unfoldable pub parse_grant_item_name : Value → Option Text
unfolding trim is_grant_item_name is_all
parse_grant_item_name (string raw) =
    let name = trim raw in
    if not (is_grant_item_name name) then none else if is_all name then none else some name
parse_grant_item_name _ = none

-- the tests at the end of `parseGrantQuantity`
unfoldable pub whole_quantity : JsNumber → Option ℕ
whole_quantity (int (pos n)) = if ltb n 1 || ltb max_grant_quantity n then none else some n
whole_quantity _ = none

-- A row's item name is missing, or `String(nameRaw).trim()` is empty. An array prints its elements
-- with commas between them, and null and undefined elements as nothing.
unfoldable pub is_blank : Value → Bool
unfolding trim same
is_blank undefined = true
is_blank null = true
is_blank (string t) = same (trim t) []
is_blank (array nil) = true
is_blank (array (cons x nil)) = is_blank x
is_blank _ = false

-- What the code takes from the runtime: `Number(text)`, `String(value)` and `JSON.parse`.
pub record Runtime : Type 0 where
  pub to_number : Text → JsNumber
  pub to_string : Value → Text
  pub json_parse : Text → Option Value

-- One row of the list: skipped, refused or read.
pub data Row : Type 0 where
  skip : Row
  refuse : Row
  item : GrantItemSpec → Row

unfoldable pub checked_row : Option Text → Option ℕ → Row
checked_row none q = refuse
checked_row (some name) none = refuse
checked_row (some name) (some q) = item (record { name = name; quantity = q })

unfoldable pub push : Row → Option (List GrantItemSpec) → Option (List GrantItemSpec)
push refuse rest = none
push skip rest = rest
push (item i) none = none
push (item i) (some is) = some (i ∷ is)

unfoldable pub single_spec : Option Text → Option ℕ → Option (List GrantItemSpec)
single_spec none q = some []
single_spec (some name) none = none
single_spec (some name) (some q) = some (record { name = name; quantity = q } ∷ [])

module _ (js : Runtime) where
  unfoldable pub parse_grant_quantity : Value → ℕ → Option ℕ
  unfolding whole_quantity trim same
  parse_grant_quantity undefined fallback = some fallback
  parse_grant_quantity null fallback = some fallback
  parse_grant_quantity (string []) fallback = some fallback
  parse_grant_quantity (number n) fallback = whole_quantity n
  parse_grant_quantity (string raw) fallback =
      if same (trim raw) [] then none else whole_quantity (js.to_number (trim raw))
  parse_grant_quantity _ fallback = none

  unfoldable pub read_row : Value → Value → Row
  unfolding is_blank checked_row parse_grant_item_name parse_grant_quantity
  read_row name_raw quantity_raw =
      if is_blank name_raw
      then skip
      else checked_row (parse_grant_item_name name_raw) (parse_grant_quantity quantity_raw 1)

  -- An array is an object without these fields.
  unfoldable pub parse_row : Value → Row
  unfolding get or_else read_row
  parse_row (object fs) =
      read_row (or_else (or_else (get fs "name") (get fs "itemName")) (get fs "grantItemName"))
        (or_else (get fs "quantity") (get fs "grantQuantity"))
  parse_row (array xs) = skip
  parse_row _ = refuse

  -- the loop over the rows; `none` is the source's `false`
  unfoldable pub parse_rows : Items → Option (List GrantItemSpec)
  unfolding push parse_row
  parse_rows nil = some []
  parse_rows (cons x xs) = push (parse_row x) (parse_rows xs)

  unfoldable pub parse_array : Value → Option (List GrantItemSpec)
  unfolding parse_rows item_count
  parse_array (array xs) = if ltb max_grant_items (item_count xs) then none else parse_rows xs
  parse_array _ = none

  unfoldable pub parse_json_text : Option Value → Option (List GrantItemSpec)
  unfolding parse_array
  parse_json_text none = none
  parse_json_text (some v) = parse_array v

  unfoldable pub parse_grant_item_list : Value → Option (List GrantItemSpec)
  unfolding parse_json_text trim same
  parse_grant_item_list undefined = some []
  parse_grant_item_list null = some []
  parse_grant_item_list (string raw) =
      let t = trim raw in
      if same t [] || same t (codes "[]") then some [] else parse_json_text (js.json_parse t)
  parse_grant_item_list v = parse_array v

  -- `grantSpecsFromFields` where no list is given
  unfoldable pub grant_specs_from_fields : Value → Value → Option (List GrantItemSpec)
  unfolding parse_grant_item_name parse_grant_quantity single_spec
  grant_specs_from_fields item_name quantity =
      single_spec (parse_grant_item_name item_name) (parse_grant_quantity quantity 1)
