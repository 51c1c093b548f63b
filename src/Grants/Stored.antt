-- ===== src/Grants/Stored.antt =====
-- Grant items as JSON columns hold them, and the reading of a line's items (shop-grants.ts).
pub mod Specs
pub mod Lines
use mastermind_minecraft_ser.Prelude.{
  ℕ, zero, suc, pos, Bool, true, false, ◌||◌, Text, codes, Option, none, some, List, [], ◌∷◌, take,
  min, if◌then◌else◌,
}
use mastermind_minecraft_ser.Json.{
  JsNumber, int, Value, undefined, null, bool, number, string, array, object, Items, nil, cons,
  Fields, end, field, get, or_else,
}
use mastermind_minecraft_ser.Grants.Items.{
  GrantItemSpec, Runtime, max_grant_items, parse_grant_item_name, parse_grant_quantity,
  parse_grant_item_list, grant_specs_from_fields,
}
use mastermind_minecraft_ser.Grants.Status.{
  GrantStatus, pending, status_text, status_of, LineGrantItem, snapshot_line_grants,
}

unfoldable pub spec_value : GrantItemSpec → Value
spec_value s =
    object (field "name" (string s.name) (field "quantity" (number (int (pos s.quantity))) end))

unfoldable pub spec_values : List GrantItemSpec → Items
unfolding spec_value
spec_values [] = nil
spec_values (s ∷ ss) = cons (spec_value s) (spec_values ss)

-- a list of specs as a JSON column
unfoldable pub specs_value : List GrantItemSpec → Value
unfolding spec_values
specs_value ss = array (spec_values ss)

unfoldable pub error_value : Option Text → Value
error_value none = null
error_value (some t) = string t

unfoldable pub line_item_value : LineGrantItem → Value
unfolding status_text error_value
line_item_value i = object (
    field "name" (string i.name) (
      field "quantity" (number (int (pos i.quantity))) (
        field "status" (string (status_text i.status)) (
          field "attempts" (number (int (pos i.attempts)))
            (field "error" (error_value i.error) end)))))

unfoldable pub line_item_values : List LineGrantItem → Items
unfolding line_item_value
line_item_values [] = nil
line_item_values (i ∷ is) = cons (line_item_value i) (line_item_values is)

-- the items of a line as a JSON column
unfoldable pub line_items_value : List LineGrantItem → Value
unfolding line_item_values
line_items_value is = array (line_item_values is)

-- `Number.isInteger(n) && n >= 0 ? Math.min(n, 99) : 0`
unfoldable pub capped_attempts : JsNumber → ℕ
capped_attempts (int (pos n)) = min n 99
capped_attempts _ = 0

-- `Number(value)`
unfoldable pub attempts_number : Runtime → Value → JsNumber
attempts_number js (number n) = n
attempts_number js (string t) = js.to_number t
attempts_number js (bool b) = int (pos (if b then 1 else 0))
attempts_number js null = int (pos 0)
attempts_number js undefined = JsNumber.nan
attempts_number js v = js.to_number (js.to_string v)

unfoldable pub read_status : Value → GrantStatus
unfolding status_of
read_status (string (c ∷ t)) = status_of (c ∷ t)
read_status _ = pending

unfoldable pub read_error : Value → Option Text
read_error (string t) = some (take 180 t)
read_error _ = none

unfoldable pub line_item : Runtime → Fields → Option Text → Option ℕ → Option LineGrantItem
unfolding read_status capped_attempts attempts_number read_error get
line_item js fs none quantity = none
line_item js fs (some name) none = none
line_item js fs (some name) (some quantity) = some (record {
  name = name;
  quantity = quantity;
  status = read_status (get fs "status");
  attempts = capped_attempts (attempts_number js (get fs "attempts"));
  error = read_error (get fs "error");
})

-- A row that cannot be read is passed over.
unfoldable pub read_line_item : Runtime → Value → Option LineGrantItem
unfolding line_item parse_grant_item_name parse_grant_quantity or_else get
read_line_item js (object fs) =
    line_item js fs
      (parse_grant_item_name
        (or_else (or_else (get fs "name") (get fs "itemName")) (get fs "grantItemName")))
      (parse_grant_quantity js (or_else (get fs "quantity") (get fs "grantQuantity")) 1)
read_line_item js _ = none

unfoldable pub keep_read : Option LineGrantItem → List LineGrantItem → List LineGrantItem
keep_read none is = is
keep_read (some i) is = i ∷ is

unfoldable pub read_line_items : Runtime → Items → List LineGrantItem
unfolding keep_read read_line_item
read_line_items js nil = []
read_line_items js (cons x xs) = keep_read (read_line_item js x) (read_line_items js xs)

-- the value of a column that may hold JSON as a text
unfoldable pub column_items : Runtime → Value → Items
column_items js (array xs) = xs
column_items js (string t) = elim (js.json_parse t) [ some (array xs) ↦ xs | _ ↦ nil ]
column_items js _ = nil

unfoldable pub or_no_specs : Option (List GrantItemSpec) → List GrantItemSpec
or_no_specs none = []
or_no_specs (some ss) = ss

unfoldable pub text_value : Option Text → Value
text_value none = null
text_value (some t) = string t

unfoldable pub count_value : Option ℕ → Value
count_value none = null
count_value (some n) = number (int (pos n))

-- The items of the column, at most eight; without one, the line's single item.
unfoldable pub line_grant_items : Runtime → Value → Option Text → Option ℕ → List LineGrantItem
unfolding read_line_items column_items or_no_specs text_value count_value snapshot_line_grants
    grant_specs_from_fields
line_grant_items js raw name quantity = elim (read_line_items js (column_items js raw)) [
  | i ∷ is ↦ take max_grant_items (i ∷ is)
  | [] ↦
      snapshot_line_grants
        (or_no_specs (grant_specs_from_fields js (text_value name) (count_value quantity)))
]
