-- ===== src/Json.antt =====
-- JavaScript values, as request bodies, webhook objects and JSON columns hold them.
use text.Mathlib.Text.{◌==◌ as str_eq}
use mastermind_minecraft_ser.Prelude.{ℕ, suc, ℤ, Bool, Text, String, if◌then◌else◌}

-- An integer, any other finite number with its integer part (towards zero), or NaN.
pub data JsNumber : Type 0 where
  int : ℤ → JsNumber
  fraction : ℤ → JsNumber
  nan : JsNumber

mutual
  pub data Value : Type 0 where
    undefined : Value
    null : Value
    bool : Bool → Value
    number : JsNumber → Value
    string : Text → Value
    array : Items → Value
    object : Fields → Value

  pub data Items : Type 0 where
    nil : Items
    cons : Value → Items → Items

  pub data Fields : Type 0 where
    end : Fields
    field : String → Value → Fields → Fields

-- `record.key`; the names in an object are distinct.
unfoldable pub get : Fields → String → Value
get end k = undefined
get (field j v fs) k = if str_eq j k then v else get fs k

-- `a ?? b`
unfoldable pub or_else : Value → Value → Value
or_else undefined b = b
or_else null b = b
or_else a b = a

unfoldable pub item_count : Items → ℕ
item_count nil = 0
item_count (cons x xs) = suc (item_count xs)
