-- ===== src/Grants/Stored/Lines.antt =====
-- The items of a donation line in a column and their reading (shop-grants.ts).
use mastermind_minecraft_ser.Prelude.{
  ℕ, zero, suc, ◌≤◌, Bool, true, false, ◌≡◌, refl, ap, pos, Text, same, Option, none, some, List,
  [], ◌∷◌, All, length, take, arith,
}
use mastermind_minecraft_ser.Json.{int, Value, string, get, or_else}
use mastermind_minecraft_ser.Grants.Items.{
  Runtime, max_grant_items, parse_grant_quantity, GrantItemSpec, parse_grant_item_list,
}
use mastermind_minecraft_ser.Grants.Items.Bounds.{InRange}
use mastermind_minecraft_ser.Grants.Status.{
  GrantStatus, pending, queued, delivered, failed, other, status_text, status_of, LineGrantItem,
  snapshot_line_grants,
}
use mastermind_minecraft_ser.Grants.Stored.{
  line_item_value, line_item_values, line_items_value, error_value, read_error, capped_attempts,
  attempts_number, read_status, line_item, read_line_item, keep_read, read_line_items, column_items,
  line_grant_items,
}
use mastermind_minecraft_ser.Grants.Stored.Specs.{
  IsReadable, IsStored, quantity-again, parse_grant_item_list-IsStored,
}

abbrev pub is_known : GrantStatus → Bool
is_known (other s) = false
is_known pending = true
is_known queued = true
is_known delivered = true
is_known failed = true

abbrev pub IsShort : Option Text → Type 0
IsShort none = Unit
IsShort (some t) = length t ≤ 180

-- An item whose name and quantity are accepted, in a state that the code sets, with at most 99 attempts and
-- an error of at most 180 characters.
pub record IsStoredItem (i : LineGrantItem) : Type 0 where
  pub name : IsReadable i.name
  pub quantity : InRange i.quantity
  pub status : is_known i.status ≡ true
  pub attempts : i.attempts ≤ 99
  pub error : IsShort i.error

status-again : (s : GrantStatus) → is_known s ≡ true → read_status (string (status_text s)) ≡ s
unfolding read_status status_text status_of same
status-again pending h = refl
status-again queued h = refl
status-again delivered h = refl
status-again failed h = refl
status-again (other s) h = absurd (ground arith)

take-short : (n : ℕ) (t : Text) → length t ≤ n → take n t ≡ t
take-short zero [] h = refl
take-short zero (c ∷ t) h = absurd (omega arith)
take-short (suc n) [] h = refl
take-short (suc n) (c ∷ t) h = ap (λ (s : Text). c ∷ s) (take-short n t (omega arith))

error-again : (e : Option Text) → IsShort e → read_error (error_value e) ≡ e
unfolding read_error error_value
error-again none h = refl
error-again (some t) h = ap some (take-short 180 t h)

take-items : (n : ℕ) (is : List LineGrantItem) → length is ≤ n → take n is ≡ is
take-items zero [] h = refl
take-items zero (i ∷ is) h = absurd (omega arith)
take-items (suc n) [] h = refl
take-items (suc n) (i ∷ is) h =
    ap (λ (s : List LineGrantItem). i ∷ s) (take-items n is (omega arith))

attempts-again : (n : ℕ) → n ≤ 99 → capped_attempts (int (pos n)) ≡ n
unfolding capped_attempts
attempts-again n h = omega arith

module _ (js : Runtime) where
  item-again : (i : LineGrantItem) → IsStoredItem i → read_line_item js (line_item_value i) ≡ some i
  unfolding read_line_item line_item line_item_value get or_else parse_grant_quantity
      attempts_number
  item-again i h =
      rw
        (
          h.name.0,
          quantity-again i.quantity h.quantity,
          status-again i.status h.status,
          attempts-again i.attempts h.attempts,
          error-again i.error h.error,
        )
        refl

  items-again :
      (is : List LineGrantItem)
      → All IsStoredItem is
      → read_line_items js (line_item_values is) ≡ is
  unfolding read_line_items line_item_values keep_read
  items-again [] h = refl
  items-again (i ∷ is) h = rw (item-again i h.0, items-again is h.1) refl

  -- One to eight items that are as the code keeps them, stored as the column of a donation line, are read
  -- back as themselves, whatever the line's single item is.
  pub line_grant_items-again :
      (is : List LineGrantItem) (name : Option Text) (quantity : Option ℕ)
      → All IsStoredItem is
      → 1 ≤ length is
      → length is ≤ max_grant_items
      → line_grant_items js (line_items_value is) name quantity ≡ is
  unfolding line_grant_items line_items_value column_items
  line_grant_items-again [] name quantity h some_item short = absurd (omega arith)
  line_grant_items-again (i ∷ is) name quantity h some_item short =
      rw (items-again (i ∷ is) h, line_grant_items) (take-items max_grant_items (i ∷ is) short)

  new-IsStoredItem :
      (ss : List GrantItemSpec) → All IsStored ss → All IsStoredItem (snapshot_line_grants ss)
  unfolding snapshot_line_grants
  new-IsStoredItem [] h = tt
  new-IsStoredItem (s ∷ ss) h = (
    record { name = h.0.0; quantity = h.0.1; status = refl; attempts = omega arith; error = tt },
    new-IsStoredItem ss h.1,
  )

  -- the items of a new line are as the code keeps them
  pub snapshot_line_grants-All :
      (v : Value) (ss : List GrantItemSpec)
      → parse_grant_item_list js v ≡ some ss
      → All IsStoredItem (snapshot_line_grants ss)
  snapshot_line_grants-All v ss h = new-IsStoredItem ss (parse_grant_item_list-IsStored js v ss h)
