-- ===== src/Grants/Items/Bounds.antt =====
-- What every accepted grant item satisfies: its name is a short printable word, its quantity is in
-- range, and a list holds at most eight.
use mastermind_minecraft_ser.Prelude.{
  ℕ, suc, ◌≤◌, Bool, true, false, ◌≡◌, ◌≢◌, ◌||◌, pos, Text, codes, trim, map, to_lower, same,
  same_iff, Option, none, some, List, [], ◌∷◌, all, All, length, arith, ap, refl, if◌then◌else◌,
}
use mathlib.Core.Path.{subst}
use mathlib.Core.Option.{some-injective}
use mastermind_minecraft_ser.Json.{
  JsNumber, int, Value, undefined, null, bool, number, string, array, object, Items, nil, cons, get,
  or_else, item_count,
}
use mastermind_minecraft_ser.Grants.Items.{
  GrantItemSpec, Runtime, Row, skip, refuse, item, max_grant_quantity, max_grant_items, is_letter,
  is_name_char, is_grant_item_name, is_all, is_blank, parse_grant_item_name, whole_quantity,
  parse_grant_quantity, checked_row, read_row, parse_row, push, parse_rows, parse_array,
  parse_json_text, parse_grant_item_list,
}

-- printable ASCII
abbrev pub IsPrintable : ℕ → Type 0
IsPrintable c = (32 ≤ c) × (c ≤ 126)

abbrev pub IsLine : ℕ → Text → Type 0
IsLine n t = All IsPrintable t × (length t ≤ n)

pub all-All :
    (p : ℕ → Bool) (t : Text)
    → ((c : ℕ) → p c ≡ true → IsPrintable c)
    → all p t ≡ true
    → All IsPrintable t
all-All p [] f h = tt
all-All p (c ∷ t) f h = (f c (ground arith), all-All p t f (ground arith))

name_char-IsPrintable : (c : ℕ) → is_name_char c ≡ true → IsPrintable c
unfolding is_name_char
name_char-IsPrintable c h = ground arith

letter-IsPrintable : (c : ℕ) → is_letter c ≡ true → IsPrintable c
unfolding is_letter
letter-IsPrintable c h = ground arith

item_name-IsLine : (t : Text) → is_grant_item_name t ≡ true → IsLine 80 t
unfolding is_grant_item_name
item_name-IsLine [] h = absurd (ground arith)
item_name-IsLine (c ∷ t) h = (
  (
    letter-IsPrintable c (ground arith),
    all-All is_name_char t name_char-IsPrintable (ground arith),
  ),
  ground arith,
)

-- A name that is accepted is printable, at most 80 characters long, and no spelling of "all".
abbrev pub IsItemName : Text → Type 0
IsItemName t = All IsPrintable t × (length t ≤ 80) × (map to_lower t ≢ codes "all")

abbrev pub InRange : ℕ → Type 0
InRange q = (1 ≤ q) × (q ≤ max_grant_quantity)

abbrev pub IsSpec : GrantItemSpec → Type 0
IsSpec s = IsItemName s.name × InRange s.quantity

not_all : (t : Text) → is_all t ≡ false → map to_lower t ≢ codes "all"
unfolding is_all
not_all t h e = cc (h, (same_iff (map to_lower t) (codes "all")).1 e)

pub parse_grant_item_name-IsItemName :
    (v : Value) (t : Text) → parse_grant_item_name v ≡ some t → IsItemName t
unfolding parse_grant_item_name
parse_grant_item_name-IsItemName (string raw) t h =
    let valid : is_grant_item_name t ≡ true = ground arith in
    let own : is_all t ≡ false = ground arith in
    let (chars, short) = item_name-IsLine t valid in (chars, short, not_all t own)
parse_grant_item_name-IsItemName _ t h = absurd (ground arith)

whole_quantity-InRange : (n : JsNumber) (q : ℕ) → whole_quantity n ≡ some q → InRange q
unfolding whole_quantity
whole_quantity-InRange (int (pos n)) q h = ground arith
whole_quantity-InRange _ q h = absurd (ground arith)

item_or : GrantItemSpec → Row → GrantItemSpec
item_or d (item s) = s
item_or d _ = d

item-injective : {a b : GrantItemSpec} → item a ≡ item b → a ≡ b
unfolding item_or
item-injective {a} h = ap (item_or a) h

unless_blank :
    (b : Bool) (r : Row) (s : GrantItemSpec) → (if b then skip else r) ≡ item s → r ≡ item s
unless_blank b r s h = ground arith

checked_row-IsSpec :
    (n : Option Text) (q : Option ℕ) (s : GrantItemSpec)
    → ((t : Text) → n ≡ some t → IsItemName t)
    → ((k : ℕ) → q ≡ some k → InRange k)
    → checked_row n q ≡ item s
    → IsSpec s
unfolding checked_row
checked_row-IsSpec (some t) (some k) s hn hq h =
    subst IsSpec (item-injective h) (hn t refl, hq k refl)
checked_row-IsSpec none q s hn hq h = absurd (ground arith)
checked_row-IsSpec (some t) none s hn hq h = absurd (ground arith)

module _ (js : Runtime) where
  pub parse_grant_quantity-InRange :
      (v : Value) (fallback q : ℕ)
      → InRange fallback
      → parse_grant_quantity js v fallback ≡ some q
      → InRange q
  unfolding parse_grant_quantity
  parse_grant_quantity-InRange undefined d q r h = ground arith
  parse_grant_quantity-InRange null d q r h = ground arith
  parse_grant_quantity-InRange (string []) d q r h = ground arith
  parse_grant_quantity-InRange (number n) d q r h = whole_quantity-InRange n q h
  parse_grant_quantity-InRange (string (c ∷ t)) d q r h =
      whole_quantity-InRange (js.to_number (trim (c ∷ t))) q (ground arith)
  parse_grant_quantity-InRange _ d q r h = absurd (ground arith)

  read_row-IsSpec :
      (name quantity : Value) (s : GrantItemSpec) → read_row js name quantity ≡ item s → IsSpec s
  unfolding read_row
  read_row-IsSpec name quantity s h =
      checked_row-IsSpec (parse_grant_item_name name) (parse_grant_quantity js quantity 1) s
        (parse_grant_item_name-IsItemName name)
        (λ k. parse_grant_quantity-InRange quantity 1 k (omega arith))
        (unless_blank (is_blank name) _ s h)

  pub parse_row-IsSpec : (v : Value) (s : GrantItemSpec) → parse_row js v ≡ item s → IsSpec s
  unfolding parse_row
  parse_row-IsSpec (object fs) s h =
      read_row-IsSpec
        (or_else (or_else (get fs "name") (get fs "itemName")) (get fs "grantItemName"))
        (or_else (get fs "quantity") (get fs "grantQuantity")) s h
  parse_row-IsSpec _ s h = absurd (ground arith)

  push-All :
      (P : GrantItemSpec → Type 0) (r : Row) (rest : Option (List GrantItemSpec))
      (is : List GrantItemSpec)
      → ((s : GrantItemSpec) → r ≡ item s → P s)
      → ((js : List GrantItemSpec) → rest ≡ some js → All P js)
      → push r rest ≡ some is
      → All P is
  unfolding push
  push-All P skip rest is hr hs h = hs is h
  push-All P (item s) (some js) is hr hs h =
      subst (All P) (some-injective _ _ h) (hr s refl, hs js refl)
  push-All P (item s) none is hr hs h = absurd (ground arith)
  push-All P refuse rest is hr hs h = absurd (ground arith)

  -- what holds of every row that is read holds of the list
  pub parse_rows-All :
      (P : GrantItemSpec → Type 0) (xs : Items) (is : List GrantItemSpec)
      → ((v : Value) (s : GrantItemSpec) → parse_row js v ≡ item s → P s)
      → parse_rows js xs ≡ some is
      → All P is
  unfolding parse_rows
  parse_rows-All P nil is hr h = subst (All P) (some-injective _ _ h) tt
  parse_rows-All P (cons x xs) is hr h =
      push-All P (parse_row js x) (parse_rows js xs) is (hr x) (λ k. parse_rows-All P xs k hr) h

  length-push :
      (r : Row) (rest : Option (List GrantItemSpec)) (is : List GrantItemSpec) (n : ℕ)
      → ((js : List GrantItemSpec) → rest ≡ some js → length js ≤ n)
      → push r rest ≡ some is
      → length is ≤ suc n
  unfolding push
  length-push skip rest is n hs h = omega (arith, hs is h)
  length-push (item s) (some js) is n hs h =
      subst (λ l. length l ≤ suc n) (some-injective _ _ h) (omega (arith, hs js refl))
  length-push (item s) none is n hs h = absurd (ground arith)
  length-push refuse rest is n hs h = absurd (ground arith)

  length-parse_rows :
      (xs : Items) (is : List GrantItemSpec)
      → parse_rows js xs ≡ some is
      → length is ≤ item_count xs
  unfolding parse_rows item_count
  length-parse_rows nil is h = subst (λ l. length l ≤ 0) (some-injective _ _ h) (omega arith)
  length-parse_rows (cons x xs) is h =
      length-push (parse_row js x) (parse_rows js xs) is (item_count xs) (length-parse_rows xs) h

  abbrev Accepted : List GrantItemSpec → Type 0
  Accepted is = (length is ≤ max_grant_items) × All IsSpec is

  parse_array-Accepted :
      (v : Value) (is : List GrantItemSpec) → parse_array js v ≡ some is → Accepted is
  unfolding parse_array
  parse_array-Accepted (array xs) is h =
      let rows : parse_rows js xs ≡ some is = ground arith in
      (
        ground (arith, length-parse_rows xs is rows),
        parse_rows-All IsSpec xs is parse_row-IsSpec rows,
      )
  parse_array-Accepted _ is h = absurd (ground arith)

  empty-Accepted : (is : List GrantItemSpec) → some [] ≡ some is → Accepted is
  empty-Accepted is h = subst Accepted (some-injective _ _ h) (omega arith)

  text-Accepted :
      (b : Bool) (v : Option Value) (is : List GrantItemSpec)
      → (if b then some [] else parse_json_text js v) ≡ some is
      → Accepted is
  unfolding parse_json_text
  text-Accepted true v is h = empty-Accepted is h
  text-Accepted false none is h = absurd (ground arith)
  text-Accepted false (some v) is h = parse_array-Accepted v is h

  -- An accepted list, whatever the value it was read from, has at most eight items; each name is
  -- printable, at most 80 characters long and not "all", each quantity is between 1 and 9999.
  pub parse_grant_item_list-Accepted :
      (v : Value) (is : List GrantItemSpec)
      → parse_grant_item_list js v ≡ some is
      → (length is ≤ max_grant_items) × All IsSpec is
  unfolding parse_grant_item_list
  parse_grant_item_list-Accepted undefined is h = empty-Accepted is h
  parse_grant_item_list-Accepted null is h = empty-Accepted is h
  parse_grant_item_list-Accepted (string raw) is h =
      text-Accepted (same (trim raw) [] || same (trim raw) (codes "[]")) (js.json_parse (trim raw))
        is h
  parse_grant_item_list-Accepted (array xs) is h = parse_array-Accepted (array xs) is h
  parse_grant_item_list-Accepted (bool b) is h = parse_array-Accepted (bool b) is h
  parse_grant_item_list-Accepted (number n) is h = parse_array-Accepted (number n) is h
  parse_grant_item_list-Accepted (object fs) is h = parse_array-Accepted (object fs) is h
