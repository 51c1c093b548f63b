-- ===== src/Scheduler/Cron.antt =====
-- Cron expressions of five fields and their next run (cron-next.ts). The local calendar of the runtime
-- is a parameter. A month counts from 1, as in the expression; times are milliseconds.
pub mod Fields
pub mod Next
use mastermind_minecraft_ser.Prelude.{
  ℕ, zero, suc, ◌+◌, ◌*◌, ◌/◌, ◌-◌, Bool, true, false, ◌&&◌, ◌||◌, not, Text, codes, same, is_space,
  trim, split_commas, prepend, Option, none, some, List, [], ◌∷◌, ◌++◌, all, any, leb, ltb, ◌==◌,
  if◌then◌else◌,
}
use mastermind_minecraft_ser.Grants.Items.{is_digit}

-- What a `Date` shows in local time.
pub record Moment : Type 0 where
  pub minute : ℕ
  pub hour : ℕ
  pub day : ℕ
  pub month : ℕ
  pub weekday : ℕ

-- the local fields of a time
pub record Calendar : Type 0 where
  pub moment : ℕ → Moment

-- `null` in the source: every value is allowed
pub data FieldSet : Type 0 where
  every : FieldSet
  only : List ℕ → FieldSet

-- the value of the digits that the text begins with, after those in `acc`
unfoldable pub leading_digits : ℕ → Text → ℕ
unfolding is_digit
leading_digits acc [] = acc
leading_digits acc (c ∷ cs) =
    let rest = leading_digits (acc * 10 + (c - b'0')) cs in if is_digit c then rest else acc

unfoldable pub unsigned : Text → Option ℕ
unfolding leading_digits is_digit
unsigned [] = none
unsigned (c ∷ cs) = if is_digit c then some (leading_digits 0 (c ∷ cs)) else none

-- -0 is 0; any other negative number is out of range and refused like NaN
unfoldable pub negated : Option ℕ → Option ℕ
negated (some zero) = some zero
negated _ = none

-- `parseInt(text, 10)`
unfoldable pub parse_int : Text → Option ℕ
unfolding unsigned negated
parse_int (c ∷ cs) =
    if c == b'-'
    then negated (unsigned cs)
    else if c == b'+'
    then unsigned cs
    else unsigned (c ∷ cs)
parse_int [] = none

unfoldable pub all_digits : Text → Option ℕ
unfolding is_digit leading_digits
all_digits [] = none
all_digits (c ∷ cs) = if all is_digit (c ∷ cs) then some (leading_digits 0 (c ∷ cs)) else none

-- `/^\*\/(\d+)$/`
unfoldable pub step_of : Text → Option ℕ
unfolding all_digits
step_of (a ∷ b ∷ cs) = if a == b'*' && b == b'/' then all_digits cs else none
step_of _ = none

-- `for (value = from; value <= max; value += amount)`, at most `fuel` rounds
unfoldable pub steps : ℕ → ℕ → ℕ → ℕ → List ℕ
steps zero value max amount = []
steps (suc fuel) value max amount = elim (leb value max) [
  | true ↦ value ∷ steps fuel (value + amount) max amount
  | false ↦ []
]

unfoldable pub in_range : ℕ → ℕ → Option ℕ → Option (List ℕ)
in_range min max none = none
in_range min max (some n) = if ltb n min || ltb max n then none else some (n ∷ [])

-- one part of a field, between the commas
unfoldable pub parse_part : ℕ → ℕ → Text → Option (List ℕ)
unfolding step_of steps in_range parse_int trim
parse_part min max s = elim (step_of s) [
  | some amount ↦
      if ltb amount 1 || ltb (max - min + 1) amount
      then none
      else some (steps (max - min + 1) min max amount)
  | none ↦ in_range min max (parse_int (trim s))
]

unfoldable pub both : Option (List ℕ) → Option (List ℕ) → Option (List ℕ)
both (some xs) (some ys) = some (xs ++ ys)
both _ _ = none

unfoldable pub parse_parts : ℕ → ℕ → List Text → Option (List ℕ)
unfolding both parse_part
parse_parts min max [] = some []
parse_parts min max (s ∷ ss) = both (parse_part min max s) (parse_parts min max ss)

unfoldable pub only_these : Option (List ℕ) → Option FieldSet
only_these none = none
only_these (some ns) = some (only ns)

-- none: the source throws
unfoldable pub parse_set : Text → ℕ → ℕ → Option FieldSet
unfolding only_these parse_parts split_commas same
parse_set str min max =
    if same str (codes "*") then some every else only_these (parse_parts min max (split_commas str))

unfoldable pub drop_empty : List Text → List Text
drop_empty ([] ∷ words) = words
drop_empty words = words

-- `split(/\s+/)` of a text without white space at its ends: a run of it ends one word
unfoldable pub words : Text → List Text
unfolding is_space prepend drop_empty
words [] = [] ∷ []
words (c ∷ s) = if is_space c then [] ∷ drop_empty (words s) else prepend c (words s)

pub record Cron : Type 0 where
  pub minutes : FieldSet
  pub hours : FieldSet
  pub days : FieldSet
  pub months : FieldSet
  pub weekdays : FieldSet

unfoldable pub make_cron :
    Option FieldSet
    → Option FieldSet
    → Option FieldSet
    → Option FieldSet
    → Option FieldSet
    → Option Cron
make_cron (some m) (some h) (some d) (some mo) (some w) =
    some (record { minutes = m; hours = h; days = d; months = mo; weekdays = w })
make_cron _ _ _ _ _ = none

unfoldable pub parse_fields : List Text → Option Cron
unfolding make_cron parse_set
parse_fields (m ∷ h ∷ d ∷ mo ∷ w ∷ []) =
    make_cron (parse_set m 0 59) (parse_set h 0 23) (parse_set d 1 31) (parse_set mo 1 12)
      (parse_set w 0 6)
parse_fields _ = none

unfoldable pub parse_cron : Text → Option Cron
unfolding parse_fields words trim
parse_cron expression = parse_fields (words (trim expression))

abbrev pub has : FieldSet → ℕ → Bool
has every n = true
has (only ns) n = any (λ m. m == n) ns

unfoldable pub is_due : Cron → Moment → Bool
is_due c t =
    has c.months t.month
    && has c.days t.day
    && has c.weekdays t.weekday
    && has c.hours t.hour
    && has c.minutes t.minute

abbrev pub minute_ms : ℕ
minute_ms = 60000

-- `setSeconds(0, 0)` and one minute more, where local time is whole minutes away from UTC
abbrev pub next_minute : ℕ → ℕ
next_minute from = from / minute_ms * minute_ms + minute_ms

abbrev pub max_iter : ℕ
max_iter = 366 * 24 * 60

-- the loop over the minutes
unfoldable pub find_run : Calendar → Cron → ℕ → ℕ → Option ℕ
unfolding is_due
find_run cal c zero t = none
find_run cal c (suc fuel) t = elim (is_due c (cal.moment t)) [
  | true ↦ some t
  | false ↦ find_run cal c fuel (t + minute_ms)
]

unfoldable pub get_next_cron_run : Calendar → Text → ℕ → Option ℕ
unfolding parse_cron find_run
get_next_cron_run cal expression from = elim (parse_cron expression) [
  | none ↦ none
  | some c ↦ find_run cal c max_iter (next_minute from)
]

-- Where the date goes: it stays, or moves to the given hour and minute of its day or of the next.
pub data Clamped : Type 0 where
  as_is : Clamped
  today tomorrow : ℕ → ℕ → Clamped

-- A window's end that is not given is none; hours and minutes are the numbers read from "HH:mm".
unfoldable pub clamp_to_execution_window : ℕ → ℕ → Option (ℕ × ℕ) → Option (ℕ × ℕ) → Clamped
clamp_to_execution_window h m none e = as_is
clamp_to_execution_window h m (some s) none = as_is
clamp_to_execution_window h m (some (sh, sm)) (some (eh, em)) =
    let start_mins = sh * 60 + sm in
    let end_mins = eh * 60 + em in
    let now_mins = h * 60 + m in
    if leb start_mins end_mins && leb start_mins now_mins && leb now_mins end_mins
    then as_is
    else if leb start_mins end_mins && ltb now_mins start_mins
    then today sh sm
    else tomorrow sh sm
