-- ===== src/Grants/Command/Safety.antt =====
-- Every command that the shop builds is one printable line of bounded length.
use mastermind_minecraft_ser.Prelude.{
  ℕ, zero, suc, ◌+◌, ◌*◌, ◌/◌, ◌%◌, ◌≤◌, ◌<◌, true, ◌≡◌, refl, Text, Option, none, some, [], ◌∷◌,
  ◌++◌, All, length, length-append, codes, arith, lt→ltb, Bool-cases, inl, inr, ltb,
}
use mathlib.Core.Path.{subst}
use mathlib.Core.Option.{some-injective}
use mastermind_minecraft_ser.Prelude.Trim.{All-append}
use mastermind_minecraft_ser.Json.{Value}
use mastermind_minecraft_ser.Grants.Items.Bounds.{
  IsPrintable, IsLine, IsItemName, InRange, all-All, parse_grant_item_name-IsItemName,
  parse_grant_quantity-InRange,
}
use mastermind_minecraft_ser.Grants.Items.{
  Runtime, max_grant_quantity, parse_grant_item_name, parse_grant_quantity,
}
use mastermind_minecraft_ser.Grants.Command.{
  decimal, decimal_digits, is_player_name, is_player_char, is_uuid, is_uuid_char,
  grant_player_target, give, complete, build_give_command,
}

player_char-IsPrintable : (c : ℕ) → is_player_char c ≡ true → IsPrintable c
unfolding is_player_char
player_char-IsPrintable c h = ground arith

uuid_char-IsPrintable : (c : ℕ) → is_uuid_char c ≡ true → IsPrintable c
unfolding is_uuid_char
uuid_char-IsPrintable c h = ground arith

player_name-IsLine : (t : Text) → is_player_name t ≡ true → IsLine 36 t
unfolding is_player_name
player_name-IsLine t h =
    (all-All is_player_char t player_char-IsPrintable (ground arith), ground arith)

uuid-IsLine : (t : Text) → is_uuid t ≡ true → IsLine 36 t
unfolding is_uuid
uuid-IsLine t h = (all-All is_uuid_char t uuid_char-IsPrintable (ground arith), ground arith)

pow10 : ℕ → ℕ
pow10 zero = 1
pow10 (suc k) = 10 * pow10 k

digit-IsLine : (n m : ℕ) (acc : Text) → IsLine m acc → IsLine (suc m) ((b'0' + n % 10) ∷ acc)
digit-IsLine n m acc l = ((omega arith, l.0), omega arith)

IsLine-le : (m k : ℕ) (t : Text) → m ≤ k → IsLine m t → IsLine k t
IsLine-le m k t h l = (l.0, omega arith)

decimal_digits-IsLine :
    (fuel k n m : ℕ) (acc : Text)
    → n < 10 * pow10 k
    → IsLine m acc
    → IsLine (m + suc k) (decimal_digits fuel n acc)
unfolding decimal_digits pow10
decimal_digits-IsLine zero k n m acc h l = IsLine-le m (m + suc k) acc (omega arith) l
decimal_digits-IsLine (suc fuel) zero n m acc h l =
    rw (lt→ltb n 10 (omega arith))
      (IsLine-le (suc m) (m + 1) ((b'0' + n % 10) ∷ acc) (omega arith) (digit-IsLine n m acc l))
decimal_digits-IsLine (suc fuel) (suc k) n m acc h l = elim (Bool-cases (ltb n 10)) [
  | inl last ↦ rw last (
      IsLine-le (suc m) (m + suc (suc k)) ((b'0' + n % 10) ∷ acc) (omega arith)
        (digit-IsLine n m acc l))
  | inr more ↦ rw more (
      IsLine-le (suc m + suc k) (m + suc (suc k))
        (decimal_digits fuel (n / 10) ((b'0' + n % 10) ∷ acc)) (omega arith)
        (decimal_digits-IsLine fuel k (n / 10) (suc m) ((b'0' + n % 10) ∷ acc) (omega arith)
          (digit-IsLine n m acc l)))
]

decimal-IsLine : (n : ℕ) → n ≤ max_grant_quantity → IsLine 4 (decimal n)
unfolding decimal pow10
decimal-IsLine n h = decimal_digits-IsLine (suc n) 3 n 0 [] (omega arith) (tt, omega arith)

append-IsLine : (m k : ℕ) (s t : Text) → IsLine m s → IsLine k t → IsLine (m + k) (s ++ t)
append-IsLine m k s t hs ht =
    (All-append IsPrintable s t hs.0 ht.0, omega (arith, length-append s t))

space-IsLine : (m : ℕ) (t : Text) → IsLine m t → IsLine (suc m) (b' ' ∷ t)
space-IsLine m t l = ((omega arith, l.0), omega arith)

give-IsLine :
    (target item : Text) (count : ℕ)
    → IsLine 36 target
    → IsLine 80 item
    → count ≤ max_grant_quantity
    → IsLine 127 (give target item count)
unfolding give
give-IsLine target item count ht hi hc = append-IsLine 5 122 (codes "give ") _ (omega arith) (
    append-IsLine 36 86 target _ ht (
      space-IsLine 85 _
        (append-IsLine 80 5 item _ hi (space-IsLine 4 _ (decimal-IsLine count hc)))))

target-IsLine :
    (player uuid : Option Text) (t : Text) → grant_player_target player uuid ≡ some t → IsLine 36 t
unfolding grant_player_target
target-IsLine player uuid t h = elim (Bool-cases (is_player_name t)) [
  | inl name ↦ player_name-IsLine t name
  | inr other ↦ uuid-IsLine t (ground arith)
]

-- what `createJob` asks of a console command, and more
abbrev pub IsCommand : Text → Type 0
IsCommand t = All IsPrintable t × (length t ≤ 127) × ((r : Text) × (t ≡ b'g' ∷ r))

give_first : (target item : Text) (count : ℕ) → (r : Text) × (give target item count ≡ b'g' ∷ r)
unfolding give
give_first target item count = (_, refl)

complete-IsCommand :
    (target item : Option Text) (count : Option ℕ) (t : Text)
    → ((s : Text) → target ≡ some s → IsLine 36 s)
    → ((s : Text) → item ≡ some s → IsItemName s)
    → ((q : ℕ) → count ≡ some q → InRange q)
    → complete target item count ≡ some t
    → IsCommand t
unfolding complete
complete-IsCommand (some target) (some item) (some count) t ht hi hc h =
    let (chars, short) =
      give-IsLine target item count (ht target refl) ((hi item refl).0, (hi item refl).1)
        (hc count refl).1 in
    subst IsCommand (some-injective _ _ h) (chars, short, give_first target item count)
complete-IsCommand none item count t ht hi hc h = absurd (ground arith)
complete-IsCommand (some x) none count t ht hi hc h = absurd (ground arith)
complete-IsCommand (some x) (some y) none t ht hi hc h = absurd (ground arith)

-- A command that is built holds printable characters only, so no line break, is at most 127
-- characters long and begins with the `g` of `give`.
pub build_give_command-IsCommand :
    (js : Runtime) (player : Option Text) (item amount : Value) (uuid : Option Text) (t : Text)
    → build_give_command js player item amount uuid ≡ some t
    → IsCommand t
unfolding build_give_command
build_give_command-IsCommand js player item amount uuid t h =
    complete-IsCommand (grant_player_target player uuid) (parse_grant_item_name item)
      (parse_grant_quantity js amount 1) t (target-IsLine player uuid)
      (parse_grant_item_name-IsItemName item)
      (λ q. parse_grant_quantity-InRange js amount 1 q (omega arith)) h
