-- ===== src/Donations/Signature/Digits.antt =====
-- Numbers in decimal, written and read back.
use mastermind_minecraft_ser.Prelude.Split.{Lacks, IsTight}
use mastermind_minecraft_ser.Prelude.{
  is_space, ◌==◌, ℕ, zero, suc, ◌+◌, ◌*◌, ◌/◌, ◌%◌, ◌<◌, true, false, ◌≡◌, ap, Text, List, [], ◌∷◌,
  All, ltb, arith, Bool-cases, inl, inr,
}
use mastermind_minecraft_ser.Grants.Items.{is_digit}
use mastermind_minecraft_ser.Grants.Command.{decimal, decimal_digits}
use mastermind_minecraft_ser.Scheduler.Cron.{leading_digits}

digit-value :
    (n a : ℕ) (t : Text)
    → leading_digits a ((b'0' + n % 10) ∷ t) ≡ leading_digits (a * 10 + n % 10) t
unfolding leading_digits is_digit
digit-value n a t =
    let digit : is_digit (b'0' + n % 10) ≡ true = ground arith in
    rw digit (ap (λ (d : ℕ). leading_digits (a * 10 + d) t) (omega arith))

pub leading_digits-decimal_digits :
    (fuel n : ℕ) (acc : Text)
    → n < fuel
    → leading_digits 0 (decimal_digits fuel n acc) ≡ leading_digits n acc
unfolding decimal_digits
leading_digits-decimal_digits zero n acc h = absurd (omega arith)
leading_digits-decimal_digits (suc fuel) n acc h = elim (Bool-cases (ltb n 10)) [
  | inl small ↦
      rw (small, digit-value n 0 acc) (ap (λ (d : ℕ). leading_digits d acc) (ground arith))
  | inr large ↦
      rw
        (
          large,
          leading_digits-decimal_digits fuel (n / 10) ((b'0' + n % 10) ∷ acc) (ground arith),
          digit-value n (n / 10) acc,
        )
        (ap (λ (d : ℕ). leading_digits d acc) (omega arith))
]

pub leading_digits-decimal : (n : ℕ) → leading_digits 0 (decimal n) ≡ n
unfolding decimal leading_digits
leading_digits-decimal n = leading_digits-decimal_digits (suc n) n [] (omega arith)

-- a non-empty text of digits
abbrev pub IsNumeral : Text → Type 0
IsNumeral [] = ⊥
IsNumeral (c ∷ t) = All (λ d. is_digit d ≡ true) (c ∷ t)

decimal_digits-IsNumeral :
    (fuel n : ℕ) (acc : Text)
    → n < fuel
    → All (λ d. is_digit d ≡ true) acc
    → IsNumeral (decimal_digits fuel n acc)
unfolding decimal_digits is_digit
decimal_digits-IsNumeral zero n acc h v = absurd (omega arith)
decimal_digits-IsNumeral (suc fuel) n acc h v =
    let digit : is_digit (b'0' + n % 10) ≡ true = ground arith in
    elim (Bool-cases (ltb n 10)) [
      | inl small ↦ rw small (digit, v)
      | inr large ↦
          rw large (
            decimal_digits-IsNumeral fuel (n / 10) ((b'0' + n % 10) ∷ acc) (ground arith)
              (digit, v))
    ]

pub decimal-IsNumeral : (n : ℕ) → IsNumeral (decimal n)
unfolding decimal
decimal-IsNumeral n = decimal_digits-IsNumeral (suc n) n [] (omega arith) tt

-- a text of digits holds no other character, and no space
pub All-map :
    {A : Type 0} (P Q : A → Type 0) (xs : List A) → ((x : A) → P x → Q x) → All P xs → All Q xs
All-map P Q [] f h = tt
All-map P Q (x ∷ xs) f h = (f x h.0, All-map P Q xs f h.1)

pub IsNumeral-digits : (t : Text) → IsNumeral t → All (λ d. is_digit d ≡ true) t
IsNumeral-digits [] h = absurd h
IsNumeral-digits (c ∷ t) h = h

pub digit-lacks : (d c : ℕ) → is_digit d ≡ false → is_digit c ≡ true → (c == d) ≡ false
unfolding is_digit
digit-lacks d c other h = ground arith

pub digit-no_space : (c : ℕ) → is_digit c ≡ true → is_space c ≡ false
unfolding is_digit is_space
digit-no_space c h = ground arith

pub decimal-Lacks : (d n : ℕ) → is_digit d ≡ false → Lacks d (decimal n)
decimal-Lacks d n other =
    All-map _ _ (decimal n) (λ c. digit-lacks d c other)
      (IsNumeral-digits (decimal n) (decimal-IsNumeral n))

pub decimal-IsTight : (n : ℕ) → IsTight (decimal n)
decimal-IsTight n =
    All-map _ _ (decimal n) digit-no_space (IsNumeral-digits (decimal n) (decimal-IsNumeral n))
