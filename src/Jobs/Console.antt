-- ===== src/Jobs/Console.antt =====
-- What createJob asks of a console command (jobs.service.ts).
use mathlib.Core.Path.{subst}
use mastermind_minecraft_ser.Prelude.{
  ℕ, ◌≤◌, ◌<◌, Bool, false, ◌||◌, ◌≡◌, refl, ap, ◌∙◌, Text, trim, Option, some, [], ◌∷◌, any, All,
  length, arith, ltb, ◌==◌, if◌then◌else◌, Bool-cases, inl, inr, is_space,
}
use mastermind_minecraft_ser.Prelude.Trim.{All-trim, length-trim, trim-head}
use mastermind_minecraft_ser.Json.{Value, string}
use mastermind_minecraft_ser.Donations.Stripe.{as_text}
use mastermind_minecraft_ser.Grants.Items.{Runtime}
use mastermind_minecraft_ser.Grants.Items.Bounds.{IsPrintable}
use mastermind_minecraft_ser.Grants.Command.{build_give_command, trimmed}
use mastermind_minecraft_ser.Grants.Command.Safety.{IsCommand, build_give_command-IsCommand}

-- `[\r\n]`
abbrev pub is_break : ℕ → Bool
is_break c = c == 10 || c == 13

pub data Checked : Type 0 where
  required : Checked
  too_long : Checked
  more_than_one : Checked
  accepted : Text → Checked

unfoldable pub check_trimmed : Text → Checked
check_trimmed [] = required
check_trimmed (c ∷ cs) =
    if ltb 512 (length (c ∷ cs))
    then too_long
    else if any is_break (c ∷ cs)
    then more_than_one
    else accepted (c ∷ cs)

unfoldable pub check_command : Value → Checked
unfolding check_trimmed trimmed as_text
check_command command = check_trimmed (trimmed (as_text command))

printable-no_break : (t : Text) → All IsPrintable t → any is_break t ≡ false
printable-no_break [] h = refl
printable-no_break (c ∷ cs) h = ground (arith, h.0, printable-no_break cs h.1)

trim-IsCommand : (t : Text) → IsCommand t → IsCommand (trim t)
unfolding is_space
trim-IsCommand t (chars, short, (r, e)) =
    let (r', e') = trim-head b'g' r refl in
    (All-trim IsPrintable t chars, omega (arith, length-trim t), (r', ap trim e ∙ e'))

IsCommand-accepted : (t : Text) → IsCommand t → check_trimmed t ≡ accepted t
unfolding check_trimmed
IsCommand-accepted [] (chars, short, (r, e)) = absurd (ground arith)
IsCommand-accepted (c ∷ cs) (chars, short, start) =
    let few : ltb 512 (length (c ∷ cs)) ≡ false = ground (arith) in
    rw (few, printable-no_break (c ∷ cs) chars, check_trimmed) refl

-- Every command that the shop builds passes the check of console commands: it is accepted, less the
-- white space at its ends.
pub build_give_command-accepted :
    (js : Runtime) (player : Option Text) (item amount : Value) (uuid : Option Text) (t : Text)
    → build_give_command js player item amount uuid ≡ some t
    → check_command (string t) ≡ accepted (trim t)
unfolding check_command trimmed as_text
build_give_command-accepted js player item amount uuid t h =
    IsCommand-accepted (trim t)
      (trim-IsCommand t (build_give_command-IsCommand js player item amount uuid t h))

accepted_text : Text → Checked → Text
accepted_text d (accepted t) = t
accepted_text d _ = d

check_trimmed-accepted :
    (s t : Text)
    → check_trimmed s ≡ accepted t
    → (s ≡ t) × (0 < length t) × (length t ≤ 512) × (any is_break t ≡ false)
unfolding check_trimmed accepted_text
check_trimmed-accepted [] t h = absurd (ground arith)
check_trimmed-accepted (c ∷ cs) t h = elim (Bool-cases (ltb 512 (length (c ∷ cs)))) [
  | inl long ↦ absurd (ground arith)
  | inr short ↦ elim (Bool-cases (any is_break (c ∷ cs))) [
    | inl broken ↦ absurd (ground arith)
    | inr line ↦
        let same_text : (c ∷ cs) ≡ t =
          ap (accepted_text []) (rw (short, line, check_trimmed) at h) in
        subst
          (λ (x : Text).
            (c ∷ cs ≡ x) × (0 < length x) × (length x ≤ 512) × (any is_break x ≡ false))
          same_text (refl, omega arith, ground arith, line)
  ]
]

-- A command that is accepted is the given one less the white space at its ends, is not empty, has at
-- most 512 characters and holds no line break.
pub check_command-accepted :
    (given : Value) (t : Text)
    → check_command given ≡ accepted t
    → (trimmed (as_text given) ≡ t) × (0 < length t) × (length t ≤ 512) × (any is_break t ≡ false)
unfolding check_command
check_command-accepted given t h = check_trimmed-accepted (trimmed (as_text given)) t h
