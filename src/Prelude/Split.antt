-- ===== src/Prelude/Split.antt =====
-- Laws of splitting at a character, and of trimming what has no space.
use Prim.Native.Nat.{ℕ}
use mathlib.Core.Path.{◌≡◌, refl, ap, ◌∙◌}
use mathlib.Core.Bool.{false}
use mathlib.Core.List.{List, [], ◌∷◌, ◌++◌, reverse, reverse-reverse}
use mastermind_minecraft_ser.Prelude.Tests.{◌==◌, ==_refl}
use mastermind_minecraft_ser.Prelude.Lists.{All}
use mastermind_minecraft_ser.Prelude.Strings.{
  Text, prepend, split_on, split_commas, join_commas, is_space, trim, trim_start,
}
use mastermind_minecraft_ser.Prelude.Trim.{All-reverse}

-- the character does not stand in the text
abbrev pub Lacks : ℕ → Text → Type 0
Lacks d t = All (λ c. (c == d) ≡ false) t

pub split_on-Lacks : (d : ℕ) (t : Text) → Lacks d t → split_on d t ≡ t ∷ []
unfolding split_on prepend
split_on-Lacks d [] h = refl
split_on-Lacks d (c ∷ t) h = rw (h.0, split_on-Lacks d t h.1) refl

pub split_on-append :
    (d : ℕ) (t rest : Text) → Lacks d t → split_on d (t ++ (d ∷ rest)) ≡ t ∷ split_on d rest
unfolding split_on prepend
split_on-append d [] rest h = rw (==_refl d) refl
split_on-append d (c ∷ t) rest h = rw (h.0, split_on-append d t rest h.1) refl

pub split_commas-join :
    (part : Text) (parts : List Text)
    → All (Lacks b',') (part ∷ parts)
    → split_commas (join_commas (part ∷ parts)) ≡ part ∷ parts
unfolding split_commas join_commas
split_commas-join part [] h = split_on-Lacks b',' part h.0
split_commas-join part (next ∷ rest) h =
    split_on-append b',' part (join_commas (next ∷ rest)) h.0
    ∙ ap (λ (ps : List Text). part ∷ ps) (split_commas-join next rest h.1)

abbrev pub IsTight : Text → Type 0
IsTight t = All (λ c. is_space c ≡ false) t

trim_start-tight : (t : Text) → IsTight t → trim_start t ≡ t
unfolding trim_start
trim_start-tight [] h = refl
trim_start-tight (c ∷ t) h = rw (h.0) refl

pub trim-tight : (t : Text) → IsTight t → trim t ≡ t
unfolding trim
trim-tight t h =
    rw (trim_start-tight t h, trim_start-tight (reverse t) (All-reverse _ t h)) (reverse-reverse t)
