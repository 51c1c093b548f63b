-- ===== src/Prelude/Trim.antt =====
-- Laws of `trim`: it only drops characters, and keeps a first character that is no space.
use Prim.Native.Nat.{ℕ, ◌≤◌}
use mathlib.Core.Path.{◌≡◌, refl}
use mathlib.Core.Logic.{inl, inr}
use mathlib.Core.Bool.{false}
use mathlib.Core.List.{[], ◌∷◌, ◌++◌, reverse, reverse-append, List}
use native.Mathlib.Omega.{arith}
use mastermind_minecraft_ser.Prelude.Tests.{Bool-cases}
use mastermind_minecraft_ser.Prelude.Lists.{length, length-append, All}
use mastermind_minecraft_ser.Prelude.Strings.{Text, is_space, trim_start, trim}

pub All-append {ℓ κ} :
    {A : Type ℓ} (P : A → Type κ) (xs ys : List A) → All P xs → All P ys → All P (xs ++ ys)
All-append P [] ys hx hy = hy
All-append P (x ∷ xs) ys hx hy = (hx.0, All-append P xs ys hx.1 hy)

reverse-cons {ℓ} : {A : Type ℓ} (x : A) (xs : List A) → reverse (x ∷ xs) ≡ reverse xs ++ x ∷ []
reverse-cons x xs = reverse-append (x ∷ []) xs

pub All-reverse : (P : ℕ → Type 0) (s : Text) → All P s → All P (reverse s)
All-reverse P [] h = h
All-reverse P (x ∷ xs) h =
    rw reverse-cons (All-append P (reverse xs) (x ∷ []) (All-reverse P xs h.1) (h.0, tt))

All-trim_start : (P : ℕ → Type 0) (s : Text) → All P s → All P (trim_start s)
unfolding trim_start
All-trim_start P [] h = h
All-trim_start P (c ∷ s) h = ground (arith, All-trim_start P s h.1)

pub All-trim : (P : ℕ → Type 0) (s : Text) → All P s → All P (trim s)
unfolding trim
All-trim P s h = All-reverse P _ (All-trim_start P _ (All-reverse P _ (All-trim_start P s h)))

length-reverse : (s : Text) → length (reverse s) ≡ length s
length-reverse [] = refl
length-reverse (x ∷ xs) =
    rw reverse-cons (omega (arith, length-append (reverse xs) (x ∷ []), length-reverse xs))

length-trim_start : (s : Text) → length (trim_start s) ≤ length s
unfolding trim_start
length-trim_start [] = omega arith
length-trim_start (c ∷ s) = ground (arith, length-trim_start s)

pub length-trim : (s : Text) → length (trim s) ≤ length s
unfolding trim
length-trim s = omega (
  arith,
  length-reverse (trim_start (reverse (trim_start s))),
  length-trim_start (reverse (trim_start s)),
  length-reverse (trim_start s),
  length-trim_start s,
)

trim_start-last :
    (xs : Text) (g : ℕ)
    → is_space g ≡ false
    → (ys : Text) × (trim_start (xs ++ g ∷ []) ≡ ys ++ g ∷ [])
unfolding trim_start
trim_start-last [] g h = ([], rw h)
trim_start-last (x ∷ xs) g h = elim (Bool-cases (is_space x)) [
  | inl sp ↦ rw sp (trim_start-last xs g h)
  | inr non ↦ rw non (x ∷ xs, refl)
]

-- a first character that is no space stays first
pub trim-head : (g : ℕ) (s : Text) → is_space g ≡ false → (r : Text) × (trim (g ∷ s) ≡ g ∷ r)
unfolding trim trim_start
trim-head g s h =
    let (ys, e) = trim_start-last (reverse s) g h in
    (reverse ys, rw (h, reverse-cons, e) (reverse-append ys (g ∷ [])))
