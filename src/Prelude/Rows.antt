-- ===== src/Prelude/Rows.antt =====
-- Tables: the first row that meets a condition, read and written. A row that was found is written
-- through its primary key, so the row written is the row found.
use Prim.Native.Nat.{ℕ, ◌+◌}
use mathlib.Core.Path.{◌≡◌, refl}
use mathlib.Core.Bool.{Bool, true, false}
use mathlib.Core.Logic.{inl, inr}
use mathlib.Core.Option.{Option, none, some}
use mathlib.Core.List.{List, [], ◌∷◌}
use native.Mathlib.Omega.{arith}
use mastermind_minecraft_ser.Prelude.Tests.{if◌then◌else◌, Bool-cases}

module _ {ℓ} {A : Type ℓ} where
  unfoldable pub find_first : (A → Bool) → List A → Option A
  find_first p [] = none
  find_first p (x ∷ xs) = if p x then some x else find_first p xs

  unfoldable pub update_first : (A → Bool) → (A → A) → List A → List A
  update_first p f [] = []
  update_first p f (x ∷ xs) = if p x then f x ∷ xs else x ∷ update_first p f xs

  -- every row that meets the condition is written
  unfoldable pub update_many : (A → Bool) → (A → A) → List A → List A
  update_many p f [] = []
  update_many p f (x ∷ xs) = (if p x then f x else x) ∷ update_many p f xs

  unfoldable pub total : (A → ℕ) → List A → ℕ
  total g [] = 0
  total g (x ∷ xs) = g x + total g xs

module _ {A : Type 0} where
  -- A sum over the rows changes by what it changes at the row that is written.
  pub total-update_first :
      (g : A → ℕ) (p : A → Bool) (f : A → A) (xs : List A) (x : A)
      → find_first p xs ≡ some x
      → total g (update_first p f xs) + g x ≡ total g xs + g (f x)
  unfolding find_first update_first total
  total-update_first g p f [] x h = absurd (ground arith)
  total-update_first g p f (y ∷ ys) x h = elim (Bool-cases (p y)) [
    | inl here ↦ rw here (ground arith)
    | inr on ↦ rw on (ground (arith, total-update_first g p f ys x))
  ]

  pub find_first-update_first :
      (p q : A → Bool) (f : A → A) (xs : List A)
      → ((x : A) → q (f x) ≡ q x)
      → ((x : A) → q x ≡ true → p x ≡ false)
      → find_first q (update_first p f xs) ≡ find_first q xs
  unfolding find_first update_first
  find_first-update_first p q f [] keep apart = refl
  find_first-update_first p q f (x ∷ xs) keep apart =
      ground (arith, keep x, apart x, find_first-update_first p q f xs keep apart)

  pub find_first-update_first_self :
      (p : A → Bool) (f : A → A) (xs : List A) (x : A)
      → ((x : A) → p (f x) ≡ p x)
      → find_first p xs ≡ some x
      → find_first p (update_first p f xs) ≡ some (f x)
  unfolding find_first update_first
  find_first-update_first_self p f [] x keep h = absurd (ground arith)
  find_first-update_first_self p f (y ∷ ys) x keep h =
      ground (arith, keep y, find_first-update_first_self p f ys x keep)

  -- a row that is found after a write by its own condition was found before it
  pub find_first-update_first_inv :
      (p : A → Bool) (f : A → A) (xs : List A) (y : A)
      → ((x : A) → p (f x) ≡ p x)
      → find_first p (update_first p f xs) ≡ some y
      → (x : A) × (find_first p xs ≡ some x) × (f x ≡ y)
  unfolding find_first update_first
  find_first-update_first_inv p f [] y keep h = absurd (ground arith)
  find_first-update_first_inv p f (x ∷ xs) y keep h = elim (Bool-cases (p x)) [
    | inl here ↦ (x, rw here refl, ground (arith, keep x))
    | inr on ↦
        let (z, found, e) = find_first-update_first_inv p f xs y keep (ground (arith)) in
        (z, rw on found, e)
  ]

  pub find_first-holds :
      (p : A → Bool) (xs : List A) (x : A) → find_first p xs ≡ some x → p x ≡ true
  unfolding find_first
  find_first-holds p [] x h = absurd (ground arith)
  find_first-holds p (y ∷ ys) x h = ground (arith, find_first-holds p ys x)
