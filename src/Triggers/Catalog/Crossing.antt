-- ===== src/Triggers/Catalog/Crossing.antt =====
-- A threshold is crossed once while a total grows.
use mastermind_minecraft_ser.Prelude.{ℕ, ◌+◌, ◌≤◌, Bool, ◌≡◌, List, [], ◌∷◌, arith, if◌then◌else◌}
use mastermind_minecraft_ser.Triggers.Catalog.{crossed_playtime_hours}

-- how often the total crosses the threshold while it takes the given values after `previous`
unfoldable pub crossings : (ℕ → ℕ → Bool) → ℕ → List ℕ → ℕ
crossings crossed previous [] = 0
crossings crossed previous (t ∷ ts) = (if crossed previous t then 1 else 0) + crossings crossed t ts

-- each value is at least the one before
abbrev pub Grows : ℕ → List ℕ → Type 0
Grows previous [] = Unit
Grows previous (t ∷ ts) = (previous ≤ t) × Grows t ts

abbrev pub last_of : ℕ → List ℕ → ℕ
last_of previous [] = previous
last_of previous (t ∷ ts) = last_of t ts

last_of-Grows : (previous : ℕ) (ts : List ℕ) → Grows previous ts → previous ≤ last_of previous ts
last_of-Grows previous [] g = omega arith
last_of-Grows previous (t ∷ ts) g = omega (arith, g.0, last_of-Grows t ts g.1)

-- While a playtime grows, each milestone of hours is crossed once if the playtime starts below it and
-- ends at or above it, and never otherwise.
pub crossed_playtime_hours-once :
    (hours previous : ℕ) (ts : List ℕ)
    → Grows previous ts
    → crossings (λ a b. crossed_playtime_hours a b hours) previous ts
      ≡ (if crossed_playtime_hours previous (last_of previous ts) hours then 1 else 0)
unfolding crossings crossed_playtime_hours
crossed_playtime_hours-once hours previous [] g = ground arith
crossed_playtime_hours-once hours previous (t ∷ ts) g =
    ground (arith, crossed_playtime_hours-once hours t ts g.1, last_of-Grows t ts g.1, g.0)
