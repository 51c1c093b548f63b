-- ===== src/Scheduler/Cron/Fields.antt =====
-- The values of a field are in its range.
use mathlib.Core.Path.{subst}
use mathlib.Core.Option.{some-injective}
use mastermind_minecraft_ser.Prelude.{
  ℕ, zero, suc, ◌+◌, ◌-◌, ◌≤◌, ◌||◌, ◌≡◌, ap, Text, codes, same, trim, split_commas, Option, none,
  some, List, [], ◌∷◌, ◌++◌, All, leb, ltb, arith, Bool-cases, Option-cases, inl, inr,
}
use mastermind_minecraft_ser.Prelude.Trim.{All-append}
use mastermind_minecraft_ser.Scheduler.Cron.{
  FieldSet, every, only, steps, in_range, parse_int, step_of, parse_part, both, parse_parts,
  only_these, parse_set,
}

abbrev pub InRange : ℕ → ℕ → ℕ → Type 0
InRange min max n = (min ≤ n) × (n ≤ max)

steps-InRange :
    (fuel min value max amount : ℕ)
    → min ≤ value
    → All (InRange min max) (steps fuel value max amount)
unfolding steps
steps-InRange zero min value max amount h = tt
steps-InRange (suc fuel) min value max amount h = elim (Bool-cases (leb value max)) [
  | inl fits ↦
      rw (fits, steps)
        ((h, ground arith), steps-InRange fuel min (value + amount) max amount (omega arith))
  | inr over ↦ rw (over, steps) tt
]

in_range-InRange :
    (min max : ℕ) (o : Option ℕ) (ns : List ℕ)
    → in_range min max o ≡ some ns
    → All (InRange min max) ns
unfolding in_range
in_range-InRange min max none ns h = absurd (ground arith)
in_range-InRange min max (some n) ns h = elim (Bool-cases (ltb n min || ltb max n)) [
  | inl out ↦ absurd (ground arith)
  | inr fits ↦
      subst (All (InRange min max)) (some-injective (n ∷ []) ns (rw fits at h)) (ground arith, tt)
]

parse_part-InRange :
    (min max : ℕ) (s : Text) (ns : List ℕ)
    → parse_part min max s ≡ some ns
    → All (InRange min max) ns
unfolding parse_part
parse_part-InRange min max s ns h = elim (Option-cases (step_of s)) [
  | inl plain ↦ in_range-InRange min max (parse_int (trim s)) ns (rw (plain, parse_part) at h)
  | inr (amount, e) ↦ elim (Bool-cases (ltb amount 1 || ltb (max - min + 1) amount)) [
    | inl out ↦ absurd (ground arith)
    | inr good ↦
        subst (All (InRange min max)) (some-injective _ ns (rw (e, good, parse_part) at h))
          (steps-InRange (max - min + 1) min min max amount (omega arith))
  ]
]

parse_parts-InRange :
    (min max : ℕ) (ss : List Text) (ns : List ℕ)
    → parse_parts min max ss ≡ some ns
    → All (InRange min max) ns
unfolding parse_parts both
parse_parts-InRange min max [] ns h = subst (All (InRange min max)) (some-injective [] ns h) tt
parse_parts-InRange min max (s ∷ ss) ns h = elim (Option-cases (parse_part min max s)) [
  | inl e ↦ absurd (ground arith)
  | inr (xs, e) ↦ elim (Option-cases (parse_parts min max ss)) [
    | inl f ↦ absurd (ground arith)
    | inr (ys, f) ↦ subst (All (InRange min max)) (some-injective (xs ++ ys) ns (rw (e, f) at h)) (
        All-append (InRange min max) xs ys (parse_part-InRange min max s xs e)
          (parse_parts-InRange min max ss ys f))
  ]
]

only_list : FieldSet → List ℕ
only_list every = []
only_list (only ns) = ns

-- A field that is read as a list of values, whether from numbers or from steps, has values of its
-- range only.
pub parse_set-InRange :
    (str : Text) (min max : ℕ) (ns : List ℕ)
    → parse_set str min max ≡ some (only ns)
    → All (InRange min max) ns
unfolding parse_set only_these only_list
parse_set-InRange str min max ns h = elim (Bool-cases (same str (codes "*"))) [
  | inl star ↦ absurd (ground arith)
  | inr other ↦ elim (Option-cases (parse_parts min max (split_commas str))) [
    | inl e ↦ absurd (ground arith)
    | inr (xs, e) ↦
        subst (All (InRange min max))
          (ap only_list (some-injective (only xs) (only ns) (rw (other, e) at h)))
          (parse_parts-InRange min max (split_commas str) xs e)
  ]
]
