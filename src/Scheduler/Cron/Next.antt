-- ===== src/Scheduler/Cron/Next.antt =====
-- The next run is the first minute that the expression allows.
use mastermind_minecraft_ser.Prelude.{
  ◌%◌, List, [], ◌∷◌, ℕ, ◌+◌, ◌*◌, ◌≤◌, ◌<◌, true, false, ◌&&◌, ◌≡◌, ◌⊎◌, inl, inr, refl, Option,
  none, some, leb, ltb, arith, Bool-cases,
}
use mastermind_minecraft_ser.Scheduler.Cron.{
  FieldSet, every, only, Moment, Calendar, Cron, is_due, minute_ms, Clamped, as_is, today, tomorrow,
  clamp_to_execution_window,
}

-- the minute `i` minutes after `t`
abbrev pub after : ℕ → ℕ → ℕ
after t i = t + i * minute_ms

abbrev NoneBefore : Calendar → Cron → ℕ → ℕ → Type 0
NoneBefore cal c t n = (j : ℕ) → j < n → is_due c (cal.moment (after t j)) ≡ false

-- the run found is the first one, and if none is found there is none
abbrev IsFirst : Calendar → Cron → ℕ → ℕ → Option ℕ → Type 0
IsFirst cal c fuel t found =
    ((i : ℕ) × (i < fuel)
      × (found ≡ some (after t i))
      × (is_due c (cal.moment (after t i)) ≡ true)
      × NoneBefore cal c t i)
    ⊎ ((found ≡ none) × NoneBefore cal c t fuel)

unfoldable pub Listed : ℕ → List ℕ → Type 0
Listed n [] = ⊥
Listed n (m ∷ ms) = (m ≡ n) ⊎ Listed n ms

-- the field allows the number
unfoldable pub Allows : FieldSet → ℕ → Type 0
unfolding Listed
Allows every n = Unit
Allows (only ns) n = Listed n ns

-- each of the five fields allows its part of the local time
abbrev pub Matches : Cron → Moment → Type 0
Matches c m =
    Allows c.minutes m.minute
    × Allows c.hours m.hour
    × Allows c.days m.day
    × Allows c.months m.month
    × Allows c.weekdays m.weekday

-- a whole minute after `from` that the expression allows
abbrev pub IsRunTime : Calendar → Cron → ℕ → ℕ → Type 0
IsRunTime cal c from t = (from < t) × (t % 60000 ≡ 0) × Matches c (cal.moment t)

-- the time of day, in minutes, that a date at `now` is moved to
abbrev pub time_of : ℕ → Clamped → ℕ
time_of now as_is = now
time_of now (today h m) = h * 60 + m
time_of now (tomorrow h m) = h * 60 + m

-- A date is moved to a time of day inside the window, and to a later time unless it is moved to the
-- next day, provided that the window does not go past midnight.
pub clamp_to_execution_window-within :
    (h m sh sm eh em : ℕ)
    → sh * 60 + sm ≤ eh * 60 + em
    → let r = clamp_to_execution_window h m (some (sh, sm)) (some (eh, em)) in
      (sh * 60 + sm ≤ time_of (h * 60 + m) r)
      × (time_of (h * 60 + m) r ≤ eh * 60 + em)
      × ((h * 60 + m ≤ time_of (h * 60 + m) r) ⊎ (r ≡ tomorrow sh sm))
unfolding clamp_to_execution_window
clamp_to_execution_window-within h m sh sm eh em le =
    let start_mins = sh * 60 + sm in
    let end_mins = eh * 60 + em in
    let now_mins = h * 60 + m in
    elim (Bool-cases
      (leb start_mins end_mins && leb start_mins now_mins && leb now_mins end_mins)) [
        | inl inside ↦
            rw (inside, clamp_to_execution_window) (ground arith, ground arith, inl (omega arith))
        | inr outside ↦ elim (Bool-cases (leb start_mins end_mins && ltb now_mins start_mins)) [
          | inl early ↦
              rw (outside, early, clamp_to_execution_window)
                (omega arith, omega arith, inl (ground arith))
          | inr late ↦
              rw (outside, late, clamp_to_execution_window) (omega arith, omega arith, inr refl)
        ]
      ]
