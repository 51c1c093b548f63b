-- ===== src/Scheduler/Manage/Nearest.antt =====
-- The nearest of the upcoming restarts.
use mathlib.Core.Path.{subst}
use mastermind_minecraft_ser.Prelude.{
  ℕ, Bool, true, false, ◌||◌, not, ◌≡◌, refl, sym, Option, none, some, List, [], ◌∷◌, any, all,
  ==_iff, ==_refl, find_first, update_first, arith, Bool-cases, Option-cases, inl, inr,
}
use mastermind_minecraft_ser.Scheduler.Store.{Schedule, has_schedule_id, SkipReason}
use mastermind_minecraft_ser.Scheduler.Manage.{nearest, nearer, comes_before, set_skip}

comes_before_refl : (a : Option ℕ) → comes_before a a ≡ true
unfolding comes_before
comes_before_refl none = refl
comes_before_refl (some n) = ground arith

comes_before_trans :
    (a b d : Option ℕ) → comes_before a b ≡ true → comes_before b d ≡ true → comes_before a d ≡ true
unfolding comes_before
comes_before_trans none b d h k = refl
comes_before_trans (some a) none d h k = absurd (ground arith)
comes_before_trans (some a) (some b) none h k = absurd (ground arith)
comes_before_trans (some a) (some b) (some d) h k = ground arith

comes_before_total : (a b : Option ℕ) → comes_before a b ≡ false → comes_before b a ≡ true
unfolding comes_before
comes_before_total none b h = absurd (ground arith)
comes_before_total (some a) none h = refl
comes_before_total (some a) (some b) h = ground arith

-- no row that meets the condition runs before the time
abbrev pub is_least : (Schedule → Bool) → Option ℕ → List Schedule → Bool
is_least p t ss = all (λ r. not (p r) || comes_before t r.next_run_at) ss

is_least-weaken :
    (p : Schedule → Bool) (t u : Option ℕ) (ss : List Schedule)
    → comes_before t u ≡ true
    → is_least p u ss ≡ true
    → is_least p t ss ≡ true
is_least-weaken p t u [] h k = refl
is_least-weaken p t u (s ∷ ss) h k =
    let rest = is_least-weaken p t u ss h in
    let here = comes_before_trans t u s.next_run_at h in ground (arith, rest, here)

none-nearest :
    (p : Schedule → Bool) (t : Option ℕ) (ss : List Schedule)
    → nearest p ss ≡ none
    → is_least p t ss ≡ true
unfolding nearest
none-nearest p t [] h = refl
none-nearest p t (s ∷ ss) h = ground (arith, none-nearest p t ss)

pub nearest-is_least :
    (p : Schedule → Bool) (ss : List Schedule) (s : Schedule)
    → nearest p ss ≡ some s
    → (p s ≡ true) × (is_least p s.next_run_at ss ≡ true)
unfolding nearest nearer
nearest-is_least p [] s h = absurd (ground arith)
nearest-is_least p (x ∷ xs) s h = elim (Bool-cases (p x)) [
  | inr miss ↦ let (holds, rest) = nearest-is_least p xs s (ground arith) in (holds, rw miss rest)
  | inl hit ↦ elim (Option-cases (nearest p xs)) [
    | inl nothing ↦
        let e : x ≡ s = ground arith in
        subst (λ (r : Schedule). (p r ≡ true) × (is_least p r.next_run_at (x ∷ xs) ≡ true)) e
          (hit, rw (hit, comes_before_refl x.next_run_at) (none-nearest p x.next_run_at xs nothing))
    | inr (r, found) ↦
        let (holds, rest) = nearest-is_least p xs r found in
        elim (Bool-cases (comes_before x.next_run_at r.next_run_at)) [
          | inl before ↦
              let e : x ≡ s = ground arith in
              subst (λ (r : Schedule). (p r ≡ true) × (is_least p r.next_run_at (x ∷ xs) ≡ true)) e
                (
                  hit,
                  rw (hit, comes_before_refl x.next_run_at)
                      (is_least-weaken p x.next_run_at r.next_run_at xs before rest),
                )
          | inr later ↦
              let e : r ≡ s = ground arith in
              subst (λ (r : Schedule). (p r ≡ true) × (is_least p r.next_run_at (x ∷ xs) ≡ true)) e
                (holds, rw (hit, comes_before_total x.next_run_at r.next_run_at later) rest)
        ]
  ]
]

-- The id of a schedule is a key.
abbrev pub IsKeyed : List Schedule → Type 0
IsKeyed [] = Unit
IsKeyed (s ∷ ss) = (any (has_schedule_id s.id) ss ≡ false) × IsKeyed ss

nearest-any :
    (p : Schedule → Bool) (ss : List Schedule) (s : Schedule)
    → nearest p ss ≡ some s
    → any (has_schedule_id s.id) ss ≡ true
unfolding nearest nearer
nearest-any p [] s h = absurd (ground arith)
nearest-any p (x ∷ xs) s h = elim (Bool-cases (p x)) [
  | inr miss ↦ ground (arith, nearest-any p xs s)
  | inl hit ↦ elim (Option-cases (nearest p xs)) [
    | inl nothing ↦ let e : x ≡ s = ground arith in rw (e, ==_refl s.id) refl
    | inr (r, found) ↦
        let later = nearest-any p xs r found in
        elim (Bool-cases (comes_before x.next_run_at r.next_run_at)) [
          | inl before ↦ let e : x ≡ s = ground arith in rw (e, ==_refl s.id) refl
          | inr after ↦
              let e : r ≡ s = ground arith in
              subst (λ (t : Schedule). any (has_schedule_id t.id) (x ∷ xs) ≡ true) e (ground arith)
        ]
  ]
]

-- a row of the rest has another id
keyed_apart :
    (x : Schedule) (xs : List Schedule) (p : Schedule → Bool) (s : Schedule)
    → IsKeyed (x ∷ xs)
    → nearest p xs ≡ some s
    → has_schedule_id s.id x ≡ false
keyed_apart x xs p s v found = elim (Bool-cases (has_schedule_id s.id x)) [
  | inr apart ↦ apart
  | inl equal ↦
      let e : x.id ≡ s.id = (==_iff x.id s.id).0 equal in
      absurd (
        ground (
          arith,
          subst (λ (i : ℕ). any (has_schedule_id i) xs ≡ true) (sym e) (nearest-any p xs s found),
          v.0,
        ))
]

-- a mark on the nearest row keeps it nearest
pub nearest-set_skip :
    (p : Schedule → Bool) (reason : SkipReason) (ss : List Schedule) (s : Schedule)
    → ((r : Schedule) → p (set_skip reason r) ≡ p r)
    → IsKeyed ss
    → nearest p ss ≡ some s
    → nearest p (update_first (has_schedule_id s.id) (set_skip reason) ss)
      ≡ some (set_skip reason s)
unfolding nearest nearer update_first
nearest-set_skip p reason [] s keep v h = absurd (ground arith)
nearest-set_skip p reason (x ∷ xs) s keep v h = elim (Bool-cases (p x)) [
  | inr miss ↦
      let found : nearest p xs ≡ some s = ground arith in
      rw (keyed_apart x xs p s v found, miss) (nearest-set_skip p reason xs s keep v.1 found)
  | inl hit ↦ elim (Option-cases (nearest p xs)) [
    | inl nothing ↦
        let e : x ≡ s = ground arith in
        subst
          (λ (t : Schedule).
            nearest p (update_first (has_schedule_id t.id) (set_skip reason) (x ∷ xs))
            ≡ some (set_skip reason t))
          e (rw (==_refl x.id, keep x, hit, nothing) refl)
    | inr (r, found) ↦ elim (Bool-cases (comes_before x.next_run_at r.next_run_at)) [
      | inl before ↦
          let e : x ≡ s = ground arith in
          subst
            (λ (t : Schedule).
              nearest p (update_first (has_schedule_id t.id) (set_skip reason) (x ∷ xs))
              ≡ some (set_skip reason t))
            e (rw (==_refl x.id, keep x, hit, found, before) refl)
      | inr after ↦
          let e : r ≡ s = ground arith in
          subst
            (λ (t : Schedule).
              nearest p (update_first (has_schedule_id t.id) (set_skip reason) (x ∷ xs))
              ≡ some (set_skip reason t))
            e
            (rw
              (
                keyed_apart x xs p r v found,
                hit,
                nearest-set_skip p reason xs r keep v.1 found,
                after,
              )
              refl)
    ]
  ]
]

pub nearest-found :
    (p : Schedule → Bool) (ss : List Schedule) (s : Schedule)
    → IsKeyed ss
    → nearest p ss ≡ some s
    → find_first (has_schedule_id s.id) ss ≡ some s
unfolding nearest nearer find_first
nearest-found p [] s v h = absurd (ground arith)
nearest-found p (x ∷ xs) s v h = elim (Bool-cases (p x)) [
  | inr miss ↦
      let found : nearest p xs ≡ some s = ground arith in
      rw (keyed_apart x xs p s v found) (nearest-found p xs s v.1 found)
  | inl hit ↦ elim (Option-cases (nearest p xs)) [
    | inl nothing ↦ let e : x ≡ s = ground arith in rw (e, ==_refl s.id) refl
    | inr (r, found) ↦ elim (Bool-cases (comes_before x.next_run_at r.next_run_at)) [
      | inl before ↦ let e : x ≡ s = ground arith in rw (e, ==_refl s.id) refl
      | inr after ↦
          let e : r ≡ s = ground arith in
          subst (λ (t : Schedule). find_first (has_schedule_id t.id) (x ∷ xs) ≡ some t) e
            (rw (keyed_apart x xs p r v found) (nearest-found p xs r v.1 found))
    ]
  ]
]
