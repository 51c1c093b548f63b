-- ===== src/Auth/RateLimit/Window.antt =====
-- A bucket lets through at most its limit in one window.
use mathlib.Core.Option.{some-injective}
use mastermind_minecraft_ser.Prelude.{
  ℕ, suc, ◌+◌, ◌≤◌, ◌<◌, Bool, true, false, ◌≡◌, ◌⊎◌, refl, Text, same_refl, same_iff, Option, none,
  some, List, [], ◌∷◌, All, leb, lt→ltb, find_first, update_first, find_first-update_first_self,
  find_first-holds, Bool-cases, Option-cases, inl, inr, arith,
}
use mastermind_minecraft_ser.Auth.RateLimit.{
  Bucket, Row, has_key, new_row, upsert, is_over, count_request, increment_window_bucket, is_later,
  any_key, later_of, blocks, latest_block, consume,
}

-- how many of the requests are let through
unfoldable pub accepted : Bucket → List Row → List ℕ → ℕ
unfolding consume
accepted b rows [] = 0
accepted b rows (t ∷ ts) = elim (consume b t rows) [
  | none ↦ accepted b rows ts
  | some rows' ↦ suc (accepted b rows' ts)
]

later_of-some : (u : ℕ) (b : Option ℕ) → (v : ℕ) × (later_of (some u) b ≡ some v)
unfolding later_of
later_of-some u none = (u, refl)
later_of-some u (some v) = elim (Bool-cases (leb u v)) [
  | inl le ↦ (v, rw le refl)
  | inr gt ↦ (u, rw gt refl)
]

-- a row that blocks one of the keys
pub latest_block-found :
    (keys : List Text) (t u : ℕ) (q : Row → Bool) (rows : List Row) (r : Row)
    → find_first q rows ≡ some r
    → any_key keys r.key_hash ≡ true
    → r.blocked_until ≡ some u
    → t < u
    → (v : ℕ) × (latest_block keys t rows ≡ some v)
unfolding find_first latest_block is_later
latest_block-found keys t u q [] r h k e l = absurd (ground arith)
latest_block-found keys t u q (x ∷ rows) r h k e l = elim (Bool-cases (q x)) [
  | inl here ↦
      let own : x ≡ r = some-injective x r (rw here at h) in
      let (v, e') = later_of-some u (latest_block keys t rows) in
      (v, rw (own, k, e, lt→ltb t u l) e')
  | inr on ↦
      let (v, e') = latest_block-found keys t u q rows r (rw on at h) k e l in
      elim (Bool-cases (blocks keys t x)) [
        | inr free ↦ (v, rw free e')
        | inl blocked ↦ elim (Option-cases x.blocked_until) [
          | inl open' ↦ absurd (ground arith)
          | inr (w, late) ↦
              let (v', e'') = later_of-some w (latest_block keys t rows) in
              (v', rw (blocked, late) e'')
        ]
      ]
]

one_key : (k : Text) → any_key (k ∷ []) k ≡ true
unfolding any_key
one_key k = rw (same_refl k) refl

blocked-refused :
    (b : Bucket) (t u : ℕ) (rows : List Row) (r : Row)
    → find_first (has_key b.key_hash) rows ≡ some r
    → r.blocked_until ≡ some u
    → t < u
    → consume b t rows ≡ none
unfolding consume
blocked-refused b t u rows r h e l =
    let own : r.key_hash ≡ b.key_hash =
      (same_iff r.key_hash b.key_hash).0 (find_first-holds (has_key b.key_hash) rows r h) in
    let (v, e') =
      latest_block-found (b.key_hash ∷ []) t u (has_key b.key_hash) rows r h
        (rw own (one_key b.key_hash)) e l in
    rw (e', consume) refl

blocked-none :
    (b : Bucket) (u : ℕ) (rows : List Row) (r : Row) (ts : List ℕ)
    → find_first (has_key b.key_hash) rows ≡ some r
    → r.blocked_until ≡ some u
    → All (λ t. t < u) ts
    → accepted b rows ts ≡ 0
unfolding accepted
blocked-none b u rows r [] h e l = refl
blocked-none b u rows r (t ∷ ts) h e l =
    rw (blocked-refused b t u rows r h e l.0, accepted) (blocked-none b u rows r ts h e l.1)

consume-cases :
    (b : Bucket) (t : ℕ) (rows : List Row)
    → (consume b t rows ≡ none) ⊎ (consume b t rows ≡ some (increment_window_bucket b t rows))
unfolding consume
consume-cases b t rows = elim (Option-cases (latest_block (b.key_hash ∷ []) t rows)) [
  | inl free ↦ inr (rw (free, consume) refl)
  | inr (v, late) ↦ inl (rw (late, consume) refl)
]

count_request-key : (b : Bucket) (t : ℕ) (r : Row) → (count_request b t r).key_hash ≡ r.key_hash
unfolding count_request
count_request-key b t r = ground arith

pub upsert-found :
    (k : Text) (now : ℕ) (f : Row → Row) (rows : List Row) (r : Row)
    → find_first (has_key k) rows ≡ some r
    → upsert k now f rows ≡ update_first (has_key k) f rows
unfolding upsert
upsert-found k now f rows r h = rw (h, upsert) refl

pub upsert-new :
    (k : Text) (now : ℕ) (f : Row → Row) (rows : List Row)
    → find_first (has_key k) rows ≡ none
    → upsert k now f rows ≡ new_row k now ∷ rows
unfolding upsert
upsert-new k now f rows h = rw (h, upsert) refl

counted :
    (b : Bucket) (t : ℕ) (rows : List Row) (r : Row)
    → find_first (has_key b.key_hash) rows ≡ some r
    → find_first (has_key b.key_hash) (increment_window_bucket b t rows)
      ≡ some (count_request b t r)
unfolding increment_window_bucket
counted b t rows r h = rw (upsert-found b.key_hash t (count_request b t) rows r h) (
    find_first-update_first_self (has_key b.key_hash) (count_request b t) rows r
      (λ x. rw (count_request-key b t x) refl) h)

-- times within one window that starts at `s`
abbrev pub Within : Bucket → ℕ → List ℕ → Type 0
Within b s ts = All (λ t. (s ≤ t) × (t < s + b.window_ms)) ts

before-block :
    (b : Bucket) (s u : ℕ) (ts : List ℕ) → s + b.window_ms ≤ u → Within b s ts → All (λ t. t < u) ts
before-block b s u [] l w = tt
before-block b s u (t ∷ ts) l w = (omega arith, before-block b s u ts l w.1)

module _ (b : Bucket) (t : ℕ) (r : Row) (open' : t < r.window_started_at + b.window_ms) where
  last_request :
      leb b.limit (r.failures + 1) ≡ true
      → (count_request b t r).blocked_until ≡ some (t + b.block_ms)
  unfolding count_request
  last_request h = ground arith

  next_request :
      leb b.limit (r.failures + 1) ≡ false
      → ((count_request b t r).window_started_at ≡ r.window_started_at)
        × ((count_request b t r).failures ≡ r.failures + 1)
        × (r.failures + 1 < b.limit)
  unfolding count_request
  next_request h = ground arith

-- a row in its window
counting :
    (b : Bucket) (s : ℕ) (rows : List Row) (r : Row) (ts : List ℕ)
    → b.window_ms ≤ b.block_ms
    → find_first (has_key b.key_hash) rows ≡ some r
    → s ≤ r.window_started_at
    → r.failures < b.limit
    → Within b s ts
    → accepted b rows ts + r.failures ≤ b.limit
unfolding accepted
counting b s rows r [] long h st few w = omega arith
counting b s rows r (t ∷ ts) long h st few w = elim (consume-cases b t rows) [
  | inl refused ↦ rw (refused, accepted) (counting b s rows r ts long h st few w.1)
  | inr through ↦
      let now = counted b t rows r h in
      let open' : t < r.window_started_at + b.window_ms = omega (arith, w.0.1) in
      elim (Bool-cases (leb b.limit (r.failures + 1))) [
        | inl last ↦
            let none_more =
              blocked-none b (t + b.block_ms) (increment_window_bucket b t rows)
                (count_request b t r) ts now (last_request b t r open' last)
                (before-block b s (t + b.block_ms) ts (omega (arith, w.0)) w.1) in
            rw (through, accepted) (omega (arith, none_more))
        | inr more ↦
            let (same_window, one_more, fits) = next_request b t r open' more in
            let rest =
              counting b s (increment_window_bucket b t rows) (count_request b t r) ts long now
                (omega (arith, same_window)) (omega (arith, one_more)) w.1 in
            rw (through, accepted) (omega (arith, rest, one_more))
      ]
]

-- the row of the bucket, where there is one, counts an earlier window
abbrev pub IsFresh : Bucket → ℕ → List Row → Type 0
IsFresh b s rows =
    (r : Row)
    → find_first (has_key b.key_hash) rows ≡ some r
    → r.window_started_at + b.window_ms < s

first_request :
    (b : Bucket) (s t : ℕ) (rows : List Row)
    → IsFresh b s rows
    → s ≤ t
    → (r : Row) × (find_first (has_key b.key_hash) (increment_window_bucket b t rows) ≡ some r)
      × (r.window_started_at ≡ t)
      × (r.failures ≡ 1)
unfolding increment_window_bucket find_first count_request
first_request b s t rows fresh le = elim (Option-cases (find_first (has_key b.key_hash) rows)) [
  | inl nothing ↦ (
    new_row b.key_hash t,
    rw (upsert-new b.key_hash t (count_request b t) rows nothing, same_refl b.key_hash) refl,
    refl,
    refl,
  )
  | inr (r, h) ↦
      let over : is_over b t r ≡ true =
        lt→ltb (r.window_started_at + b.window_ms) t (omega (arith, fresh r h)) in
      (count_request b t r, counted b t rows r h, ground arith, ground arith)
]

-- Of requests that come one after the other, each checked and counted before the next is checked, a
-- bucket lets through at most as many in one window as its limit, provided that the limit is at least two, that a block lasts at least as long as the
-- window, and that what the bucket has counted before belongs to a window that is over.
pub consume-limit :
    (b : Bucket) (s : ℕ) (rows : List Row) (ts : List ℕ)
    → 2 ≤ b.limit
    → b.window_ms ≤ b.block_ms
    → IsFresh b s rows
    → Within b s ts
    → accepted b rows ts ≤ b.limit
unfolding accepted
consume-limit b s rows [] some_limit long fresh w = omega arith
consume-limit b s rows (t ∷ ts) some_limit long fresh w = elim (consume-cases b t rows) [
  | inl refused ↦ rw (refused, accepted) (consume-limit b s rows ts some_limit long fresh w.1)
  | inr through ↦
      let (r, h, start, one) = first_request b s t rows fresh w.0.0 in
      let rest =
        counting b s (increment_window_bucket b t rows) r ts long h (omega (arith, start, w.0.0))
          (omega (arith, one)) w.1 in
      rw (through, accepted) (omega (arith, rest, one))
]
