-- ===== src/Auth/RateLimit/Lockout.antt =====
-- The account lockout: every third failure in a row locks the account, for longer each time.
use mastermind_minecraft_ser.Prelude.{
  ℕ, suc, ◌+◌, ◌/◌, ◌%◌, ◌≤◌, ◌<◌, Bool, not, ◌≡◌, ◌≢◌, refl, sym, ◌∙◌, Text, same, same_refl,
  same_iff, none, some, List, [], ◌∷◌, length, leb, if◌then◌else◌, find_first, filter,
  find_first-update_first, find_first-update_first_self, find_first-holds, Bool-cases, Option-cases,
  inl, inr, arith,
}
use mastermind_minecraft_ser.Auth.RateLimit.{
  Crypto, Bucket, Row, has_key, new_row, count_request, increment_window_bucket, any_key,
  account_key, ip_bucket, count_login_failure, fail_login_rows, record_login_failure,
  get_account_state, assert_login_allowed, record_login_success, lockout_ms, retry_after,
}
use mastermind_minecraft_ser.Auth.RateLimit.Window.{latest_block-found, upsert-found, upsert-new}

count_request-key : (b : Bucket) (t : ℕ) (r : Row) → (count_request b t r).key_hash ≡ r.key_hash
unfolding count_request
count_request-key b t r = ground arith

count_login_failure-key : (t : ℕ) (r : Row) → (count_login_failure t r).key_hash ≡ r.key_hash
unfolding count_login_failure
count_login_failure-key t r = ground arith

-- the bucket of the address is not the account's row
other_key :
    (k : Text) (b : Bucket) (t : ℕ) (rows : List Row)
    → k ≢ b.key_hash
    → find_first (has_key k) (increment_window_bucket b t rows) ≡ find_first (has_key k) rows
unfolding increment_window_bucket find_first
other_key k b t rows ne = elim (Option-cases (find_first (has_key b.key_hash) rows)) [
  | inl nothing ↦
      rw (upsert-new b.key_hash t (count_request b t) rows nothing)
        (elim (Bool-cases (same b.key_hash k)) [
          | inl eq ↦ absurd (ne (sym ((same_iff b.key_hash k).0 eq)))
          | inr apart ↦ rw apart refl
        ])
  | inr (r, h) ↦ rw (upsert-found b.key_hash t (count_request b t) rows r h) (
      find_first-update_first (has_key b.key_hash) (has_key k) (count_request b t) rows
        (λ x. rw (count_request-key b t x) refl)
        (λ x q. elim (Bool-cases (has_key b.key_hash x)) [
          | inl eq ↦
              absurd
                (ne (sym ((same_iff x.key_hash k).0 q) ∙ (same_iff x.key_hash b.key_hash).0 eq))
          | inr apart ↦ apart
        ]))
]

module _ (c : Crypto) (email ip : Text)
    (apart : account_key c email ≢ (ip_bucket c ip).key_hash) where
  later_failure :
      (now : ℕ) (rows : List Row) (r : Row)
      → find_first (has_key (account_key c email)) rows ≡ some r
      → find_first (has_key (account_key c email)) (fail_login_rows c now email ip rows)
        ≡ some (count_login_failure now r)
  unfolding fail_login_rows
  later_failure now rows r h =
      let k = account_key c email in
      let rows1 = increment_window_bucket (ip_bucket c ip) now rows in
      let h1 = other_key k (ip_bucket c ip) now rows apart ∙ h in
      rw (upsert-found k now (count_login_failure now) rows1 r h1) (
        find_first-update_first_self (has_key k) (count_login_failure now) rows1 r
          (λ x. rw (count_login_failure-key now x) refl) h1)

  first_failure :
      (now : ℕ) (rows : List Row)
      → find_first (has_key (account_key c email)) rows ≡ none
      → find_first (has_key (account_key c email)) (fail_login_rows c now email ip rows)
        ≡ some (new_row (account_key c email) now)
  unfolding fail_login_rows find_first
  first_failure now rows h =
      let k = account_key c email in
      let rows1 = increment_window_bucket (ip_bucket c ip) now rows in
      rw
        (
          upsert-new k now (count_login_failure now) rows1
              (other_key k (ip_bucket c ip) now rows apart ∙ h),
          same_refl k,
        )
        refl

-- the third failure in a row locks the account
third_failure :
    (now : ℕ) (r : Row)
    → r.failures ≡ 2
    → (count_login_failure now r).blocked_until ≡ some (now + lockout_ms r.lockout_level)
unfolding count_login_failure
third_failure now r h = ground arith

fourth_failure :
    (now u : ℕ) (r : Row)
    → r.failures ≡ 2
    → (count_login_failure u (count_login_failure now r)).blocked_until ≡ none
unfolding count_login_failure
fourth_failure now u r h = ground arith

-- A third failure in a row locks the account for the time of its level: as long as the table stays as
-- that failure leaves it, each sign-in to the account before the end of the lock is refused, from any
-- address. But one more failure, which a sign-in that had passed its check records, takes the lock
-- away. This is provided that the account's key is not the key of the bucket of the address that
-- failed.
pub record_login_failure-locks :
    (c : Crypto) (email ip ip' : Text) (now t u : ℕ) (rows : List Row) (r : Row)
    → account_key c email ≢ (ip_bucket c ip).key_hash
    → find_first (has_key (account_key c email)) rows ≡ some r
    → r.failures ≡ 2
    → t < now + lockout_ms r.lockout_level
    → let locked = (record_login_failure c now email ip rows).0 in
      ((n : ℕ) × (assert_login_allowed c t email ip' locked ≡ some n))
      × (q : Row) × (find_first
            (has_key (account_key c email))
            (record_login_failure c u email ip locked).0
          ≡ some q)
      × (q.blocked_until ≡ none)
unfolding assert_login_allowed record_login_failure any_key
record_login_failure-locks c email ip ip' now t u rows r apart h two before =
    let k = account_key c email in
    let own : r.key_hash ≡ k = (same_iff r.key_hash k).0 (find_first-holds (has_key k) rows r h) in
    let (v, e) =
      latest_block-found (k ∷ (ip_bucket c ip').key_hash ∷ []) t (now + lockout_ms r.lockout_level)
        (has_key k) (fail_login_rows c now email ip rows) (count_login_failure now r)
        (later_failure c email ip apart now rows r h)
        (rw (count_login_failure-key now r, own, same_refl k) refl) (third_failure now r two)
        before in
    (
      (retry_after v t, rw (e, assert_login_allowed) refl),
      count_login_failure u (count_login_failure now r),
      later_failure c email ip apart u (fail_login_rows c now email ip rows)
          (count_login_failure now r) (later_failure c email ip apart now rows r h),
      fourth_failure now u r two,
    )

-- failures at the given times, one after the other
unfoldable pub fail_all : Crypto → Text → Text → List ℕ → List Row → List Row
unfolding record_login_failure
fail_all c email ip [] rows = rows
fail_all c email ip (t ∷ ts) rows =
    fail_all c email ip ts (record_login_failure c t email ip rows).0

abbrev pub at_most_4 : ℕ → ℕ
at_most_4 n = if leb 4 n then 4 else n

failure_step :
    (now : ℕ) (r : Row)
    → r.failures ≤ 2
    → r.lockout_level ≤ 4
    → ((count_login_failure now r).failures ≡ (r.failures + 1) % 3)
      × ((count_login_failure now r).lockout_level
          ≡ at_most_4 (r.lockout_level + (r.failures + 1) / 3))
unfolding count_login_failure
failure_step now r h l = elim (Bool-cases (leb 3 (r.failures + 1))) [
  | inl third ↦ (ground arith, ground arith)
  | inr early ↦ (ground arith, ground arith)
]

step_arith :
    (f l f' l' n : ℕ)
    → f ≤ 2
    → l ≤ 4
    → f' ≡ (f + 1) % 3
    → l' ≡ at_most_4 (l + (f + 1) / 3)
    → ((f' + n) % 3 ≡ (f + suc n) % 3)
      × (at_most_4 (l' + (f' + n) / 3) ≡ at_most_4 (l + (f + suc n) / 3))
      × (f' ≤ 2)
      × (l' ≤ 4)
step_arith f l f' l' n hf hl ef el = (omega arith, ground arith, omega arith, ground arith)

module _ (c : Crypto) (email ip : Text)
    (apart : account_key c email ≢ (ip_bucket c ip).key_hash) where
  more_failures :
      (ts : List ℕ) (rows : List Row) (r : Row)
      → find_first (has_key (account_key c email)) rows ≡ some r
      → r.failures ≤ 2
      → r.lockout_level ≤ 4
      → (r' : Row) × (find_first (has_key (account_key c email)) (fail_all c email ip ts rows)
          ≡ some r')
        × (r'.failures ≡ (r.failures + length ts) % 3)
        × (r'.lockout_level ≡ at_most_4 (r.lockout_level + (r.failures + length ts) / 3))
  unfolding fail_all record_login_failure
  more_failures [] rows r h hf hl = (r, h, omega arith, ground arith)
  more_failures (t ∷ ts) rows r h hf hl =
      let (ef, el) = failure_step t r hf hl in
      let (sf, sl, bf, bl) =
        step_arith r.failures r.lockout_level (count_login_failure t r).failures
          (count_login_failure t r).lockout_level (length ts) hf hl ef el in
      let (r', h', f', l') =
        more_failures ts (fail_login_rows c t email ip rows) (count_login_failure t r)
          (later_failure c email ip apart t rows r h) bf bl in
      (r', h', f' ∙ sf, l' ∙ sl)

-- After n failures in a row on an account without a record, whatever their times, the account has n
-- modulo three failures towards the next lockout and its level is the number of lockouts so far,
-- at most four, provided that the account's key is not the key of the bucket of the address.
pub record_login_failure-escalates :
    (c : Crypto) (email ip : Text) (rows : List Row) (ts : List ℕ)
    → account_key c email ≢ (ip_bucket c ip).key_hash
    → find_first (has_key (account_key c email)) rows ≡ none
    → let s = get_account_state c email (fail_all c email ip ts rows) in
      (s.failures ≡ length ts % 3) × (s.lockout_level ≡ at_most_4 (length ts / 3))
unfolding get_account_state fail_all record_login_failure
record_login_failure-escalates c email ip rows [] apart h = rw (h, get_account_state) (refl, refl)
record_login_failure-escalates c email ip rows (t ∷ ts) apart h =
    let (r, e, f, l) =
      more_failures c email ip apart ts (fail_login_rows c t email ip rows)
        (new_row (account_key c email) t) (first_failure c email ip apart t rows h) (omega arith)
        (omega arith) in
    rw (e, get_account_state) (ground (arith, f), ground (arith, l))

none_left : (p : Row → Bool) (rows : List Row) → find_first p (filter (λ r. not (p r)) rows) ≡ none
unfolding filter find_first
none_left p [] = refl
none_left p (r ∷ rows) = ground (arith, none_left p rows)

-- A successful sign-in forgets the account's failures and its level: the account has no row left.
pub record_login_success-resets :
    (c : Crypto) (email : Text) (rows : List Row)
    → find_first (has_key (account_key c email)) (record_login_success c email rows) ≡ none
unfolding record_login_success
record_login_success-resets c email rows = none_left (has_key (account_key c email)) rows
