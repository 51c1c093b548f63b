-- ===== src/Auth/Examples.antt =====
-- The limits on concrete input.
use mastermind_minecraft_ser.Prelude.{
  ℕ, ◌≤◌, ◌≡◌, ◌≢◌, refl, false, Text, codes, same, same_iff, none, some, List, [], ◌∷◌, trim,
  arith, find_first, update_first,
}
use mastermind_minecraft_ser.Auth.RateLimit.{
  Crypto, Bucket, Row, has_key, account_key, ip_bucket, any_key, is_later, later_of,
  record_login_failure, assert_login_allowed,
}
use mastermind_minecraft_ser.Auth.RateLimit.Window.{accepted, Within, IsFresh, consume-limit}
use mastermind_minecraft_ser.Auth.RateLimit.Lockout.{record_login_failure-locks}

-- keys that are not hashed at all, so that they cannot collide
abbrev plain : Crypto
plain = record { hmac = λ t. t; lower = λ t. t }

abbrev small_bucket : Bucket
small_bucket = record { key_hash = codes "k"; limit = 2; window_ms = 100; block_ms = 100 }

abbrev requests : List ℕ
requests = 1000 ∷ 1001 ∷ 1002 ∷ 1050 ∷ []

none_yet : IsFresh small_bucket 1000 []
unfolding find_first
none_yet r h = absurd (ground arith)

requests-Within : Within small_bucket 1000 requests
requests-Within = (omega arith, (omega arith, (omega arith, (omega arith, tt))))

consume-limit_example : accepted small_bucket [] requests ≤ 2
consume-limit_example =
    consume-limit small_bucket 1000 [] requests (omega arith) (omega arith) none_yet requests-Within

two_of_four : accepted small_bucket [] requests ≡ 2
unfolding accepted find_first update_first same any_key is_later later_of
two_of_four = refl

abbrev email : Text
email = codes "a@b.c"

abbrev ip : Text
ip = codes "10.0.0.1"

keys_differ : same (account_key plain email) (ip_bucket plain ip).key_hash ≡ false
unfolding same
keys_differ = refl

keys_apart : account_key plain email ≢ (ip_bucket plain ip).key_hash
keys_apart e =
    let same_keys = (same_iff (account_key plain email) (ip_bucket plain ip).key_hash).1 e in
    cc (same_keys, keys_differ)

abbrev two_failures : Row
two_failures = record {
  key_hash = account_key plain email;
  failures = 2;
  window_started_at = 500;
  blocked_until = none;
  lockout_level = 1;
  updated_at = 500;
}

two_failures_found :
    find_first (has_key (account_key plain email)) (two_failures ∷ []) ≡ some two_failures
unfolding find_first same trim
two_failures_found = refl

-- from an address that has not failed
record_login_failure-locks_example :
    let locked = (record_login_failure plain 1000 email ip (two_failures ∷ [])).0 in
    ((n : ℕ) × (assert_login_allowed plain 1500 email (codes "10.0.0.2") locked ≡ some n))
    × (q : Row) × (find_first
          (has_key (account_key plain email))
          (record_login_failure plain 1200 email ip locked).0
        ≡ some q)
    × (q.blocked_until ≡ none)
record_login_failure-locks_example =
    record_login_failure-locks plain email ip (codes "10.0.0.2") 1000 1500 1200 (two_failures ∷ [])
      two_failures keys_apart two_failures_found refl (omega arith)

abbrev four_times : List ℕ
four_times = 1 ∷ 2 ∷ 3 ∷ 4 ∷ []
