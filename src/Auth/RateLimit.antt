-- ===== src/Auth/RateLimit.antt =====
-- The request buckets and the escalating account lockout (auth-rate-limit.service.ts). Times and
-- spans are milliseconds; the statements of the database become functions on the table. The rare
-- clean-up of old rows is not part of it.
pub mod Window
pub mod Lockout
use mastermind_minecraft_ser.Prelude.{
  ℕ, zero, suc, ◌+◌, ◌*◌, ◌-◌, ◌/◌, Bool, true, false, ◌&&◌, ◌||◌, not, Text, codes, same, trim,
  take, Option, none, some, List, [], ◌∷◌, ◌++◌, filter, leb, ltb, ◌==◌, if◌then◌else◌, find_first,
  update_first,
}

-- HMAC-SHA256 under the server's secret, in hexadecimal, and `toLowerCase`
pub record Crypto : Type 0 where
  pub hmac : Text → Text
  pub lower : Text → Text

pub record Bucket : Type 0 where
  pub key_hash : Text
  pub limit : ℕ
  pub window_ms : ℕ
  pub block_ms : ℕ

pub record Row : Type 0 where
  pub key_hash : Text
  pub failures : ℕ
  pub window_started_at : ℕ
  pub blocked_until : Option ℕ
  pub lockout_level : ℕ
  pub updated_at : ℕ

pub record AccountLockoutState : Type 0 where
  pub failures : ℕ
  pub lockout_level : ℕ
  pub blocked_until : Option ℕ

abbrev pub minute : ℕ
minute = 60000

abbrev pub key : Crypto → Text → Text → Text
key c label value = c.hmac (label ++ (0 ∷ value))

abbrev pub account_key : Crypto → Text → Text
account_key c email = key c (codes "login-account-escalating") (c.lower (trim email))

unfoldable pub non_empty_ip : Text → Text
non_empty_ip [] = codes "unknown"
non_empty_ip ip = ip

unfoldable pub client_ip : Text → Text
unfolding non_empty_ip trim
client_ip ip = take 128 (trim (non_empty_ip ip))

abbrev pub ip_bucket : Crypto → Text → Bucket
ip_bucket c ip = record {
  key_hash = key c (codes "login-ip") (client_ip ip);
  limit = 20;
  window_ms = 15 * minute;
  block_ms = 30 * minute;
}

abbrev pub has_key : Text → Row → Bool
has_key k r = same r.key_hash k

abbrev pub new_row : Text → ℕ → Row
new_row k now = record {
  key_hash = k;
  failures = 1;
  window_started_at = now;
  blocked_until = none;
  lockout_level = 0;
  updated_at = now;
}

-- INSERT … ON CONFLICT (key_hash) DO UPDATE
unfoldable pub upsert : Text → ℕ → (Row → Row) → List Row → List Row
upsert k now f rows = elim (find_first (has_key k) rows) [
  | none ↦ new_row k now ∷ rows
  | some r ↦ update_first (has_key k) f rows
]

-- the window of the row is over
abbrev pub is_over : Bucket → ℕ → Row → Bool
is_over b now r = ltb (r.window_started_at + b.window_ms) now

unfoldable pub count_request : Bucket → ℕ → Row → Row
count_request b now r =
    if is_over b now r
    then record r { failures = 1; window_started_at = now; blocked_until = none; updated_at = now }
    else if leb b.limit (r.failures + 1)
    then record r {
      failures = r.failures + 1;
      blocked_until = some (now + b.block_ms);
      updated_at = now;
    }
    else record r { failures = r.failures + 1; updated_at = now }

unfoldable pub increment_window_bucket : Bucket → ℕ → List Row → List Row
unfolding upsert count_request
increment_window_bucket b now rows = upsert b.key_hash now (count_request b now) rows

unfoldable pub is_later : Option ℕ → ℕ → Bool
is_later none now = false
is_later (some t) now = ltb now t

unfoldable pub any_key : List Text → Text → Bool
unfolding same
any_key [] k = false
any_key (x ∷ xs) k = same k x || any_key xs k

unfoldable pub later_of : Option ℕ → Option ℕ → Option ℕ
later_of none b = b
later_of (some a) none = some a
later_of (some a) (some b) = if leb a b then some b else some a

-- the row blocks one of the keys
abbrev pub blocks : List Text → ℕ → Row → Bool
blocks keys now r = any_key keys r.key_hash && is_later r.blocked_until now

-- the block with the latest end
unfoldable pub latest_block : List Text → ℕ → List Row → Option ℕ
latest_block keys now [] = none
latest_block keys now (r ∷ rows) =
    let rest = latest_block keys now rows in
    if blocks keys now r then later_of r.blocked_until rest else rest

-- `Math.max(1, Math.ceil((until - now) / 1000))`, for an end that is after now
abbrev pub retry_after : ℕ → ℕ → ℕ
retry_after until now = (until - now + 999) / 1000

-- none: the request may go on; some n: it is refused, to be tried again in n seconds
unfoldable pub assert_login_allowed : Crypto → ℕ → Text → Text → List Row → Option ℕ
unfolding latest_block
assert_login_allowed c now email ip rows =
    elim (latest_block (account_key c email ∷ (ip_bucket c ip).key_hash ∷ []) now rows) [
      | none ↦ none
      | some until ↦ some (retry_after until now)
    ]

abbrev pub lockout_ms : ℕ → ℕ
lockout_ms level =
    if level == 0
    then 5 * minute
    else if level == 1
    then 30 * minute
    else if level == 2
    then 180 * minute
    else 1440 * minute

unfoldable pub count_login_failure : ℕ → Row → Row
count_login_failure now r =
    if leb 3 (r.failures + 1)
    then record r {
      failures = 0;
      window_started_at = now;
      blocked_until = some (now + lockout_ms r.lockout_level);
      lockout_level = if leb 4 (r.lockout_level + 1) then 4 else r.lockout_level + 1;
      updated_at = now;
    }
    else record r {
      failures = r.failures + 1;
      window_started_at = now;
      blocked_until = none;
      updated_at = now;
    }

unfoldable pub fail_login_rows : Crypto → ℕ → Text → Text → List Row → List Row
unfolding increment_window_bucket upsert count_login_failure
fail_login_rows c now email ip rows =
    upsert (account_key c email) now (count_login_failure now)
      (increment_window_bucket (ip_bucket c ip) now rows)

abbrev pub state_of : Row → AccountLockoutState
state_of r = record {
  failures = r.failures;
  lockout_level = r.lockout_level;
  blocked_until = r.blocked_until;
}

-- the state that the statement returns, when it locks the account
unfoldable pub locked_state : Option Row → ℕ → Option AccountLockoutState
unfolding is_later
locked_state none now = none
locked_state (some r) now = if is_later r.blocked_until now then some (state_of r) else none

unfoldable pub record_login_failure :
    Crypto → ℕ → Text → Text → List Row → List Row × Option AccountLockoutState
unfolding fail_login_rows locked_state
record_login_failure c now email ip rows =
    let rows' = fail_login_rows c now email ip rows in
    (rows', locked_state (find_first (has_key (account_key c email)) rows') now)

unfoldable pub record_login_success : Crypto → Text → List Row → List Row
record_login_success c email rows = filter (λ r. not (has_key (account_key c email) r)) rows

unfoldable pub get_account_state : Crypto → Text → List Row → AccountLockoutState
get_account_state c email rows = elim (find_first (has_key (account_key c email)) rows) [
  | none ↦ record { failures = 0; lockout_level = 0; blocked_until = none }
  | some r ↦ state_of r
]

-- the check of the bucket, which comes before its count; none: the request may go on
abbrev pub assert_bucket_open : Bucket → ℕ → List Row → Option ℕ
assert_bucket_open b now rows = latest_block (b.key_hash ∷ []) now rows

-- The check and then the count, as when no other request comes between these two statements.
-- none: refused
unfoldable pub consume : Bucket → ℕ → List Row → Option (List Row)
unfolding latest_block increment_window_bucket
consume b now rows = elim (assert_bucket_open b now rows) [
  | none ↦ some (increment_window_bucket b now rows)
  | some until ↦ none
]

-- the bucket of an address, with its limit, window and block
unfoldable pub address_bucket : Crypto → Text → Text → ℕ → ℕ → ℕ → Bucket
unfolding client_ip
address_bucket c label ip limit window_ms block_ms = record {
  key_hash = key c label (client_ip ip);
  limit = limit;
  window_ms = window_ms;
  block_ms = block_ms;
}

unfoldable pub consume_registration : Crypto → ℕ → Text → List Row → Option (List Row)
unfolding consume address_bucket
consume_registration c now ip rows =
    consume (address_bucket c (codes "register-ip") ip 5 (60 * minute) (60 * minute)) now rows

unfoldable pub consume_verification_resend : Crypto → ℕ → Text → List Row → Option (List Row)
unfolding consume address_bucket
consume_verification_resend c now ip rows =
    consume (address_bucket c (codes "verification-resend-ip") ip 5 (60 * minute) (60 * minute)) now
      rows

unfoldable pub consume_pairing : Crypto → ℕ → Text → List Row → Option (List Row)
unfolding consume address_bucket
consume_pairing c now ip rows =
    consume (address_bucket c (codes "pairing-ip") ip 10 minute minute) now rows

unfoldable pub consume_steam_verify : Crypto → ℕ → Text → List Row → Option (List Row)
unfolding consume address_bucket
consume_steam_verify c now ip rows =
    consume (address_bucket c (codes "steam-verify-ip") ip 20 (15 * minute) (15 * minute)) now rows

unfoldable pub consume_player_portal_register : Crypto → ℕ → Text → List Row → Option (List Row)
unfolding consume address_bucket
consume_player_portal_register c now ip rows =
    consume (address_bucket c (codes "player-portal-register-ip") ip 8 (60 * minute) (60 * minute))
      now rows

unfoldable pub consume_player_portal_login : Crypto → ℕ → Text → List Row → Option (List Row)
unfolding consume address_bucket
consume_player_portal_login c now ip rows =
    consume (address_bucket c (codes "player-portal-login-ip") ip 20 (15 * minute) (15 * minute))
      now rows

unfoldable pub consume_stripe_webhook : Crypto → ℕ → Text → List Row → Option (List Row)
unfolding consume address_bucket
consume_stripe_webhook c now ip rows =
    consume (address_bucket c (codes "stripe-webhook-ip") ip 120 minute minute) now rows
