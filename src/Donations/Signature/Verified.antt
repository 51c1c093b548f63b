-- ===== src/Donations/Signature/Verified.antt =====
-- Accepted signatures and generated ones (donations.stripe.ts).
use mastermind_minecraft_ser.Prelude.{
  ℕ, ◌+◌, ◌≤◌, Bool, true, false, not, ◌||◌, ◌≡◌, refl, ap, ◌∙◌, Text, codes, same, same_refl, ◌<◌,
  length, List, [], ◌∷◌, ◌++◌, All, all, any, leb, arith, if◌then◌else◌, Bool-cases, inl, inr,
  split_on, split_commas,
}
use mastermind_minecraft_ser.Prelude.Split.{
  Lacks, IsTight, split_on-Lacks, split_on-append, trim-tight,
}
use mastermind_minecraft_ser.Grants.Items.{is_digit}
use mastermind_minecraft_ser.Grants.Command.{decimal}
use mastermind_minecraft_ser.Scheduler.Cron.{leading_digits}
use mastermind_minecraft_ser.Donations.Signature.{
  Hmac, signature_tolerance_sec, signed_text, generate_test_header_string, read_header, read_parts,
  read_pair, with_value, is_decimal, distance, from_hex, verify_stripe_signature,
}
use mastermind_minecraft_ser.Donations.Signature.Digits.{
  IsNumeral, leading_digits-decimal, decimal-IsNumeral, decimal-Lacks, decimal-IsTight,
}
use mastermind_minecraft_ser.Donations.Signature.Hex.{
  IsDigest, safe_equal_hex_refl, safe_equal_hex-bytes, digest-Lacks, digest-IsTight,
}

any-witness :
    (p : Text → Bool) (xs : List Text)
    → any p xs ≡ true
    → (x : Text) × (any (same x) xs ≡ true) × (p x ≡ true)
any-witness p [] h = absurd (ground arith)
any-witness p (x ∷ xs) h = elim (Bool-cases (p x)) [
  | inl hit ↦ (x, rw (same_refl x) refl, hit)
  | inr miss ↦
      let (y, among, holds) = any-witness p xs (ground arith) in (y, ground (arith, among), holds)
]

All-all : (p : ℕ → Bool) (xs : List ℕ) → All (λ x. p x ≡ true) xs → all p xs ≡ true
All-all p [] h = refl
All-all p (x ∷ xs) h = rw (h.0, All-all p xs h.1) refl

-- a time that is near enough
near_enough :
    (a b : ℕ)
    → leb (distance a b) signature_tolerance_sec ≡ true
    → (b ≤ a + signature_tolerance_sec) × (a ≤ b + signature_tolerance_sec)
unfolding distance
near_enough a b h = (ground arith, ground arith)

is_near :
    (a b : ℕ)
    → b ≤ a + signature_tolerance_sec
    → a ≤ b + signature_tolerance_sec
    → leb (distance a b) signature_tolerance_sec ≡ true
unfolding distance
is_near a b h k = ground arith

three_tests :
    (p e q r : Bool)
    → (if not p || e then false else if not q then false else r) ≡ true
    → (p ≡ true) × (q ≡ true) × (r ≡ true)
three_tests p e q r h = (ground arith, ground arith, ground arith)

-- A body is accepted only under a header with a timestamp of digits within 300 seconds of the present,
-- and with a signature, one of those that the header gives, that has bytes, and the bytes are those of the
-- HMAC of that timestamp and that body under the secret.
pub verify_stripe_signature-authentic :
    (hmac : Hmac) (payload header secret : Text) (now : ℕ)
    → verify_stripe_signature hmac payload header secret now ≡ true
    → let stamp = (read_header header).timestamp in
      (is_decimal stamp ≡ true)
      × (leading_digits 0 stamp ≤ now + signature_tolerance_sec)
      × (now ≤ leading_digits 0 stamp + signature_tolerance_sec)
      × (signature : Text) × (any (same signature) (read_header header).signatures ≡ true)
      × (from_hex signature ≡ from_hex (hmac secret (signed_text stamp payload)))
      × (0 < length (from_hex signature))
unfolding verify_stripe_signature
verify_stripe_signature-authentic hmac payload header secret now h =
    let stamp = (read_header header).timestamp in
    let (formed, near, signed) = three_tests _ _ _ _ h in
    let (s, among, equal) = any-witness _ (read_header header).signatures signed in
    let (bytes, some_bytes) =
      safe_equal_hex-bytes s (hmac secret (signed_text stamp payload)) equal in
    (
      formed,
      (near_enough now (leading_digits 0 stamp) near).0,
      (near_enough now (leading_digits 0 stamp) near).1,
      s,
      among,
      bytes,
      rw bytes some_bytes,
    )

digest-filled : (t : Text) → IsDigest t → same t [] ≡ false
unfolding same
digest-filled [] h = absurd h
digest-filled (c ∷ t) h = refl

is_decimal-IsNumeral : (t : Text) → IsNumeral t → is_decimal t ≡ true
unfolding is_decimal
is_decimal-IsNumeral [] h = absurd h
is_decimal-IsNumeral (c ∷ t) h = All-all is_digit (c ∷ t) h

-- the parts of a header that the generator wrote
generated :
    (stamp digest : Text)
    → Lacks b',' stamp
    → Lacks b'=' stamp
    → IsTight stamp
    → IsDigest digest
    → Lacks b',' digest
    → Lacks b'=' digest
    → IsTight digest
    → read_header (codes "t=" ++ (stamp ++ (b',' ∷ (codes "v1=" ++ digest))))
      ≡ record { timestamp = stamp; signatures = digest ∷ [] }
unfolding read_header read_parts split_commas read_pair with_value same
generated stamp digest no_comma no_equals tight digits no_comma2 no_equals2 tight2 =
    let parts =
      split_on-append b',' (codes "t=" ++ stamp) (codes "v1=" ++ digest) (refl, (refl, no_comma))
      ∙ ap (λ (ps : List Text). (codes "t=" ++ stamp) ∷ ps)
          (split_on-Lacks b',' (codes "v1=" ++ digest) (refl, (refl, (refl, no_comma2)))) in
    let first =
      ap (split_on b'=') (trim-tight (codes "t=" ++ stamp) (refl, (refl, tight)))
      ∙ split_on-append b'=' (codes "t") stamp (refl, tt)
      ∙ ap (λ (ps : List Text). codes "t" ∷ ps) (split_on-Lacks b'=' stamp no_equals) in
    let second =
      ap (split_on b'=') (trim-tight (codes "v1=" ++ digest) (refl, (refl, (refl, tight2))))
      ∙ split_on-append b'=' (codes "v1") digest (refl, (refl, tt))
      ∙ ap (λ (ps : List Text). codes "v1" ∷ ps) (split_on-Lacks b'=' digest no_equals2) in
    rw
      (
        read_header,
        split_commas,
        parts,
        read_parts,
        first,
        second,
        read_pair,
        with_value,
        digest-filled digest digits,
      )
      refl

is_decimal-decimal : (n : ℕ) → is_decimal (decimal n) ≡ true
is_decimal-decimal n = is_decimal-IsNumeral (decimal n) (decimal-IsNumeral n)

-- A header that the generator makes is accepted for its body, under its secret and within 300 seconds of
-- its time, where the HMAC is a hexadecimal digest.
pub verify_stripe_signature-generated :
    (hmac : Hmac) (payload secret : Text) (timestamp now : ℕ)
    → IsDigest (hmac secret (signed_text (decimal timestamp) payload))
    → now ≤ timestamp + signature_tolerance_sec
    → timestamp ≤ now + signature_tolerance_sec
    → verify_stripe_signature hmac payload
        (generate_test_header_string hmac payload secret timestamp)
        secret
        now
      ≡ true
unfolding verify_stripe_signature generate_test_header_string
verify_stripe_signature-generated hmac payload secret timestamp now digits late early =
    let digest = hmac secret (signed_text (decimal timestamp) payload) in
    let header =
      generated (decimal timestamp) digest (decimal-Lacks b',' timestamp refl)
        (decimal-Lacks b'=' timestamp refl) (decimal-IsTight timestamp) digits
        (digest-Lacks b',' digest refl digits) (digest-Lacks b'=' digest refl digits)
        (digest-IsTight digest digits) in
    rw
      (
        generate_test_header_string,
        header,
        is_decimal-decimal timestamp,
        leading_digits-decimal timestamp,
        safe_equal_hex_refl digest digits,
        is_near now timestamp early late,
      )
      refl
