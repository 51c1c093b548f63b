-- ===== src/Donations/Signature/Examples.antt =====
-- Signatures on concrete input.
use mastermind_minecraft_ser.Prelude.{
  same, ◌<◌, length, ◌+◌, ◌≤◌, ◌≡◌, refl, true, Text, codes, none, some, [], ◌∷◌, any,
  if◌then◌else◌, arith,
}
use mastermind_minecraft_ser.Json.{nan}
use mastermind_minecraft_ser.Grants.Items.{Runtime, is_digit}
use mastermind_minecraft_ser.Scheduler.Cron.{leading_digits}
use mastermind_minecraft_ser.Donations.Signature.{
  Hmac, StripeEvent, signature_tolerance_sec, signed_text, generate_test_header_string, read_header,
  is_decimal, from_hex, hex_value, verify_stripe_signature, unconfigured, bad_signature, event_of,
  construct_stripe_event_with_secrets,
}
use mastermind_minecraft_ser.Donations.Signature.Hex.{IsDigest}
use mastermind_minecraft_ser.Donations.Signature.Verified.{
  verify_stripe_signature-authentic, verify_stripe_signature-generated,
}
use mastermind_minecraft_ser.Donations.Signature.Secrets.{
  signs, filled_secrets, construct_stripe_event_with_secrets-any,
}

abbrev quiet : Runtime
quiet = record { to_number = λ t. nan; to_string = λ v. []; json_parse = λ t. none }

-- a digest that does not depend on the input
abbrev constant : Hmac
constant secret body = codes "0aFf"

constant-IsDigest : IsDigest (codes "0aFf")
unfolding hex_value is_digit
constant-IsDigest = ((0, refl), ((10, refl), ((15, refl), ((15, refl), tt))))

accepted :
    verify_stripe_signature constant
      (codes "{}")
      (generate_test_header_string constant (codes "{}") (codes "whsec") 1700000000)
      (codes "whsec")
      1700000300
    ≡ true
accepted =
    verify_stripe_signature-generated constant (codes "{}") (codes "whsec") 1700000000 1700000300
      constant-IsDigest (omega arith) (omega arith)

verify_stripe_signature-generated_example :
    verify_stripe_signature constant
      (codes "{}")
      (generate_test_header_string constant (codes "{}") (codes "whsec") 1700000000)
      (codes "whsec")
      1700000300
    ≡ true
verify_stripe_signature-generated_example =
    verify_stripe_signature-generated constant (codes "{}") (codes "whsec") 1700000000 1700000300
      constant-IsDigest (omega arith) (omega arith)

verify_stripe_signature-authentic_example :
    let header = generate_test_header_string constant (codes "{}") (codes "whsec") 1700000000 in
    let stamp = (read_header header).timestamp in
    (is_decimal stamp ≡ true)
    × (leading_digits 0 stamp ≤ 1700000300 + signature_tolerance_sec)
    × (1700000300 ≤ leading_digits 0 stamp + signature_tolerance_sec)
    × (signature : Text) × (any (same signature) (read_header header).signatures ≡ true)
    × (from_hex signature ≡ from_hex (constant (codes "whsec") (signed_text stamp (codes "{}"))))
    × (0 < length (from_hex signature))
verify_stripe_signature-authentic_example =
    verify_stripe_signature-authentic constant (codes "{}")
      (generate_test_header_string constant (codes "{}") (codes "whsec") 1700000000) (codes "whsec")
      1700000300 accepted

construct_stripe_event_with_secrets-any_example :
    construct_stripe_event_with_secrets quiet constant
      (codes "{}")
      (some (codes "t=1,v1=00"))
      (codes "old" ∷ codes "new" ∷ [])
      1
    ≡ (elim (filled_secrets (codes "old" ∷ codes "new" ∷ [])) as (λ x. StripeEvent) [
      | [] ↦ unconfigured
      | s ∷ rest ↦
          (if any (signs constant (codes "{}") (some (codes "t=1,v1=00")) 1) (s ∷ rest)
            then event_of (quiet.json_parse (codes "{}"))
            else bad_signature)
    ])
construct_stripe_event_with_secrets-any_example =
    construct_stripe_event_with_secrets-any quiet constant (codes "{}") (some (codes "t=1,v1=00"))
      (codes "old" ∷ codes "new" ∷ []) 1
