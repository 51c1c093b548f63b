-- ===== src/Donations/Signature/Hex.antt =====
-- Equality of hexadecimal texts.
use mastermind_minecraft_ser.Prelude.{
  ℕ, ◌<◌, Bool, true, false, not, ◌||◌, ◌≡◌, Text, same, same_iff, same_refl, none, some, [], ◌∷◌,
  All, length, ◌==◌, arith, is_space, if◌then◌else◌,
}
use mastermind_minecraft_ser.Prelude.Split.{Lacks, IsTight}
use mastermind_minecraft_ser.Grants.Items.{is_digit}
use mastermind_minecraft_ser.Donations.Signature.{hex_value, hex_byte, from_hex, safe_equal_hex}
use mastermind_minecraft_ser.Donations.Signature.Digits.{All-map}

-- a hexadecimal digit
abbrev pub IsHexDigit : ℕ → Type 0
IsHexDigit c = (v : ℕ) × (hex_value c ≡ some v)

-- What `digest('hex')` of a hash is: at least one pair of hexadecimal digits.
abbrev pub IsDigest : Text → Type 0
IsDigest [] = ⊥
IsDigest (a ∷ []) = ⊥
IsDigest (a ∷ b ∷ rest) = All IsHexDigit (a ∷ b ∷ rest)

pub from_hex-digest : (t : Text) → IsDigest t → 0 < length (from_hex t)
unfolding from_hex hex_byte
from_hex-digest [] h = absurd h
from_hex-digest (a ∷ []) h = absurd h
from_hex-digest (a ∷ b ∷ rest) h = rw (h.0.1, h.1.0.1, from_hex) (omega arith)

-- a digest equals itself
pub safe_equal_hex_refl : (t : Text) → IsDigest t → safe_equal_hex t t ≡ true
unfolding safe_equal_hex
safe_equal_hex_refl t h = ground (arith, from_hex-digest t h, same_refl (from_hex t))

unless_false : (p q : Bool) → (if p then false else q) ≡ true → (p ≡ false) × (q ≡ true)
unless_false p q h = (ground arith, ground arith)

some_bytes : (m n : ℕ) → (m == 0 || not (m == n)) ≡ false → 0 < n
some_bytes m n h = ground arith

-- equal texts hold the same bytes, and at least one
pub safe_equal_hex-bytes :
    (a b : Text) → safe_equal_hex a b ≡ true → (from_hex a ≡ from_hex b) × (0 < length (from_hex b))
unfolding safe_equal_hex
safe_equal_hex-bytes a b h =
    let (sized, equal) =
      unless_false (length (from_hex a) == 0 || not (length (from_hex a) == length (from_hex b)))
        (same (from_hex a) (from_hex b)) h in
    (
      (same_iff (from_hex a) (from_hex b)).0 equal,
      some_bytes (length (from_hex a)) (length (from_hex b)) sized,
    )

pub hex-lacks : (d c : ℕ) → hex_value d ≡ none → IsHexDigit c → (c == d) ≡ false
unfolding hex_value is_digit
hex-lacks d c other (v, h) = ground arith

pub hex-no_space : (c : ℕ) → IsHexDigit c → is_space c ≡ false
unfolding hex_value is_digit is_space
hex-no_space c (v, h) = ground arith

digest-digits : (t : Text) → IsDigest t → All IsHexDigit t
digest-digits [] h = tt
digest-digits (a ∷ []) h = absurd h
digest-digits (a ∷ b ∷ rest) h = h

pub digest-Lacks : (d : ℕ) (t : Text) → hex_value d ≡ none → IsDigest t → Lacks d t
digest-Lacks d t other h = All-map _ _ t (λ c. hex-lacks d c other) (digest-digits t h)

pub digest-IsTight : (t : Text) → IsDigest t → IsTight t
digest-IsTight t h = All-map _ _ t hex-no_space (digest-digits t h)
