-- ===== src/Pairing/Examples.antt =====
-- Pairing on concrete input.
use mastermind_minecraft_ser.Prelude.{
  ℕ, ◌≡◌, refl, Text, codes, same, Option, none, some, [], ◌∷◌, find_first,
}
use mastermind_minecraft_ser.Pairing.{
  AgentJwtPayload, Crypto, PairingToken, Db, pair, paired, failed, already_used, Paired,
  complete_pairing, sign_agent_key, Rotated,
}
use mastermind_minecraft_ser.Pairing.Keys.{agent_payload, pair-once}

-- keys of the one host h1 of o1, which say the version only, and no hashing
unfoldable read_key : Text → Option AgentJwtPayload
read_key (n ∷ []) = some (agent_payload (codes "h1") (codes "o1") n)
read_key _ = none

abbrev plain : Crypto
plain = record { hash_token = λ t. t; sign = λ p. p.key_version ∷ []; verify = read_key }

abbrev token : PairingToken
token = record {
  id = codes "t1";
  org_id = codes "o1";
  token_hash = codes "secret";
  expires_at = 900000;
  used_at = none;
  used_by_host_id = none;
}

abbrev one_token : Db
one_token = record { tokens = token ∷ []; hosts = [] }

abbrev first_pairing : Paired
first_pairing = complete_pairing plain one_token 1000 (codes "h1") (codes "box") token

pairs :
    pair plain one_token 1000 (codes "h1") (codes "box") (codes " secret ") ≡ paired first_pairing
unfolding pair find_first same
pairs = refl

pair-once_example :
    pair plain first_pairing.db 2000 (codes "h2") (codes "other") (codes " secret ")
    ≡ failed already_used
pair-once_example =
    pair-once plain one_token 1000 2000 (codes "h1") (codes "h2") (codes "box") (codes "other")
      (codes " secret ") first_pairing (tt, tt) pairs

abbrev one_host : Db
one_host = record {
  tokens = [];
  hosts =
      record { id = codes "h1"; org_id = codes "o1"; name = codes "box"; agent_key_version = 1 }
      ∷ [];
}

abbrev rotation : Rotated
rotation = record {
  db = record {
    tokens = [];
    hosts =
        record { id = codes "h1"; org_id = codes "o1"; name = codes "box"; agent_key_version = 2 }
        ∷ [];
  };
  agent_key = 2 ∷ [];
}

signs :
    (n : ℕ)
    → plain.verify (sign_agent_key plain (codes "h1") (codes "o1") n)
      ≡ some (agent_payload (codes "h1") (codes "o1") n)
unfolding read_key sign_agent_key
signs n = refl
