-- ===== src/Pairing.antt =====
-- control-plane/src/pairing: how an agent gets its key, and how a key is checked and rotated.
pub mod Keys
mod Examples
use mastermind_minecraft_ser.Prelude.{
  ℕ, suc, ◌+◌, Bool, true, false, ◌&&◌, ◌||◌, not, Text, codes, same, trim, Option, none, some,
  List, [], ◌∷◌, ltb, ◌==◌, if◌then◌else◌, find_first, update_first,
}

-- What an agent's key says. An identifier that is missing is the empty text.
pub record AgentJwtPayload : Type 0 where
  pub sub : Text
  pub org_id : Text
  pub key_version : ℕ
  pub is_agent : Bool

-- SHA-256 in hexadecimal, and the signing and verifying of tokens by the JWT library
pub record Crypto : Type 0 where
  pub hash_token : Text → Text
  pub sign : AgentJwtPayload → Text
  pub verify : Text → Option AgentJwtPayload

-- Times are milliseconds.
pub record PairingToken : Type 0 where
  pub id : Text
  pub org_id : Text
  pub token_hash : Text
  pub expires_at : ℕ
  pub used_at : Option ℕ
  pub used_by_host_id : Option Text

pub record Host : Type 0 where
  pub id : Text
  pub org_id : Text
  pub name : Text
  pub agent_key_version : ℕ

pub record Db : Type 0 where
  pub tokens : List PairingToken
  pub hosts : List Host

abbrev pub has_hash : Text → PairingToken → Bool
has_hash h t = same t.token_hash h

abbrev pub has_token_id : Text → PairingToken → Bool
has_token_id id t = same t.id id

abbrev pub has_host_id : Text → Host → Bool
has_host_id id h = same h.id id

pub data PairError : Type 0 where
  invalid already_used expired : PairError

pub data Checked : Type 0 where
  usable : PairingToken → Checked
  refused : PairError → Checked

unfoldable pub is_used : PairingToken → Bool
is_used t = elim t.used_at [ none ↦ false | some at ↦ true ]

-- the first half of `pair`, which reads
unfoldable pub check_token : Crypto → Db → ℕ → Text → Checked
unfolding is_used trim
check_token c db now token = elim (find_first (has_hash (c.hash_token (trim token))) db.tokens) [
  | none ↦ refused invalid
  | some t ↦
      if is_used t
      then refused already_used
      else if ltb t.expires_at now
      then refused expired
      else usable t
]

abbrev pub mark_used : ℕ → Text → PairingToken → PairingToken
mark_used now host t = record t { used_at = some now; used_by_host_id = some host }

abbrev pub new_host : Text → Text → Text → Host
new_host id org name = record { id = id; org_id = org; name = name; agent_key_version = 1 }

unfoldable pub sign_agent_key : Crypto → Text → Text → ℕ → Text
sign_agent_key c host org version =
    c.sign (record { sub = host; org_id = org; key_version = version; is_agent = true })

pub record Paired : Type 0 where
  pub db : Db
  pub host_id : Text
  pub agent_key : Text

-- the second half, with the host's id, which is new, and its name
unfoldable pub complete_pairing : Crypto → Db → ℕ → Text → Text → PairingToken → Paired
unfolding sign_agent_key
complete_pairing c db now host name t = record {
  db = record {
    tokens = update_first (has_token_id t.id) (mark_used now host) db.tokens;
    hosts = new_host host t.org_id name ∷ db.hosts;
  };
  host_id = host;
  agent_key = sign_agent_key c host t.org_id 1;
}

pub data Pairing : Type 0 where
  paired : Paired → Pairing
  failed : PairError → Pairing

-- both halves with nothing in between; the audit row is left out
unfoldable pub pair : Crypto → Db → ℕ → Text → Text → Text → Pairing
unfolding check_token complete_pairing
pair c db now host name token = elim (check_token c db now token) [
  | refused e ↦ failed e
  | usable t ↦ paired (complete_pairing c db now host name t)
]

pub data KeyError : Type 0 where
  invalid_token no_host rotated expired_token : KeyError

pub data Verified : Type 0 where
  accepted : AgentJwtPayload → Verified
  rejected : KeyError → Verified

unfoldable pub check_payload : Db → AgentJwtPayload → Verified
check_payload db p =
    if not p.is_agent || same p.sub [] || same p.org_id []
    then rejected invalid_token
    else elim (find_first (has_host_id p.sub) db.hosts) [
      | none ↦ rejected no_host
      | some h ↦
          if not (same h.org_id p.org_id)
          then rejected no_host
          else if not (h.agent_key_version == p.key_version)
          then rejected rotated
          else accepted p
    ]

unfoldable pub verify_agent_key : Crypto → Db → Text → Verified
unfolding check_payload
verify_agent_key c db token = elim (c.verify token) [
  | none ↦ rejected expired_token
  | some p ↦ check_payload db p
]

pub record Rotated : Type 0 where
  pub db : Db
  pub agent_key : Text

abbrev pub set_version : ℕ → Host → Host
set_version n h = record h { agent_key_version = n }

-- none: the host is not there or of another organization
unfoldable pub rotate_agent_key : Crypto → Db → Text → Text → Option Rotated
unfolding sign_agent_key
rotate_agent_key c db org id = elim (find_first (has_host_id id) db.hosts) [
  | none ↦ none
  | some h ↦
      if same h.org_id org
      then some (record {
        db = record db {
          hosts = update_first (has_host_id id) (set_version (h.agent_key_version + 1)) db.hosts;
        };
        agent_key = sign_agent_key c id org (h.agent_key_version + 1);
      })
      else none
]
