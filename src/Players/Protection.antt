-- ===== src/Players/Protection.antt =====
-- The connection tools of a server (jobs.service.ts, enforceConnectionTools): players with a bad ping or from
-- blocked countries. The maps hold the keys of one server; the answer of the country service is an
-- argument, and jobs are taken to be made.
pub mod Cooldown
use mastermind_minecraft_ser.Prelude.{
  ℕ, zero, suc, ◌+◌, Bool, true, false, ◌&&◌, ◌||◌, not, Text, codes, same, starts_with, to_lower,
  Option, none, some, List, [], ◌∷◌, map, any, length, leb, ltb, ◌==◌, if◌then◌else◌,
}

-- A row of a roster as the tools read it: the Steam id, the name or the key, the ping and the address.
pub record Connection : Type 0 where
  pub identifier : Text
  pub ping : Option ℕ
  pub ip_address : Option Text

pub data CountryAction : Type 0 where
  kick ban : CountryAction

pub record Settings : Type 0 where
  pub high_ping_enabled : Bool
  pub high_ping_threshold_ms : ℕ
  pub high_ping_samples : ℕ
  pub country_ban_enabled : Bool
  pub blocked_country_codes : List Text
  pub country_action : CountryAction

pub data ToolJob : Type 0 where
  kick_for_ping : Text → ToolJob
  kick_for_country : Text → ToolJob
  ban_for_country : Text → ToolJob

-- A map from keys to numbers, the latest entry first; a missing key is 0.
abbrev pub Numbers : Type 0
Numbers = List (Text × ℕ)

unfoldable pub get_or_zero : Text → Numbers → ℕ
unfolding same
get_or_zero k [] = 0
get_or_zero k ((j, n) ∷ rest) = if same j k then n else get_or_zero k rest

unfoldable pub put : Text → ℕ → Numbers → Numbers
unfolding same
put k n [] = (k, n) ∷ []
put k n ((j, m) ∷ rest) = if same j k then (j, n) ∷ rest else (j, m) ∷ put k n rest

-- the entries that are later than the time
unfoldable pub prune : ℕ → Numbers → Numbers
prune now [] = []
prune now ((j, n) ∷ rest) = if ltb now n then (j, n) ∷ prune now rest else prune now rest

pub record Tools : Type 0 where
  pub cooldown : Numbers
  pub bad_ping : Numbers
  pub jobs : List ToolJob

-- `/^(10\.|127\.|192\.168\.|169\.254\.|172\.(1[6-9]|2\d|3[01])\.|::1$|fc|fd)/i`
unfoldable pub is_private_address : Text → Bool
unfolding starts_with to_lower same
is_private_address ip =
    let t = map to_lower ip in
    any (λ p. starts_with p t)
      (codes "10."
        ∷ codes "127."
        ∷ codes "192.168."
        ∷ codes "169.254."
        ∷ codes "fc"
        ∷ codes "fd"
        ∷ [])
    || any (λ p. starts_with p t)
        (codes "172.16."
          ∷ codes "172.17."
          ∷ codes "172.18."
          ∷ codes "172.19."
          ∷ codes "172.20."
          ∷ codes "172.21."
          ∷ codes "172.22."
          ∷ codes "172.23."
          ∷ codes "172.24."
          ∷ codes "172.25."
          ∷ codes "172.26."
          ∷ codes "172.27."
          ∷ codes "172.28."
          ∷ codes "172.29."
          ∷ codes "172.30."
          ∷ codes "172.31."
          ∷ [])
    || same t (codes "::1")

abbrev pub ping_cooldown_ms : ℕ
ping_cooldown_ms = 300000

abbrev pub country_cooldown_ms : ℕ
country_cooldown_ms = 86400000

-- the number of bad samples in a row, this one included
unfoldable pub bad_samples : Settings → ℕ → ℕ → ℕ
bad_samples settings ping before =
    if ltb settings.high_ping_threshold_ms ping then before + 1 else 0

abbrev pub add_bad : Text → ℕ → Tools → Tools
add_bad k n s = record s { bad_ping = put k n s.bad_ping }

abbrev pub kicked : Text → ℕ → Tools → Tools
kicked k now s = record {
  cooldown = put k (now + ping_cooldown_ms) s.cooldown;
  bad_ping = put k 0 s.bad_ping;
  jobs = kick_for_ping k ∷ s.jobs;
}

abbrev pub country_job : CountryAction → Text → ToolJob
country_job kick k = kick_for_country k
country_job ban k = ban_for_country k

abbrev pub barred : CountryAction → Text → ℕ → Tools → Tools
barred action k now s = record s {
  cooldown = put k (now + country_cooldown_ms) s.cooldown;
  jobs = country_job action k ∷ s.jobs;
}

-- `pruneProtectionState`, at each look-up of a country
unfoldable pub prune_protection_state : ℕ → Tools → Tools
unfolding prune
prune_protection_state now s = record s {
  cooldown = prune now s.cooldown;
  bad_ping = if ltb 2000 (length s.bad_ping) then [] else s.bad_ping;
}

unfoldable pub check_country : (Text → Text) → Settings → ℕ → Text → Option Text → Tools → Tools
unfolding is_private_address prune_protection_state same
check_country country settings now k none s = s
check_country country settings now k (some ip) s =
    if same ip [] || is_private_address ip
    then s
    else let looked = prune_protection_state now s in
      if not (same (country ip) []) && any (same (country ip)) settings.blocked_country_codes
      then barred settings.country_action k now looked
      else looked

unfoldable pub check_country_if : (Text → Text) → Settings → ℕ → Connection → Tools → Tools
unfolding check_country
check_country_if country settings now c s =
    if settings.country_ban_enabled
    then check_country country settings now c.identifier c.ip_address s
    else s

unfoldable pub check_ping : (Text → Text) → Settings → ℕ → Connection → ℕ → Tools → Tools
unfolding bad_samples check_country_if put get_or_zero
check_ping country settings now c ping s =
    let count = bad_samples settings ping (get_or_zero c.identifier s.bad_ping) in
    let counted = add_bad c.identifier count s in
    if leb settings.high_ping_samples count
    then kicked c.identifier now counted
    else check_country_if country settings now c counted

unfoldable pub check_connection : (Text → Text) → Settings → ℕ → Connection → Tools → Tools
unfolding check_ping check_country_if get_or_zero
check_connection country settings now c s =
    if ltb now (get_or_zero c.identifier s.cooldown) then s else elim c.ping [
      | none ↦ check_country_if country settings now c s
      | some ping ↦
          if settings.high_ping_enabled
          then check_ping country settings now c ping s
          else check_country_if country settings now c s
    ]

unfoldable pub check_all : (Text → Text) → Settings → ℕ → List Connection → Tools → Tools
unfolding check_connection
check_all country settings now [] s = s
check_all country settings now (c ∷ cs) s =
    check_all country settings now cs (check_connection country settings now c s)

unfoldable pub enforce_connection_tools :
    (Text → Text) → Option Settings → Bool → ℕ → List Connection → Tools → Tools
unfolding check_all
enforce_connection_tools country none has_member now cs s = s
enforce_connection_tools country (some settings) has_member now cs s =
    if (not settings.high_ping_enabled && not settings.country_ban_enabled) || not has_member
    then s
    else check_all country settings now cs s
