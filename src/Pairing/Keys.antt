-- ===== src/Pairing/Keys.antt =====
-- A rotated key is refused, and a pairing token that two agents have read pairs both.
use mathlib.Core.Path.{subst}
use mathlib.Core.Option.{some-injective}
use mastermind_minecraft_ser.Prelude.{
  ℕ, ◌+◌, Bool, true, false, ◌||◌, not, ◌≡◌, ◌≢◌, ◌⊎◌, refl, ap, ◌∙◌, Text, same, same_refl, trim,
  some, List, [], ◌∷◌, All, ltb, ◌==◌, ==_refl, if◌then◌else◌, find_first, update_first,
  find_first-update_first_self, Bool-cases, Option-cases, inl, inr, arith,
}
use mastermind_minecraft_ser.Pairing.{
  AgentJwtPayload, Crypto, PairingToken, Host, Db, has_hash, has_token_id, has_host_id, Checked,
  usable, refused, check_token, is_used, mark_used, sign_agent_key, complete_pairing, Paired,
  PairError, already_used, pair, paired, failed, Pairing, accepted, rejected, rotated,
  check_payload, verify_agent_key, Rotated, set_version, rotate_agent_key,
}

not_empty : (t : Text) → t ≢ [] → same t [] ≡ false
unfolding same
not_empty [] h = absurd (h refl)
not_empty (x ∷ t) h = refl

-- what `rotate_agent_key` gives
rotation :
    (c : Crypto) (db : Db) (org id : Text) (r : Rotated)
    → rotate_agent_key c db org id ≡ some r
    → (h : Host) × (find_first (has_host_id id) db.hosts ≡ some h)
      × (same h.org_id org ≡ true)
      × (record {
        db = record db {
          hosts = update_first (has_host_id id) (set_version (h.agent_key_version + 1)) db.hosts;
        };
        agent_key = sign_agent_key c id org (h.agent_key_version + 1);
      }
          ≡ r)
unfolding rotate_agent_key
rotation c db org id r e = elim (Option-cases (find_first (has_host_id id) db.hosts)) [
  | inl nothing ↦ absurd (ground arith)
  | inr (h, found) ↦ elim (Bool-cases (same h.org_id org)) [
    | inr other ↦ absurd (ground arith)
    | inl own ↦ (h, found, own, some-injective _ _ (rw (found, own, rotate_agent_key) at e))
  ]
]

check_payload-of :
    (db : Db) (p : AgentJwtPayload) (h : Host)
    → (not p.is_agent || same p.sub [] || same p.org_id []) ≡ false
    → find_first (has_host_id p.sub) db.hosts ≡ some h
    → same h.org_id p.org_id ≡ true
    → check_payload db p
      ≡ (if h.agent_key_version == p.key_version then accepted p else rejected rotated)
unfolding check_payload
check_payload-of db p h good found own = elim (Bool-cases (h.agent_key_version == p.key_version)) [
  | inl now ↦ rw (good, found, own, now, check_payload) refl
  | inr old ↦ rw (good, found, own, old, check_payload) refl
]

abbrev pub agent_payload : Text → Text → ℕ → AgentJwtPayload
agent_payload id org n = record { sub = id; org_id = org; key_version = n; is_agent = true }

-- The key that a rotation gives is accepted as one of the host and the organization, provided that the
-- library verifies what it has signed for them and that the host and the organization have identifiers.
pub rotate_agent_key-accepted :
    (c : Crypto) (db : Db) (org id : Text) (r : Rotated)
    → ((n : ℕ) → c.verify (sign_agent_key c id org n) ≡ some (agent_payload id org n))
    → id ≢ []
    → org ≢ []
    → rotate_agent_key c db org id ≡ some r
    → (p : AgentJwtPayload) × (verify_agent_key c r.db r.agent_key ≡ accepted p)
      × (p.sub ≡ id)
      × (p.org_id ≡ org)
unfolding verify_agent_key sign_agent_key
rotate_agent_key-accepted c db org id r signed some_id some_org e =
    let (h, found, own, made) = rotation c db org id r e in
    let next = set_version (h.agent_key_version + 1) in
    let p = agent_payload id org (h.agent_key_version + 1) in
    let after = find_first-update_first_self (has_host_id id) next db.hosts h (λ x. refl) found in
    let good : (same id [] || same org []) ≡ false =
      rw (not_empty id some_id, not_empty org some_org) refl in
    (
      p,
      subst (λ (d : Rotated). verify_agent_key c d.db d.agent_key ≡ accepted p) made
          (rw (signed (h.agent_key_version + 1), verify_agent_key)
            (check_payload-of (record db { hosts = update_first (has_host_id id) next db.hosts }) p
                (next h) good after own
              ∙ rw (==_refl (h.agent_key_version + 1)) refl)),
      refl,
      refl,
    )

-- the ids of the rows are distinct
abbrev pub AreDistinct : List PairingToken → Type 0
AreDistinct [] = Unit
AreDistinct (t ∷ ts) = All (λ x. same t.id x.id ≡ false) ts × AreDistinct ts

find_first-All :
    (P : PairingToken → Type 0) (q : PairingToken → Bool) (ts : List PairingToken)
    (t : PairingToken)
    → All P ts
    → find_first q ts ≡ some t
    → P t
unfolding find_first
find_first-All P q [] t a h = absurd (ground arith)
find_first-All P q (x ∷ ts) t a h = elim (Bool-cases (q x)) [
  | inl here ↦ subst P (some-injective x t (rw here at h)) a.0
  | inr on ↦ find_first-All P q ts t a.1 (rw on at h)
]

-- the row that is found by its hash is the one that is written by its id
marked :
    (hash : Text) (now : ℕ) (host : Text) (ts : List PairingToken) (t : PairingToken)
    → AreDistinct ts
    → find_first (has_hash hash) ts ≡ some t
    → find_first (has_hash hash) (update_first (has_token_id t.id) (mark_used now host) ts)
      ≡ some (mark_used now host t)
unfolding find_first update_first
marked hash now host [] t d h = absurd (ground arith)
marked hash now host (x ∷ ts) t d h = elim (Bool-cases (has_hash hash x)) [
  | inl here ↦
      let this : x ≡ t = some-injective x t (rw here at h) in
      subst
        (λ (y : PairingToken).
          find_first (has_hash hash)
            (update_first (has_token_id y.id) (mark_used now host) (x ∷ ts))
          ≡ some (mark_used now host y))
        this (rw (same_refl x.id, here) refl)
  | inr on ↦
      let found : find_first (has_hash hash) ts ≡ some t = rw on at h in
      let other : same x.id t.id ≡ false =
        find_first-All (λ y. same x.id y.id ≡ false) (has_hash hash) ts t d.0 found in
      rw (other, on) (marked hash now host ts t d.1 found)
]

token_of : PairingToken → Checked → PairingToken
token_of d (usable t) = t
token_of d (refused e) = d

Checked-cases :
    (v : Checked) → ((e : PairError) × (v ≡ refused e)) ⊎ ((t : PairingToken) × (v ≡ usable t))
Checked-cases (refused e) = inl (e, refl)
Checked-cases (usable t) = inr (t, refl)

check_token-usable :
    (c : Crypto) (db : Db) (now : ℕ) (token : Text) (t : PairingToken)
    → check_token c db now token ≡ usable t
    → find_first (has_hash (c.hash_token (trim token))) db.tokens ≡ some t
unfolding check_token token_of
check_token-usable c db now token t h =
    elim (Option-cases (find_first (has_hash (c.hash_token (trim token))) db.tokens)) [
      | inl nothing ↦ absurd (ground arith)
      | inr (t', found) ↦ elim (Bool-cases (is_used t')) [
        | inl used ↦ absurd (ground arith)
        | inr fresh ↦ elim (Bool-cases (ltb t'.expires_at now)) [
          | inl late ↦ absurd (ground arith)
          | inr good ↦
              found ∙ ap some (ap (token_of t') (rw (found, fresh, good, check_token) at h))
        ]
      ]
    ]

used_token :
    (c : Crypto) (db : Db) (now : ℕ) (token : Text) (t : PairingToken)
    → find_first (has_hash (c.hash_token (trim token))) db.tokens ≡ some t
    → is_used t ≡ true
    → check_token c db now token ≡ refused already_used
unfolding check_token
used_token c db now token t found used = rw (found, used, check_token) refl

paired_or : Paired → Pairing → Paired
paired_or d (paired x) = x
paired_or d (failed e) = d

-- A pairing token pairs one host, when requests come one after the other and the ids of the tokens
-- are distinct: after a pairing, each later one with the same token is refused as already used.
pub pair-once :
    (c : Crypto) (db : Db) (now later : ℕ) (host host' name name' token : Text) (x : Paired)
    → AreDistinct db.tokens
    → pair c db now host name token ≡ paired x
    → pair c x.db later host' name' token ≡ failed already_used
unfolding pair complete_pairing is_used paired_or
pair-once c db now later host host' name name' token x d e =
    elim (Checked-cases (check_token c db now token)) [
      | inl (r, refuse) ↦ absurd (ground arith)
      | inr (t, go) ↦
          let found = check_token-usable c db now token t go in
          let made : complete_pairing c db now host name t ≡ x =
            ap (paired_or x) (rw (go, pair) at e) in
          let again : check_token c (complete_pairing c db now host name t).db later token
              ≡ refused already_used =
            used_token c (complete_pairing c db now host name t).db later token
              (mark_used now host t)
              (marked (c.hash_token (trim token)) now host db.tokens t d found) refl in
          subst (λ (y : Paired). pair c y.db later host' name' token ≡ failed already_used) made
            (rw (again, pair) refl)
    ]
