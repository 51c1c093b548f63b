-- ===== src/Players/Protection/Cooldown.antt =====
-- The cooldown of the connection tools (enforceConnectionTools of jobs.service.ts).
use mathlib.Core.Path.{subst}
use mastermind_minecraft_ser.Prelude.{
  ℕ, ◌+◌, ◌≤◌, ◌<◌, Bool, true, false, not, ◌&&◌, ◌||◌, ◌≡◌, ◌⊎◌, refl, ap, ◌∙◌, Text, same,
  same_iff, same_refl, Option, none, some, List, [], ◌∷◌, any, total, leb, ltb, arith,
  if◌then◌else◌, Bool-cases, inl, inr,
}
use mastermind_minecraft_ser.Players.Protection.{
  Connection, Settings, CountryAction, kick, ban, ToolJob, kick_for_ping, kick_for_country,
  ban_for_country, Numbers, Tools, get_or_zero, put, prune, country_job, add_bad, bad_samples,
  is_private_address, prune_protection_state, check_country, check_country_if, check_ping,
  check_connection, check_all, enforce_connection_tools, ping_cooldown_ms,
}

abbrev pub identifier_of : ToolJob → Text
identifier_of (kick_for_ping k) = k
identifier_of (kick_for_country k) = k
identifier_of (ban_for_country k) = k

-- how many jobs were made for the player
abbrev pub jobs_for : Text → Tools → ℕ
jobs_for k s = total (λ j. if same (identifier_of j) k then 1 else 0) s.jobs

get-put_self : (k : Text) (n : ℕ) (m : Numbers) → get_or_zero k (put k n m) ≡ n
unfolding get_or_zero put
get-put_self k n [] = rw (same_refl k) refl
get-put_self k n ((j, v) ∷ rest) = elim (Bool-cases (same j k)) [
  | inl own ↦ rw own (rw own refl)
  | inr other ↦ rw other (rw other (get-put_self k n rest))
]

get-put_other :
    (j k : Text) (n : ℕ) (m : Numbers)
    → same j k ≡ false
    → get_or_zero k (put j n m) ≡ get_or_zero k m
unfolding get_or_zero put
get-put_other j k n [] h = rw (h) refl
get-put_other j k n ((i, v) ∷ rest) h = elim (Bool-cases (same i j)) [
  | inl own ↦
      let e : same i k ≡ false = ap (λ (t : Text). same t k) ((same_iff i j).0 own) ∙ h in
      rw (own, e, get_or_zero) refl
  | inr other ↦ rw (other) (ap (λ (x : ℕ). if same i k then v else x) (get-put_other j k n rest h))
]

get-prune :
    (k : Text) (now : ℕ) (m : Numbers)
    → ltb now (get_or_zero k m) ≡ true
    → get_or_zero k (prune now m) ≡ get_or_zero k m
unfolding get_or_zero prune
get-prune k now [] h = refl
get-prune k now ((j, v) ∷ rest) h = ground (arith, get-prune k now rest)

-- What a step at a time does for a player: no job, and a cooldown that lasts stays; or one job, when no
-- cooldown lasts, and a cooldown of at least five minutes.
abbrev Paced : Text → ℕ → Tools → Tools → Type 0
Paced k now s t =
    ((jobs_for k t ≡ jobs_for k s)
      × (ltb now (get_or_zero k s.cooldown) ≡ true
          → get_or_zero k t.cooldown ≡ get_or_zero k s.cooldown))
    ⊎ ((ltb now (get_or_zero k s.cooldown) ≡ false)
        × (jobs_for k t ≡ jobs_for k s + 1)
        × (now + ping_cooldown_ms ≤ get_or_zero k t.cooldown))

Paced-if :
    (k : Text) (now : ℕ) (s x y : Tools) (b : Bool)
    → Paced k now s x
    → Paced k now s y
    → Paced k now s (if b then x else y)
Paced-if k now s x y true hx hy = hx
Paced-if k now s x y false hx hy = hy

Paced-refl : (k : Text) (now : ℕ) (s : Tools) → Paced k now s s
Paced-refl k now s = inl (refl, λ h. refl)

-- a job for a player without a lasting cooldown
acted :
    (k i : Text) (now until : ℕ) (job : ToolJob) (s : Tools) (bad : Numbers)
    → identifier_of job ≡ i
    → ltb now (get_or_zero i s.cooldown) ≡ false
    → now + ping_cooldown_ms ≤ until
    → (cooldown : Numbers)
    → (ltb now (get_or_zero k s.cooldown) ≡ true
        → get_or_zero k cooldown ≡ get_or_zero k s.cooldown)
    → Paced k now s
        (record { cooldown = put i until cooldown; bad_ping = bad; jobs = job ∷ s.jobs })
unfolding total
acted k i now until job s bad own free long cooldown keep = elim (Bool-cases (same i k)) [
  | inr other ↦
      let j : same (identifier_of job) k ≡ false = ap (λ (t : Text). same t k) own ∙ other in
      inl (rw j (omega arith), λ h. get-put_other i k until cooldown other ∙ keep h)
  | inl this ↦
      let e : i ≡ k = (same_iff i k).0 this in
      let j : same (identifier_of job) k ≡ true = ap (λ (t : Text). same t k) own ∙ this in
      inr (
        subst (λ (t : Text). ltb now (get_or_zero t s.cooldown) ≡ false) e free,
        rw j (omega arith),
        subst (λ (t : Text). now + ping_cooldown_ms ≤ get_or_zero t (put i until cooldown)) e
            (omega (arith, get-put_self i until cooldown, long)),
      )
]

pruned : (k : Text) (now : ℕ) (s : Tools) → Paced k now s (prune_protection_state now s)
unfolding prune_protection_state
pruned k now s = inl (refl, get-prune k now s.cooldown)

country_job-identifier :
    (action : CountryAction) (k : Text) → identifier_of (country_job action k) ≡ k
country_job-identifier kick k = refl
country_job-identifier ban k = refl

check_country-Paced :
    (country : Text → Text) (settings : Settings) (now : ℕ) (k i : Text) (ip : Option Text)
    (s : Tools)
    → ltb now (get_or_zero i s.cooldown) ≡ false
    → Paced k now s (check_country country settings now i ip s)
unfolding check_country prune_protection_state
check_country-Paced country settings now k i none s free = Paced-refl k now s
check_country-Paced country settings now k i (some ip) s free =
    Paced-if k now s _ _ (same ip [] || is_private_address ip) (Paced-refl k now s) (
      Paced-if k now s _ _
        (not (same (country ip) []) && any (same (country ip)) settings.blocked_country_codes)
        (acted k i now (now + 86400000) (country_job settings.country_action i) s
          (prune_protection_state now s).bad_ping (country_job-identifier settings.country_action i)
          free (omega arith) (prune now s.cooldown) (get-prune k now s.cooldown))
        (pruned k now s))

check_country_if-Paced :
    (country : Text → Text) (settings : Settings) (now : ℕ) (k : Text) (c : Connection) (s : Tools)
    → ltb now (get_or_zero c.identifier s.cooldown) ≡ false
    → Paced k now s (check_country_if country settings now c s)
unfolding check_country_if
check_country_if-Paced country settings now k c s free =
    Paced-if k now s _ _ settings.country_ban_enabled
      (check_country-Paced country settings now k c.identifier c.ip_address s free)
      (Paced-refl k now s)

check_ping-Paced :
    (country : Text → Text) (settings : Settings) (now : ℕ) (k : Text) (c : Connection) (ping : ℕ)
    (s : Tools)
    → ltb now (get_or_zero c.identifier s.cooldown) ≡ false
    → Paced k now s (check_ping country settings now c ping s)
unfolding check_ping
check_ping-Paced country settings now k c ping s free =
    let count = bad_samples settings ping (get_or_zero c.identifier s.bad_ping) in
    Paced-if k now s _ _ (leb settings.high_ping_samples count)
      (acted k c.identifier now (now + ping_cooldown_ms) (kick_for_ping c.identifier) s
        (put c.identifier 0 (put c.identifier count s.bad_ping)) refl free (omega arith) s.cooldown
        (λ h. refl))
      (check_country_if-Paced country settings now k c (add_bad c.identifier count s) free)

check_connection-Paced :
    (country : Text → Text) (settings : Settings) (now : ℕ) (k : Text) (c : Connection) (s : Tools)
    → Paced k now s (check_connection country settings now c s)
unfolding check_connection
check_connection-Paced country settings now k c s =
    elim (Bool-cases (ltb now (get_or_zero c.identifier s.cooldown))) [
      | inl held ↦ rw (held, check_connection) (Paced-refl k now s)
      | inr free ↦ rw (free, check_connection) (checked c.ping free)
    ]
  where
    checked :
        (ping : Option ℕ)
        → ltb now (get_or_zero c.identifier s.cooldown) ≡ false
        → Paced k now s (elim ping as (λ x. Tools) [
          | none ↦ check_country_if country settings now c s
          | some p ↦
              (if settings.high_ping_enabled
                then check_ping country settings now c p s
                else check_country_if country settings now c s)
        ])
    checked none free = check_country_if-Paced country settings now k c s free
    checked (some p) free =
        Paced-if k now s _ _ settings.high_ping_enabled
          (check_ping-Paced country settings now k c p s free)
          (check_country_if-Paced country settings now k c s free)

Paced-then :
    (k : Text) (now : ℕ) (s t u : Tools) → Paced k now s t → Paced k now t u → Paced k now s u
Paced-then k now s t u (inl (a, b)) (inl (c, d)) =
    inl (c ∙ a, λ h. d (ap (ltb now) (b h) ∙ h) ∙ b h)
Paced-then k now s t u (inl (a, b)) (inr (c, d, e)) =
    inr (before (Bool-cases (ltb now (get_or_zero k s.cooldown))), omega (arith, a, d), e)
  where
    before :
        (ltb now (get_or_zero k s.cooldown) ≡ true) ⊎ (ltb now (get_or_zero k s.cooldown) ≡ false)
        → ltb now (get_or_zero k s.cooldown) ≡ false
    before (inr free) = free
    before (inl held) = absurd (cc (ap (ltb now) (b held) ∙ held, c))
Paced-then k now s t u (inr (a, b, c)) (inl (d, e)) =
    inr (a, d ∙ b, omega (arith, c, e (ground (arith, c))))
Paced-then k now s t u (inr (a, b, c)) (inr (d, e, f)) = absurd (ground (arith, c, d))

check_all-Paced :
    (country : Text → Text) (settings : Settings) (now : ℕ) (k : Text) (cs : List Connection)
    (s : Tools)
    → Paced k now s (check_all country settings now cs s)
unfolding check_all
check_all-Paced country settings now k [] s = Paced-refl k now s
check_all-Paced country settings now k (c ∷ cs) s =
    Paced-then k now s (check_connection country settings now c s)
      (check_all country settings now cs (check_connection country settings now c s))
      (check_connection-Paced country settings now k c s)
      (check_all-Paced country settings now k cs (check_connection country settings now c s))

enforce-Paced :
    (country : Text → Text) (settings : Option Settings) (has_member : Bool) (now : ℕ) (k : Text)
    (cs : List Connection) (s : Tools)
    → Paced k now s (enforce_connection_tools country settings has_member now cs s)
unfolding enforce_connection_tools
enforce-Paced country none has_member now k cs s = Paced-refl k now s
enforce-Paced country (some settings) has_member now k cs s =
    Paced-if k now s _ _
      ((not settings.high_ping_enabled && not settings.country_ban_enabled) || not has_member)
      (Paced-refl k now s) (check_all-Paced country settings now k cs s)

twice :
    (k : Text) (now later : ℕ) (s t u : Tools)
    → later < now + ping_cooldown_ms
    → Paced k now s t
    → Paced k later t u
    → jobs_for k u ≤ jobs_for k s + 1
twice k now later s t u soon (inl (a, b)) (inl (c, d)) = omega (arith, a, c)
twice k now later s t u soon (inl (a, b)) (inr (c, d, e)) = omega (arith, a, d)
twice k now later s t u soon (inr (a, b, c)) (inl (d, e)) = omega (arith, b, d)
twice k now later s t u soon (inr (a, b, c)) (inr (d, e, f)) = absurd (ground (arith, soon, c, d))

-- Two rosters within five minutes, whatever they hold and whatever settings are in force at each, make at
-- most one job for a player: one kick or ban, for the ping or for the country.
pub enforce_connection_tools-once :
    (country again : Text → Text) (settings changed : Option Settings)
    (has_member still_member : Bool) (now later : ℕ) (cs ds : List Connection) (s : Tools)
    (k : Text)
    → later < now + ping_cooldown_ms
    → jobs_for k (
        enforce_connection_tools again changed still_member later ds
          (enforce_connection_tools country settings has_member now cs s))
      ≤ jobs_for k s + 1
enforce_connection_tools-once country again settings changed has_member still_member now later cs ds
      s k soon =
    let first = enforce_connection_tools country settings has_member now cs s in
    twice k now later s first (enforce_connection_tools again changed still_member later ds first)
      soon (enforce-Paced country settings has_member now k cs s)
      (enforce-Paced again changed still_member later k ds first)
