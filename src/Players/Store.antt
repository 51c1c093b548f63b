-- ===== src/Players/Store.antt =====
-- The players of one server and their sessions. A player is written through the row's primary key; the
-- row written is the one found by its identity key, which is unique on a server.
use mastermind_minecraft_ser.Prelude.{ℕ, Bool, Text, Option, List, [], ◌∷◌, same, if◌then◌else◌}

-- Times are milliseconds. What the agent does not report for Minecraft (address, position) is left out.
pub record PlayerRow : Type 0 where
  pub id : ℕ
  pub identity_key : Text
  pub steam_id : Option Text
  pub name : Text
  pub online : Bool
  pub current_session_started_at : Option ℕ
  pub first_seen_at : ℕ
  pub last_seen_at : ℕ
  pub last_logout_at : Option ℕ
  pub lifetime_seconds : ℕ
  pub total_donated_cents : ℕ

pub record Session : Type 0 where
  pub player_id : ℕ
  pub started_at : ℕ
  pub ended_at : Option ℕ
  pub duration_seconds : Option ℕ

pub record Db : Type 0 where
  pub players : List PlayerRow
  pub sessions : List Session

abbrev pub has_identity : Text → PlayerRow → Bool
has_identity k p = same p.identity_key k

-- a deleted row
unfoldable pub remove_first {ℓ} : {A : Type ℓ} → (A → Bool) → List A → List A
remove_first p [] = []
remove_first p (x ∷ xs) = if p x then xs else x ∷ remove_first p xs
