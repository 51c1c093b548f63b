-- ===== src/Jobs/Access.antt =====
-- Who may create a job of which type (jobs.service.ts, createJob): the checks of the role, in order.
use mastermind_minecraft_ser.Prelude.{
  Bool, true, false, ◌&&◌, ◌||◌, not, ◌≡◌, ◌↔◌, Text, String, codes, same, Option, none, some,
  if◌then◌else◌, arith,
}

-- a name that stands for a role or a job type
abbrev pub is_one : String → Text → Bool
is_one name t = same t (codes name)

abbrev pub viewer_allowed : Text → Bool
viewer_allowed t =
    is_one "MOD_LIST" t
    || is_one "MOD_QUARANTINE_LIST" t
    || is_one "MOD_PENDING_LIST" t
    || is_one "MOD_UPLOAD_PENDING" t

abbrev pub has_role : String → Option Text → Bool
has_role name none = false
has_role name (some r) = is_one name r

abbrev pub runs_server : Option Text → Bool
runs_server role = has_role "admin" role || has_role "operator" role

abbrev manages_saves : Text → Bool
manages_saves t =
    is_one "SAVE_BACKUP" t
    || is_one "SAVE_RESTORE" t
    || is_one "SAVE_DELETE" t
    || is_one "SAVE_RETENTION" t
    || is_one "SERVER_SAVE_STOP" t

pub data Access : Type 0 where
  allowed : Access
  viewers_recommend_only : Access
  admins_only : Access
  operators_only : Access
  operators_manage_saves : Access
  operators_upload : Access
  operators_update : Access
  operators_configure : Access
  operators_maintain : Access

unfoldable pub may_create_job : Option Text → Text → Access
may_create_job role t =
    if has_role "viewer" role && not (viewer_allowed t)
    then viewers_recommend_only
    else if (is_one "PLAYER_ADMIN_PROMOTE" t || is_one "PLAYER_ADMIN_DEMOTE" t)
        && not (has_role "admin" role)
    then admins_only
    else if (is_one "PLAYER_KICK_ALL" t || is_one "SERVER_KILL" t) && not (runs_server role)
    then operators_only
    else if manages_saves t && not (runs_server role)
    then operators_manage_saves
    else if is_one "MOD_UPLOAD_QUARANTINE" t && not (runs_server role)
    then operators_upload
    else if is_one "SERVER_UPDATE" t && not (runs_server role)
    then operators_update
    else if (is_one "SERVER_CONFIG_READ" t || is_one "SERVER_CONFIG_WRITE" t)
        && not (runs_server role)
    then operators_configure
    else if is_one "SERVER_MAINTENANCE" t && not (runs_server role)
    then operators_maintain
    else allowed

-- The job types that need an administrator or an operator.
abbrev pub is_guarded : Text → Bool
is_guarded t =
    is_one "PLAYER_KICK_ALL" t
    || is_one "SERVER_KILL" t
    || manages_saves t
    || is_one "MOD_UPLOAD_QUARANTINE" t
    || is_one "SERVER_UPDATE" t
    || is_one "SERVER_CONFIG_READ" t
    || is_one "SERVER_CONFIG_WRITE" t
    || is_one "SERVER_MAINTENANCE" t

abbrev pub is_promotion : Text → Bool
is_promotion t = is_one "PLAYER_ADMIN_PROMOTE" t || is_one "PLAYER_ADMIN_DEMOTE" t

-- A job is allowed just when the creator is no viewer or the type is one that viewers may use, a
-- promotion comes from an administrator, and a guarded type from an administrator or an operator.
pub may_create_job-allowed :
    (role : Option Text) (t : Text)
    → (may_create_job role t ≡ allowed) ↔ (
        (not (has_role "viewer" role) || viewer_allowed t)
          && (not (is_promotion t) || has_role "admin" role)
          && (not (is_guarded t) || runs_server role)
        ≡ true)
unfolding may_create_job
may_create_job-allowed role t = ground (arith)
