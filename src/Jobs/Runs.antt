-- ===== src/Jobs/Runs.antt =====
-- The life of a job run as the agent drives it (jobs.service.ts): picked, reported, or given up as
-- stale. What a report sets off in other components is listed as effects, in the source's order.
pub mod Life
pub mod Cancel
pub mod Create
pub mod Stale
use text.Mathlib.Text.{◌==◌ as str_eq}
use mastermind_minecraft_ser.Prelude.{
  ℕ, suc, ◌+◌, ◌*◌, Bool, true, false, ◌&&◌, ◌||◌, not, Text, String, codes, same, Option, none,
  some, List, [], ◌∷◌, ◌++◌, all, length, leb, ltb, find_first, update_first, update_many, ◌==◌,
  if◌then◌else◌,
}
use mastermind_minecraft_ser.Json.{Value, bool, string, Fields, get}
use mastermind_minecraft_ser.Grants.Items.{is_digit}
use mastermind_minecraft_ser.Donations.Stripe.{as_text, is_true}
use mastermind_minecraft_ser.Jobs.Store.{
  RunStatus, pending, running, Run, Batch, Db, is_status, has_run_id,
}
use mastermind_minecraft_ser.Jobs.Batches.{
  Final, Prior, final_status, record_job_run_completed, record_job_run_started,
}

-- When the agent picks a run; another host's run, or one that is not pending, is left alone.
abbrev pub set_started : ℕ → Run → Run
set_started now r = record r { status = running; started_at = some now }

unfoldable pub mark_job_run_started : Db → ℕ → ℕ → ℕ → Db
unfolding record_job_run_started
mark_job_run_started db now host id = elim (find_first (has_run_id id) db.runs) [
  | none ↦ db
  | some run ↦
      if not (run.host_id == host)
      then db
      else if not (is_status run.status pending)
      then db
      else record_job_run_started
          (record db { runs = update_first (has_run_id id) (set_started now) db.runs }) run.batch_id
]

pub data RunError : Type 0 where
  run_not_found : RunError
  wrong_host : RunError
  run_not_running : RunStatus → RunError

pub data Effect : Type 0 where
  delete_upload : Text → Effect
  set_maintenance : ℕ → Bool → Effect
  skip_next_auto_restart : ℕ → ℕ → Effect
  sync_roster : ℕ → ℕ → Effect
  finish_shop_grant : Fields → Final → Effect
  complete_item_grant : Fields → Final → Effect

-- `/^[0-9a-f-]{36}$/i`
unfoldable pub is_upload_char : ℕ → Bool
unfolding is_digit
is_upload_char c =
    is_digit c || (leb b'a' c && leb c b'f') || (leb b'A' c && leb c b'F') || c == b'-'

unfoldable pub is_upload_id : Text → Bool
unfolding is_upload_char
is_upload_id t = length t == 36 && all is_upload_char t

abbrev is_type : Run → String → Bool
is_type r type = same r.type (codes type)

unfoldable pub upload_effect : Option Text → List Effect
unfolding is_upload_id
upload_effect none = []
upload_effect (some id) = if is_upload_id id then delete_upload id ∷ [] else []

unfoldable pub upload_effects : Run → List Effect
unfolding upload_effect as_text get same
upload_effects r =
    if is_type r "MOD_UPLOAD_QUARANTINE" || is_type r "MOD_UPLOAD_PENDING"
    then upload_effect (as_text (get r.payload "uploadId"))
    else []

abbrev succeeded : Final → Bool
succeeded Final.success = true
succeeded _ = false

-- the effects of a successful run on its server
unfoldable pub server_effects : Run → Final → Option ℕ → List Effect
unfolding as_text is_true get same
server_effects r final none = []
server_effects r final (some server) =
    if not (succeeded final)
    then []
    else if is_type r "SERVER_MAINTENANCE"
    then set_maintenance server (is_true (get r.payload "enabled")) ∷ []
    else if is_type r "SERVER_SAFE_RESTART"
    then (elim (as_text (get r.payload "trigger")) [
      | none ↦ []
      | some t ↦
          if same t (codes "stability_memory")
          then skip_next_auto_restart r.org_id server ∷ []
          else []
    ])
    else if is_type r "PLAYER_LIST_SYNC"
    then sync_roster r.org_id server ∷ []
    else []

unfoldable pub is_text : Option Text → Bool
is_text none = false
is_text (some t) = true

unfoldable pub is_exactly : Option Text → Text → Bool
unfolding same
is_exactly none t = false
is_exactly (some s) t = same s t

unfoldable pub grant_effects : Run → Final → List Effect
unfolding is_text is_exactly as_text get same
grant_effects r final =
    if is_type r "RCON"
      && is_exactly (as_text (get r.payload "purpose")) (codes "shop_grant")
      && is_text (as_text (get r.payload "donationLineId"))
    then finish_shop_grant r.payload final ∷ []
    else if is_type r "TRIGGER_GRANT_ITEMS"
    then complete_item_grant r.payload final ∷ []
    else []

pub data Report : Type 0 where
  ok : Db → List Effect → Report
  err : RunError → Report

abbrev pub set_final : ℕ → Final → Run → Run
set_final now final r = record r { status = final_status final; finished_at = some now }

-- `dto.status === 'success' ? 'success' : 'failed'`
unfoldable pub reported : Text → Final
unfolding same
reported status = if same status (codes "success") then Final.success else Final.failed

-- a report that is accepted
unfoldable pub accept_result : Db → ℕ → ℕ → Final → Run → Report
unfolding upload_effects server_effects grant_effects record_job_run_completed
accept_result db now id final run =
    ok
      (record_job_run_completed
        (record db { runs = update_first (has_run_id id) (set_final now final) db.runs }) now
        run.batch_id final Prior.running)
      (upload_effects run
        ++ (server_effects run final run.server_instance_id ++ grant_effects run final))

unfoldable pub report_job_result : Db → ℕ → ℕ → ℕ → Text → Report
unfolding accept_result reported
report_job_result db now host id status = elim (find_first (has_run_id id) db.runs) [
  | none ↦ err run_not_found
  | some run ↦
      if not (run.host_id == host)
      then err wrong_host
      else if not (is_status run.status running)
      then err (run_not_running run.status)
      else accept_result db now id (reported status) run
]

abbrev pub set_progress : ℕ → Run → Run
set_progress now r = record r { updated_at = some now }

unfoldable pub report_job_progress : Db → ℕ → ℕ → ℕ → Report
report_job_progress db now host id = elim (find_first (has_run_id id) db.runs) [
  | none ↦ err run_not_found
  | some run ↦
      if not (run.host_id == host)
      then err wrong_host
      else if not (is_status run.status running)
      then err (run_not_running run.status)
      else ok (record db { runs = update_first (has_run_id id) (set_progress now) db.runs }) []
]

-- `updatedAt`, else the start, else 0
unfoldable pub heartbeat : Run → ℕ
heartbeat r = elim r.updated_at [
  | some (suc t) ↦ suc t
  | _ ↦ elim r.started_at [ some t ↦ t | none ↦ 0 ]
]

abbrev pub stale_after : ℕ
stale_after = 3 * 60000

-- `heartbeat < now - 3 minutes`
abbrev pub is_stale : ℕ → Run → Bool
is_stale now r = is_status r.status running && ltb (heartbeat r + stale_after) now

-- The batches are not touched.
unfoldable pub fail_stale_running_jobs : Db → ℕ → Db
unfolding heartbeat
fail_stale_running_jobs db now = record db {
  runs = update_many (is_stale now) (set_final now Final.failed) db.runs;
}
