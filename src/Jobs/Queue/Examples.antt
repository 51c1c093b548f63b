-- ===== src/Jobs/Queue/Examples.antt =====
-- The queue on concrete input.
use mastermind_minecraft_ser.Prelude.{
  ◌&&◌, ◌≡◌, refl, true, false, not, codes, some, List, [], ◌∷◌, any, arith, total,
}
use mastermind_minecraft_ser.Jobs.Queue.{
  QueueJobData, has_run_id, is_read_only, get_next_job_for_host,
}
use mastermind_minecraft_ser.Jobs.Queue.Taken.{IsSingle, get_next_job_for_host-taken}

abbrev restart : QueueJobData
restart = record { job_run_id = 1; host_id = 4; type = codes "SERVER_RESTART" }

abbrev listing : QueueJobData
listing = record { job_run_id = 2; host_id = 4; type = codes "SAVE_LIST" }

abbrev waiting : List QueueJobData
waiting = restart ∷ listing ∷ []

waiting-IsSingle : IsSingle waiting
unfolding total
waiting-IsSingle id = ground arith

-- while the host is busy with a change, the listing is given out
gives : get_next_job_for_host (λ q. q) (λ j. false) 4 true waiting ≡ some (listing, restart ∷ [])
unfolding get_next_job_for_host
gives = refl

get_next_job_for_host-taken_example :
    (listing.host_id ≡ 4)
    × ((true && not (is_read_only (codes "SAVE_LIST"))) ≡ false)
    × (any (has_run_id 2) waiting ≡ true)
    × (any (has_run_id 2) (restart ∷ []) ≡ false)
    × IsSingle (restart ∷ [])
get_next_job_for_host-taken_example =
    get_next_job_for_host-taken (λ q. q) (λ j. false) 4 true waiting (restart ∷ []) listing
      waiting-IsSingle (λ id h. h) gives
