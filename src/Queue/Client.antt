-- ===== src/Queue/Client.antt =====
-- queue/client.go: consuming, acknowledging, and the recovery of jobs whose worker is gone.
use video_processor_go.Base.{
  ℕ, zero, suc, String, Option, none, some, List, [], ◌∷◌, Bool, not, ◌||◌, ℤ, unix_before,
  increment, leb_ℤ, Error, Result, ok, err, error?, of_error?, Eff, pure, ◌>>=◌, str_eq,
  if◌then◌else◌,
}
use video_processor_go.Config.{Config}
use video_processor_go.Backend.{Backend, execute}
use video_processor_go.Queue.State.{
  JobState, job_status_pending, job_status_processing, processing_queue_name,
}
use video_processor_go.Queue.Job.{set_job_state, get_job_state}

-- `state.Status != JobStatusProcessing || state.UpdatedAt >= threshold`: the job is left alone.
unfoldable pub is_stuck : ℤ → JobState → Bool
is_stuck threshold state =
    not (not (str_eq state.status job_status_processing) || leb_ℤ threshold state.updated_at)

-- The state that recovery writes.
unfoldable pub recovered_state : JobState → JobState
recovered_state state = record state {
  status = job_status_pending;
  retry_count = increment state.retry_count;
}

module _ (b : Backend) where
  open b use {Store, clock, lpush, lrem, lrange, brpoplpush, llen, ping}

  -- The message is the video's id.
  unfoldable pub consume_message : Config → Eff Store (Result String)
  consume_message cfg =
      execute b (brpoplpush cfg.processing_request_queue (processing_queue_name cfg))

  removal : Config → String → Eff Store (Result (Unit {0}))
  removal cfg video_id = do
    failure ← lrem (processing_queue_name cfg) video_id
    pure (of_error? failure)

  unfoldable pub acknowledge_message : Config → String → Eff Store (Option Error)
  unfolding removal
  acknowledge_message cfg video_id = do r ← execute b (removal cfg video_id); pure (error? r)

  announcement : Config → String → Eff Store (Result (Unit {0}))
  announcement cfg video_id = do
    failure ← lpush cfg.processing_finished_queue video_id
    pure (of_error? failure)

  unfoldable pub publish_success_message : Config → String → Eff Store (Option Error)
  unfolding announcement
  publish_success_message cfg video_id = do
    r ← execute b (announcement cfg video_id)
    pure (error? r)

  -- The two errors are dropped.
  move_back : Config → String → Option Error → Eff Store (Unit {0})
  move_back cfg video_id (some e) = pure tt
  move_back cfg video_id none = do
    _ ← lrem (processing_queue_name cfg) video_id
    _ ← lpush cfg.processing_request_queue video_id
    pure tt

  unfoldable pub rescue : Config → String → JobState → Eff Store (Unit {0})
  unfolding move_back
  rescue cfg video_id state = do
    failure ← set_job_state b video_id (recovered_state state)
    move_back cfg video_id failure

  recover_found : Config → ℤ → String → Result JobState → Eff Store (Unit {0})
  recover_found cfg threshold video_id (err e) = pure tt
  recover_found cfg threshold video_id (ok state) =
      if is_stuck threshold state then rescue cfg video_id state else pure tt

  -- The body of the loop, for one id of the processing list.
  unfoldable pub recover_job : Config → ℤ → String → Eff Store (Unit {0})
  unfolding recover_found
  recover_job cfg threshold video_id = do
    found ← get_job_state b video_id
    recover_found cfg threshold video_id found

  unfoldable pub recover_jobs : Config → ℤ → List String → Eff Store (Unit {0})
  recover_jobs cfg threshold [] s = (tt, s)
  recover_jobs cfg threshold (video_id ∷ rest) s =
      recover_jobs cfg threshold rest (recover_job cfg threshold video_id s).1

  recover_listed : Config → ℤ → Result (List String) → Eff Store (Unit {0})
  recover_listed cfg stuck_timeout (err e) = pure tt
  recover_listed cfg stuck_timeout (ok video_ids) = do
    now ← clock
    recover_jobs cfg (unix_before now stuck_timeout) video_ids

  unfoldable pub recover_stuck_jobs : Config → ℤ → Eff Store (Unit {0})
  unfolding recover_listed
  recover_stuck_jobs cfg stuck_timeout = do
    listed ← lrange (processing_queue_name cfg)
    recover_listed cfg stuck_timeout listed

  -- The loop of StartRecovery over its first `n` ticks; `meanwhile i` is what the workers and other
  -- programs do to the store before tick `i`.
  unfoldable pub start_recovery : (ℕ → Store → Store) → Config → ℤ → ℕ → Store → Store
  start_recovery meanwhile cfg stuck_timeout zero s = s
  start_recovery meanwhile cfg stuck_timeout (suc n) s =
      let before = start_recovery meanwhile cfg stuck_timeout n s in
      (recover_stuck_jobs cfg stuck_timeout (meanwhile n before)).1

  unfoldable pub get_queue_size : Config → Eff Store (Result ℕ)
  get_queue_size cfg = llen cfg.processing_request_queue

  unfoldable pub health_check : Eff Store (Option Error)
  health_check = ping
