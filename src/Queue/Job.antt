-- ===== src/Queue/Job.antt =====
-- queue/job.go: each function in the order of its calls of Redis and of the clock.
use video_processor_go.Base.{
  String, Option, none, some, unix, increment, Error, Result, ok, err, ok?, Eff, pure, ◌>>=◌, ◌⧺◌,
}
use video_processor_go.Config.{Config}
use video_processor_go.Backend.{Backend}
use video_processor_go.Queue.State.{
  JobState, JobArtifacts, VideoMetadata, job_status_pending, job_status_processing, job_status_done,
  job_status_failed, job_ttl, blank_state, job_key, dead_letter_queue_name,
}

-- The changed states that three functions write.
unfoldable pub processing_state : JobState → JobState
processing_state state = record state { status = job_status_processing }

unfoldable pub done_state : JobArtifacts → Option VideoMetadata → JobState → JobState
done_state artifacts metadata state = record state {
  status = job_status_done;
  error = "";
  artifacts = some artifacts;
  metadata = metadata;
}

unfoldable pub failed_state : Error → JobState → JobState
failed_state job_err state = record state {
  status = job_status_failed;
  error = job_err;
  retry_count = increment state.retry_count;
}

module _ (b : Backend) where
  open b use {Store, Value, clock, get, set, lpush, marshal, unmarshal}

  write_state : String → Result Value → Eff Store (Option Error)
  write_state video_id (err e) = pure (some ("failed to serialize job state: " ⧺ e))
  write_state video_id (ok text) = set (job_key video_id) text job_ttl

  unfoldable pub set_job_state : String → JobState → Eff Store (Option Error)
  unfolding write_state
  set_job_state video_id state = do
    now ← clock
    write_state video_id (marshal (record state { updated_at = unix now }))

  read_state : Result JobState → Result JobState
  read_state (ok state) = ok state
  read_state (err e) = err ("failed to deserialize job state: " ⧺ e)

  parse_reply : Result Value → Result JobState
  unfolding read_state
  parse_reply (err e) = err ("job not found: " ⧺ e)
  parse_reply (ok text) = read_state (unmarshal text)

  unfoldable pub get_job_state : String → Eff Store (Result JobState)
  unfolding parse_reply
  get_job_state video_id = do reply ← get (job_key video_id); pure (parse_reply reply)

  -- `if existing == nil { existing = &JobState{CreatedAt: time.Now().Unix()} }`
  or_blank : Option JobState → Eff Store JobState
  or_blank (some state) = pure state
  or_blank none = do now ← clock; pure (blank_state (unix now))

  -- `existing, _ := GetJobState(videoID)` and the test for nil, which three functions begin with.
  unfoldable pub existing_state : String → Eff Store JobState
  unfolding or_blank
  existing_state video_id = do found ← get_job_state video_id; or_blank (ok? found)

  push_created : String → String → Option Error → Eff Store (Option Error)
  push_created queue video_id (some e) = pure (some ("failed to create job state: " ⧺ e))
  push_created queue video_id none = lpush queue video_id

  unfoldable pub publish_job : Config → String → String → Eff Store (Option Error)
  unfolding push_created
  publish_job cfg video_id callback_url = do
    now ← clock
    failure ← set_job_state video_id (record (blank_state (unix now)) {
      status = job_status_pending;
      callback_url = callback_url;
    })
    push_created cfg.processing_request_queue video_id failure

  unfoldable pub set_job_processing : String → Eff Store (Option Error)
  set_job_processing video_id = do
    existing ← existing_state video_id
    set_job_state video_id (processing_state existing)

  unfoldable pub set_job_done :
      String → JobArtifacts → Option VideoMetadata → Eff Store (Option Error)
  set_job_done video_id artifacts metadata = do
    existing ← existing_state video_id
    set_job_state video_id (done_state artifacts metadata existing)

  returned : JobState → Option Error → Result JobState
  returned state none = ok state
  returned state (some e) = err e

  unfoldable pub set_job_failed : String → Error → Eff Store (Result JobState)
  unfolding returned
  set_job_failed video_id job_err = do
    existing ← existing_state video_id
    failure ← set_job_state video_id (failed_state job_err existing)
    pure (returned (failed_state job_err existing) failure)

  unfoldable pub push_again : String → String → Option Error → Eff Store (Option Error)
  push_again queue video_id (some e) = pure (some ("failed to update state for requeue: " ⧺ e))
  push_again queue video_id none = lpush queue video_id

  -- The state is written only if there was one to read.
  mark_pending : String → Option JobState → Eff Store (Option Error)
  mark_pending video_id none = pure none
  mark_pending video_id (some state) =
      set_job_state video_id (record state { status = job_status_pending })

  unfoldable pub requeue_job : Config → String → Eff Store (Option Error)
  unfolding push_again mark_pending
  requeue_job cfg video_id = do
    found ← get_job_state video_id
    failure ← mark_pending video_id (ok? found)
    push_again cfg.processing_request_queue video_id failure

  unfoldable pub move_to_dlq : Config → String → Eff Store (Option Error)
  move_to_dlq cfg video_id = lpush (dead_letter_queue_name cfg) video_id
