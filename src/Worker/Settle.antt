-- ===== src/Worker/Settle.antt =====
-- main.go: what the worker does with a job when its attempt is over (the deferred function of the
-- goroutine in `processNextMessage`).
use video_processor_go.Base.{
  String, Bool, Option, none, some, leb_ℤ, Error, ok?, Eff, pure, ◌>>=◌, str_eq, if◌then◌else◌,
}
use video_processor_go.Config.{Config}
use video_processor_go.Backend.{Backend}
use video_processor_go.Queue.State.{JobState, max_job_retries}
use video_processor_go.Queue.Job.{set_job_failed, requeue_job, move_to_dlq}
use video_processor_go.Queue.Client.{acknowledge_message}
use video_processor_go.Webhook.Payload.{Payload}
use video_processor_go.Worker.Artifacts.{notification}

-- A notification that is started in the background: the address and the body.
pub record Notice : Type 0 where
  pub callback_url : String
  pub payload : Payload

-- `go notifyWebhook(...)`, if the state has an address.
unfoldable pub notice_of : String → JobState → Option Notice
notice_of video_id state =
    if str_eq state.callback_url ""
    then none
    else some (record { callback_url = state.callback_url; payload = notification video_id state })

-- `state != nil && state.RetryCount <= queue.MaxJobRetries`
unfoldable pub may_retry : JobState → Bool
may_retry state = leb_ℤ state.retry_count max_job_retries

module _ (b : Backend) (cfg : Config) where
  open b use {Store}

  -- A push to the dead letter queue that fails is logged, and no notice goes out.
  notice_after : String → Option JobState → Option Error → Option Notice
  notice_after video_id state (some e) = none
  notice_after video_id none none = none
  notice_after video_id (some state) none = notice_of video_id state

  bury : String → Option JobState → Eff Store (Option Notice)
  unfolding notice_after
  bury video_id state = do
    failure ← move_to_dlq b cfg video_id
    pure (notice_after video_id state failure)

  -- A failure to requeue is only logged.
  retry : String → Eff Store (Option Notice)
  retry video_id = do _ ← requeue_job b cfg video_id; pure none

  dispose : String → Option JobState → Eff Store (Option Notice)
  unfolding bury retry
  dispose video_id none = bury video_id none
  dispose video_id (some state) =
      if may_retry state then retry video_id else bury video_id (some state)

  unfoldable pub fail_job : String → Error → Eff Store (Option Notice)
  unfolding dispose
  fail_job video_id job_err = do
    failed ← set_job_failed b video_id job_err
    dispose video_id (ok? failed)

  unfoldable pub settle_error : String → Option Error → Eff Store (Option Notice)
  settle_error video_id none = pure none
  settle_error video_id (some job_err) = fail_job video_id job_err

  -- The job is acknowledged whatever happened before.
  unfoldable pub settle_job : String → Option Error → Eff Store (Option Notice)
  unfolding settle_error
  settle_job video_id job_err = do
    notice ← settle_error video_id job_err
    _ ← acknowledge_message b cfg video_id
    pure notice
