-- ===== src/Worker/Retry.antt =====
-- The retry policy: what becomes of a job whose attempt failed, while Redis can be reached.
use video_processor_go.Base.{
  ℕ, ◌+◌, ◌<◌, ◌≤◌, String, Option, none, some, ◌∷◌, ◌≡◌, refl, sym, ◌∙◌, ap, ℤ, pos, Error, arith,
  erase, str_eq, if◌then◌else◌, increment, max_int64, false, true,
}
use video_processor_go.Config.{Config}
use video_processor_go.Backend.{Backend}
use video_processor_go.Backend.Laws.{BackendLaws, IsReachable}
use video_processor_go.Queue.State.{
  JobState, JobStatus, job_status_pending, job_status_failed, processing_queue_name,
  dead_letter_queue_name, job_key,
}
use video_processor_go.Queue.Job.{failed_state, set_job_failed, requeue_job, move_to_dlq}
use video_processor_go.Queue.View.{parsed, stored}
use video_processor_go.Queue.Moves.{
  requeue_job-Pushes, move_to_dlq-Pushes, acknowledge_message-Removes, move_to_dlq-value,
}
use video_processor_go.Queue.Names.{request-ne-processing, request-ne-dead, processing-ne-dead}
use video_processor_go.Queue.Updates.{set_job_failed-Updates}
use video_processor_go.Queue.Reachable.{
  set_job_failed_ok, stored-set_job_failed, requeue_job_ok, stored-requeue_job, move_to_dlq_ok,
  acknowledge_message_ok,
}
use video_processor_go.Webhook.Payload.{blank_payload}
use video_processor_go.Worker.Artifacts.{notification}
use video_processor_go.Worker.Settle.{Notice, notice_of, may_retry, fail_job, settle_job}

may_retry_few :
    (job_err : Error) (old : JobState) (r : ℕ)
    → old.retry_count ≡ pos r
    → r < 3
    → may_retry (failed_state job_err old) ≡ true
unfolding may_retry failed_state increment
may_retry_few job_err old r e lt = rw e (ground arith)

may_retry_many :
    (job_err : Error) (old : JobState) (r : ℕ)
    → old.retry_count ≡ pos r
    → 3 ≤ r
    → r < max_int64
    → may_retry (failed_state job_err old) ≡ false
unfolding may_retry failed_state increment
may_retry_many job_err old r e le lt = rw e (ground arith)

increment_few :
    (old : JobState) (r : ℕ)
    → old.retry_count ≡ pos r
    → r < max_int64
    → increment old.retry_count ≡ pos (r + 1)
unfolding increment
increment_few old r e h = rw e (ground arith)

module _ (b : Backend) (laws : BackendLaws b) (live : IsReachable b laws) (cfg : Config) where
  open laws use {list}

  -- The job, in state `old` after `r` failures, waits once more, and nothing is announced.
  pub record IsRequeued (video_id : String) (job_err : Error) (s : b.Store) (old : JobState) (r : ℕ)
      (notice : Option Notice) (t : b.Store) : Type 0 where
    pub silent : notice ≡ none
    pub waits : list t cfg.processing_request_queue ≡ video_id ∷ list s cfg.processing_request_queue
    pub released :
        list t (processing_queue_name cfg) ≡ erase video_id (list s (processing_queue_name cfg))
    pub not_dead : list t (dead_letter_queue_name cfg) ≡ list s (dead_letter_queue_name cfg)
    pub state :
        (now : ℤ) × (stored b laws t video_id
          ≡ some (record old {
            status = job_status_pending;
            error = job_err;
            retry_count = pos (r + 1);
            updated_at = now;
          }))

  -- The job is in the dead letter queue, and the failure is announced if there is an address.
  pub record IsBuried (video_id : String) (job_err : Error) (s : b.Store) (old : JobState) (r : ℕ)
      (notice : Option Notice) (t : b.Store) : Type 0 where
    pub announced : notice ≡ (
        if str_eq old.callback_url ""
        then none
        else some
            (record { callback_url = old.callback_url; payload = blank_payload video_id false }))
    pub not_waiting : list t cfg.processing_request_queue ≡ list s cfg.processing_request_queue
    pub released :
        list t (processing_queue_name cfg) ≡ erase video_id (list s (processing_queue_name cfg))
    pub dead : list t (dead_letter_queue_name cfg) ≡ video_id ∷ list s (dead_letter_queue_name cfg)
    pub state :
        (now : ℤ) × (stored b laws t video_id
          ≡ some (record old {
            status = job_status_failed;
            error = job_err;
            retry_count = pos (r + 1);
            updated_at = now;
          }))

  module _ (video_id : String) (job_err : Error) (s : b.Store) {old : JobState}
      (has : stored b laws s video_id ≡ some old) where
    -- The stored state with a given number of failures.
    abbrev at_count : JobState → JobStatus → ℤ → ℤ → Option JobState
    at_count state status now n =
        some (record state { status = status; error = job_err; retry_count = n; updated_at = now })

    -- While Redis can be reached, a stored job that fails with fewer than three failures before
    -- goes back to the head of the request queue, pending, with the error and one failure more; it
    -- leaves the processing list once, the dead letter queue is as it was and no notice goes out.
    pub settle_job_requeues :
        (r : ℕ)
        → old.retry_count ≡ pos r
        → r < 3
        → let (notice, t) = settle_job b cfg video_id (some job_err) s in
          IsRequeued video_id job_err s old r notice t
    unfolding settle_job fail_job failed_state
    settle_job_requeues r e lt =
        let s1 = (set_job_failed b video_id job_err s).1 in
        let (now1, has1) = stored-set_job_failed b laws live video_id job_err s has in
        let o = (set_job_failed-Updates b laws video_id job_err s).0 in
        let p = requeue_job-Pushes b laws cfg video_id s1 in
        let s2 = (requeue_job b cfg video_id s1).1 in
        let done = requeue_job_ok b laws live cfg video_id s1 has1 in
        let (now, has2) = stored-requeue_job b laws live cfg video_id s1 has1 in
        let a = acknowledge_message-Removes b laws cfg video_id s2 in
        let acked = acknowledge_message_ok b laws live cfg video_id s2 in
        rw (set_job_failed_ok b laws live video_id job_err s has) (
          rw (may_retry_few job_err old r e lt) (record {
            silent = refl;
            waits =
                a.others _ (λ x. request-ne-processing cfg (sym x))
                ∙ p.pushed done
                ∙ ap (λ l. video_id ∷ l) (o.lists _);
            released =
                a.removed acked
                ∙ ap (erase video_id) (p.others _ (request-ne-processing cfg) ∙ o.lists _);
            not_dead =
                a.others _ (processing-ne-dead cfg) ∙ p.others _ (request-ne-dead cfg) ∙ o.lists _;
            state = (
              now,
              ap (parsed b laws) (a.values (job_key video_id))
                  ∙ has2
                  ∙ ap (at_count old job_status_pending now) (increment_few old r e (omega arith)),
            );
          }))

    -- While Redis can be reached, a stored job that fails with three failures or more before (and
    -- fewer than a 64-bit integer can count) goes to the dead letter queue and not to the request
    -- queue, keeps the state failed with the error and one failure more, leaves the processing list
    -- once, and is announced as a failure exactly if its state has a callback address.
    pub settle_job_buries :
        (r : ℕ)
        → old.retry_count ≡ pos r
        → 3 ≤ r
        → r < max_int64
        → let (notice, t) = settle_job b cfg video_id (some job_err) s in
          IsBuried video_id job_err s old r notice t
    unfolding settle_job fail_job failed_state notice_of notification
    settle_job_buries r e le lt =
        let s1 = (set_job_failed b video_id job_err s).1 in
        let (now, has1) = stored-set_job_failed b laws live video_id job_err s has in
        let o = (set_job_failed-Updates b laws video_id job_err s).0 in
        let p = move_to_dlq-Pushes b laws cfg video_id s1 in
        let s2 = (move_to_dlq b cfg video_id s1).1 in
        let done = move_to_dlq_ok b laws live cfg video_id s1 in
        let a = acknowledge_message-Removes b laws cfg video_id s2 in
        let acked = acknowledge_message_ok b laws live cfg video_id s2 in
        rw (set_job_failed_ok b laws live video_id job_err s has) (
          rw (may_retry_many job_err old r e le lt) (
            rw done (record {
              announced = refl;
              not_waiting =
                  a.others _ (λ x. request-ne-processing cfg (sym x))
                  ∙ p.others _ (λ x. request-ne-dead cfg (sym x))
                  ∙ o.lists _;
              released =
                  a.removed acked
                  ∙ ap (erase video_id)
                      (p.others _ (λ x. processing-ne-dead cfg (sym x)) ∙ o.lists _);
              dead =
                  a.others _ (processing-ne-dead cfg)
                  ∙ p.pushed done
                  ∙ ap (λ l. video_id ∷ l) (o.lists _);
              state = (
                now,
                ap (parsed b laws) (
                      a.values (job_key video_id)
                      ∙ move_to_dlq-value b laws cfg video_id (job_key video_id) s1)
                    ∙ has1
                    ∙ ap (at_count old job_status_failed now) (increment_few old r e lt),
              );
            })))
