-- ===== src/Worker/Loss.antt =====
-- A job whose retry could not be pushed (the deferred function of processNextMessage, main.go).
use video_processor_go.Base.{String, true, none, ok, ◌≡◌, sym, ◌∙◌, ap, Error, some, erase}
use video_processor_go.Config.{Config}
use video_processor_go.Backend.{Backend}
use video_processor_go.Backend.Laws.{BackendLaws}
use video_processor_go.Queue.State.{JobState, processing_queue_name, dead_letter_queue_name}
use video_processor_go.Queue.Job.{set_job_failed, requeue_job}
use video_processor_go.Queue.Client.{acknowledge_message}
use video_processor_go.Queue.Names.{request-ne-processing, request-ne-dead, processing-ne-dead}
use video_processor_go.Queue.Updates.{set_job_failed-Updates}
use video_processor_go.Queue.Moves.{requeue_job-Pushes, acknowledge_message-Removes}
use video_processor_go.Worker.Settle.{may_retry, fail_job, settle_job}

module _ (b : Backend) (laws : BackendLaws b) (cfg : Config) (video_id : String) (job_err : Error)
    (s : b.Store) where
  open laws use {list}

  -- The job has left the processing list and came to no other queue.
  pub record IsDropped (t : b.Store) : Type 0 where
    pub released :
        list t (processing_queue_name cfg) ≡ erase video_id (list s (processing_queue_name cfg))
    pub not_waiting : list t cfg.processing_request_queue ≡ list s cfg.processing_request_queue
    pub not_dead : list t (dead_letter_queue_name cfg) ≡ list s (dead_letter_queue_name cfg)

  -- A failed job is dropped if its failure was stored with a count that allows a retry, RequeueJob
  -- then left the request queue as it was, and the acknowledgement succeeded: it leaves the
  -- processing list and is put into neither the request queue nor the dead letter queue.
  pub settle_job-IsDropped :
      {failed : JobState}
      → (set_job_failed b video_id job_err s).0 ≡ ok failed
      → may_retry failed ≡ true
      → let s1 = (set_job_failed b video_id job_err s).1 in
        let s2 = (requeue_job b cfg video_id s1).1 in
        list s2 cfg.processing_request_queue ≡ list s1 cfg.processing_request_queue
        → (acknowledge_message b cfg video_id s2).0 ≡ none
        → IsDropped (settle_job b cfg video_id (some job_err) s).1
  unfolding settle_job fail_job
  settle_job-IsDropped e again kept acked =
      let s1 = (set_job_failed b video_id job_err s).1 in
      let s2 = (requeue_job b cfg video_id s1).1 in
      let o = (set_job_failed-Updates b laws video_id job_err s).0 in
      let p = requeue_job-Pushes b laws cfg video_id s1 in
      let a = acknowledge_message-Removes b laws cfg video_id s2 in
      rw e (
        rw again (record {
          released =
              a.removed acked
              ∙ ap (erase video_id) (p.others _ (request-ne-processing cfg) ∙ o.lists _);
          not_waiting = a.others _ (λ x. request-ne-processing cfg (sym x)) ∙ kept ∙ o.lists _;
          not_dead =
              a.others _ (processing-ne-dead cfg) ∙ p.others _ (request-ne-dead cfg) ∙ o.lists _;
        }))
