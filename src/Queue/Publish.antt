-- ===== src/Queue/Publish.antt =====
-- What the producer of a job leaves (PublishJob of queue/job.go).
use video_processor_go.Base.{
  String, Option, none, some, ◌≡◌, inl, inr, ◌∙◌, ap, unix, arith, Error, Option-cases,
}
use video_processor_go.Config.{Config}
use video_processor_go.Backend.{Backend}
use video_processor_go.Backend.Laws.{BackendLaws}
use video_processor_go.Queue.State.{JobState, blank_state, job_status_pending, job_key}
use video_processor_go.Queue.Job.{publish_job, set_job_state}
use video_processor_go.Queue.View.{
  parsed, stored, OnlyJob, OnlyJob-trans, set_job_state-OnlyJob, stored-set_job_state,
}
use video_processor_go.Queue.Moves.{Pushes, Pushes-after, lpush-Pushes}

module _ (b : Backend) (laws : BackendLaws b) where
  clock-OnlyJob : (video_id : String) (s : b.Store) → OnlyJob b laws video_id s (b.clock s).1
  clock-OnlyJob video_id s = record {
    lists = λ q. laws.list-clock q s;
    values = λ k n. laws.value-clock k s;
  }

  -- The job waits, and its state is new: pending, with no failure, this callback address and the
  -- times of two readings of the clock.
  pub record IsPublished (cfg : Config) (video_id callback_url : String) (s : b.Store)
      (failure : Option Error) (t : b.Store) : Type 0 where
    pub queues : Pushes b laws cfg.processing_request_queue video_id s failure t
    pub state :
        failure ≡ none
        → stored b laws t video_id
          ≡ some (record (blank_state (unix (b.clock s).0)) {
            status = job_status_pending;
            callback_url = callback_url;
            updated_at = unix (b.clock (b.clock s).1).0;
          })

  -- Publishing a job, whatever commands fail, changes no queue but the request queue. If it reports
  -- success, the job is at the head of the request queue and its stored state is pending, with no
  -- failure, no error and this callback address, whatever was stored before; it was created at the
  -- time that the clock says at the call, and updated at the time that it says after that.
  pub publish_job-IsPublished :
      (cfg : Config) (video_id callback_url : String) (s : b.Store)
      → let r = publish_job b cfg video_id callback_url s in
        IsPublished cfg video_id callback_url s r.0 r.1
  unfolding publish_job
  publish_job-IsPublished cfg video_id callback_url s =
      let c = b.clock s in
      let new : JobState = record (blank_state (unix c.0)) {
        status = job_status_pending;
        callback_url = callback_url;
      } in
      let w = set_job_state b video_id new c.1 in
      let o =
        OnlyJob-trans b laws (clock-OnlyJob video_id s)
          (set_job_state-OnlyJob b laws video_id new c.1) in
      let request = cfg.processing_request_queue in
      elim (Option-cases w.0) [
        | inl e ↦ rw e (record {
          queues = Pushes-after b laws o (lpush-Pushes b laws request video_id w.1);
          state = λ h.
              ap (parsed b laws) (laws.value-lpush request video_id (job_key video_id) w.1)
              ∙ stored-set_job_state b laws video_id new c.1 e;
        })
        | inr (x, e) ↦ rw e (record {
          queues = record { pushed = λ h. cc; others = λ p n. o.lists p };
          state = λ h. ground arith;
        })
      ]
