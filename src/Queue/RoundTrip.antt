-- ===== src/Queue/RoundTrip.antt =====
-- What is written of a job's state and read again (queue/job.go), while Redis can be reached.
use video_processor_go.Base.{String, some, ◌≡◌, ◌≢◌, ok, unix, ◌∙◌}
use video_processor_go.Backend.{Backend}
use video_processor_go.Backend.Laws.{BackendLaws, IsReachable}
use video_processor_go.Queue.State.{JobState}
use video_processor_go.Queue.Job.{set_job_state, get_job_state}
use video_processor_go.Queue.View.{
  stored, stored-set_job_state, stored-OnlyJob, set_job_state-OnlyJob,
}
use video_processor_go.Queue.Reachable.{get_job_state_ok, set_job_state_ok}

module _ (b : Backend) (laws : BackendLaws b) (live : IsReachable b laws) where
  -- While Redis can be reached, a job's state that is written is read back with the time of the
  -- write and every other field as it was, and a state that another job had is still read after it.
  pub get_job_state-set_job_state :
      (video_id : String) (state : JobState) (s : b.Store)
      → let t = (set_job_state b video_id state s).1 in
        ((get_job_state b video_id t).0 ≡ ok (record state { updated_at = unix (b.clock s).0 }))
        × ((other : String) (old : JobState)
            → video_id ≢ other
            → stored b laws s other ≡ some old
            → (get_job_state b other t).0 ≡ ok old)
  get_job_state-set_job_state video_id state s =
      let t = (set_job_state b video_id state s).1 in
      let written = set_job_state_ok b laws live video_id state s in
      (
        get_job_state_ok b laws live video_id t
            (stored-set_job_state b laws video_id state s written),
        λ other old n has.
            get_job_state_ok b laws live other t
              (stored-OnlyJob b laws other (set_job_state-OnlyJob b laws video_id state s) n ∙ has),
      )
