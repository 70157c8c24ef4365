-- ===== src/Queue/Updates.antt =====
-- What the updates of a job's state (queue/job.go) write, and what they leave alone.
use video_processor_go.Base.{
  String, Option, none, some, ◌≡◌, ◌⊎◌, inl, inr, unix, Error, ok?, error?, increment, arith,
  Result-cases, Option-cases,
}
use video_processor_go.Backend.{Backend}
use video_processor_go.Backend.Laws.{BackendLaws}
use video_processor_go.Queue.State.{
  JobState, JobArtifacts, VideoMetadata, job_status_processing, job_status_done, job_status_failed,
  blank_state,
}
use video_processor_go.Queue.Job.{
  failed_state, processing_state, done_state, set_job_state, get_job_state, existing_state,
  set_job_processing, set_job_done, set_job_failed,
}
use video_processor_go.Queue.View.{
  OnlyJob, OnlyJob-trans, stored, stored-set_job_state, get_job_state-stored, set_job_state-OnlyJob,
  existing_state-OnlyJob,
}

module _ (b : Backend) (laws : BackendLaws b) where
  -- The state that an update starts from: the stored one, or one that is blank and created at the
  -- time of the clock then, if the read failed.
  abbrev pub StartsFrom : String → b.Store → JobState → Type 0
  StartsFrom video_id s old =
      (stored b laws s video_id ≡ some old)
      ⊎ ((ok? (get_job_state b video_id s).0 ≡ none)
          × (old ≡ blank_state (unix (b.clock (get_job_state b video_id s).1).0)))

  existing_state-StartsFrom :
      (video_id : String) (s : b.Store) → StartsFrom video_id s (existing_state b video_id s).0
  unfolding existing_state
  existing_state-StartsFrom video_id s = elim (Result-cases (get_job_state b video_id s).0) [
    | inl (state, e) ↦ inl (ground (arith, get_job_state-stored b laws video_id state s))
    | inr (x, e) ↦ inr (ground arith, ground arith)
  ]

  -- An update by `f`: read the state, or begin a blank one, and write it changed.
  abbrev update : (JobState → JobState) → String → b.Store → Option Error × b.Store
  update f video_id s = let r = existing_state b video_id s in set_job_state b video_id (f r.0) r.1

  update-OnlyJob :
      (f : JobState → JobState) (video_id : String) (s : b.Store)
      → OnlyJob b laws video_id s (update f video_id s).1
  update-OnlyJob f video_id s =
      let r = existing_state b video_id s in
      OnlyJob-trans b laws (existing_state-OnlyJob b laws video_id video_id s)
        (set_job_state-OnlyJob b laws video_id (f r.0) r.1)

  -- An update touches no queue and no other job, and one that succeeds stores the changed state,
  -- updated at the time that the clock says after the reading of the old one.
  abbrev pub Updates : (JobState → JobState) → String → b.Store → Option Error → b.Store → Type 0
  Updates f video_id s failure t =
      OnlyJob b laws video_id s t
      × (failure ≡ none
          → (old : JobState) × StartsFrom video_id s old
            × (stored b laws t video_id
                ≡ some (record (f old) {
                  updated_at = unix (b.clock (existing_state b video_id s).1).0;
                })))

  update-Updates :
      (f : JobState → JobState) (video_id : String) (s : b.Store)
      → Updates f video_id s (update f video_id s).0 (update f video_id s).1
  update-Updates f video_id s =
      let r = existing_state b video_id s in
      (
        update-OnlyJob f video_id s,
        λ h. (
          r.0,
          existing_state-StartsFrom video_id s,
          stored-set_job_state b laws video_id (f r.0) r.1 h,
        ),
      )

  -- Marking a job as processing, whatever commands fail, touches no queue and no other job. If it
  -- reports success, the job's stored state is the one it starts from with the status processing and
  -- updated at the time that the clock says after the reading. It starts from the stored state if that could be read, and from a blank
  -- one (no failures, no callback address) if reading it gave any error.
  pub set_job_processing-Updates :
      (video_id : String) (s : b.Store)
      → Updates
          (λ old. record old { status = job_status_processing })
          video_id
          s
          (set_job_processing b video_id s).0
          (set_job_processing b video_id s).1
  unfolding set_job_processing processing_state
  set_job_processing-Updates video_id s = update-Updates processing_state video_id s

  -- Marking a job as done, whatever commands fail, touches no queue and no other job. If it reports
  -- success, the job's stored state is the one it starts from with the status done, no error, these
  -- artifacts and metadata, updated at the time that the clock says after the reading; the retry
  -- count and the callback address are kept. It starts from the stored state if that could be read, and from a blank one if reading it
  -- gave any error.
  pub set_job_done-Updates :
      (video_id : String) (artifacts : JobArtifacts) (metadata : Option VideoMetadata) (s : b.Store)
      → Updates
          (λ old. record old {
            status = job_status_done;
            error = "";
            artifacts = some artifacts;
            metadata = metadata;
          })
          video_id
          s
          (set_job_done b video_id artifacts metadata s).0
          (set_job_done b video_id artifacts metadata s).1
  unfolding set_job_done done_state
  set_job_done-Updates video_id artifacts metadata s =
      update-Updates (done_state artifacts metadata) video_id s

  pub set_job_failed-Updates :
      (video_id : String) (job_err : Error) (s : b.Store)
      → Updates
          (λ old. record old {
            status = job_status_failed;
            error = job_err;
            retry_count = increment old.retry_count;
          })
          video_id
          s
          (error? (set_job_failed b video_id job_err s).0)
          (set_job_failed b video_id job_err s).1
  unfolding set_job_failed failed_state
  set_job_failed-Updates video_id job_err s =
      let u = update-Updates (failed_state job_err) video_id s in
      elim (Option-cases (update (failed_state job_err) video_id s).0) [
        | inl e ↦ rw (e, error?) (u.0, λ h. u.1 e)
        | inr (x, e) ↦ (u.0, λ h. ground (arith, e))
      ]
