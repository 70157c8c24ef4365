-- ===== src/Worker/Closed.antt =====
-- The calls on a failed job (RequeueJob, MoveToDLQ and SetJobFailed of queue/job.go, as main.go makes
-- them), by a relation between stores that their single steps keep.
use video_processor_go.Base.{String, inl, inr, Error, Option-cases, Bool-cases, ok?}
use video_processor_go.Config.{Config}
use video_processor_go.Backend.{Backend}
use video_processor_go.Backend.Laws.{BackendLaws}
use video_processor_go.Queue.State.{JobState, job_status_pending, dead_letter_queue_name}
use video_processor_go.Queue.Job.{
  set_job_failed, requeue_job, push_again, move_to_dlq, set_job_state, get_job_state,
}
use video_processor_go.Queue.View.{
  OnlyJob, OnlyJob-trans, get_job_state-OnlyJob, set_job_state-OnlyJob,
}
use video_processor_go.Queue.Updates.{set_job_failed-Updates}
use video_processor_go.Worker.Settle.{may_retry, fail_job}

-- A relation that holds over what changes only the job's state, and over its two pushes.
pub record IsClosed (b : Backend) (laws : BackendLaws b) (cfg : Config) (video_id : String)
    (R : b.Store → b.Store → Type 0) : Type 0 where
  pub after : (s t u : b.Store) → R s t → R t u → R s u
  pub only : (s t : b.Store) → OnlyJob b laws video_id s t → R s t
  pub requeued : (s : b.Store) → R s (b.lpush cfg.processing_request_queue video_id s).1
  pub buried : (s : b.Store) → R s (b.lpush (dead_letter_queue_name cfg) video_id s).1

module _ (b : Backend) (laws : BackendLaws b) (cfg : Config) (video_id : String)
    (R : b.Store → b.Store → Type 0) (closed : IsClosed b laws cfg video_id R) where
  requeue_job-closed : (s : b.Store) → R s (requeue_job b cfg video_id s).1
  unfolding requeue_job push_again
  requeue_job-closed s =
      let r = get_job_state b video_id s in
      let read = get_job_state-OnlyJob b laws video_id video_id s in
      elim (Option-cases (ok? r.0)) [
        | inl e ↦ rw e (closed.after s r.1 _ (closed.only s r.1 read) (closed.requeued r.1))
        | inr (state, e) ↦
            let new : JobState = record state { status = job_status_pending } in
            let w = set_job_state b video_id new r.1 in
            let o =
              closed.only s w.1
                (OnlyJob-trans b laws read (set_job_state-OnlyJob b laws video_id new r.1)) in
            elim (Option-cases w.0) [
              | inl e' ↦ rw (e, e') (closed.after s w.1 _ o (closed.requeued w.1))
              | inr (x, e') ↦ rw (e, e') o
            ]
      ]

  pub fail_job-closed : (job_err : Error) (s : b.Store) → R s (fail_job b cfg video_id job_err s).1
  unfolding fail_job move_to_dlq
  fail_job-closed job_err s =
      let f = set_job_failed b video_id job_err s in
      let failed = closed.only s f.1 (set_job_failed-Updates b laws video_id job_err s).0 in
      let buried = closed.after s f.1 _ failed (closed.buried f.1) in
      elim (Option-cases (ok? f.0)) [
        | inl e ↦ rw e buried
        | inr (state, e) ↦ elim (Bool-cases (may_retry state)) [
          | inl again ↦ rw (e, again) (closed.after s f.1 _ failed (requeue_job-closed f.1))
          | inr over ↦ rw (e, over) buried
        ]
      ]
