-- ===== src/Worker/Others.antt =====
-- The end of a job, seen from the other jobs, whatever commands fail.
use video_processor_go.Base.{String, Option, none, some, ◌≢◌, Error}
use video_processor_go.Config.{Config}
use video_processor_go.Backend.{Backend}
use video_processor_go.Backend.Laws.{BackendLaws}
use video_processor_go.Queue.Client.{acknowledge_message}
use video_processor_go.Queue.Undisturbed.{
  Undisturbed, Undisturbed-trans, OnlyJob-Undisturbed, lpush-Undisturbed, lrem-Undisturbed,
  execute-Undisturbed,
}
use video_processor_go.Worker.Settle.{settle_job, fail_job}
use video_processor_go.Worker.Closed.{IsClosed, fail_job-closed}

module _ (b : Backend) (laws : BackendLaws b) (cfg : Config) (video_id other : String)
    (n : video_id ≢ other) where
  Undisturbed-IsClosed : IsClosed b laws cfg video_id (Undisturbed b laws other)
  Undisturbed-IsClosed = record {
    after = λ s t u p q. Undisturbed-trans b laws p q;
    only = λ s t o. OnlyJob-Undisturbed b laws video_id other o n;
    requeued = λ s. lpush-Undisturbed b laws _ video_id other s n;
    buried = λ s. lpush-Undisturbed b laws _ video_id other s n;
  }

  acknowledge_message-Undisturbed :
      (s : b.Store) → Undisturbed b laws other s (acknowledge_message b cfg video_id s).1
  unfolding acknowledge_message
  acknowledge_message-Undisturbed s =
      execute-Undisturbed b laws _ other s (λ t. lrem-Undisturbed b laws _ video_id other t n)

  -- Settling a job, with an error or without one, whatever commands fail, leaves every other job as
  -- it was: its stored state is the same, and it stands in each queue as often as before.
  pub settle_job-Undisturbed :
      (job_err : Option Error) (s : b.Store)
      → Undisturbed b laws other s (settle_job b cfg video_id job_err s).1
  unfolding settle_job
  settle_job-Undisturbed none s = acknowledge_message-Undisturbed s
  settle_job-Undisturbed (some job_err) s =
      Undisturbed-trans b laws
        (fail_job-closed b laws cfg video_id _ Undisturbed-IsClosed job_err s)
        (acknowledge_message-Undisturbed (fail_job b cfg video_id job_err s).1)
