-- ===== src/Examples/Losses.antt =====
-- A retry whose write of the state fails.
use video_processor_go.Base.{some, [], ◌∷◌, true, false, refl, increment}
use video_processor_go.Queue.State.{job_key}
use video_processor_go.Queue.Job.{
  set_job_failed, requeue_job, failed_state, set_job_state, existing_state, get_job_state,
}
use video_processor_go.Queue.Client.{acknowledge_message}
use video_processor_go.Backend.{execute}
use video_processor_go.Worker.Settle.{may_retry, settle_job}
use video_processor_go.Worker.Loss.{IsDropped, settle_job-IsDropped}
use video_processor_go.Examples.Memory.{Memory, memory, settings, busy, at_work, write, found}
use video_processor_go.Examples.MemoryLaws.{memory_laws}

-- The first command that writes succeeds, and the second fails.
abbrev unlucky : Memory
unlucky = busy 1 (false ∷ true ∷ false ∷ [])

settle_job-IsDropped_example :
    IsDropped
      (memory true)
      (memory_laws true)
      settings
      "v1"
      "boom"
      unlucky
      (settle_job (memory true) settings "v1" (some "boom") unlucky).1
unfolding may_retry set_job_failed requeue_job acknowledge_message job_key failed_state increment
    execute set_job_state write existing_state get_job_state found
settle_job-IsDropped_example =
    settle_job-IsDropped (memory true) (memory_laws true) settings "v1" "boom" unlucky
      {failed = failed_state "boom" (at_work 1)} refl refl refl refl
