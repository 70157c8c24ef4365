-- ===== src/Examples/Revivals.antt =====
-- A worker that is stopped at work on a job, and the recovery two hours later.
use video_processor_go.Base.{[], false, some, pos, refl, arith, ap, ◌≡◌, ◌<ℤ◌, ℤ, some_inj, unix}
use video_processor_go.Worker.Refinement.{begun_at}
use video_processor_go.Queue.State.{
  JobState, job_key, processing_queue_name, dead_letter_queue_name, job_status_processing,
}
use video_processor_go.Queue.View.{stored}
use video_processor_go.Backend.{execute}
use video_processor_go.Queue.Job.{set_job_processing, set_job_state, existing_state, get_job_state}
use video_processor_go.Queue.Client.{recover_job, consume_message}
use video_processor_go.Worker.Revival.{IsLast, IsRevived, cut_round, recover_job-IsRevived}
use video_processor_go.Examples.Memory.{
  memory, settings, quiet, waiting_job, write, found, take_over,
}
use video_processor_go.Examples.MemoryLaws.{memory_laws, memory_reachable}
use video_processor_go.Examples.Machine.{machine}
use video_processor_go.Examples.Runs.{media}
use video_processor_go.Examples.Rounds.{steady, no_more}

quiet-IsLast :
    IsLast
      (memory false)
      (memory_laws false)
      memory_reachable
      settings
      "v1"
      []
      []
      []
      waiting_job
      quiet
unfolding job_key processing_queue_name dead_letter_queue_name
quiet-IsLast = record { waiting = refl; processing = refl; buried = refl; state = refl }

long_ago :
    (now : ℤ)
    → stored (memory false) (memory_laws false) (begun_at (memory false) settings "v1" quiet) "v1"
      ≡ some (record waiting_job { status = job_status_processing; updated_at = now })
    → now <ℤ pos 1700007200
unfolding job_key set_job_processing set_job_state write unix existing_state get_job_state found
    consume_message execute take_over
long_ago now e =
    let f : pos 1700000000 ≡ now = ap (λ (s : JobState). s.updated_at) (some_inj e) in
    rw (← f) (omega arith)

recover_job-IsRevived_example :
    let t =
      ((cut_round
        (memory false)
        (memory_laws false)
        memory_reachable
        settings
        "v1"
        []
        []
        []
        waiting_job
        machine
        steady
        media
        "libx264"
        "/tmp"
        no_more
        1
        0
        (quiet, 0)).1
      ).0 in
    IsRevived
      (memory false)
      (memory_laws false)
      memory_reachable
      settings
      "v1"
      []
      []
      []
      waiting_job
      (recover_job (memory false) settings (pos 1700007200) "v1" t).1
recover_job-IsRevived_example =
    recover_job-IsRevived (memory false) (memory_laws false) memory_reachable settings "v1" [] [] []
      waiting_job machine steady media "libx264" "/tmp" no_more 1 0 (pos 1700007200) (quiet, 0)
      quiet-IsLast long_ago
