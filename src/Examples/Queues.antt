-- ===== src/Examples/Queues.antt =====
-- The queue's operations at concrete stores.
use video_processor_go.Base.{
  some, [], ◌∷◌, second_before, true, false, ◌≡◌, inr, refl, pos, arith, unix_before,
}
use video_processor_go.Queue.State.{job_key}
use video_processor_go.Queue.Client.{recover_job, recover_stuck_jobs}
use video_processor_go.Queue.View.{stored}
use video_processor_go.Queue.Updates.{Updates}
use video_processor_go.Queue.Undisturbed.{Undisturbed}
use video_processor_go.Queue.Recovery.{recover_stuck_jobs-Undisturbed}
use video_processor_go.Queue.Rescue.{IsRecovered, recover_job-IsRecovered}
use video_processor_go.Examples.Memory.{Memory, memory, settings, busy, at_work}
use video_processor_go.Examples.MemoryLaws.{memory_laws, memory_reachable}

-- The second command fails.
abbrev shaky : Memory
shaky = busy 1 (false ∷ true ∷ [])

stored-shaky : stored (memory true) (memory_laws true) shaky "v1" ≡ some (at_work 1)
unfolding job_key
stored-shaky = refl

pub calm_stored : stored (memory false) (memory_laws false) (busy 7 []) "v1" ≡ some (at_work 7)
unfolding job_key
calm_stored = refl

-- The job was updated at the very second of the clock, an hour before it would be stuck.
recover_stuck_jobs-Undisturbed_example :
    Undisturbed
      (memory true)
      (memory_laws true)
      "v1"
      shaky
      (recover_stuck_jobs (memory true) settings (pos 3600000000000) shaky).1
unfolding unix_before second_before
recover_stuck_jobs-Undisturbed_example =
    recover_stuck_jobs-Undisturbed (memory true) (memory_laws true) settings (pos 3600000000000)
      "v1" shaky stored-shaky (inr (omega arith))

recover_job-IsRecovered_example :
    IsRecovered
      (memory false)
      (memory_laws false)
      memory_reachable
      settings
      "v1"
      (at_work 7)
      (busy 7 [])
      (recover_job (memory false) settings (pos 1700000001) "v1" (busy 7 [])).1
recover_job-IsRecovered_example =
    recover_job-IsRecovered (memory false) (memory_laws false) memory_reachable settings
      (pos 1700000001) "v1" (busy 7 []) calm_stored refl (omega arith)
