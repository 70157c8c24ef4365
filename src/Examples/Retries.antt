-- ===== src/Examples/Retries.antt =====
-- The queue and the retry policy at concrete stores.
use video_processor_go.Base.{ℕ, some, List, [], Bool, false, ◌≡◌, refl, arith}
use video_processor_go.Examples.Memory.{memory, settings, busy, at_work}
use video_processor_go.Examples.MemoryLaws.{memory_laws, memory_reachable}
use video_processor_go.Queue.State.{job_key}
use video_processor_go.Queue.View.{stored}
use video_processor_go.Worker.Settle.{settle_job}
use video_processor_go.Worker.Retry.{IsRequeued, IsBuried, settle_job_requeues, settle_job_buries}

stored-busy :
    (r : ℕ) (faults : List Bool)
    → stored (memory false) (memory_laws false) (busy r faults) "v1" ≡ some (at_work r)
unfolding job_key
stored-busy r faults = refl

settle_job_requeues_example :
    let (notice, t) = settle_job (memory false) settings "v1" (some "boom") (busy 2 []) in
    IsRequeued
      (memory false)
      (memory_laws false)
      memory_reachable
      settings
      "v1"
      "boom"
      (busy 2 [])
      (at_work 2)
      2
      notice
      t
settle_job_requeues_example =
    settle_job_requeues (memory false) (memory_laws false) memory_reachable settings "v1" "boom"
      (busy 2 []) (stored-busy 2 []) 2 refl (omega arith)

settle_job_buries_example :
    let (notice, t) = settle_job (memory false) settings "v1" (some "boom") (busy 3 []) in
    IsBuried
      (memory false)
      (memory_laws false)
      memory_reachable
      settings
      "v1"
      "boom"
      (busy 3 [])
      (at_work 3)
      3
      notice
      t
settle_job_buries_example =
    settle_job_buries (memory false) (memory_laws false) memory_reachable settings "v1" "boom"
      (busy 3 []) (stored-busy 3 []) 3 refl (omega arith) (omega arith)
