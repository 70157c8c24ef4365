-- ===== src/Examples/Stops.antt =====
-- Workers and a recovery that are stopped between their Redis commands.
use video_processor_go.Base.{[], pos, false, inl, refl, arith, count}
use video_processor_go.Queue.Client.{recover_job, recover_stuck_jobs}
use video_processor_go.Queue.State.{processing_queue_name, dead_letter_queue_name}
use video_processor_go.Queue.Stranded.{IsCut, recover_job-IsCut}
use video_processor_go.Backend.Crash.{crashing}
use video_processor_go.Worker.Safe.{Safe}
use video_processor_go.Worker.Round.{process_next_message}
use video_processor_go.Worker.History.{History, History-Safe}
use video_processor_go.Examples.Memory.{Memory, memory, settings, quiet, busy}
use video_processor_go.Examples.MemoryLaws.{memory_laws, memory_reachable}
use video_processor_go.Examples.Machine.{machine}
use video_processor_go.Examples.Runs.{media}
use video_processor_go.Examples.Rounds.{steady, no_more, request, processing}
use video_processor_go.Examples.Queues.{calm_stored}

waiting : Safe (memory false) (memory_laws false) settings "v1" quiet
unfolding count processing_queue_name dead_letter_queue_name
waiting = inl (omega arith)

recover_job-IsCut_example :
    IsCut
      (memory false)
      (memory_laws false)
      memory_reachable
      settings
      "v1"
      3
      (busy 7 [])
      ((recover_job (crashing (memory false)) settings (pos 1700000001) "v1" (3, busy 7 [])).1).1
recover_job-IsCut_example =
    recover_job-IsCut (memory false) (memory_laws false) memory_reachable settings "v1"
      (pos 1700000001) 3 (busy 7 []) calm_stored refl (omega arith)

-- A worker is stopped after three commands, and then the recovery ticks.
abbrev after_round : Memory
after_round =
    (((process_next_message (crashing (memory false)) machine steady media settings "libx264" "/tmp"
      no_more 1 0 ((3, quiet), 0)).1
    ).0).1

stopped_round :
    History
      (memory false)
      (memory_laws false)
      memory_reachable
      settings
      request
      processing
      machine
      steady
      media
      "libx264"
      "/tmp"
      1
      quiet
      after_round
stopped_round = History.round 3 no_more 0 0 quiet History.nothing

History-Safe_example :
    Safe
      (memory false)
      (memory_laws false)
      settings
      "v1"
      (recover_stuck_jobs (memory false) settings (pos 60) after_round).1
History-Safe_example =
    History-Safe (memory false) (memory_laws false) memory_reachable settings request processing
      machine steady media "libx264" "/tmp" 1 "v1" (History.tick (pos 60) after_round stopped_round)
      waiting
