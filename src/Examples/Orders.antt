-- ===== src/Examples/Orders.antt =====
-- The order of the request queue, the recovery's loop and a state's round trip, over the Redis in
-- memory.
use video_processor_go.Base.{
  pos, String, some, ok, true, [], ◌∷◌, ◌++◌, ◌≡◌, ◌≢◌, unix, refl, false, eq_iff, arith,
}
use video_processor_go.Config.{Config}
use video_processor_go.Queue.State.{JobState, job_key, processing_queue_name}
use video_processor_go.Queue.Job.{publish_job, set_job_state, get_job_state}
use video_processor_go.Queue.View.{stored}
use video_processor_go.Queue.Client.{recover_stuck_jobs, consume_message, start_recovery}
use video_processor_go.Queue.Undisturbed.{Undisturbed, Undisturbed-refl}
use video_processor_go.Backend.{execute}
use video_processor_go.Queue.Order.{Serves, waiting, Serves-waiting}
use video_processor_go.Worker.Round.{job_timeout}
use video_processor_go.Worker.Health.{stuck_timeout}
use video_processor_go.Worker.Budget.{recover_stuck_jobs-job_timeout}
use video_processor_go.Examples.Runs.{media}
use video_processor_go.Queue.Watch.{start_recovery-Undisturbed}
use video_processor_go.Queue.RoundTrip.{get_job_state-set_job_state}
use video_processor_go.Examples.Memory.{
  busy, write, take_over, memory, settings, quiet, waiting_job,
}
use video_processor_go.Examples.MemoryLaws.{memory_laws, memory_reachable}

get_job_state-set_job_state_example :
    let t = (set_job_state (memory false) "v2" waiting_job quiet).1 in
    ((get_job_state (memory false) "v2" t).0
      ≡ ok (record waiting_job { updated_at = unix ((memory false).clock quiet).0 }))
    × ((other : String) (old : JobState)
        → "v2" ≢ other
        → stored (memory false) (memory_laws false) quiet other ≡ some old
        → (get_job_state (memory false) other t).0 ≡ ok old)
get_job_state-set_job_state_example =
    get_job_state-set_job_state (memory false) (memory_laws false) memory_reachable "v2" waiting_job
      quiet

start_recovery-Undisturbed_example :
    Undisturbed
      (memory true)
      (memory_laws true)
      "v1"
      quiet
      (start_recovery (memory true) (λ i s. s) settings (pos 3600000000000) 5 quiet)
unfolding job_key
start_recovery-Undisturbed_example =
    start_recovery-Undisturbed (memory true) (memory_laws true) (λ i s. s) settings
      (pos 3600000000000) 5 "v1" quiet
      (λ i t. Undisturbed-refl (memory true) (memory_laws true) "v1" t) refl
      (ground (arith, eq_iff "pending" "processing"))

-- `v2` is published while `v1` waits, and both are taken.
two_taken :
    Serves
      (memory false)
      (memory_laws false)
      settings
      quiet
      ("v2" ∷ [])
      ("v1" ∷ "v2" ∷ [])
      (consume_message
        (memory false)
        settings
        (consume_message
          (memory false)
          settings
          (publish_job (memory false) settings "v2" "" quiet).1).1).1
unfolding publish_job consume_message execute set_job_state write take_over processing_queue_name
two_taken =
    Serves.consumed "v2" (Serves.consumed "v1" (Serves.published "v2" "" Serves.nothing refl) refl)
      refl

Serves-waiting_example :
    let t =
      (consume_message
        (memory false)
        settings
        (consume_message
          (memory false)
          settings
          (publish_job (memory false) settings "v2" "" quiet).1).1).1 in
    ("v1" ∷ "v2" ∷ []) ++ waiting (memory false) (memory_laws false) settings t
    ≡ waiting (memory false) (memory_laws false) settings quiet ++ ("v2" ∷ [])
Serves-waiting_example = Serves-waiting (memory false) (memory_laws false) settings two_taken

-- The budget of a job is 18 minutes.
abbrev timed : Config
timed = record settings { job_timeout = pos 1080000000000 }

recover_stuck_jobs-job_timeout_example :
    Undisturbed
      (memory true)
      (memory_laws true)
      "v1"
      (busy 1 [])
      (recover_stuck_jobs (memory true) timed (stuck_timeout media timed) (busy 1 [])).1
unfolding job_key unix job_timeout
recover_stuck_jobs-job_timeout_example =
    recover_stuck_jobs-job_timeout (memory true) (memory_laws true) media timed "v1" (busy 1 [])
      1700000000000000000 1080000000000 refl (omega arith) refl refl (omega arith)
