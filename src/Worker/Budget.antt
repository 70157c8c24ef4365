-- ===== src/Worker/Budget.antt =====
-- main.go starts the recovery of queue/client.go with a timeout above the budget of a job.
use video_processor_go.Base.{
  ℕ, ◌+◌, ◌≤◌, String, some, ◌≡◌, inr, ◌≤ℤ◌, unix, unix_before, second_before, add64, wrap64,
  max_int64, pos, arith, minute,
}
use video_processor_go.Config.{Config}
use video_processor_go.Backend.{Backend}
use video_processor_go.Backend.Laws.{BackendLaws}
use video_processor_go.Pipeline.Media.{Media}
use video_processor_go.Queue.State.{JobState, processing_queue_name}
use video_processor_go.Queue.Client.{recover_stuck_jobs}
use video_processor_go.Queue.View.{stored}
use video_processor_go.Queue.Undisturbed.{Undisturbed}
use video_processor_go.Queue.Recovery.{recover_stuck_jobs-Undisturbed}
use video_processor_go.Worker.Round.{job_timeout}
use video_processor_go.Worker.Health.{stuck_timeout}

-- Seconds are rounded down alike.
unix_before_le : (now since d : ℕ) → now ≤ since + d → unix_before now (pos d) ≤ℤ unix since
unfolding unix_before second_before unix
unix_before_le now since d h = ground arith

-- A sum that fits is not wrapped.
add64_pos : (n d : ℕ) → n + d ≤ max_int64 → add64 (pos n) d ≡ pos (n + d)
unfolding add64 wrap64
add64_pos n d h = ground arith

module _ (b : Backend) (laws : BackendLaws b) where
  -- Where the budget of a job is not negative and with one minute more still an int64: a job whose
  -- state was written at some time (in nanoseconds) is left alone by a round of the recovery with
  -- main's timeout, whatever commands fail in it, up to the budget and one minute later: its state
  -- stays as it was, and it stands in each queue as often as before.
  pub recover_stuck_jobs-job_timeout :
      (m : Media) (cfg : Config) (video_id : String) (s : b.Store) {state : JobState}
      (since budget : ℕ)
      → job_timeout m cfg ≡ pos budget
      → budget + minute ≤ max_int64
      → stored b laws s video_id ≡ some state
      → state.updated_at ≡ unix since
      → let now = (b.clock (b.lrange (processing_queue_name cfg) s).1).0 in
        now ≤ since + (budget + minute)
        → Undisturbed b laws video_id s (recover_stuck_jobs b cfg (stuck_timeout m cfg) s).1
  unfolding stuck_timeout
  recover_stuck_jobs-job_timeout m cfg video_id s since budget is fits has written soon =
      recover_stuck_jobs-Undisturbed b laws cfg (stuck_timeout m cfg) video_id s has
        (inr (rw (written, is, add64_pos budget minute fits) (unix_before_le _ since _ soon)))
