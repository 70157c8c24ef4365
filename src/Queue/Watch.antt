-- ===== src/Queue/Watch.antt =====
-- The loop of the recovery (StartRecovery of queue/client.go) over any number of ticks.
use video_processor_go.Base.{ℤ, ℕ, zero, suc, String, some, ◌≡◌, ◌≢◌, inl, ◌∙◌}
use video_processor_go.Config.{Config}
use video_processor_go.Backend.{Backend}
use video_processor_go.Backend.Laws.{BackendLaws}
use video_processor_go.Queue.State.{JobState, job_status_processing}
use video_processor_go.Queue.Client.{start_recovery}
use video_processor_go.Queue.View.{stored}
use video_processor_go.Queue.Undisturbed.{Undisturbed, Undisturbed-refl, Undisturbed-trans}
use video_processor_go.Queue.Recovery.{recover_stuck_jobs-Undisturbed}

module _ (b : Backend) (laws : BackendLaws b) where
  -- A stored job that is not marked `processing`, and that nobody else changes meanwhile, is left
  -- alone by the recovery over any number of ticks, whatever commands fail in them: its state stays
  -- as it was, and it stands in each queue as often as before.
  pub start_recovery-Undisturbed :
      (meanwhile : ℕ → b.Store → b.Store) (cfg : Config) (stuck_timeout : ℤ) (n : ℕ)
      (video_id : String) (s : b.Store) {state : JobState}
      → ((i : ℕ) (t : b.Store) → Undisturbed b laws video_id t (meanwhile i t))
      → stored b laws s video_id ≡ some state
      → state.status ≢ job_status_processing
      → Undisturbed b laws video_id s (start_recovery b meanwhile cfg stuck_timeout n s)
  unfolding start_recovery
  start_recovery-Undisturbed meanwhile cfg stuck_timeout zero video_id s calm has idle =
      Undisturbed-refl b laws video_id s
  start_recovery-Undisturbed meanwhile cfg stuck_timeout (suc n) video_id s calm has idle =
      let before = start_recovery b meanwhile cfg stuck_timeout n s in
      let kept =
        start_recovery-Undisturbed meanwhile cfg stuck_timeout n video_id s calm has idle in
      let ready = Undisturbed-trans b laws kept (calm n before) in
      Undisturbed-trans b laws ready (
        recover_stuck_jobs-Undisturbed b laws cfg stuck_timeout video_id (meanwhile n before)
          (ready.state ∙ has) (inl idle))
