-- ===== src/Worker/Refinement.antt =====
-- A whole round of `processNextMessage` (main.go), as the queue sees it.
use video_processor_go.Base.{
  ℕ, String, none, some, ◌≡◌, inl, inr, refl, Error, Eff, Result, ok, err, Result-cases, subst,
}
use video_processor_go.Config.{Config}
use video_processor_go.Backend.{Backend}
use video_processor_go.Queue.Job.{set_job_processing}
use video_processor_go.Queue.Client.{consume_message}
use video_processor_go.Pipeline.Host.{Host}
use video_processor_go.Pipeline.Media.{Media}
use video_processor_go.Pipeline.Result.{ProcessingResult}
use video_processor_go.Storage.Bucket.{Bucket}
use video_processor_go.Worker.Settle.{settle_job}
use video_processor_go.Worker.Lifecycle.{failing_round, settle_taken}
use video_processor_go.Worker.Round.{
  Report, silent, failed, Ending, announce, work, process_next_message,
}
use video_processor_go.Worker.Branches.{verdict, attempt-Cases}

-- A failing round with that error, and its report.
abbrev pub reported_failure : (b : Backend) → Config → Error → b.Store → Report × b.Store
reported_failure b cfg e s =
    let (notice, t) = failing_round b cfg e s in
    (record { error = some e; success = none; failure = notice }, t)

-- The report of a job that ended so, and the store when it is settled.
abbrev pub settled : (b : Backend) → Config → String → Ending × b.Store → Report × b.Store
settled b cfg video_id (ending, s) =
    let (notice, t) = settle_job b cfg video_id ending.job_err s in
    (record { error = ending.job_err; success = ending.notice; failure = notice }, t)

-- The store where the work on a job begins.
abbrev pub begun_at : (b : Backend) → Config → String → b.Store → b.Store
begun_at b cfg video_id s = (set_job_processing b video_id (consume_message b cfg s).1).1

-- The rounds that the queue sees, from a store to a report and a store, where `said` tells of a job
-- whether the calls before its publication succeed: no message came; they fail, and nothing is
-- published; or they succeed, and the result is published, or fails to be, and the job is settled.
pub data QueueRound (b : Backend) (cfg : Config) (said : String → Result ProcessingResult)
    (s : b.Store) : Report × b.Store → Type 0 where
  idle :
      (e : Error)
      → (consume_message b cfg s).0 ≡ err e
      → QueueRound b cfg said s (silent (some e), (consume_message b cfg s).1)
  fails :
      (video_id : String) (e : Error)
      → (consume_message b cfg s).0 ≡ ok video_id
      → said video_id ≡ err e
      → QueueRound b cfg said s (reported_failure b cfg e s)
  publishes :
      (video_id : String) (result : ProcessingResult)
      → (consume_message b cfg s).0 ≡ ok video_id
      → said video_id ≡ ok result
      → QueueRound b cfg said s
          (settled b cfg video_id (announce b cfg video_id result (begun_at b cfg video_id s)))

module _ (b : Backend) (h : Host) (k : Bucket h.World) (m : Media) (cfg : Config)
    (video_encoder temp_root : String)
    (parallel : String → ProcessingResult → Eff h.World ProcessingResult) (fuel : ℕ) where
  reported_failure-settled :
      (video_id : String) (e : Error) (s : b.Store)
      → (consume_message b cfg s).0 ≡ ok video_id
      → reported_failure b cfg e s
        ≡ settled b cfg video_id (failed e none, begun_at b cfg video_id s)
  unfolding failing_round settle_taken
  reported_failure-settled video_id e s came = rw came refl

  -- Whatever the object store, the pipeline, the machine and Redis do, a round of processNextMessage
  -- is for the queue one of three. No message came, and its error is returned. The download, the
  -- pipeline or the upload of the video failed, and the store, the error and the notices are those
  -- of a failing round with the error of the first that failed. Or all three succeeded, the
  -- pipeline's result was published, or failed to be, and the job was settled with the error of that.
  pub process_next_message-QueueRound :
      (ctx : h.Context) (w : b.Store × h.World)
      → let (report, (t, v)) =
          process_next_message b h k m cfg video_encoder temp_root parallel fuel ctx w in
        let said = λ (video_id : String).
          verdict h k m cfg video_encoder temp_root parallel ctx video_id w.1 in
        QueueRound b cfg said w.0 (report, t)
  unfolding process_next_message work
  process_next_message-QueueRound ctx (s, v) = elim (Result-cases (consume_message b cfg s).0) [
    | inr (e, silence) ↦ rw silence (QueueRound.idle e silence)
    | inl (video_id, came) ↦
        let begun = begun_at b cfg video_id s in
        let said = λ (id : String). verdict h k m cfg video_encoder temp_root parallel ctx id v in
        elim (attempt-Cases b h k m cfg video_encoder temp_root parallel fuel ctx video_id
          (begun, v)) [
            | inl (e, told, lost, quiet, same) ↦
                rw (came, lost, quiet, same)
                  (subst (QueueRound b cfg said s) (reported_failure-settled video_id e s came)
                    (QueueRound.fails video_id e came told))
            | inr (result, told, same) ↦ rw came (
                subst (λ x. QueueRound b cfg said s (settled b cfg video_id x)) same
                  (QueueRound.publishes video_id result came told))
          ]
  ]
