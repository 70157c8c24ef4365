-- ===== src/Worker/Life.antt =====
-- A worker's loop (main.go) on a job that waits alone, while Redis can be reached.
use video_processor_go.Base.{
  ℕ, zero, suc, ◌<◌, ◌≤◌, String, List, Result, err, ◌≡◌, ◌≢◌, Error, Eff,
}
use video_processor_go.Config.{Config}
use video_processor_go.Backend.{Backend}
use video_processor_go.Backend.Laws.{BackendLaws, IsReachable}
use video_processor_go.Queue.State.{processing_queue_name, dead_letter_queue_name}
use video_processor_go.Pipeline.Host.{Host}
use video_processor_go.Pipeline.Media.{Media}
use video_processor_go.Pipeline.Result.{ProcessingResult}
use video_processor_go.Storage.Bucket.{Bucket}
use video_processor_go.Worker.Round.{Report, process_next_message}
use video_processor_go.Worker.Branches.{verdict}
use video_processor_go.Worker.Turn.{DoneRound}

-- `for { processNextMessage(...) }`: the report and the outside after round `n`, the first being 0.
-- `turn i` is round `i`.
unfoldable pub rounds : {S : Type 0} → (ℕ → Eff S Report) → ℕ → Eff S Report
rounds turn zero w = turn zero w
rounds turn (suc n) w = turn (suc n) (rounds turn n w).1

module _ (b : Backend) (laws : BackendLaws b) (live : IsReachable b laws) (cfg : Config)
    (apart_request : cfg.processing_finished_queue ≢ cfg.processing_request_queue)
    (apart_processing : cfg.processing_finished_queue ≢ processing_queue_name cfg)
    (apart_dead : cfg.processing_finished_queue ≢ dead_letter_queue_name cfg)
    (video_id address : String) (working dead : List String) where
  module _ (h : Host) (k : Bucket h.World) (m : Media) (video_encoder temp_root : String) (fuel : ℕ)
      (ctxs : ℕ → h.Context)
      (parallels : ℕ → String → ProcessingResult → Eff h.World ProcessingResult) where
    -- Round `i` of the worker, with its own context and run of the goroutines.
    abbrev pub turn : ℕ → Eff (b.Store × h.World) Report
    turn i = process_next_message b h k m cfg video_encoder temp_root (parallels i) fuel (ctxs i)

    -- Whether the calls before the publication succeed in round `i`, which begins at `w`.
    abbrev pub verdict_at : ℕ → b.Store × h.World → Result ProcessingResult
    verdict_at i w = verdict h k m cfg video_encoder temp_root (parallels i) (ctxs i) video_id w.1

    -- Where round `i` begins.
    unfoldable pub before_round : ℕ → b.Store × h.World → b.Store × h.World
    before_round zero w = w
    before_round (suc i) w = (rounds turn i w).1

    -- Each round before round `n` fails before the publication.
    abbrev pub AllFail : ℕ → b.Store × h.World → Type 0
    AllFail n w = (i : ℕ) → i < n → (e : Error) × (verdict_at i (before_round i w) ≡ err e)

    -- Round `i` is the first that does not, and the job is done.
    abbrev pub DoneBy : ℕ → b.Store × h.World → Type 0
    DoneBy n w =
        (i : ℕ) × (i ≤ n)
        × AllFail i w
        × (let (report, (t, v)) = rounds turn i w in
            DoneRound b laws live cfg apart_request apart_processing apart_dead video_id address
              working dead (verdict_at i (before_round i w)) i report t)
