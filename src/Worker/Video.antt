-- ===== src/Worker/Video.antt =====
-- The raw video of a job over whole rounds (`processNextMessage` and its loop, main.go).
use video_processor_go.Base.{
  ℕ, zero, suc, String, Option, none, some, ◌≡◌, inl, inr, ◌⧺◌, Result-cases, Error, Eff,
}
use video_processor_go.Config.{Config}
use video_processor_go.Backend.{Backend}
use video_processor_go.Queue.Job.{set_job_processing}
use video_processor_go.Queue.Client.{consume_message}
use video_processor_go.Pipeline.Host.{Host}
use video_processor_go.Pipeline.Media.{Media}
use video_processor_go.Pipeline.Result.{ProcessingResult}
use video_processor_go.Pipeline.Process.{process_video_by_mode}
use video_processor_go.Pipeline.Quiet.{IsQuiet}
use video_processor_go.Pipeline.Quiet.Process.{process_video-Leaves}
use video_processor_go.Storage.Bucket.{Bucket}
use video_processor_go.Storage.Laws.{BucketLaws, IsLocal}
use video_processor_go.Storage.Objects.{archive_raw_video, download_video, upload_video}
use video_processor_go.Storage.Archive.{raw_path, archive_path}
use video_processor_go.Storage.Untouched.{download_video-Leaves, upload_video-Leaves}
use video_processor_go.Storage.Kept.{Kept, same-Kept, archive_raw_video-Kept}
use video_processor_go.Worker.Uploads.{Leaves, upload_artifacts-Leaves, tidy-Leaves}
use video_processor_go.Worker.Paths.{raw_path-IsRaw, archive_path-IsRaw, processed_path}
use video_processor_go.Worker.Round.{
  upload_artifacts, uploaded, processed, fetched, attempt, tidy, work, process_next_message,
  job_timeout, options_of, processed_id_of,
}
use video_processor_go.Worker.Life.{rounds}

module _ (b : Backend) (h : Host) (k : Bucket h.World) (laws : BucketLaws k)
    (local : IsLocal k laws) (quiet : (key : String) → IsQuiet h (λ w. laws.content w key))
    (m : Media) (cfg : Config) (video_encoder temp_root : String) (fuel : ℕ) where
  open laws use {content}

  module _ (parallel : String → ProcessingResult → Eff h.World ProcessingResult)
      (leaves : (dir : String) (r : ProcessingResult) (key : String) (w : h.World)
        → content (parallel dir r w).1 key ≡ content w key)
      (ctx : h.Context) (video_id : String) where
    -- The raw video `x`, with its content, is kept by a call that touches no raw video.
    Leaves-Kept :
        {A : Type 0} (x : String) (c : laws.Content) (call : Eff h.World A) (w : h.World)
        → Leaves b h k laws local quiet m cfg video_encoder temp_root fuel call
        → Kept k laws x c w
        → Kept k laws x c (call w).1
    Leaves-Kept x c call w leaves =
        same-Kept k laws x c (leaves (raw_path x) (raw_path-IsRaw x) w)
          (leaves (archive_path x) (archive_path-IsRaw x) w)

    abbrev input : String
    input = h.join_path temp_root (video_id ⧺ "_input.mp4")

    abbrev output : String
    output = h.join_path temp_root (video_id ⧺ "_output.mp4")

    module _ (x : String) (c : laws.Content) where
      uploaded-Kept :
          (r : ProcessingResult) (failure : Option Error) (w : b.Store × h.World)
          → Kept k laws x c w.1
          → Kept k laws x c
              ((uploaded b h k m cfg video_encoder temp_root parallel fuel ctx video_id r failure
                  w).1
                ).1
      unfolding uploaded
      uploaded-Kept r (some e) w kept = kept
      uploaded-Kept r none w kept =
          Leaves-Kept x c
            (upload_artifacts b h k m cfg video_encoder temp_root parallel fuel ctx video_id r)
            (archive_raw_video k video_id w.1).1
            (upload_artifacts-Leaves b h k laws local quiet m cfg video_encoder temp_root fuel
              parallel leaves ctx video_id r)
            (archive_raw_video-Kept k laws x c video_id w.1 kept)

      processed-Kept :
          (outcome : Option ProcessingResult × Option Error) (w : b.Store × h.World)
          → Kept k laws x c w.1
          → Kept k laws x c
              ((processed b h k m cfg video_encoder temp_root parallel fuel ctx video_id outcome
                  w).1
                ).1
      unfolding processed
      processed-Kept (r, some e) w kept = kept
      processed-Kept (none, none) w kept = kept
      processed-Kept (some r, none) w kept =
          let call = upload_video k output "processed" (processed_id_of video_id) in
          let sent = call w.1 in
          uploaded-Kept r sent.0 (w.0, sent.1)
            (Leaves-Kept x c call w.1
              (λ j q.
                upload_video-Leaves k laws local j output "processed" (processed_id_of video_id)
                  (processed_path (processed_id_of video_id) j q))
              kept)

      fetched-Kept :
          (failure : Option Error) (w : b.Store × h.World)
          → Kept k laws x c w.1
          → Kept k laws x c
              ((fetched b h k m cfg video_encoder temp_root parallel fuel ctx video_id failure w).1
                ).1
      unfolding fetched
      fetched-Kept (some e) w kept = kept
      fetched-Kept none w kept =
          let limited = h.with_timeout ctx (job_timeout m cfg) in
          let opts = options_of cfg video_encoder in
          let call = process_video_by_mode h m parallel limited input output opts in
          let done = call w.1 in
          processed-Kept done.0 (w.0, done.1)
            (Leaves-Kept x c call w.1
              (λ j q.
                process_video-Leaves h m (λ v. content v j) (quiet j) parallel limited input output
                  opts (λ dir r v. leaves dir r j v))
              kept)

      work-Kept :
          (w : b.Store × h.World)
          → Kept k laws x c w.1
          → Kept k laws x c
              ((work b h k m cfg video_encoder temp_root parallel fuel ctx video_id w).1).1
      unfolding work attempt
      work-Kept w kept =
          let call = download_video k cfg "raw" video_id input in
          let came = call w.1 in
          let (ending, (s, v)) =
            fetched b h k m cfg video_encoder temp_root parallel fuel ctx video_id came.0
              (w.0, came.1) in
          Leaves-Kept x c
            (tidy b h k m cfg video_encoder temp_root parallel fuel ctx video_id ending.result) v
            (tidy-Leaves b h k laws local quiet m cfg video_encoder temp_root fuel parallel leaves
              ctx video_id ending.result)
            (fetched-Kept came.0 (w.0, came.1)
              (Leaves-Kept x c call w.1
                (λ j q. download_video-Leaves k laws local j cfg "raw" video_id input) kept))

  -- A round, whether or not a message comes.
  round-Kept :
      (parallel : String → ProcessingResult → Eff h.World ProcessingResult)
      (leaves : (dir : String) (r : ProcessingResult) (key : String) (w : h.World)
        → content (parallel dir r w).1 key ≡ content w key)
      (ctx : h.Context) (x : String) (c : laws.Content) (w : b.Store × h.World)
      → Kept k laws x c w.1
      → Kept k laws x c
          ((process_next_message b h k m cfg video_encoder temp_root parallel fuel ctx w).1).1
  unfolding process_next_message
  round-Kept parallel leaves ctx x c w kept =
      let r = consume_message b cfg w.0 in
      elim (Result-cases r.0) [
        | inr (e, silence) ↦ rw silence kept
        | inl (video_id, came) ↦ rw came (
            work-Kept parallel leaves ctx video_id x c ((set_job_processing b video_id r.1).1, w.1)
              kept)
      ]

  -- The rounds of a worker lose no raw video, as long as the rule by which the object store itself
  -- deletes archived raw videos after 30 days has not acted: over any number of rounds, whatever the
  -- queue does and whatever calls of the object store and steps of the pipeline fail, a raw video
  -- with some content stands at its place with that content, or it has gone from there and stands in
  -- the archive with it. (Commands, local files and goroutines of the pipeline do not write to the
  -- object store, and nobody else does meanwhile.)
  pub rounds-Kept :
      (parallels : ℕ → String → ProcessingResult → Eff h.World ProcessingResult)
      (leaves : (i : ℕ) (dir : String) (r : ProcessingResult) (key : String) (w : h.World)
        → content (parallels i dir r w).1 key ≡ content w key)
      (ctxs : ℕ → h.Context) (n : ℕ) (x : String) (c : laws.Content) (w : b.Store × h.World)
      → Kept k laws x c w.1
      → let turn = λ (i : ℕ).
        process_next_message b h k m cfg video_encoder temp_root (parallels i) fuel (ctxs i) in
        let (report, (s, v)) = rounds turn n w in Kept k laws x c v
  unfolding rounds
  rounds-Kept parallels leaves ctxs zero x c w kept =
      round-Kept (parallels 0) (leaves 0) (ctxs 0) x c w kept
  rounds-Kept parallels leaves ctxs (suc n) x c w kept =
      round-Kept (parallels (suc n)) (leaves (suc n)) (ctxs (suc n)) x c _
        (rounds-Kept parallels leaves ctxs n x c w kept)
