-- ===== src/Worker/Branches.antt =====
-- Where an attempt of `processNextMessage` (main.go) ends, as the queue sees it: before the success
-- message, with an error and the queue untouched, or with the calls that publish the result.
use video_processor_go.Base.{
  ℕ, String, Option, none, some, ◌≡◌, ◌⊎◌, inl, inr, refl, ◌⧺◌, Error, Result, ok, err, Eff,
}
use video_processor_go.Config.{Config}
use video_processor_go.Backend.{Backend}
use video_processor_go.Pipeline.Host.{Host}
use video_processor_go.Pipeline.Media.{Media}
use video_processor_go.Pipeline.Result.{ProcessingResult}
use video_processor_go.Storage.Bucket.{Bucket}
use video_processor_go.Storage.Objects.{download_video, upload_video}
use video_processor_go.Pipeline.Process.{process_video_by_mode}
use video_processor_go.Worker.Round.{
  Ending, announce, job_timeout, options_of, uploaded, processed, fetched, attempt,
}

-- The calls that decide an attempt, one after the other, and the error of the first that fails.
module _ (h : Host) (k : Bucket h.World) (m : Media) (cfg : Config)
    (video_encoder temp_root : String)
    (parallel : String → ProcessingResult → Eff h.World ProcessingResult) (ctx : h.Context)
    (video_id : String) where
  unfoldable pub verdict_of_upload : ProcessingResult → Option Error → Result ProcessingResult
  verdict_of_upload result (some e) = err ("failed to upload video: " ⧺ e)
  verdict_of_upload result none = ok result

  unfoldable pub verdict_of_outcome :
      Option ProcessingResult × Option Error → h.World → Result ProcessingResult
  unfolding verdict_of_upload
  verdict_of_outcome (result, some e) v = err ("failed to process video: " ⧺ e)
  verdict_of_outcome (none, none) v = err "invalid memory address or nil pointer dereference"
  verdict_of_outcome (some result, none) v =
      let path = h.join_path temp_root (video_id ⧺ "_output.mp4") in
      verdict_of_upload result (upload_video k path "processed" (video_id ⧺ "_processed") v).0

  unfoldable pub verdict_of_download : Option Error → h.World → Result ProcessingResult
  unfolding verdict_of_outcome
  verdict_of_download (some e) v = err ("failed to download video: " ⧺ e)
  verdict_of_download none v =
      let outcome =
        process_video_by_mode h m parallel (h.with_timeout ctx (job_timeout m cfg))
          (h.join_path temp_root (video_id ⧺ "_input.mp4"))
          (h.join_path temp_root (video_id ⧺ "_output.mp4")) (options_of cfg video_encoder) v in
      verdict_of_outcome outcome.0 outcome.1

  -- The result of the pipeline where the download, the pipeline and the upload of the video succeed.
  unfoldable pub verdict : h.World → Result ProcessingResult
  unfolding verdict_of_download
  verdict v =
      let d =
        download_video k cfg "raw" video_id (h.join_path temp_root (video_id ⧺ "_input.mp4")) v in
      verdict_of_download d.0 d.1

-- For a failure: an ending with that error and no notice, at the store `s` it began with. For a
-- result: what publishing it ends with.
abbrev pub EndsBy :
    (b : Backend) → Config → String → Result ProcessingResult → b.Store → Ending → b.Store → Type 0
EndsBy b cfg video_id said s ending t =
    ((e : Error) × (said ≡ err e) × (ending.job_err ≡ some e) × (ending.notice ≡ none) × (t ≡ s))
    ⊎ ((result : ProcessingResult) × (said ≡ ok result)
        × (announce b cfg video_id result s ≡ (ending, t)))

module _ (b : Backend) (h : Host) (k : Bucket h.World) (m : Media) (cfg : Config)
    (video_encoder temp_root : String)
    (parallel : String → ProcessingResult → Eff h.World ProcessingResult) (fuel : ℕ)
    (ctx : h.Context) (video_id : String) where
  abbrev Cases : Result ProcessingResult → b.Store → Ending × (b.Store × h.World) → Type 0
  Cases said s r = EndsBy b cfg video_id said s r.0 (r.1).0

  uploaded-Cases :
      (result : ProcessingResult) (failure : Option Error) (w : b.Store × h.World)
      → Cases
          (verdict_of_upload h k m cfg video_encoder temp_root parallel ctx video_id result failure)
          w.0
          (uploaded b h k m cfg video_encoder temp_root parallel fuel ctx video_id result failure w)
  unfolding uploaded verdict_of_upload
  uploaded-Cases result (some e) w = inl (_, refl, refl, refl, refl)
  uploaded-Cases result none w = inr (result, refl, refl)

  processed-Cases :
      (outcome : Option ProcessingResult × Option Error) (w : b.Store × h.World)
      → Cases
          (verdict_of_outcome h k m cfg video_encoder temp_root parallel ctx video_id outcome w.1)
          w.0
          (processed b h k m cfg video_encoder temp_root parallel fuel ctx video_id outcome w)
  unfolding processed verdict_of_outcome
  processed-Cases (result, some e) w = inl (_, refl, refl, refl, refl)
  processed-Cases (none, none) w = inl (_, refl, refl, refl, refl)
  processed-Cases (some result, none) w = uploaded-Cases result _ _

  fetched-Cases :
      (failure : Option Error) (w : b.Store × h.World)
      → Cases
          (verdict_of_download h k m cfg video_encoder temp_root parallel ctx video_id failure w.1)
          w.0
          (fetched b h k m cfg video_encoder temp_root parallel fuel ctx video_id failure w)
  unfolding fetched verdict_of_download
  fetched-Cases (some e) w = inl (_, refl, refl, refl, refl)
  fetched-Cases none w = processed-Cases _ _

  pub attempt-Cases :
      (w : b.Store × h.World)
      → Cases
          (verdict h k m cfg video_encoder temp_root parallel ctx video_id w.1)
          w.0
          (attempt b h k m cfg video_encoder temp_root parallel fuel ctx video_id w)
  unfolding attempt verdict
  attempt-Cases w = fetched-Cases _ _
