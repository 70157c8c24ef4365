-- ===== src/Worker/Round.antt =====
-- main.go: `processNextMessage` and the goroutine that it starts, to the goroutine's end. Metrics,
-- logs and spans are left out.
use video_processor_go.Base.{
  ℤ, ℕ, String, Option, none, some, pos, ltb_ℤ, Error, Result, ok, err, Eff, pure, ◌>>=◌, ◌⧺◌,
  str_eq, if◌then◌else◌,
}
use video_processor_go.Config.{Config}
use video_processor_go.Backend.{Backend}
use video_processor_go.Queue.State.{JobState}
use video_processor_go.Queue.Job.{get_job_state, set_job_done, set_job_processing}
use video_processor_go.Queue.Client.{consume_message, publish_success_message}
use video_processor_go.Pipeline.Host.{Host}
use video_processor_go.Pipeline.Media.{Media}
use video_processor_go.Pipeline.Result.{ProcessingResult}
use video_processor_go.Pipeline.Process.{Options, job_budget, process_video_by_mode}
use video_processor_go.Storage.Bucket.{Bucket}
use video_processor_go.Storage.Objects.{
  video_type_raw, video_type_processed, download_video, upload_video, upload_file, upload_directory,
  archive_raw_video,
}
use video_processor_go.Worker.Artifacts.{to_job_metadata, build_job_artifacts}
use video_processor_go.Worker.Settle.{Notice, notice_of, settle_job}

unfoldable pub job_timeout : Media → Config → ℤ
job_timeout m cfg =
    if ltb_ℤ (pos 0) cfg.job_timeout
    then cfg.job_timeout
    else job_budget m cfg.processing_timeout_scale

-- What a job leaves for its end: its error, the notice of its success, the pipeline's result.
pub record Ending : Type 0 where
  pub job_err : Option Error
  pub notice : Option Notice
  pub result : Option ProcessingResult

abbrev pub failed : Error → Option ProcessingResult → Ending
failed e result = record { job_err = some e; notice = none; result = result }

-- What the caller of a round gets, and the notices that are sent in the background.
pub record Report : Type 0 where
  pub error : Option Error
  pub success : Option Notice
  pub failure : Option Notice

abbrev pub silent : Option Error → Report
silent e = record { error = e; success = none; failure = none }

abbrev pub processed_id_of : String → String
processed_id_of video_id = video_id ⧺ "_processed"

-- `if err == nil && state != nil && state.CallbackURL != "" { go notifyWebhook(...) }`
unfoldable pub notice_found : String → Result JobState → Option Notice
notice_found video_id (err e) = none
notice_found video_id (ok state) = notice_of video_id state

module _ (cfg : Config) (video_encoder : String) where
  abbrev pub options_of : Options
  options_of = record {
    parallel_non_critical_steps = cfg.parallel_non_critical_steps;
    max_parallel_post_transcode_steps = cfg.max_parallel_post_transcode_steps;
    hls_single_command = cfg.hls_single_command;
    hls_single_command_fallback = cfg.hls_single_command_fallback;
    video_encoder = video_encoder;
    nvenc_preset = cfg.nvenc_preset;
    timeout_scale = cfg.processing_timeout_scale;
  }

-- A call that sees one half of the outside.
abbrev pub in_store : {S W A : Type 0} → Eff S A → Eff (S × W) A
in_store call w = let r = call w.0 in (r.0, (r.1, w.1))

abbrev pub in_world : {S W A : Type 0} → Eff W A → Eff (S × W) A
in_world call w = let r = call w.1 in (r.0, (w.0, r.1))

module _ (b : Backend) (cfg : Config) (video_id : String) where
  open b use {Store}

  -- The final state and the notice; errors of the two calls are only logged.
  unfoldable pub conclude : ProcessingResult → Option Error → Eff Store Ending
  conclude result (some e) = pure (failed ("failed to publish success message: " ⧺ e) (some result))
  conclude result none = do
    _ ←
        set_job_done b video_id (build_job_artifacts video_id (processed_id_of video_id) result)
          (to_job_metadata result)
    found ← get_job_state b video_id
    pure (record { job_err = none; notice = notice_found video_id found; result = some result })

  unfoldable pub announce : ProcessingResult → Eff Store Ending
  announce result = do
    failure ← publish_success_message b cfg (processed_id_of video_id)
    conclude result failure

-- The store of the queue, the world of the pipeline and of the object store; `parallel` is a run of
-- the goroutines after the transcoding, and `fuel` is for the depth of the uploaded directories.
module _ (b : Backend) (h : Host) (k : Bucket h.World) (m : Media) (cfg : Config)
    (video_encoder temp_root : String)
    (parallel : String → ProcessingResult → Eff h.World ProcessingResult) (fuel : ℕ) where
  open b use {Store}
  open h use {World, Context, with_timeout, join_path}

  module _ (ctx : Context) (video_id : String) where
    abbrev pub input_path : String
    input_path = join_path temp_root (video_id ⧺ "_input.mp4")

    abbrev pub output_path : String
    output_path = join_path temp_root (video_id ⧺ "_output.mp4")

    -- `if path != ""`, an upload whose error is only logged.
    abbrev pub optional : String → Eff World (Option Error) → Eff World (Unit {0})
    optional path upload = if str_eq path "" then pure tt else (do _ ← upload; pure tt)

    unfoldable pub upload_artifacts : ProcessingResult → Eff World (Unit {0})
    upload_artifacts result = do
      _ ←
          optional result.thumbnails_dir
            (upload_directory k fuel result.thumbnails_dir ("thumbnails/" ⧺ video_id))
      _ ←
          optional result.audio_path
            (upload_file k result.audio_path ("audio/" ⧺ video_id ⧺ ".mp3"))
      _ ←
          optional result.preview_path
            (upload_file k result.preview_path ("preview/" ⧺ video_id ⧺ "_preview.mp4"))
      optional result.streaming_dir
          (upload_directory k fuel result.streaming_dir ("hls/" ⧺ video_id))

    unfoldable pub uploaded : ProcessingResult → Option Error → Eff (Store × World) Ending
    uploaded result (some e) = pure (failed ("failed to upload video: " ⧺ e) (some result))
    uploaded result none = do
      _ ← in_world (archive_raw_video k video_id)
      _ ← in_world (upload_artifacts result)
      in_store (announce b cfg video_id result)

    -- (The pipeline returns a result wherever it returns no error. At a nil result main.go would
    -- panic, so the second clause stands for no run of the program.)
    unfoldable pub processed : Option ProcessingResult × Option Error → Eff (Store × World) Ending
    processed (result, some e) = pure (failed ("failed to process video: " ⧺ e) result)
    processed (none, none) = pure (failed "invalid memory address or nil pointer dereference" none)
    processed (some result, none) = do
      failure ←
          in_world (upload_video k output_path video_type_processed (processed_id_of video_id))
      uploaded result failure

    unfoldable pub fetched : Option Error → Eff (Store × World) Ending
    unfolding processed uploaded
    fetched (some e) = pure (failed ("failed to download video: " ⧺ e) none)
    fetched none = do
      outcome ← in_world (
          process_video_by_mode h m parallel (with_timeout ctx (job_timeout m cfg)) input_path
            output_path (options_of cfg video_encoder))
      processed outcome

    -- The goroutine's body, up to where it returns.
    unfoldable pub attempt : Eff (Store × World) Ending
    unfolding fetched
    attempt = do
      failure ← in_world (download_video k cfg video_type_raw video_id input_path)
      fetched failure

    -- `os.RemoveAll(result.TempDir)` if there is a result, and then the two files.
    unfoldable pub tidy : Option ProcessingResult → Eff World (Unit {0})
    tidy none = do _ ← k.remove_file input_path; k.remove_file output_path
    tidy (some result) = do
      _ ← k.remove_all result.temp_dir
      _ ← k.remove_file input_path
      k.remove_file output_path

    -- The goroutine with its deferred calls.
    unfoldable pub work : Eff (Store × World) Report
    work = do
      ending ← attempt
      _ ← in_world (tidy ending.result)
      notice ← in_store (settle_job b cfg video_id ending.job_err)
      pure (record { error = ending.job_err; success = ending.notice; failure = notice })

  received : Context → Result String → Eff (Store × World) Report
  received ctx (err e) = pure (silent (some e))
  received ctx (ok video_id) = do _ ← in_store (set_job_processing b video_id); work ctx video_id

  unfoldable pub process_next_message : Context → Eff (Store × World) Report
  unfolding received
  process_next_message ctx = do message ← in_store (consume_message b cfg); received ctx message
