-- ===== src/Pipeline/Quiet/Process.antt =====
-- What ProcessVideo (internal/processor/processor.go) leaves alone.
use video_processor_go.Base.{
  ℤ, String, ◌∙◌, arith, Error, Option, Result, Eff, error?, Bool, true, false, if◌then◌else◌,
}
use video_processor_go.Pipeline.Host.{Host}
use video_processor_go.Pipeline.Media.{Media}
use video_processor_go.Pipeline.Result.{ProcessingResult}
use video_processor_go.Pipeline.Process.{
  Options, run_step, run_step_value, thumbnails_step, audio_step, preview_step, streaming_step,
  run_non_critical_steps_sequential, validate_step, analyze_step, transcode_step, process_video,
  process_video_by_mode,
}
use video_processor_go.Pipeline.Quiet.{
  IsQuiet, Leaves, extract_audio-Leaves, validate_video-Leaves, transcode_video-Leaves,
  analyze_content-Leaves, generate_preview-Leaves, generate_thumbnails-Leaves,
}
use video_processor_go.Pipeline.Quiet.Segment.{segment_for_streaming-Leaves}

module _ (h : Host) (m : Media) {C : Type 0} (seen : h.World → C) (quiet : IsQuiet h seen) where
  run_step-Leaves :
      (ctx : h.Context) (name : String) (timeout : ℤ) (fn : h.Context → Eff h.World (Option Error))
      → ((c : h.Context) → Leaves h seen quiet (fn c))
      → Leaves h seen quiet (run_step h m ctx name timeout fn)
  unfolding run_step
  run_step-Leaves ctx name timeout fn leaves w =
      let b = h.step_begins name w in
      let r = fn (h.with_timeout ctx timeout) b.1 in
      quiet.step_ends name r.0 r.1 ∙ leaves _ b.1 ∙ quiet.step_begins name w

  run_step_value-Leaves :
      {A : Type 0} (ctx : h.Context) (name : String) (timeout : ℤ)
      (fn : h.Context → Eff h.World (Result A))
      → ((c : h.Context) → Leaves h seen quiet (fn c))
      → Leaves h seen quiet (run_step_value h m ctx name timeout fn)
  unfolding run_step_value
  run_step_value-Leaves ctx name timeout fn leaves w =
      let b = h.step_begins name w in
      let r = fn (h.with_timeout ctx timeout) b.1 in
      quiet.step_ends name (error? r.0) r.1 ∙ leaves _ b.1 ∙ quiet.step_begins name w

  -- One of two ways to do the rest, by a setting.
  either-Leaves :
      (setting : Bool) (f g : ProcessingResult → Eff h.World ProcessingResult)
      (r : ProcessingResult)
      → ((r : ProcessingResult) → Leaves h seen quiet (f r))
      → ((r : ProcessingResult) → Leaves h seen quiet (g r))
      → Leaves h seen quiet ((if setting then f else g) r)
  either-Leaves true f g r lf lg = lf r
  either-Leaves false f g r lf lg = lg r

  module _ (ctx : h.Context) (i o dir : String) (opts : Options) where
    thumbnails-Leaves : Leaves h seen quiet (thumbnails_step h m ctx i o dir opts)
    unfolding thumbnails_step
    thumbnails-Leaves w =
        run_step-Leaves ctx _ _ _ (λ c. generate_thumbnails-Leaves h seen quiet m c _ _) w

    audio-Leaves : Leaves h seen quiet (audio_step h m ctx i o dir opts)
    unfolding audio_step
    audio-Leaves w = run_step-Leaves ctx _ _ _ (λ c. extract_audio-Leaves h seen quiet c _ _) w

    preview-Leaves : Leaves h seen quiet (preview_step h m ctx i o dir opts)
    unfolding preview_step
    preview-Leaves w =
        run_step-Leaves ctx _ _ _ (λ c. generate_preview-Leaves h seen quiet m c _ _) w

    streaming-Leaves : Leaves h seen quiet (streaming_step h m ctx i o dir opts)
    unfolding streaming_step
    streaming-Leaves w =
        run_step-Leaves ctx _ _ _ (λ c. segment_for_streaming-Leaves h seen quiet c _ _ _) w

    sequential-Leaves :
        (r : ProcessingResult)
        → Leaves h seen quiet (run_non_critical_steps_sequential h m ctx i o dir opts r)
    unfolding run_non_critical_steps_sequential
    sequential-Leaves r w =
        grind (arith, thumbnails-Leaves, audio-Leaves, preview-Leaves, streaming-Leaves)

  module _ (ctx : h.Context) (i o : String) (opts : Options)
      (run_rest : String → ProcessingResult → Eff h.World ProcessingResult) where
    validate-Leaves : Leaves h seen quiet (validate_step h m ctx i o opts run_rest)
    unfolding validate_step
    validate-Leaves w = run_step-Leaves ctx _ _ _ (λ c. validate_video-Leaves h seen quiet c _) w

    analyze-Leaves : Leaves h seen quiet (analyze_step h m ctx i o opts run_rest)
    unfolding analyze_step
    analyze-Leaves w =
        run_step_value-Leaves ctx _ _ _ (λ c. analyze_content-Leaves h seen quiet m c _) w

    transcode-Leaves : Leaves h seen quiet (transcode_step h m ctx i o opts run_rest)
    unfolding transcode_step
    transcode-Leaves w =
        run_step-Leaves ctx _ _ _ (λ c. transcode_video-Leaves h seen quiet c _ _ _ _) w

    process-Leaves :
        ((dir : String) (r : ProcessingResult) → Leaves h seen quiet (run_rest dir r))
        → Leaves h seen quiet (process_video h m ctx i o opts run_rest)
    unfolding process_video
    process-Leaves rest w =
        grind (arith, quiet.mkdir_all, validate-Leaves, analyze-Leaves, transcode-Leaves, rest)

  pub process_video-Leaves :
      (parallel : String → ProcessingResult → Eff h.World ProcessingResult) (ctx : h.Context)
      (i o : String) (opts : Options)
      → ((dir : String) (r : ProcessingResult) → Leaves h seen quiet (parallel dir r))
      → Leaves h seen quiet (process_video_by_mode h m parallel ctx i o opts)
  unfolding process_video_by_mode
  process_video-Leaves parallel ctx i o opts leaves = process-Leaves ctx i o opts _ (λ dir r.
      either-Leaves opts.parallel_non_critical_steps _ _ r (leaves dir)
        (sequential-Leaves ctx i o dir opts))
