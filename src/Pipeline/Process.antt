-- ===== src/Pipeline/Process.antt =====
-- internal/processor/processor.go: the order of the steps, with those after the transcoding one after
-- the other.
use Prim.Native.String.{len, slice}
use video_processor_go.Base.{
  ℕ, ℤ, pos, true, ◌+◌, ◌-◌, ◌*◌, String, Bool, Option, none, some, Error, Result, ok, err, Eff,
  pure, ◌>>=◌, ◌⧺◌, error?, if◌then◌else◌, second, minute,
}
use video_processor_go.Config.{Float64}
use video_processor_go.Queue.State.{VideoMetadata}
use video_processor_go.Pipeline.Host.{Host}
use video_processor_go.Pipeline.Media.{Media}
use video_processor_go.Pipeline.Result.{ProcessingResult, blank_result}
use video_processor_go.Pipeline.Steps.Encoder.{video_encoder_cpu}
use video_processor_go.Pipeline.Steps.Transcode.{validate_video, transcode_video, extract_audio}
use video_processor_go.Pipeline.Steps.Analysis.{analyze_content}
use video_processor_go.Pipeline.Steps.Shots.{generate_thumbnails, generate_preview}
use video_processor_go.Pipeline.Steps.Segment.{segment_for_streaming}

pub record Options : Type 0 where
  pub parallel_non_critical_steps : Bool
  pub max_parallel_post_transcode_steps : ℤ
  pub hls_single_command : Bool
  pub hls_single_command_fallback : Bool
  pub video_encoder : String
  pub nvenc_preset : String
  pub timeout_scale : Float64

-- `name[:len(name)-len(ext)]`
unfoldable pub without_extension : String → String → String
without_extension name ext = slice name 0 (len name - len ext)

module _ (m : Media) where
  -- `if scale <= 0 { scale = 1 }`, and the product as an int64, which may be negative.
  unfoldable pub scale_timeout : ℕ → Float64 → ℤ
  scale_timeout d scale =
      let factor = if m.at_most scale (m.of_nat 0) then m.of_nat 1 else scale in
      m.nanoseconds (m.times (m.of_nat d) factor)

  abbrev pub steps_budget : ℕ
  steps_budget =
      30 * second + 30 * second + 3 * minute + 60 * second + 2 * minute + 2 * minute + 4 * minute

  abbrev pub default_options : Options
  default_options = record {
    parallel_non_critical_steps = true;
    max_parallel_post_transcode_steps = pos 4;
    hls_single_command = true;
    hls_single_command_fallback = true;
    video_encoder = video_encoder_cpu;
    nvenc_preset = "p5";
    timeout_scale = m.of_nat 1;
  }

  unfoldable pub job_budget : Float64 → ℤ
  job_budget scale = scale_timeout (steps_budget + 5 * minute) scale

module _ (h : Host) (m : Media) where
  open h use {
    World, Context, with_timeout, step_begins, step_ends, mkdir_all, join_path, dir_of, base_of,
    ext_of,
  }

  -- A step that gives a value: the span, the timeout, and the record of the outcome.
  unfoldable pub run_step_value :
      {A : Type 0} → Context → String → ℤ → (Context → Eff World (Result A)) → Eff World (Result A)
  run_step_value ctx name timeout fn = do
    _ ← step_begins name
    r ← fn (with_timeout ctx timeout)
    _ ← step_ends name (error? r)
    pure r

  unfoldable pub run_step :
      Context → String → ℤ → (Context → Eff World (Option Error)) → Eff World (Option Error)
  run_step ctx name timeout fn = do
    _ ← step_begins name
    e ← fn (with_timeout ctx timeout)
    _ ← step_ends name e
    pure e

  module _ (ctx : Context) (input_path transcoded_path temp_dir : String) (opts : Options) where
    abbrev pub step_timeout : ℕ → ℤ
    step_timeout d = scale_timeout m d opts.timeout_scale

    abbrev pub thumbnails_dir : String
    thumbnails_dir = join_path temp_dir "thumbnails"

    abbrev pub audio_path : String
    audio_path = join_path temp_dir "audio.mp3"

    abbrev pub preview_path : String
    preview_path = join_path temp_dir "preview.mp4"

    abbrev pub streaming_dir : String
    streaming_dir = join_path temp_dir "streaming"

    unfoldable pub thumbnails_step : Eff World (Option Error)
    thumbnails_step =
        run_step ctx "thumbnails" (step_timeout (60 * second))
          (λ c. generate_thumbnails h m c transcoded_path thumbnails_dir)

    unfoldable pub audio_step : Eff World (Option Error)
    audio_step =
        run_step ctx "audio" (step_timeout (2 * minute))
          (λ c. extract_audio h c transcoded_path audio_path)

    unfoldable pub preview_step : Eff World (Option Error)
    preview_step =
        run_step ctx "preview" (step_timeout (2 * minute))
          (λ c. generate_preview h m c transcoded_path preview_path)

    unfoldable pub streaming_step : Eff World (Option Error)
    streaming_step = run_step ctx "streaming" (step_timeout (4 * minute)) (λ c.
        segment_for_streaming h c input_path streaming_dir (record {
          single_command = opts.hls_single_command;
          fallback = opts.hls_single_command_fallback;
          video_encoder = opts.video_encoder;
          nvenc_preset = opts.nvenc_preset;
        }))

    -- `if err != nil { log } else { result.X = path }`, for each of the four steps in turn.
    unfoldable pub run_non_critical_steps_sequential : ProcessingResult → Eff World ProcessingResult
    run_non_critical_steps_sequential r0 w =
        let t = thumbnails_step w in
        let r1 : ProcessingResult = elim t.0 [
          | some e ↦ r0
          | none ↦ record r0 { thumbnails_dir = thumbnails_dir }
        ] in
        let a = audio_step t.1 in
        let r2 : ProcessingResult = elim a.0 [
          | some e ↦ r1
          | none ↦ record r1 { audio_path = audio_path }
        ] in
        let p = preview_step a.1 in
        let r3 : ProcessingResult = elim p.0 [
          | some e ↦ r2
          | none ↦ record r2 { preview_path = preview_path }
        ] in
        let s = streaming_step p.1 in
        elim s.0 [ some e ↦ (r3, s.1) | none ↦ (record r3 { streaming_dir = streaming_dir }, s.1) ]

  -- Where the transcoding ends, with what comes after it as an argument.
  module _ (ctx : Context) (input_path output_path : String) (opts : Options)
      (run_rest : String → ProcessingResult → Eff World ProcessingResult) where
    abbrev pub Outcome : Type 0
    Outcome = Option ProcessingResult × Option Error

    -- `result.Metadata = metadata` if the analysis succeeded; its error is dropped.
    abbrev pub with_analysis : Result VideoMetadata → ProcessingResult → ProcessingResult
    with_analysis (err e) result = result
    with_analysis (ok metadata) result = record result { metadata = some metadata }

    unfoldable pub temp_dir_of : String
    temp_dir_of =
        let name = base_of input_path in
        join_path (dir_of output_path) (without_extension name (ext_of name) ⧺ "_temp")

    unfoldable pub validate_step : Eff World (Option Error)
    validate_step =
        run_step ctx "validate" (scale_timeout m (30 * second) opts.timeout_scale)
          (λ c. validate_video h c input_path)

    unfoldable pub analyze_step : Eff World (Result VideoMetadata)
    analyze_step =
        run_step_value ctx "analyze" (scale_timeout m (30 * second) opts.timeout_scale)
          (λ c. analyze_content m h c input_path)

    unfoldable pub transcode_step : Eff World (Option Error)
    transcode_step =
        run_step ctx "transcode" (scale_timeout m (3 * minute) opts.timeout_scale)
          (λ c. transcode_video h c input_path output_path opts.video_encoder opts.nvenc_preset)

    unfoldable pub process_video : Eff World Outcome
    process_video w =
        let made = mkdir_all temp_dir_of w in
        let v = validate_step made.1 in
        let a = analyze_step v.1 in
        let result = blank_result temp_dir_of in
        let analyzed = with_analysis a.0 result in
        let t = transcode_step a.1 in
        let done = run_rest temp_dir_of analyzed t.1 in
        elim made.0 [
          | some e ↦ ((none, some ("failed to create temp directory: " ⧺ e)), made.1)
          | none ↦ elim v.0 [
            | some e ↦ ((some result, some ("validation failed: " ⧺ e)), v.1)
            | none ↦ elim t.0 [
              | some e ↦ ((some analyzed, some ("transcoding failed: " ⧺ e)), t.1)
              | none ↦ ((some done.0, none), done.1)
            ]
          ]
        ]

  -- ProcessVideo in the mode that the options ask for. `parallel` is what one run of the goroutines
  -- of the parallel mode does to the result and to the world. The transcoded path is the output path.
  unfoldable pub process_video_by_mode :
      (parallel : String → ProcessingResult → Eff World ProcessingResult)
      → Context
      → String
      → String
      → Options
      → Eff World (Option ProcessingResult × Option Error)
  process_video_by_mode parallel ctx input_path output_path opts =
      process_video ctx input_path output_path opts (λ temp_dir.
        if opts.parallel_non_critical_steps
        then parallel temp_dir
        else run_non_critical_steps_sequential ctx input_path output_path temp_dir opts)

  -- ProcessVideo with ParallelNonCriticalSteps off. The transcoded path is the output path.
  unfoldable pub process_video_sequential :
      Context → String → String → Options → Eff World (Option ProcessingResult × Option Error)
  process_video_sequential ctx input_path output_path opts =
      process_video ctx input_path output_path opts
        (λ temp_dir. run_non_critical_steps_sequential ctx input_path output_path temp_dir opts)
