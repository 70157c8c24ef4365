-- ===== src/Pipeline/Steps/Shots.antt =====
-- thumbnail.go and preview.go: the steps that compute with the duration that ffprobe prints.
use video_processor_go.Base.{
  ℕ, zero, suc, ◌+◌, String, Option, none, some, List, [], ◌∷◌, ◌⧺◌, Error, Result, ok, err, Eff,
  pure, ◌>>=◌, if◌then◌else◌, trim_space, format_nat, format_padded,
}
use video_processor_go.Config.{Float64}
use video_processor_go.Pipeline.Host.{Host}
use video_processor_go.Pipeline.Media.{Media}
use video_processor_go.Pipeline.Steps.Transcode.{ffmpeg}

module _ (h : Host) (m : Media) where
  open h use {World, Context, output, run, mkdir_all, join_path}

  -- The output of the command that prints a duration, read as a number.
  duration_of : String × Option Error → Result Float64
  duration_of (out, some e) = err ("failed to get duration: " ⧺ e)
  duration_of (out, none) =
      let r = m.parse_float (trim_space out) in
      elim r.1 [ none ↦ ok r.0 | some e ↦ err ("invalid duration: " ⧺ e) ]

  unfoldable pub probe_duration : Context → String → Eff World (Result Float64)
  unfolding duration_of
  probe_duration ctx input_path = do
    r ← output ctx "ffprobe" (
        "-v" ∷ "error" ∷ "-show_entries" ∷ "format=duration" ∷ "-of"
        ∷ "default=noprint_wrappers=1:nokey=1" ∷ input_path ∷ [])
    pure (duration_of r)

  -- `if previewDuration > 30 { previewDuration = 30 }`
  unfoldable pub preview_duration : Float64 → Float64
  preview_duration duration = if m.greater duration (m.of_nat 30) then m.of_nat 30 else duration

  preview_of : Context → String → String → Result Float64 → Eff World (Option Error)
  preview_of ctx input_path output_path (err e) = pure (some e)
  preview_of ctx input_path output_path (ok duration) = ffmpeg h ctx "preview generation failed: " (
      "-i"
      ∷ input_path
      ∷ "-t"
      ∷ m.format_float (preview_duration duration) 0
      ∷ "-vf"
      ∷ "scale=640:-2"
      ∷ "-b:v"
      ∷ "500k"
      ∷ "-c:a"
      ∷ "aac"
      ∷ "-b:a"
      ∷ "64k"
      ∷ "-preset"
      ∷ "veryfast"
      ∷ "-y"
      ∷ output_path
      ∷ [])

  unfoldable pub generate_preview : Context → String → String → Eff World (Option Error)
  unfolding probe_duration preview_of
  generate_preview ctx input_path output_path = do
    duration ← probe_duration ctx input_path
    preview_of ctx input_path output_path duration

  -- ThumbnailConfig{Count: 5, Width: 320, Height: 180}
  unfoldable pub thumbnail_args : String → String → Float64 → ℕ → List String
  thumbnail_args input_path output_dir interval i =
      "-ss"
      ∷ m.format_float (m.times interval (m.of_nat i)) 2
      ∷ "-i"
      ∷ input_path
      ∷ "-vframes"
      ∷ "1"
      ∷ "-vf"
      ∷ "scale=320:180"
      ∷ "-y"
      ∷ join_path output_dir ("thumb_" ⧺ format_padded i ⧺ ".jpg")
      ∷ []

  -- `for i := first; ...` over `rounds` numbers, which the first error ends.
  unfoldable pub thumbnails_from :
      Context → String → String → Float64 → ℕ → ℕ → Eff World (Option Error)
  unfolding thumbnail_args
  thumbnails_from ctx input_path output_dir interval zero i w = (none, w)
  thumbnails_from ctx input_path output_dir interval (suc rounds) i w =
      let r = run ctx "ffmpeg" (thumbnail_args input_path output_dir interval i) w in
      let rest = thumbnails_from ctx input_path output_dir interval rounds (i + 1) r.1 in
      elim r.0 [
        | none ↦ rest
        | some e ↦ (some ("failed to generate thumbnail " ⧺ format_nat i ⧺ ": " ⧺ e), r.1)
      ]

  unfoldable pub thumbnails_of :
      Context → String → String → Result Float64 → Eff World (Option Error)
  unfolding thumbnails_from
  thumbnails_of ctx input_path output_dir (err e) = pure (some e)
  thumbnails_of ctx input_path output_dir (ok duration) =
      thumbnails_from ctx input_path output_dir (m.divide duration (m.of_nat 6)) 5 1

  unfoldable pub thumbnails_in : Context → String → String → Option Error → Eff World (Option Error)
  unfolding probe_duration thumbnails_of
  thumbnails_in ctx input_path output_dir (some e) =
      pure (some ("failed to create thumbnails directory: " ⧺ e))
  thumbnails_in ctx input_path output_dir none = do
    duration ← probe_duration ctx input_path
    thumbnails_of ctx input_path output_dir duration

  unfoldable pub generate_thumbnails : Context → String → String → Eff World (Option Error)
  unfolding thumbnails_in
  generate_thumbnails ctx input_path output_dir = do
    made ← mkdir_all output_dir
    thumbnails_in ctx input_path output_dir made
