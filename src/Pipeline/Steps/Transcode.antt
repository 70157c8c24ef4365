-- ===== src/Pipeline/Steps/Transcode.antt =====
-- transcode.go, audio.go and validate.go: steps that are one command, or a chain of fallbacks.
use video_processor_go.Base.{
  String, Option, none, some, List, [], ◌∷◌, ◌||◌, Error, Eff, pure, ◌>>=◌, ◌⧺◌, str_eq,
  if◌then◌else◌, trim_space,
}
use video_processor_go.Pipeline.Host.{Host}
use video_processor_go.Pipeline.Steps.Encoder.{is_nvenc, normalize_nvenc_preset}

unfoldable pub transcode_cpu_args : String → String → List String
transcode_cpu_args input_path output_path =
    "-i" ∷ input_path ∷ "-c:v" ∷ "libx264" ∷ "-preset" ∷ "fast" ∷ "-crf" ∷ "23" ∷ "-c:a" ∷ "aac"
    ∷ "-b:a" ∷ "128k" ∷ "-movflags" ∷ "+faststart" ∷ "-y" ∷ output_path ∷ []

-- The arguments of the second NVENC command. The first has `-hwaccel cuda` before them.
unfoldable pub transcode_nvenc_args : String → String → String → List String
transcode_nvenc_args input_path output_path preset =
    "-i" ∷ input_path ∷ "-c:v" ∷ "h264_nvenc" ∷ "-preset" ∷ preset ∷ "-tune" ∷ "hq" ∷ "-rc" ∷ "vbr"
    ∷ "-cq" ∷ "23" ∷ "-c:a" ∷ "aac" ∷ "-b:a" ∷ "128k" ∷ "-movflags" ∷ "+faststart" ∷ "-y"
    ∷ output_path ∷ []

module _ (h : Host) where
  open h use {World, Context, combined_output}

  -- The error of a command, with its output, in the words of the step.
  abbrev pub explained : String → String × Option Error → Option Error
  explained prefix (out, none) = none
  explained prefix (out, some e) = some (prefix ⧺ e ⧺ ", output: " ⧺ out)

  abbrev pub ffmpeg : Context → String → List String → Eff World (Option Error)
  ffmpeg ctx prefix args = do r ← combined_output ctx "ffmpeg" args; pure (explained prefix r)

  unfoldable pub transcode_video_cpu : Context → String → String → Eff World (Option Error)
  transcode_video_cpu ctx input_path output_path =
      ffmpeg ctx "transcoding failed: " (transcode_cpu_args input_path output_path)

  unfoldable pub transcode_video_nvenc :
      Context → String → String → String → Eff World (Option Error)
  transcode_video_nvenc ctx input_path output_path preset w =
      let args = transcode_nvenc_args input_path output_path preset in
      let r = combined_output ctx "ffmpeg" ("-hwaccel" ∷ "cuda" ∷ args) w in
      elim r.0.1 [ none ↦ (none, r.1) | some e ↦ ffmpeg ctx "nvenc (no hwaccel): " args r.1 ]

  unfoldable pub transcode_video :
      Context → String → String → String → String → Eff World (Option Error)
  transcode_video ctx input_path output_path encoder nvenc_preset w =
      let cpu = transcode_video_cpu ctx input_path output_path in
      let r =
        transcode_video_nvenc ctx input_path output_path (normalize_nvenc_preset nvenc_preset) w in
      let nvenc : Option Error × World = elim r.0 [ none ↦ (none, r.1) | some e ↦ cpu r.1 ] in
      if is_nvenc encoder then nvenc else cpu w

  -- audio.go
  unfoldable pub extract_audio : Context → String → String → Eff World (Option Error)
  extract_audio ctx input_path output_path = ffmpeg ctx "audio extraction failed: " (
      "-i" ∷ input_path ∷ "-vn" ∷ "-acodec" ∷ "libmp3lame" ∷ "-ab" ∷ "192k" ∷ "-y" ∷ output_path
      ∷ [])

  check_duration : String × Option Error → Option Error
  check_duration (out, some e) = some ("invalid or corrupted video: " ⧺ e ⧺ ", output: " ⧺ out)
  check_duration (out, none) =
      let duration = trim_space out in
      if str_eq duration "" || str_eq duration "N/A"
      then some "video has no valid duration"
      else none

  -- validate.go
  unfoldable pub validate_video : Context → String → Eff World (Option Error)
  unfolding check_duration
  validate_video ctx input_path = do
    r ← combined_output ctx "ffprobe" (
        "-v" ∷ "error" ∷ "-show_entries" ∷ "format=duration" ∷ "-of"
        ∷ "default=noprint_wrappers=1:nokey=1" ∷ input_path ∷ [])
    pure (check_duration r)
