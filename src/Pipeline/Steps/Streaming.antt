-- ===== src/Pipeline/Steps/Streaming.antt =====
-- streaming.go: adaptive streaming by one command or variant by variant, with its fallbacks.
use video_processor_go.Base.{
  ℕ, ◌+◌, String, Bool, List, [], ◌∷◌, ◌++◌, ◌⧺◌, str_eq, if◌then◌else◌, join, format_int,
  format_nat, length,
}
use video_processor_go.Pipeline.Steps.Encoder.{normalize_nvenc_preset, video_encoder_nvenc}
use video_processor_go.Pipeline.Steps.Variants.{HlsVariant}

pub record HlsOptions : Type 0 where
  pub single_command : Bool
  pub fallback : Bool
  pub video_encoder : String
  pub nvenc_preset : String

-- What both kinds of command end with.
hls_tail : String → String → List String
hls_tail segment_path playlist_path =
    "-f" ∷ "hls" ∷ "-hls_time" ∷ "6" ∷ "-hls_list_size" ∷ "0" ∷ "-hls_segment_filename"
    ∷ segment_path ∷ "-y" ∷ playlist_path ∷ []

scale_of : HlsVariant → String
scale_of v = "scale=-2:" ⧺ format_int v.height

unfoldable pub variant_cpu_args : String → String → String → HlsVariant → List String
unfolding hls_tail scale_of
variant_cpu_args input_path segment_path playlist_path v =
    "-i"
    ∷ input_path
    ∷ "-c:v"
    ∷ "libx264"
    ∷ "-preset"
    ∷ "fast"
    ∷ "-vf"
    ∷ scale_of v
    ∷ "-b:v"
    ∷ v.video_bitrate
    ∷ "-c:a"
    ∷ "aac"
    ∷ "-b:a"
    ∷ v.audio_bitrate
    ∷ hls_tail segment_path playlist_path

-- The arguments of the second NVENC command. The first has `-hwaccel cuda` before them.
unfoldable pub variant_nvenc_args : String → String → String → HlsVariant → String → List String
unfolding hls_tail scale_of
variant_nvenc_args input_path segment_path playlist_path v preset =
    "-i"
    ∷ input_path
    ∷ "-c:v"
    ∷ "h264_nvenc"
    ∷ "-preset"
    ∷ preset
    ∷ "-tune"
    ∷ "hq"
    ∷ "-rc"
    ∷ "vbr"
    ∷ "-cq"
    ∷ "23"
    ∷ "-vf"
    ∷ scale_of v
    ∷ "-b:v"
    ∷ v.video_bitrate
    ∷ "-c:a"
    ∷ "aac"
    ∷ "-b:a"
    ∷ v.audio_bitrate
    ∷ hls_tail segment_path playlist_path

-- appendHLSSingleCommandVideoArgs: what it appends for stream `i`.
single_video_args : ℕ → HlsVariant → String → String → List String
single_video_args i v encoder preset =
    if str_eq encoder video_encoder_nvenc
    then ("-c:v:" ⧺ format_nat i)
      ∷ "h264_nvenc"
      ∷ "-preset"
      ∷ normalize_nvenc_preset preset
      ∷ "-tune"
      ∷ "hq"
      ∷ "-rc"
      ∷ "vbr"
      ∷ "-cq"
      ∷ "23"
      ∷ ("-b:v:" ⧺ format_nat i)
      ∷ v.video_bitrate
      ∷ []
    else ("-c:v:" ⧺ format_nat i)
      ∷ "libx264"
      ∷ "-preset"
      ∷ "fast"
      ∷ "-crf"
      ∷ "23"
      ∷ ("-b:v:" ⧺ format_nat i)
      ∷ v.video_bitrate
      ∷ []

split_outputs : ℕ → List HlsVariant → List String
split_outputs i [] = []
split_outputs i (v ∷ rest) = ("[v" ⧺ format_nat i ⧺ "]") ∷ split_outputs (i + 1) rest

filter_parts : ℕ → List HlsVariant → List String
filter_parts i [] = []
filter_parts i (v ∷ rest) =
    ("[v" ⧺ format_nat i ⧺ "]scale=-2:" ⧺ format_int v.height ⧺ "[v" ⧺ format_nat i ⧺ "out]")
    ∷ filter_parts (i + 1) rest

unfoldable pub filter_complex : List HlsVariant → String
unfolding split_outputs filter_parts
filter_complex selected =
    "[0:v]split="
    ⧺ format_nat (length selected)
    ⧺ join (split_outputs 0 selected) ""
    ⧺ ";"
    ⧺ join (filter_parts 0 selected) ";"

stream_args : Bool → String → String → ℕ → List HlsVariant → List String
unfolding single_video_args
stream_args has_audio encoder preset i [] = []
stream_args has_audio encoder preset i (v ∷ rest) =
    ("-map" ∷ ("[v" ⧺ format_nat i ⧺ "out]") ∷ [])
    ++ ((if has_audio then "-map" ∷ "0:a:0?" ∷ [] else [])
        ++ (single_video_args i v encoder preset
            ++ ((if has_audio
                  then ("-c:a:" ⧺ format_nat i)
                    ∷ "aac"
                    ∷ ("-b:a:" ⧺ format_nat i)
                    ∷ v.audio_bitrate
                    ∷ []
                  else [])
                ++ stream_args has_audio encoder preset (i + 1) rest)))

unfoldable pub stream_map : Bool → ℕ → List HlsVariant → List String
stream_map has_audio i [] = []
stream_map has_audio i (v ∷ rest) =
    (if has_audio
      then "v:" ⧺ format_nat i ⧺ ",a:" ⧺ format_nat i ⧺ ",name:" ⧺ v.name
      else "v:" ⧺ format_nat i ⧺ ",name:" ⧺ v.name)
    ∷ stream_map has_audio (i + 1) rest

unfoldable pub single_command_args :
    String → String → String → List HlsVariant → Bool → String → String → List String
unfolding stream_args filter_complex stream_map
single_command_args input_path segment_path playlist_path selected has_audio encoder preset =
    ("-i" ∷ input_path ∷ "-filter_complex" ∷ filter_complex selected ∷ [])
    ++ (stream_args has_audio encoder preset 0 selected
        ++ ("-f"
            ∷ "hls"
            ∷ "-hls_time"
            ∷ "6"
            ∷ "-hls_list_size"
            ∷ "0"
            ∷ "-hls_flags"
            ∷ "independent_segments"
            ∷ "-master_pl_name"
            ∷ "master.m3u8"
            ∷ "-var_stream_map"
            ∷ join (stream_map has_audio 0 selected) " "
            ∷ "-hls_segment_filename"
            ∷ segment_path
            ∷ "-y"
            ∷ playlist_path
            ∷ []))
