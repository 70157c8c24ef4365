-- ===== src/Pipeline/Steps/Analysis.antt =====
-- analysis.go: the metadata from ffprobe's report.
use video_processor_go.Base.{
  String, Option, none, some, List, [], ◌∷◌, pos, ◌⧺◌, Error, Result, ok, err, Eff, pure, ◌>>=◌,
  str_eq, if◌then◌else◌, split_slashes,
}
use video_processor_go.Config.{Float64}
use video_processor_go.Queue.State.{VideoMetadata}
use video_processor_go.Pipeline.Host.{Host}
use video_processor_go.Pipeline.Media.{Media, ProbeStream, ProbeData}

-- `&VideoMetadata{}`: the float 0 has the pattern 0.
abbrev pub blank_metadata : VideoMetadata
blank_metadata = record {
  duration = 0;
  width = pos 0;
  height = pos 0;
  video_codec = "";
  audio_codec = "";
  fps = 0;
  bitrate = pos 0;
  size = pos 0;
}

module _ (m : Media) where
  -- `if parts := strings.Split(rate, "/"); len(parts) == 2`, with the rate before.
  rate_of : Float64 → List String → Float64
  rate_of before (over ∷ under ∷ []) =
      let denominator = (m.parse_float under).0 in
      if m.equal denominator (m.of_nat 0)
      then before
      else m.divide (m.parse_float over).0 denominator
  rate_of before [] = before
  rate_of before (part ∷ []) = before
  rate_of before (part ∷ second ∷ third ∷ parts) = before

  unfoldable pub read_stream : ProbeStream → VideoMetadata → VideoMetadata
  unfolding rate_of
  read_stream stream metadata =
      if str_eq stream.codec_type "video"
      then record metadata {
        width = stream.width;
        height = stream.height;
        video_codec = stream.codec_name;
        fps = rate_of metadata.fps (split_slashes stream.r_frame_rate);
      }
      else if str_eq stream.codec_type "audio"
      then record metadata { audio_codec = stream.codec_name }
      else metadata

  unfoldable pub read_streams : List ProbeStream → VideoMetadata → VideoMetadata
  read_streams [] metadata = metadata
  read_streams (stream ∷ streams) metadata = read_streams streams (read_stream stream metadata)

  unfoldable pub metadata_of : ProbeData → VideoMetadata
  metadata_of report = record (read_streams report.streams blank_metadata) {
    duration = (m.parse_float report.duration).0;
    size = m.parse_int report.size;
    bitrate = m.parse_int report.bit_rate;
  }

  module _ (h : Host) where
    open h use {World, Context, output}

    parsed_report : Result ProbeData → Result VideoMetadata
    parsed_report (err e) = err ("failed to parse JSON: " ⧺ e)
    parsed_report (ok report) = ok (metadata_of report)

    report_of : String × Option Error → Result VideoMetadata
    unfolding parsed_report
    report_of (out, some e) = err ("analysis failed: " ⧺ e)
    report_of (out, none) = parsed_report (m.parse_probe out)

    unfoldable pub analyze_content : Context → String → Eff World (Result VideoMetadata)
    unfolding report_of
    analyze_content ctx input_path = do
      r ← output ctx "ffprobe" (
          "-v" ∷ "quiet" ∷ "-print_format" ∷ "json" ∷ "-show_format" ∷ "-show_streams" ∷ input_path
          ∷ [])
      pure (report_of r)
