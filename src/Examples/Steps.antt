-- ===== src/Examples/Steps.antt =====
-- The steps on a machine where the first commands fail.
use video_processor_go.Base.{
  str_eq, String, true, none, [], ◌∷◌, ◌≡◌, refl, pos, take, if◌then◌else◌, try_in_turn, trim_space,
  to_lower, format_int,
}
use video_processor_go.Pipeline.Steps.Encoder.{
  is_nvenc, is_preset, normalize_nvenc_preset, video_encoder_cpu, video_encoder_nvenc,
}
use video_processor_go.Pipeline.Steps.Transcode.{
  ffmpeg, transcode_cpu_args, transcode_nvenc_args, transcode_video, transcode_video_nvenc,
  transcode_video_cpu,
}
use video_processor_go.Pipeline.Steps.Variants.{hls_variants, selected_variants, master_playlist}
use video_processor_go.Pipeline.Steps.Streaming.{HlsOptions}
use video_processor_go.Pipeline.Steps.Segment.{segment_for_streaming_body, segment_for_streaming}
use video_processor_go.Pipeline.Steps.Fallbacks.{
  transcode_video-try_in_turn, segment_for_streaming-try_in_turn,
}
use video_processor_go.Pipeline.Steps.Choices.{selected_variants-take}
use video_processor_go.Examples.Machine.{machine, outcome}

-- Two commands fail, and libx264 succeeds.
transcode_falls_back : transcode_video machine 0 "in" "out" " NVENC" "p9" 2 ≡ (none, 0)
unfolding transcode_video transcode_video_nvenc transcode_video_cpu outcome to_lower trim_space
transcode_falls_back = refl

transcode_video-try_in_turn_example :
    let args = transcode_nvenc_args "in" "out" (normalize_nvenc_preset "p4") in
    let cuda = ffmpeg machine 0 "nvenc (cuda decode): " ("-hwaccel" ∷ "cuda" ∷ args) in
    let nvenc = ffmpeg machine 0 "nvenc (no hwaccel): " args in
    let cpu = ffmpeg machine 0 "transcoding failed: " (transcode_cpu_args "in" "out") in
    transcode_video machine 0 "in" "out" "nvenc" "p4" 2
    ≡ (if is_nvenc "nvenc" then try_in_turn cuda (nvenc ∷ cpu ∷ []) 2 else cpu 2)
transcode_video-try_in_turn_example =
    transcode_video-try_in_turn machine 0 "in" "out" "nvenc" "p4" 2

-- The encoder's name is blank.
abbrev unnamed : HlsOptions
unnamed = record {
  single_command = true;
  fallback = true;
  video_encoder = "  ";
  nvenc_preset = "p5";
}

segment_for_streaming-try_in_turn_example :
    let preset = normalize_nvenc_preset "p5" in
    let body = λ (encoder : String).
      segment_for_streaming_body machine 0 "in" "dir" unnamed encoder preset in
    let name = to_lower (trim_space "  ") in
    segment_for_streaming machine 0 "in" "dir" unnamed 1 ≡ (
      if str_eq name video_encoder_nvenc
      then try_in_turn (body video_encoder_nvenc) (body video_encoder_cpu ∷ []) 1
      else if str_eq name ""
      then body video_encoder_cpu 1
      else body name 1)
segment_for_streaming-try_in_turn_example =
    segment_for_streaming-try_in_turn machine 0 "in" "out" "dir" unnamed 1

selected_variants-take_example : selected_variants (pos 720) ≡ take 4 hls_variants
selected_variants-take_example = selected_variants-take (pos 720)

playlist :
    master_playlist (take 1 hls_variants)
    ≡ "#EXTM3U\n#EXT-X-VERSION:3\n\n#EXT-X-STREAM-INF:BANDWIDTH=464000\n240p/playlist.m3u8\n"
unfolding master_playlist format_int
playlist = refl

preset_read : normalize_nvenc_preset " P7 " ≡ "p7"
unfolding normalize_nvenc_preset is_preset to_lower trim_space
preset_read = refl
