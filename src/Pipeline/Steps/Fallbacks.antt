-- ===== src/Pipeline/Steps/Fallbacks.antt =====
-- The chains of fallbacks of transcode.go and streaming.go.
use video_processor_go.Base.{
  refl, String, List, [], ◌∷◌, ◌≡◌, arith, str_eq, if◌then◌else◌, Bool-cases, inl, inr, true, false,
  try_in_turn, to_lower, trim_space, eq_iff, eq_refl,
}
use video_processor_go.Pipeline.Host.{Host}
use video_processor_go.Pipeline.Steps.Encoder.{
  is_nvenc, normalize_nvenc_preset, video_encoder_cpu, video_encoder_nvenc,
}
use video_processor_go.Pipeline.Steps.Transcode.{
  ffmpeg, transcode_cpu_args, transcode_nvenc_args, transcode_video, transcode_video_nvenc,
  transcode_video_cpu,
}
use video_processor_go.Pipeline.Steps.Variants.{HlsVariant}
use video_processor_go.Pipeline.Steps.Streaming.{HlsOptions}
use video_processor_go.Pipeline.Steps.Segment.{
  segment_single_command, segment_sequential, segment_selected, segment_for_streaming_body,
  segment_by_encoder, effective_encoder, segment_for_streaming,
}

effective_encoder_nvenc :
    (opts : HlsOptions)
    → is_nvenc opts.video_encoder ≡ true
    → effective_encoder opts ≡ video_encoder_nvenc
unfolding effective_encoder
effective_encoder_nvenc opts e =
    let encoder = to_lower (trim_space opts.video_encoder) in
    ground
      (arith, eq_iff encoder video_encoder_nvenc, eq_iff encoder "", eq_iff "" video_encoder_nvenc)

effective_encoder_other :
    (opts : HlsOptions)
    → is_nvenc opts.video_encoder ≡ false
    → str_eq (effective_encoder opts) video_encoder_nvenc ≡ false
unfolding effective_encoder
effective_encoder_other opts e =
    let encoder = to_lower (trim_space opts.video_encoder) in
    elim (Bool-cases (str_eq encoder "")) [
      | inl empty ↦ rw empty (ground (arith, eq_iff video_encoder_cpu video_encoder_nvenc))
      | inr named ↦ rw named e
    ]

effective_encoder_body :
    {A : Type 0} (opts : HlsOptions) (body : String → A)
    → let name = to_lower (trim_space opts.video_encoder) in
      body (effective_encoder opts) ≡ (if str_eq name "" then body video_encoder_cpu else body name)
unfolding effective_encoder
effective_encoder_body opts body =
    elim (Bool-cases (str_eq (to_lower (trim_space opts.video_encoder)) "")) [
      | inl empty ↦ rw empty refl
      | inr named ↦ rw named refl
    ]

module _ (h : Host) (ctx : h.Context) (input_path output_path : String) where
  -- With the NVENC encoder, in any case and with spaces around it, the video is transcoded by NVENC
  -- with CUDA decoding, then by NVENC without it, then by libx264: each is run only if the one
  -- before failed, the first success ends the step, and the error is that of libx264. With any
  -- other encoder libx264 alone is run.
  pub transcode_video-try_in_turn :
      (encoder nvenc_preset : String) (w : h.World)
      → let args =
          transcode_nvenc_args input_path output_path (normalize_nvenc_preset nvenc_preset) in
        let cuda = ffmpeg h ctx "nvenc (cuda decode): " ("-hwaccel" ∷ "cuda" ∷ args) in
        let nvenc = ffmpeg h ctx "nvenc (no hwaccel): " args in
        let cpu = ffmpeg h ctx "transcoding failed: " (transcode_cpu_args input_path output_path) in
        transcode_video h ctx input_path output_path encoder nvenc_preset w
        ≡ (if is_nvenc encoder then try_in_turn cuda (nvenc ∷ cpu ∷ []) w else cpu w)
  unfolding transcode_video transcode_video_nvenc transcode_video_cpu try_in_turn
  transcode_video-try_in_turn encoder nvenc_preset w = ground arith

  -- Segmenting runs the single command if that is asked for, and the sequential mode if it is not
  -- or if the single command failed and a fallback is allowed; the error is that of the last run.
  pub segment_selected-try_in_turn :
      (output_dir : String) (opts : HlsOptions) (selected : List HlsVariant)
      (encoder nvenc_preset : String) (w : h.World)
      → let single =
          segment_single_command h ctx input_path output_dir selected encoder nvenc_preset in
        let sequential =
          segment_sequential h ctx input_path output_dir selected encoder nvenc_preset in
        segment_selected h ctx input_path output_dir opts selected encoder nvenc_preset w ≡ (
          if opts.single_command
          then (if opts.fallback then try_in_turn single (sequential ∷ []) w else single w)
          else sequential w)
  unfolding segment_selected try_in_turn
  segment_selected-try_in_turn output_dir opts selected encoder nvenc_preset w = ground arith

  -- The name of the encoder counts in lower case and without the spaces around it. With the NVENC
  -- encoder the whole segmentation is run again by libx264 if it failed; with an empty name it is
  -- run once, by libx264; with any other it is run once, by that encoder.
  pub segment_for_streaming-try_in_turn :
      (output_dir : String) (opts : HlsOptions) (w : h.World)
      → let preset = normalize_nvenc_preset opts.nvenc_preset in
        let body = λ (encoder : String).
          segment_for_streaming_body h ctx input_path output_dir opts encoder preset in
        let name = to_lower (trim_space opts.video_encoder) in
        segment_for_streaming h ctx input_path output_dir opts w ≡ (
          if str_eq name video_encoder_nvenc
          then try_in_turn (body video_encoder_nvenc) (body video_encoder_cpu ∷ []) w
          else if str_eq name ""
          then body video_encoder_cpu w
          else body name w)
  unfolding segment_for_streaming try_in_turn
  segment_for_streaming-try_in_turn output_dir opts w =
      elim (Bool-cases (is_nvenc opts.video_encoder)) [
        | inl nvenc ↦ rw nvenc (
            rw (effective_encoder_nvenc opts nvenc)
              (unfold segment_by_encoder in rw (eq_refl video_encoder_nvenc) (ground arith)))
        | inr other ↦ rw other (
            unfold segment_by_encoder in
            rw (effective_encoder_other opts other) (
              effective_encoder_body opts (λ encoder.
                segment_for_streaming_body h ctx input_path output_dir opts encoder
                  (normalize_nvenc_preset opts.nvenc_preset) w)))
      ]
