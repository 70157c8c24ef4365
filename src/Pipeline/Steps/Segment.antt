-- ===== src/Pipeline/Steps/Segment.antt =====
-- streaming.go: running the commands of adaptive streaming.
use video_processor_go.Base.{
  String, Bool, true, false, not, Option, none, some, List, [], ◌∷◌, ℤ, pos, Error, Eff, pure,
  ◌>>=◌, ◌⧺◌, str_eq, if◌then◌else◌, trim_space, to_lower, atoi,
}
use video_processor_go.Pipeline.Host.{Host}
use video_processor_go.Pipeline.Steps.Encoder.{
  is_nvenc, normalize_nvenc_preset, video_encoder_cpu, video_encoder_nvenc,
}
use video_processor_go.Pipeline.Steps.Transcode.{ffmpeg}
use video_processor_go.Pipeline.Steps.Variants.{HlsVariant, selected_variants, master_playlist}
use video_processor_go.Pipeline.Steps.Streaming.{
  HlsOptions, variant_cpu_args, variant_nvenc_args, single_command_args,
}

-- `encoder := ToLower(TrimSpace(...)); if encoder == "" { encoder = VideoEncoderCPU }`
unfoldable pub effective_encoder : HlsOptions → String
effective_encoder opts =
    let encoder = to_lower (trim_space opts.video_encoder) in
    if str_eq encoder "" then video_encoder_cpu else encoder

module _ (h : Host) where
  open h use {World, Context, combined_output, output, mkdir_all, write_file, join_path}

  probed_height : String × Option Error → ℤ
  probed_height (out, some e) = pos 0
  probed_height (out, none) = atoi (trim_space out)

  unfoldable pub probe_source_height : Context → String → Eff World ℤ
  unfolding probed_height
  probe_source_height ctx input_path = do
    r ← output ctx "ffprobe" (
        "-v" ∷ "quiet" ∷ "-select_streams" ∷ "v:0" ∷ "-show_entries" ∷ "stream=height" ∷ "-of"
        ∷ "csv=p=0" ∷ input_path ∷ [])
    pure (probed_height r)

  probed_audio : String × Option Error → Bool
  probed_audio (out, some e) = false
  probed_audio (out, none) = not (str_eq (trim_space out) "")

  unfoldable pub probe_source_has_audio : Context → String → Eff World Bool
  unfolding probed_audio
  probe_source_has_audio ctx input_path = do
    r ← output ctx "ffprobe" (
        "-v" ∷ "error" ∷ "-select_streams" ∷ "a:0" ∷ "-show_entries" ∷ "stream=index" ∷ "-of"
        ∷ "csv=p=0" ∷ input_path ∷ [])
    pure (probed_audio r)

  unfoldable pub write_master_playlist : String → List HlsVariant → Eff World (Option Error)
  write_master_playlist output_dir variants =
      write_file (join_path output_dir "master.m3u8") (master_playlist variants)

  module _ (ctx : Context) (input_path : String) where
    unfoldable pub transcode_variant_cpu : String → HlsVariant → Eff World (Option Error)
    transcode_variant_cpu var_dir v = ffmpeg h ctx ("segmentation failed " ⧺ v.name ⧺ ": ") (
        variant_cpu_args input_path (join_path var_dir "seg_%03d.ts")
          (join_path var_dir "playlist.m3u8") v)

    unfoldable pub transcode_variant_nvenc : String → HlsVariant → String → Eff World (Option Error)
    transcode_variant_nvenc var_dir v nvenc_preset w =
        let args =
          variant_nvenc_args input_path (join_path var_dir "seg_%03d.ts")
            (join_path var_dir "playlist.m3u8") v (normalize_nvenc_preset nvenc_preset) in
        let r = combined_output ctx "ffmpeg" ("-hwaccel" ∷ "cuda" ∷ args) w in
        elim r.0.1 [
          | none ↦ (none, r.1)
          | some e ↦ ffmpeg h ctx ("segmentation failed " ⧺ v.name ⧺ ": ") args r.1
        ]

    unfoldable pub transcode_hls_variant :
        String → HlsVariant → String → String → Eff World (Option Error)
    unfolding transcode_variant_cpu transcode_variant_nvenc
    transcode_hls_variant var_dir v encoder nvenc_preset =
        if is_nvenc encoder
        then transcode_variant_nvenc var_dir v nvenc_preset
        else transcode_variant_cpu var_dir v

    -- The loop over the variants, which the first error ends.
    unfoldable pub transcode_variants :
        String → List HlsVariant → String → String → Eff World (Option Error)
    transcode_variants output_dir [] encoder nvenc_preset w = (none, w)
    transcode_variants output_dir (v ∷ rest) encoder nvenc_preset w =
        let var_dir = join_path output_dir v.name in
        let made = mkdir_all var_dir w in
        elim made.0 [
          | some e ↦ (some ("failed to create directory " ⧺ v.name ⧺ ": " ⧺ e), made.1)
          | none ↦
              let r = transcode_hls_variant var_dir v encoder nvenc_preset made.1 in
              elim r.0 [
                | some e ↦ (some e, r.1)
                | none ↦ transcode_variants output_dir rest encoder nvenc_preset r.1
              ]
        ]

    unfoldable pub segment_sequential :
        String → List HlsVariant → String → String → Eff World (Option Error)
    unfolding transcode_variants
    segment_sequential output_dir selected encoder nvenc_preset w =
        let r = transcode_variants output_dir selected encoder nvenc_preset w in
        elim r.0 [ some e ↦ (some e, r.1) | none ↦ write_master_playlist output_dir selected r.1 ]

    unfoldable pub make_variant_dirs : String → List HlsVariant → Eff World (Option Error)
    make_variant_dirs output_dir [] w = (none, w)
    make_variant_dirs output_dir (v ∷ rest) w =
        let made = mkdir_all (join_path output_dir v.name) w in
        elim made.0 [
          | some e ↦ (some ("failed to create directory " ⧺ v.name ⧺ ": " ⧺ e), made.1)
          | none ↦ make_variant_dirs output_dir rest made.1
        ]

    unfoldable pub run_single :
        String → List HlsVariant → String → String → Eff World (Option Error)
    run_single output_dir selected encoder nvenc_preset = do
      has_audio ← probe_source_has_audio ctx input_path
      ffmpeg h ctx "single-command segmentation failed: " (
          single_command_args input_path (join_path (join_path output_dir "%v") "seg_%03d.ts")
            (join_path (join_path output_dir "%v") "playlist.m3u8") selected has_audio encoder
            nvenc_preset)

    unfoldable pub segment_single_command :
        String → List HlsVariant → String → String → Eff World (Option Error)
    unfolding make_variant_dirs run_single
    segment_single_command output_dir selected encoder nvenc_preset w =
        let made = make_variant_dirs output_dir selected w in
        elim made.0 [
          | some e ↦ (some e, made.1)
          | none ↦ run_single output_dir selected encoder nvenc_preset made.1
        ]

    -- The single command, and the sequential mode if that may follow its failure.
    unfoldable pub segment_selected :
        String → HlsOptions → List HlsVariant → String → String → Eff World (Option Error)
    segment_selected output_dir opts selected encoder nvenc_preset w =
        let sequential = segment_sequential output_dir selected encoder nvenc_preset in
        let r = segment_single_command output_dir selected encoder nvenc_preset w in
        let single : Option Error × World = elim r.0 [
          | none ↦ (none, r.1)
          | some e ↦ if opts.fallback then sequential r.1 else (some e, r.1)
        ] in
        if opts.single_command then single else sequential w

    unfoldable pub segment_for_streaming_body :
        String → HlsOptions → String → String → Eff World (Option Error)
    segment_for_streaming_body output_dir opts encoder nvenc_preset w =
        let made = mkdir_all output_dir w in
        elim made.0 [
          | some e ↦ (some ("failed to create directory: " ⧺ e), made.1)
          | none ↦
              let probed = probe_source_height ctx input_path made.1 in
              segment_selected output_dir opts (selected_variants probed.0) encoder nvenc_preset
                probed.1
        ]

    -- `if err != nil && encoder == VideoEncoderNVENC`
    unfoldable pub segment_by_encoder :
        String → HlsOptions → String → String → Eff World (Option Error)
    segment_by_encoder output_dir opts preset encoder w =
        let r = segment_for_streaming_body output_dir opts encoder preset w in
        let again : Option Error × World = elim r.0 [
          | none ↦ (none, r.1)
          | some e ↦ segment_for_streaming_body output_dir opts video_encoder_cpu preset r.1
        ] in
        if str_eq encoder video_encoder_nvenc then again else r

    -- SegmentForStreamingWithOptions
    unfoldable pub segment_for_streaming : String → HlsOptions → Eff World (Option Error)
    segment_for_streaming output_dir opts =
        segment_by_encoder output_dir opts (normalize_nvenc_preset opts.nvenc_preset)
          (effective_encoder opts)

    -- SegmentForStreaming, with its defaults.
    unfoldable pub segment_for_streaming_default : String → Eff World (Option Error)
    segment_for_streaming_default output_dir = segment_for_streaming output_dir (record {
      single_command = true;
      fallback = true;
      video_encoder = video_encoder_cpu;
      nvenc_preset = "";
    })
