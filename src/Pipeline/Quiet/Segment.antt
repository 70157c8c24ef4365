-- ===== src/Pipeline/Quiet/Segment.antt =====
-- What the adaptive streaming (streaming.go) leaves alone.
use video_processor_go.Base.{String, List, [], ◌∷◌, refl, arith}
use video_processor_go.Pipeline.Host.{Host}
use video_processor_go.Pipeline.Steps.Variants.{HlsVariant}
use video_processor_go.Pipeline.Steps.Streaming.{HlsOptions}
use video_processor_go.Pipeline.Steps.Segment.{
  transcode_hls_variant, transcode_variant_cpu, transcode_variant_nvenc, transcode_variants,
  write_master_playlist, segment_sequential, make_variant_dirs, run_single, probe_source_height,
  probe_source_has_audio, segment_single_command, segment_selected, segment_for_streaming_body,
  segment_by_encoder, segment_for_streaming,
}
use video_processor_go.Pipeline.Quiet.{IsQuiet, Leaves}

module _ (h : Host) {C : Type 0} (seen : h.World → C) (quiet : IsQuiet h seen) (ctx : h.Context)
    (input_path : String) where
  variant-Leaves :
      (dir : String) (v : HlsVariant) (encoder preset : String)
      → Leaves h seen quiet (transcode_hls_variant h ctx input_path dir v encoder preset)
  unfolding transcode_hls_variant transcode_variant_cpu transcode_variant_nvenc
  variant-Leaves dir v encoder preset w = grind (arith, quiet.combined_output)

  variants-Leaves :
      (dir : String) (vs : List HlsVariant) (encoder preset : String)
      → Leaves h seen quiet (transcode_variants h ctx input_path dir vs encoder preset)
  unfolding transcode_variants
  variants-Leaves dir [] encoder preset w = refl
  variants-Leaves dir (v ∷ vs) encoder preset w =
      let var_dir = h.join_path dir v.name in
      let made = h.mkdir_all var_dir w in
      let r = transcode_hls_variant h ctx input_path var_dir v encoder preset made.1 in
      ground (
        arith,
        quiet.mkdir_all var_dir w,
        variant-Leaves var_dir v encoder preset made.1,
        variants-Leaves dir vs encoder preset r.1,
      )

  sequential-Leaves :
      (dir : String) (vs : List HlsVariant) (encoder preset : String)
      → Leaves h seen quiet (segment_sequential h ctx input_path dir vs encoder preset)
  unfolding segment_sequential write_master_playlist
  sequential-Leaves dir vs encoder preset w = grind (arith, variants-Leaves, quiet.write_file)

  dirs-Leaves :
      (dir : String) (vs : List HlsVariant)
      → Leaves h seen quiet (make_variant_dirs h ctx input_path dir vs)
  unfolding make_variant_dirs
  dirs-Leaves dir [] w = refl
  dirs-Leaves dir (v ∷ vs) w =
      let made = h.mkdir_all (h.join_path dir v.name) w in
      ground (arith, quiet.mkdir_all (h.join_path dir v.name) w, dirs-Leaves dir vs made.1)

  single-Leaves :
      (dir : String) (vs : List HlsVariant) (encoder preset : String)
      → Leaves h seen quiet (segment_single_command h ctx input_path dir vs encoder preset)
  unfolding segment_single_command run_single probe_source_has_audio
  single-Leaves dir vs encoder preset w =
      grind (arith, dirs-Leaves, quiet.output, quiet.combined_output)

  selected-Leaves :
      (dir : String) (opts : HlsOptions) (vs : List HlsVariant) (encoder preset : String)
      → Leaves h seen quiet (segment_selected h ctx input_path dir opts vs encoder preset)
  unfolding segment_selected
  selected-Leaves dir opts vs encoder preset w = grind (arith, single-Leaves, sequential-Leaves)

  body-Leaves :
      (dir : String) (opts : HlsOptions) (encoder preset : String)
      → Leaves h seen quiet (segment_for_streaming_body h ctx input_path dir opts encoder preset)
  unfolding segment_for_streaming_body probe_source_height
  body-Leaves dir opts encoder preset w =
      grind (arith, quiet.mkdir_all, quiet.output, selected-Leaves)

  pub segment_for_streaming-Leaves :
      (dir : String) (opts : HlsOptions)
      → Leaves h seen quiet (segment_for_streaming h ctx input_path dir opts)
  unfolding segment_for_streaming segment_by_encoder
  segment_for_streaming-Leaves dir opts w = grind (arith, body-Leaves)
