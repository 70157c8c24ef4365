-- ===== src/Pipeline/Quiet.antt =====
-- What the steps of the pipeline (internal/processor) leave alone: whatever the commands, the
-- directories and the files of one step leave as it was, the whole pipeline does.
pub mod Segment
pub mod Process
use video_processor_go.Base.{
  ℕ, zero, suc, ◌+◌, String, Option, none, some, List, [], ◌∷◌, ◌≡◌, refl, ◌∙◌, inl, inr, arith,
  Error, Result, ok, err, Eff, Option-cases, Result-cases, Bool-cases,
}
use video_processor_go.Config.{Float64}
use video_processor_go.Queue.State.{VideoMetadata}
use video_processor_go.Pipeline.Host.{Host}
use video_processor_go.Pipeline.Media.{Media}
use video_processor_go.Pipeline.Steps.Encoder.{is_nvenc}
use video_processor_go.Pipeline.Steps.Transcode.{
  transcode_video, transcode_video_cpu, transcode_video_nvenc, extract_audio, validate_video,
  ffmpeg,
}
use video_processor_go.Pipeline.Steps.Analysis.{analyze_content}
use video_processor_go.Pipeline.Steps.Shots.{
  generate_thumbnails, generate_preview, probe_duration, thumbnails_from, thumbnails_of,
  thumbnails_in, thumbnail_args,
}

-- Commands, directories, files and spans do not change what `seen` reads.
pub record IsQuiet (h : Host) {C : Type 0} (seen : h.World → C) : Type 0 where
  pub combined_output :
      (ctx : h.Context) (name : String) (args : List String) (w : h.World)
      → seen (h.combined_output ctx name args w).1 ≡ seen w
  pub output :
      (ctx : h.Context) (name : String) (args : List String) (w : h.World)
      → seen (h.output ctx name args w).1 ≡ seen w
  pub run :
      (ctx : h.Context) (name : String) (args : List String) (w : h.World)
      → seen (h.run ctx name args w).1 ≡ seen w
  pub mkdir_all : (path : String) (w : h.World) → seen (h.mkdir_all path w).1 ≡ seen w
  pub write_file : (path text : String) (w : h.World) → seen (h.write_file path text w).1 ≡ seen w
  pub step_begins : (name : String) (w : h.World) → seen (h.step_begins name w).1 ≡ seen w
  pub step_ends :
      (name : String) (failure : Option Error) (w : h.World)
      → seen (h.step_ends name failure w).1 ≡ seen w

module _ (h : Host) {C : Type 0} (seen : h.World → C) (quiet : IsQuiet h seen) where
  -- A call leaves it.
  abbrev pub Leaves : {A : Type 0} → Eff h.World A → Type 0
  Leaves call = (w : h.World) → seen (call w).1 ≡ seen w

  pub extract_audio-Leaves : (ctx : h.Context) (i o : String) → Leaves (extract_audio h ctx i o)
  unfolding extract_audio
  extract_audio-Leaves ctx i o w = quiet.combined_output _ _ _ w

  pub validate_video-Leaves : (ctx : h.Context) (i : String) → Leaves (validate_video h ctx i)
  unfolding validate_video
  validate_video-Leaves ctx i w = quiet.combined_output _ _ _ w

  nvenc-Leaves :
      (ctx : h.Context) (i o preset : String) → Leaves (transcode_video_nvenc h ctx i o preset)
  unfolding transcode_video_nvenc
  nvenc-Leaves ctx i o preset w = grind (arith, quiet.combined_output)

  cpu-Leaves : (ctx : h.Context) (i o : String) → Leaves (transcode_video_cpu h ctx i o)
  unfolding transcode_video_cpu
  cpu-Leaves ctx i o w = quiet.combined_output _ _ _ w

  pub transcode_video-Leaves :
      (ctx : h.Context) (i o encoder preset : String)
      → Leaves (transcode_video h ctx i o encoder preset)
  unfolding transcode_video
  transcode_video-Leaves ctx i o encoder preset w = grind (arith, nvenc-Leaves, cpu-Leaves)

  module _ (m : Media) where
    pub analyze_content-Leaves : (ctx : h.Context) (i : String) → Leaves (analyze_content m h ctx i)
    unfolding analyze_content
    analyze_content-Leaves ctx i w = quiet.output _ _ _ w

    pub generate_preview-Leaves :
        (ctx : h.Context) (i o : String) → Leaves (generate_preview h m ctx i o)
    unfolding generate_preview
    generate_preview-Leaves ctx i o w = grind (arith, quiet.output, quiet.combined_output)

    probe_duration-Leaves : (ctx : h.Context) (i : String) → Leaves (probe_duration h m ctx i)
    unfolding probe_duration
    probe_duration-Leaves ctx i w = quiet.output _ _ _ w

    thumbnails_from-Leaves :
        (ctx : h.Context) (i o : String) (interval : Float64) (rounds first : ℕ)
        → Leaves (thumbnails_from h m ctx i o interval rounds first)
    unfolding thumbnails_from
    thumbnails_from-Leaves ctx i o interval zero first w = refl
    thumbnails_from-Leaves ctx i o interval (suc rounds) first w =
        let r = h.run ctx "ffmpeg" (thumbnail_args h m i o interval first) w in
        let rest = thumbnails_from-Leaves ctx i o interval rounds (first + 1) r.1 in
        ground (arith, rest, quiet.run ctx "ffmpeg" (thumbnail_args h m i o interval first) w)

    thumbnails_in-Leaves :
        (ctx : h.Context) (i o : String) (made : Option Error)
        → Leaves (thumbnails_in h m ctx i o made)
    unfolding thumbnails_in thumbnails_of
    thumbnails_in-Leaves ctx i o (some e) w = refl
    thumbnails_in-Leaves ctx i o none w =
        grind (arith, probe_duration-Leaves, thumbnails_from-Leaves)

    pub generate_thumbnails-Leaves :
        (ctx : h.Context) (i o : String) → Leaves (generate_thumbnails h m ctx i o)
    unfolding generate_thumbnails
    generate_thumbnails-Leaves ctx i o w = thumbnails_in-Leaves ctx i o _ _ ∙ quiet.mkdir_all o w
