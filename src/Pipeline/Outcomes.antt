-- ===== src/Pipeline/Outcomes.antt =====
-- What the pipeline hands back, from the outcomes of its steps.
use video_processor_go.Base.{
  String, Option, none, some, ◌≡◌, ◌⊎◌, ◌↔◌, refl, sym, arith, Error, Result, ok, err, Eff, pure,
  ◌>>=◌, Option-cases, inl, inr,
}
use mathlib.Core.Path.{subst}
use video_processor_go.Queue.State.{VideoMetadata}
use video_processor_go.Pipeline.Host.{Host}
use video_processor_go.Pipeline.Media.{Media}
use video_processor_go.Pipeline.Result.{ProcessingResult, blank_result}
use video_processor_go.Pipeline.Process.{
  Options, temp_dir_of, thumbnails_step, audio_step, preview_step, streaming_step, validate_step,
  analyze_step, transcode_step, with_analysis, run_non_critical_steps_sequential, process_video,
}

-- The path that a step leaves: its own if it succeeded, and the one before if not.
abbrev pub path_after : Option Error → String → String → String
path_after none own before = own
path_after (some e) own before = before

-- A result with the paths that four steps leave, from the four outcomes.
abbrev pub recorded :
    String
    → String
    → String
    → String
    → Option Error
    → Option Error
    → Option Error
    → Option Error
    → ProcessingResult
    → ProcessingResult
recorded thumbnails audio preview streaming t a p s r = record r {
  thumbnails_dir = path_after t thumbnails r.thumbnails_dir;
  audio_path = path_after a audio r.audio_path;
  preview_path = path_after p preview r.preview_path;
  streaming_dir = path_after s streaming r.streaming_dir;
}

-- No artifact is named.
pub record IsBare (result : ProcessingResult) : Type 0 where
  pub thumbnails : result.thumbnails_dir ≡ ""
  pub audio : result.audio_path ≡ ""
  pub preview : result.preview_path ≡ ""
  pub streaming : result.streaming_dir ≡ ""

abbrev pub IsBare? : Option ProcessingResult → Type 0
IsBare? none = Unit
IsBare? (some result) = IsBare result

blank-IsBare : (dir : String) → IsBare (blank_result dir)
blank-IsBare dir = record { thumbnails = refl; audio = refl; preview = refl; streaming = refl }

module _ (h : Host) (m : Media) (ctx : h.Context) where
  module _ (input_path transcoded_path temp_dir : String) (opts : Options) where
    -- The four steps in order, each run, and the paths of those that succeeded.
    abbrev pub all_in_order : ProcessingResult → Eff h.World ProcessingResult
    all_in_order r = do
      t ← thumbnails_step h m ctx input_path transcoded_path temp_dir opts
      a ← audio_step h m ctx input_path transcoded_path temp_dir opts
      p ← preview_step h m ctx input_path transcoded_path temp_dir opts
      s ← streaming_step h m ctx input_path transcoded_path temp_dir opts
      pure (
          recorded (h.join_path temp_dir "thumbnails") (h.join_path temp_dir "audio.mp3")
            (h.join_path temp_dir "preview.mp4") (h.join_path temp_dir "streaming") t a p s r)

    -- One after the other, the four steps after the transcoding are all run, whatever the outcomes
    -- of those before; the result gets the path of each step that succeeded, keeps what it had for
    -- each that failed, and keeps its other fields.
    pub run_non_critical_steps_sequential_all :
        (r : ProcessingResult) (w : h.World)
        → run_non_critical_steps_sequential h m ctx input_path transcoded_path temp_dir opts r w
          ≡ all_in_order r w
    unfolding run_non_critical_steps_sequential
    run_non_critical_steps_sequential_all r w = ground arith

  module _ (input_path output_path : String) (opts : Options)
      (run_rest : String → ProcessingResult → Eff h.World ProcessingResult) where
    with_analysis-IsBare :
        (a : Result VideoMetadata) (dir : String)
        → IsBare (with_analysis h m ctx input_path output_path opts run_rest a (blank_result dir))
    with_analysis-IsBare (err e) dir = blank-IsBare dir
    with_analysis-IsBare (ok x) dir = record {
      thumbnails = refl;
      audio = refl;
      preview = refl;
      streaming = refl;
    }

    -- The pipeline reports no error exactly if its directory could be made and the validation and
    -- the transcoding succeeded, whatever the analysis and the steps after the transcoding do. If it
    -- reports an error, what it hands back names no artifact.
    pub process_video_critical :
        (w : h.World)
        → let made = h.mkdir_all (temp_dir_of h m ctx input_path output_path opts run_rest) w in
          let v = validate_step h m ctx input_path output_path opts run_rest made.1 in
          let a = analyze_step h m ctx input_path output_path opts run_rest v.1 in
          let t = transcode_step h m ctx input_path output_path opts run_rest a.1 in
          let r = process_video h m ctx input_path output_path opts run_rest w in
          ((r.0.1 ≡ none) ↔ ((made.0 ≡ none) × (v.0 ≡ none) × (t.0 ≡ none)))
          × ((r.0.1 ≡ none) ⊎ IsBare? r.0.0)
    unfolding process_video
    process_video_critical w =
        let made = h.mkdir_all (temp_dir_of h m ctx input_path output_path opts run_rest) w in
        let v = validate_step h m ctx input_path output_path opts run_rest made.1 in
        let a = analyze_step h m ctx input_path output_path opts run_rest v.1 in
        let t = transcode_step h m ctx input_path output_path opts run_rest a.1 in
        elim (Option-cases made.0) [
          | inr (x, e) ↦
              ((λ z. ground arith, λ z. ground arith), inr (subst IsBare? (sym (lost e)) tt))
          | inl e ↦ elim (Option-cases v.0) [
            | inr (x, e1) ↦ (
              (λ z. ground arith, λ z. ground arith),
              inr (subst IsBare? (sym (invalid e e1)) (blank-IsBare _)),
            )
            | inl e1 ↦ elim (Option-cases t.0) [
              | inr (x, e2) ↦ (
                (λ z. ground arith, λ z. ground arith),
                inr (subst IsBare? (sym (failed e e1 e2)) (with_analysis-IsBare a.0 _)),
              )
              | inl e2 ↦ ((λ z. (e, e1, e2), λ z. ground arith), inl (ground arith))
            ]
          ]
        ]
      where
        failed :
            {x : Error}
            → let made = h.mkdir_all (temp_dir_of h m ctx input_path output_path opts run_rest) w in
              let v = validate_step h m ctx input_path output_path opts run_rest made.1 in
              let a = analyze_step h m ctx input_path output_path opts run_rest v.1 in
              let t = transcode_step h m ctx input_path output_path opts run_rest a.1 in
              made.0 ≡ none
              → v.0 ≡ none
              → t.0 ≡ some x
              → (process_video h m ctx input_path output_path opts run_rest w).0.0
                ≡ some (
                    with_analysis h m ctx input_path output_path opts run_rest a.0
                      (blank_result (temp_dir_of h m ctx input_path output_path opts run_rest)))
        failed e e1 e2 = ground (arith, e, e1, e2)

        invalid :
            {x : Error}
            → let made = h.mkdir_all (temp_dir_of h m ctx input_path output_path opts run_rest) w in
              let v = validate_step h m ctx input_path output_path opts run_rest made.1 in
              made.0 ≡ none
              → v.0 ≡ some x
              → (process_video h m ctx input_path output_path opts run_rest w).0.0
                ≡ some (blank_result (temp_dir_of h m ctx input_path output_path opts run_rest))
        invalid e e1 = ground (arith, e, e1)

        lost :
            {x : Error}
            → (h.mkdir_all (temp_dir_of h m ctx input_path output_path opts run_rest) w).0 ≡ some x
            → (process_video h m ctx input_path output_path opts run_rest w).0.0 ≡ none
        lost e = ground (arith, e)
