-- ===== src/Examples/Goroutines.antt =====
-- A run of the four goroutines with two permits, where the preview fails.
use video_processor_go.Base.{
  ℕ, zero, suc, ◌+◌, ◌≤◌, String, Option, none, some, Error, ◌≡◌, refl, pos, to_lower, trim_space,
  atoi,
}
use video_processor_go.Pipeline.Result.{blank_result}
use video_processor_go.Pipeline.Outcomes.{recorded}
use video_processor_go.Pipeline.Parallel.Run.{
  permits, Task, thumbnails, audio, preview, streaming, Run, finished, advance, advance_at,
  advance_caller, set_path, Step, of_task, of_caller, Steps, none_yet, next,
}
use video_processor_go.Pipeline.Parallel.Invariant.{Inv, Steps-Inv}
use video_processor_go.Pipeline.Parallel.Progress.{measure, Steps-bound, parallel_goes_on}
use video_processor_go.Pipeline.Parallel.Result.{
  returned-recorded, parallel-sequential, step_paths, outcome_of,
}
use video_processor_go.Pipeline.Process.{
  run_non_critical_steps_sequential, thumbnails_step, audio_step, preview_step, streaming_step,
  run_step,
}
use video_processor_go.Pipeline.Steps.Shots.{generate_thumbnails, generate_preview}
use video_processor_go.Pipeline.Steps.Transcode.{extract_audio}
use video_processor_go.Pipeline.Steps.Segment.{
  segment_for_streaming, segment_by_encoder, effective_encoder, segment_for_streaming_body,
  segment_selected, segment_single_command, probe_source_height, probe_source_has_audio,
}
use video_processor_go.Pipeline.Steps.Variants.{selected_variants}
use video_processor_go.Examples.Machine.{machine, outcome}
use video_processor_go.Examples.Runs.{media, options}

abbrev paths : Task → String
paths = step_paths machine "/tmp/t"

record Reached : Type 0 where
  count : ℕ
  last : Run
  steps : Steps (permits (pos 2)) paths (blank_result "/tmp/t") count last

go_on :
    (r : Reached) (o : Option Run)
    → ((t : Run) → o ≡ some t → Step (permits (pos 2)) paths r.last t)
    → Reached
go_on r none step = r
go_on r (some t) step = record { count = suc r.count; last = t; steps = next r.steps (step t refl) }

call : Reached → Reached
unfolding go_on
call r = go_on r (advance_caller (permits (pos 2)) paths r.last) (λ t e. of_caller e)

-- So many operations of a goroutine, as far as it is not blocked.
act : ℕ → Task → Option Error → Reached → Reached
unfolding go_on
act zero i e r = r
act (suc n) i e r =
    act n i e (go_on r (advance (permits (pos 2)) paths i e r.last) (λ t h. of_task i e h))

abbrev begun : Reached
begun = call (call (call (call (record { count = 0; last = _; steps = none_yet }))))

-- Two goroutines hold the permits.
abbrev midway : Reached
midway = act 3 audio none (act 2 preview (some "boom") (act 1 thumbnails none begun))

abbrev ended : Reached
ended = call (
    act 9 streaming none
      (act 9 audio none (act 9 preview (some "boom") (act 9 thumbnails none midway))))

Steps-Inv_example : Inv (permits (pos 2)) paths (blank_result "/tmp/t") midway.last
unfolding call act permits advance advance_at advance_caller
Steps-Inv_example = Steps-Inv (permits (pos 2)) paths (blank_result "/tmp/t") midway.steps

Steps-bound_example : midway.count + measure midway.last ≤ 33
unfolding call act permits advance advance_at advance_caller
Steps-bound_example = Steps-bound (permits (pos 2)) paths (blank_result "/tmp/t") midway.steps

parallel_goes_on_example : (t : Run) × Step (permits (pos 2)) paths midway.last t
unfolding call act permits advance advance_at advance_caller
parallel_goes_on_example = parallel_goes_on (pos 2) paths (blank_result "/tmp/t") midway.steps refl

returned-recorded_example :
    ((i : Task) → ended.last.pc i ≡ finished (outcome_of (ended.last.pc i)))
    × (ended.last.result
        ≡ recorded "/tmp/t/thumbnails" "/tmp/t/audio.mp3" "/tmp/t/preview.mp4" "/tmp/t/streaming"
            none none
            (some "boom")
            none
            (blank_result "/tmp/t"))
unfolding call act permits advance advance_at advance_caller set_path
returned-recorded_example =
    returned-recorded (permits (pos 2)) paths (blank_result "/tmp/t") ended.steps refl

-- All four succeed, one after the other.
abbrev smooth : Reached
smooth =
    call
      (act 9 streaming none (act 9 preview none (act 9 audio none (act 9 thumbnails none begun))))

parallel-sequential_example :
    smooth.last.result
    ≡ (run_non_critical_steps_sequential machine media 0 "/tmp/in.mp4" "/tmp/out.mp4" "/tmp/t"
        options
        (blank_result "/tmp/t")
        0).0
unfolding call act permits advance advance_at advance_caller set_path thumbnails_step run_step
    generate_thumbnails outcome audio_step extract_audio preview_step generate_preview
    streaming_step segment_for_streaming segment_by_encoder effective_encoder to_lower trim_space
    segment_for_streaming_body segment_selected segment_single_command selected_variants
    probe_source_height atoi probe_source_has_audio
parallel-sequential_example =
    parallel-sequential machine media 0 "/tmp/in.mp4" "/tmp/out.mp4" "/tmp/t" options
      (permits (pos 2)) (blank_result "/tmp/t") 0 smooth.steps refl (refl, refl, refl, refl)
