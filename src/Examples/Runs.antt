-- ===== src/Examples/Runs.antt =====
-- The pipeline on a machine where the first command fails.
use video_processor_go.Base.{
  String, ◌*◌, ◌/◌, true, none, [], ◌≡◌, ◌⊎◌, ◌↔◌, pos, ltb, leb, ◌==◌, ok,
}
use video_processor_go.Pipeline.Media.{Media}
use video_processor_go.Pipeline.Result.{blank_result}
use video_processor_go.Pipeline.Process.{
  Options, run_non_critical_steps_sequential, process_video, temp_dir_of, validate_step,
  analyze_step, transcode_step,
}
use video_processor_go.Pipeline.Outcomes.{
  IsBare?, all_in_order, run_non_critical_steps_sequential_all, process_video_critical,
}
use video_processor_go.Examples.Machine.{machine}

-- Whole numbers in the place of floats.
abbrev pub media : Media
media = record {
  parse_float = λ text. (60, none);
  parse_int = λ text. pos 0;
  format_float = λ x precision. "10";
  of_nat = λ n. n;
  divide = λ x y. x / y;
  times = λ x y. x * y;
  greater = λ x y. ltb y x;
  at_most = λ x y. leb x y;
  equal = λ x y. x == y;
  nanoseconds = λ x. pos x;
  parse_probe = λ text. ok (record { duration = "60"; size = "1"; bit_rate = "1"; streams = [] });
}

abbrev pub options : Options
options = record {
  parallel_non_critical_steps = true;
  max_parallel_post_transcode_steps = pos 4;
  hls_single_command = true;
  hls_single_command_fallback = true;
  video_encoder = "cpu";
  nvenc_preset = "p5";
  timeout_scale = 1;
}

run_non_critical_steps_sequential_all_example :
    run_non_critical_steps_sequential machine media 0 "/tmp/in.mp4" "/tmp/out.mp4" "/tmp/t" options
      (blank_result "/tmp/t")
      1
    ≡ all_in_order machine media 0 "/tmp/in.mp4" "/tmp/out.mp4" "/tmp/t" options
        (blank_result "/tmp/t")
        1
run_non_critical_steps_sequential_all_example =
    run_non_critical_steps_sequential_all machine media 0 "/tmp/in.mp4" "/tmp/out.mp4" "/tmp/t"
      options (blank_result "/tmp/t") 1

process_video_critical_example :
    let rest = λ (dir : String).
      run_non_critical_steps_sequential machine media 0 "/tmp/in.mp4" "/tmp/out.mp4" dir options in
    let made =
      machine.mkdir_all (temp_dir_of machine media 0 "/tmp/in.mp4" "/tmp/out.mp4" options rest) 1 in
    let v = validate_step machine media 0 "/tmp/in.mp4" "/tmp/out.mp4" options rest made.1 in
    let a = analyze_step machine media 0 "/tmp/in.mp4" "/tmp/out.mp4" options rest v.1 in
    let t = transcode_step machine media 0 "/tmp/in.mp4" "/tmp/out.mp4" options rest a.1 in
    let r = process_video machine media 0 "/tmp/in.mp4" "/tmp/out.mp4" options rest 1 in
    ((r.0.1 ≡ none) ↔ ((made.0 ≡ none) × (v.0 ≡ none) × (t.0 ≡ none)))
    × ((r.0.1 ≡ none) ⊎ IsBare? r.0.0)
process_video_critical_example =
    process_video_critical machine media 0 "/tmp/in.mp4" "/tmp/out.mp4" options
      (λ dir.
        run_non_critical_steps_sequential machine media 0 "/tmp/in.mp4" "/tmp/out.mp4" dir options)
      1
