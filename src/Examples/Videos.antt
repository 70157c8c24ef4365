-- ===== src/Examples/Videos.antt =====
-- A raw video in the object store in memory, over rounds of a worker.
use video_processor_go.Base.{String, none, false, inl, refl, ◌⧺◌, Eff}
use video_processor_go.Pipeline.Host.{Host}
use video_processor_go.Pipeline.Result.{ProcessingResult}
use video_processor_go.Pipeline.Quiet.{IsQuiet}
use video_processor_go.Storage.Objects.{get_object_path}
use video_processor_go.Storage.Kept.{Kept}
use video_processor_go.Worker.Round.{process_next_message}
use video_processor_go.Worker.Life.{rounds}
use video_processor_go.Worker.Video.{rounds-Kept}
use video_processor_go.Examples.Memory.{memory, settings, quiet}
use video_processor_go.Examples.Shelf.{Shelf, shelf, shelf_laws, shelf_local, one_raw}
use video_processor_go.Examples.Runs.{media}

-- Each command succeeds and prints the same.
abbrev studio : Host
studio = record {
  World = Shelf;
  Context = String;
  with_timeout = λ c d. c;
  combined_output = λ c name args w. (("12.5", none), w);
  output = λ c name args w. (("12.5", none), w);
  run = λ c name args w. (none, w);
  mkdir_all = λ dir w. (none, w);
  write_file = λ path text w. (none, w);
  join_path = λ a b. a ⧺ "/" ⧺ b;
  dir_of = λ p. "/tmp";
  base_of = λ p. "v1_input.mp4";
  ext_of = λ p. ".mp4";
  step_begins = λ name w. (tt, w);
  step_ends = λ name e w. (tt, w);
}

studio-IsQuiet : (key : String) → IsQuiet studio (λ (w : Shelf). w.objects key)
studio-IsQuiet key = record {
  combined_output = λ ctx name args w. refl;
  output = λ ctx name args w. refl;
  run = λ ctx name args w. refl;
  mkdir_all = λ path w. refl;
  write_file = λ path text w. refl;
  step_begins = λ name w. refl;
  step_ends = λ name failure w. refl;
}

abbrev unchanged : String → ProcessingResult → Eff Shelf ProcessingResult
unchanged dir result w = (result, w)

rounds-Kept_example :
    let turn =
      process_next_message
        (memory false)
        studio
        shelf
        media
        settings
        "libx264"
        "/tmp"
        unchanged
        1
        "" in
    let (report, (s, v)) = rounds (λ i. turn) 3 (quiet, one_raw) in
    Kept shelf shelf_laws "v1" "frames" v
unfolding get_object_path
rounds-Kept_example =
    rounds-Kept (memory false) studio shelf shelf_laws shelf_local studio-IsQuiet media settings
      "libx264" "/tmp" 1 (λ i. unchanged) (λ i dir r key w. refl) (λ i. "") 3 "v1" "frames"
      (quiet, one_raw) (inl refl)
