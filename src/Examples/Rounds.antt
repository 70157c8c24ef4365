-- ===== src/Examples/Rounds.antt =====
-- A worker's rounds over the Redis in memory, the machine that fails by a script, and an object store
-- that takes everything.
use video_processor_go.Base.{
  ℕ, pos, String, none, some, ok, true, [], ◌≡◌, ◌≢◌, ◌↔◌, Bool, false, Error, Eff, eq_iff, arith,
}
use video_processor_go.Queue.State.{processing_queue_name}
use video_processor_go.Worker.Health.{Reply, health_check_handler, health_check_handler_ok}
use video_processor_go.Storage.Bucket.{Bucket}
use video_processor_go.Pipeline.Result.{ProcessingResult}
use video_processor_go.Worker.Round.{process_next_message}
use video_processor_go.Worker.Branches.{verdict}
use video_processor_go.Worker.Refinement.{QueueRound, process_next_message-QueueRound}
use video_processor_go.Examples.Memory.{memory, settings, quiet}
use video_processor_go.Examples.Machine.{machine}
use video_processor_go.Examples.Runs.{media}

abbrev pub steady : Bucket ℕ
steady = record {
  Object = String;
  File = String;
  stat_object = λ path w. (ok (pos 1000), w);
  get_object = λ path w. (ok path, w);
  put_object = λ path file size content_type w. (none, w);
  copy_object = λ to from w. (none, w);
  remove_object = λ path w. (none, w);
  bucket_exists = λ w. (ok true, w);
  make_bucket = λ w. (none, w);
  set_expiry = λ prefix days w. (none, w);
  create_file = λ path w. (ok path, w);
  open_file = λ path w. (ok path, w);
  file_size = λ file w. (ok (pos 1000), w);
  read_from = λ file object w. (none, w);
  close_file = λ file w. (tt, w);
  close_object = λ object w. (tt, w);
  read_dir = λ dir w. (ok [], w);
  remove_file = λ path w. (tt, w);
  remove_all = λ path w. (tt, w);
  refuses = λ w. (none, w);
  settle = λ success w. (tt, w);
  join_path = machine.join_path;
  ext_of = λ path. ".ts";
  megabytes = λ size. "1";
}

abbrev pub no_more : String → ProcessingResult → Eff ℕ ProcessingResult
no_more temp_dir result w = (result, w)

pub request : ◌≢◌ {A = String} "finished" "queue"
request = ground (arith, eq_iff "finished" "queue")

pub processing : settings.processing_finished_queue ≢ processing_queue_name settings
unfolding processing_queue_name
processing = ground (arith, eq_iff "finished" "queue:processing")

process_next_message-QueueRound_example :
    let (report, (t, v)) =
      process_next_message
        (memory true)
        machine
        steady
        media
        settings
        "libx264"
        "/tmp"
        no_more
        1
        0
        (quiet, 0) in
    let said = λ (video_id : String).
      verdict machine steady media settings "libx264" "/tmp" no_more 0 video_id 0 in
    QueueRound (memory true) settings said quiet (report, t)
process_next_message-QueueRound_example =
    process_next_message-QueueRound (memory true) machine steady media settings "libx264" "/tmp"
      no_more 1 0 (quiet, 0)

health_check_handler_ok_example :
    let (reply, (s, v)) = health_check_handler (memory false) steady (quiet, 0) in
    ((reply ≡ Reply.written 200 "OK") ↔ (
      (((memory false).ping quiet).0 ≡ none)
      × ((exists : Bool) × ((steady.bucket_exists 0).0 ≡ ok exists))))
    × ((e : Error) → ((memory false).ping quiet).0 ≡ some e → v ≡ 0)
health_check_handler_ok_example = health_check_handler_ok (memory false) steady (quiet, 0)
