-- ===== src/Examples/Lives.antt =====
-- The life of a job at a concrete store, and its end beside another job.
use video_processor_go.Base.{
  none, some, [], ◌∷◌, true, false, ◌≡◌, ◌≢◌, refl, pos, String, eq_iff, arith,
}
use video_processor_go.Queue.State.{job_key, processing_queue_name, dead_letter_queue_name}
use video_processor_go.Queue.Job.{publish_job, done_state}
use video_processor_go.Queue.Undisturbed.{Undisturbed}
use video_processor_go.Queue.Client.{consume_message}
use video_processor_go.Queue.Consume.{Takes, consume_message-Takes}
use video_processor_go.Queue.Publish.{IsPublished, publish_job-IsPublished}
use video_processor_go.Pipeline.Result.{ProcessingResult, blank_result}
use video_processor_go.Worker.Settle.{settle_job}
use video_processor_go.Worker.Artifacts.{notification, build_job_artifacts, to_job_metadata}
use video_processor_go.Worker.Report.{report, notification-done_state}
use video_processor_go.Worker.Others.{settle_job-Undisturbed}
use video_processor_go.Worker.Lifecycle.{
  Waits, Rests, failure_notice, failing_rounds, failing_rounds_four,
}
use video_processor_go.Examples.Memory.{memory, settings, busy, at_work, quiet, waiting_job}
use video_processor_go.Examples.MemoryLaws.{memory_laws, memory_reachable}

pub quiet-Waits :
    Waits
      (memory false)
      (memory_laws false)
      memory_reachable
      settings
      "v1"
      "http://api/callback"
      []
      []
      0
      quiet
unfolding job_key processing_queue_name dead_letter_queue_name
quiet-Waits = record {
  waiting = refl;
  processing = refl;
  buried = refl;
  old = waiting_job;
  state = refl;
  count = refl;
  callback = refl;
}

failing_rounds_four_example :
    let (notices, t) = failing_rounds (memory false) settings ("a" ∷ "b" ∷ "c" ∷ "d" ∷ []) quiet in
    (notices ≡ none ∷ none ∷ none ∷ failure_notice "v1" "http://api/callback" ∷ [])
    × Rests
        (memory false)
        (memory_laws false)
        memory_reachable
        settings
        "v1"
        "http://api/callback"
        []
        []
        4
        "d"
        t
failing_rounds_four_example =
    failing_rounds_four (memory false) (memory_laws false) memory_reachable settings "v1"
      "http://api/callback" [] [] "a" "b" "c" "d" quiet-Waits

v1-ne-v2 : ◌≢◌ {A = String} "v1" "v2"
v1-ne-v2 = ground (arith, eq_iff "v1" "v2")

settle_job-Undisturbed_example :
    Undisturbed
      (memory true)
      (memory_laws true)
      "v2"
      (busy 1 (false ∷ true ∷ []))
      (settle_job (memory true) settings "v1" (some "boom") (busy 1 (false ∷ true ∷ []))).1
settle_job-Undisturbed_example =
    settle_job-Undisturbed (memory true) (memory_laws true) settings "v1" "v2" v1-ne-v2
      (some "boom") (busy 1 (false ∷ true ∷ []))

publish_job-IsPublished_example :
    let r = publish_job (memory true) settings "v3" "" (busy 1 (false ∷ true ∷ [])) in
    IsPublished
      (memory true)
      (memory_laws true)
      settings
      "v3"
      ""
      (busy 1 (false ∷ true ∷ []))
      r.0
      r.1
publish_job-IsPublished_example =
    publish_job-IsPublished (memory true) (memory_laws true) settings "v3" ""
      (busy 1 (false ∷ true ∷ []))

abbrev partial_result : ProcessingResult
partial_result = record (blank_result "/tmp/job") {
  thumbnails_dir = "/tmp/job/thumbnails";
  streaming_dir = "/tmp/job/hls";
  metadata = some (record {
    duration = 4607182418800017408;
    width = pos 1920;
    height = pos 1080;
    video_codec = "h264";
    audio_codec = "aac";
    fps = 4629137466983448576;
    bitrate = pos 1000000;
    size = pos 123456;
  });
}

notification-done_state_example :
    let artifacts = build_job_artifacts "v1" "v1_processed" partial_result in
    notification "v1" (done_state artifacts (to_job_metadata partial_result) (at_work 1))
    ≡ report "v1" "v1_processed" partial_result
notification-done_state_example =
    notification-done_state "v1" "v1_processed" partial_result (at_work 1)

consume_message-Takes_example :
    let (r, t) = consume_message (memory true) settings quiet in
    Takes (memory true) (memory_laws true) settings quiet r t
consume_message-Takes_example =
    consume_message-Takes (memory true) (memory_laws true) settings quiet
