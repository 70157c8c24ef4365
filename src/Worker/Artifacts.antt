-- ===== src/Worker/Artifacts.antt =====
-- main.go: from the pipeline's result to the job's artifacts, and from the job's state to the
-- notification of the API.
use video_processor_go.Base.{
  ℕ, zero, suc, ◌+◌, String, Option, none, some, List, [], ◌∷◌, ◌⧺◌, str_eq, if◌then◌else◌,
  format_padded,
}
use video_processor_go.Queue.State.{JobState, JobArtifacts, VideoMetadata, job_status_done}
use video_processor_go.Pipeline.Result.{ProcessingResult}
use video_processor_go.Webhook.Payload.{Payload, blank_payload}

-- A field by field copy between two packages' types with the same fields; a nil stays nil.
unfoldable pub to_job_metadata : ProcessingResult → Option VideoMetadata
to_job_metadata result = elim result.metadata [
  | none ↦ none
  | some m ↦ some (record {
    duration = m.duration;
    width = m.width;
    height = m.height;
    video_codec = m.video_codec;
    audio_codec = m.audio_codec;
    fps = m.fps;
    bitrate = m.bitrate;
    size = m.size;
  })
]

-- `if path != "" { artifact = name }`
abbrev pub when_set : String → String → String
when_set path name = if str_eq path "" then "" else name

unfoldable pub build_job_artifacts : String → String → ProcessingResult → JobArtifacts
build_job_artifacts video_id processed_id result = record {
  video = "processed/" ⧺ processed_id;
  thumbnails = when_set result.thumbnails_dir ("thumbnails/" ⧺ video_id);
  audio = when_set result.audio_path ("audio/" ⧺ video_id ⧺ ".mp3");
  preview = when_set result.preview_path ("preview/" ⧺ video_id ⧺ "_preview.mp4");
  hls = when_set result.streaming_dir ("hls/" ⧺ video_id);
}

-- `for i := first; ...` over `rounds` numbers, each giving `dir/thumb_%03d.jpg`.
thumbnail_paths_from : String → ℕ → ℕ → List String
thumbnail_paths_from dir zero first = []
thumbnail_paths_from dir (suc rounds) first =
    (dir ⧺ "/thumb_" ⧺ format_padded first ⧺ ".jpg") ∷ thumbnail_paths_from dir rounds (first + 1)

unfoldable pub thumbnail_paths : String → List String
unfolding thumbnail_paths_from
thumbnail_paths dir = thumbnail_paths_from dir 5 1

with_artifacts : Option JobArtifacts → Payload → Payload
with_artifacts none payload = payload
with_artifacts (some a) payload = record payload {
  processed_path = a.video;
  preview_path = a.preview;
  hls_path = a.hls;
  audio_path = a.audio;
  thumbnail_paths = if str_eq a.thumbnails "" then [] else thumbnail_paths a.thumbnails;
}

with_metadata : Option VideoMetadata → Payload → Payload
with_metadata none payload = payload
with_metadata (some m) payload = record payload {
  file_size_bytes = some m.size;
  duration_seconds = some m.duration;
  width = some m.width;
  height = some m.height;
  codec = m.video_codec;
}

-- The payload that `notifyWebhook` sends.
unfoldable pub notification : String → JobState → Payload
unfolding with_artifacts with_metadata
notification video_id state =
    let success = str_eq state.status job_status_done in
    let payload = blank_payload video_id success in
    if success
    then with_metadata state.metadata (with_artifacts state.artifacts payload)
    else payload
