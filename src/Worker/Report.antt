-- ===== src/Worker/Report.antt =====
-- What the API hears of a video that was processed: from the pipeline's result through the job's
-- state to the payload (processNextMessage, toJobMetadata, buildJobArtifacts and notifyWebhook of
-- main.go, SetJobDone of queue/job.go).
use text.Mathlib.TextLemmas.{append-eq-nil_iff}
use video_processor_go.Base.{
  String, true, Option, none, some, map, [], ◌∷◌, ◌⧺◌, ◌≡◌, str_eq, eq_iff, if◌then◌else◌, arith,
  format_padded, Bool-cases, Option-cases, inl, inr, refl, false,
}
use video_processor_go.Queue.State.{JobState, VideoMetadata}
use video_processor_go.Queue.Job.{done_state}
use video_processor_go.Pipeline.Result.{ProcessingResult}
use video_processor_go.Webhook.Payload.{Payload}
use video_processor_go.Worker.Artifacts.{
  to_job_metadata, when_set, build_job_artifacts, thumbnail_paths, notification,
}

dir-is_named : (video_id : String) → str_eq ("thumbnails/" ⧺ video_id) "" ≡ false
dir-is_named video_id =
    let dir = "thumbnails/" ⧺ video_id in
    ground (
      arith,
      eq_iff dir "",
      eq_iff "thumbnails/" "",
      λ (e : ◌≡◌ {A = String} dir "").
          ((append-eq-nil_iff {p = "thumbnails/"} {q = video_id}).0 e).0,
    )

-- A field of the metadata, if there are any.
abbrev pub field {ℓ} : {A : Type ℓ} → (VideoMetadata → A) → Option VideoMetadata → Option A
field f none = none
field f (some m) = some (f m)

-- What the payload should be, from the pipeline's result alone.
abbrev pub report : String → String → ProcessingResult → Payload
report video_id processed_id result = record {
  video_id = video_id;
  success = true;
  processed_path = "processed/" ⧺ processed_id;
  preview_path = when_set result.preview_path ("preview/" ⧺ video_id ⧺ "_preview.mp4");
  hls_path = when_set result.streaming_dir ("hls/" ⧺ video_id);
  audio_path = when_set result.audio_path ("audio/" ⧺ video_id ⧺ ".mp3");
  thumbnail_paths =
      if str_eq result.thumbnails_dir ""
      then []
      else map (λ name. ("thumbnails/" ⧺ video_id) ⧺ name)
          ("/thumb_001.jpg" ∷ "/thumb_002.jpg" ∷ "/thumb_003.jpg" ∷ "/thumb_004.jpg"
            ∷ "/thumb_005.jpg" ∷ []);
  file_size_bytes = field (λ m. m.size) result.metadata;
  duration_seconds = field (λ m. m.duration) result.metadata;
  width = field (λ m. m.width) result.metadata;
  height = field (λ m. m.height) result.metadata;
  codec = elim result.metadata [ none ↦ "" | some m ↦ m.video_codec ];
}

-- A job done with the artifacts and the metadata of a result is announced as a success, with the
-- path of each artifact that the result has and an empty one for each that it has not, five
-- thumbnails if there is a directory of them, and the metadata if there are any; what its state
-- was before has no part in it.
pub notification-done_state :
    (video_id processed_id : String) (result : ProcessingResult) (old : JobState)
    → let artifacts = build_job_artifacts video_id processed_id result in
      notification video_id (done_state artifacts (to_job_metadata result) old)
      ≡ report video_id processed_id result
unfolding notification done_state build_job_artifacts to_job_metadata thumbnail_paths format_padded
notification-done_state video_id processed_id result old =
    let named = dir-is_named video_id in
    elim (Option-cases result.metadata) [
      | inl bare ↦ elim (Bool-cases (str_eq result.thumbnails_dir "")) [
        | inl e ↦ rw (bare, e) refl
        | inr e ↦ rw (bare, e, named) refl
      ]
      | inr (m, full) ↦ elim (Bool-cases (str_eq result.thumbnails_dir "")) [
        | inl e ↦ rw (full, e) refl
        | inr e ↦ rw (full, e, named) refl
      ]
    ]
