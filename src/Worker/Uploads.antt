-- ===== src/Worker/Uploads.antt =====
-- The calls of a round on the object store (`processNextMessage` of main.go) that touch no raw video.
use video_processor_go.Base.{
  ℕ, String, Option, none, some, ◌≡◌, refl, ◌∙◌, inl, inr, ◌⧺◌, Error, Eff, str_eq, Bool-cases,
}
use video_processor_go.Config.{Config}
use video_processor_go.Backend.{Backend}
use video_processor_go.Pipeline.Host.{Host}
use video_processor_go.Pipeline.Media.{Media}
use video_processor_go.Pipeline.Result.{ProcessingResult}
use video_processor_go.Pipeline.Quiet.{IsQuiet}
use video_processor_go.Storage.Bucket.{Bucket}
use video_processor_go.Storage.Laws.{BucketLaws, IsLocal}
use video_processor_go.Storage.Objects.{upload_directory, upload_file}
use video_processor_go.Storage.Untouched.{upload_file-Leaves, upload_directory-Leaves}
use video_processor_go.Worker.Paths.{IsRaw, thumbnails_path, hls_path, audio_path, preview_path}
use video_processor_go.Worker.Round.{upload_artifacts, tidy, optional}

module _ (b : Backend) (h : Host) (k : Bucket h.World) (laws : BucketLaws k)
    (local : IsLocal k laws) (quiet : (key : String) → IsQuiet h (λ w. laws.content w key))
    (m : Media) (cfg : Config) (video_encoder temp_root : String) (fuel : ℕ) where
  open laws use {content}

  -- A call leaves the raw videos, archived or not.
  abbrev pub Leaves : {A : Type 0} → Eff h.World A → Type 0
  Leaves call = (key : String) → IsRaw key → (w : h.World) → content (call w).1 key ≡ content w key

  module _ (parallel : String → ProcessingResult → Eff h.World ProcessingResult)
      (leaves : (dir : String) (r : ProcessingResult) (key : String) (w : h.World)
        → content (parallel dir r w).1 key ≡ content w key)
      (ctx : h.Context) (video_id : String) where
    optional-Leaves :
        (path : String) (upload : Eff h.World (Option Error))
        → Leaves upload
        → Leaves
            (optional b h k m cfg video_encoder temp_root parallel fuel ctx video_id path upload)
    optional-Leaves path upload l key raw w = elim (Bool-cases (str_eq path "")) [
      | inl e ↦ rw e refl
      | inr e ↦ rw e (l key raw w)
    ]

    -- The four optional uploads, by the path that each begins with.
    abbrev thumbnails : String → Eff h.World (Option Error)
    thumbnails dir = upload_directory k fuel dir ("thumbnails/" ⧺ video_id)

    abbrev audio : String → Eff h.World (Option Error)
    audio path = upload_file k path ("audio/" ⧺ video_id ⧺ ".mp3")

    abbrev preview : String → Eff h.World (Option Error)
    preview path = upload_file k path ("preview/" ⧺ video_id ⧺ "_preview.mp4")

    abbrev hls : String → Eff h.World (Option Error)
    hls dir = upload_directory k fuel dir ("hls/" ⧺ video_id)

    abbrev after : String → Eff h.World (Option Error) → h.World → h.World
    after path upload w =
        (optional b h k m cfg video_encoder temp_root parallel fuel ctx video_id path upload w).1

    pub upload_artifacts-Leaves :
        (r : ProcessingResult)
        → Leaves (upload_artifacts b h k m cfg video_encoder temp_root parallel fuel ctx video_id r)
    unfolding upload_artifacts
    upload_artifacts-Leaves r key raw w =
        let t = after r.thumbnails_dir (thumbnails r.thumbnails_dir) w in
        let a = after r.audio_path (audio r.audio_path) t in
        let p = after r.preview_path (preview r.preview_path) a in
        optional-Leaves r.streaming_dir (hls r.streaming_dir)
          (λ j q.
            upload_directory-Leaves k laws local j fuel r.streaming_dir _ (hls_path j q video_id))
          key raw p
        ∙ optional-Leaves r.preview_path (preview r.preview_path)
            (λ j q. upload_file-Leaves k laws local j r.preview_path _ (preview_path j q video_id))
            key raw a
        ∙ optional-Leaves r.audio_path (audio r.audio_path)
            (λ j q. upload_file-Leaves k laws local j r.audio_path _ (audio_path j q video_id)) key
            raw t
        ∙ optional-Leaves r.thumbnails_dir (thumbnails r.thumbnails_dir)
            (λ j q.
              upload_directory-Leaves k laws local j fuel r.thumbnails_dir _
                (thumbnails_path j q video_id))
            key raw w

    pub tidy-Leaves :
        (r : Option ProcessingResult)
        → Leaves (tidy b h k m cfg video_encoder temp_root parallel fuel ctx video_id r)
    unfolding tidy
    tidy-Leaves none key raw w =
        local.content-remove_file _ key _ ∙ local.content-remove_file _ key _
    tidy-Leaves (some r) key raw w =
        local.content-remove_file _ key _
        ∙ local.content-remove_file _ key _
        ∙ local.content-remove_all _ key w
