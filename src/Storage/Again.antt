-- ===== src/Storage/Again.antt =====
-- DownloadVideo after ArchiveRawVideo (minio/client.go).
use video_processor_go.Base.{String, none, ◌≡◌, ◌≢◌, inl, inr, ◌∙◌, Option-cases, Result-cases}
use video_processor_go.Config.{Config}
use video_processor_go.Storage.Bucket.{Bucket}
use video_processor_go.Storage.Laws.{BucketLaws}
use video_processor_go.Storage.Objects.{
  video_type_raw, execute, guarded, fetch, fetch_video, download_video, archive_raw_video,
}
use video_processor_go.Storage.Archive.{raw_path, archive_raw_video-Archives}

module _ {World : Type 0} (b : Bucket World) (laws : BucketLaws b) where
  open laws use {content}

  -- A raw video that is not there is not downloaded.
  download_video-absent :
      (cfg : Config) (video_id dest_path : String) (w : World)
      → content w (raw_path video_id) ≡ none
      → (download_video b cfg video_type_raw video_id dest_path w).0 ≢ none
  unfolding download_video execute guarded fetch_video fetch
  download_video-absent cfg video_id dest_path w gone =
      let asked = b.refuses w in
      let told = b.stat_object (raw_path video_id) asked.1 in
      elim (Option-cases asked.0) [
        | inr (x, e) ↦ rw e (λ h. cc)
        | inl e ↦ rw e (elim (Result-cases told.0) [
          | inr (x, g) ↦ rw g (λ h. cc)
          | inl (size, g) ↦ absurd (
              laws.stat_reply (raw_path video_id) size asked.1 g
                (laws.content-refuses (raw_path video_id) w ∙ gone))
        ])
      ]

  -- Once archiving a raw video has reported success, a download of that raw video that follows fails.
  pub download_video-archived :
      (cfg : Config) (video_id dest_path : String) (w : World)
      → (archive_raw_video b video_id w).0 ≡ none
      → let t = (archive_raw_video b video_id w).1 in
        (download_video b cfg video_type_raw video_id dest_path t).0 ≢ none
  download_video-archived cfg video_id dest_path w archived =
      download_video-absent cfg video_id dest_path (archive_raw_video b video_id w).1
        ((archive_raw_video-Archives b laws video_id w).moved archived).1
