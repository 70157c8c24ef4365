-- ===== src/Storage/Limit.antt =====
-- DownloadVideo of minio/client.go: the limit on the size of a video.
use video_processor_go.Base.{
  ℕ, ◌*◌, ◌<◌, ℤ, pos, ltb_ℤ, ◌≤ℤ◌, ◌<ℤ◌, String, true, false, Option, none, ◌≡◌, ◌≢◌, inl, inr, ap,
  ◌∙◌, refl, arith, Error, ok, Option-cases, Bool-cases, Result-cases, wrap64,
}
use video_processor_go.Config.{Config}
use video_processor_go.Storage.Bucket.{Bucket}
use video_processor_go.Storage.Objects.{
  VideoType, get_object_path, max_bytes, execute, guarded, fetch, fetch_video, download_video,
}

-- The limit fits in 64 bits below 2^43 MB.
pub max_bytes_small : (n : ℕ) → n < 8796093022208 → max_bytes (pos n) ≡ pos (n * 1048576)
unfolding max_bytes wrap64
max_bytes_small n lt = ground arith

module _ {World : Type 0} (b : Bucket World) where
  -- The result of a download, and where the world is then, against the size that the store tells
  -- and the limit of n MB.
  pub record Limited (n : ℕ) (path : String) (w : World) (failure : Option Error) (t : World)
      : Type 0 where
    pub accepted :
        failure ≡ none
        → (size : ℤ) × ((b.stat_object path (b.refuses w).1).0 ≡ ok size)
          × (size ≤ℤ pos (n * 1048576))
    pub rejected :
        (size : ℤ)
        → (b.refuses w).0 ≡ none
        → (b.stat_object path (b.refuses w).1).0 ≡ ok size
        → pos (n * 1048576) <ℤ size
        → (failure ≢ none) × (t ≡ (b.settle false (b.stat_object path (b.refuses w).1).1).1)

  -- With a limit of n MB below 2^43: a download that succeeds is of an object whose size is told and
  -- within n * 2^20 bytes. If the circuit is closed and the size told is larger, the download fails,
  -- and no call is made but for the size and the report to the circuit breaker.
  pub download_video-Limited :
      (cfg : Config) (n : ℕ)
      → cfg.max_file_size_mb ≡ pos n
      → n < 8796093022208
      → (video_type : VideoType) (object_id dest_path : String) (w : World)
      → let (failure, t) = download_video b cfg video_type object_id dest_path w in
        Limited n (get_object_path video_type object_id) w failure t
  unfolding download_video execute guarded fetch_video fetch
  download_video-Limited cfg n limit lt video_type object_id dest_path w =
      let path = get_object_path video_type object_id in
      let asked = b.refuses w in
      let told = b.stat_object path asked.1 in
      let bytes = ap max_bytes limit ∙ max_bytes_small n lt in
      record {
        accepted = elim (Option-cases asked.0) [
          | inr (x, e) ↦ rw e (λ h. cc)
          | inl e ↦ rw e (elim (Result-cases told.0) [
            | inr (x, g) ↦ rw g (λ h. cc)
            | inl (size, g) ↦
                rw (g, bytes)
                  (elim (Bool-cases (ltb_ℤ (pos (n * 1048576)) size)) [
                    | inl large ↦ rw large (λ h. cc)
                    | inr small ↦ λ h. (size, refl, ground (arith, small))
                  ])
          ])
        ];
        rejected = λ size closed e large.
            let test : ltb_ℤ (pos (n * 1048576)) size ≡ true = ground (arith, large) in
            rw (closed, e, bytes, test) (λ h. cc, refl);
      }
