-- ===== src/Storage/Objects.antt =====
-- minio/client.go, each function with its calls in order.
use video_processor_go.Base.{
  ℕ, zero, suc, ◌-◌, ◌*◌, ◌%◌, ◌^◌, ℤ, pos, ltb_ℤ, String, Option, none, some, List, [], ◌∷◌, ◌||◌,
  Error, Result, ok, err, is_ok, error?, of_error?, Eff, pure, ◌>>=◌, ◌⧺◌, str_eq, if◌then◌else◌,
  to_lower, format_int, wrap64,
}
use video_processor_go.Config.{Config}
use video_processor_go.Storage.Bucket.{Bucket, Entry}

abbrev pub VideoType : Type 0
VideoType = String

abbrev pub video_type_raw : VideoType
video_type_raw = "raw"

abbrev pub video_type_processed : VideoType
video_type_processed = "processed"

abbrev pub video_type_raw_archived : VideoType
video_type_raw_archived = "raw-archived"

abbrev pub raw_archived_lifecycle_days : ℤ
raw_archived_lifecycle_days = pos 30

unfoldable pub get_object_path : VideoType → String → String
get_object_path video_type object_id = video_type ⧺ "/" ⧺ object_id

-- `cfg.MaxFileSizeMB * 1024 * 1024` in an int64.
unfoldable pub max_bytes : ℤ → ℤ
max_bytes (pos n) = wrap64 (n * 1048576)
max_bytes (ℤ.negsuc n) = wrap64 (2 ^ 64 - suc n * 1048576 % 2 ^ 64)

unfoldable pub content_type_by_ext : String → String
content_type_by_ext ext =
    let e = to_lower ext in
    if str_eq e ".jpg" || str_eq e ".jpeg"
    then "image/jpeg"
    else if str_eq e ".mp3"
    then "audio/mpeg"
    else if str_eq e ".mp4"
    then "video/mp4"
    else if str_eq e ".ts"
    then "video/MP2T"
    else if str_eq e ".m3u8"
    then "application/x-mpegURL"
    else "application/octet-stream"

-- fmt.Errorf of a prefix and `%w`, if there is an error.
unfoldable pub in_words : String → Option Error → Option Error
in_words prefix none = none
in_words prefix (some e) = some (prefix ⧺ e)

-- `if err != nil { return err }`, and what follows.
unfoldable pub unless_error :
    {World : Type 0} → Option Error × World → Eff World (Option Error) → Option Error × World
unless_error (some e, w) next = (some e, w)
unless_error (none, w) next = next w

module _ {World : Type 0} (b : Bucket World) where
  open b use {
    Object, File, stat_object, get_object, put_object, copy_object, remove_object, bucket_exists,
    make_bucket, set_expiry, create_file, open_file, file_size, read_from, close_file, close_object,
    read_dir, refuses, settle, join_path, ext_of, megabytes,
  }

  unfoldable pub guarded : Eff World (Option Error) → Option Error → Eff World (Option Error)
  guarded m (some e) = pure (some e)
  guarded m none = do failure ← m; _ ← settle (is_ok (of_error? failure)); pure failure

  -- circuitbreaker.MinIO.Execute: a refused call is not made; any other is, and its outcome counted.
  unfoldable pub execute : Eff World (Option Error) → Eff World (Option Error)
  unfolding guarded
  execute m = do refused ← refuses; guarded m refused

  -- `outFile.ReadFrom(object)`, and the deferred closing of the file and then of the object.
  fill : Object → Result File → Eff World (Option Error)
  fill object (err e) = do _ ← close_object object; pure (some e)
  fill object (ok file) = do
    failure ← read_from file object
    _ ← close_file file
    _ ← close_object object
    pure failure

  unfoldable pub save : String → Result Object → Eff World (Option Error)
  unfolding fill
  save dest_path (err e) = pure (some e)
  save dest_path (ok object) = do file ← create_file dest_path; fill object file

  unfoldable pub fetch : Config → String → String → Result ℤ → Eff World (Option Error)
  unfolding save
  fetch cfg object_path dest_path (err e) = pure (some e)
  fetch cfg object_path dest_path (ok size) =
      if ltb_ℤ (max_bytes cfg.max_file_size_mb) size
      then pure (
          some (
            "video too large: "
            ⧺ megabytes size
            ⧺ "MB (maximum: "
            ⧺ format_int cfg.max_file_size_mb
            ⧺ "MB)"))
      else (do object ← get_object object_path; save dest_path object)

  unfoldable pub fetch_video : Config → VideoType → String → String → Eff World (Option Error)
  unfolding fetch
  fetch_video cfg video_type object_id dest_path = do
    size ← stat_object (get_object_path video_type object_id)
    fetch cfg (get_object_path video_type object_id) dest_path size

  unfoldable pub download_video : Config → VideoType → String → String → Eff World (Option Error)
  download_video cfg video_type object_id dest_path =
      execute (fetch_video cfg video_type object_id dest_path)

  put_sized : String → String → String → File → Result ℤ → Eff World (Option Error)
  unfolding in_words
  put_sized prefix object_path content_type file (err e) =
      pure (some ("[minio] failed to get file info: " ⧺ e))
  put_sized prefix object_path content_type file (ok size) = do
    failure ← put_object object_path file size content_type
    pure (in_words prefix failure)

  put_file : String → String → String → Result File → Eff World (Option Error)
  unfolding put_sized
  put_file prefix object_path content_type (err e) =
      pure (some ("[minio] failed to open file for upload: " ⧺ e))
  put_file prefix object_path content_type (ok file) = do
    size ← file_size file
    failure ← put_sized prefix object_path content_type file size
    _ ← close_file file
    pure failure

  unfoldable pub send_video : String → VideoType → String → Eff World (Option Error)
  unfolding put_file
  send_video src_path video_type object_id = do
    file ← open_file src_path
    put_file "failed to upload: " (get_object_path video_type object_id) "video/mp4" file

  unfoldable pub upload_video : String → VideoType → String → Eff World (Option Error)
  upload_video src_path video_type object_id = execute (send_video src_path video_type object_id)

  unfoldable pub send_file : String → String → Eff World (Option Error)
  unfolding put_file
  send_file src_path object_path = do
    file ← open_file src_path
    put_file ("failed to upload " ⧺ object_path ⧺ ": ") object_path
        (content_type_by_ext (ext_of src_path)) file

  unfoldable pub upload_file : String → String → Eff World (Option Error)
  upload_file src_path object_path = execute (send_file src_path object_path)

  -- The loop over the entries of a directory, which the first error ends; `descend` is the call of
  -- UploadDirectory for an entry that is a directory.
  unfoldable pub upload_entries :
      (String → String → Eff World (Option Error))
      → String
      → String
      → List Entry
      → Eff World (Option Error)
  upload_entries descend src_dir object_prefix [] w = (none, w)
  upload_entries descend src_dir object_prefix (entry ∷ rest) w =
      let src_path = join_path src_dir entry.name in
      let object_path = object_prefix ⧺ "/" ⧺ entry.name in
      let r =
        (if entry.is_dir then descend src_path object_path else upload_file src_path object_path)
          w in
      unless_error r (upload_entries descend src_dir object_prefix rest)

  upload_read :
      (String → String → Eff World (Option Error))
      → String
      → String
      → Result (List Entry)
      → Eff World (Option Error)
  upload_read descend src_dir object_prefix (err e) =
      pure (some ("[minio] failed to read directory " ⧺ src_dir ⧺ ": " ⧺ e))
  upload_read descend src_dir object_prefix (ok entries) =
      upload_entries descend src_dir object_prefix entries

  -- UploadDirectory, with fuel for the depth of the directory.
  unfoldable pub upload_directory : ℕ → String → String → Eff World (Option Error)
  unfolding upload_read
  upload_directory zero src_dir object_prefix = pure (some "out of fuel")
  upload_directory (suc fuel) src_dir object_prefix = do
    entries ← read_dir src_dir
    upload_read (upload_directory fuel) src_dir object_prefix entries

  unfoldable pub remove_copied : String → Option Error → Eff World (Option Error)
  unfolding in_words
  remove_copied src_path (some e) = pure (some ("failed to copy raw to archive: " ⧺ e))
  remove_copied src_path none = do
    failure ← remove_object src_path
    pure (in_words "failed to remove original raw after archiving: " failure)

  unfoldable pub move_raw : String → Eff World (Option Error)
  unfolding remove_copied
  move_raw video_id = do
    copied ←
        copy_object (get_object_path video_type_raw_archived video_id)
          (get_object_path video_type_raw video_id)
    remove_copied (get_object_path video_type_raw video_id) copied

  unfoldable pub archive_raw_video : String → Eff World (Option Error)
  archive_raw_video video_id = execute (move_raw video_id)

  unfoldable pub health_check : Eff World (Option Error)
  health_check = do found ← bucket_exists; pure (error? found)

  -- configureRawArchivedLifecycle, whose error is only logged.
  unfoldable pub configure_raw_archived_lifecycle : Eff World (Unit {0})
  configure_raw_archived_lifecycle = do
    _ ← set_expiry (video_type_raw_archived ⧺ "/") raw_archived_lifecycle_days
    pure tt
