-- ===== src/Examples/Shelf.antt =====
-- An object store in memory, which meets the laws, with a directory of three files to upload.
use video_processor_go.Base.{
  ℕ, ◌+◌, ℤ, pos, String, true, false, Option, none, some, List, [], ◌∷◌, ◌≡◌, refl, Error, Result,
  ok, err, arith, ◌⧺◌, str_eq, eq_iff, eq_refl, ◌≢◌, ◌⊎◌, inl, inr, if◌then◌else◌,
}
use video_processor_go.Storage.Bucket.{Bucket, Entry}
use video_processor_go.Storage.Laws.{BucketLaws, IsLocal}
use video_processor_go.Storage.Objects.{
  get_object_path, execute, guarded, move_raw, remove_copied, in_words, download_video,
  upload_directory, archive_raw_video, video_type_raw,
}
use video_processor_go.Storage.Trees.{
  Node, Nodes, depth, upload_all, files_of, upload_directory-all,
}
use video_processor_go.Storage.Archive.{Archives, archive_raw_video-Archives}
use video_processor_go.Storage.Again.{download_video-archived}
use video_processor_go.Storage.Limit.{Limited, download_video-Limited}
use video_processor_go.Examples.Memory.{put, settings}

pub record Shelf : Type 0 where
  pub objects : String → Option String
  pub calls : ℕ

abbrev pub counted : Shelf → Shelf
counted w = record w { calls = w.calls + 1 }

abbrev pub read_object : Option String → Result String
read_object none = err "The specified key does not exist."
read_object (some c) = ok c

abbrev pub copied : String → Option String → Shelf → Option Error × Shelf
copied to none w = (some "The specified key does not exist.", w)
copied to (some c) w = (none, record w { objects = put w.objects to (some c) })

abbrev pub listing : String → List Entry
listing dir =
    if str_eq dir "/t"
    then record { name = "hls"; is_dir = true } ∷ record { name = "a.mp3"; is_dir = false } ∷ []
    else record { name = "1.ts"; is_dir = false } ∷ record { name = "2.ts"; is_dir = false } ∷ []

abbrev pub shelf : Bucket Shelf
shelf = record {
  Object = String;
  File = String;
  stat_object =
      λ path w. (elim (w.objects path) [ none ↦ err "not found" | some c ↦ ok (pos 1000) ], w);
  get_object = λ path w. (read_object (w.objects path), w);
  put_object = λ path file size content_type w.
      (none, record w { objects = put w.objects path (some file); calls = w.calls + 1 });
  copy_object = λ to from w. copied to (w.objects from) w;
  remove_object = λ path w. (none, record w { objects = put w.objects path none });
  bucket_exists = λ w. (ok true, w);
  make_bucket = λ w. (none, w);
  set_expiry = λ prefix days w. (none, w);
  create_file = λ path w. (ok path, w);
  open_file = λ path w. (ok path, w);
  file_size = λ file w. (ok (pos 1000), w);
  read_from = λ file object w. (none, w);
  close_file = λ file w. (tt, w);
  close_object = λ object w. (tt, w);
  read_dir = λ dir w. (ok (listing dir), w);
  remove_file = λ path w. (tt, w);
  remove_all = λ path w. (tt, w);
  refuses = λ w. (none, w);
  settle = λ success w. (tt, w);
  join_path = λ a b. a ⧺ "/" ⧺ b;
  ext_of = λ path. ".ts";
  megabytes = λ size. "1";
}

-- One raw video.
abbrev pub one_raw : Shelf
one_raw = record { objects = λ k. if str_eq k "raw/v1" then some "frames" else none; calls = 0 }

pub put_self : (f : String → Option String) (k : String) (a : Option String) → put f k a k ≡ a
put_self f k a = ground (arith, eq_refl k)

pub put_ne :
    (f : String → Option String) (k : String) (a : Option String) (j : String)
    → k ≢ j
    → put f k a j ≡ f j
put_ne f k a j n = ground (arith, eq_iff k j)

pub copied_self :
    (to : String) (o : Option String) (w : Shelf)
    → (copied to o w).0 ≡ none
    → (c : String) × (o ≡ some c) × ((copied to o w).1.objects to ≡ some c)
copied_self to none w h = cc
copied_self to (some c) w h = (c, refl, ground (arith, eq_refl to))

pub copied_any :
    (to : String) (o : Option String) (w : Shelf)
    → ((c : String) × (o ≡ some c) × ((copied to o w).1.objects to ≡ some c))
      ⊎ ((copied to o w).1.objects to ≡ w.objects to)
copied_any to none w = inr refl
copied_any to (some c) w = inl (c, refl, ground (arith, eq_refl to))

pub copied_ne :
    (to : String) (o : Option String) (k : String) (w : Shelf)
    → to ≢ k
    → (copied to o w).1.objects k ≡ w.objects k
copied_ne to none k w n = refl
copied_ne to (some c) k w n = ground (arith, eq_iff to k)

pub stat_found :
    (o : Option String) (size : ℤ)
    → ◌≡◌ {A = Result ℤ} (elim o [ none ↦ err "not found" | some c ↦ ok (pos 1000) ]) (ok size)
    → o ≢ none
stat_found none size h = ground (arith, h)
stat_found (some c) size h = λ e. cc

abbrev pub shelf_laws : BucketLaws shelf
shelf_laws = record {
  Content = String;
  content = λ w k. w.objects k;
  content-copy_self = λ to from w h. copied_self to (w.objects from) w h;
  content-copy_ne = λ to from k w n. copied_ne to (w.objects from) k w n;
  content-copy_any = λ to from w. copied_any to (w.objects from) w;
  content-remove_any = λ k w. inl (put_self w.objects k none);
  content-remove_self = λ k w h. put_self w.objects k none;
  content-remove_ne = λ k j w n. put_ne w.objects k none j n;
  stat_reply = λ k size w h. stat_found (w.objects k) size h;
  content-refuses = λ k w. refl;
  content-settle = λ success k w. refl;
}

abbrev pub shelf_local : IsLocal shelf shelf_laws
shelf_local = record {
  content-put_ne = λ path file size content_type k w n. put_ne w.objects path (some file) k n;
  content-stat = λ path k w. refl;
  content-get = λ path k w. refl;
  content-create = λ path k w. refl;
  content-open = λ path k w. refl;
  content-size = λ file k w. refl;
  content-read_from = λ file object k w. refl;
  content-close_file = λ file k w. refl;
  content-close_object = λ object k w. refl;
  content-read_dir = λ dir k w. refl;
  content-remove_file = λ path k w. refl;
  content-remove_all = λ path k w. refl;
}

archive_raw_video-Archives_example :
    let (failure, t) = archive_raw_video shelf "v1" one_raw in
    Archives shelf shelf_laws "v1" failure one_raw t
archive_raw_video-Archives_example = archive_raw_video-Archives shelf shelf_laws "v1" one_raw

download_video-Limited_example :
    let (failure, t) = download_video shelf settings video_type_raw "v1" "/tmp/v1" one_raw in
    Limited shelf 5120 (get_object_path video_type_raw "v1") one_raw failure t
download_video-Limited_example =
    download_video-Limited shelf settings 5120 refl (omega arith) video_type_raw "v1" "/tmp/v1"
      one_raw

-- A directory with a file and a directory of two files.
abbrev tree : Nodes
tree =
    Nodes.cons "hls"
      (Node.dir (Nodes.cons "1.ts" Node.file (Nodes.cons "2.ts" Node.file Nodes.nil)))
      (Nodes.cons "a.mp3" Node.file Nodes.nil)

files_of-tree :
    files_of shelf "/t" "hls/v1" tree
    ≡ ("/t/hls/1.ts", "hls/v1/hls/1.ts")
      ∷ ("/t/hls/2.ts", "hls/v1/hls/2.ts")
      ∷ ("/t/a.mp3", "hls/v1/a.mp3")
      ∷ []
unfolding files_of
files_of-tree = refl

upload_directory-all_example :
    upload_directory shelf 2 "/t" "hls/v1" one_raw
    ≡ upload_all shelf (files_of shelf "/t" "hls/v1" tree) one_raw
unfolding depth
upload_directory-all_example =
    upload_directory-all shelf 2 "/t" "hls/v1" tree one_raw (λ w. refl, (λ w. refl, tt, tt))
      (omega arith)

download_video-archived_example :
    let t = (archive_raw_video shelf "v1" one_raw).1 in
    (download_video shelf settings video_type_raw "v1" "/tmp/v1" t).0 ≢ none
unfolding archive_raw_video execute guarded move_raw remove_copied in_words get_object_path
download_video-archived_example =
    download_video-archived shelf shelf_laws settings "v1" "/tmp/v1" one_raw refl
