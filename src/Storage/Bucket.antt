-- ===== src/Storage/Bucket.antt =====
-- What minio/client.go calls: the MinIO client, the local files, and the MinIO circuit breaker.
use video_processor_go.Base.{ℤ, String, Bool, Option, List, Error, Result, Eff}

-- An entry of a directory: its name, and whether it is a directory.
pub record Entry : Type 0 where
  pub name : String
  pub is_dir : Bool

pub record Bucket (World : Type 0) : Type 1 where
  -- an open object, and an open file
  pub Object : Type 0
  pub File : Type 0
  -- StatObject, for the size in bytes; GetObject; PutObject(path, file, size, content type);
  -- CopyObject(to, from); RemoveObject; BucketExists; MakeBucket; SetBucketLifecycle, for one rule
  -- with a prefix and a number of days
  pub stat_object : String → Eff World (Result ℤ)
  pub get_object : String → Eff World (Result Object)
  pub put_object : String → File → ℤ → String → Eff World (Option Error)
  pub copy_object : String → String → Eff World (Option Error)
  pub remove_object : String → Eff World (Option Error)
  pub bucket_exists : Eff World (Result Bool)
  pub make_bucket : Eff World (Option Error)
  pub set_expiry : String → ℤ → Eff World (Option Error)
  -- os.Create, os.Open, file.Stat().Size(), outFile.ReadFrom(object), and the deferred Close
  pub create_file : String → Eff World (Result File)
  pub open_file : String → Eff World (Result File)
  pub file_size : File → Eff World (Result ℤ)
  pub read_from : File → Object → Eff World (Option Error)
  pub close_file : File → Eff World (Unit {0})
  pub close_object : Object → Eff World (Unit {0})
  -- os.ReadDir, in the order of the names; os.Remove and os.RemoveAll, whose errors are dropped
  pub read_dir : String → Eff World (Result (List Entry))
  pub remove_file : String → Eff World (Unit {0})
  pub remove_all : String → Eff World (Unit {0})
  -- the MinIO circuit breaker: whether it refuses a call, and the report of a call's success
  pub refuses : Eff World (Option Error)
  pub settle : Bool → Eff World (Unit {0})
  -- filepath.Join and Ext; `%.0f` of a size over 1024 twice, and `%d`
  pub join_path : String → String → String
  pub ext_of : String → String
  pub megabytes : ℤ → String
