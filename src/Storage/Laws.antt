-- ===== src/Storage/Laws.antt =====
-- What minio/client.go relies on of the object store. `content` is what another client would read at
-- an object's path, while the store's rule that deletes archived raw videos has not acted.
use video_processor_go.Base.{ℤ, ok, String, Bool, Option, none, some, ◌≡◌, ◌≢◌, ◌⊎◌}
use video_processor_go.Storage.Bucket.{Bucket}

pub record BucketLaws {World : Type 0} (b : Bucket World) : Type 1 where
  pub Content : Type 0
  pub content : World → String → Option Content
  -- A copy that reports success found its source, and stands at its destination; it changes nothing
  -- else, whether it succeeds or not.
  pub content-copy_self :
      (to from : String) (w : World)
      → (b.copy_object to from w).0 ≡ none
      → (c : Content) × (content w from ≡ some c)
        × (content (b.copy_object to from w).1 to ≡ some c)
  pub content-copy_ne :
      (to from k : String) (w : World)
      → to ≢ k
      → content (b.copy_object to from w).1 k ≡ content w k
  -- One that fails was carried out, or it was not.
  pub content-copy_any :
      (to from : String) (w : World)
      → ((c : Content) × (content w from ≡ some c)
          × (content (b.copy_object to from w).1 to ≡ some c))
        ⊎ (content (b.copy_object to from w).1 to ≡ content w to)
  -- A removal that reports success leaves nothing at its path. One that fails was carried out, or it
  -- was not.
  pub content-remove_self :
      (k : String) (w : World)
      → (b.remove_object k w).0 ≡ none
      → content (b.remove_object k w).1 k ≡ none
  pub content-remove_any :
      (k : String) (w : World)
      → (content (b.remove_object k w).1 k ≡ none)
        ⊎ (content (b.remove_object k w).1 k ≡ content w k)
  pub content-remove_ne :
      (k j : String) (w : World) → k ≢ j → content (b.remove_object k w).1 j ≡ content w j
  -- The store tells the size of no object that is not there.
  pub stat_reply :
      (k : String) (size : ℤ) (w : World) → (b.stat_object k w).0 ≡ ok size → content w k ≢ none
  pub content-refuses : (k : String) (w : World) → content (b.refuses w).1 k ≡ content w k
  pub content-settle :
      (success : Bool) (k : String) (w : World) → content (b.settle success w).1 k ≡ content w k

module _ {World : Type 0} (b : Bucket World) (laws : BucketLaws b) where
  open laws use {content}

  -- The calls that do not write an object, and a write changes its own path at most.
  pub record IsLocal : Type 0 where
    pub content-put_ne :
        (path : String) (file : b.File) (size : ℤ) (content_type k : String) (w : World)
        → path ≢ k
        → content (b.put_object path file size content_type w).1 k ≡ content w k
    pub content-stat :
        (path k : String) (w : World) → content (b.stat_object path w).1 k ≡ content w k
    pub content-get :
        (path k : String) (w : World) → content (b.get_object path w).1 k ≡ content w k
    pub content-create :
        (path k : String) (w : World) → content (b.create_file path w).1 k ≡ content w k
    pub content-open :
        (path k : String) (w : World) → content (b.open_file path w).1 k ≡ content w k
    pub content-size :
        (file : b.File) (k : String) (w : World) → content (b.file_size file w).1 k ≡ content w k
    pub content-read_from :
        (file : b.File) (object : b.Object) (k : String) (w : World)
        → content (b.read_from file object w).1 k ≡ content w k
    pub content-close_file :
        (file : b.File) (k : String) (w : World) → content (b.close_file file w).1 k ≡ content w k
    pub content-close_object :
        (object : b.Object) (k : String) (w : World)
        → content (b.close_object object w).1 k ≡ content w k
    pub content-read_dir :
        (dir k : String) (w : World) → content (b.read_dir dir w).1 k ≡ content w k
    pub content-remove_file :
        (path k : String) (w : World) → content (b.remove_file path w).1 k ≡ content w k
    pub content-remove_all :
        (path k : String) (w : World) → content (b.remove_all path w).1 k ≡ content w k
