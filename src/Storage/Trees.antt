-- ===== src/Storage/Trees.antt =====
-- UploadDirectory of minio/client.go against a list of the files in the directory.
use video_processor_go.Base.{
  ℕ, zero, suc, ◌≤◌, String, Bool, true, false, Option, none, some, List, [], ◌∷◌, ◌++◌, ◌≡◌, refl,
  ap, ◌∙◌, sym, arith, fun_ext, Error, ok, Eff, ◌⧺◌, max,
}
use video_processor_go.Storage.Bucket.{Bucket, Entry}
use video_processor_go.Storage.Objects.{upload_file, upload_entries, upload_directory, unless_error}

-- What a directory holds: files, and directories by their names.
mutual
  pub data Node : Type 0 where
    file : Node
    dir : Nodes → Node

  pub data Nodes : Type 0 where
    nil : Nodes
    cons : String → Node → Nodes → Nodes

abbrev pub is_dir : Node → Bool
is_dir file = false
is_dir (dir nodes) = true

abbrev pub entries : Nodes → List Entry
entries nil = []
entries (cons name node rest) = record { name = name; is_dir = is_dir node } ∷ entries rest

-- How many directories stand one in another, the outermost counted.
unfoldable mutual
  pub depth : Nodes → ℕ
  depth nil = 1
  depth (cons name node rest) = max (depth_node node) (depth rest)

  pub depth_node : Node → ℕ
  depth_node file = 1
  depth_node (dir nodes) = suc (depth nodes)

module _ {World : Type 0} (b : Bucket World) where
  open b use {read_dir, join_path}

  -- The files of a directory, each with the path of its object, in the order of the names.
  unfoldable mutual
    pub files_of : String → String → Nodes → List (String × String)
    files_of src_dir prefix nil = []
    files_of src_dir prefix (cons name node rest) =
        files_of_node (join_path src_dir name) (prefix ⧺ "/" ⧺ name) node
        ++ files_of src_dir prefix rest

    pub files_of_node : String → String → Node → List (String × String)
    files_of_node src_path object_path file = (src_path, object_path) ∷ []
    files_of_node src_path object_path (dir nodes) = files_of src_path object_path nodes

  -- One upload after the other, until the first error.
  unfoldable pub upload_all : List (String × String) → Eff World (Option Error)
  upload_all [] w = (none, w)
  upload_all ((src_path, object_path) ∷ rest) w =
      unless_error (upload_file b src_path object_path w) (upload_all rest)

  -- ReadDir lists what the directories below hold, and changes nothing: nobody writes there meanwhile.
  abbrev pub ListsBelow : String → Nodes → Type 0
  ListsBelow src_dir nil = Unit
  ListsBelow src_dir (cons name file rest) = ListsBelow src_dir rest
  ListsBelow src_dir (cons name (dir nodes) rest) =
      ((w : World) → read_dir (join_path src_dir name) w ≡ (ok (entries nodes), w))
      × ListsBelow (join_path src_dir name) nodes
      × ListsBelow src_dir rest

  -- The same of the directory itself.
  abbrev pub Lists : String → Nodes → Type 0
  Lists src_dir nodes =
      ((w : World) → read_dir src_dir w ≡ (ok (entries nodes), w)) × ListsBelow src_dir nodes

  unless_error_assoc :
      (r : Option Error × World) (first second : Eff World (Option Error))
      → unless_error (unless_error r first) second
        ≡ unless_error r (λ w. unless_error (first w) second)
  unfolding unless_error
  unless_error_assoc (some e, w) first second = refl
  unless_error_assoc (none, w) first second = refl

  upload_all-append :
      (xs ys : List (String × String)) (w : World)
      → upload_all (xs ++ ys) w ≡ unless_error (upload_all xs w) (upload_all ys)
  unfolding upload_all unless_error
  upload_all-append [] ys w = refl
  upload_all-append ((src, obj) ∷ rest) ys w =
      let r = upload_file b src obj w in
      ap (unless_error r) (fun_ext (upload_all-append rest ys))
      ∙ sym (unless_error_assoc r (upload_all rest) (upload_all ys))

  Uploads : (String → String → Eff World (Option Error)) → ℕ → Type 0
  Uploads descend fuel =
      (src_dir prefix : String) (nodes : Nodes) (w : World)
      → Lists src_dir nodes
      → depth nodes ≤ fuel
      → descend src_dir prefix w ≡ upload_all (files_of src_dir prefix nodes) w

  upload_entries-all :
      (descend : String → String → Eff World (Option Error)) (fuel : ℕ)
      (spec : Uploads descend fuel) (src_dir prefix : String) (nodes : Nodes) (w : World)
      → ListsBelow src_dir nodes
      → depth nodes ≤ suc fuel
      → upload_entries b descend src_dir prefix (entries nodes) w
        ≡ upload_all (files_of src_dir prefix nodes) w
  unfolding Uploads upload_entries upload_all files_of depth
  upload_entries-all descend fuel spec src_dir prefix nil w l d = refl
  upload_entries-all descend fuel spec src_dir prefix (cons name file rest) w l d =
      ap (unless_error (upload_file b (join_path src_dir name) (prefix ⧺ "/" ⧺ name) w))
        (fun_ext (λ t. upload_entries-all descend fuel spec src_dir prefix rest t l (omega arith)))
  upload_entries-all descend fuel spec src_dir prefix (cons name (dir nodes) rest) w
        (l, below, later) d =
      let src_path = join_path src_dir name in
      let object_path = prefix ⧺ "/" ⧺ name in
      let inside = files_of src_path object_path nodes in
      ap (λ r. unless_error r (upload_entries b descend src_dir prefix (entries rest)))
        (spec src_path object_path nodes w (l, below) (omega arith))
      ∙ ap (unless_error (upload_all inside w)) (
          fun_ext
            (λ t. upload_entries-all descend fuel spec src_dir prefix rest t later (omega arith)))
      ∙ sym (upload_all-append inside (files_of src_dir prefix rest) w)

  depth_pos : (nodes : Nodes) → 1 ≤ depth nodes
  unfolding depth
  depth_pos nil = omega arith
  depth_pos (cons name node rest) = omega (arith, depth_pos rest)

  -- With fuel for the depth of a directory that nobody changes meanwhile, UploadDirectory does what
  -- uploading each file in it does, one after the other in the order of the listings, to the prefix
  -- with the file's place in the directory, until the first error.
  pub upload_directory-all :
      (fuel : ℕ) (src_dir prefix : String) (nodes : Nodes) (w : World)
      → Lists src_dir nodes
      → depth nodes ≤ fuel
      → upload_directory b fuel src_dir prefix w ≡ upload_all (files_of src_dir prefix nodes) w
  unfolding upload_directory Uploads
  upload_directory-all zero src_dir prefix nodes w l d = absurd (omega (arith, depth_pos nodes))
  upload_directory-all (suc fuel) src_dir prefix nodes w l d = rw (l.0 w) (
      upload_entries-all (upload_directory b fuel) fuel (upload_directory-all fuel) src_dir prefix
        nodes w l.1 d)
