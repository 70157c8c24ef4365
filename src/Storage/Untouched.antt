-- ===== src/Storage/Untouched.antt =====
-- Calls of minio/client.go that touch no object of raw/ or raw-archived/.
use Prim.Native.String.{len, slice}
use text.Mathlib.TextPositions.{slice-append_left}
use text.Mathlib.TextLemmas.{append_assoc}
use video_processor_go.Base.{
  ℕ, zero, suc, String, Option, none, some, List, [], ◌∷◌, ◌≡◌, ◌≢◌, refl, ◌∙◌, ap, sym, arith,
  Error, ok, err, Eff, ◌⧺◌, Result-cases, inl, inr, Result, true, false, Bool, if◌then◌else◌,
}
use video_processor_go.Config.{Config}
use video_processor_go.Storage.Bucket.{Bucket, Entry}
use video_processor_go.Storage.Laws.{BucketLaws, IsLocal}
use video_processor_go.Storage.Objects.{
  get_object_path, execute, guarded, fetch_video, fetch, save, download_video, send_video,
  upload_video, send_file, upload_file, upload_entries, upload_directory, unless_error,
}

-- Two texts whose beginnings of the same length differ.
pub prefix_ne : (a c s t : String) → len a ≡ len c → a ≢ c → a ⧺ s ≢ c ⧺ t
prefix_ne a c s t l n e = n (
    sym (slice-append_left a s)
    ∙ ap (λ (x : String). slice x 0 (len a)) e
    ∙ ap (λ (k : ℕ). slice (c ⧺ t) 0 k) l
    ∙ slice-append_left c t)

-- No path that goes on from a prefix is this one.
abbrev pub Apart : String → String → Type 0
Apart prefix key = (s : String) → prefix ⧺ s ≢ key

Apart-append : (prefix s key : String) → Apart prefix key → Apart (prefix ⧺ s) key
Apart-append prefix s key apart t e = apart (s ⧺ t) (sym (append_assoc prefix s t) ∙ e)

module _ {World : Type 0} (b : Bucket World) (laws : BucketLaws b) (quiet : IsLocal b laws)
    (key : String) where
  open laws use {content}

  abbrev pub Leaves : {A : Type 0} → Eff World A → Type 0
  Leaves call = (w : World) → content (call w).1 key ≡ content w key

  pub execute-Leaves : (call : Eff World (Option Error)) → Leaves call → Leaves (execute b call)
  unfolding execute guarded
  execute-Leaves call leaves w = grind (arith, laws.content-refuses, laws.content-settle, leaves)

  save-Leaves : (path : String) (o : Result b.Object) → Leaves (save b path o)
  unfolding save
  save-Leaves path (err e) w = refl
  save-Leaves path (ok object) w = grind (
    arith, quiet.content-create, quiet.content-read_from, quiet.content-close_file,
    quiet.content-close_object,
  )

  pub download_video-Leaves :
      (cfg : Config) (video_type object_id path : String)
      → Leaves (download_video b cfg video_type object_id path)
  unfolding download_video fetch_video fetch
  download_video-Leaves cfg video_type object_id path =
      execute-Leaves _ (λ w. grind (arith, quiet.content-stat, quiet.content-get, save-Leaves))

  pub upload_video-Leaves :
      (path video_type object_id : String)
      → get_object_path video_type object_id ≢ key
      → Leaves (upload_video b path video_type object_id)
  unfolding upload_video send_video
  upload_video-Leaves path video_type object_id n = execute-Leaves _ (λ w. grind (
    arith, quiet.content-open, quiet.content-size, quiet.content-put_ne, quiet.content-close_file,
  ))

  pub upload_file-Leaves :
      (path object_path : String) → object_path ≢ key → Leaves (upload_file b path object_path)
  unfolding upload_file send_file
  upload_file-Leaves path object_path n = execute-Leaves _ (λ w. grind (
    arith, quiet.content-open, quiet.content-size, quiet.content-put_ne, quiet.content-close_file,
  ))

  either-Leaves :
      (test : Bool) (f g : Eff World (Option Error))
      → Leaves f
      → Leaves g
      → Leaves (if test then f else g)
  either-Leaves true f g lf lg = lf
  either-Leaves false f g lf lg = lg

  unless_error-Leaves :
      (r : Option Error × World) (next : Eff World (Option Error)) (w : World)
      → content r.1 key ≡ content w key
      → Leaves next
      → content (unless_error r next).1 key ≡ content w key
  unfolding unless_error
  unless_error-Leaves (some e, v) next w h leaves = h
  unless_error-Leaves (none, v) next w h leaves = leaves v ∙ h

  upload_entries-Leaves :
      (descend : String → String → Eff World (Option Error)) (dir prefix : String)
      (entries : List Entry)
      → ((src object_path : String) → Apart object_path key → Leaves (descend src object_path))
      → Apart prefix key
      → Leaves (upload_entries b descend dir prefix entries)
  unfolding upload_entries
  upload_entries-Leaves descend dir prefix [] down apart w = refl
  upload_entries-Leaves descend dir prefix (entry ∷ rest) down apart w =
      let src_path = b.join_path dir entry.name in
      let object_path = prefix ⧺ "/" ⧺ entry.name in
      let longer : Apart object_path key = Apart-append prefix ("/" ⧺ entry.name) key apart in
      unless_error-Leaves _ (upload_entries b descend dir prefix rest) w
        (either-Leaves entry.is_dir (descend src_path object_path)
          (upload_file b src_path object_path) (down src_path object_path longer)
          (upload_file-Leaves src_path object_path (λ e. apart ("/" ⧺ entry.name) e)) w)
        (upload_entries-Leaves descend dir prefix rest down apart)

  pub upload_directory-Leaves :
      (fuel : ℕ) (dir prefix : String)
      → Apart prefix key
      → Leaves (upload_directory b fuel dir prefix)
  unfolding upload_directory
  upload_directory-Leaves zero dir prefix apart w = refl
  upload_directory-Leaves (suc fuel) dir prefix apart w =
      let r = b.read_dir dir w in
      elim (Result-cases r.0) [
        | inl (entries, e) ↦ rw e (
            upload_entries-Leaves (upload_directory b fuel) dir prefix entries
              (λ src object_path a. upload_directory-Leaves fuel src object_path a) apart r.1
            ∙ quiet.content-read_dir dir key w)
        | inr (x, e) ↦ rw e (quiet.content-read_dir dir key w)
      ]
