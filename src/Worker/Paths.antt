-- ===== src/Worker/Paths.antt =====
-- The paths of objects that a round (`processNextMessage` of main.go) writes, and those of raw videos.
use text.Mathlib.TextLemmas.{append_assoc}
use video_processor_go.Base.{String, ◌≡◌, ◌≢◌, refl, ◌∙◌, sym, arith, ◌⧺◌, eq_iff}
use Prim.Native.String.{len}
use video_processor_go.Storage.Objects.{get_object_path}
use video_processor_go.Storage.Archive.{raw_path, archive_path}
use video_processor_go.Storage.Untouched.{prefix_ne, Apart}

-- The paths of raw videos, archived or not, begin so, and no other path of the program does.
abbrev pub IsRaw : String → Type 0
IsRaw key = (rest : String) × (key ≡ "raw" ⧺ rest)

pub raw_path-IsRaw : (video_id : String) → IsRaw (raw_path video_id)
unfolding get_object_path
raw_path-IsRaw video_id = ("/" ⧺ video_id, refl)

pub archive_path-IsRaw : (video_id : String) → IsRaw (archive_path video_id)
unfolding get_object_path
archive_path-IsRaw video_id =
    ("-archived" ⧺ "/" ⧺ video_id, append_assoc "raw" "-archived" ("/" ⧺ video_id))

other_path : (p s key : String) → len p ≡ 3 → p ≢ "raw" → IsRaw key → p ⧺ s ≢ key
other_path p s key three n (rest, same) e = prefix_ne p "raw" s rest three n (e ∙ same)

pub processed_path :
    (video_id key : String) → IsRaw key → get_object_path "processed" video_id ≢ key
unfolding get_object_path
processed_path video_id key raw e =
    other_path "pro" ("cessed" ⧺ "/" ⧺ video_id) key refl (ground (arith, eq_iff "pro" "raw")) raw
      (sym (append_assoc "pro" "cessed" ("/" ⧺ video_id)) ∙ e)

-- The same of `first ⧺ second ⧺ ...`, where `first` has three letters.
longer_path :
    (first second rest key : String)
    → len first ≡ 3
    → first ≢ "raw"
    → IsRaw key
    → (first ⧺ second) ⧺ rest ≢ key
longer_path first second rest key three n raw e =
    other_path first (second ⧺ rest) key three n raw (sym (append_assoc first second rest) ∙ e)

module _ (key : String) (raw : IsRaw key) where
  pub thumbnails_path : (video_id : String) → Apart ("thumbnails/" ⧺ video_id) key
  thumbnails_path video_id s e =
      longer_path "thu" "mbnails/" (video_id ⧺ s) key refl (ground (arith, eq_iff "thu" "raw")) raw
        (sym (append_assoc "thumbnails/" video_id s) ∙ e)

  pub hls_path : (video_id : String) → Apart ("hls/" ⧺ video_id) key
  hls_path video_id s e =
      longer_path "hls" "/" (video_id ⧺ s) key refl (ground (arith, eq_iff "hls" "raw")) raw
        (sym (append_assoc "hls/" video_id s) ∙ e)

  pub audio_path : (video_id : String) → "audio/" ⧺ video_id ⧺ ".mp3" ≢ key
  audio_path video_id =
      longer_path "aud" "io/" (video_id ⧺ ".mp3") key refl (ground (arith, eq_iff "aud" "raw")) raw

  pub preview_path : (video_id : String) → "preview/" ⧺ video_id ⧺ "_preview.mp4" ≢ key
  preview_path video_id =
      longer_path "pre" "view/" (video_id ⧺ "_preview.mp4") key refl
        (ground (arith, eq_iff "pre" "raw")) raw
