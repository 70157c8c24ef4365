-- ===== src/Storage/Kept.antt =====
-- A raw video and its copy in the archive (ArchiveRawVideo of minio/client.go), whatever calls fail.
use text.Mathlib.TextLemmas.{append_assoc, append_cancel_left}
use video_processor_go.Base.{
  String, none, some, ◌≡◌, ◌≢◌, ◌⊎◌, refl, ◌∙◌, sym, arith, inl, inr, ◌⧺◌, Option-cases,
  String-cases, eq_iff, subst,
}
use video_processor_go.Storage.Bucket.{Bucket}
use video_processor_go.Storage.Laws.{BucketLaws}
use video_processor_go.Storage.Objects.{
  get_object_path, execute, guarded, remove_copied, move_raw, archive_raw_video,
}
use video_processor_go.Storage.Archive.{
  raw_path, archive_path, archive-ne-raw, archive_raw_video-Archives,
}
use video_processor_go.Storage.Untouched.{prefix_ne}

raw_path_inj : (a c : String) → raw_path a ≡ raw_path c → a ≡ c
unfolding get_object_path
raw_path_inj a c e = append_cancel_left "/" a c (append_cancel_left "raw" _ _ e)

archive_path_inj : (a c : String) → archive_path a ≡ archive_path c → a ≡ c
unfolding get_object_path
archive_path_inj a c e = append_cancel_left "/" a c (append_cancel_left "raw-archived" _ _ e)

archive-ne-other_raw : (a c : String) → archive_path a ≢ raw_path c
unfolding get_object_path
archive-ne-other_raw a c e =
    prefix_ne "raw-" "raw/" ("archived" ⧺ "/" ⧺ a) c refl (ground (arith, eq_iff "raw-" "raw/"))
      (sym (append_assoc "raw-" "archived" ("/" ⧺ a)) ∙ e ∙ sym (append_assoc "raw" "/" c))

module _ {World : Type 0} (b : Bucket World) (laws : BucketLaws b) (video_id : String)
    (c : laws.Content) where
  open laws use {content}

  -- The raw video stands at its place, or it is gone from there and stands in the archive.
  abbrev pub Kept : World → Type 0
  Kept w =
      (content w (raw_path video_id) ≡ some c)
      ⊎ ((content w (raw_path video_id) ≡ none) × (content w (archive_path video_id) ≡ some c))

  pub same-Kept :
      {w t : World}
      → content t (raw_path video_id) ≡ content w (raw_path video_id)
      → content t (archive_path video_id) ≡ content w (archive_path video_id)
      → Kept w
      → Kept t
  same-Kept raw archive (inl h) = inl (raw ∙ h)
  same-Kept raw archive (inr (gone, h)) = inr (raw ∙ gone, archive ∙ h)

  copy-Kept :
      (w : World)
      → Kept w
      → let t = (b.copy_object (archive_path video_id) (raw_path video_id) w).1 in Kept t
  copy-Kept w (inl h) = inl (laws.content-copy_ne _ _ _ w (archive-ne-raw video_id) ∙ h)
  copy-Kept w (inr (gone, h)) = inr (
    laws.content-copy_ne _ _ _ w (archive-ne-raw video_id) ∙ gone,
    elim (laws.content-copy_any (archive_path video_id) (raw_path video_id) w) [
      | inl (d, was, came) ↦ absurd (ground (arith, gone, was))
      | inr same ↦ same ∙ h
    ],
  )

  -- Where the copy reports success, it is of this video.
  copied-archive :
      (w : World)
      → Kept w
      → let r = b.copy_object (archive_path video_id) (raw_path video_id) w in
        r.0 ≡ none → content r.1 (archive_path video_id) ≡ some c
  copied-archive w kept fine =
      let (d, was, came) = laws.content-copy_self _ _ w fine in
      elim kept [ inl h ↦ came ∙ sym was ∙ h | inr (gone, h) ↦ absurd (ground (arith, gone, was)) ]

  remove-Kept :
      (w : World)
      → Kept w
      → content w (archive_path video_id) ≡ some c
      → Kept (b.remove_object (raw_path video_id) w).1
  remove-Kept w kept there =
      let stays =
        laws.content-remove_ne (raw_path video_id) (archive_path video_id) w
          (λ e. archive-ne-raw video_id (sym e)) in
      elim (laws.content-remove_any (raw_path video_id) w) [
        | inl gone ↦ inr (gone, stays ∙ there)
        | inr same ↦ same-Kept same stays kept
      ]

  move_raw-Kept : (w : World) → Kept w → Kept (move_raw b video_id w).1
  unfolding move_raw remove_copied
  move_raw-Kept w kept =
      let r = b.copy_object (archive_path video_id) (raw_path video_id) w in
      elim (Option-cases r.0) [
        | inl fine ↦ rw fine (remove-Kept r.1 (copy-Kept w kept) (copied-archive w kept fine))
        | inr (x, failure) ↦ rw failure (copy-Kept w kept)
      ]

  own-Kept : (w : World) → Kept w → Kept (archive_raw_video b video_id w).1
  unfolding archive_raw_video execute guarded
  own-Kept w kept =
      let asked = b.refuses w in
      let first = same-Kept (laws.content-refuses _ w) (laws.content-refuses _ w) kept in
      elim (Option-cases asked.0) [
        | inr (x, e) ↦ rw e first
        | inl e ↦
            let t = (move_raw b video_id asked.1).1 in
            rw e (
              same-Kept (laws.content-settle _ _ t) (laws.content-settle _ _ t)
                (move_raw-Kept asked.1 first))
      ]

  -- Archiving any raw video keeps this one.
  pub archive_raw_video-Kept :
      (other : String) (w : World) → Kept w → Kept (archive_raw_video b other w).1
  archive_raw_video-Kept other w kept = elim (String-cases other video_id) [
    | inl e ↦ subst (λ x. Kept (archive_raw_video b x w).1) (sym e) (own-Kept w kept)
    | inr n ↦
        let a = archive_raw_video-Archives b laws other w in
        same-Kept (a.others _ (archive-ne-other_raw other video_id) (λ e. n (raw_path_inj _ _ e)))
          (a.others _ (λ e. n (archive_path_inj _ _ e))
            (λ e. archive-ne-other_raw video_id other (sym e)))
          kept
  ]
