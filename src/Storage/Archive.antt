-- ===== src/Storage/Archive.antt =====
-- ArchiveRawVideo of minio/client.go: no branch of it loses the raw video.
use Prim.Native.String.{len}
use text.Mathlib.TextPositions.{len-append}
use video_processor_go.Base.{
  String, Bool, Option, none, some, ◌≡◌, ◌≢◌, ◌⊎◌, ◌∙◌, inl, inr, refl, sym, ap, arith, Error,
  Option-cases, ◌⧺◌,
}
use video_processor_go.Storage.Bucket.{Bucket}
use video_processor_go.Storage.Laws.{BucketLaws}
use video_processor_go.Storage.Objects.{
  get_object_path, video_type_raw, video_type_raw_archived, execute, guarded, in_words,
  remove_copied, move_raw, archive_raw_video,
}

abbrev pub raw_path : String → String
raw_path video_id = get_object_path video_type_raw video_id

abbrev pub archive_path : String → String
archive_path video_id = get_object_path video_type_raw_archived video_id

pub archive-ne-raw : (video_id : String) → archive_path video_id ≢ raw_path video_id
unfolding get_object_path
archive-ne-raw video_id e =
    omega (
      arith,
      ap len e,
      len-append "raw-archived" ("/" ⧺ video_id),
      len-append "raw" ("/" ⧺ video_id),
    )

in_words-none :
    (prefix : String) (failure : Option Error) → in_words prefix failure ≡ none → failure ≡ none
unfolding in_words
in_words-none prefix none h = refl
in_words-none prefix (some e) h = cc

module _ {World : Type 0} (b : Bucket World) (laws : BucketLaws b) where
  open laws use {content}

  -- What a call that archives a video does, with its result, from one world to another.
  pub record Archives (video_id : String) (failure : Option Error) (w t : World) : Type 1 where
    pub others :
        (k : String) → archive_path video_id ≢ k → raw_path video_id ≢ k → content t k ≡ content w k
    -- The raw video still stands at its place, or it stands in the archive.
    pub kept :
        (content t (raw_path video_id) ≡ content w (raw_path video_id))
        ⊎ (content t (archive_path video_id) ≡ content w (raw_path video_id))
    pub moved :
        failure ≡ none
        → (content t (archive_path video_id) ≡ content w (raw_path video_id))
          × (content t (raw_path video_id) ≡ none)

  move_raw-Archives :
      (video_id : String) (w : World)
      → let (failure, t) = move_raw b video_id w in Archives video_id failure w t
  unfolding move_raw remove_copied in_words
  move_raw-Archives video_id w =
      let from = raw_path video_id in
      let to = archive_path video_id in
      let copied = b.copy_object to from w in
      let removed = b.remove_object from copied.1 in
      elim (Option-cases copied.0) [
        | inl e ↦
            let (c, was, came) = laws.content-copy_self to from w e in
            let stays =
              laws.content-remove_ne from to copied.1 (λ e. archive-ne-raw video_id (sym e))
              ∙ came
              ∙ sym was in
            rw e (record {
              others = λ k n m.
                  laws.content-remove_ne from k copied.1 m ∙ laws.content-copy_ne to from k w n;
              kept = inr stays;
              moved = λ h.
                  (stays, laws.content-remove_self from copied.1 (in_words-none _ removed.0 h));
            })
        | inr (x, e) ↦ rw e (record {
          others = λ k n m. laws.content-copy_ne to from k w n;
          kept = inl (laws.content-copy_ne to from from w (archive-ne-raw video_id));
          moved = λ h. cc;
        })
      ]

  -- Archiving a raw video, whatever calls fail and whether or not the circuit is open, never loses
  -- it: it still stands in raw/ or it stands in raw-archived/. Every other object stays as it was.
  -- If success is reported, the archive has what raw/ had, and raw/ has it no more.
  pub archive_raw_video-Archives :
      (video_id : String) (w : World)
      → let (failure, t) = archive_raw_video b video_id w in Archives video_id failure w t
  unfolding archive_raw_video execute guarded
  archive_raw_video-Archives video_id w =
      let asked = b.refuses w in
      let move = move_raw b video_id asked.1 in
      let q = move_raw-Archives video_id asked.1 in
      let before = λ (k : String). laws.content-refuses k w in
      let after = λ (success : Bool) (k : String). laws.content-settle success k move.1 in
      elim (Option-cases asked.0) [
        | inl e ↦ rw e (record {
          others = λ k n m. after _ k ∙ q.others k n m ∙ before k;
          kept = elim q.kept [
            | inl h ↦ inl (after _ _ ∙ h ∙ before _)
            | inr h ↦ inr (after _ _ ∙ h ∙ before _)
          ];
          moved = λ h.
              let (there, gone) = q.moved h in (after _ _ ∙ there ∙ before _, after _ _ ∙ gone);
        })
        | inr (x, e) ↦
            rw e (record { others = λ k n m. before k; kept = inl (before _); moved = λ h. cc })
      ]
