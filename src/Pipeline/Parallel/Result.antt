-- ===== src/Pipeline/Parallel/Result.antt =====
-- What the goroutines leave when the caller goes on, and that it is what the sequential run leaves.
use video_processor_go.Base.{
  ℕ, String, Bool, true, false, Option, none, some, Error, ◌≡◌, arith, refl, sym, ap, ◌∙◌, ltb,
}
use video_processor_go.Pipeline.Result.{ProcessingResult}
use video_processor_go.Pipeline.Host.{Host}
use video_processor_go.Pipeline.Media.{Media}
use video_processor_go.Pipeline.Process.{
  Options, thumbnails_step, audio_step, preview_step, streaming_step,
  run_non_critical_steps_sequential,
}
use video_processor_go.Pipeline.Outcomes.{
  recorded, path_after, run_non_critical_steps_sequential_all,
}
use video_processor_go.Pipeline.Parallel.Run.{
  Task, thumbnails, audio, preview, streaming, Pc, finished, Run, Steps,
}
use video_processor_go.Pipeline.Parallel.Counts.{alive, born, has_written, path_if, le-total}
use video_processor_go.Pipeline.Parallel.Invariant.{Inv, Steps-Inv}

-- What the step of a goroutine that is over returned.
abbrev pub outcome_of : Pc → Option Error
outcome_of (finished e) = e
outcome_of _ = none

done_of : (p : Pc) → born p ≡ true → alive p ≡ 0 → p ≡ finished (outcome_of p)
done_of (finished e) h k = refl
done_of _ h k = cc

path_if-finished :
    (o : Option Error) (own before : String)
    → path_if (has_written (finished o)) own before ≡ path_after o own before
path_if-finished none own before = refl
path_if-finished (some e) own before = refl

abbrev pub fails : Option Error → Bool
fails none = false
fails (some e) = true

path_after-fails :
    (o q : Option Error) (own before : String)
    → fails o ≡ fails q
    → path_after o own before ≡ path_after q own before
path_after-fails none none own before e = refl
path_after-fails none (some y) own before e = cc
path_after-fails (some x) none own before e = cc
path_after-fails (some x) (some y) own before e = refl

module _ (limit : ℕ) (paths : Task → String) (r : ProcessingResult) {n : ℕ} {s : Run}
    (h : Steps limit paths r n s) (over : s.returned ≡ true) where
  abbrev outcome : Task → Option Error
  outcome i = outcome_of (s.pc i)

  all_finished : (i : Task) → s.pc i ≡ finished (outcome i)
  all_finished i =
      done_of (s.pc i) (was_born i)
        (omega (arith, le-total alive s.pc i, inv.counter, (inv.over over).1))
    where
      inv : Inv limit paths r s
      inv = Steps-Inv limit paths r h

      was_born : (j : Task) → born (s.pc j) ≡ true
      was_born thumbnails = inv.births.0 ∙ ap (ltb 0) (inv.over over).0
      was_born audio = inv.births.1 ∙ ap (ltb 1) (inv.over over).0
      was_born preview = inv.births.2 ∙ ap (ltb 2) (inv.over over).0
      was_born streaming = inv.births.3 ∙ ap (ltb 3) (inv.over over).0

  left :
      (i : Task) (own before : String)
      → path_if (has_written (s.pc i)) own before ≡ path_after (outcome i) own before
  left i own before =
      ap (λ p. path_if (has_written p) own before) (all_finished i)
      ∙ path_if-finished (outcome i) own before

  -- When the caller goes on, each of the four goroutines is over, and the result has the path of
  -- each step that returned no error, keeps what it had for each other, and keeps its other fields,
  -- whatever the order of the operations was.
  pub returned-recorded :
      ((i : Task) → s.pc i ≡ finished (outcome i))
      × (s.result
          ≡ recorded
              (paths thumbnails)
              (paths audio)
              (paths preview)
              (paths streaming)
              (outcome thumbnails)
              (outcome audio)
              (outcome preview)
              (outcome streaming)
              r)
  returned-recorded = (
    all_finished,
    (Steps-Inv limit paths r h).result
        ∙ rw
            (
              left thumbnails (paths thumbnails) r.thumbnails_dir,
              left audio (paths audio) r.audio_path,
              left preview (paths preview) r.preview_path,
              left streaming (paths streaming) r.streaming_dir,
            )
            refl,
  )

-- Where the four steps put what they make (runNonCriticalStepsParallel).
abbrev pub step_paths : Host → String → Task → String
step_paths h temp_dir thumbnails = h.join_path temp_dir "thumbnails"
step_paths h temp_dir audio = h.join_path temp_dir "audio.mp3"
step_paths h temp_dir preview = h.join_path temp_dir "preview.mp4"
step_paths h temp_dir streaming = h.join_path temp_dir "streaming"

module _ (h : Host) (m : Media) (ctx : h.Context) (input_path transcoded_path temp_dir : String)
    (opts : Options) where
  -- The parallel run and the sequential run of the steps after the transcoding hand back the same
  -- result whenever each step returns in both an error or in both none, whatever the number of
  -- permits, the order of the goroutines' operations and the errors are.
  pub parallel-sequential :
      (limit : ℕ) (r : ProcessingResult) (w : h.World) {n : ℕ} {s : Run}
      → Steps limit (step_paths h temp_dir) r n s
      → s.returned ≡ true
      → let t = thumbnails_step h m ctx input_path transcoded_path temp_dir opts w in
        let a = audio_step h m ctx input_path transcoded_path temp_dir opts t.1 in
        let p = preview_step h m ctx input_path transcoded_path temp_dir opts a.1 in
        let v = streaming_step h m ctx input_path transcoded_path temp_dir opts p.1 in
        (fails (outcome_of (s.pc thumbnails)) ≡ fails t.0)
          × (fails (outcome_of (s.pc audio)) ≡ fails a.0)
          × (fails (outcome_of (s.pc preview)) ≡ fails p.0)
          × (fails (outcome_of (s.pc streaming)) ≡ fails v.0)
        → s.result
          ≡ (run_non_critical_steps_sequential h m ctx input_path transcoded_path temp_dir opts r
              w).0
  parallel-sequential limit r w {n} {s} steps over (e0, e1, e2, e3) =
      let (done, res) = returned-recorded limit (step_paths h temp_dir) r steps over in
      let t = thumbnails_step h m ctx input_path transcoded_path temp_dir opts w in
      let a = audio_step h m ctx input_path transcoded_path temp_dir opts t.1 in
      let p = preview_step h m ctx input_path transcoded_path temp_dir opts a.1 in
      let v = streaming_step h m ctx input_path transcoded_path temp_dir opts p.1 in
      res
      ∙ rw
          (
            path_after-fails (outcome_of (s.pc thumbnails)) t.0 _ _ e0,
            path_after-fails (outcome_of (s.pc audio)) a.0 _ _ e1,
            path_after-fails (outcome_of (s.pc preview)) p.0 _ _ e2,
            path_after-fails (outcome_of (s.pc streaming)) v.0 _ _ e3,
          )
          refl
      ∙ sym (
          ap (λ x. x.0)
            (run_non_critical_steps_sequential_all h m ctx input_path transcoded_path temp_dir opts
              r w))
