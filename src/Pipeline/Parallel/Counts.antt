-- ===== src/Pipeline/Parallel/Counts.antt =====
-- Where the four goroutines stand, counted, and the paths that they have written.
use video_processor_go.Base.{
  ◌<◌, ℕ, ◌+◌, ◌≤◌, String, Bool, true, false, none, ltb, if◌then◌else◌, ◌≡◌, arith, refl, sym, ap,
  ◌∙◌,
}
use video_processor_go.Pipeline.Result.{ProcessingResult}
use video_processor_go.Pipeline.Parallel.Run.{
  Task, thumbnails, audio, preview, streaming, number, Pc, unborn, waiting, running, succeeded,
  writing, written, leaving, released, finished, update, set_path,
}

-- Between `sem <- struct{}{}` and `<-sem`.
abbrev pub holds : Pc → ℕ
holds unborn = 0
holds waiting = 0
holds (released e) = 0
holds (finished e) = 0
holds _ = 1

-- Between `mu.Lock()` and `mu.Unlock()`.
abbrev pub owns : Pc → ℕ
owns writing = 1
owns written = 1
owns _ = 0

-- Between `wg.Add(1)` and `wg.Done()`.
abbrev pub alive : Pc → ℕ
alive unborn = 0
alive (finished e) = 0
alive _ = 1

abbrev pub born : Pc → Bool
born unborn = false
born _ = true

-- `onSuccess` was called.
abbrev pub has_written : Pc → Bool
has_written written = true
has_written (leaving none) = true
has_written (released none) = true
has_written (finished none) = true
has_written _ = false

-- The operations that a goroutine has yet to do, at most.
abbrev pub steps_left : Pc → ℕ
steps_left unborn = 8
steps_left waiting = 7
steps_left running = 6
steps_left succeeded = 5
steps_left writing = 4
steps_left written = 3
steps_left (leaving e) = 2
steps_left (released e) = 1
steps_left (finished e) = 0

abbrev pub total : (Pc → ℕ) → (Task → Pc) → ℕ
total f pc = f (pc thumbnails) + f (pc audio) + f (pc preview) + f (pc streaming)

abbrev pub path_if : Bool → String → String → String
path_if b own before = if b then own else before

-- The result `r` with the paths of the steps that have written theirs.
abbrev pub gathered : (Task → String) → (Task → Pc) → ProcessingResult → ProcessingResult
gathered paths pc r = record r {
  thumbnails_dir = path_if (has_written (pc thumbnails)) (paths thumbnails) r.thumbnails_dir;
  audio_path = path_if (has_written (pc audio)) (paths audio) r.audio_path;
  preview_path = path_if (has_written (pc preview)) (paths preview) r.preview_path;
  streaming_dir = path_if (has_written (pc streaming)) (paths streaming) r.streaming_dir;
}

abbrev pub AllBorn : ℕ → (Task → Pc) → Type 0
AllBorn n pc =
    (born (pc thumbnails) ≡ ltb 0 n)
    × (born (pc audio) ≡ ltb 1 n)
    × (born (pc preview) ≡ ltb 2 n)
    × (born (pc streaming) ≡ ltb 3 n)

pub total-update :
    (f : Pc → ℕ) (pc : Task → Pc) (i : Task) (q : Pc)
    → total f (update pc i q) + f (pc i) ≡ total f pc + f q
total-update f pc thumbnails q = omega arith
total-update f pc audio q = omega arith
total-update f pc preview q = omega arith
total-update f pc streaming q = omega arith

pub le-total : (f : Pc → ℕ) (pc : Task → Pc) (i : Task) → f (pc i) ≤ total f pc
le-total f pc thumbnails = omega arith
le-total f pc audio = omega arith
le-total f pc preview = omega arith
le-total f pc streaming = omega arith

pub AllBorn-update :
    (n : ℕ) (pc : Task → Pc) (i : Task) (q : Pc)
    → born (pc i) ≡ true
    → born q ≡ true
    → AllBorn n pc
    → AllBorn n (update pc i q)
AllBorn-update n pc thumbnails q e h a = (h ∙ sym e ∙ a.0, a.1, a.2, a.3)
AllBorn-update n pc audio q e h a = (a.0, h ∙ sym e ∙ a.1, a.2, a.3)
AllBorn-update n pc preview q e h a = (a.0, a.1, h ∙ sym e ∙ a.2, a.3)
AllBorn-update n pc streaming q e h a = (a.0, a.1, a.2, h ∙ sym e ∙ a.3)

pub number-lt : (i : Task) → number i < 4
number-lt thumbnails = omega arith
number-lt audio = omega arith
number-lt preview = omega arith
number-lt streaming = omega arith

pub not-born : (p : Pc) → born p ≡ false → p ≡ unborn
not-born unborn h = refl
not-born _ h = cc

pub unborn_at : (pc : Task → Pc) (i : Task) {n : ℕ} → n ≡ number i → AllBorn n pc → pc i ≡ unborn
unborn_at pc thumbnails e a = not-born _ (a.0 ∙ ap (ltb 0) e)
unborn_at pc audio e a = not-born _ (a.1 ∙ ap (ltb 1) e)
unborn_at pc preview e a = not-born _ (a.2 ∙ ap (ltb 2) e)
unborn_at pc streaming e a = not-born _ (a.3 ∙ ap (ltb 3) e)

pub AllBorn-spawn :
    (pc : Task → Pc) (i : Task) {n : ℕ}
    → n ≡ number i
    → AllBorn n pc
    → AllBorn (n + 1) (update pc i waiting)
AllBorn-spawn pc thumbnails e a = ground arith
AllBorn-spawn pc audio e a = ground arith
AllBorn-spawn pc preview e a = ground arith
AllBorn-spawn pc streaming e a = ground arith

module _ (paths : Task → String) (r : ProcessingResult) where
  pub gathered-update :
      (pc : Task → Pc) (i : Task) (q : Pc)
      → has_written q ≡ has_written (pc i)
      → gathered paths (update pc i q) r ≡ gathered paths pc r
  gathered-update pc thumbnails q e = rw e refl
  gathered-update pc audio q e = rw e refl
  gathered-update pc preview q e = rw e refl
  gathered-update pc streaming q e = rw e refl

  pub gathered-write :
      (pc : Task → Pc) (i : Task)
      → gathered paths (update pc i written) r ≡ set_path paths i (gathered paths pc r)
  unfolding set_path
  gathered-write pc thumbnails = refl
  gathered-write pc audio = refl
  gathered-write pc preview = refl
  gathered-write pc streaming = refl

abbrev pub bit : Bool → ℕ
bit b = if b then 1 else 0
