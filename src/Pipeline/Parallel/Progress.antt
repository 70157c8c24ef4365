-- ===== src/Pipeline/Parallel/Progress.antt =====
-- The goroutines never block one another for good, they end, and what they leave.
use video_processor_go.Base.{
  ℕ, ◌+◌, ◌-◌, ◌≤◌, ◌<◌, ℤ, String, Bool, true, false, Option, none, some, Error, ltb,
  if◌then◌else◌, ◌≡◌, ◌⊎◌, inl, inr, ◌==◌, arith, refl, ap, ◌∙◌, Bool-cases,
}
use video_processor_go.Pipeline.Result.{ProcessingResult}
use video_processor_go.Pipeline.Parallel.Run.{
  permits, Task, thumbnails, audio, preview, streaming, Pc, unborn, waiting, running, succeeded,
  writing, written, leaving, released, finished, Run, update, advance_at, advance, advance_caller,
  spawn, Step, of_task, of_caller, Steps, none_yet, next,
}
use video_processor_go.Pipeline.Parallel.Counts.{
  bit, holds, owns, alive, total, le-total, steps_left, total-update, unborn_at,
}
use video_processor_go.Pipeline.Parallel.Invariant.{advance-Moved, Inv, Steps-Inv, caller_cases}

abbrev pub measure : Run → ℕ
measure s = total steps_left s.pc + (if s.returned then 0 else 1)

unlocked : (b : Bool) → bit b ≡ 0 → b ≡ false
unlocked true h = absurd (omega arith)
unlocked false h = refl

positive : {n : ℕ} → 1 ≤ n → ltb 0 n ≡ true
positive h = ground arith

module _ (limit : ℕ) (paths : Task → String) (r : ProcessingResult) where
  Step-measure : {s t : Run} → Inv limit paths r s → Step limit paths s t → measure t < measure s
  Step-measure {s} {t} inv (of_task i outcome e) =
      let (q, m) = advance-Moved limit paths r i outcome {s = s} {t = t} e inv in
      let fewer : total steps_left t.pc < total steps_left s.pc =
        rw m.there (omega (arith, total-update steps_left s.pc i q, m.fewer)) in
      rw m.caller.1 (omega (arith, fewer))
  Step-measure {s} {t} inv (of_caller e) = elim (caller_cases limit paths r {s = s} {t = t} e) [
    | inl (i, at, eq) ↦ rw eq (
        omega (
          arith,
          total-update steps_left s.pc i waiting,
          ap steps_left (unborn_at s.pc i at inv.births),
        ))
    | inr (full, over, on, eq) ↦ rw eq (ground (arith, on))
  ]

  -- Whatever the order and the outcomes, the goroutines and their caller do at most 33 operations.
  pub Steps-bound : {n : ℕ} {s : Run} → Steps limit paths r n s → n + measure s ≤ 33
  Steps-bound none_yet = omega arith
  Steps-bound (next h st) =
      omega (arith, Steps-bound h, Step-measure (Steps-Inv limit paths r h) st)

  -- Why no operation of a goroutine is open, told by what it holds.
  record Stuck (s : Run) (p : Pc) : Type 0 where
    owner : owns p ≡ 0
    holder : s.locked ≡ false → holds p ≡ 0
    over : s.locked ≡ false → s.held < limit → alive p ≡ 0

  taken :
      (i : Task) (outcome : Option Error) {p : Pc} {s t : Run}
      → s.pc i ≡ p
      → advance_at limit paths i outcome p s ≡ some t
      → ((u : Run) × Step limit paths s u) ⊎ Stuck s p
  unfolding advance
  taken i outcome {p} {s} {t} e h =
      inl (t, of_task i outcome (ap (λ q. advance_at limit paths i outcome q s) e ∙ h))

  able :
      (i : Task) (p : Pc) {s : Run}
      → s.pc i ≡ p
      → Inv limit paths r s
      → ((t : Run) × Step limit paths s t) ⊎ Stuck s p
  unfolding advance_at
  able i unborn e inv = inr (ground arith)
  able i waiting {s} e inv = elim (Bool-cases (ltb s.held limit)) [
    | inl free ↦
        taken i none {s = s} {t = record s { held = s.held + 1; pc = update s.pc i running }} e
          (rw free refl)
    | inr full ↦ inr (record { owner = refl; holder = λ u. refl; over = λ u lt. ground arith })
  ]
  able i running {s} e inv = taken i none {s = s} e refl
  able i succeeded {s} e inv = elim (Bool-cases s.locked) [
    | inl shut ↦ inr (record { owner = refl; holder = λ u. cc; over = λ u lt. cc })
    | inr free ↦
        taken i none {s = s} {t = record s { locked = true; pc = update s.pc i writing }} e
          (rw free refl)
  ]
  able i writing {s} e inv = taken i none {s = s} e refl
  able i written {s} e inv = taken i none {s = s} e refl
  able i (leaving x) {s} e inv =
      let held : ltb 0 s.held ≡ true =
        positive (omega (arith, le-total holds s.pc i, ap holds e, inv.permits)) in
      taken i none {s = s} {t = record s { held = s.held - 1; pc = update s.pc i (released x) }} e
        (rw held refl)
  able i (released x) {s} e inv =
      let counted : ltb 0 s.counter ≡ true =
        positive (omega (arith, le-total alive s.pc i, ap alive e, inv.counter)) in
      taken i none {s = s}
        {t = record s { counter = s.counter - 1; pc = update s.pc i (finished x) }} e
        (rw counted refl)
  able i (finished x) e inv = inr (ground arith)

  caller-Step :
      {s : Run}
      → Inv limit paths r s
      → s.returned ≡ false
      → s.counter ≡ 0
      → (t : Run) × Step limit paths s t
  unfolding advance_caller
  caller-Step {s} inv on none_left = elim (Bool-cases (s.spawned == 0)) [
    | inl e0 ↦ (spawn limit paths thumbnails s, of_caller (ground arith))
    | inr n0 ↦ elim (Bool-cases (s.spawned == 1)) [
      | inl e1 ↦ (spawn limit paths audio s, of_caller (ground arith))
      | inr n1 ↦ elim (Bool-cases (s.spawned == 2)) [
        | inl e2 ↦ (spawn limit paths preview s, of_caller (ground arith))
        | inr n2 ↦ elim (Bool-cases (s.spawned == 3)) [
          | inl e3 ↦ (spawn limit paths streaming s, of_caller (ground arith))
          | inr n3 ↦ (record s { returned = true }, of_caller (ground arith))
        ]
      ]
    ]
  ]

  all-Stuck :
      {s : Run}
      → 1 ≤ limit
      → Inv limit paths r s
      → s.returned ≡ false
      → Stuck s (s.pc thumbnails)
      → Stuck s (s.pc audio)
      → Stuck s (s.pc preview)
      → Stuck s (s.pc streaming)
      → (t : Run) × Step limit paths s t
  all-Stuck {s} least inv on k0 k1 k2 k3 =
      let free : s.locked ≡ false =
        unlocked s.locked (omega (arith, k0.owner, k1.owner, k2.owner, k3.owner, inv.mutex)) in
      let none_held : s.held ≡ 0 =
        omega
          (arith, k0.holder free, k1.holder free, k2.holder free, k3.holder free, inv.permits) in
      let room : s.held < limit = omega arith in
      caller-Step inv on (
        omega (
          arith,
          k0.over free room,
          k1.over free room,
          k2.over free room,
          k3.over free room,
          inv.counter,
        ))

  pub Steps-Step :
      {n : ℕ} {s : Run}
      → 1 ≤ limit
      → Steps limit paths r n s
      → s.returned ≡ false
      → (t : Run) × Step limit paths s t
  Steps-Step {n} {s} least h on =
      let inv = Steps-Inv limit paths r h in
      elim (able thumbnails (s.pc thumbnails) {s = s} refl inv) [
        | inl go ↦ go
        | inr k0 ↦ elim (able audio (s.pc audio) {s = s} refl inv) [
          | inl go ↦ go
          | inr k1 ↦ elim (able preview (s.pc preview) {s = s} refl inv) [
            | inl go ↦ go
            | inr k2 ↦ elim (able streaming (s.pc streaming) {s = s} refl inv) [
              | inl go ↦ go
              | inr k3 ↦ all-Stuck least inv on k0 k1 k2 k3
            ]
          ]
        ]
      ]

pub permits_bounds : (n : ℤ) → (1 ≤ permits n) × (permits n ≤ 4)
unfolding permits
permits_bounds n = ground arith

-- No deadlock: whatever the setting of the number of permits, in every state that can be reached
-- before the caller has returned, some operation of a goroutine or of the caller is open.
pub parallel_goes_on :
    (max_parallel : ℤ) (paths : Task → String) (r : ProcessingResult) {n : ℕ} {s : Run}
    → Steps (permits max_parallel) paths r n s
    → s.returned ≡ false
    → (t : Run) × Step (permits max_parallel) paths s t
parallel_goes_on max_parallel paths r h on =
    Steps-Step (permits max_parallel) paths r (permits_bounds max_parallel).0 h on
