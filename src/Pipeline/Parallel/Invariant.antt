-- ===== src/Pipeline/Parallel/Invariant.antt =====
-- What holds in every state that the goroutines can reach.
use video_processor_go.Base.{
  ◌<◌, ◌⊎◌, inl, inr, Bool-cases, ◌==◌, ℕ, ◌+◌, ◌≤◌, String, true, false, Option, none, some, Error,
  if◌then◌else◌, ◌≡◌, arith, refl, sym, ap, ◌∙◌, subst,
}
use video_processor_go.Pipeline.Result.{ProcessingResult}
use video_processor_go.Pipeline.Parallel.Run.{
  Task, thumbnails, audio, preview, streaming, number, Pc, unborn, waiting, running, succeeded,
  writing, written, leaving, released, finished, Run, start, update, advance_at, advance, spawn,
  advance_caller, set_path, Step, of_task, of_caller, Steps, none_yet, next,
}
use video_processor_go.Pipeline.Parallel.Counts.{
  holds, owns, alive, born, has_written, steps_left, total, gathered, AllBorn, total-update,
  le-total, AllBorn-update, number-lt, unborn_at, AllBorn-spawn, gathered-update, gathered-write,
  bit,
}

module _ (limit : ℕ) (paths : Task → String) (r : ProcessingResult) where
  pub record Inv (s : Run) : Type 0 where
    pub spawned : s.spawned ≤ 4
    pub births : AllBorn s.spawned s.pc
    pub permits : s.held ≡ total holds s.pc
    pub within : s.held ≤ limit
    pub mutex : total owns s.pc ≡ (if s.locked then 1 else 0)
    pub counter : s.counter ≡ total alive s.pc
    pub result : s.result ≡ gathered paths s.pc r
    pub over : s.returned ≡ true → (s.spawned ≡ 4) × (s.counter ≡ 0)

  pub Inv-start : Inv (start r)
  Inv-start = ground arith

  -- What a goroutine's operation changes of the shared objects.
  pub record Moved (i : Task) (p q : Pc) (s t : Run) : Type 0 where
    pub here : s.pc i ≡ p
    pub there : t.pc ≡ update s.pc i q
    living : alive p ≡ 1
    pub fewer : steps_left q < steps_left p
    births : (born p ≡ true) × (born q ≡ true)
    pub caller : (t.spawned ≡ s.spawned) × (t.returned ≡ s.returned)
    permits : t.held + holds p ≡ s.held + holds q
    within : t.held ≤ limit
    mutex : bit t.locked + owns p ≡ bit s.locked + owns q
    counter : t.counter + alive p ≡ s.counter + alive q
    result : t.result ≡ gathered paths (update s.pc i q) r

  Moved-Inv : (i : Task) {p q : Pc} {s t : Run} → Moved i p q s t → Inv s → Inv t
  Moved-Inv i {p} {q} {s} {t} m inv = record {
    spawned = omega (arith, m.caller.0, inv.spawned);
    births =
        rw (m.there, m.caller.0)
          (AllBorn-update s.spawned s.pc i q (ap born m.here ∙ m.births.0) m.births.1 inv.births);
    permits =
        rw m.there
          (omega (arith, total-update holds s.pc i q, ap holds m.here, m.permits, inv.permits));
    within = m.within;
    mutex =
        rw m.there (omega (arith, total-update owns s.pc i q, ap owns m.here, m.mutex, inv.mutex));
    counter =
        rw m.there
          (omega (arith, total-update alive s.pc i q, ap alive m.here, m.counter, inv.counter));
    result = m.result ∙ ap (λ pc. gathered paths pc r) (sym m.there);
    over = λ e.
        let o = inv.over (sym m.caller.1 ∙ e) in
        absurd (omega (arith, o, le-total alive s.pc i, ap alive m.here, m.living, inv.counter));
  }

  -- The result is gathered as before where an operation writes no path.
  kept :
      (i : Task) (q : Pc) {p : Pc} {s : Run}
      → s.pc i ≡ p
      → has_written q ≡ has_written p
      → Inv s
      → s.result ≡ gathered paths (update s.pc i q) r
  kept i q {p} {s} e w inv =
      inv.result ∙ sym (gathered-update paths r s.pc i q (w ∙ ap has_written (sym e)))

  wrote :
      (i : Task) {s : Run}
      → Inv s
      → set_path paths i s.result ≡ gathered paths (update s.pc i written) r
  wrote i {s} inv = ap (set_path paths i) inv.result ∙ sym (gathered-write paths r s.pc i)

  advance_at-Moved :
      (i : Task) (outcome : Option Error) (p : Pc) {s t : Run}
      → s.pc i ≡ p
      → advance_at limit paths i outcome p s ≡ some t
      → Inv s
      → (q : Pc) × Moved i p q s t
  unfolding advance_at
  advance_at-Moved i outcome unborn e h inv = cc
  advance_at-Moved i outcome waiting e h inv =
      (running, ground (arith, inv.within, kept i (running) e refl inv))
  advance_at-Moved i none running e h inv =
      (succeeded, ground (arith, inv.within, kept i (succeeded) e refl inv))
  advance_at-Moved i (some x) running e h inv =
      (leaving (some x), ground (arith, inv.within, kept i (leaving (some x)) e refl inv))
  advance_at-Moved i outcome succeeded e h inv =
      (writing, ground (arith, inv.within, kept i (writing) e refl inv))
  advance_at-Moved i outcome writing {s} e h inv =
      (written, ground (arith, inv.within, wrote i inv))
  advance_at-Moved i outcome written e h inv =
      (leaving none, ground (arith, inv.within, kept i (leaving none) e refl inv))
  advance_at-Moved i outcome (leaving none) e h inv =
      (released none, ground (arith, inv.within, kept i (released none) e refl inv))
  advance_at-Moved i outcome (leaving (some x)) e h inv =
      (released (some x), ground (arith, inv.within, kept i (released (some x)) e refl inv))
  advance_at-Moved i outcome (released none) e h inv =
      (finished none, ground (arith, inv.within, kept i (finished none) e refl inv))
  advance_at-Moved i outcome (released (some x)) e h inv =
      (finished (some x), ground (arith, inv.within, kept i (finished (some x)) e refl inv))
  advance_at-Moved i outcome (finished x) e h inv = cc

  pub advance-Moved :
      (i : Task) (outcome : Option Error) {s t : Run}
      → advance limit paths i outcome s ≡ some t
      → Inv s
      → (q : Pc) × Moved i (s.pc i) q s t
  unfolding advance
  advance-Moved i outcome {s} h inv = advance_at-Moved i outcome (s.pc i) refl h inv

  advance-Inv :
      (i : Task) (outcome : Option Error) {s t : Run}
      → advance limit paths i outcome s ≡ some t
      → Inv s
      → Inv t
  advance-Inv i outcome {s} h inv =
      let (q, m) = advance-Moved i outcome {s = s} h inv in Moved-Inv i m inv

  pub caller_cases :
      {s t : Run}
      → advance_caller limit paths s ≡ some t
      → ((i : Task) × (s.spawned ≡ number i) × (t ≡ spawn limit paths i s))
        ⊎ ((4 ≤ s.spawned)
            × (s.counter ≡ 0)
            × (s.returned ≡ false)
            × (t ≡ record s { returned = true }))
  unfolding advance_caller
  caller_cases {s} h = elim (Bool-cases (s.spawned == 0)) [
    | inl e0 ↦ inl (thumbnails, ground arith, ground arith)
    | inr n0 ↦ elim (Bool-cases (s.spawned == 1)) [
      | inl e1 ↦ inl (audio, ground arith, ground arith)
      | inr n1 ↦ elim (Bool-cases (s.spawned == 2)) [
        | inl e2 ↦ inl (preview, ground arith, ground arith)
        | inr n2 ↦ elim (Bool-cases (s.spawned == 3)) [
          | inl e3 ↦ inl (streaming, ground arith, ground arith)
          | inr n3 ↦ inr (ground arith, ground arith, ground arith, ground arith)
        ]
      ]
    ]
  ]

  spawn-Inv : (i : Task) {s : Run} → s.spawned ≡ number i → Inv s → Inv (spawn limit paths i s)
  spawn-Inv i {s} e inv =
      let here = unborn_at s.pc i e inv.births in
      record {
        spawned = omega (arith, number-lt i);
        births = AllBorn-spawn s.pc i e inv.births;
        permits = omega (arith, total-update holds s.pc i waiting, ap holds here, inv.permits);
        within = inv.within;
        mutex = omega (arith, total-update owns s.pc i waiting, ap owns here, inv.mutex);
        counter = omega (arith, total-update alive s.pc i waiting, ap alive here, inv.counter);
        result = kept i waiting here refl inv;
        over = λ x. absurd (omega (arith, inv.over x, number-lt i));
      }

  caller-Inv : {s t : Run} → advance_caller limit paths s ≡ some t → Inv s → Inv t
  unfolding advance_caller
  caller-Inv {s} {t} h inv = elim (caller_cases {s = s} {t = t} h) [
    | inl (i, e, eq) ↦ subst Inv (sym eq) (spawn-Inv i e inv)
    | inr (full, over, on, eq) ↦ subst Inv (sym eq) (record {
      spawned = inv.spawned;
      births = inv.births;
      permits = inv.permits;
      within = inv.within;
      mutex = inv.mutex;
      counter = inv.counter;
      result = inv.result;
      over = λ x. (omega (arith, full, inv.spawned), over);
    })
  ]

  pub Step-Inv : {s t : Run} → Step limit paths s t → Inv s → Inv t
  Step-Inv (of_task i outcome e) inv = advance-Inv i outcome e inv
  Step-Inv (of_caller e) inv = caller-Inv e inv

  -- After any number of operations in any order, whatever the steps return: a permit is held for
  -- each goroutine between its two operations on the semaphore, and never more than the limit; the
  -- mutex is locked exactly if one goroutine stands between Lock and Unlock, and no two do; the
  -- wait group counts the goroutines that were started and are not done; the result has the path of
  -- each step whose goroutine has written it and is else as it was; and the caller has returned only
  -- if all four were started and are done.
  pub Steps-Inv : {n : ℕ} {s : Run} → Steps limit paths r n s → Inv s
  Steps-Inv none_yet = Inv-start
  Steps-Inv (next h st) = Step-Inv st (Steps-Inv h)
