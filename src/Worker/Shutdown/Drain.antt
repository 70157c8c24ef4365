-- ===== src/Worker/Shutdown/Drain.antt =====
-- How a shutdown can go on (`main` of main.go): the workers stop, and no job need end.
use video_processor_go.Base.{
  ℕ, suc, true, ◌+◌, ◌*◌, ◌≤◌, some, List, [], ◌∷◌, ◌++◌, ◌≡◌, refl, ◌∙◌, ap, arith, length,
  Option-cases, inl, inr, some_inj,
}
use video_processor_go.Worker.Shutdown.{
  Place, Worker, Stage, Fleet, Act, Event, act_at, act_in, step, step_at, run, working, is_stopped,
  all_stopped,
}

-- The goroutines of a worker's jobs that have not come to their end, waited for or not.
abbrev pub jobs : Worker → ℕ
jobs w = elim w.place [ Place.awaiting ↦ suc w.detached | _ ↦ w.detached ]

abbrev pub all_jobs : List Worker → List ℕ
all_jobs [] = []
all_jobs (w ∷ ws) = jobs w ∷ all_jobs ws

-- A worker's own way to its end: ConsumeMessage returns, or the context of its job is done, and it
-- looks at the context.
abbrev way : Place → List Act
way Place.at_select = Act.look ∷ []
way Place.consuming = Act.miss ∷ Act.look ∷ []
way Place.awaiting = Act.give_up ∷ Act.look ∷ []
way Place.answered = Act.collect ∷ Act.look ∷ []
way Place.stopped = []

-- Acts of workers, as events; and the same acts where one more worker stands before.
abbrev acts : List (ℕ × Act) → List Event
acts [] = []
acts ((n, a) ∷ ps) = Event.act n a ∷ acts ps

abbrev later : List (ℕ × Act) → List (ℕ × Act)
later [] = []
later ((n, a) ∷ ps) = (suc n, a) ∷ later ps

abbrev first : List Act → List (ℕ × Act)
first [] = []
first (a ∷ l) = (0, a) ∷ first l

abbrev ways : List Worker → List (ℕ × Act)
ways [] = []
ways (w ∷ ws) = first (way w.place) ++ later (ways ws)

abbrev all_ended : List Worker → List Worker
all_ended [] = []
all_ended (w ∷ ws) = record { place = Place.stopped; detached = jobs w } ∷ all_ended ws

abbrev draining : List Worker → Fleet
draining ws = record { stage = Stage.draining; workers = ws }

run-append : (es fs : List Event) (s t : Fleet) → run es s ≡ some t → run (es ++ fs) s ≡ run fs t
unfolding run step
run-append [] fs s t h = ap (run fs) (some_inj h)
run-append (e ∷ es) fs s t h = elim (Option-cases (step_at s.stage e s)) [
  | inl stuck ↦ cc
  | inr (u, did) ↦
      let rest : run es u ≡ some t = ground (arith, h, did) in
      let same = run-append es fs u t rest in ground (arith, did, same)
]

acts-append : (ps qs : List (ℕ × Act)) → acts (ps ++ qs) ≡ acts ps ++ acts qs
acts-append [] qs = refl
acts-append (p ∷ ps) qs = ap (λ l. Event.act p.0 p.1 ∷ l) (acts-append ps qs)

run-later :
    (ps : List (ℕ × Act)) (w : Worker) (ws vs : List Worker)
    → run (acts ps) (draining ws) ≡ some (draining vs)
    → run (acts (later ps)) (draining (w ∷ ws)) ≡ some (draining (w ∷ vs))
unfolding run step step_at working act_in
run-later [] w ws vs h =
    let e = ap (λ (s : Fleet). s.workers) (some_inj h) in ap (λ l. some (draining (w ∷ l))) e
run-later ((n, a) ∷ ps) w ws vs h = elim (Option-cases (act_in true a n ws)) [
  | inl stuck ↦ cc
  | inr (us, did) ↦ rw did (run-later ps w us vs (ground (arith, h, did)))
]

run-first :
    (p : Place) (d : ℕ) (ws : List Worker)
    → run (acts (first (way p))) (draining (record { place = p; detached = d } ∷ ws))
      ≡ some (draining (all_ended (record { place = p; detached = d } ∷ []) ++ ws))
unfolding run step step_at working act_in act_at
run-first Place.at_select d ws = refl
run-first Place.consuming d ws = refl
run-first Place.awaiting d ws = refl
run-first Place.answered d ws = refl
run-first Place.stopped d ws = refl

run-ways : (ws : List Worker) → run (acts (ways ws)) (draining ws) ≡ some (draining (all_ended ws))
unfolding run
run-ways [] = refl
run-ways (w ∷ ws) = rw (acts-append (first (way w.place)) (later (ways ws))) (
    run-append _ (acts (later (ways ws))) (draining (w ∷ ws)) _ (run-first w.place w.detached ws)
    ∙ run-later (ways ws) _ ws (all_ended ws) (run-ways ws))

all_stopped-all_ended : (ws : List Worker) → all_stopped (all_ended ws) ≡ true
unfolding all_stopped is_stopped
all_stopped-all_ended [] = refl
all_stopped-all_ended (w ∷ ws) = all_stopped-all_ended ws

all_jobs-all_ended : (ws : List Worker) → all_jobs (all_ended ws) ≡ all_jobs ws
all_jobs-all_ended [] = refl
all_jobs-all_ended (w ∷ ws) = ap (λ l. jobs w ∷ l) (all_jobs-all_ended ws)

run-complete :
    (ws : List Worker)
    → run (Event.complete ∷ []) (draining (all_ended ws))
      ≡ some (record { stage = Stage.drained; workers = all_ended ws })
unfolding run step step_at
run-complete ws = ground (arith, all_stopped-all_ended ws)

length-way : (p : Place) → length (way p) ≤ 2
length-way p = ground arith

length-acts_append : (es fs : List Event) → length (es ++ fs) ≡ length es + length fs
length-acts_append [] fs = omega arith
length-acts_append (e ∷ es) fs = omega (arith, length-acts_append es fs)

length-first : (l : List Act) → length (acts (first l)) ≡ length l
length-first [] = refl
length-first (a ∷ l) = ap suc (length-first l)

length-later : (ps : List (ℕ × Act)) → length (acts (later ps)) ≡ length (acts ps)
length-later [] = refl
length-later (p ∷ ps) = ap suc (length-later ps)

length-ways : (ws : List Worker) → length (acts (ways ws)) ≤ 2 * length ws
length-ways [] = omega arith
length-ways (w ∷ ws) =
    let e = ap length (acts-append (first (way w.place)) (later (ways ws))) in
    omega (
      arith,
      e,
      length-acts_append (acts (first (way w.place))) (acts (later (ways ws))),
      length-first (way w.place),
      length-later (ways ws),
      length-way w.place,
      length-ways ws,
    )

-- Whatever the workers do when the signal comes, `main` can return with the message that all workers
-- shut down normally after at most two steps of each worker, and with no job's goroutine nearer to
-- its end: as many of each worker's are unfinished as before.
pub shutdown_drains :
    (ws : List Worker)
    → let s : Fleet = record { stage = Stage.serving; workers = ws } in
      (es : List Event) × (t : Fleet) × (run es s ≡ some t)
      × (t.stage ≡ Stage.drained)
      × (all_jobs t.workers ≡ all_jobs ws)
      × (length es ≤ 2 * length ws + 2)
unfolding run step step_at
shutdown_drains ws =
    let middle = acts (ways ws) in
    (
      Event.signal ∷ (middle ++ (Event.complete ∷ [])),
      record { stage = Stage.drained; workers = all_ended ws },
      run-append middle (Event.complete ∷ []) (draining ws) _ (run-ways ws) ∙ run-complete ws,
      refl,
      all_jobs-all_ended ws,
      omega (arith, length-acts_append middle (Event.complete ∷ []), length-ways ws),
    )
