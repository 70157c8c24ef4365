-- ===== src/Worker/Shutdown/Bound.antt =====
-- What can still happen after the signal (`main` of main.go).
use video_processor_go.Base.{
  ℕ, zero, suc, Bool, true, false, ◌+◌, ◌≤◌, ◌<◌, some, List, [], ◌∷◌, ◌≡◌, inl, inr, refl, arith,
  length, Option-cases, Bool-cases, some_inj, ap, sym,
}
use video_processor_go.Worker.Shutdown.{
  Place, Worker, Stage, Fleet, Act, Event, act_at, act_in, end_one, step, step_at, run, working,
  all_stopped,
}

-- How many steps are left at most in a worker and its goroutines.
abbrev pub place_weight : Place → ℕ
place_weight Place.stopped = 0
place_weight Place.at_select = 1
place_weight Place.answered = 2
place_weight Place.awaiting = 4
place_weight Place.consuming = 5

abbrev pub weight : Worker → ℕ
weight w = place_weight w.place + w.detached

abbrev pub total : List Worker → ℕ
total [] = 0
total (w ∷ ws) = weight w + total ws

end_one-weight :
    (p : Place) (n : ℕ) (v : Worker) → end_one p n ≡ some v → (v.place ≡ p) × (suc v.detached ≡ n)
unfolding end_one
end_one-weight p zero v e = cc
end_one-weight p (suc n) v e =
    let k = some_inj e in (sym (ap (λ x. x.place) k), ap suc (sym (ap (λ x. x.detached) k)))

-- A worker that waits for a message, and an act that gives it one.
abbrev pub waiting_at : Place → ℕ
waiting_at Place.consuming = 1
waiting_at _ = 0

abbrev pub takes : Act → ℕ
takes Act.receive = 1
takes _ = 0

-- After the signal an act makes a worker's weight less, and a message is only taken by a worker that
-- waited for one.
place-weight :
    (a : Act) (p : Place) (w v : Worker)
    → act_at true a p w ≡ some v
    → (place_weight v.place + v.detached < place_weight p + w.detached)
      × (takes a + waiting_at v.place ≤ waiting_at p)
unfolding act_at
place-weight Act.look p w v e = (ground arith, ground arith)
place-weight Act.receive p w v e = (ground arith, ground arith)
place-weight Act.miss p w v e = (ground arith, ground arith)
place-weight Act.send p w v e = (ground arith, ground arith)
place-weight Act.collect p w v e = (ground arith, ground arith)
place-weight Act.give_up p w v e = (ground arith, ground arith)
place-weight Act.end p w v e =
    let (same, fewer) = end_one-weight p w.detached v e in
    (ground (arith, same, fewer), ground (arith, same))

-- 1 if the worker at a position waits for a message, and 0 if not.
abbrev pub waiting : ℕ → List Worker → ℕ
waiting i [] = 0
waiting zero (w ∷ ws) = waiting_at w.place
waiting (suc i) (w ∷ ws) = waiting i ws

-- The messages that the worker at position `i` takes where the one at `n` acts.
abbrev pub takes_at : ℕ → ℕ → Act → ℕ
takes_at zero zero a = takes a
takes_at (suc i) (suc n) a = takes_at i n a
takes_at _ _ a = 0

waiting-head :
    (a : Act) (v w : Worker) (ws : List Worker)
    → takes a + waiting_at v.place ≤ waiting_at w.place
    → (i : ℕ) → takes_at i zero a + waiting i (v ∷ ws) ≤ waiting i (w ∷ ws)
waiting-head a v w ws h zero = h
waiting-head a v w ws h (suc i) = omega arith

waiting-tail :
    (a : Act) (n : ℕ) (w : Worker) (us ws : List Worker)
    → ((i : ℕ) → takes_at i n a + waiting i us ≤ waiting i ws)
    → (i : ℕ) → takes_at i (suc n) a + waiting i (w ∷ us) ≤ waiting i (w ∷ ws)
waiting-tail a n w us ws h zero = omega arith
waiting-tail a n w us ws h (suc i) = h i

act_in-total :
    (a : Act) (n : ℕ) (ws vs : List Worker)
    → act_in true a n ws ≡ some vs
    → (total vs < total ws) × ((i : ℕ) → takes_at i n a + waiting i vs ≤ waiting i ws)
unfolding act_in
act_in-total a n [] vs e = cc
act_in-total a zero (w ∷ ws) vs e = elim (Option-cases (act_at true a w.place w)) [
  | inl none_left ↦ cc
  | inr (v, did) ↦
      let same : v ∷ ws ≡ vs = ground (arith, e, did) in
      let (less, few) = place-weight a w.place w v did in
      let h = ap total same in (omega arith, λ i. rw (← same) (waiting-head a v w ws few i))
]
act_in-total a (suc n) (w ∷ ws) vs e = elim (Option-cases (act_in true a n ws)) [
  | inl none_left ↦ cc
  | inr (us, did) ↦
      let same : w ∷ us ≡ vs = ground (arith, e, did) in
      let (less, few) = act_in-total a n ws us did in
      let h = ap total same in (omega arith, λ i. rw (← same) (waiting-tail a n w us ws few i))
]

-- After the signal, `main` has one more step at most.
abbrev pub stage_weight : Stage → ℕ
stage_weight Stage.draining = 1
stage_weight _ = 0

abbrev pub left : Fleet → ℕ
left s = stage_weight s.stage + total s.workers

-- The signal has come.
abbrev pub signaled : Stage → Bool
signaled Stage.serving = false
signaled _ = true

-- The messages that the worker at position `i` takes.
abbrev pub takes_in : ℕ → Event → ℕ
takes_in i (Event.act n a) = takes_at i n a
takes_in i _ = 0

abbrev pub taken : ℕ → List Event → ℕ
taken i [] = 0
taken i (e ∷ es) = takes_in i e + taken i es

abbrev Goes : Event → Stage → List Worker → Fleet → Type 0
Goes e stage ws t =
    (signaled t.stage ≡ true)
    × (left t < stage_weight stage + total ws)
    × ((i : ℕ) → takes_in i e + waiting i t.workers ≤ waiting i ws)

step-Goes :
    (e : Event) (stage : Stage) (ws : List Worker) (t : Fleet)
    → signaled stage ≡ true
    → step_at stage e (record { stage = stage; workers = ws }) ≡ some t
    → Goes e stage ws t
unfolding step_at working
step-Goes e Stage.serving ws t n h = cc
step-Goes e Stage.drained ws t n h = cc
step-Goes e Stage.forced ws t n h = cc
step-Goes Event.signal Stage.draining ws t n h = cc
step-Goes Event.timeout Stage.draining ws t n h =
    rw (← some_inj h) (refl, omega arith, λ i. omega arith)
step-Goes Event.complete Stage.draining ws t n h = elim (Bool-cases (all_stopped ws)) [
  | inr some_work ↦ cc
  | inl over ↦
      let same : record { stage = Stage.drained; workers = ws } ≡ t = ground (arith, h, over) in
      rw (← same) (refl, omega arith, λ i. omega arith)
]
step-Goes (Event.act n a) Stage.draining ws t sig h = elim (Option-cases (act_in true a n ws)) [
  | inl stuck ↦ cc
  | inr (vs, did) ↦
      let same : record { stage = Stage.draining; workers = vs } ≡ t = ground (arith, h, did) in
      let (less, few) = act_in-total a n ws vs did in rw (← same) (refl, omega arith, few)
]

-- From the signal on, whatever happens in whatever order: each worker that was not waiting for a
-- message takes no further one, and each that was takes at most one; and there are no more events
-- than the weights of the workers and one for `main`, where a worker's weight is the number of
-- goroutines it does not wait for, and 5, 4, 2, 1 or 0 as it waits for a message, for its job, has
-- the job's error, is at the select of its loop, or is stopped.
pub run_bound :
    (es : List Event) (s t : Fleet)
    → signaled s.stage ≡ true
    → run es s ≡ some t
    → ((i : ℕ) → taken i es + waiting i t.workers ≤ waiting i s.workers)
      × (length es + left t ≤ left s)
unfolding run step
run_bound [] s t sig h = rw (← some_inj h) (λ i. omega arith, omega arith)
run_bound (e ∷ es) s t sig h = elim (Option-cases (step_at s.stage e s)) [
  | inl stuck ↦ cc
  | inr (u, did) ↦
      let (on, less, few) = step-Goes e s.stage s.workers u sig did in
      let rest : run es u ≡ some t = ground (arith, h, did) in
      let (k, l) = run_bound es u t on rest in (λ i. omega (arith, few i, k i), omega arith)
]
