-- ===== src/Worker/Shutdown.antt =====
-- main.go: the workers of `main`, one step at a time, with the goroutines of their jobs, and the
-- shutdown.
pub mod Bound
pub mod Drain
use video_processor_go.Base.{
  ℕ, zero, suc, Bool, true, false, ◌&&◌, Option, none, some, List, [], ◌∷◌, if◌then◌else◌,
}

-- Where a worker is: at the select of its loop, in ConsumeMessage, at the select that waits for its
-- job, there with the job's error in `done`, or at the end of its goroutine (`wg.Done`).
pub data Place : Type 0 where
  at_select : Place
  consuming : Place
  awaiting : Place
  answered : Place
  stopped : Place

-- `detached` is the number of its unfinished job goroutines that it does not wait for: the worker has
-- returned to its loop, or the goroutine has sent to `done` and runs its deferred calls.
pub record Worker : Type 0 where
  pub place : Place
  pub detached : ℕ

-- Where `main` is: serving until the signal, waiting for the workers after it, or at its end, with all
-- workers shut down or after the timeout.
pub data Stage : Type 0 where
  serving : Stage
  draining : Stage
  drained : Stage
  forced : Stage

pub record Fleet : Type 0 where
  pub stage : Stage
  pub workers : List Worker

-- What a worker or a goroutine of its jobs does next: the worker looks at the context; ConsumeMessage
-- returns a message, or an error; the job sends to `done`; the worker takes what was sent; the context
-- of the job is done (canceled, or its budget is over); a goroutine comes to its end.
pub data Act : Type 0 where
  look : Act
  receive : Act
  miss : Act
  send : Act
  collect : Act
  give_up : Act
  end : Act

-- An event: a worker's act, by its position; the signal, with `cancel()`; `wg.Wait()` is over; or the
-- time is.
pub data Event : Type 0 where
  act : ℕ → Act → Event
  signal : Event
  complete : Event
  timeout : Event

abbrev pub move : Worker → Place → Worker
move w place = record w { place = place }

-- One goroutine fewer, if there is one.
unfoldable pub end_one : Place → ℕ → Option Worker
end_one place zero = none
end_one place (suc n) = some (record { place = place; detached = n })

abbrev pub detach : Worker → Place → Worker
detach w place = record { place = place; detached = suc w.detached }

-- What an act leads to, if the worker can do it at its place.
unfoldable pub act_at : Bool → Act → Place → Worker → Option Worker
unfolding end_one
act_at canceled look at_select w = some (move w (if canceled then stopped else consuming))
act_at canceled receive consuming w = some (move w awaiting)
act_at canceled miss consuming w = some (move w at_select)
act_at canceled send awaiting w = some (detach w answered)
act_at canceled collect answered w = some (move w at_select)
act_at canceled give_up awaiting w = some (detach w at_select)
act_at canceled give_up answered w = some (move w at_select)
act_at canceled end place w = end_one place w.detached
act_at canceled _ _ w = none

unfoldable pub act_in : Bool → Act → ℕ → List Worker → Option (List Worker)
act_in canceled a n [] = none
act_in canceled a zero (w ∷ ws) = elim (act_at canceled a w.place w) [
  | none ↦ none
  | some v ↦ some (v ∷ ws)
]
act_in canceled a (suc n) (w ∷ ws) = elim (act_in canceled a n ws) [
  | none ↦ none
  | some vs ↦ some (w ∷ vs)
]

unfoldable pub is_stopped : Place → Bool
is_stopped stopped = true
is_stopped _ = false

-- The counter of the wait group is 0.
unfoldable pub all_stopped : List Worker → Bool
all_stopped [] = true
all_stopped (w ∷ ws) = is_stopped w.place && all_stopped ws

unfoldable pub working : Stage → Bool → Option (List Worker) → Option Fleet
working stage canceled none = none
working stage canceled (some ws) = some (record { stage = stage; workers = ws })

-- After `main` has returned, nothing goes on.
unfoldable pub step_at : Stage → Event → Fleet → Option Fleet
step_at serving (act n a) s = working serving false (act_in false a n s.workers)
step_at serving signal s = some (record s { stage = draining })
step_at draining (act n a) s = working draining true (act_in true a n s.workers)
step_at draining complete s =
    if all_stopped s.workers then some (record s { stage = drained }) else none
step_at draining timeout s = some (record s { stage = forced })
step_at _ _ s = none

unfoldable pub step : Event → Fleet → Option Fleet
step e s = step_at s.stage e s

-- The events one after the other.
unfoldable pub run : List Event → Fleet → Option Fleet
run [] s = some s
run (e ∷ es) s = elim (step e s) [ none ↦ none | some t ↦ run es t ]

-- `for i := 0; i < numWorkers; i++`
unfoldable pub started : ℕ → List Worker
started zero = []
started (suc n) = record { place = at_select; detached = 0 } ∷ started n

abbrev pub fleet : ℕ → Fleet
fleet n = record { stage = serving; workers = started n }
