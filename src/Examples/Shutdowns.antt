-- ===== src/Examples/Shutdowns.antt =====
-- Two workers at a shutdown: one waits for a message and one for its job.
use video_processor_go.Base.{ℕ, ◌+◌, ◌*◌, ◌≤◌, some, List, [], ◌∷◌, ◌≡◌, refl, length}
use video_processor_go.Worker.Shutdown.{
  Place, Worker, Stage, Fleet, Act, Event, act_at, act_in, end_one, step, step_at, run, working,
  fleet, started,
}
use video_processor_go.Worker.Shutdown.Bound.{run_bound, taken, waiting, left}
use video_processor_go.Worker.Shutdown.Drain.{shutdown_drains, all_jobs}

abbrev two : List Worker
two =
    record { place = Place.consuming; detached = 0 }
    ∷ record { place = Place.awaiting; detached = 1 }
    ∷ []

-- Two workers that have started come to these places.
two_reached :
    run
      (Event.act 0 Act.look
        ∷ Event.act 1 Act.look
        ∷ Event.act 1 Act.receive
        ∷ Event.act 1 Act.send
        ∷ Event.act 1 Act.collect
        ∷ Event.act 1 Act.look
        ∷ Event.act 1 Act.receive
        ∷ [])
      (fleet 2)
    ≡ some (record { stage = Stage.serving; workers = two })
unfolding run step step_at working act_in act_at started
two_reached = refl

-- After the signal a worker may still get a message, and is not waited for by its job.
abbrev last_events : List Event
last_events =
    Event.act 0 Act.receive
    ∷ Event.act 1 Act.end
    ∷ Event.act 1 Act.give_up
    ∷ Event.act 1 Act.look
    ∷ Event.timeout
    ∷ []

abbrev at_end : Fleet
at_end = record {
  stage = Stage.forced;
  workers =
      record { place = Place.awaiting; detached = 0 }
      ∷ record { place = Place.stopped; detached = 1 }
      ∷ [];
}

run_bound_example :
    let s : Fleet = record { stage = Stage.draining; workers = two } in
    ((i : ℕ) → taken i last_events + waiting i at_end.workers ≤ waiting i two)
    × (length last_events + left at_end ≤ left s)
unfolding run step step_at working act_in act_at end_one
run_bound_example =
    run_bound last_events (record { stage = Stage.draining; workers = two }) at_end refl refl

shutdown_drains_example :
    (es : List Event) × (t : Fleet) × (run es (record { stage = Stage.serving; workers = two })
      ≡ some t)
    × (t.stage ≡ Stage.drained)
    × (all_jobs t.workers ≡ 0 ∷ 2 ∷ [])
    × (length es ≤ 2 * length two + 2)
shutdown_drains_example = shutdown_drains two
