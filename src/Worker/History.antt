-- ===== src/Worker/History.antt =====
-- Workers that are stopped, the recovery and the producer, in any order (main.go, queue/client.go,
-- queue/job.go).
use video_processor_go.Base.{Eff}
use video_processor_go.Base.{
  ℕ, String, List, [], ◌∷◌, ◌≡◌, ◌≢◌, sym, ◌∙◌, ap, ◌+◌, ◌≤◌, inl, inr, arith, count, erase, eq_iff,
  ℤ, Bool-cases, Result-cases, Option-cases, unix, unix_before,
}
use video_processor_go.Config.{Config}
use video_processor_go.Backend.{Backend}
use video_processor_go.Backend.Laws.{BackendLaws, IsReachable}
use video_processor_go.Backend.Crash.{crashing, crash_laws}
use video_processor_go.Queue.State.{
  JobState, processing_queue_name, blank_state, job_status_pending,
}
use video_processor_go.Queue.Job.{publish_job, get_job_state, set_job_state}
use video_processor_go.Queue.Client.{
  is_stuck, rescue, recovered_state, recover_job, recover_jobs, recover_stuck_jobs,
}
use video_processor_go.Queue.View.{get_job_state-OnlyJob, set_job_state-OnlyJob}
use video_processor_go.Queue.Reachable.{set_job_state_ok}
use video_processor_go.Queue.Rescue.{rescue-IsRecovered}
use video_processor_go.Pipeline.Host.{Host}
use video_processor_go.Pipeline.Media.{Media}
use video_processor_go.Storage.Bucket.{Bucket}
use video_processor_go.Pipeline.Result.{ProcessingResult}
use video_processor_go.Worker.Round.{processed_id_of, process_next_message}
use video_processor_go.Worker.Refinement.{process_next_message-QueueRound}
use video_processor_go.Worker.Keeps.{Keeps, OnlyJob-Keeps, same-Keeps, Keeps-trans, lpush-Keeps}
use video_processor_go.Worker.Safe.{Safe, Keeps-Safe}
use video_processor_go.Worker.Stops.{round-Safe}

-- What leaves the processing list is counted once at most, and only for its own id.
count-erase : (v x : String) (l : List String) → count x l ≤ count x (erase v l) + count x (v ∷ [])
unfolding count erase
count-erase v x [] = ground arith
count-erase v x (y ∷ l) = ground (arith, eq_iff y v, eq_iff y x, eq_iff v x, count-erase v x l)

count-cons_plus : (v x : String) (l : List String) → count x (v ∷ l) ≡ count x (v ∷ []) + count x l
unfolding count
count-cons_plus v x l = ground arith

module _ (b : Backend) (laws : BackendLaws b) (live : IsReachable b laws) (cfg : Config)
    (apart_request : cfg.processing_finished_queue ≢ cfg.processing_request_queue)
    (apart_processing : cfg.processing_finished_queue ≢ processing_queue_name cfg) where
  open laws use {list}

  rescue-finished :
      (video_id : String) (old : JobState) (s : b.Store)
      → list (rescue b cfg video_id old s).1 cfg.processing_finished_queue
        ≡ list s cfg.processing_finished_queue
  unfolding rescue
  rescue-finished video_id old s =
      let w = set_job_state b video_id (recovered_state old) s in
      let o = set_job_state-OnlyJob b laws video_id (recovered_state old) s in
      let r = b.lrem (processing_queue_name cfg) video_id w.1 in
      rw (set_job_state_ok b laws live video_id (recovered_state old) s) (
        laws.list-lpush_ne _ video_id _ r.1 (λ e. apart_request (sym e))
        ∙ laws.list-lrem_ne _ video_id _ w.1 (λ e. apart_processing (sym e))
        ∙ o.lists _)

  -- A rescue moves the job from one list to another.
  rescue-Safe :
      (x video_id : String) (old : JobState) (s : b.Store)
      → Safe b laws cfg x s
      → Safe b laws cfg x (rescue b cfg video_id old s).1
  rescue-Safe x video_id old s (inl h) =
      let r = rescue-IsRecovered b laws live cfg video_id old s in
      let waits = ap (count x) r.waits in
      let released = ap (count x) r.released in
      let dead = ap (count x) r.not_dead in
      inl (
        omega (
          arith,
          waits,
          released,
          dead,
          count-erase video_id x (list s (processing_queue_name cfg)),
          count-cons_plus video_id x (list s cfg.processing_request_queue),
        ))
  rescue-Safe x video_id old s (inr h) =
      let same = ap (count (processed_id_of x)) (rescue-finished video_id old s) in
      inr (omega arith)

  recover_job-Safe :
      (x : String) (threshold : ℤ) (video_id : String) (s : b.Store)
      → Safe b laws cfg x s
      → Safe b laws cfg x (recover_job b cfg threshold video_id s).1
  unfolding recover_job
  recover_job-Safe x threshold video_id s safe =
      let g = get_job_state b video_id s in
      let read =
        Keeps-Safe b laws cfg x
          (OnlyJob-Keeps b laws video_id (get_job_state-OnlyJob b laws video_id video_id s)) safe in
      elim (Result-cases g.0) [
        | inr (e, missing) ↦ rw missing read
        | inl (state, found) ↦ elim (Bool-cases (is_stuck threshold state)) [
          | inl stuck ↦ rw (found, stuck) (rescue-Safe x video_id state g.1 read)
          | inr well ↦ rw (found, well) read
        ]
      ]

  recover_jobs-Safe :
      (x : String) (threshold : ℤ) (ids : List String) (s : b.Store)
      → Safe b laws cfg x s
      → Safe b laws cfg x (recover_jobs b cfg threshold ids s).1
  unfolding recover_jobs
  recover_jobs-Safe x threshold [] s safe = safe
  recover_jobs-Safe x threshold (video_id ∷ ids) s safe =
      recover_jobs-Safe x threshold ids _ (recover_job-Safe x threshold video_id s safe)

  recover_stuck_jobs-Safe :
      (x : String) (timeout : ℤ) (s : b.Store)
      → Safe b laws cfg x s
      → Safe b laws cfg x (recover_stuck_jobs b cfg timeout s).1
  unfolding recover_stuck_jobs
  recover_stuck_jobs-Safe x timeout s safe =
      let l = b.lrange (processing_queue_name cfg) s in
      let listed = Keeps-Safe b laws cfg x (same-Keeps b laws (λ q. laws.list-lrange _ q s)) safe in
      elim (Result-cases l.0) [
        | inr (e, failed) ↦ rw failed listed
        | inl (ids, told) ↦
            let now = b.clock l.1 in
            rw told (
              recover_jobs-Safe x (unix_before now.0 timeout) ids now.1
                (Keeps-Safe b laws cfg x (same-Keeps b laws (λ q. laws.list-clock q l.1)) listed))
      ]

  publish_job-Keeps :
      (video_id address : String) (s : b.Store)
      → Keeps b laws s (publish_job b cfg video_id address s).1
  unfolding publish_job
  publish_job-Keeps video_id address s =
      let now = b.clock s in
      let new : JobState = record (blank_state (unix now.0)) {
        status = job_status_pending;
        callback_url = address;
      } in
      let w = set_job_state b video_id new now.1 in
      let k : Keeps b laws s w.1 =
        Keeps-trans b laws (same-Keeps b laws (λ q. laws.list-clock q s))
          (OnlyJob-Keeps b laws video_id (set_job_state-OnlyJob b laws video_id new now.1)) in
      elim (Option-cases w.0) [
        | inl fine ↦ rw fine (Keeps-trans b laws k (lpush-Keeps b laws _ video_id w.1))
        | inr (e, failed) ↦ rw failed k
      ]

  module _ (h : Host) (k : Bucket h.World) (m : Media) (video_encoder temp_root : String)
      (fuel : ℕ) where
    -- What may happen to the queue, one after the other: a round of a worker that is stopped after
    -- `n` commands of it, or is not, with any run of the goroutines and in any world; a tick of the
    -- recovery; and a job that is published.
    pub data History (s : b.Store) : b.Store → Type 0 where
      nothing : History s s
      round :
          (n : ℕ) (parallel : String → ProcessingResult → Eff h.World ProcessingResult)
          (ctx : h.Context) (v : h.World) (t : b.Store)
          → History s t
          → History s
              (((process_next_message
                  (crashing b)
                  h
                  k
                  m
                  cfg
                  video_encoder
                  temp_root
                  parallel
                  fuel
                  ctx
                  ((n, t), v)).1
                ).0).1
      tick :
          (timeout : ℤ) (t : b.Store)
          → History s t
          → History s (recover_stuck_jobs b cfg timeout t).1
      publish :
          (video_id address : String) (t : b.Store)
          → History s t
          → History s (publish_job b cfg video_id address t).1

    -- No job is lost where Redis can be reached and workers are stopped. Whatever rounds of workers,
    -- each stopped after any number of its Redis commands or not at all, ticks of the recovery that
    -- are not stopped, and publications of jobs follow one another in whatever order, and whatever the object store, the
    -- pipeline and the machine do: a job that is in the request queue, in the processing list or in
    -- the dead letter queue, or whose message is in the finished queue, is still in one of the three,
    -- or its message is in the finished queue. (The finished queue is named like neither the request
    -- queue nor the processing list.)
    pub History-Safe :
        (x : String) {s t : b.Store} → History s t → Safe b laws cfg x s → Safe b laws cfg x t
    unfolding crash_laws
    History-Safe x History.nothing safe = safe
    History-Safe x (History.round n parallel ctx v t past) safe =
        round-Safe b laws live cfg apart_request apart_processing _ x (n, t)
          (process_next_message-QueueRound (crashing b) h k m cfg video_encoder temp_root parallel
            fuel ctx ((n, t), v))
          (History-Safe x past safe)
    History-Safe x (History.tick timeout t past) safe =
        recover_stuck_jobs-Safe x timeout t (History-Safe x past safe)
    History-Safe x (History.publish video_id address t past) safe =
        Keeps-Safe b laws cfg x (publish_job-Keeps video_id address t) (History-Safe x past safe)
