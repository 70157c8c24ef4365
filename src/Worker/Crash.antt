-- ===== src/Worker/Crash.antt =====
-- Rounds of a worker that may be stopped before any of its Redis commands (main.go).
use video_processor_go.Base.{
  ℕ, zero, suc, String, ◌≡◌, ◌≢◌, ◌⊎◌, inl, inr, refl, ◌∙◌, ap, ◌+◌, ◌≤◌, Error, false, none, some,
  unix, ok?, subst, sym, arith, count, String-cases, Option-cases, Bool-cases,
}
use video_processor_go.Config.{Config}
use video_processor_go.Backend.{Backend, execute}
use video_processor_go.Backend.Laws.{BackendLaws, IsReachable}
use video_processor_go.Backend.Crash.{crashing, crash_laws}
use video_processor_go.Queue.State.{
  JobState, job_status_pending, processing_queue_name, dead_letter_queue_name,
}
use video_processor_go.Queue.Job.{
  set_job_failed, requeue_job, push_again, move_to_dlq, set_job_state, get_job_state,
}
use video_processor_go.Queue.Client.{acknowledge_message}
use video_processor_go.Queue.Names.{request-ne-processing, processing-ne-dead}
use video_processor_go.Queue.Moves.{acknowledge_message-Removes}
use video_processor_go.Worker.Settle.{may_retry, fail_job, settle_job}
use video_processor_go.Worker.Keeps.{fail_job-Keeps}
use video_processor_go.Worker.Safe.{Safe, Keeps-Safe, count-head, acknowledge_message-others}

module _ (b : Backend) (laws : BackendLaws b) (live : IsReachable b laws) (cfg : Config)
    (video_id : String) where
  abbrev c : Backend
  c = crashing b

  abbrev c_laws : BackendLaws c
  c_laws = crash_laws b laws

  open c_laws use {list}

  -- The worker has been stopped, or the job is in the request queue or in the dead letter queue.
  abbrev StoppedOr : c.Store → Type 0
  StoppedOr t =
      (t.0 ≡ 0)
      ⊎ (1
          ≤ count video_id (list t cfg.processing_request_queue)
            + count video_id (list t (dead_letter_queue_name cfg)))

  lpush_stopped :
      (q : String) (w : c.Store)
      → (((c.lpush q video_id w).1).0 ≡ 0) ⊎ (1 ≤ count video_id (list (c.lpush q video_id w).1 q))
  unfolding crash_laws
  lpush_stopped q (zero, s) = inl refl
  lpush_stopped q (suc n, s) =
      let came =
        ap (count video_id) (laws.list-lpush_self q video_id s (live.lpush_ok q video_id s)) in
      let h = count-head video_id (laws.list s q) in inr (omega arith)

  set_stopped :
      (key : String) (text : b.Value) (ttl : ℕ) (w : c.Store)
      → let r = c.set key text ttl w in ((r.1).0 ≡ 0) ⊎ (r.0 ≡ none)
  set_stopped key text ttl (zero, s) = inl refl
  set_stopped key text ttl (suc n, s) = inr (live.set_ok key text ttl s)

  -- A state is written, or the worker has been stopped.
  set_job_state_stopped :
      (state : JobState) (w : c.Store)
      → let r = set_job_state c video_id state w in ((r.1).0 ≡ 0) ⊎ (r.0 ≡ none)
  unfolding set_job_state
  set_job_state_stopped state (n, s) =
      let (text, e) = live.marshal_ok (record state { updated_at = unix (b.clock s).0 }) in
      rw e (set_stopped _ text _ _)

  requeue_job_stopped : (w : c.Store) → StoppedOr (requeue_job c cfg video_id w).1
  unfolding requeue_job push_again
  requeue_job_stopped w =
      let r = get_job_state c video_id w in
      elim (Option-cases (ok? r.0)) [
        | inl e ↦ rw e (pushed r.1)
        | inr (state, e) ↦
            let new : JobState = record state { status = job_status_pending } in
            let t = set_job_state c video_id new r.1 in
            elim (Option-cases t.0) [
              | inl e' ↦ rw (e, e') (pushed t.1)
              | inr (x, e') ↦
                  rw (e, e')
                    (elim (set_job_state_stopped new r.1) [
                      | inl over ↦ inl over
                      | inr fine ↦ absurd (ground (arith, e', fine))
                    ])
            ]
      ]
    where
      pushed : (t : c.Store) → StoppedOr (c.lpush cfg.processing_request_queue video_id t).1
      pushed t = elim (lpush_stopped cfg.processing_request_queue t) [
        | inl over ↦ inl over
        | inr came ↦ inr (omega arith)
      ]

  -- A failed job is put into a queue before it is acknowledged, unless the worker is stopped first.
  fail_job_stopped :
      (job_err : Error) (w : c.Store) → StoppedOr (fail_job c cfg video_id job_err w).1
  unfolding fail_job move_to_dlq
  fail_job_stopped job_err w =
      let f = set_job_failed c video_id job_err w in
      let buried : StoppedOr (c.lpush (dead_letter_queue_name cfg) video_id f.1).1 =
        elim (lpush_stopped (dead_letter_queue_name cfg) f.1) [
          | inl over ↦ inl over
          | inr came ↦ inr (omega arith)
        ] in
      elim (Option-cases (ok? f.0)) [
        | inl e ↦ rw e buried
        | inr (state, e) ↦ elim (Bool-cases (may_retry state)) [
          | inl again ↦ rw (e, again) (requeue_job_stopped f.1)
          | inr over ↦ rw (e, over) buried
        ]
      ]

  -- A stopped worker acknowledges nothing.
  acknowledge_message_stopped :
      (w : c.Store)
      → w.0 ≡ 0
      → (q : String) → list (acknowledge_message c cfg video_id w).1 q ≡ list w q
  unfolding acknowledge_message execute crash_laws
  acknowledge_message_stopped (zero, s) e q =
      let r = b.refuses s in
      elim (Option-cases r.0) [
        | inl allowed ↦ rw allowed (laws.list-settle false q r.1 ∙ laws.list-refuses q s)
        | inr (x, refused) ↦ rw refused (laws.list-refuses q s)
      ]
  acknowledge_message_stopped (suc n, s) e q = absurd (omega arith)

  -- What is in a queue besides the processing list is there after the acknowledgement.
  acknowledge_message-Safe :
      (w : c.Store)
      → StoppedOr w
      → Safe c c_laws cfg video_id w
      → Safe c c_laws cfg video_id (acknowledge_message c cfg video_id w).1
  acknowledge_message-Safe w (inl over) safe =
      Keeps-Safe c c_laws cfg video_id
        (record {
          counts =
              λ x q. let e = ap (count x) (acknowledge_message_stopped w over q) in omega arith;
        })
        safe
  acknowledge_message-Safe w (inr placed) safe =
      let a = acknowledge_message-Removes c c_laws cfg video_id w in
      let request =
        ap (count video_id)
          (a.others cfg.processing_request_queue (λ e. request-ne-processing cfg (sym e))) in
      let dead = ap (count video_id) (a.others _ (processing-ne-dead cfg)) in inl (omega arith)

  -- The end of a failed attempt keeps the job in a queue, wherever the worker is stopped.
  own-Safe :
      (job_err : Error) (w : c.Store)
      → Safe c c_laws cfg video_id w
      → Safe c c_laws cfg video_id (settle_job c cfg video_id (some job_err) w).1
  unfolding settle_job
  own-Safe job_err w safe =
      let f = fail_job c cfg video_id job_err w in
      acknowledge_message-Safe f.1 (fail_job_stopped job_err w)
        (Keeps-Safe c c_laws cfg video_id (fail_job-Keeps c c_laws cfg video_id job_err w) safe)

  pub settle_failed-Safe :
      (apart_request : cfg.processing_finished_queue ≢ cfg.processing_request_queue)
      (apart_processing : cfg.processing_finished_queue ≢ processing_queue_name cfg) (x : String)
      (job_err : Error) (w : c.Store)
      → Safe c c_laws cfg x w
      → Safe c c_laws cfg x (settle_job c cfg video_id (some job_err) w).1
  unfolding settle_job
  settle_failed-Safe apart_request apart_processing x job_err w safe =
      elim (String-cases video_id x) [
        | inl same ↦
            subst (λ y. Safe c c_laws cfg y (settle_job c cfg video_id (some job_err) w).1) same
              (own-Safe job_err w (subst (λ y. Safe c c_laws cfg y w) (sym same) safe))
        | inr n ↦
            let f = fail_job c cfg video_id job_err w in
            acknowledge_message-others c c_laws cfg apart_request apart_processing video_id x f.1 n
              (Keeps-Safe c c_laws cfg x (fail_job-Keeps c c_laws cfg video_id job_err w) safe)
      ]
