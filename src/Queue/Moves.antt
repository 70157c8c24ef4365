-- ===== src/Queue/Moves.antt =====
-- What the moves between the queues (queue/job.go, queue/client.go) do to the lists.
use video_processor_go.Base.{
  String, Option, none, ◌∷◌, ◌≡◌, ◌≢◌, inl, inr, ◌∙◌, ap, Error, ok?, arith, erase, Option-cases,
}
use video_processor_go.Config.{Config}
use video_processor_go.Backend.{Backend, execute}
use video_processor_go.Backend.Laws.{BackendLaws}
use video_processor_go.Queue.State.{
  JobState, job_status_pending, processing_queue_name, dead_letter_queue_name,
}
use video_processor_go.Queue.Job.{
  set_job_state, get_job_state, push_again, requeue_job, move_to_dlq,
}
use video_processor_go.Queue.Client.{acknowledge_message, publish_success_message}
use video_processor_go.Queue.View.{
  OnlyJob, OnlyJob-trans, get_job_state-OnlyJob, set_job_state-OnlyJob,
}

module _ (b : Backend) (laws : BackendLaws b) where
  open laws use {value, list}

  -- Queue `q` has `video_id` at its head if the call succeeded; every other queue is as it was.
  pub record Pushes (q video_id : String) (s : b.Store) (failure : Option Error) (t : b.Store)
      : Type 0 where
    pub pushed : failure ≡ none → list t q ≡ video_id ∷ list s q
    pub others : (p : String) → q ≢ p → list t p ≡ list s p

  -- The first `video_id` has left queue `q` if the call succeeded; nothing else has changed.
  pub record Removes (q video_id : String) (s : b.Store) (failure : Option Error) (t : b.Store)
      : Type 0 where
    pub removed : failure ≡ none → list t q ≡ erase video_id (list s q)
    pub others : (p : String) → q ≢ p → list t p ≡ list s p
    pub values : (k : String) → value t k ≡ value s k

  pub lpush-Pushes :
      (q video_id : String) (s : b.Store)
      → Pushes q video_id s (b.lpush q video_id s).0 (b.lpush q video_id s).1
  lpush-Pushes q video_id s = record {
    pushed = λ h. laws.list-lpush_self q video_id s h;
    others = λ p n. laws.list-lpush_ne q video_id p s n;
  }

  pub Pushes-after :
      {q video_id : String} {s t u : b.Store} {failure : Option Error}
      → OnlyJob b laws video_id s t
      → Pushes q video_id t failure u
      → Pushes q video_id s failure u
  Pushes-after {q} {video_id} o p = record {
    pushed = λ h. p.pushed h ∙ ap (λ l. video_id ∷ l) (o.lists q);
    others = λ r n. p.others r n ∙ o.lists r;
  }

  -- The same for the dead letter queue.
  pub move_to_dlq-Pushes :
      (cfg : Config) (video_id : String) (s : b.Store)
      → Pushes
          (dead_letter_queue_name cfg)
          video_id
          s
          (move_to_dlq b cfg video_id s).0
          (move_to_dlq b cfg video_id s).1
  unfolding move_to_dlq
  move_to_dlq-Pushes cfg video_id s = lpush-Pushes (dead_letter_queue_name cfg) video_id s

  pub move_to_dlq-value :
      (cfg : Config) (video_id k : String) (s : b.Store)
      → value (move_to_dlq b cfg video_id s).1 k ≡ value s k
  unfolding move_to_dlq
  move_to_dlq-value cfg video_id k s = laws.value-lpush (dead_letter_queue_name cfg) video_id k s

  -- Requeuing a job, whatever commands fail, changes no queue but the request queue; if it reports
  -- success, the job is at the head of the request queue, before what was there.
  pub requeue_job-Pushes :
      (cfg : Config) (video_id : String) (s : b.Store)
      → Pushes cfg.processing_request_queue video_id s
          (requeue_job b cfg video_id s).0
          (requeue_job b cfg video_id s).1
  unfolding requeue_job
  requeue_job-Pushes cfg video_id s =
      let queue = cfg.processing_request_queue in
      let r = get_job_state b video_id s in
      let read = get_job_state-OnlyJob b laws video_id video_id s in
      elim (Option-cases (ok? r.0)) [
        | inl e ↦ rw e (Pushes-after read (lpush-Pushes queue video_id r.1))
        | inr (state, e) ↦ rw e (requeued state r.1 read)
      ]
    where
      requeued :
          (state : JobState) (t : b.Store)
          → OnlyJob b laws video_id s t
          → let w = set_job_state b video_id (record state { status = job_status_pending }) t in
            let p = push_again b cfg.processing_request_queue video_id w.0 w.1 in
            Pushes cfg.processing_request_queue video_id s p.0 p.1
      requeued state t read =
          let new : JobState = record state { status = job_status_pending } in
          let w = set_job_state b video_id new t in
          let o = OnlyJob-trans b laws read (set_job_state-OnlyJob b laws video_id new t) in
          elim (Option-cases w.0) [
            | inl e ↦ rw e (Pushes-after o (lpush-Pushes cfg.processing_request_queue video_id w.1))
            | inr (x, e) ↦ rw e (record { pushed = λ h. cc; others = λ p n. o.lists p })
          ]

  -- Acknowledging a job, whatever commands fail and whether or not the circuit is open, changes no
  -- stored state and no queue but the processing list; if it reports success, the first occurrence
  -- of the job has left the processing list and the rest of it is in the same order.
  pub acknowledge_message-Removes :
      (cfg : Config) (video_id : String) (s : b.Store)
      → Removes
          (processing_queue_name cfg)
          video_id
          s
          (acknowledge_message b cfg video_id s).0
          (acknowledge_message b cfg video_id s).1
  unfolding acknowledge_message execute
  acknowledge_message-Removes cfg video_id s = record {
    removed = λ h. grind (arith, laws.list-lrem_self, laws.list-refuses, laws.list-settle);
    others = λ p n. grind (arith, laws.list-lrem_ne, laws.list-refuses, laws.list-settle);
    values = λ k. grind (arith, laws.value-lrem, laws.value-refuses, laws.value-settle);
  }

  -- Publishing a success, whatever commands fail and whether or not the circuit is open, changes no
  -- queue but the finished queue; if it reports success, the message is at its head.
  pub publish_success_message-Pushes :
      (cfg : Config) (video_id : String) (s : b.Store)
      → Pushes cfg.processing_finished_queue video_id s
          (publish_success_message b cfg video_id s).0
          (publish_success_message b cfg video_id s).1
  unfolding publish_success_message execute
  publish_success_message-Pushes cfg video_id s = record {
    pushed = λ h. grind (arith, laws.list-lpush_self, laws.list-refuses, laws.list-settle);
    others = λ p n. grind (arith, laws.list-lpush_ne, laws.list-refuses, laws.list-settle);
  }

  pub publish_success_message-value :
      (cfg : Config) (video_id k : String) (s : b.Store)
      → value (publish_success_message b cfg video_id s).1 k ≡ value s k
  unfolding publish_success_message execute
  publish_success_message-value cfg video_id k s =
      grind (arith, laws.value-lpush, laws.value-refuses, laws.value-settle)
