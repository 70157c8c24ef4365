-- ===== src/Worker/Safe.antt =====
-- Whether a job is in a queue or announced as finished, and what the calls of a round
-- (`processNextMessage` of main.go) keep of that, whatever commands fail.
use video_processor_go.Base.{
  ℕ, String, List, [], ◌∷◌, ◌++◌, ◌≡◌, ◌≢◌, ◌⊎◌, inl, inr, refl, ◌∙◌, ap, ◌+◌, ◌≤◌, none, arith,
  count, Option-cases, is_ok, eq_refl, sym,
}
use video_processor_go.Config.{Config}
use video_processor_go.Backend.{Backend, execute}
use video_processor_go.Backend.Laws.{BackendLaws}
use video_processor_go.Queue.State.{processing_queue_name, dead_letter_queue_name}
use video_processor_go.Queue.Client.{consume_message, acknowledge_message}
use video_processor_go.Queue.Names.{request-ne-processing, request-ne-dead, processing-ne-dead}
use video_processor_go.Queue.Consume.{consume_message-Takes}
use video_processor_go.Queue.Moves.{acknowledge_message-Removes}
use video_processor_go.Worker.Round.{processed_id_of}
use video_processor_go.Worker.Settle.{settle_job}
use video_processor_go.Worker.Others.{settle_job-Undisturbed}
use video_processor_go.Worker.Keeps.{Keeps}

count-append_last : (x v : String) (l : List String) → count x (l ++ (v ∷ [])) ≡ count x (v ∷ l)
unfolding count
count-append_last x v [] = refl
count-append_last x v (y ∷ l) = ground (arith, count-append_last x v l)

pub count-head : (x : String) (l : List String) → 1 ≤ count x (x ∷ l)
unfolding count
count-head x l = ground (arith, eq_refl x)

module _ (b : Backend) (laws : BackendLaws b) (cfg : Config) where
  open laws use {list}

  -- How often an id stands in the request queue, in the processing list and in the dead letter queue.
  abbrev pub standing : String → b.Store → ℕ
  standing x s =
      count x (list s cfg.processing_request_queue)
      + count x (list s (processing_queue_name cfg))
      + count x (list s (dead_letter_queue_name cfg))

  -- The job is in a queue, or the finished queue has its message.
  abbrev pub Safe : String → b.Store → Type 0
  Safe x s =
      (1 ≤ standing x s) ⊎ (1 ≤ count (processed_id_of x) (list s cfg.processing_finished_queue))

  pub Keeps-Safe : (x : String) {s t : b.Store} → Keeps b laws s t → Safe x s → Safe x t
  Keeps-Safe x k (inl h) =
      let r = k.counts x cfg.processing_request_queue in
      let p = k.counts x (processing_queue_name cfg) in
      let d = k.counts x (dead_letter_queue_name cfg) in inl (omega arith)
  Keeps-Safe x k (inr h) =
      let f = k.counts (processed_id_of x) cfg.processing_finished_queue in inr (omega arith)

  -- The three lists as often as before, where the other lists are the same.
  moved :
      (x : String) (s t : b.Store)
      → ((v : String) × (rest : List String) × (list s cfg.processing_request_queue
            ≡ rest ++ (v ∷ []))
          × (list t cfg.processing_request_queue ≡ rest)
          × (list t (processing_queue_name cfg) ≡ v ∷ list s (processing_queue_name cfg)))
        ⊎ ((list t cfg.processing_request_queue ≡ list s cfg.processing_request_queue)
            × (list t (processing_queue_name cfg) ≡ list s (processing_queue_name cfg)))
      → list t (dead_letter_queue_name cfg) ≡ list s (dead_letter_queue_name cfg)
      → standing x t ≡ standing x s
  unfolding count
  moved x s t (inl (v, rest, was, left, came)) dead =
      let w = ap (count x) was ∙ count-append_last x v rest in
      let l = ap (count x) left in
      let c = ap (count x) came in let d = ap (count x) dead in ground (arith, w, l, c, d)
  moved x s t (inr (request, working)) dead = rw (request, working, dead) refl

  brpoplpush-standing :
      (x : String) (s : b.Store)
      → standing x (b.brpoplpush cfg.processing_request_queue (processing_queue_name cfg) s).1
        ≡ standing x s
  brpoplpush-standing x s =
      moved x s _ (laws.brpoplpush_any _ _ s (request-ne-processing cfg))
        (laws.list-brpoplpush_ne _ _ _ s (request-ne-dead cfg) (processing-ne-dead cfg))

  standing_eq :
      (x : String) {s t : b.Store}
      → ((q : String) → list t q ≡ list s q)
      → standing x t ≡ standing x s
  standing_eq x e =
      let r = ap (count x) (e cfg.processing_request_queue) in
      let p = ap (count x) (e (processing_queue_name cfg)) in
      let d = ap (count x) (e (dead_letter_queue_name cfg)) in omega arith

  -- Consuming takes one id from the request queue to the processing list, or nothing.
  consume_message-standing :
      (x : String) (s : b.Store) → standing x (consume_message b cfg s).1 ≡ standing x s
  unfolding consume_message execute
  consume_message-standing x s =
      let r = b.refuses s in
      let first = standing_eq x (λ q. laws.list-refuses q s) in
      elim (Option-cases r.0) [
        | inr (e, refused) ↦ rw refused first
        | inl allowed ↦
            let c = b.brpoplpush cfg.processing_request_queue (processing_queue_name cfg) r.1 in
            rw allowed (
              standing_eq x (λ q. laws.list-settle (is_ok c.0) q c.1)
              ∙ brpoplpush-standing x r.1
              ∙ first)
      ]

  module _ (apart_request : cfg.processing_finished_queue ≢ cfg.processing_request_queue)
      (apart_processing : cfg.processing_finished_queue ≢ processing_queue_name cfg) where
    pub consume_message-Safe :
        (x : String) (s : b.Store) → Safe x s → Safe x (consume_message b cfg s).1
    consume_message-Safe x s (inl h) = let e = consume_message-standing x s in inl (omega arith)
    consume_message-Safe x s (inr h) =
        let same =
          (consume_message-Takes b laws cfg s).others cfg.processing_finished_queue
            (λ e. apart_request (sym e)) (λ e. apart_processing (sym e)) in
        let e = ap (count (processed_id_of x)) same in inr (omega arith)

    -- The finished queue is not touched by an acknowledgement, nor is another job.
    pub acknowledge_message-announced :
        (video_id x : String) (s : b.Store)
        → 1 ≤ count x (list s cfg.processing_finished_queue)
        → 1 ≤ count x (list (acknowledge_message b cfg video_id s).1 cfg.processing_finished_queue)
    acknowledge_message-announced video_id x s h =
        let a = acknowledge_message-Removes b laws cfg video_id s in
        let e = ap (count x) (a.others _ (λ e. apart_processing (sym e))) in omega arith

    pub acknowledge_message-others :
        (video_id x : String) (s : b.Store)
        → video_id ≢ x
        → Safe x s
        → Safe x (acknowledge_message b cfg video_id s).1
    unfolding settle_job
    acknowledge_message-others video_id x s n (inl h) =
        let u = settle_job-Undisturbed b laws cfg video_id x n none s in
        let r = u.counts cfg.processing_request_queue in
        let p = u.counts (processing_queue_name cfg) in
        let d = u.counts (dead_letter_queue_name cfg) in inl (omega arith)
    acknowledge_message-others video_id x s n (inr h) =
        inr (acknowledge_message-announced video_id (processed_id_of x) s h)
