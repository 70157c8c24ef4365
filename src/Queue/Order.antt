-- ===== src/Queue/Order.antt =====
-- The order of the request queue: PublishJob and RequeueJob of queue/job.go against ConsumeMessage of
-- queue/client.go.
use mathlib.Core.List.{append_assoc, append-nil}
use video_processor_go.Base.{String, none, List, [], ◌∷◌, ◌++◌, ◌≡◌, refl, sym, ap, ◌∙◌, ok}
use video_processor_go.Config.{Config}
use video_processor_go.Backend.{Backend}
use video_processor_go.Backend.Laws.{BackendLaws}
use video_processor_go.Queue.Job.{publish_job, requeue_job}
use video_processor_go.Queue.Client.{consume_message}
use video_processor_go.Queue.Publish.{publish_job-IsPublished}
use video_processor_go.Queue.Moves.{requeue_job-Pushes}
use video_processor_go.Queue.Consume.{consume_message-Takes}

-- A queue from its end, where messages are taken, to its head.
abbrev pub oldest_first : List String → List String
oldest_first [] = []
oldest_first (v ∷ l) = oldest_first l ++ (v ∷ [])

oldest_first-append :
    (l : List String) (v : String) → oldest_first (l ++ (v ∷ [])) ≡ v ∷ oldest_first l
oldest_first-append [] v = refl
oldest_first-append (x ∷ l) v = ap (λ m. m ++ (x ∷ [])) (oldest_first-append l v)

module _ (b : Backend) (laws : BackendLaws b) (cfg : Config) where
  open laws use {list}

  -- From one store to another by successful operations of any clients in any order, with the ids that
  -- were put in the request queue and the ids that were taken from it, the earliest first. `other`
  -- is whatever leaves that queue alone.
  pub data Serves (s : b.Store) : List String → List String → b.Store → Type 0 where
    nothing : Serves s [] [] s
    published :
        (video_id callback_url : String) {put taken : List String} {t : b.Store}
        → Serves s put taken t
        → (publish_job b cfg video_id callback_url t).0 ≡ none
        → Serves s (put ++ (video_id ∷ [])) taken (publish_job b cfg video_id callback_url t).1
    requeued :
        (video_id : String) {put taken : List String} {t : b.Store}
        → Serves s put taken t
        → (requeue_job b cfg video_id t).0 ≡ none
        → Serves s (put ++ (video_id ∷ [])) taken (requeue_job b cfg video_id t).1
    consumed :
        (video_id : String) {put taken : List String} {t : b.Store}
        → Serves s put taken t
        → (consume_message b cfg t).0 ≡ ok video_id
        → Serves s put (taken ++ (video_id ∷ [])) (consume_message b cfg t).1
    other :
        (u : b.Store) {put taken : List String} {t : b.Store}
        → Serves s put taken t
        → list u cfg.processing_request_queue ≡ list t cfg.processing_request_queue
        → Serves s put taken u

  -- What waits, the earliest first.
  abbrev pub waiting : b.Store → List String
  waiting s = oldest_first (list s cfg.processing_request_queue)

  pushed_lem :
      (s t u : b.Store) (put taken : List String) (v : String)
      → taken ++ waiting t ≡ waiting s ++ put
      → list u cfg.processing_request_queue ≡ v ∷ list t cfg.processing_request_queue
      → taken ++ waiting u ≡ waiting s ++ (put ++ (v ∷ []))
  pushed_lem s t u put taken v before now = rw now (
      sym (append_assoc taken (waiting t) (v ∷ []))
      ∙ ap (λ l. l ++ (v ∷ [])) before
      ∙ append_assoc (waiting s) put (v ∷ []))

  -- The request queue is first in, first out, and loses and doubles nothing: after successful
  -- publishings, requeuings and consumptions of any clients in any order, the ids taken followed by
  -- those that still wait are the ids that waited at the beginning followed by those put in since.
  pub Serves-waiting :
      {s t : b.Store} {put taken : List String}
      → Serves s put taken t
      → taken ++ waiting t ≡ waiting s ++ put
  Serves-waiting nothing = sym (append-nil _)
  Serves-waiting (published v address h e) =
      pushed_lem _ _ _ _ _ v (Serves-waiting h)
        ((publish_job-IsPublished b laws cfg v address _).queues.pushed e)
  Serves-waiting (requeued v h e) =
      pushed_lem _ _ _ _ _ v (Serves-waiting h) ((requeue_job-Pushes b laws cfg v _).pushed e)
  Serves-waiting (consumed v {put} {taken} {t} h e) =
      let (rest, was, left, came) = (consume_message-Takes b laws cfg t).taken v e in
      rw left (
        append_assoc taken (v ∷ []) (oldest_first rest)
        ∙ ap (λ l. taken ++ l) (sym (oldest_first-append rest v) ∙ ap oldest_first (sym was))
        ∙ Serves-waiting h)
  Serves-waiting (other u h same) = rw same (Serves-waiting h)
