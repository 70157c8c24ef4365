-- ===== src/Worker/Revival.antt =====
-- A job whose worker is stopped while it works on it (`processNextMessage` of main.go), and the
-- recovery after it (queue/client.go).
use mathlib.Core.List.{append_cancel_right}
use video_processor_go.Base.{
  ℕ, String, List, [], ◌∷◌, ◌++◌, some, ◌≡◌, refl, ◌∙◌, ap, sym, subst, ℤ, ◌<ℤ◌, arith, Result, ok,
  Eff, erase, increment,
}
use video_processor_go.Config.{Config}
use video_processor_go.Backend.{Backend}
use video_processor_go.Backend.Laws.{BackendLaws, IsReachable}
use video_processor_go.Backend.Crash.{crashing}
use video_processor_go.Queue.State.{
  JobState, job_key, job_status_pending, job_status_processing, processing_queue_name,
  dead_letter_queue_name,
}
use video_processor_go.Queue.Job.{set_job_processing}
use video_processor_go.Queue.Client.{consume_message, recover_job}
use video_processor_go.Queue.View.{stored, parsed}
use video_processor_go.Queue.Names.{request-ne-dead, processing-ne-dead}
use video_processor_go.Queue.Consume.{consume_message-Takes}
use video_processor_go.Queue.Reachable.{consume_message_ok, stored-set_job_processing}
use video_processor_go.Queue.Updates.{set_job_processing-Updates}
use video_processor_go.Queue.Rescue.{recover_job-IsRecovered}
use video_processor_go.Pipeline.Host.{Host}
use video_processor_go.Pipeline.Media.{Media}
use video_processor_go.Pipeline.Result.{ProcessingResult}
use video_processor_go.Storage.Bucket.{Bucket}
use video_processor_go.Worker.Settle.{settle_job}
use video_processor_go.Worker.Lifecycle.{failing_round, settle_taken, erase-head}
use video_processor_go.Worker.Round.{Report, announce, process_next_message}
use video_processor_go.Worker.Refinement.{
  QueueRound, process_next_message-QueueRound, settled, begun_at,
}
use video_processor_go.Worker.Frozen.{
  Same, settle_job-Stays, published-Stays, consume-three, processing-two,
}

module _ (b : Backend) (laws : BackendLaws b) (live : IsReachable b laws) (cfg : Config)
    (video_id : String) where
  open laws use {value, list}

  abbrev c : Backend
  c = crashing b

  -- The last of the request queue, in this state; the other queues are `working` and `dead`.
  pub record IsLast (rest working dead : List String) (old : JobState) (s : b.Store) : Type 0 where
    pub waiting : list s cfg.processing_request_queue ≡ rest ++ (video_id ∷ [])
    pub processing : list s (processing_queue_name cfg) ≡ working
    pub buried : list s (dead_letter_queue_name cfg) ≡ dead
    pub state : stored b laws s video_id ≡ some old

  -- It is at the head of the processing list, marked as processing at `now`.
  pub record AtWork (rest working dead : List String) (old : JobState) (now : ℤ) (s : b.Store)
      : Type 0 where
    pub left : list s cfg.processing_request_queue ≡ rest
    pub processing : list s (processing_queue_name cfg) ≡ video_id ∷ working
    pub buried : list s (dead_letter_queue_name cfg) ≡ dead
    pub state :
        stored b laws s video_id
        ≡ some (record old { status = job_status_processing; updated_at = now })

  module _ (rest working dead : List String) (old : JobState) where
    -- It waits again, at the head of the request queue, pending and with one failure more.
    pub record IsRevived (t : b.Store) : Type 0 where
      pub waits : list t cfg.processing_request_queue ≡ video_id ∷ rest
      pub processing : list t (processing_queue_name cfg) ≡ working
      pub buried : list t (dead_letter_queue_name cfg) ≡ dead
      pub state :
          (now : ℤ) × (stored b laws t video_id
            ≡ some (record old {
              status = job_status_pending;
              retry_count = increment old.retry_count;
              updated_at = now;
            }))

    begun-AtWork :
        (s : b.Store)
        → IsLast rest working dead old s
        → (now : ℤ) × AtWork rest working dead old now (begun_at b cfg video_id s)
    begun-AtWork s last =
        let m = consume_message b cfg s in
        let takes = consume_message-Takes b laws cfg s in
        let came = consume_message_ok b laws live cfg video_id rest s last.waiting in
        let (others, was, left, taken) = takes.taken video_id came in
        let o = (set_job_processing-Updates b laws video_id m.1).0 in
        let kept = ap (parsed b laws) (takes.values (job_key video_id)) ∙ last.state in
        let (now, marked) = stored-set_job_processing b laws live video_id m.1 kept in
        (
          now,
          record {
            left =
                o.lists _
                ∙ left
                ∙ append_cancel_right others rest (video_id ∷ []) (sym was ∙ last.waiting);
            processing = o.lists _ ∙ taken ∙ ap (λ l. video_id ∷ l) last.processing;
            buried =
                o.lists _
                ∙ takes.others _ (request-ne-dead cfg) (processing-ne-dead cfg)
                ∙ last.buried;
            state = marked;
          },
        )

    module _ (h : Host) (k : Bucket h.World) (m : Media) (video_encoder temp_root : String)
        (parallel : String → ProcessingResult → Eff h.World ProcessingResult) (fuel : ℕ)
        (ctx : h.Context) where
      begun-three : (s : b.Store) → begun_at c cfg video_id (3, s) ≡ (0, begun_at b cfg video_id s)
      begun-three s =
          ap (λ (r : Result String × c.Store). (set_job_processing c video_id r.1).1)
            (consume-three b laws live cfg video_id 2 s)
          ∙ processing-two b laws live cfg video_id 0 (consume_message b cfg s).1

      -- The round is the job's own.
      came :
          (s : b.Store)
          → IsLast rest working dead old s
          → (consume_message c cfg (3, s)).0 ≡ ok video_id
      came s last =
          ap (λ (r : Result String × c.Store). r.0) (consume-three b laws live cfg video_id 2 s)
          ∙ consume_message_ok b laws live cfg video_id rest s last.waiting

      same_id :
          (x : String) (s : b.Store)
          → IsLast rest working dead old s
          → (consume_message c cfg (3, s)).0 ≡ ok x
          → video_id ≡ x
      same_id x s last e = let h = sym (came s last) ∙ e in ground (arith, h)

      -- What the queue sees of the round is what the first three commands did.
      round-Same :
          (said : String → Result ProcessingResult) (s : b.Store)
          → IsLast rest working dead old s
          → {r : Report × c.Store} → QueueRound c cfg said (3, s) r
          → Same b laws live cfg video_id (begun_at b cfg video_id s) (r.1).1
      unfolding failing_round settle_taken
      round-Same said s last (QueueRound.idle e silence) =
          let h = sym (came s last) ∙ silence in absurd (ground (arith, h))
      round-Same said s last (QueueRound.fails x e mine told) =
          let w = begun_at c cfg video_id (3, s) in
          let stays =
            settle_job-Stays b laws live cfg video_id e w
              (ap (λ (t : c.Store). t.0) (begun-three s)) in
          rw (came s last) (
            subst
              (λ u. Same b laws live cfg video_id u ((settle_job c cfg video_id (some e) w).1).1)
              (ap (λ (t : c.Store). t.1) (begun-three s)) stays.1)
      round-Same said s last (QueueRound.publishes x result mine told) =
          let u = begun_at b cfg video_id s in
          let ending =
            λ (id : String) (w : c.Store). ((settled c cfg id (announce c cfg id result w)).1).1 in
          subst (λ id. Same b laws live cfg video_id u (ending id (begun_at c cfg id (3, s))))
            (same_id x s last mine)
            (subst (λ w. Same b laws live cfg video_id u (ending video_id w)) (sym (begun-three s))
              (published-Stays b laws live cfg video_id result u).1)

      -- The round of a worker that is stopped while it works on the job.
      abbrev pub cut_round : Eff (b.Store × h.World) Report
      cut_round w =
          let turn = process_next_message c h k m cfg video_encoder temp_root parallel fuel ctx in
          let (report, ((left, t), v)) = turn ((3, w.0), w.1) in (report, (t, v))

      cut_round-AtWork :
          (now : ℤ) (w : b.Store × h.World)
          → IsLast rest working dead old w.0
          → AtWork rest working dead old now (begun_at b cfg video_id w.0)
          → AtWork rest working dead old now ((cut_round w).1).0
      cut_round-AtWork now (s, v) last a =
          let same = round-Same _ s last (
            process_next_message-QueueRound c h k m cfg video_encoder temp_root parallel fuel ctx
              ((3, s), v)) in
          record {
            left = same.lists _ ∙ a.left;
            processing = same.lists _ ∙ a.processing;
            buried = same.lists _ ∙ a.buried;
            state = ap (parsed b laws) (same.values _) ∙ a.state;
          }

      -- While Redis can be reached, a job whose worker is stopped while it works on it is not lost
      -- for good. The worker took the last job of the request queue, marked it as processing, and
      -- sent no further command. When the recovery then looks at the job with a threshold later than
      -- the time of that mark, the job is at the head of the request queue again, pending, with one
      -- failure more and the rest of its state kept; the processing list and the dead letter queue
      -- are as they were before the round. What the object store, the pipeline and the machine did
      -- in the round does not matter.
      pub recover_job-IsRevived :
          (threshold : ℤ) (w : b.Store × h.World)
          → IsLast rest working dead old w.0
          → ((now : ℤ)
              → stored b laws (begun_at b cfg video_id w.0) video_id
                ≡ some (record old { status = job_status_processing; updated_at = now })
              → now <ℤ threshold)
          → IsRevived (recover_job b cfg threshold video_id ((cut_round w).1).0).1
      recover_job-IsRevived threshold w last late =
          let t = ((cut_round w).1).0 in
          let (now, begun) = begun-AtWork w.0 last in
          let a = cut_round-AtWork now w last begun in
          let r =
            recover_job-IsRecovered b laws live cfg threshold video_id t a.state refl
              (late now begun.state) in
          record {
            waits = r.waits ∙ ap (λ l. video_id ∷ l) a.left;
            processing =
                r.released ∙ ap (erase video_id) a.processing ∙ erase-head video_id working;
            buried = r.not_dead ∙ a.buried;
            state = r.state;
          }
