-- ===== src/Worker/Lifecycle.antt =====
-- Whole lives of a job: rounds of processNextMessage of main.go, from the request queue back to it
-- or to the dead letter queue.
use video_processor_go.Base.{
  ℕ, ◌+◌, ◌<◌, ◌≤◌, String, Option, none, some, false, List, [], ◌∷◌, ◌++◌, ◌≡◌, sym, ◌∙◌, ap, refl,
  pos, Error, Result, ok, err, Eff, str_eq, if◌then◌else◌, arith, erase, eq_refl, max_int64,
}
use video_processor_go.Config.{Config}
use video_processor_go.Backend.{Backend}
use video_processor_go.Backend.Laws.{BackendLaws, IsReachable}
use video_processor_go.Queue.State.{
  JobState, job_status_failed, job_status_pending, job_status_processing, job_key,
  processing_queue_name, dead_letter_queue_name,
}
use video_processor_go.Queue.Job.{set_job_processing}
use video_processor_go.Queue.Client.{consume_message}
use video_processor_go.Queue.View.{stored, parsed}
use video_processor_go.Queue.Names.{request-ne-dead, processing-ne-dead}
use video_processor_go.Queue.Updates.{set_job_processing-Updates}
use video_processor_go.Queue.Consume.{consume_message-Takes}
use video_processor_go.Queue.Reachable.{stored-set_job_processing, consume_message_ok}
use video_processor_go.Webhook.Payload.{blank_payload}
use video_processor_go.Worker.Settle.{Notice, settle_job}
use video_processor_go.Worker.Retry.{settle_job_requeues, settle_job_buries}

pub erase-head : (v : String) (l : List String) → erase v (v ∷ l) ≡ l
unfolding erase
erase-head v l = rw (eq_refl v) refl

alone-rest : (v : String) (rest : List String) → v ∷ [] ≡ rest ++ (v ∷ []) → rest ≡ []
alone-rest v [] h = refl
alone-rest v (x ∷ []) h = cc
alone-rest v (x ∷ y ∷ l) h = cc

-- The notice of a permanent failure, if the job has a callback address.
abbrev pub failure_notice : String → String → Option Notice
failure_notice video_id address =
    if str_eq address ""
    then none
    else some (record { callback_url = address; payload = blank_payload video_id false })

module _ (b : Backend) (cfg : Config) where
  open b use {Store}

  unfoldable pub settle_taken : Error → Result String → Eff Store (Option Notice)
  settle_taken job_err (err e) s = (none, s)
  settle_taken job_err (ok video_id) s =
      settle_job b cfg video_id (some job_err) (set_job_processing b video_id s).1

  -- A call of processNextMessage and its goroutine when the download, the pipeline or the upload of
  -- the video fails with that error: none of these touches the queues or the jobs' states. Without a
  -- message the call ends. (A failure of SetJobProcessing is only logged.)
  unfoldable pub failing_round : Error → Eff Store (Option Notice)
  unfolding settle_taken
  failing_round job_err s = let m = consume_message b cfg s in settle_taken job_err m.0 m.1

  unfoldable pub failing_rounds : List Error → Eff Store (List (Option Notice))
  failing_rounds [] s = ([], s)
  failing_rounds (e ∷ es) s =
      let r = failing_round e s in let rest = failing_rounds es r.1 in (r.0 ∷ rest.0, rest.1)

module _ (b : Backend) (laws : BackendLaws b) (live : IsReachable b laws) (cfg : Config)
    (video_id address : String) (working dead : List String) where
  open laws use {value, list}

  -- The job alone waits, in a state with `r` failures; `working` and `dead` are the other queues.
  pub record Waits (r : ℕ) (s : b.Store) : Type 0 where
    pub waiting : list s cfg.processing_request_queue ≡ video_id ∷ []
    pub processing : list s (processing_queue_name cfg) ≡ working
    pub buried : list s (dead_letter_queue_name cfg) ≡ dead
    pub old : JobState
    pub state : stored b laws s video_id ≡ some old
    pub count : old.retry_count ≡ pos r
    pub callback : old.callback_url ≡ address

  -- The job is in the dead letter queue, failed with that error, after `r` failures.
  pub record Rests (r : ℕ) (job_err : Error) (s : b.Store) : Type 0 where
    pub waiting : list s cfg.processing_request_queue ≡ []
    pub processing : list s (processing_queue_name cfg) ≡ working
    pub buried : list s (dead_letter_queue_name cfg) ≡ video_id ∷ dead
    pub last : JobState
    pub state : stored b laws s video_id ≡ some last
    pub status : last.status ≡ job_status_failed
    pub error : last.error ≡ job_err
    pub count : last.retry_count ≡ pos r
    pub callback : last.callback_url ≡ address

  -- The job is being worked on, after `r` failures.
  pub record Works (r : ℕ) (s : b.Store) : Type 0 where
    pub waiting : list s cfg.processing_request_queue ≡ []
    pub processing : list s (processing_queue_name cfg) ≡ video_id ∷ working
    pub buried : list s (dead_letter_queue_name cfg) ≡ dead
    pub old : JobState
    pub state : stored b laws s video_id ≡ some old
    pub count : old.retry_count ≡ pos r
    pub callback : old.callback_url ≡ address

  pub taken_ok : {r : ℕ} {s : b.Store} → Waits r s → (consume_message b cfg s).0 ≡ ok video_id
  taken_ok {r} {s} w = consume_message_ok b laws live cfg video_id [] s w.waiting

  pub taken-Works :
      {r : ℕ} {s : b.Store}
      → Waits r s
      → Works r (set_job_processing b video_id (consume_message b cfg s).1).1
  taken-Works {r} {s} w =
      let m = consume_message b cfg s in
      let c = consume_message-Takes b laws cfg s in
      let (rest, was, left, came) = c.taken video_id (taken_ok w) in
      let o = (set_job_processing-Updates b laws video_id m.1).0 in
      let has = ap (parsed b laws) (c.values (job_key video_id)) ∙ w.state in
      let (now, has1) = stored-set_job_processing b laws live video_id m.1 has in
      record {
        waiting = o.lists _ ∙ left ∙ alone-rest video_id rest (sym w.waiting ∙ was);
        processing = o.lists _ ∙ came ∙ ap (λ l. video_id ∷ l) w.processing;
        buried = o.lists _ ∙ c.others _ (request-ne-dead cfg) (processing-ne-dead cfg) ∙ w.buried;
        old = record w.old { status = job_status_processing; updated_at = now };
        state = has1;
        count = w.count;
        callback = w.callback;
      }

  pub round-Waits :
      (job_err : Error) {r : ℕ} {s : b.Store}
      → Waits r s
      → r < 3
      → let (notice, t) = failing_round b cfg job_err s in (notice ≡ none) × Waits (r + 1) t
  unfolding failing_round
  round-Waits job_err {r} {s} w lt =
      let m = consume_message b cfg s in
      let p = set_job_processing b video_id m.1 in
      let k = taken-Works w in
      let q = settle_job_requeues b laws live cfg video_id job_err p.1 k.state r k.count lt in
      let (now, has) = q.state in
      rw (taken_ok w) (
        q.silent,
        record {
          waiting = q.waits ∙ ap (λ l. video_id ∷ l) k.waiting;
          processing = q.released ∙ ap (erase video_id) k.processing ∙ erase-head video_id working;
          buried = q.not_dead ∙ k.buried;
          old = record k.old {
            status = job_status_pending;
            error = job_err;
            retry_count = pos (r + 1);
            updated_at = now;
          };
          state = has;
          count = refl;
          callback = k.callback;
        },
      )

  pub round-Rests :
      (job_err : Error) {r : ℕ} {s : b.Store}
      → Waits r s
      → 3 ≤ r
      → r < max_int64
      → let (notice, t) = failing_round b cfg job_err s in
        (notice ≡ failure_notice video_id address) × Rests (r + 1) job_err t
  unfolding failing_round
  round-Rests job_err {r} {s} w le lt =
      let m = consume_message b cfg s in
      let p = set_job_processing b video_id m.1 in
      let k = taken-Works w in
      let q = settle_job_buries b laws live cfg video_id job_err p.1 k.state r k.count le lt in
      let (now, has) = q.state in
      rw (taken_ok w) (
        q.announced ∙ ap (failure_notice video_id) k.callback,
        record {
          waiting = q.not_waiting ∙ k.waiting;
          processing = q.released ∙ ap (erase video_id) k.processing ∙ erase-head video_id working;
          buried = q.dead ∙ ap (λ l. video_id ∷ l) k.buried;
          last = record k.old {
            status = job_status_failed;
            error = job_err;
            retry_count = pos (r + 1);
            updated_at = now;
          };
          state = has;
          status = refl;
          error = refl;
          count = refl;
          callback = k.callback;
        },
      )

  -- While Redis can be reached, a job that waits alone with no failure and whose work fails in each
  -- round is put back three times and buried by the fourth round, not before: the first three
  -- rounds announce nothing, the fourth announces the failure if there is a callback address. Then
  -- no job waits, the processing list is as at the beginning, the dead letter queue has the job at
  -- its head, and its state is failed with four failures and the last error.
  pub failing_rounds_four :
      (e1 e2 e3 e4 : Error) {s : b.Store}
      → Waits 0 s
      → let (notices, t) = failing_rounds b cfg (e1 ∷ e2 ∷ e3 ∷ e4 ∷ []) s in
        (notices ≡ none ∷ none ∷ none ∷ failure_notice video_id address ∷ []) × Rests 4 e4 t
  unfolding failing_rounds
  failing_rounds_four e1 e2 e3 e4 w =
      let (n1, w1) = round-Waits e1 w (omega arith) in
      let (n2, w2) = round-Waits e2 w1 (omega arith) in
      let (n3, w3) = round-Waits e3 w2 (omega arith) in
      let (n4, w4) = round-Rests e4 w3 (omega arith) (omega arith) in (cc, w4)
