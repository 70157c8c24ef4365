-- ===== src/Queue/Stranded.antt =====
-- A recovery that is stopped between its Redis commands (recoverStuckJobs of queue/client.go).
use video_processor_go.Base.{
  ℕ, zero, suc, String, some, ok, ◌∷◌, ◌≡◌, ◌≢◌, ◌≤◌, sym, refl, ◌∙◌, ap, ℤ, ◌<ℤ◌, unix, arith,
  erase,
}
use video_processor_go.Config.{Config}
use video_processor_go.Backend.{Backend}
use video_processor_go.Backend.Laws.{BackendLaws, IsReachable}
use video_processor_go.Backend.Crash.{crashing, crash_laws}
use video_processor_go.Queue.State.{
  JobState, job_key, job_ttl, job_status_processing, processing_queue_name, dead_letter_queue_name,
}
use video_processor_go.Queue.Job.{set_job_state, get_job_state}
use video_processor_go.Queue.Client.{rescue, recovered_state, recover_job}
use video_processor_go.Queue.View.{stored}
use video_processor_go.Queue.Names.{request-ne-processing, request-ne-dead, processing-ne-dead}
use video_processor_go.Queue.Reachable.{get_job_state_ok}
use video_processor_go.Queue.Rescue.{stuck_lem}

module _ (b : Backend) (laws : BackendLaws b) (live : IsReachable b laws) (cfg : Config)
    (video_id : String) where
  open laws use {list}

  abbrev c : Backend
  c = crashing b

  abbrev c_laws : BackendLaws c
  c_laws = crash_laws b laws

  -- The queues after a recovery that could send `n` commands.
  pub record IsCut (n : ℕ) (s t : b.Store) : Type 0 where
    -- before the removal
    pub untouched : n ≤ 2 → (q : String) → list t q ≡ list s q
    -- between the removal and the push
    pub released :
        3 ≤ n
        → list t (processing_queue_name cfg) ≡ erase video_id (list s (processing_queue_name cfg))
    pub stranded : n ≡ 3 → list t cfg.processing_request_queue ≡ list s cfg.processing_request_queue
    pub waits :
        4 ≤ n → list t cfg.processing_request_queue ≡ video_id ∷ list s cfg.processing_request_queue
    pub not_dead : list t (dead_letter_queue_name cfg) ≡ list s (dead_letter_queue_name cfg)

  found :
      (n : ℕ) (s : b.Store) {old : JobState}
      → stored b laws s video_id ≡ some old
      → (get_job_state c video_id (suc n, s)).0 ≡ ok old
  unfolding get_job_state
  found n s has = get_job_state_ok b laws live video_id s has

  -- The state that is written, and its text.
  abbrev restarted : JobState → b.Store → JobState
  restarted old s = record (recovered_state old) { updated_at = unix (b.clock s).0 }

  abbrev cut_removal : ℕ → b.Store → b.Store
  cut_removal zero s = s
  cut_removal (suc zero) s = (b.lrem (processing_queue_name cfg) video_id s).1
  cut_removal (suc (suc n)) s =
      (b.lpush cfg.processing_request_queue video_id
        (b.lrem (processing_queue_name cfg) video_id s).1).1

  written :
      (text : b.Value) (s : b.Store) (q : String)
      → list (b.set (job_key video_id) text job_ttl (b.clock s).1).1 q ≡ list s q
  written text s q = laws.list-set _ text q _ _ ∙ laws.list-clock q s

  removed :
      (s : b.Store)
      → list (b.lrem (processing_queue_name cfg) video_id s).1 (processing_queue_name cfg)
        ≡ erase video_id (list s (processing_queue_name cfg))
  removed s = laws.list-lrem_self _ video_id s (live.lrem_ok _ _ _)

  aside :
      (s : b.Store) (q : String)
      → q ≢ processing_queue_name cfg
      → list (b.lrem (processing_queue_name cfg) video_id s).1 q ≡ list s q
  aside s q n = laws.list-lrem_ne _ video_id q s (λ e. n (sym e))

  -- The store after the write, the removal and the push, as far as they are sent.
  abbrev cut : ℕ → b.Value → b.Store → b.Store
  cut zero text s = (b.clock s).1
  cut (suc n) text s = cut_removal n (b.set (job_key video_id) text job_ttl (b.clock s).1).1

  rescue-cut_store :
      (n : ℕ) (old : JobState) (s : b.Store) {text : b.Value}
      → b.marshal (restarted old s) ≡ ok text
      → ((rescue c cfg video_id old (n, s)).1).1 ≡ cut n text s
  unfolding rescue set_job_state
  rescue-cut_store zero old s e = rw e refl
  rescue-cut_store (suc zero) old s e = rw e (rw (live.set_ok _ _ _ _) refl)
  rescue-cut_store (suc (suc zero)) old s e = rw e (rw (live.set_ok _ _ _ _) refl)
  rescue-cut_store (suc (suc (suc n))) old s e = rw e (rw (live.set_ok _ _ _ _) refl)

  cut-IsCut : (n : ℕ) (text : b.Value) (s : b.Store) → IsCut (suc n) s (cut n text s)
  cut-IsCut zero text s = record {
    untouched = λ le q. laws.list-clock q s;
    released = λ le. absurd (omega arith);
    stranded = λ e. absurd (omega arith);
    waits = λ le. absurd (omega arith);
    not_dead = laws.list-clock _ s;
  }
  cut-IsCut (suc zero) text s = record {
    untouched = λ le q. written text s q;
    released = λ le. absurd (omega arith);
    stranded = λ e. absurd (omega arith);
    waits = λ le. absurd (omega arith);
    not_dead = written text s _;
  }
  cut-IsCut (suc (suc zero)) text s =
      let w = (b.set (job_key video_id) text job_ttl (b.clock s).1).1 in
      record {
        untouched = λ le. absurd (omega arith);
        released = λ le. removed w ∙ ap (erase video_id) (written text s _);
        stranded = λ e.
            aside w cfg.processing_request_queue (request-ne-processing cfg) ∙ written text s _;
        waits = λ le. absurd (omega arith);
        not_dead = aside w _ (λ e. processing-ne-dead cfg (sym e)) ∙ written text s _;
      }
  cut-IsCut (suc (suc (suc n))) text s =
      let w = (b.set (job_key video_id) text job_ttl (b.clock s).1).1 in
      let r = (b.lrem (processing_queue_name cfg) video_id w).1 in
      let pushed = λ (q : String) (ne : cfg.processing_request_queue ≢ q).
        laws.list-lpush_ne cfg.processing_request_queue video_id q r ne in
      record {
        untouched = λ le. absurd (omega arith);
        released = λ le.
            pushed _ (request-ne-processing cfg)
            ∙ removed w
            ∙ ap (erase video_id) (written text s _);
        stranded = λ e. absurd (omega arith);
        waits = λ le.
            laws.list-lpush_self _ video_id r (live.lpush_ok _ _ _)
            ∙ ap (λ l. video_id ∷ l)
                (aside w cfg.processing_request_queue (request-ne-processing cfg)
                  ∙ written text s _);
        not_dead =
            pushed _ (request-ne-dead cfg)
            ∙ aside w _ (λ e. processing-ne-dead cfg (sym e))
            ∙ written text s _;
      }

  IsCut-from :
      (n : ℕ) {s u t : b.Store} → ((q : String) → list u q ≡ list s q) → IsCut n u t → IsCut n s t
  IsCut-from n same k = record {
    untouched = λ le q. k.untouched le q ∙ same q;
    released = λ le. k.released le ∙ ap (erase video_id) (same _);
    stranded = λ e. k.stranded e ∙ same _;
    waits = λ le. k.waits le ∙ ap (λ l. video_id ∷ l) (same _);
    not_dead = k.not_dead ∙ same _;
  }

  rescue-IsCut :
      (n : ℕ) (old : JobState) (s : b.Store)
      → IsCut (suc n) s ((rescue c cfg video_id old (n, s)).1).1
  rescue-IsCut n old s =
      let (text, e) = live.marshal_ok (restarted old s) in
      rw (rescue-cut_store n old s e) (cut-IsCut n text s)

  -- While Redis can be reached, a recovery that is stopped after `n` of its Redis commands leaves a
  -- stuck job (its stored state is `processing` and was updated before the threshold) so. With two
  -- commands or fewer every queue is as it was. With three, the first occurrence of the job has left
  -- the processing list, and the request queue and the dead letter queue are as they were: the job
  -- is lost. With four or more it has left the processing list and is at the head of the request
  -- queue, and the dead letter queue is as it was.
  pub recover_job-IsCut :
      (threshold : ℤ) (n : ℕ) (s : b.Store) {old : JobState}
      → stored b laws s video_id ≡ some old
      → old.status ≡ job_status_processing
      → old.updated_at <ℤ threshold
      → IsCut n s ((recover_job c cfg threshold video_id (n, s)).1).1
  unfolding recover_job get_job_state
  recover_job-IsCut threshold zero s has working late = record {
    untouched = λ le q. refl;
    released = λ le. absurd (omega arith);
    stranded = λ e. absurd (omega arith);
    waits = λ le. absurd (omega arith);
    not_dead = refl;
  }
  recover_job-IsCut threshold (suc n) s {old} has working late =
      rw (found n s has, stuck_lem threshold old working late)
        (IsCut-from (suc n) (λ q. laws.list-get _ q s) (rescue-IsCut n old _))
