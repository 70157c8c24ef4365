-- ===== src/Queue/Rescue.antt =====
-- What the recovery does with a job that is stuck (recoverStuckJobs of queue/client.go).
use video_processor_go.Base.{
  String, some, ◌∷◌, true, ◌≡◌, ◌≢◌, sym, ◌∙◌, ap, ℤ, ◌<ℤ◌, unix, increment, arith, erase, eq_iff,
}
use video_processor_go.Config.{Config}
use video_processor_go.Backend.{Backend}
use video_processor_go.Backend.Laws.{BackendLaws, IsReachable}
use video_processor_go.Queue.State.{
  JobState, job_key, job_status_pending, job_status_processing, processing_queue_name,
  dead_letter_queue_name,
}
use video_processor_go.Queue.Job.{set_job_state, get_job_state}
use video_processor_go.Queue.Client.{is_stuck, rescue, recovered_state, recover_job}
use video_processor_go.Queue.View.{
  parsed, get_job_state-OnlyJob, set_job_state-OnlyJob, stored, stored-set_job_state,
}
use video_processor_go.Queue.Names.{request-ne-processing, request-ne-dead, processing-ne-dead}
use video_processor_go.Queue.Reachable.{get_job_state_ok, set_job_state_ok}

pub stuck_lem :
    (threshold : ℤ) (state : JobState)
    → state.status ≡ job_status_processing
    → state.updated_at <ℤ threshold
    → is_stuck threshold state ≡ true
unfolding is_stuck
stuck_lem threshold state h lt = ground (arith, eq_iff state.status job_status_processing)

module _ (b : Backend) (laws : BackendLaws b) (live : IsReachable b laws) (cfg : Config) where
  open laws use {list}

  -- The job waits again, pending and with one retry more.
  pub record IsRecovered (video_id : String) (old : JobState) (s t : b.Store) : Type 0 where
    pub waits : list t cfg.processing_request_queue ≡ video_id ∷ list s cfg.processing_request_queue
    pub released :
        list t (processing_queue_name cfg) ≡ erase video_id (list s (processing_queue_name cfg))
    pub not_dead : list t (dead_letter_queue_name cfg) ≡ list s (dead_letter_queue_name cfg)
    pub state :
        (now : ℤ) × (stored b laws t video_id
          ≡ some (record old {
            status = job_status_pending;
            retry_count = increment old.retry_count;
            updated_at = now;
          }))

  pub rescue-IsRecovered :
      (video_id : String) (old : JobState) (s : b.Store)
      → IsRecovered video_id old s (rescue b cfg video_id old s).1
  unfolding rescue recovered_state
  rescue-IsRecovered video_id old s =
      let new = recovered_state old in
      let w = set_job_state b video_id new s in
      let o = set_job_state-OnlyJob b laws video_id new s in
      let written = set_job_state_ok b laws live video_id new s in
      let working = processing_queue_name cfg in
      let request = cfg.processing_request_queue in
      let r = b.lrem working video_id w.1 in
      let out = laws.list-lrem_self working video_id w.1 (live.lrem_ok _ _ _) in
      let apart : request ≢ working = request-ne-processing cfg in
      rw written (record {
        waits =
            laws.list-lpush_self request video_id r.1 (live.lpush_ok _ _ _)
            ∙ ap (λ l. video_id ∷ l)
                (laws.list-lrem_ne working video_id request w.1 (λ x. apart (sym x))
                  ∙ o.lists request);
        released =
            laws.list-lpush_ne request video_id working r.1 apart
            ∙ out
            ∙ ap (erase video_id) (o.lists working);
        not_dead =
            laws.list-lpush_ne request video_id _ r.1 (request-ne-dead cfg)
            ∙ laws.list-lrem_ne working video_id _ w.1 (processing-ne-dead cfg)
            ∙ o.lists _;
        state = (
          unix (b.clock s).0,
          ap (parsed b laws) (
                laws.value-lpush request video_id (job_key video_id) r.1
                ∙ laws.value-lrem working video_id (job_key video_id) w.1)
              ∙ stored-set_job_state b laws video_id new s written,
        );
      })

  -- While Redis can be reached, recovery puts a job whose stored state is `processing` and was
  -- updated before the threshold at the head of the request queue, pending and with its retry count
  -- incremented, and takes its first occurrence out of the processing list. However large the retry
  -- count is, the dead letter queue stays as it was.
  pub recover_job-IsRecovered :
      (threshold : ℤ) (video_id : String) (s : b.Store) {old : JobState}
      → stored b laws s video_id ≡ some old
      → old.status ≡ job_status_processing
      → old.updated_at <ℤ threshold
      → IsRecovered video_id old s (recover_job b cfg threshold video_id s).1
  unfolding recover_job
  recover_job-IsRecovered threshold video_id s {old} has working late =
      let g = get_job_state b video_id s in
      let v = rescue-IsRecovered video_id old g.1 in
      let o = get_job_state-OnlyJob b laws video_id video_id s in
      rw (get_job_state_ok b laws live video_id s has, stuck_lem threshold old working late)
        (record {
          waits = v.waits ∙ ap (λ l. video_id ∷ l) (o.lists _);
          released = v.released ∙ ap (erase video_id) (o.lists _);
          not_dead = v.not_dead ∙ o.lists _;
          state = v.state;
        })
