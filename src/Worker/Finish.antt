-- ===== src/Worker/Finish.antt =====
-- The end of a job whose result is published (`processNextMessage` of main.go), while Redis can be
-- reached.
use video_processor_go.Base.{
  String, Option, none, some, ◌∷◌, ◌≡◌, ◌≢◌, refl, sym, ap, ◌∙◌, ℤ, str_eq, erase, if◌then◌else◌,
}
use video_processor_go.Config.{Config}
use video_processor_go.Backend.{Backend}
use video_processor_go.Backend.Laws.{BackendLaws, IsReachable}
use video_processor_go.Queue.State.{JobState, job_key, processing_queue_name}
use video_processor_go.Queue.Job.{done_state, set_job_done, get_job_state}
use video_processor_go.Queue.Client.{publish_success_message}
use video_processor_go.Queue.View.{stored, parsed, get_job_state-OnlyJob}
use video_processor_go.Queue.Moves.{
  publish_success_message-Pushes, publish_success_message-value, acknowledge_message-Removes,
}
use video_processor_go.Queue.Updates.{set_job_done-Updates}
use video_processor_go.Queue.Reachable.{
  publish_success_message_ok, stored-set_job_done, get_job_state_ok, acknowledge_message_ok,
}
use video_processor_go.Pipeline.Result.{ProcessingResult}
use video_processor_go.Worker.Artifacts.{build_job_artifacts, to_job_metadata}
use video_processor_go.Worker.Report.{report, notification-done_state}
use video_processor_go.Worker.Settle.{Notice, notice_of, settle_job, settle_error}
use video_processor_go.Worker.Round.{
  Ending, Report, processed_id_of, announce, conclude, notice_found,
}
use video_processor_go.Worker.Refinement.{settled}

-- The notice of a success, if the job has a callback address.
abbrev pub success_notice : String → ProcessingResult → String → Option Notice
success_notice video_id result address =
    if str_eq address ""
    then none
    else some (record {
      callback_url = address;
      payload = report video_id (processed_id_of video_id) result;
    })

-- The state of a job that was done at `now` with that result.
abbrev pub final_state : String → ProcessingResult → JobState → ℤ → JobState
final_state video_id result old now =
    done_state (build_job_artifacts video_id (processed_id_of video_id) result)
      (to_job_metadata result) (record old { updated_at = now })

module _ (b : Backend) (laws : BackendLaws b) (live : IsReachable b laws) (cfg : Config) where
  open laws use {value, list}

  -- The job is announced in the finished queue and has left the processing list, its state is done
  -- with the result, and the notice is the report of the result.
  pub record Published (video_id : String) (result : ProcessingResult) (s : b.Store)
      (old : JobState) (ending : Ending) (t : b.Store) : Type 0 where
    pub no_error : ending.job_err ≡ none
    pub notice : ending.notice ≡ success_notice video_id result old.callback_url
    pub finished :
        list t cfg.processing_finished_queue
        ≡ processed_id_of video_id ∷ list s cfg.processing_finished_queue
    pub others : (q : String) → cfg.processing_finished_queue ≢ q → list t q ≡ list s q
    pub state : (now : ℤ) × (stored b laws t video_id ≡ some (final_state video_id result old now))

  notice_of-final_state :
      (video_id : String) (result : ProcessingResult) (old : JobState) (now : ℤ)
      → notice_of video_id (final_state video_id result old now)
        ≡ success_notice video_id result old.callback_url
  unfolding notice_of done_state
  notice_of-final_state video_id result old now =
      rw
        (notification-done_state video_id (processed_id_of video_id) result
          (record old { updated_at = now }))
        refl

  stored-get_job_state :
      (video_id : String) (s : b.Store)
      → stored b laws (get_job_state b video_id s).1 video_id ≡ stored b laws s video_id
  unfolding get_job_state
  stored-get_job_state video_id s = ap (parsed b laws) (laws.value-get _ _ s)

  announce-Published :
      (video_id : String) (result : ProcessingResult) (s : b.Store) {old : JobState}
      → stored b laws s video_id ≡ some old
      → let (ending, t) = announce b cfg video_id result s in
        Published video_id result s old ending t
  unfolding announce conclude notice_found done_state
  announce-Published video_id result s {old} has =
      let p = publish_success_message b cfg (processed_id_of video_id) s in
      let push = publish_success_message-Pushes b laws cfg (processed_id_of video_id) s in
      let sent = publish_success_message_ok b laws live cfg (processed_id_of video_id) s in
      let kept =
        ap (parsed b laws)
          (publish_success_message-value b laws cfg (processed_id_of video_id) (job_key video_id) s)
        ∙ has in
      let artifacts = build_job_artifacts video_id (processed_id_of video_id) result in
      let d = set_job_done b video_id artifacts (to_job_metadata result) p.1 in
      let o = (set_job_done-Updates b laws video_id artifacts (to_job_metadata result) p.1).0 in
      let (now, done) =
        stored-set_job_done b laws live video_id artifacts (to_job_metadata result) p.1 kept in
      let g = get_job_state-OnlyJob b laws video_id video_id d.1 in
      rw sent (record {
        no_error = refl;
        notice =
            rw (get_job_state_ok b laws live video_id d.1 done)
              (notice_of-final_state video_id result old now);
        finished = g.lists _ ∙ o.lists _ ∙ push.pushed sent;
        others = λ q n. g.lists q ∙ o.lists q ∙ push.others q n;
        state = (now, stored-get_job_state video_id d.1 ∙ done);
      })

  -- A job that is being worked on and whose result is published, settled and reported.
  pub record Finished (video_id : String) (result : ProcessingResult) (s : b.Store) (old : JobState)
      (r : Report) (t : b.Store) : Type 0 where
    pub reported : r ≡ record {
      error = none;
      success = success_notice video_id result old.callback_url;
      failure = none;
    }
    pub finished :
        list t cfg.processing_finished_queue
        ≡ processed_id_of video_id ∷ list s cfg.processing_finished_queue
    pub released :
        list t (processing_queue_name cfg) ≡ erase video_id (list s (processing_queue_name cfg))
    pub others :
        (q : String)
        → cfg.processing_finished_queue ≢ q
        → processing_queue_name cfg ≢ q
        → list t q ≡ list s q
    pub state : (now : ℤ) × (stored b laws t video_id ≡ some (final_state video_id result old now))

  pub settled-Finished :
      (apart : cfg.processing_finished_queue ≢ processing_queue_name cfg) (video_id : String)
      (result : ProcessingResult) (s : b.Store) {old : JobState}
      → stored b laws s video_id ≡ some old
      → let (r, t) = settled b cfg video_id (announce b cfg video_id result s) in
        Finished video_id result s old r t
  unfolding settle_job settle_error
  settled-Finished apart video_id result s has =
      let p = announce-Published video_id result s has in
      let published = (announce b cfg video_id result s).1 in
      let a = acknowledge_message-Removes b laws cfg video_id published in
      let (now, done) = p.state in
      rw p.no_error (record {
        reported = rw p.notice refl;
        finished = a.others _ (λ e. apart (sym e)) ∙ p.finished;
        released =
            a.removed (acknowledge_message_ok b laws live cfg video_id published)
            ∙ ap (erase video_id) (p.others _ apart);
        others = λ q n m. a.others q m ∙ p.others q n;
        state = (now, ap (parsed b laws) (a.values (job_key video_id)) ∙ done);
      })
