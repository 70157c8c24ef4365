-- ===== src/Worker/Turn.antt =====
-- One round of a worker (main.go) on a job that waits alone, while Redis can be reached.
use video_processor_go.Base.{
  ℕ, suc, ◌+◌, ◌<◌, ◌≤◌, String, Option, none, some, List, [], ◌∷◌, Result, err, ok, ◌≡◌, ◌≢◌, ◌⊎◌,
  inl, inr, refl, sym, ap, ◌∙◌, subst, Error, pos, arith, max_int64, erase, leb, Bool-cases,
}
use video_processor_go.Config.{Config}
use video_processor_go.Backend.{Backend}
use video_processor_go.Backend.Laws.{BackendLaws, IsReachable}
use video_processor_go.Queue.State.{
  JobState, job_status_done, processing_queue_name, dead_letter_queue_name,
}
use video_processor_go.Queue.Names.{request-ne-processing, processing-ne-dead}
use video_processor_go.Queue.View.{stored}
use video_processor_go.Queue.Job.{done_state}
use video_processor_go.Pipeline.Result.{ProcessingResult}
use video_processor_go.Worker.Artifacts.{build_job_artifacts}
use video_processor_go.Worker.Settle.{Notice}
use video_processor_go.Worker.Lifecycle.{
  Waits, Rests, Works, failing_round, failure_notice, erase-head, taken_ok, taken-Works,
  round-Waits, round-Rests,
}
use video_processor_go.Worker.Round.{Report, processed_id_of}
use video_processor_go.Worker.Refinement.{QueueRound, reported_failure}
use video_processor_go.Worker.Finish.{Finished, settled-Finished, success_notice}

-- The report of a round that failed with that error.
abbrev pub failure_report : Error → Option Notice → Report
failure_report e notice = record { error = some e; success = none; failure = notice }

module _ (b : Backend) (laws : BackendLaws b) (live : IsReachable b laws) (cfg : Config)
    (apart_request : cfg.processing_finished_queue ≢ cfg.processing_request_queue)
    (apart_processing : cfg.processing_finished_queue ≢ processing_queue_name cfg)
    (apart_dead : cfg.processing_finished_queue ≢ dead_letter_queue_name cfg)
    (video_id address : String) (working dead : List String) where
  open laws use {list}

  -- The job is done with that result after `r` failures, is in no queue, and its success has been
  -- announced: in the finished queue, and in a notice if there is an address.
  pub record IsDone (result : ProcessingResult) (r : ℕ) (report : Report) (t : b.Store)
      : Type 0 where
    pub reported :
        report
        ≡ record { error = none; success = success_notice video_id result address; failure = none }
    pub before : List String
    pub finished : list t cfg.processing_finished_queue ≡ processed_id_of video_id ∷ before
    pub waiting : list t cfg.processing_request_queue ≡ []
    pub processing : list t (processing_queue_name cfg) ≡ working
    pub buried : list t (dead_letter_queue_name cfg) ≡ dead
    pub last : JobState
    pub state : stored b laws t video_id ≡ some last
    pub status : last.status ≡ job_status_done
    pub error : last.error ≡ ""
    pub artifacts :
        last.artifacts ≡ some (build_job_artifacts video_id (processed_id_of video_id) result)
    pub count : last.retry_count ≡ pos r
    pub callback : last.callback_url ≡ address

  -- The round failed, and the job waits once more or rests in the dead letter queue.
  abbrev pub FailedRound : Result ProcessingResult → ℕ → Report → b.Store → Type 0
  FailedRound said r report t =
      (e : Error) × (said ≡ err e)
      × (((r < 3)
            × (report ≡ failure_report e none)
            × Waits b laws live cfg video_id address working dead (suc r) t)
          ⊎ ((3 ≤ r)
              × (report ≡ failure_report e (failure_notice video_id address))
              × Rests b laws live cfg video_id address working dead (suc r) e t))

  abbrev pub DoneRound : Result ProcessingResult → ℕ → Report → b.Store → Type 0
  DoneRound said r report t =
      (result : ProcessingResult) × (said ≡ ok result) × IsDone result r report t

  Finished-IsDone :
      {r : ℕ} {s : b.Store} (result : ProcessingResult) (report : Report) (t : b.Store)
      → (k : Works b laws live cfg video_id address working dead r s)
      → Finished b laws live cfg video_id result s k.old report t
      → IsDone result r report t
  unfolding done_state
  Finished-IsDone result report t k f = record {
    reported =
        f.reported
        ∙ ap
            (λ a. record {
              error = none;
              success = success_notice video_id result a;
              failure = none;
            })
            k.callback;
    before = _;
    finished = f.finished;
    waiting = f.others _ apart_request (λ e. request-ne-processing cfg (sym e)) ∙ k.waiting;
    processing = f.released ∙ ap (erase video_id) k.processing ∙ erase-head video_id working;
    buried = f.others _ apart_dead (processing-ne-dead cfg) ∙ k.buried;
    last = _;
    state = (f.state).1;
    status = refl;
    error = refl;
    artifacts = refl;
    count = k.count;
    callback = k.callback;
  }

  round-failed :
      (r : ℕ) (s : b.Store)
      → Waits b laws live cfg video_id address working dead r s
      → r < max_int64
      → (said : Result ProcessingResult) (e : Error) → said ≡ err e
      → let (report, t) = reported_failure b cfg e s in FailedRound said r report t
  round-failed r s w small said e told_so =
      let next : r + 1 ≡ suc r = omega arith in
      (
        e,
        told_so,
        elim (Bool-cases (leb 3 r)) [
          | inr few ↦
              let lt : r < 3 = ground (arith, few) in
              let (quiet, waits) =
                round-Waits b laws live cfg video_id address working dead e w lt in
              inl (
                lt,
                ap (failure_report e) quiet,
                subst
                    (λ n.
                      Waits b laws live cfg video_id address working dead n
                        (failing_round b cfg e s).1)
                    next waits,
              )
          | inl many ↦
              let le : 3 ≤ r = ground (arith, many) in
              let (told, rests) =
                round-Rests b laws live cfg video_id address working dead e w le small in
              inr (
                le,
                ap (failure_report e) told,
                subst
                    (λ n.
                      Rests b laws live cfg video_id address working dead n e
                        (failing_round b cfg e s).1)
                    next rests,
              )
        ],
      )

  pub queue_round :
      {r : ℕ} {s : b.Store} (said : String → Result ProcessingResult) (x : Report × b.Store)
      → Waits b laws live cfg video_id address working dead r s
      → r < max_int64
      → QueueRound b cfg said s x
      → FailedRound (said video_id) r x.0 x.1 ⊎ DoneRound (said video_id) r x.0 x.1
  queue_round said _ w small (QueueRound.idle e silence) =
      absurd (ground (arith, taken_ok b laws live cfg video_id address working dead w, silence))
  queue_round said _ w small (QueueRound.fails v e came told) =
      let came_too = taken_ok b laws live cfg video_id address working dead w in
      let same : v ≡ video_id = cc in
      inl (round-failed _ _ w small (said video_id) e (ap said (sym same) ∙ told))
  queue_round said _ w small (QueueRound.publishes v result came told) =
      let k = taken-Works b laws live cfg video_id address working dead w in
      let came_too = taken_ok b laws live cfg video_id address working dead w in
      let same : v ≡ video_id = cc in
      rw same (
        inr (
          result,
          ap said (sym same) ∙ told,
          Finished-IsDone result _ _ k
              (settled-Finished b laws live cfg apart_processing video_id result _ k.state),
        ))
