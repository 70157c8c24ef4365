-- ===== src/Worker/Stops.antt =====
-- A job over a round of a worker that may be stopped before any command (`processNextMessage` of
-- main.go).
use video_processor_go.Base.{
  String, none, ◌≡◌, ◌≢◌, inl, inr, ap, ◌≤◌, arith, count, Option-cases, Result, String-cases,
}
use video_processor_go.Config.{Config}
use video_processor_go.Backend.{Backend}
use video_processor_go.Backend.Laws.{BackendLaws, IsReachable}
use video_processor_go.Backend.Crash.{crashing, crash_laws}
use video_processor_go.Queue.State.{processing_queue_name}
use video_processor_go.Queue.Job.{set_job_done, get_job_state}
use video_processor_go.Queue.Client.{consume_message, acknowledge_message, publish_success_message}
use video_processor_go.Queue.View.{get_job_state-OnlyJob, OnlyJob-trans}
use video_processor_go.Queue.Updates.{set_job_processing-Updates, set_job_done-Updates}
use video_processor_go.Queue.Moves.{publish_success_message-Pushes}
use video_processor_go.Pipeline.Result.{ProcessingResult}
use video_processor_go.Worker.Artifacts.{to_job_metadata, build_job_artifacts}
use video_processor_go.Worker.Settle.{settle_job}
use video_processor_go.Worker.Lifecycle.{failing_round, settle_taken}
use video_processor_go.Worker.Round.{Report, processed_id_of, announce, conclude}
use video_processor_go.Worker.Refinement.{QueueRound, settled, begun_at}
use video_processor_go.Worker.Keeps.{Keeps, OnlyJob-Keeps, publish_success_message-Keeps}
use video_processor_go.Worker.Safe.{
  Safe, Keeps-Safe, consume_message-Safe, count-head, acknowledge_message-others,
  acknowledge_message-announced,
}
use video_processor_go.Worker.Crash.{settle_failed-Safe}

module _ (b : Backend) (laws : BackendLaws b) (live : IsReachable b laws) (cfg : Config)
    (apart_request : cfg.processing_finished_queue ≢ cfg.processing_request_queue)
    (apart_processing : cfg.processing_finished_queue ≢ processing_queue_name cfg) where
  abbrev c : Backend
  c = crashing b

  abbrev c_laws : BackendLaws c
  c_laws = crash_laws b laws

  begun-Safe :
      (video_id x : String) (w : c.Store)
      → Safe c c_laws cfg x w
      → Safe c c_laws cfg x (begun_at c cfg video_id w)
  begun-Safe video_id x w safe =
      let m = consume_message c cfg w in
      Keeps-Safe c c_laws cfg x
        (OnlyJob-Keeps c c_laws video_id (set_job_processing-Updates c c_laws video_id m.1).0)
        (consume_message-Safe c c_laws cfg apart_request apart_processing x w safe)

  -- The store after the calls that follow the publication.
  abbrev concluded : String → ProcessingResult → c.Store → c.Store
  concluded video_id result s =
      let d =
        set_job_done c video_id (build_job_artifacts video_id (processed_id_of video_id) result)
          (to_job_metadata result) s in
      (get_job_state c video_id d.1).1

  -- Only then is the job acknowledged.
  concluded-Safe :
      (video_id x : String) (result : ProcessingResult) (s : c.Store)
      → Safe c c_laws cfg x s
      → 1 ≤ count (processed_id_of video_id) (c_laws.list s cfg.processing_finished_queue)
      → Safe c c_laws cfg x (acknowledge_message c cfg video_id (concluded video_id result s)).1
  concluded-Safe video_id x result s safe told =
      let d =
        set_job_done c video_id (build_job_artifacts video_id (processed_id_of video_id) result)
          (to_job_metadata result) s in
      let k : Keeps c c_laws s (concluded video_id result s) = OnlyJob-Keeps c c_laws video_id (
        OnlyJob-trans c c_laws (set_job_done-Updates c c_laws video_id _ _ s).0
          (get_job_state-OnlyJob c c_laws video_id video_id d.1)) in
      elim (String-cases video_id x) [
        | inl same ↦
            let h = k.counts (processed_id_of video_id) cfg.processing_finished_queue in
            rw (← same) (
              inr (
                acknowledge_message-announced c c_laws cfg apart_request apart_processing video_id _
                  _ (omega arith)))
        | inr n ↦
            acknowledge_message-others c c_laws cfg apart_request apart_processing video_id x _ n
              (Keeps-Safe c c_laws cfg x k safe)
      ]

  announced :
      (video_id : String) (w : c.Store)
      → let p = publish_success_message c cfg (processed_id_of video_id) w in
        p.0 ≡ none
        → 1 ≤ count (processed_id_of video_id) (c_laws.list p.1 cfg.processing_finished_queue)
  announced video_id w fine =
      let p = publish_success_message-Pushes c c_laws cfg (processed_id_of video_id) w in
      let e = ap (count (processed_id_of video_id)) (p.pushed fine) in
      omega
        (arith, count-head (processed_id_of video_id) (c_laws.list w cfg.processing_finished_queue))

  published-Safe :
      (video_id x : String) (result : ProcessingResult) (w : c.Store)
      → Safe c c_laws cfg x w
      → Safe c c_laws cfg x (settled c cfg video_id (announce c cfg video_id result w)).1
  unfolding announce conclude settle_job
  published-Safe video_id x result w safe =
      let p = publish_success_message c cfg (processed_id_of video_id) w in
      elim (Option-cases p.0) [
        | inl fine ↦ rw fine (
            concluded-Safe video_id x result p.1
              (Keeps-Safe c c_laws cfg x (publish_success_message-Keeps c c_laws cfg _ w) safe)
              (announced video_id w fine))
        | inr (e, failure) ↦ rw failure (
            settle_failed-Safe b laws live cfg video_id apart_request apart_processing x _ p.1
              (Keeps-Safe c c_laws cfg x (publish_success_message-Keeps c c_laws cfg _ w) safe))
      ]

  pub round-Safe :
      (said : String → Result ProcessingResult) (x : String) (w : c.Store) {r : Report × c.Store}
      → QueueRound c cfg said w r
      → Safe c c_laws cfg x w
      → Safe c c_laws cfg x r.1
  unfolding failing_round settle_taken
  round-Safe said x w (QueueRound.idle e silence) safe =
      consume_message-Safe c c_laws cfg apart_request apart_processing x w safe
  round-Safe said x w (QueueRound.fails video_id e came told) safe = rw came (
      settle_failed-Safe b laws live cfg video_id apart_request apart_processing x e _
        (begun-Safe video_id x w safe))
  round-Safe said x w (QueueRound.publishes video_id result came told) safe =
      published-Safe video_id x result _ (begun-Safe video_id x w safe)
