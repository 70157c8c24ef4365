-- ===== src/Queue/Reachable.antt =====
-- The queue's operations while Redis can be reached.
use video_processor_go.Base.{
  List, [], ◌∷◌, ◌++◌, String, Option, none, some, ◌≡◌, inl, inr, ◌∙◌, ap, ℤ, unix, Error, ok,
  arith, Option-cases,
}
use video_processor_go.Config.{Config}
use video_processor_go.Backend.{Backend, execute}
use video_processor_go.Backend.Laws.{BackendLaws, IsReachable}
use video_processor_go.Queue.State.{
  JobState, JobArtifacts, VideoMetadata, job_status_pending, job_status_processing, job_key,
}
use video_processor_go.Queue.Job.{
  failed_state, processing_state, done_state, set_job_processing, set_job_done, set_job_state,
  get_job_state, existing_state, set_job_failed, push_again, requeue_job, move_to_dlq,
}
use video_processor_go.Queue.Client.{acknowledge_message, consume_message, publish_success_message}
use video_processor_go.Queue.View.{parsed, stored, stored-set_job_state}

module _ (b : Backend) (laws : BackendLaws b) (live : IsReachable b laws) where
  open laws use {value, list}

  pub get_job_state_ok :
      (video_id : String) (s : b.Store) {old : JobState}
      → stored b laws s video_id ≡ some old
      → (get_job_state b video_id s).0 ≡ ok old
  unfolding get_job_state
  get_job_state_ok video_id s {old} h = elim (Option-cases (value s (job_key video_id))) [
    | inl e ↦ ground (arith, e)
    | inr (text, e) ↦ ground (arith, e, live.get_ok (job_key video_id) text s)
  ]

  pub set_job_state_ok :
      (video_id : String) (new : JobState) (s : b.Store) → (set_job_state b video_id new s).0 ≡ none
  unfolding set_job_state
  set_job_state_ok video_id new s =
      let (text, e) = live.marshal_ok (record new { updated_at = unix (b.clock s).0 }) in
      rw e (live.set_ok (job_key video_id) text _ _)

  pub existing_state_ok :
      (video_id : String) (s : b.Store) {old : JobState}
      → stored b laws s video_id ≡ some old
      → (existing_state b video_id s).0 ≡ old
  unfolding existing_state
  existing_state_ok video_id s h = ground (arith, get_job_state_ok video_id s h)

  pub set_job_failed_ok :
      (video_id : String) (job_err : Error) (s : b.Store) {old : JobState}
      → stored b laws s video_id ≡ some old
      → (set_job_failed b video_id job_err s).0 ≡ ok (failed_state job_err old)
  unfolding set_job_failed
  set_job_failed_ok video_id job_err s {old} h =
      let r = existing_state b video_id s in
      rw (set_job_state_ok video_id (failed_state job_err r.0) r.1)
        (ap (λ x. ok (failed_state job_err x)) (existing_state_ok video_id s h))

  pub stored-set_job_failed :
      (video_id : String) (job_err : Error) (s : b.Store) {old : JobState}
      → stored b laws s video_id ≡ some old
      → (now : ℤ) × (stored b laws (set_job_failed b video_id job_err s).1 video_id
          ≡ some (record (failed_state job_err old) { updated_at = now }))
  unfolding set_job_failed
  stored-set_job_failed video_id job_err s {old} h =
      let r = existing_state b video_id s in
      let new = failed_state job_err r.0 in
      let now = unix (b.clock r.1).0 in
      (
        now,
        stored-set_job_state b laws video_id new r.1 (set_job_state_ok video_id new r.1)
            ∙ ap (λ x. some (record (failed_state job_err x) { updated_at = now }))
                (existing_state_ok video_id s h),
      )

  pub requeue_job_ok :
      (cfg : Config) (video_id : String) (s : b.Store) {old : JobState}
      → stored b laws s video_id ≡ some old
      → (requeue_job b cfg video_id s).0 ≡ none
  unfolding requeue_job push_again
  requeue_job_ok cfg video_id s {old} h = rw (get_job_state_ok video_id s h) (
      rw
        (set_job_state_ok video_id (record old { status = job_status_pending })
          (get_job_state b video_id s).1)
        (live.lpush_ok _ _ _))

  -- The state after a requeue: pending again, with nothing else changed but the time.
  pub stored-requeue_job :
      (cfg : Config) (video_id : String) (s : b.Store) {old : JobState}
      → stored b laws s video_id ≡ some old
      → (now : ℤ) × (stored b laws (requeue_job b cfg video_id s).1 video_id
          ≡ some (record old { status = job_status_pending; updated_at = now }))
  unfolding requeue_job push_again
  stored-requeue_job cfg video_id s {old} h =
      let new : JobState = record old { status = job_status_pending } in
      let t = (get_job_state b video_id s).1 in
      let w = set_job_state b video_id new t in
      let written = set_job_state_ok video_id new t in
      let kept = laws.value-lpush cfg.processing_request_queue video_id (job_key video_id) w.1 in
      (
        unix (b.clock t).0,
        rw (get_job_state_ok video_id s h) (
            rw written
              (ap (parsed b laws) kept ∙ stored-set_job_state b laws video_id new t written)),
      )

  pub move_to_dlq_ok :
      (cfg : Config) (video_id : String) (s : b.Store) → (move_to_dlq b cfg video_id s).0 ≡ none
  unfolding move_to_dlq
  move_to_dlq_ok cfg video_id s = live.lpush_ok _ _ _

  pub acknowledge_message_ok :
      (cfg : Config) (video_id : String) (s : b.Store)
      → (acknowledge_message b cfg video_id s).0 ≡ none
  unfolding acknowledge_message execute
  acknowledge_message_ok cfg video_id s = rw (live.refuses_none s) (rw (live.lrem_ok _ _ _))

  -- The state after an update by `f`.
  stored-update :
      (f : JobState → JobState) (video_id : String) (s : b.Store) {old : JobState}
      → stored b laws s video_id ≡ some old
      → let r = existing_state b video_id s in
        (now : ℤ) × (stored b laws (set_job_state b video_id (f r.0) r.1).1 video_id
          ≡ some (record (f old) { updated_at = now }))
  stored-update f video_id s h =
      let r = existing_state b video_id s in
      let now = unix (b.clock r.1).0 in
      (
        now,
        stored-set_job_state b laws video_id (f r.0) r.1 (set_job_state_ok video_id (f r.0) r.1)
            ∙ ap (λ (x : JobState). some (record (f x) { updated_at = now }))
                (existing_state_ok video_id s h),
      )

  -- The state after the job is marked as processing.
  pub stored-set_job_processing :
      (video_id : String) (s : b.Store) {old : JobState}
      → stored b laws s video_id ≡ some old
      → (now : ℤ) × (stored b laws (set_job_processing b video_id s).1 video_id
          ≡ some (record old { status = job_status_processing; updated_at = now }))
  unfolding set_job_processing processing_state
  stored-set_job_processing video_id s h = stored-update processing_state video_id s h

  -- The state after the job is marked as done.
  pub stored-set_job_done :
      (video_id : String) (artifacts : JobArtifacts) (metadata : Option VideoMetadata) (s : b.Store)
      {old : JobState}
      → stored b laws s video_id ≡ some old
      → (now : ℤ) × (stored b laws (set_job_done b video_id artifacts metadata s).1 video_id
          ≡ some (record (done_state artifacts metadata old) { updated_at = now }))
  unfolding set_job_done
  stored-set_job_done video_id artifacts metadata s h =
      stored-update (done_state artifacts metadata) video_id s h

  pub publish_success_message_ok :
      (cfg : Config) (video_id : String) (s : b.Store)
      → (publish_success_message b cfg video_id s).0 ≡ none
  unfolding publish_success_message execute
  publish_success_message_ok cfg video_id s = rw (live.refuses_none s) (rw (live.lpush_ok _ _ _))

  pub consume_message_ok :
      (cfg : Config) (video_id : String) (rest : List String) (s : b.Store)
      → list s cfg.processing_request_queue ≡ rest ++ (video_id ∷ [])
      → (consume_message b cfg s).0 ≡ ok video_id
  unfolding consume_message execute
  consume_message_ok cfg video_id rest s h =
      rw (live.refuses_none s)
        (live.brpoplpush_ok _ _ video_id rest (b.refuses s).1 (laws.list-refuses _ s ∙ h))
