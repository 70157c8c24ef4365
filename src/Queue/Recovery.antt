-- ===== src/Queue/Recovery.antt =====
-- The recovery of jobs whose worker is gone (recoverStuckJobs of queue/client.go).
use video_processor_go.Base.{
  String, some, List, [], ◌∷◌, false, ◌≡◌, ◌≢◌, ◌⊎◌, inl, inr, sym, ◌∙◌, ap, ℤ, ◌≤ℤ◌, unix_before,
  arith, count, eq_iff, some_inj, Bool-cases, String-cases, Result-cases, Option-cases,
}
use video_processor_go.Config.{Config}
use video_processor_go.Backend.{Backend}
use video_processor_go.Backend.Laws.{BackendLaws}
use video_processor_go.Queue.State.{JobState, job_key, job_status_processing, processing_queue_name}
use video_processor_go.Queue.Job.{set_job_state, get_job_state}
use video_processor_go.Queue.Client.{
  is_stuck, rescue, recovered_state, recover_job, recover_jobs, recover_stuck_jobs,
}
use video_processor_go.Queue.View.{parsed, set_job_state-OnlyJob, stored, get_job_state-stored}
use video_processor_go.Queue.Undisturbed.{
  Undisturbed, Undisturbed-refl, Undisturbed-trans, OnlyJob-Undisturbed, get_job_state-Undisturbed,
  lrem-Undisturbed, lpush-Undisturbed,
}

not_stuck :
    (threshold : ℤ) (state : JobState)
    → (state.status ≢ job_status_processing) ⊎ (threshold ≤ℤ state.updated_at)
    → is_stuck threshold state ≡ false
unfolding is_stuck
not_stuck threshold state h = ground (arith, eq_iff state.status job_status_processing)

module _ (b : Backend) (laws : BackendLaws b) where
  open laws use {value, list}

  rescue-Undisturbed :
      (cfg : Config) (video_id other : String) (state : JobState) (s : b.Store)
      → video_id ≢ other
      → Undisturbed b laws other s (rescue b cfg video_id state s).1
  unfolding rescue
  rescue-Undisturbed cfg video_id other state s n =
      let w = set_job_state b video_id (recovered_state state) s in
      let o = set_job_state-OnlyJob b laws video_id (recovered_state state) s in
      let u = OnlyJob-Undisturbed b laws video_id other o n in
      let r = b.lrem (processing_queue_name cfg) video_id w.1 in
      elim (Option-cases w.0) [
        | inl e ↦ rw e (
            Undisturbed-trans b laws u (
              Undisturbed-trans b laws (lrem-Undisturbed b laws _ video_id other w.1 n)
                (lpush-Undisturbed b laws _ video_id other r.1 n)))
        | inr (x, e) ↦ rw e u
      ]

  module _ (cfg : Config) (threshold : ℤ) where
    -- Handling another job leaves this one alone.
    recover_job-Undisturbed_ne :
        (video_id other : String) (s : b.Store)
        → video_id ≢ other
        → Undisturbed b laws other s (recover_job b cfg threshold video_id s).1
    unfolding recover_job
    recover_job-Undisturbed_ne video_id other s n =
        let r = get_job_state b video_id s in
        let u = get_job_state-Undisturbed b laws video_id other s in
        elim (Result-cases r.0) [
          | inr (x, e) ↦ rw e u
          | inl (state, e) ↦ elim (Bool-cases (is_stuck threshold state)) [
            | inl stuck ↦
                rw (e, stuck)
                  (Undisturbed-trans b laws u (rescue-Undisturbed cfg video_id other state r.1 n))
            | inr fine ↦ rw (e, fine) u
          ]
        ]

    -- The job, if its state can be read, is not stuck.
    abbrev pub NotStuck : String → b.Store → Type 0
    NotStuck video_id s =
        (state : JobState)
        → stored b laws s video_id ≡ some state
        → is_stuck threshold state ≡ false

    recover_job-Undisturbed_self :
        (video_id : String) (s : b.Store)
        → NotStuck video_id s
        → Undisturbed b laws video_id s (recover_job b cfg threshold video_id s).1
    unfolding recover_job
    recover_job-Undisturbed_self video_id s h =
        let u = get_job_state-Undisturbed b laws video_id video_id s in
        elim (Result-cases (get_job_state b video_id s).0) [
          | inr (x, e) ↦ rw e u
          | inl (state, e) ↦
              let fine = h state (get_job_state-stored b laws video_id state s e) in rw (e, fine) u
        ]

    recover_job-Undisturbed :
        (video_id other : String) (s : b.Store)
        → NotStuck other s
        → Undisturbed b laws other s (recover_job b cfg threshold video_id s).1
    recover_job-Undisturbed video_id other s h = elim (String-cases other video_id) [
      | inl e ↦ rw (← e) (recover_job-Undisturbed_self other s h)
      | inr n ↦ recover_job-Undisturbed_ne video_id other s (λ e. n (sym e))
    ]

    recover_jobs-Undisturbed :
        (video_ids : List String) (other : String) (s : b.Store)
        → NotStuck other s
        → Undisturbed b laws other s (recover_jobs b cfg threshold video_ids s).1
    unfolding recover_jobs
    recover_jobs-Undisturbed [] other s h = Undisturbed-refl b laws other s
    recover_jobs-Undisturbed (video_id ∷ rest) other s h =
        let u = recover_job-Undisturbed video_id other s h in
        Undisturbed-trans b laws u (
          recover_jobs-Undisturbed rest other (recover_job b cfg threshold video_id s).1
            (λ state e. h state (sym u.state ∙ e)))

  -- One round of the recovery, whatever commands fail in it, leaves alone every job whose stored
  -- state is not `processing`, or was updated no earlier than the timeout before the round's clock:
  -- its state stays as it was, and it stands in each queue as often as before.
  pub recover_stuck_jobs-Undisturbed :
      (cfg : Config) (stuck_timeout : ℤ) (video_id : String) (s : b.Store) {state : JobState}
      → stored b laws s video_id ≡ some state
      → let now = (b.clock (b.lrange (processing_queue_name cfg) s).1).0 in
        (state.status ≢ job_status_processing) ⊎ (unix_before now stuck_timeout ≤ℤ state.updated_at)
        → Undisturbed b laws video_id s (recover_stuck_jobs b cfg stuck_timeout s).1
  unfolding recover_stuck_jobs
  recover_stuck_jobs-Undisturbed cfg stuck_timeout video_id s {state} has h =
      let l = b.lrange (processing_queue_name cfg) s in
      let c = b.clock l.1 in
      let listed : Undisturbed b laws video_id s l.1 = record {
        state = ap (parsed b laws) (laws.value-lrange _ (job_key video_id) s);
        counts = λ q. ap (count video_id) (laws.list-lrange _ q s);
      } in
      let timed : Undisturbed b laws video_id l.1 c.1 = record {
        state = ap (parsed b laws) (laws.value-clock (job_key video_id) l.1);
        counts = λ q. ap (count video_id) (laws.list-clock q l.1);
      } in
      let before = Undisturbed-trans b laws listed timed in
      let threshold = unix_before c.0 stuck_timeout in
      elim (Result-cases l.0) [
        | inr (x, e) ↦ rw e listed
        | inl (ids, e) ↦ rw e (
            Undisturbed-trans b laws before (
              recover_jobs-Undisturbed cfg threshold ids video_id c.1 (λ other_state e'.
                let same : state ≡ other_state = some_inj (sym has ∙ sym before.state ∙ e') in
                rw (← same) (not_stuck threshold state h))))
      ]
