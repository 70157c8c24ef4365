-- ===== src/Worker/Frozen.antt =====
-- What a worker does that has been stopped while it works on a job: nothing that is seen
-- (`processNextMessage` of main.go).
use video_processor_go.Base.{
  ℕ, zero, suc, String, Option, some, ◌≡◌, refl, ◌∙◌, ap, unix, arith, inl, inr, Error, ok?, ◌⧺◌,
  Option-cases,
}
use video_processor_go.Config.{Config}
use video_processor_go.Backend.{Backend, execute}
use video_processor_go.Backend.Laws.{BackendLaws, IsReachable}
use video_processor_go.Backend.Crash.{crashing}
use video_processor_go.Queue.State.{JobState, blank_state}
use video_processor_go.Queue.Job.{
  set_job_failed, set_job_state, existing_state, get_job_state, set_job_processing, move_to_dlq,
  failed_state, processing_state,
}
use video_processor_go.Queue.Client.{consume_message, acknowledge_message, publish_success_message}
use video_processor_go.Pipeline.Result.{ProcessingResult}
use video_processor_go.Worker.Settle.{settle_job, fail_job}
use video_processor_go.Worker.Round.{announce, conclude, processed_id_of}
use video_processor_go.Worker.Refinement.{settled}

module _ (b : Backend) (laws : BackendLaws b) (live : IsReachable b laws) (cfg : Config)
    (video_id : String) where
  open laws use {value, list}

  abbrev c : Backend
  c = crashing b

  -- Nothing that another client reads is changed.
  pub record Same (s t : b.Store) : Type 0 where
    pub lists : (q : String) → list t q ≡ list s q
    pub values : (k : String) → value t k ≡ value s k

  -- No command is left.
  abbrev pub Stays : b.Store → c.Store → Type 0
  Stays s t = (t.0 ≡ 0) × Same s t.1

  clock-Stays : (s : b.Store) → Stays s (0, (b.clock s).1)
  clock-Stays s =
      (refl, record { lists = λ q. laws.list-clock q s; values = λ k. laws.value-clock k s })

  acknowledge-Stays : (w : c.Store) → w.0 ≡ 0 → Stays w.1 (acknowledge_message c cfg video_id w).1
  unfolding acknowledge_message execute
  acknowledge-Stays (suc n, s) h = absurd (omega arith)
  acknowledge-Stays (zero, s) h =
      let r = b.refuses s in
      elim (Option-cases r.0) [
        | inl e ↦ rw e (
          refl,
          record {
            lists = λ q. laws.list-settle _ q r.1 ∙ laws.list-refuses q s;
            values = λ k. laws.value-settle _ k r.1 ∙ laws.value-refuses k s;
          },
        )
        | inr (x, e) ↦ rw e (
          refl,
          record { lists = λ q. laws.list-refuses q s; values = λ k. laws.value-refuses k s },
        )
      ]

  fail_job-Stays :
      (job_err : Error) (s : b.Store) → Stays s (fail_job c cfg video_id job_err (0, s)).1
  unfolding fail_job set_job_failed existing_state get_job_state set_job_state move_to_dlq
  fail_job-Stays job_err s =
      let one = (b.clock s).1 in
      let blank = blank_state (unix (b.clock s).0) in
      let new : JobState = record (failed_state job_err blank) {
        updated_at = unix (b.clock one).0;
      } in
      let (text, e) = live.marshal_ok new in
      rw e (
        refl,
        record {
          lists = λ q. laws.list-clock q one ∙ laws.list-clock q s;
          values = λ k. laws.value-clock k one ∙ laws.value-clock k s;
        },
      )

  Same-trans : {s t u : b.Store} → Same s t → Same t u → Same s u
  Same-trans p q = record {
    lists = λ l. q.lists l ∙ p.lists l;
    values = λ k. q.values k ∙ p.values k;
  }

  pub settle_job-Stays :
      (job_err : Error) (w : c.Store)
      → w.0 ≡ 0
      → Stays w.1 (settle_job c cfg video_id (some job_err) w).1
  unfolding settle_job
  settle_job-Stays job_err (suc n, s) h = absurd (omega arith)
  settle_job-Stays job_err (zero, s) h =
      let f = fail_job c cfg video_id job_err (0, s) in
      let (over, same) = fail_job-Stays job_err s in
      let (still, same_again) = acknowledge-Stays f.1 over in (still, Same-trans same same_again)

  -- The success message is not pushed, and that is an error.
  publish-Stays :
      (id : String) (s : b.Store)
      → let (failure, t) = publish_success_message c cfg id (0, s) in
        ((e : Error) × (failure ≡ some e)) × Stays s t
  unfolding publish_success_message execute
  publish-Stays id s =
      let r = b.refuses s in
      elim (Option-cases r.0) [
        | inl e ↦ rw e (
          (_, refl),
          (
            refl,
            record {
              lists = λ q. laws.list-settle _ q r.1 ∙ laws.list-refuses q s;
              values = λ k. laws.value-settle _ k r.1 ∙ laws.value-refuses k s;
            },
          ),
        )
        | inr (x, e) ↦ rw e (
          (_, refl),
          (
            refl,
            record { lists = λ q. laws.list-refuses q s; values = λ k. laws.value-refuses k s },
          ),
        )
      ]

  pub published-Stays :
      (result : ProcessingResult) (s : b.Store)
      → Stays s (settled c cfg video_id (announce c cfg video_id result (0, s))).1
  unfolding announce conclude
  published-Stays result s =
      let p = publish_success_message c cfg (processed_id_of video_id) (0, s) in
      let ((e, failed), (over, same)) = publish-Stays (processed_id_of video_id) s in
      let (still, same_again) =
        settle_job-Stays ("failed to publish success message: " ⧺ e) p.1 over in
      rw failed (still, Same-trans same same_again)

  -- The first three commands of a round are BRPOPLPUSH, GET and SET, as they are without a stop.
  pub consume-three :
      (n : ℕ) (s : b.Store)
      → consume_message c cfg (suc n, s)
        ≡ ((consume_message b cfg s).0, (n, (consume_message b cfg s).1))
  unfolding consume_message execute
  consume-three n s = rw (live.refuses_none s) refl

  set-one :
      (n : ℕ) (state : JobState) (s : b.Store)
      → set_job_state c video_id state (suc n, s)
        ≡ ((set_job_state b video_id state s).0, (n, (set_job_state b video_id state s).1))
  unfolding set_job_state
  set-one n state s =
      let (text, e) = live.marshal_ok (record state { updated_at = unix (b.clock s).0 }) in
      rw e refl

  existing-one :
      (n : ℕ) (s : b.Store)
      → existing_state c video_id (suc n, s)
        ≡ ((existing_state b video_id s).0, (n, (existing_state b video_id s).1))
  unfolding existing_state get_job_state
  existing-one n s = elim (Option-cases (ok? (get_job_state b video_id s).0)) [
    | inl e ↦ rw e refl
    | inr (state, e) ↦ rw e refl
  ]

  pub processing-two :
      (n : ℕ) (s : b.Store)
      → (set_job_processing c video_id (suc (suc n), s)).1
        ≡ (n, (set_job_processing b video_id s).1)
  unfolding set_job_processing
  processing-two n s = rw (existing-one (suc n) s) (
      ap (λ (r : Option Error × c.Store). r.1)
        (set-one n (processing_state (existing_state b video_id s).0)
          (existing_state b video_id s).1))
