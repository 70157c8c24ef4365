-- ===== src/Queue/View.antt =====
-- What an operation leaves of the queues and of the jobs' states, as another client reads them.
use text.Mathlib.TextLemmas.{append_cancel_left}
use video_processor_go.Base.{
  String, Option, none, some, ◌≡◌, ◌≢◌, refl, ◌∙◌, ap, ok, ok?, arith, unix, Result-cases, inl, inr,
}
use video_processor_go.Backend.{Backend}
use video_processor_go.Backend.Laws.{BackendLaws}
use video_processor_go.Queue.State.{JobState, job_key, job_ttl}
use video_processor_go.Queue.Job.{set_job_state, get_job_state, existing_state}

pub job_key_inj : (a c : String) → job_key a ≡ job_key c → a ≡ c
unfolding job_key
job_key_inj a c e = append_cancel_left "job:" a c e

module _ (b : Backend) (laws : BackendLaws b) where
  open laws use {value, list}

  abbrev pub parsed : Option b.Value → Option JobState
  parsed none = none
  parsed (some text) = ok? (b.unmarshal text)

  -- The state of a job that stands in Redis, if one stands there that can be read.
  abbrev pub stored : b.Store → String → Option JobState
  stored s video_id = parsed (value s (job_key video_id))

  -- The queues are as before, and so is the state of every other job.
  pub record OnlyJob (video_id : String) (s t : b.Store) : Type 0 where
    pub lists : (q : String) → list t q ≡ list s q
    pub values : (k : String) → job_key video_id ≢ k → value t k ≡ value s k

  pub OnlyJob-refl : (video_id : String) (s : b.Store) → OnlyJob video_id s s
  OnlyJob-refl video_id s = record { lists = λ q. refl; values = λ k n. refl }

  pub OnlyJob-trans :
      {video_id : String} {s t u : b.Store}
      → OnlyJob video_id s t
      → OnlyJob video_id t u
      → OnlyJob video_id s u
  OnlyJob-trans p q = record {
    lists = λ l. q.lists l ∙ p.lists l;
    values = λ k n. q.values k n ∙ p.values k n;
  }

  pub get_job_state-OnlyJob :
      (video_id other : String) (s : b.Store) → OnlyJob other s (get_job_state b video_id s).1
  unfolding get_job_state
  get_job_state-OnlyJob video_id other s = record {
    lists = λ q. laws.list-get _ q s;
    values = λ k n. laws.value-get _ k s;
  }

  pub set_job_state-OnlyJob :
      (video_id : String) (state : JobState) (s : b.Store)
      → OnlyJob video_id s (set_job_state b video_id state s).1
  unfolding set_job_state
  set_job_state-OnlyJob video_id state s = record {
    lists = λ q. grind (arith, laws.list-set, laws.list-clock);
    values = λ k n. grind (arith, laws.value-set_ne, laws.value-clock);
  }

  -- A write that succeeds stores the state with the time of the write.
  pub stored-set_job_state :
      (video_id : String) (state : JobState) (s : b.Store)
      → (set_job_state b video_id state s).0 ≡ none
      → stored (set_job_state b video_id state s).1 video_id
        ≡ some (record state { updated_at = unix (b.clock s).0 })
  unfolding set_job_state
  stored-set_job_state video_id state s h =
      let new : JobState = record state { updated_at = unix (b.clock s).0 } in
      elim (Result-cases (b.marshal new)) [
        | inl (text, e) ↦ ground (
          arith,
          laws.value-set_self (job_key video_id) text job_ttl (b.clock s).1,
          laws.unmarshal-marshal new text,
        )
        | inr (x, e) ↦ ground arith
      ]

  -- What a reader gets is what is stored.
  pub get_job_state-stored :
      (video_id : String) (state : JobState) (s : b.Store)
      → (get_job_state b video_id s).0 ≡ ok state
      → stored s video_id ≡ some state
  unfolding get_job_state
  get_job_state-stored video_id state s h = elim (Result-cases (b.get (job_key video_id) s).0) [
    | inl (text, e) ↦ ground (arith, laws.get_reply (job_key video_id) text s)
    | inr (x, e) ↦ ground arith
  ]

  pub stored-OnlyJob :
      {video_id : String} (other : String) {s t : b.Store}
      → OnlyJob video_id s t
      → video_id ≢ other
      → stored t other ≡ stored s other
  stored-OnlyJob {video_id} other {s} {t} h n =
      ap parsed (h.values (job_key other) (λ e. n (job_key_inj video_id other e)))

  pub existing_state-OnlyJob :
      (video_id other : String) (s : b.Store) → OnlyJob other s (existing_state b video_id s).1
  unfolding existing_state get_job_state
  existing_state-OnlyJob video_id other s = record {
    lists = λ q. grind (arith, laws.list-get, laws.list-clock);
    values = λ k n. grind (arith, laws.value-get, laws.value-clock);
  }
