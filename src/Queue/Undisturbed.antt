-- ===== src/Queue/Undisturbed.antt =====
-- What a command on one job leaves of every other job, whether or not the command fails.
use video_processor_go.Base.{
  String, List, [], ◌∷◌, ◌≡◌, ◌≢◌, inl, inr, refl, ◌∙◌, ap, arith, erase, count, eq_iff,
  String-cases, Option-cases, Bool, Eff, Result, is_ok,
}
use video_processor_go.Backend.{Backend, execute}
use video_processor_go.Backend.Laws.{BackendLaws}
use video_processor_go.Queue.State.{job_key}
use video_processor_go.Queue.Job.{get_job_state}
use video_processor_go.Queue.View.{parsed, OnlyJob, stored, stored-OnlyJob}

pub count-cons_ne : (a c : String) (l : List String) → a ≢ c → count c (a ∷ l) ≡ count c l
unfolding count
count-cons_ne a c l n = ground (arith, eq_iff a c)

pub count-erase_ne : (a c : String) (l : List String) → a ≢ c → count c (erase a l) ≡ count c l
unfolding count erase
count-erase_ne a c [] n = refl
count-erase_ne a c (x ∷ l) n = ground (arith, eq_iff x a, eq_iff x c, count-erase_ne a c l n)

module _ (b : Backend) (laws : BackendLaws b) where
  open laws use {value, list}

  -- A job's state is as before, and it stands in every queue as often as before.
  pub record Undisturbed (video_id : String) (s t : b.Store) : Type 0 where
    pub state : stored b laws t video_id ≡ stored b laws s video_id
    pub counts : (q : String) → count video_id (list t q) ≡ count video_id (list s q)

  pub Undisturbed-refl : (video_id : String) (s : b.Store) → Undisturbed video_id s s
  Undisturbed-refl video_id s = record { state = refl; counts = λ q. refl }

  pub Undisturbed-trans :
      {video_id : String} {s t u : b.Store}
      → Undisturbed video_id s t
      → Undisturbed video_id t u
      → Undisturbed video_id s u
  Undisturbed-trans p q = record {
    state = q.state ∙ p.state;
    counts = λ l. q.counts l ∙ p.counts l;
  }

  pub OnlyJob-Undisturbed :
      (video_id other : String) {s t : b.Store}
      → OnlyJob b laws video_id s t
      → video_id ≢ other
      → Undisturbed other s t
  OnlyJob-Undisturbed video_id other o n = record {
    state = stored-OnlyJob b laws other o n;
    counts = λ q. ap (count other) (o.lists q);
  }

  pub get_job_state-Undisturbed :
      (video_id other : String) (s : b.Store) → Undisturbed other s (get_job_state b video_id s).1
  unfolding get_job_state
  get_job_state-Undisturbed video_id other s = record {
    state = ap (parsed b laws) (laws.value-get _ (job_key other) s);
    counts = λ q. ap (count other) (laws.list-get _ q s);
  }

  -- A command on one list that at most adds or takes away another id.
  change-Undisturbed :
      (p other : String) {s t : b.Store}
      → ((k : String) → value t k ≡ value s k)
      → count other (list t p) ≡ count other (list s p)
      → ((q : String) → p ≢ q → list t q ≡ list s q)
      → Undisturbed other s t
  change-Undisturbed p other values here elsewhere = record {
    state = ap (parsed b laws) (values (job_key other));
    counts = λ q. elim (String-cases p q) [
      | inl e ↦ rw (← e) here
      | inr n ↦ ap (count other) (elsewhere q n)
    ];
  }

  pub lrem-Undisturbed :
      (p video_id other : String) (s : b.Store)
      → video_id ≢ other
      → Undisturbed other s (b.lrem p video_id s).1
  lrem-Undisturbed p video_id other s n =
      change-Undisturbed p other (λ k. laws.value-lrem p video_id k s)
        (elim (laws.list-lrem_any p video_id s) [
          | inl e ↦ ap (count other) e ∙ count-erase_ne video_id other (list s p) n
          | inr e ↦ ap (count other) e
        ])
        (λ q m. laws.list-lrem_ne p video_id q s m)

  pub lpush-Undisturbed :
      (p video_id other : String) (s : b.Store)
      → video_id ≢ other
      → Undisturbed other s (b.lpush p video_id s).1
  lpush-Undisturbed p video_id other s n =
      change-Undisturbed p other (λ k. laws.value-lpush p video_id k s)
        (elim (laws.list-lpush_any p video_id s) [
          | inl e ↦ ap (count other) e ∙ count-cons_ne video_id other (list s p) n
          | inr e ↦ ap (count other) e
        ])
        (λ q m. laws.list-lpush_ne p video_id q s m)

  refuses-Undisturbed : (other : String) (s : b.Store) → Undisturbed other s (b.refuses s).1
  refuses-Undisturbed other s = record {
    state = ap (parsed b laws) (laws.value-refuses (job_key other) s);
    counts = λ q. ap (count other) (laws.list-refuses q s);
  }

  settle-Undisturbed :
      (success : Bool) (other : String) (s : b.Store) → Undisturbed other s (b.settle success s).1
  settle-Undisturbed success other s = record {
    state = ap (parsed b laws) (laws.value-settle success (job_key other) s);
    counts = λ q. ap (count other) (laws.list-settle success q s);
  }

  -- A call through the circuit breaker.
  pub execute-Undisturbed :
      {A : Type 0} (call : Eff b.Store (Result A)) (other : String) (s : b.Store)
      → ((t : b.Store) → Undisturbed other t (call t).1)
      → Undisturbed other s (execute b call s).1
  unfolding execute
  execute-Undisturbed call other s h =
      let r = b.refuses s in
      let first = refuses-Undisturbed other s in
      elim (Option-cases r.0) [
        | inl e ↦ rw e (
            Undisturbed-trans first (
              Undisturbed-trans (h r.1)
                (settle-Undisturbed (is_ok (call r.1).0) other (call r.1).1)))
        | inr (x, e) ↦ rw e first
      ]
