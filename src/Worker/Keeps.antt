-- ===== src/Worker/Keeps.antt =====
-- Calls of a round (`processNextMessage` of main.go) that take nothing out of a queue.
use video_processor_go.Base.{
  String, List, ◌∷◌, ◌≡◌, inl, inr, ap, ◌≤◌, Error, arith, count, String-cases, Option-cases, is_ok,
  of_error?,
}
use video_processor_go.Config.{Config}
use video_processor_go.Backend.{Backend, execute}
use video_processor_go.Backend.Laws.{BackendLaws}
use video_processor_go.Queue.Client.{publish_success_message}
use video_processor_go.Queue.View.{OnlyJob}
use video_processor_go.Worker.Settle.{fail_job}
use video_processor_go.Worker.Closed.{IsClosed, fail_job-closed}

count-cons : (x v : String) (l : List String) → count x l ≤ count x (v ∷ l)
unfolding count
count-cons x v l = ground arith

module _ (b : Backend) (laws : BackendLaws b) where
  open laws use {list}

  -- No queue has an id less often than before.
  pub record Keeps (s t : b.Store) : Type 0 where
    pub counts : (x q : String) → count x (list s q) ≤ count x (list t q)

  pub OnlyJob-Keeps : (video_id : String) {s t : b.Store} → OnlyJob b laws video_id s t → Keeps s t
  OnlyJob-Keeps video_id o = record {
    counts = λ x q. let e = ap (count x) (o.lists q) in omega arith;
  }

  pub lpush-Keeps : (p v : String) (s : b.Store) → Keeps s (b.lpush p v s).1
  lpush-Keeps p v s = record {
    counts = λ x q. elim (String-cases p q) [
      | inl e ↦ rw (← e) (elim (laws.list-lpush_any p v s) [
        | inl came ↦ let h = ap (count x) came in omega (arith, count-cons x v (list s p))
        | inr same ↦ let h = ap (count x) same in omega arith
      ])
      | inr n ↦ let h = ap (count x) (laws.list-lpush_ne p v q s n) in omega arith
    ];
  }

  pub Keeps-trans : {s t u : b.Store} → Keeps s t → Keeps t u → Keeps s u
  Keeps-trans p q = record {
    counts = λ x l. let h = p.counts x l in let k = q.counts x l in omega arith;
  }

  pub same-Keeps : {s t : b.Store} → ((q : String) → list t q ≡ list s q) → Keeps s t
  same-Keeps e = record { counts = λ x q. let h = ap (count x) (e q) in omega arith }

  pub publish_success_message-Keeps :
      (cfg : Config) (video_id : String) (s : b.Store)
      → Keeps s (publish_success_message b cfg video_id s).1
  unfolding publish_success_message execute
  publish_success_message-Keeps cfg video_id s =
      let r = b.refuses s in
      let first : Keeps s r.1 = same-Keeps (λ q. laws.list-refuses q s) in
      elim (Option-cases r.0) [
        | inr (e, refused) ↦ rw refused first
        | inl allowed ↦
            let p = b.lpush cfg.processing_finished_queue video_id r.1 in
            let over : Keeps p.1 (b.settle (is_ok (of_error? p.0)) p.1).1 =
              same-Keeps (λ q. laws.list-settle _ q p.1) in
            rw allowed (Keeps-trans (Keeps-trans first (lpush-Keeps _ video_id r.1)) over)
      ]

  module _ (cfg : Config) where
    Keeps-IsClosed : (video_id : String) → IsClosed b laws cfg video_id Keeps
    Keeps-IsClosed video_id = record {
      after = λ s t u p q. Keeps-trans p q;
      only = λ s t o. OnlyJob-Keeps video_id o;
      requeued = λ s. lpush-Keeps _ video_id s;
      buried = λ s. lpush-Keeps _ video_id s;
    }

    pub fail_job-Keeps :
        (video_id : String) (job_err : Error) (s : b.Store)
        → Keeps s (fail_job b cfg video_id job_err s).1
    fail_job-Keeps video_id job_err s =
        fail_job-closed b laws cfg video_id Keeps (Keeps-IsClosed video_id) job_err s
