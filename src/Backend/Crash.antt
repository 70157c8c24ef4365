-- ===== src/Backend/Crash.antt =====
-- A worker that is stopped: its process can send a number of commands to Redis, and no more. The
-- code runs on, and nothing that it does is seen.
use video_processor_go.Base.{
  ℕ, zero, suc, String, Option, none, some, List, [], ◌∷◌, ◌++◌, ◌≡◌, ◌≢◌, ◌⊎◌, inr, refl, Error,
  Result, ok, err, Eff, arith, erase,
}
use video_processor_go.Backend.{Backend}
use video_processor_go.Backend.Laws.{BackendLaws}

-- A command that is sent if one is left, and otherwise is not.
abbrev pub sent : {S A : Type 0} → A → Eff S A → Eff (ℕ × S) A
sent unsent call (zero, s) = (unsent, (zero, s))
sent unsent call (suc n, s) = let r = call s in (r.0, (n, r.1))

-- What is no command: the clock and the circuit breaker of the process.
abbrev pub inside : {S A : Type 0} → Eff S A → Eff (ℕ × S) A
inside call (n, s) = let r = call s in (r.0, (n, r.1))

abbrev pub stopped : Error
stopped = "the worker was stopped"

-- The store of `crashing` has the number of commands that are left.
abbrev pub crashing : Backend → Backend
crashing b = record {
  Store = ℕ × b.Store;
  Value = b.Value;
  clock = inside b.clock;
  get = λ k. sent (err stopped) (b.get k);
  set = λ k v ttl. sent (some stopped) (b.set k v ttl);
  lpush = λ q v. sent (some stopped) (b.lpush q v);
  lrem = λ q v. sent (some stopped) (b.lrem q v);
  lrange = λ q. sent (err stopped) (b.lrange q);
  brpoplpush = λ p q. sent (err stopped) (b.brpoplpush p q);
  llen = λ q. sent (err stopped) (b.llen q);
  ping = sent (some stopped) b.ping;
  marshal = b.marshal;
  unmarshal = b.unmarshal;
  refuses = inside b.refuses;
  settle = λ success. inside (b.settle success);
}

pub err-ne-ok : {A : Type 0} {a : A} → ◌≢◌ {A = Result A} (err stopped) (ok a)
err-ne-ok e = ground (arith, e)

pub some-ne-none : ◌≢◌ {A = Option Error} (some stopped) none
some-ne-none e = ground (arith, e)

module _ (b : Backend) (laws : BackendLaws b) where
  open laws use {value, list}

  -- A read of the store that a command leaves as it was.
  pub sent-same :
      {A B : Type 0} (unsent : A) (call : Eff b.Store A) (view : b.Store → B) (w : ℕ × b.Store)
      → view (call w.1).1 ≡ view w.1
      → view ((sent unsent call w).1).1 ≡ view w.1
  sent-same unsent call view (zero, s) h = refl
  sent-same unsent call view (suc n, s) h = h

  -- What holds of a reply that is not the one of an unsent command.
  pub sent-replied :
      {A : Type 0} (unsent : A) (call : Eff b.Store A) (reply : A) (P : b.Store → b.Store → Type 0)
      (w : ℕ × b.Store)
      → unsent ≢ reply
      → ((call w.1).0 ≡ reply → P w.1 (call w.1).1)
      → (sent unsent call w).0 ≡ reply
      → P w.1 ((sent unsent call w).1).1
  sent-replied unsent call reply P (zero, s) n h e = absurd (n e)
  sent-replied unsent call reply P (suc n, s) d h e = h e

  pub sent-any :
      {A : Type 0} (unsent : A) (call : Eff b.Store A) (P : b.Store → b.Store → Type 0)
      (w : ℕ × b.Store)
      → P w.1 w.1
      → P w.1 (call w.1).1
      → P w.1 ((sent unsent call w).1).1
  sent-any unsent call P (zero, s) idle done = idle
  sent-any unsent call P (suc n, s) idle done = done

  -- A worker that may be stopped sees a Redis that meets the laws.
  unfoldable pub crash_laws : BackendLaws (crashing b)
  crash_laws = record {
    value = λ w k. value w.1 k;
    list = λ w q. list w.1 q;
    value-clock = λ k w. laws.value-clock k w.1;
    list-clock = λ q w. laws.list-clock q w.1;
    value-get = λ k j w. sent-same _ (b.get k) (λ s. value s j) w (laws.value-get k j w.1);
    list-get = λ k q w. sent-same _ (b.get k) (λ s. list s q) w (laws.list-get k q w.1);
    get_reply = λ k v w.
        sent-replied (err stopped) (b.get k) (ok v) (λ s t. value s k ≡ some v) w err-ne-ok
          (laws.get_reply k v w.1);
    value-set_self = λ k v ttl w.
        sent-replied (some stopped) (b.set k v ttl) none (λ s t. value t k ≡ some v) w some-ne-none
          (laws.value-set_self k v ttl w.1);
    value-set_ne = λ k v j ttl w n.
        sent-same _ (b.set k v ttl) (λ s. value s j) w (laws.value-set_ne k v j ttl w.1 n);
    list-set =
        λ k v q ttl w. sent-same _ (b.set k v ttl) (λ s. list s q) w (laws.list-set k v q ttl w.1);
    value-lpush =
        λ p v k w. sent-same _ (b.lpush p v) (λ s. value s k) w (laws.value-lpush p v k w.1);
    list-lpush_self = λ p v w.
        sent-replied (some stopped) (b.lpush p v) none (λ s t. list t p ≡ v ∷ list s p) w
          some-ne-none (laws.list-lpush_self p v w.1);
    list-lpush_any = λ p v w.
        sent-any (some stopped) (b.lpush p v)
          (λ s t. (list t p ≡ v ∷ list s p) ⊎ (list t p ≡ list s p)) w (inr refl)
          (laws.list-lpush_any p v w.1);
    list-lpush_ne =
        λ p v q w n. sent-same _ (b.lpush p v) (λ s. list s q) w (laws.list-lpush_ne p v q w.1 n);
    value-lrem = λ p v k w. sent-same _ (b.lrem p v) (λ s. value s k) w (laws.value-lrem p v k w.1);
    list-lrem_self = λ p v w.
        sent-replied (some stopped) (b.lrem p v) none (λ s t. list t p ≡ erase v (list s p)) w
          some-ne-none (laws.list-lrem_self p v w.1);
    list-lrem_any = λ p v w.
        sent-any (some stopped) (b.lrem p v)
          (λ s t. (list t p ≡ erase v (list s p)) ⊎ (list t p ≡ list s p)) w (inr refl)
          (laws.list-lrem_any p v w.1);
    list-lrem_ne =
        λ p v q w n. sent-same _ (b.lrem p v) (λ s. list s q) w (laws.list-lrem_ne p v q w.1 n);
    value-lrange = λ p k w. sent-same _ (b.lrange p) (λ s. value s k) w (laws.value-lrange p k w.1);
    list-lrange = λ p q w. sent-same _ (b.lrange p) (λ s. list s q) w (laws.list-lrange p q w.1);
    lrange_reply = λ p vs w.
        sent-replied (err stopped) (b.lrange p) (ok vs) (λ s t. list s p ≡ vs) w err-ne-ok
          (laws.lrange_reply p vs w.1);
    value-brpoplpush = λ p q k w.
        sent-same _ (b.brpoplpush p q) (λ s. value s k) w (laws.value-brpoplpush p q k w.1);
    list-brpoplpush_ne = λ p q r w n m.
        sent-same _ (b.brpoplpush p q) (λ s. list s r) w (laws.list-brpoplpush_ne p q r w.1 n m);
    brpoplpush_reply = λ p q v w n.
        sent-replied (err stopped) (b.brpoplpush p q) (ok v)
          (λ s t.
            (rest : List String) × (list s p ≡ rest ++ (v ∷ []))
            × (list t p ≡ rest)
            × (list t q ≡ v ∷ list s q))
          w err-ne-ok (laws.brpoplpush_reply p q v w.1 n);
    brpoplpush_any = λ p q w n.
        sent-any (err stopped) (b.brpoplpush p q)
          (λ s t.
            ((v : String) × (rest : List String) × (list s p ≡ rest ++ (v ∷ []))
              × (list t p ≡ rest)
              × (list t q ≡ v ∷ list s q))
            ⊎ ((list t p ≡ list s p) × (list t q ≡ list s q)))
          w (inr (refl, refl)) (laws.brpoplpush_any p q w.1 n);
    value-refuses = λ k w. laws.value-refuses k w.1;
    list-refuses = λ q w. laws.list-refuses q w.1;
    value-settle = λ c k w. laws.value-settle c k w.1;
    list-settle = λ c q w. laws.list-settle c q w.1;
    unmarshal-marshal = λ state text h. laws.unmarshal-marshal state text h;
  }
