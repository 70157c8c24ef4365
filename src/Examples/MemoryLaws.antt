-- ===== src/Examples/MemoryLaws.antt =====
-- The Redis in memory meets the laws, and can be reached where no command may fail.
use video_processor_go.Base.{
  ℕ, String, Option, none, some, List, [], ◌∷◌, Bool, false, ◌≡◌, ◌≢◌, ◌⊎◌, refl, sym, arith, Error,
  ok, eq_iff, eq_refl, erase, ◌++◌, ap, ◌∙◌, some_inj, Option-cases, inl, inr,
}
use video_processor_go.Backend.Laws.{BackendLaws, IsReachable}
use video_processor_go.Queue.State.{JobState}
use video_processor_go.Examples.Memory.{
  Memory, put, write, found, last_of, but_last, take_over, memory,
}

pub found_reply : (o : Option JobState) (v : JobState) → found o ≡ ok v → o ≡ some v
unfolding found
found_reply none v h = cc
found_reply (some w) v h = cc

pub ok_inj {ℓ} : {A : Type ℓ} {x y : A} → ok x ≡ ok y → x ≡ y
ok_inj h = cc

pub last_of-split : (l : List String) (v : String) → last_of l ≡ some v → l ≡ but_last l ++ (v ∷ [])
last_of-split [] v h = cc
last_of-split (x ∷ []) v h = ap (λ y. y ∷ []) (some_inj h)
last_of-split (x ∷ y ∷ l) v h = ap (λ r. x ∷ r) (last_of-split (y ∷ l) v h)

pub take_over_value : (p q k : String) (m : Memory) → (take_over p q m).1.values k ≡ m.values k
unfolding take_over
take_over_value p q k m = ground arith

pub take_over_ne :
    (p q r : String) (m : Memory) → p ≢ r → q ≢ r → (take_over p q m).1.lists r ≡ m.lists r
unfolding take_over
take_over_ne p q r m n o = ground (arith, eq_iff p r, eq_iff q r)

pub take_over_reply :
    (p q v : String) (m : Memory)
    → p ≢ q
    → (take_over p q m).0 ≡ ok v
    → (rest : List String) × (m.lists p ≡ rest ++ (v ∷ []))
      × ((take_over p q m).1.lists p ≡ rest)
      × ((take_over p q m).1.lists q ≡ v ∷ m.lists q)
unfolding take_over
take_over_reply p q v m n h = elim (Option-cases (last_of (m.lists p))) [
  | inl e ↦ ground (arith, e)
  | inr (w, e) ↦
      let same : w ≡ v = ground (arith, e) in
      (
        but_last (m.lists p),
        last_of-split (m.lists p) v (e ∙ ap some same),
        ground (arith, e, eq_refl p, eq_iff p q, eq_iff q p),
        ground (arith, e, same, eq_refl q, eq_iff p q),
      )
]

pub take_over_any :
    (p q : String) (m : Memory)
    → p ≢ q
    → ((v : String) × (rest : List String) × (m.lists p ≡ rest ++ (v ∷ []))
        × ((take_over p q m).1.lists p ≡ rest)
        × ((take_over p q m).1.lists q ≡ v ∷ m.lists q))
      ⊎ (((take_over p q m).1.lists p ≡ m.lists p) × ((take_over p q m).1.lists q ≡ m.lists q))
unfolding take_over
take_over_any p q m n = elim (Option-cases (last_of (m.lists p))) [
  | inl e ↦ inr (ground (arith, e), ground (arith, e))
  | inr (v, e) ↦ inl (
    v,
    but_last (m.lists p),
    last_of-split (m.lists p) v e,
    ground (arith, e, eq_refl p, eq_iff p q, eq_iff q p),
    ground (arith, e, eq_refl q, eq_iff p q),
  )
]

module _ (fallible : Bool) where
  pub written_value :
      (k j : String) (v : JobState) (ttl : ℕ) (m : Memory)
      → k ≢ j
      → ((memory fallible).set k v ttl m).1.values j ≡ m.values j
  unfolding write
  written_value k j v ttl m n = ground (arith, eq_iff k j)

  pub set_value :
      (k : String) (v : JobState) (ttl : ℕ) (m : Memory)
      → ((memory fallible).set k v ttl m).0 ≡ none
      → ((memory fallible).set k v ttl m).1.values k ≡ some v
  unfolding write
  set_value k v ttl m h = ground (arith, eq_refl k)

  pub set_list :
      (k q : String) (v : JobState) (ttl : ℕ) (m : Memory)
      → ((memory fallible).set k v ttl m).1.lists q ≡ m.lists q
  unfolding write
  set_list k q v ttl m = ground arith

  -- A change of one list, by whatever `edit` does to it.
  abbrev pub edit_list : String → (List String → List String) → Memory → Option Error × Memory
  edit_list q edit = write fallible (λ m. record m { lists = put m.lists q (edit (m.lists q)) })

  pub edit_list_self :
      (q : String) (edit : List String → List String) (m : Memory)
      → (edit_list q edit m).0 ≡ none
      → (edit_list q edit m).1.lists q ≡ edit (m.lists q)
  unfolding write
  edit_list_self q edit m h = ground (arith, eq_refl q)

  pub edit_list_any :
      (q : String) (edit : List String → List String) (m : Memory)
      → ((edit_list q edit m).1.lists q ≡ edit (m.lists q))
        ⊎ ((edit_list q edit m).1.lists q ≡ m.lists q)
  unfolding write
  edit_list_any q edit m = ground (arith, eq_refl q)

  pub edit_list_ne :
      (q p : String) (edit : List String → List String) (m : Memory)
      → q ≢ p
      → (edit_list q edit m).1.lists p ≡ m.lists p
  unfolding write
  edit_list_ne q p edit m n = ground (arith, eq_iff q p)

  pub edit_list_value :
      (q k : String) (edit : List String → List String) (m : Memory)
      → (edit_list q edit m).1.values k ≡ m.values k
  unfolding write
  edit_list_value q k edit m = ground arith

abbrev pub memory_laws : (fallible : Bool) → BackendLaws (memory fallible)
memory_laws fallible = record {
  value = λ m k. m.values k;
  list = λ m q. m.lists q;
  value-clock = λ k s. refl;
  list-clock = λ q s. refl;
  value-get = λ k j s. refl;
  list-get = λ k q s. refl;
  get_reply = λ k v s. found_reply (s.values k) v;
  value-set_self = λ k v ttl s. set_value fallible k v ttl s;
  value-set_ne = λ k v j ttl s. written_value fallible k j v ttl s;
  list-set = λ k v q ttl s. set_list fallible k q v ttl s;
  value-lpush = λ p v k s. edit_list_value fallible p k (λ l. v ∷ l) s;
  list-lpush_self = λ p v s. edit_list_self fallible p (λ l. v ∷ l) s;
  list-lpush_any = λ p v s. edit_list_any fallible p (λ l. v ∷ l) s;
  list-lpush_ne = λ p v q s n. edit_list_ne fallible p q (λ l. v ∷ l) s n;
  value-lrem = λ p v k s. edit_list_value fallible p k (erase v) s;
  list-lrem_self = λ p v s. edit_list_self fallible p (erase v) s;
  list-lrem_any = λ p v s. edit_list_any fallible p (erase v) s;
  list-lrem_ne = λ p v q s n. edit_list_ne fallible p q (erase v) s n;
  value-lrange = λ p k s. refl;
  list-lrange = λ p q s. refl;
  lrange_reply = λ p vs s h. ok_inj h;
  value-brpoplpush = take_over_value;
  list-brpoplpush_ne = take_over_ne;
  brpoplpush_reply = take_over_reply;
  brpoplpush_any = take_over_any;
  value-refuses = λ k s. refl;
  list-refuses = λ q s. refl;
  value-settle = λ c k s. refl;
  list-settle = λ c q s. refl;
  unmarshal-marshal = λ state text h. sym h;
}

pub found-some : (o : Option JobState) (v : JobState) → o ≡ some v → found o ≡ ok v
unfolding found
found-some none v h = cc
found-some (some w) v h = cc

pub write-none : (change : Memory → Memory) (m : Memory) → (write false change m).0 ≡ none
unfolding write
write-none change m = refl

pub last_of-append : (l : List String) (v : String) → last_of (l ++ (v ∷ [])) ≡ some v
last_of-append [] v = refl
last_of-append (x ∷ []) v = refl
last_of-append (x ∷ y ∷ l) v = last_of-append (y ∷ l) v

pub take_over_ok :
    (p q v : String) (rest : List String) (m : Memory)
    → m.lists p ≡ rest ++ (v ∷ [])
    → (take_over p q m).0 ≡ ok v
unfolding take_over
take_over_ok p q v rest m h = ground (arith, ap last_of h ∙ last_of-append rest v)

-- Where no command may fail, Redis can be reached.
abbrev pub memory_reachable : IsReachable (memory false) (memory_laws false)
memory_reachable = record {
  get_ok = λ k v s. found-some (s.values k) v;
  set_ok = λ k v ttl s. write-none _ s;
  lpush_ok = λ p v s. write-none _ s;
  lrem_ok = λ p v s. write-none _ s;
  lrange_ok = λ p s. refl;
  brpoplpush_ok = take_over_ok;
  refuses_none = λ s. refl;
  marshal_ok = λ state. (state, refl);
}
