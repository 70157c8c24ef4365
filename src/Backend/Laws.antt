-- ===== src/Backend/Laws.antt =====
-- What the queue package relies on of Redis, of the clock and of the JSON coder. `value` and `list`
-- are what another client would read; each command changes at most the key that it names.
use video_processor_go.Base.{
  ℕ, String, Bool, Option, none, some, List, [], ◌∷◌, ◌++◌, ◌≡◌, ◌≢◌, ◌⊎◌, ok, erase,
}
use video_processor_go.Queue.State.{JobState}
use video_processor_go.Backend.{Backend}

pub record BackendLaws (b : Backend) : Type 0 where
  pub value : b.Store → String → Option b.Value
  pub list : b.Store → String → List String
  pub value-clock : (k : String) (s : b.Store) → value (b.clock s).1 k ≡ value s k
  pub list-clock : (q : String) (s : b.Store) → list (b.clock s).1 q ≡ list s q
  pub value-get : (k j : String) (s : b.Store) → value (b.get k s).1 j ≡ value s j
  pub list-get : (k q : String) (s : b.Store) → list (b.get k s).1 q ≡ list s q
  -- A reply is the stored text. (A command that fails says nothing.)
  pub get_reply :
      (k : String) (v : b.Value) (s : b.Store) → (b.get k s).0 ≡ ok v → value s k ≡ some v
  pub value-set_self :
      (k : String) (v : b.Value) (ttl : ℕ) (s : b.Store)
      → (b.set k v ttl s).0 ≡ none
      → value (b.set k v ttl s).1 k ≡ some v
  pub value-set_ne :
      (k : String) (v : b.Value) (j : String) (ttl : ℕ) (s : b.Store)
      → k ≢ j
      → value (b.set k v ttl s).1 j ≡ value s j
  pub list-set :
      (k : String) (v : b.Value) (q : String) (ttl : ℕ) (s : b.Store)
      → list (b.set k v ttl s).1 q ≡ list s q
  pub value-lpush : (p v k : String) (s : b.Store) → value (b.lpush p v s).1 k ≡ value s k
  pub list-lpush_self :
      (p v : String) (s : b.Store)
      → (b.lpush p v s).0 ≡ none
      → list (b.lpush p v s).1 p ≡ v ∷ list s p
  -- A command that fails was carried out, or it was not.
  pub list-lpush_any :
      (p v : String) (s : b.Store)
      → (list (b.lpush p v s).1 p ≡ v ∷ list s p) ⊎ (list (b.lpush p v s).1 p ≡ list s p)
  pub list-lpush_ne : (p v q : String) (s : b.Store) → p ≢ q → list (b.lpush p v s).1 q ≡ list s q
  pub value-lrem : (p v k : String) (s : b.Store) → value (b.lrem p v s).1 k ≡ value s k
  pub list-lrem_self :
      (p v : String) (s : b.Store)
      → (b.lrem p v s).0 ≡ none
      → list (b.lrem p v s).1 p ≡ erase v (list s p)
  pub list-lrem_any :
      (p v : String) (s : b.Store)
      → (list (b.lrem p v s).1 p ≡ erase v (list s p)) ⊎ (list (b.lrem p v s).1 p ≡ list s p)
  pub list-lrem_ne : (p v q : String) (s : b.Store) → p ≢ q → list (b.lrem p v s).1 q ≡ list s q
  pub value-lrange : (p k : String) (s : b.Store) → value (b.lrange p s).1 k ≡ value s k
  pub list-lrange : (p q : String) (s : b.Store) → list (b.lrange p s).1 q ≡ list s q
  pub lrange_reply :
      (p : String) (vs : List String) (s : b.Store) → (b.lrange p s).0 ≡ ok vs → list s p ≡ vs
  pub value-brpoplpush : (p q k : String) (s : b.Store) → value (b.brpoplpush p q s).1 k ≡ value s k
  pub list-brpoplpush_ne :
      (p q r : String) (s : b.Store) → p ≢ r → q ≢ r → list (b.brpoplpush p q s).1 r ≡ list s r
  -- BRPOPLPUSH takes the last entry of one list and puts it at the head of the other.
  pub brpoplpush_reply :
      (p q v : String) (s : b.Store)
      → p ≢ q
      → (b.brpoplpush p q s).0 ≡ ok v
      → (rest : List String) × (list s p ≡ rest ++ (v ∷ []))
        × (list (b.brpoplpush p q s).1 p ≡ rest)
        × (list (b.brpoplpush p q s).1 q ≡ v ∷ list s q)
  -- Whatever it replies, it was carried out for some entry, or it was not.
  pub brpoplpush_any :
      (p q : String) (s : b.Store)
      → p ≢ q
      → ((v : String) × (rest : List String) × (list s p ≡ rest ++ (v ∷ []))
          × (list (b.brpoplpush p q s).1 p ≡ rest)
          × (list (b.brpoplpush p q s).1 q ≡ v ∷ list s q))
        ⊎ ((list (b.brpoplpush p q s).1 p ≡ list s p) × (list (b.brpoplpush p q s).1 q ≡ list s q))
  pub value-refuses : (k : String) (s : b.Store) → value (b.refuses s).1 k ≡ value s k
  pub list-refuses : (q : String) (s : b.Store) → list (b.refuses s).1 q ≡ list s q
  pub value-settle : (c : Bool) (k : String) (s : b.Store) → value (b.settle c s).1 k ≡ value s k
  pub list-settle : (c : Bool) (q : String) (s : b.Store) → list (b.settle c s).1 q ≡ list s q
  -- The coder reads back what it wrote.
  pub unmarshal-marshal :
      (state : JobState) (text : b.Value) → b.marshal state ≡ ok text → b.unmarshal text ≡ ok state

-- Redis can be reached and the circuit is closed: a command that is given succeeds. States hold no
-- float that JSON cannot write.
pub record IsReachable (b : Backend) (laws : BackendLaws b) : Type 0 where
  pub get_ok :
      (k : String) (v : b.Value) (s : b.Store) → laws.value s k ≡ some v → (b.get k s).0 ≡ ok v
  pub set_ok : (k : String) (v : b.Value) (ttl : ℕ) (s : b.Store) → (b.set k v ttl s).0 ≡ none
  pub lpush_ok : (p v : String) (s : b.Store) → (b.lpush p v s).0 ≡ none
  pub lrem_ok : (p v : String) (s : b.Store) → (b.lrem p v s).0 ≡ none
  pub lrange_ok : (p : String) (s : b.Store) → (b.lrange p s).0 ≡ ok (laws.list s p)
  pub brpoplpush_ok :
      (p q v : String) (rest : List String) (s : b.Store)
      → laws.list s p ≡ rest ++ (v ∷ [])
      → (b.brpoplpush p q s).0 ≡ ok v
  pub refuses_none : (s : b.Store) → (b.refuses s).0 ≡ none
  pub marshal_ok : (state : JobState) → (text : b.Value) × (b.marshal state ≡ ok text)
