-- ===== src/Backend.antt =====
-- What the queue package calls and does not implement: the Redis client, the clock, the JSON coder
-- of job states, and the circuit breaker. `Store` is all of the outside that these calls see.
pub mod Laws
pub mod Crash
use video_processor_go.Base.{
  ℕ, String, Option, none, some, List, Bool, Error, Result, ok, err, is_ok, Eff, pure, ◌>>=◌, ◌>>◌,
}
use video_processor_go.Queue.State.{JobState}

pub record Backend : Type 1 where
  pub Store : Type 0
  -- the text of a value
  pub Value : Type 0
  -- time.Now(), in nanoseconds since 1970
  pub clock : Eff Store ℕ
  -- GET key; a missing key is an error (redis.Nil)
  pub get : String → Eff Store (Result Value)
  -- SET key value EX ttl
  pub set : String → Value → ℕ → Eff Store (Option Error)
  pub lpush : String → String → Eff Store (Option Error)
  -- LREM key 1 value
  pub lrem : String → String → Eff Store (Option Error)
  -- LRANGE key 0 -1
  pub lrange : String → Eff Store (Result (List String))
  -- BRPOPLPUSH source destination 0
  pub brpoplpush : String → String → Eff Store (Result String)
  pub llen : String → Eff Store (Result ℕ)
  pub ping : Eff Store (Option Error)
  -- json.Marshal and json.Unmarshal of a JobState
  pub marshal : JobState → Result Value
  pub unmarshal : Value → Result JobState
  -- the Redis circuit breaker: whether it refuses a call, and the report of a call's success
  pub refuses : Eff Store (Option Error)
  pub settle : Bool → Eff Store (Unit {0})

module _ (b : Backend) where
  open b use {Store, refuses, settle}

  guarded : {A : Type 0} → Eff Store (Result A) → Option Error → Eff Store (Result A)
  guarded m (some e) = pure (err e)
  guarded m none = do r ← m; settle (is_ok r); pure r

  -- circuitbreaker.Redis.Execute: a refused call is not made; any other is, and its outcome counted.
  unfoldable pub execute : {A : Type 0} → Eff Store (Result A) → Eff Store (Result A)
  unfolding guarded
  execute m = do refused ← refuses; guarded m refused
