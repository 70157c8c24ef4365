-- ===== src/Breakers.antt =====
-- internal/circuitbreaker/circuitbreaker.go: the settings of the two circuit breakers. The breaker
-- itself is a third-party package.
use video_processor_go.Base.{ℕ, ◌*◌, String, Bool, leb, second}

-- `ready_to_trip` takes the number of consecutive failures.
pub record Settings : Type 0 where
  pub name : String
  pub max_requests : ℕ
  pub interval : ℕ
  pub timeout : ℕ
  pub ready_to_trip : ℕ → Bool

abbrev pub minio : Settings
minio = record {
  name = "minio";
  max_requests = 1;
  interval = 30 * second;
  timeout = 60 * second;
  ready_to_trip = λ consecutive_failures. leb 5 consecutive_failures;
}

abbrev pub redis : Settings
redis = record {
  name = "redis";
  max_requests = 1;
  interval = 30 * second;
  timeout = 30 * second;
  ready_to_trip = λ consecutive_failures. leb 3 consecutive_failures;
}
