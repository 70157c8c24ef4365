-- ===== src/Examples/Memory.antt =====
-- A Redis in memory, which meets the laws: values and lists are functions, a value's text is the
-- state itself, and each writing command takes one entry of a script that says whether it fails.
use video_processor_go.Base.{
  ℕ, String, Option, none, some, List, [], ◌∷◌, Bool, true, false, ◌&&◌, Error, Result, ok, err,
  str_eq, if◌then◌else◌, erase, ◌+◌, pos,
}
use video_processor_go.Backend.{Backend}
use video_processor_go.Queue.State.{JobState, blank_state}
use video_processor_go.Config.{Config}

pub record Memory : Type 0 where
  pub values : String → Option JobState
  pub lists : String → List String
  pub now : ℕ
  pub faults : List Bool

abbrev pub put : {A : Type 0} → (String → A) → String → A → String → A
put f k a j = if str_eq k j then a else f j

abbrev pub failing : List Bool → Bool
failing [] = false
failing (f ∷ fs) = f

abbrev pub later : List Bool → List Bool
later [] = []
later (f ∷ fs) = fs

-- Where commands may fail, the first entry of the script says whether this one does.
unfoldable pub write : Bool → (Memory → Memory) → Memory → Option Error × Memory
write fallible change m =
    if fallible && failing m.faults
    then (some "connection refused", record m { faults = later m.faults })
    else (none, record (change m) { faults = later m.faults })

unfoldable pub found : Option JobState → Result JobState
found none = err "redis: nil"
found (some v) = ok v

abbrev pub last_of : List String → Option String
last_of [] = none
last_of (x ∷ []) = some x
last_of (x ∷ y ∷ l) = last_of (y ∷ l)

abbrev pub but_last : List String → List String
but_last [] = []
but_last (x ∷ []) = []
but_last (x ∷ y ∷ l) = x ∷ but_last (y ∷ l)

-- The last entry of list `p`, if there is one, goes to the head of list `q`.
unfoldable pub take_over : String → String → Memory → Result String × Memory
take_over p q m = elim (last_of (m.lists p)) [
  | none ↦ (err "redis: nil", m)
  | some v ↦
      let taken = put m.lists p (but_last (m.lists p)) in
      (ok v, record m { lists = put taken q (v ∷ taken q) })
]

abbrev pub memory : Bool → Backend
memory fallible = record {
  Store = Memory;
  Value = JobState;
  clock = λ m. (m.now, record m { now = m.now + 1000000000 });
  get = λ k m. (found (m.values k), m);
  set = λ k v ttl. write fallible (λ m. record m { values = put m.values k (some v) });
  lpush = λ q v. write fallible (λ m. record m { lists = put m.lists q (v ∷ m.lists q) });
  lrem = λ q v. write fallible (λ m. record m { lists = put m.lists q (erase v (m.lists q)) });
  lrange = λ q m. (ok (m.lists q), m);
  brpoplpush = take_over;
  llen = λ q m. (ok 0, m);
  ping = λ m. (none, m);
  marshal = λ state. ok state;
  unmarshal = λ value. ok value;
  refuses = λ m. (none, m);
  settle = λ success m. (tt, m);
}

abbrev pub at_work : ℕ → JobState
at_work r = record (blank_state (pos 1700000000)) {
  status = "processing";
  retry_count = pos r;
  callback_url = "http://api/callback";
  updated_at = pos 1700000000;
}

abbrev pub settings : Config
settings = record {
  redis_host = "localhost:6379";
  processing_request_queue = "queue";
  processing_finished_queue = "finished";
  minio_endpoint = "localhost:9000";
  minio_root_user = "minioadmin";
  minio_root_password = "minioadmin";
  minio_bucket_name = "videos";
  minio_use_ssl = false;
  http_port = "8080";
  otel_endpoint = "";
  otel_service_name = "video-processor";
  webhook_secret = "";
  worker_count = pos 0;
  max_file_size_mb = pos 5120;
  parallel_non_critical_steps = true;
  max_parallel_post_transcode_steps = pos 4;
  hls_single_command = true;
  hls_single_command_fallback = true;
  video_encoder = "auto";
  nvenc_preset = "p5";
  processing_timeout_scale = 4607182418800017408;
  job_timeout = pos 0;
}

-- One job, `v1`, being processed after `r` failures; `v2` waits.
abbrev pub busy : ℕ → List Bool → Memory
busy r faults = record {
  values = λ k. if str_eq k "job:v1" then some (at_work r) else none;
  lists = λ q.
      if str_eq q "queue:processing" then "v1" ∷ [] else if str_eq q "queue" then "v2" ∷ [] else [];
  now = 1700000000000000000;
  faults = faults;
}

-- A job that waits alone, with no failure.
abbrev pub waiting_job : JobState
waiting_job = record (at_work 0) { status = "pending" }

abbrev pub quiet : Memory
quiet = record {
  values = λ k. if str_eq k "job:v1" then some waiting_job else none;
  lists = λ q. if str_eq q "queue" then "v1" ∷ [] else [];
  now = 1700000000000000000;
  faults = [];
}
