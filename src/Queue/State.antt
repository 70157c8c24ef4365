-- ===== src/Queue/State.antt =====
-- queue/job.go: the job's state and its constants.
use video_processor_go.Base.{ℕ, String, Option, none, ℤ, pos, ◌⧺◌, minute, ◌*◌}
use video_processor_go.Config.{Config, Float64}

pub record VideoMetadata : Type 0 where
  pub duration : Float64
  pub width : ℤ
  pub height : ℤ
  pub video_codec : String
  pub audio_codec : String
  pub fps : Float64
  pub bitrate : ℤ
  pub size : ℤ

-- `type JobStatus string`: a state that another program wrote may hold any text.
abbrev pub JobStatus : Type 0
JobStatus = String

abbrev pub job_status_pending : JobStatus
job_status_pending = "pending"

abbrev pub job_status_processing : JobStatus
job_status_processing = "processing"

abbrev pub job_status_done : JobStatus
job_status_done = "done"

abbrev pub job_status_failed : JobStatus
job_status_failed = "failed"

abbrev pub max_job_retries : ℤ
max_job_retries = pos 3

abbrev pub job_ttl : ℕ
job_ttl = 24 * 60 * minute

-- The empty text stands for an artifact that was not generated.
pub record JobArtifacts : Type 0 where
  pub video : String
  pub thumbnails : String
  pub audio : String
  pub preview : String
  pub hls : String

pub record JobState : Type 0 where
  pub status : JobStatus
  pub error : String
  pub artifacts : Option JobArtifacts
  pub metadata : Option VideoMetadata
  pub retry_count : ℤ
  pub callback_url : String
  pub created_at : ℤ
  pub updated_at : ℤ

-- `&JobState{CreatedAt: t}`: every other field has its zero value.
abbrev pub blank_state : ℤ → JobState
blank_state t = record {
  status = "";
  error = "";
  artifacts = none;
  metadata = none;
  retry_count = pos 0;
  callback_url = "";
  created_at = t;
  updated_at = pos 0;
}

unfoldable pub job_key : String → String
job_key video_id = "job:" ⧺ video_id

unfoldable pub processing_queue_name : Config → String
processing_queue_name cfg = cfg.processing_request_queue ⧺ ":processing"

unfoldable pub dead_letter_queue_name : Config → String
dead_letter_queue_name cfg = cfg.processing_request_queue ⧺ ":dead"
