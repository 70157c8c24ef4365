-- ===== src/Config.antt =====
-- config/config.go. The values that the environment library fills in; reading the environment is
-- that library's work. A float64 is known by its 64-bit pattern, and durations are nanoseconds.
use video_processor_go.Base.{ℕ, String, Bool, ℤ}

abbrev pub Float64 : Type 0
Float64 = ℕ

pub record Config : Type 0 where
  pub redis_host : String
  pub processing_request_queue : String
  pub processing_finished_queue : String
  pub minio_endpoint : String
  pub minio_root_user : String
  pub minio_root_password : String
  pub minio_bucket_name : String
  pub minio_use_ssl : Bool
  pub http_port : String
  pub otel_endpoint : String
  pub otel_service_name : String
  pub webhook_secret : String
  pub worker_count : ℤ
  pub max_file_size_mb : ℤ
  pub parallel_non_critical_steps : Bool
  pub max_parallel_post_transcode_steps : ℤ
  pub hls_single_command : Bool
  pub hls_single_command_fallback : Bool
  pub video_encoder : String
  pub nvenc_preset : String
  pub processing_timeout_scale : Float64
  pub job_timeout : ℤ
