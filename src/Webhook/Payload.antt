-- ===== src/Webhook/Payload.antt =====
-- The body of the notification (internal/webhook/webhook.go).
use video_processor_go.Base.{String, Bool, Option, none, List, [], ℤ}
use video_processor_go.Config.{Float64}

pub record Payload : Type 0 where
  pub video_id : String
  pub success : Bool
  pub processed_path : String
  pub preview_path : String
  pub hls_path : String
  pub audio_path : String
  pub thumbnail_paths : List String
  pub file_size_bytes : Option ℤ
  pub duration_seconds : Option Float64
  pub width : Option ℤ
  pub height : Option ℤ
  pub codec : String

-- `Payload{VideoID: id, Success: s}`
abbrev pub blank_payload : String → Bool → Payload
blank_payload video_id success = record {
  video_id = video_id;
  success = success;
  processed_path = "";
  preview_path = "";
  hls_path = "";
  audio_path = "";
  thumbnail_paths = [];
  file_size_bytes = none;
  duration_seconds = none;
  width = none;
  height = none;
  codec = "";
}
