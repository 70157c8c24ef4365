-- ===== src/Pipeline/Result.antt =====
-- What the pipeline hands back (ProcessingResult of internal/processor/processor.go).
use video_processor_go.Base.{String, Option, none}
use video_processor_go.Queue.State.{VideoMetadata}

-- The empty text stands for a path that was not set.
pub record ProcessingResult : Type 0 where
  pub temp_dir : String
  pub thumbnails_dir : String
  pub audio_path : String
  pub preview_path : String
  pub streaming_dir : String
  pub metadata : Option VideoMetadata

abbrev pub blank_result : String → ProcessingResult
blank_result temp_dir = record {
  temp_dir = temp_dir;
  thumbnails_dir = "";
  audio_path = "";
  preview_path = "";
  streaming_dir = "";
  metadata = none;
}
