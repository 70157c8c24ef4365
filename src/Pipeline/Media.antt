-- ===== src/Pipeline/Media.antt =====
-- What the steps rely on of 64-bit floats, of number texts and of the JSON that ffprobe prints. A
-- float is its bit pattern.
use video_processor_go.Base.{ℕ, ℤ, String, Bool, Option, List, Error, Result}
use video_processor_go.Config.{Float64}

-- The part of ffprobe's report that AnalyzeContent reads.
pub record ProbeStream : Type 0 where
  pub codec_type : String
  pub codec_name : String
  pub width : ℤ
  pub height : ℤ
  pub r_frame_rate : String

pub record ProbeData : Type 0 where
  pub duration : String
  pub size : String
  pub bit_rate : String
  pub streams : List ProbeStream

pub record Media : Type 0 where
  -- strconv.ParseFloat(text, 64): the number comes with the error too
  pub parse_float : String → Float64 × Option Error
  -- strconv.ParseInt(text, 10, 64), its number alone
  pub parse_int : String → ℤ
  -- strconv.FormatFloat(x, 'f', precision, 64)
  pub format_float : Float64 → ℕ → String
  -- float64(n), and the operations on floats
  pub of_nat : ℕ → Float64
  pub divide : Float64 → Float64 → Float64
  pub times : Float64 → Float64 → Float64
  pub greater : Float64 → Float64 → Bool
  pub at_most : Float64 → Float64 → Bool
  pub equal : Float64 → Float64 → Bool
  -- time.Duration(x), an int64; what a float that does not fit gives is up to the machine
  pub nanoseconds : Float64 → ℤ
  -- json.Unmarshal into the struct of AnalyzeContent
  pub parse_probe : String → Result ProbeData
