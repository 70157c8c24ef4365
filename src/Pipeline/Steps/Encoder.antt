-- ===== src/Pipeline/Steps/Encoder.antt =====
-- video_encoder.go: which encoder is used, and the NVENC preset.
use Prim.Native.Char.{code}
use video_processor_go.Base.{
  String, Bool, false, ◌&&◌, ◌||◌, Option, none, some, [], ◌∷◌, Error, Eff, pure, ◌>>=◌, leb, ◌==◌,
  str_eq, if◌then◌else◌, trim_space, to_lower, contains,
}
use video_processor_go.Pipeline.Host.{Host}

abbrev pub video_encoder_cpu : String
video_encoder_cpu = "cpu"

abbrev pub video_encoder_nvenc : String
video_encoder_nvenc = "nvenc"

abbrev pub video_encoder_auto : String
video_encoder_auto = "auto"

-- `len(p) == 2 && p[0] == 'p' && p[1] >= '1' && p[1] <= '7'`
unfoldable pub is_preset : String → Bool
is_preset (String.◌∷◌ c (String.◌∷◌ d String.[])) =
    code c == b'p' && leb b'1' (code d) && leb (code d) b'7'
is_preset _ = false

unfoldable pub normalize_nvenc_preset : String → String
normalize_nvenc_preset preset =
    let p = to_lower (trim_space preset) in
    if str_eq p "" then "p5" else if is_preset p then p else "p5"

-- The test `strings.ToLower(strings.TrimSpace(encoder)) == VideoEncoderNVENC`.
abbrev pub is_nvenc : String → Bool
is_nvenc encoder = str_eq (to_lower (trim_space encoder)) video_encoder_nvenc

module _ (h : Host) where
  open h use {World, Context, combined_output}

  listed : String → String × Option Error → Bool
  listed name (out, some e) = false
  listed name (out, none) = contains out name

  ffmpeg_lists_encoder : Context → String → Eff World Bool
  unfolding listed
  ffmpeg_lists_encoder ctx name = do
    r ← combined_output ctx "ffmpeg" ("-hide_banner" ∷ "-encoders" ∷ [])
    pure (listed name r)

  -- The cases "", auto and nvenc, whose results differ only in what is logged.
  probe_encoder : Context → Eff World String
  unfolding ffmpeg_lists_encoder
  probe_encoder ctx = do
    there ← ffmpeg_lists_encoder ctx "h264_nvenc"
    pure (if there then video_encoder_nvenc else video_encoder_cpu)

  -- A mode that is none of the four is read as auto: the call of itself comes to the first case.
  unfoldable pub resolve_video_encoder : Context → String → Eff World String
  unfolding probe_encoder
  resolve_video_encoder ctx mode =
      let m = to_lower (trim_space mode) in
      if str_eq m "" || str_eq m video_encoder_auto
      then probe_encoder ctx
      else if str_eq m video_encoder_nvenc
      then probe_encoder ctx
      else if str_eq m video_encoder_cpu
      then pure video_encoder_cpu
      else probe_encoder ctx
