-- ===== src/Pipeline/Steps/Choices.antt =====
-- Which variants, which preset and which encoder are chosen.
use video_processor_go.Base.{
  ℕ, ◌+◌, String, true, false, none, [], ◌∷◌, ℤ, pos, leb_ℤ, ◌≡◌, ◌⊎◌, inl, inr, refl, arith,
  str_eq, eq_iff, if◌then◌else◌, contains, take, trim_space, to_lower, Bool-cases,
}
use video_processor_go.Pipeline.Host.{Host}
use video_processor_go.Pipeline.Steps.Encoder.{
  is_preset, normalize_nvenc_preset, resolve_video_encoder, video_encoder_cpu, video_encoder_nvenc,
  video_encoder_auto,
}
use video_processor_go.Pipeline.Steps.Variants.{hls_variants, is_zero, selected_variants}

abbrev pub rung : ℤ → ℕ → ℕ
rung source_height least = if leb_ℤ (pos least) source_height then 1 else 0

-- How many variants a source of that height gets.
abbrev pub rungs : ℤ → ℕ
rungs source_height =
    if is_zero source_height
    then 5
    else 1
      + rung source_height 360
      + rung source_height 480
      + rung source_height 720
      + rung source_height 1080

-- The variants chosen are the lowest ones: all five if the height is 0 (unknown), and else the
-- lowest with every further one that is no higher than the source; so there is always one.
pub selected_variants-take :
    (source_height : ℤ) → selected_variants source_height ≡ take (rungs source_height) hls_variants
unfolding selected_variants
selected_variants-take source_height = ground arith

default-is_preset : is_preset "p5" ≡ true
unfolding is_preset
default-is_preset = refl

chosen-is_preset :
    (q : String) → is_preset (if str_eq q "" then "p5" else if is_preset q then q else "p5") ≡ true
chosen-is_preset q = elim (Bool-cases (str_eq q "")) [
  | inl empty ↦ rw empty default-is_preset
  | inr named ↦ elim (Bool-cases (is_preset q)) [
    | inl fits ↦ rw (named, fits) fits
    | inr misfit ↦ rw (named, misfit) default-is_preset
  ]
]

-- The preset used is one of p1 to p7, whatever the setting.
pub normalize-is_preset : (p : String) → is_preset (normalize_nvenc_preset p) ≡ true
unfolding normalize_nvenc_preset
normalize-is_preset p = chosen-is_preset (to_lower (trim_space p))

module _ (h : Host) (ctx : h.Context) where
  -- The encoder chosen is libx264 or NVENC, and NVENC only if the setting is not cpu and the list of
  -- encoders that ffmpeg printed, with no error, names h264_nvenc.
  pub resolve_cases :
      (mode : String) (w : h.World)
      → let listing = (h.combined_output ctx "ffmpeg" ("-hide_banner" ∷ "-encoders" ∷ []) w).0 in
        ((resolve_video_encoder h ctx mode w).0 ≡ video_encoder_cpu)
        ⊎ (((resolve_video_encoder h ctx mode w).0 ≡ video_encoder_nvenc)
            × (str_eq (to_lower (trim_space mode)) video_encoder_cpu ≡ false)
            × (listing.1 ≡ none)
            × (contains listing.0 "h264_nvenc" ≡ true))
  unfolding resolve_video_encoder
  resolve_cases mode w =
      let m = to_lower (trim_space mode) in
      ground (
        arith,
        eq_iff m "",
        eq_iff m video_encoder_auto,
        eq_iff m video_encoder_nvenc,
        eq_iff m video_encoder_cpu,
        eq_iff "" video_encoder_cpu,
        eq_iff video_encoder_auto video_encoder_cpu,
        eq_iff video_encoder_nvenc video_encoder_cpu,
      )
