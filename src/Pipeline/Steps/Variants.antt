-- ===== src/Pipeline/Steps/Variants.antt =====
-- streaming.go: the quality variants of adaptive streaming, and their choice.
use video_processor_go.Base.{
  ℕ, String, Bool, ◌&&◌, ◌||◌, List, [], ◌∷◌, ℤ, pos, leb_ℤ, if◌then◌else◌, ◌⧺◌, format_int,
}

pub record HlsVariant : Type 0 where
  pub name : String
  pub height : ℤ
  pub video_bitrate : String
  pub audio_bitrate : String
  pub bandwidth : ℤ

abbrev variant : String → ℕ → String → String → ℕ → HlsVariant
variant name height video_bitrate audio_bitrate bandwidth = record {
  name = name;
  height = pos height;
  video_bitrate = video_bitrate;
  audio_bitrate = audio_bitrate;
  bandwidth = pos bandwidth;
}

abbrev pub hls_variants : List HlsVariant
hls_variants =
    variant "240p" 240 "400k" "64k" 464000
    ∷ variant "360p" 360 "800k" "96k" 896000
    ∷ variant "480p" 480 "1400k" "128k" 1528000
    ∷ variant "720p" 720 "2800k" "128k" 2928000
    ∷ variant "1080p" 1080 "5000k" "192k" 5192000
    ∷ []

abbrev pub is_zero : ℤ → Bool
is_zero h = leb_ℤ h (pos 0) && leb_ℤ (pos 0) h

-- `sourceHeight == 0 || v.Height <= sourceHeight`
abbrev pub is_offered : ℤ → HlsVariant → Bool
is_offered source_height v = is_zero source_height || leb_ℤ v.height source_height

-- The loop that appends the variants that fit.
unfoldable pub fitting : ℤ → List HlsVariant → List HlsVariant
fitting source_height [] = []
fitting source_height (v ∷ rest) =
    if is_offered source_height v
    then v ∷ fitting source_height rest
    else fitting source_height rest

-- `if len(selected) == 0 { selected = hlsVariants[:1] }`
or_first : List HlsVariant → List HlsVariant → List HlsVariant
or_first all (v ∷ rest) = v ∷ rest
or_first [] [] = []
or_first (v ∷ rest) [] = v ∷ []

unfoldable pub selected_variants : ℤ → List HlsVariant
unfolding fitting or_first
selected_variants source_height = or_first hls_variants (fitting source_height hls_variants)

playlist_entries : List HlsVariant → String
playlist_entries [] = ""
playlist_entries (v ∷ rest) =
    "#EXT-X-STREAM-INF:BANDWIDTH="
    ⧺ format_int v.bandwidth
    ⧺ "\n"
    ⧺ v.name
    ⧺ "/playlist.m3u8\n"
    ⧺ playlist_entries rest

-- The text of master.m3u8.
unfoldable pub master_playlist : List HlsVariant → String
unfolding playlist_entries
master_playlist variants = "#EXTM3U\n#EXT-X-VERSION:3\n\n" ⧺ playlist_entries variants
