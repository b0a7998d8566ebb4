-- ===== src/Transcoding/Arguments.antt =====
-- internal/server/transcode_sessions.go: the arguments that ffmpeg is started with for a preset. The
-- session's folder is a clean path, so that joining a name to it puts one slash between them.
use cartolensia.Prelude.{
  Bool, not, ◌||◌, List, [], ◌∷◌, ◌++◌, map, String, Text, text_eq, ◌==◌, if◌then◌else◌,
}
use cartolensia.Texts.{bytes, to_lower}
use cartolensia.Texts.Search.{has_part, equal_fold}
use cartolensia.Transcoding.{Preset, Result, ok, err, av1_live, webm_needs_av1, unsupported_mode}
use cartolensia.Transcoding.Parameters.{
  safe_numeric_parameter, safe_bitrate_parameter, double_bitrate_parameter,
}
use cartolensia.Transcoding.Presets.{default_encoder_for_codec}
use cartolensia.Transcoding.Devices.{Host, vaapi_device_path}

-- A folder's file.
abbrev pub in_folder : Text → Text → Text
in_folder dir name = dir ++ (bytes "/" ++ name)

unfoldable pub encoder_of : Preset → Text
unfolding default_encoder_for_codec
encoder_of preset =
    if preset.ffmpeg_encoder == []
    then default_encoder_for_codec preset.codec
    else preset.ffmpeg_encoder

-- The encoder is one for AV1.
unfoldable pub is_av1 : Text → Bool
unfolding has_part to_lower
is_av1 encoder = has_part (to_lower encoder) (bytes "av1")

abbrev pub numeric : Preset → String → Text
numeric preset fallback = safe_numeric_parameter preset.parameter_value (bytes fallback)

-- What the kind of encoder sets of its speed.
unfoldable pub speed_args : Text → List Text
unfolding is_av1 has_part
speed_args encoder =
    if is_av1 encoder
    then (if has_part encoder (bytes "svtav1")
        then bytes "-preset" ∷ bytes "10" ∷ []
        else if has_part encoder (bytes "libaom")
        then bytes "-cpu-used" ∷ bytes "8" ∷ bytes "-row-mt" ∷ bytes "1" ∷ []
        else if has_part encoder (bytes "rav1e")
        then bytes "-speed" ∷ bytes "10" ∷ []
        else [])
    else if has_part encoder (bytes "nvenc")
    then bytes "-preset" ∷ bytes "p5" ∷ []
    else if has_part encoder (bytes "vaapi")
    then []
    else bytes "-preset" ∷ bytes "veryfast" ∷ []

unfoldable pub quality_args : Preset → Text → List Text
unfolding has_part
quality_args preset encoder =
    if has_part encoder (bytes "nvenc")
    then bytes "-rc"
      ∷ bytes "vbr"
      ∷ bytes "-cq"
      ∷ numeric preset "24"
      ∷ bytes "-b:v"
      ∷ bytes "0"
      ∷ []
    else if has_part encoder (bytes "vaapi")
    then bytes "-qp" ∷ numeric preset "24" ∷ []
    else bytes "-crf" ∷ numeric preset "24" ∷ []

unfoldable pub quantizer_args : Preset → Text → List Text
unfolding has_part
quantizer_args preset encoder =
    if has_part encoder (bytes "nvenc")
    then bytes "-rc" ∷ bytes "constqp" ∷ bytes "-qp" ∷ numeric preset "24" ∷ []
    else bytes "-qp" ∷ numeric preset "24" ∷ []

unfoldable pub bitrate_args : Preset → Text → List Text
unfolding has_part
bitrate_args preset encoder =
    let bitrate = safe_bitrate_parameter preset.parameter_value (bytes "1500k") in
    if has_part encoder (bytes "nvenc")
    then bytes "-b:v"
      ∷ bitrate
      ∷ bytes "-maxrate"
      ∷ bitrate
      ∷ bytes "-bufsize"
      ∷ double_bitrate_parameter bitrate
      ∷ []
    else bytes "-b:v" ∷ bitrate ∷ []

unfoldable pub mode_args : Preset → Text → Result (List Text)
unfolding quality_args quantizer_args bitrate_args
mode_args preset encoder =
    if preset.mode == bytes "quality"
    then ok (quality_args preset encoder)
    else if preset.mode == bytes "quantizer"
    then ok (quantizer_args preset encoder)
    else if preset.mode == bytes "bitrate"
    then ok (bitrate_args preset encoder)
    else err (unsupported_mode preset.mode)

unfoldable pub scale_args : Preset → Text → List Text
unfolding has_part
scale_args preset encoder =
    if preset.codec == bytes "h264" || has_part encoder (bytes "264")
    then (if has_part encoder (bytes "vaapi")
        then bytes "-vf" ∷ bytes "scale=w=1280:h=-2,format=nv12,hwupload" ∷ []
        else bytes "-vf" ∷ bytes "scale=w=1280:h=-2" ∷ [])
    else []

unfoldable pub video_args_for_preset : Preset → Result (List Text)
unfolding encoder_of speed_args mode_args scale_args
video_args_for_preset preset =
    let encoder = encoder_of preset in
    elim (mode_args preset encoder) [
      | ok args ↦
          ok (bytes "-c:v" ∷ encoder ∷ (speed_args encoder ++ (args ++ scale_args preset encoder)))
      | err e ↦ err e
    ]

unfoldable pub ffmpeg_input_args_for_preset : Host → Preset → Text → List Text
unfolding to_lower has_part equal_fold
ffmpeg_input_args_for_preset host preset input_path =
    let device =
      if has_part (to_lower preset.ffmpeg_encoder) (bytes "vaapi")
        || equal_fold preset.hardware (bytes "vaapi")
        || equal_fold preset.hardware (bytes "amd")
      then bytes "-vaapi_device" ∷ vaapi_device_path host ∷ []
      else [] in
    (bytes "-hide_banner" ∷ bytes "-nostdin" ∷ bytes "-y" ∷ device)
    ++ (bytes "-i" ∷ input_path ∷ [])

abbrev pub map_args : List Text
map_args = bytes "-map" ∷ bytes "0:v:0" ∷ bytes "-map" ∷ bytes "0:a?" ∷ []

abbrev pub pixel_args : List Text
pixel_args = bytes "-pix_fmt" ∷ bytes "yuv420p" ∷ []

abbrev pub hls_words : List Text
hls_words = map bytes (
    "-sc_threshold" ∷ "0" ∷ "-g" ∷ "48" ∷ "-f" ∷ "hls" ∷ "-hls_time" ∷ "2" ∷ "-hls_list_size" ∷ "0"
    ∷ "-hls_flags" ∷ "independent_segments" ∷ "-hls_segment_filename" ∷ [])

unfoldable pub output_args : Text → List Text
output_args session_dir =
    hls_words
    ++ (in_folder session_dir (bytes "segment_%05d.ts")
        ∷ in_folder session_dir (bytes "master.m3u8")
        ∷ [])

unfoldable pub hls_args_with_video_audio_for_preset :
    Host → Preset → Text → Text → List Text → List Text → List Text
unfolding ffmpeg_input_args_for_preset has_part to_lower output_args
hls_args_with_video_audio_for_preset host preset input_path session_dir video_args audio_args =
    let pixels =
      if has_part (to_lower preset.ffmpeg_encoder) (bytes "vaapi") then [] else pixel_args in
    ffmpeg_input_args_for_preset host preset input_path
    ++ (map_args ++ (video_args ++ (audio_args ++ (pixels ++ output_args session_dir))))

abbrev pub aac : String → List Text
aac rate = bytes "-c:a" ∷ bytes "aac" ∷ bytes "-b:a" ∷ bytes rate ∷ []

unfoldable pub hls_args_for_preset : Host → Preset → Text → Text → Result (List Text)
unfolding equal_fold is_av1 video_args_for_preset hls_args_with_video_audio_for_preset
hls_args_for_preset host preset input_path session_dir =
    if equal_fold preset.codec (bytes "av1") || is_av1 preset.ffmpeg_encoder
    then err av1_live
    else elim (video_args_for_preset preset) [
      | ok video_args ↦ ok (
          hls_args_with_video_audio_for_preset host preset input_path session_dir video_args
            (aac "128k"))
      | err e ↦ err e
    ]

-- What a WebM session sets for its encoder.
unfoldable pub webm_encoder_args : Preset → Text → List Text
unfolding has_part
webm_encoder_args preset encoder =
    if has_part encoder (bytes "svtav1")
    then bytes "-preset" ∷ bytes "10" ∷ bytes "-crf" ∷ numeric preset "38" ∷ []
    else if has_part encoder (bytes "libaom")
    then bytes "-cpu-used"
      ∷ bytes "8"
      ∷ bytes "-row-mt"
      ∷ bytes "1"
      ∷ bytes "-crf"
      ∷ numeric preset "38"
      ∷ bytes "-b:v"
      ∷ bytes "0"
      ∷ []
    else if has_part encoder (bytes "rav1e")
    then bytes "-speed" ∷ bytes "10" ∷ bytes "-qp" ∷ numeric preset "100" ∷ []
    else bytes "-b:v" ∷ safe_bitrate_parameter preset.parameter_value (bytes "900k") ∷ []

unfoldable pub webm_scale_args : Text → List Text
unfolding has_part
webm_scale_args encoder =
    if has_part encoder (bytes "vaapi")
    then bytes "-vf" ∷ bytes "scale=w=1280:h=-2,format=nv12,hwupload" ∷ []
    else bytes "-vf" ∷ bytes "scale=w=1280:h=-2" ∷ pixel_args

unfoldable pub webm_args_for_preset : Host → Preset → Text → Text → Result (List Text)
unfolding encoder_of is_av1 webm_encoder_args webm_scale_args ffmpeg_input_args_for_preset
webm_args_for_preset host preset input_path session_dir =
    let encoder = encoder_of preset in
    let audio =
      if host.ffmpeg_on_path
      then bytes "-c:a" ∷ bytes "libopus" ∷ bytes "-b:a" ∷ bytes "96k" ∷ []
      else [] in
    if not (is_av1 encoder)
    then err webm_needs_av1
    else ok (
        ffmpeg_input_args_for_preset host preset input_path
        ++ (map_args
            ++ ((bytes "-c:v"
                  ∷ encoder
                  ∷ (webm_encoder_args preset encoder ++ webm_scale_args encoder))
                ++ (audio
                    ++ (bytes "-f"
                        ∷ bytes "webm"
                        ∷ in_folder session_dir (bytes "output.webm")
                        ∷ [])))))

unfoldable pub transcode_args_for_preset : Host → Preset → Text → Text → Result (List Text)
unfolding equal_fold webm_args_for_preset hls_args_for_preset
transcode_args_for_preset host preset input_path session_dir =
    if equal_fold preset.container (bytes "webm")
    then webm_args_for_preset host preset input_path session_dir
    else hls_args_for_preset host preset input_path session_dir
