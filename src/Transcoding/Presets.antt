-- ===== src/Transcoding/Presets.antt =====
-- internal/server/transcode_sessions.go: what an encoder and a hardware are taken for, and the presets
-- that are built in.
use cartolensia.Prelude.{
  Bool, true, false, not, ◌&&◌, ◌||◌, List, [], ◌∷◌, Text, text_eq, ◌==◌, contains, if◌then◌else◌,
}
use cartolensia.Texts.{bytes, to_lower}
use cartolensia.Texts.Search.{has_part}
use cartolensia.Transcoding.{Preset, Capabilities, HardwareHints}

unfoldable pub default_encoder_for_codec : Text → Text
unfolding to_lower
default_encoder_for_codec codec =
    let c = to_lower codec in
    if c == bytes "h264" || c == bytes "h.264"
    then bytes "libx264"
    else if c == bytes "h265" || c == bytes "hevc" || c == bytes "h.265"
    then bytes "libx265"
    else if c == bytes "av1"
    then bytes "libsvtav1"
    else bytes "libx264"

unfoldable pub encoder_available : Capabilities → Text → Bool
encoder_available caps encoder =
    if encoder == [] || encoder == bytes "copy" then true else contains caps.encoders encoder

unfoldable pub hardware_available : Capabilities → Text → Bool
unfolding to_lower
hardware_available caps hardware =
    let h = to_lower hardware in
    let hints : HardwareHints = caps.hints in
    if h == [] || h == bytes "cpu" || h == bytes "none"
    then true
    else if h == bytes "nvidia" || h == bytes "nvidia_gpu" || h == bytes "nvidia_nvenc"
    then hints.nvidia_smi
    else if h == bytes "amd" || h == bytes "amd_gpu" || h == bytes "vaapi"
    then hints.vaapi
    else if h == bytes "intel" || h == bytes "intel_gpu" || h == bytes "qsv"
    then hints.qsv || hints.dev_dri
    else false

unfoldable pub is_dri_based_hardware : Text → Text → Bool
unfolding to_lower has_part
is_dri_based_hardware hardware encoder =
    let h = to_lower hardware in
    let e = to_lower encoder in
    h == bytes "amd"
    || h == bytes "intel"
    || h == bytes "vaapi"
    || h == bytes "qsv"
    || has_part e (bytes "vaapi")
    || has_part e (bytes "qsv")

abbrev pub av1_encoders : List Text
av1_encoders =
    bytes "libsvtav1"
    ∷ bytes "libaom-av1"
    ∷ bytes "librav1e"
    ∷ bytes "av1_qsv"
    ∷ bytes "av1_nvenc"
    ∷ bytes "av1_vaapi"
    ∷ []

-- The first of the encoders that is available, or no text.
unfoldable pub first_available : Capabilities → List Text → Text
unfolding encoder_available
first_available caps [] = []
first_available caps (encoder ∷ encoders) =
    if encoder_available caps encoder then encoder else first_available caps encoders

unfoldable pub choose_av1_encoder : Capabilities → Text
unfolding first_available
choose_av1_encoder caps = first_available caps av1_encoders

-- The reason that a preset is shown with when it is not available.
abbrev pub reason_unless : Bool → Text → Text
reason_unless is_there reason = if is_there then [] else reason

abbrev pub live : Text → Text → Bool → Text → Text → Text → Text → Text → Text → Text → Preset
live id name is_there reason hardware codec encoder mode value container = record {
  id = id;
  name = name;
  built_in = true;
  available = is_there;
  disabled_reason = reason_unless is_there reason;
  hardware = hardware;
  codec = codec;
  ffmpeg_encoder = encoder;
  mode = mode;
  parameter_value = value;
  container = container;
}

-- Whether ffmpeg, the encoder and the hardware are there.
unfoldable pub encodes_on : Capabilities → Text → Text → Bool
unfolding encoder_available hardware_available
encodes_on caps encoder hardware =
    caps.ffmpeg && encoder_available caps encoder && hardware_available caps hardware

abbrev pub original : Preset
original = record {
  id = bytes "original";
  name = bytes "Original/direct";
  built_in = true;
  available = true;
  disabled_reason = [];
  hardware = bytes "none";
  codec = bytes "copy";
  ffmpeg_encoder = bytes "copy";
  mode = bytes "direct";
  parameter_value = bytes "original";
  container = bytes "original";
}

unfoldable pub built_in_transcoding_presets : Capabilities → List Preset
unfolding encodes_on encoder_available choose_av1_encoder
built_in_transcoding_presets caps =
    let h264 = caps.ffmpeg && encoder_available caps (bytes "libx264") in
    let h264_nvenc = encodes_on caps (bytes "h264_nvenc") (bytes "nvidia") in
    let h264_vaapi = encodes_on caps (bytes "h264_vaapi") (bytes "vaapi") in
    let av1_nvenc = encodes_on caps (bytes "av1_nvenc") (bytes "nvidia") in
    let av1_vaapi = encodes_on caps (bytes "av1_vaapi") (bytes "vaapi") in
    let av1_encoder = choose_av1_encoder caps in
    let av1 = caps.ffmpeg && not (av1_encoder == []) in
    original
    ∷ live (bytes "h264_720p_lan") (bytes "H.264 720p LAN") h264
        (bytes "ffmpeg/libx264 is unavailable") (bytes "cpu") (bytes "h264") (bytes "libx264")
        (bytes "quality") (bytes "24") (bytes "hls")
    ∷ live (bytes "h264_low_bitrate") (bytes "H.264 low bitrate") h264
        (bytes "ffmpeg/libx264 is unavailable") (bytes "cpu") (bytes "h264") (bytes "libx264")
        (bytes "quality") (bytes "30") (bytes "hls")
    ∷ live (bytes "h264_nvenc_720p_lan") (bytes "H.264 NVIDIA NVENC 720p LAN") h264_nvenc
        (bytes "ffmpeg h264_nvenc or NVIDIA runtime is unavailable") (bytes "nvidia") (bytes "h264")
        (bytes "h264_nvenc") (bytes "quality") (bytes "24") (bytes "hls")
    ∷ live (bytes "h264_vaapi_720p_lan") (bytes "H.264 VAAPI 720p LAN") h264_vaapi
        (bytes "ffmpeg h264_vaapi or /dev/dri VAAPI runtime is unavailable") (bytes "vaapi")
        (bytes "h264") (bytes "h264_vaapi") (bytes "quantizer") (bytes "24") (bytes "hls")
    ∷ live (bytes "av1_low_bitrate") (bytes "AV1 low bitrate") av1
        (bytes "No CPU AV1 encoder (libsvtav1, libaom-av1, or librav1e) is available in ffmpeg")
        (bytes "cpu") (bytes "av1") av1_encoder (bytes "quality") (bytes "38") (bytes "webm")
    ∷ live (bytes "av1_nvenc_low_bitrate") (bytes "AV1 NVIDIA NVENC low bitrate") av1_nvenc
        (bytes "ffmpeg av1_nvenc or NVIDIA runtime is unavailable") (bytes "nvidia") (bytes "av1")
        (bytes "av1_nvenc") (bytes "bitrate") (bytes "1000k") (bytes "webm")
    ∷ live (bytes "av1_vaapi_low_bitrate") (bytes "AV1 VAAPI low bitrate") av1_vaapi
        (bytes "ffmpeg av1_vaapi or /dev/dri VAAPI runtime is unavailable") (bytes "vaapi")
        (bytes "av1") (bytes "av1_vaapi") (bytes "bitrate") (bytes "1000k") (bytes "webm")
    ∷ []
