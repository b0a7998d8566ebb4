-- ===== src/Transcoding/Validation.antt =====
-- internal/server/transcode_sessions.go, `validateTranscodingPreset`: which presets are let through.
use cartolensia.Prelude.{
  Bool, not, ◌&&◌, ◌||◌, Option, none, some, [], Text, text_eq, ◌==◌, if◌then◌else◌,
}
use cartolensia.Texts.{bytes, trim_space}
use cartolensia.Texts.Search.{equal_fold}
use cartolensia.Transcoding.{
  Preset, Capabilities, PresetError, name_required, codec_required, bad_mode, parameter_required,
  encoder_unavailable, av1_in_hls, hardware_unavailable, needs_dri,
}
use cartolensia.Transcoding.Presets.{encoder_available, hardware_available, is_dri_based_hardware}
use cartolensia.Transcoding.Devices.{Host}
use cartolensia.Transcoding.Arguments.{encoder_of}

unfoldable pub is_mode : Text → Bool
is_mode mode = mode == bytes "quality" || mode == bytes "quantizer" || mode == bytes "bitrate"

unfoldable pub validate_transcoding_preset : Host → Capabilities → Preset → Option PresetError
unfolding trim_space encoder_of is_mode encoder_available equal_fold hardware_available
    is_dri_based_hardware
validate_transcoding_preset host caps preset =
    let encoder = encoder_of preset in
    if trim_space preset.name == []
    then some name_required
    else if preset.codec == []
    then some codec_required
    else if not (is_mode preset.mode)
    then some bad_mode
    else if preset.parameter_value == []
    then some parameter_required
    else if not (encoder_available caps encoder)
    then some (encoder_unavailable encoder)
    else if equal_fold preset.codec (bytes "av1") && equal_fold preset.container (bytes "hls")
    then some av1_in_hls
    else if not (preset.hardware == [])
        && not (preset.hardware == bytes "cpu")
        && not (hardware_available caps preset.hardware)
    then some (hardware_unavailable preset.hardware)
    else if is_dri_based_hardware preset.hardware encoder && not host.has_dri
    then some (needs_dri preset.hardware)
    else none
