-- ===== src/Transcoding/Profiles.antt =====
-- internal/server/transcode_sessions.go, `hlsArgs` and `hlsArgsForProfile`: which arguments a request for
-- a profile comes to. What the store lists as custom presets is a parameter, as are the capabilities that
-- `transcoding.Detect` finds on the machine.
use cartolensia.Prelude.{
  false, ◌||◌, Option, none, some, List, [], ◌∷◌, Text, text_eq, ◌==◌, if◌then◌else◌,
}
use cartolensia.Texts.{bytes}
use cartolensia.Transcoding.{
  Preset, Capabilities, Result, ok, err, av1_not_enabled, unsupported_profile, list_failed,
}
use cartolensia.Transcoding.Presets.{built_in_transcoding_presets}
use cartolensia.Transcoding.Devices.{Host}
use cartolensia.Transcoding.Arguments.{
  aac, hls_args_with_video_audio_for_preset, transcode_args_for_preset,
}
use cartolensia.Transcoding.Validation.{validate_transcoding_preset}

-- The first preset of the identifier.
unfoldable pub preset_of : Text → List Preset → Option Preset
preset_of id [] = none
preset_of id (preset ∷ presets) =
    let rest = preset_of id presets in if preset.id == id then some preset else rest

unfoldable pub built_in_preset_exact : Capabilities → Text → Option Preset
unfolding preset_of built_in_transcoding_presets
built_in_preset_exact caps profile = preset_of profile (built_in_transcoding_presets caps)

abbrev pub no_preset : Preset
no_preset = record {
  id = [];
  name = [];
  built_in = false;
  available = false;
  disabled_reason = [];
  hardware = [];
  codec = [];
  ffmpeg_encoder = [];
  mode = [];
  parameter_value = [];
  container = [];
}

abbrev pub fallback_preset : Text → Preset
fallback_preset profile = record no_preset {
  id = profile;
  hardware = bytes "cpu";
  codec = bytes "h264";
  ffmpeg_encoder = bytes "libx264";
  mode = bytes "quality";
  parameter_value = bytes "24";
  container = bytes "hls";
}

abbrev pub or_preset : Preset → Option Preset → Preset
or_preset preset none = preset
or_preset preset (some found) = found

-- The name in the list of presets that an older name of a profile stands for.
unfoldable pub alias_of : Text → Text
alias_of profile =
    if profile == bytes "h264-720p-lan" || profile == bytes "browser-h264"
    then bytes "h264_720p_lan"
    else if profile == bytes "h264-low" || profile == bytes "h264-low-bitrate"
    then bytes "h264_low_bitrate"
    else profile

unfoldable pub built_in_preset_by_id : Capabilities → Text → Preset
unfolding built_in_preset_exact alias_of
built_in_preset_by_id caps profile =
    or_preset (or_preset (fallback_preset profile) (built_in_preset_exact caps (alias_of profile)))
      (built_in_preset_exact caps profile)

abbrev pub x264_args : Text → Text → List Text
x264_args quality scale =
    bytes "-c:v"
    ∷ bytes "libx264"
    ∷ bytes "-preset"
    ∷ bytes "veryfast"
    ∷ bytes "-crf"
    ∷ quality
    ∷ bytes "-vf"
    ∷ scale
    ∷ []

unfoldable pub hls_args : Host → Text → Text → Text → Result (List Text)
unfolding hls_args_with_video_audio_for_preset
hls_args host profile input_path session_dir =
    if profile == bytes "h264_720p_lan"
      || profile == bytes "h264-720p-lan"
      || profile == bytes "browser-h264"
    then ok (
        hls_args_with_video_audio_for_preset host no_preset input_path session_dir
          (x264_args (bytes "24") (bytes "scale=w=1280:h=-2")) (aac "128k"))
    else if profile == bytes "h264_low_bitrate"
        || profile == bytes "h264-low"
        || profile == bytes "h264-low-bitrate"
    then ok (
        hls_args_with_video_audio_for_preset host no_preset input_path session_dir
          (x264_args (bytes "30") (bytes "scale=w=854:h=-2")) (aac "96k"))
    else if profile == bytes "av1_low_bitrate" || profile == bytes "av1-preview"
    then err av1_not_enabled
    else err (unsupported_profile profile)

-- The arguments and the preset that they were made for.
abbrev pub StartedSession : Type 0
StartedSession = List Text × Preset

unfoldable pub unchecked_session : Host → Preset → Text → Text → Result StartedSession
unfolding transcode_args_for_preset
unchecked_session host preset input_path session_dir =
    elim (transcode_args_for_preset host preset input_path session_dir) [
      | ok args ↦ ok (args, preset)
      | err e ↦ err e
    ]

unfoldable pub checked_session : Host → Capabilities → Preset → Text → Text → Result StartedSession
unfolding validate_transcoding_preset unchecked_session
checked_session host caps preset input_path session_dir =
    elim (validate_transcoding_preset host caps preset) [
      | some e ↦ err e
      | none ↦ unchecked_session host preset input_path session_dir
    ]

abbrev pub or_text : Text → Text → Text
or_text fallback text = if text == [] then fallback else text

unfoldable pub inline_preset : Preset → Preset
inline_preset preset = record preset {
  id = or_text (bytes "custom_inline") preset.id;
  name = or_text (bytes "Custom inline") preset.name;
}

-- A custom preset of the store; an error of the store is none of its presets.
unfoldable pub custom_session :
    Host → Option (List Preset) → Text → Text → Text → Result StartedSession
unfolding preset_of unchecked_session
custom_session host custom profile input_path session_dir = elim custom [
  | none ↦ err list_failed
  | some presets ↦ elim (preset_of profile presets) [
    | some preset ↦ unchecked_session host preset input_path session_dir
    | none ↦ err (unsupported_profile profile)
  ]
]

-- The preset that is built in for the profile, if there is one.
unfoldable pub built_in_for : Capabilities → Text → Option Preset
unfolding built_in_preset_exact
built_in_for caps profile = elim (built_in_preset_exact caps profile) [
  | some preset ↦ some preset
  | none ↦
      if profile == bytes "av1-preview"
      then built_in_preset_exact caps (bytes "av1_low_bitrate")
      else none
]

unfoldable pub hls_args_for_profile :
    Host
    → Capabilities
    → Option (List Preset)
    → Option Preset
    → Text
    → Text
    → Text
    → Result StartedSession
unfolding checked_session inline_preset hls_args built_in_preset_by_id built_in_for custom_session
hls_args_for_profile host caps custom inline profile input_path session_dir = elim inline [
  | some preset ↦ checked_session host caps (inline_preset preset) input_path session_dir
  | none ↦ elim (hls_args host profile input_path session_dir) [
    | ok args ↦ ok (args, built_in_preset_by_id caps profile)
    | err e ↦ elim (built_in_for caps profile) [
      | some preset ↦ checked_session host caps preset input_path session_dir
      | none ↦ custom_session host custom profile input_path session_dir
    ]
  ]
]
