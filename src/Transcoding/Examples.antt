-- ===== src/Transcoding/Examples.antt =====
-- Examples of the properties of Transcoding, and tests.
use cartolensia.Prelude.{
  true, false, Option, none, some, inl, inr, List, [], ◌∷◌, ◌≡◌, refl, map, Text, text_eq, All,
}
use cartolensia.Texts.{bytes}
use cartolensia.Transcoding.{Preset, Capabilities}
use cartolensia.Transcoding.Parameters.{safe_bitrate_parameter, double_bitrate_parameter}
use cartolensia.Transcoding.Presets.{live, built_in_transcoding_presets}
use cartolensia.Transcoding.Devices.{Host, vaapi_device_path}
use cartolensia.Transcoding.Arguments.{encoder_of, webm_encoder_args, transcode_args_for_preset}
use cartolensia.Transcoding.Validation.{validate_transcoding_preset}
use cartolensia.Transcoding.Profiles.{checked_session, built_in_preset_exact}
use cartolensia.Transcoding.Expected.{IsExpected}
use cartolensia.Transcoding.Safety.{transcode_args_for_preset-AreExpected}
use cartolensia.Transcoding.Starting.{succeeds, is_live, validate_transcoding_preset-started}
use cartolensia.Transcoding.BuiltIn.{built_in_transcoding_presets-start}

abbrev host : Host
host = record {
  cartolensia_vaapi_device = [];
  libva_render_device = [];
  has_dri = true;
  dri_entries = none;
  ffmpeg_on_path = true;
}

abbrev caps : Capabilities
caps = record {
  ffmpeg = true;
  encoders = map bytes ("libx264" ∷ "h264_nvenc" ∷ "av1_nvenc" ∷ []);
  hints = record { nvidia_smi = true; dev_dri = false; vaapi = false; qsv = false };
}

-- A preset whose parameter tries to add an option.
abbrev sly : Preset
sly = record {
  id = bytes "sly";
  name = bytes "Sly";
  built_in = false;
  available = true;
  disabled_reason = [];
  hardware = bytes "nvidia";
  codec = bytes "h264";
  ffmpeg_encoder = bytes "h264_nvenc";
  mode = bytes "bitrate";
  parameter_value = bytes "900k -f tee";
  container = bytes "hls";
}

abbrev sly_args : List Text
sly_args = map bytes (
    "-hide_banner" ∷ "-nostdin" ∷ "-y" ∷ "-i" ∷ "in.mp4" ∷ "-map" ∷ "0:v:0" ∷ "-map" ∷ "0:a?"
    ∷ "-c:v" ∷ "h264_nvenc" ∷ "-preset" ∷ "p5" ∷ "-b:v" ∷ "1500k" ∷ "-maxrate" ∷ "1500k"
    ∷ "-bufsize" ∷ "3000k" ∷ "-vf" ∷ "scale=w=1280:h=-2" ∷ "-c:a" ∷ "aac" ∷ "-b:a" ∷ "128k"
    ∷ "-pix_fmt" ∷ "yuv420p" ∷ "-sc_threshold" ∷ "0" ∷ "-g" ∷ "48" ∷ "-f" ∷ "hls" ∷ "-hls_time"
    ∷ "2" ∷ "-hls_list_size" ∷ "0" ∷ "-hls_flags" ∷ "independent_segments" ∷ "-hls_segment_filename"
    ∷ "/tmp/s/segment_%05d.ts" ∷ "/tmp/s/master.m3u8" ∷ [])

transcode_args_for_preset-AreExpected_example :
    All
      (IsExpected (encoder_of sly) (vaapi_device_path host) (bytes "in.mp4") (bytes "/tmp/s"))
      sly_args
unfolding transcode_args_for_preset safe_bitrate_parameter double_bitrate_parameter
transcode_args_for_preset-AreExpected_example =
    transcode_args_for_preset-AreExpected host sly (bytes "in.mp4") (bytes "/tmp/s") sly_args refl

validate_transcoding_preset-started_example :
    succeeds (checked_session host caps sly (bytes "in.mp4") (bytes "/tmp/s")) ≡ is_live sly
unfolding validate_transcoding_preset
validate_transcoding_preset-started_example =
    validate_transcoding_preset-started host sly (bytes "in.mp4") (bytes "/tmp/s") caps refl

-- H.264 with NVENC
abbrev nvenc : Preset
nvenc =
    live (bytes "h264_nvenc_720p_lan") (bytes "H.264 NVIDIA NVENC 720p LAN") true
      (bytes "ffmpeg h264_nvenc or NVIDIA runtime is unavailable") (bytes "nvidia") (bytes "h264")
      (bytes "h264_nvenc") (bytes "quality") (bytes "24") (bytes "hls")

built_in_transcoding_presets-start_example :
    (validate_transcoding_preset host caps nvenc ≡ none)
    × (succeeds (checked_session host caps nvenc (bytes "in.mp4") (bytes "/tmp/s")) ≡ true)
unfolding built_in_transcoding_presets
built_in_transcoding_presets-start_example =
    built_in_transcoding_presets-start host caps refl (bytes "in.mp4") (bytes "/tmp/s") nvenc
      (inr (inr (inr (inl refl)))) refl (λ e. cc e)

-- A rate that is only a unit is let through.
lone_unit : safe_bitrate_parameter (bytes "k") (bytes "900k") ≡ bytes "k"
unfolding safe_bitrate_parameter
lone_unit = refl

abbrev preset_args : Capabilities → Text → Option (List Text)
preset_args caps id = elim (built_in_preset_exact caps id) [
  | none ↦ none
  | some preset ↦ some (webm_encoder_args preset (encoder_of preset))
]

-- With NVENC as the only encoder for AV1, the quality 38 of the preset `av1_low_bitrate` becomes a rate.
quality_as_rate :
    preset_args caps (bytes "av1_low_bitrate") ≡ some (bytes "-b:v" ∷ bytes "38k" ∷ [])
unfolding built_in_preset_exact webm_encoder_args encoder_of safe_bitrate_parameter
quality_as_rate = refl
