-- ===== src/Transcoding.antt =====
-- internal/server/transcode_sessions.go: the preset of a transcoding, and the arguments that ffmpeg is
-- started with. The data of internal/catalog/catalog.go and internal/transcoding/transcoding.go that it
-- reads stands here, less the times and the extra arguments of a preset, which this code never reads.
pub mod Parameters
pub mod Presets
pub mod Devices
pub mod Arguments
pub mod Validation
pub mod Profiles
mod Expected
mod Words
mod Safety
mod Rates
mod Starting
mod BuiltIn
mod Examples
use cartolensia.Prelude.{Bool, List, Text}

-- catalog.TranscodingPreset
pub record Preset : Type 0 where
  pub id : Text
  pub name : Text
  pub built_in : Bool
  pub available : Bool
  pub disabled_reason : Text
  pub hardware : Text
  pub codec : Text
  pub ffmpeg_encoder : Text
  pub mode : Text
  pub parameter_value : Text
  pub container : Text

-- transcoding.HardwareHints
pub record HardwareHints : Type 0 where
  pub nvidia_smi : Bool
  pub dev_dri : Bool
  pub vaapi : Bool
  pub qsv : Bool

-- transcoding.Capabilities: whether ffmpeg is there, the names of its encoders, and the hardware
pub record Capabilities : Type 0 where
  pub ffmpeg : Bool
  pub encoders : List Text
  pub hints : HardwareHints

-- The texts of the errors, one constructor each.
pub data PresetError : Type 0 where
  name_required codec_required bad_mode parameter_required : PresetError
  encoder_unavailable : Text → PresetError
  av1_in_hls : PresetError
  hardware_unavailable : Text → PresetError
  needs_dri : Text → PresetError
  av1_live webm_needs_av1 : PresetError
  unsupported_mode : Text → PresetError
  av1_not_enabled : PresetError
  unsupported_profile : Text → PresetError
  list_failed : PresetError

pub data Result {ℓ} (A : Type ℓ) : Type ℓ where
  ok : A → Result A
  err : PresetError → Result A
