-- ===== src/Transcoding/Devices.antt =====
-- internal/server/transcode_sessions.go, `vaapiDevicePath` and `detectVAAPIRenderDevice`: which render
-- device the VAAPI encoders use. What the environment and the folders hold is read once, into `Host`.
use cartolensia.Prelude.{
  Bool, true, false, not, ◌&&◌, ◌||◌, Option, none, some, List, [], ◌∷◌, ◌++◌, Text, text_eq, ◌==◌,
  if◌then◌else◌,
}
use cartolensia.Texts.{bytes, trim_space, to_lower, has_prefix}
use cartolensia.Texts.Search.{sort_texts}

-- An entry of /dev/dri with the text of its vendor file (no text if that cannot be read).
pub record DriEntry : Type 0 where
  pub name : Text
  pub is_dir : Bool
  pub vendor : Text

-- The two variables of the environment (no text if unset), what stat says of /dev/dri, its entries if
-- it can be read, and whether ffmpeg is on the path.
pub record Host : Type 0 where
  pub cartolensia_vaapi_device : Text
  pub libva_render_device : Text
  pub has_dri : Bool
  pub dri_entries : Option (List DriEntry)
  pub ffmpeg_on_path : Bool

unfoldable pub is_render_node : DriEntry → Bool
unfolding has_prefix
is_render_node entry = not entry.is_dir && has_prefix entry.name (bytes "renderD")

unfoldable pub is_preferred : DriEntry → Bool
unfolding trim_space to_lower
is_preferred entry =
    let vendor = to_lower (trim_space entry.vendor) in
    vendor == bytes "0x1002" || vendor == bytes "0x8086"

abbrev pub device_path : DriEntry → Text
device_path entry = bytes "/dev/dri/" ++ entry.name

-- The paths of the render nodes that are preferred, or that are not.
unfoldable pub nodes : Bool → List DriEntry → List Text
unfolding is_render_node is_preferred
nodes wanted [] = []
nodes wanted (entry ∷ entries) =
    let rest = nodes wanted entries in
    if is_render_node entry && (if wanted then is_preferred entry else not (is_preferred entry))
    then device_path entry ∷ rest
    else rest

abbrev pub first_or : Text → List Text → Text
first_or fallback [] = fallback
first_or fallback (path ∷ paths) = path

abbrev pub default_device : Text
default_device = bytes "/dev/dri/renderD128"

unfoldable pub detect_vaapi_render_device : Host → Text
unfolding nodes sort_texts
detect_vaapi_render_device host = elim host.dri_entries [
  | none ↦ default_device
  | some entries ↦
      first_or (first_or default_device (sort_texts (nodes false entries)))
        (sort_texts (nodes true entries))
]

unfoldable pub vaapi_device_path : Host → Text
unfolding trim_space detect_vaapi_render_device
vaapi_device_path host =
    if not (trim_space host.cartolensia_vaapi_device == [])
    then trim_space host.cartolensia_vaapi_device
    else if not (trim_space host.libva_render_device == [])
    then trim_space host.libva_render_device
    else detect_vaapi_render_device host
