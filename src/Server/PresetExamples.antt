-- ===== src/Server/PresetExamples.antt =====
-- Examples of the handlers of transcoding presets, without authentication.
use cartolensia.Prelude.{true, false, none, List, [], ◌∷◌, ◌≡◌, ◌⊎◌, inl, inr, refl, text_eq}
use cartolensia.Texts.{bytes}
use cartolensia.Transcoding.{Preset, Capabilities}
use cartolensia.Transcoding.Devices.{Host}
use cartolensia.Auth.Store.{empty_store}
use cartolensia.Auth.Service.{Request}
use cartolensia.Server.Access.{dev_gate}
use cartolensia.Server.Presets.{
  PresetSite, Arrival, stores, removes, built_in_stays, write_preset, write_all,
}
use cartolensia.Server.Vetting.{AreVetted, write_all-AreVetted}

abbrev host : Host
host = record {
  cartolensia_vaapi_device = [];
  libva_render_device = [];
  has_dri = false;
  dri_entries = none;
  ffmpeg_on_path = true;
}

abbrev caps : Capabilities
caps = record {
  ffmpeg = true;
  encoders = bytes "libx264" ∷ [];
  hints = record { nvidia_smi = false; dev_dri = false; vaapi = false; qsv = false };
}

abbrev site : PresetSite
site = record { accounts = empty_store; presets = [] }

abbrev anonymous : Request
anonymous = record { authorization = []; cookie = none; csrf = [] }

-- A preset without an identifier, whose name makes the identifier of a built-in one.
abbrev unnamed : Preset
unnamed = record {
  id = [];
  name = bytes "Original";
  built_in = false;
  available = true;
  disabled_reason = [];
  hardware = bytes "cpu";
  codec = bytes "h264";
  ffmpeg_encoder = bytes "libx264";
  mode = bytes "quality";
  parameter_value = bytes "24";
  container = bytes "hls";
}

-- a machine without FFmpeg
abbrev bare : Capabilities
bare = record {
  ffmpeg = false;
  encoders = [];
  hints = record { nvidia_smi = false; dev_dri = false; vaapi = false; qsv = false };
}

abbrev asked : List Arrival
asked =
    record { host = host; caps = caps; request = anonymous; asked = stores unnamed }
    ∷ record {
      host = host;
      caps = bare;
      request = anonymous;
      asked = removes (bytes "h264_720p_lan");
    }
    ∷ []

abbrev Machines : Host → Capabilities → Type 0
Machines h c = (h ≡ host) × ((c ≡ caps) ⊎ (c ≡ bare))

write_all-AreVetted_example : AreVetted Machines (write_all dev_gate asked site).presets
write_all-AreVetted_example =
    write_all-AreVetted Machines dev_gate asked site ((refl, inl refl), ((refl, inr refl), tt)) tt

-- The preset is stored under `original`, and then cannot be removed.
stored_original :
    (write_preset dev_gate host caps anonymous
      (removes (bytes "original"))
      (write_preset dev_gate host caps anonymous (stores unnamed) site).1).0
    ≡ built_in_stays
unfolding write_preset dev_gate
stored_original = refl
