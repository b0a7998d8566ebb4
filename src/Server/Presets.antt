-- ===== src/Server/Presets.antt =====
-- internal/server/server.go: the handlers that list, store and remove transcoding presets, on the field
-- `transcodePresets` of MemoryStore in internal/catalog/extended_store.go. The times of a preset are left
-- out, and the list, which is sorted by name for display, is the map.
use cartolensia.Prelude.{
  Bool, true, false, Option, none, some, List, [], ◌∷◌, ◌++◌, map, Text, text_eq, ◌==◌, contains,
  is_none, if◌then◌else◌,
}
use cartolensia.Prelude.Dict.{Dict, lookup, insert, remove}
use cartolensia.Texts.{bytes}
use cartolensia.Albums.Slugs.{slugify}
use cartolensia.Transcoding.{Preset, Capabilities, PresetError}
use cartolensia.Transcoding.Presets.{built_in_transcoding_presets}
use cartolensia.Transcoding.Devices.{Host}
use cartolensia.Transcoding.Validation.{validate_transcoding_preset}
use cartolensia.Auth.Store.{AuthStore}
use cartolensia.Auth.Service.{Request}
use cartolensia.Server.{Answer}
use cartolensia.Server.Access.{Gate, require_write}

abbrev pub PresetMap : Type 0
PresetMap = Dict Text Preset

abbrev pub filled : Text → Text → Text
filled value fallback = if value == [] then fallback else value

-- What UpsertTranscodingPreset makes of a preset.
abbrev pub prepared_preset : Preset → Preset
prepared_preset preset =
    let id = filled preset.id (slugify preset.name) in
    record preset { id = id; name = filled preset.name id; built_in = false; available = true }

unfoldable pub upsert_transcoding_preset : Preset → PresetMap → Preset × PresetMap
unfolding slugify
upsert_transcoding_preset preset s =
    let stored = prepared_preset preset in (stored, insert stored.id stored s)

-- Whether there was a preset to delete.
unfoldable pub delete_transcoding_preset : Text → PresetMap → Bool × PresetMap
delete_transcoding_preset id s = if is_none (lookup id s) then (false, s) else (true, remove id s)

pub data PresetAnswer : Type 0 where
  refused_write : Answer → PresetAnswer
  listed : List Preset → PresetAnswer
  created : Preset → PresetAnswer
  replaces_built_in : Text → PresetAnswer
  invalid_preset : PresetError → PresetAnswer
  built_in_stays no_such_preset deleted : PresetAnswer

pub record PresetSite : Type 0 where
  pub accounts : AuthStore
  pub presets : PresetMap

abbrev pub entry_values : PresetMap → List Preset
entry_values [] = []
entry_values ((id, preset) ∷ s) = preset ∷ entry_values s

-- The identifiers of the presets that are built in.
abbrev pub built_in_ids : Capabilities → List Text
built_in_ids caps = map (λ preset. preset.id) (built_in_transcoding_presets caps)

-- a GET of the presets
unfoldable pub list_presets : Capabilities → PresetSite → PresetAnswer
unfolding built_in_transcoding_presets
list_presets caps site = listed (built_in_transcoding_presets caps ++ entry_values site.presets)

abbrev pub create_checked : Host → Capabilities → Preset → PresetSite → PresetAnswer × PresetSite
create_checked host caps preset site =
    if contains (built_in_ids caps) preset.id
    then (replaces_built_in preset.id, site)
    else (let custom : Preset = record preset { built_in = false } in
        elim (validate_transcoding_preset host caps custom) [
          | some e ↦ (invalid_preset e, site)
          | none ↦
              let (stored, presets) = upsert_transcoding_preset custom site.presets in
              (created stored, record site { presets = presets })
        ])

abbrev pub remove_checked : Capabilities → Text → PresetSite → PresetAnswer × PresetSite
remove_checked caps id site =
    if contains (built_in_ids caps) id
    then (built_in_stays, site)
    else (let (found, presets) = delete_transcoding_preset id site.presets in
        (if found then deleted else no_such_preset, record site { presets = presets }))

-- A call that a refusal keeps away.
abbrev pub if_granted :
    (PresetSite → PresetAnswer × PresetSite)
    → PresetSite
    → Option Answer
    → PresetAnswer × PresetSite
if_granted f site none = f site
if_granted f site (some a) = (refused_write a, site)

-- A call behind `requireWrite`.
abbrev pub write_presets :
    Gate
    → Request
    → (PresetSite → PresetAnswer × PresetSite)
    → PresetSite
    → PresetAnswer × PresetSite
write_presets gate r f site =
    let (refused, accounts) =
      require_write gate r (bytes "transcoding.presets.write") site.accounts in
    if_granted f (record site { accounts = accounts }) refused

-- What a request to the presets asks for: to store one, or to remove the one of an identifier.
pub data PresetRequest : Type 0 where
  stores : Preset → PresetRequest
  removes : Text → PresetRequest

-- the POST of handleTranscodingPresets and the DELETE of handleTranscodingPresetByID
unfoldable pub write_preset :
    Gate → Host → Capabilities → Request → PresetRequest → PresetSite → PresetAnswer × PresetSite
unfolding require_write built_in_transcoding_presets validate_transcoding_preset
    upsert_transcoding_preset delete_transcoding_preset
write_preset gate host caps r (stores preset) site =
    write_presets gate r (create_checked host caps preset) site
write_preset gate host caps r (removes id) site = write_presets gate r (remove_checked caps id) site

-- A request with its credential, and what the handler finds the host to be and `transcoding.Detect` finds
-- the machine to be capable of when it comes. A POST asks `Detect` twice; one answer stands for both, since
-- the first serves only to list the identifiers of the built-in presets.
pub record Arrival : Type 0 where
  pub host : Host
  pub caps : Capabilities
  pub request : Request
  pub asked : PresetRequest

-- Requests one after another.
abbrev pub write_all : Gate → List Arrival → PresetSite → PresetSite
write_all gate [] site = site
write_all gate (a ∷ rest) site =
    write_all gate rest (write_preset gate a.host a.caps a.request a.asked site).1
