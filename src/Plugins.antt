-- ===== src/Plugins.antt =====
-- internal/plugins/plugins.go: the manifests of plugins, their checks and their order. The pattern of
-- identifiers is written out, and `sort.Strings` is a parameter, the order of texts.
pub mod Ordering
pub mod Topology
mod Examples
use cartolensia.Prelude.{
  ℕ, zero, suc, Bool, true, false, not, ◌&&◌, ◌||◌, Option, none, some, List, [], ◌∷◌, ◌++◌, map,
  eqb, leb, length, all, Text, text_eq, ◌==◌, contains, is_none, if◌then◌else◌,
}
use cartolensia.Prelude.Dict.{Dict, lookup, insert}
use cartolensia.Texts.{bytes}

pub record SidecarHttp : Type 0 where
  pub base_url : Text
  pub health_path : Text

pub record Manifest : Type 0 where
  pub id : Text
  pub name : Text
  pub version : Text
  pub description : Text
  pub depends_on : List Text
  pub runtime : Text
  pub status : Text
  pub capabilities : List Text
  pub permissions : List Text
  pub sidecar_http : Option SidecarHttp
  pub last_error : Text
  pub config_path : Text

pub data PluginError : Type 0 where
  invalid_id missing_name missing_version missing_base_url unsupported_runtime duplicate_id cycle
        missing_dependency :
      Text → PluginError
  out_of_fuel : PluginError

pub data Checked {ℓ} (A : Type ℓ) : Type ℓ where
  ok : A → Checked A
  err : PluginError → Checked A

abbrev default_health : SidecarHttp → SidecarHttp
default_health h = if h.health_path == [] then record h { health_path = bytes "/health" } else h

abbrev pub sidecar : Text
sidecar = bytes "sidecar_http"

abbrev pub map_option : Option SidecarHttp → Option SidecarHttp
map_option none = none
map_option (some h) = some (default_health h)

unfoldable pub normalize_manifest : Manifest → Manifest
normalize_manifest m =
    let runtime = if m.runtime == [] then bytes "builtin" else m.runtime in
    record m {
      runtime = runtime;
      status = if m.status == [] then bytes "loaded" else m.status;
      sidecar_http = if runtime == sidecar then map_option m.sidecar_http else m.sidecar_http;
    }

-- a byte of `[a-z0-9]`, and one of `[a-z0-9.-]`
abbrev pub is_id_start : ℕ → Bool
is_id_start c = (leb b'a' c && leb c b'z') || (leb b'0' c && leb c b'9')

abbrev pub is_id_byte : ℕ → Bool
is_id_byte c = is_id_start c || (eqb c b'.' || eqb c b'-')

-- `^[a-z0-9][a-z0-9.-]*$`
unfoldable pub is_plugin_id : Text → Bool
is_plugin_id [] = false
is_plugin_id (c ∷ s) = is_id_start c && all is_id_byte s

abbrev lacks_url : Option SidecarHttp → Bool
lacks_url none = true
lacks_url (some h) = h.base_url == []

-- Validate; a nil error is `none`
unfoldable pub validate : Manifest → Option PluginError
unfolding is_plugin_id
validate m =
    if not (is_plugin_id m.id)
    then some (invalid_id m.id)
    else if m.name == []
    then some (missing_name m.id)
    else if m.version == []
    then some (missing_version m.id)
    else if m.runtime == sidecar
    then (if lacks_url m.sidecar_http then some (missing_base_url m.id) else none)
    else if m.runtime == bytes "builtin"
    then none
    else some (unsupported_runtime m.id)

abbrev pub if_valid {ℓ} : {A : Type ℓ} → Option PluginError → Checked A → Checked A
if_valid none r = r
if_valid (some e) r = err e

-- the first loop of Sort
unfoldable pub index : List Manifest → Dict Text Manifest → Checked (Dict Text Manifest)
unfolding normalize_manifest validate
index [] by_id = ok by_id
index (m ∷ manifests) by_id =
    let m' = normalize_manifest m in
    let rest = index manifests (insert m'.id m' by_id) in
    if_valid (validate m') (if is_none (lookup m'.id by_id) then rest else err (duplicate_id m'.id))

-- what the visits have done: the identifiers on the way, and the manifests put in order, whose
-- identifiers are the ones visited
pub record Visits : Type 0 where
  pub visiting : List Text
  pub ordered : List Manifest

abbrev pub visited : List Manifest → Text → Bool
visited [] id = false
visited (m ∷ ms) id = if m.id == id then true else visited ms id

abbrev pub and_then : Checked Visits → (Visits → Checked Visits) → Checked Visits
and_then (ok v) f = f v
and_then (err e) f = err e

-- the list without an identifier: visiting[id] = false
unfoldable pub leave : Text → List Text → List Text
leave id [] = []
leave id (x ∷ xs) = let rest = leave id xs in if x == id then rest else x ∷ rest

abbrev pub enter : Text → Option Manifest → (Manifest → Checked Visits) → Checked Visits
enter id none f = err (missing_dependency id)
enter id (some m) f = f m

-- the loop over identifiers, which stops at the first error
unfoldable pub visit_each : (Text → Visits → Checked Visits) → List Text → Visits → Checked Visits
visit_each f [] v = ok v
visit_each f (id ∷ ids) v = and_then (f id v) (λ w. visit_each f ids w)

abbrev keys : Dict Text Manifest → List Text
keys [] = []
keys ((id, m) ∷ rest) = id ∷ keys rest

abbrev in_order : Checked Visits → Checked (List Manifest)
in_order (ok v) = ok v.ordered
in_order (err e) = err e

abbrev and_visit :
    Checked (Dict Text Manifest)
    → (Dict Text Manifest → Checked (List Manifest))
    → Checked (List Manifest)
and_visit (ok by_id) f = f by_id
and_visit (err e) f = err e

module _ (sort_texts : List Text → List Text) where
  -- the closure `visit` of Sort
  unfoldable pub visit : Dict Text Manifest → ℕ → Text → Visits → Checked Visits
  unfolding visit_each leave
  visit by_id zero id v = err out_of_fuel
  visit by_id (suc fuel) id v =
      if visited v.ordered id
      then ok v
      else if contains v.visiting id
      then err (cycle id)
      else enter id (lookup id by_id) (λ m.
        and_then
          (visit_each (visit by_id fuel) (sort_texts m.depends_on)
            (record v { visiting = id ∷ v.visiting }))
          (λ w. ok (record { visiting = leave id w.visiting; ordered = w.ordered ++ m ∷ [] })))

  -- Sort; a visit enters a manifest only once on a way, so the fuel is one more than the manifests
  unfoldable pub sort : List Manifest → Checked (List Manifest)
  unfolding index visit visit_each
  sort manifests = and_visit (index manifests []) (λ by_id. in_order (
      visit_each (visit by_id (suc (length by_id))) (sort_texts (keys by_id))
        (record { visiting = []; ordered = [] })))
