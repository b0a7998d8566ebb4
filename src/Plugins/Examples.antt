-- ===== src/Plugins/Examples.antt =====
-- Two manifests, one of which depends on the other.
use cartolensia.Prelude.{none, [], ◌∷◌, ◌≡◌, refl, Text}
use cartolensia.Prelude.Dict.{Dict, lookup, insert}
use cartolensia.Texts.{bytes}
use cartolensia.Plugins.{
  Manifest, ok, normalize_manifest, validate, is_plugin_id, index, sort, visit, visit_each, leave,
}
use cartolensia.Plugins.Topology.{IsSorted, sort-IsSorted}

abbrev base : Manifest
base = record {
  id = bytes "b";
  name = bytes "Base";
  version = bytes "1";
  description = [];
  depends_on = [];
  runtime = [];
  status = [];
  capabilities = [];
  permissions = [];
  sidecar_http = none;
  last_error = [];
  config_path = [];
}

abbrev extra : Manifest
extra = record base { id = bytes "a"; depends_on = bytes "b" ∷ [] }

abbrev normal_form : Manifest → Manifest
normal_form m = record m { runtime = bytes "builtin"; status = bytes "loaded" }

abbrev both : Dict Text Manifest
both = (bytes "b", normal_form base) ∷ (bytes "a", normal_form extra) ∷ []

both_made : index (base ∷ extra ∷ []) [] ≡ ok both
unfolding index normalize_manifest validate is_plugin_id insert lookup
both_made = refl

-- The manifest that others depend on comes first.
base_first : sort (λ xs. xs) (extra ∷ base ∷ []) ≡ ok (normal_form base ∷ normal_form extra ∷ [])
unfolding sort index visit visit_each leave normalize_manifest validate is_plugin_id insert lookup
base_first = refl

sort-IsSorted_example :
    IsSorted (index (extra ∷ base ∷ []) []) (sort (λ xs. xs) (extra ∷ base ∷ []))
sort-IsSorted_example = sort-IsSorted (λ xs. xs) (λ P xs h. h) (extra ∷ base ∷ [])
