-- ===== src/Plugins/Ordering.antt =====
-- What `normalizeManifest`, `Validate` and the first loop of `Sort` in internal/plugins/plugins.go let
-- through.
use cartolensia.Prelude.{
  Bool, true, false, Option, none, some, List, [], ◌∷◌, ◌≡◌, inl, inr, refl, subst, Text, text_eq,
  ◌==◌, is_none, Bool-cases, if◌then◌else◌,
}
use cartolensia.Prelude.Dict.{Dict, lookup, insert, Each, Each-insert}
use cartolensia.Plugins.{
  SidecarHttp, Manifest, PluginError, Checked, ok, err, duplicate_id, sidecar, map_option,
  normalize_manifest, validate, if_valid, index,
}

map_option-map_option : (h : Option SidecarHttp) → map_option (map_option h) ≡ map_option h
map_option-map_option none = refl
map_option-map_option (some h) = elim (Bool-cases (h.health_path == [])) [
  | inl e ↦ rw e
  | inr e ↦ rw (e, e)
]

-- Normalizing a manifest a second time changes nothing.
pub normalize_manifest-idempotent :
    (m : Manifest) → normalize_manifest (normalize_manifest m) ≡ normalize_manifest m
unfolding normalize_manifest
normalize_manifest-idempotent m = elim (Bool-cases (m.runtime == [])) [
  | inl e ↦ elim (Bool-cases (m.status == [])) [ inl k ↦ rw (e, k) | inr k ↦ rw (e, k, k) ]
  | inr e ↦ elim (Bool-cases (m.status == [])) [
    | inl k ↦ elim (Bool-cases (m.runtime == sidecar)) [
      | inl b ↦ simp (e, b, k, map_option-map_option m.sidecar_http)
      | inr b ↦ simp (e, b, k)
    ]
    | inr k ↦ elim (Bool-cases (m.runtime == sidecar)) [
      | inl b ↦ simp (e, b, k, map_option-map_option m.sidecar_http)
      | inr b ↦ simp (e, b, k)
    ]
  ]
]

-- A manifest that `Sort` takes into its index: under its identifier, and with nothing that is wrong.
abbrev pub IsIndexed : Dict Text Manifest → Type 0
IsIndexed by_id = Each (λ id m. (Manifest.id m ≡ id) × (validate m ≡ none)) by_id

if_valid-ok :
    (checked : Option PluginError) (free : Bool) (rest : Checked (Dict Text Manifest))
    (e : PluginError) (r : Dict Text Manifest)
    → if_valid checked (if free then rest else err e) ≡ ok r
    → (checked ≡ none) × ((free ≡ true) × (rest ≡ ok r))
if_valid-ok (some x) free rest e r h = cc
if_valid-ok none true rest e r h = (refl, (refl, h))
if_valid-ok none false rest e r h = cc

-- If the first loop of `Sort` goes through from an index in which every manifest stands under its
-- identifier and passes `Validate`, so it is in the index that it ends with.
pub index-IsIndexed :
    (manifests : List Manifest) (by_id r : Dict Text Manifest)
    → index manifests by_id ≡ ok r
    → IsIndexed by_id
    → IsIndexed r
unfolding index
index-IsIndexed [] by_id r h indexed = subst IsIndexed (cc h) indexed
index-IsIndexed (m ∷ manifests) by_id r h indexed =
    let m' : Manifest = normalize_manifest m in
    let (valid, (free, rest)) =
      if_valid-ok (validate m') (is_none (lookup m'.id by_id))
        (index manifests (insert m'.id m' by_id)) (duplicate_id m'.id) r h in
    index-IsIndexed manifests (insert m'.id m' by_id) r rest (
      Each-insert (λ id x. (Manifest.id x ≡ id) × (validate x ≡ none)) m'.id m' by_id (refl, valid)
        indexed)
