-- ===== src/Albums/Positions.antt =====
-- internal/catalog/extended_store.go: the positions of assets, `UpsertAssetGeo` and `GetAssetGeo`.
use cartolensia.Prelude.{
  ℕ, ◌≤◌, String, Bool, true, false, not, ◌&&◌, ◌||◌, Option, none, some, List, [], ◌∷◌, ◌≡◌, inl,
  inr, refl, sym, subst, arith, string_eq, ◌==◌, eq_iff, All, ltb, Bool-cases, is_none,
  if◌then◌else◌,
}
use cartolensia.Prelude.Dict.{lookup, insert, lookup-insert}
use cartolensia.Catalog.{Metadata, Found, ok, not_found}
use cartolensia.Albums.{AssetGeo, Gallery}

unfoldable pub geo_priority : String → ℕ
geo_priority source =
    if source == "real" || source == "exif" || source == "manual"
    then 100
    else if source == "track_snapped"
    then 70
    else if source == "estimated"
    then 40
    else 0

abbrev or_now : ℕ → Option ℕ → Option ℕ
or_now now none = some now
or_now now (some t) = some t

abbrev or_empty : Metadata → Metadata
or_empty none = some []
or_empty (some m) = some m

unfoldable pub stamped : ℕ → AssetGeo → AssetGeo
stamped now geo = record geo {
  created_at = or_now now geo.created_at;
  updated_at = now;
  metadata = or_empty geo.metadata;
}

-- whether the position that is there stays: it comes from a better source
abbrev pub stays : Bool → AssetGeo → Option AssetGeo → Bool
stays force geo none = false
stays force geo (some current) =
    not force && ltb (geo_priority geo.source) (geo_priority current.source)

abbrev pub current_or : AssetGeo → Option AssetGeo → AssetGeo
current_or geo none = geo
current_or geo (some current) = current

-- UpsertAssetGeo
unfoldable pub upsert_asset_geo : ℕ → AssetGeo → Bool → Gallery → Found AssetGeo × Gallery
unfolding geo_priority stamped
upsert_asset_geo now geo force s =
    let current = lookup geo.asset_id s.asset_geo in
    if is_none (lookup geo.asset_id s.assets)
    then (not_found, s)
    else if stays force geo current
    then (ok (current_or geo current), s)
    else (
      ok (stamped now geo),
      record s { asset_geo = insert geo.asset_id (stamped now geo) s.asset_geo },
    )

abbrev found_geo : Option AssetGeo → Found AssetGeo
found_geo none = not_found
found_geo (some geo) = ok geo

-- GetAssetGeo
unfoldable pub get_asset_geo : String → Gallery → Found AssetGeo
get_asset_geo asset_id s = found_geo (lookup asset_id s.asset_geo)

-- positions that are reported one after another without force, each with its time
abbrev pub report_all : List (ℕ × AssetGeo) → Gallery → Gallery
report_all [] s = s
report_all ((now, geo) ∷ geos) s = report_all geos (upsert_asset_geo now geo false s).1

-- the priority of what is stored; nothing stored has the least
abbrev pub priority_of : Option AssetGeo → ℕ
priority_of none = 0
priority_of (some geo) = geo_priority geo.source

abbrev pub priority_at : String → Gallery → ℕ
priority_at id s = priority_of (lookup id s.asset_geo)

stays_better :
    (geo : AssetGeo) (o : Option AssetGeo)
    → stays false geo o ≡ true
    → geo_priority geo.source ≤ priority_of o
stays_better geo none h = cc h
stays_better geo (some current) h = ground (arith, h)

replaced_worse :
    (geo : AssetGeo) (o : Option AssetGeo)
    → stays false geo o ≡ false
    → priority_of o ≤ geo_priority geo.source
replaced_worse geo none h = omega arith
replaced_worse geo (some current) h = ground (arith, h)

stored_priority :
    (now : ℕ) (geo : AssetGeo) (id : String) (s : Gallery)
    → stays false geo (lookup geo.asset_id s.asset_geo) ≡ false
    → (priority_at id s
        ≤ priority_of (lookup id (insert geo.asset_id (stamped now geo) s.asset_geo)))
      × (geo.asset_id ≡ id
          → is_none (lookup id s.assets) ≡ false
          → geo_priority geo.source
            ≤ priority_of (lookup id (insert geo.asset_id (stamped now geo) s.asset_geo)))
      × (s.assets ≡ s.assets)
unfolding stamped
stored_priority now geo id s worse = elim (Bool-cases (id == geo.asset_id)) [
  | inl e ↦
      rw (lookup-insert geo.asset_id id (stamped now geo) s.asset_geo, e)
        (
          subst (λ x. priority_at x s ≤ geo_priority geo.source)
              (sym ((eq_iff id geo.asset_id).0 e))
              (replaced_worse geo (lookup geo.asset_id s.asset_geo) worse),
          (λ k n. omega arith),
          refl,
        )
  | inr e ↦
      rw (lookup-insert geo.asset_id id (stamped now geo) s.asset_geo, e)
        (omega arith, (λ k n. cc (e, (eq_iff id geo.asset_id).1 (sym k))), refl)
]

priority_after :
    (now : ℕ) (geo : AssetGeo) (id : String) (s : Gallery)
    → (priority_at id s ≤ priority_at id (upsert_asset_geo now geo false s).1)
      × (geo.asset_id ≡ id
          → is_none (lookup id s.assets) ≡ false
          → geo_priority geo.source ≤ priority_at id (upsert_asset_geo now geo false s).1)
      × ((upsert_asset_geo now geo false s).1.assets ≡ s.assets)
unfolding upsert_asset_geo
priority_after now geo id s = elim (Bool-cases (is_none (lookup geo.asset_id s.assets))) [
  | inl unknown ↦ rw unknown (
    omega arith,
    (λ e k. cc (subst (λ x. is_none (lookup x s.assets) ≡ true) e unknown, k)),
    refl,
  )
  | inr known ↦ elim (Bool-cases (stays false geo (lookup geo.asset_id s.asset_geo))) [
    | inl better ↦
        rw (known, better)
          (
            omega arith,
            (λ e k.
                subst (λ x. geo_priority geo.source ≤ priority_at x s) e
                  (stays_better geo (lookup geo.asset_id s.asset_geo) better)),
            refl,
          )
    | inr worse ↦ rw (known, worse) (stored_priority now geo id s worse)
  ]
]

-- After positions that are reported without force, one after another, the stored position of a known asset is from
-- a source at least as good as before and as any of those reported for it.
pub report_all-priority :
    (geos : List (ℕ × AssetGeo)) (id : String) (s : Gallery)
    → is_none (lookup id s.assets) ≡ false
    → (priority_at id s ≤ priority_at id (report_all geos s))
      × All
          (λ report.
            report.1.asset_id ≡ id
            → geo_priority report.1.source ≤ priority_at id (report_all geos s))
          geos
report_all-priority [] id s h = (omega arith, tt)
report_all-priority ((now, geo) ∷ geos) id s h =
    let t : Gallery = (upsert_asset_geo now geo false s).1 in
    let (more, reported, same) = priority_after now geo id s in
    let (later, others) = report_all-priority geos id t (rw same h) in
    (omega (arith, more, later), ((λ e. omega (arith, reported e h, later)), others))
