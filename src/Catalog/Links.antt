-- ===== src/Catalog/Links.antt =====
-- The links between assets and tracks of internal/catalog/catalog.go.
use cartolensia.Prelude.{
  ℕ, String, false, ◌||◌, Option, none, some, List, [], ◌∷◌, is_none, string_eq, ◌==◌, ◌≡◌, ◌≢◌,
  refl, arith, same_refl, if◌then◌else◌,
}
use cartolensia.Prelude.Dict.{
  Dict, lookup, insert, remove, lookup-insert_self, lookup-remove, lookup-insert,
}
use cartolensia.Catalog.{TrackLink, AssetStore, Found, ok, not_found}

abbrev or_created : Option ℕ → ℕ → Option ℕ
or_created none now = some now
or_created (some t) now = some t

abbrev pub saved_link : ℕ → String → TrackLink → TrackLink
saved_link now fresh link = record link {
  id = if link.id == "" then fresh else link.id;
  match_status = if link.match_status == "" then "manual" else link.match_status;
  created_at = or_created link.created_at now;
  updated_at = now;
}

-- SaveTrackLink; `fresh` is the new identifier
unfoldable pub save_track_link : ℕ → String → TrackLink → AssetStore → Found TrackLink × AssetStore
save_track_link now fresh link s =
    if is_none (lookup link.asset_id s.assets)
    then (not_found, s)
    else if is_none (lookup link.track_asset_id s.assets)
    then (not_found, s)
    else (let saved = saved_link now fresh link in
        (ok saved, record s { track_links = insert saved.id saved s.track_links }))

-- The loop of ListTrackLinks; what it gives is then sorted by time.
unfoldable pub links_of : String → Dict String TrackLink → List TrackLink
links_of asset_id [] = []
links_of asset_id ((id, link) ∷ m) =
    let rest = links_of asset_id m in
    if asset_id == "" || link.asset_id == asset_id then link ∷ rest else rest

unfoldable pub delete_track_link : String → AssetStore → Found (Unit {0}) × AssetStore
delete_track_link id s =
    if is_none (lookup id s.track_links)
    then (not_found, s)
    else (ok tt, record s { track_links = remove id s.track_links })

is_none-stored : {A : Type 0} (o : Option A) → o ≢ none → is_none o ≡ false
is_none-stored none h = absurd (h refl)
is_none-stored (some a) h = refl

-- For stored assets, `SaveTrackLink` returns the link that is stored under its identifier, with the
-- given assets and an identifier; a deletion by that identifier then succeeds, leaves no link under it
-- and every other link as before the saving, and a second deletion is refused and changes nothing.
pub delete_track_link-save_track_link :
    (now : ℕ) (fresh : String) (link : TrackLink) (s : AssetStore)
    → lookup link.asset_id s.assets ≢ none
    → lookup link.track_asset_id s.assets ≢ none
    → let saved : TrackLink = saved_link now fresh link in
      let (result, s') = save_track_link now fresh link s in
      let (deletion, s'') = delete_track_link saved.id s' in
      (result ≡ ok saved)
      × ((lookup saved.id s'.track_links ≡ some saved)
          × ((deletion ≡ ok tt)
              × (((id : String)
                    → lookup id s''.track_links
                      ≡ (if id == saved.id then none else lookup id s.track_links))
                  × (delete_track_link saved.id s'' ≡ (not_found, s'')))))
unfolding save_track_link delete_track_link
delete_track_link-save_track_link now fresh link s asset track =
    let saved : TrackLink = saved_link now fresh link in
    rw
      (
        is_none-stored (lookup link.asset_id s.assets) asset,
        is_none-stored (lookup link.track_asset_id s.assets) track,
        lookup-insert_self saved.id saved s.track_links,
      )
      (
        refl,
        (
          refl,
          (
            refl,
            (
              (λ id.
                  rw (lookup-remove saved.id id, lookup-insert saved.id id saved) (ground arith)),
              rw (lookup-remove saved.id saved.id, same_refl saved.id) refl,
            ),
          ),
        ),
      )
