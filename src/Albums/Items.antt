-- ===== src/Albums/Items.antt =====
-- internal/catalog/extended_store.go: the assets in an album, `AddAlbumItems` and `RemoveAlbumItem`.
use cartolensia.Prelude.{
  ℕ, String, false, Option, none, some, List, [], ◌∷◌, ◌≡◌, ◌≢◌, inl, inr, refl, arith, string_eq,
  ◌==◌, contains, eq_iff, Bool-cases, Option-cases, is_none, not, all, if◌then◌else◌,
}
use cartolensia.Prelude.Dict.{
  Dict, lookup, insert, remove, lookup-insert, lookup-insert_self, lookup-insert_ne,
}
use cartolensia.Catalog.{Asset}
use cartolensia.Albums.{AlbumItem, Gallery, items_of}

pub data Reply : Type 0 where
  done not_found : Reply

abbrev pub new_item : ℕ → String → Asset → AlbumItem
new_item now album_id asset = record {
  album_id = album_id;
  asset = asset;
  note = "";
  sort_order = 0;
  added_at = now;
}

-- the loop over the identifiers, which ends at the first unknown asset
module _ (now : ℕ) (album_id : String) (assets : Dict String Asset) where
  abbrev pub add_one :
      Option Asset
      → String
      → (Dict String AlbumItem → Reply × Dict String AlbumItem)
      → Dict String AlbumItem
      → Reply × Dict String AlbumItem
  add_one none asset_id rest items = (not_found, items)
  add_one (some asset) asset_id rest items =
      rest (insert asset_id (new_item now album_id asset) items)

  unfoldable pub add_each : List String → Dict String AlbumItem → Reply × Dict String AlbumItem
  add_each [] items = (done, items)
  add_each (asset_id ∷ ids) items = add_one (lookup asset_id assets) asset_id (add_each ids) items

-- AddAlbumItems
unfoldable pub add_album_items : ℕ → String → List String → Gallery → Reply × Gallery
unfolding add_each
add_album_items now album_id ids s =
    if is_none (lookup album_id s.albums)
    then (not_found, s)
    else (let added =
          add_each now album_id s.assets ids (items_of (lookup album_id s.album_items)) in
        (added.0, record s { album_items = insert album_id added.1 s.album_items }))

abbrev pub without_item :
    String → String → Option (Dict String AlbumItem) → Gallery → Reply × Gallery
without_item album_id asset_id none s = (not_found, s)
without_item album_id asset_id (some items) s =
    (done, record s { album_items = insert album_id (remove asset_id items) s.album_items })

-- RemoveAlbumItem
unfoldable pub remove_album_item : String → String → Gallery → Reply × Gallery
remove_album_item album_id asset_id s =
    without_item album_id asset_id (lookup album_id s.album_items) s

-- the identifiers before the first unknown asset
abbrev pub known_part : Dict String Asset → List String → List String
known_part assets [] = []
known_part assets (asset_id ∷ ids) =
    let rest = known_part assets ids in
    if is_none (lookup asset_id assets) then [] else asset_id ∷ rest

abbrev pub item_or : ℕ → String → Option Asset → Option AlbumItem
item_or now album_id none = none
item_or now album_id (some asset) = some (new_item now album_id asset)

abbrev pub item_of : String → Gallery → String → Option AlbumItem
item_of album_id s asset_id = lookup asset_id (items_of (lookup album_id s.album_items))

-- what the loop leaves under an identifier
add_each-item :
    (now : ℕ) (album_id : String) (assets : Dict String Asset) (ids : List String)
    (items : Dict String AlbumItem) (x : String)
    → lookup x (add_each now album_id assets ids items).1 ≡ (
        if contains (known_part assets ids) x
        then item_or now album_id (lookup x assets)
        else lookup x items)
unfolding add_each
add_each-item now album_id assets [] items x = refl
add_each-item now album_id assets (id ∷ ids) items x = elim (Option-cases (lookup id assets)) [
  | inl e ↦ rw e refl
  | inr (asset, e) ↦
      let item : AlbumItem = new_item now album_id asset in
      let rest : Dict String AlbumItem = insert id item items in
      elim (Bool-cases (x == id)) [
        | inl same ↦
            let at_x : lookup x assets ≡ some asset = rw ((eq_iff x id).0 same) e in
            rw
              (
                e,
                add_each-item now album_id assets ids rest x,
                lookup-insert id x item items,
                same,
                at_x,
              )
              (ground arith)
        | inr other ↦
            rw
              (
                e,
                add_each-item now album_id assets ids rest x,
                lookup-insert id x item items,
                other,
              )
              refl
      ]
]

add_each-done :
    (now : ℕ) (album_id : String) (assets : Dict String Asset) (ids : List String)
    (items : Dict String AlbumItem)
    → (add_each now album_id assets ids items).0
      ≡ (if all (λ id. not (is_none (lookup id assets))) ids then done else not_found)
unfolding add_each
add_each-done now album_id assets [] items = refl
add_each-done now album_id assets (id ∷ ids) items = elim (Option-cases (lookup id assets)) [
  | inl e ↦ rw e refl
  | inr (asset, e) ↦
      rw e (add_each-done now album_id assets ids (insert id (new_item now album_id asset) items))
]

-- `AddAlbumItems` to an album that there is succeeds exactly if every asset is known; an asset stands in the album
-- afterwards as a new item if it comes before the first unknown one, and as it did if not, and other albums
-- keep their items.
pub add_album_items-known_part :
    (now : ℕ) (album_id : String) (ids : List String) (s : Gallery)
    → is_none (lookup album_id s.albums) ≡ false
    → (let r = add_album_items now album_id ids s in
        (r.0 ≡ (if all (λ id. not (is_none (lookup id s.assets))) ids then done else not_found))
        × ((x : String)
            → item_of album_id r.1 x ≡ (
                if contains (known_part s.assets ids) x
                then item_or now album_id (lookup x s.assets)
                else item_of album_id s x))
        × ((other : String)
            → other ≢ album_id
            → lookup other r.1.album_items ≡ lookup other s.album_items))
unfolding add_album_items
add_album_items-known_part now album_id ids s h =
    let items : Dict String AlbumItem = items_of (lookup album_id s.album_items) in
    let added : Dict String AlbumItem = (add_each now album_id s.assets ids items).1 in
    (
      rw h (add_each-done now album_id s.assets ids items),
      (λ x.
          rw (h, lookup-insert_self album_id added s.album_items)
            (add_each-item now album_id s.assets ids items x)),
      (λ other n. rw h (lookup-insert_ne added s.album_items n)),
    )
