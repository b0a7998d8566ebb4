-- ===== src/Albums/Steps.antt =====
-- internal/catalog/extended_store.go: the methods that change albums and their items, as the steps of the store.
use cartolensia.Prelude.{
  ℕ, String, Option, none, some, List, [], ◌∷◌, ◌≡◌, inl, inr, refl, sym, subst, ◌∙◌, string_eq,
  ◌==◌, eq_iff, Bool-cases, Option-cases,
}
use cartolensia.Prelude.Dict.{
  Dict, lookup, insert, remove, lookup-insert, Each, Each-insert, Each-remove,
}
use cartolensia.Catalog.{Asset}
use cartolensia.Albums.{
  Album, AlbumItem, Gallery, items_of, create_album, prepared_album, update_album, update_at,
  edited,
}
use cartolensia.Albums.Items.{add_album_items, add_each, new_item, remove_album_item, without_item}
use cartolensia.Albums.Tree.{delete_album, leaves}
use cartolensia.Albums.Pruning.{Pruned}
use cartolensia.Albums.Deletion.{delete_album-Pruned}

-- A call of a method that changes the store; a deletion is a step if it ends.
pub data Step : Gallery → Gallery → Type 0 where
  creates :
      (now : ℕ) (fresh : String) (album : Album) (s : Gallery)
      → Step s (create_album now fresh album s).1
  updates : (now : ℕ) (album : Album) (s : Gallery) → Step s (update_album now album s).1
  deletes :
      (fuel : ℕ) (album_id : String) (s t : Gallery)
      → delete_album fuel album_id s ≡ leaves t
      → Step s t
  adds :
      (now : ℕ) (album_id : String) (ids : List String) (s : Gallery)
      → Step s (add_album_items now album_id ids s).1
  removes :
      (album_id asset_id : String) (s : Gallery) → Step s (remove_album_item album_id asset_id s).1

pub data Reach (s : Gallery) : Gallery → Type 0 where
  start : Reach s s
  next : {t u : Gallery} → Reach s t → Step t u → Reach s u

-- What stands under an identifier: nothing, or an album of that identifier with items that name it.
abbrev pub Fits : String → Option Album → Option (Dict String AlbumItem) → Type 0
Fits key none none = Unit
Fits key none (some items) = ⊥
Fits key (some album) none = album.id ≡ key
Fits key (some album) (some items) = (album.id ≡ key) × Each (λ x item. item.album_id ≡ key) items

abbrev pub IsTidy : Gallery → Type 0
IsTidy s = (key : String) → Fits key (lookup key s.albums) (lookup key s.album_items)

Fits-id :
    (key : String) (album : Album) (items : Option (Dict String AlbumItem))
    → Fits key (some album) items
    → album.id ≡ key
Fits-id key album none h = h
Fits-id key album (some items) h = h.0

Fits-album :
    (key : String) (old : Option Album) (album : Album) (items : Option (Dict String AlbumItem))
    → album.id ≡ key
    → Fits key old items
    → Fits key (some album) items
Fits-album key none album none e h = e
Fits-album key none album (some items) e h = absurd h
Fits-album key (some old) album none e h = e
Fits-album key (some old) album (some items) e h = (e, h.1)

Fits-items :
    (key : String) (album : Album) (old : Option (Dict String AlbumItem))
    (items : Dict String AlbumItem)
    → Fits key (some album) old
    → (Each (λ x item. item.album_id ≡ key) (items_of old)
        → Each (λ x item. item.album_id ≡ key) items)
    → Fits key (some album) (some items)
Fits-items key album none items h f = (h, f tt)
Fits-items key album (some old) items h f = (h.0, f h.1)

-- an album stored under its identifier
stored_album :
    (key : String) (album : Album) (s : Gallery)
    → album.id ≡ key
    → IsTidy s
    → IsTidy (record s { albums = insert key album s.albums })
stored_album key album s e h k = elim (Bool-cases (k == key)) [
  | inl same ↦
      rw (lookup-insert key k album s.albums, same)
        (Fits-album k (lookup k s.albums) album (lookup k s.album_items)
          (e ∙ sym ((eq_iff k key).0 same)) (h k))
  | inr other ↦ rw (lookup-insert key k album s.albums, other) (h k)
]

-- items stored under an album that there is
stored_items :
    (key : String) (album : Album) (items : Dict String AlbumItem) (s : Gallery)
    → lookup key s.albums ≡ some album
    → (Each (λ x item. item.album_id ≡ key) (items_of (lookup key s.album_items))
        → Each (λ x item. item.album_id ≡ key) items)
    → IsTidy s
    → IsTidy (record s { album_items = insert key items s.album_items })
stored_items key album items s found f h k = elim (Bool-cases (k == key)) [
  | inl same ↦
      let fits : Fits key (some album) (some items) =
        Fits-items key album (lookup key s.album_items) items (rw (← found) (h key)) f in
      rw (lookup-insert key k items s.album_items, same)
        (subst (λ x. Fits x (lookup x s.albums) (some items)) (sym ((eq_iff k key).0 same))
          (rw found fits))
  | inr other ↦ rw (lookup-insert key k items s.album_items, other) (h k)
]

create_album-IsTidy :
    (now : ℕ) (fresh : String) (album : Album) (s : Gallery)
    → IsTidy s
    → IsTidy (create_album now fresh album s).1
unfolding create_album
create_album-IsTidy now fresh album s h =
    stored_album (prepared_album now fresh album).id (prepared_album now fresh album) s refl h

update_at-IsTidy :
    (now : ℕ) (album : Album) (found : Option Album) (s : Gallery)
    → lookup album.id s.albums ≡ found
    → IsTidy s
    → IsTidy (update_at now album found s).1
update_at-IsTidy now album none s e h = h
update_at-IsTidy now album (some current) s e h =
    stored_album album.id (edited now album current) s
      (Fits-id album.id current (lookup album.id s.album_items) (rw (← e) (h album.id))) h

add_each-Each :
    (now : ℕ) (album_id : String) (assets : Dict String Asset) (ids : List String)
    (items : Dict String AlbumItem)
    → Each (λ x item. item.album_id ≡ album_id) items
    → Each (λ x item. item.album_id ≡ album_id) (add_each now album_id assets ids items).1
unfolding add_each
add_each-Each now album_id assets [] items h = h
add_each-Each now album_id assets (id ∷ ids) items h = elim (Option-cases (lookup id assets)) [
  | inl e ↦ rw e h
  | inr (asset, e) ↦
      let item : AlbumItem = new_item now album_id asset in
      rw e (
        add_each-Each now album_id assets ids (insert id item items)
          (Each-insert (λ x i. i.album_id ≡ album_id) id item items refl h))
]

add_album_items-IsTidy :
    (now : ℕ) (album_id : String) (ids : List String) (s : Gallery)
    → IsTidy s
    → IsTidy (add_album_items now album_id ids s).1
unfolding add_album_items
add_album_items-IsTidy now album_id ids s h = elim (Option-cases (lookup album_id s.albums)) [
  | inl e ↦ simp e h
  | inr (album, e) ↦
      let items : Dict String AlbumItem = items_of (lookup album_id s.album_items) in
      simp e (
        stored_items album_id album (add_each now album_id s.assets ids items).1 s e
          (add_each-Each now album_id s.assets ids items) h)
]

without_item-IsTidy :
    (album_id asset_id : String) (found : Option (Dict String AlbumItem)) (s : Gallery)
    → lookup album_id s.album_items ≡ found
    → IsTidy s
    → IsTidy (without_item album_id asset_id found s).1
without_item-IsTidy album_id asset_id none s e h = h
without_item-IsTidy album_id asset_id (some items) s e h =
    elim (Option-cases (lookup album_id s.albums)) [
      | inl no_album ↦ absurd (rw (no_album, e) at (h album_id))
      | inr (album, found) ↦
          stored_items album_id album (remove asset_id items) s found
            (λ each. Each-remove (λ x item. item.album_id ≡ album_id) asset_id items (rw e at each))
            h
    ]

Pruned-IsTidy : {root : String} {s t : Gallery} → Pruned root s t → IsTidy s → IsTidy t
Pruned-IsTidy p h key = elim (p.each key) [
  | inl same ↦ rw (same.0, same.1) (h key)
  | inr gone ↦ rw (gone.0.0, gone.0.1) tt
]

Step-IsTidy : {s t : Gallery} → Step s t → IsTidy s → IsTidy t
unfolding update_album remove_album_item
Step-IsTidy (creates now fresh album s) h = create_album-IsTidy now fresh album s h
Step-IsTidy (updates now album s) h = update_at-IsTidy now album (lookup album.id s.albums) s refl h
Step-IsTidy (deletes fuel album_id s t e) h =
    Pruned-IsTidy (delete_album-Pruned fuel album_id s t e) h
Step-IsTidy (adds now album_id ids s) h = add_album_items-IsTidy now album_id ids s h
Step-IsTidy (removes album_id asset_id s) h =
    without_item-IsTidy album_id asset_id (lookup album_id s.album_items) s refl h

-- In every store that the methods lead to from a tidy one each album stands under its identifier and items
-- stand under albums alone, each with the identifier of its album.
pub Reach-IsTidy : {s t : Gallery} → IsTidy s → Reach s t → IsTidy t
Reach-IsTidy h start = h
Reach-IsTidy h (next r step) = Step-IsTidy step (Reach-IsTidy h r)
