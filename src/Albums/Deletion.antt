-- ===== src/Albums/Deletion.antt =====
-- internal/catalog/extended_store.go: what `DeleteAlbum` takes away and what it leaves.
use cartolensia.Prelude.{
  ℕ, String, false, Option, none, some, ◌≡◌, ◌≢◌, inl, inr, sym, ap, subst, ◌∙◌, string_eq,
  Option-cases, Bool-cases, is_none,
}
use cartolensia.Prelude.Dict.{lookup}
use cartolensia.Albums.{Gallery}
use cartolensia.Albums.Tree.{delete_album_tree, leaves, deleted, delete_album}
use cartolensia.Albums.Pruning.{IsBelow, here, child, Pruned, Gone, kept, delete_album_tree-Pruned}

-- an album of the tree is one of the store, if the root is
stands_below :
    (root key : String) (s : Gallery)
    → is_none (lookup root s.albums) ≡ false
    → IsBelow s root key
    → lookup key s.albums ≢ none
stands_below root key s h here = λ e. cc (rw e at h)
stands_below root key s h (child album found up) = λ e. cc (found, e)

below-Gone :
    (root : String) (s t : Gallery)
    → is_none (lookup root s.albums) ≡ false
    → Pruned root s t
    → lookup root t.albums ≡ none
    → (key : String) → IsBelow s root key
    → Gone t key
below-Gone root s t h p gone key b = elim (p.each key) [
  | inl same ↦ absurd (stands_below root key s h b (sym same.0 ∙ gone_below b))
  | inr g ↦ g.0
]
  where
    gone_below : {x : String} → IsBelow s root x → lookup x t.albums ≡ none
    gone_below here = gone
    gone_below {x} (child album found up) = elim (Option-cases (lookup x t.albums)) [
      | inl e ↦ e
      | inr (a, e) ↦
          let same : a ≡ album = cc (kept p x a e, found) in
          absurd (
            stands_below root album.parent_id s h up (
              sym (
                subst (λ y. lookup y.parent_id t.albums ≡ lookup y.parent_id s.albums) same
                  (p.parents x a e))
              ∙ gone_below up))
    ]

deleted-leaves : (o : Option Gallery) (t : Gallery) → deleted o ≡ leaves t → o ≡ some t
deleted-leaves none t h = cc h
deleted-leaves (some s) t h = ap (λ x. some x) (cc h)

-- a deletion that ends takes a tree away
pub delete_album-Pruned :
    (fuel : ℕ) (root : String) (s t : Gallery)
    → delete_album fuel root s ≡ leaves t
    → Pruned root s t
unfolding delete_album
delete_album-Pruned fuel root s t h = elim (Bool-cases (is_none (lookup root s.albums))) [
  | inl e ↦ cc (rw e at h)
  | inr e ↦
      (delete_album_tree-Pruned fuel root s t
        (deleted-leaves (delete_album_tree fuel root s) t (rw e at h))).0
]

-- If `DeleteAlbum` ends without an error, each album of the tree below the deleted one, itself included, is
-- gone with its items, and every other identifier has the album and the items that it had.
pub delete_album-IsBelow :
    (fuel : ℕ) (root : String) (s t : Gallery)
    → delete_album fuel root s ≡ leaves t
    → (key : String)
    → (IsBelow s root key → (lookup key t.albums ≡ none) × (lookup key t.album_items ≡ none))
      × (¬ (IsBelow s root key)
          → (lookup key t.albums ≡ lookup key s.albums)
            × (lookup key t.album_items ≡ lookup key s.album_items))
unfolding delete_album
delete_album-IsBelow fuel root s t h key = elim (Bool-cases (is_none (lookup root s.albums))) [
  | inl e ↦ cc (rw e at h)
  | inr e ↦
      let (p, gone) =
        delete_album_tree-Pruned fuel root s t
          (deleted-leaves (delete_album_tree fuel root s) t (rw e at h)) in
      (
        (λ b. below-Gone root s t e p gone key b),
        (λ n. elim (p.each key) [ inl same ↦ same | inr g ↦ absurd (n g.1) ]),
      )
]
