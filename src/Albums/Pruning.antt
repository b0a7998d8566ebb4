-- ===== src/Albums/Pruning.antt =====
-- internal/catalog/extended_store.go: what one call of `deleteAlbumTreeLocked` does to the albums and their items.
use cartolensia.Prelude.{
  ℕ, zero, suc, String, true, false, Option, none, some, List, [], ◌∷◌, ◌≡◌, ◌≢◌, ◌⊎◌, inl, inr,
  refl, sym, subst, ◌∙◌, string_eq, ◌==◌, same_ne, same_refl, eq_iff, All, Option-cases, Bool-cases,
}
use cartolensia.Prelude.Dict.{Dict, lookup, lookup-remove}
use cartolensia.Albums.{Album, Gallery}
use cartolensia.Albums.Tree.{
  drop_album, and_then, is_child, delete_children, keys_of, delete_album_tree,
}

-- An album is in the tree of another: it is that album, or its parent is in the tree.
pub data IsBelow (s : Gallery) (root : String) : String → Type 0 where
  here : IsBelow s root root
  child :
      {key : String} (album : Album)
      → lookup key s.albums ≡ some album
      → IsBelow s root album.parent_id
      → IsBelow s root key

-- What one of the calls does to an identifier: nothing, or it takes the album in the tree away.
abbrev pub Same : Gallery → Gallery → String → Type 0
Same s t key =
    (lookup key t.albums ≡ lookup key s.albums)
    × (lookup key t.album_items ≡ lookup key s.album_items)

abbrev pub Gone : Gallery → String → Type 0
Gone t key = (lookup key t.albums ≡ none) × (lookup key t.album_items ≡ none)

-- `t` is `s` without some albums of the tree, and no album that is left has lost its parent.
pub record Pruned (root : String) (s t : Gallery) : Type 0 where
  pub each : (key : String) → Same s t key ⊎ (Gone t key × IsBelow s root key)
  pub parents :
      (key : String) (album : Album)
      → lookup key t.albums ≡ some album
      → lookup album.parent_id t.albums ≡ lookup album.parent_id s.albums

pub kept :
    {root : String} {s t : Gallery}
    → Pruned root s t
    → (key : String) (album : Album) → lookup key t.albums ≡ some album
    → lookup key s.albums ≡ some album
kept p key album h = elim (p.each key) [ inl same ↦ cc (same.0, h) | inr gone ↦ cc (gone.0.0, h) ]

Pruned-refl : (root : String) (s : Gallery) → Pruned root s s
Pruned-refl root s = record { each = λ key. inl (refl, refl); parents = λ key album h. refl }

-- a tree below an album of the tree
IsBelow-IsBelow :
    {root child_id : String} {s : Gallery}
    → IsBelow s root child_id
    → (key : String) → IsBelow s child_id key
    → IsBelow s root key
IsBelow-IsBelow b key here = b
IsBelow-IsBelow b key (child album found up) =
    child album found (IsBelow-IsBelow b album.parent_id up)

-- what is below the root after a tree is taken away was so before
earlier_tree :
    {root child_id : String} {s t : Gallery}
    → Pruned child_id s t
    → (key : String) → IsBelow t root key
    → IsBelow s root key
earlier_tree p key here = here
earlier_tree p key (child album found up) =
    child album (kept p key album found) (earlier_tree p album.parent_id up)

-- a tree taken away first, and then more of the tree around it
Pruned-both :
    {root child_id : String} {s t u : Gallery}
    → IsBelow s root child_id
    → Pruned child_id s t
    → Pruned root t u
    → Pruned root s u
Pruned-both b p q = record {
  each = λ key. elim (q.each key) [
    | inl later ↦ elim (p.each key) [
      | inl first ↦ inl (later.0 ∙ first.0, later.1 ∙ first.1)
      | inr gone ↦ inr ((later.0 ∙ gone.0.0, later.1 ∙ gone.0.1), IsBelow-IsBelow b key gone.1)
    ]
    | inr gone ↦ inr (gone.0, earlier_tree p key gone.1)
  ];
  parents = λ key album h. q.parents key album h ∙ p.parents key album (kept q key album h);
}

-- no album that is left under one of the identifiers has the parent
abbrev Orphaned : String → Gallery → List String → Type 0
Orphaned root t =
    All (λ key. (album : Album) → lookup key t.albums ≡ some album → album.parent_id ≢ root)

-- what the recursive call is to do
abbrev pub Prunes : (String → Gallery → Option Gallery) → Type 0
Prunes again =
    (key : String) (s t : Gallery)
    → again key s ≡ some t
    → Pruned key s t × (lookup key t.albums ≡ none)

pub and_then-some :
    (o : Option Gallery) (rest : Gallery → Option Gallery) (t : Gallery)
    → and_then o rest ≡ some t
    → (u : Gallery) × ((o ≡ some u) × (rest u ≡ some t))
and_then-some none rest t h = cc h
and_then-some (some u) rest t h = (u, (refl, h))

pub child_of :
    (root key : String) (s : Gallery)
    → is_child root (lookup key s.albums) ≡ true
    → IsBelow s root key
child_of root key s h = elim (Option-cases (lookup key s.albums)) [
  | inl e ↦ cc (rw e at h)
  | inr (album, e) ↦
      child album e
        (subst (λ x. IsBelow s root x) (sym ((eq_iff album.parent_id root).0 (rw e at h))) here)
]

not_child :
    {root : String} (found : Option Album) (album : Album)
    → found ≡ some album
    → album.parent_id ≡ root
    → is_child root found ≢ false
not_child none album e p h = cc e
not_child {root} (some a) album e p h =
    let same : a ≡ album = cc e in
    cc (subst (λ x. (x.parent_id == root) ≡ false) same h, (eq_iff album.parent_id root).1 p)

module _ (again : String → Gallery → Option Gallery) (prunes : Prunes again) (root : String) where
  delete_children-Pruned :
      (keys : List String) (s t : Gallery)
      → delete_children again root keys s ≡ some t
      → Pruned root s t × Orphaned root t keys
  unfolding delete_children
  delete_children-Pruned [] s t h = (subst (λ x. Pruned root s x) (cc h) (Pruned-refl root s), tt)
  delete_children-Pruned (key ∷ keys) s t h =
      elim (Bool-cases (is_child root (lookup key s.albums))) [
        | inl a_child ↦
            let (u, (first, rest)) =
              and_then-some (again key s) (delete_children again root keys) t (rw a_child at h) in
            let (p, gone) = prunes key s u first in
            let (q, others) = delete_children-Pruned keys u t rest in
            (
              Pruned-both (child_of root key s a_child) p q,
              ((λ album found. cc (gone, kept q key album found)), others),
            )
        | inr other ↦
            let (q, others) = delete_children-Pruned keys s t (rw other at h) in
            (
              q,
              (
                (λ album found e.
                    not_child (lookup key s.albums) album (kept q key album found) e other),
                others,
              ),
            )
      ]

key_of :
    (P : String → Type 0) (key : String) (albums : Dict String Album) (album : Album)
    → lookup key albums ≡ some album
    → All P (keys_of albums)
    → P key
unfolding lookup
key_of P key [] album h all = cc h
key_of P key ((other, a) ∷ albums) album h all = elim (Bool-cases (key == other)) [
  | inl e ↦ subst P (sym ((eq_iff key other).0 e)) all.0
  | inr e ↦ key_of P key albums album (rw e at h) all.1
]

drop_album-Pruned :
    (root : String) (s t : Gallery)
    → Pruned root s t
    → Orphaned root t (keys_of s.albums)
    → Pruned root s (drop_album root t) × (lookup root (drop_album root t).albums ≡ none)
drop_album-Pruned root s t p orphans = (
  record {
    each = λ key. elim (Bool-cases (key == root)) [
      | inl e ↦ inr (
        (
          rw (lookup-remove root key t.albums, e) refl,
          rw (lookup-remove root key t.album_items, e) refl,
        ),
        subst (λ x. IsBelow s root x) (sym ((eq_iff key root).0 e)) here,
      )
      | inr e ↦
          rw (lookup-remove root key t.albums, lookup-remove root key t.album_items, e) (p.each key)
    ];
    parents = λ key album h. elim (Bool-cases (key == root)) [
      | inl e ↦ cc (rw (lookup-remove root key t.albums, e) at h)
      | inr e ↦
          let found : lookup key t.albums ≡ some album =
            rw (lookup-remove root key t.albums, e) at h in
          let orphan : album.parent_id ≢ root =
            key_of (λ x. (a : Album) → lookup x t.albums ≡ some a → a.parent_id ≢ root) key s.albums
              album (kept p key album found) orphans album found in
          rw (lookup-remove root album.parent_id t.albums, same_ne album.parent_id root orphan)
            (p.parents key album found)
    ];
  },
  rw (lookup-remove root root t.albums, same_refl root) refl,
)

pub delete_album_tree-Pruned : (fuel : ℕ) → Prunes (delete_album_tree fuel)
unfolding delete_album_tree
delete_album_tree-Pruned zero key s t h = cc h
delete_album_tree-Pruned (suc fuel) key s t h =
    let again : String → Gallery → Option Gallery = delete_album_tree fuel in
    let (u, (loop, end)) =
      and_then-some (delete_children again key (keys_of s.albums) s) (λ x. some (drop_album key x))
        t h in
    let (p, orphans) =
      delete_children-Pruned again (delete_album_tree-Pruned fuel) key (keys_of s.albums) s u
        loop in
    subst (λ x. Pruned key s x × (lookup key x.albums ≡ none)) (cc end)
      (drop_album-Pruned key s u p orphans)
