-- ===== src/Albums/Ending.antt =====
-- internal/catalog/extended_store.go: when the recursion of `deleteAlbumTreeLocked` ends.
use cartolensia.Prelude.{
  ℕ, zero, suc, ◌<◌, String, true, false, Option, none, some, List, [], ◌∷◌, ◌≡◌, ◌≢◌, inl, inr,
  refl, sym, subst, ◌∙◌, arith, string_eq, ◌==◌, eq_iff, contains, Option-cases, Bool-cases,
  is_none,
}
use cartolensia.Prelude.Dict.{Dict, lookup}
use cartolensia.Albums.{Album, Gallery}
use cartolensia.Albums.Tree.{
  drop_album, is_child, delete_children, keys_of, delete_album_tree, leaves, out_of_fuel,
  delete_album,
}
use cartolensia.Albums.Pruning.{
  IsBelow, here, child, Pruned, kept, Prunes, delete_album_tree-Pruned,
}

-- Heights at which every album stands below its parent: there is no cycle.
abbrev pub IsAcyclic : (String → ℕ) → Gallery → Type 0
IsAcyclic height s =
    (key : String) (album : Album)
    → lookup key s.albums ≡ some album
    → height key < height album.parent_id

child_height :
    (height : String → ℕ) (root key : String) (s : Gallery)
    → IsAcyclic height s
    → is_child root (lookup key s.albums) ≡ true
    → height key < height root
child_height height root key s h c = elim (Option-cases (lookup key s.albums)) [
  | inl e ↦ cc (rw e at c)
  | inr (album, e) ↦
      subst (λ x. height key < height x) ((eq_iff album.parent_id root).0 (rw e at c))
        (h key album e)
]

module _ (height : String → ℕ) (again : String → Gallery → Option Gallery) (prunes : Prunes again)
    (root : String)
    (ends : (key : String) (s : Gallery)
      → IsAcyclic height s
      → height key < height root
      → (t : Gallery) × (again key s ≡ some t)) where
  delete_children-ends :
      (keys : List String) (s : Gallery)
      → IsAcyclic height s
      → (t : Gallery) × (delete_children again root keys s ≡ some t)
  unfolding delete_children
  delete_children-ends [] s h = (s, refl)
  delete_children-ends (key ∷ keys) s h = elim (Bool-cases (is_child root (lookup key s.albums))) [
    | inl a_child ↦
        let (u, first) = ends key s h (child_height height root key s h a_child) in
        let (t, rest) =
          delete_children-ends keys u
            (λ k album e. h k album (kept (prunes key s u first).0 k album e)) in
        (t, rw (a_child, first) rest)
    | inr other ↦ let (t, rest) = delete_children-ends keys s h in (t, rw other rest)
  ]

delete_album_tree-ends :
    (height : String → ℕ) (fuel : ℕ) (root : String) (s : Gallery)
    → IsAcyclic height s
    → height root < fuel
    → (t : Gallery) × (delete_album_tree fuel root s ≡ some t)
unfolding delete_album_tree
delete_album_tree-ends height zero root s h f = absurd (omega (arith, f))
delete_album_tree-ends height (suc fuel) root s h f =
    let (t, loop) =
      delete_children-ends height (delete_album_tree fuel) (delete_album_tree-Pruned fuel) root
        (λ key u g below. delete_album_tree-ends height fuel key u g (omega (arith, f, below)))
        (keys_of s.albums) s h in
    (drop_album root t, rw loop refl)

-- `DeleteAlbum` of an album that there is ends without an error if no album is its own ancestor: fuel for more
-- calls than the height of the album is enough.
pub delete_album-ends :
    (height : String → ℕ) (fuel : ℕ) (root : String) (s : Gallery)
    → IsAcyclic height s
    → height root < fuel
    → is_none (lookup root s.albums) ≡ false
    → (t : Gallery) × (delete_album fuel root s ≡ leaves t)
unfolding delete_album
delete_album-ends height fuel root s h f e =
    let (t, tree) = delete_album_tree-ends height fuel root s h f in (t, rw (e, tree) refl)

-- the album is its own parent
abbrev pub IsOwnParent : String → Gallery → Type 0
IsOwnParent root s =
    (album : Album) × ((lookup root s.albums ≡ some album) × (album.parent_id ≡ root))

alone : {root key : String} {s : Gallery} → IsOwnParent root s → IsBelow s key root → key ≡ root
alone own b = go own b refl
  where
    go :
        {s : Gallery} {root key x : String}
        → IsOwnParent root s
        → IsBelow s key x
        → x ≡ root
        → key ≡ root
    go own here e = e
    go {s} {root} {key} {x} (album, (found, p)) (child a f up) e =
        let same : a ≡ album = cc (f, found, e) in
        go (album, (found, p)) up (subst (λ y. y.parent_id ≡ root) (sym same) p)

module _ (again : String → Gallery → Option Gallery) (prunes : Prunes again) (root : String)
    (endless : (s : Gallery) → IsOwnParent root s → again root s ≡ none) where
  loop_kept :
      (key : String) (s u : Gallery)
      → Pruned key s u
      → key ≢ root
      → IsOwnParent root s
      → IsOwnParent root u
  loop_kept key s u p n (album, (found, own)) = elim (p.each root) [
    | inl same ↦ (album, (same.0 ∙ found, own))
    | inr gone ↦ absurd (n (alone (album, (found, own)) gone.1))
  ]

  is_child_own : (s : Gallery) → IsOwnParent root s → is_child root (lookup root s.albums) ≡ true
  is_child_own s (album, (found, own)) = rw found ((eq_iff album.parent_id root).1 own)

  delete_children-endless :
      (keys : List String) (s : Gallery)
      → IsOwnParent root s
      → (contains keys root ≡ true)
      → delete_children again root keys s ≡ none
  unfolding delete_children
  delete_children-endless [] s own m = cc m
  delete_children-endless (key ∷ keys) s own m = elim (Bool-cases (root == key)) [
    | inl e ↦
        let same : root ≡ key = (eq_iff root key).0 e in
        let there : is_child root (lookup key s.albums) ≡ true =
          subst (λ k. is_child root (lookup k s.albums) ≡ true) same (is_child_own s own) in
        let none_there : again key s ≡ none = subst (λ k. again k s ≡ none) same (endless s own) in
        rw (there, none_there) refl
    | inr e ↦ elim (Bool-cases (is_child root (lookup key s.albums))) [
      | inl a_child ↦ elim (Option-cases (again key s)) [
        | inl stops ↦ rw (a_child, stops) refl
        | inr (u, goes) ↦
            let other : key ≢ root = λ k. cc (e, (eq_iff root key).1 (sym k)) in
            rw (a_child, goes)
              (delete_children-endless keys u (loop_kept key s u (prunes key s u goes).0 other own)
                (rw e at m))
      ]
      | inr no_child ↦ rw no_child (delete_children-endless keys s own (rw e at m))
    ]
  ]

contains-keys_of :
    (key : String) (albums : Dict String Album) (album : Album)
    → lookup key albums ≡ some album
    → contains (keys_of albums) key ≡ true
unfolding lookup
contains-keys_of key [] album h = cc h
contains-keys_of key ((other, a) ∷ albums) album h = elim (Bool-cases (key == other)) [
  | inl e ↦ rw e refl
  | inr e ↦ rw e (contains-keys_of key albums album (rw e at h))
]

delete_album_tree-endless :
    (fuel : ℕ) (root : String) (s : Gallery)
    → IsOwnParent root s
    → delete_album_tree fuel root s ≡ none
unfolding delete_album_tree
delete_album_tree-endless zero root s own = refl
delete_album_tree-endless (suc fuel) root s own =
    rw
      (delete_children-endless (delete_album_tree fuel) (delete_album_tree-Pruned fuel) root
        (λ t o. delete_album_tree-endless fuel root t o) (keys_of s.albums) s own
        (contains-keys_of root s.albums own.0 own.1.0))
      refl

-- `DeleteAlbum` of an album that is its own parent never ends: every depth of the recursion is too small.
pub delete_album-endless :
    (fuel : ℕ) (root : String) (s : Gallery)
    → IsOwnParent root s
    → delete_album fuel root s ≡ out_of_fuel
unfolding delete_album
delete_album-endless fuel root s own = rw (own.1.0, delete_album_tree-endless fuel root s own) refl
