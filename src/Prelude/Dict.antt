-- ===== src/Prelude/Dict.antt =====
-- Go's maps: at most one entry for a key. The order of the entries stands for the order in which
-- `range` visits them, which Go leaves open, so a law that holds for every list holds for every
-- visiting order.
use mathlib.Core.Path.{◌≡◌, refl, sym, subst}
use mathlib.Core.List.{List, [], ◌∷◌}
use mathlib.Core.Option.{Option, none, some}
use mathlib.Core.Logic.{◌≢◌, inl, inr}
use cartolensia.Prelude.Lists.{All}
use native.Mathlib.Omega.{arith}
use cartolensia.Prelude.Tests.{if◌then◌else◌, Bool-cases}
use cartolensia.Prelude.Keys.{HasEq, ◌==◌, same_refl, same_ne}

abbrev pub Dict {ℓ κ} : Type ℓ → Type κ → Type (ℓ ⊔ κ)
Dict K V = List (K × V)

module _ {ℓ κ} {K : Type ℓ} {V : Type κ} ⦃q : HasEq K⦄ where
  -- value, ok := m[key]
  unfoldable pub lookup : K → Dict K V → Option V
  lookup key [] = none
  lookup key ((other, value) ∷ rest) = if key == other then some value else lookup key rest

  -- delete(m, key)
  unfoldable pub remove : K → Dict K V → Dict K V
  remove key [] = []
  remove key ((other, value) ∷ rest) =
      let kept = remove key rest in if key == other then kept else (other, value) ∷ kept

  -- m[key] = value
  unfoldable pub insert : K → V → Dict K V → Dict K V
  insert key value [] = (key, value) ∷ []
  insert key value ((other, old) ∷ rest) =
      let inserted = insert key value rest in
      if key == other then (key, value) ∷ rest else (other, old) ∷ inserted

  pub lookup-remove :
      (gone key : K) (m : Dict K V)
      → lookup key (remove gone m) ≡ (if key == gone then none else lookup key m)
  unfolding lookup remove
  lookup-remove gone key [] = ground arith
  lookup-remove gone key ((other, value) ∷ rest) = ground (
    arith,
    lookup-remove gone key rest,
    q.same_iff gone other,
    q.same_iff key other,
    q.same_iff key gone,
  )

  pub lookup-insert :
      (new key : K) (value : V) (m : Dict K V)
      → lookup key (insert new value m) ≡ (if key == new then some value else lookup key m)
  unfolding lookup insert
  lookup-insert new key value [] = refl
  lookup-insert new key value ((other, old) ∷ rest) = ground (
    arith,
    lookup-insert new key value rest,
    q.same_iff new other,
    q.same_iff key other,
    q.same_iff key new,
  )

  pub lookup-insert_self :
      (key : K) (value : V) (m : Dict K V) → lookup key (insert key value m) ≡ some value
  lookup-insert_self key value m = rw (lookup-insert, same_refl key)

  pub lookup-insert_ne :
      {new key : K} (value : V) (m : Dict K V)
      → key ≢ new
      → lookup key (insert new value m) ≡ lookup key m
  lookup-insert_ne {new} {key} value m h = rw (lookup-insert new key value m, same_ne key new h)

module _ {ℓ κ ι} {K : Type ℓ} {V : Type κ} ⦃q : HasEq K⦄ (P : K → V → Type ι) where
  -- What holds of every entry.
  abbrev pub Each : Dict K V → Type ι
  Each = All (λ entry. P entry.0 entry.1)

  pub Each-insert : (k : K) (v : V) (m : Dict K V) → P k v → Each m → Each (insert k v m)
  unfolding insert
  Each-insert k v [] p h = (p, tt)
  Each-insert k v ((j, w) ∷ m) p h = elim (Bool-cases (k == j)) [
    | inl same ↦ rw same (p, h.1)
    | inr other ↦ rw other (h.0, Each-insert k v m p h.1)
  ]

  pub Each-remove : (k : K) (m : Dict K V) → Each m → Each (remove k m)
  unfolding remove
  Each-remove k [] h = tt
  Each-remove k ((j, w) ∷ m) h = elim (Bool-cases (k == j)) [
    | inl same ↦ rw same (Each-remove k m h.1)
    | inr other ↦ rw other (h.0, Each-remove k m h.1)
  ]

  pub Each-lookup : (k : K) (v : V) (m : Dict K V) → Each m → lookup k m ≡ some v → P k v
  unfolding lookup
  Each-lookup k v [] h found = cc
  Each-lookup k v ((j, w) ∷ m) h found = elim (Bool-cases (k == j)) [
    | inl same ↦
        let here : w ≡ v = cc (rw same at found) in
        subst (λ x. P k x) here (subst (λ x. P x w) (sym ((q.same_iff k j).0 same)) h.0)
    | inr other ↦ Each-lookup k v m h.1 (rw other at found)
  ]
