-- ===== src/Storage/Lookup.antt =====
-- internal/storage/storage.go: what `GetStorage` finds after `AddStorage`.
use cartolensia.Prelude.{
  true, ◌≡◌, ◌≢◌, inl, inr, refl, ap, subst, Text, text_eq, is_none, Bool-cases,
}
use cartolensia.Prelude.Dict.{lookup, lookup-insert_self, lookup-insert_ne}
use cartolensia.Texts.{trim_space}
use cartolensia.Storage.{already_exists, Result, ok, err, Config, FsAdapter, Storages}
use cartolensia.Storage.Registry.{
  Resolver, clone_config, get_storage, normalize_config, put, add_storage, added,
}
use cartolensia.Storage.Consistency.{normalize_config-Agree}

added-ok :
    (r s : Storages) (made : Result (Config × FsAdapter)) (d : Config)
    → added r made ≡ (ok d, s)
    → (a : FsAdapter) × ((made ≡ ok (d, a))
        × ((s ≡ put d.name d a r) × (is_none (lookup d.name r.adapters) ≡ true)))
added-ok r s (err e) d h = cc h
added-ok r s (ok (c, a)) d h = elim (Bool-cases (is_none (lookup c.name r.adapters))) [
  | inl e ↦
      let same : (ok c, put c.name c a r) ≡ (ok d, s) = rw e at h in
      let c_d : c ≡ d = cc same in
      (
        a,
        (
          ap (λ x. ok (x, a)) c_d,
          (
            subst (λ x. s ≡ put x.name x a r) c_d (cc same),
            subst (λ x. is_none (lookup x.name r.adapters) ≡ true) c_d e,
          ),
        ),
      )
  | inr e ↦ cc (rw e at h)
]

module _ (system_ : Resolver) where
  -- A storage that `AddStorage` accepts is the one `GetStorage` finds under its trimmed name, cloned, and
  -- every other name leads to what it did; a second addition under that name is refused.
  pub get_storage-add_storage :
      (c d : Config) (r s : Storages)
      → add_storage system_ c r ≡ (ok d, s)
      → (get_storage d.name s ≡ ok (clone_config d))
        × ((name : Text) → name ≢ d.name → get_storage name s ≡ get_storage name r)
        × (d.name ≡ trim_space c.name)
        × (add_storage system_ c s ≡ (err (already_exists d.name), s))
  unfolding get_storage add_storage
  get_storage-add_storage c d r s e =
      let (a, (made, (same, free))) = added-ok r s (normalize_config system_ c) d e in
      (
        rw (same, lookup-insert_self d.name d r.configs) refl,
        (λ name n. rw (same, lookup-insert_ne d r.configs n) refl),
        (normalize_config-Agree system_ c d a made).0,
        rw (made, same, lookup-insert_self d.name a r.adapters) refl,
      )
