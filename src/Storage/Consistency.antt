-- ===== src/Storage/Consistency.antt =====
-- internal/storage/storage.go: the two maps of the registry under `NewRegistry`, `AddStorage` and
-- `UpdateStorage`, and what `GetStorage` finds after them.
use cartolensia.Prelude.{
  not, ◌&&◌, Option, none, some, List, [], ◌∷◌, ◌≡◌, ◌≢◌, inl, inr, refl, sym, ap, subst, ◌∙◌,
  arith, Text, text_eq, ◌==◌, same_text_iff, is_none, Bool-cases,
}
use cartolensia.Prelude.Dict.{lookup, lookup-insert}
use cartolensia.Texts.{trim_space}
use cartolensia.Texts.Trim.{trim_space-trim_space}
use cartolensia.Storage.{Result, ok, err, Config, FsAdapter, Storages}
use cartolensia.Storage.Registry.{
  fs, strict_read_only, read_only_mode, Resolver, clone_smb_config, new_fs_adapter, trimmed_config,
  normalize_config, put, add_storage, update_storage, register, register_all, new_registry,
  registered, resolve_root, then_register, adapter_of, with_root, added, updated, or_default,
}

-- What stands in the two maps under one name: nothing, or an adapter and a configuration of the same
-- storage, of the kind `fs` and with the name that the key has without blanks at its ends.
abbrev pub Agree : Text → Option FsAdapter → Option Config → Type 0
Agree key none none = Unit
Agree key none (some c) = ⊥
Agree key (some a) none = ⊥
Agree key (some a) (some c) =
    (a.name ≡ c.name)
    × (a.root ≡ c.root)
    × (c.kind ≡ fs)
    × (trim_space c.name ≡ trim_space key)
    × (trim_space key ≢ [])

abbrev pub IsConsistent : Storages → Type 0
IsConsistent r = (key : Text) → Agree key (lookup key r.adapters) (lookup key r.configs)

put-IsConsistent :
    (r : Storages) (name : Text) (c : Config) (a : FsAdapter)
    → Agree name (some a) (some c)
    → IsConsistent r
    → IsConsistent (put name c a r)
put-IsConsistent r name c a here h key = elim (Bool-cases (key == name)) [
  | inl e ↦
      rw (lookup-insert name key a r.adapters, lookup-insert name key c r.configs, e)
        (subst (λ k. Agree k (some a) (some c)) (sym ((same_text_iff key name).0 e)) here)
  | inr e ↦ rw (lookup-insert name key a r.adapters, lookup-insert name key c r.configs, e) (h key)
]

adapter_of-name :
    (name : Text) (root : Result Text) (a : FsAdapter) → adapter_of name root ≡ ok a → a.name ≡ name
adapter_of-name name (err e) a h = cc h
adapter_of-name name (ok root) a h = cc h

with_root-ok :
    (c d : Config) (made : Result FsAdapter) (a : FsAdapter)
    → with_root c made ≡ ok (d, a)
    → (made ≡ ok a) × (d ≡ record c { root = a.root; smb = clone_smb_config c.smb })
with_root-ok c d (err e) a h = cc h
with_root-ok c d (ok b) a h = (ap (λ (x : FsAdapter). ok x) (cc h), cc h)

added-IsConsistent :
    (r : Storages) (made : Result (Config × FsAdapter))
    → ((c : Config) (a : FsAdapter) → made ≡ ok (c, a) → Agree c.name (some a) (some c))
    → IsConsistent r
    → IsConsistent (added r made).1
added-IsConsistent r (err e) agree h = h
added-IsConsistent r (ok (c, a)) agree h = elim (Bool-cases (is_none (lookup c.name r.adapters))) [
  | inl e ↦ rw e (put-IsConsistent r c.name c a (agree c a refl) h)
  | inr e ↦ rw e h
]

updated-IsConsistent :
    (name : Text) (r : Storages) (made : Result (Config × FsAdapter))
    → ((c : Config) (a : FsAdapter) → made ≡ ok (c, a) → Agree name (some a) (some c))
    → IsConsistent r
    → IsConsistent (updated name r made).1
updated-IsConsistent name r (err e) agree h = h
updated-IsConsistent name r (ok (c, a)) agree h =
    elim (Bool-cases (is_none (lookup name r.adapters))) [
      | inl e ↦ rw e h
      | inr e ↦ rw e (put-IsConsistent r name c a (agree c a refl) h)
    ]

registered-IsConsistent :
    (c : Config) (r s : Storages) (made : Result FsAdapter)
    → c.kind ≡ fs
    → ((a : FsAdapter) → made ≡ ok a → (a.name ≡ c.name) × (trim_space c.name ≢ []))
    → IsConsistent r
    → registered c r made ≡ ok s
    → IsConsistent s
registered-IsConsistent c r s (err e) kind named h done = cc done
registered-IsConsistent c r s (ok a) kind named h done =
    elim (Bool-cases (is_none (lookup c.name r.adapters))) [
      | inl e ↦
          let (same, blank) = named a refl in
          subst IsConsistent (cc (rw e at done)) (
            put-IsConsistent r c.name (record c { root = a.root; smb = clone_smb_config c.smb }) a
              (same, refl, kind, refl, blank) h)
      | inr e ↦ cc (rw e at done)
    ]

then_register-ok :
    (rest : Storages → Result Storages) (made : Result Storages) (s : Storages)
    → then_register rest made ≡ ok s
    → (t : Storages) × ((made ≡ ok t) × (rest t ≡ ok s))
then_register-ok rest (err e) s h = cc h
then_register-ok rest (ok t) s h = (t, (refl, h))

-- A call that changes the registry.
pub data Change : Type 0 where
  add : Config → Change
  update : Text → Config → Change

module _ (system_ : Resolver) where
  new_fs_adapter-name :
      (name root : Text) (a : FsAdapter)
      → new_fs_adapter system_ name root ≡ ok a
      → (a.name ≡ name) × (trim_space name ≢ [])
  unfolding new_fs_adapter
  new_fs_adapter-name name root a h = elim (Bool-cases (trim_space name == [])) [
    | inl e ↦ cc (rw e at h)
    | inr e ↦ (
      adapter_of-name name (resolve_root system_ (system_.absolute root)) a (rw e at h),
      (λ n. cc (e, (same_text_iff (trim_space name) []).1 n)),
    )
  ]

  -- what normalizeConfig returns describes one storage
  pub normalize_config-Agree :
      (given c : Config) (a : FsAdapter)
      → normalize_config system_ given ≡ ok (c, a)
      → (c.name ≡ trim_space given.name) × Agree c.name (some a) (some c)
  unfolding normalize_config trimmed_config
  normalize_config-Agree given c a h =
      let t : Config = trimmed_config system_ given in
      elim (Bool-cases (not (t.kind == fs))) [
        | inl e ↦ cc (rw e at h)
        | inr e ↦
            elim (Bool-cases (not (t.mode == strict_read_only) && not (t.mode == read_only_mode))) [
              | inl f ↦ cc (rw (e, f) at h)
              | inr f ↦
                  let (made, same) =
                    with_root-ok t c (new_fs_adapter system_ t.name t.root) a (rw (e, f) at h) in
                  let (named, blank) = new_fs_adapter-name t.name t.root a made in
                  rw same (
                    refl,
                    (named, refl, (same_text_iff t.kind fs).0 (ground (arith, e)), refl, blank),
                  )
            ]
      ]

  renamed :
      (name : Text) (c : Config) (a : FsAdapter)
      → (c.name ≡ trim_space name) × Agree c.name (some a) (some c)
      → Agree name (some a) (some c)
  renamed name c a (e, (named, root, kind, _, blank)) =
      let same : trim_space c.name ≡ trim_space name = rw (e, trim_space-trim_space name) in
      (named, root, kind, same, (λ n. blank (same ∙ n)))

  pub add_storage-IsConsistent :
      (c : Config) (r : Storages) → IsConsistent r → IsConsistent (add_storage system_ c r).1
  unfolding add_storage
  add_storage-IsConsistent c r h =
      added-IsConsistent r (normalize_config system_ c)
        (λ d a e. (normalize_config-Agree c d a e).1) h

  pub update_storage-IsConsistent :
      (name : Text) (c : Config) (r : Storages)
      → IsConsistent r
      → IsConsistent (update_storage system_ name c r).1
  unfolding update_storage
  update_storage-IsConsistent name c r h = elim (Bool-cases (trim_space name == [])) [
    | inl e ↦ rw e h
    | inr e ↦ rw e (
        updated-IsConsistent name r (normalize_config system_ (record c { name = name }))
          (λ d a made.
            renamed name d a (normalize_config-Agree (record c { name = name }) d a made))
          h)
  ]

  register-IsConsistent :
      (c : Config) (r s : Storages) → IsConsistent r → register system_ c r ≡ ok s → IsConsistent s
  unfolding register
  register-IsConsistent c r s h e =
      let d : Config = record c { mode = or_default strict_read_only c.mode } in
      elim (Bool-cases (c.kind == fs)) [
        | inl k ↦
            registered-IsConsistent d r s (new_fs_adapter system_ c.name c.root)
              ((same_text_iff c.kind fs).0 k) (λ a made. new_fs_adapter-name c.name c.root a made) h
              (rw k at e)
        | inr k ↦ cc (rw k at e)
      ]

  pub register_all-IsConsistent :
      (cs : List Config) (r s : Storages)
      → IsConsistent r
      → register_all system_ cs r ≡ ok s
      → IsConsistent s
  unfolding register_all
  register_all-IsConsistent [] r s h e = subst IsConsistent (cc e) h
  register_all-IsConsistent (c ∷ cs) r s h e =
      let (t, (m, rest)) = then_register-ok (register_all system_ cs) (register system_ c r) s e in
      register_all-IsConsistent cs t s (register-IsConsistent c r t h m) rest

  abbrev pub change : Change → Storages → Storages
  change (add c) r = (add_storage system_ c r).1
  change (update name c) r = (update_storage system_ name c r).1

  abbrev pub run : List Change → Storages → Storages
  run [] r = r
  run (c ∷ cs) r = run cs (change c r)

  run-IsConsistent :
      (changes : List Change) (r : Storages) → IsConsistent r → IsConsistent (run changes r)
  run-IsConsistent [] r h = h
  run-IsConsistent (add c ∷ changes) r h =
      run-IsConsistent changes (change (add c) r) (add_storage-IsConsistent c r h)
  run-IsConsistent (update name c ∷ changes) r h =
      run-IsConsistent changes (change (update name c) r) (update_storage-IsConsistent name c r h)

  -- From a registry that `NewRegistry` makes, additions and updates in any order lead to one whose two
  -- maps have the same names, with an adapter and a configuration of the same storage under each: same
  -- name and root, kind `fs`, and the name of the key up to blanks at its ends, which is not empty.
  pub new_registry-run-IsConsistent :
      (cs : List Config) (r : Storages) (changes : List Change)
      → new_registry system_ cs ≡ ok r
      → IsConsistent (run changes r)
  unfolding new_registry lookup
  new_registry-run-IsConsistent cs r changes e =
      run-IsConsistent changes r
        (register_all-IsConsistent cs (record { adapters = []; configs = [] }) r (λ key. tt) e)
