-- ===== src/Storage/Refinement.antt =====
-- internal/storage/storage.go: the registry, which keeps two maps, as one map from names to configurations.
use cartolensia.Prelude.{
  Option, none, some, List, [], ◌∷◌, ◌≡◌, inl, inr, refl, ap, subst, ◌∙◌, Text, text_eq, ◌==◌,
  is_none, Bool-cases, if◌then◌else◌,
}
use cartolensia.Prelude.Dict.{lookup, lookup-insert}
use cartolensia.Texts.{trim_space}
use cartolensia.Storage.{
  name_required, unknown_storage, already_exists, Result, ok, err, Config, FsAdapter, Storages,
}
use cartolensia.Storage.Registry.{
  Resolver, normalize_config, add_storage, update_storage, new_registry, put, added, updated,
}
use cartolensia.Storage.Consistency.{
  Agree, IsConsistent, Change, add, update, add_storage-IsConsistent, update_storage-IsConsistent,
  new_registry-run-IsConsistent,
}

-- What a registry promises: a partial map from names to configurations.
abbrev pub NameMap : Type 0
NameMap = Text → Option Config

abbrev named : Text → Config → NameMap → NameMap
named name c m key = if key == name then some c else m key

abbrev pub named_new : NameMap → Result (Config × FsAdapter) → Result Config × NameMap
named_new m (err e) = (err e, m)
named_new m (ok (c, a)) =
    if is_none (m c.name) then (ok c, named c.name c m) else (err (already_exists c.name), m)

abbrev pub named_again : Text → NameMap → Result (Config × FsAdapter) → Result Config × NameMap
named_again name m (err e) = (err e, m)
named_again name m (ok (c, a)) =
    if is_none (m name) then (err (unknown_storage name), m) else (ok c, named name c m)

abbrev pub Implements : Storages → NameMap → Type 0
Implements r m = (key : Text) → lookup key r.configs ≡ m key

same_keys :
    (key : Text) (a : Option FsAdapter) (c : Option Config) → Agree key a c → is_none a ≡ is_none c
same_keys key none none h = refl
same_keys key none (some c) h = absurd h
same_keys key (some a) none h = absurd h
same_keys key (some a) (some c) h = refl

known_in_both :
    (r : Storages) (m : NameMap) (name : Text)
    → IsConsistent r
    → Implements r m
    → is_none (lookup name r.adapters) ≡ is_none (m name)
known_in_both r m name h i =
    same_keys name (lookup name r.adapters) (lookup name r.configs) (h name)
    ∙ ap (λ o. is_none o) (i name)

put-named :
    (r : Storages) (m : NameMap) (name : Text) (c : Config) (a : FsAdapter)
    → Implements r m
    → Implements (put name c a r) (named name c m)
put-named r m name c a i key = rw (lookup-insert name key c r.configs, i key) refl

abbrev Alike : Result Config × Storages → Result Config × NameMap → Type 0
Alike one other = (one.0 ≡ other.0) × Implements one.1 other.1

added-Alike :
    (r : Storages) (m : NameMap) (made : Result (Config × FsAdapter))
    → IsConsistent r
    → Implements r m
    → Alike (added r made) (named_new m made)
added-Alike r m (err e) h i = (refl, i)
added-Alike r m (ok (c, a)) h i = elim (Bool-cases (is_none (m c.name))) [
  | inl e ↦ rw (known_in_both r m c.name h i, e) (refl, put-named r m c.name c a i)
  | inr e ↦ rw (known_in_both r m c.name h i, e) (refl, i)
]

updated-Alike :
    (name : Text) (r : Storages) (m : NameMap) (made : Result (Config × FsAdapter))
    → IsConsistent r
    → Implements r m
    → Alike (updated name r made) (named_again name m made)
updated-Alike name r m (err e) h i = (refl, i)
updated-Alike name r m (ok (c, a)) h i = elim (Bool-cases (is_none (m name))) [
  | inl e ↦ rw (known_in_both r m name h i, e) (refl, i)
  | inr e ↦ rw (known_in_both r m name h i, e) (refl, put-named r m name c a i)
]

module _ (system_ : Resolver) where
  -- the answer of a call, and of the same call of the partial map
  abbrev pub answer : Change → Storages → Result Config × Storages
  answer (add c) r = add_storage system_ c r
  answer (update name c) r = update_storage system_ name c r

  abbrev pub promise : Change → NameMap → Result Config × NameMap
  promise (add c) m = named_new m (normalize_config system_ c)
  promise (update name c) m =
      if trim_space name == []
      then (err name_required, m)
      else named_again name m (normalize_config system_ (record c { name = name }))

  abbrev pub answers : List Change → Storages → List (Result Config)
  answers [] r = []
  answers (c ∷ cs) r = (answer c r).0 ∷ answers cs (answer c r).1

  abbrev pub promises : List Change → NameMap → List (Result Config)
  promises [] m = []
  promises (c ∷ cs) m = (promise c m).0 ∷ promises cs (promise c m).1

  answer-Alike :
      (c : Change) (r : Storages) (m : NameMap)
      → IsConsistent r
      → Implements r m
      → Alike (answer c r) (promise c m)
  unfolding add_storage update_storage
  answer-Alike (add c) r m h i = added-Alike r m (normalize_config system_ c) h i
  answer-Alike (update name c) r m h i = elim (Bool-cases (trim_space name == [])) [
    | inl e ↦ rw e (refl, i)
    | inr e ↦
        rw e (updated-Alike name r m (normalize_config system_ (record c { name = name })) h i)
  ]

  answer-IsConsistent : (c : Change) (r : Storages) → IsConsistent r → IsConsistent (answer c r).1
  answer-IsConsistent (add c) r h = add_storage-IsConsistent system_ c r h
  answer-IsConsistent (update name c) r h = update_storage-IsConsistent system_ name c r h

  -- the registry, and the partial map, after calls
  abbrev pub left : List Change → Storages → Storages
  left [] r = r
  left (c ∷ cs) r = left cs (answer c r).1

  abbrev pub kept : List Change → NameMap → NameMap
  kept [] m = m
  kept (c ∷ cs) m = kept cs (promise c m).1

  -- Under each name the registry has the configuration that the partial map has, and its adapter with
  -- that configuration's name and root, or neither.
  abbrev pub Serves : Storages → NameMap → Type 0
  Serves r m =
      (key : Text) → (lookup key r.configs ≡ m key) × Agree key (lookup key r.adapters) (m key)

  Serves-made : (r : Storages) (m : NameMap) → IsConsistent r → Implements r m → Serves r m
  Serves-made r m h i key =
      (i key, subst (λ c. Agree key (lookup key r.adapters) c) (i key) (h key))

  answers-promises :
      (cs : List Change) (r : Storages) (m : NameMap)
      → IsConsistent r
      → Implements r m
      → (answers cs r ≡ promises cs m) × Serves (left cs r) (kept cs m)
  answers-promises [] r m h i = (refl, Serves-made r m h i)
  answers-promises (c ∷ cs) r m h i =
      let (same, next) = answer-Alike c r m h i in
      let (others, serves) =
        answers-promises cs (answer c r).1 (promise c m).1 (answer-IsConsistent c r h) next in
      (rw (same, others) refl, serves)

  -- A registry that `NewRegistry` makes answers any calls of `AddStorage` and `UpdateStorage` in any order as a partial
  -- map from names to configurations does, which begins with the storages of the registry; after the calls
  -- it has under each name the configuration that the partial map has, and the adapter with that
  -- configuration's name and root, or neither.
  pub new_registry-answers :
      (given : List Config) (r : Storages) (cs : List Change)
      → new_registry system_ given ≡ ok r
      → (answers cs r ≡ promises cs (λ key. lookup key r.configs))
        × Serves (left cs r) (kept cs (λ key. lookup key r.configs))
  new_registry-answers given r cs e =
      answers-promises cs r (λ key. lookup key r.configs)
        (new_registry-run-IsConsistent system_ given r [] e) (λ key. refl)
