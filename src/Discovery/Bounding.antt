-- ===== src/Discovery/Bounding.antt =====
-- internal/discovery/discovery.go: the prefixes of a job stay below their storage, and a hash job on a real archive is
-- bounded.
use cartolensia.Prelude.{
  true, false, ◌||◌, none, List, [], ◌∷◌, ◌++◌, ◌≡◌, ◌≢◌, some, ap, ◌⊎◌, inl, inr, refl, subst,
  Text, text_eq, ◌==◌, All, Bool-cases,
}
use cartolensia.Texts.{trim_space, has_prefix}
use cartolensia.Texts.FilePath.{slash, dot, dots, IsInside}
use cartolensia.Storage as storage
use cartolensia.Storage.{Storages, FsAdapter}
use cartolensia.Storage.Registry.{adapter}
use cartolensia.Storage.RelativePath.{normalize_relative_path-IsInside}
use cartolensia.Discovery.Targets.{
  HashPayload, and_then, below_root, scan_prefix, normalize_scan_prefixes, is_empty, is_all,
  is_zero, contains_real_archive_storage, prefix_check, adapter_check, validate_hash_safety,
}

and_then-ok :
    {A B : Type 0} (r : storage.Result A) (f : A → storage.Result B) (b : B)
    → and_then r f ≡ storage.ok b
    → (a : A) × ((r ≡ storage.ok a) × (f a ≡ storage.ok b))
and_then-ok (storage.err e) f b h = cc h
and_then-ok (storage.ok a) f b h = (a, (refl, h))

below_root-IsInside : (rel path : Text) → below_root rel ≡ storage.ok path → IsInside path
below_root-IsInside rel path h =
    elim (Bool-cases
      (rel == dot || rel == dots || has_prefix rel (dots ++ slash ∷ []) || rel == [])) [
        | inl e ↦ cc (rw e at h)
        | inr e ↦ normalize_relative_path-IsInside rel path (rw e at h)
      ]

module _ (relative_to : Text → Text → storage.Result Text) where
  scan_prefix-IsInside :
      (root given path : Text)
      → scan_prefix relative_to root given ≡ storage.ok path
      → IsInside path
  unfolding scan_prefix
  scan_prefix-IsInside root given path h =
      let prefix : Text = trim_space given in
      elim (Bool-cases (prefix == [] || prefix == dot || prefix == slash ∷ [] || prefix == dots)) [
        | inl e ↦ cc (rw e at h)
        | inr e ↦ elim (Bool-cases (has_prefix prefix (slash ∷ []))) [
          | inl f ↦
              let (rel, (found, inside)) =
                and_then-ok (relative_to root prefix) below_root path (rw (e, f) at h) in
              below_root-IsInside rel path inside
          | inr f ↦ normalize_relative_path-IsInside prefix path (rw (e, f) at h)
        ]
      ]

  -- The prefixes that `normalizeScanPrefixes` returns have no empty element, no `.` and no `..`, whatever path the
  -- file system gives for an absolute one.
  pub normalize_scan_prefixes-IsInside :
      (root : Text) (given prefixes : List Text)
      → normalize_scan_prefixes relative_to root given ≡ storage.ok prefixes
      → All IsInside prefixes
  unfolding normalize_scan_prefixes
  normalize_scan_prefixes-IsInside root [] prefixes h =
      subst (All IsInside) {x = []} {y = prefixes} (cc h) tt
  normalize_scan_prefixes-IsInside root (prefix ∷ given) prefixes h =
      let (rel, (first, more)) =
        and_then-ok (scan_prefix relative_to root prefix)
          (λ rel.
            and_then (normalize_scan_prefixes relative_to root given)
              (λ rest. storage.ok (rel ∷ rest)))
          prefixes h in
      let (rest, (others, same)) =
        and_then-ok (normalize_scan_prefixes relative_to root given)
          (λ rest. storage.ok (rel ∷ rest)) prefixes more in
      subst (All IsInside) {x = rel ∷ rest} {y = prefixes} (cc same) (
        scan_prefix-IsInside root prefix rel first,
        normalize_scan_prefixes-IsInside root given rest others,
      )

  -- What the safety check lets a hash job on a real archive do: work on the assets it names, or below prefixes
  -- of one storage that stay below its root, with a number of files that is not zero. A negative number,
  -- which the job takes as no limit, is let through.
  abbrev pub IsBounded : Storages → HashPayload → Type 0
  IsBounded registry payload =
      (is_empty payload.asset_ids ≡ false)
      ⊎ ((is_empty payload.prefixes ≡ false)
          × (payload.max_files ≢ some 0)
          × ((a : FsAdapter) × (prefixes : List Text) × (adapter payload.storage registry
                ≡ storage.ok a)
              × (normalize_scan_prefixes relative_to a.root payload.prefixes ≡ storage.ok prefixes)
              × All IsInside prefixes))

  adapter_check-ok :
      (prefixes : List Text) (made : storage.Result FsAdapter)
      → adapter_check (normalize_scan_prefixes relative_to) prefixes made ≡ none
      → (a : FsAdapter) × (out : List Text) × (made ≡ storage.ok a)
        × (normalize_scan_prefixes relative_to a.root prefixes ≡ storage.ok out)
  adapter_check-ok prefixes (storage.err e) h = cc h
  adapter_check-ok prefixes (storage.ok a) h =
      let (out, e) = checked (normalize_scan_prefixes relative_to a.root prefixes) h in
      (a, out, refl, e)
    where
      checked :
          (r : storage.Result (List Text))
          → prefix_check r ≡ none
          → (out : List Text) × (r ≡ storage.ok out)
      checked (storage.ok out) k = (out, refl)
      checked (storage.err e) k = cc k

  -- `ValidateHashSafety` lets a hash job pass beside a real archive only if it names assets, or names
  -- prefixes of one storage, all of which stay below its root, and a number of files other than zero; a
  -- negative number, which is no limit, passes too.
  pub validate_hash_safety-IsBounded :
      (clean_root : Text → Text) (configs : List storage.Config) (registry : Storages)
      (payload : HashPayload)
      → contains_real_archive_storage clean_root configs ≡ true
      → validate_hash_safety clean_root relative_to configs registry payload ≡ none
      → IsBounded registry payload
  unfolding validate_hash_safety
  validate_hash_safety-IsBounded clean_root configs registry payload real h =
      elim (Bool-cases (is_empty payload.asset_ids)) [
        | inr named ↦ inl named
        | inl unnamed ↦ elim (Bool-cases (payload.storage == [] || is_all payload.storage)) [
          | inl a ↦ cc (rw (real, unnamed, a) at h)
          | inr a ↦ elim (Bool-cases (is_empty payload.prefixes)) [
            | inl b ↦ cc (rw (real, unnamed, a, b) at h)
            | inr b ↦ elim (Bool-cases (is_zero payload.max_files)) [
              | inl c ↦ cc (rw (real, unnamed, a, b, c) at h)
              | inr c ↦
                  let (made, prefixes, found, same) =
                    adapter_check-ok payload.prefixes (adapter payload.storage registry)
                      (rw (real, unnamed, a, b, c) at h) in
                  inr (
                    b,
                    (λ z. cc (ap is_zero z, c)),
                    (
                      made,
                      prefixes,
                      found,
                      same,
                      normalize_scan_prefixes-IsInside made.root payload.prefixes prefixes same,
                    ),
                  )
            ]
          ]
        ]
      ]
