-- ===== src/Previews/Fitting.antt =====
-- internal/preview/preview.go, `Cleanup`: how large the cache is when the cleaning is done.
use mathlib.Core.List.{Permᴰ, append_assoc, append-nil}
use cartolensia.Prelude.{
  ℕ, ◌+◌, ◌≤◌, ◌<◌, Bool, true, false, ◌||◌, Option, none, List, [], ◌∷◌, ◌++◌, ◌≡◌, ◌⊎◌, inl, inr,
  refl, sym, ap, ◌∙◌, subst, arith, String, Text, text_eq, ◌==◌, same_refl, eqb, leb→le, any, All,
  Bool-cases, if◌then◌else◌,
}
use cartolensia.Previews.{
  CacheEntry, Sweep, Swept, fits, is_stale, taking, adding, remove_expired, remove_until,
  empty_sweep, after_sweep, cleanup,
}

abbrev weigh : (CacheEntry → ℕ) → List CacheEntry → ℕ
weigh weight [] = 0
weigh weight (entry ∷ entries) = weight entry + weigh weight entries

abbrev pub size_of : List CacheEntry → ℕ
size_of = weigh (λ entry. entry.size_bytes)

abbrev pub is_removed : List CacheEntry → CacheEntry → Bool
is_removed removed entry = any (λ (r : CacheEntry). r.path == entry.path) removed

-- The files that are still there, as their paths are not among the removed ones.
abbrev pub left : List CacheEntry → List CacheEntry → List CacheEntry
left removed [] = []
left removed (entry ∷ entries) =
    let rest = left removed entries in if is_removed removed entry then rest else entry ∷ rest

-- The files that have expired.
abbrev pub expired : ℕ → ℕ → List CacheEntry → List CacheEntry
expired ttl now [] = []
expired ttl now (entry ∷ entries) =
    let rest = expired ttl now entries in if is_stale ttl now entry then entry ∷ rest else rest

left-size : (removed entries : List CacheEntry) → size_of (left removed entries) ≤ size_of entries
left-size removed [] = omega arith
left-size removed (entry ∷ entries) = ground (arith, left-size removed entries)

weigh-perm :
    (weight : CacheEntry → ℕ) {a b : List CacheEntry} → Permᴰ a b → weigh weight a ≡ weigh weight b
weigh-perm weight Permᴰ.nil = refl
weigh-perm weight (Permᴰ.cons e p) =
    let same = ap weight e in omega (arith, same, weigh-perm weight p)
weigh-perm weight (Permᴰ.swap e f) =
    let first = ap weight e in let second = ap weight f in omega (arith, first, second)
weigh-perm weight (Permᴰ.trans p q) = weigh-perm weight p ∙ weigh-perm weight q

left_weight : List CacheEntry → CacheEntry → ℕ
left_weight removed entry = if is_removed removed entry then 0 else entry.size_bytes

left-weigh :
    (removed entries : List CacheEntry)
    → size_of (left removed entries) ≡ weigh (left_weight removed) entries
unfolding left_weight
left-weigh removed [] = refl
left-weigh removed (entry ∷ entries) = ground (arith, left-weigh removed entries)

left-perm :
    (removed : List CacheEntry) {a b : List CacheEntry}
    → Permᴰ a b
    → size_of (left removed a) ≡ size_of (left removed b)
left-perm removed {a} {b} p =
    left-weigh removed a ∙ weigh-perm (left_weight removed) p ∙ sym (left-weigh removed b)

is_removed-append :
    (a b : List CacheEntry) (entry : CacheEntry)
    → is_removed (a ++ b) entry ≡ (is_removed a entry || is_removed b entry)
is_removed-append [] b entry = refl
is_removed-append (r ∷ a) b entry = ground (arith, is_removed-append a b entry)

left-gone :
    (removed gone rest : List CacheEntry)
    → All (λ e. is_removed removed e ≡ true) gone
    → left removed (gone ++ rest) ≡ left removed rest
left-gone removed [] rest h = refl
left-gone removed (entry ∷ gone) rest (e, h) = rw (e, left-gone removed gone rest h) refl

gone-All : (front gone : List CacheEntry) → All (λ e. is_removed (front ++ gone) e ≡ true) gone
gone-All front [] = tt
gone-All front (entry ∷ gone) =
    let here : is_removed (front ++ (entry ∷ gone)) entry ≡ true =
      ground (arith, is_removed-append front (entry ∷ gone) entry, same_refl entry.path) in
    (
      here,
      subst (λ l. All (λ e. is_removed l e ≡ true) gone) (append_assoc front (entry ∷ []) gone)
          (gone-All (front ++ (entry ∷ [])) gone),
    )

abbrev sweep : List CacheEntry → ℕ → ℕ → Swept
sweep removed added taken = (none, record { removed = removed; added = added; taken = taken })

same_sweep :
    {r r' : List CacheEntry} {a a' t t' : ℕ}
    → r ≡ r'
    → a ≡ a'
    → t ≡ t'
    → sweep r a t ≡ sweep r' a' t'
same_sweep e f g = rw (e, f, g) refl

size_of-append : (a b : List CacheEntry) → size_of (a ++ b) ≡ size_of a + size_of b
size_of-append [] b = omega arith
size_of-append (entry ∷ a) b = omega (arith, size_of-append a b)

module _ (refuses : Text → Option String) (allowed : (path : Text) → refuses path ≡ none) where
  -- The first loop takes what has expired.
  remove_expired-all :
      (ttl now : ℕ) (entries : List CacheEntry) (s : Sweep)
      → remove_expired refuses ttl now entries s ≡ (
        none,
        record {
          removed = s.removed ++ expired ttl now entries;
          added = s.added + size_of entries;
          taken = s.taken + size_of (expired ttl now entries);
        },
      )
  unfolding remove_expired
  remove_expired-all ttl now [] s =
      same_sweep (sym (append-nil s.removed)) (omega arith) (omega arith)
  remove_expired-all ttl now (entry ∷ entries) s = elim (Bool-cases (is_stale ttl now entry)) [
    | inl a ↦
        rw
          (
            a,
            allowed entry.path,
            remove_expired-all ttl now entries (taking entry (adding entry s)),
          )
          (same_sweep (append_assoc s.removed (entry ∷ []) (expired ttl now entries)) (omega arith)
            (omega arith))
    | inr a ↦
        rw (a, remove_expired-all ttl now entries (adding entry s))
          (same_sweep refl (omega arith) refl)
  ]

  -- The second loop takes a part in front, after which the total fits or nothing is left.
  abbrev Taken : ℕ → List CacheEntry → Sweep → Swept → Type 0
  Taken max_bytes entries s (outcome, s') =
      (front : List CacheEntry) × (back : List CacheEntry) × (outcome ≡ none)
      × (entries ≡ front ++ back)
      × (s'.removed ≡ s.removed ++ front)
      × (s'.added ≡ s.added)
      × (s'.taken ≡ s.taken + size_of front)
      × ((back ≡ []) ⊎ (fits max_bytes s' ≡ true))

  remove_until-Taken :
      (max_bytes : ℕ) (entries : List CacheEntry) (s : Sweep)
      → Taken max_bytes entries s (remove_until refuses max_bytes entries s)
  unfolding remove_until
  remove_until-Taken max_bytes [] s =
      ([], [], refl, refl, sym (append-nil s.removed), refl, omega arith, inl refl)
  remove_until-Taken max_bytes (entry ∷ entries) s = elim (Bool-cases (fits max_bytes s)) [
    | inl a ↦
        rw a ([], entry ∷ entries, refl, refl, sym (append-nil s.removed), refl, omega arith, inr a)
    | inr a ↦
        let (front, back, o, e, r, added, taken, ends) =
          remove_until-Taken max_bytes entries (taking entry s) in
        rw (a, allowed entry.path)
          (
            entry ∷ front,
            back,
            o,
            rw e refl,
            r ∙ append_assoc s.removed (entry ∷ []) front,
            added,
            omega (arith, taken),
            ends,
          )
  ]

  abbrev IsFitting : ℕ → List CacheEntry → List CacheEntry → Swept → Type 0
  IsFitting max_bytes old entries (outcome, s) =
      (outcome ≡ none) × (size_of (left s.removed entries) ≤ max_bytes + size_of old)

  module _ (max_bytes ttl now : ℕ) (entries : List CacheEntry) where
    abbrev old : List CacheEntry
    old = expired ttl now entries

    abbrev first : Sweep
    first = record { removed = [] ++ old; added = 0 + size_of entries; taken = 0 + size_of old }

    first-IsFitting : fits max_bytes first ≡ true → IsFitting max_bytes old entries (none, first)
    first-IsFitting h = (refl, grind (arith, h, left-size old entries))

    swept-IsFitting :
        (sorted : List CacheEntry)
        → Permᴰ sorted entries
        → (w : Swept) → Taken max_bytes sorted first w
        → IsFitting max_bytes old entries w
    swept-IsFitting sorted perm (outcome, s) (front, back, o, e, r, added, taken, ends) =
        let split : sorted ≡ front ++ back = e in
        let gone : left s.removed (front ++ back) ≡ left s.removed back =
          left-gone s.removed front back
            (subst (λ l. All (λ x. is_removed l x ≡ true) front) (sym r) (gone-All old front)) in
        let moved : size_of (left s.removed sorted) ≡ size_of (left s.removed entries) =
          left-perm s.removed perm in
        let same : size_of sorted ≡ size_of entries = weigh-perm (λ x. x.size_bytes) perm in
        let whole : size_of sorted ≡ size_of front + size_of back =
          ap size_of split ∙ size_of-append front back in
        let rest : size_of (left s.removed sorted) ≡ size_of (left s.removed back) =
          ap (λ l. size_of (left s.removed l)) split ∙ ap size_of gone in
        let less = left-size s.removed back in
        (
          o,
          elim ends [
            | inl n ↦ let z : size_of back ≡ 0 = ap size_of n in omega (arith, z, less, rest, moved)
            | inr f ↦
                let le = leb→le s.added (max_bytes + s.taken) f in
                omega (arith, le, added, taken, whole, same, less, rest, moved)
          ],
        )

  -- Where the system refuses no removal, the cleaning ends without an error, and the files that are left
  -- are together no larger than the limit and the files that had expired. The limit is above zero, and
  -- the sorting permutes the entries.
  pub cleanup-Fits :
      (sort : List CacheEntry → List CacheEntry)
      → ((l : List CacheEntry) → Permᴰ (sort l) l)
      → (max_bytes ttl now : ℕ) (entries : List CacheEntry) → 0 < max_bytes
      → (let (outcome, s) = cleanup refuses sort max_bytes ttl now entries in
          (outcome ≡ none)
          × (size_of (left s.removed entries) ≤ max_bytes + size_of (expired ttl now entries)))
  unfolding cleanup
  cleanup-Fits sort perm max_bytes ttl now entries above =
      let start = first max_bytes ttl now entries in
      let done : Bool = eqb max_bytes 0 || fits max_bytes start in
      let go = λ (s : Sweep).
        if eqb max_bytes 0 || fits max_bytes s
        then (none, s)
        else remove_until refuses max_bytes (sort entries) s in
      subst (IsFitting max_bytes (expired ttl now entries) entries)
        (sym (ap (after_sweep go) (remove_expired-all ttl now entries empty_sweep)))
        (elim (Bool-cases (fits max_bytes start)) [
          | inl a ↦
              let b : done ≡ true = ground (arith, a) in
              rw b (first-IsFitting max_bytes ttl now entries a)
          | inr a ↦
              let b : done ≡ false = ground (arith, a, above) in
              rw b (
                swept-IsFitting max_bytes ttl now entries (sort entries) (perm entries)
                  (remove_until refuses max_bytes (sort entries) start)
                  (remove_until-Taken max_bytes (sort entries) start))
        ])
