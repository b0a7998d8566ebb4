-- ===== src/Server/Vetting.antt =====
-- internal/server/server.go: what holds of the transcoding presets that requests have stored.
use mathlib.Core.List.{reverse, reverse-cons}
use cartolensia.Prelude.{
  ℕ, Bool, true, false, Option, none, some, List, [], ◌∷◌, ◌≡◌, ◌⊎◌, inl, inr, refl, sym, ap, ◌∙◌,
  subst, arith, eqb, Text, text_eq, ◌==◌, same_text_iff, contains, is_none, any, All, All-append,
  Bool-cases, Option-cases,
}
use cartolensia.Prelude.Dict.{lookup, Each, Each-insert, Each-remove}
use cartolensia.Texts.{bytes, trim_space, to_lower, trim_byte, drop_byte}
use cartolensia.Albums.Slugs.{dash, is_slug_byte, dashed, slugify}
use cartolensia.Transcoding.{Preset, Capabilities}
use cartolensia.Transcoding.Presets.{built_in_transcoding_presets}
use cartolensia.Transcoding.Devices.{Host}
use cartolensia.Transcoding.Arguments.{encoder_of}
use cartolensia.Transcoding.Validation.{validate_transcoding_preset}
use cartolensia.Auth.Service.{Request}
use cartolensia.Server.{Answer}
use cartolensia.Server.Access.{Gate, require_write}
use cartolensia.Server.Presets.{
  PresetMap, PresetSite, PresetAnswer, PresetRequest, stores, removes, Arrival, write_preset,
  write_presets, write_all, filled, prepared_preset, upsert_transcoding_preset,
  delete_transcoding_preset, built_in_ids, create_checked, remove_checked, if_granted,
}

-- No byte is an underscore.
abbrev HasNone : Text → Type 0
HasNone = All (λ c. eqb c b'_' ≡ false)

dashed-HasNone : (last_dash : Bool) (s : Text) → HasNone (dashed last_dash s)
unfolding dashed
dashed-HasNone last_dash [] = tt
dashed-HasNone last_dash (c ∷ s) = elim (Bool-cases (is_slug_byte c)) [
  | inl a ↦ rw a (ground (arith, a), dashed-HasNone false s)
  | inr a ↦ elim (Bool-cases last_dash) [
    | inl b ↦ rw (a, b) (dashed-HasNone true s)
    | inr b ↦ rw (a, b) (refl, dashed-HasNone true s)
  ]
]

drop_byte-HasNone : (b : ℕ) (s : Text) → HasNone s → HasNone (drop_byte b s)
unfolding drop_byte
drop_byte-HasNone b [] h = tt
drop_byte-HasNone b (c ∷ s) (e, h) = elim (Bool-cases (eqb c b)) [
  | inl a ↦ rw a (drop_byte-HasNone b s h)
  | inr a ↦ rw a (e, h)
]

reverse-HasNone : (s : Text) → HasNone s → HasNone (reverse s)
reverse-HasNone [] h = tt
reverse-HasNone (c ∷ s) (e, h) =
    rw (reverse-cons c s)
      (All-append (λ d. eqb d b'_' ≡ false) (reverse s) (c ∷ []) (reverse-HasNone s h) (e, tt))

trim_byte-HasNone : (b : ℕ) (s : Text) → HasNone s → HasNone (trim_byte b s)
unfolding trim_byte
trim_byte-HasNone b s h = reverse-HasNone (drop_byte b (reverse (drop_byte b s))) (
    drop_byte-HasNone b (reverse (drop_byte b s))
      (reverse-HasNone (drop_byte b s) (drop_byte-HasNone b s h)))

slugify-HasNone : (s : Text) → HasNone (slugify s)
unfolding slugify
slugify-HasNone s =
    let out = trim_byte dash (dashed false (to_lower (trim_space s))) in
    let none_left : HasNone out =
      trim_byte-HasNone dash (dashed false (to_lower (trim_space s)))
        (dashed-HasNone false (to_lower (trim_space s))) in
    elim (Bool-cases (out == [])) [
      | inl a ↦ rw a (refl, (refl, (refl, (refl, (refl, tt)))))
      | inr a ↦ rw a none_left
    ]

has_underscore : Text → Bool
has_underscore s = any (λ c. eqb c b'_') s

HasNone-any : (s : Text) → HasNone s → has_underscore s ≡ false
unfolding has_underscore
HasNone-any [] h = refl
HasNone-any (c ∷ s) (e, h) = rw (e, HasNone-any s h) refl

-- A text without underscore that is one of the identifiers is the one without underscore.
contains-original :
    (ids : List Text) (s : Text)
    → All (λ id. (id ≡ bytes "original") ⊎ (has_underscore id ≡ true)) ids
    → has_underscore s ≡ false
    → contains ids s ≡ true
    → s ≡ bytes "original"
contains-original [] s h n c = absurd (cc c)
contains-original (id ∷ ids) s (one, h) n c = elim (Bool-cases (s == id)) [
  | inl e ↦
      let same = (same_text_iff s id).0 e in
      elim one [ inl o ↦ same ∙ o | inr u ↦ absurd (cc (ap has_underscore same, n, u)) ]
  | inr e ↦ contains-original ids s h n (rw e at c)
]

built_in_ids-known :
    (caps : Capabilities)
    → All (λ id. (id ≡ bytes "original") ⊎ (has_underscore id ≡ true)) (built_in_ids caps)
unfolding built_in_transcoding_presets has_underscore
built_in_ids-known caps = (
  inl refl,
  (inr refl, (inr refl, (inr refl, (inr refl, (inr refl, (inr refl, (inr refl, tt))))))),
)

-- The identifiers of the presets that are built in are the same on every machine.
built_in_ids-same : (a b : Capabilities) → built_in_ids a ≡ built_in_ids b
unfolding built_in_transcoding_presets
built_in_ids-same a b = refl

-- A stored preset stands under its identifier, passes the validation on one of the machines, and no preset
-- that is built in on any machine has its identifier, unless that is `original`.
pub record IsVetted (machines : Host → Capabilities → Type 0) (id : Text) (preset : Preset)
    : Type 0 where
  pub named : preset.id ≡ id
  pub passes :
      (host : Host) × (caps : Capabilities) × (machines host caps
        × (validate_transcoding_preset host caps preset ≡ none))
  pub apart :
      ((caps : Capabilities) → contains (built_in_ids caps) id ≡ false) ⊎ (id ≡ bytes "original")

everywhere :
    (caps : Capabilities) (id : Text)
    → (contains (built_in_ids caps) id ≡ false) ⊎ (id ≡ bytes "original")
    → ((other : Capabilities) → contains (built_in_ids other) id ≡ false) ⊎ (id ≡ bytes "original")
everywhere caps id (inl h) =
    inl (λ other. ap (λ ids. contains ids id) (built_in_ids-same other caps) ∙ h)
everywhere caps id (inr h) = inr h

if_false : (value fallback : Text) → (value == []) ≡ false → filled value fallback ≡ value
if_false value fallback h = rw h refl

module _ (machines : Host → Capabilities → Type 0) where
  abbrev pub AreVetted : PresetMap → Type 0
  AreVetted = Each (IsVetted machines)

module _ (host : Host) (caps : Capabilities) where
  accepted-name :
      (preset : Preset)
      → validate_transcoding_preset host caps preset ≡ none
      → (preset.name == []) ≡ false
  unfolding validate_transcoding_preset trim_space
  accepted-name preset h = elim (Bool-cases (preset.name == [])) [
    | inl e ↦
        let empty = ap trim_space ((same_text_iff preset.name []).0 e) in
        let blank : (trim_space preset.name == []) ≡ true =
          (same_text_iff (trim_space preset.name) []).1 empty in
        absurd (ground (arith, h, blank))
    | inr e ↦ e
  ]

  -- The validation reads neither the identifier nor the two marks of a preset.
  same_validation :
      (preset : Preset) (id : Text) (built_in available : Bool)
      → validate_transcoding_preset host caps
          (record preset { id = id; built_in = built_in; available = available })
        ≡ validate_transcoding_preset host caps preset
  unfolding validate_transcoding_preset encoder_of
  same_validation preset id built_in available = refl

  prepared-validation :
      (preset : Preset)
      → validate_transcoding_preset host caps preset ≡ none
      → validate_transcoding_preset host caps (prepared_preset preset) ≡ none
  prepared-validation preset h =
      let id = (prepared_preset preset).id in
      subst
        (λ name.
          validate_transcoding_preset host caps
            (record preset { id = id; name = name; built_in = false; available = true })
          ≡ none)
        (sym (if_false preset.name id (accepted-name preset h)))
        (same_validation preset id false true ∙ h)

  prepared-id :
      (preset : Preset)
      → contains (built_in_ids caps) preset.id ≡ false
      → (contains (built_in_ids caps) (prepared_preset preset).id ≡ false)
        ⊎ ((prepared_preset preset).id ≡ bytes "original")
  prepared-id preset fresh = elim (Bool-cases (preset.id == [])) [
    | inl a ↦
        let slug = slugify preset.name in
        elim (Bool-cases (contains (built_in_ids caps) slug)) [
          | inl b ↦ rw a (
              inr (
                contains-original (built_in_ids caps) slug (built_in_ids-known caps)
                  (HasNone-any slug (slugify-HasNone preset.name)) b))
          | inr b ↦ rw a (inl b)
        ]
    | inr a ↦ rw a (inl fresh)
  ]

  module _ (machines : Host → Capabilities → Type 0) (occurs : machines host caps) where
    create_checked-AreVetted :
        (preset : Preset) (site : PresetSite)
        → AreVetted machines site.presets
        → AreVetted machines (create_checked host caps preset site).1.presets
    unfolding upsert_transcoding_preset
    create_checked-AreVetted preset site h =
        let custom : Preset = record preset { built_in = false } in
        elim (Bool-cases (contains (built_in_ids caps) preset.id)) [
          | inl a ↦ rw (create_checked, a) h
          | inr a ↦ elim (Option-cases (validate_transcoding_preset host caps custom)) [
            | inl b ↦
                rw (create_checked, a, b)
                  (Each-insert (IsVetted machines) (prepared_preset custom).id
                    (prepared_preset custom) site.presets
                    (record {
                      named = refl;
                      passes = (host, caps, (occurs, prepared-validation custom b));
                      apart = everywhere caps (prepared_preset custom).id (prepared-id custom a);
                    })
                    h)
            | inr (e, b) ↦ rw (create_checked, a, b) h
          ]
        ]

    remove_checked-AreVetted :
        (id : Text) (site : PresetSite)
        → AreVetted machines site.presets
        → AreVetted machines (remove_checked caps id site).1.presets
    unfolding delete_transcoding_preset
    remove_checked-AreVetted id site h = elim (Bool-cases (contains (built_in_ids caps) id)) [
      | inl a ↦ rw (remove_checked, a) h
      | inr a ↦ elim (Bool-cases (is_none (lookup id site.presets))) [
        | inl b ↦ rw (remove_checked, a, delete_transcoding_preset, b) h
        | inr b ↦
            rw (remove_checked, a, delete_transcoding_preset, b)
              (Each-remove (IsVetted machines) id site.presets h)
      ]
    ]

    if_granted-AreVetted :
        (f : PresetSite → PresetAnswer × PresetSite) (site : PresetSite) (o : Option Answer)
        → ((s : PresetSite) → AreVetted machines s.presets → AreVetted machines (f s).1.presets)
        → AreVetted machines site.presets
        → AreVetted machines (if_granted f site o).1.presets
    if_granted-AreVetted f site none g h = g site h
    if_granted-AreVetted f site (some a) g h = h

    module _ (gate : Gate) where
      write_presets-AreVetted :
          (r : Request) (f : PresetSite → PresetAnswer × PresetSite) (site : PresetSite)
          → ((s : PresetSite) → AreVetted machines s.presets → AreVetted machines (f s).1.presets)
          → AreVetted machines site.presets
          → AreVetted machines (write_presets gate r f site).1.presets
      write_presets-AreVetted r f site g h =
          let (refused, accounts) =
            require_write gate r (bytes "transcoding.presets.write") site.accounts in
          if_granted-AreVetted f (record site { accounts = accounts }) refused g h

      write_preset-AreVetted :
          (r : Request) (asked : PresetRequest) (site : PresetSite)
          → AreVetted machines site.presets
          → AreVetted machines (write_preset gate host caps r asked site).1.presets
      unfolding write_preset
      write_preset-AreVetted r (stores preset) site h =
          write_presets-AreVetted r (create_checked host caps preset) site
            (create_checked-AreVetted preset) h
      write_preset-AreVetted r (removes id) site h =
          write_presets-AreVetted r (remove_checked caps id) site (remove_checked-AreVetted id) h

-- After any requests, each on the machine that its handler finds, to a site whose transcoding presets are
-- vetted, such as one without any, they still are: each stands under its identifier, has passed the
-- validation on one of these machines, and has the identifier of no built-in preset other than `original`.
-- `machines` are those that the requests may find.
pub write_all-AreVetted :
    (machines : Host → Capabilities → Type 0) (gate : Gate) (arrivals : List Arrival)
    (site : PresetSite)
    → All (λ a. machines (Arrival.host a) (Arrival.caps a)) arrivals
    → AreVetted machines site.presets
    → AreVetted machines (write_all gate arrivals site).presets
write_all-AreVetted machines gate [] site occur h = h
write_all-AreVetted machines gate (a ∷ rest) site (occurs, occur) h =
    write_all-AreVetted machines gate rest
      (write_preset gate a.host a.caps a.request a.asked site).1 occur
      (write_preset-AreVetted a.host a.caps machines occurs gate a.request a.asked site h)
