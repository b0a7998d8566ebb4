-- ===== src/Plugins/Topology.antt =====
-- The depth-first visits of `Sort` in internal/plugins/plugins.go: they end, and put every plugin behind
-- those that it depends on.
use Prim.Native.Nat.{◌≤◌, ◌<◌}
use mathlib.Core.List.{append_assoc, append-nil}
use cartolensia.Prelude.{
  ℕ, zero, suc, Bool, true, false, Option, none, some, List, [], ◌∷◌, ◌++◌, ◌≡◌, ◌≢◌, ◌⊎◌, inl, inr,
  refl, ◌∙◌, subst, arith, Text, text_eq, ◌==◌, same_text_iff, same_refl, is_none, contains, All,
  length, Bool-cases, if◌then◌else◌,
}
use cartolensia.Prelude.Dict.{Dict, lookup, insert, Each-lookup}
use cartolensia.Plugins.{
  Manifest, PluginError, Checked, ok, err, duplicate_id, normalize_manifest, if_valid, out_of_fuel,
  Visits, visited, and_then, leave, enter, visit_each, visit, sort, validate, index, keys, in_order,
  and_visit,
}
use cartolensia.Plugins.Ordering.{IsIndexed, index-IsIndexed}

-- The manifests that are not on the way.
abbrev room : List Text → Dict Text Manifest → ℕ
room way [] = 0
room way ((id, m) ∷ by_id) = let n = room way by_id in if contains way id then n else suc n

room_mono :
    (id : Text) (way : List Text) (by_id : Dict Text Manifest)
    → room (id ∷ way) by_id ≤ room way by_id
room_mono id way [] = omega arith
room_mono id way ((j, m) ∷ by_id) = ground (arith, room_mono id way by_id)

room_enter :
    (id : Text) (way : List Text) (by_id : Dict Text Manifest) (m : Manifest)
    → lookup id by_id ≡ some m
    → contains way id ≡ false
    → room (id ∷ way) by_id < room way by_id
unfolding lookup
room_enter id way [] m found new = cc
room_enter id way ((j, x) ∷ by_id) m found new = elim (Bool-cases (id == j)) [
  | inl e ↦
      let same : id ≡ j = (same_text_iff id j).0 e in
      let free : contains way j ≡ false = subst (λ i. contains way i ≡ false) same new in
      rw (free, ← same, same_refl id) (omega (arith, room_mono id way by_id))
  | inr e ↦
      let smaller = room_enter id way by_id m (rw e at found) new in
      ground (arith, smaller, room_mono id way by_id)
]

leave_absent : (id : Text) (way : List Text) → contains way id ≡ false → leave id way ≡ way
unfolding leave
leave_absent id [] h = refl
leave_absent id (x ∷ way) h =
    ground (arith, leave_absent id way, same_text_iff id x, same_text_iff x id)

leave_entered : (id : Text) (way : List Text) → contains way id ≡ false → leave id (id ∷ way) ≡ way
unfolding leave
leave_entered id way h = rw (same_refl id) (leave_absent id way h)

visited-append :
    (ms : List Manifest) (m : Manifest) (x : Text)
    → (visited ms x ≡ true) ⊎ (m.id ≡ x)
    → visited (ms ++ m ∷ []) x ≡ true
visited-append [] m x h = ground (arith, same_text_iff m.id x)
visited-append (y ∷ ms) m x h = ground (arith, visited-append ms m x)

-- Each manifest stands behind all that it depends on, which are among those seen before.
abbrev pub AreOrderedAfter : List Manifest → List Manifest → Type 0
AreOrderedAfter seen [] = Unit
AreOrderedAfter seen (m ∷ ms) =
    All (λ d. visited seen d ≡ true) m.depends_on × AreOrderedAfter (seen ++ m ∷ []) ms

AreOrderedAfter-append :
    (seen ms : List Manifest) (m : Manifest)
    → AreOrderedAfter seen ms
    → All (λ d. visited (seen ++ ms) d ≡ true) m.depends_on
    → AreOrderedAfter seen (ms ++ m ∷ [])
AreOrderedAfter-append seen [] m h deps = (rw (← append-nil seen) deps, tt)
AreOrderedAfter-append seen (x ∷ ms) m h deps = (
  h.0,
  AreOrderedAfter-append (seen ++ x ∷ []) ms m h.1 (rw (append_assoc seen (x ∷ []) ms) deps),
)

-- A visit ends without the fuel running out, and where it goes through it comes back to the same way,
-- the order is sound, the identifiers are visited, and none is lost.
abbrev Goes : List Text → Visits → Checked Visits → Type 0
Goes ids v (err e) = e ≢ out_of_fuel
Goes ids v (ok w) =
    (w.visiting ≡ v.visiting)
    × (AreOrderedAfter [] w.ordered
        × (All (λ i. visited w.ordered i ≡ true) ids
            × ((x : Text) → visited v.ordered x ≡ true → visited w.ordered x ≡ true)))

-- The rest of a loop, after its first visit.
after_first :
    (id : Text) (ids : List Text) (v w : Visits) (rest : Checked Visits)
    → Goes (id ∷ []) v (ok w)
    → Goes ids w rest
    → Goes (id ∷ ids) v rest
after_first id ids v w (err e) first more = more
after_first id ids v w (ok x) (way, (order, (here, kept))) (way', (order', (all, kept'))) =
    (way' ∙ way, (order', ((kept' id here.0, all), (λ y h. kept' y (kept y h)))))

first_then :
    (id : Text) (ids : List Text) (v : Visits) (r : Checked Visits) (rest : Visits → Checked Visits)
    → Goes (id ∷ []) v r
    → ((w : Visits) → Goes (id ∷ []) v (ok w) → Goes ids w (rest w))
    → Goes (id ∷ ids) v (and_then r rest)
first_then id ids v (err e) rest h more = h
first_then id ids v (ok w) rest h more = after_first id ids v w (rest w) h (more w h)

visit_each-Goes :
    (f : Text → Visits → Checked Visits) (way : List Text)
    → ((id : Text) (v : Visits)
        → v.visiting ≡ way
        → AreOrderedAfter [] v.ordered
        → Goes (id ∷ []) v (f id v))
    → (ids : List Text) (v : Visits) → v.visiting ≡ way
    → AreOrderedAfter [] v.ordered
    → Goes ids v (visit_each f ids v)
unfolding visit_each
visit_each-Goes f way goes [] v same order = (refl, (order, (tt, (λ x h. h))))
visit_each-Goes f way goes (id ∷ ids) v same order =
    first_then id ids v (f id v) (λ w. visit_each f ids w) (goes id v same order)
      (λ w h. visit_each-Goes f way goes ids w (h.0 ∙ same) h.1.0)

module _ (sort_texts : List Text → List Text)
    (keeps : (P : Text → Type 0) (xs : List Text) → All P (sort_texts xs) → All P xs)
    (by_id : Dict Text Manifest) (keyed : IsIndexed by_id) where
  -- what `visit` does once its dependencies have been visited
  leaves-Goes :
      (id : Text) (m : Manifest) (v : Visits) (r : Checked Visits)
      → contains v.visiting id ≡ false
      → m.id ≡ id
      → Goes (sort_texts m.depends_on) (record v { visiting = id ∷ v.visiting }) r
      → Goes (id ∷ []) v (
          and_then r
            (λ w. ok (record { visiting = leave id w.visiting; ordered = w.ordered ++ m ∷ [] })))
  leaves-Goes id m v (err e) new here h = h
  leaves-Goes id m v (ok w) new here (way, (order, (deps, kept))) = (
    rw way (leave_entered id v.visiting new),
    (
      AreOrderedAfter-append [] w.ordered m order
          (keeps (λ d. visited w.ordered d ≡ true) m.depends_on deps),
      (
        (visited-append w.ordered m id (inr here), tt),
        (λ x h. visited-append w.ordered m x (inl (kept x h))),
      ),
    ),
  )

  enters-Goes :
      (fuel : ℕ) (id : Text) (v : Visits) (found : Option Manifest)
      → lookup id by_id ≡ found
      → contains v.visiting id ≡ false
      → room v.visiting by_id < suc fuel
      → AreOrderedAfter [] v.ordered
      → ((j : Text) (w : Visits)
          → room w.visiting by_id < fuel
          → AreOrderedAfter [] w.ordered
          → Goes (j ∷ []) w (visit sort_texts by_id fuel j w))
      → Goes (id ∷ []) v (
          enter id found (λ m.
            and_then
              (visit_each
                (visit sort_texts by_id fuel)
                (sort_texts m.depends_on)
                (record v { visiting = id ∷ v.visiting }))
              (λ w. ok (record { visiting = leave id w.visiting; ordered = w.ordered ++ m ∷ [] }))))
  enters-Goes fuel id v none found new enough order goes = (λ h. cc h)
  enters-Goes fuel id v (some m) found new enough order goes =
      leaves-Goes id m v _ new
        (Each-lookup (λ i x. (Manifest.id x ≡ i) × (validate x ≡ none)) id m by_id keyed found).0
        (visit_each-Goes (visit sort_texts by_id fuel) (id ∷ v.visiting)
          (λ j w same order'.
            goes j w (rw same (omega (arith, enough, room_enter id v.visiting by_id m found new)))
              order')
          (sort_texts m.depends_on) (record v { visiting = id ∷ v.visiting }) refl order)

  visit-Goes :
      (fuel : ℕ) (id : Text) (v : Visits)
      → room v.visiting by_id < fuel
      → AreOrderedAfter [] v.ordered
      → Goes (id ∷ []) v (visit sort_texts by_id fuel id v)
  unfolding visit
  visit-Goes zero id v enough order = absurd (omega (arith, enough))
  visit-Goes (suc fuel) id v enough order = elim (Bool-cases (visited v.ordered id)) [
    | inl e ↦ rw e (refl, (order, ((e, tt), (λ x h. h))))
    | inr e ↦ elim (Bool-cases (contains v.visiting id)) [
      | inl k ↦ rw (e, k) (λ h. cc h)
      | inr k ↦
          rw (e, k)
            (enters-Goes fuel id v (lookup id by_id) refl k enough order
              (λ j w small order'. visit-Goes fuel j w small order'))
    ]
  ]

room_all : (by_id : Dict Text Manifest) → room [] by_id ≤ length by_id
room_all [] = omega arith
room_all ((id, m) ∷ by_id) = omega (arith, room_all by_id)

-- What `Sort` may give: an order in which every manifest stands behind those that it depends on, with
-- every identifier of the index in it, or an error of the manifests.
abbrev pub IsSorted : Checked (Dict Text Manifest) → Checked (List Manifest) → Type 0
IsSorted made (err e) = e ≢ out_of_fuel
IsSorted (err e) (ok ms) = ⊥
IsSorted (ok by_id) (ok ms) = AreOrderedAfter [] ms × All (λ i. visited ms i ≡ true) (keys by_id)

in_order-IsSorted :
    (by_id : Dict Text Manifest) (ids : List Text) (v : Visits) (r : Checked Visits)
    → (((ms : List Manifest)
        → All (λ i. visited ms i ≡ true) ids
        → All (λ i. visited ms i ≡ true) (keys by_id)))
    → Goes ids v r
    → IsSorted (ok by_id) (in_order r)
in_order-IsSorted by_id ids v (err e) keep h = h
in_order-IsSorted by_id ids v (ok w) keep h = (h.1.0, keep w.ordered h.1.1.0)

made-IsSorted :
    (sort_texts : List Text → List Text)
    → ((P : Text → Type 0) (xs : List Text) → All P (sort_texts xs) → All P xs)
    → (made : Checked (Dict Text Manifest))
    → ((by_id : Dict Text Manifest) → made ≡ ok by_id → IsIndexed by_id)
    → ((e : PluginError) → made ≡ err e → e ≢ out_of_fuel)
    → IsSorted made (
        and_visit made (λ by_id. in_order (
          visit_each
            (visit sort_texts by_id (suc (length by_id)))
            (sort_texts (keys by_id))
            (record { visiting = []; ordered = [] }))))
made-IsSorted sort_texts keeps (err e) keyed refused = refused e refl
made-IsSorted sort_texts keeps (ok by_id) keyed refused =
    in_order-IsSorted by_id (sort_texts (keys by_id)) (record { visiting = []; ordered = [] }) _
      (λ ms all. keeps (λ i. visited ms i ≡ true) (keys by_id) all)
      (visit_each-Goes (visit sort_texts by_id (suc (length by_id))) []
        (λ j w same order.
          visit-Goes sort_texts keeps by_id (keyed by_id refl) (suc (length by_id)) j w
            (rw same (omega (arith, room_all by_id))) order)
        (sort_texts (keys by_id)) (record { visiting = []; ordered = [] }) refl tt)

validate_refuses : (m : Manifest) (e : PluginError) → validate m ≡ some e → e ≢ out_of_fuel
unfolding validate
validate_refuses m e h = ground arith

if_valid-refuses :
    (checked : Option PluginError) (free : Bool) (rest : Checked (Dict Text Manifest)) (id : Text)
    (e : PluginError)
    → if_valid checked (if free then rest else err (duplicate_id id)) ≡ err e
    → ((x : PluginError) → checked ≡ some x → x ≢ out_of_fuel)
    → (rest ≡ err e → e ≢ out_of_fuel)
    → e ≢ out_of_fuel
if_valid-refuses (some x) free rest id e h bad more = bad e (cc h)
if_valid-refuses none true rest id e h bad more = more h
if_valid-refuses none false rest id e h bad more = (λ k. cc (h, k))

index_refuses :
    (manifests : List Manifest) (by_id : Dict Text Manifest) (e : PluginError)
    → index manifests by_id ≡ err e
    → e ≢ out_of_fuel
unfolding index
index_refuses [] by_id e h = cc
index_refuses (m ∷ manifests) by_id e h =
    let m' : Manifest = normalize_manifest m in
    let by_id' : Dict Text Manifest = insert m'.id m' by_id in
    if_valid-refuses (validate m') (is_none (lookup m'.id by_id)) (index manifests by_id') m'.id e h
      (λ x bad. validate_refuses m' x bad) (λ more. index_refuses manifests by_id' e more)

-- If sorting texts loses none, `Sort` always ends: with an error of the manifests, or with an order in
-- which each manifest stands behind all that it depends on and which has every identifier of the index.
pub sort-IsSorted :
    (sort_texts : List Text → List Text)
    → ((P : Text → Type 0) (xs : List Text) → All P (sort_texts xs) → All P xs)
    → (manifests : List Manifest) → IsSorted (index manifests []) (sort sort_texts manifests)
unfolding sort
sort-IsSorted sort_texts keeps manifests =
    made-IsSorted sort_texts keeps (index manifests [])
      (λ by_id made. index-IsIndexed manifests [] by_id made tt)
      (λ e refused. index_refuses manifests [] e refused)
