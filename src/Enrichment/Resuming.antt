-- ===== src/Enrichment/Resuming.antt =====
-- internal/metadata/metadata.go, `enrichQueriedAssets`: the loop over the pages comes to its end and handles
-- every asset behind those that were scanned before.
use Prim.Native.Nat.{min}
use cartolensia.Prelude.{
  ℕ, zero, suc, ◌+◌, ◌-◌, ◌≤◌, ◌<◌, String, Bool, true, false, none, some, List, [], ◌∷◌, ◌≡◌, ◌≢◌,
  ◌⊎◌, inl, inr, refl, sym, ap, ◌∙◌, subst, arith, eqb, leb, leb→le, length, take, drop,
  length-take, length-drop, Bool-cases, Option-cases,
}
use cartolensia.Jobs.{Job}
use cartolensia.Catalog.{Asset, AssetStore}
use cartolensia.Discovery.{Run, Outcome}
use cartolensia.Enrichment.{Payload, Page, page, World}
use cartolensia.Enrichment.Scopes.{is_full, target_of}
use cartolensia.Enrichment.Loops.{
  PageEnd, returned, goes_on, unless_returned, check, total_of, shows, page_each, with_total,
  next_page, on_page, enrich_queried,
}
use cartolensia.Enrichment.Counting.{
  IsHandled, both-IsHandled, reported-job, reported-assets, page_each-IsHandled,
  check_enrichment-goes_on,
}
use cartolensia.Enrichment.Matching.{IsKept, page_each-kept}

abbrev is_error : PageEnd → Bool
is_error (returned (some e)) = true
is_error (returned none) = false
is_error (goes_on n) = false

unless_returned-passes :
    (first : Outcome × Run) (rest : Run → PageEnd × Run) (w : PageEnd × Run)
    → is_error w.0 ≡ false
    → unless_returned first rest ≡ w
    → (r : Run) × ((first ≡ (none, r)) × (rest r ≡ w))
unless_returned-passes (some e, r) rest w n h =
    absurd (cc (ap (λ (x : PageEnd × Run). is_error x.0) h, n))
unless_returned-passes (none, r) rest w n h = (r, (refl, h))

same_job : (r t : Job) → t ≡ r → IsHandled 0 0 r t
same_job r t e =
    subst (λ j. IsHandled 0 0 r j) (sym e)
      (record { handled = omega arith; progress = omega arith; scanned = omega arith })

abbrev pub page_at : List Asset → ℕ → Page
page_at everything offset = record {
  assets = take 500 (drop offset everything);
  offset = offset;
  total = length everything;
}

-- QueryAssets gives the pages of the assets that match in the store as it is by then.
abbrev pub IsPaged : World → (AssetStore → List Asset) → Type 0
IsPaged world matching =
    (offset : ℕ) (s : AssetStore) → world.query_assets offset s ≡ page (page_at (matching s) offset)

page_length :
    (everything : List Asset) (offset : ℕ)
    → length (page_at everything offset).assets ≡ min 500 (length everything - offset)
page_length everything offset =
    length-take 500 (drop offset everything) ∙ ap (min 500) (length-drop offset everything)

module _ (worker_id : String) (world : World) (payload : Payload)
    (unbounded : payload.max_files ≡ 0) where
  with_total-IsHandled :
      (total : ℕ) (r t : Run)
      → with_total worker_id world payload total r ≡ (none, t)
      → IsHandled 0 0 r.job t.job
  with_total-IsHandled total r t h = elim (Bool-cases (shows r.job.progress_total total)) [
    | inl e ↦ same_job r.job t.job (ap (λ (x : Outcome × Run). x.1.job) (sym (rw e at h)))
    | inr e ↦
        let shown : Run = record r { job = record r.job { progress_total = some total } } in
        subst (λ j. IsHandled 0 0 r.job j) (sym (reported-job worker_id shown t (rw e at h)))
          (record { handled = omega arith; progress = omega arith; scanned = omega arith })
  ]

  never_full : (n : ℕ) → is_full payload n ≡ false
  never_full n = ground (arith, unbounded)

  -- Without a limit the loop over a page returns only with an error.
  page_each-not_done :
      (assets : List Asset) (n : ℕ) (r t : Run)
      → page_each worker_id world payload assets n r ≢ (returned none, t)
  unfolding page_each
  page_each-not_done [] n r t h = cc h
  page_each-not_done (asset ∷ assets) n r t h = elim (Option-cases (target_of payload asset)) [
    | inl e ↦
        let (u, (told, rest)) =
          unless_returned-passes _ (page_each worker_id world payload assets n) (returned none, t)
            refl (rw (never_full n, e) at h) in
        page_each-not_done assets n u t rest
    | inr (scoped, e) ↦
        let (u, (told, rest)) =
          unless_returned-passes _ (page_each worker_id world payload assets (suc n))
            (returned none, t) refl (rw (never_full n, e) at h) in
        page_each-not_done assets (suc n) u t rest
  ]

  with_total-assets :
      (total : ℕ) (r t : Run)
      → with_total worker_id world payload total r ≡ (none, t)
      → t.assets ≡ r.assets
  with_total-assets total r t h = elim (Bool-cases (shows r.job.progress_total total)) [
    | inl e ↦ ap (λ (x : Outcome × Run). x.1.assets) (sym (rw e at h))
    | inr e ↦
        reported-assets worker_id (record r { job = record r.job { progress_total = some total } })
          t (rw e at h)
  ]

  module _ (f : AssetStore → ℕ) (keeps : IsKept world f) where
    -- What a page that ends without an error leaves: the loop is done, or it goes on behind the page.
    abbrev PageStep : Page → (ℕ → Run → PageEnd × Run) → Run → PageEnd × Run → Type 0
    PageStep p again r w =
        (u : Run) × IsHandled (length p.assets) (length p.assets) r.job u.job
        × (f u.assets ≡ f r.assets)
        × (((w ≡ (returned none, u)) × (p.total ≤ p.offset + length p.assets))
            ⊎ ((n : ℕ) × (again n u ≡ w) × (0 < length p.assets)))

    next_page-PageStep :
        (p : Page) (again : ℕ → Run → PageEnd × Run) (r : Run) (done : PageEnd × Run)
        (w : PageEnd × Run)
        → is_error w.0 ≡ false
        → 0 < length p.assets
        → ((t : Run) → done ≢ (returned none, t))
        → ((m : ℕ) (t : Run)
            → done ≡ (goes_on m, t)
            → IsHandled (length p.assets) (length p.assets) r.job t.job)
        → ((m : ℕ) (t : Run) → done ≡ (goes_on m, t) → f t.assets ≡ f r.assets)
        → next_page worker_id world payload p again done ≡ w
        → PageStep p again r w
    next_page-PageStep p again r (returned none, t) w n some_assets never handled same h =
        absurd (never t refl)
    next_page-PageStep p again r (returned (some e), t) w n some_assets never handled same h =
        absurd (cc (ap (λ (x : PageEnd × Run). is_error x.0) h, n))
    next_page-PageStep p again r (goes_on m, t) w n some_assets never handled same h =
        elim (Bool-cases (leb p.total (p.offset + length p.assets))) [
          | inl e ↦ (
            t,
            handled m t refl,
            same m t refl,
            inl (sym (rw e at h), leb→le p.total (p.offset + length p.assets) e),
          )
          | inr e ↦ (t, handled m t refl, same m t refl, inr (m, (rw e at h), some_assets))
        ]

    on_page-PageStep :
        (p : Page) (again : ℕ → Run → PageEnd × Run) (n : ℕ) (r : Run) (w : PageEnd × Run)
        → is_error w.0 ≡ false
        → (length p.assets ≡ 0 → p.total ≤ p.offset)
        → on_page worker_id world payload (page p) again n r ≡ w
        → PageStep p again r w
    on_page-PageStep p again n r w fine last h =
        let (u, (told, rest)) = unless_returned-passes _ _ w fine h in
        let total = with_total-IsHandled (total_of payload p.total) r u told in
        let same = ap f (with_total-assets (total_of payload p.total) r u told) in
        elim (Bool-cases (eqb (length p.assets) 0)) [
          | inl e ↦
              let none_left : length p.assets ≡ 0 = ground (arith, e) in
              let behind = last none_left in
              (
                u,
                both-IsHandled (length p.assets) (length p.assets) r.job u.job u.job total
                    (same_job u.job u.job refl) (omega (arith, none_left))
                    (omega (arith, none_left)),
                same,
                inl (sym (rw e at rest), omega (arith, behind)),
              )
          | inr e ↦
              let some_assets : 0 < length p.assets = ground (arith, e) in
              let (v, handled, kept, ends) =
                next_page-PageStep p again u (page_each worker_id world payload p.assets n u) w fine
                  some_assets (page_each-not_done p.assets n u)
                  (λ m t k.
                    page_each-IsHandled worker_id world payload unbounded p.assets n m u t k)
                  (λ m t k.
                    page_each-kept worker_id world f keeps payload unbounded p.assets n m u t k)
                  (rw e at rest) in
              (
                v,
                both-IsHandled (length p.assets) (length p.assets) r.job u.job v.job total handled
                    (omega arith) (omega arith),
                kept ∙ same,
                ends,
              )
        ]

  module _ (matching : AssetStore → List Asset) (paged : IsPaged world matching)
      (keeps : IsKept world (λ s. length (matching s))) where
    abbrev count : AssetStore → ℕ
    count s = length (matching s)

    page-step :
        (fuel n : ℕ) (r : Run) (w : PageEnd × Run)
        → is_error w.0 ≡ false
        → enrich_queried worker_id world payload (suc fuel) n r ≡ w
        → PageStep count keeps
            (page_at (matching r.assets) r.job.counters.scanned)
            (enrich_queried worker_id world payload fuel)
            r
            w
    unfolding enrich_queried
    page-step fuel n r w fine h =
        let (u, (checked, rest)) =
          unless_returned-passes (check worker_id world r) _ w fine (rw (never_full n) at h) in
        let same : r ≡ u =
          check_enrichment-goes_on worker_id (world.clock r.job.progress_current)
            (world.stopped r.job.progress_current) r u checked in
        let size = page_length (matching u.assets) u.job.counters.scanned in
        let again = enrich_queried worker_id world payload fuel in
        subst
          (λ (x : Run).
            PageStep count keeps (page_at (matching x.assets) x.job.counters.scanned) again x w)
          (sym same)
          (on_page-PageStep count keeps (page_at (matching u.assets) u.job.counters.scanned) again n
            u w fine (λ e. omega (arith, e, size))
            (rw (paged u.job.counters.scanned u.assets) at rest))

    -- If the loop over the pages ends without an error, as many assets as match behind those that the job
    -- has scanned before were scanned, and each of them was updated, failed or passed over and moved the
    -- progress by one. The job has no limit of files, QueryAssets gives the pages of the assets that match
    -- in the store as it is, of which no fewer than were scanned before, and the extractors, which write
    -- metadata while the loop runs, leave the number of the assets that match as it is.
    pub enrich_queried-IsHandled :
        (fuel n : ℕ) (r t : Run)
        → r.job.counters.scanned ≤ length (matching r.assets)
        → enrich_queried worker_id world payload fuel n r ≡ (returned none, t)
        → IsHandled
            (length (matching r.assets) - r.job.counters.scanned)
            (length (matching r.assets) - r.job.counters.scanned)
            r.job
            t.job
    unfolding enrich_queried
    enrich_queried-IsHandled zero n r t le h = cc h
    enrich_queried-IsHandled (suc fuel) n r t le h =
        let (u, handled, same, ends) = page-step fuel n r (returned none, t) refl h in
        let size = page_length (matching r.assets) r.job.counters.scanned in
        let left = length (matching r.assets) - r.job.counters.scanned in
        let seen = handled.scanned in
        elim ends [
          | inl (e, behind) ↦
              both-IsHandled left left r.job u.job t.job handled
                (same_job u.job t.job (ap (λ (x : PageEnd × Run). x.1.job) e))
                (omega (arith, behind, size, le)) (omega (arith, behind, size, le))
          | inr (m, again, some_assets) ↦
              both-IsHandled left left r.job u.job t.job handled
                (enrich_queried-IsHandled fuel m u t (omega (arith, seen, size, le, same)) again)
                (omega (arith, seen, size, le, same)) (omega (arith, seen, size, le, same))
        ]

    -- The loop over the pages ends: with more units of fuel than there are assets that match behind those
    -- that the job has scanned before, it does not run out. The job has no limit of files, QueryAssets
    -- gives the pages of the assets that match in the store as it is, of which no fewer than were scanned
    -- before, and the extractors leave the number of the assets that match as it is.
    pub enrich_queried-ends :
        (fuel n m : ℕ) (r t : Run)
        → r.job.counters.scanned ≤ length (matching r.assets)
        → length (matching r.assets) < r.job.counters.scanned + fuel
        → enrich_queried worker_id world payload fuel n r ≢ (goes_on m, t)
    unfolding enrich_queried
    enrich_queried-ends zero n m r t le enough h = omega (arith, le, enough)
    enrich_queried-ends (suc fuel) n m r t le enough h =
        let (u, handled, same, ends) = page-step fuel n r (goes_on m, t) refl h in
        let size = page_length (matching r.assets) r.job.counters.scanned in
        let seen = handled.scanned in
        elim ends [
          | inl (e, behind) ↦ cc e
          | inr (k, again, some_assets) ↦
              enrich_queried-ends fuel k m u t (omega (arith, seen, size, le, same))
                (omega (arith, seen, some_assets, enough, same)) again
        ]
