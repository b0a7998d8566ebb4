-- ===== src/Enrichment/Loops.antt =====
-- internal/metadata/metadata.go: the loops of `Enrich` over the assets that a payload names, and over the
-- pages of those that match it.
use Prim.Native.String.{◌++◌ as string_append}
use cartolensia.Prelude.{
  ℕ, zero, suc, ◌+◌, String, Bool, false, not, ◌&&◌, Option, none, some, List, [], ◌∷◌, string_eq,
  ◌==◌, eqb, ltb, leb, length, if◌then◌else◌,
}
use cartolensia.Failure.{sentinel, not_found, error_text}
use cartolensia.Jobs as jobs
use cartolensia.Jobs.{Job, start, add_log}
use cartolensia.Catalog as catalog
use cartolensia.Catalog.{Asset, Location, AssetStore, Found, get_asset}
use cartolensia.Discovery.{Run, Outcome, error_of, complete_run, fail_run}
use cartolensia.Discovery.Targets.{is_empty}
use cartolensia.Discovery.Hashing.{reported, unless_ended}
use cartolensia.Enrichment.{
  Payload, Page, Queried, page, query_failed, World, count_failed, count_updated, count_scanned,
  count_skipped, move_on, check_enrichment,
}
use cartolensia.Enrichment.Scopes.{extractor_of, is_full, is_named, target_of}

-- How a loop over a page ends: the function returns, or it goes on with so many targets processed.
pub data PageEnd : Type 0 where
  returned : Outcome → PageEnd
  goes_on : ℕ → PageEnd

abbrev pub end_with : Outcome × Run → PageEnd × Run
end_with (o, r) = (returned o, r)

-- A call whose error ends the function, and what comes behind it.
abbrev pub unless_returned : Outcome × Run → (Run → PageEnd × Run) → PageEnd × Run
unless_returned (some e, r) f = (returned (some e), r)
unless_returned (none, r) f = f r

abbrev pub keep : Run → Outcome × Run
keep r = (none, r)

abbrev pub total_of : Payload → ℕ → ℕ
total_of payload total =
    if not (leb payload.max_files 0) && ltb payload.max_files total
    then payload.max_files
    else total

abbrev pub shows : Option ℕ → ℕ → Bool
shows none total = false
shows (some n) total = eqb n total

module _ (worker_id : String) (world : World) where
  abbrev now : Run → ℕ
  now r = world.clock r.job.progress_current

  abbrev pub check : Run → Outcome × Run
  check r = check_enrichment worker_id (now r) (world.stopped r.job.progress_current) r

  -- enrichAsset: the location decides which function reads the file
  abbrev pub enrich_asset : Asset → AssetStore → Outcome × AssetStore
  enrich_asset asset s = elim asset.locations [
    | [] ↦ (some (sentinel not_found), s)
    | loc ∷ locs ↦ elim (extractor_of loc) [
      | none ↦ (none, s)
      | some extractor ↦ world.extract extractor asset loc s
    ]
  ]

  abbrev pub counted_asset : Asset → Outcome → Run → Run
  counted_asset asset none r = record r { job = move_on (count_updated r.job) }
  counted_asset asset (some e) r =
      let message =
        string_append asset.display_name (string_append ": metadata skipped: " (error_text e)) in
      record r { job = move_on (count_failed (now r) message r.job) }

  unfoldable pub process_asset : Asset → Run → Outcome × Run
  unfolding check_enrichment extractor_of
  process_asset asset r = unless_ended (check r) (λ r'.
      let (outcome, assets) = enrich_asset asset r'.assets in
      reported worker_id keep (counted_asset asset outcome (record r' { assets = assets })))

  unfoldable pub process_each : List Asset → Run → Outcome × Run
  unfolding process_asset
  process_each [] r = (none, r)
  process_each (asset ∷ targets) r = unless_ended (process_asset asset r) (process_each targets)

  -- The assets of the identifiers that there are; the others are counted_asset as errors.
  unfoldable pub gather : List String → Run → List Asset × Run
  unfolding get_asset
  gather [] r = ([], r)
  gather (given ∷ ids) r =
      let id = world.trim given in
      let kept = gather ids r in
      let message = string_append id ": metadata target unavailable: not found" in
      let failed = gather ids (record r { job = count_failed (now r) message r.job }) in
      if id == "" then kept else elim (get_asset id r.assets) [
        | catalog.ok asset ↦ (asset ∷ kept.0, kept.1)
        | catalog.not_found ↦ failed
      ]

  module _ (payload : Payload) where
    -- selectTargets behind `n` targets
    unfoldable pub select_from : ℕ → List Asset → List Asset
    unfolding target_of
    select_from n [] = []
    select_from n (asset ∷ assets) =
        let rest = select_from n assets in
        let more = select_from (suc n) assets in
        if not (is_named payload asset) then rest else elim (target_of payload asset) [
          | none ↦ rest
          | some scoped ↦ scoped ∷ (if is_full payload (suc n) then [] else more)
        ]

    unfoldable pub enrich_selected : Run → Outcome × Run
    unfolding gather select_from process_each
    enrich_selected r =
        let (assets, r') = gather payload.asset_ids r in
        let targets = select_from 0 assets in
        reported worker_id (process_each targets)
          (record r' { job = record r'.job { progress_total = some (length targets) } })

    -- The loop over a page, with the number of targets processed before.
    unfoldable pub page_each : List Asset → ℕ → Run → PageEnd × Run
    unfolding process_asset target_of
    page_each [] n r = (goes_on n, r)
    page_each (asset ∷ assets) n r =
        let r' : Run = record r { job = count_scanned r.job } in
        if is_full payload n
        then end_with (reported worker_id keep r')
        else elim (target_of payload asset) [
          | none ↦
              unless_returned (reported worker_id keep (record r' { job = count_skipped r'.job }))
                (page_each assets n)
          | some scoped ↦ unless_returned (process_asset scoped r') (page_each assets (suc n))
        ]

    -- The total is reported where it is not yet the job's.
    abbrev pub with_total : ℕ → Run → Outcome × Run
    with_total total r =
        if shows r.job.progress_total total
        then (none, r)
        else reported worker_id keep
            (record r { job = record r.job { progress_total = some total } })

    abbrev pub next_page : Page → (ℕ → Run → PageEnd × Run) → PageEnd × Run → PageEnd × Run
    next_page p again (returned o, r) = (returned o, r)
    next_page p again (goes_on n, r) =
        if leb p.total (p.offset + length p.assets) then (returned none, r) else again n r

    abbrev pub on_page : Queried → (ℕ → Run → PageEnd × Run) → ℕ → Run → PageEnd × Run
    on_page (query_failed e) again n r =
        (returned (some e), record r { queue = (fail_run worker_id (now r) r.job e r.queue).1 })
    on_page (page p) again n r = unless_returned (with_total (total_of payload p.total) r) (λ r'.
        if eqb (length p.assets) 0
        then (returned none, r')
        else next_page p again (page_each p.assets n r'))

    -- The loop over the pages, on fuel: each page takes one unit.
    unfoldable pub enrich_queried : ℕ → ℕ → Run → PageEnd × Run
    unfolding check_enrichment page_each fail_run
    enrich_queried zero n r = (goes_on n, r)
    enrich_queried (suc fuel) n r =
        if is_full payload n
        then (returned none, r)
        else unless_returned (check r) (λ r'.
          on_page (world.query_assets r'.job.counters.scanned r'.assets) (enrich_queried fuel) n r')

    -- the last lines of Enrich
    abbrev finish : Run → PageEnd × Run
    finish r =
        let job = add_log (now r) r.job "info" "metadata enrichment completed" in
        let (result, queue) = complete_run worker_id (now r) job r.queue in
        (returned (error_of result), record r { job = job; queue = queue })

    abbrev finish_ended : PageEnd × Run → PageEnd × Run
    finish_ended (returned none, r) = finish r
    finish_ended (returned (some e), r) = (returned (some e), r)
    finish_ended (goes_on n, r) = (goes_on n, r)

    abbrev enrich_all : ℕ → Run → PageEnd × Run
    enrich_all fuel r =
        if not (is_empty payload.asset_ids)
        then end_with (enrich_selected r)
        else enrich_queried fuel 0 r

    unfoldable pub enrich : ℕ → Run → PageEnd × Run
    unfolding start add_log complete_run enrich_selected enrich_queried
    enrich fuel r = elim (start (now r) r.job) [
      | jobs.err e ↦ (returned (some e), r)
      | jobs.ok job ↦
          let started = add_log (now r) job "info" "metadata enrichment started" in
          finish_ended (
            unless_returned (reported worker_id keep (record r { job = started }))
              (enrich_all fuel))
    ]
