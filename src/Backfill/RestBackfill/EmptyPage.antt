-- ===== src/Backfill/RestBackfill/EmptyPage.antt =====
-- src/github_analytics/backfill/rest_backfill.py: a page of workflow runs that is empty though more
-- were announced.
use github_delivery_intellig.Common.{
  ◌≡◌, refl, ap, ◌∙◌, ℕ, suc, ◌+◌, ◌*◌, ◌≤◌, ◌<◌, pos, false, some, [], ◌∷◌, arith, leb, ltb,
}
use github_delivery_intellig.Common.Text.{Text, text, is_empty}
use github_delivery_intellig.Common.Json.{Json, Fields, as_object}
use github_delivery_intellig.Common.Time.{Datetime}
use github_delivery_intellig.Common.Result.{ok, raise}
use github_delivery_intellig.Common.Action.{bind_ok, ◌>>=◌}
use github_delivery_intellig.Common.Exception.{Exception, rest_data_error}
use github_delivery_intellig.Webhook.Models.{Decoder}
use github_delivery_intellig.Backfill.Models.{
  in_progress, BackfillRunKey, BackfillCheckpoint, PageWriteOutcome,
}
use github_delivery_intellig.Backfill.Storage.{load_checkpoint, refuses, persist_page}
use github_delivery_intellig.Backfill.Pages.{page_is_written}
use github_delivery_intellig.Backfill.Configuration.{Conversions, Configuration}
use github_delivery_intellig.Backfill.Traversal.{
  BackfillSummary, broken, is_completed, Fetched, Store, Step, lifted, raising, raised, no_work,
  persist, run_pages, go_on, plus, summary_of,
}
use github_delivery_intellig.Backfill.Traversal.Again.{Checked, traverse_from}
use github_delivery_intellig.Backfill.RestBackfill.{
  RestExecutor, next_page, run_key, workflow_run_page, workflow_run_params, workflow_run_ending,
  required_object_payload, required_nonnegative_int, required_object_list, workflow_run_records,
  max_filtered_workflow_runs,
}
use github_delivery_intellig.Backfill.RestBackfill.Run.{
  fetch_json, fetch_workflow_runs, run_workflow_runs,
}

-- `str` of a number is not empty, and `int` reads it back.
pub record Numerals (conversions : Conversions) : Type 0 where
  pub nonempty : (n : ℕ) → is_empty (conversions.decimal n) ≡ false
  pub read_back : (n : ℕ) → conversions.parse_int (conversions.decimal n) ≡ some (pos n)

module _ {Client P : Type 0} (key : BackfillRunKey) (fetch : P → Step Client (Fetched P)) (p : P)
    (s : Store Client) (c : Text) (e : Exception) (full : is_empty c ≡ false) where
  abbrev stalled : Fetched P
  stalled = record { records = []; nested = no_work; ending = broken (some c) e }

  -- An empty page that contradicts its response is stored, with its cursor, before the exception.
  stalled_page_is_stored :
      (fuel : ℕ) (s' : Store Client)
      → fetch p s ≡ (ok stalled, s')
      → (o : PageWriteOutcome) × ((run_pages key fetch (suc fuel) p no_work s).0 ≡ raise (raised e))
        × (load_checkpoint key (run_pages key fetch (suc fuel) p no_work s).1.tables
            ≡ some o.checkpoint)
        × (o.checkpoint.cursor ≡ some c)
        × (o.checkpoint.status ≡ in_progress)
  unfolding run_pages persist go_on refuses
  stalled_page_is_stored fuel s' h =
      let accepted : refuses key [] (some c) false ≡ false = ground arith in
      let (o, returns, _, _, _, loaded, _, _, cursor, status, _) =
        page_is_written key [] (some c) false s'.tables accepted in
      let t : Store Client = record s' {
        tables = (persist_page key [] (some c) false s'.tables).1;
      } in
      let stored : persist key stalled s' ≡ (ok o, t) = ap (λ r. (raising r, t)) returns in
      let whole : run_pages key fetch (suc fuel) p no_work s ≡ (raise (raised e), t) =
        bind_ok (fetch p) (λ page. persist key page >>= after page) s h
        ∙ bind_ok (persist key stalled) (after stalled) s' stored in
      (o, ap (λ r. r.0) whole, rw whole loaded, cursor, status)
    where
      total : Fetched P → PageWriteOutcome → BackfillSummary
      total page outcome = plus (plus no_work page.nested) (summary_of outcome)

      after : Fetched P → PageWriteOutcome → Step Client BackfillSummary
      after page outcome =
          go_on (λ next. run_pages key fetch fuel next (total page outcome)) (total page outcome)
            page.ending

module _ (decoder : Decoder) (conversions : Conversions) (configuration : Configuration)
    (executor : RestExecutor) (start end : Datetime) (page : ℕ) where
  open executor use {Client}

  abbrev pub runs_key : BackfillRunKey
  runs_key =
      run_key decoder conversions configuration (text "workflow_runs") (text "repository") start end

  abbrev pub asks : Step Client Json
  asks =
      fetch_json decoder conversions configuration executor (text "/actions/runs" ∷ [])
        (workflow_run_params decoder conversions configuration start end page)

  abbrev empty_page : Fetched ℕ
  empty_page = record {
    records = [];
    nested = no_work;
    ending = broken (some (conversions.decimal (page + 1))) rest_data_error;
  }

  -- A response with an empty list, while `total_count` says that there is more.
  pub record Truncated (payload : Json) : Type 0 where
    pub response : Fields
    pub total : ℕ
    pub is_object : as_object payload ≡ some response
    pub total_given : required_nonnegative_int response (text "total_count") ≡ ok total
    pub capped : total ≤ max_filtered_workflow_runs
    pub announced : page * configuration.page_size < total
    pub missing : required_object_list response (text "workflow_runs") ≡ ok []

  workflow_run_page-Truncated :
      (payload : Json)
      → Truncated payload
      → workflow_run_page decoder conversions configuration start end page payload ≡ ok empty_page
  unfolding workflow_run_page workflow_run_ending workflow_run_records required_object_payload
  workflow_run_page-Truncated payload t =
      let more_left : leb t.total (page * configuration.page_size) ≡ false =
        ground (arith, t.announced) in
      let under : ltb max_filtered_workflow_runs t.total ≡ false = ground (arith, t.capped) in
      rw t.is_object (rw t.total_given (rw under (rw t.missing (rw more_left refl))))

  next_page_of :
      Numerals conversions
      → (checkpoint : BackfillCheckpoint)
      → checkpoint.cursor ≡ some (conversions.decimal (page + 1))
      → next_page decoder conversions (some checkpoint) ≡ ok (page + 1)
  unfolding next_page
  next_page_of numerals checkpoint h =
      let above : page + 1 ≡ suc page = omega arith in
      rw h (rw (numerals.read_back (page + 1)) (rw above refl))

  is_open :
      (checkpoint : BackfillCheckpoint)
      → checkpoint.status ≡ in_progress
      → is_completed (some checkpoint) ≡ false
  unfolding is_completed
  is_open checkpoint h = rw h refl

  -- A run of workflow runs that is at some page, and gets an empty list there although
  -- `total_count` announces more, raises `RestDataError`; but its checkpoint has already moved on,
  -- so that the run started again asks for the page after it.
  pub empty_page_is_skipped :
      (numerals : Numerals conversions) (fuel : ℕ) (s s' : Store Client) (payload : Json)
      → Checked runs_key
      → is_completed (load_checkpoint runs_key s.tables) ≡ false
      → next_page decoder conversions (load_checkpoint runs_key s.tables) ≡ ok page
      → asks s ≡ (ok payload, s')
      → Truncated payload
      → let (r, t) =
          run_workflow_runs decoder conversions configuration executor (suc fuel) start end s in
        (r ≡ raise (raised rest_data_error))
        × (is_completed (load_checkpoint runs_key t.tables) ≡ false)
        × (next_page decoder conversions (load_checkpoint runs_key t.tables) ≡ ok (page + 1))
  empty_page_is_skipped numerals fuel s s' payload checked unfinished position asked truncated =
      let (o, raises, loaded, cursor, status) =
        stalled_page_is_stored runs_key fetch page s (conversions.decimal (page + 1))
          rest_data_error (numerals.nonempty (page + 1)) fuel s' fetched in
      rw goes_on (
        raises,
        rw loaded (is_open o.checkpoint status),
        rw loaded (next_page_of numerals o.checkpoint cursor),
      )
    where
      fetch : ℕ → Step Client (Fetched ℕ)
      fetch = fetch_workflow_runs decoder conversions configuration executor start end

      fetched : fetch page s ≡ (ok empty_page, s')
      fetched =
          unfold fetch_workflow_runs in
          bind_ok asks
            (λ p. lifted (workflow_run_page decoder conversions configuration start end page p)) s
            asked
          ∙ ap (λ r. (raising r, s')) (workflow_run_page-Truncated payload truncated)

      goes_on :
          run_workflow_runs decoder conversions configuration executor (suc fuel) start end s
          ≡ run_pages runs_key fetch (suc fuel) page no_work s
      goes_on =
          unfold run_workflow_runs in
          traverse_from runs_key fetch (next_page decoder conversions) (suc fuel) s page checked
            unfinished position
