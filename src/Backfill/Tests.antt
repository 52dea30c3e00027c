-- ===== src/Backfill/Tests.antt =====
-- Pages of one run, and the theorems at them.
use github_delivery_intellig.Common.{
  ◌≡◌, refl, suc, ◌+◌, pos, true, false, none, some, List, [], ◌∷◌, ◌=?◌, All, length,
  if◌then◌else◌,
}
use github_delivery_intellig.Common.Text.{text, is_empty}
use github_delivery_intellig.Common.Json.{no_fields, Fields, field}
use github_delivery_intellig.Common.Result.{ok, raise}
use github_delivery_intellig.Common.Exception.{Exception}
use github_delivery_intellig.Common.{ℕ, ◌≢◌, negsuc, ◌*◌, ◌-◌, ◌≤◌, ◌⊎◌}
use github_delivery_intellig.Common.Json.{object}
use github_delivery_intellig.Common.Exception.{assertion_error, value_error}
use github_delivery_intellig.Backfill.RestClient
use github_delivery_intellig.Backfill.RestClient.{Floats, HttpResponse, Network, Log}
use github_delivery_intellig.Backfill.RestBounds.{get-bounds}
use github_delivery_intellig.Backfill.GraphQlClient.{execute}
use github_delivery_intellig.Backfill.GraphQlClient.Clean.{Clean, execute_returns-Clean}
use github_delivery_intellig.Backfill.Models.{BackfillRunKey, BackfillRecord, PageWriteOutcome}
use github_delivery_intellig.Backfill.Storage.{
  checkpoint_key_eq, key_parameters, BackfillTables, load_checkpoint, status_of, refuses,
  persist_page,
}
use github_delivery_intellig.Backfill.Pages.{
  Present, pages_so_far, records_so_far, page_is_written, Page, persist_pages,
  records_inserted_counts_rows,
}

abbrev run_key : BackfillRunKey
run_key = record {
  repository_id = pos 9;
  resource = text "deployments";
  scope = text "repository";
  window_start = record { instant = 1; aware = true };
  window_end = record { instant = 100; aware = true };
}

abbrev deployment_record : BackfillRecord
deployment_record = record {
  source_record_key = text "k";
  event_name = text "deployment";
  action = text "created";
  repository_id = pos 9;
  installation_id = pos 4;
  occurred_at = none;
  payload = no_fields;
}

abbrev page : List BackfillRecord
page = deployment_record ∷ deployment_record ∷ []

abbrev no_tables : BackfillTables
no_tables = record { raw = []; checkpoints = [] }

abbrev first_page : Page
first_page = record { records = page; next_cursor = some (text "2"); is_last = false }

abbrev last_page : Page
last_page = record { records = page; next_cursor = none; is_last = true }

page-accepted : refuses run_key page (some (text "2")) false ≡ false
unfolding refuses is_empty text
page-accepted = refl

page_is_written_example :
    let (r, db') = persist_page run_key page (some (text "2")) false no_tables in
    (o : PageWriteOutcome) × (r ≡ ok o)
    × (o.inserted + o.duplicates ≡ 2)
    × (length db'.raw ≡ 0 + o.inserted)
    × All (Present db'.raw) page
    × (load_checkpoint run_key db' ≡ some o.checkpoint)
    × (o.checkpoint.pages_completed ≡ suc (pages_so_far (load_checkpoint run_key no_tables)))
    × (o.checkpoint.records_inserted
        ≡ records_so_far (load_checkpoint run_key no_tables) + o.inserted)
    × (o.checkpoint.cursor ≡ some (text "2"))
    × (o.checkpoint.status ≡ status_of false)
    × ((other : BackfillRunKey)
        → load_checkpoint other db' ≡ (
            if key_parameters run_key =? key_parameters other
            then some o.checkpoint
            else load_checkpoint other no_tables))
page_is_written_example =
    page_is_written run_key page (some (text "2")) false no_tables page-accepted

records_inserted_counts_rows_example :
    records_so_far
        (load_checkpoint run_key (persist_pages run_key (first_page ∷ last_page ∷ []) no_tables))
      + 0
    ≡ records_so_far (load_checkpoint run_key no_tables)
      + length (persist_pages run_key (first_page ∷ last_page ∷ []) no_tables).raw
records_inserted_counts_rows_example =
    records_inserted_counts_rows run_key (first_page ∷ last_page ∷ []) no_tables

-- Whole numbers for floats, and a server that is always rate limited.
abbrev counts : Floats
counts = record {
  Float = ℕ;
  of_int = λ n. elim n [ pos k ↦ k | negsuc k ↦ 0 ];
  add = λ a b. a + b;
  subtract = λ a b. a - b;
  multiply = λ a b. a * b;
  max = λ a b. a + b;
  min = λ a b. b;
  is_nonnegative_float = λ a. true;
  tenth = 0;
  parse_int = λ s. none;
  parse_float = λ s. none;
}

abbrev busy : Network counts
busy = record {
  respond = λ n. some (record { status_code = 429; headers = []; body = some (object no_fields) });
  epoch_time = λ n. 0;
  jitter = λ n bound. 0;
}

abbrev no_calls : Log counts
no_calls = record { requests = 0; waits = [] }

get-bounds_example :
    let (r, log') = RestClient.get counts busy 3 60 (text "repos") no_calls in
    (r ≢ raise assertion_error)
    × (log'.requests ≤ 4)
    × (length log'.waits ≤ 3)
    × (((is_empty (text "repos") ≡ true) × (r ≡ raise value_error) × (log' ≡ no_calls))
        ⊎ ((is_empty (text "repos") ≡ false) × (log'.requests ≡ suc (length log'.waits))))
get-bounds_example = get-bounds counts busy 3 60 (text "repos") no_calls refl refl

-- An API that answers every query with an empty object of data.
abbrev answering : Network counts
answering = record {
  respond = λ n. some (record {
    status_code = 200;
    headers = [];
    body = some (object (field (text "data") (object no_fields) no_fields));
  });
  epoch_time = λ n. 0;
  jitter = λ n bound. 0;
}

execute_returns-Clean_example :
    let (r, log') = execute counts answering 3 60 no_calls in
    (r ≢ raise assertion_error)
    × (log'.requests ≤ 0 + 4)
    × (((e : Exception) × (r ≡ raise e))
        ⊎ (fs : Fields) × (i : ℕ) × (response : HttpResponse) × (r ≡ ok fs)
          × (answering.respond i ≡ some response)
          × (log'.requests ≡ suc i)
          × Clean response fs)
execute_returns-Clean_example = execute_returns-Clean counts answering 3 60 no_calls
