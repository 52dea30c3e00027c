-- ===== src/Backfill/TraversalTests.antt =====
-- Two APIs that are simple to compute with, one that answers every request and one that leaves out
-- what it announces, and the theorems on the traversals at them.
use github_delivery_intellig.Common.{
  ◌≡◌, ◌≢◌, ◌⊎◌, refl, ◌+◌, ℕ, suc, ℤ, pos, true, false, Option, none, some, List, [], ◌∷◌, length,
  arith, pair_eq, pair_beq, list_beq,
}
use github_delivery_intellig.Common.Text.{
  text, text_eq, text_beq, is_empty, is_blank, is_space, split_once,
}
use github_delivery_intellig.Common.Json.{
  Json, boolean, str, integer, object, array, no_items, Fields, no_fields, field, get,
}
use github_delivery_intellig.Common.Table.{lookup, upsert}
use github_delivery_intellig.Common.Time.{Datetime}
use github_delivery_intellig.Common.Result.{ok, raise}
use github_delivery_intellig.Common.Exception.{rest_data_error}
use github_delivery_intellig.Webhook.Models.{undecodable, Decoder}
use github_delivery_intellig.Consumers.RawStorage.{backfill, source_eq}
use github_delivery_intellig.Backfill.Models.{check_run_key}
use github_delivery_intellig.Backfill.Storage.{
  load_checkpoint, persist_page, refuses, insert_records, checkpoint_key_eq,
}
use github_delivery_intellig.Backfill.Configuration.{Conversions, Configuration, configure}
use github_delivery_intellig.Backfill.Traversal.{
  BackfillSummary, Halt, out_of_fuel, raised, no_work, Store, is_completed,
}
use github_delivery_intellig.Backfill.Traversal.Again.{Checked}
use github_delivery_intellig.Backfill.RestBackfill.{
  RestExecutor, next_page, run_key, required_nonnegative_int, required_object_list,
}
use github_delivery_intellig.Backfill.RestBackfill.Run.{run, run_workflow_runs, fetch_json}
use github_delivery_intellig.Backfill.RestBackfill.Results.{rest_run_keeps_and_counts}
use github_delivery_intellig.Backfill.RestBackfill.Fuel.{workflow_runs_terminate}
use github_delivery_intellig.Backfill.RestBackfill.EmptyPage.{
  Numerals, Truncated, runs_key, empty_page_is_skipped,
}
use github_delivery_intellig.Backfill.PullRequestBackfill.{GraphQlExecutor}
use github_delivery_intellig.Backfill.PullRequestBackfill.Run as PullRequests
use github_delivery_intellig.Backfill.PullRequestBackfill.Results.{
  pull_request_run_keeps_and_counts,
}

abbrev time_of : Json → Option Datetime
time_of (integer (pos n)) = some record { instant = n; aware = true }
time_of _ = none

abbrev decoder : Decoder
decoder = record {
  loads = λ b. undecodable;
  model_loads = λ b. none;
  to_int = λ v. none;
  to_text = λ v. none;
  to_bool = λ v. none;
  to_datetime = time_of;
}

-- One code point for each number.
abbrev point_of : List ℕ → Option ℤ
point_of (n ∷ []) = some (pos n)
point_of _ = none

abbrev conversions : Conversions
conversions = record {
  decimal = λ n. record { points = n ∷ [] };
  parse_int = λ s. point_of s.points;
  isoformat = λ t. record { points = t.instant ∷ [] };
  real_equals = λ x n. false;
}

abbrev configuration : Configuration
configuration = record {
  owner = text "o";
  name = text "n";
  repository = text "o/n";
  repository_id = pos 9;
  installation_id = pos 4;
  page_size = 50;
}

abbrev start : Datetime
start = record { instant = 1; aware = true }

abbrev end : Datetime
end = record { instant = 100; aware = true }

abbrev truncated_json : Fields
truncated_json =
    field (text "total_count") (integer (pos 60))
      (field (text "workflow_runs") (array no_items) no_fields)

-- It counts the requests.
abbrev truncating : RestExecutor
truncating = record { Client = ℕ; get = λ path params n. (ok (object truncated_json), suc n) }

abbrev empty_store : Store ℕ
empty_store = record { client = 0; tables = record { raw = []; checkpoints = [] } }

configuration-accepted : configure (text "o/n") (pos 9) (pos 4) (pos 50) ≡ ok configuration
unfolding configure split_once text is_empty
configuration-accepted = refl

rest_run_keeps_and_counts_example :
    let (r, t) = run decoder conversions configuration truncating 3 start end empty_store in
    ((lookup (backfill, text "k") empty_store.tables.raw ≡ none)
      ⊎ (lookup (backfill, text "k") t.tables.raw
          ≡ lookup (backfill, text "k") empty_store.tables.raw))
    × (((e : Halt) × (r ≡ raise e))
        ⊎ (total : BackfillSummary) × (r ≡ ok total)
          × (length t.tables.raw ≡ length empty_store.tables.raw + total.records_inserted)
          × (run decoder conversions configuration truncating 5 start end t ≡ (ok no_work, t)))
rest_run_keeps_and_counts_example =
    rest_run_keeps_and_counts decoder conversions configuration truncating 3 start end empty_store 5
      (backfill, text "k")

workflow_runs_terminate_example :
    (run_workflow_runs decoder conversions configuration truncating 1001 start end empty_store).0
    ≢ raise out_of_fuel
workflow_runs_terminate_example =
    workflow_runs_terminate decoder conversions truncating (text "o/n") (pos 9) (pos 4) (pos 50)
      configuration start end 1001 empty_store configuration-accepted (omega arith)

abbrev numerals : Numerals conversions
numerals = record { nonempty = λ n. unfold is_empty in refl; read_back = λ n. refl }

runs_key-Checked : Checked (runs_key decoder conversions configuration truncating start end 1)
unfolding check_run_key run_key text is_blank is_space
runs_key-Checked = (runs_key decoder conversions configuration truncating start end 1, refl)

truncated :
    Truncated decoder conversions configuration truncating start end 1 (object truncated_json)
unfolding required_nonnegative_int required_object_list get text text_beq list_beq
truncated = record {
  response = truncated_json;
  total = 60;
  is_object = refl;
  total_given = refl;
  capped = omega arith;
  announced = omega arith;
  missing = refl;
}

empty_page_is_skipped_example :
    let key = runs_key decoder conversions configuration truncating start end 1 in
    let (r, t) =
      run_workflow_runs decoder conversions configuration truncating 5 start end empty_store in
    (r ≡ raise (raised rest_data_error))
    × (is_completed (load_checkpoint key t.tables) ≡ false)
    × (next_page decoder conversions (load_checkpoint key t.tables) ≡ ok 2)
empty_page_is_skipped_example =
    empty_page_is_skipped decoder conversions configuration truncating start end 1 numerals 4
      empty_store (record { client = 1; tables = empty_store.tables }) (object truncated_json)
      runs_key-Checked (unfold is_completed load_checkpoint lookup in refl)
      (unfold next_page load_checkpoint lookup in refl) (unfold fetch_json in refl) truncated

-- An API whose pages of pull requests are empty.
abbrev no_pull_requests : Fields
no_pull_requests =
    field (text "repository")
      (object (
        field (text "databaseId") (integer (pos 9)) (
          field (text "nameWithOwner") (str (text "o/n")) (
            field (text "pullRequests")
              (object (
                field (text "nodes") (array no_items) (
                  field (text "pageInfo")
                    (object (field (text "hasNextPage") (boolean false) no_fields)) no_fields)))
              no_fields))))
      no_fields

abbrev quiet : GraphQlExecutor
quiet = record { Client = ℕ; execute = λ query variables n. (ok no_pull_requests, suc n) }

pull_request_run_keeps_and_counts_example :
    let (r, t) = PullRequests.run decoder conversions configuration quiet 1 start end empty_store in
    ((lookup (backfill, text "k") empty_store.tables.raw ≡ none)
      ⊎ (lookup (backfill, text "k") t.tables.raw
          ≡ lookup (backfill, text "k") empty_store.tables.raw))
    × (((e : Halt) × (r ≡ raise e))
        ⊎ (total : BackfillSummary) × (r ≡ ok total)
          × (length t.tables.raw ≡ length empty_store.tables.raw + total.records_inserted)
          × (PullRequests.run decoder conversions configuration quiet 4 start end t
              ≡ (ok no_work, t)))
pull_request_run_keeps_and_counts_example =
    pull_request_run_keeps_and_counts decoder conversions configuration quiet 1 start end
      empty_store 4 (backfill, text "k")

-- One empty page is stored.
abbrev one_page : BackfillSummary
one_page = record { pages_persisted = 1; records_inserted = 0; duplicates_absorbed = 0 }

one_page-returned :
    (PullRequests.run decoder conversions configuration quiet 1 start end empty_store).0
    ≡ ok one_page
unfolding PullRequests.run check_run_key is_blank text lookup get text_beq list_beq persist_page
    refuses upsert pair_beq insert_records
one_page-returned = refl
