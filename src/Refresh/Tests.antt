-- ===== src/Refresh/Tests.antt =====
-- One scheduled run, its calls, and the theorems at them.
use github_delivery_intellig.Common.{
  ◌≡◌, refl, ◌⊎◌, ◌≤◌, pos, true, false, none, some, List, [], ◌∷◌, All, length, pair_beq, pair_eq,
  list_beq,
}
use github_delivery_intellig.Common.Text.{Text, text, text_eq, text_beq, lower, is_empty}
use github_delivery_intellig.Common.Time.{Datetime}
use github_delivery_intellig.Common.Json.{
  Json, no_fields, Fields, field, get, object, array, item, no_items, str,
}
use github_delivery_intellig.Common.Table.{lookup}
use github_delivery_intellig.Common.Result.{ok, raise}
use github_delivery_intellig.Refresh.Models.{
  succeeded, allowed, RefreshRunIdentity, DbtResultSummary,
}
use github_delivery_intellig.Refresh.Rows.{
  begin_ok, only_spaces, RunRow, row_ok, begun, finished_well,
}
use github_delivery_intellig.Refresh.Ledger.{Runs, identity_key, rows_ok, begin_run}
use github_delivery_intellig.Refresh.Transitions.{
  Call, begin, success, failure, resume, after, after_all, call_moves_rows, success_is_final,
}
use github_delivery_intellig.Refresh.Moves.{report}
use github_delivery_intellig.Refresh.Artifact.{
  Fault, refresh, Python, refresh_error, Counts, Failure, parse_dbt_artifact, document, results_of,
  summary_of, invocation_of, summarize, status_of, status_bucket, count, is_kept, failure_of,
  truncate, sanitize_error, text_or, flatten,
}
use github_delivery_intellig.Refresh.ArtifactBounds.{Within, total, parse_dbt_artifact-bounds}
use github_delivery_intellig.Refresh.Service.{record_and_check_source, build}
use github_delivery_intellig.Refresh.FailurePath.{
  FailedWith, source_failure_recorded, build_failure_recorded,
}

abbrev noon : Datetime
noon = record { instant = 43; aware = true }

abbrev daily : RefreshRunIdentity
daily = record {
  dag_id = text "refresh";
  dag_run_id = text "r1";
  logical_date = noon;
  data_interval_start = noon;
  data_interval_end = noon;
}

abbrev id_of : RefreshRunIdentity → Text
id_of i = i.dag_run_id

abbrev fresh : RunRow
fresh = begun (text "r1") daily 50 (text "raw.github_events")

abbrev started : Runs
started = (identity_key daily, fresh) ∷ []

abbrev finished : RunRow
finished = finished_well 60 fresh

abbrev done : Runs
done = (identity_key daily, finished) ∷ []

abbrev summary : DbtResultSummary
summary = record {
  invocation_id = none;
  succeeded = pos 1;
  failed = pos 0;
  skipped = pos 0;
  warnings = pos 0;
  errors = pos 0;
  artifact = no_fields;
}

call_moves_rows_example :
    (new : RunRow) × (lookup (identity_key daily) (after id_of (success (text "r1") 60) started)
      ≡ some new)
    × (new.run_id ≡ fresh.run_id)
    × ((new ≡ fresh) ⊎ (allowed fresh.status new.status ≡ true))
call_moves_rows_example =
    call_moves_rows id_of (success (text "r1") 60) started (identity_key daily) fresh
      (unfold lookup pair_beq text_beq list_beq text in refl)

abbrev later_calls : List Call
later_calls =
    failure (text "r1") 70 (text "c") (text "m") none
    ∷ resume (text "r1")
    ∷ begin daily 80 (text "raw.github_events")
    ∷ []

success_is_final_example :
    (new : RunRow) × (lookup (identity_key daily) (after_all id_of later_calls done) ≡ some new)
    × (new.status ≡ succeeded)
    × (report new ≡ report finished)
success_is_final_example =
    success_is_final id_of later_calls done (identity_key daily) finished
      (unfold lookup pair_beq text_beq list_beq text in refl) (unfold finished_well in refl)

abbrev python : Python
python = record { redact = λ s. s; str_of_other = λ v. text "None"; is_zero = λ s. false }

abbrev broken : Fault
broken = refresh (refresh_error (text "source_freshness_failed") (text "stale"))

source_failure_recorded_example :
    let (r, runs') =
      record_and_check_source python
        (λ e. text "e")
        id_of
        daily
        (text "raw.github_events")
        noon
        none
        (raise broken)
        90
        started in
    (r ≡ raise broken)
    × (new : RunRow) × (lookup (identity_key daily) runs' ≡ some new)
    × FailedWith python broken new
source_failure_recorded_example =
    source_failure_recorded python (λ e. text "e") id_of daily (text "raw.github_events")
      (text "r1") noon none broken 90 started (unfold rows_ok row_ok begun in refl)
      (unfold begin_run begin_ok only_spaces lookup pair_beq begun text_beq list_beq text in refl)

build_failure_recorded_example :
    let (r, runs') = build python (λ e. text "e") id_of daily (raise broken) 90 started in
    (r ≡ raise broken)
    × (new : RunRow) × (lookup (identity_key daily) runs' ≡ some new)
    × FailedWith python broken new
build_failure_recorded_example =
    build_failure_recorded python (λ e. text "e") id_of daily fresh broken 90 started
      (unfold rows_ok row_ok begun in refl) (unfold lookup pair_beq text_beq list_beq text in refl)
      (unfold begun in refl) (unfold begun in refl)

-- One test that failed, with its message cut at two characters.
abbrev artifact : Json
artifact = object (
    field (text "results")
      (array (
        item
          (object (
            field (text "status") (str (text "fail"))
              (field (text "message") (str (text "Bad")) no_fields)))
          no_items))
      no_fields)

abbrev one_failed : Counts
one_failed = record {
  succeeded_count = 0;
  failed_count = 1;
  skipped_count = 0;
  warnings_count = 0;
  errors_count = 0;
}

abbrev kept_failure : Failure
kept_failure = record { unique_id = text "unknown"; status = text "fail"; message = text "Ba" }

abbrev artifact_summary : DbtResultSummary
artifact_summary = summary_of (text "run_results.json") none 5 one_failed (kept_failure ∷ [])

artifact-parsed :
    parse_dbt_artifact python (text "run_results.json") 5 2 (document artifact)
    ≡ ok artifact_summary
unfolding parse_dbt_artifact summarize get text_beq list_beq text count is_kept status_bucket
    status_of lower failure_of truncate sanitize_error text_or is_empty flatten
artifact-parsed = refl

parse_dbt_artifact-bounds_example :
    (fields : Fields) × (results : List Json) × (c : Counts) × (failures : List Failure)
    × (results_of artifact ≡ some (fields, results))
    × (artifact_summary
        ≡ summary_of
            (text "run_results.json")
            (invocation_of (get (text "metadata") fields))
            5
            c
            failures)
    × (length failures ≤ 5)
    × All (Within 2) failures
    × (total c ≡ length results)
parse_dbt_artifact-bounds_example =
    parse_dbt_artifact-bounds python (text "run_results.json") 5 2 artifact artifact_summary
      artifact-parsed

-- The artifact is read, but the command ended with code 1.
