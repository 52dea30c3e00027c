-- ===== src/Refresh/Rows.antt =====
-- src/github_analytics/analytics_refresh/storage.py: a row of ops.analytics_refresh_runs, and what
-- each statement writes to one. The columns `created_at` and `updated_at`, which nothing reads, are
-- left out. Of the constraints in infra/init/006_create_analytics_refresh_runs.sql those on the
-- terminal timestamp, its order, the error columns and the length of `error_summary` are `row_ok`,
-- and those on what `_BEGIN_RUN` alone writes are `begin_ok`. The checks on the signs of counts and
-- delays, the ranges of the number columns, and PostgreSQL's refusal of a NUL in a text are left out.
use github_delivery_intellig.Common.{
  ℕ, ℤ, pos, Bool, true, not, ◌&&◌, Option, none, some, List, [], ◌∷◌, length, ◌=?◌, nat_eq,
  if◌then◌else◌, is_some, ltb, leb,
}
use github_delivery_intellig.Common.Text.{Text}
use github_delivery_intellig.Common.Json.{Fields}
use github_delivery_intellig.Common.Time.{Datetime}
use github_delivery_intellig.Refresh.Models.{
  RunStatus, running, succeeded, failed, RefreshRunIdentity, SourceWatermark, DbtResultSummary,
}

pub record RunRow : Type 0 where
  pub run_id : Text
  pub logical_date : Datetime
  pub data_interval_start : Datetime
  pub data_interval_end : Datetime
  pub started_at : ℕ
  pub finished_at : Option ℕ
  pub status : RunStatus
  pub source_relation : Text
  pub source_max_ingested_at : Option Datetime
  pub source_delay_seconds : Option ℤ
  pub source_freshness_summary : Option Fields
  pub dbt_invocation_id : Option Text
  pub dbt_result_summary : Option Fields
  pub dbt_succeeded_count : ℤ
  pub dbt_failed_count : ℤ
  pub dbt_skipped_count : ℤ
  pub dbt_warning_count : ℤ
  pub dbt_error_count : ℤ
  pub error_category : Option Text
  pub error_summary : Option Text

-- The CHECK constraints on the terminal timestamp, its order and the error columns, and the 1000
-- characters of `error_summary`. (PostgreSQL cuts a longer text whose excess is spaces.)
unfoldable pub row_ok : RunRow → Bool
row_ok row =
    elim row.status [ running ↦ not (is_some row.finished_at) | other ↦ is_some row.finished_at ]
    && elim row.finished_at [ none ↦ true | some t ↦ leb row.started_at t ]
    && elim row.status [
      | failed ↦ true
      | other ↦ not (is_some row.error_category) && not (is_some row.error_summary)
    ]
    && elim row.error_summary [ none ↦ true | some t ↦ leb (length t.points) 1000 ]

-- `btrim(column) = ''`: nothing but spaces.
unfoldable pub only_spaces : List ℕ → Bool
only_spaces [] = true
only_spaces (c ∷ cs) = (c =? 32) && only_spaces cs

-- The CHECK constraints on the names and the interval of a row that begins.
unfoldable pub begin_ok : Text → RefreshRunIdentity → Text → Bool
unfolding only_spaces
begin_ok run_id identity source_relation =
    not (only_spaces run_id.points)
    && not (only_spaces identity.dag_id.points)
    && not (only_spaces identity.dag_run_id.points)
    && not (only_spaces source_relation.points)
    && leb identity.data_interval_start.instant identity.data_interval_end.instant

-- `COALESCE(value, column)`
abbrev pub coalesce {ℓ} : {A : Type ℓ} → Option A → Option A → Option A
coalesce none column = column
coalesce (some v) column = some v

abbrev pub coalesce_count : Option ℤ → ℤ → ℤ
coalesce_count none column = column
coalesce_count (some v) column = v

-- The row that `_BEGIN_RUN` inserts, and writes over an old one whose `run_id` stays.
unfoldable pub begun : Text → RefreshRunIdentity → ℕ → Text → RunRow
begun run_id identity started_at source_relation = record {
  run_id = run_id;
  logical_date = identity.logical_date;
  data_interval_start = identity.data_interval_start;
  data_interval_end = identity.data_interval_end;
  started_at = started_at;
  finished_at = none;
  status = running;
  source_relation = source_relation;
  source_max_ingested_at = none;
  source_delay_seconds = none;
  source_freshness_summary = none;
  dbt_invocation_id = none;
  dbt_result_summary = none;
  dbt_succeeded_count = pos 0;
  dbt_failed_count = pos 0;
  dbt_skipped_count = pos 0;
  dbt_warning_count = pos 0;
  dbt_error_count = pos 0;
  error_category = none;
  error_summary = none;
}

-- The SET clause of `_RECORD_SOURCE`
unfoldable pub with_source : DbtResultSummary → RunRow → RunRow
with_source s row = record row {
  source_freshness_summary = some s.artifact;
  dbt_invocation_id = coalesce s.invocation_id row.dbt_invocation_id;
}

-- The SET clause of `_RECORD_WATERMARK`
unfoldable pub with_watermark : SourceWatermark → RunRow → RunRow
with_watermark w row = record row {
  source_max_ingested_at = w.maximum_ingested_at;
  source_delay_seconds = w.delay_seconds;
}

-- The SET clause of `_RECORD_BUILD`
unfoldable pub with_build : DbtResultSummary → RunRow → RunRow
with_build s row = record row {
  dbt_invocation_id = s.invocation_id;
  dbt_result_summary = some s.artifact;
  dbt_succeeded_count = s.succeeded;
  dbt_failed_count = s.failed;
  dbt_skipped_count = s.skipped;
  dbt_warning_count = s.warnings;
  dbt_error_count = s.errors;
}

-- The SET clause of `_RESUME_BUILD`
unfoldable pub resumed : RunRow → RunRow
resumed row = record row {
  status = running;
  finished_at = none;
  error_category = none;
  error_summary = none;
}

-- The SET clause of `_FINISH_SUCCESS`
unfoldable pub finished_well : ℕ → RunRow → RunRow
finished_well finished_at row = record row { status = succeeded; finished_at = some finished_at }

-- `GREATEST`
abbrev greatest : ℕ → ℕ → ℕ
greatest a b = if ltb a b then b else a

abbrev from_summary {ℓ} : {A : Type ℓ} → (DbtResultSummary → A) → Option DbtResultSummary → Option A
from_summary f none = none
from_summary f (some s) = some (f s)

abbrev invocation_of : Option DbtResultSummary → Option Text
invocation_of none = none
invocation_of (some s) = s.invocation_id

-- The SET clause of `_FINISH_FAILURE`, with the parameters of `_summary_parameters`.
unfoldable pub finished_badly : ℕ → Text → Text → Option DbtResultSummary → RunRow → RunRow
finished_badly finished_at category message summary row = record row {
  status = failed;
  finished_at = some (greatest finished_at row.started_at);
  dbt_invocation_id = coalesce (invocation_of summary) row.dbt_invocation_id;
  dbt_result_summary = coalesce (from_summary (λ s. s.artifact) summary) row.dbt_result_summary;
  dbt_succeeded_count =
      coalesce_count (from_summary (λ s. s.succeeded) summary) row.dbt_succeeded_count;
  dbt_failed_count = coalesce_count (from_summary (λ s. s.failed) summary) row.dbt_failed_count;
  dbt_skipped_count = coalesce_count (from_summary (λ s. s.skipped) summary) row.dbt_skipped_count;
  dbt_warning_count = coalesce_count (from_summary (λ s. s.warnings) summary) row.dbt_warning_count;
  dbt_error_count = coalesce_count (from_summary (λ s. s.errors) summary) row.dbt_error_count;
  error_category = coalesce row.error_category (some category);
  error_summary = coalesce row.error_summary (some message);
}
