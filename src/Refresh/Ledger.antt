-- ===== src/Refresh/Ledger.antt =====
-- src/github_analytics/analytics_refresh/storage.py: `PostgresAnalyticsRefreshStorage` over the table
-- ops.analytics_refresh_runs, whose rows are keyed by (dag_id, dag_run_id). `run_id_of` is the SHA-256
-- digest of models.py. A statement that breaks a constraint raises, and writes nothing.
use github_delivery_intellig.Common.{
  ℕ, ◌/◌, ◌-◌, pos, Bool, true, false, not, ◌&&◌, ◌||◌, Option, none, some, [], ◌∷◌, if◌then◌else◌,
  ◌=?◌, pair_eq,
}
use github_delivery_intellig.Common.Text.{Text, text_eq}
use github_delivery_intellig.Common.Time.{Datetime}
use github_delivery_intellig.Common.Table.{Table, lookup, upsert}
use github_delivery_intellig.Common.Result.{Result, ok, raise}
use github_delivery_intellig.Common.Exception.{
  Exception, value_error, unique_violation, check_violation,
}
use github_delivery_intellig.Refresh.Models.{
  RunStatus, running, succeeded, failed, RefreshRunIdentity, SourceWatermark, DbtResultSummary,
}
use github_delivery_intellig.Refresh.Rows.{
  RunRow, row_ok, begin_ok, begun, with_source, with_watermark, with_build, resumed, finished_well,
  finished_badly,
}

abbrev pub RunKey : Type 0
RunKey = Text × Text

abbrev pub Runs : Type 0
Runs = Table RunKey RunRow

abbrev pub identity_key : RefreshRunIdentity → RunKey
identity_key i = (i.dag_id, i.dag_run_id)

-- A WHERE clause on the status.
abbrev pub is_running : RunStatus → Bool
is_running running = true
is_running _ = false

abbrev pub running_or_failed : RunStatus → Bool
running_or_failed succeeded = false
running_or_failed _ = true

abbrev pub running_or_succeeded : RunStatus → Bool
running_or_succeeded failed = false
running_or_succeeded _ = true

-- The rows that an UPDATE with `WHERE run_id = ... AND status IN ...` selects.
abbrev pub selected : Text → (RunStatus → Bool) → RunRow → Bool
selected run_id where_status row = (row.run_id =? run_id) && where_status row.status

abbrev pub set_row : Text → (RunStatus → Bool) → (RunRow → RunRow) → RunRow → RunRow
set_row run_id where_status set row = if selected run_id where_status row then set row else row

unfoldable pub set_rows : Text → (RunStatus → Bool) → (RunRow → RunRow) → Runs → Runs
set_rows run_id where_status set [] = []
set_rows run_id where_status set ((k, row) ∷ t) =
    (k, set_row run_id where_status set row) ∷ set_rows run_id where_status set t

unfoldable pub some_selected : Text → (RunStatus → Bool) → Runs → Bool
some_selected run_id where_status [] = false
some_selected run_id where_status ((k, row) ∷ t) =
    selected run_id where_status row || some_selected run_id where_status t

unfoldable pub rows_ok : Runs → Bool
rows_ok [] = true
rows_ok ((k, row) ∷ t) = row_ok row && rows_ok t

-- `_require_write`: an UPDATE that selects no row returns none, which raises `ValueError`.
unfoldable pub require_write :
    Text → (RunStatus → Bool) → (RunRow → RunRow) → Runs → Result Exception (Unit {0}) × Runs
unfolding set_rows some_selected rows_ok
require_write run_id where_status set runs =
    let runs' = set_rows run_id where_status set runs in
    if not (rows_ok runs')
    then (raise check_violation, runs)
    else if some_selected run_id where_status runs
    then (ok tt, runs')
    else (raise value_error, runs)

unfoldable pub run_id_taken : Text → Runs → Bool
run_id_taken run_id [] = false
run_id_taken run_id ((k, row) ∷ t) = (row.run_id =? run_id) || run_id_taken run_id t

unfoldable pub begin_run :
    (RefreshRunIdentity → Text)
    → RefreshRunIdentity
    → ℕ
    → Text
    → Runs
    → Result Exception Text × Runs
unfolding run_id_taken begin_ok
begin_run run_id_of identity started_at source_relation runs =
    let key = identity_key identity in
    if not (begin_ok (run_id_of identity) identity source_relation)
    then (raise check_violation, runs)
    else elim (lookup key runs) [
      | none ↦ if run_id_taken (run_id_of identity) runs then (raise unique_violation, runs) else (
        ok (run_id_of identity),
        upsert key (begun (run_id_of identity) identity started_at source_relation) runs,
      )
      | some old ↦
          if running_or_failed old.status
          then (
            ok old.run_id,
            upsert key (begun old.run_id identity started_at source_relation) runs,
          )
          else (raise value_error, runs)
    ]

-- `read_source_watermark`, from the aggregate that the query gives: whole seconds, never negative.
-- Instants count microseconds.
abbrev watermark_of : Datetime → Option Datetime → SourceWatermark
watermark_of observed_at none = record { maximum_ingested_at = none; delay_seconds = none }
watermark_of observed_at (some maximum) = record {
  maximum_ingested_at = some maximum;
  delay_seconds = some (pos ((observed_at.instant - maximum.instant) / 1_000_000));
}

unfoldable pub read_source_watermark : Datetime → Option Datetime → SourceWatermark
read_source_watermark observed_at maximum = watermark_of observed_at maximum

unfoldable pub record_source : Text → DbtResultSummary → Runs → Result Exception (Unit {0}) × Runs
record_source run_id summary = require_write run_id is_running (with_source summary)

unfoldable pub record_watermark : Text → SourceWatermark → Runs → Result Exception (Unit {0}) × Runs
record_watermark run_id watermark = require_write run_id is_running (with_watermark watermark)

unfoldable pub record_build : Text → DbtResultSummary → Runs → Result Exception (Unit {0}) × Runs
record_build run_id summary = require_write run_id is_running (with_build summary)

unfoldable pub resume_build : Text → Runs → Result Exception (Unit {0}) × Runs
resume_build run_id = require_write run_id running_or_failed resumed

unfoldable pub finish_success : Text → ℕ → Runs → Result Exception (Unit {0}) × Runs
finish_success run_id finished_at =
    require_write run_id running_or_succeeded (finished_well finished_at)

unfoldable pub finish_failure :
    Text → ℕ → Text → Text → Option DbtResultSummary → Runs → Result Exception (Unit {0}) × Runs
finish_failure run_id finished_at category message summary =
    require_write run_id running_or_failed (finished_badly finished_at category message summary)
