-- ===== src/Refresh/Models.antt =====
-- src/github_analytics/analytics_refresh/models.py: run states, identities and summaries.
use github_delivery_intellig.Common.{
  ℤ, Bool, true, false, not, ◌||◌, Option, none, some, [], ◌∷◌, any, is_nonnegative, ltb,
}
use github_delivery_intellig.Common.Text.{Text, is_blank}
use github_delivery_intellig.Common.Json.{Fields}
use github_delivery_intellig.Common.Time.{Datetime}
use github_delivery_intellig.Common.Result.{Result, ok, ◌>>◌, refuse_if}
use github_delivery_intellig.Common.Exception.{Exception, value_error}

pub data RunStatus : Type 0 where
  running succeeded failed : RunStatus

-- `_ALLOWED_TRANSITIONS`
unfoldable pub allowed : RunStatus → RunStatus → Bool
allowed running target = true
allowed failed running = true
allowed failed failed = true
allowed failed succeeded = false
allowed succeeded succeeded = true
allowed succeeded _ = false

unfoldable pub validate_transition : RunStatus → RunStatus → Result Exception (Unit {0})
unfolding allowed
validate_transition current target = refuse_if (not (allowed current target)) value_error

pub record RefreshRunIdentity : Type 0 where
  pub dag_id : Text
  pub dag_run_id : Text
  pub logical_date : Datetime
  pub data_interval_start : Datetime
  pub data_interval_end : Datetime

-- `RefreshRunIdentity.__post_init__`
unfoldable pub check_identity : RefreshRunIdentity → Result Exception RefreshRunIdentity
check_identity i = do
  refuse_if (is_blank i.dag_id || is_blank i.dag_run_id) value_error
  refuse_if
      (any (λ (t : Datetime). not t.aware)
        (i.logical_date ∷ i.data_interval_start ∷ i.data_interval_end ∷ []))
      value_error
  refuse_if (ltb i.data_interval_end.instant i.data_interval_start.instant) value_error
  ok i

pub record SourceWatermark : Type 0 where
  pub maximum_ingested_at : Option Datetime
  pub delay_seconds : Option ℤ

abbrev is_negative : Option ℤ → Bool
is_negative none = false
is_negative (some n) = not (is_nonnegative n)

-- `SourceWatermark.__post_init__`
unfoldable pub check_watermark : SourceWatermark → Result Exception SourceWatermark
check_watermark w = do refuse_if (is_negative w.delay_seconds) value_error; ok w

pub record DbtResultSummary : Type 0 where
  pub invocation_id : Option Text
  pub succeeded : ℤ
  pub failed : ℤ
  pub skipped : ℤ
  pub warnings : ℤ
  pub errors : ℤ
  pub artifact : Fields

-- `DbtResultSummary.__post_init__`: the least count is not negative, so none is.
unfoldable pub check_summary : DbtResultSummary → Result Exception DbtResultSummary
check_summary s = do
  refuse_if
      (any (λ n. not (is_nonnegative n))
        (s.succeeded ∷ s.failed ∷ s.skipped ∷ s.warnings ∷ s.errors ∷ []))
      value_error
  ok s
