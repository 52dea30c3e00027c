-- ===== src/Refresh/Service.antt =====
-- src/github_analytics/analytics_refresh/service.py: `AnalyticsRefreshService`. A step takes what
-- the clock, the source query and the dbt command give it, since none of them reads the ledger.
use github_delivery_intellig.Common.{ℕ, Bool, true, false, Option, none, some}
use github_delivery_intellig.Common.Text.{Text, text}
use github_delivery_intellig.Common.Time.{Datetime}
use github_delivery_intellig.Common.Result.{Result, ok, raise}
use github_delivery_intellig.Common.Action.{Action, ◌>>=◌, ◌>>◌}
use github_delivery_intellig.Common.Exception.{Exception}
use github_delivery_intellig.Refresh.Models.{RefreshRunIdentity, DbtResultSummary}
use github_delivery_intellig.Refresh.Ledger.{
  Runs, begin_run, read_source_watermark, record_source, record_watermark, record_build,
  resume_build, finish_success, finish_failure,
}
use github_delivery_intellig.Refresh.Artifact.{Python, Fault, refresh, other, sanitize_error}

abbrev pub category_of : Fault → Text
category_of (refresh e) = e.category
category_of (other e m) = text "unexpected_error"

abbrev pub message_of : Fault → Text
message_of (refresh e) = e.message
message_of (other e m) = m

abbrev pub summary_of : Fault → Option DbtResultSummary
summary_of (refresh e) = e.summary
summary_of (other e m) = none

abbrev pub included : Bool → Option DbtResultSummary → Option DbtResultSummary
included false summary = none
included true summary = summary

module _ (python : Python) (describe : Exception → Text) where
  -- A call of the storage inside a step.
  abbrev pub stored {ℓ} : {A : Type ℓ} → (Runs → Result Exception A × Runs) → Action Fault Runs A
  stored call runs =
      let (r, runs') = call runs in
      elim r [ ok a ↦ (ok a, runs') | raise e ↦ (raise (other e (describe e)), runs') ]

  -- The result of a dbt command, which does not touch the ledger.
  abbrev pub ran : Result Fault DbtResultSummary → Action Fault Runs DbtResultSummary
  ran outcome runs = (outcome, runs)

  -- `try: body except Exception as error: handler(error); raise`
  abbrev pub on_error :
      Action Fault Runs (Unit {0})
      → (Fault → Action Fault Runs (Unit {0}))
      → Action Fault Runs (Unit {0})
  on_error body handler runs =
      let (r, runs') = body runs in
      elim r [
        | ok u ↦ (ok u, runs')
        | raise error ↦
            let (r', runs'') = handler error runs' in
            elim r' [ ok u ↦ (raise error, runs'') | raise worse ↦ (raise worse, runs'') ]
      ]

  -- `_persist_failure`; `now` is what the clock gives.
  unfoldable pub persist_failure : Text → Fault → Bool → ℕ → Action Fault Runs (Unit {0})
  persist_failure run_id error include_result_summary now = stored (
      finish_failure run_id now (category_of error) (sanitize_error python (message_of error))
        (included include_result_summary (summary_of error)))

  abbrev pub record_known : Text → Option DbtResultSummary → Action Fault Runs (Unit {0})
  record_known run_id none runs = (ok tt, runs)
  record_known run_id (some summary) runs = stored (record_source run_id summary) runs

  -- `record_and_check_source`: `started` and `now` are the clock's answers, `maximum` is the
  -- query's, `freshness` that of `run_freshness`.
  unfoldable pub record_and_check_source :
      (RefreshRunIdentity → Text)
      → RefreshRunIdentity
      → Text
      → Datetime
      → Option Datetime
      → Result Fault DbtResultSummary
      → ℕ
      → Action Fault Runs (Unit {0})
  unfolding persist_failure
  record_and_check_source run_id_of identity relation started maximum freshness now =
      stored (begin_run run_id_of identity started.instant relation) >>= λ run_id.
      on_error
        (stored (record_watermark run_id (read_source_watermark started maximum))
          >> (ran freshness >>= λ summary. stored (record_source run_id summary)))
        (λ error. record_known run_id (summary_of error) >> persist_failure run_id error false now)

  -- `build`
  unfoldable pub build :
      (RefreshRunIdentity → Text)
      → RefreshRunIdentity
      → Result Fault DbtResultSummary
      → ℕ
      → Action Fault Runs (Unit {0})
  unfolding persist_failure
  build run_id_of identity built now =
      on_error
        (stored (resume_build (run_id_of identity))
          >> (ran built >>= λ summary. stored (record_build (run_id_of identity) summary)))
        (λ error. persist_failure (run_id_of identity) error true now)

  unfoldable pub succeed :
      (RefreshRunIdentity → Text) → RefreshRunIdentity → ℕ → Action Fault Runs (Unit {0})
  succeed run_id_of identity now = stored (finish_success (run_id_of identity) now)

  unfoldable pub fail :
      (RefreshRunIdentity → Text) → RefreshRunIdentity → Fault → ℕ → Action Fault Runs (Unit {0})
  unfolding persist_failure
  fail run_id_of identity error now = persist_failure (run_id_of identity) error true now
