-- ===== src/Refresh/FailurePath.antt =====
-- src/github_analytics/analytics_refresh/service.py: what the error paths of the steps leave in the
-- ledger.
use github_delivery_intellig.Common.{
  ◌≡◌, refl, sym, ap, ◌∙◌, inl, inr, ℕ, Bool, true, false, Option, none, some, arith, Option-cases,
  pair_eq, eq_self,
}
use github_delivery_intellig.Common.Text.{Text, text_eq}
use github_delivery_intellig.Common.Time.{Datetime}
use github_delivery_intellig.Common.Table.{lookup, upsert, lookup-upsert}
use github_delivery_intellig.Common.Result.{Result, ok, raise}
use github_delivery_intellig.Common.Action.{Action, ◌>>=◌, ◌>>◌}
use github_delivery_intellig.Common.Exception.{Exception}
use github_delivery_intellig.Refresh.Models.{
  RunStatus, running, failed, RefreshRunIdentity, SourceWatermark, DbtResultSummary,
}
use github_delivery_intellig.Refresh.Rows.{
  RunRow, begun, with_source, with_watermark, resumed, finished_badly,
}
use github_delivery_intellig.Refresh.Ledger.{
  Runs, RunKey, identity_key, set_rows, rows_ok, require_write, is_running, running_or_failed,
  begin_run, read_source_watermark, record_source, record_watermark, record_build, resume_build,
  finish_failure,
}
use github_delivery_intellig.Refresh.Constraints.{
  KeepsChecks, require_write-lands, source-ok, watermark-ok, resume-ok, failure-ok, begin-ok,
}
use github_delivery_intellig.Refresh.Artifact.{Python, Fault, other, sanitize_error}
use github_delivery_intellig.Refresh.ArtifactBounds.{sanitize_error-length}
use github_delivery_intellig.Refresh.Service.{
  stored, ran, on_error, record_known, category_of, message_of, summary_of, included,
  persist_failure, record_and_check_source, build,
}

begin_run-lands :
    (run_id_of : RefreshRunIdentity → Text) (i : RefreshRunIdentity) (at : ℕ)
    (relation run_id : Text)
    → (runs : Runs) → (begin_run run_id_of i at relation runs).0 ≡ ok run_id
    → begin_run run_id_of i at relation runs
      ≡ (ok run_id, upsert (identity_key i) (begun run_id i at relation) runs)
unfolding begin_run
begin_run-lands run_id_of i at relation run_id runs h =
    elim (Option-cases (lookup (identity_key i) runs)) [
      | inl new ↦ ground arith
      | inr (row, found) ↦ ground arith
    ]

then_ok {ℓ κ} :
    {A : Type ℓ} {B : Type κ} (m : Action Fault Runs A) (f : A → Action Fault Runs B)
    (runs runs' : Runs) (a : A)
    → m runs ≡ (ok a, runs')
    → (m >>= f) runs ≡ f a runs'
then_ok m f runs runs' a h = ap (λ p. elim p.0 [ ok b ↦ f b p.1 | raise e ↦ (raise e, p.1) ]) h

-- A row that stands in a ledger without broken constraints, under its key and its run.
record Standing (k : RunKey) (run_id : Text) (row : RunRow) (runs : Runs) : Type 0 where
  found : lookup k runs ≡ some row
  mine : row.run_id ≡ run_id
  good : rows_ok runs ≡ true

lands :
    (k : RunKey) (run_id : Text) (row : RunRow) (runs : Runs)
    → (w : RunStatus → Bool) (f : RunRow → RunRow) → KeepsChecks w f
    → Standing k run_id row runs
    → w row.status ≡ true
    → (f row).run_id ≡ row.run_id
    → (require_write run_id w f runs ≡ (ok tt, set_rows run_id w f runs))
      × Standing k run_id (f row) (set_rows run_id w f runs)
lands k run_id row runs w f keeps s able same =
    let (done, there, good) =
      require_write-lands run_id w f k row runs keeps s.good s.found s.mine able in
    (done, record { found = there; mine = same ∙ s.mine; good = good })

-- The row of a failed run: its error is that of the fault.
abbrev pub FailedWith : Python → Fault → RunRow → Type 0
FailedWith python error row =
    (row.status ≡ failed)
    × (row.error_category ≡ some (category_of error))
    × (row.error_summary ≡ some (sanitize_error python (message_of error)))

module _ (python : Python) (describe : Exception → Text) where
  stored-ok {ℓ} :
      {A : Type ℓ} (call : Runs → Result Exception A × Runs) (runs runs' : Runs) (a : A)
      → call runs ≡ (ok a, runs')
      → stored python describe call runs ≡ (ok a, runs')
  stored-ok call runs runs' a h =
      ap (λ p. elim p.0 [ ok b ↦ (ok b, p.1) | raise e ↦ (raise (other e (describe e)), p.1) ]) h

  -- With a row that is running or has failed, and has no error yet, a failure is recorded.
  persist_failure-lands :
      (k : RunKey) (run_id : Text) (row : RunRow) (runs : Runs)
      → (error : Fault) (include_result_summary : Bool) (now : ℕ) → Standing k run_id row runs
      → running_or_failed row.status ≡ true
      → row.error_category ≡ none
      → row.error_summary ≡ none
      → let (r, runs') =
          persist_failure python describe run_id error include_result_summary now runs in
        (r ≡ ok tt) × (new : RunRow) × (lookup k runs' ≡ some new) × FailedWith python error new
  unfolding persist_failure finish_failure
  persist_failure-lands k run_id row runs error b now s able c m =
      let category : Text = category_of error in
      let message : Text = sanitize_error python (message_of error) in
      let o : Option DbtResultSummary = included b (summary_of error) in
      let write : RunRow → RunRow = finished_badly now category message o in
      let (done, there) =
        lands k run_id row runs running_or_failed write
          (failure-ok now category message o (sanitize_error-length python (message_of error))) s
          able (unfold finished_badly in refl) in
      let step : persist_failure python describe run_id error b now runs
          ≡ (ok tt, set_rows run_id running_or_failed write runs) =
        stored-ok (finish_failure run_id now category message o) runs
          (set_rows run_id running_or_failed write runs) tt done in
      rw step (
        refl,
        write row,
        there.found,
        (
          unfold finished_badly in refl,
          unfold finished_badly in ground arith,
          unfold finished_badly in ground arith,
        ),
      )

  -- The error handler of the source step.
  source_handler-lands :
      (k : RunKey) (run_id : Text) (row : RunRow) (runs : Runs) (error : Fault) (now : ℕ)
      → Standing k run_id row runs
      → row.status ≡ running
      → row.error_category ≡ none
      → row.error_summary ≡ none
      → let (r, runs') =
          (record_known python describe run_id (summary_of error)
              >> persist_failure python describe run_id error false now)
            runs in
        (r ≡ ok tt) × (new : RunRow) × (lookup k runs' ≡ some new) × FailedWith python error new
  unfolding record_source
  source_handler-lands k run_id row runs error now s live c m =
      elim (Option-cases (summary_of error)) [
        | inl unknown ↦
            rw unknown
              (persist_failure-lands k run_id row runs error false now s (rw live refl) c m)
        | inr (summary, known) ↦
            let (done, there) =
              lands k run_id row runs is_running (with_source summary) (source-ok summary) s
                (rw live refl) (unfold with_source in refl) in
            let after : Runs = set_rows run_id is_running (with_source summary) runs in
            let step : record_known python describe run_id (some summary) runs ≡ (ok tt, after) =
              stored-ok (record_source run_id summary) runs after tt done in
            rw known (
              rw
                (then_ok (record_known python describe run_id (some summary))
                  (λ u. persist_failure python describe run_id error false now) runs after tt step)
                (persist_failure-lands k run_id (with_source summary row) after error false now
                  there (unfold with_source in rw live refl) (unfold with_source in c)
                  (unfold with_source in m)))
      ]

  on_error-raises :
      (body : Action Fault Runs (Unit {0})) (handler : Fault → Action Fault Runs (Unit {0}))
      (runs mid : Runs) (error : Fault)
      → body runs ≡ (raise error, mid)
      → (handler error mid).0 ≡ ok tt
      → on_error python describe body handler runs ≡ (raise error, (handler error mid).1)
  on_error-raises body handler runs mid error h k = ground arith

  -- When the freshness command raises for a run that starts, the source step raises the same error,
  -- and the run's row is `failed` with that error, not one of an earlier attempt.
  pub source_failure_recorded :
      (run_id_of : RefreshRunIdentity → Text) (i : RefreshRunIdentity) (relation run_id : Text)
      (started : Datetime) (maximum : Option Datetime) (error : Fault) (now : ℕ) (runs : Runs)
      → rows_ok runs ≡ true
      → (begin_run run_id_of i started.instant relation runs).0 ≡ ok run_id
      → let (r, runs') =
          record_and_check_source python describe run_id_of i relation started maximum
            (raise error)
            now
            runs in
        (r ≡ raise error)
        × (new : RunRow) × (lookup (identity_key i) runs' ≡ some new)
        × FailedWith python error new
  unfolding record_and_check_source record_watermark begun
  source_failure_recorded run_id_of i relation run_id started maximum error now runs h b =
      let k : RunKey = identity_key i in
      let row : RunRow = begun run_id i started.instant relation in
      let seen : SourceWatermark = read_source_watermark started maximum in
      let write : RunRow → RunRow = with_watermark seen in
      let begins = begin_run-lands run_id_of i started.instant relation run_id runs b in
      let first : Runs = upsert k row runs in
      let standing : Standing k run_id row first = record {
        found = lookup-upsert k k row runs ∙ (rw (eq_self k) refl);
        mine = refl;
        good =
            sym (ap (λ p. rows_ok p.1) begins)
            ∙ begin-ok run_id_of i started.instant relation runs h;
      } in
      let (done, there) =
        lands k run_id row first is_running write (watermark-ok seen) standing refl
          (unfold with_watermark in refl) in
      let second : Runs = set_rows run_id is_running write first in
      let body : Action Fault Runs (Unit {0}) =
        stored python describe (record_watermark run_id seen)
        >> (ran python describe (raise error) >>= λ summary.
            stored python describe (record_source run_id summary)) in
      let handler : Fault → Action Fault Runs (Unit {0}) = λ e.
        record_known python describe run_id (summary_of e)
        >> persist_failure python describe run_id e false now in
      let fails : body first ≡ (raise error, second) =
        then_ok (stored python describe (record_watermark run_id seen))
          (λ u. ran python describe (raise error) >>= λ summary.
            stored python describe (record_source run_id summary))
          first second tt (stored-ok (record_watermark run_id seen) first second tt done) in
      let (handled, new, found, as_failed) =
        source_handler-lands k run_id (write row) second error now there
          (unfold with_watermark in refl) (unfold with_watermark in refl)
          (unfold with_watermark in refl) in
      let whole : record_and_check_source python describe run_id_of i relation started maximum
            (raise error) now runs
          ≡ (raise error, (handler error second).1) =
        then_ok (stored python describe (begin_run run_id_of i started.instant relation))
          (λ id.
            on_error python describe
              (stored python describe (record_watermark id seen)
                >> (ran python describe (raise error) >>= λ summary.
                    stored python describe (record_source id summary)))
              (λ e.
                record_known python describe id (summary_of e)
                >> persist_failure python describe id e false now))
          runs first run_id
          (stored-ok (begin_run run_id_of i started.instant relation) runs first run_id begins)
        ∙ on_error-raises body handler first second error fails handled in
      (ap (λ p. p.0) whole, new, ap (λ p. lookup k p.1) whole ∙ found, as_failed)

  -- When the build command raises for a stored run that is running or has failed, the build step
  -- raises the same error, and the run's row is `failed` with that error, not an earlier one.
  pub build_failure_recorded :
      (run_id_of : RefreshRunIdentity → Text) (i : RefreshRunIdentity) (row : RunRow)
      (error : Fault) (now : ℕ) (runs : Runs)
      → rows_ok runs ≡ true
      → lookup (identity_key i) runs ≡ some row
      → row.run_id ≡ run_id_of i
      → running_or_failed row.status ≡ true
      → let (r, runs') = build python describe run_id_of i (raise error) now runs in
        (r ≡ raise error)
        × (new : RunRow) × (lookup (identity_key i) runs' ≡ some new)
        × FailedWith python error new
  unfolding build resume_build
  build_failure_recorded run_id_of i row error now runs h found mine able =
      let k : RunKey = identity_key i in
      let id : Text = run_id_of i in
      let standing : Standing k id row runs = record { found = found; mine = mine; good = h } in
      let (done, there) =
        lands k id row runs running_or_failed resumed resume-ok standing able
          (unfold resumed in refl) in
      let after : Runs = set_rows id running_or_failed resumed runs in
      let rest : Action Fault Runs (Unit {0}) = ran python describe (raise error) >>= λ summary.
      stored python describe (record_build id summary) in
      let handler : Fault → Action Fault Runs (Unit {0}) =
        λ e. persist_failure python describe id e true now in
      let fails : (stored python describe (resume_build id) >> rest) runs ≡ (raise error, after) =
        then_ok (stored python describe (resume_build id)) (λ u. rest) runs after tt
          (stored-ok (resume_build id) runs after tt done) in
      let (handled, new, stands, as_failed) =
        persist_failure-lands k id (resumed row) after error true now there (unfold resumed in refl)
          (unfold resumed in refl) (unfold resumed in refl) in
      let whole =
        on_error-raises (stored python describe (resume_build id) >> rest) handler runs after error
          fails handled in
      (ap (λ p. p.0) whole, new, ap (λ p. lookup k p.1) whole ∙ stands, as_failed)
