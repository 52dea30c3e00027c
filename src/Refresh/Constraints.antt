-- ===== src/Refresh/Constraints.antt =====
-- src/github_analytics/analytics_refresh/storage.py against the CHECK constraints of
-- infra/init/006_create_analytics_refresh_runs.sql that Rows models: which writes keep them.
use github_delivery_intellig.Common.{
  length, ◌≤◌, ◌≡◌, ◌≢◌, refl, ap, ◌∙◌, eq_self, inl, inr, ℕ, Bool, true, Option, some, [], ◌∷◌,
  arith, Option-cases, pair_eq,
}
use github_delivery_intellig.Common.Text.{Text, text_eq}
use github_delivery_intellig.Common.Table.{lookup, upsert}
use github_delivery_intellig.Common.Result.{ok, raise}
use github_delivery_intellig.Common.Exception.{check_violation}
use github_delivery_intellig.Refresh.Models.{
  RunStatus, RefreshRunIdentity, SourceWatermark, DbtResultSummary,
}
use github_delivery_intellig.Refresh.Rows.{
  RunRow, row_ok, begun, with_source, with_watermark, with_build, resumed, finished_badly,
}
use github_delivery_intellig.Refresh.Ledger.{
  Runs, RunKey, identity_key, set_rows, set_row, selected, some_selected, rows_ok, require_write,
  is_running, running_or_failed, begin_run, record_source, record_watermark, record_build,
  resume_build, finish_failure,
}
use github_delivery_intellig.Refresh.Moves.{lookup-set_rows}

abbrev pub KeepsChecks : (RunStatus → Bool) → (RunRow → RunRow) → Type 0
KeepsChecks w f = (row : RunRow) → w row.status ≡ true → row_ok row ≡ true → row_ok (f row) ≡ true

set_rows-ok :
    (run_id : Text) (w : RunStatus → Bool) (f : RunRow → RunRow)
    → KeepsChecks w f
    → (runs : Runs) → rows_ok runs ≡ true
    → rows_ok (set_rows run_id w f runs) ≡ true
unfolding rows_ok set_rows
set_rows-ok run_id w f keeps [] h = refl
set_rows-ok run_id w f keeps ((k, row) ∷ t) h =
    ground (arith, set_rows-ok run_id w f keeps t, keeps row)

unchecked :
    (run_id : Text) (w : RunStatus → Bool) (f : RunRow → RunRow)
    → KeepsChecks w f
    → (runs : Runs) → rows_ok runs ≡ true
    → (require_write run_id w f runs).0 ≢ raise check_violation
unfolding require_write
unchecked run_id w f keeps runs h e = ground (arith, set_rows-ok run_id w f keeps runs h)

pub source-ok : (s : DbtResultSummary) → KeepsChecks is_running (with_source s)
unfolding with_source row_ok
source-ok s row w h = h

pub watermark-ok : (s : SourceWatermark) → KeepsChecks is_running (with_watermark s)
unfolding with_watermark row_ok
watermark-ok s row w h = h

pub build-ok : (s : DbtResultSummary) → KeepsChecks is_running (with_build s)
unfolding with_build row_ok
build-ok s row w h = h

pub resume-ok : KeepsChecks running_or_failed resumed
unfolding resumed row_ok
resume-ok row w h = refl

pub failure-ok :
    (t : ℕ) (category message : Text) (s : Option DbtResultSummary)
    → length message.points ≤ 1000
    → KeepsChecks running_or_failed (finished_badly t category message s)
unfolding finished_badly row_ok
failure-ok t category message s short row w h = ground arith

-- Over rows that satisfy these constraints, no write but a success breaks one, where the message of a
-- failure has at most 1000 characters.
checks_cannot_fail :
    (run_id : Text) (s : DbtResultSummary) (w : SourceWatermark)
    → (t : ℕ) (category message : Text) (o : Option DbtResultSummary) → (runs : Runs)
    → length message.points ≤ 1000
    → rows_ok runs ≡ true
    → ((record_source run_id s runs).0 ≢ raise check_violation)
      × ((record_watermark run_id w runs).0 ≢ raise check_violation)
      × ((record_build run_id s runs).0 ≢ raise check_violation)
      × ((resume_build run_id runs).0 ≢ raise check_violation)
      × ((finish_failure run_id t category message o runs).0 ≢ raise check_violation)
unfolding record_source record_watermark record_build resume_build finish_failure
checks_cannot_fail run_id s w t category message o runs short h = (
  unchecked run_id is_running (with_source s) (source-ok s) runs h,
  unchecked run_id is_running (with_watermark w) (watermark-ok w) runs h,
  unchecked run_id is_running (with_build s) (build-ok s) runs h,
  unchecked run_id running_or_failed resumed resume-ok runs h,
  unchecked run_id running_or_failed (finished_badly t category message o)
      (failure-ok t category message o short) runs h,
)

stored-selected :
    (run_id : Text) (w : RunStatus → Bool) (k : RunKey) (old : RunRow) (runs : Runs)
    → lookup k runs ≡ some old
    → selected run_id w old ≡ true
    → some_selected run_id w runs ≡ true
unfolding lookup some_selected
stored-selected run_id w k old [] h e = absurd (ground arith)
stored-selected run_id w k old ((j, row) ∷ t) h e = ground (arith, stored-selected run_id w k old t)

-- A write to a stored row that its WHERE clause lets through, and that keeps the constraints, returns.
pub require_write-lands :
    (run_id : Text) (w : RunStatus → Bool) (f : RunRow → RunRow) (k : RunKey) (old : RunRow)
    → (runs : Runs) → KeepsChecks w f
    → rows_ok runs ≡ true
    → lookup k runs ≡ some old
    → old.run_id ≡ run_id
    → w old.status ≡ true
    → (require_write run_id w f runs ≡ (ok tt, set_rows run_id w f runs))
      × (lookup k (set_rows run_id w f runs) ≡ some (f old))
      × (rows_ok (set_rows run_id w f runs) ≡ true)
unfolding require_write
require_write-lands run_id w f k old runs keeps h found mine able =
    let hit : selected run_id w old ≡ true = rw mine (ground (arith, able, eq_self run_id)) in
    let some_hit : some_selected run_id w runs ≡ true =
      stored-selected run_id w k old runs found hit in
    let good : rows_ok (set_rows run_id w f runs) ≡ true = set_rows-ok run_id w f keeps runs h in
    let moved : set_row run_id w f old ≡ f old = rw hit refl in
    (ground arith, lookup-set_rows run_id w f k runs ∙ (rw found (ap some moved)), good)

upsert-ok :
    (k : RunKey) (row : RunRow) (runs : Runs)
    → row_ok row ≡ true
    → rows_ok runs ≡ true
    → rows_ok (upsert k row runs) ≡ true
unfolding upsert rows_ok
upsert-ok k row [] good h = ground arith
upsert-ok k row ((j, other) ∷ t) good h = ground (arith, upsert-ok k row t good)

pub begin-ok :
    (run_id_of : RefreshRunIdentity → Text) (i : RefreshRunIdentity) (at : ℕ) (relation : Text)
    → (runs : Runs) → rows_ok runs ≡ true
    → rows_ok (begin_run run_id_of i at relation runs).1 ≡ true
unfolding begin_run
begin-ok run_id_of i at relation runs h = elim (Option-cases (lookup (identity_key i) runs)) [
  | inl new ↦ ground (arith, written (run_id_of i))
  | inr (row, stored) ↦ ground (arith, written row.run_id)
]
  where
    written : (r : Text) → rows_ok (upsert (identity_key i) (begun r i at relation) runs) ≡ true
    written r =
        upsert-ok (identity_key i) (begun r i at relation) runs (unfold begun row_ok in refl) h
