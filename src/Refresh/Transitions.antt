-- ===== src/Refresh/Transitions.antt =====
-- src/github_analytics/analytics_refresh/storage.py and models.py: the calls of the run ledger, one
-- and many.
use github_delivery_intellig.Common.{
  ◌≡◌, refl, ◌∙◌, ◌⊎◌, ℕ, true, Option, some, List, [], ◌∷◌, pair_eq,
}
use github_delivery_intellig.Common.Text.{Text, text_eq}
use github_delivery_intellig.Common.Table.{lookup}
use github_delivery_intellig.Refresh.Models.{
  succeeded, allowed, RefreshRunIdentity, SourceWatermark, DbtResultSummary,
}
use github_delivery_intellig.Refresh.Rows.{
  RunRow, with_source, with_watermark, with_build, resumed, finished_well, finished_badly,
}
use github_delivery_intellig.Refresh.Ledger.{
  Runs, RunKey, is_running, running_or_failed, running_or_succeeded, begin_run, record_source,
  record_watermark, record_build, resume_build, finish_success, finish_failure,
}
use github_delivery_intellig.Refresh.Moves.{
  Stored, report, write-Stored, source-Sound, watermark-Sound, build-Sound, resume-Sound,
  success-Sound, failure-Sound, begin-Stored,
}

-- A call of the storage that writes.
pub data Call : Type 0 where
  begin : RefreshRunIdentity → ℕ → Text → Call
  source : Text → DbtResultSummary → Call
  watermark : Text → SourceWatermark → Call
  build : Text → DbtResultSummary → Call
  resume : Text → Call
  success : Text → ℕ → Call
  failure : Text → ℕ → Text → Text → Option DbtResultSummary → Call

-- What a call leaves of the ledger, whether it returns or raises.
unfoldable pub after : (RefreshRunIdentity → Text) → Call → Runs → Runs
after run_id_of (begin identity started_at relation) runs =
    (begin_run run_id_of identity started_at relation runs).1
after run_id_of (source run_id summary) runs = (record_source run_id summary runs).1
after run_id_of (watermark run_id seen) runs = (record_watermark run_id seen runs).1
after run_id_of (build run_id summary) runs = (record_build run_id summary runs).1
after run_id_of (resume run_id) runs = (resume_build run_id runs).1
after run_id_of (success run_id finished_at) runs = (finish_success run_id finished_at runs).1
after run_id_of (failure run_id finished_at category message summary) runs =
    (finish_failure run_id finished_at category message summary runs).1

unfoldable pub after_all : (RefreshRunIdentity → Text) → List Call → Runs → Runs
after_all run_id_of [] runs = runs
after_all run_id_of (c ∷ cs) runs = after_all run_id_of cs (after run_id_of c runs)

call-Stored :
    (run_id_of : RefreshRunIdentity → Text) (c : Call) (runs : Runs) (k : RunKey) (old : RunRow)
    → lookup k runs ≡ some old
    → Stored k old (after run_id_of c runs)
unfolding after record_source record_watermark record_build resume_build finish_success
    finish_failure
call-Stored run_id_of (begin i at relation) runs k old h =
    begin-Stored run_id_of i at relation runs k old h
call-Stored run_id_of (source r s) runs k old h =
    write-Stored r is_running (with_source s) (source-Sound s) runs k old h
call-Stored run_id_of (watermark r s) runs k old h =
    write-Stored r is_running (with_watermark s) (watermark-Sound s) runs k old h
call-Stored run_id_of (build r s) runs k old h =
    write-Stored r is_running (with_build s) (build-Sound s) runs k old h
call-Stored run_id_of (resume r) runs k old h =
    write-Stored r running_or_failed resumed resume-Sound runs k old h
call-Stored run_id_of (success r t) runs k old h =
    write-Stored r running_or_succeeded (finished_well t) (success-Sound t) runs k old h
call-Stored run_id_of (failure r t category message s) runs k old h =
    write-Stored r running_or_failed (finished_badly t category message s)
      (failure-Sound t category message s) runs k old h

-- No call removes a run or changes its `run_id`, and the run's row is either as it was, or of a
-- status that the table of transitions allows.
pub call_moves_rows :
    (run_id_of : RefreshRunIdentity → Text) (c : Call) (runs : Runs) (k : RunKey) (old : RunRow)
    → lookup k runs ≡ some old
    → (new : RunRow) × (lookup k (after run_id_of c runs) ≡ some new)
      × (new.run_id ≡ old.run_id)
      × ((new ≡ old) ⊎ (allowed old.status new.status ≡ true))
call_moves_rows run_id_of c runs k old h =
    let (new, found, moves) = call-Stored run_id_of c runs k old h in
    (new, found, moves.same_run, moves.transition)

-- A succeeded run is succeeded after any sequence of calls, with the report it had.
pub success_is_final :
    (run_id_of : RefreshRunIdentity → Text) (cs : List Call) (runs : Runs) (k : RunKey)
    (old : RunRow)
    → lookup k runs ≡ some old
    → old.status ≡ succeeded
    → (new : RunRow) × (lookup k (after_all run_id_of cs runs) ≡ some new)
      × (new.status ≡ succeeded)
      × (report new ≡ report old)
unfolding after_all
success_is_final run_id_of [] runs k old h e = (old, h, e, refl)
success_is_final run_id_of (c ∷ cs) runs k old h e =
    let (mid, found, moves) = call-Stored run_id_of c runs k old h in
    let (done, same) = moves.final e in
    let (new, last, stays, reports) =
      success_is_final run_id_of cs (after run_id_of c runs) k mid found done in
    (new, last, stays, reports ∙ same)
