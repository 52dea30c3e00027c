-- ===== src/Consumers/PrStorage.antt =====
-- src/github_analytics/consumers/pr_storage.py: `PostgresPullRequestStorage`. Each method is one
-- transaction, which an exception rolls back.
pub mod Models
pub mod Statements
pub mod Spec
pub mod Refinement
pub mod Reviews
pub mod Watermark
pub mod Convergence
pub mod ReviewReplay
pub mod Alerts
pub mod Lifecycle
mod Tests
use github_delivery_intellig.Common.{
  ℕ, ◌-◌, ◌=?◌, int_eq, Bool, not, ◌||◌, Option, none, some, if◌then◌else◌, length,
}
use github_delivery_intellig.Common.Time.{Datetime}
use github_delivery_intellig.Common.Result.{Result, ok, raise, ◌>>=◌}
use github_delivery_intellig.Common.Exception.{Exception, value_error}
use Models.{
  PullRequestSnapshot, PullRequestState, open_state, closed_state, SubmittedReview,
  ProjectionOutcome, applied, stale, ReviewOutcome, recorded, ineligible, unchanged,
}
use Statements.{
  Database, snapshot_key, advance_watermark, upsert_open, delete_closed, cancel_pending,
  record_first_review, sync_first_review, insert_stale_alerts,
}

-- `with connection.transaction()`
abbrev pub transaction {ℓ} :
    {A : Type ℓ}
    → (Database → Result Exception (A × Database))
    → Database
    → Result Exception A × Database
transaction body db = elim (body db) [ ok (a, db') ↦ (ok a, db') | raise e ↦ (raise e, db) ]

pub apply_state : PullRequestState → PullRequestSnapshot → Database → Result Exception Database
apply_state open_state s db = do
  projected ← upsert_open s db
  ok (sync_first_review (snapshot_key s) projected)
apply_state closed_state s db = ok (cancel_pending s (delete_closed s db))

-- `_apply_snapshot_state`
unfoldable pub apply_snapshot_state : PullRequestSnapshot → Database → Result Exception Database
unfolding apply_state
apply_snapshot_state s db = apply_state s.state s db

unfoldable pub apply_pull_request :
    PullRequestSnapshot → Database → Result Exception ProjectionOutcome × Database
apply_pull_request s = transaction λ db. elim (advance_watermark s db) [
  | none ↦ ok (stale, db)
  | some advanced ↦ do projected ← apply_snapshot_state s advanced; ok (applied, projected)
]

-- The snapshot part of `apply_review`, which goes on where the watermark did not advance.
unfoldable pub project_if_newer : PullRequestSnapshot → Database → Result Exception Database
project_if_newer s db = elim (advance_watermark s db) [
  | none ↦ ok db
  | some advanced ↦ apply_snapshot_state s advanced
]

unfoldable pub consider_review : SubmittedReview → Database → ReviewOutcome × Database
consider_review r db =
    if r.reviewer_id =? r.pull_request.author_id
    then (ineligible, db)
    else elim (record_first_review r db) [
      | none ↦ (unchanged, db)
      | some found ↦ (recorded, sync_first_review (snapshot_key r.pull_request) found)
    ]

unfoldable pub apply_review : SubmittedReview → Database → Result Exception ReviewOutcome × Database
unfolding project_if_newer consider_review
apply_review r =
    transaction
      λ db. do projected ← project_if_newer r.pull_request db; ok (consider_review r projected)

-- `create_stale_alerts`; the rows inserted are those by which the outbox has grown.
unfoldable pub create_stale_alerts : Datetime → Datetime → Database → Result Exception ℕ × Database
create_stale_alerts stale_cutoff created_at db =
    if not stale_cutoff.aware || not created_at.aware
    then (raise value_error, db)
    else let outbox =
        insert_stale_alerts stale_cutoff.instant created_at.instant db.open_rows db.outbox in
      (ok (length outbox - length db.outbox), record db { outbox = outbox })
