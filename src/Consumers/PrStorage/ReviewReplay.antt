-- ===== src/Consumers/PrStorage/ReviewReplay.antt =====
-- src/github_analytics/consumers/pr_storage.py: a review that is delivered again.
use github_delivery_intellig.Common.{
  ◌≤◌, ◌≡◌, ◌≢◌, inl, inr, none, some, ◌=?◌, pair_eq, int_eq, arith, Option-cases, Bool-cases,
  eq_self,
}
use github_delivery_intellig.Common.Table.{lookup}
use github_delivery_intellig.Common.Result.{ok, Result-cases}
use github_delivery_intellig.Consumers.PrStorage.Models.{
  PullRequestSnapshot, SubmittedReview, ReviewOutcome, recorded,
}
use github_delivery_intellig.Consumers.PrStorage.Statements.{
  snapshot_key, Database, sync_first_review, record_first_review, advance_watermark,
}
use github_delivery_intellig.Consumers.PrStorage.{
  apply_snapshot_state, apply_review, project_if_newer, consider_review,
}
use github_delivery_intellig.Consumers.PrStorage.Watermark.{
  Seen, apply_state-watermarks, advance-Seen, stale-Seen, consider_review-watermarks,
}
use github_delivery_intellig.Consumers.PrStorage.Reviews.{record-first_reviews}

project_if_newer-Seen :
    (s : PullRequestSnapshot) (db db' : Database) → project_if_newer s db ≡ ok db' → Seen s db'
unfolding project_if_newer apply_snapshot_state
project_if_newer-Seen s db db' e = elim (Option-cases (advance_watermark s db)) [
  | inl late ↦ let same : db ≡ db' = ground arith in rw (← same) (stale-Seen s db late)
  | inr (mid, up) ↦
      rw (apply_state-watermarks s.state s mid db' (ground arith)) (advance-Seen s db mid up)
]

pub project_if_newer_known :
    (s : PullRequestSnapshot) (db : Database) → Seen s db → project_if_newer s db ≡ ok db
unfolding project_if_newer advance_watermark
project_if_newer_known s db h = elim (Option-cases (lookup (snapshot_key s) db.watermarks)) [
  | inl e ↦ absurd (rw e at h)
  | inr (w, e) ↦ let late : s.updated_at.instant ≤ w.last_event_at = rw e at h in ground arith
]

-- A review that has been considered is not recorded a second time.
consider_again :
    (r : SubmittedReview) (db : Database)
    → ((consider_review r (consider_review r db).1).1 ≡ (consider_review r db).1)
      × ((consider_review r (consider_review r db).1).0 ≡ recorded → ⊥)
unfolding consider_review
consider_again r db = elim (Bool-cases (r.reviewer_id =? r.pull_request.author_id)) [
  | inl own ↦ (ground arith, λ h. ground arith)
  | inr other ↦ elim (Option-cases (record_first_review r db)) [
    | inl late ↦ (ground arith, λ h. ground arith)
    | inr (mid, found) ↦
        let again : record_first_review r (sync_first_review (snapshot_key r.pull_request) mid)
            ≡ none =
          settled mid found in
        (ground arith, λ h. ground arith)
  ]
]
  where
    settled :
        (mid : Database)
        → record_first_review r db ≡ some mid
        → record_first_review r (sync_first_review (snapshot_key r.pull_request) mid) ≡ none
    settled mid found =
        let at = record-first_reviews r db mid (snapshot_key r.pull_request) found in
        unfold record_first_review sync_first_review in
        ground (arith, at, eq_self (snapshot_key r.pull_request))

-- A review whose call returned changes nothing when it comes again, whatever its outcome was, and
-- is not recorded again.
pub review_again :
    (r : SubmittedReview) (db : Database) (o : ReviewOutcome)
    → (apply_review r db).0 ≡ ok o
    → let db' = (apply_review r db).1 in
      ((apply_review r db').1 ≡ db') × ((apply_review r db').0 ≢ ok recorded)
unfolding apply_review
review_again r db o e = elim (Result-cases (project_if_newer r.pull_request db)) [
  | inr (x, raised) ↦ absurd (ground arith)
  | inl (mid, done) ↦
      let known : Seen r.pull_request (consider_review r mid).1 =
        rw (consider_review-watermarks r mid) (project_if_newer-Seen r.pull_request db mid done) in
      let skipped = project_if_newer_known r.pull_request (consider_review r mid).1 known in
      let again = consider_again r mid in (ground arith, λ h. ground arith)
]
