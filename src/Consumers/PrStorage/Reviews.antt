-- ===== src/Consumers/PrStorage/Reviews.antt =====
-- src/github_analytics/consumers/pr_storage.py: `apply_review` against PrStorage/Spec.
use github_delivery_intellig.Common.{
  ◌≡◌, refl, inl, inr, false, Option, none, some, if◌then◌else◌, ◌=?◌, pair_eq, int_eq,
  pair_beq_iff, arith, Option-cases, Bool-cases, eq_self,
}
use github_delivery_intellig.Common.Table.{lookup, lookup-upsert, lookup-update}
use github_delivery_intellig.Common.Result.{ok, Result-cases}
use github_delivery_intellig.Consumers.PrStorage.Models.{
  PullRequestSnapshot, PullRequestState, open_state, closed_state, SubmittedReview, ReviewOutcome,
}
use github_delivery_intellig.Consumers.PrStorage.Statements.{
  Key, snapshot_key, FirstReview, Database, review_row, sync_first_review, record_first_review,
  with_review,
}
use github_delivery_intellig.Consumers.PrStorage.{apply_review, project_if_newer, consider_review}
use github_delivery_intellig.Consumers.PrStorage.Spec.{
  View, earlier, see_snapshot, see_review, open_row, project, Represents,
}
use github_delivery_intellig.Consumers.PrStorage.Refinement.{project_if_newer-Represents}
use github_delivery_intellig.Common.Table.{map_row}

-- Writing the review columns of an open row gives the row of the view with that review.
map_row-project :
    (f : FirstReview) (o : Option PullRequestSnapshot) (first : Option FirstReview)
    → map_row (with_review f) (project o first) ≡ project o (some f)
map_row-project f none first = refl
map_row-project f (some s) first = go s.state
  where
    go :
        (st : PullRequestState)
        → map_row (with_review f) (open_row st s first) ≡ open_row st s (some f)
    go open_state = refl
    go closed_state = refl

-- The effect of a first review that is recorded.
pub record-first_reviews :
    (r : SubmittedReview) (db db' : Database) (k : Key)
    → record_first_review r db ≡ some db'
    → let key = snapshot_key r.pull_request in
      (lookup k db'.first_reviews
        ≡ (if key =? k then some (review_row r) else lookup k db.first_reviews))
      × (earlier (review_row r) (lookup key db.first_reviews) ≡ some (review_row r))
      × (db'.watermarks ≡ db.watermarks)
      × (db'.open_rows ≡ db.open_rows)
unfolding record_first_review
record-first_reviews r db db' k e =
    let key = snapshot_key r.pull_request in
    elim (Option-cases (lookup key db.first_reviews)) [
      | inl new ↦ ground (arith, lookup-upsert key k (review_row r) db.first_reviews)
      | inr (old, found) ↦ ground (arith, lookup-upsert key k (review_row r) db.first_reviews)
    ]

unrecorded-earlier :
    (r : SubmittedReview) (db : Database)
    → let key = snapshot_key r.pull_request in
      record_first_review r db ≡ none
      → earlier (review_row r) (lookup key db.first_reviews) ≡ lookup key db.first_reviews
unfolding record_first_review
unrecorded-earlier r db e = ground arith

module _ (r : SubmittedReview) (db : Database) (v : Key → View) (h : Represents db v) where
  unchanged-Represents : ((k : Key) → see_review r v k ≡ v k) → Represents db (see_review r v)
  unchanged-Represents same = record {
    watermark_at = λ k. rw (same k) (h.watermark_at k);
    review_at = λ k. rw (same k) (h.review_at k);
    row_at = λ k. rw (same k) (h.row_at k);
  }

  recorded-Represents :
      (mid : Database)
      → (r.reviewer_id =? r.pull_request.author_id) ≡ false
      → record_first_review r db ≡ some mid
      → Represents (sync_first_review (snapshot_key r.pull_request) mid) (see_review r v)
  unfolding sync_first_review
  recorded-Represents mid other e =
      let key = snapshot_key r.pull_request in
      let step = λ (k : Key). record-first_reviews r db mid k e in
      let at_key : lookup key mid.first_reviews ≡ some (review_row r) =
        ground (arith, step key, eq_self key) in
      record {
        watermark_at = λ k. ground (arith, step k, at_key, h.watermark_at k, pair_beq_iff key k);
        review_at = λ k. ground (arith, step k, at_key, h.review_at k, pair_beq_iff key k);
        row_at = λ k. ground (
          arith,
          step k,
          at_key,
          h.row_at k,
          h.review_at k,
          lookup-update key k (with_review (review_row r)) mid.open_rows,
          map_row-project (review_row r) (v k).latest (v k).first,
          pair_beq_iff key k,
        );
      }

consider_review-Represents :
    (r : SubmittedReview) (db : Database) (v : Key → View)
    → Represents db v
    → Represents (consider_review r db).1 (see_review r v)
unfolding consider_review
consider_review-Represents r db v h =
    elim (Bool-cases (r.reviewer_id =? r.pull_request.author_id)) [
      | inl own ↦ rw own (unchanged-Represents r db v h (λ k. ground arith))
      | inr other ↦ elim (Option-cases (record_first_review r db)) [
        | inl late ↦ rw other (
            rw late (
              unchanged-Represents r db v h (λ k. ground (
                arith,
                unrecorded-earlier r db late,
                h.review_at k,
                pair_beq_iff (snapshot_key r.pull_request) k,
              ))))
        | inr (mid, found) ↦ rw other (rw found (recorded-Represents r db v h mid other found))
      ]
    ]

-- `apply_review` takes the snapshot that the review carries into the view of its pull request, also
-- where that snapshot is stale for the tables, and then the review, unless the reviewer is the
-- snapshot's author. No other view changes.
pub apply_review-refines :
    (r : SubmittedReview) (db : Database) (v : Key → View) (o : ReviewOutcome)
    → Represents db v
    → (apply_review r db).0 ≡ ok o
    → Represents (apply_review r db).1 (see_review r (see_snapshot r.pull_request v))
unfolding apply_review
apply_review-refines r db v o h e = elim (Result-cases (project_if_newer r.pull_request db)) [
  | inl (db', done) ↦
      let same : (apply_review r db).1 ≡ (consider_review r db').1 = ground arith in
      rw same (
        consider_review-Represents r db' (see_snapshot r.pull_request v)
          (project_if_newer-Represents r.pull_request db db' v h done))
  | inr (x, raised) ↦ absurd (ground arith)
]
