-- ===== src/Consumers/PrStorage/Spec.antt =====
-- What src/github_analytics/consumers/pr_storage.py promises, without tables: for each pull request
-- the newest snapshot and the earliest eligible review that were taken in.
use github_delivery_intellig.Common.{
  ◌≡◌, ◌≢◌, ◌⊎◌, [], ◌∷◌, Option, none, some, if◌then◌else◌, ltb, ◌=?◌, pair_eq, int_eq, arith,
}
use github_delivery_intellig.Common.Table.{Table, lookup}
use github_delivery_intellig.Consumers.PrStorage.Models.{
  PullRequestSnapshot, PullRequestState, open_state, closed_state, SubmittedReview,
}
use github_delivery_intellig.Consumers.PrStorage.Statements.{
  Key, snapshot_key, Watermark, FirstReview, OpenRow, Database, review_row,
}

-- A row of the projection, under its key.
abbrev pub Has : Key → OpenRow → Table Key OpenRow → Type 0
Has k row [] = ⊥
Has k row ((j, other) ∷ t) = ((j ≡ k) × (other ≡ row)) ⊎ Has k row t

pub record View : Type 0 where
  pub latest : Option PullRequestSnapshot
  pub first : Option FirstReview

-- Of two snapshots the later one, and the old one if they are of one time.
abbrev pub newer : PullRequestSnapshot → Option PullRequestSnapshot → Option PullRequestSnapshot
newer s none = some s
newer s (some t) = if ltb t.updated_at.instant s.updated_at.instant then some s else some t

-- Of two reviews the earlier one, and the old one if they are of one time.
abbrev pub earlier : FirstReview → Option FirstReview → Option FirstReview
earlier f none = some f
earlier f (some g) = if ltb f.submitted_at g.submitted_at then some f else some g

-- Taking in a snapshot, and a review.
abbrev pub see_snapshot : PullRequestSnapshot → (Key → View) → Key → View
see_snapshot s v k =
    if snapshot_key s =? k
    then record { latest = newer s (v k).latest; first = (v k).first }
    else v k

abbrev pub see_review : SubmittedReview → (Key → View) → Key → View
see_review r v k =
    if (snapshot_key r.pull_request =? k)
    then (if r.reviewer_id =? r.pull_request.author_id
        then v k
        else record { latest = (v k).latest; first = earlier (review_row r) (v k).first })
    else v k

abbrev pub mark : Option PullRequestSnapshot → Option Watermark
mark none = none
mark (some s) =
    some record { last_event_at = s.updated_at.instant; last_delivery_id = s.delivery_id }

abbrev pub row_of : PullRequestSnapshot → Option FirstReview → OpenRow
row_of s first = record {
  pull_request_number = s.pull_request_number;
  repository_full_name = s.repository_full_name;
  title = s.title;
  author_id = s.author_id;
  author_login = s.author_login;
  is_draft = s.is_draft;
  opened_at = s.opened_at.instant;
  last_source_updated_at = s.updated_at.instant;
  first_eligible = first;
}

abbrev pub open_row : PullRequestState → PullRequestSnapshot → Option FirstReview → Option OpenRow
open_row open_state s first = some (row_of s first)
open_row closed_state s first = none

-- The open row of a pull request: there exactly while its newest snapshot is open.
abbrev pub project : Option PullRequestSnapshot → Option FirstReview → Option OpenRow
project none first = none
project (some s) first = open_row s.state s first

-- The tables hold what the views say, at every key.
pub record Represents (db : Database) (v : Key → View) : Type 0 where
  pub watermark_at : (k : Key) → lookup k db.watermarks ≡ mark (v k).latest
  pub review_at : (k : Key) → lookup k db.first_reviews ≡ (v k).first
  pub row_at : (k : Key) → lookup k db.open_rows ≡ project (v k).latest (v k).first

-- Two snapshots of one time for one pull request may disagree; otherwise their order is forgotten.
pub see_snapshot_comm :
    (s t : PullRequestSnapshot) (v : Key → View) (k : Key)
    → s.updated_at.instant ≢ t.updated_at.instant
    → see_snapshot s (see_snapshot t v) k ≡ see_snapshot t (see_snapshot s v) k
see_snapshot_comm s t v k h = ground arith
