-- ===== src/Consumers/PrStorage/Statements.antt =====
-- src/github_analytics/consumers/pr_storage.py: the tables that its SQL names, and one function for
-- each statement. The audit columns that default to the database's clock (`projected_at`,
-- `updated_at` of the watermarks), which nothing reads, and the generated `alert_id` are left out.
-- Of the constraints in infra/init/003_create_pr_monitor.sql the unique number of an open pull
-- request is here; the checks on signs and blanks, which the constructors of the snapshots have made
-- before, and the ranges of the number columns are not. The four review columns, which are set or null
-- together, are one optional value.
use github_delivery_intellig.Common.{
  ℕ, ℤ, Bool, true, false, not, ◌&&◌, Option, none, some, [], ◌∷◌, if◌then◌else◌, ltb, leb, is_some,
  ◌=?◌, pair_eq, int_eq,
}
use github_delivery_intellig.Common.Text.{Text}
use github_delivery_intellig.Common.Table.{Table, lookup, upsert, update, delete, insert_new}
use github_delivery_intellig.Common.Result.{Result, ok, raise}
use github_delivery_intellig.Common.Exception.{Exception, unique_violation}
use github_delivery_intellig.Consumers.PrStorage.Models.{PullRequestSnapshot, SubmittedReview}

-- (repository_id, pull_request_id), the primary key of the three serving tables.
abbrev pub Key : Type 0
Key = ℤ × ℤ

abbrev pub snapshot_key : PullRequestSnapshot → Key
snapshot_key s = (s.repository_id, s.pull_request_id)

-- serving.pull_request_projection_watermarks
pub record Watermark : Type 0 where
  pub last_event_at : ℕ
  pub last_delivery_id : Text

-- serving.pull_request_first_reviews
pub record FirstReview : Type 0 where
  pub review_id : ℤ
  pub reviewer_id : ℤ
  pub reviewer_login : Text
  pub submitted_at : ℕ

-- serving.open_pull_requests; `first_eligible` stands for its four columns of that prefix.
pub record OpenRow : Type 0 where
  pub pull_request_number : ℤ
  pub repository_full_name : Text
  pub title : Text
  pub author_id : ℤ
  pub author_login : Text
  pub is_draft : Bool
  pub opened_at : ℕ
  pub last_source_updated_at : ℕ
  pub first_eligible : Option FirstReview

pub data AlertStatus : Type 0 where
  pending sent cancelled : AlertStatus

-- ops.alert_outbox; its key, the text `stale-pull-request:<repository>:<pull request>`, is the pair
-- of the two numbers, and the payload repeats the columns of the row below and the cutoff.
pub record Alert : Type 0 where
  pub pull_request_number : ℤ
  pub created_at : ℕ
  pub payload_row : OpenRow
  pub payload_cutoff : ℕ
  pub status : AlertStatus

pub record Database : Type 0 where
  pub watermarks : Table Key Watermark
  pub open_rows : Table Key OpenRow
  pub first_reviews : Table Key FirstReview
  pub outbox : Table Key Alert

-- `_ADVANCE_WATERMARK`: nothing where the statement returns no row.
unfoldable pub advance_watermark : PullRequestSnapshot → Database → Option Database
advance_watermark s db =
    let next : Database = record db {
      watermarks =
          upsert (snapshot_key s)
            (record { last_event_at = s.updated_at.instant; last_delivery_id = s.delivery_id })
            db.watermarks;
    } in
    elim (lookup (snapshot_key s) db.watermarks) [
      | none ↦ some next
      | some w ↦ if ltb w.last_event_at s.updated_at.instant then some next else none
    ]

-- Another pull request of the repository is open under the snapshot's number.
unfoldable pub number_taken : PullRequestSnapshot → Table Key OpenRow → Bool
number_taken s [] = false
number_taken s ((k, row) ∷ t) =
    if (k.0 =? s.repository_id)
      && not (k.1 =? s.pull_request_id)
      && (row.pull_request_number =? s.pull_request_number)
    then true
    else number_taken s t

abbrev pub kept_review : Option OpenRow → Option FirstReview
kept_review none = none
kept_review (some row) = row.first_eligible

-- `_UPSERT_OPEN_PULL_REQUEST`: a new row has null review columns, and an old one keeps its own.
unfoldable pub upsert_open : PullRequestSnapshot → Database → Result Exception Database
unfolding number_taken
upsert_open s db =
    if number_taken s db.open_rows
    then raise unique_violation
    else ok record db {
      open_rows =
          upsert (snapshot_key s)
            (record {
              pull_request_number = s.pull_request_number;
              repository_full_name = s.repository_full_name;
              title = s.title;
              author_id = s.author_id;
              author_login = s.author_login;
              is_draft = s.is_draft;
              opened_at = s.opened_at.instant;
              last_source_updated_at = s.updated_at.instant;
              first_eligible = kept_review (lookup (snapshot_key s) db.open_rows);
            })
            db.open_rows;
    }

-- `_DELETE_CLOSED_PULL_REQUEST`
unfoldable pub delete_closed : PullRequestSnapshot → Database → Database
delete_closed s db = record db { open_rows = delete (snapshot_key s) db.open_rows }

abbrev pub cancel : Alert → Alert
cancel a = record a { status = elim a.status [ pending ↦ cancelled | other ↦ other ] }

-- `_CANCEL_PENDING_ALERT`
unfoldable pub cancel_pending : PullRequestSnapshot → Database → Database
cancel_pending s db = record db { outbox = update (snapshot_key s) cancel db.outbox }

abbrev pub review_row : SubmittedReview → FirstReview
review_row r = record {
  review_id = r.review_id;
  reviewer_id = r.reviewer_id;
  reviewer_login = r.reviewer_login;
  submitted_at = r.submitted_at.instant;
}

-- `_RECORD_FIRST_ELIGIBLE_REVIEW`: nothing where the statement returns no row.
unfoldable pub record_first_review : SubmittedReview → Database → Option Database
record_first_review r db =
    let key = snapshot_key r.pull_request in
    let next : Database = record db {
      first_reviews = upsert key (review_row r) db.first_reviews;
    } in
    elim (lookup key db.first_reviews) [
      | none ↦ some next
      | some old ↦ if ltb r.submitted_at.instant old.submitted_at then some next else none
    ]

abbrev pub with_review : FirstReview → OpenRow → OpenRow
with_review f row = record row { first_eligible = some f }

-- `_SYNC_FIRST_REVIEW_TO_OPEN`
unfoldable pub sync_first_review : Key → Database → Database
sync_first_review key db = elim (lookup key db.first_reviews) [
  | none ↦ db
  | some f ↦ record db { open_rows = update key (with_review f) db.open_rows }
]

-- The WHERE clause of `_INSERT_STALE_ALERTS`.
unfoldable pub eligible : ℕ → OpenRow → Bool
eligible cutoff row =
    leb row.opened_at cutoff && not (is_some row.first_eligible) && not row.is_draft

abbrev pub stale_alert : ℕ → ℕ → OpenRow → Alert
stale_alert cutoff created_at row = record {
  pull_request_number = row.pull_request_number;
  created_at = created_at;
  payload_row = row;
  payload_cutoff = cutoff;
  status = pending;
}

-- One selected row of `_INSERT_STALE_ALERTS`, which inserts unless its alert key is there.
unfoldable pub alert_for : ℕ → ℕ → Key → OpenRow → Table Key Alert → Table Key Alert
unfolding eligible
alert_for cutoff created_at k row outbox =
    if eligible cutoff row then insert_new k (stale_alert cutoff created_at row) outbox else outbox

-- `_INSERT_STALE_ALERTS` over the open rows.
unfoldable pub insert_stale_alerts : ℕ → ℕ → Table Key OpenRow → Table Key Alert → Table Key Alert
unfolding alert_for
insert_stale_alerts cutoff created_at [] outbox = outbox
insert_stale_alerts cutoff created_at ((k, row) ∷ rows) outbox =
    insert_stale_alerts cutoff created_at rows (alert_for cutoff created_at k row outbox)
