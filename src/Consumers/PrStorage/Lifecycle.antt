-- ===== src/Consumers/PrStorage/Lifecycle.antt =====
-- src/github_analytics/consumers/pr_storage.py: what may become of an alert in the outbox.
use github_delivery_intellig.Common.{
  ℕ, ◌<◌, ◌≢◌, ◌≡◌, refl, ◌⊎◌, inl, inr, Option, none, some, [], ◌∷◌, ◌=?◌, pair_eq, int_eq, arith,
  Option-cases, Bool-cases, eq_self,
}
use github_delivery_intellig.Common.Table.{
  Table, lookup, update, lookup-insert_new, lookup-update, lookup-delete,
}
use github_delivery_intellig.Common.Time.{Datetime}
use github_delivery_intellig.Common.Result.{ok, Result-cases}
use github_delivery_intellig.Consumers.PrStorage.Models.{
  PullRequestSnapshot, PullRequestState, open_state, closed_state, SubmittedReview, applied,
}
use github_delivery_intellig.Consumers.PrStorage.Statements.{
  Key, snapshot_key, OpenRow, Watermark, AlertStatus, Alert, sent, pending, cancelled, Database,
  upsert_open, delete_closed, cancel_pending, cancel, sync_first_review, record_first_review,
  advance_watermark, stale_alert, alert_for, insert_stale_alerts,
}
use github_delivery_intellig.Consumers.PrStorage.Refinement.{apply_pull_request-eq}
use github_delivery_intellig.Consumers.PrStorage.{
  apply_state, apply_snapshot_state, apply_pull_request, apply_review, project_if_newer,
  consider_review, create_stale_alerts,
}

-- What may become of an alert: nothing, or a pending one is cancelled.
abbrev pub Follows : Alert → Option Alert → Type 0
Follows a none = ⊥
Follows a (some a') = (a' ≡ a) ⊎ ((a.status ≡ pending) × (a' ≡ record a { status = cancelled }))

cancel-Follows : (a : Alert) → Follows a (some (cancel a))
cancel-Follows a = ground arith

insert_stale_alerts-Follows :
    (cutoff created_at : ℕ) (rows : Table Key OpenRow) (outbox : Table Key Alert) (k : Key)
    (a : Alert)
    → lookup k outbox ≡ some a
    → lookup k (insert_stale_alerts cutoff created_at rows outbox) ≡ some a
unfolding insert_stale_alerts alert_for
insert_stale_alerts-Follows cutoff created_at [] outbox k a h = h
insert_stale_alerts-Follows cutoff created_at ((j, row) ∷ rows) outbox k a h =
    insert_stale_alerts-Follows cutoff created_at rows (alert_for cutoff created_at j row outbox) k
      a (ground (arith, lookup-insert_new j k (stale_alert cutoff created_at row) outbox))

apply_state-outbox :
    (state : PullRequestState) (s : PullRequestSnapshot) (db db' : Database) (k : Key)
    → apply_state state s db ≡ ok db'
    → lookup k db'.outbox ≡ elim state [
      | open_state ↦ lookup k db.outbox
      | closed_state ↦ lookup k (update (snapshot_key s) cancel db.outbox)
    ]
unfolding apply_state upsert_open sync_first_review delete_closed cancel_pending
apply_state-outbox open_state s db db' k h = ground arith
apply_state-outbox closed_state s db db' k h = ground arith

advance-outbox :
    (s : PullRequestSnapshot) (db db' : Database)
    → advance_watermark s db ≡ some db'
    → db'.outbox ≡ db.outbox
unfolding advance_watermark
advance-outbox s db db' e = ground arith

apply_state-Follows :
    (state : PullRequestState) (s : PullRequestSnapshot) (db db' : Database) (k : Key) (a : Alert)
    → lookup k db.outbox ≡ some a
    → apply_state state s db ≡ ok db'
    → Follows a (lookup k db'.outbox)
apply_state-Follows open_state s db db' k a h e =
    rw (apply_state-outbox open_state s db db' k e) (rw h (inl refl))
apply_state-Follows closed_state s db db' k a h e =
    rw (apply_state-outbox closed_state s db db' k e) (
      rw (lookup-update (snapshot_key s) k cancel db.outbox) (
        rw h (elim (Bool-cases (snapshot_key s =? k)) [
          | inl mine ↦ rw mine (cancel-Follows a)
          | inr other ↦ rw other (inl refl)
        ])))

project_if_newer-Follows :
    (s : PullRequestSnapshot) (db db' : Database) (k : Key) (a : Alert)
    → lookup k db.outbox ≡ some a
    → project_if_newer s db ≡ ok db'
    → Follows a (lookup k db'.outbox)
unfolding project_if_newer apply_snapshot_state
project_if_newer-Follows s db db' k a h e = elim (Option-cases (advance_watermark s db)) [
  | inl late ↦ let same : db ≡ db' = ground arith in rw (← same) (rw h (inl refl))
  | inr (mid, up) ↦
      apply_state-Follows s.state s mid db' k a (rw (advance-outbox s db mid up) h) (ground arith)
]

consider_review-outbox :
    (r : SubmittedReview) (db : Database) → (consider_review r db).1.outbox ≡ db.outbox
unfolding consider_review record_first_review sync_first_review
consider_review-outbox r db = ground arith

-- The life of an alert. No snapshot, review or sweep, raising or not, takes an alert out of the
-- outbox or changes anything of it but the status of a pending one to cancelled: what was sent or
-- cancelled stays so, also when the pull request is opened again.
pub alert_lifecycle :
    (s : PullRequestSnapshot) (r : SubmittedReview) (cutoff created_at : Datetime) (db : Database)
    (k : Key) (a : Alert)
    → lookup k db.outbox ≡ some a
    → Follows a (lookup k (apply_pull_request s db).1.outbox)
      × Follows a (lookup k (apply_review r db).1.outbox)
      × (lookup k (create_stale_alerts cutoff created_at db).1.outbox ≡ some a)
unfolding apply_review create_stale_alerts
alert_lifecycle s r cutoff created_at db k a h = (
  elim (Result-cases (project_if_newer s db)) [
    | inl (db', e) ↦
        rw (apply_pull_request-eq s db) (rw e (project_if_newer-Follows s db db' k a h e))
    | inr (x, e) ↦ rw (apply_pull_request-eq s db) (rw e (rw h (inl refl)))
  ],
  elim (Result-cases (project_if_newer r.pull_request db)) [
    | inl (db', e) ↦
        let same : (apply_review r db).1 ≡ (consider_review r db').1 = ground arith in
        rw same (
          rw (consider_review-outbox r db')
            (project_if_newer-Follows r.pull_request db db' k a h e))
    | inr (x, e) ↦ let same : (apply_review r db).1 ≡ db = ground arith in rw same (rw h (inl refl))
  ],
  ground (
    arith,
    insert_stale_alerts-Follows cutoff.instant created_at.instant db.open_rows db.outbox k a h,
  ),
)

-- A snapshot is newer than what is known of its pull request.
abbrev pub NewerThan : PullRequestSnapshot → Option Watermark → Type 0
NewerThan s none = Unit
NewerThan s (some w) = w.last_event_at < s.updated_at.instant

-- What closing makes of an alert: a pending one is cancelled, and any other stays.
abbrev pub Closed : Alert → Option Alert → Type 0
Closed a after =
    ((a.status ≡ pending) × (after ≡ some (record a { status = cancelled })))
    ⊎ (((a.status ≡ sent) ⊎ (a.status ≡ cancelled)) × (after ≡ some a))

cancel-Closed : (a : Alert) → Closed a (some (cancel a))
cancel-Closed a = go a.status refl
  where
    go : (status : AlertStatus) → a.status ≡ status → Closed a (some (cancel a))
    go pending e = inl (e, ground arith)
    go sent e = inr (inl e, ground arith)
    go cancelled e = inr (inr e, ground arith)

newer-advances :
    (s : PullRequestSnapshot) (db : Database)
    → NewerThan s (lookup (snapshot_key s) db.watermarks)
    → advance_watermark s db ≢ none
unfolding advance_watermark
newer-advances s db h e = elim (Option-cases (lookup (snapshot_key s) db.watermarks)) [
  | inl unknown ↦ ground arith
  | inr (w, known) ↦
      let later : w.last_event_at < s.updated_at.instant = rw known at h in ground arith
]

-- A snapshot that closes a pull request, where it is newer than what is known, is applied: the row
-- goes from the projection, and an alert of the pull request is cancelled if it is pending, and stays
-- as it is otherwise.
pub close_cancels :
    (s : PullRequestSnapshot) (db : Database) (a : Alert)
    → s.state ≡ closed_state
    → NewerThan s (lookup (snapshot_key s) db.watermarks)
    → lookup (snapshot_key s) db.outbox ≡ some a
    → let (r, db') = apply_pull_request s db in
      (r ≡ ok applied)
      × (lookup (snapshot_key s) db'.open_rows ≡ none)
      × Closed a (lookup (snapshot_key s) db'.outbox)
unfolding apply_pull_request apply_snapshot_state apply_state delete_closed cancel_pending
close_cancels s db a closed newer h = elim (Option-cases (advance_watermark s db)) [
  | inl late ↦ absurd (newer-advances s db newer late)
  | inr (mid, up) ↦ (
    ground arith,
    ground (
      arith,
      lookup-delete (snapshot_key s) (snapshot_key s) mid.open_rows,
      eq_self (snapshot_key s),
    ),
    let after : lookup (snapshot_key s) (apply_pull_request s db).1.outbox ≡ some (cancel a) =
          ground (
            arith,
            advance-outbox s db mid up,
            lookup-update (snapshot_key s) (snapshot_key s) cancel mid.outbox,
            eq_self (snapshot_key s),
          ) in
        rw after (cancel-Closed a),
  )
]
