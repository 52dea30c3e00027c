-- ===== src/Consumers/PrStorage/Refinement.antt =====
-- src/github_analytics/consumers/pr_storage.py implements PrStorage/Spec.
use github_delivery_intellig.Common.{
  eq_self, ap, ◌∙◌, ◌≡◌, ◌≢◌, ◌⊎◌, true, Bool-cases, [], ◌∷◌, not, ◌&&◌, refl, inl, inr, Option,
  none, some, if◌then◌else◌, ◌=?◌, pair_eq, int_eq, pair_beq_iff, arith, Option-cases,
}
use github_delivery_intellig.Common.Table.{
  Table, lookup, upsert, lookup-upsert, lookup-update, lookup-delete,
}
use github_delivery_intellig.Common.Result.{ok, raise, Result-cases}
use github_delivery_intellig.Common.Exception.{Exception, unique_violation}
use github_delivery_intellig.Consumers.PrStorage.Models.{
  PullRequestSnapshot, PullRequestState, open_state, closed_state, ProjectionOutcome,
}
use github_delivery_intellig.Consumers.PrStorage.Statements.{
  Key, snapshot_key, FirstReview, OpenRow, number_taken, Database, upsert_open, delete_closed,
  cancel_pending, sync_first_review, advance_watermark, kept_review, with_review,
}
use github_delivery_intellig.Consumers.PrStorage.{
  apply_state, apply_snapshot_state, apply_pull_request, project_if_newer,
}
use github_delivery_intellig.Consumers.PrStorage.Spec.{
  Has, View, newer, see_snapshot, mark, row_of, open_row, project, Represents,
}

-- After an applied snapshot the open row has the snapshot's columns, and the review that the table
-- of first reviews has, or else the one that the old row had.
abbrev reviewed : Option FirstReview → Option FirstReview → Option FirstReview
reviewed none kept = kept
reviewed (some f) kept = some f

apply_state-open_rows :
    (state : PullRequestState) (s : PullRequestSnapshot) (db db' : Database) (j : Key)
    → apply_state state s db ≡ ok db'
    → (lookup j db'.open_rows ≡ (
        if snapshot_key s =? j
        then open_row state s (
            reviewed
              (lookup (snapshot_key s) db.first_reviews)
              (kept_review (lookup (snapshot_key s) db.open_rows)))
        else lookup j db.open_rows))
      × (db'.watermarks ≡ db.watermarks)
      × (db'.first_reviews ≡ db.first_reviews)
unfolding apply_state upsert_open sync_first_review delete_closed cancel_pending
apply_state-open_rows open_state s db db' j h =
    elim (Option-cases (lookup (snapshot_key s) db.first_reviews)) [
      | inl e ↦ ground (
        arith,
        lookup-upsert (snapshot_key s) j
            (row_of s (kept_review (lookup (snapshot_key s) db.open_rows))) db.open_rows,
      )
      | inr (f, e) ↦
          let row = row_of s (kept_review (lookup (snapshot_key s) db.open_rows)) in
          ground (
            arith,
            lookup-upsert (snapshot_key s) j row db.open_rows,
            lookup-update (snapshot_key s) j (with_review f)
                (upsert (snapshot_key s) row db.open_rows),
          )
    ]
apply_state-open_rows closed_state s db db' j h =
    ground (arith, lookup-delete (snapshot_key s) j db.open_rows)

-- The effect of a watermark that advances, or does not.
advance-watermarks :
    (s : PullRequestSnapshot) (db db' : Database) (j : Key) (old : Option PullRequestSnapshot)
    → lookup (snapshot_key s) db.watermarks ≡ mark old
    → advance_watermark s db ≡ some db'
    → (lookup j db'.watermarks
        ≡ (if snapshot_key s =? j then mark (some s) else lookup j db.watermarks))
      × (newer s old ≡ some s)
      × (db'.first_reviews ≡ db.first_reviews)
      × (db'.open_rows ≡ db.open_rows)
unfolding advance_watermark
advance-watermarks s db db' j none at h = ground (
  arith,
  lookup-upsert (snapshot_key s) j
      (record { last_event_at = s.updated_at.instant; last_delivery_id = s.delivery_id })
      db.watermarks,
)
advance-watermarks s db db' j (some t) at h = ground (
  arith,
  lookup-upsert (snapshot_key s) j
      (record { last_event_at = s.updated_at.instant; last_delivery_id = s.delivery_id })
      db.watermarks,
)

stale-newer :
    (s : PullRequestSnapshot) (db : Database) (old : Option PullRequestSnapshot)
    → lookup (snapshot_key s) db.watermarks ≡ mark old
    → advance_watermark s db ≡ none
    → newer s old ≡ old
unfolding advance_watermark
stale-newer s db none at h = ground arith
stale-newer s db (some t) at h = ground arith

-- A view's own review is what its open row has.
project-reviewed :
    (o : Option PullRequestSnapshot) (first : Option FirstReview)
    → reviewed first (kept_review (project o first)) ≡ first
project-reviewed none none = refl
project-reviewed none (some f) = refl
project-reviewed (some s) none = go s.state
  where
    go : (st : PullRequestState) → kept_review (open_row st s none) ≡ none
    go open_state = refl
    go closed_state = refl
project-reviewed (some s) (some f) = refl

see_stale :
    (s : PullRequestSnapshot) (v : Key → View) (k : Key)
    → newer s (v (snapshot_key s)).latest ≡ (v (snapshot_key s)).latest
    → see_snapshot s v k ≡ v k
see_stale s v k h = ground (arith, pair_beq_iff (snapshot_key s) k)

module _ (s : PullRequestSnapshot) (db : Database) (v : Key → View) (h : Represents db v) where
  stale-Represents : advance_watermark s db ≡ none → Represents db (see_snapshot s v)
  stale-Represents stale =
      let same = λ (k : Key).
        see_stale s v k
          (stale-newer s db (v (snapshot_key s)).latest (h.watermark_at (snapshot_key s)) stale) in
      record {
        watermark_at = λ k. rw (same k) (h.watermark_at k);
        review_at = λ k. rw (same k) (h.review_at k);
        row_at = λ k. rw (same k) (h.row_at k);
      }

  applied-Represents :
      (mid db' : Database)
      → advance_watermark s db ≡ some mid
      → apply_snapshot_state s mid ≡ ok db'
      → Represents db' (see_snapshot s v)
  unfolding apply_snapshot_state
  applied-Represents mid db' up e =
      let key = snapshot_key s in
      let step = λ (k : Key). apply_state-open_rows s.state s mid db' k e in
      let mark_at =
        λ (k : Key). advance-watermarks s db mid k (v key).latest (h.watermark_at key) up in
      record {
        watermark_at = λ k. ground (arith, step k, mark_at k, h.watermark_at k, pair_beq_iff key k);
        review_at = λ k. ground (arith, step k, mark_at k, h.review_at k, pair_beq_iff key k);
        row_at = λ k. ground (
          arith,
          step k,
          mark_at k,
          h.row_at k,
          h.row_at key,
          h.review_at key,
          project-reviewed (v key).latest (v key).first,
          pair_beq_iff key k,
        );
      }

pub project_if_newer-Represents :
    (s : PullRequestSnapshot) (db db' : Database) (v : Key → View)
    → Represents db v
    → project_if_newer s db ≡ ok db'
    → Represents db' (see_snapshot s v)
unfolding project_if_newer
project_if_newer-Represents s db db' v h e = elim (Option-cases (advance_watermark s db)) [
  | inl stale ↦ let same : db ≡ db' = ground arith in rw (← same) (stale-Represents s db v h stale)
  | inr (mid, up) ↦ applied-Represents s db v h mid db' up (ground arith)
]

-- A call that returns takes the snapshot into the view of its pull request, and changes no other.
pub applied_or_stale-Represents :
    (s : PullRequestSnapshot) (db : Database) (v : Key → View) (o : ProjectionOutcome)
    → Represents db v
    → (apply_pull_request s db).0 ≡ ok o
    → Represents (apply_pull_request s db).1 (see_snapshot s v)
unfolding apply_pull_request
applied_or_stale-Represents s db v o h e = elim (Option-cases (advance_watermark s db)) [
  | inl stale ↦
      let same : (apply_pull_request s db).1 ≡ db = ground arith in
      rw same (stale-Represents s db v h stale)
  | inr (mid, up) ↦ elim (Result-cases (apply_snapshot_state s mid)) [
    | inl (db', done) ↦
        let same : (apply_pull_request s db).1 ≡ db' = ground arith in
        rw same (applied-Represents s db v h mid db' up done)
    | inr (x, raised) ↦ absurd (ground arith)
  ]
]

-- `apply_pull_request` and the transaction of `apply_review` write the same snapshot.
pub apply_pull_request-eq :
    (s : PullRequestSnapshot) (db : Database)
    → (apply_pull_request s db).1 ≡ elim (project_if_newer s db) [ ok db' ↦ db' | raise e ↦ db ]
unfolding apply_pull_request project_if_newer
apply_pull_request-eq s db = ground arith

advance-open_rows :
    (s : PullRequestSnapshot) (db mid : Database)
    → advance_watermark s db ≡ some mid
    → mid.open_rows ≡ db.open_rows
unfolding advance_watermark
advance-open_rows s db mid e = ground arith

-- Why a call for a snapshot raises: another open pull request has the number of an open one.
raise_rolls_back :
    (s : PullRequestSnapshot) (db : Database) (x : Exception)
    → (apply_pull_request s db).0 ≡ raise x
    → (x ≡ unique_violation)
      × ((apply_pull_request s db).1 ≡ db)
      × (number_taken s db.open_rows ≡ true)
      × (s.state ≡ open_state)
unfolding apply_pull_request apply_snapshot_state
raise_rolls_back s db x h = elim (Option-cases (advance_watermark s db)) [
  | inl late ↦ absurd (ground arith)
  | inr (mid, up) ↦ ground (arith, raised s.state mid (advance-open_rows s db mid up))
]
  where
    raised :
        (state : PullRequestState) (mid : Database)
        → mid.open_rows ≡ db.open_rows
        → apply_state state s mid ≡ raise x
        → (x ≡ unique_violation) × (number_taken s db.open_rows ≡ true) × (state ≡ open_state)
    raised open_state mid same e = unfold apply_state upsert_open in ground arith
    raised closed_state mid same e = unfold apply_state in cc

number_taken-Has :
    (s : PullRequestSnapshot) (rows : Table Key OpenRow)
    → number_taken s rows ≡ true
    → (k : Key) × (row : OpenRow) × Has k row rows
      × (k ≢ snapshot_key s)
      × (k.0 ≡ s.repository_id)
      × (row.pull_request_number ≡ s.pull_request_number)
unfolding number_taken
number_taken-Has s [] h = absurd (cc)
number_taken-Has s ((k, row) ∷ rows) h =
    elim (Bool-cases (
      (k.0 =? s.repository_id)
      && not (k.1 =? s.pull_request_id)
      && (row.pull_request_number =? s.pull_request_number))) [
        | inl mine ↦ (
          k,
          row,
          inl (refl, refl),
          λ e. ground (arith, eq_self s.pull_request_id, ap (λ p. p.1) e),
          ground (arith, int_eq.beq_iff k.0 s.repository_id),
          ground (arith, int_eq.beq_iff row.pull_request_number s.pull_request_number),
        )
        | inr other ↦
            let (j, old, there, another, repository, number) =
              number_taken-Has s rows (ground arith) in
            (j, old, inr there, another, repository, number)
      ]

-- Over tables that hold a view of every pull request, a call of `apply_pull_request` either returns,
-- and then the snapshot is taken into the view of its pull request and no other view changes, or it
-- raises, and then the tables are as they were, the snapshot is an open one, and another open row
-- of its repository has its number.
pub apply_pull_request-refines :
    (s : PullRequestSnapshot) (db : Database) (v : Key → View)
    → Represents db v
    → let (r, db') = apply_pull_request s db in
      (((o : ProjectionOutcome) × (r ≡ ok o) × Represents db' (see_snapshot s v))
        ⊎ ((r ≡ raise unique_violation)
            × (db' ≡ db)
            × (s.state ≡ open_state)
            × (k : Key) × (row : OpenRow) × Has k row db.open_rows
            × (k ≢ snapshot_key s)
            × (k.0 ≡ s.repository_id)
            × (row.pull_request_number ≡ s.pull_request_number)))
apply_pull_request-refines s db v h = elim (Result-cases (apply_pull_request s db).0) [
  | inl (o, returned) ↦ inl (o, returned, applied_or_stale-Represents s db v o h returned)
  | inr (x, raised) ↦
      let (kind, same, taken, opens) = raise_rolls_back s db x raised in
      let (k, row, there, another, repository, number) = number_taken-Has s db.open_rows taken in
      inr (raised ∙ ap raise kind, same, opens, k, row, there, another, repository, number)
]
